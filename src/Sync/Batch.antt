-- ===== src/Sync/Batch.antt =====
-- What the client holds after the server's operations: src/shared/jsonl-sync.ts, computeSyncOp
-- against applySyncOp and applySyncOps.
use pipane.Base.{
  ◌⊎◌, ℕ, ◌≡◌, refl, Option, none, some, List, [], ◌∷◌, arith, Option-cases, inl, inr,
}
use pipane.Sync.Patch.{Text}
use pipane.Sync.Op.{
  SyncOp, full, delta, Version, compute_sync_op, apply_sync_op, chain_op, chain_ops, apply_sync_ops,
}
use pipane.Sync.RoundTrip.{apply-compute_patches}

module _ (compute_hash : Text → ℕ) where
  -- A text under its own hash.
  abbrev pub version : Text → Version
  version text = record { text = text; hash = compute_hash text }

  -- Whatever operation the server computes between two texts, it takes a client that holds the
  -- first to the second.
  pub apply-compute_sync_op :
      (old new : Text)
      → apply_sync_op compute_hash
          (version old)
          (compute_sync_op old new (compute_hash old) (compute_hash new))
        ≡ some (version new)
  unfolding apply_sync_op compute_sync_op
  apply-compute_sync_op old new = ground (arith, apply-compute_patches old new)

  -- The operations for a sequence of texts, each computed against the one before.
  abbrev pub ops_between : Text → List Text → List SyncOp
  ops_between old [] = []
  ops_between old (new ∷ texts) =
      compute_sync_op old new (compute_hash old) (compute_hash new) ∷ ops_between new texts

  abbrev pub last_text : Text → List Text → Text
  last_text old [] = old
  last_text old (new ∷ texts) = last_text new texts

  chain-compute_sync_op :
      (old new : Text)
      → chain_op (version old) (compute_sync_op old new (compute_hash old) (compute_hash new))
        ≡ some (version new)
  unfolding chain_op compute_sync_op
  chain-compute_sync_op old new = ground (arith, apply-compute_patches old new)

  chain-ops_between :
      (old : Text) (texts : List Text)
      → chain_ops (version old) (ops_between old texts) ≡ some (version (last_text old texts))
  unfolding chain_ops
  chain-ops_between old [] = refl
  chain-ops_between old (new ∷ texts) =
      ground (arith, chain-compute_sync_op old new, chain-ops_between new texts)

  -- A batch of the server's operations for successive texts takes a client that holds the first
  -- text to the last one.
  pub apply-ops_between :
      (old : Text) (texts : List Text)
      → apply_sync_ops compute_hash (version old) (ops_between old texts)
        ≡ some (version (last_text old texts))
  unfolding apply_sync_ops
  apply-ops_between old [] = refl
  apply-ops_between old (new ∷ texts) = ground (arith, chain-ops_between old (new ∷ texts))

  -- applySyncOp, one operation after the other.
  unfoldable pub apply_each : Version → List SyncOp → Option Version
  apply_each v [] = some v
  apply_each v (op ∷ ops) = elim (apply_sync_op compute_hash v op) [
    | none ↦ none
    | some v' ↦ apply_each v' ops
  ]

  -- A result of an operation carries its own hash, and is what the unchecked round gives.
  one_op :
      (v w : Version) (op : SyncOp)
      → apply_sync_op compute_hash v op ≡ some w
      → (chain_op v op ≡ some w) × (compute_hash w.text ≡ w.hash)
  unfolding apply_sync_op chain_op
  one_op v w (full text hash) e = ground arith
  one_op v w (delta patches hash base_hash) e = ground arith

  each_chain :
      (v w : Version) (ops : List SyncOp)
      → compute_hash v.text ≡ v.hash
      → apply_each v ops ≡ some w
      → (chain_ops v ops ≡ some w) × (compute_hash w.text ≡ w.hash)
  unfolding apply_each chain_ops
  each_chain v w [] h e = ground arith
  each_chain v w (op ∷ ops) h e = elim (Option-cases (apply_sync_op compute_hash v op)) [
    | inl failed ↦ ground arith
    | inr (v', done) ↦
        let (step, fits) = one_op v v' op done in ground (arith, step, each_chain v' w ops fits)
  ]

  -- The batch, which hashes once, gives what the single operations give, wherever these succeed.
  pub apply_sync_ops-each :
      (v w : Version) (ops : List SyncOp)
      → compute_hash v.text ≡ v.hash
      → apply_each v ops ≡ some w
      → apply_sync_ops compute_hash v ops ≡ some w
  unfolding apply_sync_ops apply_each
  apply_sync_ops-each v w [] h e = e
  apply_sync_ops-each v w (op ∷ ops) h e = ground (arith, each_chain v w (op ∷ ops) h e)

  -- Neither a single operation nor a batch of them is accepted unless the text that results has
  -- the hash that is reported with it.
  pub sync_verified :
      (v w : Version) (op : SyncOp) (ops : List SyncOp)
      → (apply_sync_op compute_hash v op ≡ some w)
        ⊎ (apply_sync_ops compute_hash v (op ∷ ops) ≡ some w)
      → compute_hash w.text ≡ w.hash
  unfolding apply_sync_ops
  sync_verified v w op ops (inl e) = (one_op v w op e).1
  sync_verified v w op ops (inr e) = ground arith
