-- ===== src/Sync/Op.antt =====
-- Sync operations of src/shared/jsonl-sync.ts: computeSyncOp, applySyncOp and applySyncOps.
-- computeHash is a parameter, a function from texts to hashes; a hash 0 is the empty string.
use pipane.Base.{
  ℕ, ◌+◌, ◌*◌, ◌||◌, Option, none, some, List, [], ◌∷◌, if◌then◌else◌, ◌==◌, ◌!=◌, ltb, length,
}
use pipane.Sync.Patch.{Text, Patch, compute_patches, apply_patches}

pub data SyncOp : Type 0 where
  full : (content : Text) (hash : ℕ) → SyncOp
  delta : (patches : List Patch) (hash base_hash : ℕ) → SyncOp

-- A text with its hash.
pub record Version : Type 0 where
  pub text : Text
  pub hash : ℕ

-- `patches.reduce((sum, p) => sum + p.insert.length + 20, 0)`
unfoldable pub delta_size : ℕ → List Patch → ℕ
delta_size sum [] = sum
delta_size sum (p ∷ ps) = delta_size (sum + length p.insert + 20) ps

-- computeSyncOp. `deltaSize > newStr.length * 0.8` is decided over the fractions: the rounding of
-- the product does not change the test.
unfoldable pub compute_sync_op : Text → Text → ℕ → ℕ → SyncOp
compute_sync_op old new old_hash new_hash =
    let patches = compute_patches old new in
    if old_hash == 0 || length old == 0
    then full new new_hash
    else if ltb (4 * length new) (5 * delta_size 0 patches)
    then full new new_hash
    else delta patches new_hash old_hash

module _ (compute_hash : Text → ℕ) where
  -- The new version, if its hash is the one that was announced.
  abbrev pub verified : Text → ℕ → Option Version
  verified text hash =
      if compute_hash text != hash then none else some (record { text = text; hash = hash })

  -- applySyncOp
  unfoldable pub apply_sync_op : Version → SyncOp → Option Version
  apply_sync_op v (full text hash) = verified text hash
  apply_sync_op v (delta patches hash base_hash) =
      if base_hash != v.hash then none else verified (apply_patches v.text patches) hash

-- One round of the loop of applySyncOps: no hash is computed.
unfoldable pub chain_op : Version → SyncOp → Option Version
chain_op v (full text hash) = some (record { text = text; hash = hash })
chain_op v (delta patches hash base_hash) =
    if base_hash != v.hash
    then none
    else some (record { text = apply_patches v.text patches; hash = hash })

-- The loop of applySyncOps.
unfoldable pub chain_ops : Version → List SyncOp → Option Version
unfolding chain_op
chain_ops v [] = some v
chain_ops v (op ∷ ops) = elim (chain_op v op) [ none ↦ none | some v' ↦ chain_ops v' ops ]

abbrev pub check_last : (Text → ℕ) → Option Version → Option Version
check_last compute_hash none = none
check_last compute_hash (some v) = verified compute_hash v.text v.hash

-- applySyncOps
unfoldable pub apply_sync_ops : (Text → ℕ) → Version → List SyncOp → Option Version
unfolding chain_ops
apply_sync_ops compute_hash v [] = some v
apply_sync_ops compute_hash v (op ∷ ops) = check_last compute_hash (chain_ops v (op ∷ ops))
