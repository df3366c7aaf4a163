-- ===== src/Backend/Safety.antt =====
-- What a backend's trust store, src/server/backend-trust-store.ts, refuses for good.
use pipane.Base.{ℕ, ◌≡◌, ◌≢◌, ◌⊎◌, true, none, some, List, [], ◌∷◌, arith, ok, err, is_some}
use pipane.Base.Dict.{get, get-put, retain}
use pipane.Trust.Types.{connection, Claims}
use pipane.Backend.Store.{
  already_owned, Store, prune, live_pairing, live_ticket, list_active_pairings, create_pairing,
  consume_pairing, check_ticket, authorize_ticket, mark_ticket_used, complete_pairing,
  apply_revocation,
}
use pipane.Backend.History.{
  Call, lists, creates, consumes, authorizes, marks, completes, revokes, step, run,
}

-- The account a does not give the backend up.
abbrev pub Kept : ℕ → List (ℕ × Call) → Type 0
Kept a [] = Unit
Kept a ((now, revokes account none) ∷ cs) = (account ≢ a) × Kept a cs
Kept a ((now, revokes account (some d)) ∷ cs) = ((account ≢ a) ⊎ (d ≢ 0)) × Kept a cs
Kept a (c ∷ cs) = Kept a cs

-- What the prunings of a store do to its parts.
pub prune_lem :
    (now : ℕ) (s : Store)
    → ((prune now s).state.owner_account_id ≡ s.state.owner_account_id)
      × ((prune now s).state.revoked_devices ≡ s.state.revoked_devices)
      × ((prune now s).state.pairings ≡ retain (live_pairing now) s.state.pairings)
      × ((prune now s).state.used_tickets ≡ retain (live_ticket now) s.state.used_tickets)
unfolding prune
prune_lem now s = ground arith

module _ (hash_secret : ℕ → ℕ) where
  step-revoked :
      (d : ℕ) (c : ℕ × Call) (s : Store)
      → is_some (get d s.state.revoked_devices) ≡ true
      → is_some (get d (step hash_secret c s).state.revoked_devices) ≡ true
  unfolding step list_active_pairings create_pairing consume_pairing authorize_ticket
      mark_ticket_used complete_pairing apply_revocation
  step-revoked d (now, lists) s h = let parts = prune_lem now s in ground (arith, parts)
  step-revoked d (now, creates id secret ttl) s h =
      let parts = prune_lem now s in ground (arith, parts)
  step-revoked d (now, consumes id secret) s h = ground arith
  step-revoked d (now, authorizes claims) s h = let parts = prune_lem now s in ground (arith, parts)
  step-revoked d (now, marks claims) s h = ground arith
  step-revoked d (now, completes account) s h = ground arith
  step-revoked d (now, revokes account none) s h = ground arith
  step-revoked d (now, revokes account (some e)) s h = grind (arith, get-put)

  run-device_revoked :
      (d : ℕ) (cs : List (ℕ × Call)) (s : Store)
      → is_some (get d s.state.revoked_devices) ≡ true
      → is_some (get d (run hash_secret cs s).state.revoked_devices) ≡ true
  unfolding run
  run-device_revoked d [] s h = h
  run-device_revoked d (c ∷ cs) s h =
      run-device_revoked d cs (step hash_secret c s) (step-revoked d c s h)

  -- After the owner's revocation of a device, no history of calls lets the device be authorised
  -- for a connection.
  pub run-device_refused :
      (now account d later : ℕ) (claims : Claims) (s : Store) (cs : List (ℕ × Call))
      → s.state.owner_account_id ≡ some account
      → d ≢ 0
      → claims.kind ≡ connection
      → claims.device_id ≡ d
      → (authorize_ticket later claims
          (run hash_secret cs (apply_revocation now account (some d) s))).0
        ≢ ok tt
  unfolding authorize_ticket check_ticket apply_revocation
  run-device_refused now account d later claims s cs o nonzero k same_device e =
      let kept =
        run-device_revoked d cs (apply_revocation now account (some d) s)
          (grind (arith, get-put)) in
      let parts = prune_lem later (run hash_secret cs (apply_revocation now account (some d) s)) in
      ground (arith, kept, parts)

  step-owner :
      (a : ℕ) (c : ℕ × Call) (s : Store)
      → a ≢ 0
      → Kept a (c ∷ [])
      → s.state.owner_account_id ≡ some a
      → (step hash_secret c s).state.owner_account_id ≡ some a
  unfolding step list_active_pairings create_pairing consume_pairing authorize_ticket
      mark_ticket_used complete_pairing apply_revocation
  step-owner a (now, lists) s n k h = let parts = prune_lem now s in ground (arith, parts)
  step-owner a (now, creates id secret ttl) s n k h =
      let parts = prune_lem now s in ground (arith, parts)
  step-owner a (now, consumes id secret) s n k h = ground arith
  step-owner a (now, authorizes claims) s n k h =
      let parts = prune_lem now s in ground (arith, parts)
  step-owner a (now, marks claims) s n k h = ground arith
  step-owner a (now, completes account) s n k h = ground arith
  step-owner a (now, revokes account none) s n k h = ground (arith, k.0)
  step-owner a (now, revokes account (some e)) s n k h = ground (arith, k.0)

  Kept-head :
      (a : ℕ) (c : ℕ × Call) (cs : List (ℕ × Call)) → Kept a (c ∷ cs) → Kept a (c ∷ []) × Kept a cs
  Kept-head a (now, lists) cs k = (tt, k)
  Kept-head a (now, creates id secret ttl) cs k = (tt, k)
  Kept-head a (now, consumes id secret) cs k = (tt, k)
  Kept-head a (now, authorizes claims) cs k = (tt, k)
  Kept-head a (now, marks claims) cs k = (tt, k)
  Kept-head a (now, completes account) cs k = (tt, k)
  Kept-head a (now, revokes account none) cs k = ((k.0, tt), k.1)
  Kept-head a (now, revokes account (some e)) cs k = ((k.0, tt), k.1)

  run-owner :
      (a : ℕ) (cs : List (ℕ × Call)) (s : Store)
      → a ≢ 0
      → Kept a cs
      → s.state.owner_account_id ≡ some a
      → (run hash_secret cs s).state.owner_account_id ≡ some a
  unfolding run
  run-owner a [] s n k h = h
  run-owner a (c ∷ cs) s n k h =
      let (k₀, k₁) = Kept-head a c cs k in
      run-owner a cs (step hash_secret c s) n k₁ (step-owner a c s n k₀ h)

  -- A backend that a pairing gave to an account stays with it until that account gives it up: no
  -- history of other calls lets a pairing for another account complete.
  pub run-owned :
      (a b : ℕ) (cs : List (ℕ × Call)) (s : Store)
      → a ≢ 0
      → b ≢ a
      → Kept a cs
      → (complete_pairing a s).0 ≡ ok tt
      → let s' = run hash_secret cs (complete_pairing a s).1 in
        complete_pairing b s' ≡ (err already_owned, s')
  unfolding complete_pairing
  run-owned a b cs s n other k e =
      let owned = run-owner a cs (complete_pairing a s).1 n k (ground arith) in
      ground (arith, owned)
