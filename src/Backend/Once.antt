-- ===== src/Backend/Once.antt =====
-- What is good for one use in a backend's trust store, src/server/backend-trust-store.ts.
use pipane.Base.{
  ℕ, ◌≡◌, ◌≢◌, ◌≤◌, ◌<◌, Bool, true, Option, none, some, List, [], ◌∷◌, arith, ok, err, is_some,
}
use pipane.Base.Dict.{get, get-put, get-retain}
use pipane.Trust.Types.{Claims}
use pipane.Backend.Store.{
  ticket_already_used, pairing_missing, Pairing, Store, list_active_pairings, create_pairing,
  check_pairing, consume_pairing, check_ticket, authorize_ticket, mark_ticket_used,
  complete_pairing, apply_revocation,
}
use pipane.Backend.History.{
  Call, lists, creates, consumes, authorizes, marks, completes, revokes, step, run,
}
use pipane.Backend.Safety.{prune_lem}

-- No call comes after the time u.
abbrev pub Before : ℕ → List (ℕ × Call) → Type 0
Before u [] = Unit
Before u (c ∷ cs) = (c.0 ≤ u) × Before u cs

-- No pairing is created under the id p.
abbrev pub Fresh : ℕ → List (ℕ × Call) → Type 0
Fresh p [] = Unit
Fresh p ((now, creates id secret ttl) ∷ cs) = (id ≢ p) × Fresh p cs
Fresh p (c ∷ cs) = Fresh p cs

-- A pairing capability that is used up, or gone.
abbrev pub used_up : Option Pairing → Bool
used_up none = true
used_up (some p) = is_some p.used_at

module _ (hash_secret : ℕ → ℕ) where
  step-used_up :
      (p : ℕ) (c : ℕ × Call) (s : Store)
      → Fresh p (c ∷ [])
      → used_up (get p s.state.pairings) ≡ true
      → used_up (get p (step hash_secret c s).state.pairings) ≡ true
  unfolding step list_active_pairings create_pairing consume_pairing authorize_ticket
      mark_ticket_used complete_pairing apply_revocation
  step-used_up p (now, lists) s f h =
      let parts = prune_lem now s in grind (arith, parts, get-retain)
  step-used_up p (now, creates id secret ttl) s f h =
      let parts = prune_lem now s in grind (arith, parts, get-retain, get-put, f.0)
  step-used_up p (now, consumes id secret) s f h = grind (arith, get-put)
  step-used_up p (now, authorizes claims) s f h =
      let parts = prune_lem now s in grind (arith, parts, get-retain)
  step-used_up p (now, marks claims) s f h = ground arith
  step-used_up p (now, completes account) s f h = ground arith
  step-used_up p (now, revokes account none) s f h = ground arith
  step-used_up p (now, revokes account (some e)) s f h = ground arith

  Fresh-head :
      (p : ℕ) (c : ℕ × Call) (cs : List (ℕ × Call))
      → Fresh p (c ∷ cs)
      → Fresh p (c ∷ []) × Fresh p cs
  Fresh-head p (now, lists) cs k = (tt, k)
  Fresh-head p (now, creates id secret ttl) cs k = ((k.0, tt), k.1)
  Fresh-head p (now, consumes id secret) cs k = (tt, k)
  Fresh-head p (now, authorizes claims) cs k = (tt, k)
  Fresh-head p (now, marks claims) cs k = (tt, k)
  Fresh-head p (now, completes account) cs k = (tt, k)
  Fresh-head p (now, revokes account e) cs k = (tt, k)

  pub run-used_up :
      (p : ℕ) (cs : List (ℕ × Call)) (s : Store)
      → Fresh p cs
      → used_up (get p s.state.pairings) ≡ true
      → used_up (get p (run hash_secret cs s).state.pairings) ≡ true
  unfolding run
  run-used_up p [] s f h = h
  run-used_up p (c ∷ cs) s f h =
      let (f₀, f₁) = Fresh-head p c cs f in
      run-used_up p cs (step hash_secret c s) f₁ (step-used_up p c s f₀ h)

  -- A pairing capability is good for one use: after it was consumed, and as long as no new one has
  -- its id, it is refused whatever the time, the secret and the calls in between, and nothing
  -- changes.
  pub run-pairing_once :
      (now p secret later other : ℕ) (cs : List (ℕ × Call)) (s : Store)
      → Fresh p cs
      → (consume_pairing hash_secret now p secret s).0 ≡ ok tt
      → let s' = run hash_secret cs (consume_pairing hash_secret now p secret s).1 in
        consume_pairing hash_secret later p other s' ≡ (err pairing_missing, s')
  unfolding consume_pairing check_pairing
  run-pairing_once now p secret later other cs s f e =
      let s₁ = (consume_pairing hash_secret now p secret s).1 in
      let used = run-used_up p cs s₁ f (grind (arith, get-put)) in ground (arith, used)

  step-spent :
      (u t x : ℕ) (c : ℕ × Call) (s : Store)
      → c.0 ≤ u
      → u < x
      → get t s.state.used_tickets ≡ some x
      → get t (step hash_secret c s).state.used_tickets ≡ some x
  unfolding step list_active_pairings create_pairing consume_pairing authorize_ticket
      mark_ticket_used complete_pairing apply_revocation
  step-spent u t x (now, lists) s b l h =
      let parts = prune_lem now s in grind (arith, parts, get-retain)
  step-spent u t x (now, creates id secret ttl) s b l h =
      let parts = prune_lem now s in grind (arith, parts, get-retain)
  step-spent u t x (now, consumes id secret) s b l h = ground arith
  step-spent u t x (now, authorizes claims) s b l h =
      let parts = prune_lem now s in grind (arith, parts, get-retain)
  step-spent u t x (now, marks claims) s b l h = grind (arith, get-put)
  step-spent u t x (now, completes account) s b l h = ground arith
  step-spent u t x (now, revokes account none) s b l h = ground arith
  step-spent u t x (now, revokes account (some e)) s b l h = ground arith

  run-spent :
      (u t x : ℕ) (cs : List (ℕ × Call)) (s : Store)
      → Before u cs
      → u < x
      → get t s.state.used_tickets ≡ some x
      → get t (run hash_secret cs s).state.used_tickets ≡ some x
  unfolding run
  run-spent u t x [] s b l h = h
  run-spent u t x (c ∷ cs) s b l h =
      run-spent u t x cs (step hash_secret c s) b.1 l (step-spent u t x c s b.0 l h)

  -- A ticket that was marked as used is refused as such until it expires, after any history of
  -- calls, both where it is authorised and where it is marked.
  pub run-ticket_once :
      (later : ℕ) (claims : Claims) (cs : List (ℕ × Call)) (s : Store)
      → Before later cs
      → later < claims.expires_at
      → (mark_ticket_used claims s).0 ≡ ok tt
      → let s' = run hash_secret cs (mark_ticket_used claims s).1 in
        ((authorize_ticket later claims s').0 ≡ err ticket_already_used)
        × (mark_ticket_used claims s' ≡ (err ticket_already_used, s'))
  unfolding mark_ticket_used authorize_ticket check_ticket
  run-ticket_once later claims cs s b l e =
      let s₁ = (mark_ticket_used claims s).1 in
      let kept =
        run-spent later claims.ticket_id claims.expires_at cs s₁ b l (grind (arith, get-put)) in
      let parts = prune_lem later (run hash_secret cs s₁) in
      (grind (arith, kept, parts, get-retain), ground (arith, kept))
