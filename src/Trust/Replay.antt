-- ===== src/Trust/Replay.antt =====
-- A connection ticket is good for one route, and a pairing capability for one ticket, whatever
-- other calls come in between.
use pipane.Base.{
  Option-cases, ◌+◌, ◌==◌, ℕ, ◌≡◌, ◌≢◌, ◌≤◌, ◌⊎◌, inl, inr, Option, none, some, List, [], ◌∷◌,
  arith, ok, err, ltb, leb, if◌then◌else◌,
}
use pipane.Base.Dict.{get, get-put, get-retain}
use pipane.Trust.Types.{
  ticket_from_future, ticket_expired, Error, ticket_used, capability_used, pairing, Claims,
  Completion, State, Store, Crypto,
}
use pipane.Trust.Challenges.{persist, state-prune, require_active_device}
use pipane.Trust.Tickets.{verify_ticket, check_ticket_time, spend_ticket, consume_route_ticket}
use pipane.Trust.Pairing.{
  first_pairing, Confirmation, apply_pairing, repeat_pairing, confirm_pairing,
}
use pipane.Trust.Devices.{make_invite, take_invite, drop_device, drop_backend}
use pipane.Trust.History.{Call, step, run}
use pipane.Trust.Writes.{
  Write, unchanged, expired, spent, paired, invited, accepted, device_revoked, backend_revoked,
  step-Write,
}

-- No call comes after the time u.
abbrev pub Before : ℕ → List (ℕ × Call) → Type 0
Before u [] = Unit
Before u (c ∷ cs) = (c.0 ≤ u) × Before u cs

-- The ticket is recorded as used, or it has expired by the time u.
abbrev Spent : ℕ → Claims → State → Type 0
Spent u claims t =
    (get claims.ticket_id t.used_tickets ≡ some claims.expires_at) ⊎ (claims.expires_at ≤ u)

-- What a completed capability answers, and to which ticket.
abbrev answer : Option Completion → Option (ℕ × Confirmation)
answer none = none
answer (some k) = some (
  k.ticket_id,
  record { account_id = k.account_id; device_id = k.device_id; backend_id = k.backend_id },
)

-- How a ticket that was spent is refused.
abbrev pub refusal : ℕ → Claims → Error
refusal now claims =
    if leb claims.expires_at now
    then ticket_expired
    else if ltb (now + 30000) claims.issued_at
    then ticket_from_future
    else ticket_used

module _ (crypto : Crypto) where
  Write-Spent :
      {now u : ℕ} (claims : Claims) {t t' : State}
      → now ≤ u
      → Write crypto now t t'
      → Spent u claims t
      → Spent u claims t'
  unfolding apply_pairing make_invite take_invite drop_device drop_backend require_active_device
  Write-Spent claims h unchanged s = s
  Write-Spent {now} {u} claims {t} h expired s = grind (arith, get-retain)
  Write-Spent claims h (spent other free) s = grind (arith, get-retain, get-put)
  Write-Spent claims h (paired f a p c free e) s = s
  Write-Spent claims h (invited id secret c r t' e) s = ground arith
  Write-Spent claims h (accepted id secret c r t' e) s = ground arith
  Write-Spent claims h (device_revoked c r t' e) s = ground arith
  Write-Spent claims h (backend_revoked c r t' e) s = ground arith

  run-Spent :
      (u : ℕ) (claims : Claims) (cs : List (ℕ × Call)) (s : Store)
      → Before u cs
      → Spent u claims s.state
      → Spent u claims (run crypto cs s).state
  unfolding run
  run-Spent u claims [] s h used = used
  run-Spent u claims (c ∷ cs) s h used =
      run-Spent u claims cs (step crypto c s) h.1
        (Write-Spent claims h.0 (step-Write crypto c s) used)

  -- A successful route leaves its ticket recorded.
  consume_route-Spent :
      (now ticket u : ℕ) (claims : Claims) (s : Store)
      → (consume_route_ticket crypto now ticket s).0 ≡ ok claims
      → (crypto.open_ticket ticket ≡ ok claims)
        × Spent u claims (consume_route_ticket crypto now ticket s).1.state
  unfolding consume_route_ticket verify_ticket check_ticket_time spend_ticket persist
  consume_route-Spent now ticket u claims s e = grind (arith, get-put)

  refused :
      (now ticket : ℕ) (claims : Claims) (s : Store)
      → crypto.open_ticket ticket ≡ ok claims
      → Spent now claims s.state
      → (consume_route_ticket crypto now ticket s).0 ≡ err (refusal now claims)
  unfolding consume_route_ticket verify_ticket check_ticket_time spend_ticket
  refused now ticket claims s e used =
      let kept = state-prune now s in grind (arith, kept, get-retain)

  -- Once a ticket was accepted for a route, it is refused at every later time, after any history of
  -- calls up to then: as expired, as issued in the future (by a clock that went back), or as used.
  pub run-no_replay :
      (now later ticket : ℕ) (claims : Claims) (s : Store) (cs : List (ℕ × Call))
      → (consume_route_ticket crypto now ticket s).0 ≡ ok claims
      → Before later cs
      → (consume_route_ticket crypto later ticket
          (run crypto cs (consume_route_ticket crypto now ticket s).1)).0
        ≡ err (refusal later claims)
  run-no_replay now later ticket claims s cs e h =
      let (opened, used) = consume_route-Spent now ticket later claims s e in
      refused later ticket claims _ opened (run-Spent later claims cs _ h used)

  -- A completed capability stays completed as it is.
  Write-completed :
      {now : ℕ} (p : ℕ) (k : Completion) {t t' : State}
      → Write crypto now t t'
      → get p t.pairing_completions ≡ some k
      → get p t'.pairing_completions ≡ some k
  unfolding apply_pairing make_invite take_invite drop_device drop_backend require_active_device
  Write-completed p k unchanged s = s
  Write-completed p k expired s = s
  Write-completed p k (spent other free) s = s
  Write-completed p k (paired f a q c free e) s = grind (arith, get-put)
  Write-completed p k (invited id secret c r t' e) s = ground arith
  Write-completed p k (accepted id secret c r t' e) s = ground arith
  Write-completed p k (device_revoked c r t' e) s = ground arith
  Write-completed p k (backend_revoked c r t' e) s = ground arith

  run-completed :
      (p : ℕ) (k : Completion) (cs : List (ℕ × Call)) (s : Store)
      → get p s.state.pairing_completions ≡ some k
      → get p (run crypto cs s).state.pairing_completions ≡ some k
  unfolding run
  run-completed p k [] s h = h
  run-completed p k (c ∷ cs) s h =
      run-completed p k cs (step crypto c s) (Write-completed p k (step-Write crypto c s) h)

  confirm-answer :
      (now fresh p : ℕ) (claims : Claims) (r : Confirmation) (s : Store)
      → claims.pair_id ≡ some p
      → (confirm_pairing now fresh claims s).0 ≡ ok r
      → (p ≢ 0)
        × (answer (get p (confirm_pairing now fresh claims s).1.state.pairing_completions)
            ≡ some (claims.ticket_id, r))
  unfolding confirm_pairing first_pairing repeat_pairing persist apply_pairing
  confirm-answer now fresh p claims r s e f = (grind arith, grind (arith, get-put))

  confirm_again :
      (now fresh p : ℕ) (claims : Claims) (k : Completion) (s : Store)
      → claims.pair_id ≡ some p
      → claims.kind ≡ pairing
      → p ≢ 0
      → get p s.state.pairing_completions ≡ some k
      → confirm_pairing now fresh claims s ≡ (repeat_pairing claims k, s)
  unfolding confirm_pairing
  confirm_again now fresh p claims k s e f nonzero done = ground arith

  -- A pairing capability that was confirmed for a ticket gives, after any history, the same answer
  -- to that ticket and writes nothing, and is refused to every other ticket.
  pub run-capability_once :
      (now fresh later other_fresh p : ℕ) (claims others : Claims) (r : Confirmation) (s : Store)
      (cs : List (ℕ × Call))
      → claims.pair_id ≡ some p
      → (confirm_pairing now fresh claims s).0 ≡ ok r
      → others.pair_id ≡ some p
      → others.kind ≡ pairing
      → let s' = run crypto cs (confirm_pairing now fresh claims s).1 in
        confirm_pairing later other_fresh others s'
        ≡ ((if others.ticket_id == claims.ticket_id then ok r else err capability_used), s')
  unfolding repeat_pairing
  run-capability_once now fresh later other_fresh p claims others r s cs e f e' f' =
      let s₁ = (confirm_pairing now fresh claims s).1 in
      let (nonzero, answered) = confirm-answer now fresh p claims r s e f in
      elim (Option-cases (get p s₁.state.pairing_completions)) [
        | inl missing ↦ ground arith
        | inr (k, done) ↦
            let again =
              confirm_again later other_fresh p others k (run crypto cs s₁) e' f' nonzero
                (run-completed p k cs s₁ done) in
            ground (arith, again)
      ]
