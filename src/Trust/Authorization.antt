-- ===== src/Trust/Authorization.antt =====
-- Who is given a ticket for a backend: revocation is final for a device, and lasts for a backend
-- until a pairing with it is confirmed.
use pipane.Base.{
  Option-cases, ℕ, ◌≡◌, ◌≢◌, ◌+◌, ◌<◌, Bool, true, false, Option, none, some, List, [], ◌∷◌, arith,
  ok, is_some, inl, inr,
}
use pipane.Base.Dict.{get, get-put, get-remove}
use pipane.Trust.Types.{connect, Claims, Challenge, Device, State, Store, Crypto}
use pipane.Trust.Challenges.{persist, check_challenge, consume_challenge, require_active_device}
use pipane.Trust.Tickets.{key_of, connection_ticket, issue_connection_ticket}
use pipane.Trust.Pairing.{apply_pairing, device_or_new}
use pipane.Trust.Devices.{
  make_invite, take_invite, drop_device, drop_backend, RevocationResult, revoke_a_device,
  revoke_a_backend, is_device_active, get_backend_owner, get_pending_backend_revocation,
}
use pipane.Trust.Consistency.{Consistent}
use pipane.Trust.History.{
  revokes_backend, revokes_device, step-Inv, Call, step, run, Inv, run-Inv, SoundCalls,
}
use pipane.Trust.Writes.{
  Write, unchanged, expired, spent, paired, invited, accepted, device_revoked, backend_revoked,
  step-Write,
}

-- The device is known and was revoked.
abbrev pub is_revoked : Option Device → Bool
is_revoked none = false
is_revoked (some d) = is_some d.revoked_at

module _ (crypto : Crypto) where
  Write-revoked :
      {now : ℕ} (d : ℕ) {t t' : State}
      → Write crypto now t t'
      → is_revoked (get d t.devices) ≡ true
      → is_revoked (get d t'.devices) ≡ true
  unfolding apply_pairing device_or_new make_invite take_invite drop_device drop_backend
      require_active_device
  Write-revoked d unchanged s = s
  Write-revoked d expired s = s
  Write-revoked d (spent other free) s = s
  Write-revoked d (paired f a q c free e) s = grind (arith, get-put)
  Write-revoked d (invited id secret c r t' e) s = ground arith
  Write-revoked d (accepted id secret c r t' e) s = grind (arith, get-put)
  Write-revoked d (device_revoked c r t' e) s = grind (arith, get-put)
  Write-revoked d (backend_revoked c r t' e) s = ground arith

  run-revoked :
      (d : ℕ) (cs : List (ℕ × Call)) (s : Store)
      → is_revoked (get d s.state.devices) ≡ true
      → is_revoked (get d (run crypto cs s).state.devices) ≡ true
  unfolding run
  run-revoked d [] s h = h
  run-revoked d (c ∷ cs) s h =
      run-revoked d cs (step crypto c s) (Write-revoked d (step-Write crypto c s) h)

  -- The checks behind a connection ticket.
  pub record Passed (now : ℕ) (s : Store) (challenge signature : ℕ) (claims : Claims) : Type 0 where
    pub asked : Challenge
    pub pending : get challenge s.challenges ≡ some asked
    pub in_time : now < asked.expires_at
    pub for_connecting : asked.purpose ≡ connect
    pub signed : crypto.verify_device_signature asked.device_public_key asked signature ≡ true
    pub active : is_device_active s.state asked.device_id ≡ true
    pub owned : get_backend_owner s.state claims.backend_id ≡ claims.account_id
    pub for_account : is_some claims.account_id ≡ true
    pub for_backend : claims.backend_id ≡ key_of asked.backend_id
    pub for_device : claims.device_id ≡ asked.device_id
    pub lasting : claims.expires_at ≡ now + s.ticket_ttl

  pub issue_connection_ticket-Passed :
      (now id challenge signature ticket : ℕ) (claims : Claims) (s : Store)
      → Consistent crypto s.state
      → (issue_connection_ticket crypto now id challenge signature s).0 ≡ ok (ticket, claims)
      → Passed now s challenge signature claims
  unfolding issue_connection_ticket connection_ticket consume_challenge check_challenge
      require_active_device is_device_active get_backend_owner
  issue_connection_ticket-Passed now id challenge signature ticket claims s h e =
      elim (Option-cases (get challenge s.challenges)) [
        | inl missing ↦ absurd (ground arith)
        | inr (c, found) ↦ record {
          asked = c;
          pending = found;
          in_time = ground arith;
          for_connecting = ground arith;
          signed = ground arith;
          active = ground arith;
          owned = ground arith;
          for_account = ground arith;
          for_backend = ground arith;
          for_device = grind (arith, h.device_keyed);
          lasting = ground arith;
        }
      ]

  revoke_a_device-revoked :
      (now challenge signature d : ℕ) (r : RevocationResult) (s : Store)
      → Consistent crypto s.state
      → (revoke_a_device crypto now challenge signature s).0 ≡ ok r
      → r.device_id ≡ some d
      → is_revoked (get d (revoke_a_device crypto now challenge signature s).1.state.devices) ≡ true
  unfolding revoke_a_device drop_device require_active_device consume_challenge persist
  revoke_a_device-revoked now challenge signature d r s h e f =
      grind (arith, h.device_keyed, get-put)

  -- After a device was revoked in a store with the invariant, no history of sound calls lets it have a connection ticket.
  pub run-revoked_device :
      (now challenge signature d later id other other_signature ticket : ℕ) (r : RevocationResult)
      (claims : Claims) (s : Store) (cs : List (ℕ × Call))
      → Inv crypto s
      → SoundCalls crypto cs
      → (revoke_a_device crypto now challenge signature s).0 ≡ ok r
      → r.device_id ≡ some d
      → (issue_connection_ticket crypto later id other other_signature
          (run crypto cs (revoke_a_device crypto now challenge signature s).1)).0
        ≡ ok (ticket, claims)
      → claims.device_id ≢ d
  unfolding is_device_active step
  run-revoked_device now challenge signature d later id other other_signature ticket r claims s cs v
        sound e f g same_device =
      let v₁ = step-Inv crypto (now, revokes_device challenge signature) s tt v in
      let s₁ = (revoke_a_device crypto now challenge signature s).1 in
      let revoked =
        run-revoked d cs s₁
          (revoke_a_device-revoked now challenge signature d r s v.consistent e f) in
      let v₂ : Inv crypto (run crypto cs s₁) = run-Inv crypto cs s₁ sound v₁ in
      let granted =
        issue_connection_ticket-Passed later id other other_signature ticket claims
          (run crypto cs s₁) v₂.consistent g in
      ground (arith, granted.active, granted.for_device, same_device, revoked)

  revoke_a_backend-ownerless :
      (now challenge signature b : ℕ) (r : RevocationResult) (s : Store)
      → (revoke_a_backend crypto now challenge signature s).0 ≡ ok r
      → r.backend_id ≡ some b
      → get b (revoke_a_backend crypto now challenge signature s).1.state.backend_owners ≡ none
  unfolding revoke_a_backend drop_backend require_active_device consume_challenge persist
  revoke_a_backend-ownerless now challenge signature b r s e f = grind (arith, get-remove)

  -- In a store with the invariant, a revoked backend has no owner and its revocation is pending, so no connection ticket for it is
  -- issued.
  pub revoke_a_backend-unowned :
      (now challenge signature b later id other other_signature ticket : ℕ) (r : RevocationResult)
      (claims : Claims) (s : Store)
      → Inv crypto s
      → (revoke_a_backend crypto now challenge signature s).0 ≡ ok r
      → r.backend_id ≡ some b
      → let s' = (revoke_a_backend crypto now challenge signature s).1 in
        (get_backend_owner s'.state b ≡ none)
        × (get_pending_backend_revocation s'.state b
            ≡ some (record { account_id = r.account_id; device_id = none; backend_id = some b }))
        × ((issue_connection_ticket crypto later id other other_signature s').0
            ≢ ok (ticket, record claims { backend_id = b }))
  unfolding revoke_a_backend drop_backend require_active_device consume_challenge persist
      get_backend_owner get_pending_backend_revocation step
  revoke_a_backend-unowned now challenge signature b later id other other_signature ticket r claims
        s v e f =
      (
        revoke_a_backend-ownerless now challenge signature b r s e f,
        grind (arith, get-put),
        λ g.
            let granted =
              issue_connection_ticket-Passed later id other other_signature ticket _ _
                (step-Inv crypto (now, revokes_backend challenge signature) s tt v).consistent g in
            ground (
              arith,
              granted.owned,
              granted.for_account,
              revoke_a_backend-ownerless now challenge signature b r s e f,
            ),
      )
