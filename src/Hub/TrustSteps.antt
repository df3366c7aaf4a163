-- ===== src/Hub/TrustSteps.antt =====
-- What the calls that the hub makes of the trust store do to owners and completed pairings.
use pipane.Base.{ℕ, ◌≡◌, ◌≢◌, inl, inr, none, some, arith, ok, err, Option-cases}
use pipane.Base.Dict.{get, remove, get-put}
use pipane.Trust.Types.{Claims, State, Store, Crypto, Error}
use pipane.Trust.Challenges.{
  persist, state-prune, consume_challenge, create_challenge, require_active_device,
}
use pipane.Trust.Tickets.{key_of, consume_route_ticket, spend_ticket, issue_pairing_ticket}
use pipane.Trust.Pairing.{
  Confirmation, pairing_account, apply_pairing, first_pairing, repeat_pairing, confirm_pairing,
  confirm_cases,
}
use pipane.Trust.Devices.{
  RevocationResult, get_backend_owner, drop_device, drop_backend, make_invite, take_invite,
  revoke_a_device, revoke_a_backend, create_invite, accept_invite,
}
use pipane.Hub.Sound.{Completed}

-- The same owners and completed pairings.
pub record SameOwners (t t' : State) : Type 0 where
  pub owners : t'.backend_owners ≡ t.backend_owners
  pub completions : t'.pairing_completions ≡ t.pairing_completions

module _ (now fresh : ℕ) (claims : Claims) (s : Store) (n : fresh ≢ 0)
    (named : claims.account_id ≢ some 0) where
  -- An owner stays where a pairing is confirmed.
  pub confirm_pairing-owner :
      (x a : ℕ)
      → a ≢ 0
      → get_backend_owner s.state x ≡ some a
      → get_backend_owner (confirm_pairing now fresh claims s).1.state x ≡ some a
  unfolding get_backend_owner first_pairing pairing_account apply_pairing persist
  confirm_pairing-owner x a nonzero owner =
      confirm_cases (λ s'. get x s'.state.backend_owners ≡ some a) now fresh claims s owner
        (λ p free. grind (arith, get-put))

  pub confirm_pairing-Completed :
      Completed s.state → Completed (confirm_pairing now fresh claims s).1.state
  unfolding first_pairing pairing_account apply_pairing persist
  confirm_pairing-Completed done =
      confirm_cases (λ s'. Completed s'.state) now fresh claims s done
        (λ p free q k e. grind (arith, get-put, done q k))

  pub confirm_pairing-account :
      (c : Confirmation)
      → Completed s.state
      → (confirm_pairing now fresh claims s).0 ≡ ok c
      → c.account_id ≢ 0
  unfolding confirm_pairing first_pairing pairing_account repeat_pairing
  confirm_pairing-account c done e zero_account = elim (Option-cases claims.pair_id) [
    | inl nobody ↦ ground arith
    | inr (p, given) ↦ elim (Option-cases (get p s.state.pairing_completions)) [
      | inl new ↦ ground arith
      | inr (k, found) ↦ let old = done p k found in ground arith
    ]
  ]

module _ (crypto : Crypto) (now : ℕ) (s : Store) where
  pub consume_route_ticket-SameOwners :
      (ticket : ℕ) → SameOwners s.state (consume_route_ticket crypto now ticket s).1.state
  unfolding consume_route_ticket spend_ticket persist
  consume_route_ticket-SameOwners ticket =
      let kept = state-prune now s in
      record { owners = ground (arith, kept); completions = ground (arith, kept) }

  pub revoke_a_device-SameOwners :
      (c sig : ℕ) → SameOwners s.state (revoke_a_device crypto now c sig s).1.state
  unfolding revoke_a_device drop_device consume_challenge persist
  revoke_a_device-SameOwners c sig = record { owners = ground arith; completions = ground arith }

  pub revoke_a_backend-owners :
      (c sig : ℕ) (r : RevocationResult)
      → (revoke_a_backend crypto now c sig s).0 ≡ ok r
      → ((revoke_a_backend crypto now c sig s).1.state.backend_owners
          ≡ remove (key_of r.backend_id) s.state.backend_owners)
        × (get (key_of r.backend_id) s.state.backend_owners ≡ some r.account_id)
        × (r.device_id ≡ none)
  unfolding revoke_a_backend drop_backend consume_challenge persist require_active_device
  revoke_a_backend-owners c sig r e = (ground arith, ground arith, ground arith)

  pub revoke_a_backend-completions :
      (c sig : ℕ)
      → (revoke_a_backend crypto now c sig s).1.state.pairing_completions
        ≡ s.state.pairing_completions
  unfolding revoke_a_backend drop_backend consume_challenge persist
  revoke_a_backend-completions c sig = ground arith

  pub revoke_a_backend-failed :
      (c sig : ℕ) (x : Error)
      → (revoke_a_backend crypto now c sig s).0 ≡ err x
      → (revoke_a_backend crypto now c sig s).1.state ≡ s.state
  unfolding revoke_a_backend consume_challenge
  revoke_a_backend-failed c sig x e = ground arith

  pub create_challenge-SameOwners :
      (id nonce : ℕ) (r : _) → SameOwners s.state (create_challenge crypto now id nonce r s).1.state
  unfolding create_challenge
  create_challenge-SameOwners id nonce r =
      let kept = state-prune now s in
      record { owners = ground (arith, kept); completions = ground (arith, kept) }

  pub create_invite-SameOwners :
      (c sig id secret : ℕ)
      → SameOwners s.state (create_invite crypto now c sig id secret s).1.state
  unfolding create_invite make_invite consume_challenge persist
  create_invite-SameOwners c sig id secret = record {
    owners = ground arith;
    completions = ground arith;
  }

  pub accept_invite-SameOwners :
      (c sig id secret : ℕ)
      → SameOwners s.state (accept_invite crypto now c sig id secret s).1.state
  unfolding accept_invite take_invite consume_challenge persist
  accept_invite-SameOwners c sig id secret = record {
    owners = ground arith;
    completions = ground arith;
  }

  pub issue_pairing_ticket-SameOwners :
      (id c sig : ℕ) → SameOwners s.state (issue_pairing_ticket crypto now id c sig s).1.state
  unfolding issue_pairing_ticket consume_challenge
  issue_pairing_ticket-SameOwners id c sig = record {
    owners = ground arith;
    completions = ground arith;
  }
