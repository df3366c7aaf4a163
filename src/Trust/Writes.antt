-- ===== src/Trust/Writes.antt =====
-- The writes to the stored state of the trust store as a relation, each with what it requires: a
-- call of a public method makes at most one of them.
use pipane.Base.{
  none_of, ℕ, ◌≡◌, subst, inl, inr, none, Result, ok, err, ◌>>=◌, ◌>>◌, is_some, Result-cases,
  Bool-cases,
}
use pipane.Base.Dict.{get, put}
use pipane.Trust.Types.{pair, Error, Challenge, Claims, State, Store, Crypto}
use pipane.Trust.Challenges.{
  persist, prune, pruned, state-prune, validate_challenge_context, resolve_challenge_identity,
  create_challenge, consume_challenge,
}
use pipane.Trust.Tickets.{
  issue_pairing_ticket, issue_connection_ticket, verify_ticket, spend_ticket, consume_route_ticket,
}
use pipane.Trust.Pairing.{pairing_account, apply_pairing, first_pairing, confirm_cases}
use pipane.Trust.Devices.{
  InviteCapability, RevocationResult, make_invite, take_invite, drop_device, drop_backend, commit,
  list_authorized_backend_ids, create_invite, accept_invite, revoke_a_device, revoke_a_backend,
}
use pipane.Trust.History.{
  Call, creates_challenge, issues_pairing, issues_connection, routes, confirms, lists, invites,
  accepts, revokes_device, revokes_backend, step,
}

module _ (crypto : Crypto) (now : ℕ) where
  -- `Write t t'`: a call may turn the stored state t into t'.
  pub data Write (t : State) : State → Type 0 where
    unchanged : Write t t
    expired : Write t (pruned now t)
    spent :
        (claims : Claims)
        → get claims.ticket_id (pruned now t).used_tickets ≡ none
        → Write t (record (pruned now t) {
          used_tickets = put claims.ticket_id claims.expires_at (pruned now t).used_tickets;
        })
    paired :
        (fresh account_id pair_id : ℕ) (claims : Claims)
        → get pair_id t.pairing_completions ≡ none
        → pairing_account fresh claims t ≡ ok account_id
        → Write t (apply_pairing now account_id pair_id claims t)
    invited :
        (id secret : ℕ) (c : Challenge) (r : InviteCapability) (t' : State)
        → make_invite crypto now id secret t c ≡ ok (r, t')
        → Write t t'
    accepted :
        (id secret : ℕ) (c : Challenge) (r : ℕ × ℕ) (t' : State)
        → take_invite crypto now id secret t c ≡ ok (r, t')
        → Write t t'
    device_revoked :
        (c : Challenge) (r : RevocationResult) (t' : State)
        → drop_device now t c ≡ ok (r, t')
        → Write t t'
    backend_revoked :
        (c : Challenge) (r : RevocationResult) (t' : State)
        → drop_backend now t c ≡ ok (r, t')
        → Write t t'

  prune-Write : (s : Store) → Write s.state (prune now s).state
  prune-Write s = rw (state-prune now s) expired

  create-Write :
      (id nonce : ℕ) (r : _) (s : Store)
      → Write s.state (create_challenge crypto now id nonce r s).1.state
  unfolding create_challenge
  create-Write id nonce r s =
      let kept = prune now s in
      elim (Result-cases (
        validate_challenge_context kept.state r
        >> resolve_challenge_identity crypto kept.state r)) [
          | inl (who, e) ↦ rw (e, create_challenge) (prune-Write s)
          | inr (x, e) ↦ rw (e, create_challenge) (prune-Write s)
        ]

  spend-Write :
      (claims : Claims) (s : Store) → Write s.state (spend_ticket crypto now claims s).1.state
  unfolding spend_ticket persist
  spend-Write claims s =
      elim (Bool-cases (is_some (get claims.ticket_id (prune now s).state.used_tickets))) [
        | inl used ↦ rw used (prune-Write s)
        | inr fresh ↦ rw fresh (
            rw (state-prune now s) (
              spent claims (
                subst (λ t. get claims.ticket_id t.used_tickets ≡ none) (state-prune now s)
                  (none_of _ fresh))))
      ]

  consume_route-Write :
      (ticket : ℕ) (s : Store) → Write s.state (consume_route_ticket crypto now ticket s).1.state
  unfolding consume_route_ticket
  consume_route-Write ticket s = elim (Result-cases (verify_ticket crypto now ticket)) [
    | inl (claims, e) ↦ rw (e, consume_route_ticket) (spend-Write claims s)
    | inr (x, e) ↦ rw (e, consume_route_ticket) unchanged
  ]

  first_pairing-Write :
      (fresh pair_id : ℕ) (claims : Claims) (s : Store)
      → get pair_id s.state.pairing_completions ≡ none
      → Write s.state (first_pairing now fresh pair_id claims s).1.state
  unfolding first_pairing persist
  first_pairing-Write fresh pair_id claims s free =
      elim (Result-cases (pairing_account fresh claims s.state)) [
        | inl (account_id, e) ↦
            rw (e, first_pairing) (paired fresh account_id pair_id claims free e)
        | inr (x, e) ↦ rw (e, first_pairing) unchanged
      ]

  issued-Write :
      (id challenge signature : ℕ) (s : Store)
      → Write s.state (issue_pairing_ticket crypto now id challenge signature s).1.state
  unfolding issue_pairing_ticket consume_challenge
  issued-Write id challenge signature s =
      elim (Result-cases (consume_challenge crypto now challenge signature pair s).0) [
        | inl (c, e) ↦ rw (e, issue_pairing_ticket) unchanged
        | inr (x, e) ↦ rw (e, issue_pairing_ticket) unchanged
      ]

  committed-Write :
      {A : Type 0} (checked : Result Error Challenge) (f : Challenge → Result Error (A × State))
      (s : Store)
      → ((c : Challenge) (a : A) (t : State) → f c ≡ ok (a, t) → Write s.state t)
      → Write s.state (commit (checked >>= f) s).1.state
  unfolding persist
  committed-Write (err e) f s write = unchanged
  committed-Write (ok c) f s write = elim (Result-cases (f c)) [
    | inl ((a, t), e) ↦ rw e (write c a t e)
    | inr (x, e) ↦ rw e unchanged
  ]

-- Every call makes one of the writes, at its own time.
pub step-Write :
    (crypto : Crypto) (c : ℕ × Call) (s : Store) → Write crypto c.0 s.state (step crypto c s).state
unfolding step consume_challenge issue_connection_ticket list_authorized_backend_ids create_invite
    accept_invite revoke_a_device revoke_a_backend
step-Write crypto (now, creates_challenge id nonce r) s = create-Write crypto now id nonce r s
step-Write crypto (now, issues_pairing id ch sig) s = issued-Write crypto now id ch sig s
step-Write crypto (now, issues_connection id ch sig) s = unchanged
step-Write crypto (now, routes ticket) s = consume_route-Write crypto now ticket s
step-Write crypto (now, confirms fresh claims) s =
    confirm_cases (λ s'. Write crypto now s.state s'.state) now fresh claims s unchanged
      (λ pair_id free. first_pairing-Write crypto now fresh pair_id claims s free)
step-Write crypto (now, lists ch sig) s = unchanged
step-Write crypto (now, invites id secret ch sig) s =
    committed-Write crypto now _ (make_invite crypto now id secret s.state) _
      (λ c r t e. invited id secret c r t e)
step-Write crypto (now, accepts id secret ch sig) s =
    committed-Write crypto now _ (take_invite crypto now id secret s.state) _
      (λ c r t e. accepted id secret c r t e)
step-Write crypto (now, revokes_device ch sig) s =
    committed-Write crypto now _ (drop_device now s.state) _ (λ c r t e. device_revoked c r t e)
step-Write crypto (now, revokes_backend ch sig) s =
    committed-Write crypto now _ (drop_backend now s.state) _ (λ c r t e. backend_revoked c r t e)
