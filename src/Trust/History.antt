-- ===== src/Trust/History.antt =====
-- A history of the rendezvous trust store: any calls of its public methods, in any order, and the
-- invariant that they keep.
use pipane.Base.{
  ℕ, ◌≡◌, ◌≢◌, refl, sym, subst, inl, inr, some, List, [], ◌∷◌, arith, Result, ok, err, ◌>>=◌, ◌>>◌,
  is_some, Result-cases, Bool-cases,
}
use pipane.Base.Dict.{get, get-put, get-remove, get-retain, retain_kept}
use pipane.Trust.Types.{
  pair, connect, discover, create_device_invite, accept_device_invite, revoke_device,
  revoke_backend, Error, Purpose, Request, Challenge, Claims, State, Store, Crypto,
}
use pipane.Trust.Challenges.{
  persist, prune, state-prune, validate_challenge_context, live_invite, live_ticket,
  resolve_challenge_identity, Identity, create_challenge, check_challenge, consume_challenge,
}
use pipane.Trust.Tickets.{
  issue_pairing_ticket, issue_connection_ticket, verify_ticket, spend_ticket, consume_route_ticket,
}
use pipane.Trust.Pairing.{pairing_account, first_pairing, confirm_pairing, confirm_cases}
use pipane.Trust.Devices.{
  make_invite, take_invite, drop_device, drop_backend, commit, list_authorized_backend_ids,
  create_invite, accept_invite, revoke_a_device, revoke_a_backend,
}
use pipane.Trust.Consistency.{
  Consistent, apply_pairing-Consistent, pruned-Consistent, with_tickets-Consistent,
  make_invite-Consistent, take_invite-Consistent, drop_device-Consistent, drop_backend-Consistent,
}

-- A public method that changes the store, with the random values that it draws.
pub data Call : Type 0 where
  creates_challenge : (id nonce : ℕ) → Request → Call
  issues_pairing : (id challenge signature : ℕ) → Call
  issues_connection : (id challenge signature : ℕ) → Call
  routes : (ticket : ℕ) → Call
  confirms : (fresh : ℕ) → Claims → Call
  lists : (challenge signature : ℕ) → Call
  invites : (id secret challenge signature : ℕ) → Call
  accepts : (id secret challenge signature : ℕ) → Call
  revokes_device : (challenge signature : ℕ) → Call
  revokes_backend : (challenge signature : ℕ) → Call

module _ (crypto : Crypto) where
  -- The store after one call at a time of the clock.
  unfoldable pub step : ℕ × Call → Store → Store
  step (now, creates_challenge id nonce r) s = (create_challenge crypto now id nonce r s).1
  step (now, issues_pairing id ch sig) s = (issue_pairing_ticket crypto now id ch sig s).1
  step (now, issues_connection id ch sig) s = (issue_connection_ticket crypto now id ch sig s).1
  step (now, routes ticket) s = (consume_route_ticket crypto now ticket s).1
  step (now, confirms fresh claims) s = (confirm_pairing now fresh claims s).1
  step (now, lists ch sig) s = (list_authorized_backend_ids crypto now ch sig s).1
  step (now, invites id secret ch sig) s = (create_invite crypto now ch sig id secret s).1
  step (now, accepts id secret ch sig) s = (accept_invite crypto now ch sig id secret s).1
  step (now, revokes_device ch sig) s = (revoke_a_device crypto now ch sig s).1
  step (now, revokes_backend ch sig) s = (revoke_a_backend crypto now ch sig s).1

  unfoldable pub run : List (ℕ × Call) → Store → Store
  run [] s = s
  run (c ∷ cs) s = run cs (step c s)

  -- The claims that a confirmation is given come from a ticket of this store: the device id is the
  -- key's, and an account id is no empty string. A fresh account id is none either.
  pub record SoundClaims (fresh : ℕ) (claims : Claims) : Type 0 where
    pub derived : crypto.derive_device_id claims.device_public_key ≡ some claims.device_id
    pub named : claims.account_id ≢ some 0
    pub fresh_named : fresh ≢ 0

  abbrev pub SoundCall : ℕ × Call → Type 0
  SoundCall (now, confirms fresh claims) = SoundClaims fresh claims
  SoundCall (now, _) = Unit

  abbrev pub SoundCalls : List (ℕ × Call) → Type 0
  SoundCalls [] = Unit
  SoundCalls (c ∷ cs) = SoundCall c × SoundCalls cs

  -- The references agree, a pending challenge names the id of its key, and the file holds the state.
  pub record Inv (s : Store) : Type 0 where
    pub consistent : Consistent crypto s.state
    pub challenge_derived :
        (id : ℕ) (c : Challenge)
        → get id s.challenges ≡ some c
        → crypto.derive_device_id c.device_public_key ≡ some c.device_id
    pub durable : s.disk ≡ s.state

  pub prune-Inv : (now : ℕ) (s : Store) → Inv s → Inv (prune now s)
  unfolding prune persist
  prune-Inv now s v = record {
    consistent =
        subst (Consistent crypto) (sym (state-prune now s))
          (pruned-Consistent crypto v.consistent now);
    challenge_derived = λ id c p. grind (arith, v.challenge_derived id c, get-retain);
    durable = ground (
      arith,
      v.durable,
      retain_kept (live_invite now) s.state.device_invites,
      retain_kept (live_ticket now) s.state.used_tickets,
    );
  }

  resolve-derived :
      (s : State) (r : Request) (who : Identity)
      → Consistent crypto s
      → resolve_challenge_identity crypto s r ≡ ok who
      → crypto.derive_device_id who.public_key ≡ some who.device_id
  unfolding resolve_challenge_identity
  resolve-derived s r who h e = grind (arith, h.device_derived, h.device_keyed)

  consume-derived :
      (now id sig : ℕ) (p : Purpose) (s : Store) (c : Challenge)
      → Inv s
      → (consume_challenge crypto now id sig p s).0 ≡ ok c
      → crypto.derive_device_id c.device_public_key ≡ some c.device_id
  unfolding consume_challenge check_challenge
  consume-derived now id sig p s c v e = grind (arith, v.challenge_derived id c)

  consume-Inv :
      (now id sig : ℕ) (p : Purpose) (s : Store)
      → Inv s
      → Inv (consume_challenge crypto now id sig p s).1
  unfolding consume_challenge
  consume-Inv now id sig p s v = record {
    consistent = v.consistent;
    challenge_derived = λ i c p. grind (arith, v.challenge_derived i c, get-remove);
    durable = v.durable;
  }

  commit-Inv {ℓ} :
      {A : Type ℓ} (r : Result Error (A × State)) (s : Store)
      → Inv s
      → ((a : A) (s' : State) → r ≡ ok (a, s') → Consistent crypto s')
      → Inv (commit r s).1
  unfolding persist
  commit-Inv (err e) s v h = v
  commit-Inv (ok (a, s')) s v h = record {
    consistent = h a s' refl;
    challenge_derived = v.challenge_derived;
    durable = refl;
  }

  pub bind-ok :
      {A B : Type 0} (r : Result Error A) (f : A → Result Error B) (b : B)
      → (r >>= f) ≡ ok b
      → (a : A) × (r ≡ ok a) × (f a ≡ ok b)
  bind-ok (ok a) f b e = (a, refl, e)
  bind-ok (err x) f b e = cc

  create-Inv :
      (now id nonce : ℕ) (r : Request) (s : Store)
      → Inv s
      → Inv (create_challenge crypto now id nonce r s).1
  unfolding create_challenge
  create-Inv now id nonce r s v =
      let kept = prune now s in
      let kept-Inv = prune-Inv now s v in
      elim (Result-cases (
        validate_challenge_context kept.state r
        >> resolve_challenge_identity crypto kept.state r)) [
          | inl (who, e) ↦
              let (_, _, resolved) = bind-ok (validate_challenge_context kept.state r) _ who e in
              let derived = resolve-derived kept.state r who kept-Inv.consistent resolved in
              rw (e, create_challenge)
                (record {
                  consistent = kept-Inv.consistent;
                  challenge_derived =
                      λ i c p. grind (arith, derived, kept-Inv.challenge_derived i c, get-put);
                  durable = kept-Inv.durable;
                })
          | inr (x, e) ↦ rw (e, create_challenge) kept-Inv
        ]

  spend-Inv :
      (now : ℕ) (claims : Claims) (s : Store) → Inv s → Inv (spend_ticket crypto now claims s).1
  unfolding spend_ticket persist
  spend-Inv now claims s v =
      let kept = prune now s in
      let kept-Inv = prune-Inv now s v in
      elim (Bool-cases (is_some (get claims.ticket_id kept.state.used_tickets))) [
        | inl used ↦ rw used kept-Inv
        | inr fresh ↦ rw fresh (record {
          consistent = with_tickets-Consistent crypto kept-Inv.consistent _;
          challenge_derived = kept-Inv.challenge_derived;
          durable = refl;
        })
      ]

  consume_route-Inv :
      (now ticket : ℕ) (s : Store) → Inv s → Inv (consume_route_ticket crypto now ticket s).1
  unfolding consume_route_ticket
  consume_route-Inv now ticket s v = elim (Result-cases (verify_ticket crypto now ticket)) [
    | inl (claims, e) ↦ rw (e, consume_route_ticket) (spend-Inv now claims s v)
    | inr (x, e) ↦ rw (e, consume_route_ticket) v
  ]

  first_pairing-Inv :
      (now fresh pair_id : ℕ) (claims : Claims) (s : Store)
      → SoundClaims fresh claims
      → Inv s
      → Inv (first_pairing now fresh pair_id claims s).1
  unfolding first_pairing persist
  first_pairing-Inv now fresh pair_id claims s sound v =
      elim (Result-cases (pairing_account fresh claims s.state)) [
        | inl (account_id, e) ↦
            rw (e, first_pairing)
              (record {
                consistent =
                    apply_pairing-Consistent crypto v.consistent claims now fresh pair_id account_id
                      sound.derived sound.named sound.fresh_named e;
                challenge_derived = v.challenge_derived;
                durable = refl;
              })
        | inr (x, e) ↦ rw (e, first_pairing) v
      ]

  confirm-Inv :
      (now fresh : ℕ) (claims : Claims) (s : Store)
      → SoundClaims fresh claims
      → Inv s
      → Inv (confirm_pairing now fresh claims s).1
  confirm-Inv now fresh claims s sound v =
      confirm_cases Inv now fresh claims s v
        (λ pair_id _. first_pairing-Inv now fresh pair_id claims s sound v)

  issued-Inv :
      (now id challenge signature : ℕ) (s : Store)
      → Inv s
      → Inv (issue_pairing_ticket crypto now id challenge signature s).1
  unfolding issue_pairing_ticket
  issued-Inv now id challenge signature s v =
      let v' = consume-Inv now challenge signature pair s v in
      elim (Result-cases (consume_challenge crypto now challenge signature pair s).0) [
        | inl (c, e) ↦ rw (e, issue_pairing_ticket) v'
        | inr (x, e) ↦ rw (e, issue_pairing_ticket) v'
      ]

  -- A call that consumes a challenge and commits what `f` makes of it.
  committed-Inv :
      {A : Type 0} (p : Purpose) (now challenge signature : ℕ)
      (f : State → Challenge → Result Error (A × State)) (s : Store)
      → ((state : State) (c : Challenge) (a : A) (s' : State)
          → Consistent crypto state
          → crypto.derive_device_id c.device_public_key ≡ some c.device_id
          → f state c ≡ ok (a, s')
          → Consistent crypto s')
      → Inv s
      → let (checked, s') = consume_challenge crypto now challenge signature p s in
        Inv (commit (checked >>= f s'.state) s').1
  committed-Inv p now challenge signature f s keep v =
      let (checked, s') = consume_challenge crypto now challenge signature p s in
      let v' = consume-Inv now challenge signature p s v in
      commit-Inv (checked >>= f s'.state) s' v' (λ a t e.
        let (c, passed, made) = bind-ok checked (f s'.state) (a, t) e in
        keep s'.state c a t v'.consistent (consume-derived now challenge signature p s c v passed)
          made)

  -- Every call keeps the invariant.
  pub step-Inv : (c : ℕ × Call) (s : Store) → SoundCall c → Inv s → Inv (step c s)
  unfolding step issue_pairing_ticket issue_connection_ticket list_authorized_backend_ids
      create_invite accept_invite revoke_a_device revoke_a_backend
  step-Inv (now, creates_challenge id nonce r) s sound v = create-Inv now id nonce r s v
  step-Inv (now, issues_pairing id ch sig) s sound v = issued-Inv now id ch sig s v
  step-Inv (now, issues_connection id ch sig) s sound v = consume-Inv now ch sig connect s v
  step-Inv (now, routes ticket) s sound v = consume_route-Inv now ticket s v
  step-Inv (now, confirms fresh claims) s sound v = confirm-Inv now fresh claims s sound v
  step-Inv (now, lists ch sig) s sound v = consume-Inv now ch sig discover s v
  step-Inv (now, invites id secret ch sig) s sound v =
      committed-Inv create_device_invite now ch sig (make_invite crypto now id secret) s
        (λ t c a t' h k e. make_invite-Consistent crypto h c now id secret a t' e) v
  step-Inv (now, accepts id secret ch sig) s sound v =
      committed-Inv accept_device_invite now ch sig (take_invite crypto now id secret) s
        (λ t c a t' h k e. take_invite-Consistent crypto h c now id secret a t' k e) v
  step-Inv (now, revokes_device ch sig) s sound v =
      committed-Inv revoke_device now ch sig (drop_device now) s
        (λ t c a t' h k e. drop_device-Consistent crypto h c now a t' e) v
  step-Inv (now, revokes_backend ch sig) s sound v =
      committed-Inv revoke_backend now ch sig (drop_backend now) s
        (λ t c a t' h k e. drop_backend-Consistent crypto h c now a t' e) v

  -- Any history of sound calls keeps the invariant: references are consistent, every pending
  -- challenge names the id of its key, and the file holds the state.
  pub run-Inv : (cs : List (ℕ × Call)) (s : Store) → SoundCalls cs → Inv s → Inv (run cs s)
  unfolding run
  run-Inv [] s sound v = v
  run-Inv (c ∷ cs) s sound v = run-Inv cs (step c s) sound.1 (step-Inv c s sound.0 v)
