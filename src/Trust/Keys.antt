-- ===== src/Trust/Keys.antt =====
-- src/rendezvous/trust-store.ts: whose signature a challenge needs. A challenge whose purpose is open
-- to known devices only carries the stored key of its device.
use pipane.Base.{
  ◌⊎◌, ◌==◌, ◌≢◌, Result-cases, Bool-cases, ℕ, ◌≡◌, refl, Option, none, some, List, [], ◌∷◌, arith,
  ◌>>◌, Result, ok, err, inl, inr, false,
}
use pipane.Base.Dict.{get, get-put, get-remove, get-retain}
use pipane.Trust.Types.{
  pair, connect, discover, create_device_invite, accept_device_invite, revoke_device,
  revoke_backend, Error, Purpose, Request, Claims, Challenge, Device, State, Store, Crypto,
}
use pipane.Trust.Challenges.{
  admits_new_device, persist, prune, validate_challenge_context, resolve_challenge_identity,
  Identity, create_challenge, consume_challenge, require_active_device,
}
use pipane.Trust.Tickets.{
  issue_pairing_ticket, issue_connection_ticket, verify_ticket, spend_ticket, consume_route_ticket,
}
use pipane.Trust.Pairing.{
  apply_pairing, device_or_new, first_pairing, confirm_cases, pairing_account,
}
use pipane.Trust.Devices.{
  make_invite, take_invite, drop_device, drop_backend, commit, list_authorized_backend_ids,
  create_invite, accept_invite, revoke_a_device, revoke_a_backend,
}
use pipane.Trust.Consistency.{Consistent}
use pipane.Trust.History.{
  creates_challenge, issues_pairing, issues_connection, routes, confirms, lists, invites, accepts,
  revokes_device, revokes_backend, Call, step, run, step-Inv, prune-Inv, bind-ok, Inv, SoundCalls,
}
use pipane.Trust.Writes.{
  Write, unchanged, expired, spent, paired, invited, accepted, device_revoked, backend_revoked,
  step-Write,
}

nat_eq_cases : (a b : ℕ) → (a ≡ b) ⊎ (a ≢ b)
nat_eq_cases a b = elim (Bool-cases (a == b)) [
  | inl same ↦ inl (ground arith)
  | inr other ↦ inr (λ e. ground arith)
]

abbrev pub key_of_device : Option Device → Option ℕ
key_of_device none = none
key_of_device (some d) = some d.public_key

module _ (crypto : Crypto) where
  -- The key of a stored device never changes.
  Write-key :
      {now : ℕ} (d key : ℕ) {t t' : State}
      → Write crypto now t t'
      → key_of_device (get d t.devices) ≡ some key
      → key_of_device (get d t'.devices) ≡ some key
  unfolding apply_pairing device_or_new make_invite take_invite drop_device drop_backend
      require_active_device
  Write-key d key unchanged s = s
  Write-key d key expired s = s
  Write-key d key (spent other free) s = s
  Write-key d key (paired f a q c free e) s = grind (arith, get-put)
  Write-key d key (invited id secret c r t' e) s = ground arith
  Write-key d key (accepted id secret c r t' e) s = grind (arith, get-put)
  Write-key d key (device_revoked c r t' e) s = grind (arith, get-put)
  Write-key d key (backend_revoked c r t' e) s = ground arith

  -- A challenge that only a known device may ask for carries the stored key of its device.
  abbrev StoredKey : Challenge → State → Type 0
  StoredKey c s =
      admits_new_device c.purpose ≡ false
      → key_of_device (get c.device_id s.devices) ≡ some c.device_public_key

  -- What is pending in t was pending in s, or is a challenge with a stored key.
  record Asks (s t : Store) : Type 0 where
    asks :
        (id : ℕ) (c : Challenge)
        → get id t.challenges ≡ some c
        → (get id s.challenges ≡ some c) ⊎ StoredKey c t.state

  Asks-refl : (s : Store) → Asks s s
  Asks-refl s = record { asks = λ id c p. inl p }

  consume-Asks :
      (now id sig : ℕ) (p : Purpose) (s t : Store)
      → t.challenges ≡ (consume_challenge crypto now id sig p s).1.challenges
      → Asks s t
  unfolding consume_challenge
  consume-Asks now id sig p s t e = record { asks = λ i c q. inl (grind (arith, get-remove)) }

  prune-challenges :
      (now id : ℕ) (c : Challenge) (s : Store)
      → get id (prune now s).challenges ≡ some c
      → get id s.challenges ≡ some c
  unfolding prune persist
  prune-challenges now id c s e = grind (arith, get-retain)

  resolve-stored :
      (s : State) (r : Request) (who : Identity)
      → Consistent crypto s
      → resolve_challenge_identity crypto s r ≡ ok who
      → admits_new_device r.purpose ≡ false
      → key_of_device (get who.device_id s.devices) ≡ some who.public_key
  unfolding resolve_challenge_identity
  resolve-stored s r who h e p = grind (arith, h.device_keyed)

  create-Asks :
      (now id nonce : ℕ) (r : Request) (s : Store)
      → Inv crypto s
      → Asks s (create_challenge crypto now id nonce r s).1
  unfolding create_challenge
  create-Asks now id nonce r s v =
      let kept = prune now s in
      let kept-Inv = prune-Inv crypto now s v in
      elim (Result-cases (
        validate_challenge_context kept.state r
        >> resolve_challenge_identity crypto kept.state r)) [
          | inl (who, e) ↦
              let (_, _, resolved) =
                bind-ok crypto (validate_challenge_context kept.state r) _ who e in
              let stored = resolve-stored kept.state r who kept-Inv.consistent resolved in
              rw (e, create_challenge)
                (record {
                  asks = λ i c p. elim (nat_eq_cases i id) [
                    | inl same ↦ inr (λ q. grind (arith, stored, p, same, q, get-put))
                    | inr other ↦ inl (prune-challenges now i c s (grind (arith, p, get-put)))
                  ];
                })
          | inr (x, e) ↦
              rw (e, create_challenge)
                (record { asks = λ i c p. inl (prune-challenges now i c s p) })
        ]

  spend-Asks : (now : ℕ) (claims : Claims) (s : Store) → Asks s (spend_ticket crypto now claims s).1
  unfolding spend_ticket persist
  spend-Asks now claims s = record {
    asks = λ i c p. inl (prune-challenges now i c s (ground arith));
  }

  consume_route-Asks :
      (now ticket : ℕ) (s : Store) → Asks s (consume_route_ticket crypto now ticket s).1
  unfolding consume_route_ticket
  consume_route-Asks now ticket s = elim (Result-cases (verify_ticket crypto now ticket)) [
    | inl (claims, e) ↦ rw (e, consume_route_ticket) (spend-Asks now claims s)
    | inr (x, e) ↦ rw (e, consume_route_ticket) (Asks-refl s)
  ]

  commit-challenges {ℓ} :
      {A : Type ℓ} (r : Result Error (A × State)) (s : Store)
      → (commit r s).1.challenges ≡ s.challenges
  unfolding persist
  commit-challenges (err e) s = refl
  commit-challenges (ok (a, t)) s = refl

  first_pairing-challenges :
      (now fresh pair_id : ℕ) (claims : Claims) (s : Store)
      → (first_pairing now fresh pair_id claims s).1.challenges ≡ s.challenges
  unfolding first_pairing persist
  first_pairing-challenges now fresh pair_id claims s =
      elim (Result-cases (pairing_account fresh claims s.state)) [
        | inl (a, e) ↦ rw (e, first_pairing) refl
        | inr (x, e) ↦ rw (e, first_pairing) refl
      ]

  issued-Asks :
      (now id ch sig : ℕ) (s : Store) → Asks s (issue_pairing_ticket crypto now id ch sig s).1
  unfolding issue_pairing_ticket
  issued-Asks now id ch sig s =
      let taken = consume-Asks now ch sig pair s in
      elim (Result-cases (consume_challenge crypto now ch sig pair s).0) [
        | inl (c, e) ↦ rw (e, issue_pairing_ticket) (taken _ refl)
        | inr (x, e) ↦ rw (e, issue_pairing_ticket) (taken _ refl)
      ]

  step-Asks : (c : ℕ × Call) (s : Store) → Inv crypto s → Asks s (step crypto c s)
  unfolding step issue_connection_ticket list_authorized_backend_ids create_invite accept_invite
      revoke_a_device revoke_a_backend
  step-Asks (now, creates_challenge id nonce r) s v = create-Asks now id nonce r s v
  step-Asks (now, issues_pairing id ch sig) s v = issued-Asks now id ch sig s
  step-Asks (now, issues_connection id ch sig) s v = consume-Asks now ch sig connect s _ refl
  step-Asks (now, routes ticket) s v = consume_route-Asks now ticket s
  step-Asks (now, confirms fresh claims) s v =
      confirm_cases (Asks s) now fresh claims s (Asks-refl s) (λ pair_id _. record {
        asks =
            λ i c p. inl (ground (arith, first_pairing-challenges now fresh pair_id claims s, p));
      })
  step-Asks (now, lists ch sig) s v = consume-Asks now ch sig discover s _ refl
  step-Asks (now, invites id secret ch sig) s v =
      consume-Asks now ch sig create_device_invite s _ (commit-challenges _ _)
  step-Asks (now, accepts id secret ch sig) s v =
      consume-Asks now ch sig accept_device_invite s _ (commit-challenges _ _)
  step-Asks (now, revokes_device ch sig) s v =
      consume-Asks now ch sig revoke_device s _ (commit-challenges _ _)
  step-Asks (now, revokes_backend ch sig) s v =
      consume-Asks now ch sig revoke_backend s _ (commit-challenges _ _)

  abbrev pub KeysStored : Store → Type 0
  KeysStored s = (id : ℕ) (c : Challenge) → get id s.challenges ≡ some c → StoredKey c s.state

  step-KeysStored :
      (c : ℕ × Call) (s : Store) → Inv crypto s → KeysStored s → KeysStored (step crypto c s)
  step-KeysStored c s v h id x p = elim ((step-Asks c s v).asks id x p) [
    | inl old ↦
        λ q. Write-key x.device_id x.device_public_key (step-Write crypto c s) (h id x old q)
    | inr new ↦ new
  ]

  run-KeysStored :
      (cs : List (ℕ × Call)) (s : Store)
      → SoundCalls crypto cs
      → Inv crypto s
      → KeysStored s
      → KeysStored (run crypto cs s)
  unfolding run
  run-KeysStored [] s sound v h = h
  run-KeysStored (c ∷ cs) s sound v h =
      run-KeysStored cs (step crypto c s) sound.1 (step-Inv crypto c s sound.0 v)
        (step-KeysStored c s v h)

  -- A store that was just opened has nothing pending.
  pub opened-KeysStored :
      (cs : List (ℕ × Call)) (s : Store)
      → Inv crypto s
      → s.challenges ≡ []
      → SoundCalls crypto cs
      → KeysStored (run crypto cs s)
  unfolding get
  opened-KeysStored cs s v clear sound =
      run-KeysStored cs s sound v (λ i c p. absurd (ground (arith, clear, p)))
