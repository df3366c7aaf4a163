-- ===== src/Backend/Authorizer.antt =====
-- src/server/backend-connection-authorizer.ts: authorize, cut at its `await`, since other calls may
-- run while the rendezvous server confirms a pairing.
use pipane.Base.{
  ◌∷◌, [], ℕ, ◌≡◌, ◌≢◌, true, not, ◌||◌, Option, none, some, List, arith, Result, ok, err, same,
  ◌>>=◌, ◌⊎◌, inl, inr, truthy, ◌!=◌, if◌then◌else◌, refl,
}
use pipane.Trust.Types.{TicketKind, pairing, connection, Claims}
use pipane.Trust.Tickets.{key_of}
use pipane.Backend.Store.{
  check_ticket, Error, secret_required, confirmation_mismatch, Store, consume_pairing,
  authorize_ticket, mark_ticket_used, complete_pairing, check_pairing,
}
use pipane.Backend.History.{Call, run}
use pipane.Backend.Once.{Fresh, used_up, run-used_up}
use pipane.Backend.Safety.{prune_lem}
use pipane.Base.Dict.{get, get-put, get-retain}

-- What the rendezvous server answers to confirmPairing.
pub record Confirmed : Type 0 where
  pub pair_id : ℕ
  pub device_id : ℕ
  pub account_id : ℕ

Kind-cases : (k : TicketKind) → (k ≡ connection) ⊎ (k ≡ pairing)
Kind-cases pairing = inr refl
Kind-cases connection = inl refl

-- The rest of the branch of a pairing ticket: the account that the pairing gives the backend to.
unfoldable pub finish_pairing : Claims → Confirmed → Store → Result Error (Option ℕ) × Store
finish_pairing claims c s =
    if not (same (some c.pair_id) claims.pair_id) || c.device_id != claims.device_id
    then (err confirmation_mismatch, s)
    else (let (completed, s') = complete_pairing c.account_id s in
        (completed >>= λ _. ok (some c.account_id), s'))

unfoldable pub finish_kind :
    TicketKind → Claims → Confirmed → Store → Result Error (Option ℕ) × Store
finish_kind pairing claims c s = finish_pairing claims c s
finish_kind connection claims c s = (ok claims.account_id, s)

-- authorize, from the answer of a pairing on: the account and the device.
unfoldable pub finish_authorize : Claims → Confirmed → Store → Result Error (Option ℕ × ℕ) × Store
finish_authorize claims c s =
    let (account, s') = finish_kind claims.kind claims c s in
    elim account [
      | err e ↦ (err e, s')
      | ok a ↦
          let (marked, last) = mark_ticket_used claims s' in
          (marked >>= λ _. ok (a, claims.device_id), last)
    ]

finish_authorize-marks :
    (claims : Claims) (c : Confirmed) (account : Option ℕ) (device : ℕ) (s : Store)
    → (finish_authorize claims c s).0 ≡ ok (account, device)
    → let s' = (finish_authorize claims c s).1 in
      (device ≡ claims.device_id)
      × (get claims.ticket_id s.state.used_tickets ≡ none)
      × (get claims.ticket_id s'.state.used_tickets ≡ some claims.expires_at)
unfolding finish_authorize finish_kind finish_pairing complete_pairing mark_ticket_used
finish_authorize-marks claims c account device s e =
    (ground arith, ground arith, grind (arith, get-put))

finish_connection :
    (claims : Claims) (c : Confirmed) (account : Option ℕ) (device : ℕ) (s : Store)
    → claims.kind ≡ connection
    → (finish_authorize claims c s).0 ≡ ok (account, device)
    → (account ≡ claims.account_id)
      × ((finish_authorize claims c s).1.state.owner_account_id ≡ s.state.owner_account_id)
unfolding finish_authorize finish_kind mark_ticket_used
finish_connection claims c account device s k e = (ground arith, ground arith)

finish_paired :
    (claims : Claims) (c : Confirmed) (account : Option ℕ) (device : ℕ) (s : Store)
    → claims.kind ≡ pairing
    → (finish_authorize claims c s).0 ≡ ok (account, device)
    → ((finish_authorize claims c s).1.state.owner_account_id ≡ account)
      × (account ≡ some c.account_id)
      × (claims.pair_id ≡ some c.pair_id)
      × (claims.device_id ≡ c.device_id)
unfolding finish_authorize finish_kind finish_pairing complete_pairing mark_ticket_used
finish_paired claims c account device s k e =
    (ground arith, ground arith, ground arith, ground arith)

module _ (hash_secret : ℕ → ℕ) where
  -- The branch of a pairing ticket, up to the `await`.
  unfoldable pub start_pairing : ℕ → Claims → Option ℕ → Store → Result Error (Unit {0}) × Store
  start_pairing now claims secret s =
      if not (truthy claims.pair_id) || not (truthy secret)
      then (err secret_required, s)
      else consume_pairing hash_secret now (key_of claims.pair_id) (key_of secret) s

  unfoldable pub start_kind :
      TicketKind → ℕ → Claims → Option ℕ → Store → Result Error (Unit {0}) × Store
  start_kind pairing now claims secret s = start_pairing now claims secret s
  start_kind connection now claims secret s = (ok tt, s)

  -- authorize, up to the `await` of a pairing.
  unfoldable pub start_authorize : ℕ → Claims → Option ℕ → Store → Result Error (Unit {0}) × Store
  start_authorize now claims secret s =
      let (allowed, s') = authorize_ticket now claims s in
      elim allowed [ err e ↦ (err e, s') | ok _ ↦ start_kind claims.kind now claims secret s' ]

  start-used_up :
      (now : ℕ) (claims : Claims) (secret : Option ℕ) (s : Store)
      → claims.kind ≡ pairing
      → (start_authorize now claims secret s).0 ≡ ok tt
      → used_up (get (key_of claims.pair_id) (start_authorize now claims secret s).1.state.pairings)
        ≡ true
  unfolding start_authorize start_kind start_pairing consume_pairing authorize_ticket
  start-used_up now claims secret s k e = grind (arith, get-put)

  start-refused :
      (now : ℕ) (claims : Claims) (secret : Option ℕ) (s : Store)
      → claims.kind ≡ pairing
      → used_up (get (key_of claims.pair_id) s.state.pairings) ≡ true
      → (start_authorize now claims secret s).0 ≢ ok tt
  unfolding start_authorize start_kind start_pairing consume_pairing check_pairing authorize_ticket
  start-refused now claims secret s k used e =
      let parts = prune_lem now s in grind (arith, parts, get-retain)

  -- One use of the same pairing capability is enough: of two connections that present it, however
  -- their steps interleave with other calls, the second is refused.
  pub run-authorize_once :
      (now later : ℕ) (claims others : Claims) (secret other : Option ℕ) (cs : List (ℕ × Call))
      (s : Store)
      → claims.kind ≡ pairing
      → others.kind ≡ pairing
      → others.pair_id ≡ claims.pair_id
      → Fresh (key_of claims.pair_id) cs
      → (start_authorize now claims secret s).0 ≡ ok tt
      → (start_authorize later others other
          (run hash_secret cs (start_authorize now claims secret s).1)).0
        ≢ ok tt
  run-authorize_once now later claims others secret other cs s k k' same_pair fresh e e' =
      start-refused later others other (run hash_secret cs (start_authorize now claims secret s).1)
        k'
        (rw same_pair (
          run-used_up hash_secret (key_of claims.pair_id) cs _ fresh
            (start-used_up now claims secret s k e)))
        e'

  start-owned :
      (now : ℕ) (claims : Claims) (secret : Option ℕ) (s : Store)
      → claims.kind ≡ connection
      → (start_authorize now claims secret s).0 ≡ ok tt
      → let s' = (start_authorize now claims secret s).1 in
        (s'.state.owner_account_id ≡ claims.account_id)
        × (s.state.owner_account_id ≡ claims.account_id)
        × (get claims.device_id s.state.revoked_devices ≡ none)
  unfolding start_authorize start_kind authorize_ticket check_ticket
  start-owned now claims secret s k e =
      let parts = prune_lem now s in
      (ground (arith, parts), ground (arith, parts), ground (arith, parts))

  run-nothing : (cs : List (ℕ × Call)) (s : Store) → cs ≡ [] → run hash_secret cs s ≡ s
  unfolding run
  run-nothing [] s e = refl
  run-nothing (c ∷ cs) s e = absurd (ground arith)

  -- An authorisation that succeeds, with any calls while a pairing awaits its confirmation and none
  -- for a connection ticket: it names the ticket's device and the account that owns the backend
  -- then; the ticket was unused and is recorded with its expiry. For a connection ticket the account
  -- is the ticket's, the backend's owner before, and the device is not revoked; for a pairing
  -- ticket, account, pairing and device are those that the rendezvous server confirmed.
  pub finish_authorize-Settled :
      (now : ℕ) (claims : Claims) (secret : Option ℕ) (c : Confirmed) (account : Option ℕ)
      (device : ℕ) (cs : List (ℕ × Call)) (s : Store)
      → (start_authorize now claims secret s).0 ≡ ok tt
      → (claims.kind ≡ connection → cs ≡ [])
      → let waiting = run hash_secret cs (start_authorize now claims secret s).1 in
        (finish_authorize claims c waiting).0 ≡ ok (account, device)
        → let s' = (finish_authorize claims c waiting).1 in
          (device ≡ claims.device_id)
          × (s'.state.owner_account_id ≡ account)
          × (get claims.ticket_id waiting.state.used_tickets ≡ none)
          × (get claims.ticket_id s'.state.used_tickets ≡ some claims.expires_at)
          × (((claims.kind ≡ connection)
                × (account ≡ claims.account_id)
                × (s.state.owner_account_id ≡ account)
                × (get device s.state.revoked_devices ≡ none))
              ⊎ ((claims.kind ≡ pairing)
                  × (account ≡ some c.account_id)
                  × (claims.pair_id ≡ some c.pair_id)
                  × (claims.device_id ≡ c.device_id)))
  finish_authorize-Settled now claims secret c account device cs s started alone finished =
      let s₁ = (start_authorize now claims secret s).1 in
      let waiting = run hash_secret cs s₁ in
      let (named, unused, recorded) =
        finish_authorize-marks claims c account device waiting finished in
      elim (Kind-cases claims.kind) [
        | inl k ↦
            let granted = finish_connection claims c account device waiting k finished in
            let owned = start-owned now claims secret s k started in
            let still = run-nothing cs s₁ (alone k) in
            (
              named,
              ground (arith, granted, owned, still),
              unused,
              recorded,
              inl (k, granted.0, ground (arith, granted, owned), ground (arith, named, owned)),
            )
        | inr k ↦
            let (owns, confirmed, same_pair, same_device) =
              finish_paired claims c account device waiting k finished in
            (named, owns, unused, recorded, inr (k, confirmed, same_pair, same_device))
      ]
