-- ===== src/Backend/Examples.antt =====
-- The theorems on src/server/backend-trust-store.ts and src/server/backend-connection-authorizer.ts
-- at one small store, with a secret as its own hash.
use pipane.Base.{ℕ, ◌≡◌, ◌≢◌, ◌⊎◌, refl, arith, none, some, List, [], ◌∷◌, ok, err}
use pipane.Base.Dict.{get, put, retain, some_dropped}
use pipane.Trust.Types.{pairing, connection, Claims}
use pipane.Backend.Store.{
  list_active_pairings, already_owned, pairing_missing, ticket_already_used, Store, Trusted, prune,
  check_pairing, consume_pairing, check_ticket, authorize_ticket, mark_ticket_used,
  complete_pairing, apply_revocation,
}
use pipane.Backend.History.{step, Call, lists, completes, run}
use pipane.Backend.Safety.{run-device_refused, run-owned}
use pipane.Backend.Once.{run-pairing_once, run-ticket_once}
use pipane.Backend.Authorizer.{
  Confirmed, start_pairing, start_kind, start_authorize, finish_pairing, finish_kind,
  finish_authorize, run-authorize_once, finish_authorize-Settled,
}

abbrev plain : ℕ → ℕ
plain secret = secret

abbrev pairing_claims : Claims
pairing_claims = record {
  kind = pairing;
  ticket_id = 40;
  backend_id = 20;
  connection_id = 50;
  device_id = 7;
  device_public_key = 7;
  account_id = none;
  pair_id = some 30;
  issued_at = 1;
  expires_at = 900;
}

abbrev connecting_claims : Claims
connecting_claims = record pairing_claims { kind = connection; account_id = some 5; pair_id = none }

-- A store with one pairing capability, the id 30 and the secret 99, and the owner 5.
abbrev trusted : Trusted
trusted = record {
  owner_account_id = some 5;
  pairings = (30, record { pair_id = 30; secret_hash = 99; expires_at = 800; used_at = none }) ∷ [];
  used_tickets = [];
  revoked_devices = [];
}

abbrev store : Store
store = record { state = trusted; disk = trusted }

abbrev calls : List (ℕ × Call)
calls = (20, lists) ∷ (21, completes 5) ∷ []

run-device_refused_example :
    (authorize_ticket 30 connecting_claims
      (run plain calls (apply_revocation 10 5 (some 7) store))).0
    ≢ ok tt
run-device_refused_example =
    run-device_refused plain 10 5 7 30 connecting_claims store calls refl (λ e. omega arith) refl
      refl

completed : (complete_pairing 5 store).0 ≡ ok tt
unfolding complete_pairing
completed = refl

run-owned_example :
    let s = run plain calls (complete_pairing 5 store).1 in
    complete_pairing 6 s ≡ (err already_owned, s)
run-owned_example =
    run-owned plain 5 6 calls store (λ e. omega arith) (λ e. omega arith) tt completed

consumed : (consume_pairing plain 10 30 99 store).0 ≡ ok tt
unfolding consume_pairing check_pairing get
consumed = refl

run-pairing_once_example :
    let s = run plain calls (consume_pairing plain 10 30 99 store).1 in
    consume_pairing plain 30 30 99 s ≡ (err pairing_missing, s)
run-pairing_once_example = run-pairing_once plain 10 30 99 30 99 calls store tt consumed

marked : (mark_ticket_used pairing_claims store).0 ≡ ok tt
unfolding mark_ticket_used get
marked = refl

run-ticket_once_example :
    let s = run plain calls (mark_ticket_used pairing_claims store).1 in
    ((authorize_ticket 30 pairing_claims s).0 ≡ err ticket_already_used)
    × (mark_ticket_used pairing_claims s ≡ (err ticket_already_used, s))
run-ticket_once_example =
    run-ticket_once plain 30 pairing_claims calls store (omega arith, (omega arith, tt))
      (omega arith) marked

started : (start_authorize plain 10 pairing_claims (some 99) store).0 ≡ ok tt
unfolding start_authorize start_kind start_pairing authorize_ticket prune check_ticket
    consume_pairing check_pairing get retain some_dropped
started = refl

run-authorize_once_example :
    (start_authorize plain 30
      (record pairing_claims { ticket_id = 41 })
      (some 99)
      (run plain calls (start_authorize plain 10 pairing_claims (some 99) store).1)).0
    ≢ ok tt
run-authorize_once_example =
    run-authorize_once plain 10 30 pairing_claims (record pairing_claims { ticket_id = 41 })
      (some 99) (some 99) calls store refl refl refl tt started

abbrev answer_to_pairing : Confirmed
answer_to_pairing = record { pair_id = 30; device_id = 7; account_id = 5 }

abbrev awaiting : Store
awaiting = run plain calls (start_authorize plain 10 pairing_claims (some 99) store).1

finished : (finish_authorize pairing_claims answer_to_pairing awaiting).0 ≡ ok (some 5, 7)
unfolding finish_authorize finish_kind finish_pairing complete_pairing mark_ticket_used
    start_authorize start_kind start_pairing authorize_ticket prune check_ticket consume_pairing
    check_pairing get retain some_dropped run step list_active_pairings put
finished = refl

finish_authorize-Settled_example :
    let s = (finish_authorize pairing_claims answer_to_pairing awaiting).1 in
    (7 ≡ pairing_claims.device_id)
    × (s.state.owner_account_id ≡ some 5)
    × (get 40 awaiting.state.used_tickets ≡ none)
    × (get 40 s.state.used_tickets ≡ some 900)
    × (((pairing_claims.kind ≡ connection)
          × (some 5 ≡ pairing_claims.account_id)
          × (store.state.owner_account_id ≡ some 5)
          × (get 7 store.state.revoked_devices ≡ none))
        ⊎ ((pairing_claims.kind ≡ pairing)
            × (some 5 ≡ some answer_to_pairing.account_id)
            × (pairing_claims.pair_id ≡ some answer_to_pairing.pair_id)
            × (pairing_claims.device_id ≡ answer_to_pairing.device_id)))
finish_authorize-Settled_example =
    finish_authorize-Settled plain 10 pairing_claims (some 99) answer_to_pairing (some 5) 7 calls
      store started (λ k. absurd (ground arith)) finished
