-- ===== src/Trust/Examples.antt =====
-- The theorems on src/rendezvous/trust-store.ts at one small store, with a stand-in for the
-- cryptography: a device's id is its key, and a signature is the key.
use pipane.Base.{ℕ, ◌≡◌, ◌≢◌, ◌==◌, if◌then◌else◌, refl, none, some, List, [], ◌∷◌, arith, ok, err}
use pipane.Base.Dict.{get, put, remove, retain, some_dropped}
use pipane.Trust.Types.{
  connect, create_device_invite, accept_device_invite, revoke_device, revoke_backend,
  capability_used, pairing, connection, Request, Claims, State, Store, Crypto,
}
use pipane.Trust.Challenges.{
  persist, prune, validate_challenge_context, resolve_challenge_identity, create_challenge,
  check_challenge, consume_challenge, require_active_device,
}
use pipane.Trust.Tickets.{
  check_ticket_time, connection_ticket, issue_connection_ticket, verify_ticket, spend_ticket,
  consume_route_ticket,
}
use pipane.Trust.Pairing.{
  Confirmation, pairing_account, add_id, account_or_new, device_or_new, apply_pairing,
  first_pairing, confirm_pairing,
}
use pipane.Trust.Devices.{
  RevocationResult, accept_invite, take_invite, create_invite, make_invite, drop_device,
  drop_backend, revoke_a_device, revoke_a_backend, get_backend_owner,
  get_pending_backend_revocation,
}
use pipane.Trust.Consistency.{Consistent}
use pipane.Trust.History.{
  Call, invites, creates_challenge, routes, confirms, step, run, SoundCalls, Inv, run-Inv,
}
use pipane.Trust.Replay.{refusal, run-no_replay, run-capability_once}
use pipane.Trust.Changes.{Revoked, revoke_a_device-Revoked, Admitted, accept_invite-Admitted}
use pipane.Trust.Grants.{Granted, issue_connection_ticket-Granted}
use pipane.Trust.Authorization.{run-revoked_device, revoke_a_backend-unowned}

-- A ticket of the device 7 for the backend 20, by the pairing capability 30.
abbrev ticket_claims : Claims
ticket_claims = record {
  kind = pairing;
  ticket_id = 40;
  backend_id = 20;
  connection_id = 50;
  device_id = 7;
  device_public_key = 7;
  account_id = none;
  pair_id = some 30;
  issued_at = 1;
  expires_at = 900;
}

abbrev toy : Crypto
toy = record {
  derive_device_id = λ key. some key;
  verify_device_signature = λ key c signature. signature == key;
  hash_invite_secret = λ secret. secret;
  sign_ticket = λ claims. claims.ticket_id;
  open_ticket = λ ticket. ok ticket_claims;
}

abbrev no_state : State
no_state = record {
  accounts = [];
  devices = [];
  backend_owners = [];
  backend_revocations = [];
  pairing_completions = [];
  device_invites = [];
  used_tickets = [];
}

abbrev empty_store : Store
empty_store = record {
  state = no_state;
  challenges = [];
  disk = no_state;
  challenge_ttl = 60;
  ticket_ttl = 60;
}

no_state-Consistent : Consistent toy no_state
unfolding get
no_state-Consistent = record {
  devices_agree = λ a d. ground arith;
  backends_agree = λ a b. ground arith;
  account_keyed = λ a acc e. ground arith;
  device_keyed = λ d dev e. ground arith;
  device_derived = λ d dev e. ground arith;
  invite_rooted = λ i inv e. ground arith;
  owner_named = λ b e. ground arith;
}

empty_store-Inv : Inv toy empty_store
unfolding get
empty_store-Inv = record {
  consistent = no_state-Consistent;
  challenge_derived = λ id c e. ground arith;
  durable = refl;
}

abbrev request : Request
request = record {
  purpose = connect;
  device_id = some 7;
  device_public_key = none;
  backend_id = some 20;
  connection_id = some 50;
  pair_id = none;
  target_device_id = none;
}

-- The claims of a second device of the account, for the same backend.
abbrev second_claims : Claims
second_claims = record ticket_claims {
  ticket_id = 42;
  device_id = 9;
  device_public_key = 9;
  account_id = some 5;
  pair_id = some 31;
}

-- The devices 7 and 9 are paired with the backend 20. Each asks for a connection, and the device 7
-- for its own revocation and for the backend's.
abbrev morning : List (ℕ × Call)
morning =
    (10, confirms 5 ticket_claims)
    ∷ (12, confirms 6 second_claims)
    ∷ (20, creates_challenge 60 1 request)
    ∷ (
      20,
      creates_challenge 61 1
          (record request { purpose = revoke_device; target_device_id = some 7 }),
    )
    ∷ (20, creates_challenge 62 1 (record request { purpose = revoke_backend }))
    ∷ (20, creates_challenge 63 1 (record request { device_id = some 9 }))
    ∷ []

abbrev paired_store : Store
paired_store = run toy morning empty_store

morning_sound : SoundCalls toy morning
morning_sound = (
  record { derived = refl; named = λ e. ground arith; fresh_named = λ e. omega arith },
  (
    record { derived = refl; named = λ e. ground arith; fresh_named = λ e. omega arith },
    (tt, (tt, (tt, (tt, tt)))),
  ),
)

run-Inv_example : Inv toy (run toy morning empty_store)
run-Inv_example = run-Inv toy morning empty_store morning_sound empty_store-Inv

routed : (consume_route_ticket toy 20 40 empty_store).0 ≡ ok ticket_claims
unfolding consume_route_ticket verify_ticket check_ticket_time spend_ticket prune get some_dropped
    retain
routed = refl

run-no_replay_example :
    (consume_route_ticket toy 30 40
      (run toy ((25, routes 40) ∷ []) (consume_route_ticket toy 20 40 empty_store).1)).0
    ≡ err (refusal 30 ticket_claims)
run-no_replay_example =
    run-no_replay toy 20 30 40 ticket_claims empty_store ((25, routes 40) ∷ []) routed
      (omega arith, tt)

abbrev confirmation : Confirmation
confirmation = record { account_id = 5; device_id = 7; backend_id = 20 }

confirmed : (confirm_pairing 10 5 ticket_claims empty_store).0 ≡ ok confirmation
unfolding confirm_pairing first_pairing pairing_account get
confirmed = refl

abbrev stolen_claims : Claims
stolen_claims = record ticket_claims { ticket_id = 41; device_id = 8 }

run-capability_once_example :
    let s = run toy morning (confirm_pairing 10 5 ticket_claims empty_store).1 in
    confirm_pairing 30 6 stolen_claims s
    ≡ ((if 41 == 40 then ok confirmation else err capability_used), s)
run-capability_once_example =
    run-capability_once toy 10 5 30 6 30 ticket_claims stolen_claims confirmation empty_store
      morning refl confirmed refl refl

abbrev connection_claims : Claims
connection_claims = record ticket_claims {
  kind = connection;
  account_id = some 5;
  pair_id = none;
  issued_at = 30;
  expires_at = 90;
}

connected : (issue_connection_ticket toy 30 40 60 7 paired_store).0 ≡ ok (40, connection_claims)
unfolding issue_connection_ticket connection_ticket consume_challenge check_challenge
    require_active_device run step create_challenge prune validate_challenge_context
    resolve_challenge_identity confirm_pairing first_pairing pairing_account apply_pairing
    account_or_new device_or_new add_id persist get put remove retain some_dropped
connected = refl

issue_connection_ticket-Granted_example : Granted toy 30 paired_store 60 7 connection_claims
issue_connection_ticket-Granted_example =
    issue_connection_ticket-Granted toy 30 40 60 7 40 connection_claims morning empty_store
      empty_store-Inv refl morning_sound connected

abbrev other_claims : Claims
other_claims = record connection_claims { device_id = 9; device_public_key = 9 }

abbrev device_revocation : RevocationResult
device_revocation = record { account_id = 5; device_id = some 7; backend_id = none }

revoked : (revoke_a_device toy 25 61 7 paired_store).0 ≡ ok device_revocation
unfolding revoke_a_device drop_device consume_challenge check_challenge require_active_device run
    step create_challenge prune validate_challenge_context resolve_challenge_identity
    confirm_pairing first_pairing pairing_account apply_pairing account_or_new device_or_new add_id
    persist get put remove retain some_dropped
revoked = refl

other_connected :
    (issue_connection_ticket toy 30 40 63 9
      (run toy ((26, routes 40) ∷ []) (revoke_a_device toy 25 61 7 paired_store).1)).0
    ≡ ok (40, other_claims)
unfolding issue_connection_ticket connection_ticket revoke_a_device drop_device consume_challenge
    check_challenge consume_route_ticket verify_ticket check_ticket_time spend_ticket
    require_active_device run step create_challenge prune validate_challenge_context
    resolve_challenge_identity confirm_pairing first_pairing pairing_account apply_pairing
    account_or_new device_or_new add_id persist get put remove retain some_dropped
other_connected = refl

run-revoked_device_example : other_claims.device_id ≢ 7
run-revoked_device_example =
    run-revoked_device toy 25 61 7 7 30 40 63 9 40 device_revocation other_claims paired_store
      ((26, routes 40) ∷ []) run-Inv_example (tt, tt) revoked refl other_connected

abbrev backend_revocation : RevocationResult
backend_revocation = record { account_id = 5; device_id = none; backend_id = some 20 }

backend_freed : (revoke_a_backend toy 25 62 7 paired_store).0 ≡ ok backend_revocation
unfolding revoke_a_backend drop_backend consume_challenge check_challenge require_active_device run
    step create_challenge prune validate_challenge_context resolve_challenge_identity
    confirm_pairing first_pairing pairing_account apply_pairing account_or_new device_or_new add_id
    persist get put remove retain some_dropped
backend_freed = refl

revoke_a_backend-unowned_example :
    let s = (revoke_a_backend toy 25 62 7 paired_store).1 in
    (get_backend_owner s.state 20 ≡ none)
    × (get_pending_backend_revocation s.state 20 ≡ some backend_revocation)
    × ((issue_connection_ticket toy 30 40 60 7 s).0
        ≢ ok (40, record connection_claims { backend_id = 20 }))
revoke_a_backend-unowned_example =
    revoke_a_backend-unowned toy 25 62 7 20 30 40 60 7 40 backend_revocation connection_claims
      paired_store run-Inv_example backend_freed refl

revoke_a_device-Revoked_example :
    Revoked toy 25 paired_store 61 7 device_revocation (revoke_a_device toy 25 61 7 paired_store).1
revoke_a_device-Revoked_example =
    revoke_a_device-Revoked toy 25 61 7 device_revocation morning empty_store empty_store-Inv refl
      morning_sound revoked

-- The device 7 invites the device 11, which asks for a challenge and accepts.
abbrev invitation : List (ℕ × Call)
invitation =
    (10, confirms 5 ticket_claims)
    ∷ (20, creates_challenge 64 1 (record request { purpose = create_device_invite }))
    ∷ (21, invites 70 71 64 7)
    ∷ (
      22,
      creates_challenge 65 1 (record request {
        purpose = accept_device_invite;
        device_id = none;
        device_public_key = some 11;
        pair_id = some 70;
      }),
    )
    ∷ []

abbrev inviting_store : Store
inviting_store = run toy invitation empty_store

inviting_store-Inv : Inv toy inviting_store
inviting_store-Inv =
    run-Inv toy invitation empty_store
      (
        record { derived = refl; named = λ e. ground arith; fresh_named = λ e. omega arith },
        (tt, (tt, (tt, tt))),
      )
      empty_store-Inv

accepted : (accept_invite toy 25 65 11 70 71 inviting_store).0 ≡ ok (5, 11)
unfolding accept_invite take_invite create_invite make_invite consume_challenge check_challenge
    require_active_device run step create_challenge prune validate_challenge_context
    resolve_challenge_identity confirm_pairing first_pairing pairing_account apply_pairing
    account_or_new device_or_new add_id persist get put remove retain some_dropped
accepted = refl

accept_invite-Admitted_example :
    Admitted toy 25 inviting_store 65 11 70 71
      (5, 11)
      (accept_invite toy 25 65 11 70 71 inviting_store).1
accept_invite-Admitted_example =
    accept_invite-Admitted toy 25 65 11 70 71 (5, 11) inviting_store inviting_store-Inv accepted
