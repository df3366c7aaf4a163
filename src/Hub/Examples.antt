-- ===== src/Hub/Examples.antt =====
-- The theorems on src/rendezvous/rendezvous-hub.ts at one small hub: the backend 20 of the account 5
-- registers on the socket 3, and the device 7 connects to it on the socket 4. A ticket opens to the
-- same claims, a device's signature is its key, and a backend's is 1.
use pipane.Base.{contains, ℕ, ◌≡◌, ◌≢◌, ◌==◌, refl, none, some, List, [], ◌∷◌, arith, ok}
use pipane.Base.Dict.{get, put, remove, retain, some_dropped}
use pipane.Trust.Types.{revoke_device, connection, Challenge, Claims, State, Crypto}
use pipane.Trust.Challenges.{
  persist, prune, check_challenge, consume_challenge, require_active_device,
}
use pipane.Trust.Tickets.{check_ticket_time, verify_ticket, spend_ticket, consume_route_ticket}
use pipane.Trust.Devices.{
  RevocationResult, drop_device, revoke_a_device, get_backend_owner, is_device_active,
  get_pending_backend_revocation,
}
use pipane.Hub.Types.{register_backend, connect_backend, Hub, Identity}
use pipane.Hub.Routes.{remove_route, add_route, route_of}
use pipane.Hub.Backends.{
  accept_backend, handle_backend_message, handle_handshake, handle_unregistered, register,
  register_derived, set_registered, replace_previous,
}
use pipane.Hub.Browsers.{
  check_claims, connect_checked, connect_with, connect_online, connect_browser, open_route,
  remove_browser, leave_and_tell, handle_browser_message,
}
use pipane.Hub.History.{
  HubEvent, backend_opens, backend_sends, browser_opens, browser_sends, revokes_a_device, hub_step,
  hub_run,
}
use pipane.Hub.Sound.{Live, Sound}
use pipane.Hub.BrowserSteps.{SoundTickets}
use pipane.Hub.Revocation.{SoundEvents, hub_run-Sound}
use pipane.Hub.Access.{Admitted, connect_browser-Admitted, revokes_a_device-Live}

abbrev device_claims : Claims
device_claims = record {
  kind = connection;
  ticket_id = 40;
  backend_id = 20;
  connection_id = 50;
  device_id = 7;
  device_public_key = 7;
  account_id = some 5;
  pair_id = none;
  issued_at = 1;
  expires_at = 900;
}

abbrev toy : Crypto
toy = record {
  derive_device_id = λ key. some key;
  verify_device_signature = λ key c signature. signature == key;
  hash_invite_secret = λ secret. secret;
  sign_ticket = λ claims. claims.ticket_id;
  open_ticket = λ ticket. ok device_claims;
}

abbrev platform : Identity
platform = record {
  verify_backend_challenge = λ key nonce signature. signature == 1;
  derive_backend_id = λ key. some key;
  sha256 = λ text. text;
  extract_dtls_fingerprint = λ sdp. some sdp;
  verify_backend_identity_binding = λ b. b.signature == 1;
}

abbrev first_state : State
first_state = record {
  accounts =
      (5, record { account_id = 5; device_ids = 7 ∷ []; backend_ids = 20 ∷ []; created_at = 1 })
      ∷ [];
  devices =
      (
        7,
        record { device_id = 7; public_key = 7; account_id = 5; created_at = 1; revoked_at = none },
      )
      ∷ [];
  backend_owners = (20, 5) ∷ [];
  backend_revocations = [];
  pairing_completions = [];
  device_invites = [];
  used_tickets = [];
}

-- The device's challenge for its own revocation.
abbrev leaving : Challenge
leaving = record {
  challenge_id = 61;
  nonce = 1;
  purpose = revoke_device;
  device_id = 7;
  device_public_key = 7;
  backend_id = none;
  connection_id = none;
  pair_id = none;
  target_device_id = some 7;
  expires_at = 800;
}

abbrev first_hub : Hub
first_hub = record {
  trust = record {
    state = first_state;
    challenges = (61, leaving) ∷ [];
    disk = first_state;
    challenge_ttl = 60;
    ticket_ttl = 60;
  };
  handshakes = [];
  links = record { backends = []; routes = []; browser_routes = []; objects = []; next_object = 0 };
  pairings = [];
  open_sockets = [];
  sent = [];
}

first_hub-Sound : Sound first_hub
unfolding get
first_hub-Sound = record {
  shared = record {
    keyed = λ id b e. ground arith;
    stored = λ c o e. ground arith;
    named = λ c o r e f. ground arith;
    by_browser = λ c o r e f. ground arith;
    browser_stored = λ c o e. ground arith;
    browser_named = λ c o r e f. ground arith;
    by_connection = λ c o r e f. ground arith;
    numbered = λ o e. ground arith;
  };
  online = λ c o r e f. ground arith;
  owned = λ c o r e f. ground arith;
  names = λ c o r e f. ground arith;
  completed = λ p k e. ground arith;
}

toy-SoundTickets : SoundTickets toy
toy-SoundTickets ticket claims e = ground arith

abbrev meeting : List (ℕ × HubEvent)
meeting =
    (10, backend_opens 3 8)
    ∷ (11, backend_sends 3 1 (register_backend 20 1))
    ∷ (12, browser_opens 4)
    ∷ []

abbrev connecting : ℕ × HubEvent
connecting = (13, browser_sends 4 (connect_backend 20 40))

meeting_sound : SoundEvents meeting
meeting_sound = (tt, ((λ e. omega arith), (tt, tt)))

abbrev met : Hub
met = hub_run toy platform meeting first_hub

hub_run-Sound_example : Sound (hub_run toy platform meeting first_hub)
hub_run-Sound_example =
    hub_run-Sound toy platform toy-SoundTickets meeting first_hub meeting_sound first_hub-Sound

opened : (connect_browser toy 13 4 20 40 met).links.next_object ≡ 1
unfolding connect_browser connect_online connect_with connect_checked check_claims open_route
    remove_browser leave_and_tell remove_route route_of add_route consume_route_ticket verify_ticket
    check_ticket_time spend_ticket persist prune get_backend_owner is_device_active hub_run hub_step
    accept_backend handle_backend_message handle_handshake handle_unregistered register
    register_derived set_registered replace_previous get_pending_backend_revocation get put remove
    retain some_dropped contains
opened = refl

unopened : met.links.next_object ≡ 0
unfolding hub_run hub_step accept_backend handle_backend_message handle_handshake
    handle_unregistered register register_derived set_registered replace_previous
    get_pending_backend_revocation get put
unopened = refl

grown : (connect_browser toy 13 4 20 40 met).links.next_object ≢ met.links.next_object
grown e = ground (arith, opened, unopened)

connect_browser-Admitted_example :
    (claims : Claims) × (toy.open_ticket 40 ≡ ok claims)
    × Admitted 13 20 met (connect_browser toy 13 4 20 40 met).trust claims
connect_browser-Admitted_example =
    connect_browser-Admitted toy 13 4 20 40 met hub_run-Sound_example.shared grown

abbrev joined : Hub
joined = hub_run toy platform (connecting ∷ []) met

joined-Sound : Sound joined
joined-Sound =
    hub_run-Sound toy platform toy-SoundTickets (connecting ∷ []) met (tt, tt) hub_run-Sound_example

abbrev device_gone : RevocationResult
device_gone = record { account_id = 5; device_id = some 7; backend_id = none }

revoked : (revoke_a_device toy 25 61 7 joined.trust).0 ≡ ok device_gone
unfolding revoke_a_device drop_device consume_challenge check_challenge require_active_device
    handle_browser_message connect_browser connect_online connect_with connect_checked check_claims
    open_route remove_browser leave_and_tell remove_route route_of add_route consume_route_ticket
    verify_ticket check_ticket_time spend_ticket persist prune get_backend_owner is_device_active
    hub_run hub_step accept_backend handle_backend_message handle_handshake handle_unregistered
    register register_derived set_registered replace_previous get_pending_backend_revocation get put
    remove retain some_dropped contains
revoked = refl

revokes_a_device-Live_example :
    Live
      (λ q. q.claims.account_id ≡ some 5 → some q.claims.device_id ≢ some 7)
      (hub_step toy platform (25, revokes_a_device 61 7) joined).links
revokes_a_device-Live_example =
    revokes_a_device-Live toy platform 25 61 7 joined device_gone joined-Sound.shared revoked
