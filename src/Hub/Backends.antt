-- ===== src/Hub/Backends.antt =====
-- src/rendezvous/rendezvous-hub.ts: what a backend's socket brings about.
use pipane.Base.{
  ℕ, ◌+◌, Bool, false, ◌&&◌, ◌||◌, Option, none, some, Result, ok, err, same, truthy, ltb, leb,
  ◌==◌, ◌!=◌, if◌then◌else◌,
}
use pipane.Base.Dict.{get, put, remove}
use pipane.Trust.Types.{Error, Claims, pairing, connection, Store}
use pipane.Trust.Tickets.{key_of}
use pipane.Trust.Pairing.{Confirmation}
use pipane.Trust.Pairing
use pipane.Trust.Devices.{RevocationResult, get_pending_backend_revocation}
use pipane.Hub.Types.{
  Registered, Handshake, Route, ActivePairing, offer, answer, IceSignal, description, candidate,
  Binding, BackendCommand, register_backend, open_pairing, confirm_pairing, relays, binds, closes,
  unauthorized_connection, invalid_message, invalid_pairing, challenge, registered_as,
  authorization_revoked, pairing_opened, pairing_confirmed, connection_closed, signal,
  connection_binding, Hub, Identity,
}
use pipane.Hub.Routes.{
  send, send_error, close_socket, get_open_pairing, remove_route, write_route, route_of, has_socket,
  remove_registered_backend,
}

abbrev pub max_pairing_lifetime : ℕ
max_pairing_lifetime = 900000

-- acceptBackend; `nonce` is the random value that it draws.
unfoldable pub accept_backend : ℕ → ℕ → Hub → Hub
accept_backend socket nonce h = send socket (challenge nonce) (record h {
  handshakes = put socket (record { nonce = nonce; registered = none }) h.handshakes;
})

-- The timeout of acceptBackend.
unfoldable pub registration_times_out : ℕ → Hub → Hub
registration_times_out socket h =
    close_socket socket (send_error socket unauthorized_connection none h)

-- What routeForBackend finds.
unfoldable pub owned_route : Registered → Option (ℕ × Route) → Option (ℕ × Route)
owned_route b none = none
owned_route b (some (object, r)) = if r.backend_id == b.backend_id then some (object, r) else none

-- routeForBackend, and what is done with the route; without one, there is an error. A route stands
-- under its own connection id.
unfoldable pub with_route : Registered → ℕ → (ℕ → Route → Hub → Hub) → Hub → Hub
with_route b c f h = elim (owned_route b (route_of h.links (get c h.links.routes))) [
  | none ↦ send_error b.socket unauthorized_connection (some c) h
  | some (object, r) ↦ f object r h
]

-- openPairing, behind the check of its expiry.
unfoldable pub set_pairing : Registered → ℕ → ℕ → Option ActivePairing × Hub → Hub
set_pairing b pair_id expires_at (none, h) =
    send b.socket (pairing_opened pair_id expires_at) (record h {
      pairings =
          put pair_id
            (record { pair_id = pair_id; backend_id = b.backend_id; expires_at = expires_at })
            h.pairings;
    })
set_pairing b pair_id expires_at (some existing, h) =
    if existing.backend_id != b.backend_id
    then send_error b.socket invalid_pairing none h
    else send b.socket (pairing_opened pair_id expires_at) (record h {
      pairings =
          put pair_id
            (record { pair_id = pair_id; backend_id = b.backend_id; expires_at = expires_at })
            h.pairings;
    })

-- openPairing
unfoldable pub open_a_pairing : ℕ → Registered → ℕ → ℕ → Hub → Hub
open_a_pairing now b pair_id expires_at h =
    if leb expires_at now || ltb (now + max_pairing_lifetime) expires_at
    then send_error b.socket invalid_pairing none h
    else set_pairing b pair_id expires_at (get_open_pairing now pair_id h)

-- What confirmPairing does with the trust store's answer.
unfoldable pub finish_confirm :
    Registered → ℕ → Route → ℕ → Result Error Confirmation × Store → Hub → Hub
finish_confirm b object r pair_id (err e, trust) h =
    send_error b.socket invalid_pairing (some r.connection_id) (record h { trust = trust })
finish_confirm b object r pair_id (ok c, trust) h =
    send b.socket (pairing_confirmed r.connection_id pair_id c.account_id c.device_id) (record h {
      trust = trust;
      links =
          write_route object
            (record r { claims = record (r.claims) { account_id = some c.account_id } }) h.links;
      pairings = remove pair_id h.pairings;
    })

unfoldable pub confirm_open : ℕ → ℕ → Registered → ℕ → Route → ℕ → Option ActivePairing × Hub → Hub
confirm_open now fresh b object r pair_id (none, h) =
    send_error b.socket invalid_pairing (some r.connection_id) h
confirm_open now fresh b object r pair_id (some p, h) =
    if p.backend_id != b.backend_id
    then send_error b.socket invalid_pairing (some r.connection_id) h
    else finish_confirm b object r pair_id (Pairing.confirm_pairing now fresh r.claims h.trust) h

abbrev pub is_pairing_claim : Claims → Bool
is_pairing_claim claims = elim claims.kind [ pairing ↦ truthy claims.pair_id | connection ↦ false ]

-- confirmPairing, for the route that was found.
unfoldable pub confirm_route : ℕ → ℕ → Registered → ℕ → Route → Hub → Hub
confirm_route now fresh b object r h =
    if is_pairing_claim r.claims
    then confirm_open now fresh b object r (key_of r.claims.pair_id)
        (get_open_pairing now (key_of r.claims.pair_id) h)
    else send_error b.socket invalid_pairing (some r.connection_id) h

-- relayBackendSignal, for the route that was found.
unfoldable pub relay_backend_signal : IceSignal → Registered → ℕ → Route → Hub → Hub
relay_backend_signal (candidate c) b object r h =
    send r.browser (signal r.connection_id (candidate c)) h
relay_backend_signal (description offer sdp) b object r h =
    send_error b.socket invalid_message (some r.connection_id) h
relay_backend_signal (description answer sdp) b object r h =
    send r.browser (signal r.connection_id (description answer sdp))
      (record h { links = write_route object (record r { answer_sdp = some sdp }) h.links })

-- closeFromBackend, for the route that was found.
unfoldable pub close_from_backend : Registered → ℕ → Route → Hub → Hub
close_from_backend b object r h =
    send r.browser (connection_closed r.connection_id)
      (record h { links = remove_route object r h.links })

module _ (identity : Identity) where
  open identity use {
    verify_backend_challenge, derive_backend_id, sha256, extract_dtls_fingerprint,
    verify_backend_identity_binding,
  }

  -- The checks of relayBackendBinding.
  unfoldable pub is_binding_valid : Registered → Route → Binding → Bool
  is_binding_valid b r x =
      truthy r.offer_sdp
      && truthy r.answer_sdp
      && x.backend_id == b.backend_id
      && x.public_key == b.public_key
      && x.connection_id == r.connection_id
      && x.offer_sha256 == sha256 (key_of r.offer_sdp)
      && x.answer_sha256 == sha256 (key_of r.answer_sdp)
      && same (extract_dtls_fingerprint (key_of r.answer_sdp)) (some x.dtls_fingerprint)
      && x.expires_at == r.claims.expires_at
      && verify_backend_identity_binding x

  -- relayBackendBinding, for the route that was found. Where a check fails, closeFromBackend looks
  -- for the same route again.
  unfoldable pub relay_backend_binding : Binding → Registered → ℕ → Route → Hub → Hub
  relay_backend_binding x b object r h =
      if is_binding_valid b r x
      then send r.browser (connection_binding r.connection_id x) h
      else close_from_backend b object r
          (send_error b.socket invalid_message (some r.connection_id) h)

  -- A command of a registered backend.
  unfoldable pub handle_registered : ℕ → ℕ → Registered → BackendCommand → Hub → Hub
  handle_registered now fresh b (register_backend key sig) h =
      send_error b.socket invalid_message none h
  handle_registered now fresh b (open_pairing pair_id expires_at) h =
      open_a_pairing now b pair_id expires_at h
  handle_registered now fresh b (confirm_pairing c) h = with_route b c (confirm_route now fresh b) h
  handle_registered now fresh b (relays c s) h = with_route b c (relay_backend_signal s b) h
  handle_registered now fresh b (binds c x) h = with_route b c (relay_backend_binding x b) h
  handle_registered now fresh b (closes c) h = with_route b c (close_from_backend b) h

  -- An older connection of the same backend goes.
  unfoldable pub replace_previous : Option Registered → ℕ → Hub → Hub
  replace_previous none socket h = h
  replace_previous (some previous) socket h =
      if previous.socket != socket
      then close_socket previous.socket (remove_registered_backend previous h)
      else h

  abbrev tell_pending : Option RevocationResult → ℕ → Hub → Hub
  tell_pending none socket h = h
  tell_pending (some r) socket h = send socket (authorization_revoked r.account_id none) h

  -- registerBackend, behind the checks of signature and key.
  unfoldable pub set_registered : ℕ → Handshake → ℕ → ℕ → Hub → Hub
  set_registered socket hs key id h =
      let b : Registered = record { backend_id = id; public_key = key; socket = socket } in
      let cleared = replace_previous (get id h.links.backends) socket h in
      tell_pending (get_pending_backend_revocation cleared.trust.state id) socket (
        send socket (registered_as id) (record cleared {
          handshakes = put socket (record hs { registered = some b }) cleared.handshakes;
          links = record (cleared.links) { backends = put id b cleared.links.backends };
        }))

  unfoldable pub register_derived : ℕ → Handshake → ℕ → Option ℕ → Hub → Hub
  register_derived socket hs key none h =
      close_socket socket (send_error socket invalid_message none h)
  register_derived socket hs key (some id) h = set_registered socket hs key id h

  -- registerBackend
  unfoldable pub register : ℕ → Handshake → ℕ → ℕ → Hub → Hub
  register socket hs key sig h =
      if verify_backend_challenge key hs.nonce sig
      then register_derived socket hs key (derive_backend_id key) h
      else close_socket socket (send_error socket unauthorized_connection none h)

  -- A command before the registration: it has to be the registration.
  unfoldable pub handle_unregistered : ℕ → Handshake → BackendCommand → Hub → Hub
  handle_unregistered socket hs (register_backend key sig) h = register socket hs key sig h
  handle_unregistered socket hs _ h = send_error socket unauthorized_connection none h

  abbrev pub handle_known : ℕ → ℕ → ℕ → Handshake → Option Registered → BackendCommand → Hub → Hub
  handle_known now fresh socket hs none command h = handle_unregistered socket hs command h
  handle_known now fresh socket hs (some b) command h = handle_registered now fresh b command h

  unfoldable pub handle_handshake : ℕ → ℕ → ℕ → Option Handshake → BackendCommand → Hub → Hub
  handle_handshake now fresh socket none command h =
      send_error socket unauthorized_connection none h
  handle_handshake now fresh socket (some hs) command h =
      handle_known now fresh socket hs hs.registered command h

  -- handleBackendMessage, for a message that was decoded.
  unfoldable pub handle_backend_message : ℕ → ℕ → ℕ → BackendCommand → Hub → Hub
  handle_backend_message now fresh socket command h =
      handle_handshake now fresh socket (get socket h.handshakes) command h

abbrev pub remove_current : ℕ → Option Registered → Hub → Hub
remove_current socket none h = h
remove_current socket (some b) h =
    if has_socket (get b.backend_id h.links.backends) socket
    then remove_registered_backend b h
    else h

unfoldable pub remove_handshake : ℕ → Option Handshake → Hub → Hub
remove_handshake socket none h = h
remove_handshake socket (some hs) h =
    remove_current socket hs.registered (record h { handshakes = remove socket h.handshakes })

-- removeBackendSocket, the socket's close event.
unfoldable pub remove_backend_socket : ℕ → Hub → Hub
remove_backend_socket socket h = remove_handshake socket (get socket h.handshakes) h
