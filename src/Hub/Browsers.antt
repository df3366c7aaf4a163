-- ===== src/Hub/Browsers.antt =====
-- src/rendezvous/rendezvous-hub.ts: what a browser's socket brings about.
use pipane.Base.{
  ℕ, Bool, true, false, ◌&&◌, Option, none, some, Result, ok, err, same, truthy, ◌==◌, ◌!=◌,
  contains, is_some, if◌then◌else◌,
}
use pipane.Base.Dict.{get}
use pipane.Trust.Types.{Error, Claims, pairing, connection, State, Store, Crypto}
use pipane.Trust.Tickets.{key_of, consume_route_ticket}
use pipane.Trust.Devices.{get_backend_owner, is_device_active}
use pipane.Hub.Types.{
  Registered, Route, ActivePairing, offer, answer, IceSignal, description, candidate,
  BrowserCommand, connect_backend, signals, leaves, unauthorized_connection, invalid_message,
  invalid_ticket, backend_offline, connection_request, connection_closed, signal, backend_connected,
  Hub,
}
use pipane.Hub.Routes.{
  send, send_error, socket_open, get_open_pairing, remove_route, add_route, write_route, route_of,
}

abbrev tell_backend : Option Registered → ℕ → Hub → Hub
tell_backend none c h = h
tell_backend (some b) c h = send b.socket (connection_closed c) h

-- A browser's route goes, and its backend is told.
unfoldable pub leave_and_tell : Option (ℕ × Route) → Hub → Hub
leave_and_tell none h = h
leave_and_tell (some (object, r)) h =
    tell_backend (get r.backend_id h.links.backends) r.connection_id
      (record h { links = remove_route object r h.links })

-- removeBrowser, the socket's close event.
unfoldable pub remove_browser : ℕ → Hub → Hub
remove_browser socket h = leave_and_tell (route_of h.links (get socket h.links.browser_routes)) h

-- connectBrowser once its ticket is accepted and its connection id is free.
unfoldable pub open_route : ℕ → Registered → ℕ → Claims → Hub → Hub
open_route socket b ticket claims h =
    let r : Route = record {
      connection_id = claims.connection_id;
      backend_id = b.backend_id;
      browser = socket;
      ticket = ticket;
      claims = claims;
      offer_sdp = none;
      answer_sdp = none;
    } in
    let left = remove_browser socket h in
    send socket (backend_connected b.backend_id r.connection_id) (
      send b.socket (connection_request r.connection_id ticket)
        (record left { links = add_route r left.links }))

abbrev is_own_pairing : Option ActivePairing → ℕ → Bool
is_own_pairing none backend_id = false
is_own_pairing (some p) backend_id = p.backend_id == backend_id

-- The checks on a connection ticket's claims.
abbrev pub is_owner_ticket : State → ℕ → Claims → Bool
is_owner_ticket state backend_id claims =
    truthy claims.account_id
    && same (get_backend_owner state backend_id) claims.account_id
    && is_device_active state claims.device_id

-- The checks on a ticket's claims. An expired pairing that the check meets is forgotten.
unfoldable pub check_claims : ℕ → ℕ → Claims → Hub → Bool × Hub
check_claims now backend_id claims h =
    if claims.backend_id != backend_id then (false, h) else elim claims.kind [
      | connection ↦ (is_owner_ticket h.trust.state backend_id claims, h)
      | pairing ↦
          if truthy claims.pair_id
          then (let (p, h') = get_open_pairing now (key_of claims.pair_id) h in
              (is_own_pairing p backend_id, h'))
          else (false, h)
    ]

-- connectBrowser from the checks of the claims on.
unfoldable pub connect_checked : ℕ → Registered → ℕ → Claims → Bool × Hub → Hub
connect_checked socket b ticket claims (false, h) = send_error socket invalid_ticket none h
connect_checked socket b ticket claims (true, h) =
    if is_some (get claims.connection_id h.links.routes)
    then send_error socket invalid_ticket none h
    else open_route socket b ticket claims h

-- connectBrowser from the trust store's answer on.
unfoldable pub connect_with : ℕ → ℕ → Registered → ℕ → Result Error Claims × Store → Hub → Hub
connect_with now socket b ticket (err e, trust) h =
    send_error socket invalid_ticket none (record h { trust = trust })
connect_with now socket b ticket (ok claims, trust) h =
    connect_checked socket b ticket claims
      (check_claims now b.backend_id claims (record h { trust = trust }))

module _ (crypto : Crypto) where
  unfoldable pub connect_online : ℕ → ℕ → ℕ → Option Registered → Hub → Hub
  connect_online now socket ticket none h = send_error socket backend_offline none h
  connect_online now socket ticket (some b) h =
      if contains b.socket h.open_sockets
      then connect_with now socket b ticket (consume_route_ticket crypto now ticket h.trust) h
      else send_error socket backend_offline none h

  -- connectBrowser. A backend stands under its own id.
  unfoldable pub connect_browser : ℕ → ℕ → ℕ → ℕ → Hub → Hub
  connect_browser now socket backend_id ticket h =
      connect_online now socket ticket (get backend_id h.links.backends) h

-- A browser's signal to its backend.
unfoldable pub relay_browser_signal : ℕ → IceSignal → Registered → ℕ → Route → Hub → Hub
relay_browser_signal socket (candidate c) b object r h =
    send b.socket (signal r.connection_id (candidate c)) h
relay_browser_signal socket (description answer sdp) b object r h =
    send_error socket invalid_message (some r.connection_id) h
relay_browser_signal socket (description offer sdp) b object r h =
    send b.socket (signal r.connection_id (description offer sdp))
      (record h { links = write_route object (record r { offer_sdp = some sdp }) h.links })

unfoldable pub close_from_browser : Registered → ℕ → Route → Hub → Hub
close_from_browser b object r h =
    send b.socket (connection_closed r.connection_id)
      (record h { links = remove_route object r h.links })

-- The route's backend, which has to be online; otherwise the route goes.
unfoldable pub with_backend :
    ℕ → (Registered → ℕ → Route → Hub → Hub) → ℕ → Route → Option Registered → Hub → Hub
with_backend socket f object r b h =
    if socket_open h b
    then elim b [ none ↦ h | some b' ↦ f b' object r h ]
    else send_error socket backend_offline (some r.connection_id)
        (record h { links = remove_route object r h.links })

-- The browser's route, which has to be the connection that it names.
unfoldable pub with_own_route :
    ℕ → ℕ → (Registered → ℕ → Route → Hub → Hub) → Option (ℕ × Route) → Hub → Hub
with_own_route socket c f none h = send_error socket unauthorized_connection (some c) h
with_own_route socket c f (some (object, r)) h =
    if r.connection_id == c
    then with_backend socket f object r (get r.backend_id h.links.backends) h
    else send_error socket unauthorized_connection (some c) h

-- handleBrowserMessage, for a message that was decoded.
unfoldable pub handle_browser_message : Crypto → ℕ → ℕ → BrowserCommand → Hub → Hub
handle_browser_message crypto now socket (connect_backend backend_id ticket) h =
    connect_browser crypto now socket backend_id ticket h
handle_browser_message crypto now socket (signals c s) h =
    with_own_route socket c (relay_browser_signal socket s)
      (route_of h.links (get socket h.links.browser_routes)) h
handle_browser_message crypto now socket (leaves c) h =
    with_own_route socket c close_from_browser
      (route_of h.links (get socket h.links.browser_routes)) h
