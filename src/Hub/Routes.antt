-- ===== src/Hub/Routes.antt =====
-- src/rendezvous/rendezvous-hub.ts: sending, pairings, and how routes come and go.
use pipane.Base.{
  List, ℕ, ◌+◌, Bool, false, not, ◌&&◌, ◌||◌, Option, none, some, [], ◌∷◌, same, truthy, leb, ◌==◌,
  ◌!=◌, contains, without, if◌then◌else◌,
}
use pipane.Base.Dict.{Dict, get, put, remove, retain}
use pipane.Trust.Devices.{RevocationResult, get_backend_owner}
use pipane.Hub.Types.{
  Registered, Route, ActivePairing, HubMessage, authorization_revoked, connection_closed, ErrorCode,
  failed, Links, Hub,
}

-- send, sendBackend, sendBrowser
abbrev pub send : ℕ → HubMessage → Hub → Hub
send socket message h = record h {
  sent = if contains socket h.open_sockets then (socket, message) ∷ h.sent else h.sent;
}

-- sendError, sendBrowserError
abbrev pub send_error : ℕ → ErrorCode → Option ℕ → Hub → Hub
send_error socket code connection_id h = send socket (failed code connection_id) h

-- `socket.close(…)`
abbrev pub close_socket : ℕ → Hub → Hub
close_socket socket h = record h { open_sockets = without socket h.open_sockets }

abbrev pub socket_open : Hub → Option Registered → Bool
socket_open h none = false
socket_open h (some b) = contains b.socket h.open_sockets

-- isBackendOnline
unfoldable pub is_backend_online : Hub → ℕ → Bool
is_backend_online h id = socket_open h (get id h.links.backends)

-- getOpenPairing, for a pairing that was found.
unfoldable pub check_pairing : ℕ → ℕ → Option ActivePairing → Hub → Option ActivePairing × Hub
check_pairing now pair_id none h = (none, h)
check_pairing now pair_id (some p) h =
    let stale = leb p.expires_at now || not (is_backend_online h p.backend_id) in
    (
      (if stale then none else some p),
      record h { pairings = if stale then remove pair_id h.pairings else h.pairings },
    )

-- getOpenPairing
unfoldable pub get_open_pairing : ℕ → ℕ → Hub → Option ActivePairing × Hub
get_open_pairing now pair_id h = check_pairing now pair_id (get pair_id h.pairings) h

-- `if (map.get(key) === object) map.delete(key)`
abbrev pub remove_object : ℕ → ℕ → Dict ℕ → Dict ℕ
remove_object key object m = if same (get key m) (some object) then remove key m else m

-- removeRoute
unfoldable pub remove_route : ℕ → Route → Links → Links
remove_route object r l = record l {
  routes = remove_object r.connection_id object l.routes;
  browser_routes = remove_object r.browser object l.browser_routes;
}

-- A new BrowserRoute in both maps.
unfoldable pub add_route : Route → Links → Links
add_route r l = record l {
  routes = put r.connection_id l.next_object l.routes;
  browser_routes = put r.browser l.next_object l.browser_routes;
  objects = put l.next_object r l.objects;
  next_object = l.next_object + 1;
}

-- A field of a BrowserRoute is written.
unfoldable pub write_route : ℕ → Route → Links → Links
write_route object r l = record l { objects = put object r l.objects }

-- The object behind an entry of a map.
unfoldable pub route_of : Links → Option ℕ → Option (ℕ × Route)
route_of l none = none
route_of l (some object) = elim (get object l.objects) [ none ↦ none | some r ↦ some (object, r) ]

abbrev pub drop_one : ℕ → Option Route → (Route → Bool) → Hub → Hub
drop_one object none test h = h
drop_one object (some r) test h =
    if test r
    then send r.browser (connection_closed r.connection_id)
        (record h { links = remove_route object r h.links })
    else h

-- A loop over `[...this.routes.values()]` that removes the routes that pass, and tells their browsers.
unfoldable pub drop_routes : (Route → Bool) → Dict ℕ → Hub → Hub
drop_routes test [] h = h
drop_routes test ((c, object) ∷ entries) h =
    drop_routes test entries (drop_one object (get object h.links.objects) test h)

-- The routes that notifyRevocation removes.
abbrev pub is_revoked_by : RevocationResult → Route → Bool
is_revoked_by result r =
    same r.claims.account_id (some result.account_id)
    && (not (truthy result.backend_id) || same (some r.backend_id) result.backend_id)
    && (not (truthy result.device_id) || same (some r.claims.device_id) result.device_id)

abbrev is_affected : Hub → RevocationResult → Registered → Bool
is_affected h result b =
    if truthy result.backend_id
    then same (some b.backend_id) result.backend_id
    else same (get_backend_owner h.trust.state b.backend_id) (some result.account_id)

unfoldable pub tell_revoked : RevocationResult → Dict Registered → Hub → Hub
tell_revoked result [] h = h
tell_revoked result ((id, b) ∷ bs) h =
    let told = record h {
      sent =
          if is_affected h result b && contains b.socket h.open_sockets
          then (b.socket, authorization_revoked result.account_id result.device_id) ∷ h.sent
          else h.sent;
    } in
    tell_revoked result bs told

-- notifyRevocation
unfoldable pub notify_revocation : RevocationResult → Hub → Hub
notify_revocation result h =
    let told = tell_revoked result h.links.backends h in
    drop_routes (is_revoked_by result) told.links.routes told

abbrev pub has_socket : Option Registered → ℕ → Bool
has_socket none socket = false
has_socket (some b) socket = b.socket == socket

-- removeRegisteredBackend
unfoldable pub remove_registered_backend : Registered → Hub → Hub
remove_registered_backend b h =
    drop_routes (λ r. r.backend_id == b.backend_id) h.links.routes
      (record h {
        links = record (h.links) {
          backends =
              if has_socket (get b.backend_id h.links.backends) b.socket
              then remove b.backend_id h.links.backends
              else h.links.backends;
        };
        pairings = retain (λ p. p.backend_id != b.backend_id) h.pairings;
      })

abbrev close_backends : Dict Registered → List ℕ → List ℕ
close_backends [] sockets = sockets
close_backends ((id, b) ∷ bs) sockets = close_backends bs (without b.socket sockets)

abbrev close_browsers : Dict ℕ → List ℕ → List ℕ
close_browsers [] sockets = sockets
close_browsers ((browser, object) ∷ entries) sockets =
    close_browsers entries (without browser sockets)

-- close, which also stops the timers.
unfoldable pub close_hub : Hub → Hub
close_hub h = record h {
  handshakes = [];
  links = record {
    backends = [];
    routes = [];
    browser_routes = [];
    objects = [];
    next_object = h.links.next_object;
  };
  pairings = [];
  open_sockets =
      close_browsers h.links.browser_routes (close_backends h.links.backends h.open_sockets);
}
