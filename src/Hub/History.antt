-- ===== src/Hub/History.antt =====
-- Any events of the hub, src/rendezvous/rendezvous-hub.ts, with the requests of
-- src/rendezvous/server.ts that reach its trust store.
use pipane.Base.{
  not, ◌&&◌, same, truthy, if◌then◌else◌, Bool, true, ℕ, Option, none, some, List, [], ◌∷◌, Result,
  ok, err, without,
}
use pipane.Base.Dict.{get}
use pipane.Trust.Tickets.{key_of}
use pipane.Trust.Types.{pair, connect, Purpose, Request, Error, Store, Crypto}
use pipane.Trust.Devices.{RevocationResult, revoke_a_device, revoke_a_backend}
use pipane.Trust.History.{
  Call, creates_challenge, issues_pairing, issues_connection, routes, confirms, lists, invites,
  accepts, revokes_device, revokes_backend,
}
use pipane.Trust.History
use pipane.Hub.Types.{
  ErrorCode, ActivePairing, Handshake, BackendCommand, BrowserCommand, Hub, Identity,
}
use pipane.Hub.Routes.{
  close_hub, send_error, is_backend_online, get_open_pairing, notify_revocation,
}
use pipane.Hub.Backends.{
  accept_backend, registration_times_out, handle_backend_message, remove_backend_socket,
}
use pipane.Hub.Browsers.{handle_browser_message, remove_browser}

-- A message that does not decode is garbled. `requests` are the HTTP routes that only write to the trust store; `path_id` is the id that the path
-- of a pairing's route names.
pub data HubEvent : Type 0 where
  backend_opens : (socket nonce : ℕ) → HubEvent
  backend_sends : (socket fresh : ℕ) → BackendCommand → HubEvent
  backend_closes browser_closes timer_fires : (socket : ℕ) → HubEvent
  browser_opens : (socket : ℕ) → HubEvent
  browser_sends : (socket : ℕ) → BrowserCommand → HubEvent
  reads_pairing : (pair_id : ℕ) → HubEvent
  requests : (path_id : ℕ) → Call → HubEvent
  hub_closes : HubEvent
  garbles : (socket : ℕ) → ErrorCode → HubEvent
  revokes_a_device revokes_a_backend : (challenge signature : ℕ) → HubEvent

-- A revocation, and if it succeeds its notification.
unfoldable pub revoke_and_notify : Result Error RevocationResult × Store → Hub → Hub
revoke_and_notify (err e, trust) h = record h { trust = trust }
revoke_and_notify (ok r, trust) h = notify_revocation r (record h { trust = trust })

-- The registration timer is stopped by a registration.
unfoldable pub fire_timer : ℕ → Option Handshake → Hub → Hub
fire_timer socket none h = h
fire_timer socket (some hs) h = elim hs.registered [
  | none ↦ registration_times_out socket h
  | some b ↦ h
]

-- The socket's readyState becomes OPEN, or CLOSED.
abbrev pub open_event : ℕ → Hub → Hub
open_event socket h = record h { open_sockets = socket ∷ h.open_sockets }

abbrev pub close_event : ℕ → Hub → Hub
close_event socket h = record h { open_sockets = without socket h.open_sockets }

module _ (crypto : Crypto) where
  abbrev pub call_trust : ℕ → Call → Hub → Hub
  call_trust now call h = record h { trust = History.step crypto (now, call) h.trust }

  -- A call that waits for an open pairing.
  unfoldable pub with_pairing : ℕ → Call → (ActivePairing → Bool) → Option ActivePairing × Hub → Hub
  with_pairing now call test (none, h) = h
  with_pairing now call test (some p, h) = if test p then call_trust now call h else h

  -- /v1/auth/challenges
  unfoldable pub ask_challenge : ℕ → ℕ → ℕ → Request → Purpose → Hub → Hub
  ask_challenge now id nonce r pair h =
      if truthy r.pair_id
      then with_pairing now (creates_challenge id nonce r)
          (λ p. same (some p.backend_id) r.backend_id) (get_open_pairing now (key_of r.pair_id) h)
      else h
  ask_challenge now id nonce r connect h =
      if truthy r.backend_id && not (is_backend_online h (key_of r.backend_id))
      then h
      else call_trust now (creates_challenge id nonce r) h
  ask_challenge now id nonce r _ h = call_trust now (creates_challenge id nonce r) h

  -- The requests that write to the trust store alone. Tickets are spent and pairings confirmed by the
  -- hub, and revocations notify it.
  unfoldable pub request : ℕ → ℕ → Call → Hub → Hub
  request now path_id (routes ticket) h = h
  request now path_id (confirms fresh claims) h = h
  request now path_id (revokes_device c sig) h = h
  request now path_id (revokes_backend c sig) h = h
  request now path_id (creates_challenge id nonce r) h = ask_challenge now id nonce r r.purpose h
  request now path_id (issues_pairing id c sig) h =
      with_pairing now (issues_pairing id c sig) (λ p. true) (get_open_pairing now path_id h)
  request now path_id call h = call_trust now call h

module _ (crypto : Crypto) (identity : Identity) where
  unfoldable pub hub_step : ℕ × HubEvent → Hub → Hub
  hub_step (now, backend_opens socket nonce) h = accept_backend socket nonce (open_event socket h)
  hub_step (now, browser_opens socket) h = open_event socket h
  hub_step (now, backend_sends socket fresh command) h =
      handle_backend_message identity now fresh socket command h
  hub_step (now, backend_closes socket) h = remove_backend_socket socket (close_event socket h)
  hub_step (now, browser_closes socket) h = remove_browser socket (close_event socket h)
  hub_step (now, timer_fires socket) h = fire_timer socket (get socket h.handshakes) h
  hub_step (now, browser_sends socket command) h =
      handle_browser_message crypto now socket command h
  hub_step (now, reads_pairing pair_id) h = (get_open_pairing now pair_id h).1
  hub_step (now, requests path_id call) h = request crypto now path_id call h
  hub_step (now, hub_closes) h = close_hub h
  hub_step (now, garbles socket code) h = send_error socket code none h
  hub_step (now, revokes_a_device c sig) h =
      revoke_and_notify (revoke_a_device crypto now c sig h.trust) h
  hub_step (now, revokes_a_backend c sig) h =
      revoke_and_notify (revoke_a_backend crypto now c sig h.trust) h

  unfoldable pub hub_run : List (ℕ × HubEvent) → Hub → Hub
  hub_run [] h = h
  hub_run (e ∷ es) h = hub_run es (hub_step e h)
