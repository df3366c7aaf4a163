-- ===== src/Hub/Requests.antt =====
-- What the hub, src/rendezvous/rendezvous-hub.ts, keeps over the requests of src/rendezvous/server.ts
-- that write to its trust store.
use pipane.Base.{not, ◌&&◌, truthy, ℕ, inl, inr, Bool, Option, none, some, Bool-cases}
use pipane.Trust.Types.{Purpose, Request, pair, connect, State, Crypto}
use pipane.Trust.Tickets.{issue_connection_ticket, key_of}
use pipane.Trust.Challenges.{consume_challenge}
use pipane.Trust.Devices.{list_authorized_backend_ids}
use pipane.Trust.History.{
  Call, creates_challenge, issues_pairing, issues_connection, routes, confirms, lists, invites,
  accepts, revokes_device, revokes_backend,
}
use pipane.Trust.History
use pipane.Hub.Types.{ActivePairing, Hub}
use pipane.Hub.Routes.{is_backend_online, get_open_pairing}
use pipane.Hub.History.{with_pairing, call_trust, ask_challenge, request}
use pipane.Hub.Sound.{Inv, Sound}
use pipane.Hub.Keeping.{Inv-same}
use pipane.Hub.TrustSteps.{
  issue_pairing_ticket-SameOwners, SameOwners, create_challenge-SameOwners,
  create_invite-SameOwners, accept_invite-SameOwners,
}
use pipane.Hub.BackendSteps.{get_open_pairing-Sound}

-- The calls that the routes of revocations and the hub itself do not make.
abbrev OnlyTrust : Call → Type 0
OnlyTrust (routes ticket) = ⊥
OnlyTrust (confirms fresh claims) = ⊥
OnlyTrust (revokes_device c sig) = ⊥
OnlyTrust (revokes_backend c sig) = ⊥
OnlyTrust _ = Unit

module _ (h : Hub) (v : Sound h) where
  pub kept_by : (state : State) → SameOwners h.trust.state state → Inv h.links state
  kept_by state o = Inv-same h.links h.trust.state state o.owners o.completions v

  call_trust-Sound :
      (crypto : Crypto) (now : ℕ) (call : Call)
      → OnlyTrust call
      → Sound (call_trust crypto now call h)
  unfolding History.step issue_connection_ticket list_authorized_backend_ids consume_challenge
  call_trust-Sound crypto now (creates_challenge id nonce r) only =
      kept_by _ (create_challenge-SameOwners crypto now h.trust id nonce r)
  call_trust-Sound crypto now (issues_pairing id c sig) only =
      kept_by _ (issue_pairing_ticket-SameOwners crypto now h.trust id c sig)
  call_trust-Sound crypto now (issues_connection id c sig) only = v
  call_trust-Sound crypto now (lists c sig) only = v
  call_trust-Sound crypto now (invites id secret c sig) only =
      kept_by _ (create_invite-SameOwners crypto now h.trust c sig id secret)
  call_trust-Sound crypto now (accepts id secret c sig) only =
      kept_by _ (accept_invite-SameOwners crypto now h.trust c sig id secret)
  call_trust-Sound crypto now (routes ticket) only = absurd only
  call_trust-Sound crypto now (confirms fresh claims) only = absurd only
  call_trust-Sound crypto now (revokes_device c sig) only = absurd only
  call_trust-Sound crypto now (revokes_backend c sig) only = absurd only

module _ (crypto : Crypto) (now : ℕ) where
  with_pairing-Sound :
      (call : Call) (test : ActivePairing → Bool) (found : Option ActivePairing) (h : Hub)
      → OnlyTrust call
      → Sound h
      → Sound (with_pairing crypto now call test (found, h))
  unfolding with_pairing
  with_pairing-Sound call test none h only v = v
  with_pairing-Sound call test (some p) h only v = elim (Bool-cases (test p)) [
    | inl passes ↦ rw passes (call_trust-Sound h v crypto now call only)
    | inr fails ↦ rw fails v
  ]

  ask_challenge-Sound :
      (id nonce : ℕ) (r : Request) (purpose : Purpose) (h : Hub)
      → Sound h
      → Sound (ask_challenge crypto now id nonce r purpose h)
  unfolding ask_challenge
  ask_challenge-Sound id nonce r pair h v = elim (Bool-cases (truthy r.pair_id)) [
    | inl given ↦ rw given (
        let after = get_open_pairing now (key_of r.pair_id) h in
        with_pairing-Sound (creates_challenge id nonce r) _ after.0 after.1 tt
          (get_open_pairing-Sound now (key_of r.pair_id) h v))
    | inr missing ↦ rw missing v
  ]
  ask_challenge-Sound id nonce r connect h v =
      elim (Bool-cases (truthy r.backend_id && not (is_backend_online h (key_of r.backend_id)))) [
        | inl offline ↦ rw offline v
        | inr online ↦ rw online (call_trust-Sound h v crypto now (creates_challenge id nonce r) tt)
      ]
  ask_challenge-Sound id nonce r _ h v =
      call_trust-Sound h v crypto now (creates_challenge id nonce r) tt

  pub request-Sound :
      (path_id : ℕ) (call : Call) (h : Hub) → Sound h → Sound (request crypto now path_id call h)
  unfolding request
  request-Sound path_id (routes ticket) h v = v
  request-Sound path_id (confirms fresh claims) h v = v
  request-Sound path_id (revokes_device c sig) h v = v
  request-Sound path_id (revokes_backend c sig) h v = v
  request-Sound path_id (creates_challenge id nonce r) h v =
      ask_challenge-Sound id nonce r r.purpose h v
  request-Sound path_id (issues_pairing id c sig) h v =
      let after = get_open_pairing now path_id h in
      with_pairing-Sound (issues_pairing id c sig) _ after.0 after.1 tt
        (get_open_pairing-Sound now path_id h v)
  request-Sound path_id (issues_connection id c sig) h v =
      call_trust-Sound h v crypto now (issues_connection id c sig) tt
  request-Sound path_id (lists c sig) h v = call_trust-Sound h v crypto now (lists c sig) tt
  request-Sound path_id (invites id secret c sig) h v =
      call_trust-Sound h v crypto now (invites id secret c sig) tt
  request-Sound path_id (accepts id secret c sig) h v =
      call_trust-Sound h v crypto now (accepts id secret c sig) tt
