-- ===== src/Hub/BrowserSteps.antt =====
-- What a browser's socket brings about in src/rendezvous/rendezvous-hub.ts keeps the hub sound.
use pipane.Base.{
  ℕ, ◌≡◌, ◌≢◌, ◌==◌, inl, inr, Bool, true, false, Option, none, some, arith, is_some, truthy, refl,
  Result, ok, err, Option-cases, Bool-cases, contains,
}
use pipane.Base.Dict.{get}
use pipane.Trust.Types.{Error, connection, Claims, Store, Crypto}
use pipane.Trust.Tickets.{
  key_of, consume_route_ticket, verify_ticket, check_ticket_time, spend_ticket,
}
use pipane.Trust.Devices.{get_backend_owner}
use pipane.Hub.Types.{
  Registered, Route, offer, answer, IceSignal, description, candidate, BrowserCommand,
  connect_backend, signals, leaves, Hub,
}
use pipane.Hub.Routes.{route_of}
use pipane.Hub.Browsers.{
  remove_browser, open_route, check_claims, connect_checked, connect_with, connect_online,
  connect_browser, relay_browser_signal, close_from_browser, with_backend, with_own_route,
  handle_browser_message,
}
use pipane.Hub.Sound.{Sound}
use pipane.Hub.Keeping.{remove_route-Inv, write_route-Inv, add_route-Inv, Inv-same}
use pipane.Hub.TrustSteps.{SameOwners, consume_route_ticket-SameOwners}
use pipane.Hub.BackendSteps.{Found, get_open_pairing-same, Sound-same}
use pipane.Hub.Leaving.{route_cases, remove_browser-Left}

-- A ticket's checks change neither routes nor trust; a connection ticket that passes is its owner's.
check_claims-same :
    (now id : ℕ) (claims : Claims) (h : Hub)
    → ((check_claims now id claims h).1.links ≡ h.links)
      × ((check_claims now id claims h).1.trust ≡ h.trust)
unfolding check_claims
check_claims-same now id claims h = (
  ground (arith, get_open_pairing-same now (key_of claims.pair_id) h),
  ground (arith, get_open_pairing-same now (key_of claims.pair_id) h),
)

check_claims-Owned :
    (now id : ℕ) (claims : Claims) (h : Hub)
    → (check_claims now id claims h).0 ≡ true
    → claims.kind ≡ connection
    → (truthy claims.account_id ≡ true) × (get_backend_owner h.trust.state id ≡ claims.account_id)
unfolding check_claims
check_claims-Owned now id claims h e k = (ground arith, ground arith)

open_route-Sound :
    (socket : ℕ) (b : Registered) (ticket : ℕ) (claims : Claims) (h : Hub)
    → Sound h
    → get claims.connection_id h.links.routes ≡ none
    → is_some (get b.backend_id h.links.backends) ≡ true
    → (claims.kind ≡ connection
        → (truthy claims.account_id ≡ true)
          × (get_backend_owner h.trust.state b.backend_id ≡ claims.account_id))
    → claims.account_id ≢ some 0
    → Sound (open_route socket b ticket claims h)
unfolding open_route
open_route-Sound socket b ticket claims h v free online owned named =
    let left = remove_browser-Left socket h v in
    add_route-Inv _ (remove_browser socket h).links (remove_browser socket h).trust.state
      (left.fewer claims.connection_id free) left.routeless (rw left.same_backends online)
      (λ k. let o = owned k in (o.0, rw left.same_trust o.1)) named left.sound

connect_checked-Sound :
    (socket : ℕ) (b : Registered) (ticket : ℕ) (claims : Claims) (allowed : Bool) (h : Hub)
    → Sound h
    → is_some (get b.backend_id h.links.backends) ≡ true
    → (allowed ≡ true
        → claims.kind ≡ connection
        → (truthy claims.account_id ≡ true)
          × (get_backend_owner h.trust.state b.backend_id ≡ claims.account_id))
    → claims.account_id ≢ some 0
    → Sound (connect_checked socket b ticket claims (allowed, h))
unfolding connect_checked
connect_checked-Sound socket b ticket claims false h v online owned named = v
connect_checked-Sound socket b ticket claims true h v online owned named =
    elim (Option-cases (get claims.connection_id h.links.routes)) [
      | inr (o, taken) ↦ rw (taken, connect_checked) v
      | inl free ↦
          rw (free, connect_checked)
            (open_route-Sound socket b ticket claims h v free online (owned refl) named)
    ]

connect_with-Sound :
    (now socket : ℕ) (b : Registered) (ticket : ℕ) (answer : Result Error Claims × Store) (h : Hub)
    → Sound h
    → is_some (get b.backend_id h.links.backends) ≡ true
    → SameOwners h.trust.state answer.1.state
    → ((claims : Claims) → answer.0 ≡ ok claims → claims.account_id ≢ some 0)
    → Sound (connect_with now socket b ticket answer h)
unfolding connect_with
connect_with-Sound now socket b ticket (err e, trust) h v online same_owners named =
    Inv-same h.links h.trust.state trust.state same_owners.owners same_owners.completions v
connect_with-Sound now socket b ticket (ok claims, trust) h v online same_owners named =
    let h₁ : Hub = record h { trust = trust } in
    let v₁ : Sound h₁ =
      Inv-same h.links h.trust.state trust.state same_owners.owners same_owners.completions v in
    let (l, t) = check_claims-same now b.backend_id claims h₁ in
    connect_checked-Sound socket b ticket claims (check_claims now b.backend_id claims h₁).0
      (check_claims now b.backend_id claims h₁).1
      (Sound-same h₁ (check_claims now b.backend_id claims h₁).1 l t v₁) (rw l online)
      (λ e k. let o = check_claims-Owned now b.backend_id claims h₁ e k in (o.0, rw t o.1))
      (named claims refl)

-- The claims of a ticket that opens name an account, or none: parseConnectionTicketClaims refuses an
-- empty name.
abbrev pub SoundTickets : Crypto → Type 0
SoundTickets crypto =
    (ticket : ℕ) (claims : Claims)
    → crypto.open_ticket ticket ≡ ok claims
    → claims.account_id ≢ some 0

consumed-opened :
    (crypto : Crypto) (now ticket : ℕ) (s : Store) (claims : Claims)
    → (consume_route_ticket crypto now ticket s).0 ≡ ok claims
    → crypto.open_ticket ticket ≡ ok claims
unfolding consume_route_ticket verify_ticket check_ticket_time spend_ticket
consumed-opened crypto now ticket s claims e = ground arith

with_backend-Sound :
    (socket : ℕ) (f : Registered → ℕ → Route → Hub → Hub) (o : ℕ) (r : Route)
    (found : Option Registered) (h : Hub)
    → Found h o r
    → Sound h
    → ((b : Registered) → Sound (f b o r h))
    → Sound (with_backend socket f o r found h)
unfolding with_backend
with_backend-Sound socket f o r none h there v keep =
    remove_route-Inv o r h.links h.trust.state there.object_at v
with_backend-Sound socket f o r (some b) h there v keep =
    elim (Bool-cases (contains b.socket h.open_sockets)) [
      | inl online ↦ rw (online, with_backend) (keep b)
      | inr offline ↦
          rw (offline, with_backend) (remove_route-Inv o r h.links h.trust.state there.object_at v)
    ]

with_own_route-Sound :
    (socket c : ℕ) (f : Registered → ℕ → Route → Hub → Hub) (h : Hub)
    → Sound h
    → ((b : Registered) (o : ℕ) (r : Route) → Found h o r → Sound (f b o r h))
    → Sound (with_own_route socket c f (route_of h.links (get socket h.links.browser_routes)) h)
unfolding with_own_route
with_own_route-Sound socket c f h v keep =
    route_cases (λ found. Sound (with_own_route socket c f found h)) h socket
      (get socket h.links.browser_routes) refl v v
      (λ o r name there. elim (Bool-cases (r.connection_id == c)) [
        | inl own ↦
            rw (own, with_own_route)
              (with_backend-Sound socket f o r (get r.backend_id h.links.backends) h there v
                (λ b. keep b o r there))
        | inr other ↦ rw (other, with_own_route) v
      ])

relay_browser_signal-Sound :
    (socket : ℕ) (s : IceSignal) (b : Registered) (o : ℕ) (r : Route) (h : Hub)
    → Found h o r
    → Sound h
    → Sound (relay_browser_signal socket s b o r h)
unfolding relay_browser_signal
relay_browser_signal-Sound socket (candidate c) b o r h there v = v
relay_browser_signal-Sound socket (description answer sdp) b o r h there v = v
relay_browser_signal-Sound socket (description offer sdp) b o r h there v =
    write_route-Inv o r (record r { offer_sdp = some sdp }) h.links h.trust.state there.object_at
      refl refl (v.online r.connection_id o r there.connection_at there.object_at)
      (v.owned r.connection_id o r there.connection_at there.object_at)
      (v.names r.connection_id o r there.connection_at there.object_at) v

module _ (crypto : Crypto) (tickets : SoundTickets crypto) where
  connect_browser-Sound :
      (now socket id ticket : ℕ) (h : Hub)
      → Sound h
      → Sound (connect_browser crypto now socket id ticket h)
  unfolding connect_browser connect_online
  connect_browser-Sound now socket id ticket h v = elim (Option-cases (get id h.links.backends)) [
    | inl nobody ↦ rw (nobody, connect_browser) v
    | inr (b, there) ↦ elim (Bool-cases (contains b.socket h.open_sockets)) [
      | inr offline ↦ rw (there, connect_browser) (rw (offline, connect_online) v)
      | inl online ↦
          let own = v.shared.keyed id b there in
          rw (there, connect_browser)
            (rw (online, connect_online)
              (connect_with-Sound now socket b ticket
                (consume_route_ticket crypto now ticket h.trust) h v (ground (arith, own, there))
                (consume_route_ticket-SameOwners crypto now h.trust ticket)
                (λ claims e.
                  tickets ticket claims (consumed-opened crypto now ticket h.trust claims e))))
    ]
  ]

  pub handle_browser_message-Sound :
      (now socket : ℕ) (command : BrowserCommand) (h : Hub)
      → Sound h
      → Sound (handle_browser_message crypto now socket command h)
  unfolding handle_browser_message close_from_browser
  handle_browser_message-Sound now socket (connect_backend id ticket) h v =
      connect_browser-Sound now socket id ticket h v
  handle_browser_message-Sound now socket (signals c s) h v =
      with_own_route-Sound socket c (relay_browser_signal socket s) h v
        (λ b o r there. relay_browser_signal-Sound socket s b o r h there v)
  handle_browser_message-Sound now socket (leaves c) h v =
      with_own_route-Sound socket c close_from_browser h v
        (λ b o r there. remove_route-Inv o r h.links h.trust.state there.object_at v)
