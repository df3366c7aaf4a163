-- ===== src/Hub/Access.antt =====
-- Who has a route of the hub, src/rendezvous/rendezvous-hub.ts, and what a browser is sent over it.
use pipane.Base.{
  truthy, ◌∙◌, ◌<◌, ℕ, ◌≡◌, ◌≢◌, inl, inr, Bool, true, false, Option, none, some, arith, refl, sym,
  subst, Result, ok, err, Option-cases, Bool-cases, is_some, contains,
}
use pipane.Base.Dict.{get, get-put}
use pipane.Trust.Types.{Claims, connection, Error, Store, Crypto}
use pipane.Trust.Tickets.{
  key_of, verify_ticket, check_ticket_time, spend_ticket, consume_route_ticket,
}
use pipane.Trust.Challenges.{consume_challenge, require_active_device, persist}
use pipane.Trust.Devices.{
  is_device_active, get_backend_owner, RevocationResult, revoke_a_device, drop_device,
}
use pipane.Hub.Types.{Registered, Route, Hub, Identity}
use pipane.Hub.Routes.{
  notify_revocation, tell_revoked, is_revoked_by, is_backend_online, remove_route,
}
use pipane.Hub.Browsers.{
  is_owner_ticket, check_claims, connect_checked, connect_with, connect_online, connect_browser,
  open_route, remove_browser, leave_and_tell,
}
use pipane.Hub.History.{revokes_a_device, revoke_and_notify, hub_step}
use pipane.Hub.Sound.{Shared, Live}
use pipane.Hub.Dropping.{drop_all-Live, tell_revoked-links}
use pipane.Hub.BackendSteps.{get_open_pairing-same}

notify_revocation-Live :
    (r : RevocationResult) (h : Hub)
    → Shared h.links
    → Live (λ q. is_revoked_by r q ≡ false) (notify_revocation r h).links
unfolding notify_revocation
notify_revocation-Live r h v =
    let told = tell_revoked r h.links.backends h in
    drop_all-Live (is_revoked_by r) told
      (subst Shared (sym (tell_revoked-links r h.links.backends h)) v)

revoked-Live :
    (answer : Result Error RevocationResult × Store) (h : Hub) (r : RevocationResult)
    → Shared h.links
    → answer.0 ≡ ok r
    → Live (λ q. is_revoked_by r q ≡ false) (revoke_and_notify answer h).links
unfolding revoke_and_notify
revoked-Live (err e, trust) h r v done = absurd (ground arith)
revoked-Live (ok r', trust) h r v done =
    let same_result : r' ≡ r = ground arith in
    subst
      (λ x.
        Live (λ q. is_revoked_by x q ≡ false)
          (notify_revocation r' (record h { trust = trust })).links)
      same_result (notify_revocation-Live r' (record h { trust = trust }) v)

revoked_device :
    (crypto : Crypto) (now c sig : ℕ) (s : Store) (r : RevocationResult)
    → (revoke_a_device crypto now c sig s).0 ≡ ok r
    → r.backend_id ≡ none
unfolding revoke_a_device drop_device consume_challenge persist require_active_device
revoked_device crypto now c sig s r e = ground arith

-- Where a device's revocation succeeds, no route is left that is for this device and its account: the
-- hub has closed them all. Before it, the hub's two maps have to agree on their routes.
pub revokes_a_device-Live :
    (crypto : Crypto) (identity : Identity) (now c sig : ℕ) (h : Hub) (r : RevocationResult)
    → Shared h.links
    → (revoke_a_device crypto now c sig h.trust).0 ≡ ok r
    → Live
        (λ q. q.claims.account_id ≡ some r.account_id → some q.claims.device_id ≢ r.device_id)
        (hub_step crypto identity (now, revokes_a_device c sig) h).links
unfolding hub_step
revokes_a_device-Live crypto identity now c sig h r v done k o q e f account device =
    let spared = revoked-Live (revoke_a_device crypto now c sig h.trust) h r v done k o q e f in
    let whole = revoked_device crypto now c sig h.trust r done in absurd (ground arith)

-- A look at a route that goes opens none.
leave_and_tell-same :
    (found : Option (ℕ × Route)) (h : Hub)
    → ((leave_and_tell found h).links.next_object ≡ h.links.next_object)
      × ((leave_and_tell found h).trust ≡ h.trust)
unfolding leave_and_tell remove_route
leave_and_tell-same none h = (refl, refl)
leave_and_tell-same (some (object, r)) h = (ground arith, ground arith)

open_route-trust :
    (socket : ℕ) (b : Registered) (ticket : ℕ) (claims : Claims) (h : Hub)
    → (open_route socket b ticket claims h).trust ≡ h.trust
unfolding open_route remove_browser
open_route-trust socket b ticket claims h = (leave_and_tell-same _ h).1

check_claims-same :
    (now id : ℕ) (claims : Claims) (h : Hub)
    → ((check_claims now id claims h).1.links ≡ h.links)
      × ((check_claims now id claims h).1.trust ≡ h.trust)
unfolding check_claims
check_claims-same now id claims h =
    let (l, t) = get_open_pairing-same now (key_of claims.pair_id) h in
    (ground (arith, l), ground (arith, t))

check_claims-Owner :
    (now id : ℕ) (claims : Claims) (h : Hub)
    → (check_claims now id claims h).0 ≡ true
    → (claims.backend_id ≡ id)
      × (claims.kind ≡ connection → is_owner_ticket h.trust.state id claims ≡ true)
unfolding check_claims
check_claims-Owner now id claims h e = (ground arith, λ k. ground arith)

-- What holds where a route was opened for a ticket that a browser presented.
pub record Admitted (now backend_id : ℕ) (h : Hub) (t : Store) (claims : Claims) : Type 0 where
  pub online : is_backend_online h backend_id ≡ true
  pub this_backend : claims.backend_id ≡ backend_id
  pub current : now < claims.expires_at
  pub fresh : get claims.connection_id h.links.routes ≡ none
  pub spent : is_some (get claims.ticket_id t.state.used_tickets) ≡ true
  pub named : claims.kind ≡ connection → truthy claims.account_id ≡ true
  pub owner : claims.kind ≡ connection → get_backend_owner t.state backend_id ≡ claims.account_id
  pub active : claims.kind ≡ connection → is_device_active t.state claims.device_id ≡ true

module _ (now socket ticket : ℕ) (b : Registered) (h : Hub) where
  -- What the check of the claims, and of the free connection id, leaves of a route that was opened.
  checked-opens :
      (claims : Claims) (ok : Bool) (h' : Hub)
      → h'.links ≡ h.links
      → (connect_checked socket b ticket claims (ok, h')).links.next_object ≢ h.links.next_object
      → (ok ≡ true)
        × (get claims.connection_id h.links.routes ≡ none)
        × ((connect_checked socket b ticket claims (ok, h')).trust ≡ h'.trust)
  unfolding connect_checked
  checked-opens claims false h' l opened = absurd (opened (ground (arith, l)))
  checked-opens claims true h' l opened =
      elim (Option-cases (get claims.connection_id h'.links.routes)) [
        | inl free ↦ (refl, ground (arith, l), rw free (open_route-trust socket b ticket claims h'))
        | inr (o, taken) ↦ absurd (opened (rw taken (ground (arith, l))))
      ]

  connected-opens :
      (answer : Result Error Claims × Store)
      → (connect_with now socket b ticket answer h).links.next_object ≢ h.links.next_object
      → (claims : Claims) × (answer.0 ≡ ok claims)
        × ((connect_with now socket b ticket answer h).trust ≡ answer.1)
        × (claims.backend_id ≡ b.backend_id)
        × (get claims.connection_id h.links.routes ≡ none)
        × (claims.kind ≡ connection → is_owner_ticket answer.1.state b.backend_id claims ≡ true)
  unfolding connect_with
  connected-opens (err e, trust) opened = absurd (opened refl)
  connected-opens (ok claims, trust) opened =
      let here = record h { trust = trust } in
      let (links, kept) = check_claims-same now b.backend_id claims here in
      let (passed, free, left) =
        checked-opens claims (check_claims now b.backend_id claims here).0
          (check_claims now b.backend_id claims here).1 links opened in
      let (this, owner) = check_claims-Owner now b.backend_id claims here passed in
      (claims, refl, left ∙ kept, this, free, owner)

consumed-current :
    (crypto : Crypto) (now ticket : ℕ) (s : Store) (claims : Claims)
    → (consume_route_ticket crypto now ticket s).0 ≡ ok claims
    → (crypto.open_ticket ticket ≡ ok claims)
      × (now < claims.expires_at)
      × (is_some
            (get claims.ticket_id (consume_route_ticket crypto now ticket s).1.state.used_tickets)
          ≡ true)
unfolding consume_route_ticket verify_ticket check_ticket_time spend_ticket persist
consumed-current crypto now ticket s claims e =
    let same_claims : crypto.open_ticket ticket ≡ ok claims = ground arith in
    (same_claims, ground (arith, same_claims), grind (arith, get-put, same_claims))

abbrev OwnerFacts : Store → ℕ → Claims → Type 0
OwnerFacts t id claims =
    (truthy claims.account_id ≡ true)
    × (get_backend_owner t.state id ≡ claims.account_id)
    × (is_device_active t.state claims.device_id ≡ true)

owner_ticket-Facts :
    (t : Store) (id : ℕ) (claims : Claims)
    → is_owner_ticket t.state id claims ≡ true
    → OwnerFacts t id claims
owner_ticket-Facts t id claims e = (ground arith, ground arith, ground arith)

-- What is left of a browser's request once its backend was found online.
admitted :
    (crypto : Crypto) (now socket id ticket : ℕ) (b : Registered) (h h' : Hub)
    → h' ≡ connect_with now socket b ticket (consume_route_ticket crypto now ticket h.trust) h
    → is_backend_online h id ≡ true
    → b.backend_id ≡ id
    → h'.links.next_object ≢ h.links.next_object
    → (claims : Claims) × (crypto.open_ticket ticket ≡ ok claims)
      × Admitted now id h h'.trust claims
admitted crypto now socket id ticket b h h' same_hub online own opened =
    let s = (consume_route_ticket crypto now ticket h.trust).1 in
    let (claims, answered, left, this, free, owner) =
      connected-opens now socket ticket b h (consume_route_ticket crypto now ticket h.trust)
        (subst (λ x. x.links.next_object ≢ h.links.next_object) same_hub opened) in
    let (opens, current, spent) = consumed-current crypto now ticket h.trust claims answered in
    let kept : s ≡ h'.trust = sym (subst (λ x. x.trust ≡ s) (sym same_hub) left) in
    let owner_facts : claims.kind ≡ connection → OwnerFacts h'.trust id claims = λ k.
      owner_ticket-Facts h'.trust id claims (
        subst (λ t. is_owner_ticket t.state id claims ≡ true) kept
          (subst (λ x. is_owner_ticket s.state x claims ≡ true) own (owner k))) in
    (
      claims,
      opens,
      record {
        online = online;
        this_backend = this ∙ own;
        current = current;
        fresh = free;
        spent = subst (λ t. is_some (get claims.ticket_id t.state.used_tickets) ≡ true) kept spent;
        named = λ k. (owner_facts k).0;
        owner = λ k. (owner_facts k).1;
        active = λ k. (owner_facts k).2;
      },
    )

-- A browser's request that opens a route has presented a ticket that the hub's key opens to claims
-- for this backend, which is registered and online, that has not expired and is spent now, and whose
-- connection id no other route has; and the ticket of a connection is for the account that owns the
-- backend and for a device that is active. Before it, each backend has to be registered under its
-- own id.
pub connect_browser-Admitted :
    (crypto : Crypto) (now socket id ticket : ℕ) (h : Hub)
    → Shared h.links
    → (connect_browser crypto now socket id ticket h).links.next_object ≢ h.links.next_object
    → (claims : Claims) × (crypto.open_ticket ticket ≡ ok claims)
      × Admitted now id h (connect_browser crypto now socket id ticket h).trust claims
unfolding connect_browser connect_online is_backend_online
connect_browser-Admitted crypto now socket id ticket h v opened =
    elim (Option-cases (get id h.links.backends)) [
      | inl nobody ↦ absurd (opened (rw nobody refl))
      | inr (b, found) ↦ elim (Bool-cases (contains b.socket h.open_sockets)) [
        | inr offline ↦ absurd (opened (rw found (rw offline refl)))
        | inl online ↦
            admitted crypto now socket id ticket b h (connect_browser crypto now socket id ticket h)
              (rw found (rw online refl)) (rw found online) (v.keyed id b found) opened
      ]
    ]
