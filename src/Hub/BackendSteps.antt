-- ===== src/Hub/BackendSteps.antt =====
-- What a backend's socket brings about in src/rendezvous/rendezvous-hub.ts keeps the hub sound.
use pipane.Base.{
  ◌+◌, ltb, ◌||◌, leb, ℕ, ◌≡◌, ◌≢◌, ◌==◌, ◌⊎◌, inl, inr, true, Option, none, some, arith, truthy,
  refl, sym, subst, Result, ok, err, Option-cases, Bool-cases,
}
use pipane.Base.Dict.{get}
use pipane.Trust.Types.{Error, TicketKind, pairing, connection, Claims, Store}
use pipane.Trust.Tickets.{key_of}
use pipane.Trust.Pairing.{Confirmation}
use pipane.Trust.Pairing
use pipane.Trust.Devices.{get_backend_owner}
use pipane.Hub.Types.{
  Registered, Route, ActivePairing, offer, answer, IceSignal, description, candidate,
  BackendCommand, register_backend, open_pairing, confirm_pairing, relays, binds, closes, Hub,
  Identity,
}
use pipane.Hub.Routes.{check_pairing, get_open_pairing, route_of}
use pipane.Hub.Backends.{
  max_pairing_lifetime, is_pairing_claim, owned_route, with_route, set_pairing, open_a_pairing,
  finish_confirm, confirm_open, confirm_route, relay_backend_signal, close_from_backend,
  is_binding_valid, relay_backend_binding, handle_registered,
}
use pipane.Hub.Sound.{Online, Inv, Sound}
use pipane.Hub.Keeping.{remove_route-Inv, write_route-Inv}
use pipane.Hub.TrustSteps.{
  confirm_pairing-owner, confirm_pairing-Completed, confirm_pairing-account,
}

-- A route that is there.
pub record Found (h : Hub) (o : ℕ) (r : Route) : Type 0 where
  pub connection_at : get r.connection_id h.links.routes ≡ some o
  pub object_at : get o h.links.objects ≡ some r

check_pairing-same :
    (now p : ℕ) (found : Option ActivePairing) (h : Hub)
    → ((check_pairing now p found h).1.links ≡ h.links)
      × ((check_pairing now p found h).1.trust ≡ h.trust)
unfolding check_pairing
check_pairing-same now p none h = (refl, refl)
check_pairing-same now p (some x) h = (refl, refl)

-- A look at a pairing changes neither routes nor trust.
pub get_open_pairing-same :
    (now p : ℕ) (h : Hub)
    → ((get_open_pairing now p h).1.links ≡ h.links)
      × ((get_open_pairing now p h).1.trust ≡ h.trust)
unfolding get_open_pairing
get_open_pairing-same now p h = check_pairing-same now p (get p h.pairings) h

pub Sound-same : (h h' : Hub) → h'.links ≡ h.links → h'.trust ≡ h.trust → Sound h → Sound h'
Sound-same h h' l t v =
    subst (λ x. Inv x h'.trust.state) (sym l) (subst (λ x. Inv h.links x.state) (sym t) v)

pub get_open_pairing-Sound : (now p : ℕ) (h : Hub) → Sound h → Sound (get_open_pairing now p h).1
get_open_pairing-Sound now p h v =
    let (l, t) = get_open_pairing-same now p h in Sound-same h (get_open_pairing now p h).1 l t v

-- An owner that a route names stays the owner.
owner_kept :
    (now fresh : ℕ) (claims : Claims) (s : Store)
    → fresh ≢ 0
    → claims.account_id ≢ some 0
    → (x : ℕ) (account : Option ℕ) → truthy account ≡ true
    → get_backend_owner s.state x ≡ account
    → get_backend_owner (Pairing.confirm_pairing now fresh claims s).1.state x ≡ account
owner_kept now fresh claims s n named x none t e = cc
owner_kept now fresh claims s n named x (some a) t e =
    confirm_pairing-owner now fresh claims s n named x a (ground arith) e

pub Kind-cases : (k : TicketKind) → (k ≡ pairing) ⊎ (k ≡ connection)
Kind-cases pairing = inl refl
Kind-cases connection = inr refl

pairing_claim : (claims : Claims) → is_pairing_claim claims ≡ true → claims.kind ≡ pairing
pairing_claim claims h = elim (Kind-cases claims.kind) [ inl k ↦ k | inr k ↦ absurd (ground arith) ]

module _ (b : Registered) where
  with_route-Found :
      (c : ℕ) (f : ℕ → Route → Hub → Hub) (h : Hub) (found : Option ℕ)
      → get c h.links.routes ≡ found
      → Sound h
      → ((o : ℕ) (r : Route) → Found h o r → Sound (f o r h))
      → Sound (with_route b c f h)
  unfolding with_route owned_route route_of
  with_route-Found c f h none e v keep = rw (e, with_route) v
  with_route-Found c f h (some o) e v keep = elim (Option-cases (get o h.links.objects)) [
    | inl lost ↦ rw (e, with_route) (rw lost v)
    | inr (r, there) ↦ elim (Bool-cases (r.backend_id == b.backend_id)) [
      | inr other ↦ rw (e, with_route) (rw there (rw other v))
      | inl own ↦
          rw (e, with_route)
            (rw there (
              rw own (
                keep o r (record {
                  connection_at = let name = v.shared.named c o r e there in rw name e;
                  object_at = there;
                }))))
    ]
  ]

  with_route-Sound :
      (c : ℕ) (f : ℕ → Route → Hub → Hub) (h : Hub)
      → Sound h
      → ((o : ℕ) (r : Route) → Found h o r → Sound (f o r h))
      → Sound (with_route b c f h)
  with_route-Sound c f h v keep = with_route-Found c f h (get c h.links.routes) refl v keep

  set_pairing-Sound :
      (p x : ℕ) (found : Option ActivePairing) (h : Hub)
      → Sound h
      → Sound (set_pairing b p x (found, h))
  unfolding set_pairing
  set_pairing-Sound p x none h v = v
  set_pairing-Sound p x (some old) h v = elim (Bool-cases (old.backend_id == b.backend_id)) [
    | inl own ↦ rw (own, set_pairing) v
    | inr other ↦ rw (other, set_pairing) v
  ]

  relay_backend_signal-Sound :
      (s : IceSignal) (o : ℕ) (r : Route) (h : Hub)
      → Found h o r
      → Sound h
      → Sound (relay_backend_signal s b o r h)
  unfolding relay_backend_signal
  relay_backend_signal-Sound (candidate c) o r h there v = v
  relay_backend_signal-Sound (description offer sdp) o r h there v = v
  relay_backend_signal-Sound (description answer sdp) o r h there v =
      write_route-Inv o r (record r { answer_sdp = some sdp }) h.links h.trust.state there.object_at
        refl refl (v.online r.connection_id o r there.connection_at there.object_at)
        (v.owned r.connection_id o r there.connection_at there.object_at)
        (v.names r.connection_id o r there.connection_at there.object_at) v

  close_from_backend-Sound :
      (o : ℕ) (r : Route) (h : Hub) → Found h o r → Sound h → Sound (close_from_backend b o r h)
  unfolding close_from_backend
  close_from_backend-Sound o r h there v =
      remove_route-Inv o r h.links h.trust.state there.object_at v

  finish_cases :
      (o p : ℕ) (r : Route) (h : Hub) (answer : Result Error Confirmation × Store)
      → Found h o r
      → Online h.links.backends r
      → r.claims.kind ≡ pairing
      → Inv h.links answer.1.state
      → ((c : Confirmation) → answer.0 ≡ ok c → c.account_id ≢ 0)
      → Sound (finish_confirm b o r p answer h)
  unfolding finish_confirm
  finish_cases o p r h (err e, trust) there online k v named = v
  finish_cases o p r h (ok c, trust) there online k v named =
      write_route-Inv o r _ h.links trust.state there.object_at refl refl online
        (λ k'. absurd (ground arith)) (let account = named c refl in λ e. ground arith) v

  -- A confirmation that succeeds writes the account on the route, and may add an owner.
  finish_confirm-Sound :
      (now fresh o p : ℕ) (r : Route) (h : Hub)
      → fresh ≢ 0
      → r.claims.kind ≡ pairing
      → Found h o r
      → Sound h
      → Sound (finish_confirm b o r p (Pairing.confirm_pairing now fresh r.claims h.trust) h)
  finish_confirm-Sound now fresh o p r h n k there v =
      let named = v.names r.connection_id o r there.connection_at there.object_at in
      let answer = Pairing.confirm_pairing now fresh r.claims h.trust in
      let kept : Inv h.links answer.1.state = record {
        shared = v.shared;
        online = v.online;
        owned = λ c q x e f kind.
            let old = v.owned c q x e f kind in
            (
              old.0,
              owner_kept now fresh r.claims h.trust n named x.backend_id x.claims.account_id old.0
                  old.1,
            );
        names = v.names;
        completed = confirm_pairing-Completed now fresh r.claims h.trust n named v.completed;
      } in
      finish_cases o p r h answer there
        (v.online r.connection_id o r there.connection_at there.object_at) k kept
        (λ c e. confirm_pairing-account now fresh r.claims h.trust n named c v.completed e)

  confirm_open-Sound :
      (now fresh o p : ℕ) (r : Route) (found : Option ActivePairing) (h : Hub)
      → fresh ≢ 0
      → r.claims.kind ≡ pairing
      → Found h o r
      → Sound h
      → Sound (confirm_open now fresh b o r p (found, h))
  unfolding confirm_open
  confirm_open-Sound now fresh o p r none h n k there v = v
  confirm_open-Sound now fresh o p r (some x) h n k there v =
      elim (Bool-cases (x.backend_id == b.backend_id)) [
        | inr other ↦ rw (other, confirm_open) v
        | inl own ↦ rw (own, confirm_open) (finish_confirm-Sound now fresh o p r h n k there v)
      ]

  confirm_route-Sound :
      (now fresh o : ℕ) (r : Route) (h : Hub)
      → fresh ≢ 0
      → Found h o r
      → Sound h
      → Sound (confirm_route now fresh b o r h)
  unfolding confirm_route
  confirm_route-Sound now fresh o r h n there v = elim (Bool-cases (is_pairing_claim r.claims)) [
    | inr other ↦ rw (other, confirm_route) v
    | inl own ↦
        let p = key_of r.claims.pair_id in
        let (l, t) = get_open_pairing-same now p h in
        rw (own, confirm_route)
          (confirm_open-Sound now fresh o p r (get_open_pairing now p h).0
            (get_open_pairing now p h).1 n (pairing_claim r.claims own)
            (record { connection_at = rw l there.connection_at; object_at = rw l there.object_at })
            (get_open_pairing-Sound now p h v))
  ]

  pub handle_registered-Sound :
      (identity : Identity) (now fresh : ℕ) (command : BackendCommand) (h : Hub)
      → fresh ≢ 0
      → Sound h
      → Sound (handle_registered identity now fresh b command h)
  unfolding handle_registered open_a_pairing relay_backend_binding
  handle_registered-Sound identity now fresh (register_backend key sig) h n v = v
  handle_registered-Sound identity now fresh (open_pairing p x) h n v =
      elim (Bool-cases (leb x now || ltb (now + max_pairing_lifetime) x)) [
        | inl outside ↦ rw (outside, open_a_pairing) v
        | inr inside ↦
            rw (inside, open_a_pairing)
              (set_pairing-Sound p x (get_open_pairing now p h).0 (get_open_pairing now p h).1
                (get_open_pairing-Sound now p h v))
      ]
  handle_registered-Sound identity now fresh (confirm_pairing c) h n v =
      with_route-Sound c _ h v (λ o r there. confirm_route-Sound now fresh o r h n there v)
  handle_registered-Sound identity now fresh (relays c s) h n v =
      with_route-Sound c _ h v (λ o r there. relay_backend_signal-Sound s o r h there v)
  handle_registered-Sound identity now fresh (binds c x) h n v =
      with_route-Sound c _ h v (λ o r there. elim (Bool-cases (is_binding_valid identity b r x)) [
        | inl valid ↦ rw (valid, relay_backend_binding) v
        | inr invalid ↦
            rw (invalid, relay_backend_binding)
              (close_from_backend-Sound o r _
                (record { connection_at = there.connection_at; object_at = there.object_at }) v)
      ])
  handle_registered-Sound identity now fresh (closes c) h n v =
      with_route-Sound c _ h v (λ o r there. close_from_backend-Sound o r h there v)
