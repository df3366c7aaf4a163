-- ===== src/Hub/Revocation.antt =====
-- What the hub, src/rendezvous/rendezvous-hub.ts, keeps over all events, revocations among them.
use pipane.Base.{
  arith, ℕ, ◌≡◌, ◌≢◌, ◌==◌, inl, inr, Bool, false, Option, none, some, List, [], ◌∷◌, arith, refl,
  sym, subst, Result, ok, err, Option-cases, Bool-cases,
}
use pipane.Base.Dict.{get, remove, get-remove}
use pipane.Trust.Types.{Error, State, Store, Crypto}
use pipane.Trust.Tickets.{key_of}
use pipane.Trust.Devices.{RevocationResult, get_backend_owner, revoke_a_device, revoke_a_backend}
use pipane.Hub.Types.{Handshake, Route, Hub, Identity}
use pipane.Hub.Routes.{close_hub, is_revoked_by}
use pipane.Hub.Backends.{accept_backend, registration_times_out}
use pipane.Hub.History.{
  HubEvent, hub_closes, garbles, backend_opens, backend_sends, backend_closes, browser_closes,
  timer_fires, browser_opens, browser_sends, reads_pairing, requests, revokes_a_device,
  revokes_a_backend, revoke_and_notify, fire_timer, hub_step, hub_run,
}
use pipane.Hub.Sound.{Owned, Inv, Sound}
use pipane.Hub.Keeping.{Spared, notify_revocation-Sound}
use pipane.Hub.TrustSteps.{
  SameOwners, revoke_a_device-SameOwners, revoke_a_backend-owners, revoke_a_backend-completions,
  revoke_a_backend-failed,
}
use pipane.Hub.BackendSteps.{get_open_pairing-Sound}
use pipane.Hub.Requests.{kept_by, request-Sound}
use pipane.Hub.RegisterSteps.{handle_backend_message-Sound, remove_backend_socket-Sound}
use pipane.Hub.Leaving.{remove_browser-Sound}
use pipane.Hub.BrowserSteps.{SoundTickets, handle_browser_message-Sound}

-- A fresh account id is not empty.
abbrev pub SoundEvent : ℕ × HubEvent → Type 0
SoundEvent (now, backend_sends socket fresh command) = fresh ≢ 0
SoundEvent (now, _) = Unit

abbrev pub SoundEvents : List (ℕ × HubEvent) → Type 0
SoundEvents [] = Unit
SoundEvents (e ∷ es) = SoundEvent e × SoundEvents es

fire_timer-Sound :
    (socket : ℕ) (found : Option Handshake) (h : Hub) → Sound h → Sound (fire_timer socket found h)
unfolding fire_timer registration_times_out
fire_timer-Sound socket none h v = v
fire_timer-Sound socket (some hs) h v = elim (Option-cases hs.registered) [
  | inl nobody ↦ rw (nobody, fire_timer) v
  | inr (b, known) ↦ rw (known, fire_timer) v
]

module _ (h : Hub) (v : Sound h) where
  spared :
      (test : Route → Bool) (state : State)
      → SameOwners h.trust.state state
      → Spared test h.links state
  spared test state o =
      let kept = kept_by h v state o in
      record {
        shared = kept.shared;
        online = λ c p r e f t. kept.online c p r e f;
        owned = λ c p r e f t. kept.owned c p r e f;
        names = kept.names;
        completed = kept.completed;
      }

  revoke_device-Sound :
      (answer : Result Error RevocationResult × Store)
      → SameOwners h.trust.state answer.1.state
      → Sound (revoke_and_notify answer h)
  unfolding revoke_and_notify
  revoke_device-Sound (err e, trust) o = kept_by h v trust.state o
  revoke_device-Sound (ok r, trust) o =
      notify_revocation-Sound r (record h { trust = trust })
        (spared (is_revoked_by r) trust.state o)

  -- A connection route that a backend's revocation spares is to another backend.
  spared_owner :
      (r : RevocationResult) (q : Route) (trust : Store)
      → trust.state.backend_owners ≡ remove (key_of r.backend_id) h.trust.state.backend_owners
      → get (key_of r.backend_id) h.trust.state.backend_owners ≡ some r.account_id
      → r.device_id ≡ none
      → Owned h.trust.state q
      → is_revoked_by r q ≡ false
      → Owned trust.state q
  unfolding get_backend_owner
  spared_owner r q trust owners owner device old test k =
      let (named, mine) = old k in
      (
        named,
        elim (Bool-cases (key_of r.backend_id == q.backend_id)) [
          | inl this ↦ elim (Option-cases r.backend_id) [
            | inl none_given ↦ absurd (ground arith)
            | inr (b, given) ↦ absurd (ground arith)
          ]
          | inr other ↦ rw owners (grind (arith, get-remove))
        ],
      )

  revoke_backend-Sound :
      (answer : Result Error RevocationResult × Store)
      → ((r : RevocationResult)
          → answer.0 ≡ ok r
          → (answer.1.state.backend_owners
              ≡ remove (key_of r.backend_id) h.trust.state.backend_owners)
            × (get (key_of r.backend_id) h.trust.state.backend_owners ≡ some r.account_id)
            × (r.device_id ≡ none))
      → answer.1.state.pairing_completions ≡ h.trust.state.pairing_completions
      → ((x : Error) → answer.0 ≡ err x → answer.1.state ≡ h.trust.state)
      → Sound (revoke_and_notify answer h)
  unfolding revoke_and_notify
  revoke_backend-Sound (err e, trust) o completions failed =
      let same_state = failed e refl in subst (Inv h.links) (sym same_state) v
  revoke_backend-Sound (ok r, trust) o completions failed =
      let (owners, owner, device) = o r refl in
      notify_revocation-Sound r (record h { trust = trust })
        (record {
          shared = v.shared;
          online = λ c p q e f t. v.online c p q e f;
          owned = λ c p q e f t. spared_owner r q trust owners owner device (v.owned c p q e f) t;
          names = v.names;
          completed = λ p k e. v.completed p k (ground (arith, completions));
        })

close_hub-Sound : (h : Hub) → Sound h → Sound (close_hub h)
unfolding close_hub get
close_hub-Sound h v = record {
  shared = record {
    keyed = λ id b e. ground arith;
    stored = λ c o e. ground arith;
    named = λ c o r e f. ground arith;
    by_browser = λ c o r e f. ground arith;
    browser_stored = λ c o e. ground arith;
    browser_named = λ c o r e f. ground arith;
    by_connection = λ c o r e f. ground arith;
    numbered = λ o e. ground arith;
  };
  online = λ c o r e f. ground arith;
  owned = λ c o r e f. ground arith;
  names = λ c o r e f. ground arith;
  completed = v.completed;
}

module _ (crypto : Crypto) (identity : Identity) (tickets : SoundTickets crypto) where
  hub_step-Sound :
      (e : ℕ × HubEvent) (h : Hub) → SoundEvent e → Sound h → Sound (hub_step crypto identity e h)
  unfolding hub_step accept_backend
  hub_step-Sound (now, backend_opens socket nonce) h n v = v
  hub_step-Sound (now, browser_opens socket) h n v = v
  hub_step-Sound (now, backend_sends socket fresh command) h n v =
      handle_backend_message-Sound identity now fresh socket command h n v
  hub_step-Sound (now, backend_closes socket) h n v = remove_backend_socket-Sound socket _ v
  hub_step-Sound (now, browser_closes socket) h n v = remove_browser-Sound socket _ v
  hub_step-Sound (now, timer_fires socket) h n v =
      fire_timer-Sound socket (get socket h.handshakes) h v
  hub_step-Sound (now, browser_sends socket command) h n v =
      handle_browser_message-Sound crypto tickets now socket command h v
  hub_step-Sound (now, reads_pairing pair_id) h n v = get_open_pairing-Sound now pair_id h v
  hub_step-Sound (now, requests path_id call) h n v = request-Sound crypto now path_id call h v
  hub_step-Sound (now, hub_closes) h n v = close_hub-Sound h v
  hub_step-Sound (now, garbles socket code) h n v = v
  hub_step-Sound (now, revokes_a_device c sig) h n v =
      revoke_device-Sound h v (revoke_a_device crypto now c sig h.trust)
        (revoke_a_device-SameOwners crypto now h.trust c sig)
  hub_step-Sound (now, revokes_a_backend c sig) h n v =
      revoke_backend-Sound h v (revoke_a_backend crypto now c sig h.trust)
        (revoke_a_backend-owners crypto now h.trust c sig)
        (revoke_a_backend-completions crypto now h.trust c sig)
        (revoke_a_backend-failed crypto now h.trust c sig)

  -- When the tickets that open and the fresh account ids name no empty account, any events keep a
  -- sound hub sound: the two maps agree on the routes, each under its own connection and browser;
  -- the backend of each route is registered; and the backend of a route that a connection ticket
  -- opened is owned by the account that the route is for.
  pub hub_run-Sound :
      (es : List (ℕ × HubEvent)) (h : Hub)
      → SoundEvents es
      → Sound h
      → Sound (hub_run crypto identity es h)
  unfolding hub_run
  hub_run-Sound [] h n v = v
  hub_run-Sound (e ∷ es) h (n, ns) v =
      hub_run-Sound es (hub_step crypto identity e h) ns (hub_step-Sound e h n v)
