-- ===== src/Hub/Sound.antt =====
-- What holds of the routes of the hub, src/rendezvous/rendezvous-hub.ts, and that each change of them
-- keeps it.
use pipane.Base.{
  subst, ℕ, ◌≡◌, ◌≢◌, ◌<◌, ◌==◌, inl, inr, true, none, some, arith, is_some, truthy, Bool-cases,
}
use pipane.Base.Dict.{Dict, get, get-put, get-remove}
use pipane.Trust.Types.{Completion, connection, State}
use pipane.Trust.Devices.{get_backend_owner}
use pipane.Hub.Types.{Registered, Route, Links, Hub}
use pipane.Hub.Routes.{remove_route, add_route, write_route}

-- The two maps share their objects, an object stands under its own connection and browser, and a
-- backend under its own id.
pub record Shared (l : Links) : Type 0 where
  pub keyed : (id : ℕ) (b : Registered) → get id l.backends ≡ some b → b.backend_id ≡ id
  pub stored : (c o : ℕ) → get c l.routes ≡ some o → is_some (get o l.objects) ≡ true
  pub named :
      (c o : ℕ) (r : Route)
      → get c l.routes ≡ some o
      → get o l.objects ≡ some r
      → r.connection_id ≡ c
  pub by_browser :
      (c o : ℕ) (r : Route)
      → get c l.routes ≡ some o
      → get o l.objects ≡ some r
      → get r.browser l.browser_routes ≡ some o
  pub browser_stored :
      (s o : ℕ) → get s l.browser_routes ≡ some o → is_some (get o l.objects) ≡ true
  pub browser_named :
      (s o : ℕ) (r : Route)
      → get s l.browser_routes ≡ some o
      → get o l.objects ≡ some r
      → r.browser ≡ s
  pub by_connection :
      (s o : ℕ) (r : Route)
      → get s l.browser_routes ≡ some o
      → get o l.objects ≡ some r
      → get r.connection_id l.routes ≡ some o
  pub numbered : (o : ℕ) → is_some (get o l.objects) ≡ true → o < l.next_object

-- P holds of every route that is there.
abbrev pub Live : (Route → Type 0) → Links → Type 0
Live P l = (c o : ℕ) (r : Route) → get c l.routes ≡ some o → get o l.objects ≡ some r → P r

module _ (o : ℕ) (r : Route) (l : Links) where
  pub remove_route-Live : (P : Route → Type 0) → Live P l → Live P (remove_route o r l)
  unfolding remove_route
  remove_route-Live P h c p q e f = h c p q (grind (arith, get-remove)) f

  module _ (v : Shared l) (there : get o l.objects ≡ some r) where
    pub remove_route-Shared : Shared (remove_route o r l)
    unfolding remove_route
    remove_route-Shared = record {
      keyed = v.keyed;
      stored = λ c p e. v.stored c p (grind (arith, get-remove));
      named = λ c p q e f. v.named c p q (grind (arith, get-remove)) f;
      by_browser = λ c p q e f.
          let e₀ : get c l.routes ≡ some p = grind (arith, get-remove) in
          let shared = v.by_browser c p q e₀ f in
          let name = v.named c p q e₀ f in grind (arith, get-remove);
      browser_stored = λ s p e. v.browser_stored s p (grind (arith, get-remove));
      browser_named = λ s p q e f. v.browser_named s p q (grind (arith, get-remove)) f;
      by_connection = λ s p q e f.
          let e₀ : get s l.browser_routes ≡ some p = grind (arith, get-remove) in
          let shared = v.by_connection s p q e₀ f in
          let name = v.browser_named s p q e₀ f in grind (arith, get-remove);
      numbered = v.numbered;
    }

    pub write_route-Shared :
        (r' : Route)
        → r'.connection_id ≡ r.connection_id
        → r'.browser ≡ r.browser
        → Shared (write_route o r' l)
    unfolding write_route
    write_route-Shared r' same_connection same_browser = record {
      keyed = v.keyed;
      stored = λ c p e. grind (arith, get-put, v.stored c p);
      named = λ c p q e f. grind (arith, get-put, v.named c p q e, v.named c p r e);
      by_browser = λ c p q e f. grind (arith, get-put, v.by_browser c p q e, v.by_browser c p r e);
      browser_stored = λ s p e. grind (arith, get-put, v.browser_stored s p);
      browser_named =
          λ s p q e f. grind (arith, get-put, v.browser_named s p q e, v.browser_named s p r e);
      by_connection =
          λ s p q e f. grind (arith, get-put, v.by_connection s p q e, v.by_connection s p r e);
      numbered = λ p e. grind (arith, get-put, v.numbered);
    }

pub write_route-Live :
    (P : Route → Type 0) (o : ℕ) (r : Route) (l : Links)
    → P r
    → Live P l
    → Live P (write_route o r l)
unfolding write_route
write_route-Live P o r l here h c p q e f = elim (Bool-cases (o == p)) [
  | inl this ↦ let e' : r ≡ q = grind (arith, get-put) in subst P e' here
  | inr other ↦ h c p q e (grind (arith, get-put))
]

module _ (r : Route) (l : Links) (v : Shared l) where
  pub add_route-Live : (P : Route → Type 0) → P r → Live P l → Live P (add_route r l)
  unfolding add_route
  add_route-Live P here h c p q e f = elim (Bool-cases (r.connection_id == c)) [
    | inl this ↦ let e' : r ≡ q = grind (arith, get-put) in subst P e' here
    | inr other ↦
        let e₀ : get c l.routes ≡ some p = grind (arith, get-put) in
        h c p q e₀ (grind (arith, get-put, v.numbered p (v.stored c p e₀)))
  ]

  pub add_route-Shared :
      get r.connection_id l.routes ≡ none
      → get r.browser l.browser_routes ≡ none
      → Shared (add_route r l)
  unfolding add_route
  add_route-Shared free free_browser = record {
    keyed = v.keyed;
    stored = λ c p e. grind (arith, get-put, v.stored c p);
    named = λ c p q e f. elim (Bool-cases (r.connection_id == c)) [
      | inl this ↦ grind (arith, get-put)
      | inr other ↦
          let e₀ : get c l.routes ≡ some p = grind (arith, get-put) in
          let old = v.numbered p (v.stored c p e₀) in
          let f₀ : get p l.objects ≡ some q = grind (arith, get-put) in
          let kept = v.named c p q e₀ f₀ in grind (arith, get-put)
    ];
    by_browser = λ c p q e f. elim (Bool-cases (r.connection_id == c)) [
      | inl this ↦ grind (arith, get-put)
      | inr other ↦
          let e₀ : get c l.routes ≡ some p = grind (arith, get-put) in
          let old = v.numbered p (v.stored c p e₀) in
          let f₀ : get p l.objects ≡ some q = grind (arith, get-put) in
          let kept = v.by_browser c p q e₀ f₀ in grind (arith, get-put)
    ];
    browser_stored = λ s p e. grind (arith, get-put, v.browser_stored s p);
    browser_named = λ s p q e f. elim (Bool-cases (r.browser == s)) [
      | inl this ↦ grind (arith, get-put)
      | inr other ↦
          let e₀ : get s l.browser_routes ≡ some p = grind (arith, get-put) in
          let old = v.numbered p (v.browser_stored s p e₀) in
          let f₀ : get p l.objects ≡ some q = grind (arith, get-put) in
          let kept = v.browser_named s p q e₀ f₀ in grind (arith, get-put)
    ];
    by_connection = λ s p q e f. elim (Bool-cases (r.browser == s)) [
      | inl this ↦ grind (arith, get-put)
      | inr other ↦
          let e₀ : get s l.browser_routes ≡ some p = grind (arith, get-put) in
          let old = v.numbered p (v.browser_stored s p e₀) in
          let f₀ : get p l.objects ≡ some q = grind (arith, get-put) in
          let kept = v.by_connection s p q e₀ f₀ in grind (arith, get-put)
    ];
    numbered = λ p e. grind (arith, get-put, v.numbered);
  }

-- The backend of a route is registered.
abbrev pub Online : Dict Registered → Route → Type 0
Online backends r = is_some (get r.backend_id backends) ≡ true

-- A route that a connection ticket opened is for the account that owns its backend.
abbrev pub Owned : State → Route → Type 0
Owned state r =
    r.claims.kind ≡ connection
    → (truthy r.claims.account_id ≡ true)
      × (get_backend_owner state r.backend_id ≡ r.claims.account_id)

-- A route's claims name an account, or none: the name is not empty.
abbrev pub Named : Route → Type 0
Named r = r.claims.account_id ≢ some 0

-- So do the pairings that were completed.
abbrev pub Completed : State → Type 0
Completed state =
    (p : ℕ) (k : Completion) → get p state.pairing_completions ≡ some k → k.account_id ≢ 0

pub record Inv (l : Links) (state : State) : Type 0 where
  pub shared : Shared l
  pub online : Live (Online l.backends) l
  pub owned : Live (Owned state) l
  pub names : Live Named l
  pub completed : Completed state

abbrev pub Sound : Hub → Type 0
Sound h = Inv h.links h.trust.state
