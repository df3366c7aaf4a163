-- ===== src/Hub/Leaving.antt =====
-- What it leaves when a browser gives up its route, src/rendezvous/rendezvous-hub.ts (removeBrowser).
use pipane.Base.{ℕ, ◌≡◌, inl, inr, Option, none, some, arith, refl, Option-cases, subst, sym}
use pipane.Base.Dict.{get, get-remove}
use pipane.Hub.Types.{Route, Hub}
use pipane.Hub.Routes.{route_of, remove_route}
use pipane.Hub.Browsers.{leave_and_tell, remove_browser}
use pipane.Hub.Sound.{Inv, Sound}
use pipane.Hub.Keeping.{remove_route-Inv}
use pipane.Hub.BackendSteps.{Found}

-- The route of a browser, if it has one, is there.
browser-Found :
    (h : Hub) (s o : ℕ)
    → Sound h
    → get s h.links.browser_routes ≡ some o
    → (r : Route) → get o h.links.objects ≡ some r
    → Found h o r
browser-Found h s o v e r f = record {
  connection_at = v.shared.by_connection s o r e f;
  object_at = f;
}

-- A way to use the route of a browser: without one, or with one that is there.
pub route_cases :
    (P : Option (ℕ × Route) → Type 0) (h : Hub) (s : ℕ) (found : Option ℕ)
    → get s h.links.browser_routes ≡ found
    → Sound h
    → P none
    → ((o : ℕ) (r : Route) → r.browser ≡ s → Found h o r → P (some (o, r)))
    → P (route_of h.links found)
unfolding route_of
route_cases P h s none e v missing there = missing
route_cases P h s (some o) e v missing there = elim (Option-cases (get o h.links.objects)) [
  | inl lost ↦ rw (lost, route_of) missing
  | inr (r, f) ↦
      rw (f, route_of) (there o r (v.shared.browser_named s o r e f) (browser-Found h s o v e r f))
]

leave_and_tell-links :
    (o : ℕ) (r : Route) (h : Hub)
    → ((leave_and_tell (some (o, r)) h).links ≡ remove_route o r h.links)
      × ((leave_and_tell (some (o, r)) h).trust ≡ h.trust)
unfolding leave_and_tell
leave_and_tell-links o r h = elim (Option-cases (get r.backend_id h.links.backends)) [
  | inl nobody ↦ rw nobody (refl, refl)
  | inr (b, there) ↦ rw there (refl, refl)
]

-- Behind removeBrowser the hub is sound, the browser has no route, and no route or backend is new.
pub record Left (socket : ℕ) (h h' : Hub) : Type 0 where
  pub sound : Sound h'
  pub routeless : get socket h'.links.browser_routes ≡ none
  pub fewer : (c : ℕ) → get c h.links.routes ≡ none → get c h'.links.routes ≡ none
  pub same_backends : h'.links.backends ≡ h.links.backends
  pub same_trust : h'.trust ≡ h.trust

route-Left :
    (socket o : ℕ) (r : Route) (h h' : Hub)
    → Sound h
    → get socket h.links.browser_routes ≡ some o
    → get o h.links.objects ≡ some r
    → h'.links ≡ remove_route o r h.links
    → h'.trust ≡ h.trust
    → Left socket h h'
unfolding remove_route
route-Left socket o r h h' v e f l t =
    let name = v.shared.browser_named socket o r e f in
    record {
      sound =
          subst (λ x. Inv x h'.trust.state) (sym l)
            (subst (λ x. Inv (remove_route o r h.links) x.state) (sym t)
              (remove_route-Inv o r h.links h.trust.state f v));
      routeless = rw l (grind (arith, get-remove));
      fewer = λ c free. rw l (grind (arith, get-remove));
      same_backends = rw l;
      same_trust = t;
    }

nobody-Left :
    (socket : ℕ) (h : Hub)
    → Sound h
    → get socket h.links.browser_routes ≡ none
    → Left socket h (leave_and_tell none h)
unfolding leave_and_tell
nobody-Left socket h v nothing = record {
  sound = v;
  routeless = nothing;
  fewer = λ c free. free;
  same_backends = refl;
  same_trust = refl;
}

pub remove_browser-Left : (socket : ℕ) (h : Hub) → Sound h → Left socket h (remove_browser socket h)
unfolding remove_browser route_of
remove_browser-Left socket h v = elim (Option-cases (get socket h.links.browser_routes)) [
  | inl nothing ↦ rw (nothing, remove_browser) (nobody-Left socket h v nothing)
  | inr (o, e) ↦ elim (Option-cases (get o h.links.objects)) [
    | inl lost ↦ let there = v.shared.browser_stored socket o e in absurd (ground arith)
    | inr (r, f) ↦
        let (l, t) = leave_and_tell-links o r h in
        rw (e, remove_browser) (rw (f, route_of) (route-Left socket o r h _ v e f l t))
  ]
]

pub remove_browser-Sound : (socket : ℕ) (h : Hub) → Sound h → Sound (remove_browser socket h)
remove_browser-Sound socket h v = (remove_browser-Left socket h v).sound
