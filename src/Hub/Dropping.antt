-- ===== src/Hub/Dropping.antt =====
-- The loops of src/rendezvous/rendezvous-hub.ts that remove routes.
use pipane.Base.{
  ◌==◌, ℕ, ◌≡◌, ◌≢◌, inl, inr, Bool, true, false, some, [], ◌∷◌, arith, refl, sym, subst,
  Option-cases, Bool-cases,
}
use pipane.Base.Dict.{Dict, get, get-remove}
use pipane.Trust.Devices.{RevocationResult}
use pipane.Hub.Types.{Registered, Route, connection_closed, Hub}
use pipane.Hub.Routes.{send, remove_route, drop_one, drop_routes, tell_revoked}
use pipane.Hub.Sound.{Shared, Live, remove_route-Live, remove_route-Shared}

module _ (test : Route → Bool) where
  -- A removal, or nothing: what holds of both holds of one round.
  drop_one_cases {ℓ} :
      (P : Hub → Type ℓ) (o : ℕ) (h : Hub)
      → P h
      → ((r : Route)
          → get o h.links.objects ≡ some r
          → test r ≡ true
          → P (
              send r.browser
                (connection_closed r.connection_id)
                (record h { links = remove_route o r h.links })))
      → P (drop_one o (get o h.links.objects) test h)
  drop_one_cases P o h kept removed = elim (Option-cases (get o h.links.objects)) [
    | inl nothing ↦ rw (nothing, drop_one) kept
    | inr (r, found) ↦ elim (Bool-cases (test r)) [
      | inl passes ↦ rw (found, drop_one) (rw passes (removed r found passes))
      | inr fails ↦ rw (found, drop_one) (rw fails kept)
    ]
  ]

  pub drop_routes_cases {ℓ} :
      (P : Hub → Type ℓ) (es : Dict ℕ) (h : Hub)
      → ((o : ℕ) (r : Route) (h : Hub)
          → get o h.links.objects ≡ some r
          → P h
          → P (
              send r.browser
                (connection_closed r.connection_id)
                (record h { links = remove_route o r h.links })))
      → P h
      → P (drop_routes test es h)
  unfolding drop_routes
  drop_routes_cases P [] h keep p = p
  drop_routes_cases P ((c, o) ∷ es) h keep p =
      drop_routes_cases P es _ keep (drop_one_cases P o h p (λ r found passes. keep o r h found p))

  pub drop_routes-trust : (es : Dict ℕ) (h : Hub) → (drop_routes test es h).trust ≡ h.trust
  unfolding remove_route
  drop_routes-trust es h =
      drop_routes_cases (λ h'. h'.trust ≡ h.trust) es h (λ o r h' found p. p) refl

  pub drop_routes-backends :
      (es : Dict ℕ) (h : Hub) → (drop_routes test es h).links.backends ≡ h.links.backends
  unfolding remove_route
  drop_routes-backends es h =
      drop_routes_cases (λ h'. h'.links.backends ≡ h.links.backends) es h (λ o r h' found p. p) refl

  pub drop_routes-Shared :
      (es : Dict ℕ) (h : Hub) → Shared h.links → Shared (drop_routes test es h).links
  drop_routes-Shared es h v =
      drop_routes_cases (λ h'. Shared h'.links) es h
        (λ o r h' found p. remove_route-Shared o r h'.links p found) v

  pub drop_routes-Live :
      (P : Route → Type 0) (es : Dict ℕ) (h : Hub)
      → Live P h.links
      → Live P (drop_routes test es h).links
  drop_routes-Live P es h v =
      drop_routes_cases (λ h'. Live P h'.links) es h
        (λ o r h' found p. remove_route-Live o r h'.links P p) v

  drop_routes-objects :
      (es : Dict ℕ) (h : Hub) → (drop_routes test es h).links.objects ≡ h.links.objects
  unfolding remove_route
  drop_routes-objects es h =
      drop_routes_cases (λ h'. h'.links.objects ≡ h.links.objects) es h (λ o r h' found p. p) refl

  drop_one-objects :
      (o : ℕ) (h : Hub)
      → (drop_one o (get o h.links.objects) test h).links.objects ≡ h.links.objects
  unfolding remove_route
  drop_one-objects o h =
      drop_one_cases (λ h'. h'.links.objects ≡ h.links.objects) o h refl (λ r found passes. refl)

  drop_one-Shared :
      (o : ℕ) (h : Hub) → Shared h.links → Shared (drop_one o (get o h.links.objects) test h).links
  drop_one-Shared o h v =
      drop_one_cases (λ h'. Shared h'.links) o h v
        (λ r found passes. remove_route-Shared o r h.links v found)

  -- A route that is there at the end of the loop was there before.
  drop_routes-routes :
      (c o : ℕ) (es : Dict ℕ) (h : Hub)
      → get c (drop_routes test es h).links.routes ≡ some o
      → get c h.links.routes ≡ some o
  unfolding remove_route
  drop_routes-routes c o es h =
      drop_routes_cases (λ h'. get c h'.links.routes ≡ some o → get c h.links.routes ≡ some o) es h
        (λ p r h' found keep e. keep (grind (arith, get-remove))) (λ e. e)

  drop_one-routes :
      (c o p : ℕ) (h : Hub)
      → get c (drop_one p (get p h.links.objects) test h).links.routes ≡ some o
      → get c h.links.routes ≡ some o
  unfolding remove_route
  drop_one-routes c o p h =
      drop_one_cases (λ h'. get c h'.links.routes ≡ some o → get c h.links.routes ≡ some o) p h
        (λ e. e) (λ r found passes e. grind (arith, get-remove))

  -- A route that passes is gone after its round.
  drop_one-gone :
      (c o : ℕ) (r : Route) (h : Hub)
      → Shared h.links
      → get o h.links.objects ≡ some r
      → test r ≡ true
      → get c (drop_one o (get o h.links.objects) test h).links.routes ≢ some o
  unfolding remove_route
  drop_one-gone c o r h v found passes e =
      let before : get c h.links.routes ≡ some o = drop_one-routes c o o h e in
      let name = v.named c o r before found in
      let e' = rw (found, drop_one) at e in let e'' = rw passes at e' in grind (arith, get-remove)

  drop_routes-gone :
      (es : Dict ℕ) (h : Hub) (c o : ℕ) (r : Route)
      → Shared h.links
      → get c es ≡ some o
      → get c (drop_routes test es h).links.routes ≡ some o
      → get o h.links.objects ≡ some r
      → test r ≡ false
  unfolding drop_routes get
  drop_routes-gone [] h c o r v listed e f = absurd (ground arith)
  drop_routes-gone ((d, p) ∷ es) h c o r v listed e f = elim (Bool-cases (d == c)) [
    | inl this ↦ elim (Bool-cases (test r)) [
      | inr fails ↦ fails
      | inl passes ↦
          let same_object : p ≡ o = ground arith in
          let still = drop_routes-routes c o es _ e in
          absurd (
            drop_one-gone c o r h v f passes (
              subst (λ x. get c (drop_one x (get x h.links.objects) test h).links.routes ≡ some o)
                same_object still))
    ]
    | inr other ↦
        drop_routes-gone es (drop_one p (get p h.links.objects) test h) c o r
          (drop_one-Shared p h v) (ground arith) e
          (subst (λ m. get o m ≡ some r) (sym (drop_one-objects p h)) f)
  ]

  -- The loop over all routes leaves none that passes.
  pub drop_all-Live :
      (h : Hub)
      → Shared h.links
      → Live (λ r. test r ≡ false) (drop_routes test h.links.routes h).links
  drop_all-Live h v c o r e f =
      drop_routes-gone h.links.routes h c o r v (drop_routes-routes c o h.links.routes h e) e
        (subst (λ m. get o m ≡ some r) (drop_routes-objects h.links.routes h) f)

pub tell_revoked-links :
    (result : RevocationResult) (bs : Dict Registered) (h : Hub)
    → (tell_revoked result bs h).links ≡ h.links
unfolding tell_revoked
tell_revoked-links result [] h = refl
tell_revoked-links result ((id, b) ∷ bs) h = tell_revoked-links result bs _

pub tell_revoked-trust :
    (result : RevocationResult) (bs : Dict Registered) (h : Hub)
    → (tell_revoked result bs h).trust ≡ h.trust
unfolding tell_revoked
tell_revoked-trust result [] h = refl
tell_revoked-trust result ((id, b) ∷ bs) h = tell_revoked-trust result bs _
