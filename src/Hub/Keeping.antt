-- ===== src/Hub/Keeping.antt =====
-- The parts of the handlers of src/rendezvous/rendezvous-hub.ts that change routes, backends and the
-- trust store keep the hub sound.
use pipane.Base.{ℕ, ◌≡◌, ◌==◌, Bool, false, none, some, arith, sym, subst}
use pipane.Base.Dict.{Dict, get, put, get-put, get-remove}
use pipane.Trust.Types.{State}
use pipane.Trust.Devices.{RevocationResult, get_backend_owner}
use pipane.Hub.Types.{Registered, Route, Links, Hub}
use pipane.Hub.Routes.{
  remove_route, add_route, write_route, drop_routes, tell_revoked, notify_revocation, is_revoked_by,
  remove_registered_backend,
}
use pipane.Hub.Sound.{
  Shared, Live, Online, Owned, Named, Completed, Inv, Sound, remove_route-Live, remove_route-Shared,
  write_route-Live, write_route-Shared, add_route-Live, add_route-Shared,
}
use pipane.Hub.Dropping.{
  drop_routes-Shared, drop_routes-Live, drop_routes-trust, drop_routes-backends, drop_all-Live,
  tell_revoked-links, tell_revoked-trust,
}

-- What a route that a loop keeps must satisfy.
pub record Spared (test : Route → Bool) (l : Links) (state : State) : Type 0 where
  pub shared : Shared l
  pub online : Live (λ r. test r ≡ false → Online l.backends r) l
  pub owned : Live (λ r. test r ≡ false → Owned state r) l
  pub names : Live Named l
  pub completed : Completed state

pub drop_routes-Sound :
    (test : Route → Bool) (h : Hub)
    → Spared test h.links h.trust.state
    → Sound (drop_routes test h.links.routes h)
drop_routes-Sound test h v =
    let gone = drop_all-Live test h v.shared in
    record {
      shared = drop_routes-Shared test h.links.routes h v.shared;
      online =
          subst (λ bs. Live (Online bs) (drop_routes test h.links.routes h).links)
            (sym (drop_routes-backends test h.links.routes h))
            (λ c o r e f.
              drop_routes-Live test (λ r. test r ≡ false → Online h.links.backends r) h.links.routes
                h v.online c o r e f (gone c o r e f));
      owned =
          subst (λ t. Live (Owned t.state) (drop_routes test h.links.routes h).links)
            (sym (drop_routes-trust test h.links.routes h))
            (λ c o r e f.
              drop_routes-Live test (λ r. test r ≡ false → Owned h.trust.state r) h.links.routes h
                v.owned c o r e f (gone c o r e f));
      names = drop_routes-Live test Named h.links.routes h v.names;
      completed =
          subst (λ t. Completed t.state) (sym (drop_routes-trust test h.links.routes h))
            v.completed;
    }

pub notify_revocation-Sound :
    (result : RevocationResult) (h : Hub)
    → Spared (is_revoked_by result) h.links h.trust.state
    → Sound (notify_revocation result h)
unfolding notify_revocation
notify_revocation-Sound result h v =
    drop_routes-Sound (is_revoked_by result) (tell_revoked result h.links.backends h) (
      subst
        (λ l. Spared (is_revoked_by result) l (tell_revoked result h.links.backends h).trust.state)
        (sym (tell_revoked-links result h.links.backends h))
        (subst (λ t. Spared (is_revoked_by result) h.links t.state)
          (sym (tell_revoked-trust result h.links.backends h)) v))

set_backends-Shared :
    (l : Links) (bs : Dict Registered)
    → Shared l
    → ((id : ℕ) (b : Registered) → get id bs ≡ some b → b.backend_id ≡ id)
    → Shared (record l { backends = bs })
set_backends-Shared l bs v k = record {
  keyed = k;
  stored = v.stored;
  named = v.named;
  by_browser = v.by_browser;
  browser_stored = v.browser_stored;
  browser_named = v.browser_named;
  by_connection = v.by_connection;
  numbered = v.numbered;
}

pub remove_registered_backend-Sound :
    (b : Registered) (h : Hub) → Sound h → Sound (remove_registered_backend b h)
unfolding remove_registered_backend
remove_registered_backend-Sound b h v =
    drop_routes-Sound (λ r. r.backend_id == b.backend_id) _
      (record {
        shared =
            set_backends-Shared h.links _ v.shared
              (λ id b' e. v.shared.keyed id b' (grind (arith, get-remove)));
        online = λ c o r e f other. let there = v.online c o r e f in grind (arith, get-remove);
        owned = λ c o r e f other. v.owned c o r e f;
        names = v.names;
        completed = v.completed;
      })

pub put_backend-Sound :
    (b : Registered) (h : Hub)
    → Sound h
    → Inv (record (h.links) { backends = put b.backend_id b h.links.backends }) h.trust.state
put_backend-Sound b h v = record {
  shared =
      set_backends-Shared h.links _ v.shared
        (λ id b' e. grind (arith, get-put, v.shared.keyed id b'));
  online = λ c o r e f. let there = v.online c o r e f in grind (arith, get-put);
  owned = v.owned;
  names = v.names;
  completed = v.completed;
}

-- A trust store with the same owners and completed pairings.
pub Inv-same :
    (l : Links) (state state' : State)
    → state'.backend_owners ≡ state.backend_owners
    → state'.pairing_completions ≡ state.pairing_completions
    → Inv l state
    → Inv l state'
unfolding get_backend_owner
Inv-same l state state' owners done v = record {
  shared = v.shared;
  online = v.online;
  owned = λ c o r e f k. let old = v.owned c o r e f k in (old.0, ground (arith, old.1, owners));
  names = v.names;
  completed = λ p k e. v.completed p k (ground (arith, done));
}

pub remove_route-Inv :
    (o : ℕ) (r : Route) (l : Links) (state : State)
    → get o l.objects ≡ some r
    → Inv l state
    → Inv (remove_route o r l) state
remove_route-Inv o r l state there v = record {
  shared = remove_route-Shared o r l v.shared there;
  online = unfold remove_route in remove_route-Live o r l (Online l.backends) v.online;
  owned = remove_route-Live o r l (Owned state) v.owned;
  names = remove_route-Live o r l Named v.names;
  completed = v.completed;
}

pub write_route-Inv :
    (o : ℕ) (r r' : Route) (l : Links) (state : State)
    → get o l.objects ≡ some r
    → r'.connection_id ≡ r.connection_id
    → r'.browser ≡ r.browser
    → Online l.backends r'
    → Owned state r'
    → Named r'
    → Inv l state
    → Inv (write_route o r' l) state
write_route-Inv o r r' l state there same_connection same_browser online owned names v = record {
  shared = write_route-Shared o r l v.shared there r' same_connection same_browser;
  online = unfold write_route in write_route-Live (Online l.backends) o r' l online v.online;
  owned = write_route-Live (Owned state) o r' l owned v.owned;
  names = write_route-Live Named o r' l names v.names;
  completed = v.completed;
}

pub add_route-Inv :
    (r : Route) (l : Links) (state : State)
    → get r.connection_id l.routes ≡ none
    → get r.browser l.browser_routes ≡ none
    → Online l.backends r
    → Owned state r
    → Named r
    → Inv l state
    → Inv (add_route r l) state
add_route-Inv r l state free free_browser online owned names v = record {
  shared = add_route-Shared r l v.shared free free_browser;
  online = unfold add_route in add_route-Live r l v.shared (Online l.backends) online v.online;
  owned = add_route-Live r l v.shared (Owned state) owned v.owned;
  names = add_route-Live r l v.shared Named names v.names;
  completed = v.completed;
}
