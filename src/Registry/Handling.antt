-- ===== src/Registry/Handling.antt =====
-- What src/server/session-registry.ts leaves when it handles the events of an actor.
use pipane.Base.{ap, ℕ, ◌≡◌, refl, some, List, [], ◌∷◌, arith, ◌∙◌}
use pipane.Base.Dict.{get, get-remove}
use pipane.Session.Phase.{
  ActorEvent, phase_change, attached, detached_from, steering_queue_update, Effect, emits, cleans,
  releases,
}
use pipane.Registry.State.{Registry, publish_attached, handle_actor_event, handle_effects}
use pipane.Registry.Index.{index_event, index_log}

module _ {Doc : Type 0} where
  -- What the handling of events leaves, but for the index.
  pub record Handled (r r' : Registry Doc) : Type 0 where
    pub objects : r'.objects ≡ r.objects
    pub next : r'.next_object ≡ r.next_object
    pub actors : (path o : ℕ) → get path r'.actors ≡ some o → get path r.actors ≡ some o

  event-Handled :
      (o path : ℕ) (e : ActorEvent) (r : Registry Doc) → Handled r (handle_actor_event o path e r)
  unfolding handle_actor_event publish_attached
  event-Handled o path (attached p) r = record {
    objects = ground arith;
    next = ground arith;
    actors = λ x q e. ground arith;
  }
  event-Handled o path (detached_from p) r = record {
    objects = ground arith;
    next = ground arith;
    actors = λ x q e. grind (arith, get-remove);
  }
  event-Handled o path (phase_change phase) r = record {
    objects = refl;
    next = refl;
    actors = λ x q e. e;
  }
  event-Handled o path (steering_queue_update queue) r = record {
    objects = refl;
    next = refl;
    actors = λ x q e. e;
  }

  event-index :
      (o path : ℕ) (e : ActorEvent) (r : Registry Doc)
      → (handle_actor_event o path e r).actors_by_process ≡ index_event o e r.actors_by_process
  unfolding handle_actor_event publish_attached
  event-index o path (attached p) r = ground arith
  event-index o path (detached_from p) r = ground arith
  event-index o path (phase_change phase) r = refl
  event-index o path (steering_queue_update queue) r = refl

  Handled-trans : {r s t : Registry Doc} → Handled r s → Handled s t → Handled r t
  Handled-trans a b = record {
    objects = b.objects ∙ a.objects;
    next = b.next ∙ a.next;
    actors = λ path o e. a.actors path o (b.actors path o e);
  }

  pub effects-Handled :
      (o path : ℕ) (log : List Effect) (r : Registry Doc) → Handled r (handle_effects o path log r)
  unfolding handle_effects
  effects-Handled o path [] r = record { objects = refl; next = refl; actors = λ x q e. e }
  effects-Handled o path (emits e ∷ log) r =
      Handled-trans (effects-Handled o path log r)
        (event-Handled o path e (handle_effects o path log r))
  effects-Handled o path (cleans c ∷ log) r = effects-Handled o path log r
  effects-Handled o path (releases l ∷ log) r = effects-Handled o path log r

  pub effects-index :
      (o path : ℕ) (log : List Effect) (r : Registry Doc)
      → (handle_effects o path log r).actors_by_process ≡ index_log o log r.actors_by_process
  unfolding handle_effects index_log
  effects-index o path [] r = refl
  effects-index o path (emits e ∷ log) r =
      event-index o path e (handle_effects o path log r)
      ∙ ap (index_event o e) (effects-index o path log r)
  effects-index o path (cleans c ∷ log) r = effects-index o path log r
  effects-index o path (releases l ∷ log) r = effects-index o path log r
