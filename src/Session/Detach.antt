-- ===== src/Session/Detach.antt =====
-- detach of src/server/session-actor.ts.
use pipane.Base.{List, ℕ, Option, none, some, [], ◌∷◌}
use pipane.Base.Exec.{Exec, ◌>>◌, pure, modify}
use pipane.Session.Phase.{
  emits, Effect, detached, releasing, Lease, detached_from, steering_queue_update, releases,
}
use pipane.Session.Actor.{Actor, Error, emit, transition, run_cleanup}

-- What `detach` returns: the process and the document.
abbrev pub Detached : Type 0 → Type 0
Detached Doc = Option (ℕ × Doc)

abbrev publish_drop : List ℕ → List Effect → List Effect
publish_drop [] log = log
publish_drop (x ∷ xs) log = emits (steering_queue_update []) ∷ log

module _ {Doc : Type 0} where
  -- A queue that is not empty is emptied, and the new one is published.
  abbrev drop_queue : Actor Doc → Actor Doc
  drop_queue a = record a { steering_queue = []; log = publish_drop a.steering_queue a.log }

  abbrev give_up_cleanup : Actor Doc → Actor Doc
  give_up_cleanup a = record a {
    turn_event_cleanup = none;
    log = run_cleanup a.turn_event_cleanup a.log;
  }

  abbrev give_up_lease : Lease → Actor Doc → Actor Doc
  give_up_lease lease a = record a { lease = none; session = none; log = releases lease ∷ a.log }

  detach_owned : Lease → Doc → Exec Error (Actor Doc) (Detached Doc)
  unfolding transition
  detach_owned lease doc = do
    transition releasing
    modify give_up_cleanup
    modify drop_queue
    modify (give_up_lease lease)
    transition detached
    modify (emit (detached_from lease.process))
    pure (some (lease.process, doc))

  detach_from : Option Lease → Option Doc → Exec Error (Actor Doc) (Detached Doc)
  unfolding detach_owned
  detach_from (some lease) (some doc) = detach_owned lease doc
  detach_from _ _ = pure none

  -- detach
  unfoldable pub detach : Exec Error (Actor Doc) (Detached Doc)
  unfolding detach_from
  detach a = detach_from a.lease a.session a
