-- ===== src/Session/Mailbox.antt =====
-- The mailbox of SessionActor, src/server/session-actor.ts (enqueue): commands run one after the
-- other, and one that throws does not stop those behind it.
use pipane.Base.{ℕ, Option, List, [], ◌∷◌, Result}
use pipane.Base.Exec.{Exec, ◌>>=◌, pure, modify}
use pipane.Session.Phase.{Lease}
use pipane.Session.Actor.{
  Error, Document, Actor, ProcessEvent, assert_available, attach, begin_turn,
  set_turn_event_cleanup, enqueue_steering, remove_steering_by_index, dequeue_steering,
  clear_steering, mark_failed,
}
use pipane.Session.Events.{apply_process_event}
use pipane.Session.Detach.{detach}

-- A command for the mailbox: a method with its arguments.
pub data Command (Doc : Type 0) : Type 0 where
  checks begins fails detaches clears : Command Doc
  attaches : Lease → Doc → Command Doc
  sets_cleanup : (generation cleanup : ℕ) → Command Doc
  applies : (proc generation : ℕ) → ProcessEvent → Option ℕ → Command Doc
  steers unsteers unsteers_at : ℕ → Command Doc

module _ {Doc : Type 0} (api : Document Doc) where
  -- The command, without its value.
  unfoldable pub perform : Command Doc → Exec Error (Actor Doc) (Unit {0})
  perform checks = assert_available
  perform begins = begin_turn >>= λ _. pure tt
  perform fails = mark_failed
  perform detaches = detach >>= λ _. pure tt
  perform clears = modify (clear_steering api)
  perform (attaches lease doc) = attach lease doc
  perform (sets_cleanup generation cleanup) = set_turn_event_cleanup generation cleanup
  perform (applies proc generation e messages) =
      apply_process_event api proc generation e messages >>= λ _. pure tt
  perform (steers t) = modify (enqueue_steering api t)
  perform (unsteers t) = modify (λ a. (dequeue_steering api t a).1)
  perform (unsteers_at i) = modify (λ a. (remove_steering_by_index api i a).1)

  -- enqueue, for the commands in the order of their arrival: the results, and the actor at the end.
  unfoldable pub run_mailbox :
      List (Command Doc) → Actor Doc → List (Result Error (Unit {0})) × Actor Doc
  run_mailbox [] a = ([], a)
  run_mailbox (c ∷ cs) a =
      let (r, a') = perform c a in let (rs, last) = run_mailbox cs a' in (r ∷ rs, last)
