-- ===== src/Session/Ownership.antt =====
-- The invariant of a session's owner, which every method keeps on every path, errors included.
use pipane.Base.{
  ℕ, ◌≡◌, refl, false, not, Option, none, some, List, [], ◌∷◌, arith, ok, if◌then◌else◌, ◌==◌,
  is_some,
}
use pipane.Session.Phase.{
  Phase, detached, attaching, releasing, same_phase, legal, Lease, phase_change, attached, Effect,
  emits, releases,
}
use pipane.Session.Actor.{
  Document, Actor, ProcessEvent, agent_start, agent_end, agent_settled, user_message_end, new_actor,
  transition, attach, begin_turn, set_turn_event_cleanup, enqueue_steering,
  remove_steering_by_index, dequeue_steering, clear_steering, sync_steering_queue, mark_failed,
}
use pipane.Session.Events.{update_document, deliver, settle, apply_process_event, advance}
use pipane.Session.Detach.{detach}

-- The phase that a log of published changes leads to, if each is a legal transition.
abbrev after_change : Phase → Option Phase → Option Phase
after_change next none = none
after_change next (some phase) = if legal phase next then some next else none

unfoldable pub replay : List Effect → Option Phase
replay [] = some detached
replay (emits (phase_change next) ∷ log) = after_change next (replay log)
replay (_ ∷ log) = replay log

-- The process that is attached after a log, if it attaches only what is free and releases and
-- leaves only what is attached.
abbrev after_attach : ℕ → Option (Option ℕ) → Option (Option ℕ)
after_attach p (some none) = some (some p)
after_attach p _ = none

abbrev after_release : Lease → Option (Option ℕ) → Option (Option ℕ)
after_release l (some (some p)) = if l.process == p then some none else none
after_release l _ = none

unfoldable pub holding : List Effect → Option (Option ℕ)
holding [] = some none
holding (emits (attached p) ∷ log) = after_attach p (holding log)
holding (releases l ∷ log) = after_release l (holding log)
holding (_ ∷ log) = holding log

abbrev pub process_of : Option Lease → Option ℕ
process_of none = none
process_of (some l) = some l.process

module _ {Doc : Type 0} where
  pub record Inv (a : Actor Doc) : Type 0 where
    pub published : replay a.log ≡ some a.phase
    pub leased : holding a.log ≡ some (process_of a.lease)
    pub owned : is_some a.lease ≡ not (same_phase a.phase detached)
    pub together : is_some a.session ≡ is_some a.lease
    pub attached_fully : same_phase a.phase attaching ≡ false
    pub released_fully : same_phase a.phase releasing ≡ false

  pub new_actor-Inv : Inv (new_actor {Doc = Doc})
  unfolding new_actor replay holding
  new_actor-Inv = ground arith

  pub attach-Inv : (l : Lease) (doc : Doc) (a : Actor Doc) → Inv a → Inv (attach l doc a).1
  unfolding attach replay holding
  attach-Inv l doc a v = ground arith

  pub begin_turn-Inv : (a : Actor Doc) → Inv a → Inv (begin_turn a).1
  unfolding begin_turn replay holding
  begin_turn-Inv a v = ground arith

  pub set_turn_event_cleanup-Inv :
      (generation cleanup : ℕ) (a : Actor Doc)
      → Inv a
      → Inv (set_turn_event_cleanup generation cleanup a).1
  unfolding set_turn_event_cleanup replay holding
  set_turn_event_cleanup-Inv generation cleanup a v = ground arith

  pub mark_failed-Inv : (a : Actor Doc) → Inv a → Inv (mark_failed a).1
  unfolding mark_failed replay holding
  mark_failed-Inv a v = ground arith

  pub detach-Inv : (a : Actor Doc) → Inv a → Inv (detach a).1
  unfolding detach replay holding
  detach-Inv a v = ground arith

module _ {Doc : Type 0} (api : Document Doc) where
  pub sync_steering_queue-Inv :
      (queue : List ℕ) (a : Actor Doc) → Inv a → Inv (sync_steering_queue api queue a)
  unfolding sync_steering_queue replay holding
  sync_steering_queue-Inv queue a v = ground arith

  pub enqueue_steering-Inv : (t : ℕ) (a : Actor Doc) → Inv a → Inv (enqueue_steering api t a)
  unfolding enqueue_steering
  enqueue_steering-Inv t a v = sync_steering_queue-Inv _ a v

  pub remove_steering_by_index-Inv :
      (i : ℕ) (a : Actor Doc) → Inv a → Inv (remove_steering_by_index api i a).1
  unfolding remove_steering_by_index
  remove_steering_by_index-Inv i a v = grind (arith, sync_steering_queue-Inv)

  pub dequeue_steering-Inv : (t : ℕ) (a : Actor Doc) → Inv a → Inv (dequeue_steering api t a).1
  unfolding dequeue_steering
  dequeue_steering-Inv t a v = grind (arith, sync_steering_queue-Inv)

  pub clear_steering-Inv : (a : Actor Doc) → Inv a → Inv (clear_steering api a)
  unfolding clear_steering
  clear_steering-Inv a v = grind (arith, sync_steering_queue-Inv)

  pub settle-Inv : (a : Actor Doc) → Inv a → Inv (settle a).1
  unfolding transition replay holding
  settle-Inv a v = ground arith

  settle_ok : (a : Actor Doc) → Inv a → (settle a).0 ≡ ok tt
  unfolding transition
  settle_ok a v = ground arith

  pub advance-Inv : (e : ProcessEvent) (a : Actor Doc) → Inv a → Inv (advance api e a).1
  unfolding advance replay holding
  advance-Inv agent_start a v = ground arith
  advance-Inv agent_end a v =
      ground (arith, settle_ok a v, clear_steering-Inv (settle a).1 (settle-Inv a v))
  advance-Inv agent_settled a v = ground arith
  advance-Inv _ a v = v

  pub advance_ok : (e : ProcessEvent) (a : Actor Doc) → Inv a → (advance api e a).0 ≡ ok tt
  unfolding advance
  advance_ok agent_start a v = ground arith
  advance_ok agent_end a v = ground (arith, settle_ok a v)
  advance_ok agent_settled a v = settle_ok a v
  advance_ok _ a v = refl

  pub with_document-Inv :
      (e : ProcessEvent) (messages : Option ℕ) (a : Actor Doc)
      → Inv a
      → Inv (record a { session = update_document api e messages a.session })
  with_document-Inv e messages a v = ground arith

  pub deliver-Inv : (e : ProcessEvent) (a : Actor Doc) → Inv a → Inv (deliver api e a)
  deliver-Inv (user_message_end content) a v = dequeue_steering-Inv _ a v
  deliver-Inv _ a v = v

  pub apply_process_event-Inv :
      (proc generation : ℕ) (e : ProcessEvent) (messages : Option ℕ) (a : Actor Doc)
      → Inv a
      → Inv (apply_process_event api proc generation e messages a).1
  unfolding apply_process_event
  apply_process_event-Inv proc generation e messages a v = ground (
    arith,
    advance_ok e a v,
    deliver-Inv e _ (with_document-Inv e messages (advance api e a).1 (advance-Inv e a v)),
  )
