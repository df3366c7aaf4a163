-- ===== src/Session/Actor.antt =====
-- The methods of SessionActor, src/server/session-actor.ts. The session's document and the text of
-- a message are a parameter; `log` lists the effects, the newest first.
use pipane.Base.{
  ◌++◌, ℕ, suc, zero, ◌+◌, Bool, true, false, not, ◌&&◌, ◌||◌, Option, none, some, List, [], ◌∷◌,
  ok, err, if◌then◌else◌, ◌==◌, ◌!=◌, leb, is_some, length,
}
use pipane.Base.Exec.{Exec, ◌>>◌, modify}
use pipane.Session.Phase.{
  Phase, detached, attaching, ready, starting, releasing, failed, same_phase, legal, turn_phase,
  Lease, ActorEvent, phase_change, attached, steering_queue_update, Effect, emits, cleans,
}

pub data Error : Type 0 where
  illegal_transition : Phase → Phase → Error
  turn_is_active not_available already_owned cannot_start : Phase → Error

-- The `content` of a message: a text, or parts of which some are texts.
pub data Part : Type 0 where
  text_part : ℕ → Part
  other_part : Part

pub data Content : Type 0 where
  whole : ℕ → Content
  parts : List Part → Content

-- The types of process events that the actor tells apart.
pub data ProcessEvent : Type 0 where
  agent_start agent_end agent_settled : ProcessEvent
  user_message_end : Content → ProcessEvent
  other_event : ℕ → ProcessEvent

-- SessionJsonl as the actor uses it, and `Array.prototype.join(" ")`.
pub record Document (Doc : Type 0) : Type 0 where
  pub apply_event : Doc → ProcessEvent → Doc
  pub changes : Doc → ProcessEvent → Bool
  pub replace_messages : Doc → ℕ → Doc
  pub set_steering : Doc → List ℕ → Doc
  pub join : List ℕ → ℕ

pub record Applied : Type 0 where
  pub accepted : Bool
  pub changed : Bool
  pub started : Bool
  pub ended : Bool
  pub settled : Bool

pub record Actor (Doc : Type 0) : Type 0 where
  pub phase : Phase
  pub lease : Option Lease
  pub session : Option Doc
  pub turn_generation : ℕ
  pub steering_queue : List ℕ
  pub turn_event_cleanup : Option ℕ
  pub log : List Effect

-- The process of the lease is `proc`.
abbrev pub has_process : Option Lease → ℕ → Bool
has_process none proc = false
has_process (some l) proc = l.process == proc

-- `[...queue, message]`
unfoldable pub append_one : List ℕ → ℕ → List ℕ
append_one queue message = queue ++ message ∷ []

-- `queue.filter((_, i) => i !== index)`
unfoldable pub remove_at : ℕ → List ℕ → List ℕ
remove_at i [] = []
remove_at zero (x ∷ xs) = xs
remove_at (suc i) (x ∷ xs) = x ∷ remove_at i xs

abbrev pub shifted : Option ℕ → Option ℕ
shifted none = none
shifted (some i) = some (i + 1)

-- `queue.indexOf(text)`
unfoldable pub index_of : ℕ → List ℕ → Option ℕ
index_of t [] = none
index_of t (x ∷ xs) = let rest = index_of t xs in if x == t then some 0 else shifted rest

abbrev pub is_empty : List ℕ → Bool
is_empty [] = true
is_empty (x ∷ xs) = false

-- `this._turnEventCleanup?.()`
abbrev pub run_cleanup : Option ℕ → List Effect → List Effect
run_cleanup none log = log
run_cleanup (some c) log = cleans c ∷ log

module _ {Doc : Type 0} where
  -- The constructor.
  unfoldable pub new_actor : Actor Doc
  new_actor = record {
    phase = detached;
    lease = none;
    session = none;
    turn_generation = 0;
    steering_queue = [];
    turn_event_cleanup = none;
    log = [];
  }

  abbrev pub emit : ActorEvent → Actor Doc → Actor Doc
  emit e a = record a { log = emits e ∷ a.log }

  -- assertAvailable
  unfoldable pub assert_available : Exec Error (Actor Doc) (Unit {0})
  assert_available a =
      if turn_phase a.phase
      then (err (turn_is_active a.phase), a)
      else if not (same_phase a.phase detached) && not (same_phase a.phase ready)
      then (err (not_available a.phase), a)
      else (ok tt, a)

  -- transition
  unfoldable pub transition : Phase → Exec Error (Actor Doc) (Unit {0})
  transition next a =
      if same_phase next a.phase
      then (ok tt, a)
      else if legal a.phase next
      then (ok tt, emit (phase_change next) (record a { phase = next }))
      else (err (illegal_transition a.phase next), a)

  attach_now : Lease → Doc → Exec Error (Actor Doc) (Unit {0})
  unfolding transition
  attach_now lease session = do
    transition attaching
    modify (λ a. record a { lease = some lease; session = some session })
    transition ready
    modify (emit (attached lease.process))

  -- attach
  unfoldable pub attach : Lease → Doc → Exec Error (Actor Doc) (Unit {0})
  unfolding attach_now
  attach lease session a =
      if not (same_phase a.phase detached) || is_some a.lease
      then (err (already_owned a.phase), a)
      else attach_now lease session a

  start_turn : Exec Error (Actor Doc) ℕ
  unfolding transition
  start_turn = do
    modify (λ a. record a { turn_generation = a.turn_generation + 1 })
    transition starting
    λ a. (ok a.turn_generation, a)

  -- beginTurn
  unfoldable pub begin_turn : Exec Error (Actor Doc) ℕ
  unfolding start_turn
  begin_turn a =
      if not (same_phase a.phase ready) || not (is_some a.lease) || not (is_some a.session)
      then (err (cannot_start a.phase), a)
      else start_turn a

  -- setTurnEventCleanup
  unfoldable pub set_turn_event_cleanup : ℕ → ℕ → Exec Error (Actor Doc) (Unit {0})
  set_turn_event_cleanup generation cleanup a =
      if generation != a.turn_generation || not (turn_phase a.phase)
      then (ok tt, record a { log = cleans cleanup ∷ a.log })
      else (
        ok tt,
        record a {
          turn_event_cleanup = some cleanup;
          log = run_cleanup a.turn_event_cleanup a.log;
        },
      )

  -- owns
  unfoldable pub owns : ℕ → Option ℕ → Actor Doc → Bool
  owns proc none a = has_process a.lease proc
  owns proc (some generation) a = has_process a.lease proc && generation == a.turn_generation

  -- markFailed
  unfoldable pub mark_failed : Exec Error (Actor Doc) (Unit {0})
  unfolding transition
  mark_failed a =
      if same_phase a.phase detached || same_phase a.phase releasing || same_phase a.phase failed
      then (ok tt, a)
      else transition failed a

module _ {Doc : Type 0} (api : Document Doc) where
  abbrev pub steer : Option Doc → List ℕ → Option Doc
  steer none queue = none
  steer (some doc) queue = some (api.set_steering doc queue)

  -- The new queue, then syncSteeringQueue.
  unfoldable pub sync_steering_queue : List ℕ → Actor Doc → Actor Doc
  sync_steering_queue queue a =
      emit (steering_queue_update queue)
        (record a { steering_queue = queue; session = steer a.session queue })

  -- enqueueSteering
  unfoldable pub enqueue_steering : ℕ → Actor Doc → Actor Doc
  enqueue_steering message a = sync_steering_queue (append_one a.steering_queue message) a

  -- removeSteeringByIndex, at an index that is no negative number.
  unfoldable pub remove_steering_by_index : ℕ → Actor Doc → Bool × Actor Doc
  remove_steering_by_index index a =
      if leb (length a.steering_queue) index
      then (false, a)
      else (true, sync_steering_queue (remove_at index a.steering_queue) a)

  -- dequeueSteering
  unfoldable pub dequeue_steering : ℕ → Actor Doc → Bool × Actor Doc
  dequeue_steering text a = elim (index_of text a.steering_queue) [
    | none ↦ (false, a)
    | some index ↦ (true, sync_steering_queue (remove_at index a.steering_queue) a)
  ]

  -- clearSteering
  unfoldable pub clear_steering : Actor Doc → Actor Doc
  clear_steering a = if is_empty a.steering_queue then a else sync_steering_queue [] a
