-- ===== src/Session/Phase.antt =====
-- src/server/session-actor.ts: the phases, their table of legal transitions, and what an actor
-- publishes.
use pipane.Base.{ℕ, Bool, true, false, List}

pub data Phase : Type 0 where
  detached attaching ready starting running settling releasing failed : Phase

abbrev pub same_phase : Phase → Phase → Bool
same_phase detached detached = true
same_phase attaching attaching = true
same_phase ready ready = true
same_phase starting starting = true
same_phase running running = true
same_phase settling settling = true
same_phase releasing releasing = true
same_phase failed failed = true
same_phase _ _ = false

-- LEGAL_TRANSITIONS[from].includes(to)
abbrev pub legal : Phase → Phase → Bool
legal detached attaching = true
legal attaching ready = true
legal attaching failed = true
legal attaching releasing = true
legal ready starting = true
legal ready releasing = true
legal ready failed = true
legal starting running = true
legal starting settling = true
legal starting releasing = true
legal starting failed = true
legal running settling = true
legal running releasing = true
legal running failed = true
legal settling releasing = true
legal settling failed = true
legal releasing detached = true
legal failed releasing = true
legal _ _ = false

-- isTurnActive
abbrev pub turn_phase : Phase → Bool
turn_phase starting = true
turn_phase running = true
turn_phase settling = true
turn_phase _ = false

-- A lease of a pooled process, told apart by `id`.
pub record Lease : Type 0 where
  pub id : ℕ
  pub process : ℕ

-- SessionActorEvent
pub data ActorEvent : Type 0 where
  phase_change : Phase → ActorEvent
  attached : ℕ → ActorEvent
  detached_from : ℕ → ActorEvent
  steering_queue_update : List ℕ → ActorEvent

-- What an actor does to the outside: it publishes an event, runs a cleanup or releases a lease.
pub data Effect : Type 0 where
  emits : ActorEvent → Effect
  cleans : ℕ → Effect
  releases : Lease → Effect
