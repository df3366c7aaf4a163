-- ===== src/Document/Events.antt =====
-- src/server/session-jsonl.ts: what changes a SessionJsonl.
use pipane.Base.{
  ℕ, ◌+◌, Bool, true, false, ◌&&◌, ◌||◌, Option, none, some, List, [], ◌∷◌, ◌++◌, ◌==◌, ◌!=◌,
  is_some, contains, without, if◌then◌else◌,
}
use pipane.Base.Dict.{Dict, get, put, remove}
use pipane.Document.State.{
  Message, assistant, Timing, Model, Platform, Document, infer_tool_call_timings, rebuild_json,
}

-- AgentEvent as applyEvent tells them apart. `none` is a field that is missing, or no string.
pub data AgentEvent : Type 0 where
  agent_start other_event : AgentEvent
  message_start message_update message_end turn_end : Option Message → AgentEvent
  thinking_level_changed : Option ℕ → AgentEvent
  tool_execution_start tool_execution_end : (tool_call_id : ℕ) → AgentEvent
  tool_execution_update : (tool_call_id : ℕ) → (partial_result : Option ℕ) → AgentEvent

abbrev pub append_message : Option Message → List Message → List Message
append_message none messages = messages
append_message (some m) messages = messages ++ m ∷ []

-- The error of an assistant's message, if it has one.
abbrev pub error_of : Option Message → Option ℕ
error_of (some (assistant at ids (some e) b)) = if e != 0 then some e else none
error_of _ = none

-- A call that is timed and not completed is completed.
abbrev pub complete : ℕ → ℕ → Option Timing → Dict Timing → Dict Timing
complete id now none timings = timings
complete id now (some t) timings =
    if is_some t.completed_at
    then timings
    else put id (record t { completed_at = some now }) timings

abbrev pub same_model : Option Model → Option Model → Bool
same_model none none = true
same_model (some a) (some b) = a.provider == b.provider && a.model_id == b.model_id
same_model _ _ = false

-- `{ ...inferredTimings[id], ...this._toolCallTimings[id] }` for each key of the first.
abbrev pub keep_completed : Option ℕ → Option ℕ → Option ℕ
keep_completed inferred none = inferred
keep_completed inferred (some at) = some at

abbrev pub merge_one : Timing → Option Timing → Timing
merge_one inferred none = inferred
merge_one inferred (some t) = record {
  started_at = t.started_at;
  completed_at = keep_completed inferred.completed_at t.completed_at;
}

unfoldable pub merge_timings : Dict Timing → Dict Timing → Dict Timing
merge_timings [] old = []
merge_timings ((id, inferred) ∷ timings) old =
    (id, merge_one inferred (get id old)) ∷ merge_timings timings old

module _ (platform : Platform) (now : ℕ) where
  -- `this._version++; this.rebuildJson(); return true;`
  abbrev pub changed : Document → Bool × Document
  changed d = (true, rebuild_json platform now (record d { version = d.version + 1 }))

  abbrev set_error : Option ℕ → Document → Bool × Document
  set_error none d = (false, d)
  set_error (some e) d = changed (record d { error = some e })

  abbrev set_level : Option ℕ → Document → Bool × Document
  set_level none d = (false, d)
  set_level (some level) d =
      if level == d.thinking_level
      then (false, d)
      else changed (record d { thinking_level = level })

  abbrev set_partial : ℕ → Option ℕ → Document → Bool × Document
  set_partial id none d = (false, d)
  set_partial id (some result) d =
      if id == 0
      then (false, d)
      else changed (record d { partial_tool_results = put id result d.partial_tool_results })

  -- applyEvent
  unfoldable pub apply_event : AgentEvent → Document → Bool × Document
  apply_event agent_start d = changed (record d { error = none; stream_message = none })
  apply_event (message_start m) d = changed (record d { stream_message = m })
  apply_event (message_update m) d = changed (record d { stream_message = m })
  apply_event (message_end m) d =
      changed (record d { stream_message = none; messages = append_message m d.messages })
  apply_event (turn_end m) d = set_error (error_of m) d
  apply_event (thinking_level_changed level) d = set_level level d
  apply_event (tool_execution_start id) d =
      if id == 0 || contains id d.pending_tool_calls
      then (false, d)
      else changed (record d {
        pending_tool_calls = d.pending_tool_calls ++ id ∷ [];
        tool_call_timings =
            put id (record { started_at = now; completed_at = none }) d.tool_call_timings;
      })
  apply_event (tool_execution_update id result) d = set_partial id result d
  apply_event (tool_execution_end id) d =
      if id == 0
      then (false, d)
      else changed (record d {
        pending_tool_calls = without id d.pending_tool_calls;
        tool_call_timings = complete id now (get id d.tool_call_timings) d.tool_call_timings;
        partial_tool_results = remove id d.partial_tool_results;
      })
  apply_event other_event d = (false, d)

  -- setControlState
  unfoldable pub set_control_state : Option Model → ℕ → Document → Bool × Document
  set_control_state model level d =
      if same_model d.model model && d.thinking_level == level
      then (false, d)
      else changed (record d { model = model; thinking_level = level })

  -- replaceMessages
  unfoldable pub replace_messages : List Message → Document → Document
  replace_messages messages d =
      (changed (record d {
        messages = messages;
        stream_message = none;
        pending_tool_calls = [];
        partial_tool_results = [];
        tool_call_timings = merge_timings (infer_tool_call_timings messages) d.tool_call_timings;
      })).1

  -- The setter of steeringQueue.
  unfoldable pub set_steering_queue : List ℕ → Document → Document
  set_steering_queue queue d = rebuild_json platform now (record d { steering_queue = queue })

-- What may be done with a document, each at its time.
pub data Change : Type 0 where
  applies : AgentEvent → Change
  sets_control : Option Model → ℕ → Change
  replaces : List Message → Change
  steers : List ℕ → Change

module _ (platform : Platform) where
  unfoldable pub change : ℕ × Change → Document → Document
  change (now, applies e) d = (apply_event platform now e d).1
  change (now, sets_control model level) d = (set_control_state platform now model level d).1
  change (now, replaces messages) d = replace_messages platform now messages d
  change (now, steers queue) d = set_steering_queue platform now queue d

  unfoldable pub change_all : List (ℕ × Change) → Document → Document
  change_all [] d = d
  change_all (c ∷ cs) d = change_all cs (change c d)
