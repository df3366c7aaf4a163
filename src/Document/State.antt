-- ===== src/Document/State.antt =====
-- src/server/session-jsonl.ts: the state of SessionJsonl, what is serialized of it, and the timings of
-- tool calls that messages tell. JSON.stringify and SHA-256 are parameters; a text that is only stored
-- is a number.
use pipane.Base.{
  ℕ, Bool, true, false, Option, none, some, List, [], ◌∷◌, ◌++◌, ◌==◌, ◌&&◌, is_some, if◌then◌else◌,
}
use pipane.Base.Dict.{Dict, get, put}
use pipane.Sync.Patch.{Text}

-- A message by its role: an assistant's has its tool calls and error, a result the call it is for. A
-- timestamp that is no finite number is none.
pub data Message : Type 0 where
  assistant :
      (timestamp : Option ℕ)
      → (tool_calls : List ℕ) → (error_message : Option ℕ) → (body : ℕ) → Message
  tool_result : (timestamp : Option ℕ) → (tool_call_id : ℕ) → (body : ℕ) → Message
  other_message : (body : ℕ) → Message

pub record Timing : Type 0 where
  pub started_at : ℕ
  pub completed_at : Option ℕ

pub record Model : Type 0 where
  pub provider : ℕ
  pub model_id : ℕ

-- An entry of the flat list of messages: one of the session, or a partial result made into one.
pub data Shown : Type 0 where
  message : Message → Shown
  partial_result : (tool_call_id result timestamp : ℕ) → Shown

-- SessionState of a session that runs.
pub record SessionState : Type 0 where
  pub messages : List Shown
  pub pending_tool_calls : List ℕ
  pub tool_call_timings : Dict Timing
  pub model : Option Model
  pub thinking_level : ℕ
  pub steering_queue : List ℕ
  pub error : Option ℕ

pub record Platform : Type 0 where
  pub stringify : SessionState → Text
  pub compute_hash : Text → ℕ

pub record Document : Type 0 where
  pub messages : List Message
  pub stream_message : Option Message
  pub pending_tool_calls : List ℕ
  pub partial_tool_results : Dict ℕ
  pub tool_call_timings : Dict Timing
  pub model : Option Model
  pub thinking_level : ℕ
  pub steering_queue : List ℕ
  pub error : Option ℕ
  pub json : Text
  pub hash : ℕ
  pub version : ℕ

-- `timings[part.id] ??= { startedAt }`
unfoldable pub start_calls : ℕ → List ℕ → Dict Timing → Dict Timing
start_calls at [] timings = timings
start_calls at (id ∷ ids) timings =
    let started = put id (record { started_at = at; completed_at = none }) timings in
    start_calls at ids (if is_some (get id timings) then timings else started)

abbrev complete_call : ℕ → ℕ → Option Timing → Dict Timing → Dict Timing
complete_call id at none timings = timings
complete_call id at (some t) timings = put id (record t { completed_at = some at }) timings

unfoldable pub read_timing : Message → Dict Timing → Dict Timing
read_timing (assistant (some at) ids e b) timings = start_calls at ids timings
read_timing (tool_result (some at) id b) timings = complete_call id at (get id timings) timings
read_timing _ timings = timings

-- The loop of inferToolCallTimings.
unfoldable pub read_timings : List Message → Dict Timing → Dict Timing
read_timings [] timings = timings
read_timings (m ∷ ms) timings = read_timings ms (read_timing m timings)

-- inferToolCallTimings
abbrev pub infer_tool_call_timings : List Message → Dict Timing
infer_tool_call_timings messages = read_timings messages []

-- The partial results as messages, made at the time of the call.
abbrev pub show_partial : ℕ → Dict ℕ → List Shown
show_partial now [] = []
show_partial now ((id, result) ∷ results) = partial_result id result now ∷ show_partial now results

abbrev pub show_messages : List Message → List Shown
show_messages [] = []
show_messages (m ∷ ms) = message m ∷ show_messages ms

abbrev pub show_stream : Option Message → List Shown
show_stream none = []
show_stream (some m) = message m ∷ []

-- buildState
unfoldable pub build_state : ℕ → Document → SessionState
build_state now d = record {
  messages =
      show_messages d.messages
      ++ (show_partial now d.partial_tool_results ++ show_stream d.stream_message);
  pending_tool_calls = d.pending_tool_calls;
  tool_call_timings = d.tool_call_timings;
  model = d.model;
  thinking_level = d.thinking_level;
  steering_queue = d.steering_queue;
  error = d.error;
}

abbrev pub same_text : Text → Text → Bool
same_text [] [] = true
same_text (x ∷ xs) (y ∷ ys) = x == y && same_text xs ys
same_text _ _ = false

module _ (platform : Platform) where
  open platform use {stringify, compute_hash}

  -- rebuildJson
  unfoldable pub rebuild_json : ℕ → Document → Document
  rebuild_json now d =
      let json = stringify (build_state now d) in
      record d { json = json; hash = if same_text json d.json then d.hash else compute_hash json }

  -- The constructor, without timings of its own.
  unfoldable pub new_document : ℕ → List Message → Option Model → ℕ → Document
  new_document now messages model thinking_level =
      let bare : Document = record {
        messages = messages;
        stream_message = none;
        pending_tool_calls = [];
        partial_tool_results = [];
        tool_call_timings = infer_tool_call_timings messages;
        model = model;
        thinking_level = thinking_level;
        steering_queue = [];
        error = none;
        json = [];
        hash = 0;
        version = 1;
      } in
      let json = stringify (build_state now bare) in
      record bare { json = json; hash = compute_hash json }
