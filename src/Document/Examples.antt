-- ===== src/Document/Examples.antt =====
-- The theorem on src/server/session-jsonl.ts at one small session. The text is the thinking level with
-- the calls that run, and its hash is its length.
use pipane.Base.{ℕ, ◌≡◌, none, some, List, [], ◌∷◌, length}
use pipane.Sync.Op.{SyncOp, apply_sync_op}
use pipane.Document.State.{assistant, other_message, Platform, Document, build_state, new_document}
use pipane.Document.Events.{
  agent_start, message_update, message_end, tool_execution_start, tool_execution_end, Change,
  applies, steers, change_all,
}
use pipane.Document.Syncing.{op_for_client, new_document-Current, change_all-syncs}

abbrev levels : Platform
levels = record {
  stringify = λ s. s.thinking_level ∷ s.pending_tool_calls;
  compute_hash = λ text. length text;
}

abbrev opened : Document
opened = new_document levels 1 (other_message 5 ∷ []) none 3

-- The model answers with a call of a tool, which runs and ends.
abbrev one_answer : List (ℕ × Change)
one_answer =
    (10, applies agent_start)
    ∷ (11, applies (message_update (some (assistant (some 11) (8 ∷ []) none 6))))
    ∷ (12, applies (message_end (some (assistant (some 11) (8 ∷ []) none 7))))
    ∷ (13, applies (tool_execution_start 8))
    ∷ (14, steers (2 ∷ []))
    ∷ (15, applies (tool_execution_end 8))
    ∷ []

change_all-syncs_example :
    let d = change_all levels one_answer opened in
    ((t : ℕ) × (d.json ≡ levels.stringify (build_state t d)))
    × (op_for_client (4 ∷ 4 ∷ []) 2 d ≡ none → 2 ≡ length d.json)
    × ((op : SyncOp)
        → op_for_client (4 ∷ 4 ∷ []) 2 d ≡ some op
        → apply_sync_op levels.compute_hash (record { text = 4 ∷ 4 ∷ []; hash = 2 }) op
          ≡ some (record { text = d.json; hash = length d.json }))
change_all-syncs_example =
    change_all-syncs levels one_answer opened (4 ∷ 4 ∷ [])
      (new_document-Current levels 1 (other_message 5 ∷ []) none 3)
