-- ===== src/Document/Syncing.antt =====
-- What a client gets from src/server/session-jsonl.ts: computeSyncOp of SessionJsonl, and that it keeps
-- the client in step with the document.
use pipane.Base.{
  ℕ, ◌≡◌, refl, true, ◌&&◌, ◌||◌, Option, none, some, List, [], ◌∷◌, ◌==◌, if◌then◌else◌, arith,
  inl, inr, Bool-cases, Option-cases, sym, subst, ap, ◌∙◌, contains,
}
use pipane.Sync.Patch.{Text}
use pipane.Sync.Op.{SyncOp, Version, apply_sync_op}
use pipane.Sync.Op
use pipane.Sync.Batch.{apply-compute_sync_op}
use pipane.Document.State.{
  Message, Model, Platform, Document, build_state, same_text, rebuild_json, new_document,
}
use pipane.Document.Events.{
  AgentEvent, agent_start, message_start, message_update, message_end, turn_end,
  thinking_level_changed, tool_execution_start, tool_execution_update, tool_execution_end,
  other_event, error_of, same_model, apply_event, set_control_state, replace_messages,
  set_steering_queue, Change, applies, sets_control, replaces, steers, change, change_all,
}

-- computeSyncOp, from a client's text and hash.
pub op_for_client : Text → ℕ → Document → Option SyncOp
op_for_client client_json client_hash d =
    if client_hash == d.hash
    then none
    else some (Op.compute_sync_op client_json d.json client_hash d.hash)

same_text-≡ : (s t : Text) → same_text s t ≡ true → s ≡ t
same_text-≡ [] [] e = refl
same_text-≡ [] (y ∷ ys) e = absurd (ground arith)
same_text-≡ (x ∷ xs) [] e = absurd (ground arith)
same_text-≡ (x ∷ xs) (y ∷ ys) e =
    let rest = same_text-≡ xs ys (ground arith) in let first : x ≡ y = ground arith in cc

module _ (platform : Platform) where
  -- The text is the state as it was serialized last, and the hash is the text's.
  pub record Current (d : Document) : Type 0 where
    pub built_at : ℕ
    pub serialized : d.json ≡ platform.stringify (build_state built_at d)
    pub hashed : d.hash ≡ platform.compute_hash d.json

  rebuild_json-Current :
      (now : ℕ) (d : Document)
      → d.hash ≡ platform.compute_hash d.json
      → Current (rebuild_json platform now d)
  unfolding rebuild_json build_state
  rebuild_json-Current now d h = record {
    built_at = now;
    serialized = refl;
    hashed =
        let json = platform.stringify (build_state now d) in
        elim (Bool-cases (same_text json d.json)) [
          | inl kept ↦ rw kept (h ∙ ap platform.compute_hash (sym (same_text-≡ json d.json kept)))
          | inr differs ↦ rw differs refl
        ];
  }

  pub new_document-Current :
      (now : ℕ) (ms : List Message) (model : Option Model) (level : ℕ)
      → Current (new_document platform now ms model level)
  unfolding new_document build_state
  new_document-Current now ms model level = record {
    built_at = now;
    serialized = refl;
    hashed = refl;
  }

  module _ (now : ℕ) (d : Document) (v : Current d) where
    apply_event-Current : (e : AgentEvent) → Current (apply_event platform now e d).1
    unfolding apply_event
    apply_event-Current agent_start = rebuild_json-Current now _ v.hashed
    apply_event-Current (message_start m) = rebuild_json-Current now _ v.hashed
    apply_event-Current (message_update m) = rebuild_json-Current now _ v.hashed
    apply_event-Current (message_end m) = rebuild_json-Current now _ v.hashed
    apply_event-Current (turn_end m) = elim (Option-cases (error_of m)) [
      | inl fine ↦ rw (fine, apply_event) v
      | inr (e, failed) ↦ rw (failed, apply_event) (rebuild_json-Current now _ v.hashed)
    ]
    apply_event-Current (thinking_level_changed none) = v
    apply_event-Current (thinking_level_changed (some level)) =
        elim (Bool-cases (level == d.thinking_level)) [
          | inl same_level ↦ rw same_level v
          | inr other ↦ rw other (rebuild_json-Current now _ v.hashed)
        ]
    apply_event-Current (tool_execution_start id) =
        elim (Bool-cases (id == 0 || contains id d.pending_tool_calls)) [
          | inl known ↦ rw known v
          | inr new ↦ rw new (rebuild_json-Current now _ v.hashed)
        ]
    apply_event-Current (tool_execution_update id none) = v
    apply_event-Current (tool_execution_update id (some result)) = elim (Bool-cases (id == 0)) [
      | inl empty ↦ rw empty v
      | inr given ↦ rw given (rebuild_json-Current now _ v.hashed)
    ]
    apply_event-Current (tool_execution_end id) = elim (Bool-cases (id == 0)) [
      | inl empty ↦ rw empty v
      | inr given ↦ rw given (rebuild_json-Current now _ v.hashed)
    ]
    apply_event-Current other_event = v

    change-Current : (c : Change) → Current (change platform (now, c) d)
    unfolding change replace_messages set_steering_queue set_control_state
    change-Current (applies e) = apply_event-Current e
    change-Current (sets_control model level) =
        elim (Bool-cases (same_model d.model model && d.thinking_level == level)) [
          | inl known ↦ rw (known, change) v
          | inr new ↦ rw (new, change) (rebuild_json-Current now _ v.hashed)
        ]
    change-Current (replaces ms) = rebuild_json-Current now _ v.hashed
    change-Current (steers queue) = rebuild_json-Current now _ v.hashed

  change_all-Current :
      (cs : List (ℕ × Change)) (d : Document) → Current d → Current (change_all platform cs d)
  unfolding change_all
  change_all-Current [] d v = v
  change_all-Current ((now, c) ∷ cs) d v =
      change_all-Current cs (change platform (now, c) d) (change-Current now d v c)

  module _ (client : Text) (d : Document) (hashed : d.hash ≡ platform.compute_hash d.json) where
    nothing_to_send :
        op_for_client client (platform.compute_hash client) d ≡ none
        → platform.compute_hash client ≡ platform.compute_hash d.json
    unfolding op_for_client
    nothing_to_send e = ground (arith, hashed)

    sent_op :
        (op : SyncOp)
        → op_for_client client (platform.compute_hash client) d ≡ some op
        → Op.compute_sync_op client d.json
            (platform.compute_hash client)
            (platform.compute_hash d.json)
          ≡ op
    unfolding op_for_client
    sent_op op e =
        subst (λ h. Op.compute_sync_op client d.json (platform.compute_hash client) h ≡ op) hashed
          (ground arith)

  -- After any changes of a document: its text is its state, serialized at some time; and a client with
  -- any text and the hash of that text either has the hash of the document's text, or gets an
  -- operation that takes it to this text and its hash.
  pub change_all-syncs :
      (cs : List (ℕ × Change)) (d : Document) (client : Text)
      → Current d
      → let d' = change_all platform cs d in
        ((t : ℕ) × (d'.json ≡ platform.stringify (build_state t d')))
        × (op_for_client client (platform.compute_hash client) d' ≡ none
            → platform.compute_hash client ≡ platform.compute_hash d'.json)
        × ((op : SyncOp)
            → op_for_client client (platform.compute_hash client) d' ≡ some op
            → apply_sync_op platform.compute_hash
                (record { text = client; hash = platform.compute_hash client })
                op
              ≡ some (record { text = d'.json; hash = platform.compute_hash d'.json }))
  change_all-syncs cs d client v =
      let now = change_all-Current cs d v in
      let d' = change_all platform cs d in
      (
        (now.built_at, now.serialized),
        nothing_to_send client d' now.hashed,
        λ op e.
            subst
              (λ x.
                apply_sync_op platform.compute_hash
                  (record { text = client; hash = platform.compute_hash client }) x
                ≡ some (record { text = d'.json; hash = platform.compute_hash d'.json }))
              (sent_op client d' now.hashed op e)
              (apply-compute_sync_op platform.compute_hash client d'.json),
      )
