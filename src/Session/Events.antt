-- ===== src/Session/Events.antt =====
-- applyProcessEvent of src/server/session-actor.ts: what an event of the process does to its session.
use pipane.Base.{
  ℕ, Bool, true, false, not, ◌||◌, Option, none, some, List, [], ◌∷◌, ok, if◌then◌else◌, is_some,
}
use pipane.Base.Exec.{Exec, ◌>>◌, modify}
use pipane.Session.Phase.{starting, running, settling, same_phase}
use pipane.Session.Actor.{
  Part, text_part, other_part, Content, whole, parts, ProcessEvent, agent_start, agent_end,
  agent_settled, user_message_end, Document, Applied, Actor, Error, transition, clear_steering,
  dequeue_steering, owns,
}

-- The answer to an event of a process or a turn that is no longer this session's.
abbrev pub ignored : Applied
ignored = record {
  accepted = false;
  changed = false;
  started = false;
  ended = false;
  settled = false;
}

module _ {Doc : Type 0} where
  -- `if (this._phase === "starting" || this._phase === "running") this.transition("settling")`
  abbrev pub settle : Exec Error (Actor Doc) (Unit {0})
  settle a =
      if same_phase a.phase starting || same_phase a.phase running
      then transition settling a
      else (ok tt, a)

module _ {Doc : Type 0} (api : Document Doc) where
  -- The texts among the parts of a message.
  abbrev texts : List Part → List ℕ
  texts [] = []
  texts (text_part t ∷ ps) = t ∷ texts ps
  texts (other_part ∷ ps) = texts ps

  -- The text of a user's message.
  unfoldable pub message_text : Content → ℕ
  message_text (whole t) = t
  message_text (parts ps) = api.join (texts ps)

  -- What an event does to the phase and the queue, before the document sees it.
  unfoldable pub advance : ProcessEvent → Exec Error (Actor Doc) (Unit {0})
  unfolding transition
  advance agent_start a = if same_phase a.phase starting then transition running a else (ok tt, a)
  advance agent_end a = (settle >> modify (clear_steering api)) a
  advance agent_settled a = settle a
  advance _ a = (ok tt, a)

  abbrev pub feed : ProcessEvent → Option ℕ → Doc → Doc
  feed event none doc = api.apply_event doc event
  feed event (some messages) doc = api.replace_messages (api.apply_event doc event) messages

  -- A message of the user that ended leaves the queue of pending ones.
  abbrev pub deliver : ProcessEvent → Actor Doc → Actor Doc
  deliver (user_message_end content) a = (dequeue_steering api (message_text content) a).1
  deliver _ a = a

  abbrev starts : ProcessEvent → Bool
  starts agent_start = true
  starts agent_settled = true
  starts _ = false

  abbrev ends : ProcessEvent → Bool
  ends agent_end = true
  ends agent_settled = true
  ends _ = false

  abbrev settles : ProcessEvent → Bool
  settles agent_settled = true
  settles _ = false

  -- The document after the event: the session as it is once the phase has advanced.
  abbrev pub update_document : ProcessEvent → Option ℕ → Option Doc → Option Doc
  update_document event messages none = none
  update_document event messages (some doc) = some (feed event messages doc)

  abbrev document_changes : ProcessEvent → Option ℕ → Option Doc → Bool
  document_changes event messages none = false
  document_changes event messages (some doc) = is_some messages || api.changes doc event

  apply_owned : ProcessEvent → Option ℕ → Exec Error (Actor Doc) Applied
  apply_owned event messages = do
    advance event
    λ a. (
      ok (record {
        accepted = true;
        changed = document_changes event messages a.session;
        started = starts event;
        ended = ends event;
        settled = settles event;
      }),
      deliver event (record a { session = update_document event messages a.session }),
    )

  -- The command that applyProcessEvent enqueues. `messages` replaces the document's messages.
  unfoldable pub apply_process_event :
      ℕ → ℕ → ProcessEvent → Option ℕ → Exec Error (Actor Doc) Applied
  unfolding apply_owned
  apply_process_event proc generation event messages a =
      if not (owns proc (some generation) a) || not (is_some a.session)
      then (ok ignored, a)
      else apply_owned event messages a
