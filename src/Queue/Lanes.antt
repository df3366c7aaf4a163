-- ===== src/Queue/Lanes.antt =====
-- src/server/frame-connection.ts: the two lanes of PrioritizedFrameQueue, how frames enter them and
-- how a transfer is cancelled. An iterator is the list of the frames that it has left to give.
use pipane.Base.{
  ℕ, ◌+◌, ◌-◌, Bool, ◌&&◌, Option, none, some, List, [], ◌∷◌, ◌++◌, Result, ok, err, same, ltb,
  ◌==◌, length, drop, if◌then◌else◌,
}

pub data QueueError : Type 0 where
  encoding queue_full not_bulk : QueueError

pub record PhysicalMessage : Type 0 where
  pub value : ℕ
  pub byte_length : ℕ

pub record Frame : Type 0 where
  pub id : ℕ
  pub messages : List PhysicalMessage
  pub next_index : ℕ
  pub transfer_key : Option ℕ

pub record Sequence : Type 0 where
  pub iterator : List ℕ
  pub current : Option Frame
  pub transfer_key : Option ℕ

pub data Bulk : Type 0 where
  whole : Frame → Bulk
  lazy : Sequence → Bulk

-- `written` lists what was given to the carrier, the newest first; `failures` counts the calls of
-- onFailure.
pub record Queue : Type 0 where
  pub control : List Frame
  pub bulk : List Bulk
  pub next_frame_id : ℕ
  pub queued_bytes : ℕ
  pub written : List ℕ
  pub failures : ℕ

-- `...(transferKey ? { transferKey } : {})`: an empty key, 0, counts as none.
abbrev pub key_or_none : Option ℕ → Option ℕ
key_or_none none = none
key_or_none (some k) = if k == 0 then none else some k

abbrev pub max_queued_bytes : ℕ
max_queued_bytes = 100663296

-- `messages.reduce((total, message) => total + message.byteLength, 0)`
unfoldable pub total_bytes : List PhysicalMessage → ℕ
total_bytes [] = 0
total_bytes (m ∷ ms) = m.byte_length + total_bytes ms

-- The codec of the carrier: the id of a new frame by its number and transfer, the physical messages
-- of a frame, and those that cancel one.
pub record Codec : Type 0 where
  pub frame_id : ℕ → Option ℕ → ℕ
  pub encode : ℕ → ℕ → Option (List PhysicalMessage)
  pub cancellation : ℕ → PhysicalMessage
  pub cancellation_id : ℕ → ℕ

-- `frame.nextIndex > 0 && frame.nextIndex < frame.messages.length`
abbrev pub is_started : Frame → Bool
is_started f = ltb 0 f.next_index && ltb f.next_index (length f.messages)

-- discardFrame: the bytes that are given up, and the id where the frame was begun.
abbrev pub remaining_bytes : Frame → ℕ
remaining_bytes f = total_bytes (drop f.next_index f.messages)

abbrev pub cancelled_id : Frame → List ℕ
cancelled_id f = if is_started f then f.id ∷ [] else []

abbrev pub current_bytes : Option Frame → ℕ
current_bytes none = 0
current_bytes (some f) = remaining_bytes f

abbrev current_id : Option Frame → List ℕ
current_id none = []
current_id (some f) = cancelled_id f

abbrev pub key_of_item : Bulk → Option ℕ
key_of_item (whole f) = f.transfer_key
key_of_item (lazy s) = s.transfer_key

abbrev pub item_bytes : Bulk → ℕ
item_bytes (whole f) = remaining_bytes f
item_bytes (lazy s) = current_bytes s.current

abbrev item_id : Bulk → List ℕ
item_id (whole f) = cancelled_id f
item_id (lazy s) = current_id s.current

-- A lane without the items of a transfer, the bytes these give up, and the ids to cancel, which the
-- code collects from the back of the lane.
pub record Swept (A : Type 0) : Type 0 where
  pub kept : List A
  pub freed : ℕ
  pub ids : List ℕ

unfoldable pub sweep_control : ℕ → List Frame → Swept Frame
sweep_control key [] = record { kept = []; freed = 0; ids = [] }
sweep_control key (f ∷ fs) =
    let rest = sweep_control key fs in
    if same f.transfer_key (some key)
    then record rest { freed = rest.freed + remaining_bytes f; ids = rest.ids ++ cancelled_id f }
    else record rest { kept = f ∷ rest.kept }

unfoldable pub sweep_bulk : ℕ → List Bulk → Swept Bulk
sweep_bulk key [] = record { kept = []; freed = 0; ids = [] }
sweep_bulk key (b ∷ bs) =
    let rest = sweep_bulk key bs in
    if same (key_of_item b) (some key)
    then record rest { freed = rest.freed + item_bytes b; ids = rest.ids ++ item_id b }
    else record rest { kept = b ∷ rest.kept }

unfoldable pub control_bytes : List Frame → ℕ
control_bytes [] = 0
control_bytes (f ∷ fs) = remaining_bytes f + control_bytes fs

module _ (codec : Codec) where
  -- createFrame: its number is used up also where it fails.
  unfoldable pub create_frame : ℕ → Option ℕ → Queue → Result QueueError Frame × Queue
  create_frame frame key q =
      let number = q.next_frame_id + 1 in
      let id = codec.frame_id number key in
      let counted = record q { next_frame_id = number } in
      elim (codec.encode frame id) [
        | none ↦ (err encoding, counted)
        | some messages ↦
            if ltb max_queued_bytes (q.queued_bytes + total_bytes messages)
            then (err queue_full, counted)
            else (
              ok (record {
                id = id;
                messages = messages;
                next_index = 0;
                transfer_key = key_or_none key;
              }),
              record counted { queued_bytes = q.queued_bytes + total_bytes messages },
            )
      ]

  -- `cancellations`
  unfoldable pub cancellation_frames : List ℕ → List Frame
  cancellation_frames [] = []
  cancellation_frames (id ∷ ids) =
      record {
        id = codec.cancellation_id id;
        messages = codec.cancellation id ∷ [];
        next_index = 0;
        transfer_key = none;
      }
      ∷ cancellation_frames ids

  -- cancelTransfer, up to its flush.
  unfoldable pub cancel_transfer : ℕ → Queue → Queue
  cancel_transfer key q =
      let c = sweep_control key q.control in
      let b = sweep_bulk key q.bulk in
      let frames = cancellation_frames (c.ids ++ b.ids) in
      record q {
        control = frames ++ c.kept;
        bulk = b.kept;
        queued_bytes = q.queued_bytes - c.freed - b.freed + control_bytes frames;
      }
