-- ===== src/Framing/Decoder.antt =====
-- DataChannelFrameDecoder of src/shared/data-channel-framing.ts. The progress reports are left out.
use pipane.Base.{
  ℕ, ◌+◌, not, ◌||◌, Option, none, some, List, [], ◌∷◌, ◌++◌, Result, ok, err, ◌>>=◌, ◌>>◌,
  throw_if, or_throw, true, false, Bool, ◌&&◌, ltb, leb, ◌==◌, ◌!=◌, length, if◌then◌else◌,
}
use pipane.Base.Dict.{Dict, get, put, remove}
use pipane.Framing.Encoder.{
  FrameError, frame_too_large, not_from_zero, too_many_pending, out_of_order, invalid_payload,
  invalid_envelope, invalid_text, chunk_payload_bytes, max_frame_bytes, max_pending_frames,
  max_chunks_per_frame, Chunk, Platform, Property, text_value, integer_value, Json, object_value,
  no_object, chunk_prefix, cancel_prefix,
}

pub record PendingFrame : Type 0 where
  pub total : ℕ
  pub next_index : ℕ
  pub byte_length : ℕ
  pub chunks : List (List ℕ)

-- The pending frame of a chunk, a new one if its id is new.
unfoldable pub open_frame :
    Dict PendingFrame → Chunk → Option PendingFrame → Result FrameError PendingFrame
open_frame pending c (some p) = ok p
open_frame pending c none = do
  throw_if (c.index != 0) not_from_zero
  throw_if (leb max_pending_frames (length pending)) too_many_pending
  ok (record { total = c.total; next_index = 0; byte_length = 0; chunks = [] })

-- `assembled`: the bytes of the parts, one behind the other.
unfoldable pub assemble : List (List ℕ) → List ℕ
assemble [] = []
assemble (part ∷ parts) = part ++ assemble parts

-- `message.startsWith(prefix)`
unfoldable pub starts_with : List ℕ → List ℕ → Bool
starts_with [] text = true
starts_with (x ∷ xs) [] = false
starts_with (x ∷ xs) (y ∷ ys) = let rest = starts_with xs ys in x == y && rest

abbrev as_text : Property → Option ℕ
as_text (text_value t) = some t
as_text _ = none

abbrev as_integer : Property → Option ℕ
as_integer (integer_value n) = some n
as_integer _ = none

-- What a physical message is: an application frame, a cancellation, a chunk, or an envelope that
-- is refused.
pub data Message : Type 0 where
  plain malformed : Message
  cancels : (id : ℕ) → Message
  carries : Chunk → Message

-- parseChunk's checks of the marker and the types.
unfoldable pub chunk_of : Json → Result FrameError Chunk
chunk_of no_object = err invalid_envelope
chunk_of (object_value e) = do
  marker ← or_throw (as_integer e.chunk_marker) invalid_envelope
  throw_if (marker != 1) invalid_envelope
  id ← or_throw (as_text e.id) invalid_envelope
  index ← or_throw (as_integer e.index) invalid_envelope
  total ← or_throw (as_integer e.total) invalid_envelope
  payload ← or_throw (as_text e.payload) invalid_envelope
  ok (record { id = id; index = index; total = total; payload = payload })

-- parseCancel's checks of the marker and the type.
unfoldable pub cancellation_of : Json → Result FrameError ℕ
cancellation_of no_object = err invalid_envelope
cancellation_of (object_value e) = do
  marker ← or_throw (as_integer e.cancel_marker) invalid_envelope
  throw_if (marker != 1) invalid_envelope
  or_throw (as_text e.id) invalid_envelope

abbrev as_carried : Result FrameError Chunk → Message
as_carried (ok c) = carries c
as_carried (err e) = malformed

abbrev as_cancelled : Result FrameError ℕ → Message
as_cancelled (ok id) = cancels id
as_cancelled (err e) = malformed

module _ (platform : Platform) where
  open platform use {decode_text, parse, btoa, atob, is_base64, valid_id}

  -- parseChunk, parseCancel and the tests of the prefixes; the numbers and the id are checked where
  -- the message is accepted.
  unfoldable pub read_message : List ℕ → Message
  read_message text =
      if starts_with cancel_prefix text
      then as_cancelled (or_throw (parse text) invalid_envelope >>= cancellation_of)
      else if starts_with chunk_prefix text
      then as_carried (or_throw (parse text) invalid_envelope >>= chunk_of)
      else plain

  -- decodeBase64
  unfoldable pub decode_base64 : ℕ → Result FrameError (List ℕ)
  decode_base64 payload = do
    throw_if (not (is_base64 payload)) invalid_payload
    bytes ← or_throw (atob payload) invalid_payload
    throw_if (btoa bytes != payload) invalid_payload
    ok bytes

  -- The frame with one more chunk.
  unfoldable pub extend_frame : Chunk → PendingFrame → Result FrameError PendingFrame
  extend_frame c p = do
    throw_if (p.total != c.total || c.index != p.next_index) out_of_order
    bytes ← decode_base64 c.payload
    throw_if (length bytes == 0 || ltb chunk_payload_bytes (length bytes)) invalid_payload
    throw_if (ltb max_frame_bytes (p.byte_length + length bytes)) frame_too_large
    ok (record {
      total = p.total;
      next_index = p.next_index + 1;
      byte_length = p.byte_length + length bytes;
      chunks = p.chunks ++ (bytes ∷ []);
    })

  -- The checks of parseChunk on the numbers.
  unfoldable pub check_chunk : Chunk → Result FrameError Chunk
  check_chunk c = do
    throw_if
        (not (valid_id c.id)
          || ltb c.total 2
          || ltb max_chunks_per_frame c.total
          || leb c.total c.index)
        invalid_envelope
    ok c

  -- An incomplete frame stays pending; a complete one is decoded, and it is no longer pending.
  unfoldable pub settle_frame :
      ℕ → PendingFrame → Dict PendingFrame → Result FrameError (Option (List ℕ)) × Dict PendingFrame
  settle_frame id p pending =
      if ltb p.next_index p.total
      then (ok none, put id p pending)
      else elim (decode_text (assemble p.chunks)) [
        | none ↦ (err invalid_text, [])
        | some text ↦ (ok (some text), remove id pending)
      ]

  -- The chunk's way through accept. An error forgets every pending frame.
  unfoldable pub accept_chunk :
      Chunk → Dict PendingFrame → Result FrameError (Option (List ℕ)) × Dict PendingFrame
  accept_chunk c pending =
      elim (check_chunk c >>= λ _. (open_frame pending c (get c.id pending) >>= extend_frame c)) [
        | err e ↦ (err e, [])
        | ok p ↦ settle_frame c.id p pending
      ]

  unfoldable pub accept_message :
      List ℕ → Message → Dict PendingFrame → Result FrameError (Option (List ℕ)) × Dict PendingFrame
  accept_message text plain pending = (ok (some text), pending)
  accept_message text malformed pending = (err invalid_envelope, [])
  accept_message text (cancels id) pending =
      if valid_id id then (ok none, remove id pending) else (err invalid_envelope, [])
  accept_message text (carries c) pending = accept_chunk c pending

  -- accept
  unfoldable pub accept :
      List ℕ → Dict PendingFrame → Result FrameError (Option (List ℕ)) × Dict PendingFrame
  accept text pending = accept_message text (read_message text) pending

  -- The decoder behind any messages.
  unfoldable pub accept_all : List (List ℕ) → Dict PendingFrame → Dict PendingFrame
  accept_all [] pending = pending
  accept_all (text ∷ texts) pending = accept_all texts (accept text pending).1
