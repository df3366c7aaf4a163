-- ===== src/Framing/Encoder.antt =====
-- src/shared/data-channel-framing.ts: the constants and encodeDataChannelFrame. A text is the list of
-- its UTF-16 units, and bytes are a list of numbers.
use pipane.Base.{
  ℕ, zero, suc, ◌+◌, ◌*◌, ◌/◌, Bool, not, Option, List, [], ◌∷◌, Result, ok, ◌>>=◌, ◌>>◌, throw_if,
  ltb, leb, length, take, drop, if◌then◌else◌,
}

pub data FrameError : Type 0 where
  invalid_id frame_too_large message_too_large not_from_zero too_many_pending out_of_order :
      FrameError
  invalid_payload invalid_envelope invalid_text : FrameError

abbrev pub chunk_payload_bytes : ℕ
chunk_payload_bytes = 12000

abbrev pub max_message_bytes : ℕ
max_message_bytes = 16384

abbrev pub max_frame_bytes : ℕ
max_frame_bytes = 67108864

abbrev pub max_pending_frames : ℕ
max_pending_frames = 4

-- `Math.ceil(bytes / DATA_CHANNEL_CHUNK_PAYLOAD_BYTES)`
abbrev pub chunk_count : ℕ → ℕ
chunk_count bytes = (bytes + 11999) / 12000

abbrev pub max_chunks_per_frame : ℕ
max_chunks_per_frame = chunk_count max_frame_bytes

-- `{"__pipaneDataChannelChunk":1,` and `{"__pipaneDataChannelCancel":1,`
abbrev pub chunk_prefix : List ℕ
chunk_prefix =
    123 ∷ 34 ∷ 95 ∷ 95 ∷ 112 ∷ 105 ∷ 112 ∷ 97 ∷ 110 ∷ 101 ∷ 68 ∷ 97 ∷ 116 ∷ 97 ∷ 67 ∷ 104 ∷ 97 ∷ 110
    ∷ 110 ∷ 101 ∷ 108 ∷ 67 ∷ 104 ∷ 117 ∷ 110 ∷ 107 ∷ 34 ∷ 58 ∷ 49 ∷ 44 ∷ []

abbrev pub cancel_prefix : List ℕ
cancel_prefix =
    123 ∷ 34 ∷ 95 ∷ 95 ∷ 112 ∷ 105 ∷ 112 ∷ 97 ∷ 110 ∷ 101 ∷ 68 ∷ 97 ∷ 116 ∷ 97 ∷ 67 ∷ 104 ∷ 97 ∷ 110
    ∷ 110 ∷ 101 ∷ 108 ∷ 67 ∷ 97 ∷ 110 ∷ 99 ∷ 101 ∷ 108 ∷ 34 ∷ 58 ∷ 49 ∷ 44 ∷ []

pub record Chunk : Type 0 where
  pub id : ℕ
  pub index : ℕ
  pub total : ℕ
  pub payload : ℕ

-- A property of an object in JSON: a string, a safe integer that is not negative, or anything else,
-- as where there is no such property.
pub data Property : Type 0 where
  text_value integer_value : ℕ → Property
  other_value : Property

-- The properties of an object that the framing reads.
pub record Envelope : Type 0 where
  pub chunk_marker : Property
  pub cancel_marker : Property
  pub id : Property
  pub index : Property
  pub total : Property
  pub payload : Property

pub data Json : Type 0 where
  object_value : Envelope → Json
  no_object : Json

-- The platform: UTF-8, JSON, base64, and the two regular expressions. A base64 text is a number.
-- `btoa` takes the bytes, which encodeBase64 hands it as a string of one unit for each, and `atob`
-- gives those that decodeBase64 reads back from such a string.
pub record Platform : Type 0 where
  pub encode_text : List ℕ → List ℕ
  pub decode_text : List ℕ → Option (List ℕ)
  pub stringify : Envelope → List ℕ
  pub parse : List ℕ → Option Json
  pub btoa : List ℕ → ℕ
  pub atob : ℕ → Option (List ℕ)
  pub is_base64 : ℕ → Bool
  pub valid_id : ℕ → Bool

-- The object that is sent for a chunk.
unfoldable pub chunk_envelope : Chunk → Envelope
chunk_envelope c = record {
  chunk_marker = integer_value 1;
  cancel_marker = other_value;
  id = text_value c.id;
  index = integer_value c.index;
  total = integer_value c.total;
  payload = text_value c.payload;
}

module _ (platform : Platform) where
  open platform use {encode_text, stringify, btoa, valid_id}

  -- `bytes.subarray(start, start + DATA_CHANNEL_CHUNK_PAYLOAD_BYTES)` as a chunk.
  abbrev pub chunk_at : ℕ → ℕ → List ℕ → ℕ → Chunk
  chunk_at id total bytes index = record {
    id = id;
    index = index;
    total = total;
    payload = btoa (take chunk_payload_bytes (drop (index * chunk_payload_bytes) bytes));
  }

  -- The loop over the chunks, with the rounds that are left.
  unfoldable pub encode_from : ℕ → ℕ → ℕ → List ℕ → ℕ → Result FrameError (List (List ℕ))
  encode_from zero id total bytes index = ok []
  encode_from (suc rounds) id total bytes index = do
    let message = stringify (chunk_envelope (chunk_at id total bytes index))
    throw_if (ltb max_message_bytes (length (encode_text message))) message_too_large
    rest ← encode_from rounds id total bytes (index + 1)
    ok (message ∷ rest)

  -- The frame as one message, or as its chunks.
  unfoldable pub encode_bytes : List ℕ → ℕ → List ℕ → Result FrameError (List (List ℕ))
  encode_bytes frame id bytes =
      let total = chunk_count (length bytes) in
      if leb (length bytes) chunk_payload_bytes
      then ok (frame ∷ [])
      else encode_from total id total bytes 0

  -- encodeDataChannelFrame
  unfoldable pub encode_frame : List ℕ → ℕ → Result FrameError (List (List ℕ))
  encode_frame frame id = do
    throw_if (not (valid_id id)) invalid_id
    throw_if (ltb max_frame_bytes (length (encode_text frame))) frame_too_large
    encode_bytes frame id (encode_text frame)
