-- ===== src/Framing/RoundTrip.antt =====
-- What the decoder of src/shared/data-channel-framing.ts makes of the encoder's messages.
use pipane.Base.{
  ℕ, zero, suc, ◌≡◌, ◌≤◌, ◌<◌, ◌+◌, ◌*◌, ◌/◌, ◌-◌, refl, true, false, none, some, Option, List, [],
  ◌∷◌, ◌++◌, arith, Result, ok, ◌>>=◌, length, take, drop, subst, sym, ◌∙◌, length-take,
  length-drop, length-append, ap, ltb, leb, Bool-cases, inl, inr,
}
use pipane.Base.Dict.{Dict, get, put, remove}
use pipane.Framing.Encoder.{
  FrameError, Chunk, Platform, object_value, chunk_envelope, chunk_prefix, cancel_prefix, chunk_at,
  chunk_count, chunk_payload_bytes, max_frame_bytes, max_message_bytes, max_pending_frames,
  encode_from, encode_bytes, encode_frame,
}
use pipane.Framing.Decoder.{
  PendingFrame, carries, decode_base64, read_message, starts_with, open_frame, extend_frame,
  assemble, check_chunk, settle_frame, accept_chunk, accept_message, accept,
}
use pipane.Framing.Pieces.{
  chunk-starts, chunk_of-envelope, extend_frame-ok, remove-put, remove-absent, open_frame-put,
  assemble_one, take_more, take_all,
}

abbrev add_frame : Option (List ℕ) → List (List ℕ) → List (List ℕ)
add_frame none frames = frames
add_frame (some frame) frames = frame ∷ frames

-- The frames that a decoder gives, and what it keeps, where no message is refused.
pub accept_each :
    Platform
    → List (List ℕ)
    → Dict PendingFrame
    → Result FrameError (List (List ℕ)) × Dict PendingFrame
accept_each platform [] pending = (ok [], pending)
accept_each platform (text ∷ texts) pending =
    let (found, kept) = accept platform text pending in
    let (rest, final) = accept_each platform texts kept in
    (found >>= λ whole. (rest >>= λ frames. ok (add_frame whole frames)), final)

accept_each-next :
    (platform : Platform) (text : List ℕ) (texts : List (List ℕ)) (m m' m'' : Dict PendingFrame)
    (whole : Option (List ℕ)) (frames : List (List ℕ))
    → accept platform text m ≡ (ok whole, m')
    → accept_each platform texts m' ≡ (ok frames, m'')
    → accept_each platform (text ∷ texts) m ≡ (ok (add_frame whole frames), m'')
unfolding accept_each
accept_each-next platform text texts m m' m'' whole frames e f = rw e (rw f refl)

module _ (platform : Platform) (frame : List ℕ) (id : ℕ) where
  abbrev bytes : List ℕ
  bytes = platform.encode_text frame

  abbrev total : ℕ
  total = chunk_count (length bytes)

  abbrev piece : ℕ → Chunk
  piece index = chunk_at platform id total bytes index

  -- The bytes of a piece.
  abbrev part : ℕ → List ℕ
  part index = take chunk_payload_bytes (drop (index * chunk_payload_bytes) bytes)

  abbrev message : ℕ → List ℕ
  message index = platform.stringify (chunk_envelope (piece index))

  -- What the platform's functions do with this frame and its pieces: UTF-8 loses nothing; btoa gives
  -- base64 that atob undoes; JSON.stringify writes the properties in their order, and JSON.parse
  -- undoes it; beside four bytes for three of the payload, a message takes at most 384.
  pub record Faithful : Type 0 where
    pub text : platform.decode_text bytes ≡ some frame
    pub base64 :
        (index : ℕ) → index < total → platform.is_base64 (platform.btoa (part index)) ≡ true
    pub undone :
        (index : ℕ) → index < total → platform.atob (platform.btoa (part index)) ≡ some (part index)
    pub ordered :
        (index : ℕ) → index < total → (rest : List ℕ) × (message index ≡ chunk_prefix ++ rest)
    pub parsed :
        (index : ℕ)
        → index < total
        → platform.parse (message index) ≡ some (object_value (chunk_envelope (piece index)))
    pub measured :
        (index : ℕ)
        → index < total
        → length (platform.encode_text (message index)) ≤ 384 + 4 * ((length (part index) + 2) / 3)

  abbrev messages_from : ℕ → ℕ → List (List ℕ)
  messages_from zero index = []
  messages_from (suc rounds) index = message index ∷ messages_from rounds (index + 1)

  -- A pending frame that holds the first pieces.
  record Holds (index : ℕ) (p : PendingFrame) : Type 0 where
    all : p.total ≡ total
    next : p.next_index ≡ index
    measured : p.byte_length ≡ length (assemble p.chunks)
    held : assemble p.chunks ≡ take (index * chunk_payload_bytes) bytes

  module _ (good : Faithful) (known : platform.valid_id id ≡ true)
      (long : chunk_payload_bytes < length bytes) (short : length bytes ≤ max_frame_bytes) where
    message-fits :
        (index : ℕ)
        → index < total
        → length (platform.encode_text (message index)) ≤ max_message_bytes
    message-fits index h =
        omega (
          arith,
          good.measured index h,
          length-take 12000 (drop (index * chunk_payload_bytes) bytes),
        )

    encode_from-ok :
        (rounds index : ℕ)
        → index + rounds ≡ total
        → encode_from platform rounds id total bytes index ≡ ok (messages_from rounds index)
    unfolding encode_from
    encode_from-ok zero index e = refl
    encode_from-ok (suc rounds) index e =
        let fits = message-fits index (omega arith) in
        let rest = encode_from-ok rounds (index + 1) (omega arith) in ground (arith, fits, rest)

    part-length :
        (index : ℕ) → index < total → (0 < length (part index)) × (length (part index) ≤ 12000)
    part-length index h =
        let taken = length-take 12000 (drop (index * chunk_payload_bytes) bytes) in
        let dropped = length-drop (index * chunk_payload_bytes) bytes in
        (omega (arith, taken, dropped), omega (arith, taken))

    decode_part :
        (index : ℕ) → index < total → decode_base64 platform (piece index).payload ≡ ok (part index)
    unfolding decode_base64
    decode_part index h =
        let pattern = good.base64 index h in
        let back = good.undone index h in ground (arith, pattern, back)

    carried :
        (index : ℕ) → index < total → read_message platform (message index) ≡ carries (piece index)
    unfolding read_message
    carried index h =
        let (rest, ordered) = good.ordered index h in
        let starts = chunk-starts rest in
        let not_cancel : starts_with cancel_prefix (message index) ≡ false =
          ap (starts_with cancel_prefix) ordered ∙ starts.0 in
        let is_chunk : starts_with chunk_prefix (message index) ≡ true =
          ap (starts_with chunk_prefix) ordered ∙ starts.1 in
        rw not_cancel
          (rw is_chunk (rw (good.parsed index h) (rw (chunk_of-envelope (piece index)) refl)))

    extend_piece :
        (index : ℕ) (p : PendingFrame)
        → index < total
        → Holds index p
        → (q : PendingFrame) × (extend_frame platform (piece index) p ≡ ok q) × Holds (index + 1) q
    extend_piece index p h v =
        let bits = part index in
        let decoded = decode_part index h in
        let (some_bytes, few_bytes) = part-length index h in
        let joined : assemble p.chunks ++ bits ≡ take ((index + 1) * chunk_payload_bytes) bytes =
          let e : index * chunk_payload_bytes + chunk_payload_bytes
              ≡ (index + 1) * chunk_payload_bytes =
            omega arith in
          subst (λ xs. xs ++ bits ≡ take ((index + 1) * chunk_payload_bytes) bytes) (sym v.held)
            (take_more chunk_payload_bytes (index * chunk_payload_bytes) bytes
              ∙ ap (λ n. take n bytes) e) in
        let whole = assemble_one p.chunks bits in
        let counted = length-append (assemble p.chunks) bits in
        let limit = length-take ((index + 1) * chunk_payload_bytes) bytes in
        let fits : p.byte_length + length bits ≤ max_frame_bytes =
          omega (arith, v.measured, counted, ap length joined, limit, short) in
        (
          record {
            total = p.total;
            next_index = p.next_index + 1;
            byte_length = p.byte_length + length bits;
            chunks = p.chunks ++ (bits ∷ []);
          },
          extend_frame-ok platform (piece index) bits p decoded v.all v.next some_bytes few_bytes
              fits,
          record {
            all = v.all;
            next = ap (λ n. n + 1) v.next;
            measured = omega (arith, v.measured, counted, ap length whole);
            held = whole ∙ joined;
          },
        )

    check_piece :
        (index : ℕ) → index < total → check_chunk platform (piece index) ≡ ok (piece index)
    unfolding check_chunk
    check_piece index h = ground (arith, known, long, short)

    -- A piece that comes next, whatever else is pending.
    next_piece :
        (index : ℕ) (p : PendingFrame) (m : Dict PendingFrame)
        → index < total
        → open_frame m (piece index) (get id m) ≡ ok p
        → Holds index p
        → (q : PendingFrame) × (accept platform (message index) m ≡ settle_frame platform id q m)
          × Holds (index + 1) q
    unfolding accept accept_message accept_chunk
    next_piece index p m h opened v =
        let (q, extended, v') = extend_piece index p h v in
        let read = carried index h in
        let checked = check_piece index h in
        (q, rw read (rw (checked, accept_chunk) (rw opened (rw extended refl))), v')

    settle_more :
        (index : ℕ) (q : PendingFrame) (m : Dict PendingFrame)
        → index < total
        → Holds index q
        → settle_frame platform id q m ≡ (ok none, put id q m)
    unfolding settle_frame
    settle_more index q m h v =
        let more : ltb q.next_index q.total ≡ true = ground (arith, v.all, v.next) in rw more refl

    settle_last :
        (q : PendingFrame) (m : Dict PendingFrame)
        → Holds total q
        → settle_frame platform id q m ≡ (ok (some frame), remove id m)
    unfolding settle_frame
    settle_last q m v =
        let done : ltb q.next_index q.total ≡ false = ground (arith, v.all, v.next) in
        let all : assemble q.chunks ≡ bytes =
          v.held ∙ take_all (total * chunk_payload_bytes) bytes (omega arith) in
        let text = good.text in rw done (rw all (rw text refl))

    -- The pieces from one on that the decoder has not seen yet.
    receive_from :
        (rounds index : ℕ) (p : PendingFrame) (m pending : Dict PendingFrame)
        → index + suc rounds ≡ total
        → open_frame m (piece index) (get id m) ≡ ok p
        → Holds index p
        → remove id m ≡ pending
        → accept_each platform (messages_from (suc rounds) index) m ≡ (ok (frame ∷ []), pending)
    unfolding accept_each
    receive_from zero index p m pending e opened v absent =
        let (q, taken, v') = next_piece index p m (omega arith) opened v in
        let v'' = subst (λ n. Holds n q) e v' in
        accept_each-next platform _ [] m pending pending (some frame) []
          (taken ∙ settle_last q m v'' ∙ ap (λ x. (ok (some frame), x)) absent) refl
    receive_from (suc rounds) index p m pending e opened v absent =
        let (q, taken, v') = next_piece index p m (omega arith) opened v in
        accept_each-next platform _ (messages_from (suc rounds) (index + 1)) m (put id q m) pending
          none (frame ∷ []) (taken ∙ settle_more (index + 1) q m (omega arith) v')
          (receive_from rounds (index + 1) q (put id q m) pending (omega arith)
            (open_frame-put id (piece (index + 1)) q m) v' (remove-put id q m ∙ absent))

    first_opened :
        (pending : Dict PendingFrame)
        → get id pending ≡ none
        → length pending < max_pending_frames
        → open_frame pending (piece 0) (get id pending)
          ≡ ok (record { total = total; next_index = 0; byte_length = 0; chunks = [] })
    unfolding open_frame
    first_opened pending absent few =
        let room : leb max_pending_frames (length pending) ≡ false = ground (arith, few) in
        rw absent (rw room refl)

    -- A frame of several pieces.
    receive_all :
        (pending : Dict PendingFrame)
        → get id pending ≡ none
        → length pending < max_pending_frames
        → accept_each platform (messages_from total 0) pending ≡ (ok (frame ∷ []), pending)
    unfolding assemble
    receive_all pending absent few =
        let first : PendingFrame = record {
          total = total;
          next_index = 0;
          byte_length = 0;
          chunks = [];
        } in
        let e : suc (total - 1) ≡ total = omega (arith, long) in
        subst (λ n. accept_each platform (messages_from n 0) pending ≡ (ok (frame ∷ []), pending)) e
          (receive_from (total - 1) 0 first pending pending (omega (arith, long))
            (first_opened pending absent few)
            (record { all = refl; next = refl; measured = refl; held = refl })
            (remove-absent id pending absent))

  receive_whole :
      (pending : Dict PendingFrame)
      → starts_with cancel_prefix frame ≡ false
      → starts_with chunk_prefix frame ≡ false
      → accept_each platform (frame ∷ []) pending ≡ (ok (frame ∷ []), pending)
  unfolding accept accept_message accept_each read_message
  receive_whole pending no_cancel no_chunk =
      accept_each-next platform frame [] pending pending pending (some frame) []
        (rw no_cancel (rw no_chunk refl)) refl

  -- Where the platform's UTF-8, JSON and base64 lose nothing of a frame and its pieces, and a message
  -- takes at most 384 bytes beside its payload in base64: a frame of at most 64 MiB with a good id,
  -- which does not start like a chunk or a cancellation, is encoded, as one message or as its
  -- pieces; and a decoder that has room, and nothing pending under the id, gives exactly that frame
  -- for these messages and keeps what it had.
  pub accept-encode_frame :
      (pending : Dict PendingFrame)
      → Faithful
      → platform.valid_id id ≡ true
      → length bytes ≤ max_frame_bytes
      → starts_with cancel_prefix frame ≡ false
      → starts_with chunk_prefix frame ≡ false
      → get id pending ≡ none
      → length pending < max_pending_frames
      → (messages : List (List ℕ)) × (encode_frame platform frame id ≡ ok messages)
        × (accept_each platform messages pending ≡ (ok (frame ∷ []), pending))
  unfolding encode_frame encode_bytes
  accept-encode_frame pending good known short no_cancel no_chunk absent few =
      let fits : ltb max_frame_bytes (length bytes) ≡ false = ground (arith, short) in
      elim (Bool-cases (leb (length bytes) chunk_payload_bytes)) [
        | inl one ↦
            (frame ∷ [], rw known (rw fits (rw one refl)), receive_whole pending no_cancel no_chunk)
        | inr many ↦
            let long : chunk_payload_bytes < length bytes = ground (arith, many) in
            (
              messages_from total 0,
              rw known
                  (rw fits (rw many (encode_from-ok good known long short total 0 (omega arith)))),
              receive_all good known long short pending absent few,
            )
      ]
