-- ===== src/Framing/Bounds.antt =====
-- The memory that DataChannelFrameDecoder, src/shared/data-channel-framing.ts, may hold.
use pipane.Base.{
  subst, ◌==◌, ℕ, ◌≡◌, ◌≤◌, ◌<◌, ◌+◌, refl, true, some, List, [], ◌∷◌, ◌++◌, arith, ok, length,
  Result-cases, Option-cases, Bool-cases, is_some, inl, inr, ltb, if◌then◌else◌,
}
use pipane.Base.Dict.{Dict, get, put, remove, get-put, get-remove, get-empty}
use pipane.Framing.Encoder.{
  Chunk, Platform, max_frame_bytes, max_pending_frames, max_chunks_per_frame,
}
use pipane.Framing.Decoder.{
  PendingFrame, Message, plain, malformed, cancels, carries, decode_base64, read_message,
  open_frame, extend_frame, assemble, check_chunk, settle_frame, accept_chunk, accept_message,
  accept, accept_all,
}

-- A pending frame is incomplete and within the limits, and its counters say what it holds.
pub record Partial (p : PendingFrame) : Type 0 where
  pub incomplete : p.next_index < p.total
  pub few_chunks : p.total ≤ max_chunks_per_frame
  pub few_bytes : p.byte_length ≤ max_frame_bytes
  pub counted : p.next_index ≡ length p.chunks
  pub measured : p.byte_length ≡ length (assemble p.chunks)

pub record Bounded (pending : Dict PendingFrame) : Type 0 where
  pub few : length pending ≤ max_pending_frames
  pub partial : (id : ℕ) (p : PendingFrame) → get id pending ≡ some p → Partial p

length-put :
    (id : ℕ) (p : PendingFrame) (m : Dict PendingFrame)
    → length (put id p m) ≡ (if is_some (get id m) then length m else length m + 1)
unfolding get put
length-put id p [] = refl
length-put id p ((j, q) ∷ m) = ground (arith, length-put id p m)

length-remove : (id : ℕ) (m : Dict PendingFrame) → length (remove id m) ≤ length m
unfolding remove
length-remove id [] = omega arith
length-remove id ((j, q) ∷ m) = ground (arith, length-remove id m)

length-append : (xs ys : List ℕ) → length (xs ++ ys) ≡ length xs + length ys
length-append [] ys = omega arith
length-append (x ∷ xs) ys = omega (arith, length-append xs ys)

length-assemble_one :
    (parts : List (List ℕ)) (part : List ℕ)
    → length (assemble (parts ++ (part ∷ []))) ≡ length (assemble parts) + length part
unfolding assemble
length-assemble_one [] part = omega (arith, length-append part [])
length-assemble_one (first ∷ parts) part = omega (
  arith,
  length-assemble_one parts part,
  length-append first (assemble parts),
  length-append first (assemble (parts ++ (part ∷ []))),
)

length-parts_one :
    (parts : List (List ℕ)) (part : List ℕ) → length (parts ++ (part ∷ [])) ≡ length parts + 1
length-parts_one [] part = refl
length-parts_one (first ∷ parts) part = omega (arith, length-parts_one parts part)

empty-Bounded : Bounded []
empty-Bounded = record { few = omega arith; partial = λ id p e. grind (arith, get-empty) }

remove-Bounded : (id : ℕ) (m : Dict PendingFrame) → Bounded m → Bounded (remove id m)
remove-Bounded id m v = record {
  few = omega (arith, v.few, length-remove id m);
  partial = λ j p e. grind (arith, v.partial j p, get-remove);
}

-- What a chunk leaves of its frame, before it is known to be complete.
record Extended (pending : Dict PendingFrame) (id : ℕ) (p : PendingFrame) : Type 0 where
  known : length (put id p pending) ≤ max_pending_frames
  chunks_fit : p.total ≤ max_chunks_per_frame
  bytes_fit : p.byte_length ≤ max_frame_bytes
  chunks_counted : p.next_index ≡ length p.chunks
  bytes_measured : p.byte_length ≡ length (assemble p.chunks)

module _ (platform : Platform) where
  extend_frame-made :
      (c : Chunk) (p q : PendingFrame)
      → extend_frame platform c p ≡ ok q
      → (bytes : List ℕ) × (q ≡ record {
        total = p.total;
        next_index = p.next_index + 1;
        byte_length = p.byte_length + length bytes;
        chunks = p.chunks ++ (bytes ∷ []);
      })
        × (p.byte_length + length bytes ≤ max_frame_bytes)
        × (p.total ≡ c.total)
  unfolding extend_frame
  extend_frame-made c p q e = elim (Result-cases (decode_base64 platform c.payload)) [
    | inr (x, bad) ↦ absurd (ground (arith, bad))
    | inl (bytes, good) ↦ (bytes, ground (arith, good), ground (arith, good), ground (arith, good))
  ]

  extend-Extended :
      (c : Chunk) (m : Dict PendingFrame) (p q : PendingFrame) (r : Chunk)
      → Bounded m
      → check_chunk platform c ≡ ok r
      → open_frame m c (get c.id m) ≡ ok p
      → extend_frame platform c p ≡ ok q
      → Extended m c.id q
  unfolding check_chunk open_frame
  extend-Extended c m p q r v checked opened extended =
      let (bytes, made, fits, same_total) = extend_frame-made c p q extended in
      elim (Option-cases (get c.id m)) [
        | inl new ↦ record {
          known = ground (arith, length-put c.id q m);
          chunks_fit = ground (arith, made, same_total);
          bytes_fit = ground (arith, made, fits);
          chunks_counted = ground (arith, made, length-parts_one p.chunks bytes);
          bytes_measured =
              unfold assemble in ground (arith, made, length-assemble_one p.chunks bytes);
        }
        | inr (old, found) ↦
            let part : Partial old = v.partial c.id old found in
            record {
              known = ground (arith, length-put c.id q m, v.few);
              chunks_fit = ground (arith, part.few_chunks, made);
              bytes_fit = ground (arith, made, fits);
              chunks_counted = ground (arith, part.counted, made, length-parts_one p.chunks bytes);
              bytes_measured =
                  ground (arith, part.measured, made, length-assemble_one p.chunks bytes);
            }
      ]

  settle_frame-Bounded :
      (id : ℕ) (p : PendingFrame) (m : Dict PendingFrame)
      → Bounded m
      → Extended m id p
      → Bounded (settle_frame platform id p m).1
  unfolding settle_frame
  settle_frame-Bounded id p m v x =
      let whole : (ltb p.next_index p.total ≡ true) → Partial p = λ more. record {
        incomplete = ground arith;
        few_chunks = x.chunks_fit;
        few_bytes = x.bytes_fit;
        counted = x.chunks_counted;
        measured = x.bytes_measured;
      } in
      elim (Bool-cases (ltb p.next_index p.total)) [
        | inl more ↦
            rw (more, settle_frame)
              (record {
                few = x.known;
                partial = λ j q e. elim (Bool-cases (id == j)) [
                  | inl here ↦
                      let same_frame : p ≡ q = grind (arith, get-put) in
                      subst Partial same_frame (whole more)
                  | inr there ↦ v.partial j q (grind (arith, get-put))
                ];
              })
        | inr done ↦
            rw (done, settle_frame)
              (elim (Option-cases (platform.decode_text (assemble p.chunks))) [
                | inl bad ↦ rw bad empty-Bounded
                | inr (text, good) ↦ rw good (remove-Bounded id m v)
              ])
      ]

  accept_chunk-Bounded :
      (c : Chunk) (m : Dict PendingFrame) → Bounded m → Bounded (accept_chunk platform c m).1
  unfolding accept_chunk
  accept_chunk-Bounded c m v = elim (Result-cases (check_chunk platform c)) [
    | inr (x, bad) ↦ rw (bad, accept_chunk) empty-Bounded
    | inl (r, checked) ↦ elim (Result-cases (open_frame m c (get c.id m))) [
      | inr (x, bad) ↦ rw (checked, accept_chunk) (rw bad empty-Bounded)
      | inl (p, opened) ↦ elim (Result-cases (extend_frame platform c p)) [
        | inr (x, bad) ↦ rw (checked, accept_chunk) (rw opened (rw bad empty-Bounded))
        | inl (q, extended) ↦
            rw (checked, accept_chunk)
              (rw opened (
                rw extended (
                  settle_frame-Bounded c.id q m v
                    (extend-Extended c m p q r v checked opened extended))))
      ]
    ]
  ]

  accept_message-Bounded :
      (text : List ℕ) (message : Message) (m : Dict PendingFrame)
      → Bounded m
      → Bounded (accept_message platform text message m).1
  unfolding accept_message
  accept_message-Bounded text plain m v = v
  accept_message-Bounded text malformed m v = empty-Bounded
  accept_message-Bounded text (carries c) m v = accept_chunk-Bounded c m v
  accept_message-Bounded text (cancels id) m v = elim (Bool-cases (platform.valid_id id)) [
    | inl good ↦ rw good (remove-Bounded id m v)
    | inr bad ↦ rw bad empty-Bounded
  ]

  accept_all-from :
      (texts : List (List ℕ)) (m : Dict PendingFrame)
      → Bounded m
      → Bounded (accept_all platform texts m)
  unfolding accept_all accept
  accept_all-from [] m v = v
  accept_all-from (text ∷ texts) m v =
      accept_all-from texts _ (accept_message-Bounded text (read_message platform text) m v)

  -- Whatever messages arrive at a new decoder, it holds at most four incomplete frames, each within
  -- the limits of chunks and bytes, and their counters say what they hold.
  pub accept_all-Bounded : (texts : List (List ℕ)) → Bounded (accept_all platform texts [])
  accept_all-Bounded texts = accept_all-from texts [] empty-Bounded
