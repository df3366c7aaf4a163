-- ===== src/Framing/Pieces.antt =====
-- The pieces of a frame's bytes, src/shared/data-channel-framing.ts: what one more adds.
use pipane.Base.{
  ℕ, zero, suc, ◌≡◌, ◌≤◌, ◌<◌, ◌+◌, refl, true, false, none, some, List, [], ◌∷◌, ◌++◌, arith, ok,
  length, take, drop, sym, ◌∙◌, append_assoc, append-nil, ap,
}
use pipane.Base.Dict.{Dict, get, put, remove, get-put}
use pipane.Framing.Encoder.{
  Chunk, Platform, object_value, chunk_envelope, chunk_prefix, cancel_prefix, max_frame_bytes,
}
use pipane.Framing.Decoder.{
  PendingFrame, decode_base64, starts_with, chunk_of, open_frame, extend_frame, assemble,
}

pub extend_frame-ok :
    (platform : Platform) (c : Chunk) (bytes : List ℕ) (p : PendingFrame)
    → decode_base64 platform c.payload ≡ ok bytes
    → p.total ≡ c.total
    → p.next_index ≡ c.index
    → 0 < length bytes
    → length bytes ≤ 12000
    → p.byte_length + length bytes ≤ max_frame_bytes
    → extend_frame platform c p
      ≡ ok (record {
        total = p.total;
        next_index = p.next_index + 1;
        byte_length = p.byte_length + length bytes;
        chunks = p.chunks ++ (bytes ∷ []);
      })
unfolding extend_frame
extend_frame-ok platform c bytes p decoded same_total same_index some_bytes few_bytes fits =
    ground arith

-- A chunk's message is no cancellation.
pub chunk-starts :
    (rest : List ℕ)
    → (starts_with cancel_prefix (chunk_prefix ++ rest) ≡ false)
      × (starts_with chunk_prefix (chunk_prefix ++ rest) ≡ true)
unfolding starts_with
chunk-starts rest = (refl, refl)

pub chunk_of-envelope : (c : Chunk) → chunk_of (object_value (chunk_envelope c)) ≡ ok c
unfolding chunk_of chunk_envelope
chunk_of-envelope c = refl

pub remove-put :
    (id : ℕ) (p : PendingFrame) (m : Dict PendingFrame) → remove id (put id p m) ≡ remove id m
unfolding put remove
remove-put id p [] = ground arith
remove-put id p ((j, x) ∷ m) = ground (arith, remove-put id p m)

pub remove-absent : (id : ℕ) (m : Dict PendingFrame) → get id m ≡ none → remove id m ≡ m
unfolding get remove
remove-absent id [] e = refl
remove-absent id ((j, x) ∷ m) e = ground (arith, remove-absent id m)

pub open_frame-put :
    (id : ℕ) (c : Chunk) (q : PendingFrame) (m : Dict PendingFrame)
    → open_frame (put id q m) c (get id (put id q m)) ≡ ok q
unfolding open_frame
open_frame-put id c q m =
    let got : get id (put id q m) ≡ some q = grind (arith, get-put) in rw got refl

pub assemble_one :
    (parts : List (List ℕ)) (part : List ℕ)
    → assemble (parts ++ (part ∷ [])) ≡ assemble parts ++ part
unfolding assemble
assemble_one [] part = append-nil part
assemble_one (first ∷ parts) part =
    ap (λ xs. first ++ xs) (assemble_one parts part)
    ∙ sym (append_assoc first (assemble parts) part)

take_nil : (m : ℕ) → take {A = ℕ} m [] ≡ []
take_nil zero = refl
take_nil (suc m) = refl

-- The first pieces of a list, and one more.
pub take_more : (m n : ℕ) (xs : List ℕ) → take n xs ++ take m (drop n xs) ≡ take (n + m) xs
take_more m zero xs = ground arith
take_more m (suc n) [] = take_nil m ∙ sym (take_nil (suc n + m))
take_more m (suc n) (x ∷ xs) =
    let e : suc n + m ≡ suc (n + m) = omega arith in rw e (ap (λ r. x ∷ r) (take_more m n xs))

pub take_all : (n : ℕ) (xs : List ℕ) → length xs ≤ n → take n xs ≡ xs
take_all zero [] h = refl
take_all zero (x ∷ xs) h = absurd (omega arith)
take_all (suc n) [] h = refl
take_all (suc n) (x ∷ xs) h = ap (λ r. x ∷ r) (take_all n xs (omega arith))
