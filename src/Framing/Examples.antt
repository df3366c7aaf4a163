-- ===== src/Framing/Examples.antt =====
-- The theorems on src/shared/data-channel-framing.ts with a small stand-in for the platform.
use pipane.Base.{
  ◌*◌, none, ap, sym, ◌∙◌, ◌≡◌, ◌≤◌, zero, suc, refl, arith, ok, length, take, drop, ℕ, true, false,
  some, Option, List, [], ◌∷◌, ◌++◌,
}
use pipane.Base.Dict.{get, get-empty}
use pipane.Framing.Encoder.{
  encode_frame, Platform, Property, text_value, integer_value, other_value, Json, object_value,
  chunk_prefix, cancel_prefix, chunk_envelope,
}
use pipane.Framing.Decoder.{PendingFrame, starts_with, accept_all}
use pipane.Framing.RoundTrip.{Faithful, accept_each, accept-encode_frame}
use pipane.Framing.Bounds.{Bounded, accept_all-Bounded}

abbrev sevens : ℕ → List ℕ
sevens zero = []
sevens (suc n) = 7 ∷ sevens n

abbrev number_of : Property → ℕ
number_of (text_value n) = n
number_of (integer_value n) = n
number_of other_value = 0

-- What stands behind the prefix: a chunk's four numbers, or the rest of the other prefix and an id.
abbrev parse_rest : List ℕ → Option Json
parse_rest (id ∷ index ∷ total ∷ payload ∷ []) = some (
    object_value (record {
      chunk_marker = integer_value 1;
      cancel_marker = other_value;
      id = text_value id;
      index = integer_value index;
      total = integer_value total;
      payload = text_value payload;
    }))
parse_rest (comma ∷ id ∷ []) = some (
    object_value (record {
      chunk_marker = other_value;
      cancel_marker = integer_value 1;
      id = text_value id;
      index = other_value;
      total = other_value;
      payload = other_value;
    }))
parse_rest _ = none

-- A text's bytes are its units, all bytes of a payload are sevens, and its base64 is their number.
abbrev sevens_only : Platform
sevens_only = record {
  encode_text = λ text. text;
  decode_text = λ bytes. some bytes;
  stringify = λ e.
      chunk_prefix
      ++ (number_of e.id ∷ number_of e.index ∷ number_of e.total ∷ number_of e.payload ∷ []);
  parse = λ text. parse_rest (drop 30 text);
  btoa = λ bytes. length bytes;
  atob = λ n. some (sevens n);
  is_base64 = λ payload. true;
  valid_id = λ id. true;
}

abbrev arrivals : List (List ℕ)
arrivals =
    (chunk_prefix ++ (6 ∷ 0 ∷ 2 ∷ 5 ∷ []))
    ∷ (chunk_prefix ++ (8 ∷ 0 ∷ 3 ∷ 4 ∷ []))
    ∷ (chunk_prefix ++ (6 ∷ 1 ∷ 2 ∷ 3 ∷ []))
    ∷ (cancel_prefix ++ (8 ∷ []))
    ∷ []

accept_all-Bounded_example : Bounded (accept_all sevens_only arrivals [])
accept_all-Bounded_example = accept_all-Bounded sevens_only arrivals

length-sevens : (n : ℕ) → length (sevens n) ≡ n
length-sevens zero = refl
length-sevens (suc n) = omega (arith, length-sevens n)

drop-sevens : (m n : ℕ) → (k : ℕ) × (drop m (sevens n) ≡ sevens k)
drop-sevens zero n = (n, refl)
drop-sevens (suc m) zero = (0, refl)
drop-sevens (suc m) (suc n) = drop-sevens m n

take-sevens : (m n : ℕ) → (k : ℕ) × (take m (sevens n) ≡ sevens k)
take-sevens zero n = (0, refl)
take-sevens (suc m) zero = (0, refl)
take-sevens (suc m) (suc n) = let (k, e) = take-sevens m n in (suc k, ap (λ xs. 7 ∷ xs) e)

part-sevens :
    (m j n : ℕ) → sevens (length (take m (drop j (sevens n)))) ≡ take m (drop j (sevens n))
part-sevens m j n =
    let (k, dropped) = drop-sevens j n in
    let (i, taken) = take-sevens m k in
    let e : take m (drop j (sevens n)) ≡ sevens i = ap (take m) dropped ∙ taken in
    ap (λ xs. sevens (length xs)) e ∙ ap sevens (length-sevens i) ∙ sym e

-- Two pieces.
abbrev long_frame : List ℕ
long_frame = 7 ∷ sevens 12999

sevens_only-Faithful : Faithful sevens_only long_frame 6
unfolding chunk_envelope
sevens_only-Faithful = record {
  text = refl;
  base64 = λ index h. refl;
  undone = λ index h. ap some (part-sevens 12000 (index * 12000) 13000);
  ordered = λ index h. (_, refl);
  parsed = λ index h. refl;
  measured = λ index h. omega arith;
}

long_frame_fits : length long_frame ≤ 67108864
long_frame_fits = omega (arith, length-sevens 12999)

nothing_pending : get {V = PendingFrame} 6 [] ≡ none
nothing_pending = get-empty 6

no_prefix :
    (starts_with cancel_prefix long_frame ≡ false) × (starts_with chunk_prefix long_frame ≡ false)
unfolding starts_with
no_prefix = (refl, refl)

accept-encode_frame_example :
    (messages : List (List ℕ)) × (encode_frame sevens_only long_frame 6 ≡ ok messages)
    × (accept_each sevens_only messages [] ≡ (ok (long_frame ∷ []), []))
accept-encode_frame_example =
    accept-encode_frame sevens_only long_frame 6 [] sevens_only-Faithful refl long_frame_fits
      no_prefix.0 no_prefix.1 nothing_pending (omega arith)
