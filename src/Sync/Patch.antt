-- ===== src/Sync/Patch.antt =====
-- Patches of src/shared/jsonl-sync.ts: computePatches and applyPatches. A text is the list of its
-- UTF-16 units.
use pipane.Base.{
  ℕ, zero, suc, ◌+◌, ◌-◌, Bool, true, false, ◌&&◌, List, [], ◌∷◌, ◌++◌, if◌then◌else◌, ◌==◌, same,
  length, take, drop, get_elem?,
}
use Prim.Native.Nat.{min}

abbrev pub Text : Type 0
Text = List ℕ

pub record Patch : Type 0 where
  pub offset : ℕ
  pub delete_count : ℕ
  pub insert : Text

-- `a === b`
unfoldable pub text_eq : Text → Text → Bool
text_eq [] [] = true
text_eq [] (y ∷ ys) = false
text_eq (x ∷ xs) [] = false
text_eq (x ∷ xs) (y ∷ ys) = x == y && text_eq xs ys

-- The loop for the common prefix, with the rounds that `minLen` leaves.
unfoldable pub prefix_from : ℕ → ℕ → Text → Text → ℕ
prefix_from zero len old new = len
prefix_from (suc rounds) len old new =
    let rest = prefix_from rounds (len + 1) old new in
    if same (get_elem? old len) (get_elem? new len) then rest else len

-- The loop for the common suffix, with the rounds that `maxSuffix` leaves.
unfoldable pub suffix_from : ℕ → ℕ → Text → Text → ℕ
suffix_from zero len old new = len
suffix_from (suc rounds) len old new =
    let rest = suffix_from rounds (len + 1) old new in
    if same (get_elem? old (length old - 1 - len)) (get_elem? new (length new - 1 - len))
    then rest
    else len

unfoldable pub prefix_len : Text → Text → ℕ
unfolding prefix_from
prefix_len old new = prefix_from (min (length old) (length new)) 0 old new

unfoldable pub suffix_len : Text → Text → ℕ
unfolding suffix_from prefix_len
suffix_len old new = suffix_from (min (length old) (length new) - prefix_len old new) 0 old new

-- `text.slice(from, to)` for numbers that are not negative
abbrev pub slice : ℕ → ℕ → Text → Text
slice from to text = take (to - from) (drop from text)

-- The one patch, or none where it would do nothing.
unfoldable pub patch_between : ℕ → ℕ → Text → Text → List Patch
patch_between prefix suffix old new =
    let deleted = length old - prefix - suffix in
    let insert = slice prefix (length new - suffix) new in
    if deleted == 0 && length insert == 0
    then []
    else record { offset = prefix; delete_count = deleted; insert = insert } ∷ []

-- computePatches
unfoldable pub compute_patches : Text → Text → List Patch
unfolding text_eq prefix_len suffix_len patch_between
compute_patches old new =
    if text_eq old new then [] else patch_between (prefix_len old new) (suffix_len old new) old new

unfoldable pub apply_patch : Text → Patch → Text
apply_patch text p = take p.offset text ++ p.insert ++ drop (p.offset + p.delete_count) text

-- applyPatches
unfoldable pub apply_patches : Text → List Patch → Text
unfolding apply_patch
apply_patches text [] = text
apply_patches text (p ∷ ps) = apply_patches (apply_patch text p) ps
