-- ===== src/Sync/RoundTrip.antt =====
-- A patch that was computed between two texts turns the first into the second.
use pipane.Base.{
  ◌&&◌, drop-length, ℕ, zero, suc, ◌+◌, ◌-◌, ◌≤◌, ◌<◌, ◌≡◌, refl, sym, ap, ◌∙◌, true, some, [], ◌∷◌,
  ◌++◌, ◌==◌, same, length, take, drop, get_elem?, arith, Bool-cases, inl, inr, take-append-drop,
  drop-length, drop-drop, take-suc, drop_cons, get_elem?-some, append_assoc,
}
use Prim.Native.Nat.{min}
use pipane.Sync.Patch.{
  Text, text_eq, prefix_from, suffix_from, prefix_len, suffix_len, slice, patch_between,
  compute_patches, apply_patches,
}

text_eq-eq : (xs ys : Text) → text_eq xs ys ≡ true → xs ≡ ys
unfolding text_eq
text_eq-eq [] [] h = refl
text_eq-eq [] (y ∷ ys) h = cc
text_eq-eq (x ∷ xs) [] h = cc
text_eq-eq (x ∷ xs) (y ∷ ys) h = ground (arith, text_eq-eq xs ys)

-- The texts agree before the place where the loop for the prefix stops.
prefix_from-take :
    (rounds len : ℕ) (old new : Text)
    → len + rounds ≤ length old
    → len + rounds ≤ length new
    → take len old ≡ take len new
    → (take (prefix_from rounds len old new) old ≡ take (prefix_from rounds len old new) new)
      × (prefix_from rounds len old new ≤ len + rounds)
unfolding prefix_from
prefix_from-take zero len old new a b h = (h, omega arith)
prefix_from-take (suc rounds) len old new a b h =
    let (x, ex) = get_elem?-some old len (omega arith) in
    let (y, ey) = get_elem?-some new len (omega arith) in
    elim (Bool-cases (same (get_elem? old len) (get_elem? new len))) [
      | inl equal ↦
          let e : len + 1 ≡ suc len = omega arith in
          let agree : take (len + 1) old ≡ take (len + 1) new =
            rw e (ground (arith, take-suc old len x ex, take-suc new len y ey)) in
          let (taken, bound) =
            prefix_from-take rounds (len + 1) old new (omega arith) (omega arith) agree in
          rw equal (taken, omega arith)
      | inr other ↦ rw other (h, omega arith)
    ]

-- One more unit of a common suffix.
suffix_step :
    (old new : Text) (len x y : ℕ)
    → len < length old
    → len < length new
    → get_elem? old (length old - 1 - len) ≡ some x
    → get_elem? new (length new - 1 - len) ≡ some y
    → drop (length old - len) old ≡ drop (length new - len) new
    → x ≡ y
    → drop (length old - (len + 1)) old ≡ drop (length new - (len + 1)) new
suffix_step old new len x y a b ex ey h e =
    let i : length old - (len + 1) ≡ length old - 1 - len = omega arith in
    let j : length new - (len + 1) ≡ length new - 1 - len = omega arith in
    let i' : suc (length old - 1 - len) ≡ length old - len = omega arith in
    let j' : suc (length new - 1 - len) ≡ length new - len = omega arith in
    rw (i, j, drop_cons old _ x ex, drop_cons new _ y ey, i', j', h, e)

-- The texts agree behind the place where the loop for the suffix stops.
suffix_from-drop :
    (rounds len : ℕ) (old new : Text)
    → len + rounds ≤ length old
    → len + rounds ≤ length new
    → drop (length old - len) old ≡ drop (length new - len) new
    → (drop (length old - suffix_from rounds len old new) old
        ≡ drop (length new - suffix_from rounds len old new) new)
      × (suffix_from rounds len old new ≤ len + rounds)
unfolding suffix_from
suffix_from-drop zero len old new a b h = (h, omega arith)
suffix_from-drop (suc rounds) len old new a b h =
    let i = length old - 1 - len in
    let j = length new - 1 - len in
    let (x, ex) = get_elem?-some old i (omega arith) in
    let (y, ey) = get_elem?-some new j (omega arith) in
    elim (Bool-cases (same (get_elem? old i) (get_elem? new j))) [
      | inl equal ↦
          let agree : drop (length old - (len + 1)) old ≡ drop (length new - (len + 1)) new =
            suffix_step old new len x y (omega arith) (omega arith) ex ey h (ground arith) in
          let (dropped, bound) =
            suffix_from-drop rounds (len + 1) old new (omega arith) (omega arith) agree in
          rw equal (dropped, omega arith)
      | inr other ↦ rw other (h, omega arith)
    ]

-- A text is its first p units, the units up to q and the rest.
split_at : (p q : ℕ) (xs : Text) → p ≤ q → take p xs ++ slice p q xs ++ drop q xs ≡ xs
split_at p q xs h =
    let e : p + (q - p) ≡ q = omega arith in
    append_assoc (take p xs) (slice p q xs) (drop q xs)
    ∙ ap (λ r. take p xs ++ r)
        (ap (λ (n : ℕ). slice p q xs ++ drop n xs) (sym e)
          ∙ ap (λ r. slice p q xs ++ r) (sym (drop-drop (q - p) p xs))
          ∙ take-append-drop (q - p) (drop p xs))
    ∙ take-append-drop p xs

-- What the two loops find: a prefix and a suffix in common that do not overlap.
record Common (p s : ℕ) (old new : Text) : Type 0 where
  before : take p old ≡ take p new
  behind : drop (length old - s) old ≡ drop (length new - s) new
  fits_old : p + s ≤ length old
  fits_new : p + s ≤ length new

drop_all : (xs : Text) → drop (length xs - 0) xs ≡ []
drop_all xs = let e : length xs - 0 ≡ length xs = omega arith in rw e (drop-length xs)

loops-Common : (old new : Text) → Common (prefix_len old new) (suffix_len old new) old new
unfolding prefix_len suffix_len
loops-Common old new =
    let ends : drop (length old - 0) old ≡ drop (length new - 0) new =
      drop_all old ∙ sym (drop_all new) in
    let (before, p-le) =
      prefix_from-take (min (length old) (length new)) 0 old new (omega arith) (omega arith) refl in
    let (behind, s-le) =
      suffix_from-drop (min (length old) (length new) - prefix_len old new) 0 old new (omega arith)
        (omega arith) ends in
    record { before = before; behind = behind; fits_old = omega arith; fits_new = omega arith }

empty_of_length : (xs : Text) → length xs ≡ 0 → xs ≡ []
empty_of_length [] h = refl
empty_of_length (x ∷ xs) h = absurd (omega arith)

patch_between-apply :
    (p s : ℕ) (old new : Text)
    → Common p s old new
    → apply_patches old (patch_between p s old new) ≡ new
unfolding patch_between apply_patches
patch_between-apply p s old new c =
    let u = length old - s in
    let v = length new - s in
    let old_whole = split_at p u old (omega (arith, c.fits_old)) in
    let new_whole = split_at p v new (omega (arith, c.fits_new)) in
    elim (Bool-cases (length old - p - s == 0 && length (slice p v new) == 0)) [
      | inl nothing ↦
          let gone : u - p ≡ 0 = ground arith in
          let no_old : slice p u old ≡ [] = ap (λ (n : ℕ). take n (drop p old)) gone in
          let no_new : slice p v new ≡ [] = empty_of_length _ (ground arith) in
          rw nothing (cc (old_whole, new_whole, no_old, no_new, c.before, c.behind))
      | inr change ↦
          let kept : p + (length old - p - s) ≡ u = omega (arith, c.fits_old) in
          rw (change, kept) (cc (new_whole, c.before, c.behind))
    ]

-- The patches that are computed between two texts turn the first into the second.
pub apply-compute_patches : (old new : Text) → apply_patches old (compute_patches old new) ≡ new
unfolding compute_patches apply_patches
apply-compute_patches old new = elim (Bool-cases (text_eq old new)) [
  | inl equal ↦ rw equal (text_eq-eq old new equal)
  | inr other ↦ rw other (patch_between-apply _ _ old new (loops-Common old new))
]
