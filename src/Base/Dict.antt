-- ===== src/Base/Dict.antt =====
-- JavaScript's `Map` and `Record<string, V>` as association lists in insertion order. Clients have
-- the laws. A key that is an inherited property of `Object.prototype` is outside the model.
use pipane.Base.Tests.{◌==◌, if◌then◌else◌}
use Prim.Native.Nat.{ℕ}
use mathlib.Core.Path.{◌≡◌, refl}
use mathlib.Core.Bool.{Bool, true, false}
use mathlib.Core.Option.{Option, none, some}
use mathlib.Core.List.{List, [], ◌∷◌}
use native.Mathlib.Omega.{arith}

abbrev pub Dict {ℓ} : Type ℓ → Type ℓ
Dict V = List (ℕ × V)

-- The value, if it is there and passes.
abbrev pub when {ℓ} : {V : Type ℓ} → (V → Bool) → Option V → Option V
when p none = none
when p (some v) = if p v then some v else none

module _ {ℓ} {V : Type ℓ} where
  -- m.get(k), m[k]
  unfoldable pub get : ℕ → Dict V → Option V
  get k [] = none
  get k ((j, v) ∷ m) = if j == k then some v else get k m

  -- m.set(k, v), m[k] = v: a key that is there keeps its place.
  unfoldable pub put : ℕ → V → Dict V → Dict V
  put k v [] = (k, v) ∷ []
  put k v ((j, w) ∷ m) = if j == k then (k, v) ∷ m else (j, w) ∷ put k v m

  -- m.delete(k), delete m[k]
  unfoldable pub remove : ℕ → Dict V → Dict V
  remove k [] = []
  remove k ((j, v) ∷ m) = let rest = remove k m in if j == k then rest else (j, v) ∷ rest

  -- for (const [k, v] of m) if (!keep(v)) m.delete(k)
  unfoldable pub retain : (V → Bool) → Dict V → Dict V
  unfolding remove
  retain keep [] = []
  retain keep ((j, v) ∷ m) =
      let rest = retain keep m in if keep v then (j, v) ∷ rest else remove j rest

  -- Does the loop of `retain` delete anything?
  unfoldable pub some_dropped : (V → Bool) → Dict V → Bool
  some_dropped keep [] = false
  some_dropped keep ((j, v) ∷ m) = if keep v then some_dropped keep m else true

  pub get-empty : (k : ℕ) → get k [] ≡ none
  unfolding get
  get-empty k = refl

  pub get-put :
      (k j : ℕ) (v : V) (m : Dict V) → get j (put k v m) ≡ (if k == j then some v else get j m)
  unfolding get put
  get-put k j v [] = ground arith
  get-put k j v ((i, w) ∷ m) = ground (arith, get-put k j v m)

  pub get-remove : (k j : ℕ) (m : Dict V) → get j (remove k m) ≡ (if k == j then none else get j m)
  unfolding get remove
  get-remove k j [] = ground arith
  get-remove k j ((i, w) ∷ m) = ground (arith, get-remove k j m)

  pub get-retain :
      (keep : V → Bool) (j : ℕ) (m : Dict V) → get j (retain keep m) ≡ when keep (get j m)
  unfolding get retain
  get-retain keep j [] = refl
  get-retain keep j ((i, w) ∷ m) =
      ground (arith, get-retain keep j m, get-remove i j (retain keep m))

  -- Where the loop deletes nothing the map stays as it is.
  pub retain_kept : (keep : V → Bool) (m : Dict V) → some_dropped keep m ≡ false → retain keep m ≡ m
  unfolding retain some_dropped
  retain_kept keep [] h = refl
  retain_kept keep ((i, w) ∷ m) h = ground (arith, retain_kept keep m)

pub ruleset dict_laws = (get-empty, get-put, get-remove, get-retain)
