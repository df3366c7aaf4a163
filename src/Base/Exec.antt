-- ===== src/Base/Exec.antt =====
-- Methods of a mutable object that may throw: what was written before a throw stays written.
use mathlib.Core.Bool.{Bool, true, false}
use pipane.Base.Results.{Result, ok, err}

abbrev pub Exec {ℓ} : Type 0 → Type 0 → Type ℓ → Type ℓ
Exec E S A = S → Result E A × S

module _ {E S : Type 0} where
  abbrev continue {ℓ κ} :
      {A : Type ℓ} {B : Type κ} → Result E A × S → (A → Exec E S B) → Result E B × S
  continue (ok a, s) f = f a s
  continue (err e, s) f = (err e, s)

  infixl 5 ◌>>=◌ ◌>>◌
  abbrev pub ◌>>=◌ {ℓ κ} : {A : Type ℓ} {B : Type κ} → Exec E S A → (A → Exec E S B) → Exec E S B
  ◌>>=◌ m f s = continue (m s) f

  abbrev pub ◌>>◌ {ℓ} : {B : Type ℓ} → Exec E S (Unit {0}) → Exec E S B → Exec E S B
  ◌>>◌ m k s = continue (m s) (λ _. k)

  abbrev pub pure {ℓ} : {A : Type ℓ} → A → Exec E S A
  pure a s = (ok a, s)

  abbrev pub modify : (S → S) → Exec E S (Unit {0})
  modify f s = (ok tt, f s)

  -- `if (bad) throw new Error(…)`
  abbrev pub throw_if : Bool → E → Exec E S (Unit {0})
  throw_if true e s = (err e, s)
  throw_if false e s = (ok tt, s)
