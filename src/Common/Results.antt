-- ===== src/Common/Results.antt =====
-- A Go function that returns (value, error).
use mathlib.Core.Bool.{Bool, true, false}
use mathlib.Core.Path.{◌≡◌, refl}

pub data Result (E A : Type 0) : Type 0 where
  ok : A → Result E A
  err : E → Result E A

-- `if err != nil { return err }`, and then the rest.
infixl 5 ◌>>=◌ ◌>>◌
abbrev pub ◌>>=◌ : {E A B : Type 0} → Result E A → (A → Result E B) → Result E B
ok a >>= f = f a
err e >>= f = err e

abbrev pub ◌>>◌ : {E B : Type 0} → Result E (Unit {0}) → Result E B → Result E B
m >> k = m >>= λ _. k

-- The error of a test that must hold.
abbrev pub guard : {E : Type 0} → Bool → E → Result E (Unit {0})
guard true e = ok tt
guard false e = err e

-- A law of both ends passes through a step.
pub >>=-All {κ} :
    {E A B : Type 0} (P : Result E B → Type κ) (m : Result E A) (f : A → Result E B)
    → ((e : E) → P (err e))
    → ((a : A) → m ≡ ok a → P (f a))
    → P (m >>= f)
>>=-All P (ok a) f bad good = good a refl
>>=-All P (err e) f bad good = bad e

pub guard-All {κ} :
    {E B : Type 0} (P : Result E B → Type κ) (b : Bool) (e : E) (rest : Result E B)
    → P (err e)
    → (b ≡ true → P rest)
    → P (guard b e >> rest)
guard-All P true e rest bad good = good refl
guard-All P false e rest bad good = bad
