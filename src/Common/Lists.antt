-- ===== src/Common/Lists.antt =====
-- Lists measured and indexed by native numbers, and predicates on their elements.
use Prim.Native.Nat.{ℕ, zero, suc, ◌+◌, ◌%◌, ◌<◌, ◌≤◌}
use mathlib.Core.Path.{◌≡◌, refl, subst}
use mathlib.Core.List.{List, [], ◌∷◌, ◌++◌}
use mathlib.Core.Option.{Option, none, some, some-injective}
use mathlib.Core.Bool.{Bool, true, false}
use native.Mathlib.Omega.{arith}

module _ {ℓ} {A : Type ℓ} where
  abbrev pub length : List A → ℕ
  length [] = 0
  length (x ∷ xs) = suc (length xs)

  abbrev pub get_elem? : List A → ℕ → Option A
  get_elem? [] i = none
  get_elem? (x ∷ xs) zero = some x
  get_elem? (x ∷ xs) (suc i) = get_elem? xs i

  abbrev pub take : ℕ → List A → List A
  take zero xs = []
  take (suc n) [] = []
  take (suc n) (x ∷ xs) = x ∷ take n xs

  abbrev pub drop : ℕ → List A → List A
  drop zero xs = xs
  drop (suc n) [] = []
  drop (suc n) (x ∷ xs) = drop n xs

  abbrev pub is_nil : List A → Bool
  is_nil [] = true
  is_nil (x ∷ xs) = false

  pub length-append : (xs ys : List A) → length (xs ++ ys) ≡ length xs + length ys
  length-append [] ys = omega arith
  length-append (x ∷ xs) ys = omega (arith, length-append xs ys)

module _ {ℓ κ} {A : Type ℓ} (P : A → Type κ) where
  -- Every element satisfies `P`.
  abbrev pub All : List A → Type κ
  All [] = Unit
  All (x ∷ xs) = P x × All xs

  pub All-append : (xs ys : List A) → All xs → All ys → All (xs ++ ys)
  All-append [] ys h k = k
  All-append (x ∷ xs) ys h k = (h.0, All-append xs ys h.1 k)

-- A place in a list that holds `a`.
pub data Has {ℓ} {A : Type ℓ} (a : A) (xs : List A) : Type ℓ where
  has : (i : ℕ) → get_elem? xs i ≡ some a → Has a xs

module _ {ℓ} {A : Type ℓ} where
  pub Has-here : (a : A) (xs : List A) → Has a (a ∷ xs)
  Has-here a xs = has 0 refl

  pub Has-there : {a : A} (b : A) {xs : List A} → Has a xs → Has a (b ∷ xs)
  Has-there b (has i e) = has (suc i) e

module _ {ℓ} {A : Type ℓ} where
  get_elem?-append :
      (xs ys : List A) (i : ℕ) (a : A) → get_elem? xs i ≡ some a → get_elem? (xs ++ ys) i ≡ some a
  get_elem?-append [] ys i a h = absurd (cc)
  get_elem?-append (x ∷ xs) ys zero a h = h
  get_elem?-append (x ∷ xs) ys (suc i) a h = get_elem?-append xs ys i a h

  pub Has-append : (xs ys : List A) {a : A} → Has a xs → Has a (xs ++ ys)
  Has-append xs ys {a} (has i e) = has i (get_elem?-append xs ys i a e)

  pub Has-last : (xs : List A) (a : A) → Has a (xs ++ a ∷ [])
  Has-last [] a = Has-here a []
  Has-last (x ∷ xs) a = Has-there x (Has-last xs a)

module _ {ℓ} {A : Type ℓ} where
  pub take-length-append : (xs ys : List A) → take (length xs) (xs ++ ys) ≡ xs
  take-length-append [] ys = refl
  take-length-append (x ∷ xs) ys = rw (take-length-append xs ys)

  pub drop-suc-length-append :
      (xs : List A) (y : A) (ys : List A) → drop (suc (length xs)) (xs ++ (y ∷ ys)) ≡ ys
  drop-suc-length-append [] y ys = refl
  drop-suc-length-append (x ∷ xs) y ys = drop-suc-length-append xs y ys

module _ {ℓ} {A : Type ℓ} where
  unfoldable pub count_if : (A → Bool) → List A → ℕ
  count_if p [] = 0
  count_if p (x ∷ xs) = elim (p x) [ true ↦ suc (count_if p xs) | false ↦ count_if p xs ]

  pub count_if-none : (p : A → Bool) (xs : List A) → count_if p xs ≡ 0 → All (λ x. p x ≡ false) xs
  unfolding count_if
  count_if-none p [] h = tt
  count_if-none p (x ∷ xs) h = (ground arith, count_if-none p xs (ground arith))

  pub count_if-some :
      (p : A → Bool) (xs : List A) → 0 < count_if p xs → (x : A) × Has x xs × (p x ≡ true)
  unfolding count_if
  count_if-some p [] h = absurd (omega arith)
  count_if-some p (x ∷ xs) h = first (p x) refl (count_if-some p xs)
    where
      later : (x' : A) × Has x' xs × (p x' ≡ true) → (x' : A) × Has x' (x ∷ xs) × (p x' ≡ true)
      later (y, m, e) = (y, Has-there x m, e)

      first :
          (b : Bool)
          → p x ≡ b
          → (0 < count_if p xs → (x' : A) × Has x' xs × (p x' ≡ true))
          → (x' : A) × Has x' (x ∷ xs) × (p x' ≡ true)
      first true e rest = (x, Has-here x xs, e)
      first false e rest = later (rest (ground arith))

  pub All-Has {κ} : (P : A → Type κ) (xs : List A) {x : A} → All P xs → Has x xs → P x
  All-Has P [] h (has i e) = absurd (cc)
  All-Has P (y ∷ ys) {x} h (has zero e) = subst P (some-injective y x e) h.0
  All-Has P (y ∷ ys) h (has (suc i) e) = All-Has P ys h.1 (has i e)

  -- What holds of each place of a list holds of all of it.
  pub All-from_Has {κ} : (P : A → Type κ) (xs : List A) → ((x : A) → Has x xs → P x) → All P xs
  All-from_Has P [] f = tt
  All-from_Has P (y ∷ ys) f = (f y (Has-here y ys), All-from_Has P ys (λ x m. f x (Has-there y m)))

module _ {ℓ} {A : Type ℓ} where
  pub get_elem?-none : (xs : List A) (i : ℕ) → get_elem? xs i ≡ none → length xs ≤ i
  get_elem?-none [] i h = omega arith
  get_elem?-none (x ∷ xs) zero h = absurd (cc)
  get_elem?-none (x ∷ xs) (suc i) h = omega (arith, get_elem?-none xs i h)

  -- Only the empty list has no element at an index taken modulo its length.
  pub get_elem?-mod : (xs : List A) (n : ℕ) → get_elem? xs (n % length xs) ≡ none → length xs ≡ 0
  get_elem?-mod [] n h = refl
  get_elem?-mod (x ∷ xs) n h = omega (arith, get_elem?-none (x ∷ xs) (n % suc (length xs)) h)

module _ {ℓ κ ι} {A : Type ℓ} {P : A → Type κ} {Q : A → Type ι} where
  pub All-map : (xs : List A) → ((x : A) → P x → Q x) → All P xs → All Q xs
  All-map [] f h = tt
  All-map (x ∷ xs) f h = (f x h.0, All-map xs f h.1)

module _ {ℓ} {A : Type ℓ} (p q : A → Bool) (h : (y : A) → p y ≡ true → q y ≡ true) where
  pub count_if-le : (xs : List A) → count_if p xs ≤ count_if q xs
  unfolding count_if
  count_if-le [] = omega arith
  count_if-le (x ∷ xs) = ground (arith, h x, count_if-le xs)

  -- Fewer elements pass a stronger test that some element tells apart.
  pub count_if-lt :
      (xs : List A) {x : A} → Has x xs → p x ≡ false → q x ≡ true → count_if p xs < count_if q xs
  unfolding count_if
  count_if-lt [] (has i e) f g = absurd (cc)
  count_if-lt (y ∷ ys) {x} (has zero e) f g =
      let same : y ≡ x = some-injective y x e in
      ground (arith, count_if-le ys, rw (← same) at f, rw (← same) at g)
  count_if-lt (y ∷ ys) (has (suc i) e) f g = ground (arith, h y, count_if-lt ys (has i e) f g)
