-- ===== src/Common/Text.antt =====
-- Text as the program uses it: bytes, with the `strings` functions that the code calls. Case and
-- space are those of ASCII.
use Prim.Native.Char.{code}
use Prim.Native.Nat.{ℕ, ◌+◌, ◌≤◌}
use Prim.Native.String.{String}
use mathlib.Core.Path.{◌≡◌, refl, sym, ap, ◌∙◌}
use mathlib.Core.Logic.{◌↔◌, ◌≢◌}
use mathlib.Core.Bool.{Bool, true, false, ◌&&◌, ◌||◌}
use mathlib.Core.Option.{Option, none, some}
use mathlib.Core.List.{List, [], ◌∷◌, ◌++◌, map}
use native.Mathlib.Omega.{arith}
use cliproxyapi_plugin_basis.Common.Tests.{leb, ◌==◌, if◌then◌else◌}
use cliproxyapi_plugin_basis.Common.Lists.{is_nil, length}

abbrev pub Text : Type 0
Text = List ℕ

-- A literal of the source.
unfoldable pub lit : String → Text
lit String.[] = []
lit (String.◌∷◌ c s) = code c ∷ lit s

infix 50 ◌=ᵗ◌
unfoldable pub ◌=ᵗ◌ : Text → Text → Bool
[] =ᵗ [] = true
[] =ᵗ (y ∷ ys) = false
(x ∷ xs) =ᵗ [] = false
(x ∷ xs) =ᵗ (y ∷ ys) = x == y && xs =ᵗ ys

pub =ᵗ_iff : (a b : Text) → ((a =ᵗ b) ≡ true) ↔ (a ≡ b)
unfolding ◌=ᵗ◌
=ᵗ_iff (x ∷ a) (y ∷ b) = ground (arith, =ᵗ_iff a b)
=ᵗ_iff _ _ = ground arith

pub =ᵗ_refl : (a : Text) → (a =ᵗ a) ≡ true
=ᵗ_refl a = (=ᵗ_iff a a).1 refl

pub =ᵗ_ne : (a b : Text) → a ≢ b → (a =ᵗ b) ≡ false
=ᵗ_ne a b h = ground (arith, =ᵗ_iff a b)

-- unicode.IsSpace on ASCII: tab, newline, vertical tab, form feed, carriage return, space.
abbrev pub is_space : ℕ → Bool
is_space c = (leb 9 c && leb c 13) || c == 32

unfoldable pub trim_left : (ℕ → Bool) → Text → Text
trim_left p [] = []
trim_left p (c ∷ cs) = let rest = trim_left p cs in if p c then rest else c ∷ cs

unfoldable pub trim_right : (ℕ → Bool) → Text → Text
trim_right p [] = []
trim_right p (c ∷ cs) = let rest = trim_right p cs in if is_nil rest && p c then [] else c ∷ rest

-- strings.TrimSpace
unfoldable pub trim_space : Text → Text
trim_space s = trim_right is_space (trim_left is_space s)

abbrev pub lower_byte : ℕ → ℕ
lower_byte c = if leb b'A' c && leb c b'Z' then c + 32 else c

-- strings.ToLower
unfoldable pub to_lower : Text → Text
to_lower = map lower_byte

-- strings.EqualFold
unfoldable pub equal_fold : Text → Text → Bool
equal_fold a b = to_lower a =ᵗ to_lower b

-- What follows a prefix, when the text has it.
unfoldable pub cut_prefix : Text → Text → Option Text
cut_prefix [] s = some s
cut_prefix (p ∷ ps) [] = none
cut_prefix (p ∷ ps) (c ∷ cs) = let rest = cut_prefix ps cs in if p == c then rest else none

unfoldable pub has_prefix : Text → Text → Bool
has_prefix s p = elim (cut_prefix p s) [ none ↦ false | some _ ↦ true ]

-- strings.TrimPrefix
unfoldable pub trim_prefix : Text → Text → Text
trim_prefix s p = elim (cut_prefix p s) [ none ↦ s | some rest ↦ rest ]

-- strings.Contains
unfoldable pub contains : Text → Text → Bool
unfolding has_prefix
contains [] p = has_prefix [] p
contains (c ∷ cs) p = has_prefix (c ∷ cs) p || contains cs p

-- A text in a list of texts.
unfoldable pub elem : Text → List Text → Bool
elem a [] = false
elem a (x ∷ xs) = x =ᵗ a || elem a xs

pub trim_right-trim_right :
    (p : ℕ → Bool) (s : Text) → trim_right p (trim_right p s) ≡ trim_right p s
unfolding trim_right
trim_right-trim_right p [] = refl
trim_right-trim_right p (c ∷ cs) = ground (arith, trim_right-trim_right p cs)

-- Trimming the right end leaves the left end trimmed.
pub trim_left-trim_right :
    (p : ℕ → Bool) (s : Text)
    → trim_left p (trim_right p (trim_left p s)) ≡ trim_right p (trim_left p s)
unfolding trim_left trim_right
trim_left-trim_right p [] = refl
trim_left-trim_right p (c ∷ cs) = ground (arith, trim_left-trim_right p cs)

pub trim_space-trim_space : (s : Text) → trim_space (trim_space s) ≡ trim_space s
unfolding trim_space
trim_space-trim_space s =
    ap (trim_right is_space) (trim_left-trim_right is_space s)
    ∙ trim_right-trim_right is_space (trim_left is_space s)

pub cut_prefix-append : (p s : Text) → cut_prefix p (p ++ s) ≡ some s
unfolding cut_prefix
cut_prefix-append [] s = refl
cut_prefix-append (c ∷ p) s = ground (arith, cut_prefix-append p s)

pub cut_prefix_sound : (p s rest : Text) → cut_prefix p s ≡ some rest → s ≡ p ++ rest
unfolding cut_prefix
cut_prefix_sound [] s rest h = ground arith
cut_prefix_sound (c ∷ p) [] rest h = cc
cut_prefix_sound (c ∷ p) (x ∷ s) rest h = ground (arith, cut_prefix_sound p s rest)

pub length-trim_left-le : (p : ℕ → Bool) (s : Text) → length (trim_left p s) ≤ length s
unfolding trim_left
length-trim_left-le p [] = omega arith
length-trim_left-le p (c ∷ cs) = ground (arith, length-trim_left-le p cs)

-- A text that trimming leaves alone begins with a byte that is kept.
pub trim_left-head :
    (p : ℕ → Bool) (c : ℕ) (cs : Text) → trim_left p (c ∷ cs) ≡ c ∷ cs → p c ≡ false
unfolding trim_left
trim_left-head p c cs h = ground (arith, length-trim_left-le p cs, ap length h)

pub trim_left-append :
    (p : ℕ → Bool) (s t : Text)
    → is_nil s ≡ false
    → trim_left p s ≡ s
    → trim_left p (s ++ t) ≡ s ++ t
unfolding trim_left
trim_left-append p [] t h e = cc
trim_left-append p (c ∷ cs) t h e = ground (arith, trim_left-head p c cs e)

pub trim_right-concat :
    (p : ℕ → Bool) (s : Text) (c : ℕ) → p c ≡ false → trim_right p (s ++ c ∷ []) ≡ s ++ c ∷ []
unfolding trim_right
trim_right-concat p [] c h = ground arith
trim_right-concat p (x ∷ s) c h = ground (arith, trim_right-concat p s c h, is_nil-concat s)
  where
    is_nil-concat : (s : Text) → is_nil (s ++ c ∷ []) ≡ false
    is_nil-concat [] = refl
    is_nil-concat (x ∷ s) = refl

pub trim_left_of_trim_space : (s : Text) → trim_space s ≡ s → trim_left is_space s ≡ s
unfolding trim_space
trim_left_of_trim_space s h = ap (trim_left is_space) (sym h) ∙ trim_left-trim_right is_space s ∙ h
