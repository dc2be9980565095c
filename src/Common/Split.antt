-- ===== src/Common/Split.antt =====
-- Text split at a separator.
use cliproxyapi_plugin_basis.Common.Tests.{if◌then◌else◌, ◌==◌}
use Prim.Native.Nat.{ℕ}
use mathlib.Core.Option.{Option, none, some}
use mathlib.Core.List.{List, [], ◌∷◌, ◌++◌}
use mathlib.Core.Path.{◌≡◌, refl}
use native.Mathlib.Omega.{arith}
use cliproxyapi_plugin_basis.Common.Text.{Text, cut_prefix, cut_prefix_sound}

abbrev pub push_front : ℕ → List Text → List Text
push_front x [] = (x ∷ []) ∷ []
push_front x (s ∷ ss) = (x ∷ s) ∷ ss

-- strings.Split at one byte.
unfoldable pub split_on : ℕ → Text → List Text
split_on c [] = [] ∷ []
split_on c (x ∷ xs) = let rest = split_on c xs in if x == c then [] ∷ rest else push_front x rest

abbrev pub front_before : ℕ → Option (Text × Text) → Option (Text × Text)
front_before c none = none
front_before c (some (before, after)) = some (c ∷ before, after)

-- One step of the search: the separator stands here, or at a later place.
abbrev pub cut_step : Option Text → ℕ → Option (Text × Text) → Option (Text × Text)
cut_step none c later = front_before c later
cut_step (some after) c later = some ([], after)

-- What stands before and after the first place where `separator` stands: bytes.Index and slicing.
unfoldable pub cut_at : Text → Text → Option (Text × Text)
cut_at separator [] = cut_step (cut_prefix separator []) 0 none
cut_at separator (c ∷ s) =
    let later = cut_at separator s in cut_step (cut_prefix separator (c ∷ s)) c later

nothing_sound :
    (separator : Text) (p : Option Text) (before after : Text)
    → ((r : Text) → p ≡ some r → [] ≡ separator ++ r)
    → cut_step p 0 none ≡ some (before, after)
    → [] ≡ before ++ separator ++ after
nothing_sound separator none before after f h = absurd (cc)
nothing_sound separator (some r) before after f h = grind (arith, f r refl, h)

cut_step_sound :
    (separator : Text) (c : ℕ) (s : Text) (p : Option Text) (later : Option (Text × Text))
    (before after : Text)
    → ((r : Text) → p ≡ some r → c ∷ s ≡ separator ++ r)
    → ((b r : Text) → later ≡ some (b, r) → s ≡ b ++ separator ++ r)
    → cut_step p c later ≡ some (before, after)
    → c ∷ s ≡ before ++ separator ++ after
cut_step_sound separator c s none none before after f g h = absurd (cc)
cut_step_sound separator c s none (some (b, r)) before after f g h = grind (arith, g b r refl, h)
cut_step_sound separator c s (some r) later before after f g h = grind (arith, f r refl, h)

pub cut_at_sound :
    (separator s before after : Text)
    → cut_at separator s ≡ some (before, after)
    → s ≡ before ++ separator ++ after
unfolding cut_at
cut_at_sound separator [] before after h =
    nothing_sound separator (cut_prefix separator []) before after (cut_prefix_sound separator []) h
cut_at_sound separator (c ∷ s) before after h =
    cut_step_sound separator c s (cut_prefix separator (c ∷ s)) (cut_at separator s) before after
      (cut_prefix_sound separator (c ∷ s)) (cut_at_sound separator s) h
