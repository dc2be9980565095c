-- ===== src/Config/Suffix.antt =====
-- Model names with an effort suffix: `splitModelSuffix` of basispoints/config.go.
use cliproxyapi_plugin_basis.Common.{
  ℕ, suc, ◌+◌, ◌-◌, ◌≡◌, refl, true, false, ◌||◌, Option, none, some, [], ◌∷◌, ◌++◌, append_assoc,
  arith, is_nil, length, take, drop, if◌then◌else◌, length-append, take-length-append,
  drop-suc-length-append,
}
use cliproxyapi_plugin_basis.Common.Text.{
  Text, is_space, trim_space, trim_left-append, trim_right-concat, trim_left_of_trim_space,
}
use cliproxyapi_plugin_basis.Config.{last_index, has_suffix_byte, split_at, split_model_suffix}

last_index-append :
    (c : ℕ) (a b : Text) → last_index c b ≡ none → last_index c (a ++ (c ∷ b)) ≡ some (length a)
unfolding last_index
last_index-append c [] b h = ground arith
last_index-append c (x ∷ a) b h = ground (arith, last_index-append c a b h)

last_index_other :
    (c x : ℕ) (b : Text) → last_index c b ≡ none → (c ≡ x → ⊥) → last_index c (b ++ x ∷ []) ≡ none
unfolding last_index
last_index_other c x [] h n = ground arith
last_index_other c x (y ∷ b) h n = ground (arith, last_index_other c x b)

has_suffix_byte-concat : (c : ℕ) (a : Text) → has_suffix_byte (a ++ c ∷ []) c ≡ true
unfolding has_suffix_byte
has_suffix_byte-concat c [] = ground arith
has_suffix_byte-concat c (x ∷ []) = has_suffix_byte-concat c []
has_suffix_byte-concat c (x ∷ y ∷ a) = has_suffix_byte-concat c (y ∷ a)

-- `base(suffix)`
abbrev pub with_suffix : Text → Text → Text
with_suffix base suffix = base ++ (b'(' ∷ (suffix ++ b')' ∷ []))

trim_space-with_suffix :
    (base suffix : Text)
    → is_nil base ≡ false
    → trim_space base ≡ base
    → trim_space (with_suffix base suffix) ≡ with_suffix base suffix
unfolding trim_space
trim_space-with_suffix base suffix h e =
    rw
      (trim_left-append is_space base (b'(' ∷ (suffix ++ b')' ∷ [])) h
        (trim_left_of_trim_space base e))
      (rw (← append_assoc base (b'(' ∷ suffix) (b')' ∷ []))
        (trim_right-concat is_space (base ++ (b'(' ∷ suffix)) b')' refl))

parts :
    (model base suffix : Text) {x y : Text}
    → x ≡ base
    → y ≡ suffix
    → is_nil base ≡ false
    → trim_space base ≡ base
    → is_nil suffix ≡ false
    → trim_space suffix ≡ suffix
    → ◌≡◌ {A = Text × Option Text}
        (if is_nil (trim_space x) || is_nil (trim_space y)
          then (model, none)
          else (trim_space x, some (trim_space y)))
        (base, some suffix)
parts model base suffix p q h e k f = rw (p, q, e, f, h, k)

-- The bytes between the brackets.
between :
    (base suffix : Text)
    → take
        (length (with_suffix base suffix) - 1 - (length base + 1))
        (drop (length base + 1) (with_suffix base suffix))
      ≡ suffix
between base suffix =
    let size : length (with_suffix base suffix) - 1 - (length base + 1) ≡ length suffix = omega (
      arith,
      length-append base (b'(' ∷ (suffix ++ b')' ∷ [])),
      length-append suffix (b')' ∷ []),
    ) in
    let next : length base + 1 ≡ suc (length base) = omega arith in
    rw size (
      rw next (
        rw (drop-suc-length-append base b'(' (suffix ++ b')' ∷ []))
          (take-length-append suffix (b')' ∷ []))))

split_at-with_suffix :
    (b : ℕ) (bs suffix : Text)
    → trim_space (b ∷ bs) ≡ b ∷ bs
    → is_nil suffix ≡ false
    → trim_space suffix ≡ suffix
    → split_at (with_suffix (b ∷ bs) suffix) (some (length (b ∷ bs))) ≡ (b ∷ bs, some suffix)
unfolding split_at
split_at-with_suffix b bs suffix e h k =
    parts _ (b ∷ bs) suffix (take-length-append (b ∷ bs) (b'(' ∷ (suffix ++ b')' ∷ [])))
      (between (b ∷ bs) suffix) refl e h k

ends_with_bracket : (base suffix : Text) → has_suffix_byte (with_suffix base suffix) b')' ≡ true
ends_with_bracket base suffix =
    rw (← append_assoc base (b'(' ∷ suffix) (b')' ∷ []))
      (has_suffix_byte-concat b')' (base ++ (b'(' ∷ suffix)))

bracket_at :
    (base suffix : Text)
    → last_index b'(' suffix ≡ none
    → last_index b'(' (with_suffix base suffix) ≡ some (length base)
bracket_at base suffix h =
    last_index-append b'(' base (suffix ++ b')' ∷ [])
      (last_index_other b'(' b')' suffix h (λ e. absurd (omega arith)))

-- A base and a suffix that are trimmed and not blank, the suffix without an opening bracket, are
-- read back from `base(suffix)`.
pub split_model_suffix-with_suffix :
    (base suffix : Text)
    → is_nil base ≡ false
    → trim_space base ≡ base
    → is_nil suffix ≡ false
    → trim_space suffix ≡ suffix
    → last_index b'(' suffix ≡ none
    → split_model_suffix (with_suffix base suffix) ≡ (base, some suffix)
unfolding split_model_suffix
split_model_suffix-with_suffix [] suffix h e k f n = cc
split_model_suffix-with_suffix (b ∷ bs) suffix h e k f n =
    rw (trim_space-with_suffix (b ∷ bs) suffix h e) (
      rw (ends_with_bracket (b ∷ bs) suffix)
        (rw (bracket_at (b ∷ bs) suffix n) (split_at-with_suffix b bs suffix e k f)))
