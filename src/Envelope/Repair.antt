-- ===== src/Envelope/Repair.antt =====
-- Texts whose JSON strings need no repair (basispoints/envelope.go).
pub mod Cleaned
use cliproxyapi_plugin_basis.Common.{
  ℕ, ◌≡◌, refl, sym, subst, ap, ◌∙◌, Bool, true, false, not, ◌&&◌, ◌||◌, Option, none, some, List,
  [], ◌∷◌, ◌==◌, arith, if◌then◌else◌, leb, Bool-cases, inl, inr, if_split,
}
use cliproxyapi_plugin_basis.Common.Text.{Text}
use cliproxyapi_plugin_basis.Envelope.{
  escaped, toggled, repaired, valid_escape, simple_escape, is_hex, four_hex, repair_from,
  repair_transport_json_strings,
}

-- The test of a byte inside a string; `later` and `after_escape` are those of what follows one byte
-- and two.
abbrev pub cleaned : Option ℕ → Bool → Bool → Bool → Bool → Bool
cleaned (some e) backslash valid later after_escape = false
cleaned none false valid later after_escape = later
cleaned none true valid later after_escape = valid && after_escape

-- Inside the strings of a text there is no raw line break or tab, and no backslash but before an
-- escape of JSON, save one that is the last byte of the text. The text may end inside a string.
unfoldable pub clean_from : Bool → Text → Bool
clean_from quoted [] = true
clean_from quoted (c ∷ []) =
    if toggled quoted c then cleaned (escaped c) false false true true else true
clean_from quoted (c ∷ next ∷ rest) =
    let inside = toggled quoted c in
    let later = clean_from inside (next ∷ rest) in
    let after_escape = clean_from inside rest in
    if inside
    then cleaned (escaped c) (c == b'\\') (valid_escape next rest) later after_escape
    else later

-- The strings of a text are clean.
abbrev pub is_clean : Text → Bool
is_clean s = clean_from false s

repaired-cleaned :
    (o : Option ℕ) (backslash valid : Bool) (c next : ℕ) (rest one two : Text)
    (later after_escape : Bool)
    → (backslash ≡ true → c ≡ b'\\')
    → (later ≡ true → one ≡ next ∷ rest)
    → (after_escape ≡ true → two ≡ rest)
    → cleaned o backslash valid later after_escape ≡ true
    → repaired o backslash valid c next one two ≡ c ∷ next ∷ rest
repaired-cleaned (some e) b v c next rest one two later after_escape hb h1 h2 h = absurd (cc)
repaired-cleaned none false v c next rest one two later after_escape hb h1 h2 h =
    ap (λ x. c ∷ x) (h1 h)
repaired-cleaned none true true c next rest one two later after_escape hb h1 h2 h =
    cc (hb refl, h2 h)
repaired-cleaned none true false c next rest one two later after_escape hb h1 h2 h = absurd (cc)

-- A clean text is left as it is.
pub repair_from-clean :
    (quoted : Bool) (s : Text) → clean_from quoted s ≡ true → repair_from quoted s ≡ s
unfolding clean_from repair_from
repair_from-clean quoted [] h = refl
repair_from-clean quoted (c ∷ []) h = last (toggled quoted c) (escaped c) h
  where
    last :
        (inside : Bool) (o : Option ℕ)
        → (if inside then cleaned o false false true true else true) ≡ true
        → (if inside then repaired o false false c c [] [] else c ∷ []) ≡ c ∷ []
    last false o h = refl
    last true none h = refl
    last true (some e) h = absurd (cc)
repair_from-clean quoted (c ∷ next ∷ rest) h =
    step (toggled quoted c) (repair_from-clean (toggled quoted c) (next ∷ rest))
      (repair_from-clean (toggled quoted c) rest) h
  where
    step :
        (inside : Bool)
        → (clean_from inside (next ∷ rest) ≡ true → repair_from inside (next ∷ rest) ≡ next ∷ rest)
        → (clean_from inside rest ≡ true → repair_from inside rest ≡ rest)
        → (if inside
            then cleaned
                (escaped c)
                (c == b'\\')
                (valid_escape next rest)
                (clean_from inside (next ∷ rest))
                (clean_from inside rest)
            else clean_from inside (next ∷ rest))
          ≡ true
        → (if inside
            then repaired
                (escaped c)
                (c == b'\\')
                (valid_escape next rest)
                c
                next
                (repair_from inside (next ∷ rest))
                (repair_from inside rest)
            else c ∷ repair_from inside (next ∷ rest))
          ≡ c ∷ next ∷ rest
    step false h1 h2 h = ap (λ x. c ∷ x) (h1 h)
    step true h1 h2 h =
        repaired-cleaned (escaped c) (c == b'\\') (valid_escape next rest) c next rest
          (repair_from true (next ∷ rest)) (repair_from true rest) (clean_from true (next ∷ rest))
          (clean_from true rest) (λ e. ground (arith, e)) h1 h2 h
