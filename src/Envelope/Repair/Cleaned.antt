-- ===== src/Envelope/Repair/Cleaned.antt =====
-- The strings of a repaired text (basispoints/envelope.go).
use cliproxyapi_plugin_basis.Common.{
  ℕ, ◌≡◌, refl, sym, subst, ap, ◌∙◌, Bool, true, false, ◌&&◌, ◌||◌, Option, none, some, [], ◌∷◌,
  ◌==◌, arith, if◌then◌else◌,
}
use cliproxyapi_plugin_basis.Common.Text.{Text}
use cliproxyapi_plugin_basis.Envelope.{
  escaped, toggled, repaired, valid_escape, simple_escape, is_hex, four_hex, repair_from,
  repair_transport_json_strings,
}
use cliproxyapi_plugin_basis.Envelope.Repair.{clean_from, is_clean, repair_from-clean}

clean_from-outside :
    (quoted : Bool) (c : ℕ) (t : Text)
    → toggled quoted c ≡ false
    → clean_from false t ≡ true
    → clean_from quoted (c ∷ t) ≡ true
unfolding clean_from
clean_from-outside quoted c [] o h = rw o refl
clean_from-outside quoted c (x ∷ t) o h = rw o h

clean_from-inside :
    (quoted : Bool) (c : ℕ) (t : Text)
    → toggled quoted c ≡ true
    → escaped c ≡ none
    → (c == b'\\') ≡ false
    → clean_from true t ≡ true
    → clean_from quoted (c ∷ t) ≡ true
unfolding clean_from
clean_from-inside quoted c [] o e b h = rw o (rw e refl)
clean_from-inside quoted c (x ∷ t) o e b h = rw o (rw e (rw b h))

clean_from-escape :
    (n : ℕ) (t : Text)
    → valid_escape n t ≡ true
    → clean_from true t ≡ true
    → clean_from true (b'\\' ∷ n ∷ t) ≡ true
unfolding clean_from
clean_from-escape n t v h = rw v h

repair_from-inside :
    (quoted : Bool) (c : ℕ) (s : Text)
    → toggled quoted c ≡ true
    → escaped c ≡ none
    → (c == b'\\') ≡ false
    → repair_from quoted (c ∷ s) ≡ c ∷ repair_from true s
unfolding repair_from
repair_from-inside quoted c [] o e b = rw o (rw e refl)
repair_from-inside quoted c (x ∷ s) o e b = rw o (rw e (rw b refl))

-- A hexadecimal digit is neither a quotation mark, nor a control character, nor a backslash.
repair_from-hex :
    (d : ℕ) (s : Text) → is_hex d ≡ true → repair_from true (d ∷ s) ≡ d ∷ repair_from true s
repair_from-hex d s h =
    repair_from-inside true d s (ground (arith, h)) (ground (arith, h)) (ground (arith, h))

all_hex :
    (a b c d : Bool) → (a && b && c && d) ≡ true → (a ≡ true) × (b ≡ true) × (c ≡ true) × (d ≡ true)
all_hex true true true true h = (refl, refl, refl, refl)
all_hex true true true false h = absurd (cc)
all_hex true true false d h = absurd (ground arith)
all_hex true false c d h = absurd (ground arith)
all_hex false b c d h = absurd (ground arith)

four_hex-repair_from : (s : Text) → four_hex s ≡ true → four_hex (repair_from true s) ≡ true
four_hex-repair_from [] h = absurd (cc)
four_hex-repair_from (a ∷ []) h = absurd (cc)
four_hex-repair_from (a ∷ b ∷ []) h = absurd (cc)
four_hex-repair_from (a ∷ b ∷ c ∷ []) h = absurd (cc)
four_hex-repair_from (a ∷ b ∷ c ∷ d ∷ s) h = subst (λ t. four_hex t ≡ true) (sym same) h
  where
    digits : (is_hex a ≡ true) × (is_hex b ≡ true) × (is_hex c ≡ true) × (is_hex d ≡ true)
    digits = all_hex (is_hex a) (is_hex b) (is_hex c) (is_hex d) h

    same : repair_from true (a ∷ b ∷ c ∷ d ∷ s) ≡ a ∷ b ∷ c ∷ d ∷ repair_from true s
    same =
        repair_from-hex a (b ∷ c ∷ d ∷ s) digits.0
        ∙ ap (λ t. a ∷ t) (repair_from-hex b (c ∷ d ∷ s) digits.1)
        ∙ ap (λ t. a ∷ b ∷ t) (repair_from-hex c (d ∷ s) digits.2)
        ∙ ap (λ t. a ∷ b ∷ c ∷ t) (repair_from-hex d s digits.3)

valid_escape-repair_from :
    (next : ℕ) (rest : Text)
    → valid_escape next rest ≡ true
    → valid_escape next (repair_from true rest) ≡ true
valid_escape-repair_from next rest h =
    either (simple_escape next) (next == b'u') (four_hex rest) (four_hex (repair_from true rest))
      (four_hex-repair_from rest) h
  where
    either :
        (s u f g : Bool) → (f ≡ true → g ≡ true) → (s || (u && f)) ≡ true → (s || (u && g)) ≡ true
    either true u f g k h = refl
    either false true f g k h = k h
    either false false f g k h = h

-- An escape is written as a letter that stands for it.
simple_escape-escaped : (c e : ℕ) → escaped c ≡ some e → simple_escape e ≡ true
simple_escape-escaped c e h = ground (arith, h)

-- A control character does not open or close a string.
toggled-escaped : (quoted : Bool) (c e : ℕ) → escaped c ≡ some e → toggled quoted c ≡ quoted
toggled-escaped quoted c e h = ground (arith, h)

toggled-backslash : (quoted : Bool) (c : ℕ) → (c == b'\\') ≡ true → toggled quoted c ≡ quoted
toggled-backslash quoted c h = ground (arith, h)

repaired-IsClean :
    (quoted : Bool) (o : Option ℕ) (backslash valid : Bool) (c next : ℕ) (one two : Text)
    → toggled quoted c ≡ true
    → escaped c ≡ o
    → (c == b'\\') ≡ backslash
    → (valid ≡ true → valid_escape next two ≡ true)
    → clean_from true one ≡ true
    → clean_from true two ≡ true
    → clean_from quoted (repaired o backslash valid c next one two) ≡ true
repaired-IsClean quoted (some e) b v c next one two t es bs hv h1 h2 =
    subst (λ q. clean_from q (b'\\' ∷ e ∷ one) ≡ true) (sym t ∙ toggled-escaped quoted c e es)
      (clean_from-escape e one (simple_valid (simple_escape e) _ (simple_escape-escaped c e es)) h1)
  where
    simple_valid : (s r : Bool) → s ≡ true → (s || r) ≡ true
    simple_valid s r h = rw h refl
repaired-IsClean quoted none false v c next one two t es bs hv h1 h2 =
    clean_from-inside quoted c one t es bs h1
repaired-IsClean quoted none true true c next one two t es bs hv h1 h2 =
    subst (λ q. clean_from q (b'\\' ∷ next ∷ two) ≡ true) (sym t ∙ toggled-backslash quoted c bs)
      (clean_from-escape next two (hv refl) h2)
repaired-IsClean quoted none true false c next one two t es bs hv h1 h2 =
    subst (λ q. clean_from q (b'\\' ∷ b'\\' ∷ one) ≡ true) (sym t ∙ toggled-backslash quoted c bs)
      (clean_from-escape b'\\' one refl h1)

repair_from-IsClean : (quoted : Bool) (s : Text) → clean_from quoted (repair_from quoted s) ≡ true
unfolding repair_from clean_from
repair_from-IsClean quoted [] = refl
repair_from-IsClean quoted (c ∷ []) = last (toggled quoted c) refl
  where
    last :
        (inside : Bool)
        → toggled quoted c ≡ inside
        → clean_from quoted (if inside then repaired (escaped c) false false c c [] [] else c ∷ [])
          ≡ true
    last false t = clean_from-outside quoted c [] t refl
    last true t = inside (escaped c) refl
      where
        inside :
            (o : Option ℕ)
            → escaped c ≡ o
            → clean_from quoted (repaired o false false c c [] []) ≡ true
        inside none e = rw t (rw e refl)
        inside (some x) e =
            repaired-IsClean quoted (some x) (c == b'\\') false c c [] [] t e refl
              (λ h. absurd (cc)) refl refl
repair_from-IsClean quoted (c ∷ next ∷ rest) =
    step (toggled quoted c) refl (repair_from-IsClean (toggled quoted c) (next ∷ rest))
      (repair_from-IsClean (toggled quoted c) rest)
  where
    step :
        (inside : Bool)
        → toggled quoted c ≡ inside
        → clean_from inside (repair_from inside (next ∷ rest)) ≡ true
        → clean_from inside (repair_from inside rest) ≡ true
        → clean_from quoted (
            if inside
            then repaired
                (escaped c)
                (c == b'\\')
                (valid_escape next rest)
                c
                next
                (repair_from inside (next ∷ rest))
                (repair_from inside rest)
            else c ∷ repair_from inside (next ∷ rest))
          ≡ true
    step false t h1 h2 = clean_from-outside quoted c (repair_from false (next ∷ rest)) t h1
    step true t h1 h2 =
        repaired-IsClean quoted (escaped c) (c == b'\\') (valid_escape next rest) c next
          (repair_from true (next ∷ rest)) (repair_from true rest) t refl refl
          (valid_escape-repair_from next rest) h1 h2

-- The repair makes the strings clean: no raw line break or tab inside them, and no backslash but
-- before an escape of JSON, save one that is the last byte of the text. It leaves a text alone whose
-- strings are clean, and so it does nothing to its own result.
pub repair_transport_json_strings-clean :
    (raw : Text)
    → (is_clean (repair_transport_json_strings raw) ≡ true)
      × (is_clean raw ≡ true → repair_transport_json_strings raw ≡ raw)
      × (repair_transport_json_strings (repair_transport_json_strings raw)
          ≡ repair_transport_json_strings raw)
unfolding repair_transport_json_strings
repair_transport_json_strings-clean raw = (
  repair_from-IsClean false raw,
  repair_from-clean false raw,
  repair_from-clean false (repair_from false raw) (repair_from-IsClean false raw),
)
