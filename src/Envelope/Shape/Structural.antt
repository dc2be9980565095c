-- ===== src/Envelope/Shape/Structural.antt =====
-- What `transportShape` of basispoints/envelope.go shows: structural facts, and none of the text.
use cliproxyapi_plugin_basis.Common.{
  ℕ, zero, suc, ◌-◌, ◌≤◌, ◌<◌, ◌≡◌, refl, sym, subst, Bool, true, false, ◌||◌, Option, none, some,
  List, [], ◌∷◌, ◌++◌, is_nil, ltb, if◌then◌else◌, if_split, length, arith, ◌⊎◌, inl, inr,
}
use cliproxyapi_plugin_basis.Common.Text.{Text, lit, ◌=ᵗ◌, elem, trim_space, has_prefix, contains}
use cliproxyapi_plugin_basis.Envelope.Decode.{Codec, fence}
use cliproxyapi_plugin_basis.Envelope.Shape.{
  byte_at, is_byte, at_control, after_backslash, and_byte, after_unicode, message_kind, if_so,
  json_failure_kind, text_format, failure_text, shape_text, with_kind, with_failure, shape_of,
  transport_shape,
}

-- The words that a report is made of.
abbrev pub formats : List Text
formats =
    lit "empty"
    ∷ lit "markdown"
    ∷ lit "json_object"
    ∷ lit "json_array"
    ∷ lit "json_string"
    ∷ lit "text_or_code"
    ∷ []

abbrev pub kinds : List Text
kinds =
    lit "raw_control"
    ∷ lit "invalid_escape"
    ∷ lit "unexpected_eof"
    ∷ lit "trailing_data"
    ∷ lit "invalid_string"
    ∷ lit "missing_separator"
    ∷ lit "unexpected_token"
    ∷ []

text_format-Listed : (trimmed : Text) → elem (text_format trimmed) formats ≡ true
unfolding text_format
text_format-Listed trimmed =
    if_split P (is_nil trimmed) (λ _. unfold elem ◌=ᵗ◌ lit in refl)
      (λ _.
        if_split P (has_prefix trimmed fence) (λ _. unfold elem ◌=ᵗ◌ lit in refl)
          (λ _.
            if_split P (has_prefix trimmed (b'{' ∷ [])) (λ _. unfold elem ◌=ᵗ◌ lit in refl)
              (λ _.
                if_split P (has_prefix trimmed (b'[' ∷ [])) (λ _. unfold elem ◌=ᵗ◌ lit in refl)
                  (λ _.
                    if_split P (has_prefix trimmed (b'"' ∷ [])) (λ _. unfold elem ◌=ᵗ◌ lit in refl)
                      (λ _. unfold elem ◌=ᵗ◌ lit in refl)))))
  where
    P : Text → Type 0
    P format = elem format formats ≡ true

byte_at-found : (n : ℕ) (s : Text) → n < length s → (c : ℕ) × (byte_at n s ≡ some c)
unfolding byte_at
byte_at-found n [] h = absurd (omega arith)
byte_at-found zero (c ∷ s) h = (c, refl)
byte_at-found (suc n) (c ∷ s) h = byte_at-found n s (omega arith)

abbrev IsAnswered : Option Bool → Type 0
IsAnswered none = ⊥
IsAnswered (some b) = Unit

is_byte-IsAnswered : (b n : ℕ) (s : Text) → n < length s → IsAnswered (is_byte b (byte_at n s))
is_byte-IsAnswered b n s h = let (c, e) = byte_at-found n s h in rw e tt

-- Within the text no index is out of range.
after_backslash-IsAnswered :
    (raw : Text) (offset : ℕ) → offset ≤ length raw → IsAnswered (after_backslash raw offset)
unfolding after_backslash
after_backslash-IsAnswered raw offset h =
    if_split IsAnswered (ltb 1 offset)
      (λ more. is_byte-IsAnswered b'\\' (offset - 2) raw (ground (arith, more))) (λ _. tt)

after_unicode-IsAnswered :
    (raw : Text) (offset : ℕ) → offset ≤ length raw → IsAnswered (after_unicode raw offset)
unfolding after_unicode
after_unicode-IsAnswered raw offset h =
    if_split IsAnswered (ltb 5 offset)
      (λ more.
        both (is_byte b'\\' (byte_at (offset - 6) raw)) (is_byte b'u' (byte_at (offset - 5) raw))
          (is_byte-IsAnswered b'\\' (offset - 6) raw (ground (arith, more)))
          (is_byte-IsAnswered b'u' (offset - 5) raw (ground (arith, more))))
      (λ _. tt)
  where
    both : (x y : Option Bool) → IsAnswered x → IsAnswered y → IsAnswered (and_byte x y)
    both none y a b = absurd a
    both (some false) y a b = tt
    both (some true) y a b = b

by_tests :
    (ends trails escapes literals controls separates : Bool)
    → elem
        (if ends
          then lit "unexpected_eof"
          else if trails
          then lit "trailing_data"
          else if escapes
          then lit "invalid_escape"
          else if literals
          then if controls then lit "raw_control" else lit "invalid_string"
          else if separates
          then lit "missing_separator"
          else lit "unexpected_token")
        kinds
      ≡ true
unfolding elem ◌=ᵗ◌ lit
by_tests true _ _ _ _ _ = refl
by_tests false true _ _ _ _ = refl
by_tests false false true _ _ _ = refl
by_tests false false false true true _ = refl
by_tests false false false true false _ = refl
by_tests false false false false _ true = refl
by_tests false false false false _ false = refl

message_kind-Listed :
    (raw : Text) (offset : ℕ) (message : Text) → elem (message_kind raw offset message) kinds ≡ true
unfolding message_kind
message_kind-Listed raw offset message =
    by_tests (contains message (lit "unexpected end of JSON input"))
      (contains message (lit "after top-level value"))
      (contains message (lit "in string escape code")
        || contains message (lit "in \\u hexadecimal character escape"))
      (contains message (lit "in string literal")) (at_control raw offset)
      (contains message (lit "after object key") || contains message (lit "after array element"))

abbrev IsListed : Option Text → Type 0
IsListed none = ⊥
IsListed (some kind) = elem kind kinds ≡ true

json_failure_kind-IsListed :
    (raw : Text) (offset : ℕ) (message : Text)
    → offset ≤ length raw
    → IsListed (json_failure_kind raw offset message)
unfolding json_failure_kind
json_failure_kind-IsListed raw offset message h =
    if_split IsListed (at_control raw offset) (λ _. unfold elem ◌=ᵗ◌ lit in refl)
      (λ _. so (after_backslash raw offset) _ (after_backslash-IsAnswered raw offset h) (
        so (after_unicode raw offset) _ (after_unicode-IsAnswered raw offset h)
          (message_kind-Listed raw offset message)))
  where
    so :
        (b : Option Bool) (rest : Option Text)
        → IsAnswered b
        → IsListed rest
        → IsListed (if_so b (lit "invalid_escape") rest)
    so none rest a l = absurd a
    so (some true) rest a l = unfold elem ◌=ᵗ◌ lit in refl
    so (some false) rest a l = l

module _ (c : Codec) (syntax_error : Text → Option (ℕ × Text)) (is_nil_value : c.Value → Bool)
    (type_name : c.Value → Text) where
  -- The end of a report: nothing where the parser found no error, and else the offset that it gave
  -- with one of the words.
  abbrev pub Tells : Option (ℕ × Text) → Text → Type 0
  Tells none tail = tail ≡ []
  Tells (some (offset, message)) tail =
      (kind : Text) × (elem kind kinds ≡ true) × (tail ≡ failure_text offset kind)

  -- A report on a text, and on another value.
  abbrev pub Reports : c.Value → Option Text → Text → Type 0
  Reports v none report =
      (report ≡ lit "format=missing") ⊎ (report ≡ lit "format=non_string_" ++ type_name v)
  Reports v (some raw) report =
      (format : Text) × (tail : Text) × (elem format formats ≡ true)
      × Tells (syntax_error raw) tail
      × (report ≡ shape_text format (length raw) tail)

  -- Where the parser says how far into a text it came, which is not past its end: there is always a
  -- report on a value, and it names the type of the value if it is no text; otherwise it has one of
  -- six formats and the length; after a syntax error, and only then, the offset and one of seven
  -- kinds follow; and there is nothing else of the text.
  pub transport_shape-Reports :
      ((raw : Text) (offset : ℕ) (message : Text)
        → syntax_error raw ≡ some (offset, message)
        → offset ≤ length raw)
      → (v : c.Value)
      → (report : Text) × (transport_shape c syntax_error is_nil_value type_name v ≡ some report)
        × Reports v (c.as_text v) report
  unfolding transport_shape
  transport_shape-Reports within v = by_text (c.as_text v)
    where
      by_text :
          (o : Option Text)
          → (report : Text) × (shape_of c syntax_error is_nil_value type_name v o ≡ some report)
            × Reports v o report
      by_text none = (
        _,
        refl,
        if_split
            (λ (t : Text).
              (t ≡ lit "format=missing") ⊎ (t ≡ lit "format=non_string_" ++ type_name v))
            (is_nil_value v) (λ _. inl refl) (λ _. inr refl),
      )
      by_text (some raw) = failed (syntax_error raw) (within raw) refl
        where
          format : Text
          format = text_format (trim_space raw)

          told :
              (o : Option (ℕ × Text)) (tail : Text)
              → syntax_error raw ≡ o
              → Tells o tail
              → Tells (syntax_error raw) tail
          told o tail p t = subst (λ e. Tells e tail) (sym p) t

          failed :
              (o : Option (ℕ × Text))
              → ((offset : ℕ) (message : Text)
                  → syntax_error raw ≡ some (offset, message)
                  → offset ≤ length raw)
              → syntax_error raw ≡ o
              → (report : Text) × (with_failure c syntax_error is_nil_value type_name raw format o
                  ≡ some report)
                × Reports v (some raw) report
          failed none h p = (
            _,
            refl,
            (format, [], text_format-Listed (trim_space raw), told none [] p refl, refl),
          )
          failed (some (offset, message)) h p =
              kinded (json_failure_kind raw offset message)
                (json_failure_kind-IsListed raw offset message (h offset message p))
            where
              kinded :
                  (o : Option Text)
                  → IsListed o
                  → (report : Text) × (with_kind format (length raw) offset o ≡ some report)
                    × Reports v (some raw) report
              kinded none l = absurd l
              kinded (some kind) l = (
                _,
                refl,
                (
                  format,
                  failure_text offset kind,
                  text_format-Listed (trim_space raw),
                  told (some (offset, message)) (failure_text offset kind) p (kind, l, refl),
                  refl,
                ),
              )
