-- ===== src/Envelope/Custom.antt =====
-- basispoints/custom_transport.go: a raw call of a custom tool, tagged in the summary of the transport.
use cliproxyapi_plugin_basis.Common.{
  ℕ, ◌≤◌, ◌≡◌, ap, Bool, false, ◌&&◌, ◌||◌, Option, none, some, [], ◌∷◌, ◌++◌, is_nil, ltb, leb,
  ◌==◌, arith, if◌then◌else◌, length,
}
use cliproxyapi_plugin_basis.Common.Text.{
  Text, lit, is_space, cut_prefix, cut_prefix-append, cut_prefix_sound,
}
use cliproxyapi_plugin_basis.Envelope.Decode.{Codec, max_envelope_bytes}

abbrev pub custom_transport_prefix : Text
custom_transport_prefix = lit "codex2api.custom/"

-- The characters past ASCII that are `unicode.IsSpace` or `unicode.IsControl`, by their bytes in
-- UTF-8: the controls from U+0080 to U+009F, and the spaces U+00A0, U+1680, U+2000 to U+200A, U+2028,
-- U+2029, U+202F, U+205F and U+3000. A first byte is never one that continues a character.
unfoldable pub is_wide_blank : ℕ → Text → Bool
is_wide_blank c [] = false
is_wide_blank c (x ∷ []) = c == 0xc2 && leb 0x80 x && leb x 0xa0
is_wide_blank c (x ∷ y ∷ s) =
    c == 0xc2 && leb 0x80 x && leb x 0xa0
    || c == 0xe1 && x == 0x9a && y == 0x80
    || c == 0xe2 && x == 0x80 && (leb 0x80 y && leb y 0x8a || y == 0xa8 || y == 0xa9 || y == 0xaf)
    || c == 0xe2 && x == 0x81 && y == 0x9f
    || c == 0xe3 && x == 0x80 && y == 0x80

-- Slashes, and the spaces and control characters of Unicode.
unfoldable pub has_bad_rune : Text → Bool
unfolding is_wide_blank
has_bad_rune [] = false
has_bad_rune (c ∷ s) =
    let rest = has_bad_rune s in
    c == b'/' || c == b'\\' || is_space c || ltb c 32 || c == 127 || is_wide_blank c s || rest

-- No raw call, a raw call that is refused, or the name and the input of one.
pub data CustomCall : Type 0 where
  ordinary bad_name bad_code oversize : CustomCall
  custom : Text → Text → CustomCall

abbrev pub custom_input : Text → Option Text → CustomCall
custom_input name none = bad_code
custom_input name (some input) =
    if ltb max_envelope_bytes (length input) then oversize else custom name input

abbrev pub custom_named : Option Text → Option Text → CustomCall
custom_named none code = ordinary
custom_named (some name) code =
    if is_nil name || has_bad_rune name then bad_name else custom_input name code

abbrev pub custom_call : Option Text → Option Text → CustomCall
custom_call none code = ordinary
custom_call (some summary) code = custom_named (cut_prefix custom_transport_prefix summary) code

abbrev pub text_in : (c : Codec) → Option c.Value → Option Text
text_in c none = none
text_in c (some v) = c.as_text v

-- `customTransportEnvelope`
unfoldable pub custom_transport_envelope : (c : Codec) → c.Value → CustomCall
custom_transport_envelope c arguments =
    custom_call (text_in c (c.field (lit "summary") arguments))
      (text_in c (c.field (lit "code") arguments))

-- A raw call is taken exactly from a summary that is the tag and a name, not blank and without
-- slashes, spaces and control characters of Unicode, and from a code that is a text of at most 1 MiB;
-- it is the name and that text, as they are.
pub custom_transport_envelope-custom :
    (c : Codec) (arguments : c.Value) (name input : Text)
    → (custom_transport_envelope c arguments ≡ custom name input
        → (text_in c (c.field (lit "summary") arguments) ≡ some (custom_transport_prefix ++ name))
          × (text_in c (c.field (lit "code") arguments) ≡ some input)
          × (is_nil name ≡ false)
          × (has_bad_rune name ≡ false)
          × (length input ≤ max_envelope_bytes))
      × (text_in c (c.field (lit "summary") arguments) ≡ some (custom_transport_prefix ++ name)
          → text_in c (c.field (lit "code") arguments) ≡ some input
          → is_nil name ≡ false
          → has_bad_rune name ≡ false
          → length input ≤ max_envelope_bytes
          → custom_transport_envelope c arguments ≡ custom name input)
unfolding custom_transport_envelope
custom_transport_envelope-custom c arguments name input = (
  sound (text_in c (c.field (lit "summary") arguments))
      (text_in c (c.field (lit "code") arguments)),
  λ p q n b l. rw p (rw q (complete n b l)),
)
  where
    named :
        (o code : Option Text)
        → custom_named o code ≡ custom name input
        → (o ≡ some name)
          × (code ≡ some input)
          × (is_nil name ≡ false)
          × (has_bad_rune name ≡ false)
          × (length input ≤ max_envelope_bytes)
    named none code h = absurd (cc)
    named (some x) none h = absurd (ground (arith, h))
    named (some x) (some y) h = (
      ground (arith, h),
      ground (arith, h),
      ground (arith, h),
      ground (arith, h),
      ground (arith, h),
    )

    sound :
        (o code : Option Text)
        → custom_call o code ≡ custom name input
        → (o ≡ some (custom_transport_prefix ++ name))
          × (code ≡ some input)
          × (is_nil name ≡ false)
          × (has_bad_rune name ≡ false)
          × (length input ≤ max_envelope_bytes)
    sound none code h = absurd (cc)
    sound (some summary) code h =
        let (p, q, n, b, l) = named (cut_prefix custom_transport_prefix summary) code h in
        (ap some (cut_prefix_sound custom_transport_prefix summary name p), q, n, b, l)

    complete :
        is_nil name ≡ false
        → has_bad_rune name ≡ false
        → length input ≤ max_envelope_bytes
        → custom_call (some (custom_transport_prefix ++ name)) (some input) ≡ custom name input
    complete n b l = ground (arith, cut_prefix-append custom_transport_prefix name, n, b, l)
