-- ===== src/Envelope/Shape.antt =====
-- What basispoints/envelope.go says of a tool call that it cannot unwrap: `transportShape` and
-- `jsonFailureKind`.
pub mod Structural
use cliproxyapi_plugin_basis.Common.{
  ℕ, zero, suc, ◌-◌, ◌≤◌, ◌<◌, ◌≡◌, refl, ap, Bool, true, false, ◌&&◌, ◌||◌, Option, none, some,
  List, [], ◌∷◌, ◌++◌, is_nil, ltb, leb, ◌==◌, if◌then◌else◌, if_split, length, arith, ◌⊎◌, inl,
  inr,
}
use cliproxyapi_plugin_basis.Common.Text.{Text, lit, ◌=ᵗ◌, elem, trim_space, has_prefix, contains}
use cliproxyapi_plugin_basis.Prepare.Describe.{decimal}
use cliproxyapi_plugin_basis.Envelope.Decode.{Codec, fence}

-- The byte at an index; an index out of range is a fault in the source.
unfoldable pub byte_at : ℕ → Text → Option ℕ
byte_at n [] = none
byte_at zero (c ∷ s) = some c
byte_at (suc n) (c ∷ s) = byte_at n s

abbrev pub is_byte : ℕ → Option ℕ → Option Bool
is_byte b none = none
is_byte b (some c) = some (c == b)

abbrev pub below_space : Option ℕ → Bool
below_space none = false
below_space (some c) = ltb c 0x20

-- Whether the parser stopped at a control character, which is looked for within the text only.
unfoldable pub at_control : Text → ℕ → Bool
unfolding byte_at
at_control raw offset =
    ltb 0 offset && leb offset (length raw) && below_space (byte_at (offset - 1) raw)

-- Whether it stopped behind a backslash, or behind the four digits of a `\u`.
unfoldable pub after_backslash : Text → ℕ → Option Bool
unfolding byte_at
after_backslash raw offset =
    if ltb 1 offset then is_byte b'\\' (byte_at (offset - 2) raw) else some false

abbrev pub and_byte : Option Bool → Option Bool → Option Bool
and_byte none next = none
and_byte (some false) next = some false
and_byte (some true) next = next

unfoldable pub after_unicode : Text → ℕ → Option Bool
unfolding byte_at
after_unicode raw offset =
    if ltb 5 offset
    then and_byte (is_byte b'\\' (byte_at (offset - 6) raw))
        (is_byte b'u' (byte_at (offset - 5) raw))
    else some false

-- What the message of the parser says.
unfoldable pub message_kind : Text → ℕ → Text → Text
unfolding at_control
message_kind raw offset message =
    if contains message (lit "unexpected end of JSON input")
    then lit "unexpected_eof"
    else if contains message (lit "after top-level value")
    then lit "trailing_data"
    else if contains message (lit "in string escape code")
        || contains message (lit "in \\u hexadecimal character escape")
    then lit "invalid_escape"
    else if contains message (lit "in string literal")
    then if at_control raw offset then lit "raw_control" else lit "invalid_string"
    else if contains message (lit "after object key")
        || contains message (lit "after array element")
    then lit "missing_separator"
    else lit "unexpected_token"

abbrev pub if_so : Option Bool → Text → Option Text → Option Text
if_so none kind rest = none
if_so (some true) kind rest = some kind
if_so (some false) kind rest = rest

-- `jsonFailureKind` of a syntax error; none is a fault.
unfoldable pub json_failure_kind : Text → ℕ → Text → Option Text
unfolding at_control after_backslash after_unicode message_kind
json_failure_kind raw offset message =
    if at_control raw offset
    then some (lit "raw_control")
    else if_so (after_backslash raw offset) (lit "invalid_escape") (
        if_so (after_unicode raw offset) (lit "invalid_escape")
          (some (message_kind raw offset message)))

unfoldable pub text_format : Text → Text
text_format trimmed =
    if is_nil trimmed
    then lit "empty"
    else if has_prefix trimmed fence
    then lit "markdown"
    else if has_prefix trimmed (b'{' ∷ [])
    then lit "json_object"
    else if has_prefix trimmed (b'[' ∷ [])
    then lit "json_array"
    else if has_prefix trimmed (b'"' ∷ [])
    then lit "json_string"
    else lit "text_or_code"

abbrev pub failure_text : ℕ → Text → Text
failure_text offset kind = lit "; json_offset=" ++ decimal offset ++ lit "; json_failure=" ++ kind

abbrev pub shape_text : Text → ℕ → Text → Text
shape_text format bytes tail = lit "format=" ++ format ++ lit "; bytes=" ++ decimal bytes ++ tail

abbrev pub with_kind : Text → ℕ → ℕ → Option Text → Option Text
with_kind format bytes offset none = none
with_kind format bytes offset (some kind) =
    some (shape_text format bytes (failure_text offset kind))

-- What encoding/json says of a text that is not JSON: the offset of its SyntaxError, and the message;
-- and how fmt writes the type of a value.
module _ (c : Codec) (syntax_error : Text → Option (ℕ × Text)) (is_nil_value : c.Value → Bool)
    (type_name : c.Value → Text) where
  abbrev pub with_failure : Text → Text → Option (ℕ × Text) → Option Text
  with_failure raw format none = some (shape_text format (length raw) [])
  with_failure raw format (some (offset, message)) =
      with_kind format (length raw) offset (json_failure_kind raw offset message)

  abbrev pub shape_of : c.Value → Option Text → Option Text
  shape_of v none =
      some
        (if is_nil_value v then lit "format=missing" else lit "format=non_string_" ++ type_name v)
  shape_of v (some raw) = with_failure raw (text_format (trim_space raw)) (syntax_error raw)

  -- `transportShape`
  unfoldable pub transport_shape : c.Value → Option Text
  unfolding json_failure_kind text_format
  transport_shape v = shape_of v (c.as_text v)
