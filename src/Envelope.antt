-- ===== src/Envelope.antt =====
-- basispoints/envelope.go: the envelope in which a model writes a tool call, with the repair of its
-- JSON strings. The JSON values and their decoder are the record `Codec`.
pub mod Repair
pub mod Decode
pub mod Custom
pub mod Shape
use cliproxyapi_plugin_basis.Common.{
  ℕ, zero, suc, ◌+◌, ◌-◌, ◌^◌, Bool, true, false, not, ◌&&◌, ◌||◌, Option, none, some, List, [],
  ◌∷◌, ◌++◌, is_nil, leb, ltb, ◌==◌, if◌then◌else◌, length, take, drop, Result, ok, err,
}
use cliproxyapi_plugin_basis.Common.Text.{Text, lit, ◌=ᵗ◌, trim_space, equal_fold}

-- The escapes of one letter.
abbrev pub simple_escape : ℕ → Bool
simple_escape c =
    c == b'"'
    || c == b'\\'
    || c == b'/'
    || c == b'b'
    || c == b'f'
    || c == b'n'
    || c == b'r'
    || c == b't'

abbrev pub is_hex : ℕ → Bool
is_hex c = (leb b'0' c && leb c b'9') || (leb b'a' c && leb c b'f') || (leb b'A' c && leb c b'F')

-- Four hexadecimal digits come first.
abbrev pub four_hex : Text → Bool
four_hex (a ∷ b ∷ c ∷ d ∷ s) = is_hex a && is_hex b && is_hex c && is_hex d
four_hex s = false

-- Whether a backslash may stand before this.
abbrev pub valid_escape : ℕ → Text → Bool
valid_escape next rest = simple_escape next || (next == b'u' && four_hex rest)

-- The escape of a raw control character that is repaired.
abbrev pub escaped : ℕ → Option ℕ
escaped c =
    if c == 10 then some b'n' else if c == 13 then some b'r' else if c == 9 then some b't' else none

-- What is written for a byte inside a string: its escape, itself, or, for a backslash, what depends
-- on whether an escape follows. `one` and `two` are the repairs of what follows one byte and two.
abbrev pub repaired : Option ℕ → Bool → Bool → ℕ → ℕ → Text → Text → Text
repaired (some e) backslash valid c next one two = b'\\' ∷ e ∷ one
repaired none false valid c next one two = c ∷ one
repaired none true true c next one two = b'\\' ∷ next ∷ two
repaired none true false c next one two = b'\\' ∷ b'\\' ∷ one

-- Whether a string goes on after a byte.
abbrev pub toggled : Bool → ℕ → Bool
toggled quoted c = if c == b'"' then not quoted else quoted

-- `repairTransportJSONStrings`, after a text that leaves `quoted`.
unfoldable pub repair_from : Bool → Text → Text
repair_from quoted [] = []
repair_from quoted (c ∷ []) =
    if toggled quoted c then repaired (escaped c) false false c c [] [] else c ∷ []
repair_from quoted (c ∷ next ∷ rest) =
    let inside = toggled quoted c in
    let one = repair_from inside (next ∷ rest) in
    let two = repair_from inside rest in
    if inside
    then repaired (escaped c) (c == b'\\') (valid_escape next rest) c next one two
    else c ∷ one

unfoldable pub repair_transport_json_strings : Text → Text
repair_transport_json_strings raw = repair_from false raw
