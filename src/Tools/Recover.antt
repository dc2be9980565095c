-- ===== src/Tools/Recover.antt =====
-- `recoverTransportEnvelope` of basispoints/envelope.go: a call of one tool of the catalog that is
-- spelled as code.
use cliproxyapi_plugin_basis.Common.{
  ℕ, Bool, false, ◌&&◌, ◌||◌, Option, none, some, [], ◌∷◌, is_nil, leb, ltb, ◌==◌, if◌then◌else◌,
  length, Result, ok, err,
}
use cliproxyapi_plugin_basis.Common.Text.{
  Text, lit, ◌=ᵗ◌, cut_prefix, trim_left, trim_prefix, trim_space,
}
use cliproxyapi_plugin_basis.Common.Assoc.{Assoc, lookup}
use cliproxyapi_plugin_basis.Envelope.Decode.{
  EnvelopeError, max_envelope_bytes, decode_transport_envelope, envelope_name,
}
use cliproxyapi_plugin_basis.Json.{
  Json, string, object, Fields, as_string, fields_of, object_of, Coding, json_codec,
}
use cliproxyapi_plugin_basis.Tools.{Tool}

-- The classes of `catalogInvocation`.
abbrev pub is_blank : ℕ → Bool
is_blank c = c == 9 || c == 10 || c == 12 || c == 13 || c == 32

abbrev pub is_letter : ℕ → Bool
is_letter c = (leb b'A' c && leb c b'Z') || (leb b'a' c && leb c b'z') || c == b'_'

abbrev pub is_name_byte : ℕ → Bool
is_name_byte c = is_letter c || (leb b'0' c && leb c b'9') || c == b'.' || c == b'-'

-- The name that a text begins with, and what follows it.
unfoldable pub cut_name : Text → Text × Text
cut_name [] = ([], [])
cut_name (c ∷ s) =
    let (name, rest) = cut_name s in if is_name_byte c then (c ∷ name, rest) else ([], c ∷ s)

abbrev pub opened : Text → Text → Option (Text × Text)
opened name (c ∷ rest) = if c == b'(' then some (name, rest) else none
opened name [] = none

-- `([A-Za-z_][A-Za-z0-9_.-]*)\s*\(`
unfoldable pub match_callee : Text → Option (Text × Text)
match_callee [] = none
match_callee (c ∷ s) =
    let (name, rest) = cut_name (c ∷ s) in
    if is_letter c then opened name (trim_left is_blank rest) else none

-- A word and the space after it.
abbrev pub after_word : Option Text → Option Text
after_word none = none
after_word (some []) = none
after_word (some (c ∷ s)) = if is_blank c then some (trim_left is_blank s) else none

abbrev pub skip_word : Text → Text → Option Text
skip_word word s = after_word (cut_prefix word s)

abbrev pub callee_after : Option Text → Option (Text × Text)
callee_after none = none
callee_after (some s) = match_callee s

abbrev pub or_else : Option (Text × Text) → Option (Text × Text) → Option (Text × Text)
or_else none other = other
or_else (some m) other = some m

abbrev pub await_after : Option Text → Option Text
await_after none = none
await_after (some s) = skip_word (lit "await") s

-- `catalogInvocation`: the name that is called, and what follows the parenthesis. The alternatives
-- are tried in their order.
unfoldable pub catalog_invocation : Text → Option (Text × Text)
unfolding match_callee
catalog_invocation s = or_else (callee_after (await_after (skip_word (lit "return") s))) (
    or_else (callee_after (skip_word (lit "await") s))
      (or_else (callee_after (skip_word (lit "return") s)) (match_callee s)))

-- Nothing but the end of the call may follow its argument.
abbrev pub closes_call : Text → Bool
closes_call (c ∷ rest) = c == b')' && (is_nil (trim_space rest) || trim_space rest =ᵗ lit ";")
closes_call [] = false

abbrev pub invoked_envelope : Text → Tool → Json → Option Fields
invoked_envelope name info (object args) =
    if info.kind =ᵗ lit "function"
    then some (object_of ((lit "name", string name) ∷ (lit "arguments", object args) ∷ []))
    else none
invoked_envelope name info (string input) =
    if info.kind =ᵗ lit "custom"
    then some (object_of ((lit "name", string name) ∷ (lit "input", string input) ∷ []))
    else none
invoked_envelope name info _ = none

abbrev pub invoked_argument : Text → Tool → Option (Json × Text) → Option Fields
invoked_argument name info none = none
invoked_argument name info (some (literal, tail)) =
    if closes_call (trim_space tail) then invoked_envelope name info literal else none

-- The tool of a name, also without the prefix of the host.
abbrev pub named_tool : Assoc Tool → Text → Option (Text × Tool)
named_tool tools name = elim (lookup name tools) [
  | some info ↦ some (name, info)
  | none ↦ elim (lookup (trim_prefix name (lit "functions.")) tools) [
    | some info ↦ some (trim_prefix name (lit "functions."), info)
    | none ↦ none
  ]
]

abbrev pub known_envelope : Coding → Assoc Tool → Result EnvelopeError Json → Option Fields
known_envelope k tools (err e) = none
known_envelope k tools (ok envelope) = elim (envelope_name (json_codec k) envelope) [
  | err e ↦ none
  | ok name ↦ elim (lookup name tools) [ none ↦ none | some info ↦ some (fields_of envelope) ]
]

abbrev pub invocation_envelope : Coding → Assoc Tool → Text → Option (Text × Text) → Option Fields
invocation_envelope k tools raw none =
    known_envelope k tools (decode_transport_envelope (json_codec k) (string raw))
invocation_envelope k tools raw (some (callee, argument)) = elim (named_tool tools callee) [
  | none ↦ none
  | some (name, info) ↦ invoked_argument name info (k.decode_first argument)
]

abbrev pub recover_text : Coding → Assoc Tool → Option Text → Option Fields
recover_text k tools none = none
recover_text k tools (some raw) =
    if ltb max_envelope_bytes (length raw)
    then none
    else invocation_envelope k tools (trim_space raw) (catalog_invocation (trim_space raw))

-- `recoverTransportEnvelope`
unfoldable pub recover_transport_envelope : Coding → Json → Assoc Tool → Option Fields
recover_transport_envelope k value tools = recover_text k tools (as_string value)
