-- ===== src/Structured.antt =====
-- basispoints/structured_output.go: the format that a client asks of the final answer, and the check
-- of that answer. The JSON schema compiler is a parameter.
use cliproxyapi_plugin_basis.Common.{
  ℕ, ◌+◌, ◌*◌, ◌^◌, Bool, true, false, not, ◌&&◌, ◌||◌, Option, none, some, List, [], ◌∷◌, ◌++◌,
  is_nil, leb, ltb, ◌==◌, if◌then◌else◌, length, Result, ok, err, guard, ◌>>◌, ◌>>=◌,
}
use cliproxyapi_plugin_basis.Common.Text.{Text, lit, ◌=ᵗ◌, elem, has_prefix}
use cliproxyapi_plugin_basis.Json.{
  Json, null, bool, string, object, Fields, end, entry, as_string, as_object, fields_of, items_of,
  text_at, get_field, Coding,
}
use cliproxyapi_plugin_basis.Tools.{Structured, is_tool}

pub data StructuredError : Type 0 where
  text_not_object format_not_object unknown_format unsupported_field bad_format_name bad_strict
        bad_description no_schema schema_too_large bad_schema :
      StructuredError
  -- a final answer that is refused
  bad_answer_text unsupported_content not_json not_accepted : StructuredError

abbrev pub is_format_byte : ℕ → Bool
is_format_byte c =
    (leb b'a' c && leb c b'z')
    || (leb b'A' c && leb c b'Z')
    || (leb b'0' c && leb c b'9')
    || c == b'_'
    || c == b'-'

unfoldable pub all_format_bytes : Text → Bool
all_format_bytes [] = true
all_format_bytes (c ∷ s) = is_format_byte c && all_format_bytes s

-- `structuredFormatName`
abbrev pub is_format_name : Text → Bool
is_format_name s = not (is_nil s) && not (ltb 64 (length s)) && all_format_bytes s

abbrev pub is_format_key : Text → Text → Bool
is_format_key kind key =
    key =ᵗ lit "type"
    || (kind =ᵗ lit "json_schema"
        && elem key (lit "name" ∷ lit "schema" ∷ lit "strict" ∷ lit "description" ∷ []))

unfoldable pub only_format_keys : Text → Fields → Bool
only_format_keys kind end = true
only_format_keys kind (entry key v fs) = is_format_key kind key && only_format_keys kind fs

abbrev pub null_or_bool : Json → Bool
null_or_bool null = true
null_or_bool (bool b) = true
null_or_bool _ = false

abbrev pub null_or_string : Json → Bool
null_or_string null = true
null_or_string (string s) = true
null_or_string _ = false

abbrev pub schema_or : Option Fields → Result StructuredError Fields
schema_or none = err no_schema
schema_or (some fs) = ok fs

abbrev pub compiled_or : Option (Json → Bool) → Result StructuredError (Json → Bool)
compiled_or none = err bad_schema
compiled_or (some accepts) = ok accepts

-- A format with a schema; `compile` gives the validator of a schema that is valid and refers to
-- nothing outside.
unfoldable pub schema_format :
    Coding → (Fields → Option (Json → Bool)) → Fields → Result StructuredError Structured
schema_format k compile format =
    guard (is_format_name (text_at (lit "name") format)) bad_format_name
    >> (guard (null_or_bool (get_field (lit "strict") format)) bad_strict
        >> (guard (null_or_string (get_field (lit "description") format)) bad_description
            >> (schema_or (as_object (get_field (lit "schema") format)) >>= λ schema.
                guard (not (ltb (2 ^ 20) (length (k.encode (object schema))))) schema_too_large
                >> (compiled_or (compile schema) >>= λ accepts.
                    ok (record { format = format; schema = some accepts })))))

abbrev pub some_format :
    Result StructuredError Structured → Result StructuredError (Option Structured)
some_format (ok s) = ok (some s)
some_format (err e) = err e

abbrev pub format_of :
    Coding → (Fields → Option (Json → Bool)) → Fields → Result StructuredError (Option Structured)
format_of k compile format =
    let kind = text_at (lit "type") format in
    if kind =ᵗ lit "text"
    then ok none
    else (guard (kind =ᵗ lit "json_object" || kind =ᵗ lit "json_schema") unknown_format
        >> (guard (only_format_keys kind format) unsupported_field
            >> (if kind =ᵗ lit "json_object"
                then ok (some (record { format = format; schema = none }))
                else some_format (schema_format k compile format))))

abbrev pub format_value :
    Coding → (Fields → Option (Json → Bool)) → Json → Result StructuredError (Option Structured)
format_value k compile null = ok none
format_value k compile (object format) = format_of k compile format
format_value k compile _ = err format_not_object

-- `prepareStructuredOutput`
unfoldable pub prepare_structured_output :
    Coding → (Fields → Option (Json → Bool)) → Json → Result StructuredError (Option Structured)
prepare_structured_output k compile null = ok none
prepare_structured_output k compile (object config) =
    format_value k compile (get_field (lit "format") config)
prepare_structured_output k compile _ = err text_not_object

-- `structuredOutput.instructions`
unfoldable pub structured_instructions : Coding → Structured → Text
structured_instructions k s =
    lit
      "The client requires a structured final answer. Your final assistant answer must be exactly one JSON value, with no Markdown fences or surrounding prose. Tool calls and refusals remain separate protocol items; use the client tool transport as needed before the final answer. The gateway validates the final JSON before returning it to the client."
    ++ elim s.schema [
      | none ↦ []
      | some accepts ↦
          lit " The final answer must satisfy the schema in this output format: \n"
          ++ k.encode (object s.format)
    ]

-- The variables of the loop over the output.
pub record Answer : Type 0 where
  pub answer : Text
  pub has_tool : Bool
  pub has_refusal : Bool

abbrev pub max_answer : ℕ
max_answer = 16 * 2 ^ 20

abbrev pub add_text : Answer → Option Text → Result StructuredError Answer
add_text a none = err bad_answer_text
add_text a (some value) =
    if ltb max_answer (length a.answer + length value)
    then err bad_answer_text
    else ok (record a { answer = a.answer ++ value })

abbrev pub answer_part : Answer → Fields → Result StructuredError Answer
answer_part a part =
    let kind = text_at (lit "type") part in
    if kind =ᵗ lit "output_text"
    then add_text a (as_string (get_field (lit "text") part))
    else if kind =ᵗ lit "refusal"
    then ok (record a { has_refusal = true })
    else err unsupported_content

unfoldable pub answer_parts : Answer → List Json → Result StructuredError Answer
answer_parts a [] = ok a
answer_parts a (raw ∷ rest) = answer_part a (fields_of raw) >>= λ a'. answer_parts a' rest

unfoldable pub answer_item : Answer → Fields → Result StructuredError Answer
unfolding answer_parts
answer_item a item =
    let a' = record a { has_tool = a.has_tool || is_tool item } in
    if text_at (lit "type") item =ᵗ lit "message"
    then answer_parts a' (items_of (get_field (lit "content") item))
    else ok a'

unfoldable pub answer_items : Answer → List Json → Result StructuredError Answer
unfolding answer_item
answer_items a [] = ok a
answer_items a (raw ∷ rest) = answer_item a (fields_of raw) >>= λ a'. answer_items a' rest

abbrev pub accepted_by : Option (Json → Bool) → Json → Bool
accepted_by none instance_value = true
accepted_by (some accepts) instance_value = accepts instance_value

abbrev pub judged : Structured → Option Json → Result StructuredError (Unit {0})
judged s none = err not_json
judged s (some v) = guard (accepted_by s.schema v) not_accepted

abbrev pub final_answer : Coding → Structured → Answer → Result StructuredError (Unit {0})
final_answer k s a =
    if a.has_tool || (a.has_refusal && is_nil a.answer) then ok tt else judged s (k.decode a.answer)

-- `structuredOutput.validate`
unfoldable pub validate_structured :
    Coding → Structured → Fields → Result StructuredError (Unit {0})
unfolding answer_items
validate_structured k s response =
    answer_items (record { answer = []; has_tool = false; has_refusal = false })
      (items_of (get_field (lit "output") response))
    >>= λ a. final_answer k s a

-- `isStructuredMessageEvent`
unfoldable pub is_structured_message_event : Text → Fields → Bool
is_structured_message_event kind item =
    has_prefix kind (lit "response.output_text.")
    || has_prefix kind (lit "response.refusal.")
    || has_prefix kind (lit "response.content_part.")
    || (has_prefix kind (lit "response.output_item.") && text_at (lit "type") item =ᵗ lit "message")
