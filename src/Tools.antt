-- ===== src/Tools.antt =====
-- The bridge between a Responses client and the gateway, `Bridge` of basispoints/request.go, and the
-- calls of tools in basispoints/tools.go: what the two directions of the translation share.
pub mod Collect
pub mod History
pub mod Recover
pub mod Plan
pub mod Calls
use cliproxyapi_plugin_basis.Common.{
  ℕ, Bool, true, false, not, ◌&&◌, ◌||◌, Option, none, some, List, [], ◌∷◌, ◌++◌, is_nil, ltb,
  if◌then◌else◌, length, Result, ok, err, ◌>>=◌, guard, ◌>>◌,
}
use cliproxyapi_plugin_basis.Common.Text.{Text, lit, ◌=ᵗ◌, elem, has_prefix, trim_space}
use cliproxyapi_plugin_basis.Common.Assoc.{Assoc}
use cliproxyapi_plugin_basis.Content.{ContentError}
use cliproxyapi_plugin_basis.Json.{
  Json, null, string, object, Fields, end, as_string, as_object, text_at, find_field, object_read,
  Coding, fingerprint,
}
use cliproxyapi_plugin_basis.Envelope.Decode.{EnvelopeError}
use cliproxyapi_plugin_basis.Envelope.Custom.{CustomCall}
use cliproxyapi_plugin_basis.Replay.{Cache, put, get}

-- `tool`
pub record Tool : Type 0 where
  pub name : Text
  pub namespace : Text
  pub kind : Text
  pub definition : Text
  pub parameters : Fields

-- `structuredOutput`: the format, and the validator of the compiled schema, if there is a schema.
pub record Structured : Type 0 where
  pub format : Fields
  pub schema : Option (Json → Bool)

-- `Bridge`; the kinds of `unsupported_tools` are the keys of the map, all of which hold true.
pub record Bridge : Type 0 where
  pub requested_effort : Text
  pub effort : Text
  pub warnings : List Text
  pub tools : Assoc Tool
  pub unsupported_tools : List Text
  pub structured : Option Structured
  pub replay : Option Cache
  pub scope : Text

-- The refusals of `translateNativePlan`.
pub data PlanError : Type 0 where
  no_plan_call ambiguous_tool no_schema bad_arguments no_steps bad_step bad_description bad_status
        bad_explanation schema_mismatch plan_call_id :
      PlanError

pub data ToolError : Type 0 where
  invalid_tool unnamed_namespace unnamed_tool : ToolError
  hosted_tool conflicting_tool : Text → ToolError
  -- a history that cannot be replayed
  incomplete_call bad_namespace undecodable_arguments other_arguments bad_input other_call :
      ToolError
  invalid_item reference_item update_item missing_original : ToolError
  bad_content : ContentError → ToolError
  -- a call that the client cannot be given
  bad_transport empty_transport foreign_tool native_tool : ToolError
  bad_custom : CustomCall → ToolError
  bad_envelope : EnvelopeError → ToolError
  other_kind : Text → Text → ToolError
  raw_function missing_call_id conflicting_input input_arguments direct_input : ToolError
  bad_plan : PlanError → ToolError
  -- the cache ran out of entries while it was over its bounds
  cache_fault : ToolError

-- `isUnsupportedHostedTool`
unfoldable pub is_unsupported_hosted_tool : Text → Bool
is_unsupported_hosted_tool kind = elem kind (
    lit "web_search"
    ∷ lit "web_search_preview"
    ∷ lit "web_search_preview_2025_03_11"
    ∷ lit "web_search_2025_08_26"
    ∷ lit "tool_search"
    ∷ lit "image_generation"
    ∷ lit "file_search"
    ∷ lit "code_interpreter"
    ∷ lit "computer"
    ∷ lit "computer_use_preview"
    ∷ lit "mcp"
    ∷ [])

-- `isTool`
unfoldable pub is_tool : Fields → Bool
is_tool item =
    text_at (lit "type") item =ᵗ lit "function_call"
    || text_at (lit "type") item =ᵗ lit "custom_tool_call"

-- `isToolEvent`
unfoldable pub is_tool_event : Text → Bool
is_tool_event kind =
    has_prefix kind (lit "response.function_call_arguments.")
    || has_prefix kind (lit "response.custom_tool_call_input.")

-- The name of a tool in the catalog.
unfoldable pub qualified : Text → Text → Text
qualified namespace name = if is_nil namespace then name else namespace ++ b'.' ∷ name

-- `strings.TrimSpace(s) == s`
abbrev pub is_trimmed : Text → Bool
is_trimmed s = trim_space s =ᵗ s

abbrev pub has_name : Text → Bool
has_name s = not (is_nil s) && is_trimmed s

-- The namespace of a call, blank when it has none, or nothing when it is no trimmed text.
abbrev pub trimmed_text : Option Text → Option Text
trimmed_text none = none
trimmed_text (some s) = if is_trimmed s then some s else none

abbrev pub namespace_value : Option Json → Option Text
namespace_value none = some []
namespace_value (some v) = trimmed_text (as_string v)

-- A JSON object, or a text that is decoded into one; `bad` and `other` are the errors of a text that
-- is no JSON and of any other value.
abbrev pub object_or : ToolError → Json → Result ToolError Fields
object_or other (object fs) = ok fs
object_or other _ = err other

abbrev pub decoded_or : ToolError → ToolError → Option Json → Result ToolError Fields
decoded_or bad other none = err bad
decoded_or bad other (some v) = object_or other v

abbrev pub object_argument : Coding → ToolError → ToolError → Json → Result ToolError Fields
object_argument k bad other (string raw) = decoded_or bad other (k.decode raw)
object_argument k bad other v = object_or other v

-- The identifier of an item that the gateway takes: one with the prefix `fc_` and of at most 64 bytes.
abbrev pub is_item_id : Text → Bool
is_item_id id = has_prefix id (lit "fc_") && not (ltb 64 (length id))

-- `b.replay.put`, by which the item can be found under the call's identifier.
unfoldable pub replay_put : Coding → Bridge → Text → Fields → Text → Result ToolError Bridge
replay_put k b id item signature = elim b.replay [
  | none ↦ ok b
  | some c ↦ elim (put c b.scope id (some (k.encode (object item))) signature) [
    | none ↦ err cache_fault
    | some d ↦ ok (record b { replay = some d })
  ]
]

-- The item that a cached JSON holds.
abbrev pub native_item : Coding → Option Text → Option Fields
native_item k none = none
native_item k (some raw) = elim (k.decode raw) [ none ↦ none | some v ↦ as_object v ]

abbrev pub replay_answer : Coding → Bridge → Option Text × Cache → Option Fields × Bridge
replay_answer k b (raw, c) = (native_item k raw, record b { replay = some c })

-- `b.replay.get`
unfoldable pub replay_get : Coding → Bridge → Text → Option Fields × Bridge
replay_get k b id = elim b.replay [
  | none ↦ (none, b)
  | some c ↦ replay_answer k b (get c b.scope id)
]
