-- ===== src/Tests/Calling.antt =====
-- The catalog, the calls and the history of basispoints/tools.go, the plans of basispoints/plan.go and
-- the events of basispoints/stream.go on concrete inputs.
use cliproxyapi_plugin_basis.Replay.Order.{find_in, total}
use cliproxyapi_plugin_basis.Replay.Recency.{get_recent, put_recent, trim, without}
use cliproxyapi_plugin_basis.Common.{
  String, ◌≡◌, refl, inl, true, Option, none, some, List, [], ◌∷◌, All, Result, ok, err,
  if◌then◌else◌,
}
use cliproxyapi_plugin_basis.Common.Text.{
  Text, lit, ◌=ᵗ◌, trim_space, trim_left, trim_right, cut_prefix, trim_prefix, has_prefix, elem,
  to_lower,
}
use cliproxyapi_plugin_basis.Common.Assoc.{Assoc, lookup, insert}
use cliproxyapi_plugin_basis.Json.{
  Json, string, array, object, Fields, end, fields_of, items_of, of_list, text_at, find_field,
  get_field, object_of, Coding, ltb_text, set_field,
}
use cliproxyapi_plugin_basis.Content.{validate_history_content}
use cliproxyapi_plugin_basis.Content.Checks.{PartsResult, validate_history_content-All}
use cliproxyapi_plugin_basis.Replay.{Cache, empty}
use cliproxyapi_plugin_basis.Replay.Recency.Runs.{
  Operation, put_item, get_item, get_item_for_call, run, run_recent, run-run_recent, operate_recent,
}
use cliproxyapi_plugin_basis.Tools.{
  Tool, Bridge, is_tool, replay_put, is_unsupported_hosted_tool, qualified,
}
use cliproxyapi_plugin_basis.Tools.Collect.{collect_tools}
use cliproxyapi_plugin_basis.Tools.Collect.Declared.{IsDeclared, Collects, collect_tools-Collects}
use cliproxyapi_plugin_basis.Envelope.Decode.{envelope_arguments}
use cliproxyapi_plugin_basis.Tools.Calls.{
  translate_response, translate_output, translate_call, translate_direct_catalog_call,
  finish_client_tool_call, transport_call,
}
use cliproxyapi_plugin_basis.Tools.History.{
  rebuild_native_history_call, call_payload, history_call_fingerprint, transport_arguments,
}
use cliproxyapi_plugin_basis.Tools.Calls.RoundTrip.{rebuild_native_history_call-transport_call}
use cliproxyapi_plugin_basis.Tools.Calls.Response.{Relays, translate_response-Relays}
use cliproxyapi_plugin_basis.Tools.Plan.{
  planned_call, translated_plan, plan_step_of, alias_from, normalize_native_plan_status, plan_steps,
  plan_text_alias,
}
use cliproxyapi_plugin_basis.Tools.Plan.Schema.{
  only_known, accepts_fields, plan_schema_accepts, plan_schema_length, plan_schema_type_matches,
}
use cliproxyapi_plugin_basis.Tools.Plan.Steps.{IsPlan, planned_call-IsPlan}
use cliproxyapi_plugin_basis.Stream.Lines.{transform}
use cliproxyapi_plugin_basis.Stream.Events.{IsWritten}
use cliproxyapi_plugin_basis.Stream.Shown.{fresh, transform-IsWritten}

-- What a result holds, or another value.
abbrev pub value_or : {E A : Type 0} → Result E A → A → A
value_or (ok a) other = a
value_or (err e) other = other

abbrev pub text_field : String → String → Text × Json
text_field key value = (lit key, string (lit value))

-- {"name":"f","arguments":{}}
abbrev f_envelope : Json
f_envelope = object (object_of (text_field "name" "f" ∷ (lit "arguments", object end) ∷ []))

-- {"code":"{f}"}
abbrev f_transport : Json
f_transport = object (object_of (text_field "code" "{f}" ∷ []))

abbrev pub f_call : Json
f_call = object (
    object_of (
      text_field "type" "function_call"
      ∷ text_field "call_id" "c1"
      ∷ text_field "name" "f"
      ∷ (lit "arguments", object end)
      ∷ []))

-- {"type":"response.completed","response":{"output":[{"type":"message"},…]}}
abbrev f_response : Fields
f_response = object_of (
    (
      lit "output",
      array (of_list (object (object_of (text_field "type" "message" ∷ [])) ∷ f_call ∷ [])),
    )
    ∷ [])

abbrev completed : Json
completed =
    object (
      object_of (text_field "type" "response.completed" ∷ (lit "response", object f_response) ∷ []))

abbrev pub coding : Coding
coding = record {
  decode = λ t.
      if t =ᵗ lit "{f}"
      then some f_envelope
      else if t =ᵗ lit "{t}"
      then some f_transport
      else if t =ᵗ lit "{1}"
      then some completed
      else if t =ᵗ lit "{}"
      then some (object end)
      else none;
  decode_first = λ t. none;
  encode = λ v. lit "{}";
  digest = λ t. lit "d";
}

abbrev pub no_bridge : Bridge
no_bridge = record {
  requested_effort = lit "high";
  effort = lit "high";
  warnings = [];
  tools = [];
  unsupported_tools = [];
  structured = none;
  replay = none;
  scope = lit "s";
}

-- A function, a namespace with a custom tool, and a hosted tool.
abbrev declarations : Json
declarations = array (
    of_list (
      object (object_of (text_field "type" "function" ∷ text_field "name" "f" ∷ []))
      ∷ object (
          object_of (
            text_field "type" "namespace"
            ∷ text_field "name" "n"
            ∷ (
              lit "tools",
              array (
                  of_list (
                    object (object_of (text_field "type" "custom" ∷ text_field "name" "c" ∷ []))
                    ∷ [])),
            )
            ∷ []))
      ∷ object (object_of (text_field "type" "web_search" ∷ []))
      ∷ []))

abbrev declared : List Json × Bridge
declared = value_or (collect_tools coding declarations [] no_bridge) ([], no_bridge)

declared_ok : collect_tools coding declarations [] no_bridge ≡ ok declared
unfolding collect_tools ◌=ᵗ◌ text_at get_field object_of set_field lit ltb_text
    is_unsupported_hosted_tool elem lookup insert qualified
declared_ok = refl

collect_tools-Collects_example : Collects [] declared
collect_tools-Collects_example =
    collect_tools-Collects coding declarations [] no_bridge declared.1 declared.0 declared_ok

declared_all : All IsDeclared declared.1.tools
declared_all =
    (collect_tools-Collects coding declarations [] no_bridge declared.1 declared.0
        declared_ok).declared
      tt

abbrev relayed : Fields × Bridge
relayed = value_or (translate_response coding f_response declared.1) (end, no_bridge)

relayed_ok : translate_response coding f_response declared.1 ≡ ok relayed
unfolding translate_response translate_output is_tool text_at get_field set_field object_of lit ◌=ᵗ◌
    ltb_text elem lookup translate_call translate_direct_catalog_call finish_client_tool_call
    envelope_arguments find_field rebuild_native_history_call call_payload replay_put trim_space
    trim_left trim_right cut_prefix trim_prefix has_prefix qualified insert collect_tools
    is_unsupported_hosted_tool history_call_fingerprint
relayed_ok = refl

translate_response-Relays_example :
    Relays coding declared.1.tools
      (items_of (get_field (lit "output") f_response))
      (items_of (get_field (lit "output") relayed.0))
    × (relayed.1.tools ≡ declared.1.tools)
translate_response-Relays_example =
    translate_response-Relays coding f_response relayed.0 declared.1 relayed.1 declared_all
      relayed_ok

transform-IsWritten_example :
    IsWritten declared.1.tools
      (transform (λ n. true) coding (lit "data: {1}\n\n") none (fresh declared.1)).0
transform-IsWritten_example =
    transform-IsWritten (λ n. true) coding declared.1 (lit "data: {1}\n\n") none declared_all

-- A part that is a text, and one that is a file.
abbrev parts : Json
parts = array (
    of_list (
      object (object_of (text_field "type" "input_text" ∷ []))
      ∷ object (object_of (text_field "type" "input_file" ∷ []))
      ∷ []))

validate_history_content-All_example :
    PartsResult
      (λ raw. none)
      (lit "content")
      3
      0
      (items_of parts)
      (validate_history_content (λ raw. none) parts 3 (lit "content"))
validate_history_content-All_example =
    validate_history_content-All (λ raw. none) parts 3 (lit "content")

-- A put, another of its key, and two lookups.
abbrev operations : List Operation
operations =
    put_item (lit "s") (lit "c") (some (lit "{1}")) (lit "x")
    ∷ put_item (lit "s") (lit "c") (some (lit "{2}")) (lit "y")
    ∷ get_item_for_call (lit "s") (lit "c") (lit "x")
    ∷ get_item (lit "s") (lit "c")
    ∷ []

run-run_recent_example :
    (answers : List (Option Text)) × (d : Cache) × (run operations empty ≡ some (answers, d))
    × ((answers, d.order) ≡ run_recent operations [])
run-run_recent_example = run-run_recent operations

operations_answers : (run_recent operations []).0 ≡ none ∷ none ∷ none ∷ some (lit "{2}") ∷ []
unfolding run_recent operate_recent lit get_recent find_in put_recent trim without total ◌=ᵗ◌
operations_answers = refl

-- A step of each spelling of its fields.
abbrev native_plan : Fields
native_plan = object_of (
    text_field "type" "function_call"
    ∷ text_field "name" "update_plan"
    ∷ text_field "call_id" "c2"
    ∷ (
      lit "arguments",
      object (
          object_of (
            (
              lit "plan",
              array (
                  of_list (
                    object (object_of (text_field "step" "read" ∷ text_field "status" "Done" ∷ []))
                    ∷ object (
                        object_of
                          (text_field "title" "write" ∷ text_field "status" "in-progress" ∷ []))
                    ∷ [])),
            )
            ∷ [])),
    )
    ∷ [])

abbrev plan_tools : Assoc Tool
plan_tools =
    (
      lit "update_plan",
      record {
        name = lit "update_plan";
        namespace = [];
        kind = lit "function";
        definition = [];
        parameters = object_of (
            text_field "type" "object"
            ∷ (
              lit "properties",
              object (
                  object_of
                    ((lit "plan", object (object_of (text_field "type" "array" ∷ []))) ∷ [])),
            )
            ∷ []);
      },
    )
    ∷ []

abbrev planned : Fields
planned = value_or (planned_call coding plan_tools native_plan) end

planned_ok : planned_call coding plan_tools native_plan ≡ ok planned
unfolding planned_call translated_plan ◌=ᵗ◌ text_at get_field object_of set_field lit ltb_text
    lookup plan_step_of find_field trim_space trim_right trim_left elem to_lower only_known
    accepts_fields plan_schema_accepts plan_schema_length plan_schema_type_matches alias_from
    normalize_native_plan_status plan_steps plan_text_alias
planned_ok = refl

planned_call-IsPlan_example : IsPlan coding plan_tools native_plan planned
planned_call-IsPlan_example = planned_call-IsPlan coding plan_tools native_plan planned planned_ok

-- {"type":"function_call","call_id":"c1","name":"f","arguments":{}}
abbrev pub f_item : Fields
f_item = fields_of f_call

-- A coding that reads back the envelope and the arguments in which the call is wrapped.
abbrev wrapping : Coding
wrapping = record coding {
  encode =
      λ v. elim (find_field (lit "code") (fields_of v)) [ none ↦ lit "{f}" | some c ↦ lit "{t}" ];
  decode = λ t.
      if t =ᵗ lit "{f}"
      then some f_envelope
      else if t =ᵗ lit "{t}"
      then some (transport_arguments (lit "{f}"))
      else none;
}

abbrev f_tool : Tool
f_tool = record {
  name = lit "f";
  namespace = [];
  kind = lit "function";
  definition = [];
  parameters = end;
}

rebuild_native_history_call-transport_call_example :
    (native : Fields) × (result : Fields) × (rebuild_native_history_call wrapping f_item
      ≡ ok native)
    × (transport_call wrapping native ((lit "f", f_tool) ∷ []) ≡ ok result)
    × (text_at (lit "name") result ≡ text_at (lit "name") f_item)
    × (text_at (lit "namespace") result ≡ [])
    × (text_at (lit "call_id") result ≡ text_at (lit "call_id") f_item)
    × (get_field (lit "arguments") result ≡ string (wrapping.encode (object end)))
unfolding text_at get_field object_of set_field ◌=ᵗ◌ lit ltb_text trim_space trim_right trim_left
    find_field call_payload lookup qualified
rebuild_native_history_call-transport_call_example =
    rebuild_native_history_call-transport_call wrapping f_item ((lit "f", f_tool) ∷ []) f_tool
      (lit "arguments", object end) refl refl refl refl (inl (end, refl, refl)) refl refl
      (record { short = refl; trimmed = refl; nonblank = refl; decodes = refl; object = refl }) refl
