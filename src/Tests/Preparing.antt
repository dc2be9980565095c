-- ===== src/Tests/Preparing.antt =====
-- `Prepare` of basispoints/request.go on a concrete request.
use cliproxyapi_plugin_basis.Common.{◌≡◌, refl, none, some, [], ◌∷◌, ok, err}
use cliproxyapi_plugin_basis.Common.Text.{
  lit, ◌=ᵗ◌, trim_space, trim_right, trim_left, cut_prefix, has_prefix, elem, to_lower,
}
use cliproxyapi_plugin_basis.Common.Assoc.{lookup, insert}
use cliproxyapi_plugin_basis.Content.{
  validate_history_content, validate_part, validate_parts, content_type_diagnostic,
}
use cliproxyapi_plugin_basis.Json.{
  array, object, Fields, end, object_of, of_list, Coding, text_at, get_field, set_field, ltb_text,
  delete_field, find_field,
}
use cliproxyapi_plugin_basis.Structured.{prepare_structured_output}
use cliproxyapi_plugin_basis.Tools.{Bridge, is_unsupported_hosted_tool, qualified}
use cliproxyapi_plugin_basis.Tools.Collect.{collect_tools}
use cliproxyapi_plugin_basis.Tools.History.{
  translate_history, history_items, history_step, item_kind, push_item, keep_item,
}
use cliproxyapi_plugin_basis.Prepare.{
  bad_choice, normalize_effort, prepare, prepare_source, prepare_body, request_tools,
  additional_tools, wire_body,
}
use cliproxyapi_plugin_basis.Prepare.Describe.{
  describe_schema, decimal, decimal_digits, constraints, property_parts,
}
use cliproxyapi_plugin_basis.Prepare.Body.{IsReady, prepare-IsReady}
use cliproxyapi_plugin_basis.Tests.Calling.{value_or, text_field, no_bridge, coding}

-- {"input":"hi","model":" m ","reasoning_effort":"max","tools":[{"type":"function","name":"f"}]}
abbrev pub request : Fields
request = object_of (
    text_field "model" " m "
    ∷ text_field "input" "hi"
    ∷ text_field "reasoning_effort" "max"
    ∷ (
      lit "tools",
      array (
          of_list
            (object (object_of (text_field "type" "function" ∷ text_field "name" "f" ∷ [])) ∷ [])),
    )
    ∷ [])

abbrev requesting : Coding
requesting = record coding { decode = λ t. some (object request) }

abbrev prepared : Fields × Bridge
prepared =
    value_or (prepare requesting (λ raw. none) (λ schema. none) (lit "{}") (lit "s") none)
      (end, no_bridge)

prepared_ok :
    prepare requesting (λ raw. none) (λ schema. none) (lit "{}") (lit "s") none ≡ ok prepared
unfolding prepare prepare_source prepare_body request_tools additional_tools wire_body trim_space
    trim_right trim_left text_at get_field object_of set_field ◌=ᵗ◌ lit ltb_text normalize_effort
    elem to_lower prepare_structured_output collect_tools is_unsupported_hosted_tool lookup insert
    qualified translate_history history_items history_step item_kind push_item keep_item
    validate_history_content validate_part validate_parts content_type_diagnostic delete_field
    find_field has_prefix cut_prefix
prepared_ok = refl

prepare-IsReady_example : IsReady prepared
prepare-IsReady_example =
    prepare-IsReady requesting (λ raw. none) (λ schema. none) (lit "{}") (lit "s") none prepared.0
      prepared.1 prepared_ok

-- A choice other than auto and none is refused.
abbrev choosing : Coding
choosing = record coding {
  decode = λ t.
      some (object (object_of (text_field "model" "m" ∷ text_field "tool_choice" "required" ∷ [])));
}

choice_refused :
    prepare choosing (λ raw. none) (λ schema. none) (lit "{}") (lit "s") none ≡ err bad_choice
unfolding prepare trim_space trim_right trim_left text_at get_field object_of set_field ◌=ᵗ◌ lit
    ltb_text normalize_effort elem to_lower prepare_structured_output
choice_refused = refl

highest : normalize_effort (lit " MAX ") ≡ ok (lit "xhigh")
unfolding normalize_effort elem ◌=ᵗ◌ to_lower trim_space trim_right trim_left lit
highest = refl

one_hundred : decimal 120 ≡ lit "120"
unfolding lit decimal_digits
one_hundred = refl

any_value_described : (k : Coding) → describe_schema 8 k (object end) ≡ lit "Any JSON value."
unfolding lit describe_schema get_field text_at property_parts constraints
any_value_described k = refl
