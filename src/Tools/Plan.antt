-- ===== src/Tools/Plan.antt =====
-- basispoints/plan.go: a call of the model's own plan tool, as a call of the client's.
pub mod Schema
pub mod Statuses
pub mod Aliases
pub mod Steps
use cliproxyapi_plugin_basis.Common.{
  ℕ, Bool, true, false, not, ◌&&◌, ◌||◌, Option, none, some, List, [], ◌∷◌, ◌++◌, map, is_nil, ◌==◌,
  if◌then◌else◌, Result, ok, err, ◌>>=◌, ◌>>◌, guard,
}
use cliproxyapi_plugin_basis.Common.Text.{Text, lit, ◌=ᵗ◌, elem, trim_space, to_lower}
use cliproxyapi_plugin_basis.Common.Assoc.{Assoc, lookup}
use cliproxyapi_plugin_basis.Json.{
  Json, null, string, array, object, Fields, end, as_string, as_object, as_items, fields_of, text,
  text_at, is_null, find_field, get_field, set_field, object_of, of_list, Coding, fingerprint,
  object_read,
}
use cliproxyapi_plugin_basis.Tools.{
  Tool, Bridge, ToolError, bad_plan, PlanError, no_plan_call, ambiguous_tool, no_schema,
  bad_arguments, no_steps, bad_step, bad_description, bad_status, bad_explanation, schema_mismatch,
  plan_call_id, has_name, replay_put,
}
use cliproxyapi_plugin_basis.Tools.Plan.Schema.{plan_schema_accepts, schema_levels}

-- A text under one of the keys; the error is a value that is no text, or one that differs from the
-- value found before.
abbrev pub alias_value : Option Text → Option Text → Result PlanError (Option Text)
alias_value found none = err bad_description
alias_value none (some candidate) = ok (some candidate)
alias_value (some s) (some candidate) =
    if s =ᵗ candidate then ok (some candidate) else err bad_description

abbrev pub alias_step : Option Text → Option Json → Result PlanError (Option Text)
alias_step found none = ok found
alias_step found (some raw) = alias_value found (as_string raw)

unfoldable pub alias_from : Fields → Option Text → List Text → Result PlanError (Option Text)
alias_from value found [] = ok found
alias_from value found (key ∷ keys) =
    alias_step found (find_field key value) >>= λ found'. alias_from value found' keys

-- `planTextAlias`
unfoldable pub plan_text_alias : Fields → List Text → Result PlanError (Option Text)
unfolding alias_from
plan_text_alias value keys = alias_from value none keys

abbrev pub underscored : ℕ → ℕ
underscored c = if c == b'-' || c == b' ' then b'_' else c

-- The words for each status.
abbrev pub pending_words : List Text
pending_words =
    lit "pending"
    ∷ lit "not_started"
    ∷ lit "todo"
    ∷ lit "planned"
    ∷ lit "queued"
    ∷ lit "blocked"
    ∷ []

abbrev pub progress_words : List Text
progress_words = lit "in_progress" ∷ lit "active" ∷ lit "started" ∷ lit "doing" ∷ lit "current" ∷ []

abbrev pub completed_words : List Text
completed_words = lit "completed" ∷ lit "complete" ∷ lit "done" ∷ lit "finished" ∷ []

-- `normalizeNativePlanStatus`
unfoldable pub normalize_native_plan_status : Text → Text
normalize_native_plan_status status =
    let word = map underscored (to_lower (trim_space status)) in
    if elem word pending_words
    then lit "pending"
    else if elem word progress_words
    then lit "in_progress"
    else if elem word completed_words
    then lit "completed"
    else []

-- The description of a step, which is there and not blank.
abbrev pub described_step : Result PlanError (Option Text) → Result PlanError Text
described_step (err e) = err bad_description
described_step (ok none) = err bad_description
described_step (ok (some s)) = if is_nil (trim_space s) then err bad_description else ok s

unfoldable pub plan_step_of : Option Fields → Result PlanError Json
unfolding plan_text_alias normalize_native_plan_status
plan_step_of none = err bad_step
plan_step_of (some step) =
    described_step (plan_text_alias step (lit "step" ∷ lit "description" ∷ lit "title" ∷ []))
    >>= λ description.
        let status = normalize_native_plan_status (text_at (lit "status") step) in
        guard (not (is_nil status)) bad_status
        >> ok (
            object
              (object_of ((lit "step", string description) ∷ (lit "status", string status) ∷ [])))

-- The loop over the steps.
unfoldable pub plan_steps : List Json → Result PlanError (List Json)
plan_steps [] = ok []
plan_steps (value ∷ rest) =
    plan_step_of (as_object value) >>= λ step. plan_steps rest >>= λ steps. ok (step ∷ steps)

-- The client's plan tool, declared under exactly one of its names.
abbrev pub one_declared : Option Tool → Option Tool → Option Tool
one_declared (some t) none = some t
one_declared none (some t) = some t
one_declared _ _ = none

abbrev pub function_tool : Option Tool → Result PlanError Tool
function_tool none = err ambiguous_tool
function_tool (some t) = if t.kind =ᵗ lit "function" then ok t else err ambiguous_tool

abbrev pub plan_tool : Assoc Tool → Result PlanError Tool
plan_tool tools =
    function_tool
      (one_declared (lookup (lit "update_plan") tools) (lookup (lit "functions.update_plan") tools))

-- The arguments: a map, or the text of one; null is the nil map.
abbrev pub arguments_read : Option Json → Result PlanError Fields
arguments_read none = err bad_arguments
arguments_read (some v) = ok (fields_of v)

abbrev pub plan_arguments : Coding → Json → Result PlanError Fields
plan_arguments k (object fs) = ok fs
plan_arguments k v = arguments_read (object_read (k.decode (text v)))

abbrev pub steps_or : Option (List Json) → Result PlanError (List Json)
steps_or none = err no_steps
steps_or (some steps) = ok steps

abbrev pub explained : Option Text → Fields → Fields
explained none plan = plan
explained (some s) plan = set_field (lit "explanation") (string s) plan

abbrev pub explanation_or : Result PlanError (Option Text) → Result PlanError (Option Text)
explanation_or (err e) = err bad_explanation
explanation_or (ok o) = ok o

-- The client's plan that a native plan stands for.
unfoldable pub translated_plan : Fields → Result PlanError Fields
unfolding plan_steps
translated_plan arguments = steps_or (as_items (get_field (lit "plan") arguments)) >>= λ steps.
    plan_steps steps >>= λ plan.
    explanation_or (plan_text_alias arguments (lit "explanation" ∷ lit "summary" ∷ []))
    >>= λ explanation.
        ok (explained explanation (object_of ((lit "plan", array (of_list plan)) ∷ [])))

abbrev pub with_namespace : Text → Fields → Fields
with_namespace namespace item =
    if is_nil namespace then item else set_field (lit "namespace") (string namespace) item

abbrev pub plan_item : Coding → Fields → Tool → Fields → Fields
plan_item k native selected plan =
    let call_id = text_at (lit "call_id") native in
    let id = text_at (lit "id") native in
    with_namespace selected.namespace (
      object_of (
        (lit "type", string (lit "function_call"))
        ∷ (lit "id", string (if is_nil id then lit "fc_" ++ fingerprint k (string call_id) else id))
        ∷ (lit "call_id", string call_id)
        ∷ (lit "name", string selected.name)
        ∷ (lit "arguments", string (k.encode (object plan)))
        ∷ (lit "status", string (lit "completed"))
        ∷ []))

abbrev pub is_plan_name : Text → Bool
is_plan_name name = name =ᵗ lit "update_plan" || name =ᵗ lit "functions.update_plan"

abbrev pub has_plan_schema : Tool → Bool
has_plan_schema t =
    text_at (lit "type") t.parameters =ᵗ lit "object"
    && not
        (is_null (get_field (lit "plan") (fields_of (get_field (lit "properties") t.parameters))))

-- The client's item, before it is cached.
unfoldable pub planned_call : Coding → Assoc Tool → Fields → Result PlanError Fields
unfolding translated_plan plan_schema_accepts
planned_call k tools native =
    guard
      (text_at (lit "type") native =ᵗ lit "function_call"
        && is_plan_name (text_at (lit "name") native))
      no_plan_call
    >> (plan_tool tools >>= λ selected.
        guard (has_plan_schema selected) no_schema
        >> (plan_arguments k (get_field (lit "arguments") native) >>= λ arguments.
            translated_plan arguments >>= λ plan.
            guard (plan_schema_accepts schema_levels (object plan) selected.parameters)
              schema_mismatch
            >> (guard (has_name (text_at (lit "call_id") native)) plan_call_id
                >> ok (plan_item k native selected plan))))

abbrev pub cached_plan :
    Coding
    → Bridge
    → Fields
    → Result PlanError Fields
    → Text
    → (Fields → Text)
    → Result ToolError (Fields × Bridge)
cached_plan k b native (err e) id signature = err (bad_plan e)
cached_plan k b native (ok result) id signature =
    replay_put k b id native (signature result) >>= λ b'. ok (result, b')

-- `translateNativePlan`, given the fingerprint of a client's call.
unfoldable pub translate_native_plan :
    Coding → (Fields → Text) → Fields → Bridge → Result ToolError (Fields × Bridge)
unfolding planned_call
translate_native_plan k signature native b =
    cached_plan k b native (planned_call k b.tools native) (text_at (lit "call_id") native)
      signature
