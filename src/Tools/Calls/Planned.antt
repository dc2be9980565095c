-- ===== src/Tools/Calls/Planned.antt =====
-- The calls of the client's plan tool, `translateNativePlan` of basispoints/plan.go.
use cliproxyapi_plugin_basis.Common.{
  true, false, ◌&&◌, Option, none, some, is_nil, arith, ◌≡◌, refl, ap, subst, if_split, Result, ok,
  >>=-All, guard-All,
}
use cliproxyapi_plugin_basis.Common.Text.{Text, lit, ◌=ᵗ◌, =ᵗ_iff}
use cliproxyapi_plugin_basis.Common.Assoc.{Assoc, lookup}
use cliproxyapi_plugin_basis.Json.{
  object, Fields, text, ltb_text, text_at, get_field, set_field, object_of, Coding,
}
use cliproxyapi_plugin_basis.Tools.{
  Tool, PlanError, no_plan_call, no_schema, schema_mismatch, plan_call_id, has_name,
}
use cliproxyapi_plugin_basis.Tools.Plan.{
  plan_item, planned_call, plan_tool, one_declared, function_tool, has_plan_schema, plan_arguments,
  translated_plan, is_plan_name,
}
use cliproxyapi_plugin_basis.Tools.Plan.Schema.{plan_schema_accepts, schema_levels}
use cliproxyapi_plugin_basis.Tools.Calls.Relayed.{
  passes_object, Calls, with_namespace-get, with_namespace-namespace, IfOk,
}
use cliproxyapi_plugin_basis.Tools.Calls.Direct.{CallsDeclared}

plan_tool-found :
    (tools : Assoc Tool)
    → IfOk
        (λ t. (key : Text) × (lookup key tools ≡ some t) × (t.kind ≡ lit "function"))
        (plan_tool tools)
plan_tool-found tools =
    either (lookup (lit "update_plan") tools) (lookup (lit "functions.update_plan") tools) refl refl
  where
    P : Result PlanError Tool → Type 0
    P = IfOk (λ t. (key : Text) × (lookup key tools ≡ some t) × (t.kind ≡ lit "function"))

    function : (key : Text) (t : Tool) → lookup key tools ≡ some t → P (function_tool (some t))
    function key t h =
        if_split P (t.kind =ᵗ lit "function") (λ e. (key, h, (=ᵗ_iff t.kind (lit "function")).0 e))
          (λ _. tt)

    either :
        (a b : Option Tool)
        → lookup (lit "update_plan") tools ≡ a
        → lookup (lit "functions.update_plan") tools ≡ b
        → P (function_tool (one_declared a b))
    either (some t) none h g = function (lit "update_plan") t h
    either none (some t) h g = function (lit "functions.update_plan") t g
    either none none h g = tt
    either (some t) (some s) h g = tt

plan_item-Calls :
    (k : Coding) (native : Fields) (t : Tool) (plan : Fields)
    → is_nil (text_at (lit "call_id") native) ≡ false
    → t.kind ≡ lit "function"
    → Calls k native t (plan_item k native t plan)
unfolding text_at get_field set_field object_of lit ◌=ᵗ◌ ltb_text
plan_item-Calls k native t plan named kind = record {
  name = ap text (with_namespace-get t.namespace (lit "name") _ refl);
  namespace = with_namespace-namespace t.namespace _ refl;
  call_id = ap text (with_namespace-get t.namespace (lit "call_id") _ refl);
  identified = named;
  passes =
      passes_object plan kind (with_namespace-get t.namespace (lit "type") _ refl)
        (with_namespace-get t.namespace (lit "arguments") _ refl);
}

pub planned_call-CallsDeclared :
    (k : Coding) (tools : Assoc Tool) (native : Fields)
    → IfOk (CallsDeclared k tools native) (planned_call k tools native)
unfolding planned_call
planned_call-CallsDeclared k tools native =
    guard-All P
      (text_at (lit "type") native =ᵗ lit "function_call"
        && is_plan_name (text_at (lit "name") native))
      no_plan_call _ tt
      (λ _.
        >>=-All P (plan_tool tools) _ (λ e. tt)
          (λ t p. guard-All P (has_plan_schema t) no_schema _ tt (λ _.
            >>=-All P (plan_arguments k (get_field (lit "arguments") native)) _ (λ e. tt)
              (λ arguments _.
                >>=-All P (translated_plan arguments) _ (λ e. tt)
                  (λ plan _.
                    guard-All P (plan_schema_accepts schema_levels (object plan) t.parameters)
                      schema_mismatch _ tt
                      (λ _.
                        guard-All P (has_name (text_at (lit "call_id") native)) plan_call_id _ tt
                          (λ named. planned t plan named (found t p))))))))
  where
    P : Result PlanError Fields → Type 0
    P = IfOk (CallsDeclared k tools native)

    found :
        (t : Tool)
        → plan_tool tools ≡ ok t
        → (key : Text) × (lookup key tools ≡ some t) × (t.kind ≡ lit "function")
    found t p =
        subst (IfOk (λ t. (key : Text) × (lookup key tools ≡ some t) × (t.kind ≡ lit "function"))) p
          (plan_tool-found tools)

    planned :
        (t : Tool) (plan : Fields)
        → has_name (text_at (lit "call_id") native) ≡ true
        → (key : Text) × (lookup key tools ≡ some t) × (t.kind ≡ lit "function")
        → CallsDeclared k tools native (plan_item k native t plan)
    planned t plan named (key, at, kind) =
        (key, t, at, plan_item-Calls k native t plan (ground (arith, named)) kind)
