-- ===== src/Tools/Plan/Steps.antt =====
-- What a translated plan holds (basispoints/plan.go).
use cliproxyapi_plugin_basis.Common.{
  true, false, not, ◌&&◌, Option, none, some, List, [], ◌∷◌, ◌≡◌, refl, sym, subst, ◌⊎◌, inl, inr,
  arith, is_nil, map, Result, ok, >>=-All, guard-All,
}
use cliproxyapi_plugin_basis.Tools.Plan.Statuses.{
  statuses, plain_word, normalize_native_plan_status-lookup, map-plain,
}
use cliproxyapi_plugin_basis.Tools.Plan.Aliases.{IfSteps, Describes, described_step-Describes}
use cliproxyapi_plugin_basis.Common.Text.{Text, lit, ◌=ᵗ◌, trim_space, to_lower}
use cliproxyapi_plugin_basis.Common.Assoc.{Assoc, lookup}
use cliproxyapi_plugin_basis.Json.{
  Json, null, string, array, object, Fields, as_object, as_items, of_list, items_of, text_at,
  get_field, set_field, object_of, ltb_text, Coding,
}
use cliproxyapi_plugin_basis.Tools.{
  Tool, PlanError, bad_status, no_plan_call, no_schema, schema_mismatch, plan_call_id, has_name,
}
use cliproxyapi_plugin_basis.Tools.Plan.{
  underscored, normalize_native_plan_status, described_step, plan_step_of, plan_steps,
  plan_text_alias, steps_or, explanation_or, explained, translated_plan, plan_tool, plan_arguments,
  has_plan_schema, is_plan_name, plan_item, planned_call,
}
use cliproxyapi_plugin_basis.Tools.Plan.Schema.{plan_schema_accepts, schema_levels}

-- The client's step for a step of the model: its description, which is not blank, and the client's
-- status for its status.
abbrev pub IsStepOf : Json → Json → Type 0
IsStepOf value v =
    (step : Fields) × (description status : Text) × (as_object value ≡ some step)
    × (v
        ≡ object
            (object_of ((lit "step", string description) ∷ (lit "status", string status) ∷ [])))
    × (is_nil (trim_space description) ≡ false)
    × Describes step (lit "step" ∷ lit "description" ∷ lit "title" ∷ []) description
    × (lookup (plain_word (text_at (lit "status") step)) statuses ≡ some status)

step_lem : (value : Json) → IfSteps (IsStepOf value) (plan_step_of (as_object value))
unfolding plan_step_of
step_lem value = of_fields (as_object value) refl
  where
    of_fields :
        (o : Option Fields) → as_object value ≡ o → IfSteps (IsStepOf value) (plan_step_of o)
    of_fields none p = tt
    of_fields (some step) p =
        >>=-All (IfSteps (IsStepOf value)) (described_step (plan_text_alias step keys)) _ (λ e. tt)
          (λ description q.
            guard-All (IfSteps (IsStepOf value)) (not (is_nil status)) bad_status _ tt (λ h.
              stated description (subst (IfSteps Found) q (described_step-Describes step keys))
                (normalize_native_plan_status-lookup (text_at (lit "status") step)) h))
      where
        keys : List Text
        keys = lit "step" ∷ lit "description" ∷ lit "title" ∷ []

        status : Text
        status = normalize_native_plan_status (text_at (lit "status") step)

        Found : Text → Type 0
        Found s = (is_nil (trim_space s) ≡ false) × Describes step keys s

        stated :
            (description : Text)
            → Found description
            → (is_nil status ≡ true)
              ⊎ (lookup
                    (map underscored (to_lower (trim_space (text_at (lit "status") step))))
                    statuses
                  ≡ some status)
            → not (is_nil status) ≡ true
            → IsStepOf value (
                object (
                  object_of
                    ((lit "step", string description) ∷ (lit "status", string status) ∷ [])))
        stated description d (inl blank) h = absurd (ground (arith, blank, h))
        stated description (d, described) (inr is) h = (
          step,
          description,
          status,
          p,
          refl,
          d,
          described,
          subst (λ w. lookup w statuses ≡ some status)
              (map-plain (to_lower (trim_space (text_at (lit "status") step)))) is,
        )

-- A step for each step of the model, in order.
abbrev pub PlanOf : List Json → List Json → Type 0
PlanOf [] [] = Unit
PlanOf (value ∷ values) (step ∷ steps) = IsStepOf value step × PlanOf values steps
PlanOf _ _ = ⊥

steps_lem : (values : List Json) → IfSteps (PlanOf values) (plan_steps values)
unfolding plan_steps
steps_lem [] = tt
steps_lem (value ∷ rest) =
    >>=-All P (plan_step_of (as_object value)) _ (λ e. tt)
      (λ step p.
        >>=-All P (plan_steps rest) _ (λ e. tt)
          (λ steps q. (
            subst (IfSteps (IsStepOf value)) p (step_lem value),
            subst (IfSteps (PlanOf rest)) q (steps_lem rest),
          )))
  where
    P : Result PlanError (List Json) → Type 0
    P = IfSteps (PlanOf (value ∷ rest))

-- The namespace of a call of a tool: there only where the tool has one.
abbrev pub NamespaceOf : Text → Json → Type 0
NamespaceOf [] v = v ≡ null
NamespaceOf (c ∷ namespace) v = v ≡ string (c ∷ namespace)

-- A call of the client's plan tool, under the identifier of the native call; its plan has a step for
-- each step of the model, and the schema of the tool accepts it.
abbrev pub IsPlan : Coding → Assoc Tool → Fields → Fields → Type 0
IsPlan k tools native result =
    (t : Tool) × (arguments : Fields) × (plan : Fields) × (steps : List Json) × (plan_tool tools
      ≡ ok t)
    × (plan_arguments k (get_field (lit "arguments") native) ≡ ok arguments)
    × PlanOf (items_of (get_field (lit "plan") arguments)) steps
    × (get_field (lit "plan") plan ≡ array (of_list steps))
    × (plan_schema_accepts schema_levels (object plan) t.parameters ≡ true)
    × (get_field (lit "arguments") result ≡ string (k.encode (object plan)))
    × (get_field (lit "type") result ≡ string (lit "function_call"))
    × (get_field (lit "name") result ≡ string t.name)
    × NamespaceOf t.namespace (get_field (lit "namespace") result)
    × (get_field (lit "call_id") result ≡ string (text_at (lit "call_id") native))

abbrev Translates : Fields → Fields → Type 0
Translates arguments plan =
    (steps : List Json) × PlanOf (items_of (get_field (lit "plan") arguments)) steps
    × (get_field (lit "plan") plan ≡ array (of_list steps))

translated_lem : (arguments : Fields) → IfSteps (Translates arguments) (translated_plan arguments)
unfolding translated_plan
translated_lem arguments =
    >>=-All P (steps_or (as_items (get_field (lit "plan") arguments))) _ (λ e. tt)
      (λ values p.
        >>=-All P (plan_steps values) _ (λ e. tt)
          (λ steps q.
            >>=-All P
              (explanation_or (plan_text_alias arguments (lit "explanation" ∷ lit "summary" ∷ [])))
              _ (λ e. tt)
              (λ explanation _. (
                steps,
                subst (λ vs. PlanOf vs steps) (sym (items_lem (get_field (lit "plan") arguments) p))
                    (subst (IfSteps (PlanOf values)) q (steps_lem values)),
                plan_kept explanation steps,
              ))))
  where
    P : Result PlanError Fields → Type 0
    P = IfSteps (Translates arguments)

    items_lem :
        (v : Json) {values : List Json} → steps_or (as_items v) ≡ ok values → items_of v ≡ values
    items_lem (array xs) h = cc
    items_lem _ h = absurd (cc)

    plan_kept :
        (explanation : Option Text) (steps : List Json)
        → get_field
            (lit "plan")
            (explained explanation (object_of ((lit "plan", array (of_list steps)) ∷ [])))
          ≡ array (of_list steps)
    plan_kept none steps = unfold get_field set_field object_of lit ◌=ᵗ◌ in refl
    plan_kept (some s) steps = unfold get_field set_field object_of lit ◌=ᵗ◌ ltb_text in refl

-- The fields of the item that the client receives.
plan_item_lem :
    (k : Coding) (native : Fields) (t : Tool) (plan : Fields)
    → (get_field (lit "arguments") (plan_item k native t plan) ≡ string (k.encode (object plan)))
      × (get_field (lit "type") (plan_item k native t plan) ≡ string (lit "function_call"))
      × (get_field (lit "name") (plan_item k native t plan) ≡ string t.name)
      × NamespaceOf t.namespace (get_field (lit "namespace") (plan_item k native t plan))
      × (get_field (lit "call_id") (plan_item k native t plan)
          ≡ string (text_at (lit "call_id") native))
unfolding get_field set_field object_of lit ◌=ᵗ◌ ltb_text
plan_item_lem k native t plan = by_namespace t.namespace
  where
    by_namespace :
        (namespace : Text)
        → let item = plan_item k native (record t { namespace = namespace }) plan in
          (get_field (lit "arguments") item ≡ string (k.encode (object plan)))
          × (get_field (lit "type") item ≡ string (lit "function_call"))
          × (get_field (lit "name") item ≡ string t.name)
          × NamespaceOf namespace (get_field (lit "namespace") item)
          × (get_field (lit "call_id") item ≡ string (text_at (lit "call_id") native))
    by_namespace [] = (refl, refl, refl, refl, refl)
    by_namespace (c ∷ namespace) = (refl, refl, refl, refl, refl)

planned_lem :
    (k : Coding) (tools : Assoc Tool) (native : Fields)
    → IfSteps (IsPlan k tools native) (planned_call k tools native)
unfolding planned_call
planned_lem k tools native =
    guard-All P
      (text_at (lit "type") native =ᵗ lit "function_call"
        && is_plan_name (text_at (lit "name") native))
      no_plan_call _ tt
      (λ _.
        >>=-All P (plan_tool tools) _ (λ e. tt)
          (λ t p. guard-All P (has_plan_schema t) no_schema _ tt (λ _.
            >>=-All P (plan_arguments k (get_field (lit "arguments") native)) _ (λ e. tt)
              (λ arguments q.
                >>=-All P (translated_plan arguments) _ (λ e. tt)
                  (λ plan r.
                    guard-All P (plan_schema_accepts schema_levels (object plan) t.parameters)
                      schema_mismatch _ tt
                      (λ accepted.
                        guard-All P (has_name (text_at (lit "call_id") native)) plan_call_id _ tt
                          (λ _. stated t arguments plan p q accepted (
                            subst (IfSteps (Translates arguments)) r
                              (translated_lem arguments)))))))))
  where
    P : Result PlanError Fields → Type 0
    P = IfSteps (IsPlan k tools native)

    stated :
        (t : Tool) (arguments plan : Fields)
        → plan_tool tools ≡ ok t
        → plan_arguments k (get_field (lit "arguments") native) ≡ ok arguments
        → plan_schema_accepts schema_levels (object plan) t.parameters ≡ true
        → Translates arguments plan
        → IsPlan k tools native (plan_item k native t plan)
    stated t arguments plan p q accepted (steps, of, kept) =
        let (encoded, kind, name, namespace, call_id) = plan_item_lem k native t plan in
        (
          t, arguments, plan, steps, p, q, of, kept, accepted, encoded, kind, name, namespace,
          call_id,
        )

-- A native call of the plan tool that is translated becomes a call of the client's plan tool, under
-- its name and namespace and the native call's identifier, with a plan that the tool's schema accepts.
-- The plan has a step for each step of the model, in order, with two fields: the description that the
-- model gives, which is not blank, and the client's status for the model's.
pub planned_call-IsPlan :
    (k : Coding) (tools : Assoc Tool) (native result : Fields)
    → planned_call k tools native ≡ ok result
    → IsPlan k tools native result
planned_call-IsPlan k tools native result h =
    subst (IfSteps (IsPlan k tools native)) h (planned_lem k tools native)
