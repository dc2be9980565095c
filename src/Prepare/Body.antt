-- ===== src/Prepare/Body.antt =====
-- What `Prepare` of basispoints/request.go makes where it succeeds.
use cliproxyapi_plugin_basis.Common.{
  Bool, true, false, not, Option, List, [], ◌∷◌, is_nil, arith, ◌≡◌, refl, sym, ap, ◌∙◌, subst,
  if◌then◌else◌, if_split, Result, ok, err, >>=-All, guard-All, All,
}
use cliproxyapi_plugin_basis.Common.Text.{Text, lit, ◌=ᵗ◌, elem, trim_space, to_lower}
use cliproxyapi_plugin_basis.Common.Assoc.{Assoc}
use cliproxyapi_plugin_basis.Content.{Url}
use cliproxyapi_plugin_basis.Json.{
  Json, bool, string, array, Fields, text, text_at, get_field, set_field, object_of, items_of,
  fields_of, ltb_text, object_read, Coding,
}
use cliproxyapi_plugin_basis.Json.Laws.{get_field-set_field_ne}
use cliproxyapi_plugin_basis.Replay.{Cache}
use cliproxyapi_plugin_basis.Structured.{prepare_structured_output}
use cliproxyapi_plugin_basis.Tools.{Tool, Bridge, ToolError}
use cliproxyapi_plugin_basis.Tools.Collect.{collect_tools}
use cliproxyapi_plugin_basis.Tools.Collect.Declared.{
  IsDeclared, Collects, CollectsResult, Collects-nil, Collects-append, tools_lem,
}
use cliproxyapi_plugin_basis.Tools.Calls.Relayed.{IfOk}
use cliproxyapi_plugin_basis.Tools.History.{translate_history}
use cliproxyapi_plugin_basis.Tools.History.Kept.{translate_history-tools}
use cliproxyapi_plugin_basis.Prepare.{
  PrepareError, no_model, previous_response, bad_choice, normalize_effort, requested_from,
  structured_result, tools_result, additional_tools, request_tools, request_input, managed, keyed,
  output_fields, wire_body, warned, new_bridge, is_choice, prepare_body, prepare_source,
  request_source, prepare,
}

-- The efforts that the gateway knows.
abbrev pub levels : List Text
levels = lit "low" ∷ lit "medium" ∷ lit "high" ∷ lit "xhigh" ∷ []

abbrev IsLevel : Text → Type 0
IsLevel effort = elem effort levels ≡ true

-- What a body for the gateway and its bridge are.
pub record IsReady (r : Fields × Bridge) : Type 0 where
  pub declared : All IsDeclared r.1.tools
  pub level :
      (effort : Text) × (get_field (lit "reasoning_effort") r.0 ≡ string effort)
      × (elem effort levels ≡ true)
  pub named : is_nil (text_at (lit "model") r.0) ≡ false
  pub streamed : get_field (lit "stream") r.0 ≡ bool true
  pub unstored : get_field (lit "store") r.0 ≡ bool false

normalize_effort-IsLevel : (effort : Text) → IfOk IsLevel (normalize_effort effort)
unfolding normalize_effort elem ◌=ᵗ◌ lit
normalize_effort-IsLevel effort =
    if_split P (elem level ([] ∷ lit "medium" ∷ [])) (λ _. refl)
      (λ _. if_split P (elem level (lit "low" ∷ lit "high" ∷ [])) low_or_high (λ _.
        if_split P (elem level highest) (λ _. refl)
          (λ _. if_split P (elem level (lit "none" ∷ lit "minimal" ∷ [])) (λ _. refl) (λ _. tt))))
  where
    level : Text
    level = to_lower (trim_space effort)

    P : Result PrepareError Text → Type 0
    P = IfOk IsLevel

    highest : List Text
    highest =
        lit "xhigh"
        ∷ lit "x-high"
        ∷ lit "extra-high"
        ∷ lit "extra_high"
        ∷ lit "max"
        ∷ lit "ultra"
        ∷ []

    low_or_high : elem level (lit "low" ∷ lit "high" ∷ []) ≡ true → elem level levels ≡ true
    low_or_high h = ground (arith, h)

additional_tools-Collects :
    (k : Coding) (input : List Json) (b : Bridge)
    → CollectsResult b.tools (additional_tools k input b)
unfolding additional_tools
additional_tools-Collects k [] b = Collects-nil b b refl
additional_tools-Collects k (raw ∷ rest) b =
    >>=-All (CollectsResult b.tools) own _ (λ e. tt)
      (λ first p.
        >>=-All (CollectsResult b.tools) (additional_tools k rest first.1) _ (λ e. tt)
          (λ later q.
            Collects-append b.tools first later (subst (CollectsResult b.tools) p own-Collects)
              (subst (CollectsResult first.1.tools) q (additional_tools-Collects k rest first.1))))
  where
    own : Result ToolError (List Json × Bridge)
    own =
        if text_at (lit "type") (fields_of raw) =ᵗ lit "additional_tools"
        then collect_tools k (get_field (lit "tools") (fields_of raw)) [] b
        else ok ([], b)

    own-Collects : CollectsResult b.tools own
    own-Collects =
        if_split (CollectsResult b.tools)
          (text_at (lit "type") (fields_of raw) =ᵗ lit "additional_tools") (λ _. tools_lem k _ [] b)
          (λ _. Collects-nil b b refl)

request_tools-Collects :
    (k : Coding) (source : Fields) (b : Bridge) → CollectsResult b.tools (request_tools k source b)
unfolding request_tools
request_tools-Collects k source b =
    if_split (CollectsResult b.tools) (text_at (lit "tool_choice") source =ᵗ lit "none")
      (λ _. Collects-nil b b refl)
      (λ _.
        >>=-All (CollectsResult b.tools) (collect_tools k (get_field (lit "tools") source) [] b) _
          (λ e. tt)
          (λ first p.
            >>=-All (CollectsResult b.tools) (additional_tools k input first.1) _ (λ e. tt)
              (λ later q.
                Collects-append b.tools first later
                  (subst (CollectsResult b.tools) p (tools_lem k _ [] b))
                  (subst (CollectsResult first.1.tools) q
                    (additional_tools-Collects k input first.1)))))
  where
    input : List Json
    input = items_of (get_field (lit "input") source)

-- The two fields that may be set later leave the others.
managed-get :
    (j : Text) (v : Json) (output : Fields)
    → (lit "context_management" =ᵗ j) ≡ false
    → get_field j (managed v output) ≡ get_field j output
managed-get j (array xs) output h =
    get_field-set_field_ne (lit "context_management") j (array xs) output h
managed-get j _ output h = refl

keyed-get :
    (j : Text) (k : Coding) (scope key : Text) (output : Fields)
    → (lit "prompt_cache_key" =ᵗ j) ≡ false
    → get_field j (keyed k scope key output) ≡ get_field j output
keyed-get j k scope key output h =
    if_split (λ o. get_field j o ≡ get_field j output) (is_nil key) (λ _. refl)
      (λ _. get_field-set_field_ne (lit "prompt_cache_key") j _ output h)

IsReady-body :
    (k : Coding) (source : Fields) (scope model effort : Text) (messages input : List Json)
    (b : Bridge)
    → is_nil model ≡ false
    → IsLevel effort
    → All IsDeclared b.tools
    → IsReady (wire_body k source scope model effort messages input, b)
unfolding wire_body get_field object_of set_field ltb_text ◌=ᵗ◌ lit text_at
IsReady-body k source scope model effort messages input b named level declared = record {
  declared = declared;
  level = (effort, kept (lit "reasoning_effort") refl refl, level);
  named = ap (λ v. is_nil (text v)) (kept (lit "model") refl refl) ∙ named;
  streamed = kept (lit "stream") refl refl;
  unstored = kept (lit "store") refl refl;
}
  where
    key : Text
    key = text_at (lit "prompt_cache_key") source

    kept :
        (j : Text)
        → (lit "context_management" =ᵗ j) ≡ false
        → (lit "prompt_cache_key" =ᵗ j) ≡ false
        → get_field j (wire_body k source scope model effort messages input)
          ≡ get_field j (output_fields k scope key model effort messages input)
    kept j m p =
        managed-get j (get_field (lit "context_management") source) _ m
        ∙ keyed-get j k scope key _ p

warned-IsReady : (body : Fields) (b : Bridge) → IsReady (body, b) → IsReady (body, warned b)
warned-IsReady body b r = record {
  declared = same;
  level = r.level;
  named = r.named;
  streamed = r.streamed;
  unstored = r.unstored;
}
  where
    same : All IsDeclared (warned b).tools
    same = if_split {A = Bridge} (λ b. All IsDeclared b.tools) _ (λ _. r.declared) (λ _. r.declared)

tools_result-IfOk :
    {A : Type 0} (P : A → Type 0) (r : Result ToolError A) → IfOk P r → IfOk P (tools_result r)
tools_result-IfOk P (ok a) h = h
tools_result-IfOk P (err e) h = h

Collects-IfOk :
    (before : Assoc Tool) (r : Result ToolError (List Json × Bridge))
    → CollectsResult before r
    → IfOk (Collects before) r
Collects-IfOk before (ok r) h = h
Collects-IfOk before (err e) h = h

prepare_body-IsReady :
    (k : Coding) (parse : Text → Option Url) (source : Fields) (model : Text) (b : Bridge)
    → is_nil model ≡ false
    → IsLevel b.effort
    → All IsDeclared b.tools
    → IfOk IsReady (prepare_body k parse source model b)
unfolding prepare_body
prepare_body-IsReady k parse source model b named level declared =
    >>=-All (IfOk IsReady) (tools_result (request_tools k source b)) _ (λ e. tt)
      (λ catalog p.
        >>=-All (IfOk IsReady) (request_input (get_field (lit "input") source)) _ (λ e. tt)
          (λ input _.
            >>=-All (IfOk IsReady) (tools_result (translate_history k parse input catalog.1)) _
              (λ e. tt)
              (λ done q. warned-IsReady _ done.bridge (
                IsReady-body k source b.scope model b.effort _ done.input done.bridge named level (
                  subst (All IsDeclared)
                    (sym (
                      subst (IfOk (λ done. done.bridge.tools ≡ catalog.1.tools)) q (
                        tools_result-IfOk _ (translate_history k parse input catalog.1)
                          (translate_history-tools k parse input catalog.1))))
                    ((subst (IfOk (Collects b.tools)) p (
                        tools_result-IfOk (Collects b.tools) (request_tools k source b)
                          (Collects-IfOk b.tools _ (request_tools-Collects k source b)))).declared
                      declared))))))

prepare_source-IsReady :
    (k : Coding) (parse : Text → Option Url) (compile : Fields → Option (Json → Bool))
    (source : Fields) (scope : Text) (replay : Option Cache)
    → IfOk IsReady (prepare_source k parse compile source scope replay)
unfolding prepare_source
prepare_source-IsReady k parse compile source scope replay =
    guard-All P (not (is_nil model)) no_model _ tt (λ named.
      guard-All P (is_nil (text_at (lit "previous_response_id") source)) previous_response _ tt
        (λ _.
          >>=-All P (requested_from source (get_field (lit "reasoning") source)) _ (λ e. tt)
            (λ requested _.
              >>=-All P (normalize_effort requested) _ (λ e. tt)
                (λ effort p.
                  >>=-All P
                    (structured_result
                      (prepare_structured_output k compile (get_field (lit "text") source)))
                    _ (λ e. tt)
                    (λ structured _.
                      guard-All P (is_choice (get_field (lit "tool_choice") source)) bad_choice _ tt
                        (λ _.
                          prepare_body-IsReady k parse source model
                            (new_bridge requested effort structured replay scope)
                            (ground (arith, named))
                            (subst (IfOk IsLevel) p (normalize_effort-IsLevel requested)) tt))))))
  where
    model : Text
    model = trim_space (text_at (lit "model") source)

    P : Result PrepareError (Fields × Bridge) → Type 0
    P = IfOk IsReady

-- Where a request is accepted, the body for the gateway names a model that is not empty, asks for an
-- effort that the gateway knows, is streamed and is not stored; and the tools that its bridge knows
-- are functions and custom tools that have names, under their qualified names.
pub prepare-IsReady :
    (k : Coding) (parse : Text → Option Url) (compile : Fields → Option (Json → Bool))
    (raw scope : Text) (replay : Option Cache) (body : Fields) (b : Bridge)
    → prepare k parse compile raw scope replay ≡ ok (body, b)
    → IsReady (body, b)
unfolding prepare
prepare-IsReady k parse compile raw scope replay body b h = subst (IfOk IsReady) h (
    >>=-All (IfOk IsReady) (request_source (object_read (k.decode raw))) _ (λ e. tt)
      (λ source _. prepare_source-IsReady k parse compile source scope replay))
