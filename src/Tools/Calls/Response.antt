-- ===== src/Tools/Calls/Response.antt =====
-- `translateResponse` of basispoints/tools.go: the output of a response, item by item.
use cliproxyapi_plugin_basis.Common.{
  false, List, [], ◌∷◌, ◌≡◌, refl, sym, ap, ◌∙◌, subst, ◌⊎◌, inl, inr, if_split, Result, ok, err,
  ◌>>=◌, >>=-All, All,
}
use cliproxyapi_plugin_basis.Common.Text.{lit, ◌=ᵗ◌}
use cliproxyapi_plugin_basis.Common.Assoc.{Assoc}
use cliproxyapi_plugin_basis.Json.{
  Json, bool, string, array, object, Fields, of_list, fields_of, items_of, get_field, set_field,
  object_of, Coding,
}
use cliproxyapi_plugin_basis.Json.Laws.{
  to_list-of_list, get_field-set_field_self, get_field-set_field_ne,
}
use cliproxyapi_plugin_basis.Tools.{Tool, Bridge, ToolError, is_tool}
use cliproxyapi_plugin_basis.Tools.Collect.Declared.{IsDeclared}
use cliproxyapi_plugin_basis.Tools.Calls.{
  translate_call, output_step, translate_output, with_output, translate_response,
}
use cliproxyapi_plugin_basis.Tools.Calls.Direct.{CallsDeclared, IsTranslated}
use cliproxyapi_plugin_basis.Tools.Calls.Relayed.{IfOk}
use cliproxyapi_plugin_basis.Tools.Calls.Translated.{translate_call-lem}

-- An item that is no call of a tool, or what the client is given for a call.
abbrev pub RelaysItem : Coding → Assoc Tool → Json → Json → Type 0
RelaysItem k tools raw out =
    ((is_tool (fields_of raw) ≡ false) × (out ≡ raw))
    ⊎ ((result : Fields) × (out ≡ object result) × CallsDeclared k tools (fields_of raw) result)

abbrev pub Relays : Coding → Assoc Tool → List Json → List Json → Type 0
Relays k tools [] [] = Unit
Relays k tools (raw ∷ rest) (out ∷ outs) = RelaysItem k tools raw out × Relays k tools rest outs
Relays k tools _ _ = ⊥

abbrev StepRelays : Coding → Bridge → Json → Json × Bridge → Type 0
StepRelays k b raw (out, b') = RelaysItem k b.tools raw out × (b'.tools ≡ b.tools)

output_step-StepRelays :
    (k : Coding) (raw : Json) (b : Bridge)
    → All IsDeclared b.tools
    → IfOk (StepRelays k b raw) (output_step k raw b)
output_step-StepRelays k raw b d =
    if_split (IfOk (StepRelays k b raw)) (is_tool (fields_of raw))
      (λ _. called (translate_call k (fields_of raw) b) (translate_call-lem k (fields_of raw) b d))
      (λ other. (inl (other, refl), refl))
  where
    called :
        (r : Result ToolError (Fields × Bridge))
        → IfOk (IsTranslated k b (fields_of raw)) r
        → IfOk (StepRelays k b raw) (r >>= λ r. ok (object r.0, r.1))
    called (err e) h = tt
    called (ok (result, b')) (c, kept) = (inr (result, refl, c), kept)

abbrev OutputRelays : Coding → Bridge → List Json → List Json × Bridge → Type 0
OutputRelays k b raws (outs, b') = Relays k b.tools raws outs × (b'.tools ≡ b.tools)

translate_output-OutputRelays :
    (k : Coding) (raws : List Json) (b : Bridge)
    → All IsDeclared b.tools
    → IfOk (OutputRelays k b raws) (translate_output k raws b)
unfolding translate_output
translate_output-OutputRelays k [] b d = (tt, refl)
translate_output-OutputRelays k (raw ∷ rest) b d =
    >>=-All (IfOk (OutputRelays k b (raw ∷ rest))) (output_step k raw b) _ (λ e. tt)
      (λ first p.
        >>=-All (IfOk (OutputRelays k b (raw ∷ rest))) (translate_output k rest first.1) _ (λ e. tt)
          (λ later q.
            join first later
              (subst (IfOk (StepRelays k b raw)) p (output_step-StepRelays k raw b d))
              (λ d'.
                subst (IfOk (OutputRelays k first.1 rest)) q
                  (translate_output-OutputRelays k rest first.1 d'))))
  where
    join :
        (first : Json × Bridge) (later : List Json × Bridge)
        → StepRelays k b raw first
        → (All IsDeclared first.1.tools → OutputRelays k first.1 rest later)
        → OutputRelays k b (raw ∷ rest) (first.0 ∷ later.0, later.1)
    join first later (one, kept) more =
        let (outs, kept') = more (rw kept d) in
        ((one, subst (λ tools. Relays k tools rest later.0) kept outs), kept' ∙ kept)

-- Where a response is translated, and its catalog has only functions and custom tools, its output
-- has as many items as before: each call of a tool is replaced by a call of a declared tool that
-- has the native call's identifier and passes an object to a function and a text to a custom tool,
-- and every other item stays as it is. The catalog is the same afterwards.
pub translate_response-Relays :
    (k : Coding) (response result : Fields) (b b' : Bridge)
    → All IsDeclared b.tools
    → translate_response k response b ≡ ok (result, b')
    → Relays k b.tools
        (items_of (get_field (lit "output") response))
        (items_of (get_field (lit "output") result))
      × (b'.tools ≡ b.tools)
unfolding translate_response
translate_response-Relays k response result b b' d h = subst (IfOk P) h (
    >>=-All (IfOk P) (translate_output k (items_of output) b) _ (λ e. tt)
      (λ r p. rebuilt r.0 r.1 (
        subst (IfOk (OutputRelays k b (items_of output))) p
          (translate_output-OutputRelays k (items_of output) b d))))
  where
    output : Json
    output = get_field (lit "output") response

    P : Fields × Bridge → Type 0
    P r =
        Relays k b.tools (items_of output) (items_of (get_field (lit "output") r.0))
        × (r.1.tools ≡ b.tools)

    kept :
        (response : Fields) (a c : Json)
        → get_field
            (lit "output")
            (set_field (lit "parallel_tool_calls") a (set_field (lit "reasoning") c response))
          ≡ get_field (lit "output") response
    kept response a c =
        get_field-set_field_ne (lit "parallel_tool_calls") (lit "output") a _
          (unfold ◌=ᵗ◌ lit in refl)
        ∙ get_field-set_field_ne (lit "reasoning") (lit "output") c response
            (unfold ◌=ᵗ◌ lit in refl)

    none_left : (outs : List Json) → Relays k b.tools [] outs → outs ≡ []
    none_left [] h = refl
    none_left (out ∷ outs) h = absurd h

    items_left :
        (o : Json) (outs : List Json)
        → output ≡ o
        → Relays k b.tools (items_of o) outs
        → items_of (get_field (lit "output") (with_output outs o response)) ≡ outs
    items_left (array xs) outs p r =
        ap items_of (get_field-set_field_self (lit "output") (array (of_list outs)) response)
        ∙ to_list-of_list outs
    items_left o outs p r = ap items_of p ∙ sym (none_left outs r)

    rebuilt :
        (outs : List Json) (b' : Bridge)
        → OutputRelays k b (items_of output) (outs, b')
        → P (
          set_field (lit "parallel_tool_calls") (bool false) (
              set_field
                (lit "reasoning")
                (object (object_of ((lit "effort", string b.effort) ∷ [])))
                (with_output outs output response)),
          b',
        )
    rebuilt outs b' (r, same) = (
      subst (Relays k b.tools (items_of output))
          (sym (
            ap items_of (kept (with_output outs output response) _ _)
            ∙ items_left output outs refl r))
          r,
      same,
    )
