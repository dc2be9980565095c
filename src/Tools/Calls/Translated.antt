-- ===== src/Tools/Calls/Translated.antt =====
-- `translateCall` and `translateResponse` of basispoints/tools.go, with basispoints/plan.go: every
-- call that the client is given is of a tool that it declared.
use cliproxyapi_plugin_basis.Common.{not, ◌≡◌, subst, if_split, Result, ok, err, >>=-All, All}
use cliproxyapi_plugin_basis.Common.Text.{lit}
use cliproxyapi_plugin_basis.Json.{Fields, text_at, Coding}
use cliproxyapi_plugin_basis.Tools.{Bridge, ToolError, PlanError}
use cliproxyapi_plugin_basis.Tools.Collect.Declared.{IsDeclared}
use cliproxyapi_plugin_basis.Tools.History.{history_call_fingerprint}
use cliproxyapi_plugin_basis.Tools.Plan.{planned_call, translate_native_plan, cached_plan}
use cliproxyapi_plugin_basis.Tools.Calls.{transport_call, is_transport_name, translate_call}
use cliproxyapi_plugin_basis.Tools.Calls.Relayed.{IfOk}
use cliproxyapi_plugin_basis.Tools.Calls.Direct.{
  CallsDeclared, IsTranslated, cached_call-IsTranslated, transport_call-CallsDeclared,
  direct_call-IsTranslated,
}
use cliproxyapi_plugin_basis.Tools.Calls.Planned.{planned_call-CallsDeclared}

native_plan-IsTranslated :
    (k : Coding) (native : Fields) (b : Bridge)
    → IfOk (IsTranslated k b native) (translate_native_plan k (history_call_fingerprint k) native b)
unfolding translate_native_plan
native_plan-IsTranslated k native b =
    cached (planned_call k b.tools native) (planned_call-CallsDeclared k b.tools native)
  where
    cached :
        (r : Result PlanError Fields)
        → IfOk (CallsDeclared k b.tools native) r
        → IfOk
            (IsTranslated k b native)
            (cached_plan k b native r (text_at (lit "call_id") native) (history_call_fingerprint k))
    cached (err e) c = tt
    cached (ok result) c = cached_call-IsTranslated k b native native result c

pub translate_call-lem :
    (k : Coding) (native : Fields) (b : Bridge)
    → All IsDeclared b.tools
    → IfOk (IsTranslated k b native) (translate_call k native b)
unfolding translate_call
translate_call-lem k native b d =
    if_split P _ (λ _. native_plan-IsTranslated k native b)
      (λ _.
        if_split P (not (is_transport_name (text_at (lit "name") native)))
          (λ _. direct_call-IsTranslated k native b d)
          (λ _.
            >>=-All P (transport_call k native b.tools) _ (λ e. tt)
              (λ result p. cached_call-IsTranslated k b native native result (
                subst (IfOk (CallsDeclared k b.tools native)) p
                  (transport_call-CallsDeclared k native b.tools d)))))
  where
    P : Result ToolError (Fields × Bridge) → Type 0
    P = IfOk (IsTranslated k b native)

-- A translated call is one of a tool of the catalog, in which every tool is a function or a custom
-- tool: it has the tool's name and namespace and the identifier of the native call, which is not
-- blank; to a function it passes the text of a JSON object, and to a custom tool a text. The
-- catalog stays as it is.
pub translate_call-IsTranslated :
    (k : Coding) (native result : Fields) (b b' : Bridge)
    → All IsDeclared b.tools
    → translate_call k native b ≡ ok (result, b')
    → IsTranslated k b native (result, b')
translate_call-IsTranslated k native result b b' d h =
    subst (IfOk (IsTranslated k b native)) h (translate_call-lem k native b d)
