-- ===== src/Tools/Calls/Direct.antt =====
-- The calls that a native item wraps or names directly, `transport_call` and
-- `translateDirectCatalogCall` of basispoints/tools.go.
use cliproxyapi_plugin_basis.Common.{
  Bool, true, false, not, ◌&&◌, Option, none, some, ◌≡◌, refl, ap, ◌∙◌, subst, if_split,
  if◌then◌else◌, Result, ok, err, ◌>>=◌, >>=-All, All,
}
use cliproxyapi_plugin_basis.Common.Text.{Text, lit, ◌=ᵗ◌, trim_prefix}
use cliproxyapi_plugin_basis.Common.Assoc.{Assoc, lookup, lookup-All}
use cliproxyapi_plugin_basis.Json.{
  Json, object, Fields, text, text_at, is_null, get_field, set_field, Coding,
}
use cliproxyapi_plugin_basis.Json.Laws.{get_field-set_field_ne}
use cliproxyapi_plugin_basis.Replay.{Cache, put}
use cliproxyapi_plugin_basis.Tools.{Tool, Bridge, ToolError, replay_put}
use cliproxyapi_plugin_basis.Tools.Collect.{is_client_kind}
use cliproxyapi_plugin_basis.Tools.Collect.Declared.{IsDeclared}
use cliproxyapi_plugin_basis.Tools.History.{history_call_fingerprint, rebuild_native_history_call}
use cliproxyapi_plugin_basis.Tools.Calls.{
  finish_client_tool_call, with_encrypted, cached_call, direct_tool, direct_envelope, direct_call,
  translate_direct_catalog_call, transport_arguments_of, transport_envelope, name_result,
  catalog_tool, transport_call,
}
use cliproxyapi_plugin_basis.Tools.Calls.Relayed.{
  Passes, passes_object, passes_text, Calls, Keeps, Keeps-encrypted, IfOk, finish-Calls,
}

-- The client's call of a tool of the catalog.
abbrev pub CallsDeclared : Coding → Assoc Tool → Fields → Fields → Type 0
CallsDeclared k tools native result =
    (key : Text) × (t : Tool) × (lookup key tools ≡ some t) × Calls k native t result

-- What a translation of a call returns.
abbrev pub IsTranslated : Coding → Bridge → Fields → Fields × Bridge → Type 0
IsTranslated k b native (result, b') = CallsDeclared k b.tools native result × (b'.tools ≡ b.tools)

pub replay_put-tools :
    (k : Coding) (b : Bridge) (id : Text) (item : Fields) (signature : Text)
    → IfOk (λ b'. b'.tools ≡ b.tools) (replay_put k b id item signature)
unfolding replay_put
replay_put-tools k b id item signature = held b.replay
  where
    stored :
        (o : Option Cache)
        → IfOk {A = Bridge}
            (λ b'. b'.tools ≡ b.tools)
            (elim o [
              | none ↦ err ToolError.cache_fault
              | some d ↦ ok (record b { replay = some d })
            ])
    stored none = tt
    stored (some d) = refl

    held :
        (o : Option Cache)
        → IfOk {A = Bridge}
            (λ b'. b'.tools ≡ b.tools)
            (elim o [
              | none ↦ ok b
              | some c ↦ elim (put c b.scope id (some (k.encode (object item))) signature) [
                | none ↦ err ToolError.cache_fault
                | some d ↦ ok (record b { replay = some d })
              ]
            ])
    held none = refl
    held (some c) = stored (put c b.scope id (some (k.encode (object item))) signature)

pub cached_call-IsTranslated :
    (k : Coding) (b : Bridge) (native stored result : Fields)
    → CallsDeclared k b.tools native result
    → IfOk (IsTranslated k b native) (cached_call k b native stored result)
cached_call-IsTranslated k b native stored result c =
    >>=-All (IfOk (IsTranslated k b native)) (replay_put k b _ stored _) _ (λ e. tt)
      (λ b' h. (
        c,
        subst (IfOk (λ b'. b'.tools ≡ b.tools)) h
            (replay_put-tools k b _ stored (history_call_fingerprint k result)),
      ))

-- The tool that a lookup finds is of a kind that the client may declare.
found_kind :
    (tools : Assoc Tool) (key : Text) (t : Tool)
    → All IsDeclared tools
    → lookup key tools ≡ some t
    → is_client_kind t.kind ≡ true
found_kind tools key t d h = (lookup-All IsDeclared key tools d h).2

pub transport_call-CallsDeclared :
    (k : Coding) (native : Fields) (tools : Assoc Tool)
    → All IsDeclared tools
    → IfOk (CallsDeclared k tools native) (transport_call k native tools)
transport_call-CallsDeclared k native tools d =
    >>=-All P (transport_arguments_of k (get_field (lit "arguments") native)) _ (λ e. tt)
      (λ arguments _.
        >>=-All P (transport_envelope k tools arguments) _ (λ e. tt)
          (λ envelope _.
            >>=-All P (name_result _) _ (λ e. tt)
              (λ name _. found envelope.0 envelope.1 name (lookup name tools) refl)))
  where
    P : Result ToolError Fields → Type 0
    P = IfOk (CallsDeclared k tools native)

    called :
        (key : Text) (t : Tool) (r : Result ToolError Fields)
        → lookup key tools ≡ some t
        → IfOk (Calls k native t) r
        → P r
    called key t (ok result) h c = (key, t, h, c)
    called key t (err e) h c = tt

    found :
        (envelope : Fields) (marked : Bool) (name : Text) (o : Option Tool)
        → lookup name tools ≡ o
        → P (catalog_tool o >>= λ info. finish_client_tool_call k native info envelope marked)
    found envelope marked name none h = tt
    found envelope marked name (some t) h =
        called name t _ h (finish-Calls k native t envelope marked (found_kind tools name t d h))

direct_tool-found :
    (tools : Assoc Tool) (name : Text) (t : Tool)
    → direct_tool tools name ≡ some t
    → (key : Text) × (lookup key tools ≡ some t)
direct_tool-found tools name t = either (lookup name tools) refl
  where
    either :
        (o : Option Tool)
        → lookup name tools ≡ o
        → elim o [
          | some info ↦ some info
          | none ↦
              let trimmed = trim_prefix name (lit "functions.") in
              if trimmed =ᵗ name then none else lookup trimmed tools
        ]
          ≡ some t
        → (key : Text) × (lookup key tools ≡ some t)
    either (some info) p h = (name, p ∙ h)
    either none p h =
        if_split (λ o. o ≡ some t → (key : Text) × (lookup key tools ≡ some t))
          (trim_prefix name (lit "functions.") =ᵗ name) (λ _ e. absurd (cc))
          (λ _ e. (trim_prefix name (lit "functions."), e)) h

-- The encryption metadata changes nothing that a call says of its tool.
Calls-with_encrypted :
    (k : Coding) (native : Fields) (t : Tool) (encrypted : Json) (result : Fields)
    → Calls k native t result
    → Calls k native t (with_encrypted t encrypted result)
unfolding text_at
Calls-with_encrypted k native t encrypted result c =
    if_split (Calls k native t) (not (is_null encrypted) && t.kind =ᵗ lit "function")
      (λ _. marked (Keeps-encrypted encrypted result)) (λ _. c)
  where
    key : Text
    key = lit "encrypted_function_args"

    passed : Passes k t.kind result → Passes k t.kind (set_field key encrypted result)
    passed (passes_object args kind type value) =
        passes_object args kind
          (get_field-set_field_ne key (lit "type") encrypted result (unfold lit ◌=ᵗ◌ in refl)
            ∙ type)
          (get_field-set_field_ne key (lit "arguments") encrypted result (unfold lit ◌=ᵗ◌ in refl)
            ∙ value)
    passed (passes_text input kind type value) =
        passes_text input kind
          (get_field-set_field_ne key (lit "type") encrypted result (unfold lit ◌=ᵗ◌ in refl)
            ∙ type)
          (get_field-set_field_ne key (lit "input") encrypted result (unfold lit ◌=ᵗ◌ in refl)
            ∙ value)

    marked :
        Keeps result (set_field key encrypted result)
        → Calls k native t (set_field key encrypted result)
    marked (n, s, i) = record {
      name = ap text n ∙ c.name;
      namespace = ap text s ∙ c.namespace;
      call_id = ap text i ∙ c.call_id;
      identified = c.identified;
      passes = passed c.passes;
    }

pub direct_call-IsTranslated :
    (k : Coding) (native : Fields) (b : Bridge)
    → All IsDeclared b.tools
    → IfOk (IsTranslated k b native) (translate_direct_catalog_call k native b)
unfolding translate_direct_catalog_call
direct_call-IsTranslated k native b d =
    found (direct_tool b.tools (text_at (lit "name") native)) refl
  where
    P : Result ToolError (Fields × Bridge) → Type 0
    P = IfOk (IsTranslated k b native)

    wrapped :
        (key : Text) (t : Tool) (result : Fields)
        → lookup key b.tools ≡ some t
        → Calls k native t result
        → P (
            rebuild_native_history_call k result >>= λ stored. cached_call k b native stored result)
    wrapped key t result h c =
        >>=-All P (rebuild_native_history_call k result) _ (λ e. tt)
          (λ stored _. cached_call-IsTranslated k b native stored result (key, t, h, c))

    found :
        (o : Option Tool)
        → direct_tool b.tools (text_at (lit "name") native) ≡ o
        → P (direct_call k native b o)
    found none h = tt
    found (some t) h =
        let (key, at) = direct_tool-found b.tools (text_at (lit "name") native) t h in
        >>=-All P (direct_envelope t native) _ (λ e. tt)
          (λ envelope _.
            >>=-All P (finish_client_tool_call k native t envelope false) _ (λ e. tt)
              (λ item p. wrapped key t _ at (
                Calls-with_encrypted k native t _ item (
                  subst (IfOk (Calls k native t)) p
                    (finish-Calls k native t envelope false (found_kind b.tools key t d at))))))
