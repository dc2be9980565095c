-- ===== src/Tools/Calls/Relayed.antt =====
-- What the client is given for a native call of the model (basispoints/tools.go): a call of a tool
-- that it declared.
use cliproxyapi_plugin_basis.Common.{
  Bool, true, false, not, ◌||◌, [], ◌∷◌, ◌++◌, is_nil, arith, ◌≡◌, refl, ap, ◌∙◌, subst, if_split,
  Result, ok, err, >>=-All, guard-All,
}
use cliproxyapi_plugin_basis.Common.Text.{Text, lit, ◌=ᵗ◌, =ᵗ_iff}
use cliproxyapi_plugin_basis.Json.{
  Json, null, string, array, object, nil, Fields, text, ltb_text, text_at, get_field, set_field,
  object_of, Coding, fingerprint,
}
use cliproxyapi_plugin_basis.Json.Laws.{get_field-set_field_self, get_field-set_field_ne}
use cliproxyapi_plugin_basis.Tools.{Tool, ToolError, raw_function, missing_call_id}
use cliproxyapi_plugin_basis.Tools.Collect.{is_client_kind}
use cliproxyapi_plugin_basis.Tools.Plan.{with_namespace}
use cliproxyapi_plugin_basis.Tools.Calls.{
  client_item, custom_input, function_arguments, finish_client_tool_call,
}

-- What a call passes to the tool: an object for a function, a text for a custom tool.
pub data Passes (k : Coding) (kind : Text) (result : Fields) : Type 0 where
  passes_object :
      (args : Fields)
      → kind ≡ lit "function"
      → get_field (lit "type") result ≡ string (lit "function_call")
      → get_field (lit "arguments") result ≡ string (k.encode (object args))
      → Passes k kind result
  passes_text :
      (input : Text)
      → kind ≡ lit "custom"
      → get_field (lit "type") result ≡ string (lit "custom_tool_call")
      → get_field (lit "input") result ≡ string input
      → Passes k kind result

-- The client's call `result` of the tool `t`, for a native call.
pub record Calls (k : Coding) (native : Fields) (t : Tool) (result : Fields) : Type 0 where
  pub name : text_at (lit "name") result ≡ t.name
  pub namespace : text_at (lit "namespace") result ≡ t.namespace
  pub call_id : text_at (lit "call_id") result ≡ text_at (lit "call_id") native
  pub identified : is_nil (text_at (lit "call_id") native) ≡ false
  pub passes : Passes k t.kind result

pub with_namespace-get :
    (ns key : Text) (fs : Fields)
    → (lit "namespace" =ᵗ key) ≡ false
    → get_field key (with_namespace ns fs) ≡ get_field key fs
with_namespace-get ns key fs h =
    if_split (λ r. get_field key r ≡ get_field key fs) (is_nil ns) (λ _. refl)
      (λ _. get_field-set_field_ne (lit "namespace") key _ fs h)

pub with_namespace-namespace :
    (ns : Text) (fs : Fields)
    → get_field (lit "namespace") fs ≡ null
    → text (get_field (lit "namespace") (with_namespace ns fs)) ≡ ns
with_namespace-namespace [] fs h = ap text h
with_namespace-namespace (c ∷ ns) fs h =
    ap text (get_field-set_field_self (lit "namespace") (string (c ∷ ns)) fs)

-- Whether a key is one that a call has for its tool.
abbrev pub Keeps : Fields → Fields → Type 0
Keeps item result =
    (get_field (lit "name") result ≡ get_field (lit "name") item)
    × (get_field (lit "namespace") result ≡ get_field (lit "namespace") item)
    × (get_field (lit "call_id") result ≡ get_field (lit "call_id") item)

Keeps-set :
    (key : Text) (v : Json) (item : Fields)
    → (key =ᵗ lit "name") ≡ false
    → (key =ᵗ lit "namespace") ≡ false
    → (key =ᵗ lit "call_id") ≡ false
    → Keeps item (set_field key v item)
Keeps-set key v item n s c = (
  get_field-set_field_ne key _ v item n,
  get_field-set_field_ne key _ v item s,
  get_field-set_field_ne key _ v item c,
)

Keeps-type : (v : Json) (item : Fields) → Keeps item (set_field (lit "type") v item)
unfolding lit ◌=ᵗ◌
Keeps-type v item = Keeps-set (lit "type") v item refl refl refl

Keeps-id : (v : Json) (item : Fields) → Keeps item (set_field (lit "id") v item)
unfolding lit ◌=ᵗ◌
Keeps-id v item = Keeps-set (lit "id") v item refl refl refl

Keeps-input : (v : Json) (item : Fields) → Keeps item (set_field (lit "input") v item)
unfolding lit ◌=ᵗ◌
Keeps-input v item = Keeps-set (lit "input") v item refl refl refl

Keeps-arguments : (v : Json) (item : Fields) → Keeps item (set_field (lit "arguments") v item)
unfolding lit ◌=ᵗ◌
Keeps-arguments v item = Keeps-set (lit "arguments") v item refl refl refl

pub Keeps-encrypted :
    (v : Json) (item : Fields) → Keeps item (set_field (lit "encrypted_function_args") v item)
unfolding lit ◌=ᵗ◌
Keeps-encrypted v item = Keeps-set (lit "encrypted_function_args") v item refl refl refl

Keeps-trans : (a b c : Fields) → Keeps a b → Keeps b c → Keeps a c
Keeps-trans a b c (n, s, i) (n', s', i') = (n' ∙ n, s' ∙ s, i' ∙ i)

-- The item of a call names its tool.
client_item-names :
    (k : Coding) (native : Fields) (info : Tool) (id : Text)
    → (text_at (lit "name") (client_item k native info id) ≡ info.name)
      × (text_at (lit "namespace") (client_item k native info id) ≡ info.namespace)
      × (text_at (lit "call_id") (client_item k native info id) ≡ id)
      × (get_field (lit "type") (client_item k native info id) ≡ string (info.kind ++ lit "_call"))
unfolding text_at get_field set_field object_of lit ◌=ᵗ◌ ltb_text
client_item-names k native info id = (
  ap text (with_namespace-get info.namespace (lit "name") _ refl),
  with_namespace-namespace info.namespace _ refl,
  ap text (with_namespace-get info.namespace (lit "call_id") _ refl),
  with_namespace-get info.namespace (lit "type") _ refl,
)

Calls-of :
    (k : Coding) (native : Fields) (info : Tool) (result : Fields)
    → is_nil (text_at (lit "call_id") native) ≡ false
    → Keeps (client_item k native info (text_at (lit "call_id") native)) result
    → Passes k info.kind result
    → Calls k native info result
unfolding text_at
Calls-of k native info result named (n, s, i) passes =
    let (n', s', i', _) = client_item-names k native info (text_at (lit "call_id") native) in
    record {
      name = ap text n ∙ n';
      namespace = ap text s ∙ s';
      call_id = ap text i ∙ i';
      identified = named;
      passes = passes;
    }

custom_call :
    (k : Coding) (native : Fields) (info : Tool) (id input : Text)
    → info.kind ≡ lit "custom"
    → (result : Fields)
    → set_field (lit "type") (string (lit "custom_tool_call")) (
        set_field
          (lit "id")
          (string (lit "ctc_" ++ fingerprint k (string id)))
          (set_field (lit "input") (string input) (client_item k native info id)))
      ≡ result
    → Keeps (client_item k native info id) result × Passes k info.kind result
custom_call k native info id input kind result h =
    subst (λ r. Keeps (client_item k native info id) r × Passes k info.kind r) h
      (
        Keeps-trans item with_input _ (Keeps-input _ item)
            (Keeps-trans with_input with_id _ (Keeps-id _ with_input) (Keeps-type _ with_id)),
        passes_text input kind (get_field-set_field_self (lit "type") _ with_id) (
            get_field-set_field_ne (lit "type") (lit "input") _ with_id (unfold lit ◌=ᵗ◌ in refl)
            ∙ get_field-set_field_ne (lit "id") (lit "input") _ with_input (unfold lit ◌=ᵗ◌ in refl)
            ∙ get_field-set_field_self (lit "input") (string input) item),
      )
  where
    item : Fields
    item = client_item k native info id

    with_input : Fields
    with_input = set_field (lit "input") (string input) item

    with_id : Fields
    with_id = set_field (lit "id") (string (lit "ctc_" ++ fingerprint k (string id))) with_input

function_call :
    (k : Coding) (native : Fields) (info : Tool) (id : Text) (args : Fields)
    → info.kind ≡ lit "function"
    → (result : Fields)
    → set_field
        (lit "arguments")
        (string (k.encode (object args)))
        (set_field (lit "encrypted_function_args") (array nil) (client_item k native info id))
      ≡ result
    → Keeps (client_item k native info id) result × Passes k info.kind result
function_call k native info id args kind result h =
    subst (λ r. Keeps (client_item k native info id) r × Passes k info.kind r) h
      (
        Keeps-trans item marked _ (Keeps-encrypted _ item) (Keeps-arguments _ marked),
        passes_object args kind
            (get_field-set_field_ne (lit "arguments") (lit "type") _ marked
                (unfold lit ◌=ᵗ◌ in refl)
              ∙ get_field-set_field_ne (lit "encrypted_function_args") (lit "type") _ item
                  (unfold lit ◌=ᵗ◌ in refl)
              ∙ (client_item-names k native info id).3
              ∙ ap (λ s. string (s ++ lit "_call")) kind
              ∙ (unfold lit in refl))
            (get_field-set_field_self (lit "arguments") _ marked),
      )
  where
    item : Fields
    item = client_item k native info id

    marked : Fields
    marked = set_field (lit "encrypted_function_args") (array nil) item

-- A law of what a step returns, which every error satisfies.
abbrev pub IfOk : {E A : Type 0} → (A → Type 0) → Result E A → Type 0
IfOk P (err e) = Unit
IfOk P (ok a) = P a

pub finish-Calls :
    (k : Coding) (native : Fields) (info : Tool) (envelope : Fields) (marked : Bool)
    → is_client_kind info.kind ≡ true
    → IfOk (Calls k native info) (finish_client_tool_call k native info envelope marked)
unfolding finish_client_tool_call
finish-Calls k native info envelope marked client =
    guard-All P (not marked || info.kind =ᵗ lit "custom") raw_function _ tt (λ _.
      guard-All P (not (is_nil id)) missing_call_id _ tt (λ named.
        if_split P (info.kind =ᵗ lit "custom")
          (λ custom.
            >>=-All P (custom_input envelope) _ (λ e. tt)
              (λ input _. built _ (ground (arith, named)) (
                custom_call k native info id input ((=ᵗ_iff info.kind (lit "custom")).0 custom) _
                  refl)))
          (λ other.
            >>=-All P (function_arguments k envelope) _ (λ e. tt)
              (λ args _.
                built _ (ground (arith, named))
                  (function_call k native info id args (is_function other) _ refl)))))
  where
    P : Result ToolError Fields → Type 0
    P = IfOk (Calls k native info)

    id : Text
    id = text_at (lit "call_id") native

    built :
        (result : Fields)
        → is_nil id ≡ false
        → Keeps (client_item k native info id) result × Passes k info.kind result
        → Calls k native info result
    built result named (keeps, passes) = Calls-of k native info result named keeps passes

    is_function : (info.kind =ᵗ lit "custom") ≡ false → info.kind ≡ lit "function"
    is_function other = ground (arith, other, client, =ᵗ_iff info.kind (lit "function"))
