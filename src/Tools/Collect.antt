-- ===== src/Tools/Collect.antt =====
-- `collectTools` of basispoints/tools.go: the client's declarations of tools, as a catalog.
pub mod Declared
use cliproxyapi_plugin_basis.Common.{
  Bool, true, false, not, ◌&&◌, ◌||◌, Option, none, some, List, [], ◌∷◌, ◌++◌, is_nil,
  if◌then◌else◌, Result, ok, err, ◌>>=◌,
}
use cliproxyapi_plugin_basis.Common.Text.{Text, lit, ◌=ᵗ◌, elem}
use cliproxyapi_plugin_basis.Common.Assoc.{Assoc, lookup, insert}
use cliproxyapi_plugin_basis.Json.{
  Json, null, string, array, object, Items, nil, cons, Fields, end, entry, get_field, find_field,
  set_field, object_of, fields_of, is_null, text_at, Coding, fingerprint,
}
use cliproxyapi_plugin_basis.Tools.{
  Tool, Bridge, ToolError, invalid_tool, unnamed_namespace, unnamed_tool, hosted_tool,
  conflicting_tool, is_unsupported_hosted_tool, qualified,
}

abbrev pub with_field : Text → Option Json → Fields → Fields
with_field k none e = e
with_field k (some v) e = set_field k v e

abbrev pub is_function_kind : Text → Bool
is_function_kind kind = kind =ᵗ lit "function"

abbrev pub is_client_kind : Text → Bool
is_client_kind kind = is_function_kind kind || kind =ᵗ lit "custom"

-- What the declaration says of the tool.
abbrev pub described : Text → Text → Fields → Fields
described kind key item = with_field (lit "parameters") (find_field (lit "parameters") item) (
    with_field (lit "format") (find_field (lit "format") item) (
      with_field (lit "description") (find_field (lit "description") item)
        (object_of ((lit "type", string kind) ∷ (lit "name", string key) ∷ []))))

-- The other spellings of the parameters.
abbrev pub parameters_or : Fields → Json
parameters_or item =
    if is_null (get_field (lit "inputSchema") item)
    then get_field (lit "input_schema") item
    else get_field (lit "inputSchema") item

unfoldable pub catalog_entry : Text → Text → Fields → Fields
catalog_entry kind key item =
    let e = described kind key item in
    if is_function_kind kind && is_null (get_field (lit "parameters") e)
    then set_field (lit "parameters") (parameters_or item) e
    else e

abbrev pub same_tool : Tool → Text → Text → Text → Bool
same_tool previous definition namespace name =
    previous.definition =ᵗ definition && previous.namespace =ᵗ namespace && previous.name =ᵗ name

abbrev pub mark_unsupported : Text → Bridge → Bridge
mark_unsupported kind b = record b {
  unsupported_tools =
      if elem kind b.unsupported_tools then b.unsupported_tools else kind ∷ b.unsupported_tools;
}

-- The tool's own entry, unless the catalog has it.
unfoldable pub add_tool :
    Coding
    → Text
    → Text
    → Text
    → Fields
    → Bridge
    → Option Tool
    → Result ToolError (List Json × Bridge)
unfolding catalog_entry
add_tool k kind name namespace item b (some previous) =
    if same_tool previous (fingerprint k (object item)) namespace name
    then ok ([], b)
    else err (conflicting_tool (qualified namespace name))
add_tool k kind name namespace item b none =
    let key = qualified namespace name in
    let e = catalog_entry kind key item in
    ok (
      object e ∷ [],
      record b {
        tools =
            insert key
              (record {
                name = name;
                namespace = namespace;
                kind = kind;
                definition = fingerprint k (object item);
                parameters = fields_of (get_field (lit "parameters") e);
              })
              b.tools;
      },
    )

-- A declaration of a tool; `nested` is what the tools of a namespace come to.
unfoldable pub collect_declaration :
    Coding
    → Fields
    → Text
    → Bridge
    → Result ToolError (List Json × Bridge)
    → Result ToolError (List Json × Bridge)
unfolding add_tool
collect_declaration k item namespace b nested =
    let kind = text_at (lit "type") item in
    let name = text_at (lit "name") item in
    if kind =ᵗ lit "namespace"
    then if is_nil name then err unnamed_namespace else nested
    else if is_unsupported_hosted_tool kind
    then ok ([], mark_unsupported kind b)
    else if not (is_client_kind kind)
    then err (hosted_tool kind)
    else if is_nil name
    then err unnamed_tool
    else add_tool k kind name namespace item b (lookup (qualified namespace name) b.tools)

unfoldable mutual
  unfolding collect_declaration

  -- `collectTools`
  pub collect_tools : Coding → Json → Text → Bridge → Result ToolError (List Json × Bridge)
  collect_tools k (array xs) namespace b = collect_items k xs namespace b
  collect_tools k _ namespace b = ok ([], b)

  -- Its loop.
  pub collect_items : Coding → Items → Text → Bridge → Result ToolError (List Json × Bridge)
  collect_items k nil namespace b = ok ([], b)
  collect_items k (cons v xs) namespace b = collect_item k v namespace b >>= λ first.
      collect_items k xs namespace first.1 >>= λ later. ok (first.0 ++ later.0, later.1)

  pub collect_item : Coding → Json → Text → Bridge → Result ToolError (List Json × Bridge)
  collect_item k (object item) namespace b =
      collect_declaration k item namespace b
        (collect_nested k item (qualified namespace (text_at (lit "name") item)) b)
  collect_item k _ namespace b = err invalid_tool

  -- `collectTools(item["tools"], …)`
  pub collect_nested : Coding → Fields → Text → Bridge → Result ToolError (List Json × Bridge)
  collect_nested k end namespace b = ok ([], b)
  collect_nested k (entry j v item) namespace b =
      let rest = collect_nested k item namespace b in
      if j =ᵗ lit "tools" then collect_tools k v namespace b else rest
