-- ===== src/Tools/Collect/Declared.antt =====
-- What `collectTools` of basispoints/tools.go keeps of the catalog and adds to it.
use cliproxyapi_plugin_basis.Common.{
  true, false, not, ◌&&◌, Option, none, some, List, [], ◌∷◌, ◌++◌, is_nil, arith, ◌≡◌, refl, ap,
  ◌∙◌, subst, if_split, All, All-append, All-map, Result, ok, err, >>=-All,
}
use cliproxyapi_plugin_basis.Common.Text.{Text, lit, ◌=ᵗ◌, =ᵗ_iff}
use cliproxyapi_plugin_basis.Common.Assoc.{
  Assoc, lookup, insert, lookup-insert, lookup-insert_self, insert-All,
}
use cliproxyapi_plugin_basis.Json.{
  Json, string, array, object, Items, nil, cons, Fields, end, entry, get_field, find_field,
  set_field, object_of, fields_of, is_null, text, ltb_text, text_at, Coding, fingerprint,
}
use cliproxyapi_plugin_basis.Json.Laws.{get_field-set_field}
use cliproxyapi_plugin_basis.Tools.{Tool, Bridge, ToolError, is_unsupported_hosted_tool, qualified}
use cliproxyapi_plugin_basis.Tools.Collect.{
  with_field, is_function_kind, is_client_kind, described, catalog_entry, same_tool, add_tool,
  collect_declaration, collect_tools, collect_items, collect_item, collect_nested,
}

-- A tool that a call may name: its key is its qualified name, and it is a function or a custom tool.
abbrev pub IsDeclared : Text × Tool → Type 0
IsDeclared (key, t) =
    (key ≡ qualified t.namespace t.name) × (is_nil t.name ≡ false) × (is_client_kind t.kind ≡ true)

-- An entry of the catalog that is shown to the model, with the tool that a call of it finds.
abbrev pub IsListed : Assoc Tool → Json → Type 0
IsListed tools v =
    (t : Tool) × (lookup (text_at (lit "name") (fields_of v)) tools ≡ some t)
    × (text_at (lit "type") (fields_of v) ≡ t.kind)

-- What a collection that starts from the tools `before` promises of its result.
pub record Collects (before : Assoc Tool) (r : List Json × Bridge) : Type 0 where
  pub declared : All IsDeclared before → All IsDeclared r.1.tools
  pub kept : (key : Text) (t : Tool) → lookup key before ≡ some t → lookup key r.1.tools ≡ some t
  pub listed : All (IsListed r.1.tools) r.0

abbrev pub CollectsResult : Assoc Tool → Result ToolError (List Json × Bridge) → Type 0
CollectsResult before (err e) = Unit
CollectsResult before (ok r) = Collects before r

pub Collects-nil : (b b' : Bridge) → b'.tools ≡ b.tools → Collects b.tools ([], b')
Collects-nil b b' h = record { declared = λ d. rw h d; kept = λ key t e. rw h e; listed = tt }

pub Collects-append :
    (before : Assoc Tool) (first later : List Json × Bridge)
    → Collects before first
    → Collects first.1.tools later
    → Collects before (first.0 ++ later.0, later.1)
Collects-append before first later f l = record {
  declared = λ d. l.declared (f.declared d);
  kept = λ key t e. l.kept key t (f.kept key t e);
  listed =
      All-append (IsListed later.1.tools) first.0 later.0
        (All-map first.0 (λ v h. (h.0, l.kept _ h.0 h.1, h.2)) f.listed) l.listed;
}

with_field-get :
    (k j : Text) (o : Option Json) (e : Fields)
    → (k =ᵗ j) ≡ false
    → get_field j (with_field k o e) ≡ get_field j e
with_field-get k j none e h = refl
with_field-get k j (some v) e h = ground (arith, h, get_field-set_field k j v e)

-- The name and the type of an entry are those that it was made for.
described-get :
    (j kind key : Text) (item : Fields)
    → (lit "parameters" =ᵗ j) ≡ false
    → (lit "format" =ᵗ j) ≡ false
    → (lit "description" =ᵗ j) ≡ false
    → get_field j (catalog_entry kind key item)
      ≡ get_field j (object_of ((lit "type", string kind) ∷ (lit "name", string key) ∷ []))
unfolding catalog_entry
described-get j kind key item p f d =
    if_split
      (λ e.
        get_field j e
        ≡ get_field j (object_of ((lit "type", string kind) ∷ (lit "name", string key) ∷ [])))
      (is_function_kind kind && is_null (get_field (lit "parameters") (described kind key item)))
      (λ _. get_field-set_field _ j _ _ ∙ (rw p inner)) (λ _. inner)
  where
    inner :
        get_field j (described kind key item)
        ≡ get_field j (object_of ((lit "type", string kind) ∷ (lit "name", string key) ∷ []))
    inner =
        with_field-get (lit "parameters") j (find_field (lit "parameters") item) _ p
        ∙ with_field-get (lit "format") j (find_field (lit "format") item) _ f
        ∙ with_field-get (lit "description") j (find_field (lit "description") item) _ d

catalog_entry-name :
    (kind key : Text) (item : Fields) → text_at (lit "name") (catalog_entry kind key item) ≡ key
unfolding text_at
catalog_entry-name kind key item =
    ap text (
      described-get (lit "name") kind key item (unfold ◌=ᵗ◌ lit in refl) (unfold ◌=ᵗ◌ lit in refl)
        (unfold ◌=ᵗ◌ lit in refl))
    ∙ (unfold get_field object_of set_field ltb_text ◌=ᵗ◌ lit in refl)

catalog_entry-type :
    (kind key : Text) (item : Fields) → text_at (lit "type") (catalog_entry kind key item) ≡ kind
unfolding text_at
catalog_entry-type kind key item =
    ap text (
      described-get (lit "type") kind key item (unfold ◌=ᵗ◌ lit in refl) (unfold ◌=ᵗ◌ lit in refl)
        (unfold ◌=ᵗ◌ lit in refl))
    ∙ (unfold get_field object_of set_field ltb_text ◌=ᵗ◌ lit in refl)

-- A new key changes no other.
insert-kept :
    (key j : Text) (new t : Tool) (tools : Assoc Tool)
    → lookup key tools ≡ none
    → lookup j tools ≡ some t
    → lookup j (insert key new tools) ≡ some t
insert-kept key j new t tools h e =
    ground (arith, e, h, =ᵗ_iff key j, lookup-insert key j new tools)

add_tool-Collects :
    (k : Coding) (kind name namespace : Text) (item : Fields) (b : Bridge)
    → is_nil name ≡ false
    → is_client_kind kind ≡ true
    → CollectsResult b.tools
        (add_tool k kind name namespace item b (lookup (qualified namespace name) b.tools))
unfolding add_tool
add_tool-Collects k kind name namespace item b named client =
    found (lookup (qualified namespace name) b.tools) refl
  where
    key : Text
    key = qualified namespace name

    new : Tool
    new = record {
      name = name;
      namespace = namespace;
      kind = kind;
      definition = fingerprint k (object item);
      parameters = fields_of (get_field (lit "parameters") (catalog_entry kind key item));
    }

    found :
        (o : Option Tool)
        → lookup key b.tools ≡ o
        → CollectsResult b.tools (add_tool k kind name namespace item b o)
    found (some previous) h =
        if_split (CollectsResult b.tools)
          (same_tool previous (fingerprint k (object item)) namespace name)
          (λ _. Collects-nil b b refl) (λ _. tt)
    found none h = record {
      declared = λ d. insert-All IsDeclared key _ b.tools (refl, named, client) d;
      kept = λ j t e. insert-kept key j _ t b.tools h e;
      listed = (
        (
          new,
          ap (λ j. lookup j (insert key new b.tools)) (catalog_entry-name kind key item)
              ∙ lookup-insert_self key _ b.tools,
          catalog_entry-type kind key item,
        ),
        tt,
      );
    }

collect_declaration-Collects :
    (k : Coding) (item : Fields) (namespace : Text) (b : Bridge)
    (nested : Result ToolError (List Json × Bridge))
    → CollectsResult b.tools nested
    → CollectsResult b.tools (collect_declaration k item namespace b nested)
unfolding collect_declaration
collect_declaration-Collects k item namespace b nested h =
    if_split P (kind =ᵗ lit "namespace") (λ _. if_split P (is_nil name) (λ _. tt) (λ _. h))
      (λ _.
        if_split P (is_unsupported_hosted_tool kind) (λ _. Collects-nil b _ refl)
          (λ _.
            if_split P (not (is_client_kind kind)) (λ _. tt)
              (λ client.
                if_split P (is_nil name) (λ _. tt)
                  (λ named.
                    add_tool-Collects k kind name namespace item b named
                      (ground (arith, client))))))
  where
    kind : Text
    kind = text_at (lit "type") item

    name : Text
    name = text_at (lit "name") item

    P : Result ToolError (List Json × Bridge) → Type 0
    P = CollectsResult b.tools

mutual
  unfolding collect_tools

  pub tools_lem :
      (k : Coding) (v : Json) (namespace : Text) (b : Bridge)
      → CollectsResult b.tools (collect_tools k v namespace b)
  tools_lem k (array xs) namespace b = items_lem k xs namespace b
  tools_lem k _ namespace b = Collects-nil b b refl

  items_lem :
      (k : Coding) (xs : Items) (namespace : Text) (b : Bridge)
      → CollectsResult b.tools (collect_items k xs namespace b)
  items_lem k nil namespace b = Collects-nil b b refl
  items_lem k (cons v xs) namespace b =
      >>=-All (CollectsResult b.tools) (collect_item k v namespace b) _ (λ e. tt)
        (λ first p.
          >>=-All (CollectsResult b.tools) (collect_items k xs namespace first.1) _ (λ e. tt)
            (λ later q.
              Collects-append b.tools first later
                (subst (CollectsResult b.tools) p (item_lem k v namespace b))
                (subst (CollectsResult first.1.tools) q (items_lem k xs namespace first.1))))

  item_lem :
      (k : Coding) (v : Json) (namespace : Text) (b : Bridge)
      → CollectsResult b.tools (collect_item k v namespace b)
  item_lem k (object item) namespace b =
      collect_declaration-Collects k item namespace b _ (nested_lem k item _ b)
  item_lem k _ namespace b = tt

  nested_lem :
      (k : Coding) (item : Fields) (namespace : Text) (b : Bridge)
      → CollectsResult b.tools (collect_nested k item namespace b)
  nested_lem k end namespace b = Collects-nil b b refl
  nested_lem k (entry j v item) namespace b =
      if_split (CollectsResult b.tools) (j =ᵗ lit "tools") (λ _. tools_lem k v namespace b)
        (λ _. nested_lem k item namespace b)

-- Where the declarations are accepted, the tools known before stay under their keys as they were;
-- every entry of the catalog names a tool that is known now, of the type that the entry says; and if
-- the tools known before were functions and custom tools that have names, under their qualified
-- names, then all known now are.
pub collect_tools-Collects :
    (k : Coding) (v : Json) (namespace : Text) (b b' : Bridge) (catalog : List Json)
    → collect_tools k v namespace b ≡ ok (catalog, b')
    → Collects b.tools (catalog, b')
collect_tools-Collects k v namespace b b' catalog h =
    subst (CollectsResult b.tools) h (tools_lem k v namespace b)
