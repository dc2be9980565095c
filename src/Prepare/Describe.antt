-- ===== src/Prepare/Describe.antt =====
-- basispoints/catalog.go: the catalog of tools as text.
use cliproxyapi_plugin_basis.Common.{
  ℕ, zero, suc, ◌+◌, ◌/◌, ◌%◌, Bool, true, false, not, none, some, List, [], ◌∷◌, ◌++◌, is_nil, ltb,
  if◌then◌else◌, map,
}
use cliproxyapi_plugin_basis.Common.Text.{Text, lit, ◌=ᵗ◌, elem}
use cliproxyapi_plugin_basis.Json.{
  Json, string, object, Fields, end, entry, as_object, fields_of, items_of, text, text_at, is_null,
  get_field, Coding,
}

-- strings.Join
unfoldable pub join_text : Text → List Text → Text
join_text separator [] = []
join_text separator (s ∷ []) = s
join_text separator (s ∷ t ∷ rest) = s ++ separator ++ join_text separator (t ∷ rest)

-- The digits of a number before `tail`; a number has no more digits than it is large.
unfoldable pub decimal_digits : ℕ → ℕ → Text → Text
decimal_digits zero n tail = tail
decimal_digits (suc fuel) n tail =
    let last = (b'0' + n % 10) ∷ tail in
    if ltb n 10 then last else decimal_digits fuel (n / 10) last

-- fmt.Sprint of a number
abbrev pub decimal : ℕ → Text
decimal n = decimal_digits (suc n) n []

-- `quoted`
abbrev pub quoted : Coding → Json → Text
quoted k v = k.encode v

-- The names that a schema requires.
abbrev pub required_names : Json → List Text
required_names names = map text (items_of names)

unfoldable pub property_parts : Coding → (Json → Text) → List Text → Fields → List Text
property_parts k describe required end = []
property_parts k describe required (entry name value rest) =
    (lit "Field "
      ++ quoted k (string name)
      ++ lit " ("
      ++ (if elem name required then lit "required" else lit "optional")
      ++ lit "): "
      ++ describe value)
    ∷ property_parts k describe required rest

-- What is not described in words.
unfoldable pub constraints : Fields → Fields
constraints end = end
constraints (entry key value rest) =
    let others = constraints rest in
    if elem key (lit "type" ∷ lit "description" ∷ lit "properties" ∷ lit "items" ∷ [])
    then others
    else entry key value others

abbrev pub has_fields : Fields → Bool
has_fields end = false
has_fields (entry key value rest) = true

abbrev pub part_if : Bool → Text → List Text
part_if b part = if b then part ∷ [] else []

abbrev pub schema_parts : Coding → (Json → Text) → Fields → List Text
schema_parts k describe schema =
    part_if (not (is_null (get_field (lit "type") schema)))
      (lit "Value type: " ++ quoted k (get_field (lit "type") schema) ++ lit ".")
    ++ part_if (not (is_nil (text_at (lit "description") schema)))
        (text_at (lit "description") schema)
    ++ property_parts k describe (required_names (get_field (lit "required") schema))
        (fields_of (get_field (lit "properties") schema))
    ++ part_if (not (is_null (get_field (lit "items") schema)))
        (lit "Each array item: " ++ describe (get_field (lit "items") schema))
    ++ part_if (has_fields (constraints schema))
        (lit "Additional constraints: " ++ quoted k (object (constraints schema)) ++ lit ".")

abbrev pub any_value : List Text → Text
any_value parts = if is_nil parts then lit "Any JSON value." else join_text (lit " ") parts

-- A value that is no schema, or one too deep.
abbrev pub describe_value : Coding → Json → Text
describe_value k value =
    if is_null value then lit "Use the arguments described by the tool." else quoted k value

-- `describeSchema`, with the levels that are left: eight schemas may be nested.
unfoldable pub describe_schema : ℕ → Coding → Json → Text
describe_schema zero k value = describe_value k value
describe_schema (suc n) k value = elim (as_object value) [
  | none ↦ describe_value k value
  | some schema ↦ any_value (schema_parts k (describe_schema n k) schema)
]

abbrev pub entry_contract : Coding → Fields → Text
entry_contract k e =
    if text_at (lit "type") e =ᵗ lit "custom"
    then lit " Set run_officejs summary to "
      ++ quoted k (string (lit "codex2api.custom/" ++ text_at (lit "name") e))
      ++ lit " and pass its exact raw text directly in code."
      ++ (if is_null (get_field (lit "format") e)
          then []
          else lit " Input format: " ++ quoted k (get_field (lit "format") e) ++ lit ".")
    else lit " Pass a JSON object in the envelope's arguments field. Argument contract: "
      ++ describe_schema 8 k (get_field (lit "parameters") e)

-- A line of the catalog.
unfoldable pub describe_entry : Coding → Fields → Text
describe_entry k e =
    let description = text_at (lit "description") e in
    lit "Client tool "
    ++ quoted k (get_field (lit "name") e)
    ++ lit " ("
    ++ text_at (lit "type") e
    ++ lit ")."
    ++ (if is_nil description then [] else b' ' ∷ description)
    ++ entry_contract k e

-- `describeCatalog`
unfoldable pub describe_catalog : Coding → List Json → Text
describe_catalog k catalog =
    join_text (lit "\n\n") (map (λ raw. describe_entry k (fields_of raw)) catalog)
