-- ===== src/Tools/Plan/Schema.antt =====
-- `planSchemaAccepts` of basispoints/plan.go: a validator for the schemas of plan tools.
use cliproxyapi_plugin_basis.Common.{
  ℕ, zero, suc, ◌+◌, ◌-◌, ◌*◌, ◌^◌, Bool, true, false, not, ◌&&◌, ◌||◌, Option, none, some, List,
  [], ◌∷◌, is_nil, leb, ltb, ◌==◌, if◌then◌else◌, length,
}
use cliproxyapi_plugin_basis.Common.Text.{Text, lit, ◌=ᵗ◌, elem}
use cliproxyapi_plugin_basis.Json.{
  Json, null, bool, number, string, array, object, Items, nil, cons, Fields, end, entry, as_string,
  as_object, as_items, fields_of, find_field, get_field, same_json, to_list,
}

-- The keywords that are checked, and those that assert nothing.
abbrev pub known_keywords : List Text
known_keywords =
    lit "type"
    ∷ lit "properties"
    ∷ lit "required"
    ∷ lit "additionalProperties"
    ∷ lit "items"
    ∷ lit "enum"
    ∷ lit "const"
    ∷ lit "minItems"
    ∷ lit "maxItems"
    ∷ lit "minLength"
    ∷ lit "maxLength"
    ∷ lit "description"
    ∷ lit "title"
    ∷ lit "default"
    ∷ lit "examples"
    ∷ lit "$comment"
    ∷ []

unfoldable pub only_known : Fields → Bool
only_known end = true
only_known (entry key v schema) = elem key known_keywords && only_known schema

unfoldable mutual
  -- `planSchemaTypeMatches`
  pub plan_schema_type_matches : Json → Json → Bool
  plan_schema_type_matches value (array kinds) = any_type_matches value kinds
  plan_schema_type_matches (object fs) (string kind) = kind =ᵗ lit "object"
  plan_schema_type_matches (array xs) (string kind) = kind =ᵗ lit "array"
  plan_schema_type_matches (string s) (string kind) = kind =ᵗ lit "string"
  plan_schema_type_matches null (string kind) = kind =ᵗ lit "null"
  plan_schema_type_matches _ _ = false

  pub any_type_matches : Json → Items → Bool
  any_type_matches value nil = false
  any_type_matches value (cons kind kinds) =
      plan_schema_type_matches value kind || any_type_matches value kinds

-- The digits of a `json.Number` that is a whole number and not negative; others are no limit.
unfoldable pub digits_value : ℕ → Text → Option ℕ
digits_value n [] = some n
digits_value n (c ∷ s) =
    let rest = digits_value (n * 10 + (c - b'0')) s in
    if leb b'0' c && leb c b'9' then rest else none

abbrev pub int64_value : Option ℕ → Option ℕ
int64_value none = none
int64_value (some n) = if ltb n (2 ^ 63) then some n else none

-- `Int64`, where it gives what may be a limit; minus zero is zero.
abbrev pub limit_value : Text → Option ℕ
limit_value [] = none
limit_value (c ∷ s) =
    if c == b'-'
    then elim (digits_value 0 s) [
      | none ↦ none
      | some n ↦ if n == 0 && not (is_nil s) then some 0 else none
    ]
    else int64_value (digits_value 0 (c ∷ s))

abbrev pub limit_of : Json → Option ℕ
limit_of (number n) = limit_value n
limit_of _ = none

abbrev pub within_limit : (ℕ → Bool) → Option Json → Bool
within_limit test none = true
within_limit test (some v) = elim (limit_of v) [ none ↦ false | some limit ↦ test limit ]

-- `planSchemaLength`
unfoldable pub plan_schema_length : ℕ → Fields → Text → Text → Bool
plan_schema_length n schema minimum maximum =
    within_limit (λ limit. leb limit n) (find_field minimum schema)
    && within_limit (λ limit. leb n limit) (find_field maximum schema)

-- utf8.RuneCountInString, of the UTF-8 that decoded JSON has: the bytes that begin a character.
unfoldable pub rune_count : Text → ℕ
rune_count [] = 0
rune_count (c ∷ s) = let rest = rune_count s in if leb 128 c && ltb c 192 then rest else rest + 1

abbrev pub absent_or : (Json → Bool) → Option Json → Bool
absent_or test none = true
absent_or test (some v) = test v

abbrev pub is_object : Json → Bool
is_object (object fs) = true
is_object _ = false

abbrev pub is_bool : Json → Bool
is_bool (bool b) = true
is_bool _ = false

abbrev pub is_false : Json → Bool
is_false (bool b) = not b
is_false _ = false

-- `values` has one that is deeply equal.
unfoldable pub any_same : Json → Items → Bool
any_same value nil = false
any_same value (cons choice choices) = same_json value choice || any_same value choices

abbrev pub in_choices : Json → Json → Bool
in_choices value (array choices) = any_same value choices
in_choices value _ = false

abbrev pub is_key_of : Fields → Option Text → Bool
is_key_of fs none = false
is_key_of fs (some key) = elim (find_field key fs) [ none ↦ false | some v ↦ true ]

unfoldable pub has_keys : Fields → List Json → Bool
has_keys fs [] = true
has_keys fs (name ∷ names) = is_key_of fs (as_string name) && has_keys fs names

abbrev pub has_required : Fields → Option (List Json) → Bool
has_required fs none = false
has_required fs (some names) = has_keys fs names

-- What the schema says of any value.
abbrev pub accepts_any : Json → Fields → Bool
accepts_any value schema =
    only_known schema
    && absent_or is_object (find_field (lit "properties") schema)
    && absent_or (plan_schema_type_matches value) (find_field (lit "type") schema)
    && absent_or (same_json value) (find_field (lit "const") schema)
    && absent_or (in_choices value) (find_field (lit "enum") schema)

-- A value by a nested schema that must be an object; `accepts` is the validator one level deeper.
abbrev pub accepts_nested : (Json → Fields → Bool) → Json → Option Fields → Bool
accepts_nested accepts v none = false
accepts_nested accepts v (some schema) = accepts v schema

abbrev pub accepts_field : (Json → Fields → Bool) → Json → Json → Option Json → Bool
accepts_field accepts additional v none = not (is_false additional)
accepts_field accepts additional v (some raw) = accepts_nested accepts v (as_object raw)

unfoldable pub accepts_fields : (Json → Fields → Bool) → Fields → Json → Fields → Bool
accepts_fields accepts properties additional end = true
accepts_fields accepts properties additional (entry key v fs) =
    accepts_field accepts additional v (find_field key properties)
    && accepts_fields accepts properties additional fs

unfoldable pub accepts_items : (Json → Fields → Bool) → Fields → Items → Bool
accepts_items accepts schema nil = true
accepts_items accepts schema (cons v xs) = accepts v schema && accepts_items accepts schema xs

abbrev pub accepts_all : (Json → Fields → Bool) → Items → Option Json → Bool
accepts_all accepts xs none = true
accepts_all accepts xs (some raw) = elim (as_object raw) [
  | none ↦ false
  | some schema ↦ accepts_items accepts schema xs
]

-- What it says of the values of one type.
abbrev pub accepts_typed : (Json → Fields → Bool) → Json → Fields → Bool
accepts_typed accepts (object fs) schema =
    absent_or (λ names. has_required fs (as_items names)) (find_field (lit "required") schema)
    && absent_or is_bool (find_field (lit "additionalProperties") schema)
    && accepts_fields accepts (fields_of (get_field (lit "properties") schema))
        (get_field (lit "additionalProperties") schema) fs
accepts_typed accepts (array xs) schema =
    plan_schema_length (length (to_list xs)) schema (lit "minItems") (lit "maxItems")
    && accepts_all accepts xs (find_field (lit "items") schema)
accepts_typed accepts (string s) schema =
    plan_schema_length (rune_count s) schema (lit "minLength") (lit "maxLength")
accepts_typed accepts _ schema = true

-- `planSchemaAccepts`, with the levels that are left: nine schemas may be nested.
unfoldable pub plan_schema_accepts : ℕ → Json → Fields → Bool
plan_schema_accepts zero value schema = false
plan_schema_accepts (suc n) value schema =
    accepts_any value schema && accepts_typed (plan_schema_accepts n) value schema

abbrev pub schema_levels : ℕ
schema_levels = 9
