-- ===== src/Json.antt =====
-- The values of encoding/json that the code handles as `any`, and `object` and `text` of
-- basispoints/request.go. The fields of an object are those of a Go map, kept in the order of their
-- names; the nil map is the one without fields. The decoder, the encoder and the hash are
-- parameters, the record `Coding`.
pub mod Laws
use cliproxyapi_plugin_basis.Common.{
  Bool, true, false, not, ◌&&◌, Option, none, some, List, [], ◌∷◌, ltb, ◌==◌, if◌then◌else◌,
}
use cliproxyapi_plugin_basis.Common.Text.{Text, ◌=ᵗ◌}
use cliproxyapi_plugin_basis.Envelope.Decode.{Codec}

mutual
  -- A number is its `json.Number`.
  pub data Json : Type 0 where
    null : Json
    bool : Bool → Json
    number : Text → Json
    string : Text → Json
    array : Items → Json
    object : Fields → Json

  pub data Items : Type 0 where
    nil : Items
    cons : Json → Items → Items

  pub data Fields : Type 0 where
    end : Fields
    entry : Text → Json → Fields → Fields

abbrev pub to_list : Items → List Json
to_list nil = []
to_list (cons v xs) = v ∷ to_list xs

abbrev pub of_list : List Json → Items
of_list [] = nil
of_list (v ∷ vs) = cons v (of_list vs)

-- The order of Go strings.
unfoldable pub ltb_text : Text → Text → Bool
ltb_text a [] = false
ltb_text [] (y ∷ ys) = true
ltb_text (x ∷ xs) (y ∷ ys) = let rest = ltb_text xs ys in if x == y then rest else ltb x y

-- `value, exists := item[key]`
unfoldable pub find_field : Text → Fields → Option Json
find_field k end = none
find_field k (entry j v fs) = if j =ᵗ k then some v else find_field k fs

-- `item[key]`, which is nil for a missing key
unfoldable pub get_field : Text → Fields → Json
get_field k end = null
get_field k (entry j v fs) = if j =ᵗ k then v else get_field k fs

-- `item[key] = value`
unfoldable pub set_field : Text → Json → Fields → Fields
set_field k v end = entry k v end
set_field k v (entry j w fs) =
    let rest = set_field k v fs in
    if j =ᵗ k
    then entry j v fs
    else if ltb_text k j
    then entry k v (entry j w fs)
    else entry j w rest

-- `delete(item, key)`
unfoldable pub delete_field : Text → Fields → Fields
delete_field k end = end
delete_field k (entry j w fs) =
    let rest = delete_field k fs in if j =ᵗ k then rest else entry j w rest

-- `object{key: value, …}`
unfoldable pub object_of : List (Text × Json) → Fields
object_of [] = end
object_of ((k, v) ∷ rest) = set_field k v (object_of rest)

-- `value.(string)`
abbrev pub as_string : Json → Option Text
as_string (string s) = some s
as_string _ = none

-- `text(value)`
abbrev pub text : Json → Text
text (string s) = s
text _ = []

-- `fields, ok := value.(object)`
abbrev pub as_object : Json → Option Fields
as_object (object fs) = some fs
as_object _ = none

-- `fields, _ := value.(object)`
abbrev pub fields_of : Json → Fields
fields_of (object fs) = fs
fields_of _ = end

-- `items, ok := value.([]any)`
abbrev pub as_items : Json → Option (List Json)
as_items (array xs) = some (to_list xs)
as_items _ = none

-- `items, _ := value.([]any)`
abbrev pub items_of : Json → List Json
items_of (array xs) = to_list xs
items_of _ = []

abbrev pub is_null : Json → Bool
is_null null = true
is_null _ = false

-- `text(item[key])`
unfoldable pub text_at : Text → Fields → Text
text_at k fs = text (get_field k fs)

-- `reflect.DeepEqual`
unfoldable mutual
  pub same_json : Json → Json → Bool
  same_json null null = true
  same_json (bool a) (bool b) = if a then b else not b
  same_json (number a) (number b) = a =ᵗ b
  same_json (string a) (string b) = a =ᵗ b
  same_json (array xs) (array ys) = same_items xs ys
  same_json (object fs) (object gs) = same_fields fs gs
  same_json _ _ = false

  pub same_items : Items → Items → Bool
  same_items nil nil = true
  same_items (cons v xs) (cons w ys) = same_json v w && same_items xs ys
  same_items _ _ = false

  pub same_fields : Fields → Fields → Bool
  same_fields end end = true
  same_fields (entry k v fs) (entry j w gs) = k =ᵗ j && same_json v w && same_fields fs gs
  same_fields _ _ = false

pub record Coding : Type 0 where
  -- `decode` into an any: one JSON text, with numbers kept as they are spelled
  pub decode : Text → Option Json
  -- the first value of a text, as a `json.Decoder` reads it, and the text after it
  pub decode_first : Text → Option (Json × Text)
  -- `json.Marshal`, which fails on no value that `decode` gives
  pub encode : Json → Text
  -- the first half of the SHA-256, in hexadecimal
  pub digest : Text → Text

-- `fingerprint`
abbrev pub fingerprint : Coding → Json → Text
fingerprint k v = k.digest (k.encode v)

-- `decode` into a map: null leaves the map nil.
abbrev pub object_read : Option Json → Option Json
object_read (some null) = some null
object_read (some (object fs)) = some (object fs)
object_read _ = none

-- The values that basispoints/envelope.go reads.
abbrev pub json_codec : Coding → Codec
json_codec k = record {
  Value = Json;
  nil_value = null;
  text_value = string;
  decode = k.decode;
  decode_object = λ raw. object_read (k.decode raw);
  is_object = λ v. elim (as_object v) [ none ↦ false | some _ ↦ true ];
  is_nil_map = λ v. false;
  as_text = as_string;
  field = λ key v. find_field key (fields_of v);
}
