-- ===== src/Content.antt =====
-- basispoints/content.go and basispoints/images.go: the content of messages that the gateway takes,
-- text and HTTPS images. `url.Parse` is a parameter.
pub mod Checks
use cliproxyapi_plugin_basis.Common.{
  ℕ, suc, Bool, true, false, not, ◌&&◌, ◌||◌, Option, none, some, List, [], ◌∷◌, is_nil,
  if◌then◌else◌, Result, ok, err, guard, ◌>>◌,
}
use cliproxyapi_plugin_basis.Common.Text.{Text, lit, ◌=ᵗ◌, elem, has_prefix, to_lower, trim_space}
use cliproxyapi_plugin_basis.Json.{
  Json, null, string, Fields, end, as_object, as_string, fields_of, items_of, text, text_at,
  is_null, find_field, get_field,
}

-- A `url.URL`, as far as it is read.
pub record Url : Type 0 where
  pub scheme : Text
  pub hostname : Text
  pub has_user : Bool
  pub opaque : Text

pub data ImageError : Type 0 where
  no_url data_url not_https has_file bad_detail : ImageError

pub data ContentError : Type 0 where
  -- the image error, the field, the index of the item, that of the part
  bad_image : ImageError → Text → ℕ → ℕ → ContentError
  -- the label of the type in place of the error
  bad_part : Text → Text → ℕ → ℕ → ContentError

abbrev pub is_https : Text → Option Url → Bool
is_https raw none = false
is_https raw (some url) =
    url.scheme =ᵗ lit "https"
    && not (is_nil url.hostname)
    && not url.has_user
    && is_nil url.opaque
    && trim_space raw =ᵗ raw

abbrev pub is_detail : Json → Bool
is_detail detail = is_null detail || elem (text detail) (lit "auto" ∷ lit "low" ∷ lit "high" ∷ [])

abbrev pub is_data_url : Text → Bool
is_data_url raw = has_prefix (to_lower (trim_space raw)) (lit "data:")

abbrev pub validate_url : (Text → Option Url) → Fields → Option Text → Result ImageError (Unit {0})
validate_url parse part none = err no_url
validate_url parse part (some raw) =
    guard (not (is_nil raw)) no_url
    >> (guard (not (is_data_url raw)) data_url
        >> (guard (is_https raw (parse raw)) not_https
            >> (guard (is_nil (text_at (lit "file_id") part)) has_file
                >> guard (is_detail (get_field (lit "detail") part)) bad_detail)))

-- `validateImage`
unfoldable pub validate_image : (Text → Option Url) → Fields → Result ImageError (Unit {0})
validate_image parse part = validate_url parse part (as_string (get_field (lit "image_url") part))

-- The types that are named in an error.
abbrev pub named_types : List Text
named_types =
    lit "image"
    ∷ lit "image_url"
    ∷ lit "input_file"
    ∷ lit "file"
    ∷ lit "document"
    ∷ lit "input_audio"
    ∷ lit "output_audio"
    ∷ lit "audio"
    ∷ lit "reasoning_text"
    ∷ lit "summary_text"
    ∷ lit "tool_use"
    ∷ lit "tool_result"
    ∷ lit "thinking"
    ∷ lit "redacted_thinking"
    ∷ []

abbrev pub type_label : Option Text → Text
type_label none = lit "non_string"
type_label (some kind) = if elem kind named_types then kind else lit "unknown"

abbrev pub type_diagnostic : Option Json → Text
type_diagnostic none = lit "missing"
type_diagnostic (some value) = type_label (as_string value)

-- `contentTypeDiagnostic`
unfoldable pub content_type_diagnostic : Option Fields → Text
content_type_diagnostic none = lit "non_object"
content_type_diagnostic (some part) = type_diagnostic (find_field (lit "type") part)

abbrev pub is_text_type : Text → Bool
is_text_type kind =
    elem kind (lit "input_text" ∷ lit "output_text" ∷ lit "text" ∷ lit "refusal" ∷ [])

abbrev pub image_result :
    Text → ℕ → ℕ → Result ImageError (Unit {0}) → Result ContentError (Unit {0})
image_result name item index (ok u) = ok u
image_result name item index (err e) = err (bad_image e name item index)

unfoldable pub validate_part :
    (Text → Option Url) → Text → ℕ → ℕ → Json → Result ContentError (Unit {0})
validate_part parse name item index raw =
    let part = fields_of raw in
    let kind = text_at (lit "type") part in
    if is_text_type kind
    then ok tt
    else if kind =ᵗ lit "input_image"
    then image_result name item index (validate_image parse part)
    else err (bad_part (content_type_diagnostic (as_object raw)) name item index)

unfoldable pub validate_parts :
    (Text → Option Url) → Text → ℕ → ℕ → List Json → Result ContentError (Unit {0})
validate_parts parse name item index [] = ok tt
validate_parts parse name item index (raw ∷ rest) =
    validate_part parse name item index raw >> validate_parts parse name item (suc index) rest

-- `validateHistoryContent`
unfoldable pub validate_history_content :
    (Text → Option Url) → Json → ℕ → Text → Result ContentError (Unit {0})
validate_history_content parse value item name = validate_parts parse name item 0 (items_of value)
