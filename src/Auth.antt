-- ===== src/Auth.antt =====
-- basispoints/auth.go: the token and the account of a credential file. The libraries that read
-- JSON and base64 are the parameter `Codec`.
pub mod Credentials
use cliproxyapi_plugin_basis.Common.{
  ℕ, Bool, not, true, false, ◌||◌, Option, none, some, List, [], ◌∷◌, ◌++◌, is_nil, ◌==◌,
  if◌then◌else◌,
}
use cliproxyapi_plugin_basis.Common.Split.{split_on}
use cliproxyapi_plugin_basis.Common.Text.{Text, lit, trim_space}

-- What the code calls of gjson, encoding/json and encoding/base64.
pub record Codec : Type 0 where
  -- gjson.GetBytes(raw, path).String()
  pub string_at : Text → Text → Text
  -- the raw member of a JSON object, or none where the text is no object or lacks it
  pub raw_member : Text → Text → Option Text
  -- whether json.Unmarshal reads the text into a map
  pub is_object : Text → Bool
  -- json.Valid
  pub valid : Text → Bool
  -- base64.RawURLEncoding and base64.URLEncoding
  pub raw_url_decode : Text → Option Text
  pub url_decode : Text → Option Text

abbrev or_else : Option Text → Option Text → Option Text
or_else (some a) b = some a
or_else none b = b

abbrev pub token_paths : List Text
token_paths = lit "access_token" ∷ lit "metadata.access_token" ∷ []

abbrev pub account_paths : List Text
account_paths = lit "account_id" ∷ lit "metadata.account_id" ∷ lit "chatgpt_account_id" ∷ []

abbrev pub id_token_paths : List Text
id_token_paths = lit "id_token" ∷ lit "metadata.id_token" ∷ []

-- `v`, or where it is blank `d`.
abbrev pub fill : Text → Text → Text
fill v d = if is_nil v then d else v

module _ (codec : Codec) where
  -- The first of the paths that holds text which is not blank.
  pub first_json_string : Text → List Text → Text
  first_json_string raw [] = []
  first_json_string raw (p ∷ ps) =
      let value = trim_space (codec.string_at raw p) in
      let rest = first_json_string raw ps in if is_nil value then rest else value

  decode_payload : List Text → Option Text
  decode_payload [] = none
  decode_payload (header ∷ []) = none
  decode_payload (header ∷ payload ∷ rest) =
      elim (or_else (codec.raw_url_decode payload) (codec.url_decode payload)) [
        | none ↦ none
        | some decoded ↦ if codec.valid decoded then some decoded else none
      ]

  pub jwt_payload : Text → Option Text
  unfolding decode_payload split_on
  jwt_payload token = decode_payload (split_on b'.' (trim_space token))

  -- The account in the member of the claims that holds the authorisation.
  nested_account : Option Text → Text
  nested_account none = []
  nested_account (some auth) = trim_space (codec.string_at auth (lit "chatgpt_account_id"))

  claimed_account : Text → Text
  unfolding nested_account
  claimed_account payload =
      let nested = nested_account (codec.raw_member payload (lit "https://api.openai.com/auth")) in
      if not (codec.is_object payload)
      then []
      else if is_nil nested
      then trim_space (codec.string_at payload (lit "chatgpt_account_id"))
      else nested

  pub account_id_from_jwt : Text → Text
  unfolding jwt_payload claimed_account
  account_id_from_jwt token = elim (jwt_payload token) [ none ↦ [] | some p ↦ claimed_account p ]

  unfoldable pub credential_from_json : Text → Option (Text × Text)
  unfolding first_json_string account_id_from_jwt
  credential_from_json raw =
      let token = first_json_string raw token_paths in
      let account =
        fill (fill (first_json_string raw account_paths) (account_id_from_jwt token))
          (account_id_from_jwt (first_json_string raw id_token_paths)) in
      if is_nil token || is_nil account then none else some (token, account)
