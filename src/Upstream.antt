-- ===== src/Upstream.antt =====
-- basispoints/body.go and the request and error values of basispoints/service.go.
use cliproxyapi_plugin_basis.Common.{
  ℕ, Bool, ◌&&◌, Option, none, some, List, [], ◌∷◌, ◌++◌, is_nil, ltb, leb, ◌==◌, if◌then◌else◌,
}
use cliproxyapi_plugin_basis.Common.Text.{Text, lit, ◌=ᵗ◌, trim_space, equal_fold}
use cliproxyapi_plugin_basis.Common.Assoc.{Assoc, lookup}
use cliproxyapi_plugin_basis.Config.{Config}

pub record StatusError : Type 0 where
  pub code : Text
  pub message : Text
  pub http_status : ℕ

-- An error of the plugin, or one of the host's with its text.
pub data Failure : Type 0 where
  status_error : StatusError → Failure
  plain_error : Text → Failure

pub record UpstreamRequest : Type 0 where
  pub method : Text
  pub url : Text
  pub headers : Assoc (List Text)
  pub body : Text
  pub header_profile : List Text

pub record UpstreamResponse : Type 0 where
  pub status_code : ℕ
  pub headers : Assoc (List Text)
  pub body : Text

pub record Credential : Type 0 where
  pub key : Text
  pub auth_index : Text
  pub token : Text
  pub account_id : Text

pub record PreparedRequest : Type 0 where
  pub model : Text
  pub body : Text
  pub url : Text

abbrev pub upstream_header_profile : List Text
upstream_header_profile =
    lit "authorization"
    ∷ lit "content-type"
    ∷ lit "accept"
    ∷ lit "origin"
    ∷ lit "user-agent"
    ∷ lit "chatgpt-account-id"
    ∷ lit "x-openai-account-id"
    ∷ lit "x-basispoints-auth-mode"
    ∷ lit "x-openai-internal-basispoints-client-product"
    ∷ lit "x-openai-internal-basispoints-client-agent-profile"
    ∷ []

abbrev pub one_value : Text → Text → Text × List Text
one_value name value = (name, value ∷ [])

unfoldable pub upstream_headers : Text → Text → Text → Assoc (List Text)
upstream_headers token account_id auth_mode =
    one_value (lit "authorization") (lit "Bearer " ++ token)
    ∷ one_value (lit "content-type") (lit "application/json")
    ∷ one_value (lit "accept") (lit "text/event-stream")
    ∷ one_value (lit "origin") (lit "https://bps.openai.com")
    ∷ one_value (lit "user-agent") (lit "Mozilla/5.0")
    ∷ one_value (lit "chatgpt-account-id") account_id
    ∷ one_value (lit "x-openai-account-id") account_id
    ∷ one_value (lit "x-basispoints-auth-mode") auth_mode
    ∷ one_value (lit "x-openai-internal-basispoints-client-product")
        (lit "basispoints-excel-plugin")
    ∷ one_value (lit "x-openai-internal-basispoints-client-agent-profile") (lit "excel")
    ∷ []

abbrev pub first_value : List Text → Option Text
first_value [] = none
first_value (v ∷ vs) = some (trim_space v)

-- The first value of a header under a name that is the same up to case, if it has one.
unfoldable pub folded_value : Assoc (List Text) → Text → Text
folded_value [] name = []
folded_value ((key, values) ∷ rest) name =
    let later = folded_value rest name in
    if equal_fold key name then (elim (first_value values) [ none ↦ later | some v ↦ v ]) else later

unfoldable pub header_value : Assoc (List Text) → Text → Text
unfolding folded_value lookup
header_value headers name = elim (lookup name headers) [
  | none ↦ folded_value headers name
  | some values ↦ elim (first_value values) [ none ↦ folded_value headers name | some v ↦ v ]
]

unfoldable pub upstream_call : Config → PreparedRequest → Credential → UpstreamRequest
unfolding upstream_headers
upstream_call cfg prepared creds = record {
  method = lit "POST";
  url = prepared.url;
  headers = upstream_headers creds.token creds.account_id cfg.auth_mode;
  body = prepared.body;
  header_profile = upstream_header_profile;
}

-- The error for a status outside 200 to 299, whose `error.code` is `error_code`. It carries
-- neither the body nor any other part of it.
unfoldable pub upstream_error : ℕ → Text → Failure
upstream_error status error_code =
    let code = trim_space error_code in
    let status' = if status == 0 then 502 else status in
    if code =ᵗ lit "basispoints_model_access_changed"
    then status_error (record {
      code = code;
      message = lit "This model is not available on the account's Excel BPS endpoint";
      http_status = status';
    })
    else status_error (record {
      code = if is_nil code then lit "basispoints_upstream_error" else code;
      message = lit "Excel BPS rejected this request; the upstream body was not returned";
      http_status = status';
    })

abbrev pub is_success : ℕ → Bool
is_success status = leb 200 status && ltb status 300
