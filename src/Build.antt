-- ===== src/Build.antt =====
-- `build` of basispoints/wire.go: the request of a client, prepared for the gateway under the name of a
-- configured model.
pub mod Payload
pub mod Capped
pub mod Declared
use cliproxyapi_plugin_basis.Common.{
  ℕ, Bool, true, false, not, ◌&&◌, ◌||◌, Option, none, some, List, [], ◌∷◌, ◌++◌, is_nil,
  if◌then◌else◌, Result, ok, err,
}
use cliproxyapi_plugin_basis.Common.Assoc.{Assoc}
use cliproxyapi_plugin_basis.Common.Text.{Text, lit, ◌=ᵗ◌, trim_space}
use cliproxyapi_plugin_basis.Config.{Config, split_model_suffix, clamp_effort}
use cliproxyapi_plugin_basis.Content.{Url}
use cliproxyapi_plugin_basis.Images.{Images, Store}
use cliproxyapi_plugin_basis.Images.Rewrite.{RewriteError, Rewriting, Rewritten, rewrite_images}
use cliproxyapi_plugin_basis.Json.{
  Json, string, array, object, Fields, of_list, Coding, fingerprint,
}
use cliproxyapi_plugin_basis.Prepare.{PrepareError, prepare}
use cliproxyapi_plugin_basis.Replay.{Cache}
use cliproxyapi_plugin_basis.Tools.{Bridge}
use cliproxyapi_plugin_basis.Upstream.{PreparedRequest, header_value}

-- The fields of pluginapi.ExecutorRequest that the plugin reads.
pub record ExecutorRequest : Type 0 where
  pub model : Text
  pub payload : Text
  pub original_request : Text
  pub headers : Assoc (List Text)

-- gjson.GetBytes(raw, path).String(), and sjson.SetBytes(raw, path, value) of a text.
pub record Editor : Type 0 where
  pub string_at : Text → Text → Text
  pub set_string : Text → Text → Text → Option Text

pub data BuildError : Type 0 where
  edit_failed : BuildError
  bad_images : RewriteError → BuildError
  bad_request : PrepareError → BuildError

-- `requestPayload`
abbrev pub request_payload : ExecutorRequest → Text
request_payload req = if is_nil req.payload then req.original_request else req.payload

-- `requestModel`
unfoldable pub request_model : Editor → ExecutorRequest → Text
request_model e req =
    let model = trim_space req.model in
    if is_nil model then trim_space (e.string_at (request_payload req) (lit "model")) else model

-- The effort that a model's name asks for: the client's name of the model, or the payload's.
abbrev pub suffix_or : Option Text → Option Text → Option Text
suffix_or (some suffix) other = some suffix
suffix_or none other = other

abbrev pub effort_suffix : Editor → ExecutorRequest → Option Text
effort_suffix e req =
    suffix_or (split_model_suffix req.model).1
      (split_model_suffix (e.string_at (request_payload req) (lit "model"))).1

abbrev pub has_effort : Editor → Text → Bool
has_effort e body =
    not (is_nil (trim_space (e.string_at body (lit "reasoning.effort"))))
    || not (is_nil (trim_space (e.string_at body (lit "reasoning_effort"))))

abbrev pub set_effort : Editor → Text → Option Text → Option Text
set_effort e body none = some body
set_effort e body (some suffix) = e.set_string body (lit "reasoning.effort") suffix

-- The suffix is the effort of a request that names none.
abbrev pub with_effort : Editor → ExecutorRequest → Option Text → Option Text
with_effort e req none = none
with_effort e req (some body) =
    if has_effort e body then some body else set_effort e body (effort_suffix e req)

-- The payload with the configured model and an effort; none where sjson fails.
unfoldable pub edited_payload : Editor → ExecutorRequest → Text → Option Text
edited_payload e req canonical =
    let original = request_payload req in
    let payload = if is_nil original then lit "{}" else original in
    with_effort e req (e.set_string payload (lit "model") canonical)

-- `requestScope`
abbrev pub thread_or : Text → Text → Text
thread_or thread other = if is_nil thread then other else thread

unfoldable pub request_scope : Coding → Editor → Text → Assoc (List Text) → Text → Text
request_scope k e account headers body =
    let thread = thread_or (header_value headers (lit "thread-id")) (
      thread_or (header_value headers (lit "session-id"))
        (trim_space (e.string_at body (lit "prompt_cache_key")))) in
    fingerprint k (
      array (
        of_list (
          string account
          ∷ string thread
          ∷ string (header_value headers (lit "authorization"))
          ∷ [])))

abbrev pub prepared_request : Config → Text → Text → PreparedRequest
prepared_request cfg canonical body = record {
  model = canonical;
  body = body;
  url = cfg.base_url ++ lit "/responses";
}

abbrev pub capped_body :
    Config → Text → Bridge → Option Text → Result BuildError (PreparedRequest × Bridge)
capped_body cfg canonical b none = err edit_failed
capped_body cfg canonical b (some body) = ok (prepared_request cfg canonical body, b)

-- The effort of the body, clamped.
unfoldable pub clamp_body :
    Config → Editor → Text → Text → Bridge → Result BuildError (PreparedRequest × Bridge)
clamp_body cfg e canonical body b =
    let effort = e.string_at body (lit "reasoning_effort") in
    let clamped = clamp_effort effort cfg.max_effort in
    if not (is_nil clamped) && not (clamped =ᵗ effort)
    then capped_body cfg canonical (record b { effort = clamped })
        (e.set_string body (lit "reasoning_effort") clamped)
    else ok (prepared_request cfg canonical body, b)

abbrev pub prepared_result :
    Config
    → Coding
    → Editor
    → Text
    → Result PrepareError (Fields × Bridge)
    → Result BuildError (PreparedRequest × Bridge)
prepared_result cfg k e canonical (err reason) = err (bad_request reason)
prepared_result cfg k e canonical (ok (body, b)) =
    clamp_body cfg e canonical (k.encode (object body)) b

-- What the code does not hold: the store of the images, and the readers of URLs, base64 and schemas.
pub record Surroundings : Type 1 where
  pub store : Store
  pub coding : Coding
  pub editor : Editor
  pub parse : Text → Option Url
  pub decode : Text → Option Text
  pub compile : Fields → Option (Json → Bool)

module _ (h : Surroundings) where
  abbrev pub Built : Type 0
  Built = Result BuildError (PreparedRequest × Bridge) × Images × h.store.State

  abbrev pub build_rewritten :
      Config → ExecutorRequest → Text → Text → Option Cache → Rewritten h.store.State Text → Built
  build_rewritten cfg req canonical account replay (err e, w) =
      (err (bad_images e), w.images, w.state)
  build_rewritten cfg req canonical account replay (ok body, w) = (
    prepared_result cfg h.coding h.editor canonical (
        prepare h.coding h.parse h.compile body
          (request_scope h.coding h.editor account req.headers body) replay),
    w.images,
    w.state,
  )

  abbrev pub build_edited :
      Config
      → ExecutorRequest
      → Text
      → Text
      → Option Cache
      → Result Text Bool
      → Images
      → h.store.State
      → Option Text
      → Built
  build_edited cfg req canonical account replay uploader images st none =
      (err edit_failed, images, st)
  build_edited cfg req canonical account replay uploader images st (some body) =
      build_rewritten cfg req canonical account replay (
        rewrite_images h.store h.decode cfg.image_ttl h.coding cfg.image_upload body uploader images
          st)

  -- `build`, given what `uploader` answers.
  unfoldable pub build :
      Config
      → ExecutorRequest
      → Text
      → Text
      → Option Cache
      → Result Text Bool
      → Images
      → h.store.State
      → Built
  build cfg req canonical account replay uploader images st =
      build_edited cfg req canonical account replay uploader images st
        (edited_payload h.editor req canonical)
