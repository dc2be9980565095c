-- ===== src/Requests/Service.antt =====
-- The entry points of basispoints/service.go for a request. `service_host` puts the parts of the plugin
-- that a request runs through in the place of the operations of `Host`: the credentials (Auth), `build`
-- with the images and `Prepare` (Build), `translateUpstream` (Stream), and the details of an answer.
pub mod Details
pub mod Answered
pub mod Streaming
pub mod Lifecycle
use cliproxyapi_plugin_basis.Common.{
  ℕ, ◌+◌, Bool, true, false, not, ◌||◌, Option, none, some, List, [], ◌∷◌, ◌++◌, is_nil,
  if◌then◌else◌, map, Result, ok, err,
}
use cliproxyapi_plugin_basis.Common.Text.{Text, lit, trim_space}
use cliproxyapi_plugin_basis.Common.Assoc.{Assoc}
use cliproxyapi_plugin_basis.Auth.{Codec, credential_from_json}
use cliproxyapi_plugin_basis.Build.{
  ExecutorRequest, Surroundings, BuildError, bad_images, bad_request, edit_failed, build,
  edited_payload, request_model,
}
use cliproxyapi_plugin_basis.Config.{Config}
use cliproxyapi_plugin_basis.Images.{Images}
use cliproxyapi_plugin_basis.Images.Rewrite.{
  bytes_contain_data_image, RewriteError, storage_fault, upload_failed, unconfigured,
}
use cliproxyapi_plugin_basis.Images.Uploader.{ImageStore, Opener, no_images, uploader}
use cliproxyapi_plugin_basis.Replay.{Cache}
use cliproxyapi_plugin_basis.Requests.{Host, World}
use cliproxyapi_plugin_basis.Requests.Call.{call}
use cliproxyapi_plugin_basis.Routing.{Remembered, resolve_model}
use cliproxyapi_plugin_basis.Scheduler.{AuthRecord, Sched}
use cliproxyapi_plugin_basis.Sse.{push, flush}
use cliproxyapi_plugin_basis.Sse.Completed.{Reader, completed_event}
use cliproxyapi_plugin_basis.Stream.{StreamError}
use cliproxyapi_plugin_basis.Stream.Upstream.{translate_upstream}
use cliproxyapi_plugin_basis.Tools.{Bridge}
use cliproxyapi_plugin_basis.Upstream.{
  Failure, status_error, plain_error, StatusError, UpstreamRequest, UpstreamResponse,
  PreparedRequest,
}
use cliproxyapi_plugin_basis.Requests.Service.Details.{upstream_error_detail, stream_frames}

-- What is outside of the plugin: the callbacks of the host and the clock, with a state of their own;
-- the libraries; and the wording of errors.
pub record Outside : Type 1 where
  pub State : Type 0
  pub list_auth : State → Result Failure (List AuthRecord) × State
  pub get_auth : Text → State → Result Failure Text × State
  pub post : UpstreamRequest → State → Result Failure UpstreamResponse × State
  pub log : Text → Text → State → State
  pub clock : State → ℕ × State
  pub surroundings : Surroundings
  pub opener : Opener
  pub codec : Codec
  pub reader : Reader
  pub build_wording : BuildError → Text
  pub stream_wording : StreamError → Text

-- What the plugin knows when a request arrives, besides its configuration.
pub record Request : Type 0 where
  pub request : ExecutorRequest
  pub remembered : Remembered

-- pluginapi.ExecutorResponse and the Result of a stream, with the one header that they have.
pub record Response : Type 0 where
  pub payload : Text
  pub content_type : Text

pub record StreamResult : Type 0 where
  pub content_type : Text
  pub chunks : List Text

-- The errors of `build` for the host: a StatusError, but for the errors of sjson and of the storage.
abbrev pub image_failure : Text → RewriteError → Failure
image_failure message (storage_fault e) = plain_error message
image_failure message (upload_failed e) = status_error (record {
  code = lit "basispoints_image_upload";
  message = lit "basispoints image upload failed";
  http_status = 502;
})
image_failure message unconfigured = status_error (record {
  code = lit "basispoints_image_unconfigured";
  message = lit "image upload is enabled but S3 storage is not configured";
  http_status = 503;
})
image_failure message _ =
    status_error
      (record { code = lit "basispoints_request_invalid"; message = message; http_status = 400 })

abbrev pub build_failure : Text → BuildError → Failure
build_failure message edit_failed = plain_error message
build_failure message (bad_images e) = image_failure message e
build_failure message (bad_request e) =
    status_error
      (record { code = lit "basispoints_request_invalid"; message = message; http_status = 400 })

module _ (o : Outside) where
  -- The state of the host, and the fields of `Service` that a request changes besides the scheduler's.
  pub record ServiceState : Type 0 where
    pub outside : o.State
    pub replay : Option Cache
    pub image_store : ImageStore
    pub storage : o.surroundings.store.State

  abbrev pub images_of : Option Images → Images
  images_of none = no_images
  images_of (some images) = images

  abbrev pub with_images : Option Images → Images → Option Images
  with_images none images = none
  with_images (some old) images = some images

  -- `uploader` is asked where the payload has an inline image and uploads are enabled.
  abbrev pub asked_uploader :
      Config → Text → Option Text → ImageStore → Result Text Bool × ImageStore
  asked_uploader cfg proxy none s = (ok false, s)
  asked_uploader cfg proxy (some body) s =
      if not (bytes_contain_data_image body) || not cfg.image_upload
      then (ok false, s)
      else uploader o.opener cfg proxy s

  abbrev pub built_result :
      Option Cache
      → Result BuildError (PreparedRequest × Bridge)
      → Result Failure (PreparedRequest × Bridge) × Option Cache
  built_result replay (err e) = (err (build_failure (o.build_wording e) e), replay)
  built_result replay (ok (prepared, b)) = (ok (prepared, b), b.replay)

  -- `build`, with `uploader`.
  unfoldable pub service_build :
      Config
      → Request
      → Text
      → Text
      → ServiceState
      → Result Failure (PreparedRequest × Bridge) × ServiceState
  service_build cfg q canonical account st =
      let (answer, opened) =
        asked_uploader cfg q.remembered.proxy_url
          (edited_payload o.surroundings.editor q.request canonical) st.image_store in
      let (r, images, storage) =
        build o.surroundings cfg q.request canonical account st.replay answer
          (images_of opened.images) st.storage in
      let (result, replay) = built_result st.replay r in
      (
        result,
        record st {
          replay = replay;
          image_store = record opened { images = with_images opened.images images };
          storage = storage;
        },
      )

  -- `translateUpstream`, whose bridge shares the replay cache of the service.
  unfoldable pub service_translate : Bridge → Text → ServiceState → Result Text Text × ServiceState
  service_translate b raw st =
      let (r, b') =
        translate_upstream o.stream_wording o.surroundings.coding (record b { replay = st.replay })
          raw in
      (r, record st { replay = b'.replay })

  abbrev pub at_outside : {A : Type 0} → ServiceState → A × o.State → A × ServiceState
  at_outside st (a, outside) = (a, record st { outside = outside })

  abbrev pub service_host : Config → Request → Host
  service_host cfg q = record {
    State = ServiceState;
    list_auth = λ st. at_outside st (o.list_auth st.outside);
    get_auth = λ index st. at_outside st (o.get_auth index st.outside);
    post = λ req st. at_outside st (o.post req st.outside);
    log = λ level message st. record st { outside = o.log level message st.outside };
    clock = λ st. at_outside st (o.clock st.outside);
    credential = credential_from_json o.codec;
    error_code = λ body. o.reader.string_at body (lit "error.code");
    error_detail = upstream_error_detail o.reader;
    Bridge = Bridge;
    build = service_build cfg q;
    translate = service_translate;
  }

  abbrev pub canonical_of : Config → Request → Option Text
  canonical_of cfg q =
      resolve_model cfg q.remembered (request_model o.surroundings.editor q.request)

  -- The world of a request, under the configuration of its start.
  abbrev pub world_of :
      (cfg : Config) (q : Request) → Sched → ServiceState → World (service_host cfg q)
  world_of cfg q sched st = record { sched = sched; config = cfg; host = st }

  abbrev pub called :
      (fuel : ℕ) (cfg : Config) (q : Request) (sched : Sched) (st : ServiceState)
      → Option (Result Failure Text × World (service_host cfg q))
  called fuel cfg q sched st =
      call (service_host cfg q) fuel (canonical_of cfg q) (world_of cfg q sched st)

  abbrev pub response_of : Result Failure Text → Result Failure Response
  response_of (err e) = err e
  response_of (ok body) =
      ok (record { payload = completed_event o.reader body; content_type = lit "application/json" })

  abbrev pub chunked : Option (List Text) → Option (Result Failure StreamResult)
  chunked none = none
  chunked (some frames) =
      some (ok (record { content_type = lit "text/event-stream"; chunks = frames }))

  abbrev pub stream_result_of : Result Failure Text → Option (Result Failure StreamResult)
  stream_result_of (err e) = some (err e)
  stream_result_of (ok body) = chunked (stream_frames o.reader body)

  abbrev pub with_state :
      {A : Type 0} → Sched → ServiceState → Option A → Option (A × Sched × ServiceState)
  with_state sched st none = none
  with_state sched st (some r) = some (r, sched, st)

module _ (o : Outside) (cfg : Config) (q : Request) where
  abbrev pub executed :
      Option (Result Failure Text × World (service_host o cfg q))
      → Option (Result Failure Response × Sched × ServiceState o)
  executed none = none
  executed (some (r, w)) = some (response_of o r, w.sched, w.host)

  -- `Execute`
  unfoldable pub execute :
      ℕ → Sched → ServiceState o → Option (Result Failure Response × Sched × ServiceState o)
  execute fuel sched st = executed (called o fuel cfg q sched st)

  abbrev pub streamed :
      Option (Result Failure Text × World (service_host o cfg q))
      → Option (Result Failure StreamResult × Sched × ServiceState o)
  streamed none = none
  streamed (some (r, w)) = with_state o w.sched w.host (stream_result_of o r)

  -- `ExecuteStream` where the host has opened no stream: the frames are returned inline.
  unfoldable pub execute_inline :
      ℕ → Sched → ServiceState o → Option (Result Failure StreamResult × Sched × ServiceState o)
  execute_inline fuel sched st = streamed (called o fuel cfg q sched st)
