-- ===== src/Callbacks/Client.antt =====
-- `hostClient` of host_client.go: the callbacks by which the plugin lists and reads credentials, calls
-- upstream, and serves the stream of the host. The decoders are those of encoding/json.
pub mod Answered
use cliproxyapi_plugin_basis.Common.{
  ℕ, false, Option, none, some, List, [], ◌∷◌, map, is_nil, Result, ok, err,
}
use cliproxyapi_plugin_basis.Common.Text.{Text, lit}
use cliproxyapi_plugin_basis.Common.Assoc.{Assoc}
use cliproxyapi_plugin_basis.Json.{string, object, object_of, Coding, Fields}
use cliproxyapi_plugin_basis.Scheduler.{AuthRecord}
use cliproxyapi_plugin_basis.Upstream.{UpstreamRequest, UpstreamResponse}
use cliproxyapi_plugin_basis.Callbacks.{
  Bridge, CallError, HttpCall, http_call, PullStream, call_host, error_of,
}

-- The names of the methods in pluginabi.
pub record Methods : Type 0 where
  pub auth_list : Text
  pub auth_get : Text
  pub http_do : Text
  pub http_do_stream : Text
  pub stream_emit : Text
  pub stream_close : Text
  pub log : Text

-- `hostHTTPStreamResponse`
pub record StreamAnswer : Type 0 where
  pub status_code : ℕ
  pub headers : Assoc (List Text)
  pub stream_id : Text

-- encoding/json on the structs of the arguments and of the answers; bytes are written in base64.
pub record Wire : Type 0 where
  pub auth_request : Text → Text
  pub http_request : HttpCall → Text
  pub base64 : Text → Text
  pub read_files : Text → Option (List AuthRecord)
  pub read_credential : Text → Option Text
  pub read_http : Text → Option UpstreamResponse
  pub read_stream_answer : Text → Option StreamAnswer

-- `UpstreamStream`, of a stream that is pulled.
pub record PulledStream : Type 0 where
  pub status_code : ℕ
  pub headers : Assoc (List Text)
  pub stream : PullStream

pub data ClientError : Type 0 where
  not_answered : CallError → ClientError
  bad_answer : ClientError

abbrev pub or_bad : {A : Type 0} → Option A → Result ClientError A
or_bad none = err bad_answer
or_bad (some a) = ok a

abbrev pub answered :
    {A : Type 0} → (Text → Option A) → Result CallError Text → Result ClientError A
answered read (err e) = err (not_answered e)
answered read (ok raw) = or_bad (read raw)

module _ (b : Bridge) (k : Coding) (m : Methods) (wire : Wire) (callback_id : Text) where
  -- A map of the source, with the identifier of the callback.
  abbrev pub arguments : List (Text × Text) → Text
  arguments fields = k.encode (
      object (
        object_of (
          map (λ (f : Text × Text). (f.0, string f.1))
            ((lit "host_callback_id", callback_id) ∷ fields))))

  -- `ListAuth`
  unfoldable pub list_auth : b.State → Result ClientError (List AuthRecord) × b.State
  unfolding call_host
  list_auth st =
      let (r, st') = call_host b m.auth_list (arguments []) st in (answered wire.read_files r, st')

  -- `GetAuth`
  unfoldable pub get_auth : Text → b.State → Result ClientError Text × b.State
  unfolding call_host
  get_auth auth_index st =
      let (r, st') = call_host b m.auth_get (wire.auth_request auth_index) st in
      (answered wire.read_credential r, st')

  -- `Do`
  unfoldable pub do_call : UpstreamRequest → b.State → Result ClientError UpstreamResponse × b.State
  unfolding call_host http_call
  do_call req st =
      let (r, st') = call_host b m.http_do (wire.http_request (http_call callback_id req)) st in
      (answered wire.read_http r, st')

  abbrev pub pulling : StreamAnswer → PulledStream
  pulling answer = record {
    status_code = answer.status_code;
    headers = answer.headers;
    stream = record { callback_id = callback_id; stream_id = answer.stream_id; closed = false };
  }

  abbrev pub pulling_from : Option StreamAnswer → Option PulledStream
  pulling_from none = none
  pulling_from (some answer) = some (pulling answer)

  -- `DoStream`
  unfoldable pub do_stream : UpstreamRequest → b.State → Result ClientError PulledStream × b.State
  unfolding call_host http_call
  do_stream req st =
      let (r, st') =
        call_host b m.http_do_stream (wire.http_request (http_call callback_id req)) st in
      (answered (λ raw. pulling_from (wire.read_stream_answer raw)) r, st')

  -- `Emit`
  unfoldable pub emit_frame : Text → Text → b.State → Option CallError × b.State
  unfolding call_host
  emit_frame stream_id payload st =
      let (r, st') =
        call_host b m.stream_emit
          (arguments ((lit "stream_id", stream_id) ∷ (lit "payload", wire.base64 payload) ∷ []))
          st in
      (error_of b r, st')

  -- `CloseStream`
  unfoldable pub close_host_stream : Text → Text → b.State → Option CallError × b.State
  unfolding call_host
  close_host_stream stream_id message st =
      let (r, st') =
        call_host b m.stream_close
          (arguments ((lit "stream_id", stream_id) ∷ (lit "error", message) ∷ [])) st in
      (error_of b r, st')

  -- The arguments of `Log`, whose fields are given as one object
  abbrev pub log_arguments : Text → Text → Fields → Text
  log_arguments level message fields = k.encode (
      object (
        object_of (
          (lit "host_callback_id", string callback_id)
          ∷ (lit "level", string level)
          ∷ (lit "message", string message)
          ∷ (lit "fields", object fields)
          ∷ [])))

  -- `Log`
  unfoldable pub log_message : Text → Text → Fields → b.State → b.State
  unfolding call_host
  log_message level message fields st =
      (call_host b m.log (log_arguments level message fields) st).1
