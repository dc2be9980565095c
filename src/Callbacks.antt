-- ===== src/Callbacks.antt =====
-- host_client.go: the callbacks of the host, and the stream that is pulled through them. The C call
-- and the JSON decoder are the record `Bridge`.
pub mod Answers
pub mod Client
use cliproxyapi_plugin_basis.Common.{
  ℕ, Bool, true, false, not, Option, none, some, List, [], ◌∷◌, is_nil, ◌==◌, if◌then◌else◌, Result,
  ok, err,
}
use cliproxyapi_plugin_basis.Common.Text.{Text}
use cliproxyapi_plugin_basis.Common.Assoc.{Assoc}
use cliproxyapi_plugin_basis.Upstream.{UpstreamRequest}

-- `hostEnvelope`; the message is that of its error, if it has one.
pub record HostEnvelope : Type 0 where
  pub is_ok : Bool
  pub result : Text
  pub message : Option Text

-- `hostStreamReadResponse`
pub record ReadResponse : Type 0 where
  pub payload : Text
  pub error : Text
  pub done : Bool

pub record Bridge : Type 1 where
  pub State : Type 0
  -- `callHostRaw`: a method and the JSON of its arguments; the answer with a code, or an error
  pub call_raw : Text → Text → State → Result Text (Text × ℕ) × State
  pub read_envelope : Text → Option HostEnvelope
  pub read_response : Text → Option ReadResponse
  -- the methods by which a stream is read and closed, and the arguments that name it
  pub stream_read : Text
  pub stream_close : Text
  pub stream_arguments : Text → Text → Text

-- The errors of `callHost`, each of which names the method in its text.
pub data CallError : Type 0 where
  not_called : Text → CallError
  no_response : ℕ → CallError
  bad_envelope : CallError
  refused : Text → CallError
  failed : CallError
  bad_code : ℕ → CallError

abbrev pub refusal_of : Option Text → CallError
refusal_of none = failed
refusal_of (some message) = if is_nil message then failed else refused message

pub open_envelope : ℕ → Option HostEnvelope → Result CallError Text
open_envelope code none = err bad_envelope
open_envelope code (some env) =
    if not env.is_ok
    then err (refusal_of env.message)
    else if not (code == 0)
    then err (bad_code code)
    else ok env.result

-- `hostHTTPCall`; no profile is none.
pub record HttpCall : Type 0 where
  pub callback_id : Text
  pub method : Text
  pub url : Text
  pub headers : Assoc (List Text)
  pub body : Text
  pub wire_profile : Option (List Text)

-- `httpCall`
unfoldable pub http_call : Text → UpstreamRequest → HttpCall
http_call callback_id req = record {
  callback_id = callback_id;
  method = req.method;
  url = req.url;
  headers = req.headers;
  body = req.body;
  wire_profile = if is_nil req.header_profile then none else some req.header_profile;
}

-- `hostPullStream`
pub record PullStream : Type 0 where
  pub callback_id : Text
  pub stream_id : Text
  pub closed : Bool

-- How a read ends: there may be more, the stream is at its end, or it failed.
pub data ReadEnd : Type 0 where
  more at_end : ReadEnd
  read_failed : ReadEnd

module _ (b : Bridge) where
  pub read_answer : Result Text (Text × ℕ) → Result CallError Text
  unfolding open_envelope
  read_answer (err e) = err (not_called e)
  read_answer (ok (raw, code)) =
      if is_nil raw then err (no_response code) else open_envelope code (b.read_envelope raw)

  -- `callHost`
  unfoldable pub call_host : Text → Text → b.State → Result CallError Text × b.State
  unfolding read_answer
  call_host method payload st =
      let (answer, st') = b.call_raw method payload st in (read_answer answer, st')

  pub read_pulled : Option ReadResponse → Text × ReadEnd
  read_pulled none = ([], read_failed)
  read_pulled (some resp) =
      if not (is_nil resp.error)
      then (resp.payload, read_failed)
      else if resp.done
      then (resp.payload, at_end)
      else (resp.payload, more)

  pub pulled : Result CallError Text → Text × ReadEnd
  unfolding read_pulled
  pulled (err e) = ([], read_failed)
  pulled (ok raw) = read_pulled (b.read_response raw)

  -- `Read`
  pub read_stream : PullStream → b.State → (Text × ReadEnd) × b.State
  unfolding call_host pulled
  read_stream s st =
      let (r, st') = call_host b.stream_read (b.stream_arguments s.callback_id s.stream_id) st in
      if s.closed then (([], at_end), st) else (pulled r, st')

  abbrev pub error_of : Result CallError Text → Option CallError
  error_of (ok raw) = none
  error_of (err e) = some e

  -- `Close`
  pub close_stream : PullStream → b.State → Option CallError × PullStream × b.State
  unfolding call_host
  close_stream s st =
      let (r, st') = call_host b.stream_close (b.stream_arguments s.callback_id s.stream_id) st in
      if s.closed then (none, s, st) else (error_of r, record s { closed = true }, st')
