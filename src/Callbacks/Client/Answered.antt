-- ===== src/Callbacks/Client/Answered.antt =====
-- What the host has answered where a callback of host_client.go succeeds.
use cliproxyapi_plugin_basis.Common.{
  ◌≡◌, refl, true, false, Option, none, some, [], ◌∷◌, is_nil, Result, ok, err,
}
use cliproxyapi_plugin_basis.Common.Text.{Text, lit}
use cliproxyapi_plugin_basis.Json.{Coding, Fields}
use cliproxyapi_plugin_basis.Upstream.{UpstreamRequest}
use cliproxyapi_plugin_basis.Callbacks.{
  HostEnvelope, Bridge, CallError, http_call, call_host, error_of,
}
use cliproxyapi_plugin_basis.Callbacks.Answers.{call_host-ok}
use cliproxyapi_plugin_basis.Callbacks.Client.{
  Methods, Wire, ClientError, or_bad, answered, arguments, list_auth, get_auth, do_call,
  pulling_from, do_stream, emit_frame, close_host_stream, log_arguments, log_message,
}

module _ (b : Bridge) where
  -- The host answered a call with the code 0 and an envelope that says that all is well and holds
  -- `result`.
  abbrev pub Succeeded : Text → Text → b.State → Text → Type 0
  Succeeded method payload st result =
      (raw : Text) × (env : HostEnvelope) × ((b.call_raw method payload st).0 ≡ ok (raw, 0))
      × (is_nil raw ≡ false)
      × (b.read_envelope raw ≡ some env)
      × (env.is_ok ≡ true)
      × (env.result ≡ result)

  -- One call is made, and a value that is returned is read from what its envelope holds.
  abbrev pub Asks :
      {A : Type 0}
      → Text
      → Text
      → b.State
      → (Text → Option A)
      → Result ClientError A × b.State
      → Type 0
  Asks method payload st read (err e, st') = st' ≡ (b.call_raw method payload st).1
  Asks method payload st read (ok a, st') =
      (st' ≡ (b.call_raw method payload st).1)
      × ((result : Text) × Succeeded method payload st result × (read result ≡ some a))

  -- One call is made, and where there is no error it succeeded.
  abbrev pub Tells : Text → Text → b.State → Option CallError × b.State → Type 0
  Tells method payload st (some e, st') = st' ≡ (b.call_raw method payload st).1
  Tells method payload st (none, st') =
      (st' ≡ (b.call_raw method payload st).1)
      × ((result : Text) × Succeeded method payload st result)

  module _ (method payload : Text) (st : b.State) where
    call_host-state : (call_host b method payload st).1 ≡ (b.call_raw method payload st).1
    unfolding call_host
    call_host-state = refl

    answered-Asks :
        {A : Type 0} (read : Text → Option A)
        → Asks method payload st read
            (answered read (call_host b method payload st).0, (call_host b method payload st).1)
    answered-Asks {A = A} read = by_result (call_host b method payload st).0 refl
      where
        by_result :
            (r : Result CallError Text)
            → (call_host b method payload st).0 ≡ r
            → Asks method payload st read (answered read r, (call_host b method payload st).1)
        by_result (err e) p = call_host-state
        by_result (ok raw) p = by_value (read raw) refl
          where
            by_value :
                (o : Option A)
                → read raw ≡ o
                → Asks method payload st read (or_bad o, (call_host b method payload st).1)
            by_value none q = call_host-state
            by_value (some a) q =
                (call_host-state, (raw, call_host-ok b method payload st raw p, q))

    error_of-Tells :
        Tells method payload st
          (error_of b (call_host b method payload st).0, (call_host b method payload st).1)
    error_of-Tells = by_result (call_host b method payload st).0 refl
      where
        by_result :
            (r : Result CallError Text)
            → (call_host b method payload st).0 ≡ r
            → Tells method payload st (error_of b r, (call_host b method payload st).1)
        by_result (err e) p = call_host-state
        by_result (ok raw) p = (call_host-state, (raw, call_host-ok b method payload st raw p))

module _ (b : Bridge) (k : Coding) (m : Methods) (wire : Wire) (callback_id : Text) where
  -- Every callback of the client makes one call of the host. It returns a value only where the host
  -- answered with the code 0 and an envelope that says that all is well, and the value is what the
  -- decoder reads from what the envelope holds; the stream of an answer is open, and has the
  -- identifier of the callback. An event is sent, and a stream closed, without an error only where the
  -- host answered so; a line for the log is one call too, whatever the host answers.
  pub call_host-Asks :
      (auth_index stream_id text level message : Text) (fields : Fields) (req : UpstreamRequest)
      (st : b.State)
      → Asks b m.auth_list
          (arguments b k m wire callback_id [])
          st
          wire.read_files
          (list_auth b k m wire callback_id st)
        × Asks b m.auth_get
            (wire.auth_request auth_index)
            st
            wire.read_credential
            (get_auth b k m wire callback_id auth_index st)
        × Asks b m.http_do
            (wire.http_request (http_call callback_id req))
            st
            wire.read_http
            (do_call b k m wire callback_id req st)
        × Asks b m.http_do_stream
            (wire.http_request (http_call callback_id req))
            st
            (λ raw. pulling_from b k m wire callback_id (wire.read_stream_answer raw))
            (do_stream b k m wire callback_id req st)
        × Tells b m.stream_emit
            (arguments b k m wire callback_id
              ((lit "stream_id", stream_id) ∷ (lit "payload", wire.base64 text) ∷ []))
            st
            (emit_frame b k m wire callback_id stream_id text st)
        × Tells b m.stream_close
            (arguments b k m wire callback_id
              ((lit "stream_id", stream_id) ∷ (lit "error", text) ∷ []))
            st
            (close_host_stream b k m wire callback_id stream_id text st)
        × (log_message b k m wire callback_id level message fields st
            ≡ (b.call_raw m.log (log_arguments b k m wire callback_id level message fields) st).1)
  unfolding list_auth get_auth do_call do_stream emit_frame close_host_stream log_message
  call_host-Asks auth_index stream_id text level message fields req st = (
    answered-Asks b _ _ st wire.read_files,
    answered-Asks b _ _ st wire.read_credential,
    answered-Asks b _ _ st wire.read_http,
    answered-Asks b _ _ st
        (λ raw. pulling_from b k m wire callback_id (wire.read_stream_answer raw)),
    error_of-Tells b _ _ st,
    error_of-Tells b _ _ st,
    call_host-state b _ _ st,
  )
