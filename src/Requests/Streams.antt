-- ===== src/Requests/Streams.antt =====
-- `openStream` of basispoints/service.go: one streamed request, tried on one account after another
-- while upstream answers 429.
pub mod Held
pub mod Balanced
pub mod Relayed
use cliproxyapi_plugin_basis.Common.{
  ℕ, zero, suc, ◌+◌, Bool, true, false, not, Option, none, some, List, [], ◌∷◌, ◌==◌, if◌then◌else◌,
  Result, ok, err,
}
use cliproxyapi_plugin_basis.Common.Text.{Text, lit}
use cliproxyapi_plugin_basis.Config.{Config}
use cliproxyapi_plugin_basis.Scheduler.{Lease}
use cliproxyapi_plugin_basis.Upstream.{
  Failure, status_error, UpstreamRequest, Credential, PreparedRequest, upstream_call,
  upstream_error, is_success,
}
use cliproxyapi_plugin_basis.Requests.{
  Host, World, give_back, acquire, Acquired, read_credential, new_credential,
}
use cliproxyapi_plugin_basis.Requests.Call.{not_routed, last_or, with_host, log_to, no_token}

-- `UpstreamStream`, without the headers that nothing reads but the ignored wait.
pub record StreamResponse (Stream : Type 0) : Type 0 where
  pub status_code : ℕ
  pub stream : Option Stream

-- The host, with its streams.
pub record StreamHost : Type 1 where
  pub host : Host
  pub Stream : Type 0
  pub post_stream :
      UpstreamRequest → host.State → Result Failure (StreamResponse Stream) × host.State
  pub close : Stream → host.State → host.State
  -- `readStream`: the bytes up to the end or an error; the stream is closed
  pub read_stream : Option Stream → host.State → Text × host.State

abbrev pub empty_stream : Failure
empty_stream = status_error (record {
  code = lit "upstream_error";
  message = lit "basispoints stream is empty";
  http_status = 502;
})

module _ (s : StreamHost) where
  -- What `roundTripStream` returns: the body of a refusal, the stream of a success.
  pub record Opened : Type 0 where
    pub status_code : ℕ
    pub body : Text
    pub stream : Option s.Stream

  pub read_opened :
      Result Failure (StreamResponse s.Stream) → World s.host → Result Failure Opened × World s.host
  read_opened (err e) w = (err e, w)
  read_opened (ok resp) w =
      let (body, host) = s.read_stream resp.stream w.host in
      if not (is_success resp.status_code)
      then (
        ok (record { status_code = resp.status_code; body = body; stream = none }),
        with_host s.host w host,
      )
      else (ok (record { status_code = resp.status_code; body = []; stream = resp.stream }), w)

  pub close_stream : Option s.Stream → World s.host → World s.host
  close_stream none w = w
  close_stream (some stream) w = with_host s.host w (s.close stream w.host)

  -- How a try on one account ends.
  pub data StreamAttempt : Type 0 where
    unserved : Failure → StreamAttempt
    failed : Failure → StreamAttempt
    throttled : Text → Failure → StreamAttempt
    streaming : s.Stream → s.host.Bridge → Lease → StreamAttempt

module _ (s : StreamHost) (cfg : Config) where
  pub round_trip_stream :
      PreparedRequest → Credential → World s.host → Result Failure (Opened s) × World s.host
  unfolding read_opened
  round_trip_stream prepared creds w =
      let (r, host) = s.post_stream (upstream_call cfg prepared creds) w.host in
      read_opened s r (with_host s.host w host)

  pub retry_stream_with :
      PreparedRequest
      → Text
      → Option (Text × Text)
      → World s.host
      → Result Failure (Opened s) × World s.host
  unfolding round_trip_stream
  retry_stream_with prepared auth_index none w =
      (ok (record { status_code = 401; body = no_token.body; stream = none }), w)
  retry_stream_with prepared auth_index (some c) w =
      round_trip_stream prepared (new_credential s.host auth_index c) w

  pub retry_unauthorized_stream :
      PreparedRequest → Credential → World s.host → Result Failure (Opened s) × World s.host
  unfolding retry_stream_with
  retry_unauthorized_stream prepared creds w =
      let (raw, host) = s.host.get_auth creds.auth_index w.host in
      retry_stream_with prepared creds.auth_index (read_credential s.host raw)
        (with_host s.host w host)

  pub after_first_stream :
      PreparedRequest
      → Credential
      → Result Failure (Opened s)
      → World s.host
      → Result Failure (Opened s) × World s.host
  unfolding retry_unauthorized_stream close_stream
  after_first_stream prepared creds (err e) w = (err e, w)
  after_first_stream prepared creds (ok opened) w =
      if opened.status_code == 401
      then retry_unauthorized_stream prepared creds (close_stream s opened.stream w)
      else (ok opened, w)

  -- A stream that upstream accepted, if there is one.
  pub start_stream :
      Lease → s.host.Bridge → Option s.Stream → World s.host → StreamAttempt s × World s.host
  start_stream lease bridge none w = (failed empty_stream, (give_back s.host lease 0 w).1)
  start_stream lease bridge (some stream) w = (streaming stream bridge lease, w)

  -- What follows the answer of upstream. A 429 reads the clock once more, for the wait that upstream
  -- asks for.
  pub settle_stream :
      Lease
      → Credential
      → s.host.Bridge
      → Result Failure (Opened s)
      → World s.host
      → StreamAttempt s × World s.host
  unfolding start_stream close_stream
  settle_stream lease creds bridge (err e) w = (failed e, (give_back s.host lease 0 w).1)
  settle_stream lease creds bridge (ok opened) w =
      let failure = upstream_error opened.status_code (s.host.error_code opened.body) in
      let closed = close_stream s opened.stream w in
      let waited = with_host s.host closed (s.host.clock closed.host).1 in
      if opened.status_code == 429
      then (throttled creds.key failure, (give_back s.host lease opened.status_code waited).1)
      else if not (is_success opened.status_code)
      then (failed failure, (give_back s.host lease opened.status_code closed).1)
      else start_stream lease bridge opened.stream w

  pub with_prepared_stream :
      Lease
      → Credential
      → Result Failure (PreparedRequest × s.host.Bridge)
      → World s.host
      → StreamAttempt s × World s.host
  unfolding settle_stream after_first_stream
  with_prepared_stream lease creds (err e) w = (
    failed e,
    log_to s.host (give_back s.host lease 0 w).1 (lit "warn") (lit "basispoints prepare failed"),
  )
  with_prepared_stream lease creds (ok (prepared, bridge)) w =
      let (first, w₁) = round_trip_stream prepared creds w in
      let (answer, w₂) = after_first_stream prepared creds first w₁ in
      settle_stream lease creds bridge answer w₂

module _ (s : StreamHost) (cfg : Config) (canonical : Text) where
  pub with_stream_account : Acquired s.host → World s.host → StreamAttempt s × World s.host
  unfolding with_prepared_stream
  with_stream_account (err e) w = (unserved e, w)
  with_stream_account (ok (lease, creds)) w =
      let (built, host) = s.host.build canonical creds.account_id w.host in
      with_prepared_stream s cfg lease creds built (with_host s.host w host)

  pub stream_attempt : List Text → World s.host → Option (StreamAttempt s × World s.host)
  unfolding with_stream_account
  stream_attempt skip w = elim (acquire s.host cfg skip w) [
    | none ↦ none
    | some (r, w') ↦ some (with_stream_account r w')
  ]

  abbrev pub OpenedStream : Type 0
  OpenedStream = s.Stream × s.host.Bridge × Lease

  -- The loop of `openStream`; `none` means that the fuel ran out.
  pub stream_loop :
      ℕ
      → List Text
      → Option Failure
      → World s.host
      → Option (Result Failure OpenedStream × World s.host)
  unfolding stream_attempt
  stream_loop zero skip last w = none
  stream_loop (suc fuel) skip last w = elim (stream_attempt skip w) [
    | none ↦ none
    | some (unserved e, w') ↦ some (err (last_or last e), w')
    | some (failed e, w') ↦ some (err e, w')
    | some (streaming stream bridge lease, w') ↦ some (ok (stream, bridge, lease), w')
    | some (throttled key e, w') ↦ stream_loop fuel (key ∷ skip) (some e) w'
  ]

module _ (s : StreamHost) where
  -- `openStream`, for a request whose model resolves to `canonical`.
  pub open_stream :
      (fuel : ℕ) (canonical : Option Text) (w : World s.host)
      → Option (Result Failure (s.Stream × s.host.Bridge × Lease) × World s.host)
  unfolding stream_loop
  open_stream fuel none w = some (err not_routed, w)
  open_stream fuel (some canonical) w = stream_loop s w.config canonical fuel [] none w
