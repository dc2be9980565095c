-- ===== src/Requests/Call.antt =====
-- `call` of basispoints/service.go: one buffered request, tried on one account after another while
-- upstream answers 429.
pub mod Tries
pub mod Balanced
pub mod Answers
use cliproxyapi_plugin_basis.Common.{
  ℕ, zero, suc, ◌+◌, Bool, true, false, not, Option, none, some, List, [], ◌∷◌, ◌++◌, ◌==◌,
  if◌then◌else◌, length, Result, ok, err,
}
use cliproxyapi_plugin_basis.Common.Text.{Text, lit}
use cliproxyapi_plugin_basis.Config.{Config}
use cliproxyapi_plugin_basis.Scheduler.{Lease}
use cliproxyapi_plugin_basis.Upstream.{
  Failure, StatusError, status_error, UpstreamResponse, Credential, PreparedRequest, upstream_call,
  upstream_error, is_success,
}
use cliproxyapi_plugin_basis.Requests.{
  Host, World, give_back, acquire, Acquired, read_credential, new_credential,
}

abbrev pub not_routed : Failure
not_routed = status_error (record {
  code = lit "model_not_routed";
  message = lit "model is not routed to basispoints";
  http_status = 404;
})

abbrev pub protocol_error : Text → Failure
protocol_error message =
    status_error
      (record { code = lit "basispoints_protocol_error"; message = message; http_status = 502 })

-- The answer that stands for a 401 whose credential could not be read again.
abbrev pub no_token : UpstreamResponse
no_token = record {
  status_code = 401;
  headers = [];
  body =
      lit
        "{\"error\":{\"message\":\"codex credential has no access token\",\"type\":\"auth_error\"}}";
}

-- How a try on one account ends.
pub data Attempt : Type 0 where
  no_account : Failure → Attempt
  finished : Result Failure Text → Attempt
  limited : Text → Failure → Attempt

pub read_answer : Result Text Text → Result Failure Text
read_answer (ok translated) = ok translated
read_answer (err message) = err (protocol_error message)

-- The error of a request that finds no account: that of the last 429, if there was one.
abbrev pub last_or : Option Failure → Failure → Failure
last_or none e = e
last_or (some last) e = last

module _ (h : Host) where
  abbrev pub with_host : World h → h.State → World h
  with_host w host = record { sched = w.sched; config = w.config; host = host }

  abbrev pub log_to : World h → Text → Text → World h
  log_to w level message = with_host w (h.log level message w.host)

module _ (h : Host) (cfg : Config) where
  pub round_trip :
      PreparedRequest → Credential → World h → Result Failure UpstreamResponse × World h
  round_trip prepared creds w =
      let (r, host) = h.post (upstream_call cfg prepared creds) w.host in (r, with_host h w host)

  -- The second try after a 401, with the credential as the host has it now.
  pub retry_with :
      PreparedRequest
      → Text
      → Option (Text × Text)
      → World h
      → Result Failure UpstreamResponse × World h
  unfolding round_trip
  retry_with prepared auth_index none w = (ok no_token, w)
  retry_with prepared auth_index (some c) w = round_trip prepared (new_credential h auth_index c) w

  pub retry_unauthorized :
      PreparedRequest → Credential → World h → Result Failure UpstreamResponse × World h
  unfolding retry_with
  retry_unauthorized prepared creds w =
      let (raw, host) = h.get_auth creds.auth_index w.host in
      retry_with prepared creds.auth_index (read_credential h raw) (with_host h w host)

  pub after_first :
      PreparedRequest
      → Credential
      → Result Failure UpstreamResponse
      → World h
      → Result Failure UpstreamResponse × World h
  unfolding retry_unauthorized
  after_first prepared creds (err e) w = (err e, w)
  after_first prepared creds (ok resp) w =
      if resp.status_code == 401 then retry_unauthorized prepared creds w else (ok resp, w)

  -- What follows the answer of upstream. A 429 reads the clock once more, for the wait that upstream
  -- asks for.
  pub settle :
      Lease → Credential → h.Bridge → Result Failure UpstreamResponse → World h → Attempt × World h
  unfolding read_answer
  settle lease creds bridge (err e) w = (finished (err e), (give_back h lease 0 w).1)
  settle lease creds bridge (ok resp) w =
      let failure = upstream_error resp.status_code (h.error_code resp.body) in
      let waited = with_host h w (h.clock w.host).1 in
      let w' = (give_back h lease resp.status_code w).1 in
      let (answer, host) = h.translate bridge resp.body w'.host in
      if resp.status_code == 429
      then (
        limited creds.key failure,
        log_to h (give_back h lease resp.status_code waited).1 (lit "warn")
            (lit "basispoints upstream rate limited"),
      )
      else if not (is_success resp.status_code)
      then (
        finished (err failure),
        log_to h w' (lit "warn")
            (lit "basispoints upstream rejected request: " ++ h.error_detail resp.body),
      )
      else (finished (read_answer answer), with_host h w' host)

  pub with_prepared :
      Lease → Credential → Result Failure (PreparedRequest × h.Bridge) → World h → Attempt × World h
  unfolding settle after_first
  with_prepared lease creds (err e) w = (
    finished (err e),
    log_to h (give_back h lease 0 w).1 (lit "warn") (lit "basispoints prepare failed"),
  )
  with_prepared lease creds (ok (prepared, bridge)) w =
      let (first, w₁) = round_trip prepared creds w in
      let (answer, w₂) = after_first prepared creds first w₁ in settle lease creds bridge answer w₂

module _ (h : Host) (cfg : Config) (canonical : Text) where
  pub with_account : Acquired h → World h → Attempt × World h
  unfolding with_prepared
  with_account (err e) w = (no_account e, w)
  with_account (ok (lease, creds)) w =
      let (built, host) = h.build canonical creds.account_id w.host in
      with_prepared h cfg lease creds built (with_host h w host)

  pub attempt : List Text → World h → Option (Attempt × World h)
  unfolding with_account
  attempt skip w = elim (acquire h cfg skip w) [
    | none ↦ none
    | some (r, w') ↦ some (with_account r w')
  ]

  -- The loop of `call`; `none` means that the fuel ran out.
  pub call_loop : ℕ → List Text → Option Failure → World h → Option (Result Failure Text × World h)
  unfolding attempt
  call_loop zero skip last w = none
  call_loop (suc fuel) skip last w = elim (attempt skip w) [
    | none ↦ none
    | some (no_account e, w') ↦ some (err (last_or last e), w')
    | some (finished r, w') ↦ some (r, w')
    | some (limited key e, w') ↦ call_loop fuel (key ∷ skip) (some e) w'
  ]

module _ (h : Host) where
  -- `call`, for a request whose model resolves to `canonical`, under the configuration of its start.
  unfoldable pub call : ℕ → Option Text → World h → Option (Result Failure Text × World h)
  unfolding call_loop
  call fuel none w = some (err not_routed, w)
  call fuel (some canonical) w = call_loop h w.config canonical fuel [] none w
