-- ===== src/Requests.antt =====
-- The path of a request through basispoints/service.go: an account is acquired, the upstream call
-- is made with it, and the account is given back. The host, the clock and the rest of the plugin
-- are the record `Host`, whose operations read and write a state of their own; Requests/Service puts
-- the other parts of the plugin in their place.
pub mod Acquire
pub mod Call
pub mod Streams
pub mod Service
use cliproxyapi_plugin_basis.Common.{
  ℕ, zero, suc, ◌+◌, Bool, true, false, not, ◌&&◌, Option, none, some, List, [], ◌∷◌, is_nil, ◌==◌,
  ltb, if◌then◌else◌, length, Result, ok, err,
}
use cliproxyapi_plugin_basis.Common.Text.{Text, lit}
use cliproxyapi_plugin_basis.Common.Assoc.{Assoc}
use cliproxyapi_plugin_basis.Config.{Config}
use cliproxyapi_plugin_basis.Scheduler.{
  AuthRecord, Sched, PickError, no_codex_credential, basispoints_busy, basispoints_cooling,
  exhausted, pick, Lease, release,
}
use cliproxyapi_plugin_basis.Upstream.{
  StatusError, Failure, status_error, UpstreamRequest, UpstreamResponse, Credential,
  PreparedRequest, upstream_call, upstream_error, is_success,
}

pub record Host : Type 1 where
  pub State : Type 0
  -- the callbacks of `HostClient`
  pub list_auth : State → Result Failure (List AuthRecord) × State
  pub get_auth : Text → State → Result Failure Text × State
  pub post : UpstreamRequest → State → Result Failure UpstreamResponse × State
  pub log : Text → Text → State → State
  -- `Service.now`
  pub clock : State → ℕ × State
  -- `credentialFromJSON` of auth.go
  pub credential : Text → Option (Text × Text)
  -- gjson's `error.code` of an answer
  pub error_code : Text → Text
  -- `upstreamErrorDetail` of an answer, for the log
  pub error_detail : Text → Text
  -- `build`: the request for a model and an account, with the bridge that reads the answer
  pub Bridge : Type 0
  pub build : Text → Text → State → Result Failure (PreparedRequest × Bridge) × State
  -- `translateUpstream`
  pub translate : Bridge → Text → State → Result Text Text × State

pub record World (h : Host) : Type 0 where
  pub sched : Sched
  pub config : Config
  pub host : h.State

abbrev pub pick_failure : PickError → StatusError
pick_failure no_codex_credential = record {
  code = lit "no_codex_credential";
  message = lit "no Codex credential is available for basispoints";
  http_status = 503;
}
pick_failure basispoints_busy = record {
  code = lit "basispoints_busy";
  message = lit "basispoints account is busy";
  http_status = 429;
}
pick_failure basispoints_cooling = record {
  code = lit "basispoints_cooling";
  message = lit "basispoints account is cooling down";
  http_status = 429;
}
pick_failure exhausted = record {
  code = lit "basispoints_exhausted";
  message = lit "basispoints credentials are exhausted for this request";
  http_status = 429;
}

abbrev pub invalid_credential : StatusError
invalid_credential = record {
  code = lit "invalid_codex_credential";
  message = lit "codex credential is missing access token or account id";
  http_status = 401;
}

abbrev pub acquire_failure : List Text → PickError → Failure
acquire_failure (i ∷ is) exhausted = status_error invalid_credential
acquire_failure excluded e = status_error (pick_failure e)

module _ (h : Host) where
  -- `release.release(s, status, …)`: the clock is read under the mutex.
  pub give_back : Lease → ℕ → World h → Lease × World h
  unfolding release
  give_back lease status w =
      let (now, host) = h.clock w.host in
      let (lease', sched) = release lease w.sched w.config status now in
      (lease', record { sched = sched; config = w.config; host = host })

  abbrev pub new_lease : Text → Lease
  new_lease index = record { key = index; released = false }

  abbrev pub new_credential : Text → Text × Text → Credential
  new_credential index (token, account) = record {
    key = index;
    auth_index = index;
    token = token;
    account_id = account;
  }

  -- The credential behind a callback's answer; none where the callback fails or it is unusable.
  abbrev pub read_credential : Result Failure Text → Option (Text × Text)
  read_credential (ok raw) = h.credential raw
  read_credential (err e) = none

  abbrev pub Acquired : Type 0
  Acquired = Result Failure (Lease × Credential)

  -- How a round of the loop of `acquire` ends: with a result, or with an account to leave out.
  pub data Round : Type 0 where
    stopped : Acquired → World h → Round
    retried : Text → World h → Round

  pub after_read : Text → World h → Option (Text × Text) → Round
  unfolding give_back
  after_read index w none = retried index (give_back (new_lease index) 0 w).1
  after_read index w (some c) = stopped (ok (new_lease index, new_credential index c)) w

  pub after_pick : List Text → World h → Result PickError (Text × Sched) → Round
  unfolding after_read
  after_pick excluded w (err e) = stopped (err (acquire_failure excluded e)) w
  after_pick excluded w (ok (index, sched)) =
      let (raw, host) = h.get_auth index w.host in
      after_read index (record { sched = sched; config = w.config; host = host })
        (read_credential raw)

  pub acquire_round : Config → List AuthRecord → List Text → List Text → World h → Round
  unfolding after_pick
  acquire_round cfg records skip excluded w =
      let (now, host) = h.clock w.host in
      after_pick excluded (record { sched = w.sched; config = w.config; host = host })
        (pick w.sched cfg skip excluded now records)

  -- The loop; `none` means that the fuel ran out.
  pub acquire_loop :
      ℕ → Config → List AuthRecord → List Text → List Text → World h → Option (Acquired × World h)
  unfolding acquire_round
  acquire_loop zero cfg records skip excluded w = none
  acquire_loop (suc fuel) cfg records skip excluded w =
      elim (acquire_round cfg records skip excluded w) [
        | stopped r w' ↦ some (r, w')
        | retried index w' ↦ acquire_loop fuel cfg records skip (index ∷ excluded) w'
      ]

  pub acquire_from :
      Config → List Text → Result Failure (List AuthRecord) → World h → Option (Acquired × World h)
  unfolding acquire_loop
  acquire_from cfg skip (err e) w = some (err e, w)
  acquire_from cfg skip (ok records) w = acquire_loop (length records + 1) cfg records skip [] w

  unfoldable pub acquire : Config → List Text → World h → Option (Acquired × World h)
  unfolding acquire_from
  acquire cfg skip w =
      let (records, host) = h.list_auth w.host in
      acquire_from cfg skip records (record w { host = host })
