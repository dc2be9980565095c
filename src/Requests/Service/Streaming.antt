-- ===== src/Requests/Service/Streaming.antt =====
-- `ExecuteStream` of basispoints/service.go: a stream that the host opened is relayed to it, and the
-- answer is inline where the host opened none.
use cliproxyapi_plugin_basis.Common.{
  ℕ, ◌+◌, ◌≡◌, refl, Option, none, some, List, [], ◌∷◌, ◌++◌, is_nil, if◌then◌else◌, if_split,
  length, Result, ok, err,
}
use cliproxyapi_plugin_basis.Common.Text.{Text, lit, trim_space}
use cliproxyapi_plugin_basis.Config.{Config}
use cliproxyapi_plugin_basis.Scheduler.{Sched, Lease}
use cliproxyapi_plugin_basis.Upstream.{Failure, UpstreamRequest}
use cliproxyapi_plugin_basis.Tools.{Bridge}
use cliproxyapi_plugin_basis.Relay.{Event, Outcome, Receiver}
use cliproxyapi_plugin_basis.Relay.Bytes.{Chunk}
use cliproxyapi_plugin_basis.Relay.Run.{Act, bridged_stream, relay}
use cliproxyapi_plugin_basis.Requests.{World}
use cliproxyapi_plugin_basis.Requests.Call.Balanced.{ListsOnly}
use cliproxyapi_plugin_basis.Requests.Streams.{StreamHost, StreamResponse, open_stream}
use cliproxyapi_plugin_basis.Requests.Streams.Balanced.{HeldBy, open_stream-HeldBy}
use cliproxyapi_plugin_basis.Requests.Streams.Relayed.{GivesBack, relay-GivesBack}
use cliproxyapi_plugin_basis.Requests.Service.{
  Outside, Request, StreamResult, ServiceState, service_host, canonical_of, world_of,
  execute_inline,
}
use cliproxyapi_plugin_basis.Requests.Service.Answered.{execute_inline-Answers}

-- A stream of the gateway: its identifier, and what its reads give.
pub record Source : Type 0 where
  pub stream_id : Text
  pub reads : List Chunk

-- The callbacks of the host for streams.
pub record Streaming (o : Outside) : Type 1 where
  pub post_stream : UpstreamRequest → o.State → Result Failure (StreamResponse Source) × o.State
  pub close : Source → o.State → o.State

-- The loop of `readStream`.
unfoldable pub read_chunks : List Chunk → Text
read_chunks [] = []
read_chunks ((chunk, none) ∷ reads) = chunk ++ read_chunks reads
read_chunks ((chunk, some e) ∷ reads) = chunk

-- What `ExecuteStream` returns, and the stream that it leaves to `pump`, in a goroutine of its own.
pub data Started : Type 0 where
  answered : StreamResult → Started
  relaying : StreamResult → Source → Bridge → Lease → Started

module _ (o : Outside) (x : Streaming o) where
  abbrev pub closing : Source → ServiceState o → ServiceState o
  closing source st = record st { outside = x.close source st.outside }

  abbrev pub posted :
      ServiceState o
      → Result Failure (StreamResponse Source) × o.State
      → Result Failure (StreamResponse Source) × ServiceState o
  posted st (r, outside) = (r, record st { outside = outside })

  -- `readStream`, which closes the stream
  unfoldable pub read_stream : Option Source → ServiceState o → Text × ServiceState o
  unfolding read_chunks
  read_stream none st = ([], st)
  read_stream (some source) st = (read_chunks source.reads, closing source st)

  abbrev pub service_stream_host : Config → Request → StreamHost
  service_stream_host cfg q = record {
    host = service_host o cfg q;
    Stream = Source;
    post_stream = λ req st. posted st (x.post_stream req st.outside);
    close = closing;
    read_stream = read_stream;
  }

module _ (o : Outside) (x : Streaming o) (cfg : Config) (q : Request) where
  abbrev pub StreamWorld : Type 0
  StreamWorld = World (service_host o cfg q)

  abbrev pub inlined :
      Option (Result Failure StreamResult × Sched × ServiceState o)
      → Option (Result Failure Started × Sched × ServiceState o)
  inlined none = none
  inlined (some (err e, sched, st)) = some (err e, sched, st)
  inlined (some (ok result, sched, st)) = some (ok (answered result), sched, st)

  abbrev pub opened :
      Option (Result Failure (Source × Bridge × Lease) × StreamWorld)
      → Option (Result Failure Started × Sched × ServiceState o)
  opened none = none
  opened (some (err e, w)) = some (err e, w.sched, w.host)
  opened (some (ok (source, b, lease), w)) = some (
    ok (relaying (record { content_type = lit "text/event-stream"; chunks = [] }) source b lease),
    w.sched,
    w.host,
  )

  -- `ExecuteStream`
  unfoldable pub execute_stream :
      ℕ → Text → Sched → ServiceState o → Option (Result Failure Started × Sched × ServiceState o)
  execute_stream fuel stream_id sched st =
      if is_nil (trim_space stream_id)
      then inlined (execute_inline o cfg q fuel sched st)
      else opened (
          open_stream (service_stream_host o x cfg q) fuel (canonical_of o cfg q)
            (world_of o cfg q sched st))

  -- How a result leaves the account: given back, or held by the stream until its relay is over.
  abbrev pub Leaves :
      Outcome × List Act
      → Sched
      → ServiceState o
      → Result Failure Started × Sched × ServiceState o
      → Type 0
  Leaves y sched st (err e, sched', st') = (k : Text) → sched'.inflight k ≡ sched.inflight k
  Leaves y sched st (ok (answered result), sched', st') =
      (k : Text) → sched'.inflight k ≡ sched.inflight k
  Leaves y sched st (ok (relaying result source b lease), sched', st') =
      GivesBack (service_stream_host o x cfg q) source lease (world_of o cfg q sched st)
        (world_of o cfg q sched' st') y

  -- When the accounts that the host may list are known, a streamed request is started after at most
  -- one round more than there are of them, whether the host opened a stream or not. An error and an
  -- inline answer leave every counter as it was; a stream that is relayed counts as one more request
  -- of its account while the relay waits, and of none once it is over, whatever the relay receives.
  pub execute_stream-Leaves :
      (universe : List Text) (stream_id : Text) (sched : Sched) (st : ServiceState o) (r : Receiver)
      (events : List Event) (receiver : r.State)
      → ListsOnly (service_host o cfg q) universe
      → (result : Result Failure Started × Sched × ServiceState o) × (execute_stream
            (length universe + 1)
            stream_id
            sched
            st
          ≡ some result)
        × Leaves (relay r bridged_stream events receiver) sched st result
  unfolding execute_stream
  execute_stream-Leaves universe stream_id sched st r events receiver only =
      if_split Ends (is_nil (trim_space stream_id)) (λ _. answered_inline) (λ _. answered_open)
    where
      Ends : Option (Result Failure Started × Sched × ServiceState o) → Type 0
      Ends y =
          (result : Result Failure Started × Sched × ServiceState o) × (y ≡ some result)
          × Leaves (relay r bridged_stream events receiver) sched st result

      answered_inline : Ends (inlined (execute_inline o cfg q (length universe + 1) sched st))
      answered_inline =
          let (result, sched', st', e, same, answer) =
            execute_inline-Answers o cfg q universe sched st only in
          rw e (inline_ends result sched' st' same)
        where
          inline_ends :
              (result : Result Failure StreamResult) (sched' : Sched) (st' : ServiceState o)
              → ((k : Text) → sched'.inflight k ≡ sched.inflight k)
              → Ends (inlined (some (result, sched', st')))
          inline_ends (err e) sched' st' same = (_, refl, same)
          inline_ends (ok result) sched' st' same = (_, refl, same)

      answered_open : Ends (
          opened (
            open_stream
              (service_stream_host o x cfg q)
              (length universe + 1)
              (canonical_of o cfg q)
              (world_of o cfg q sched st)))
      answered_open =
          let (result, w', e, held) =
            open_stream-HeldBy (service_stream_host o x cfg q) universe (canonical_of o cfg q)
              (world_of o cfg q sched st) only in
          rw e (open_ends result w' held)
        where
          open_ends :
              (result : Result Failure (Source × Bridge × Lease)) (w' : StreamWorld)
              → HeldBy (service_stream_host o x cfg q) (world_of o cfg q sched st) result w'
              → Ends (opened (some (result, w')))
          open_ends (err e) w' same = (_, refl, same)
          open_ends (ok (source, b, lease)) w' (is_open, held) = (
            _,
            refl,
            relay-GivesBack (service_stream_host o x cfg q) source r events receiver lease
                (world_of o cfg q sched st) (world_of o cfg q w'.sched w'.host) is_open held,
          )
