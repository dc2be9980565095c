-- ===== src/Lib.antt =====
-- Basis Points plugin for CLIProxyAPI: the requests for some models go to the Basis Points API with
-- the host's Codex accounts.
--
-- The parts of the program, and the modules that model them:
--   Config      basispoints/config.go: `normalize` and the model names and effort levels.
--   Routing     basispoints/wire.go: `RememberHost` and `matchConfiguredModel`, which use Config.
--               Routing/Fallback has basispoints/route.go, and Routing/Route `Route` and
--               `CountTokens` of basispoints/service.go.
--   Auth        basispoints/auth.go: the token and the account of a credential file.
--   Upstream    basispoints/body.go and the values of basispoints/service.go that go to and come from
--               the upstream.
--   Scheduler   basispoints/service.go: `pick`, `finish` and the lease. `Sched` is the part of the
--               state of `Service` that they own: the cursor and the maps inflight, nextAt and
--               coolUntil. Scheduler/Leases has every interleaving of requests as a step relation.
--   Requests    basispoints/service.go: `acquire`; in Requests/Call `call` with its retries, and in
--               Requests/Streams `openStream`. The host and the rest of the plugin are the record
--               `Host`; it has a state of its own, so that its answers may depend on all that was
--               asked before. Requests/Service fills it with the other parts of the plugin, for the
--               entry points `Execute` and `ExecuteStream` (Requests/Service/Streaming);
--               Requests/Service/Lifecycle has `New`, `Configure` and `retryAfter`.
--   Replay      basispoints/tools.go: `ReplayCache`, a map with a recency list and a byte count.
--   Sse         basispoints/sse.go: the splitter of an event stream.
--               Sse/Completed has `completedEvent` for a buffered answer.
--   Relay       basispoints/service.go: the loop of `pump`, over the events that its select receives;
--               in Relay/Run with what it defers, and in Relay/Bytes `byteStreamReader` of
--               basispoints/wire.go.
--   Json        the values of encoding/json, with the decoder, the encoder and the hash as the record
--               `Coding`.
--   Content     basispoints/content.go and basispoints/images.go: what a message may hold.
--   Tools       basispoints/tools.go: the catalog (Tools/Collect), the history (Tools/History) and the
--               calls (Tools/Calls), with the state `Bridge`; basispoints/plan.go (Tools/Plan); and
--               `recoverTransportEnvelope` of basispoints/envelope.go (Tools/Recover). They use
--               Replay, Envelope and Content.
--   Prepare     basispoints/request.go: `Prepare`, which collects the catalog, translates the history
--               and writes the body; in Prepare/Describe the catalog as text (basispoints/catalog.go).
--               The bridge that it returns is the one that `transform` works with.
--   Build       basispoints/wire.go: `build`, which puts the model and the effort into the payload,
--               rewrites its images (Images/Rewrite) and calls `Prepare`.
--   Structured  basispoints/structured_output.go: the format of the final answer and its check.
--   Stream      basispoints/stream.go: `transform`, which uses Tools/Calls and Structured, and
--               `readEvents` (Stream/Lines); the bytes of the events and `translateUpstream` of
--               basispoints/wire.go (Stream/Upstream), and the closing of `streamBody` (Stream/Body).
--   Envelope    basispoints/envelope.go and basispoints/custom_transport.go: the repair of JSON
--               strings, the unwrapping of tool calls (Envelope/Decode) and raw custom calls
--               (Envelope/Custom); the report on what cannot be unwrapped (Envelope/Shape).
--   Images      basispoints/image_upload.go: `expiringImages`, with `Upload` and `sweep` over an
--               abstract store, the data URLs (Images/Urls), and `rewriteImages` over
--               the JSON of a request (Images/Rewrite, with a store that counts in
--               Images/Rewrite/Tally); `uploader`, which opens the store
--               (Images/Uploader). Images/Interleaved has every interleaving of uploads and sweeps as a
--               step relation.
--   Callbacks   host_client.go: `callHost` and the pull stream, and the callbacks of `hostClient`
--               (Callbacks/Client).
--   Catalogue   basispoints/config.go: `modelInfos`.
--   Common      what these share: text, association lists, results, integers.
--   Tests       concrete inputs.
--
-- Text is a list of bytes; the rules of `strings` for case and space are those of ASCII. Only in the
-- names of raw custom calls (Envelope/Custom) are the spaces and control characters of Unicode told
-- by their bytes in UTF-8. A time is a number of nanoseconds with the zero time as 0, a Duration an
-- integer that wraps at 64 bits. The cursor and the counters of the scheduler do not overflow in the model.
--
-- Loops of the source without a bound run on fuel, and the theorems say how much is enough:
-- `acquire` tries each listed record at most once (the number of records and one), `call` and
-- `openStream` each account at most once (the number of accounts and one), the splitter takes at
-- least two bytes for an event (the length of the buffer and one).
--
-- A request and an upload run without a break against a host whose answers are arbitrary; what the
-- scheduler does between the steps of other requests is in Scheduler/Leases, and what becomes of
-- the images between the steps of other uploads in Images/Interleaved.
--
-- Go maps of JSON are lists of fields in the order of their names; a function that changes its
-- argument returns it. The schemas of plans are nested at most nine deep, and those of the catalog
-- are described eight deep, as in the code. A line or an event of the gateway has at most 16 MiB.
--
-- Not modelled: the C entry points (main.go) and the S3 client (basispoints/image_s3.go), whose
-- opening is a parameter. Of a translation that fails, what it did to the replay cache until then
-- is left out; the pipe between `transform` and its reader passes the bytes on. The libraries that
-- read YAML, JSON, URLs and base64, edit JSON texts and compile JSON schemas are parameters, and
-- so is the wording of errors. The fields of log lines are left out. The wait of a Retry-After
-- header is not passed to `finish`, which does not read it. The timer of the sweep of images is
-- left out: a sweep is a turn at any time.
pub mod Common
pub mod Config
pub mod Scheduler
pub mod Auth
pub mod Build
pub mod Upstream
pub mod Requests
pub mod Routing
pub mod Replay
pub mod Catalogue
pub mod Sse
pub mod Structured
pub mod Prepare
pub mod Stream
pub mod Tools
pub mod Relay
pub mod Callbacks
pub mod Images
pub mod Content
pub mod Json
pub mod Envelope
pub mod Tests
