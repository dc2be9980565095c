-- ===== src/Requests/Service/Answered.antt =====
-- What the answers of `Execute` and `ExecuteStream` of basispoints/service.go are made of.
use cliproxyapi_plugin_basis.Common.{
  ℕ, ◌+◌, true, Option, none, some, List, ◌≡◌, refl, ap, ◌∙◌, Bool, length, Result, ok, err, All,
}
use cliproxyapi_plugin_basis.Common.Text.{Text, lit}
use cliproxyapi_plugin_basis.Config.{Config}
use cliproxyapi_plugin_basis.Build.{build, BuildError, edited_payload}
use cliproxyapi_plugin_basis.Images.Uploader.{ImageStore}
use cliproxyapi_plugin_basis.Replay.{Cache}
use cliproxyapi_plugin_basis.Requests.Service.Details.{stream_frames, stream_frames-returns}
use cliproxyapi_plugin_basis.Build.Declared.{build-DeclaresAll}
use cliproxyapi_plugin_basis.Requests.{World}
use cliproxyapi_plugin_basis.Requests.Call.Answers.{Posted, Translates, BuildsTranslating, call-ok}
use cliproxyapi_plugin_basis.Requests.Call.Balanced.{ListsOnly, call-SameInflight}
use cliproxyapi_plugin_basis.Scheduler.{Sched}
use cliproxyapi_plugin_basis.Sse.Completed.{completed_event}
use cliproxyapi_plugin_basis.Stream.{Stream}
use cliproxyapi_plugin_basis.Stream.Events.{IsWritten}
use cliproxyapi_plugin_basis.Stream.Lines.{Ending, ended, unexpected_end, broken, transform}
use cliproxyapi_plugin_basis.Stream.Shown.{fresh, transform-IsWritten}
use cliproxyapi_plugin_basis.Stream.Upstream.{events_text, read_all, translate_upstream}
use cliproxyapi_plugin_basis.Tools.{Bridge}
use cliproxyapi_plugin_basis.Tools.Collect.Declared.{IsDeclared}
use cliproxyapi_plugin_basis.Upstream.{Failure, UpstreamResponse, PreparedRequest, is_success}
use cliproxyapi_plugin_basis.Requests.Service.{
  Outside, Request, Response, ServiceState, built_result, service_build, service_translate,
  service_host, called, response_of, executed, execute, StreamResult, images_of, asked_uploader,
  canonical_of, world_of, stream_result_of, with_state, chunked, streamed, execute_inline,
}

module _ (o : Outside) (cfg : Config) (q : Request) where
  -- `build` made the bridge for the request, up to the replay cache, which the service shares.
  abbrev pub BuiltFor : Bridge → Type 0
  BuiltFor bridge =
      (canonical : Text) × (account : Text) × (st : ServiceState o) × (p : PreparedRequest)
      × (b : Bridge) × ((service_build o cfg q canonical account st).0 ≡ ok (p, b))
      × (bridge ≡ record b { replay = bridge.replay })

  -- The events that a bridge, which was built for the request and knows only declared tools, makes of
  -- the body of a success of upstream.
  pub record IsAnswer (t : Text) : Type 0 where
    pub bridge : Bridge
    pub built : BuiltFor bridge
    pub response : UpstreamResponse
    pub posted : Posted (service_host o cfg q) response
    pub success : is_success response.status_code ≡ true
    pub declared : All IsDeclared bridge.tools
    pub events : Stream
    pub transformed :
        (transform (λ n. true) o.surroundings.coding response.body none (fresh bridge))
        ≡ (events, ended)
    pub is_written : IsWritten bridge.tools events
    pub text : t ≡ events_text o.stream_wording o.surroundings.coding events.written

  read_all-ok :
      (b : Bridge) (x : Stream × Ending) (t : Text)
      → (read_all o.stream_wording o.surroundings.coding x).0 ≡ ok t
      → (x ≡ (x.0, ended)) × (t ≡ events_text o.stream_wording o.surroundings.coding x.0.written)
  read_all-ok b (s, ended) t h = (refl, cc)
  read_all-ok b (s, unexpected_end) t h = absurd (cc)
  read_all-ok b (s, broken e) t h = absurd (cc)

  service_translate-IsAnswer :
      (b : Bridge)
      → All IsDeclared b.tools
      → ((replay : Option Cache) → BuiltFor (record b { replay = replay }))
      → Translates (service_host o cfg q) IsAnswer b
  unfolding service_translate translate_upstream
  service_translate-IsAnswer b d made resp t st posted success h =
      let b' : Bridge = record b { replay = st.replay } in
      let x = transform (λ n. true) o.surroundings.coding resp.body none (fresh b') in
      let (p, e) = read_all-ok b' x t h in
      record {
        bridge = b';
        built = made st.replay;
        response = resp;
        posted = posted;
        success = success;
        declared = d;
        events = x.0;
        transformed = p;
        is_written = transform-IsWritten (λ n. true) o.surroundings.coding b' resp.body none d;
        text = e;
      }

  built_result-ok :
      (replay : Option Cache) (r : Result BuildError (PreparedRequest × Bridge))
      (x : PreparedRequest × Bridge)
      → (built_result o replay r).0 ≡ ok x
      → r ≡ ok x
  built_result-ok replay (ok (p, b)) x h = cc
  built_result-ok replay (err e) x h = absurd (cc)

  service_build-BuildsTranslating : BuildsTranslating (service_host o cfg q) IsAnswer
  unfolding service_build
  service_build-BuildsTranslating canonical account st p b h =
      service_translate-IsAnswer b
        (build-DeclaresAll o.surroundings cfg q.request canonical account st.replay asked.0
          (images_of o asked.1.images) st.storage p b
          (built_result-ok st.replay
            (build o.surroundings cfg q.request canonical account st.replay asked.0
              (images_of o asked.1.images) st.storage).0
            (p, b) h))
        (λ replay. (canonical, account, st, p, b, h, refl))
    where
      asked : Result Text Bool × ImageStore
      asked =
          asked_uploader o cfg q.remembered.proxy_url
            (edited_payload o.surroundings.editor q.request canonical) st.image_store

  -- Where the call succeeds, its text is an answer.
  called-IsAnswer :
      (fuel : ℕ) (sched : Sched) (st : ServiceState o) (t : Text) (w : World (service_host o cfg q))
      → called o fuel cfg q sched st ≡ some (ok t, w)
      → IsAnswer t
  called-IsAnswer fuel sched st t w =
      call-ok (service_host o cfg q) IsAnswer fuel (canonical_of o cfg q)
        (world_of o cfg q sched st) w t service_build-BuildsTranslating

  abbrev pub AnswersExecute : Result Failure Response → Type 0
  AnswersExecute (err e) = Unit
  AnswersExecute (ok resp) = (t : Text) × IsAnswer t × (resp.payload ≡ completed_event o.reader t)

  abbrev pub AnswersStream : Result Failure StreamResult → Type 0
  AnswersStream (err e) = Unit
  AnswersStream (ok result) =
      (t : Text) × IsAnswer t × (stream_frames o.reader t ≡ some result.chunks)

  -- When the accounts that the host may list are known, a buffered request ends after at most one
  -- round more than there are of them, and leaves every counter as it was. If it succeeds, its payload
  -- is the completed event of the events that a bridge makes of the body of a success of upstream; the
  -- bridge was built for the request and knows only declared tools, and every call in the events is of
  -- one of them.
  pub execute-Answers :
      (universe : List Text) (sched : Sched) (st : ServiceState o)
      → ListsOnly (service_host o cfg q) universe
      → (r : Result Failure Response) × (sched' : Sched) × (st' : ServiceState o) × (execute o cfg q
            (length universe + 1)
            sched
            st
          ≡ some (r, sched', st'))
        × ((k : Text) → sched'.inflight k ≡ sched.inflight k)
        × AnswersExecute r
  unfolding execute
  execute-Answers universe sched st only =
      let (r, w', e, same) =
        call-SameInflight (service_host o cfg q) universe (canonical_of o cfg q)
          (world_of o cfg q sched st) only in
      (response_of o r, w'.sched, w'.host, ap (executed o cfg q) e, same, answered r w' e)
    where
      answered :
          (r : Result Failure Text) (w' : World (service_host o cfg q))
          → called o (length universe + 1) cfg q sched st ≡ some (r, w')
          → AnswersExecute (response_of o r)
      answered (err e) w' p = tt
      answered (ok t) w' p = (t, called-IsAnswer (length universe + 1) sched st t w' p, refl)

  -- The same holds of a stream for which the host opened none: it ends, leaves the counters as they
  -- were, and if it succeeds its chunks are the frames of such events.
  pub execute_inline-Answers :
      (universe : List Text) (sched : Sched) (st : ServiceState o)
      → ListsOnly (service_host o cfg q) universe
      → (r : Result Failure StreamResult) × (sched' : Sched) × (st' : ServiceState o)
        × (execute_inline o cfg q (length universe + 1) sched st ≡ some (r, sched', st'))
        × ((k : Text) → sched'.inflight k ≡ sched.inflight k)
        × AnswersStream r
  unfolding execute_inline
  execute_inline-Answers universe sched st only =
      let (r, w', e, same) =
        call-SameInflight (service_host o cfg q) universe (canonical_of o cfg q)
          (world_of o cfg q sched st) only in
      let (result, p, a) = answered r w' e in
      (
        result,
        w'.sched,
        w'.host,
        ap (streamed o cfg q) e ∙ ap (with_state o w'.sched w'.host) p,
        same,
        a,
      )
    where
      answered :
          (r : Result Failure Text) (w' : World (service_host o cfg q))
          → called o (length universe + 1) cfg q sched st ≡ some (r, w')
          → (result : Result Failure StreamResult) × (stream_result_of o r ≡ some result)
            × AnswersStream result
      answered (err e) w' p = (err e, refl, tt)
      answered (ok t) w' p =
          let (frames, f) = stream_frames-returns o.reader t in
          (
            ok (record { content_type = lit "text/event-stream"; chunks = frames }),
            ap (chunked o) f,
            (t, called-IsAnswer (length universe + 1) sched st t w' p, f),
          )
