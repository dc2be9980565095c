-- ===== src/Requests/Streams/Relayed.antt =====
-- The end of a stream that `openStream` of basispoints/service.go opened: what `pump` does to the state
-- of the service, and the counters of the scheduler.
use cliproxyapi_plugin_basis.Common.{
  ◌≡◌, refl, sym, ap, ◌∙◌, subst, true, false, List, [], ◌∷◌, ◌++◌, arith,
}
use cliproxyapi_plugin_basis.Scheduler.{Lease, release}
use cliproxyapi_plugin_basis.Requests.{World, give_back}
use cliproxyapi_plugin_basis.Requests.Call.{with_host}
use cliproxyapi_plugin_basis.Requests.Call.Tries.{SameInflight, Holding, give_back-Holding}
use cliproxyapi_plugin_basis.Requests.Streams.{StreamHost}
use cliproxyapi_plugin_basis.Requests.Streams.Held.{Holding-sched}
use cliproxyapi_plugin_basis.Relay.{Event, Outcome, waiting, relayed, broken, no_fuel, Receiver}
use cliproxyapi_plugin_basis.Relay.Run.{
  Act, told, reader_closed, stream_closed, released, bridged_stream, relay, releases, relay-Runs,
  Runs,
}

module _ (s : StreamHost) (stream : s.Stream) where
  -- What an act of the relay does to the service. The calls of the host are to the receiver, which
  -- has a state of its own.
  abbrev pub perform : Act → Lease × World s.host → Lease × World s.host
  perform (told c) (lease, w) = (lease, w)
  perform reader_closed (lease, w) = (lease, with_host s.host w (s.close stream w.host))
  perform stream_closed (lease, w) = (lease, with_host s.host w (s.close stream w.host))
  perform (released status) (lease, w) = give_back s.host lease status w

  unfoldable pub perform_all : List Act → Lease × World s.host → Lease × World s.host
  perform_all [] x = x
  perform_all (act ∷ acts) x = perform_all acts (perform act x)

  perform_all-append :
      (before later : List Act) (x : Lease × World s.host)
      → perform_all (before ++ later) x ≡ perform_all later (perform_all before x)
  unfolding perform_all
  perform_all-append [] later x = refl
  perform_all-append (act ∷ before) later x = perform_all-append before later (perform act x)

  -- Without a release, the lease and the scheduler stay as they are.
  perform_all-keeps :
      (acts : List Act) (lease : Lease) (w : World s.host)
      → releases acts ≡ 0
      → ((perform_all acts (lease, w)).0 ≡ lease)
        × ((perform_all acts (lease, w)).1.sched ≡ w.sched)
  unfolding perform_all
  perform_all-keeps [] lease w h = (refl, refl)
  perform_all-keeps (told c ∷ acts) lease w h = perform_all-keeps acts lease w h
  perform_all-keeps (reader_closed ∷ acts) lease w h =
      perform_all-keeps acts lease (with_host s.host w (s.close stream w.host)) h
  perform_all-keeps (stream_closed ∷ acts) lease w h =
      perform_all-keeps acts lease (with_host s.host w (s.close stream w.host)) h
  perform_all-keeps (released status ∷ acts) lease w h = absurd (omega arith)

  -- While the relay waits, the account still counts the request; afterwards it does not.
  abbrev pub GivesBack : Lease → World s.host → World s.host → Outcome × List Act → Type 0
  GivesBack lease w₀ w₁ (waiting, acts) =
      Holding s.host lease.key w₀ (perform_all acts (lease, w₁)).1
  GivesBack lease w₀ w₁ (no_fuel, acts) = ⊥
  GivesBack lease w₀ w₁ (_, acts) =
      SameInflight s.host w₀ (perform_all acts (lease, w₁)).1
      × ((perform_all acts (lease, w₁)).0.released ≡ true)

  released_now :
      (l : Lease) (w : World s.host)
      → l.released ≡ false
      → (give_back s.host l 200 w).0.released ≡ true
  unfolding give_back release
  released_now l w e = ground arith

  -- A release at the end gives the account back.
  released_last :
      (before : List Act) (lease : Lease) (w₀ w₁ : World s.host)
      → releases before ≡ 0
      → lease.released ≡ false
      → Holding s.host lease.key w₀ w₁
      → SameInflight s.host w₀ (perform_all (before ++ released 200 ∷ []) (lease, w₁)).1
        × ((perform_all (before ++ released 200 ∷ []) (lease, w₁)).0.released ≡ true)
  unfolding perform_all
  released_last before lease w₀ w₁ none_yet is_open held =
      rw (perform_all-append before (released 200 ∷ []) (lease, w₁)) (
        let (same_lease, same_sched) = perform_all-keeps before lease w₁ none_yet in
        last (perform_all before (lease, w₁)) same_lease same_sched)
    where
      last :
          (x : Lease × World s.host)
          → x.0 ≡ lease
          → x.1.sched ≡ w₁.sched
          → SameInflight s.host w₀ (perform_all (released 200 ∷ []) x).1
            × ((perform_all (released 200 ∷ []) x).0.released ≡ true)
      last (l, w) same_lease same_sched =
          let held' : Holding s.host l.key w₀ w =
            Holding-sched s l.key w₀ w₁ w same_sched
              (subst (λ (y : Lease). Holding s.host y.key w₀ w₁) (sym same_lease) held) in
          let open' : l.released ≡ false = ap (λ (y : Lease). y.released) same_lease ∙ is_open in
          (give_back-Holding s.host l 200 w₀ w open' held', released_now l w open')

  -- In every world `w₁` that counts the request besides those of `w₀`.
  pub relay-GivesBack :
      (r : Receiver) (events : List Event) (st : r.State) (lease : Lease) (w₀ w₁ : World s.host)
      → lease.released ≡ false
      → Holding s.host lease.key w₀ w₁
      → GivesBack lease w₀ w₁ (relay r bridged_stream events st)
  relay-GivesBack r events st lease w₀ w₁ is_open held =
      by_outcome (relay r bridged_stream events st) (relay-Runs r bridged_stream events st)
    where
      over :
          (acts before : List Act)
          → acts ≡ before ++ released 200 ∷ []
          → releases before ≡ 0
          → SameInflight s.host w₀ (perform_all acts (lease, w₁)).1
            × ((perform_all acts (lease, w₁)).0.released ≡ true)
      over acts before e none_yet = rw e (released_last before lease w₀ w₁ none_yet is_open held)

      by_outcome : (x : Outcome × List Act) → Runs r bridged_stream x → GivesBack lease w₀ w₁ x
      by_outcome (waiting, acts) (hosts, streams, none_yet) =
          Holding-sched s lease.key w₀ w₁ (perform_all acts (lease, w₁)).1
            (perform_all-keeps acts lease w₁ none_yet).1 held
      by_outcome (relayed, acts) ((hosts, streams, (before, e, none_yet)), final) =
          over acts before e none_yet
      by_outcome (broken, acts) (hosts, streams, (before, e, none_yet)) =
          over acts before e none_yet
      by_outcome (no_fuel, acts) h = absurd h
