-- ===== src/Requests/Streams/Held.antt =====
-- One try of `openStream`, and the counters of the scheduler (basispoints/service.go).
use cliproxyapi_plugin_basis.Common.{
  if_split, ◌+◌, ◌≡◌, refl, sym, ◌∙◌, subst, false, not, Option, none, some, List, arith, Result,
  ok, err, if◌then◌else◌, ◌==◌,
}
use cliproxyapi_plugin_basis.Common.Text.{Text, ◌=ᵗ◌}
use cliproxyapi_plugin_basis.Config.{Config}
use cliproxyapi_plugin_basis.Scheduler.{Sched, AuthRecord, Lease}
use cliproxyapi_plugin_basis.Upstream.{
  Failure, Credential, PreparedRequest, is_success, upstream_call,
}
use cliproxyapi_plugin_basis.Requests.{World, Acquired, read_credential, new_credential}
use cliproxyapi_plugin_basis.Requests.Acquire.{Accounted, Leased, listed, acquire-Accounted}
use cliproxyapi_plugin_basis.Requests.Call.{with_host}
use cliproxyapi_plugin_basis.Requests.Call.Tries.{
  SameInflight, Holding, NewAccount, give_back-Holding,
}
use cliproxyapi_plugin_basis.Requests.Streams.{
  StreamHost, StreamResponse, Opened, StreamAttempt, unserved, failed, throttled, streaming,
  read_opened, close_stream, round_trip_stream, retry_stream_with, retry_unauthorized_stream,
  after_first_stream, start_stream, settle_stream, with_prepared_stream, with_stream_account,
  stream_attempt,
}

module _ (s : StreamHost) where
  sched-close_stream :
      (o : Option s.Stream) (w : World s.host) → (close_stream s o w).sched ≡ w.sched
  unfolding close_stream
  sched-close_stream none w = refl
  sched-close_stream (some stream) w = refl

  sched-read_opened :
      (r : Result Failure (StreamResponse s.Stream)) (w : World s.host)
      → (read_opened s r w).1.sched ≡ w.sched
  unfolding read_opened
  sched-read_opened (err e) w = refl
  sched-read_opened (ok resp) w =
      if_split {A = Result Failure (Opened s) × World s.host} (λ x. x.1.sched ≡ w.sched)
        (not (is_success resp.status_code)) (λ _. refl) (λ _. refl)

  module _ (cfg : Config) where
    sched-round_trip_stream :
        (p : PreparedRequest) (c : Credential) (w : World s.host)
        → (round_trip_stream s cfg p c w).1.sched ≡ w.sched
    unfolding round_trip_stream
    sched-round_trip_stream p c w =
        sched-read_opened (s.post_stream (upstream_call cfg p c) w.host).0
          (with_host s.host w (s.post_stream (upstream_call cfg p c) w.host).1)

    sched-after_first_stream :
        (p : PreparedRequest) (c : Credential) (r : Result Failure (Opened s)) (w : World s.host)
        → (after_first_stream s cfg p c r w).1.sched ≡ w.sched
    unfolding after_first_stream retry_unauthorized_stream
    sched-after_first_stream p c (err e) w = refl
    sched-after_first_stream p c (ok opened) w =
        if_split {A = Result Failure (Opened s) × World s.host} (λ x. x.1.sched ≡ w.sched)
          (opened.status_code == 401)
          (λ _.
            retried (read_credential s.host (s.host.get_auth c.auth_index closed.host).0)
            ∙ sched-close_stream opened.stream w)
          (λ _. refl)
      where
        closed : World s.host
        closed = close_stream s opened.stream w

        retried :
            (o : Option (Text × Text))
            → (retry_stream_with s cfg p c.auth_index o
                (with_host s.host closed (s.host.get_auth c.auth_index closed.host).1)).1.sched
              ≡ closed.sched
        retried none = refl
        retried (some x) =
            sched-round_trip_stream p (new_credential s.host c.auth_index x)
              (with_host s.host closed (s.host.get_auth c.auth_index closed.host).1)

  pub Holding-sched :
      (key : Text) (w w' w'' : World s.host)
      → w''.sched ≡ w'.sched
      → Holding s.host key w w'
      → Holding s.host key w w''
  Holding-sched key w w' w'' e held =
      subst
        (λ (x : Sched).
          (k : Text) → x.inflight k ≡ w.sched.inflight k + (if key =ᵗ k then 1 else 0))
        (sym e) held

  -- How the counters stand after a try: only an open stream holds an account, and an account that
  -- was limited is a new one.
  abbrev pub StreamSettled :
      List AuthRecord → List Text → World s.host → StreamAttempt s × World s.host → Type 0
  StreamSettled records skip w (throttled key e, w') =
      SameInflight s.host w w' × NewAccount s.host records skip key
  StreamSettled records skip w (failed e, w') = SameInflight s.host w w'
  StreamSettled records skip w (unserved e, w') = SameInflight s.host w w'
  StreamSettled records skip w (streaming stream bridge lease, w') =
      (lease.released ≡ false) × Holding s.host lease.key w w'

  module _ (cfg : Config) (records : List AuthRecord) (skip : List Text) (w : World s.host) where
    module _ (l : Lease) (c : Credential) (open_ : l.released ≡ false) (same_key : c.key ≡ l.key)
        (new : NewAccount s.host records skip l.key) where
      start_stream-StreamSettled :
          (b : s.host.Bridge) (o : Option s.Stream) (w' : World s.host)
          → Holding s.host l.key w w'
          → StreamSettled records skip w (start_stream s cfg l b o w')
      unfolding start_stream
      start_stream-StreamSettled b none w' held = give_back-Holding s.host l 0 w w' open_ held
      start_stream-StreamSettled b (some stream) w' held = (open_, held)

      settle_stream-StreamSettled :
          (b : s.host.Bridge) (r : Result Failure (Opened s)) (w' : World s.host)
          → Holding s.host l.key w w'
          → StreamSettled records skip w (settle_stream s cfg l c b r w')
      unfolding settle_stream
      settle_stream-StreamSettled b (err e) w' held = give_back-Holding s.host l 0 w w' open_ held
      settle_stream-StreamSettled b (ok opened) w' held =
          if_split (StreamSettled records skip w) (opened.status_code == 429)
            (λ _. (
              give_back-Holding s.host l opened.status_code w
                  (with_host s.host closed (s.host.clock closed.host).1) open_ still,
              subst (NewAccount s.host records skip) (sym same_key) new,
            ))
            (λ _.
              if_split (StreamSettled records skip w) (not (is_success opened.status_code))
                (λ _. give_back-Holding s.host l opened.status_code w closed open_ still)
                (λ _. start_stream-StreamSettled b opened.stream w' held))
        where
          closed : World s.host
          closed = close_stream s opened.stream w'

          still : Holding s.host l.key w closed
          still = Holding-sched l.key w w' closed (sched-close_stream opened.stream w') held

      with_prepared_stream-StreamSettled :
          (x : Result Failure (PreparedRequest × s.host.Bridge)) (w' : World s.host)
          → Holding s.host l.key w w'
          → StreamSettled records skip w (with_prepared_stream s cfg l c x w')
      unfolding with_prepared_stream
      with_prepared_stream-StreamSettled (err e) w' held =
          give_back-Holding s.host l 0 w w' open_ held
      with_prepared_stream-StreamSettled (ok (p, b)) w' held =
          let first = round_trip_stream s cfg p c w' in
          let answer = after_first_stream s cfg p c first.0 first.1 in
          settle_stream-StreamSettled b answer.0 answer.1 (
            Holding-sched l.key w w' answer.1
              (sched-after_first_stream cfg p c first.0 first.1
                ∙ sched-round_trip_stream cfg p c w')
              held)

    with_stream_account-StreamSettled :
        (canonical : Text) (r : Acquired s.host) (w' : World s.host)
        → Accounted s.host w r w'
        → Leased s.host records skip r
        → StreamSettled records skip w (with_stream_account s cfg canonical r w')
    unfolding with_stream_account
    with_stream_account-StreamSettled canonical (err e) w' a l = λ k. a k ∙ omega arith
    with_stream_account-StreamSettled canonical (ok (l, c)) w' a (o, same, fresh, where_) =
        with_prepared_stream-StreamSettled l c o same (fresh, where_)
          (s.host.build canonical c.account_id w'.host).0
          (with_host s.host w' (s.host.build canonical c.account_id w'.host).1) a

  -- A try always ends.
  pub stream_attempt-Ends :
      (cfg : Config) (canonical : Text) (skip : List Text) (w : World s.host)
      → (x : StreamAttempt s × World s.host) × (stream_attempt s cfg canonical skip w ≡ some x)
        × StreamSettled (listed s.host (s.host.list_auth w.host).0) skip w x
  unfolding stream_attempt
  stream_attempt-Ends cfg canonical skip w =
      let (r, w₁, e, a, l) = acquire-Accounted s.host cfg skip w in
      (
        with_stream_account s cfg canonical r w₁,
        rw (e, stream_attempt) refl,
        with_stream_account-StreamSettled cfg (listed s.host (s.host.list_auth w.host).0) skip w
            canonical r w₁ a l,
      )
