-- ===== src/Requests/Call/Tries.antt =====
-- One try of `call`, and the counters of the scheduler (basispoints/service.go).
use cliproxyapi_plugin_basis.Common.{
  if_split, ℕ, ◌+◌, ◌≡◌, refl, sym, ◌∙◌, subst, false, not, Option, none, some, List, arith, inl,
  inr, Bool-cases, Has, Result, ok, err, if◌then◌else◌, ◌==◌,
}
use cliproxyapi_plugin_basis.Common.Text.{Text, ◌=ᵗ◌, =ᵗ_iff, elem, trim_space}
use cliproxyapi_plugin_basis.Config.{Config}
use cliproxyapi_plugin_basis.Scheduler.{Sched, AuthRecord, Lease, release}
use cliproxyapi_plugin_basis.Scheduler.Leases.{inflight-finish}
use cliproxyapi_plugin_basis.Upstream.{
  is_success, Failure, UpstreamResponse, Credential, PreparedRequest,
}
use cliproxyapi_plugin_basis.Requests.{Host, World, give_back, Acquired, read_credential}
use cliproxyapi_plugin_basis.Requests.Acquire.{held, Accounted, Leased, listed, acquire-Accounted}
use cliproxyapi_plugin_basis.Requests.Call.{
  with_host, round_trip, retry_with, retry_unauthorized, after_first, Attempt, no_account, finished,
  limited, settle, with_prepared, with_account, attempt,
}

module _ (h : Host) where
  -- The counters of all accounts agree.
  abbrev pub SameInflight : World h → World h → Type 0
  SameInflight w w' = (k : Text) → w'.sched.inflight k ≡ w.sched.inflight k

  -- `w'` counts one more request of account `key` than `w`.
  abbrev pub Holding : Text → World h → World h → Type 0
  Holding key w w' =
      (k : Text) → w'.sched.inflight k ≡ w.sched.inflight k + (if key =ᵗ k then 1 else 0)

  pub give_back-Holding :
      (l : Lease) (status : ℕ) (w w' : World h)
      → l.released ≡ false
      → Holding l.key w w'
      → SameInflight w (give_back h l status w').1
  unfolding give_back release
  give_back-Holding l status w w' open_ held k = ground (
    arith,
    held k,
    held l.key,
    inflight-finish w'.sched w'.config l.key status (h.clock w'.host).0 k,
    =ᵗ_iff l.key k,
  )

  module _ (cfg : Config) where
    sched-round_trip :
        (p : PreparedRequest) (c : Credential) (w : World h)
        → (round_trip h cfg p c w).1.sched ≡ w.sched
    unfolding round_trip
    sched-round_trip p c w = refl

    sched-after_first :
        (p : PreparedRequest) (c : Credential) (r : Result Failure UpstreamResponse) (w : World h)
        → (after_first h cfg p c r w).1.sched ≡ w.sched
    unfolding after_first retry_unauthorized
    sched-after_first p c (err e) w = refl
    sched-after_first p c (ok resp) w = elim (Bool-cases (resp.status_code == 401)) [
      | inl yes_ ↦ rw yes_ (retried (read_credential h (h.get_auth c.auth_index w.host).0))
      | inr no_ ↦ rw no_
    ]
      where
        retried :
            (o : Option (Text × Text))
            → (retry_with h cfg p c.auth_index o
                (with_host h w (h.get_auth c.auth_index w.host).1)).1.sched
              ≡ w.sched
        retried none = refl
        retried (some x) = refl

  -- An account of the records that is not in `skip`.
  abbrev pub NewAccount : List AuthRecord → List Text → Text → Type 0
  NewAccount records skip key =
      (elem key skip ≡ false) × ((r : AuthRecord) × Has r records × (key ≡ trim_space r.auth_index))

  -- After a try the counters are as before it, and an account that was limited is a new one.
  abbrev pub Settled : List AuthRecord → List Text → World h → Attempt → World h → Type 0
  Settled records skip w (limited key e) w' = SameInflight w w' × NewAccount records skip key
  Settled records skip w (finished r) w' = SameInflight w w'
  Settled records skip w (no_account e) w' = SameInflight w w'

  abbrev Ends : List AuthRecord → List Text → World h → Attempt × World h → Type 0
  Ends records skip w x = Settled records skip w x.0 x.1

  module _ (cfg : Config) (records : List AuthRecord) (skip : List Text) (w : World h) where
    module _ (l : Lease) (c : Credential) (open_ : l.released ≡ false) (same_key : c.key ≡ l.key)
        (new : NewAccount records skip l.key) where
      settle-Settled :
          (b : h.Bridge) (r : Result Failure UpstreamResponse) (w' : World h)
          → Holding l.key w w'
          → Ends records skip w (settle h cfg l c b r w')
      unfolding settle
      settle-Settled b (err e) w' held = give_back-Holding l 0 w w' open_ held
      settle-Settled b (ok resp) w' held =
          let back = give_back-Holding l resp.status_code w w' open_ held in
          if_split (Ends records skip w) (resp.status_code == 429)
            (λ _. (
              give_back-Holding l resp.status_code w (with_host h w' (h.clock w'.host).1) open_
                  held,
              subst (NewAccount records skip) (sym same_key) new,
            ))
            (λ _.
              if_split (Ends records skip w) (not (is_success resp.status_code)) (λ _. back)
                (λ _. back))

      with_prepared-Settled :
          (x : Result Failure (PreparedRequest × h.Bridge)) (w' : World h)
          → Holding l.key w w'
          → Ends records skip w (with_prepared h cfg l c x w')
      unfolding with_prepared
      with_prepared-Settled (err e) w' held = give_back-Holding l 0 w w' open_ held
      with_prepared-Settled (ok (p, b)) w' held =
          let first = round_trip h cfg p c w' in
          settle-Settled b (after_first h cfg p c first.0 first.1).0
            (after_first h cfg p c first.0 first.1).1
            (subst
              (λ (x : Sched).
                (k : Text) → x.inflight k ≡ w.sched.inflight k + (if l.key =ᵗ k then 1 else 0))
              (sym (sched-after_first cfg p c first.0 first.1)) held)

    with_account-Settled :
        (canonical : Text) (r : Acquired h) (w' : World h)
        → Accounted h w r w'
        → Leased h records skip r
        → Ends records skip w (with_account h cfg canonical r w')
    unfolding with_account
    with_account-Settled canonical (err e) w' a l = λ k. a k ∙ omega arith
    with_account-Settled canonical (ok (l, c)) w' a (o, same, fresh, where_) =
        with_prepared-Settled l c o same (fresh, where_) (h.build canonical c.account_id w'.host).0
          (with_host h w' (h.build canonical c.account_id w'.host).1) a

  module _ (cfg : Config) (canonical : Text) where
    -- A try always ends, with the counters as they were.
    pub attempt-Ends :
        (skip : List Text) (w : World h)
        → (a : Attempt) × (w' : World h) × (attempt h cfg canonical skip w ≡ some (a, w'))
          × Settled (listed h (h.list_auth w.host).0) skip w a w'
    unfolding attempt
    attempt-Ends skip w =
        let (r, w₁, e, a, l) = acquire-Accounted h cfg skip w in
        (
          (with_account h cfg canonical r w₁).0,
          (with_account h cfg canonical r w₁).1,
          rw (e, attempt),
          with_account-Settled cfg (listed h (h.list_auth w.host).0) skip w canonical r w₁ a l,
        )
