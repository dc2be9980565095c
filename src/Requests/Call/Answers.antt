-- ===== src/Requests/Call/Answers.antt =====
-- What the result of `call` of basispoints/service.go is: an answer that was translated by a bridge
-- which was built for the request.
use cliproxyapi_plugin_basis.Common.{
  ℕ, zero, suc, true, not, Option, none, some, List, [], ◌∷◌, ◌==◌, arith, ◌≡◌, refl, subst,
  if_split, Result, ok, err,
}
use cliproxyapi_plugin_basis.Common.Text.{Text}
use cliproxyapi_plugin_basis.Config.{Config}
use cliproxyapi_plugin_basis.Scheduler.{Lease}
use cliproxyapi_plugin_basis.Upstream.{
  Failure, UpstreamRequest, UpstreamResponse, upstream_call, Credential, PreparedRequest,
  is_success,
}
use cliproxyapi_plugin_basis.Requests.{Host, World, Acquired, acquire, give_back, new_credential}
use cliproxyapi_plugin_basis.Requests.Call.{
  Attempt, no_account, finished, limited, read_answer, settle, with_prepared, round_trip,
  after_first, retry_with, retry_unauthorized, with_account, attempt, call_loop, call, with_host,
  last_or,
}

module _ (h : Host) where
  -- The answer that the host brought from upstream for a request.
  abbrev pub Posted : UpstreamResponse → Type 0
  Posted resp = (req : UpstreamRequest) × (st : h.State) × ((h.post req st).0 ≡ ok resp)

module _ (h : Host) (Q : Text → Type 0) where
  -- Whatever a bridge translates, of a success of upstream, has the property.
  abbrev pub Translates : h.Bridge → Type 0
  Translates b =
      (resp : UpstreamResponse) (t : Text) (st : h.State)
      → Posted h resp
      → is_success resp.status_code ≡ true
      → (h.translate b resp.body st).0 ≡ ok t
      → Q t

  -- A success was brought by the host.
  abbrev Brought : Result Failure UpstreamResponse → Type 0
  Brought (err e) = Unit
  Brought (ok resp) = is_success resp.status_code ≡ true → Posted h resp

  -- So does whatever a bridge that is built translates.
  abbrev pub BuildsTranslating : Type 0
  BuildsTranslating =
      (canonical account : Text) (st : h.State) (p : PreparedRequest) (b : h.Bridge)
      → (h.build canonical account st).0 ≡ ok (p, b)
      → Translates b

  abbrev AnswerHas : Result Failure Text → Type 0
  AnswerHas (ok t) = Q t
  AnswerHas (err e) = Unit

  abbrev AttemptHas : Attempt × World h → Type 0
  AttemptHas (no_account e, w) = Unit
  AttemptHas (finished r, w) = AnswerHas r
  AttemptHas (limited key e, w) = Unit

  settle-AttemptHas :
      (cfg : Config) (lease : Lease) (creds : Credential) (b : h.Bridge)
      (r : Result Failure UpstreamResponse) (w : World h)
      → Translates b
      → Brought r
      → AttemptHas (settle h cfg lease creds b r w)
  unfolding settle read_answer
  settle-AttemptHas cfg lease creds b (err e) w t p = tt
  settle-AttemptHas cfg lease creds b (ok resp) w t brought =
      if_split AttemptHas (resp.status_code == 429) (λ _. tt)
        (λ _.
          if_split AttemptHas (not (is_success resp.status_code)) (λ _. tt)
            (λ good.
              let success : is_success resp.status_code ≡ true = ground (arith, good) in
              answered (h.translate b resp.body (give_back h lease resp.status_code w).1.host).0
                (λ answer p.
                  t resp answer (give_back h lease resp.status_code w).1.host (brought success)
                    success p)))
    where
      answered : (r : Result Text Text) → ((t : Text) → r ≡ ok t → Q t) → AnswerHas (read_answer r)
      answered (ok t) f = f t refl
      answered (err e) f = tt

  round_trip-Brought :
      (cfg : Config) (prepared : PreparedRequest) (creds : Credential) (w : World h)
      → Brought (round_trip h cfg prepared creds w).0
  unfolding round_trip
  round_trip-Brought cfg prepared creds w =
      posted (h.post (upstream_call cfg prepared creds) w.host).0 refl
    where
      posted :
          (r : Result Failure UpstreamResponse)
          → (h.post (upstream_call cfg prepared creds) w.host).0 ≡ r
          → Brought r
      posted (err e) p = tt
      posted (ok resp) p = λ _. (upstream_call cfg prepared creds, w.host, p)

  retry_with-Brought :
      (cfg : Config) (prepared : PreparedRequest) (index : Text) (c : Option (Text × Text))
      (w : World h)
      → Brought (retry_with h cfg prepared index c w).0
  unfolding retry_with
  retry_with-Brought cfg prepared index none w = λ good. absurd (unauthorized good)
    where
      unauthorized : is_success 401 ≡ true → ⊥
      unauthorized e = absurd (cc)
  retry_with-Brought cfg prepared index (some c) w =
      round_trip-Brought cfg prepared (new_credential h index c) w

  after_first-Brought :
      (cfg : Config) (prepared : PreparedRequest) (creds : Credential)
      (r : Result Failure UpstreamResponse) (w : World h)
      → Brought r
      → Brought (after_first h cfg prepared creds r w).0
  unfolding after_first retry_unauthorized
  after_first-Brought cfg prepared creds (err e) w b = tt
  after_first-Brought cfg prepared creds (ok resp) w b =
      if_split {A = Result Failure UpstreamResponse × World h} (λ x. Brought x.0)
        (resp.status_code == 401) (λ _. retry_with-Brought cfg prepared creds.auth_index _ _)
        (λ _. b)

  with_account-AttemptHas :
      (cfg : Config) (canonical : Text) (r : Acquired h) (w : World h)
      → BuildsTranslating
      → AttemptHas (with_account h cfg canonical r w)
  unfolding with_account with_prepared
  with_account-AttemptHas cfg canonical (err e) w f = tt
  with_account-AttemptHas cfg canonical (ok (lease, creds)) w f =
      built (h.build canonical creds.account_id w.host).0 (f canonical creds.account_id w.host)
    where
      built :
          (r : Result Failure (PreparedRequest × h.Bridge))
          → ((p : PreparedRequest) (b : h.Bridge) → r ≡ ok (p, b) → Translates b)
          → AttemptHas (
              with_prepared h cfg lease creds r
                (with_host h w (h.build canonical creds.account_id w.host).1))
      built (err e) g = tt
      built (ok (prepared, b)) g =
          let w₀ = with_host h w (h.build canonical creds.account_id w.host).1 in
          let (first, w₁) = round_trip h cfg prepared creds w₀ in
          let (answer, w₂) = after_first h cfg prepared creds first w₁ in
          settle-AttemptHas cfg lease creds b answer w₂ (g prepared b refl) (
            after_first-Brought cfg prepared creds first w₁
              (round_trip-Brought cfg prepared creds w₀))

  abbrev AttemptedHas : Option (Attempt × World h) → Type 0
  AttemptedHas none = Unit
  AttemptedHas (some r) = AttemptHas r

  attempt-AttemptedHas :
      (cfg : Config) (canonical : Text) (skip : List Text) (w : World h)
      → BuildsTranslating
      → AttemptedHas (attempt h cfg canonical skip w)
  unfolding attempt
  attempt-AttemptedHas cfg canonical skip w f = acquired (acquire h cfg skip w)
    where
      acquired :
          (o : Option (Acquired h × World h))
          → AttemptedHas
              (elim o [ none ↦ none | some (r, w') ↦ some (with_account h cfg canonical r w') ])
      acquired none = tt
      acquired (some (r, w')) = with_account-AttemptHas cfg canonical r w' f

  abbrev pub CallHas : Option (Result Failure Text × World h) → Type 0
  CallHas none = Unit
  CallHas (some (r, w)) = AnswerHas r

  call_loop-CallHas :
      (cfg : Config) (canonical : Text) (fuel : ℕ) (skip : List Text) (last : Option Failure)
      (w : World h)
      → BuildsTranslating
      → CallHas (call_loop h cfg canonical fuel skip last w)
  unfolding call_loop
  call_loop-CallHas cfg canonical zero skip last w f = tt
  call_loop-CallHas cfg canonical (suc fuel) skip last w f =
      next (attempt h cfg canonical skip w) (attempt-AttemptedHas cfg canonical skip w f)
        (λ key e w'. call_loop-CallHas cfg canonical fuel (key ∷ skip) (some e) w' f)
    where
      next :
          (o : Option (Attempt × World h))
          → AttemptedHas o
          → ((key : Text) (e : Failure) (w' : World h)
              → CallHas (call_loop h cfg canonical fuel (key ∷ skip) (some e) w'))
          → CallHas (elim o [
            | none ↦ none
            | some (no_account e, w') ↦ some (err (last_or last e), w')
            | some (finished r, w') ↦ some (r, w')
            | some (limited key e, w') ↦ call_loop h cfg canonical fuel (key ∷ skip) (some e) w'
          ])
      next none a g = tt
      next (some (no_account e, w')) a g = tt
      next (some (finished r, w')) a g = a
      next (some (limited key e, w')) a g = g key e w'

  call-CallHas :
      (fuel : ℕ) (canonical : Option Text) (w : World h)
      → BuildsTranslating
      → CallHas (call h fuel canonical w)
  unfolding call
  call-CallHas fuel none w f = tt
  call-CallHas fuel (some canonical) w f = call_loop-CallHas w.config canonical fuel [] none w f

  -- A text that `call` returns was translated by a bridge that was built, from the body of a success
  -- that the host brought from upstream.
  pub call-ok :
      (fuel : ℕ) (canonical : Option Text) (w w' : World h) (t : Text)
      → BuildsTranslating
      → call h fuel canonical w ≡ some (ok t, w')
      → Q t
  call-ok fuel canonical w w' t f e = subst CallHas e (call-CallHas fuel canonical w f)
