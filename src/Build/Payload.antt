-- ===== src/Build/Payload.antt =====
-- From where the body of a request comes that `build` of basispoints/wire.go makes.
use cliproxyapi_plugin_basis.Common.{
  ℕ, Bool, not, ◌&&◌, Option, none, some, is_nil, ◌≡◌, refl, ap, ◌∙◌, if◌then◌else◌, ◌⊎◌, inl, inr,
  subst, if_split, Result, ok, err,
}
use cliproxyapi_plugin_basis.Common.Text.{Text, lit, ◌=ᵗ◌}
use cliproxyapi_plugin_basis.Config.{Config, clamp_effort, effort_rank}
use cliproxyapi_plugin_basis.Images.{Images}
use cliproxyapi_plugin_basis.Images.Rewrite.{Rewritten, rewrite_images}
use cliproxyapi_plugin_basis.Json.{Fields, object, Coding}
use cliproxyapi_plugin_basis.Prepare.{PrepareError, prepare}
use cliproxyapi_plugin_basis.Replay.{Cache}
use cliproxyapi_plugin_basis.Tools.{Bridge}
use cliproxyapi_plugin_basis.Tools.Calls.Relayed.{IfOk}
use cliproxyapi_plugin_basis.Upstream.{PreparedRequest}
use cliproxyapi_plugin_basis.Build.{
  ExecutorRequest, Editor, BuildError, request_scope, request_payload, has_effort, effort_suffix,
  set_effort, with_effort, edited_payload, capped_body, clamp_body, prepared_result, Surroundings,
  build_rewritten, build_edited,
}

-- sjson and gjson: in `body` a known level that is set as the effort is read again.
abbrev pub SetsEffort : Editor → Text → Type 0
SetsEffort e body =
    (value body' : Text) (r : ℕ)
    → effort_rank value ≡ some r
    → e.set_string body (lit "reasoning_effort") value ≡ some body'
    → e.string_at body' (lit "reasoning_effort") ≡ value

-- What the code relies on: the name of the model that is set in a payload is read again, also after
-- an effort has been set in it; and so is a known effort that is set in an encoded object.
pub record Edits (k : Coding) (e : Editor) (canonical : Text) : Type 0 where
  pub model_set :
      (raw raw' : Text)
      → e.set_string raw (lit "model") canonical ≡ some raw'
      → e.string_at raw' (lit "model") ≡ canonical
  pub model_kept :
      (raw raw' value raw'' : Text)
      → e.set_string raw (lit "model") canonical ≡ some raw'
      → e.set_string raw' (lit "reasoning.effort") value ≡ some raw''
      → e.string_at raw'' (lit "model") ≡ canonical
  pub effort_set : (fields : Fields) → SetsEffort e (k.encode (object fields))

-- An encoded body as it is sent: with another effort, or as it is.
abbrev pub Sent : Editor → Text → Text → Type 0
Sent e encoded body =
    (body ≡ encoded)
    ⊎ ((effort : Text) × (e.set_string encoded (lit "reasoning_effort") effort ≡ some body))

-- From where a body that is sent comes: the payload with the name of the model, then its images
-- replaced, then what Prepare makes of it.
abbrev pub ComesFrom :
    (h : Surroundings)
    → Config
    → ExecutorRequest
    → Text
    → Text
    → Option Cache
    → Result Text Bool
    → Images
    → h.store.State
    → Text
    → Type 0
ComesFrom h cfg req canonical account replay uploader images st sent =
    (body text : Text) × (fields : Fields) × (bridge : Bridge) × (edited_payload h.editor req
        canonical
      ≡ some body)
    × (h.editor.string_at body (lit "model") ≡ canonical)
    × ((rewrite_images h.store h.decode cfg.image_ttl h.coding cfg.image_upload body uploader images
          st).0
        ≡ ok text)
    × (prepare h.coding h.parse h.compile text
          (request_scope h.coding h.editor account req.headers text) replay
        ≡ ok (fields, bridge))
    × Sent h.editor (h.coding.encode (object fields)) sent

clamp_body-Sent :
    (cfg : Config) (e : Editor) (canonical encoded : Text) (b : Bridge)
    → IfOk
        (λ (r : PreparedRequest × Bridge). Sent e encoded r.0.body)
        (clamp_body cfg e canonical encoded b)
unfolding clamp_body
clamp_body-Sent cfg e canonical encoded b =
    if_split P (not (is_nil clamped) && not (clamped =ᵗ effort))
      (λ _. written (e.set_string encoded (lit "reasoning_effort") clamped) refl) (λ _. inl refl)
  where
    effort : Text
    effort = e.string_at encoded (lit "reasoning_effort")

    clamped : Text
    clamped = clamp_effort effort cfg.max_effort

    P : Result BuildError (PreparedRequest × Bridge) → Type 0
    P = IfOk (λ (r : PreparedRequest × Bridge). Sent e encoded r.0.body)

    written :
        (o : Option Text)
        → e.set_string encoded (lit "reasoning_effort") clamped ≡ o
        → P (capped_body cfg canonical (record b { effort = clamped }) o)
    written none p = tt
    written (some body) p = inr (clamped, p)

-- The configured model is in the payload, whether an effort is set after it or not.
edited_payload-model :
    (k : Coding) (e : Editor) (req : ExecutorRequest) (canonical body : Text)
    → Edits k e canonical
    → edited_payload e req canonical ≡ some body
    → e.string_at body (lit "model") ≡ canonical
unfolding edited_payload
edited_payload-model k e req canonical body law =
    named (e.set_string payload (lit "model") canonical) refl
  where
    payload : Text
    payload = if is_nil (request_payload req) then lit "{}" else request_payload req

    named :
        (o : Option Text)
        → e.set_string payload (lit "model") canonical ≡ o
        → with_effort e req o ≡ some body
        → e.string_at body (lit "model") ≡ canonical
    named none p h = absurd (cc)
    named (some raw) p h =
        if_split (λ (x : Option Text). x ≡ some body → e.string_at body (lit "model") ≡ canonical)
          (has_effort e raw) (λ _ h. law.model_set payload body (p ∙ h))
          (λ _. suffixed (effort_suffix e req)) h
      where
        suffixed :
            (suffix : Option Text)
            → set_effort e raw suffix ≡ some body
            → e.string_at body (lit "model") ≡ canonical
        suffixed none h = law.model_set payload body (p ∙ h)
        suffixed (some value) h = law.model_kept payload raw value body p h

module _ (h : Surroundings) (canonical : Text) (law : Edits h.coding h.editor canonical) where
  pub build_edited-ComesFrom :
      (cfg : Config) (req : ExecutorRequest) (account : Text) (replay : Option Cache)
      (uploader : Result Text Bool) (images : Images) (st : h.store.State)
      (r : PreparedRequest × Bridge) (o : Option Text)
      → edited_payload h.editor req canonical ≡ o
      → (build_edited h cfg req canonical account replay uploader images st o).0 ≡ ok r
      → ComesFrom h cfg req canonical account replay uploader images st r.0.body
  build_edited-ComesFrom cfg req account replay uploader images st r none p built = absurd (cc)
  build_edited-ComesFrom cfg req account replay uploader images st r (some body) p built =
      rewritten
        (rewrite_images h.store h.decode cfg.image_ttl h.coding cfg.image_upload body uploader
          images st)
        refl built
    where
      rewritten :
          (m : Rewritten h.store.State Text)
          → rewrite_images h.store h.decode cfg.image_ttl h.coding cfg.image_upload body uploader
              images st
            ≡ m
          → (build_rewritten h cfg req canonical account replay m).0 ≡ ok r
          → ComesFrom h cfg req canonical account replay uploader images st r.0.body
      rewritten (err e, w) q built' = absurd (cc)
      rewritten (ok text, w) q built' =
          prepared
            (prepare h.coding h.parse h.compile text
              (request_scope h.coding h.editor account req.headers text) replay)
            refl built'
        where
          prepared :
              (a : Result PrepareError (Fields × Bridge))
              → prepare h.coding h.parse h.compile text
                  (request_scope h.coding h.editor account req.headers text)
                  replay
                ≡ a
              → prepared_result cfg h.coding h.editor canonical a ≡ ok r
              → ComesFrom h cfg req canonical account replay uploader images st r.0.body
          prepared (err e) g done = absurd (cc)
          prepared (ok (fields, bridge)) g done = (
            body,
            text,
            fields,
            bridge,
            p,
            edited_payload-model h.coding h.editor req canonical body law p,
            ap (λ (m : Rewritten h.store.State Text). m.0) q,
            g,
            subst
                (IfOk (λ (x : PreparedRequest × Bridge).
                  Sent h.editor (h.coding.encode (object fields)) x.0.body))
                done
                (clamp_body-Sent cfg h.editor canonical (h.coding.encode (object fields)) bridge),
          )
