-- ===== src/Build/Capped.antt =====
-- What `build` of basispoints/wire.go makes where it succeeds.
use cliproxyapi_plugin_basis.Common.{
  ℕ, ◌≤◌, Bool, true, false, not, ◌&&◌, Option, none, some, [], ◌∷◌, ◌++◌, is_nil, arith, ◌≡◌, refl,
  sym, ◌⊎◌, inl, inr, min, subst, if_split, Result, ok, err, All,
}
use cliproxyapi_plugin_basis.Common.Assoc.{lookup}
use cliproxyapi_plugin_basis.Common.Text.{Text, lit, ◌=ᵗ◌, =ᵗ_iff, trim_space, to_lower}
use cliproxyapi_plugin_basis.Config.{Config, clamp_effort, effort_rank, max_rank}
use cliproxyapi_plugin_basis.Config.Clamp.{clamp_effort-capped}
use cliproxyapi_plugin_basis.Images.{Images}
use cliproxyapi_plugin_basis.Images.Rewrite.{Rewritten}
use cliproxyapi_plugin_basis.Json.{Fields, object, Coding}
use cliproxyapi_plugin_basis.Prepare.{PrepareError, prepare}
use cliproxyapi_plugin_basis.Prepare.Body.{IsReady, prepare-IsReady}
use cliproxyapi_plugin_basis.Replay.{Cache}
use cliproxyapi_plugin_basis.Tools.{Bridge}
use cliproxyapi_plugin_basis.Tools.Collect.Declared.{IsDeclared}
use cliproxyapi_plugin_basis.Tools.Calls.Relayed.{IfOk}
use cliproxyapi_plugin_basis.Upstream.{PreparedRequest}
use cliproxyapi_plugin_basis.Build.{
  ExecutorRequest, Editor, edited_payload, capped_body, clamp_body, prepared_result, Surroundings,
  build_rewritten, build_edited, build,
}
use cliproxyapi_plugin_basis.Build.Payload.{SetsEffort, Edits, ComesFrom, build_edited-ComesFrom}

-- An effort that is blank or not above the cap.
abbrev pub IsCapped : Config → Text → Type 0
IsCapped cfg effort =
    (is_nil (to_lower (trim_space effort)) ≡ true)
    ⊎ ((r : ℕ) × (effort_rank effort ≡ some r) × (r ≤ max_rank cfg.max_effort))

pub record IsBuilt (cfg : Config) (e : Editor) (r : PreparedRequest × Bridge) : Type 0 where
  pub url : r.0.url ≡ cfg.base_url ++ lit "/responses"
  pub capped : IsCapped cfg (e.string_at r.0.body (lit "reasoning_effort"))
  pub declared : All IsDeclared r.1.tools

clamp_effort-IsCapped :
    (cfg : Config) (effort : Text)
    → is_nil (to_lower (trim_space effort)) ≡ false
    → IsCapped cfg (clamp_effort effort cfg.max_effort)
clamp_effort-IsCapped cfg effort h =
    let (r, known, capped) = clamp_effort-capped effort cfg.max_effort h in
    inr (r, known, below r (effort_rank (to_lower (trim_space effort))) capped)
  where
    below :
        (r : ℕ) (o : Option ℕ)
        → r ≡ elim o [
          | none ↦ max_rank cfg.max_effort
          | some wanted ↦ min wanted (max_rank cfg.max_effort)
        ]
        → r ≤ max_rank cfg.max_effort
    below r none p = omega arith
    below r (some wanted) p = omega arith

clamp_effort-blank :
    (effort max_effort : Text)
    → is_nil (to_lower (trim_space effort)) ≡ true
    → is_nil (clamp_effort effort max_effort) ≡ true
unfolding clamp_effort
clamp_effort-blank effort max_effort h = rw h refl

not_ranked : (effort : Text) (r : ℕ) → effort_rank effort ≡ some r → is_nil effort ≡ false
unfolding effort_rank lookup lit ◌=ᵗ◌
not_ranked [] r h = absurd (cc)
not_ranked (c ∷ effort) r h = refl

-- An effort that is left as it is: it is blank, or the clamped one.
clamp_effort-kept :
    (cfg : Config) (effort : Text)
    → (not (is_nil (clamp_effort effort cfg.max_effort))
        && not (clamp_effort effort cfg.max_effort =ᵗ effort))
      ≡ false
    → IsCapped cfg effort
clamp_effort-kept cfg effort same = by_blank (is_nil (to_lower (trim_space effort))) refl
  where
    by_blank : (t : Bool) → is_nil (to_lower (trim_space effort)) ≡ t → IsCapped cfg effort
    by_blank true h = inl h
    by_blank false h =
        let (r, known, capped) = clamp_effort-capped effort cfg.max_effort h in
        subst (IsCapped cfg)
          ((=ᵗ_iff (clamp_effort effort cfg.max_effort) effort).0
            (ground (arith, same, not_ranked (clamp_effort effort cfg.max_effort) r known)))
          (clamp_effort-IsCapped cfg effort h)

capped_body-IsBuilt :
    (cfg : Config) (e : Editor) (canonical body effort : Text) (b : Bridge) (r : ℕ)
    → SetsEffort e body
    → effort_rank effort ≡ some r
    → IsCapped cfg effort
    → All IsDeclared b.tools
    → IfOk
        (IsBuilt cfg e)
        (capped_body cfg canonical b (e.set_string body (lit "reasoning_effort") effort))
capped_body-IsBuilt cfg e canonical body effort b r law known capped declared =
    written (e.set_string body (lit "reasoning_effort") effort) refl
  where
    written :
        (o : Option Text)
        → e.set_string body (lit "reasoning_effort") effort ≡ o
        → IfOk (IsBuilt cfg e) (capped_body cfg canonical b o)
    written none p = tt
    written (some body') p = record {
      url = refl;
      capped = subst (IsCapped cfg) (sym (law effort body' r known p)) capped;
      declared = declared;
    }

clamp_body-IsBuilt :
    (cfg : Config) (e : Editor) (canonical body : Text) (b : Bridge)
    → SetsEffort e body
    → All IsDeclared b.tools
    → IfOk (IsBuilt cfg e) (clamp_body cfg e canonical body b)
unfolding clamp_body
clamp_body-IsBuilt cfg e canonical body b law declared =
    if_split (IfOk (IsBuilt cfg e)) (not (is_nil clamped) && not (clamped =ᵗ effort))
      (λ changed.
        let wanted = not_blank (ground (arith, changed)) in
        let (r, known, capped) = clamp_effort-capped effort cfg.max_effort wanted in
        capped_body-IsBuilt cfg e canonical body clamped (record b { effort = clamped }) r law known
          (clamp_effort-IsCapped cfg effort wanted) declared)
      (λ same. record {
        url = refl;
        capped = clamp_effort-kept cfg effort same;
        declared = declared;
      })
  where
    effort : Text
    effort = e.string_at body (lit "reasoning_effort")

    clamped : Text
    clamped = clamp_effort effort cfg.max_effort

    not_blank : is_nil clamped ≡ false → is_nil (to_lower (trim_space effort)) ≡ false
    not_blank h = ground (arith, h, clamp_effort-blank effort cfg.max_effort)

prepared_result-IsBuilt :
    (cfg : Config) (k : Coding) (e : Editor) (canonical : Text)
    (r : Result PrepareError (Fields × Bridge))
    → ((fields : Fields) → SetsEffort e (k.encode (object fields)))
    → IfOk IsReady r
    → IfOk (IsBuilt cfg e) (prepared_result cfg k e canonical r)
prepared_result-IsBuilt cfg k e canonical (err reason) law h = tt
prepared_result-IsBuilt cfg k e canonical (ok (body, b)) law h =
    clamp_body-IsBuilt cfg e canonical (k.encode (object body)) b (law body) h.declared

module _ (h : Surroundings) (canonical : Text) (law : Edits h.coding h.editor canonical) where
  prepare-IfOk :
      (body scope : Text) (replay : Option Cache)
      → IfOk IsReady (prepare h.coding h.parse h.compile body scope replay)
  prepare-IfOk body scope replay =
      by_result (prepare h.coding h.parse h.compile body scope replay) refl
    where
      by_result :
          (r : Result PrepareError (Fields × Bridge))
          → prepare h.coding h.parse h.compile body scope replay ≡ r
          → IfOk IsReady r
      by_result (err e) p = tt
      by_result (ok (fields, b)) p =
          prepare-IsReady h.coding h.parse h.compile body scope replay fields b p

  build_rewritten-IsBuilt :
      (cfg : Config) (req : ExecutorRequest) (account : Text) (replay : Option Cache)
      (r : Rewritten h.store.State Text)
      → IfOk (IsBuilt cfg h.editor) (build_rewritten h cfg req canonical account replay r).0
  build_rewritten-IsBuilt cfg req account replay (err e, w) = tt
  build_rewritten-IsBuilt cfg req account replay (ok body, w) =
      prepared_result-IsBuilt cfg h.coding h.editor canonical _ law.effort_set
        (prepare-IfOk body _ replay)

  build_lem :
      (cfg : Config) (req : ExecutorRequest) (account : Text) (replay : Option Cache)
      (uploader : Result Text Bool) (images : Images) (st : h.store.State)
      → IfOk (IsBuilt cfg h.editor) (build h cfg req canonical account replay uploader images st).0
  unfolding build
  build_lem cfg req account replay uploader images st =
      edited (edited_payload h.editor req canonical)
    where
      edited :
          (o : Option Text)
          → IfOk
              (IsBuilt cfg h.editor)
              (build_edited h cfg req canonical account replay uploader images st o).0
      edited none = tt
      edited (some body) = build_rewritten-IsBuilt cfg req account replay _

  -- Where the editor reads again the name of the model that it sets in a payload, also after it has
  -- set an effort there, and a known effort that it sets in an encoded object: the body of a request
  -- that is built is what Prepare makes of a payload that names the configured model, after its images
  -- are replaced, but for the effort; the request goes to the address of the configured gateway, its
  -- effort is blank or not above the cap, and the tools of its bridge are functions and custom tools
  -- that have names, under their qualified names.
  pub build-IsBuilt :
      (cfg : Config) (req : ExecutorRequest) (account : Text) (replay : Option Cache)
      (uploader : Result Text Bool) (images : Images) (st : h.store.State)
      (prepared : PreparedRequest) (b : Bridge)
      → (build h cfg req canonical account replay uploader images st).0 ≡ ok (prepared, b)
      → IsBuilt cfg h.editor (prepared, b)
        × ComesFrom h cfg req canonical account replay uploader images st prepared.body
  unfolding build
  build-IsBuilt cfg req account replay uploader images st prepared b built = (
    subst (IfOk (IsBuilt cfg h.editor)) built (build_lem cfg req account replay uploader images st),
    build_edited-ComesFrom h canonical law cfg req account replay uploader images st (prepared, b)
        (edited_payload h.editor req canonical) refl built,
  )
