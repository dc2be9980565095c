-- ===== src/Build/Declared.antt =====
-- The bridge of a request that `build` of basispoints/wire.go accepts.
use cliproxyapi_plugin_basis.Common.{
  ◌≡◌, refl, Bool, not, ◌&&◌, Option, none, some, is_nil, if_split, subst, Result, ok, err, All,
}
use cliproxyapi_plugin_basis.Common.Text.{Text, lit, ◌=ᵗ◌}
use cliproxyapi_plugin_basis.Config.{Config, clamp_effort}
use cliproxyapi_plugin_basis.Images.{Images}
use cliproxyapi_plugin_basis.Images.Rewrite.{Rewritten}
use cliproxyapi_plugin_basis.Json.{Fields, object}
use cliproxyapi_plugin_basis.Prepare.{PrepareError, prepare}
use cliproxyapi_plugin_basis.Prepare.Body.{prepare-IsReady}
use cliproxyapi_plugin_basis.Replay.{Cache}
use cliproxyapi_plugin_basis.Tools.{Bridge}
use cliproxyapi_plugin_basis.Tools.Collect.Declared.{IsDeclared}
use cliproxyapi_plugin_basis.Tools.Calls.Relayed.{IfOk}
use cliproxyapi_plugin_basis.Upstream.{PreparedRequest}
use cliproxyapi_plugin_basis.Build.{
  ExecutorRequest, Editor, edited_payload, request_scope, capped_body, clamp_body, prepared_result,
  Surroundings, build_rewritten, build_edited, build,
}

abbrev DeclaresAll : PreparedRequest × Bridge → Type 0
DeclaresAll r = All IsDeclared r.1.tools

capped_body-DeclaresAll :
    (cfg : Config) (canonical : Text) (b : Bridge) (body : Option Text)
    → All IsDeclared b.tools
    → IfOk DeclaresAll (capped_body cfg canonical b body)
capped_body-DeclaresAll cfg canonical b none d = tt
capped_body-DeclaresAll cfg canonical b (some body) d = d

clamp_body-DeclaresAll :
    (cfg : Config) (e : Editor) (canonical body : Text) (b : Bridge)
    → All IsDeclared b.tools
    → IfOk DeclaresAll (clamp_body cfg e canonical body b)
unfolding clamp_body
clamp_body-DeclaresAll cfg e canonical body b d =
    if_split (IfOk DeclaresAll)
      (not (is_nil (clamp_effort (e.string_at body (lit "reasoning_effort")) cfg.max_effort))
        && not (
            clamp_effort (e.string_at body (lit "reasoning_effort")) cfg.max_effort
            =ᵗ e.string_at body (lit "reasoning_effort")))
      (λ _. capped_body-DeclaresAll cfg canonical _ _ d) (λ _. d)

module _ (h : Surroundings) where
  build_lem :
      (cfg : Config) (req : ExecutorRequest) (canonical account : Text) (replay : Option Cache)
      (uploader : Result Text Bool) (images : Images) (st : h.store.State)
      → IfOk DeclaresAll (build h cfg req canonical account replay uploader images st).0
  unfolding build
  build_lem cfg req canonical account replay uploader images st =
      edited (edited_payload h.editor req canonical)
    where
      prepared :
          (body scope : Text) (r : Result PrepareError (Fields × Bridge))
          → prepare h.coding h.parse h.compile body scope replay ≡ r
          → IfOk DeclaresAll (prepared_result cfg h.coding h.editor canonical r)
      prepared body scope (err e) p = tt
      prepared body scope (ok (fields, b)) p =
          clamp_body-DeclaresAll cfg h.editor canonical (h.coding.encode (object fields)) b
            (prepare-IsReady h.coding h.parse h.compile body scope replay fields b p).declared

      rewritten :
          (r : Rewritten h.store.State Text)
          → IfOk DeclaresAll (build_rewritten h cfg req canonical account replay r).0
      rewritten (err e, w) = tt
      rewritten (ok body, w) =
          prepared body (request_scope h.coding h.editor account req.headers body) _ refl

      edited :
          (o : Option Text)
          → IfOk DeclaresAll
              (build_edited h cfg req canonical account replay uploader images st o).0
      edited none = tt
      edited (some body) = rewritten _

  pub build-DeclaresAll :
      (cfg : Config) (req : ExecutorRequest) (canonical account : Text) (replay : Option Cache)
      (uploader : Result Text Bool) (images : Images) (st : h.store.State)
      (prepared : PreparedRequest) (b : Bridge)
      → (build h cfg req canonical account replay uploader images st).0 ≡ ok (prepared, b)
      → All IsDeclared b.tools
  build-DeclaresAll cfg req canonical account replay uploader images st prepared b built =
      subst (IfOk DeclaresAll) built (build_lem cfg req canonical account replay uploader images st)
