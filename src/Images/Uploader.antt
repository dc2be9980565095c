-- ===== src/Images/Uploader.antt =====
-- `uploader` of basispoints/image_upload.go: the store of the images, opened again when the settings
-- that it was opened with change.
use cliproxyapi_plugin_basis.Common.{
  Bool, true, false, Option, none, some, [], ◌∷◌, ◌++◌, if◌then◌else◌, Result, ok, err,
}
use cliproxyapi_plugin_basis.Common.Int.{ℤ}
use cliproxyapi_plugin_basis.Common.Text.{Text, ◌=ᵗ◌}
use cliproxyapi_plugin_basis.Config.{Config, s3_configured}
use cliproxyapi_plugin_basis.Images.{Images}
use cliproxyapi_plugin_basis.Prepare.Describe.{join_text}

-- The fields `imageStore` and `imageStamp` of `Service`, with the images that were closed.
pub record ImageStore : Type 0 where
  pub images : Option Images
  pub stamp : Text

-- What opens a store: `newS3BlobStore` of basispoints/image_s3.go, which may fail, and the text of a
-- time.Duration.
pub record Opener : Type 0 where
  pub open_store : Config → Text → Option Text
  pub duration_text : ℤ → Text

-- `newExpiringImages`
abbrev pub no_images : Images
no_images = record { cache = []; jobs = [] }

module _ (o : Opener) where
  -- `imageStamp`, with the proxy.
  unfoldable pub image_stamp : Config → Text → Text
  image_stamp cfg proxy =
      join_text (0 ∷ []) (
        cfg.s3.endpoint
        ∷ cfg.s3.region
        ∷ cfg.s3.bucket
        ∷ cfg.s3.access_key
        ∷ cfg.s3.secret_key
        ∷ cfg.s3.prefix
        ∷ o.duration_text cfg.image_ttl
        ∷ [])
      ++ 0 ∷ proxy

  -- A store is opened; one that was open before is closed whether that succeeds or not.
  abbrev pub reopened : Text → Text → Option Text → Result Text Bool × ImageStore
  reopened stamp before (some e) = (err e, record { images = none; stamp = before })
  reopened stamp before none = (ok true, record { images = some no_images; stamp = stamp })

  abbrev pub open_or_keep : Config → Text → Text → ImageStore → Result Text Bool × ImageStore
  open_or_keep cfg proxy stamp s = elim s.images [
    | none ↦ reopened stamp s.stamp (o.open_store cfg proxy)
    | some images ↦
        if s.stamp =ᵗ stamp then (ok true, s) else reopened stamp s.stamp (o.open_store cfg proxy)
  ]

  -- `uploader`: whether there is a store, which is then that of the state.
  unfoldable pub uploader : Config → Text → ImageStore → Result Text Bool × ImageStore
  unfolding s3_configured image_stamp
  uploader cfg proxy s =
      if s3_configured cfg then open_or_keep cfg proxy (image_stamp cfg proxy) s else (ok false, s)
