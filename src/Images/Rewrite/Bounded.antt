-- ===== src/Images/Rewrite/Bounded.antt =====
-- The limits of `rewriteImages` of basispoints/image_upload.go, on every way in which it ends.
use cliproxyapi_plugin_basis.Common.{
  ◌+◌, ◌*◌, ◌^◌, ◌≤◌, Bool, true, false, not, ◌||◌, Option, some, List, [], ◌∷◌, arith, ltb, leb,
  length, if_split, Result, ok, err,
}
use cliproxyapi_plugin_basis.Common.Int.{ℤ}
use cliproxyapi_plugin_basis.Common.Text.{Text, lit}
use cliproxyapi_plugin_basis.Json.{
  Json, array, object, Fields, fields_of, items_of, get_field, Coding,
}
use cliproxyapi_plugin_basis.Images.{Images, Store, Uploaded, upload}
use cliproxyapi_plugin_basis.Images.Schedule.{IsScheduled}
use cliproxyapi_plugin_basis.Images.Uploads.{upload-IsScheduled}
use cliproxyapi_plugin_basis.Images.Urls.{ImageError}
use cliproxyapi_plugin_basis.Images.Rewrite.{
  max_inline_images, max_inline_batch_bytes, Rewriting, Rewritten, and_then, is_inline_image,
  has_output, bytes_contain_data_image, placed, upload_part, rewrite_part, rewrite_parts,
  rewrite_field, rewrite_output, rewrite_item, rewrite_items, start, rewrite_source, with_uploader,
  rewrite_images,
}
use cliproxyapi_plugin_basis.Images.Rewrite.Tally.{
  UploadTally, counted, uncounted, Adds, upload-Adds,
}

-- The store has been asked to put at most 20 objects, of at most 32 MiB together, and the deletion of
-- every cached image is scheduled.
abbrev pub Ends : {State : Type 0} → Rewriting (UploadTally State) → Type 0
Ends w = (w.state.puts ≤ 20) × (w.state.bytes ≤ 32 * 2 ^ 20) × IsScheduled w.images

-- What holds after each part of the loops that succeeds.
abbrev IsOpen : {State : Type 0} → Rewriting (UploadTally State) → Type 0
IsOpen w =
    (w.state.puts ≤ w.count)
    × (w.state.bytes ≤ w.total)
    × (w.count ≤ max_inline_images)
    × (w.total ≤ max_inline_batch_bytes)
    × IsScheduled w.images

abbrev Runs : {State A : Type 0} → Rewritten (UploadTally State) A → Type 0
Runs (ok a, w) = IsOpen w
Runs (err e, w) = Ends w

IsOpen-Ends : {State : Type 0} (w : Rewriting (UploadTally State)) → IsOpen w → Ends w
IsOpen-Ends w (few, small, count, total, v) =
    (omega (arith, few, count), omega (arith, small, total), v)

Runs-Ends : {State A : Type 0} (m : Rewritten (UploadTally State) A) → Runs m → Ends m.1
Runs-Ends (ok a, w) o = IsOpen-Ends w o
Runs-Ends (err e, w) h = h

and_then-Runs :
    {State A B : Type 0} (m : Rewritten (UploadTally State) A)
    (f : A → Rewriting (UploadTally State) → Rewritten (UploadTally State) B)
    → Runs m
    → ((a : A) (w : Rewriting (UploadTally State)) → IsOpen w → Runs (f a w))
    → Runs (and_then m f)
and_then-Runs (ok a, w) f h g = g a w h
and_then-Runs (err e, w) f h g = h

module _ (inner : Store) (decode : Text → Option Text) (ttl : ℤ) where
  abbrev s : Store
  s = counted inner

  placed-Runs :
      (part : Fields) (w : Rewriting s.State) (u : Uploaded s)
      → u.2.puts ≤ w.count + 1
      → u.2.bytes ≤ w.total
      → w.count + 1 ≤ max_inline_images
      → w.total ≤ max_inline_batch_bytes
      → IsScheduled u.1
      → Runs (placed s decode ttl part w u)
  placed-Runs part w (ok url, images, st) p b few small v = (p, b, few, small, v)
  placed-Runs part w (err e, images, st) p b few small v =
      (omega (arith, p, few), omega (arith, b, small), v)

  upload_part-Runs :
      (part : Fields) (w : Rewriting s.State) (r : Result ImageError (Text × Text))
      → w.count + 1 ≤ max_inline_images
      → IsOpen w
      → Runs (upload_part s decode ttl part w r)
  upload_part-Runs part w (err e) few o = IsOpen-Ends w o
  upload_part-Runs part w (ok (content_type, body)) few (p, b, count, total, v) =
      if_split Runs (ltb max_inline_batch_bytes (w.total + length body))
        (λ _. (omega (arith, p, count), omega (arith, b, total), v))
        (λ small.
          placed-Runs part w' (upload s w.images content_type body ttl w.state)
            (omega (arith, p, adds.0)) (omega (arith, b, adds.1)) few (ground (arith, small))
            (upload-IsScheduled s w.images content_type body ttl w.state v).0)
    where
      w' : Rewriting s.State
      w' = record w { total = w.total + length body }

      adds : Adds inner body w.state (upload s w.images content_type body ttl w.state).2
      adds = upload-Adds inner w.images content_type body ttl w.state

  rewrite_part-Runs :
      (raw : Json) (w : Rewriting s.State) → IsOpen w → Runs (rewrite_part s decode ttl raw w)
  unfolding rewrite_part
  rewrite_part-Runs raw w o =
      if_split Runs (not (is_inline_image (fields_of raw))) (λ _. o)
        (λ _.
          if_split Runs (leb max_inline_images w.count) (λ _. IsOpen-Ends w o)
            (λ few. upload_part-Runs (fields_of raw) w _ (ground (arith, few)) o))

  rewrite_parts-Runs :
      (raws : List Json) (w : Rewriting s.State)
      → IsOpen w
      → Runs (rewrite_parts s decode ttl raws w)
  unfolding rewrite_parts
  rewrite_parts-Runs [] w o = o
  rewrite_parts-Runs (raw ∷ rest) w o =
      and_then-Runs (rewrite_part s decode ttl raw w) _ (rewrite_part-Runs raw w o) (λ part w₁ o₁.
        and_then-Runs (rewrite_parts s decode ttl rest w₁) _ (rewrite_parts-Runs rest w₁ o₁)
          (λ parts w₂ o₂. o₂))

  rewrite_field-Runs :
      (field : Text) (item : Fields) (v : Json) (w : Rewriting s.State)
      → IsOpen w
      → Runs (rewrite_field s decode ttl field item v w)
  rewrite_field-Runs field item (array xs) w o =
      and_then-Runs (rewrite_parts s decode ttl (items_of (array xs)) w) _
        (rewrite_parts-Runs (items_of (array xs)) w o) (λ parts w' o'. o')
  rewrite_field-Runs field item _ w o = o

  rewrite_item-Runs :
      (raw : Json) (w : Rewriting s.State) → IsOpen w → Runs (rewrite_item s decode ttl raw w)
  rewrite_item-Runs (object item) w o =
      and_then-Runs
        (rewrite_field s decode ttl (lit "content") item (get_field (lit "content") item) w) _
        (rewrite_field-Runs (lit "content") item (get_field (lit "content") item) w o)
        (λ item₁ w₁ o₁.
          and_then-Runs (rewrite_output s decode ttl item₁ w₁) _
            (if_split Runs (has_output item₁)
              (λ _. rewrite_field-Runs (lit "output") item₁ (get_field (lit "output") item₁) w₁ o₁)
              (λ _. o₁))
            (λ item₂ w₂ o₂. o₂))
  rewrite_item-Runs _ w o = o

  rewrite_items-Runs :
      (raws : List Json) (w : Rewriting s.State)
      → IsOpen w
      → Runs (rewrite_items s decode ttl raws w)
  unfolding rewrite_items
  rewrite_items-Runs [] w o = o
  rewrite_items-Runs (raw ∷ rest) w o =
      and_then-Runs (rewrite_item s decode ttl raw w) _ (rewrite_item-Runs raw w o) (λ item w₁ o₁.
        and_then-Runs (rewrite_items s decode ttl rest w₁) _ (rewrite_items-Runs rest w₁ o₁)
          (λ items w₂ o₂. o₂))

  rewrite_source-Runs :
      (k : Coding) (payload : Text) (v : Option Json) (w : Rewriting s.State)
      → IsOpen w
      → Runs (rewrite_source s decode ttl k payload v w)
  unfolding rewrite_source
  rewrite_source-Runs k payload (some (object source)) w o =
      and_then-Runs (rewrite_items s decode ttl (items_of (get_field (lit "input") source)) w) _
        (rewrite_items-Runs (items_of (get_field (lit "input") source)) w o) (λ items w' o'. o')
  rewrite_source-Runs k payload _ w o = IsOpen-Ends w o

  with_uploader-Runs :
      (k : Coding) (payload : Text) (uploader : Result Text Bool) (w : Rewriting s.State)
      → IsOpen w
      → Runs (with_uploader s decode ttl k payload uploader w)
  unfolding with_uploader
  with_uploader-Runs k payload (err e) w o = IsOpen-Ends w o
  with_uploader-Runs k payload (ok false) w o = IsOpen-Ends w o
  with_uploader-Runs k payload (ok true) w o = rewrite_source-Runs k payload _ w o

  -- Where the deletion of every cached image is scheduled, whatever the request and the answers of
  -- the store: at the end of a rewriting, errors included, the store has been asked to put at most 20
  -- objects, of at most 32 MiB together, and the deletion of every cached image is scheduled.
  pub rewrite_images-Ends :
      (k : Coding) (enabled : Bool) (payload : Text) (uploader : Result Text Bool) (images : Images)
      (st : inner.State)
      → IsScheduled images
      → Ends (
          (rewrite_images
            (counted inner)
            decode
            ttl
            k
            enabled
            payload
            uploader
            images
            (uncounted st)).1)
  unfolding rewrite_images
  rewrite_images-Ends k enabled payload uploader images st v =
      if_split (λ (m : Rewritten s.State Text). Ends m.1)
        (not (bytes_contain_data_image payload) || not enabled) (λ _. (omega arith, omega arith, v))
        (λ _. Runs-Ends _ (
          with_uploader-Runs k payload uploader (start s decode ttl images (uncounted st))
            (omega arith, omega arith, omega arith, omega arith, v)))
