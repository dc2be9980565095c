-- ===== src/Images/Interleaved/Runs.antt =====
-- `Upload` and `sweep` of basispoints/image_upload.go as turns of the interleaving.
use cliproxyapi_plugin_basis.Common.{
  ℕ, ◌≡◌, refl, subst, Option, none, some, List, [], ◌∷◌, ◌++◌, append-nil, Result, ok, err, ◌+◌,
}
use cliproxyapi_plugin_basis.Common.Assoc.{Assoc, lookup}
use cliproxyapi_plugin_basis.Common.Int.{ℤ, pos_part}
use cliproxyapi_plugin_basis.Common.Text.{Text}
use cliproxyapi_plugin_basis.Images.{
  DeleteJob, KeptImage, Images, Store, pending_jobs, due_jobs, live_images, retried_job, delete_due,
  sweep, after_sign, after_put, store_image, upload_from, upload, usable, effective_ttl,
}
use cliproxyapi_plugin_basis.Images.Interleaved.{
  Shared, dropped_by, puts, remembers, forgoes, takes_due, deletes, Turns, at_start, then_turn,
}

module _ (s : Store) where
  -- The deletions of a sweep, which are those of the last jobs that are taken.
  delete_due-Turns :
      (now : ℕ) (x : Shared) (cache : Assoc KeptImage) (uploading placed dropped : List Text)
      (taken jobs due : List DeleteJob) (st : s.State)
      → Turns x (record {
        images = record { cache = cache; jobs = jobs };
        uploading = uploading;
        taken = taken ++ due;
        placed = placed;
        dropped = dropped;
      })
      → (dropped' : List Text) × Turns x (record {
        images = record { cache = cache; jobs = (delete_due s now jobs due st).0 };
        uploading = uploading;
        taken = taken;
        placed = placed;
        dropped = dropped';
      })
  unfolding delete_due
  delete_due-Turns now x cache uploading placed dropped taken jobs [] st ts = (
    dropped,
    subst
        (λ (jobs' : List DeleteJob). Turns x (record {
          images = record { cache = cache; jobs = jobs };
          uploading = uploading;
          taken = jobs';
          placed = placed;
          dropped = dropped;
        }))
        (append-nil taken) ts,
  )
  delete_due-Turns now x cache uploading placed dropped taken jobs (job ∷ due) st ts =
      let (failure, st') = s.delete job.key st in
      delete_due-Turns now x cache uploading placed (dropped_by job failure ++ dropped) taken
        (jobs ++ retried_job now job failure) due st'
        (then_turn ts (deletes now job failure taken due refl))

  -- A sweep is a run of turns.
  pub sweep-Turns :
      (now : ℕ) (x : Shared) (st : s.State)
      → (dropped : List Text) × Turns x
          (record x { images = (sweep s now x.images st).0; dropped = dropped })
  unfolding sweep
  sweep-Turns now x st =
      delete_due-Turns now x (live_images now x.images.cache) x.uploading x.placed x.dropped x.taken
        (pending_jobs now x.images.jobs) (due_jobs now x.images.jobs) st
        (then_turn at_start (takes_due now))

  -- Turns lead from `x` to `images`, with the uploads under way as before.
  abbrev pub LeadsTo : Shared → Images → Type 0
  LeadsTo x images =
      (y : Shared) × Turns x y
      × (y.images ≡ images)
      × (y.uploading ≡ x.uploading)
      × (y.taken ≡ x.taken)

  after_put-LeadsTo :
      (x : Shared) (hash key : Text) (ttl : ℤ) (now : ℕ) (failure : Option Text) (st : s.State)
      → LeadsTo x (after_put s x.images hash key ttl now failure st).1
  unfolding after_put
  after_put-LeadsTo x hash key ttl now (some e) st = (x, at_start, refl, refl, refl)
  after_put-LeadsTo x hash key ttl now none st = signed (s.presign key ttl st).0
    where
      signed :
          (r : Result Text Text)
          → LeadsTo x
              (after_sign s x.images hash key (now + pos_part ttl) r (s.presign key ttl st).1).1
      signed (err e) = (
        _,
        then_turn (then_turn at_start (puts key)) (forgoes key [] x.uploading refl),
        refl,
        refl,
        refl,
      )
      signed (ok url) = (
        _,
        then_turn (then_turn at_start (puts key))
            (remembers hash url key (now + pos_part ttl) [] x.uploading refl),
        refl,
        refl,
        refl,
      )

  -- So is an upload, whatever it finds in the cache and whatever the store answers.
  pub upload-Turns :
      (x : Shared) (content_type body : Text) (ttl : ℤ) (st : s.State)
      → LeadsTo x (upload s x.images content_type body ttl st).1
  unfolding upload upload_from store_image
  upload-Turns x content_type body ttl st =
      found (usable (s.clock st).0 (lookup (s.digest body) x.images.cache))
    where
      found :
          (o : Option Text)
          → LeadsTo x
              (upload_from s x.images
                (s.digest body)
                content_type
                body
                (effective_ttl ttl)
                (s.clock st).0
                o
                (s.clock st).1).1
      found (some url) = (x, at_start, refl, refl, refl)
      found none = after_put-LeadsTo x (s.digest body) _ (effective_ttl ttl) (s.clock st).0 _ _
