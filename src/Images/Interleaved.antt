-- ===== src/Images/Interleaved.antt =====
-- Uploads and sweeps at once (basispoints/image_upload.go): every interleaving of the sections of
-- `Upload` and `sweep` under the mutex with the calls of the store between them.
pub mod Tracked
pub mod Runs
use cliproxyapi_plugin_basis.Common.{
  ℕ, ◌≤◌, ◌≡◌, refl, sym, ap, subst, Option, none, some, List, [], ◌∷◌, ◌++◌, arith, leb, ltb, not,
  if◌then◌else◌, if_split, All, All-append, All-map, inl, inr, ◌⊎◌,
}
use cliproxyapi_plugin_basis.Common.Text.{Text}
use cliproxyapi_plugin_basis.Images.{
  DeleteJob, Images, remember, pending_jobs, due_jobs, live_images, retried_job,
}
use cliproxyapi_plugin_basis.Images.Uploader.{no_images}
use cliproxyapi_plugin_basis.Images.Schedule.{IsScheduled}

-- The images, the objects of uploads that are not remembered yet, and the jobs that a sweep has taken;
-- and, of all time, the keys of the objects that were put, and of those that nothing asks for any more:
-- their deletion succeeded, was tried five times, or was asked for once after a signature failed.
pub record Shared : Type 0 where
  pub images : Images
  pub uploading : List Text
  pub taken : List DeleteJob
  pub placed : List Text
  pub dropped : List Text

-- What a deletion drops.
abbrev pub dropped_by : DeleteJob → Option Text → List Text
dropped_by job none = job.key ∷ []
dropped_by job (some error) = if leb 4 job.tries then job.key ∷ [] else []

-- One step: `Put`, the second section of `Upload` or its end after a failed signature, the first
-- section of `sweep`, and a deletion with the section after it.
pub data Turn (x : Shared) : Shared → Type 0 where
  puts : (key : Text) → Turn x (record x { uploading = key ∷ x.uploading; placed = key ∷ x.placed })
  remembers :
      (hash url key : Text) (expires : ℕ) (before after : List Text)
      → x.uploading ≡ before ++ (key ∷ after)
      → Turn x (record x {
        images = remember x.images hash url key expires;
        uploading = before ++ after;
      })
  forgoes :
      (key : Text) (before after : List Text)
      → x.uploading ≡ before ++ (key ∷ after)
      → Turn x (record x { uploading = before ++ after; dropped = key ∷ x.dropped })
  takes_due :
      (now : ℕ)
      → Turn x (record x {
        images = record {
          cache = live_images now x.images.cache;
          jobs = pending_jobs now x.images.jobs;
        };
        taken = x.taken ++ due_jobs now x.images.jobs;
      })
  deletes :
      (now : ℕ) (job : DeleteJob) (failure : Option Text) (before after : List DeleteJob)
      → x.taken ≡ before ++ (job ∷ after)
      → Turn x (record x {
        images = record x.images { jobs = x.images.jobs ++ retried_job now job failure };
        taken = before ++ after;
        dropped = dropped_by job failure ++ x.dropped;
      })

pub data Turns (x : Shared) : Shared → Type 0 where
  at_start : Turns x x
  then_turn : {y z : Shared} → Turns x y → Turn y z → Turns x z

abbrev pub at_first : Shared
at_first = record { images = no_images; uploading = []; taken = []; placed = []; dropped = [] }
