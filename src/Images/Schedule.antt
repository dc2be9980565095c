-- ===== src/Images/Schedule.antt =====
-- The schedule of deletions, and the sweep (basispoints/image_upload.go).
use cliproxyapi_plugin_basis.Common.{
  ℕ, ◌≤◌, ◌<◌, ◌≡◌, true, not, Option, none, some, List, [], ◌∷◌, ◌++◌, arith, ltb, leb, if_split,
  All, All-append, All-map, inl, inr, ◌⊎◌,
}
use cliproxyapi_plugin_basis.Common.Text.{Text}
use cliproxyapi_plugin_basis.Common.Assoc.{Assoc}
use cliproxyapi_plugin_basis.Images.{
  KeptImage, DeleteJob, Images, Store, pending_jobs, due_jobs, live_images, retried_job, delete_due,
  sweep,
}

-- One of the jobs deletes the object of the image when the image expires.
abbrev pub HasJob : KeptImage → List DeleteJob → Type 0
HasJob kept [] = ⊥
HasJob kept (job ∷ jobs) = ((job.key ≡ kept.key) × (job.at_time ≡ kept.expires)) ⊎ HasJob kept jobs

-- Each cached image has such a job, and no job has been tried five times.
pub record IsScheduled (images : Images) : Type 0 where
  pub covered : All (λ (entry : Text × KeptImage). HasJob entry.1 images.jobs) images.cache
  pub tried : All (λ (job : DeleteJob). job.tries ≤ 4) images.jobs

pub HasJob-append :
    (kept : KeptImage) (jobs more : List DeleteJob) → HasJob kept jobs → HasJob kept (jobs ++ more)
HasJob-append kept [] more h = absurd h
HasJob-append kept (job ∷ jobs) more (inl h) = inl h
HasJob-append kept (job ∷ jobs) more (inr h) = inr (HasJob-append kept jobs more h)

pub HasJob-last :
    (kept : KeptImage) (jobs : List DeleteJob) (job : DeleteJob)
    → (job.key ≡ kept.key) × (job.at_time ≡ kept.expires)
    → HasJob kept (jobs ++ job ∷ [])
HasJob-last kept [] job h = inl h
HasJob-last kept (x ∷ jobs) job h = inr (HasJob-last kept jobs job h)

-- A job of an image that has not expired is not due.
pending_jobs-HasJob :
    (now : ℕ) (kept : KeptImage) (jobs : List DeleteJob)
    → ltb now kept.expires ≡ true
    → HasJob kept jobs
    → HasJob kept (pending_jobs now jobs)
unfolding pending_jobs
pending_jobs-HasJob now kept [] h j = absurd j
pending_jobs-HasJob now kept (job ∷ jobs) h (inl j) =
    if_split (HasJob kept) (not (ltb now job.at_time)) (λ due. absurd (ground (arith, h, j.1, due)))
      (λ _. inl j)
pending_jobs-HasJob now kept (job ∷ jobs) h (inr j) =
    if_split (HasJob kept) (not (ltb now job.at_time)) (λ _. pending_jobs-HasJob now kept jobs h j)
      (λ _. inr (pending_jobs-HasJob now kept jobs h j))

pub live_images-All :
    (now : ℕ) (jobs : List DeleteJob) (cache : Assoc KeptImage)
    → All (λ (entry : Text × KeptImage). HasJob entry.1 jobs) cache
    → All
        (λ (entry : Text × KeptImage). HasJob entry.1 (pending_jobs now jobs))
        (live_images now cache)
unfolding live_images
live_images-All now jobs [] h = tt
live_images-All now jobs ((hash, kept) ∷ cache) h =
    if_split (All (λ (entry : Text × KeptImage). HasJob entry.1 (pending_jobs now jobs)))
      (not (ltb now kept.expires)) (λ _. live_images-All now jobs cache h.1)
      (λ live. (
        pending_jobs-HasJob now kept jobs (ground (arith, live)) h.0,
        live_images-All now jobs cache h.1,
      ))

-- Whatever a due job leaves behind has not been tried too often, and is due after `now`.
pub retried_job-All :
    (now : ℕ) (job : DeleteJob) (failure : Option Text)
    → All (λ (job : DeleteJob). (job.tries ≤ 4) × (now < job.at_time)) (retried_job now job failure)
retried_job-All now job none = tt
retried_job-All now job (some e) =
    if_split (All (λ (job : DeleteJob). (job.tries ≤ 4) × (now < job.at_time))) (leb 4 job.tries)
      (λ _. tt) (λ few. ((ground (arith, few), omega arith), tt))

pub pending_jobs-All :
    (P : DeleteJob → Type 0) (now : ℕ) (jobs : List DeleteJob)
    → All P jobs
    → All (λ job. P job × (now < job.at_time)) (pending_jobs now jobs)
unfolding pending_jobs
pending_jobs-All P now [] h = tt
pending_jobs-All P now (job ∷ jobs) h =
    if_split (All (λ job. P job × (now < job.at_time))) (not (ltb now job.at_time))
      (λ _. pending_jobs-All P now jobs h.1)
      (λ live. ((h.0, ground (arith, live)), pending_jobs-All P now jobs h.1))

live_images-unexpired :
    (now : ℕ) (cache : Assoc KeptImage)
    → All (λ (entry : Text × KeptImage). now < entry.1.expires) (live_images now cache)
unfolding live_images
live_images-unexpired now [] = tt
live_images-unexpired now ((hash, kept) ∷ cache) =
    if_split (All (λ (entry : Text × KeptImage). now < entry.1.expires))
      (not (ltb now kept.expires)) (λ _. live_images-unexpired now cache)
      (λ live. (ground (arith, live), live_images-unexpired now cache))

module _ (s : Store) where
  delete_due-HasJob :
      (now : ℕ) (kept : KeptImage) (jobs due : List DeleteJob) (st : s.State)
      → HasJob kept jobs
      → HasJob kept (delete_due s now jobs due st).0
  unfolding delete_due
  delete_due-HasJob now kept jobs [] st h = h
  delete_due-HasJob now kept jobs (job ∷ due) st h =
      delete_due-HasJob now kept (jobs ++ retried_job now job (s.delete job.key st).0) due
        (s.delete job.key st).1
        (HasJob-append kept jobs (retried_job now job (s.delete job.key st).0) h)

  module _ (P : DeleteJob → Type 0) (now : ℕ)
      (later : (job : DeleteJob) (failure : Option Text)
        → All P (retried_job now job failure)) where
    delete_due-All :
        (jobs due : List DeleteJob) (st : s.State)
        → All P jobs
        → All P (delete_due s now jobs due st).0
    unfolding delete_due
    delete_due-All jobs [] st h = h
    delete_due-All jobs (job ∷ due) st h =
        delete_due-All (jobs ++ retried_job now job (s.delete job.key st).0) due
          (s.delete job.key st).1 (All-append P jobs _ h (later job (s.delete job.key st).0))

  abbrev Lasting : ℕ → DeleteJob → Type 0
  Lasting now job = (job.tries ≤ 4) × (now < job.at_time)

  -- A sweep, whatever the store answers, keeps the deletion of every image that stays in the cache
  -- scheduled; afterwards no image of the cache has expired, and no job is due.
  pub sweep-IsScheduled :
      (now : ℕ) (images : Images) (st : s.State)
      → IsScheduled images
      → IsScheduled (sweep s now images st).0
        × All (λ (entry : Text × KeptImage). now < entry.1.expires) (sweep s now images st).0.cache
        × All (λ (job : DeleteJob). now < job.at_time) (sweep s now images st).0.jobs
  unfolding sweep
  sweep-IsScheduled now images st v = (
    record {
      covered =
          All-map (live_images now images.cache)
            (λ entry h. delete_due-HasJob now entry.1 pending due st h)
            (live_images-All now images.jobs images.cache v.covered);
      tried = All-map _ (λ job h. h.0) lasting;
    },
    live_images-unexpired now images.cache,
    All-map _ (λ job h. h.1) lasting,
  )
    where
      pending : List DeleteJob
      pending = pending_jobs now images.jobs

      due : List DeleteJob
      due = due_jobs now images.jobs

      lasting : All (Lasting now) (delete_due s now pending due st).0
      lasting =
          delete_due-All (Lasting now) now (retried_job-All now) pending due st
            (pending_jobs-All (λ job. job.tries ≤ 4) now images.jobs v.tried)
