-- ===== src/Images/Interleaved/Tracked.antt =====
-- No object of the store is forgotten (basispoints/image_upload.go).
use cliproxyapi_plugin_basis.Common.{
  ℕ, ◌≤◌, ◌≡◌, refl, subst, Option, none, some, List, [], ◌∷◌, ◌++◌, leb, ltb, not, if_split, All,
  All-append, All-map, inl, inr, ◌⊎◌, Bool-cases,
}
use cliproxyapi_plugin_basis.Common.Text.{Text}
use cliproxyapi_plugin_basis.Images.{DeleteJob, remember, pending_jobs, due_jobs, retried_job}
use cliproxyapi_plugin_basis.Images.Schedule.{
  IsScheduled, HasJob-append, live_images-All, retried_job-All, pending_jobs-All,
}
use cliproxyapi_plugin_basis.Images.Uploads.{remember-IsScheduled}
use cliproxyapi_plugin_basis.Images.Interleaved.{
  Shared, dropped_by, Turn, puts, remembers, forgoes, takes_due, deletes, Turns, at_start,
  then_turn, at_first,
}

-- One of the elements has the key.
module _ {A : Type 0} (key_of : A → Text) (key : Text) where
  abbrev pub Among : List A → Type 0
  Among [] = ⊥
  Among (x ∷ xs) = (key_of x ≡ key) ⊎ Among xs

  pub Among-before : (xs ys : List A) → Among xs → Among (xs ++ ys)
  Among-before [] ys h = absurd h
  Among-before (x ∷ xs) ys (inl e) = inl e
  Among-before (x ∷ xs) ys (inr h) = inr (Among-before xs ys h)

  pub Among-after : (xs ys : List A) → Among ys → Among (xs ++ ys)
  Among-after [] ys h = h
  Among-after (x ∷ xs) ys h = inr (Among-after xs ys h)

  -- Without one element, the others are still there.
  pub Among-without :
      (before : List A) (x : A) (after : List A)
      → Among (before ++ x ∷ after)
      → (key_of x ≡ key) ⊎ Among (before ++ after)
  Among-without [] x after h = h
  Among-without (y ∷ before) x after (inl e) = inr (inl e)
  Among-without (y ∷ before) x after (inr h) = later (Among-without before x after h)
    where
      later :
          (key_of x ≡ key) ⊎ Among (before ++ after)
          → (key_of x ≡ key) ⊎ Among ((y ∷ before) ++ after)
      later (inl e) = inl e
      later (inr g) = inr (inr g)

abbrev pub itself : Text → Text
itself key = key

abbrev pub job_key : DeleteJob → Text
job_key job = job.key

-- The object is on its way to the cache, has a job, is being deleted, or nothing asks for it any more.
pub data Tracked (x : Shared) (key : Text) : Type 0 where
  is_uploading : Among itself key x.uploading → Tracked x key
  has_job : Among job_key key x.images.jobs → Tracked x key
  is_taken : Among job_key key x.taken → Tracked x key
  is_dropped : Among itself key x.dropped → Tracked x key

-- A due job is taken, and another stays.
sorted_out :
    (now : ℕ) (key : Text) (jobs : List DeleteJob)
    → Among job_key key jobs
    → Among job_key key (pending_jobs now jobs) ⊎ Among job_key key (due_jobs now jobs)
unfolding pending_jobs due_jobs
sorted_out now key [] h = absurd h
sorted_out now key (job ∷ jobs) h = elim (Bool-cases (ltb now job.at_time)) [
  | inl later ↦ rw later (stays (λ g. sorted_out now key jobs g) h)
  | inr due ↦ rw due (goes (λ g. sorted_out now key jobs g) h)
]
  where
    stays :
        (Among job_key key jobs
          → Among job_key key (pending_jobs now jobs) ⊎ Among job_key key (due_jobs now jobs))
        → Among job_key key (job ∷ jobs)
        → Among job_key key (job ∷ pending_jobs now jobs) ⊎ Among job_key key (due_jobs now jobs)
    stays f (inl e) = inl (inl e)
    stays f (inr g) = elim (f g) [ inl a ↦ inl (inr a) | inr b ↦ inr b ]

    goes :
        (Among job_key key jobs
          → Among job_key key (pending_jobs now jobs) ⊎ Among job_key key (due_jobs now jobs))
        → Among job_key key (job ∷ jobs)
        → Among job_key key (pending_jobs now jobs) ⊎ Among job_key key (job ∷ due_jobs now jobs)
    goes f (inl e) = inr (inl e)
    goes f (inr g) = elim (f g) [ inl a ↦ inl a | inr b ↦ inr (inr b) ]

-- A job that is taken is put back, or its object is dropped.
settled :
    (now : ℕ) (job : DeleteJob) (failure : Option Text)
    → Among job_key job.key (retried_job now job failure)
      ⊎ Among itself job.key (dropped_by job failure)
settled now job none = inr (inl refl)
settled now job (some e) = elim (Bool-cases (leb 4 job.tries)) [
  | inl often ↦ rw often (inr (inl refl))
  | inr again ↦ rw again (inl (inl refl))
]

-- An object that was tracked still is after a step.
Turn-Tracked : (x : Shared) {y : Shared} → Turn x y → (key : Text) → Tracked x key → Tracked y key
unfolding remember
Turn-Tracked x (puts k) key (is_uploading a) = is_uploading (inr a)
Turn-Tracked x (puts k) key (has_job a) = has_job a
Turn-Tracked x (puts k) key (is_taken a) = is_taken a
Turn-Tracked x (puts k) key (is_dropped a) = is_dropped a
Turn-Tracked x (remembers hash url k expires before after e) key (is_uploading a) =
    elim (Among-without itself key before k after (subst (Among itself key) e a)) [
      | inl same ↦ has_job (Among-after job_key key x.images.jobs _ (inl same))
      | inr others ↦ is_uploading others
    ]
Turn-Tracked x (remembers hash url k expires before after e) key (has_job a) =
    has_job (Among-before job_key key x.images.jobs _ a)
Turn-Tracked x (remembers hash url k expires before after e) key (is_taken a) = is_taken a
Turn-Tracked x (remembers hash url k expires before after e) key (is_dropped a) = is_dropped a
Turn-Tracked x (forgoes k before after e) key (is_uploading a) =
    elim (Among-without itself key before k after (subst (Among itself key) e a)) [
      | inl same ↦ is_dropped (inl same)
      | inr others ↦ is_uploading others
    ]
Turn-Tracked x (forgoes k before after e) key (has_job a) = has_job a
Turn-Tracked x (forgoes k before after e) key (is_taken a) = is_taken a
Turn-Tracked x (forgoes k before after e) key (is_dropped a) = is_dropped (inr a)
Turn-Tracked x (takes_due now) key (is_uploading a) = is_uploading a
Turn-Tracked x (takes_due now) key (has_job a) = elim (sorted_out now key x.images.jobs a) [
  | inl later ↦ has_job later
  | inr due ↦ is_taken (Among-after job_key key x.taken _ due)
]
Turn-Tracked x (takes_due now) key (is_taken a) = is_taken (Among-before job_key key x.taken _ a)
Turn-Tracked x (takes_due now) key (is_dropped a) = is_dropped a
Turn-Tracked x (deletes now job failure before after e) key (is_uploading a) = is_uploading a
Turn-Tracked x (deletes now job failure before after e) key (has_job a) =
    has_job (Among-before job_key key x.images.jobs _ a)
Turn-Tracked x (deletes now job failure before after e) key (is_taken a) =
    elim (Among-without job_key key before job after (subst (Among job_key key) e a)) [
      | inl same ↦ elim (settled now job failure) [
        | inl again ↦ has_job (
            Among-after job_key key x.images.jobs _
              (subst (λ k. Among job_key k (retried_job now job failure)) same again))
        | inr gone ↦ is_dropped (
            Among-before itself key (dropped_by job failure) x.dropped
              (subst (λ k. Among itself k (dropped_by job failure)) same gone))
      ]
      | inr others ↦ is_taken others
    ]
Turn-Tracked x (deletes now job failure before after e) key (is_dropped a) =
    is_dropped (Among-after itself key (dropped_by job failure) x.dropped a)

-- No job has been tried five times, whether a sweep has taken it or not, and all that was put is
-- tracked.
pub record IsKept (x : Shared) : Type 0 where
  pub scheduled : IsScheduled x.images
  pub tried : All (λ (job : DeleteJob). job.tries ≤ 4) x.taken
  pub tracked : All (Tracked x) x.placed

due_jobs-All :
    (P : DeleteJob → Type 0) (now : ℕ) (jobs : List DeleteJob)
    → All P jobs
    → All P (due_jobs now jobs)
unfolding due_jobs
due_jobs-All P now [] h = tt
due_jobs-All P now (job ∷ jobs) h =
    if_split (All P) (not (ltb now job.at_time)) (λ _. (h.0, due_jobs-All P now jobs h.1))
      (λ _. due_jobs-All P now jobs h.1)

All-without :
    (P : DeleteJob → Type 0) (before : List DeleteJob) (job : DeleteJob) (after : List DeleteJob)
    → All P (before ++ job ∷ after)
    → All P (before ++ after)
All-without P [] job after h = h.1
All-without P (x ∷ before) job after h = (h.0, All-without P before job after h.1)

abbrev Few : DeleteJob → Type 0
Few job = job.tries ≤ 4

Turn-IsScheduled :
    (x : Shared) {y : Shared} → Turn x y → IsScheduled x.images → IsScheduled y.images
Turn-IsScheduled x (puts key) s = s
Turn-IsScheduled x (remembers hash url key expires before after e) s =
    remember-IsScheduled x.images hash url key expires s
Turn-IsScheduled x (forgoes key before after e) s = s
Turn-IsScheduled x (takes_due now) s = record {
  covered = live_images-All now x.images.jobs x.images.cache s.covered;
  tried = All-map _ (λ job h. h.0) (pending_jobs-All Few now x.images.jobs s.tried);
}
Turn-IsScheduled x (deletes now job failure before after e) s = record {
  covered =
      All-map x.images.cache
        (λ entry h. HasJob-append entry.1 x.images.jobs (retried_job now job failure) h) s.covered;
  tried =
      All-append Few x.images.jobs (retried_job now job failure) s.tried
        (All-map _ (λ job h. h.0) (retried_job-All now job failure));
}

Turn-tried : (x : Shared) {y : Shared} → Turn x y → IsKept x → All Few y.taken
Turn-tried x (puts key) v = v.tried
Turn-tried x (remembers hash url key expires before after e) v = v.tried
Turn-tried x (forgoes key before after e) v = v.tried
Turn-tried x (takes_due now) v =
    All-append Few x.taken _ v.tried (due_jobs-All Few now x.images.jobs v.scheduled.tried)
Turn-tried x (deletes now job failure before after e) v =
    All-without Few before job after (subst (All Few) e v.tried)

Turn-placed :
    (x : Shared) {y : Shared} → Turn x y → All (Tracked x) x.placed → All (Tracked y) y.placed
Turn-placed x (puts key) h =
    (is_uploading (inl refl), All-map x.placed (λ k a. Turn-Tracked x (puts key) k a) h)
Turn-placed x (remembers hash url key expires before after e) h =
    All-map x.placed (λ k a. Turn-Tracked x (remembers hash url key expires before after e) k a) h
Turn-placed x (forgoes key before after e) h =
    All-map x.placed (λ k a. Turn-Tracked x (forgoes key before after e) k a) h
Turn-placed x (takes_due now) h = All-map x.placed (λ k a. Turn-Tracked x (takes_due now) k a) h
Turn-placed x (deletes now job failure before after e) h =
    All-map x.placed (λ k a. Turn-Tracked x (deletes now job failure before after e) k a) h

Turn-IsKept : (x : Shared) {y : Shared} → Turn x y → IsKept x → IsKept y
Turn-IsKept x t v = record {
  scheduled = Turn-IsScheduled x t v.scheduled;
  tried = Turn-tried x t v;
  tracked = Turn-placed x t v.tracked;
}

Turns-IsKept : {x y : Shared} → IsKept x → Turns x y → IsKept y
Turns-IsKept v at_start = v
Turns-IsKept v (then_turn {y = y} ts t) = Turn-IsKept y t (Turns-IsKept v ts)

at_first-IsKept : IsKept at_first
at_first-IsKept = record {
  scheduled = record { covered = tt; tried = tt };
  tried = tt;
  tracked = tt;
}

-- From the opening of the store on, in every interleaving of uploads and sweeps, whatever the store
-- answers: the deletion of every cached image is scheduled for the time when it expires; no job is
-- kept that was tried five times; and every object that was ever put is still on its way to the cache,
-- has a job, is being deleted, or was dropped, after a deletion that succeeded, the fifth that failed,
-- or the one that a failed signature asks for.
pub Turns-at_first-IsKept : (x : Shared) → Turns at_first x → IsKept x
Turns-at_first-IsKept x ts = Turns-IsKept at_first-IsKept ts
