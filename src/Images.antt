-- ===== src/Images.antt =====
-- basispoints/image_upload.go: inline images become objects of a store that are deleted after a time.
-- The store, the clock and the random bytes are the record `Store`, with a state of its own.
pub mod Schedule
pub mod Uploads
pub mod Urls
pub mod Rewrite
pub mod Uploader
pub mod Interleaved
use cliproxyapi_plugin_basis.Common.{
  ℕ, ◌+◌, ◌*◌, ◌^◌, Bool, true, false, not, ◌&&◌, ◌||◌, Option, none, some, List, [], ◌∷◌, ◌++◌,
  is_nil, ltb, leb, if◌then◌else◌, length, take, drop, Result, ok, err,
}
use cliproxyapi_plugin_basis.Common.Int.{ℤ, is_pos, pos_part}
use cliproxyapi_plugin_basis.Common.Text.{Text, lit, ◌=ᵗ◌}
use cliproxyapi_plugin_basis.Common.Assoc.{Assoc, lookup, insert}
use cliproxyapi_plugin_basis.Config.{second, default_image_ttl}

-- `keptImage`
pub record KeptImage : Type 0 where
  pub url : Text
  pub key : Text
  pub expires : ℕ

-- `deleteJob`
pub record DeleteJob : Type 0 where
  pub key : Text
  pub at_time : ℕ
  pub tries : ℕ

-- The fields of `expiringImages` under its mutex.
pub record Images : Type 0 where
  pub cache : Assoc KeptImage
  pub jobs : List DeleteJob

-- `blobStore`, with what else the code asks of its surroundings. An error is its text.
pub record Store : Type 1 where
  pub State : Type 0
  pub put : Text → Text → Text → State → Option Text × State
  pub presign : Text → ℤ → State → Result Text Text × State
  pub delete : Text → State → Option Text × State
  pub clock : State → ℕ × State
  -- sixteen random bytes, in hexadecimal
  pub random_hex : State → Text × State
  -- SHA-256, in hexadecimal
  pub digest : Text → Text

pub image_extension : Text → Text
image_extension content_type =
    if content_type =ᵗ lit "image/jpeg"
    then lit ".jpg"
    else if content_type =ᵗ lit "image/gif"
    then lit ".gif"
    else if content_type =ᵗ lit "image/webp"
    then lit ".webp"
    else lit ".png"

-- A cached image is used while it has more than a minute left.
abbrev pub usable : ℕ → Option KeptImage → Option Text
usable now none = none
usable now (some kept) = if ltb (now + 60 * second) kept.expires then some kept.url else none

abbrev pub effective_ttl : ℤ → ℤ
effective_ttl ttl = if is_pos ttl then ttl else default_image_ttl

-- The image is remembered, and the deletion of its object is due when it expires.
unfoldable pub remember : Images → Text → Text → Text → ℕ → Images
remember images hash url key expires = record {
  cache = insert hash (record { url = url; key = key; expires = expires }) images.cache;
  jobs = images.jobs ++ record { key = key; at_time = expires; tries = 0 } ∷ [];
}

-- The jobs that are not due, and those that are.
unfoldable pub pending_jobs : ℕ → List DeleteJob → List DeleteJob
pending_jobs now [] = []
pending_jobs now (job ∷ jobs) =
    let rest = pending_jobs now jobs in if not (ltb now job.at_time) then rest else job ∷ rest

unfoldable pub due_jobs : ℕ → List DeleteJob → List DeleteJob
due_jobs now [] = []
due_jobs now (job ∷ jobs) =
    let rest = due_jobs now jobs in if not (ltb now job.at_time) then job ∷ rest else rest

unfoldable pub live_images : ℕ → Assoc KeptImage → Assoc KeptImage
live_images now [] = []
live_images now ((hash, kept) ∷ cache) =
    let rest = live_images now cache in
    if not (ltb now kept.expires) then rest else (hash, kept) ∷ rest

-- What is kept of a due job after its deletion: a failed one is tried again in 30 seconds, at most
-- five times in all.
abbrev pub retried_job : ℕ → DeleteJob → Option Text → List DeleteJob
retried_job now job none = []
retried_job now job (some error) =
    if leb 4 job.tries
    then []
    else record { key = job.key; at_time = now + 30 * second; tries = job.tries + 1 } ∷ []

module _ (s : Store) where
  abbrev pub Uploaded : Type 0
  Uploaded = Result Text Text × Images × s.State

  object_key : Text → s.State → Text × s.State
  unfolding image_extension
  object_key content_type st =
      let (hex, st') = s.random_hex st in (hex ++ image_extension content_type, st')

  -- After the object is signed or not: an unsigned object is deleted again.
  pub after_sign : Images → Text → Text → ℕ → Result Text Text → s.State → Uploaded
  unfolding remember
  after_sign images hash key expires (err e) st = (err e, images, (s.delete key st).1)
  after_sign images hash key expires (ok url) st =
      (ok url, remember images hash url key expires, st)

  pub after_put : Images → Text → Text → ℤ → ℕ → Option Text → s.State → Uploaded
  unfolding after_sign
  after_put images hash key ttl now (some e) st = (err e, images, st)
  after_put images hash key ttl now none st =
      let (signed, st') = s.presign key ttl st in
      after_sign images hash key (now + pos_part ttl) signed st'

  pub store_image : Images → Text → Text → Text → ℤ → ℕ → s.State → Uploaded
  unfolding after_put object_key
  store_image images hash content_type body ttl now st =
      let (key, st₁) = object_key content_type st in
      let (failure, st₂) = s.put key content_type body st₁ in
      after_put images hash key ttl now failure st₂

  upload_from : Images → Text → Text → Text → ℤ → ℕ → Option Text → s.State → Uploaded
  unfolding store_image
  upload_from images hash content_type body ttl now (some url) st = (ok url, images, st)
  upload_from images hash content_type body ttl now none st =
      store_image images hash content_type body ttl now st

  -- `Upload`
  unfoldable pub upload : Images → Text → Text → ℤ → s.State → Uploaded
  unfolding upload_from
  upload images content_type body ttl st =
      let hash = s.digest body in
      let (now, st') = s.clock st in
      upload_from images hash content_type body (effective_ttl ttl) now
        (usable now (lookup hash images.cache)) st'

  -- The second loop of `sweep`: the due objects are deleted one after another.
  unfoldable pub delete_due :
      ℕ → List DeleteJob → List DeleteJob → s.State → List DeleteJob × s.State
  delete_due now jobs [] st = (jobs, st)
  delete_due now jobs (job ∷ due) st =
      let (failure, st') = s.delete job.key st in
      delete_due now (jobs ++ retried_job now job failure) due st'

  -- `sweep`
  unfoldable pub sweep : ℕ → Images → s.State → Images × s.State
  sweep now images st =
      let (jobs, st') =
        delete_due now (pending_jobs now images.jobs) (due_jobs now images.jobs) st in
      (record { cache = live_images now images.cache; jobs = jobs }, st')
