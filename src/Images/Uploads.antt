-- ===== src/Images/Uploads.antt =====
-- The results of an upload, and the schedule of deletions (basispoints/image_upload.go).
use cliproxyapi_plugin_basis.Common.{
  ℕ, ◌+◌, ◌*◌, ◌≤◌, ◌<◌, ◌≡◌, refl, true, false, Option, none, some, [], ◌∷◌, ◌++◌, arith, ltb,
  All-append, All-map, inl, inr, ◌⊎◌, Result, ok, err, Bool-cases,
}
use cliproxyapi_plugin_basis.Common.Int.{ℤ, pos, negsuc, is_pos, pos_part}
use cliproxyapi_plugin_basis.Common.Text.{Text, =ᵗ_refl}
use cliproxyapi_plugin_basis.Common.Assoc.{lookup, insert-All, lookup-insert, lookup-All}
use cliproxyapi_plugin_basis.Config.{second}
use cliproxyapi_plugin_basis.Images.{
  KeptImage, DeleteJob, Images, Store, remember, after_sign, after_put, store_image, upload_from,
  upload, usable, effective_ttl,
}
use cliproxyapi_plugin_basis.Images.Schedule.{HasJob, IsScheduled, HasJob-append, HasJob-last}

pub remember-IsScheduled :
    (images : Images) (hash url key : Text) (expires : ℕ)
    → IsScheduled images
    → IsScheduled (remember images hash url key expires)
unfolding remember
remember-IsScheduled images hash url key expires s = record {
  covered =
      insert-All (λ (entry : Text × KeptImage). HasJob entry.1 (images.jobs ++ job ∷ [])) hash _
        images.cache
        (HasJob-last (record { url = url; key = key; expires = expires }) images.jobs job
          (refl, refl))
        (All-map images.cache (λ entry h. HasJob-append entry.1 images.jobs (job ∷ []) h)
          s.covered);
  tried =
      All-append (λ (job : DeleteJob). job.tries ≤ 4) images.jobs (job ∷ []) s.tried
        (omega arith, tt);
}
  where
    job : DeleteJob
    job = record { key = key; at_time = expires; tries = 0 }

is_pos-pos_part : (i : ℤ) → is_pos i ≡ true → 0 < pos_part i
is_pos-pos_part (pos n) h = ground (arith, h)
is_pos-pos_part (negsuc n) h = absurd (cc)

effective_ttl-is_pos : (ttl : ℤ) → is_pos (effective_ttl ttl) ≡ true
effective_ttl-is_pos ttl = ground arith

module _ (s : Store) where
  -- An image that a successful upload hands out is cached, has not expired and has its deletion
  -- scheduled.
  abbrev pub Serves : Text → ℕ → Result Text Text → Images → Type 0
  Serves hash now (err e) images = Unit
  Serves hash now (ok url) images =
      (kept : KeptImage) × (lookup hash images.cache ≡ some kept)
      × (kept.url ≡ url)
      × (now < kept.expires)
      × HasJob kept images.jobs

  abbrev Kept : Text → ℕ → Result Text Text × Images × s.State → Type 0
  Kept hash now x = IsScheduled x.1 × Serves hash now x.0 x.1

  after_put-Kept :
      (images : Images) (hash key : Text) (ttl : ℤ) (now : ℕ) (failure : Option Text) (st : s.State)
      → is_pos ttl ≡ true
      → IsScheduled images
      → Kept hash now (after_put s images hash key ttl now failure st)
  unfolding after_put
  after_put-Kept images hash key ttl now (some e) st p v = (v, tt)
  after_put-Kept images hash key ttl now none st p v = signed (s.presign key ttl st).0
    where
      signed :
          (r : Result Text Text)
          → Kept hash now
              (after_sign s images hash key (now + pos_part ttl) r (s.presign key ttl st).1)
      signed (err e) = (v, tt)
      signed (ok url) = (
        remember-IsScheduled images hash url key (now + pos_part ttl) v,
        (
          record { url = url; key = key; expires = now + pos_part ttl },
          ground (
            arith,
            lookup-insert hash hash (record { url = url; key = key; expires = now + pos_part ttl })
                images.cache,
            =ᵗ_refl hash,
          ),
          refl,
          omega (arith, is_pos-pos_part ttl p),
          HasJob-last (record { url = url; key = key; expires = now + pos_part ttl }) images.jobs _
              (refl, refl),
        ),
      )

  upload_from-Kept :
      (images : Images) (content_type body : Text) (ttl : ℤ) (now : ℕ) (o : Option KeptImage)
      (st : s.State)
      → is_pos ttl ≡ true
      → lookup (s.digest body) images.cache ≡ o
      → IsScheduled images
      → Kept
          (s.digest body)
          now
          (upload_from s images (s.digest body) content_type body ttl now (usable now o) st)
  unfolding upload_from store_image
  upload_from-Kept images content_type body ttl now none st p e v =
      after_put-Kept images (s.digest body) _ ttl now _ _ p v
  upload_from-Kept images content_type body ttl now (some kept) st p e v =
      by_cases (Bool-cases (ltb (now + 60 * second) kept.expires))
    where
      by_cases :
          ((ltb (now + 60 * second) kept.expires) ≡ true)
            ⊎ ((ltb (now + 60 * second) kept.expires) ≡ false)
          → Kept (s.digest body) now (
              upload_from s images
                (s.digest body)
                content_type
                body
                ttl
                now
                (usable now (some kept))
                st)
      by_cases (inl long) = rw long (
        v,
        (
          kept,
          e,
          refl,
          ground (arith, long),
          lookup-All (λ (entry : Text × KeptImage). HasJob entry.1 images.jobs) (s.digest body)
              images.cache v.covered e,
        ),
      )
      by_cases (inr short) = rw short (after_put-Kept images (s.digest body) _ ttl now _ _ p v)

  -- An upload, whatever the store answers, keeps the deletion of every cached image scheduled; and
  -- a URL that it returns is that of a cached image of the same digest, which has not expired and
  -- whose object is deleted when it expires.
  pub upload-IsScheduled :
      (images : Images) (content_type body : Text) (ttl : ℤ) (st : s.State)
      → IsScheduled images
      → IsScheduled (upload s images content_type body ttl st).1
        × Serves
            (s.digest body)
            (s.clock st).0
            (upload s images content_type body ttl st).0
            (upload s images content_type body ttl st).1
  unfolding upload
  upload-IsScheduled images content_type body ttl st v =
      upload_from-Kept images content_type body (effective_ttl ttl) (s.clock st).0
        (lookup (s.digest body) images.cache) (s.clock st).1 (effective_ttl-is_pos ttl) refl v
