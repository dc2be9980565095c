-- ===== src/Images/Rewrite/Tally.antt =====
-- A store that counts what `Upload` of basispoints/image_upload.go asks of it.
use cliproxyapi_plugin_basis.Common.{
  ℕ, ◌+◌, ◌≤◌, Option, none, some, arith, length, Result, ok, err,
}
use cliproxyapi_plugin_basis.Common.Int.{ℤ}
use cliproxyapi_plugin_basis.Common.Text.{Text}
use cliproxyapi_plugin_basis.Images.{
  Images, Store, object_key, after_sign, after_put, store_image, upload_from, upload,
}

-- What a store has been asked for: the objects put, and the bytes of their contents.
pub record UploadTally (State : Type 0) : Type 0 where
  pub puts : ℕ
  pub bytes : ℕ
  pub inner : State

-- A store that answers as `s` does, and counts.
abbrev pub counted : Store → Store
counted s = record {
  State = UploadTally s.State;
  put = λ key content_type body st.
      let (failure, inner) = s.put key content_type body st.inner in
      (failure, record { puts = st.puts + 1; bytes = st.bytes + length body; inner = inner });
  presign = λ key ttl st.
      let (signed, inner) = s.presign key ttl st.inner in (signed, record st { inner = inner });
  delete = λ key st.
      let (failure, inner) = s.delete key st.inner in (failure, record st { inner = inner });
  clock = λ st. let (now, inner) = s.clock st.inner in (now, record st { inner = inner });
  random_hex = λ st. let (hex, inner) = s.random_hex st.inner in (hex, record st { inner = inner });
  digest = s.digest;
}

-- Nothing is counted yet.
abbrev pub uncounted : {State : Type 0} → State → UploadTally State
uncounted st = record { puts = 0; bytes = 0; inner = st }

module _ (inner : Store) where
  -- At most one object more, with the contents given.
  abbrev pub Adds : Text → UploadTally inner.State → UploadTally inner.State → Type 0
  Adds body st st' = (st'.puts ≤ st.puts + 1) × (st'.bytes ≤ st.bytes + length body)

  after_sign-Adds :
      (images : Images) (hash key body : Text) (expires : ℕ) (signed : Result Text Text)
      (start st : UploadTally inner.State)
      → Adds body start st
      → Adds body start (after_sign (counted inner) images hash key expires signed st).2
  unfolding after_sign
  after_sign-Adds images hash key body expires (err e) start st a = a
  after_sign-Adds images hash key body expires (ok url) start st a = a

  after_put-Adds :
      (images : Images) (hash key body : Text) (ttl : ℤ) (now : ℕ) (failure : Option Text)
      (start st : UploadTally inner.State)
      → Adds body start st
      → Adds body start (after_put (counted inner) images hash key ttl now failure st).2
  unfolding after_put
  after_put-Adds images hash key body ttl now (some e) start st a = a
  after_put-Adds images hash key body ttl now none start st a =
      after_sign-Adds images hash key body _ _ start _ a

  upload_from-Adds :
      (images : Images) (hash content_type body : Text) (ttl : ℤ) (now : ℕ) (hit : Option Text)
      (st : UploadTally inner.State)
      → Adds body st (upload_from (counted inner) images hash content_type body ttl now hit st).2
  unfolding upload_from store_image object_key
  upload_from-Adds images hash content_type body ttl now (some url) st = (omega arith, omega arith)
  upload_from-Adds images hash content_type body ttl now none st =
      after_put-Adds images hash drawn.0 body ttl now asked.0 st asked.1 (omega arith, omega arith)
    where
      drawn : Text × UploadTally inner.State
      drawn = object_key (counted inner) content_type st

      asked : Option Text × UploadTally inner.State
      asked = (counted inner).put drawn.0 content_type body drawn.1

  pub upload-Adds :
      (images : Images) (content_type body : Text) (ttl : ℤ) (st : UploadTally inner.State)
      → Adds body st (upload (counted inner) images content_type body ttl st).2
  unfolding upload
  upload-Adds images content_type body ttl st = upload_from-Adds images _ content_type body _ _ _ _
