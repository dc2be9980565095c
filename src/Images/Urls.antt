-- ===== src/Images/Urls.antt =====
-- The data URLs of inline images (basispoints/image_upload.go).
pub mod Pictures
pub mod Accepted
use cliproxyapi_plugin_basis.Common.{
  ℕ, zero, suc, refl, sym, ap, ◌∙◌, ◌++◌, Bool-cases, inl, inr, ◌+◌, ◌*◌, ◌/◌, ◌^◌, ◌≤◌, ◌<◌, ◌≡◌,
  Bool, true, false, not, ◌&&◌, ◌||◌, Option, none, some, List, [], ◌∷◌, is_nil, arith, ltb, leb,
  if◌then◌else◌, length, take, drop, Result, ok, err, ◌-◌, if_split, subst,
}
use cliproxyapi_plugin_basis.Common.Text.{
  Text, lit, ◌=ᵗ◌, =ᵗ_iff, trim_space, to_lower, equal_fold, elem,
}
use cliproxyapi_plugin_basis.Common.Split.{cut_at}

abbrev pub max_inline_image_bytes : ℕ
max_inline_image_bytes = 20 * 2 ^ 20

-- base64.StdEncoding.EncodedLen
abbrev pub encoded_len : ℕ → ℕ
encoded_len n = (n + 2) / 3 * 4

abbrev pub image_types : List Text
image_types = lit "image/png" ∷ lit "image/jpeg" ∷ lit "image/gif" ∷ lit "image/webp" ∷ []

-- The bytes by which a picture of a type begins.
unfoldable pub image_magic : Text → Text → Bool
image_magic content_type body =
    if content_type =ᵗ lit "image/png"
    then take 8 body =ᵗ (137 ∷ lit "PNG\r\n\u{1a}\n")
    else if content_type =ᵗ lit "image/jpeg"
    then take 3 body =ᵗ (255 ∷ 216 ∷ 255 ∷ [])
    else if content_type =ᵗ lit "image/gif"
    then take 6 body =ᵗ lit "GIF87a" || take 6 body =ᵗ lit "GIF89a"
    else if content_type =ᵗ lit "image/webp"
    then leb 12 (length body) && take 4 body =ᵗ lit "RIFF" && take 4 (drop 8 body) =ᵗ lit "WEBP"
    else false

-- Why an inline image is refused.
pub data ImageError : Type 0 where
  no_base64_url wrong_type too_large invalid_base64 wrong_contents : ImageError

-- The decoder is encoding/base64.
module _ (decode : Text → Option Text) where
  decoded_image : Text → Option Text → Result ImageError (Text × Text)
  decoded_image content_type none = err invalid_base64
  decoded_image content_type (some body) =
      if is_nil body || ltb max_inline_image_bytes (length body)
      then err invalid_base64
      else if not (image_magic content_type body)
      then err wrong_contents
      else ok (content_type, body)

  split_image : Option (Text × Text) → Result ImageError (Text × Text)
  unfolding decoded_image
  split_image none = err no_base64_url
  split_image (some (header, payload)) =
      let n = length header - 7 in
      let content_type = to_lower (trim_space (take n header)) in
      if ltb (length header) 7 || not (drop n (to_lower header) =ᵗ lit ";base64")
      then err no_base64_url
      else if not (elem content_type image_types)
      then err wrong_type
      else if is_nil payload || ltb (encoded_len max_inline_image_bytes) (length payload)
      then err too_large
      else decoded_image content_type (decode payload)

  -- `decodeDataImage`
  unfoldable pub decode_data_image : Text → Result ImageError (Text × Text)
  unfolding split_image
  decode_data_image raw =
      let url = trim_space raw in
      if ltb (length url) 5 || not (equal_fold (take 5 url) (lit "data:"))
      then err no_base64_url
      else split_image (cut_at (lit ",") (drop 5 url))
