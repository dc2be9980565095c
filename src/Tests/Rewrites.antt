-- ===== src/Tests/Rewrites.antt =====
-- `rewriteImages` of basispoints/image_upload.go on a request with one inline image.
use cliproxyapi_plugin_basis.Common.{ℕ, ◌+◌, ◌≡◌, refl, true, none, some, [], ◌∷◌, ◌++◌, ok}
use cliproxyapi_plugin_basis.Common.Int.{pos}
use cliproxyapi_plugin_basis.Common.Assoc.{lookup}
use cliproxyapi_plugin_basis.Common.Split.{cut_at}
use cliproxyapi_plugin_basis.Common.Text.{
  Text, lit, ◌=ᵗ◌, trim_space, trim_right, trim_left, equal_fold, elem, contains, to_lower,
  cut_prefix, has_prefix,
}
use cliproxyapi_plugin_basis.Json.{
  array, object, object_of, of_list, Coding, get_field, set_field, text_at, ltb_text,
}
use cliproxyapi_plugin_basis.Images.{Store, upload}
use cliproxyapi_plugin_basis.Images.Urls.{decode_data_image, image_magic}
use cliproxyapi_plugin_basis.Images.Rewrite.{
  Rewritten, rewrite_images, with_uploader, rewrite_source, rewrite_items, rewrite_parts,
  rewrite_part, bytes_contain_data_image,
}
use cliproxyapi_plugin_basis.Images.Rewrite.Tally.{counted, uncounted}
use cliproxyapi_plugin_basis.Images.Rewrite.Bounded.{Ends, rewrite_images-Ends}
use cliproxyapi_plugin_basis.Tests.Calling.{text_field, coding}
use cliproxyapi_plugin_basis.Tests.Uploads.{one_image, one_image-IsScheduled}

abbrev payload : Text
payload = lit "data:image/"

-- {"input":[{"content":[{"image_url":"data:image/gif;base64,GIF89a","type":"input_image"}]}]}
abbrev imaged : Coding
imaged = record coding {
  decode = λ t. some (
      object (
        object_of (
          (
            lit "input",
            array (
                of_list (
                  object (
                    object_of (
                      (
                        lit "content",
                        array (
                            of_list (
                              object (
                                object_of (
                                  text_field "image_url" "data:image/gif;base64,GIF89a"
                                  ∷ text_field "type" "input_image"
                                  ∷ []))
                              ∷ [])),
                      )
                      ∷ []))
                  ∷ [])),
          )
          ∷ [])));
  encode = λ v. lit "rewritten";
}

-- A store whose state counts the uploads.
abbrev counting_store : Store
counting_store = record {
  State = ℕ;
  put = λ key content_type body n. (none, n + 1);
  presign = λ key ttl n. (ok (lit "https://x/" ++ key), n);
  delete = λ key n. (none, n);
  clock = λ n. (1000, n);
  random_hex = λ n. (lit "00", n);
  digest = λ body. body;
}

abbrev rewritten : Rewritten ℕ Text
rewritten =
    rewrite_images counting_store (λ payload. some payload) (pos 5) imaged true payload (ok true)
      one_image 0

one_uploaded :
    (rewritten.0 ≡ ok (lit "rewritten"))
    × (rewritten.1.count ≡ 1)
    × (rewritten.1.total ≡ 6)
    × (rewritten.1.state ≡ 1)
unfolding rewrite_images with_uploader rewrite_source rewrite_items rewrite_parts rewrite_part
    bytes_contain_data_image contains to_lower lit cut_prefix has_prefix get_field object_of
    set_field ◌=ᵗ◌ text_at ltb_text trim_space trim_right trim_left decode_data_image equal_fold
    lookup cut_at elem image_magic upload
one_uploaded = (refl, refl, refl, refl)

rewrite_images-Ends_example : Ends (
    (rewrite_images
      (counted counting_store)
      (λ payload. some payload)
      (pos 5)
      imaged
      true
      payload
      (ok true)
      one_image
      (uncounted 0)).1)
rewrite_images-Ends_example =
    rewrite_images-Ends counting_store (λ payload. some payload) (pos 5) imaged true payload
      (ok true) one_image 0 one_image-IsScheduled
