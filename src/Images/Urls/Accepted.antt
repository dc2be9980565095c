-- ===== src/Images/Urls/Accepted.antt =====
-- What `decodeDataImage` of basispoints/image_upload.go accepts.
use cliproxyapi_plugin_basis.Common.{
  ℕ, zero, suc, sym, append_assoc, ap, ◌∙◌, ◌++◌, map, true, refl, ◌*◌, ◌^◌, ◌≤◌, ◌<◌, ◌≡◌, false,
  not, ◌||◌, Option, none, some, [], ◌∷◌, is_nil, arith, ltb, if◌then◌else◌, length, take, drop,
  Result, ok, err, ◌-◌, if_split, subst,
}
use cliproxyapi_plugin_basis.Common.Text.{
  Text, lit, ◌=ᵗ◌, =ᵗ_iff, lower_byte, trim_space, to_lower, equal_fold, elem,
}
use cliproxyapi_plugin_basis.Common.Split.{cut_at, cut_at_sound}
use cliproxyapi_plugin_basis.Images.Urls.{
  max_inline_image_bytes, encoded_len, image_types, image_magic, ImageError, no_base64_url,
  decoded_image, split_image, decode_data_image,
}
use cliproxyapi_plugin_basis.Images.Urls.Pictures.{IsPicture, take-drop, image_magic-IsPicture}

drop-map : (n : ℕ) (f : ℕ → ℕ) (s : Text) → drop n (map f s) ≡ map f (drop n s)
drop-map zero f s = refl
drop-map (suc n) f [] = refl
drop-map (suc n) f (c ∷ s) = drop-map n f s

module _ (decode : Text → Option Text) where
  -- The parts of a data URL: `data:`, the type, `;base64` and a comma, and what the decoder reads; the
  -- letters of the first three may be capitals.
  abbrev pub Spells : Text → Text → Text → Type 0
  Spells url content_type body =
      (scheme declared marker payload : Text) × (url
        ≡ scheme ++ (declared ++ (marker ++ (lit "," ++ payload))))
      × (to_lower scheme ≡ lit "data:")
      × (content_type ≡ to_lower (trim_space declared))
      × (to_lower marker ≡ lit ";base64")
      × (decode payload ≡ some body)

  -- What an accepted image is: a picture of the type that the URL declares, which the decoder gives,
  -- of 1 byte to 20 MiB.
  abbrev pub Accepted : Text → Result ImageError (Text × Text) → Type 0
  Accepted url (err e) = Unit
  Accepted url (ok (content_type, body)) =
      IsPicture content_type body
      × Spells url content_type body
      × (0 < length body)
      × (length body ≤ 20 * 2 ^ 20)

  decoded_image-Accepted :
      (url content_type : Text) (o : Option Text)
      → ((body : Text) → o ≡ some body → Spells url content_type body)
      → Accepted url (decoded_image decode content_type o)
  unfolding decoded_image
  decoded_image-Accepted url content_type none p = tt
  decoded_image-Accepted url content_type (some body) p =
      if_split (Accepted url) (is_nil body || ltb max_inline_image_bytes (length body)) (λ _. tt)
        (λ sized.
          if_split (Accepted url) (not (image_magic content_type body)) (λ _. tt)
            (λ magic. (
              image_magic-IsPicture content_type body (ground (arith, magic)),
              p body refl,
              nonempty body sized,
              ground (arith, sized),
            )))
    where
      nonempty :
          (body : Text)
          → (is_nil body || ltb max_inline_image_bytes (length body)) ≡ false
          → 0 < length body
      nonempty [] h = absurd (cc)
      nonempty (c ∷ body) h = omega arith

  -- The parts of a URL that has a header.
  parts_lem :
      (url header payload body : Text)
      → equal_fold (take 5 url) (lit "data:") ≡ true
      → drop 5 url ≡ header ++ lit "," ++ payload
      → (drop (length header - 7) (to_lower header) =ᵗ lit ";base64") ≡ true
      → decode payload ≡ some body
      → Spells url (to_lower (trim_space (take (length header - 7) header))) body
  unfolding equal_fold to_lower
  parts_lem url header payload body folded cut marked decoded = (
    take 5 url,
    take n header,
    drop n header,
    payload,
    sym (take-drop 5 url) ∙ ap (λ t. take 5 url ++ t) (cut ∙ split),
    (=ᵗ_iff (to_lower (take 5 url)) (to_lower (lit "data:"))).0 folded
        ∙ unfold to_lower lit in refl,
    refl,
    sym (drop-map n lower_byte header)
        ∙ (=ᵗ_iff (drop n (to_lower header)) (lit ";base64")).0 marked,
    decoded,
  )
    where
      n : ℕ
      n = length header - 7

      split :
          header ++ lit "," ++ payload ≡ take n header ++ (drop n header ++ (lit "," ++ payload))
      split =
          append_assoc header (lit ",") payload
          ∙ ap (λ t. t ++ (lit "," ++ payload)) (sym (take-drop n header))
          ∙ append_assoc (take n header) (drop n header) (lit "," ++ payload)

  split_image-Accepted :
      (url : Text) (o : Option (Text × Text))
      → equal_fold (take 5 url) (lit "data:") ≡ true
      → cut_at (lit ",") (drop 5 url) ≡ o
      → Accepted url (split_image decode o)
  unfolding split_image
  split_image-Accepted url none folded cut = tt
  split_image-Accepted url (some (header, payload)) folded cut =
      let n = length header - 7 in
      let content_type = to_lower (trim_space (take n header)) in
      if_split (Accepted url)
        (ltb (length header) 7 || not (drop n (to_lower header) =ᵗ lit ";base64")) (λ _. tt)
        (λ marked.
          if_split (Accepted url) (not (elem content_type image_types)) (λ _. tt)
            (λ _.
              if_split (Accepted url)
                (is_nil payload || ltb (encoded_len max_inline_image_bytes) (length payload))
                (λ _. tt)
                (λ _. decoded_image-Accepted url content_type (decode payload) (λ body.
                  parts_lem url header payload body folded
                    (cut_at_sound (lit ",") (drop 5 url) header payload cut)
                    (ground (arith, marked))))))

  -- A data URL is accepted only where it is `data:`, one of the types PNG, JPEG, GIF and WebP,
  -- `;base64`, a comma and a text from which the decoder gives contents that begin with the signature
  -- of that type and have from 1 byte to 20 MiB, with space around the URL and the type or not, and
  -- in capitals or not.
  pub decode_data_image-Accepted :
      (raw content_type body : Text)
      → decode_data_image decode raw ≡ ok (content_type, body)
      → IsPicture content_type body
        × Spells (trim_space raw) content_type body
        × (0 < length body)
        × (length body ≤ 20 * 2 ^ 20)
  unfolding decode_data_image
  decode_data_image-Accepted raw content_type body h =
      subst (Accepted (trim_space raw)) h (all (trim_space raw))
    where
      all :
          (url : Text)
          → Accepted url (
              if ltb (length url) 5 || not (equal_fold (take 5 url) (lit "data:"))
              then err no_base64_url
              else split_image decode (cut_at (lit ",") (drop 5 url)))
      all url =
          if_split (Accepted url)
            (ltb (length url) 5 || not (equal_fold (take 5 url) (lit "data:"))) (λ _. tt)
            (λ folded.
              split_image-Accepted url (cut_at (lit ",") (drop 5 url)) (ground (arith, folded))
                refl)
