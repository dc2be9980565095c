-- ===== src/Content/Checks.antt =====
-- What basispoints/content.go and basispoints/images.go let through.
use cliproxyapi_plugin_basis.Common.{
  ℕ, suc, ◌+◌, ◌≡◌, refl, ap, true, false, Option, none, some, List, [], ◌∷◌, is_nil, arith,
  if_split, All, length, ◌++◌, subst, Result, ok, err, ◌>>◌,
}
use cliproxyapi_plugin_basis.Common.Text.{Text, lit, ◌=ᵗ◌, =ᵗ_iff, elem, trim_space}
use cliproxyapi_plugin_basis.Json.{
  Json, string, Fields, as_object, as_string, fields_of, items_of, text_at, find_field, get_field,
}
use cliproxyapi_plugin_basis.Content.{
  Url, ImageError, ContentError, bad_image, bad_part, named_types, type_label, type_diagnostic,
  content_type_diagnostic, is_text_type, image_result, validate_url, validate_image, is_data_url,
  is_https, is_detail, validate_part, validate_parts, validate_history_content,
}

-- A part that the gateway takes: a text, or an image under an HTTPS address with a host, without a
-- user and without space around it, which is no data: address; with no file, and with a detail that
-- the gateway knows or none.
pub data IsAccepted (parse : Text → Option Url) (part : Fields) : Type 0 where
  text_part : is_text_type (text_at (lit "type") part) ≡ true → IsAccepted parse part
  image_part :
      (raw : Text) (url : Url)
      → text_at (lit "type") part ≡ lit "input_image"
      → get_field (lit "image_url") part ≡ string raw
      → is_nil raw ≡ false
      → is_data_url raw ≡ false
      → parse raw ≡ some url
      → url.scheme ≡ lit "https"
      → is_nil url.hostname ≡ false
      → url.has_user ≡ false
      → url.opaque ≡ []
      → trim_space raw ≡ raw
      → text_at (lit "file_id") part ≡ []
      → is_detail (get_field (lit "detail") part) ≡ true
      → IsAccepted parse part

-- The labels that an error may show.
abbrev pub labels : List Text
labels = lit "non_object" ∷ lit "missing" ∷ lit "non_string" ∷ lit "unknown" ∷ named_types

-- Where an error points, and what it shows.
abbrev pub PointsAt : Text → ℕ → ℕ → ContentError → Type 0
PointsAt name item index (bad_image e n i j) = (n ≡ name) × (i ≡ item) × (j ≡ index)
PointsAt name item index (bad_part label n i j) =
    (n ≡ name) × (i ≡ item) × (j ≡ index) × (elem label labels ≡ true)

elem-labels : (kind : Text) → elem kind named_types ≡ true → elem kind labels ≡ true
unfolding elem
elem-labels kind h = ground (arith, h)

label_lem : (part : Option Fields) → elem (content_type_diagnostic part) labels ≡ true
unfolding content_type_diagnostic
label_lem none = unfold elem ◌=ᵗ◌ lit in refl
label_lem (some part) = found (find_field (lit "type") part)
  where
    shown : (o : Option Text) → elem (type_label o) labels ≡ true
    shown none = unfold elem ◌=ᵗ◌ lit in refl
    shown (some kind) =
        if_split (λ l. elem l labels ≡ true) (elem kind named_types) (elem-labels kind)
          (λ _. unfold elem ◌=ᵗ◌ lit in refl)

    found : (o : Option Json) → elem (type_diagnostic o) labels ≡ true
    found none = unfold elem ◌=ᵗ◌ lit in refl
    found (some v) = shown (as_string v)

is_nil-true : (s : Text) → is_nil s ≡ true → s ≡ []
is_nil-true [] h = refl
is_nil-true (c ∷ s) h = absurd (cc)

-- A part of one of the kinds is taken.
accepted-ok :
    (parse : Text → Option Url) (name : Text) (item index : ℕ) (raw : Json)
    → IsAccepted parse (fields_of raw)
    → validate_part parse name item index raw ≡ ok tt
unfolding validate_part validate_image
accepted-ok parse name item index raw (text_part t) = rw t refl
accepted-ok parse name item index raw (image_part url u k v n d p s h user o trimmed f detail) =
    unfold elem ◌=ᵗ◌ lit in
    rw k (
      rw v (
        rw n (
          rw d (
            rw p (
              rw s (
                rw h (
                  rw user (
                    rw o
                      (rw ((=ᵗ_iff (trim_space url) url).1 trimmed) (rw f (rw detail refl)))))))))))

-- An image whose address is taken.
image_lem :
    (parse : Text → Option Url) (part : Fields) (u : Unit {0})
    → text_at (lit "type") part ≡ lit "input_image"
    → validate_image parse part ≡ ok u
    → IsAccepted parse part
unfolding validate_image
image_lem parse part u kind = read (get_field (lit "image_url") part) refl
  where
    parsed :
        (raw : Text) (o : Option Url)
        → get_field (lit "image_url") part ≡ string raw
        → parse raw ≡ o
        → is_nil raw ≡ false
        → is_data_url raw ≡ false
        → is_https raw o ≡ true
        → is_nil (text_at (lit "file_id") part) ≡ true
        → is_detail (get_field (lit "detail") part) ≡ true
        → IsAccepted parse part
    parsed raw none v p n d h f t = absurd (cc)
    parsed raw (some url) v p n d h f t =
        image_part raw url kind v n d p (ground (arith, h, =ᵗ_iff url.scheme (lit "https")))
          (ground (arith, h)) (ground (arith, h)) (is_nil-true url.opaque (ground (arith, h)))
          (ground (arith, h, =ᵗ_iff (trim_space raw) raw))
          (is_nil-true (text_at (lit "file_id") part) f) t

    checked :
        (raw : Text)
        → get_field (lit "image_url") part ≡ string raw
        → validate_url parse part (some raw) ≡ ok u
        → IsAccepted parse part
    checked raw v h =
        parsed raw (parse raw) v refl (ground (arith, h)) (ground (arith, h)) (ground (arith, h))
          (ground (arith, h)) (ground (arith, h))

    read :
        (v : Json)
        → get_field (lit "image_url") part ≡ v
        → validate_url parse part (as_string v) ≡ ok u
        → IsAccepted parse part
    read (string raw) v h = checked raw v h
    read _ v h = absurd (cc)

abbrev PartResult :
    (Text → Option Url) → Text → ℕ → ℕ → Fields → Result ContentError (Unit {0}) → Type 0
PartResult parse name item index part (ok u) = IsAccepted parse part
PartResult parse name item index part (err e) = PointsAt name item index e

part_lem :
    (parse : Text → Option Url) (name : Text) (item index : ℕ) (raw : Json)
    → PartResult parse name item index (fields_of raw) (validate_part parse name item index raw)
unfolding validate_part
part_lem parse name item index raw =
    if_split P (is_text_type kind) (λ t. text_part t)
      (λ _.
        if_split P (kind =ᵗ lit "input_image")
          (λ image.
            given ((=ᵗ_iff kind (lit "input_image")).0 image) (validate_image parse part) refl)
          (λ _. (refl, refl, refl, label_lem (as_object raw))))
  where
    part : Fields
    part = fields_of raw

    kind : Text
    kind = text_at (lit "type") part

    P : Result ContentError (Unit {0}) → Type 0
    P = PartResult parse name item index part

    given :
        kind ≡ lit "input_image"
        → (r : Result ImageError (Unit {0})) → validate_image parse part ≡ r
        → P (image_result name item index r)
    given k (ok u) h = image_lem parse part u k h
    given k (err e) h = (refl, refl, refl)

abbrev pub Accepted : (Text → Option Url) → Json → Type 0
Accepted parse raw = IsAccepted parse (fields_of raw)

-- What a check of parts, the first of which has the index `start`, promises.
abbrev pub PartsResult :
    (Text → Option Url) → Text → ℕ → ℕ → List Json → Result ContentError (Unit {0}) → Type 0
PartsResult parse name item start raws (ok u) = All (Accepted parse) raws
PartsResult parse name item start raws (err e) =
    (before after : List Json) × (raw : Json) × (raws ≡ before ++ raw ∷ after)
    × All (Accepted parse) before
    × (Accepted parse raw → ⊥)
    × PointsAt name item (start + length before) e

parts_lem :
    (parse : Text → Option Url) (name : Text) (item start : ℕ) (raws : List Json)
    → PartsResult parse name item start raws (validate_parts parse name item start raws)
unfolding validate_parts
parts_lem parse name item start [] = tt
parts_lem parse name item start (raw ∷ rest) =
    step (validate_part parse name item start raw) refl (part_lem parse name item start raw)
      (parts_lem parse name item (suc start) rest)
  where
    later :
        IsAccepted parse (fields_of raw)
        → (r : Result ContentError (Unit {0})) → PartsResult parse name item (suc start) rest r
        → PartsResult parse name item start (raw ∷ rest) r
    later a (ok u) h = (a, h)
    later a (err e) (before, after, bad, p, all, not_taken, at) = (
      raw ∷ before,
      after,
      bad,
      ap (λ xs. raw ∷ xs) p,
      (a, all),
      not_taken,
      subst (λ n. PointsAt name item n e) (omega arith) at,
    )

    step :
        (r : Result ContentError (Unit {0}))
        → validate_part parse name item start raw ≡ r
        → PartResult parse name item start (fields_of raw) r
        → PartsResult parse name item
            (suc start)
            rest
            (validate_parts parse name item (suc start) rest)
        → PartsResult parse name item start
            (raw ∷ rest)
            (r >> validate_parts parse name item (suc start) rest)
    step (ok u) p a h = later a _ h
    step (err e) p at h = (
      [],
      rest,
      raw,
      refl,
      tt,
      λ a. absurd (cc (p, accepted-ok parse name item start raw a)),
      subst (λ n. PointsAt name item n e) (omega arith) at,
    )

-- The check of a content passes only where every part is taken: a text, or an image under an HTTPS
-- address with a host, without a user and without space around it, which is no data: address, with no
-- file, and with a known detail or none. Otherwise its error points at the item, the field and the
-- first part that is not so, and the type that it shows is one of the fixed labels.
pub validate_history_content-All :
    (parse : Text → Option Url) (value : Json) (item : ℕ) (name : Text)
    → PartsResult parse name item 0
        (items_of value)
        (validate_history_content parse value item name)
unfolding validate_history_content
validate_history_content-All parse value item name = parts_lem parse name item 0 (items_of value)
