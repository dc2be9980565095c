-- ===== src/Images/Urls/Pictures.antt =====
-- The signatures of the four types of pictures (basispoints/image_upload.go).
use cliproxyapi_plugin_basis.Common.{
  ℕ, zero, suc, refl, sym, ap, ◌∙◌, ◌++◌, Bool-cases, inl, inr, ◌+◌, ◌≤◌, ◌≡◌, Bool, true, [], ◌∷◌,
  arith, length, take, drop, ◌-◌, if_split, subst,
}
use cliproxyapi_plugin_basis.Common.Text.{Text, lit, ◌=ᵗ◌, =ᵗ_iff}
use cliproxyapi_plugin_basis.Images.Urls.{image_magic}

-- A picture of one of the four types: its bytes begin with the signature of the type.
pub data IsPicture (content_type body : Text) : Type 0 where
  png :
      (rest : Text)
      → content_type ≡ lit "image/png"
      → body ≡ (137 ∷ lit "PNG\r\n\u{1a}\n") ++ rest
      → IsPicture content_type body
  jpeg :
      (rest : Text)
      → content_type ≡ lit "image/jpeg"
      → body ≡ 255 ∷ 216 ∷ 255 ∷ rest
      → IsPicture content_type body
  gif87 :
      (rest : Text)
      → content_type ≡ lit "image/gif"
      → body ≡ lit "GIF87a" ++ rest
      → IsPicture content_type body
  gif89 :
      (rest : Text)
      → content_type ≡ lit "image/gif"
      → body ≡ lit "GIF89a" ++ rest
      → IsPicture content_type body
  webp :
      (size rest : Text)
      → content_type ≡ lit "image/webp"
      → length size ≡ 4
      → body ≡ lit "RIFF" ++ (size ++ (lit "WEBP" ++ rest))
      → IsPicture content_type body

pub take-drop : (n : ℕ) (s : Text) → take n s ++ drop n s ≡ s
take-drop zero s = refl
take-drop (suc n) [] = refl
take-drop (suc n) (c ∷ s) = ap (λ t. c ∷ t) (take-drop n s)

begins : (n : ℕ) (s signature : Text) → (take n s =ᵗ signature) ≡ true → s ≡ signature ++ drop n s
begins n s signature h =
    sym (take-drop n s) ∙ ap (λ t. t ++ drop n s) ((=ᵗ_iff (take n s) signature).0 h)

drop-nil : (n : ℕ) → drop {A = ℕ} n [] ≡ []
drop-nil zero = refl
drop-nil (suc n) = refl

suc-add : (m n : ℕ) → suc (m + n) ≡ suc m + n
suc-add m n = omega arith

drop-drop : (m n : ℕ) (s : Text) → drop n (drop m s) ≡ drop (m + n) s
drop-drop zero n s = ap (λ k. drop k s) (omega arith)
drop-drop (suc m) n [] = drop-nil n ∙ sym (drop-nil (suc m + n))
drop-drop (suc m) n (c ∷ s) =
    subst (λ k. drop n (drop m s) ≡ drop k (c ∷ s)) (suc-add m n) (drop-drop m n s)

length-take : (n : ℕ) (s : Text) → n ≤ length s → length (take n s) ≡ n
length-take zero s h = refl
length-take (suc n) [] h = absurd (omega arith)
length-take (suc n) (c ∷ s) h = ap suc (length-take n s (omega arith))

length-drop : (n : ℕ) (s : Text) → length (drop n s) ≡ length s - n
length-drop zero s = omega arith
length-drop (suc n) [] = omega arith
length-drop (suc n) (c ∷ s) = omega (arith, length-drop n s)

webp_lem :
    (content_type body : Text)
    → content_type ≡ lit "image/webp"
    → 12 ≤ length body
    → (take 4 body =ᵗ lit "RIFF") ≡ true
    → (take 4 (drop 8 body) =ᵗ lit "WEBP") ≡ true
    → IsPicture content_type body
webp_lem content_type body kind long riff magic =
    webp (take 4 (drop 4 body)) (drop 4 (drop 8 body)) kind
      (length-take 4 (drop 4 body) (omega (arith, long, length-drop 4 body)))
      (begins 4 body (lit "RIFF") riff
        ∙ ap (λ t. lit "RIFF" ++ t)
            (sym (take-drop 4 (drop 4 body))
              ∙ ap (λ t. take 4 (drop 4 body) ++ t)
                  (drop-drop 4 4 body ∙ begins 4 (drop 8 body) (lit "WEBP") magic)))

pub image_magic-IsPicture :
    (content_type body : Text) → image_magic content_type body ≡ true → IsPicture content_type body
unfolding image_magic
image_magic-IsPicture content_type body =
    if_split P (content_type =ᵗ lit "image/png")
      (λ k h. png (drop 8 body) (same (lit "image/png") k) (begins 8 body _ h))
      (λ _.
        if_split P (content_type =ᵗ lit "image/jpeg")
          (λ k h. jpeg (drop 3 body) (same (lit "image/jpeg") k) (begins 3 body _ h))
          (λ _.
            if_split P (content_type =ᵗ lit "image/gif")
              (λ k h. elim (Bool-cases (take 6 body =ᵗ lit "GIF87a")) [
                | inl old ↦
                    gif87 (drop 6 body) (same (lit "image/gif") k)
                      (begins 6 body (lit "GIF87a") old)
                | inr other ↦
                    gif89 (drop 6 body) (same (lit "image/gif") k)
                      (begins 6 body (lit "GIF89a") (ground (arith, h, other)))
              ])
              (λ _.
                if_split P (content_type =ᵗ lit "image/webp")
                  (λ k h.
                    webp_lem content_type body (same (lit "image/webp") k) (ground (arith, h))
                      (ground (arith, h)) (ground (arith, h)))
                  (λ _ h. absurd (cc)))))
  where
    P : Bool → Type 0
    P b = b ≡ true → IsPicture content_type body

    same : (kind : Text) → (content_type =ᵗ kind) ≡ true → content_type ≡ kind
    same kind h = (=ᵗ_iff content_type kind).0 h
