-- ===== src/Common/Assoc.antt =====
-- A Go map with text keys whose entries the code walks: an association list, newest key last.
use mathlib.Core.Path.{◌≡◌, refl}
use mathlib.Core.Logic.{inl, inr}
use mathlib.Core.Bool.{true}
use mathlib.Core.Option.{Option, none, some}
use mathlib.Core.List.{List, [], ◌∷◌}
use native.Mathlib.Omega.{arith}
use cliproxyapi_plugin_basis.Common.Tests.{if◌then◌else◌, Bool-cases}
use cliproxyapi_plugin_basis.Common.Lists.{All}
use cliproxyapi_plugin_basis.Common.Text.{Text, ◌=ᵗ◌, =ᵗ_iff, =ᵗ_refl}

abbrev pub Assoc {ℓ} : Type ℓ → Type ℓ
Assoc V = List (Text × V)

module _ {ℓ} {V : Type ℓ} where
  unfoldable pub lookup : Text → Assoc V → Option V
  lookup k [] = none
  lookup k ((j, v) ∷ m) = if j =ᵗ k then some v else lookup k m

  unfoldable pub insert : Text → V → Assoc V → Assoc V
  insert k v [] = (k, v) ∷ []
  insert k v ((j, w) ∷ m) = if j =ᵗ k then (j, v) ∷ m else (j, w) ∷ insert k v m

  pub lookup-insert :
      (k j : Text) (v : V) (m : Assoc V)
      → lookup j (insert k v m) ≡ (if k =ᵗ j then some v else lookup j m)
  unfolding lookup insert
  lookup-insert k j v [] = refl
  lookup-insert k j v ((i, w) ∷ m) =
      ground (arith, =ᵗ_iff k j, =ᵗ_iff i k, =ᵗ_iff i j, lookup-insert k j v m)

  pub lookup-insert_self : (k : Text) (v : V) (m : Assoc V) → lookup k (insert k v m) ≡ some v
  lookup-insert_self k v m = ground (arith, lookup-insert k k v m, =ᵗ_refl k)

  module _ {κ} (P : Text × V → Type κ) where
    -- A law of the entries passes to what a lookup returns.
    pub lookup-All : (k : Text) (m : Assoc V) {v : V} → All P m → lookup k m ≡ some v → P (k, v)
    unfolding lookup
    lookup-All k [] h e = absurd (cc)
    lookup-All k ((j, w) ∷ m) {v} h e = elim (Bool-cases (j =ᵗ k)) [
      | inl same ↦ same_key ((=ᵗ_iff j k).0 same) (some_value same e) h.0
      | inr other ↦ lookup-All k m h.1 (ground arith)
    ]
      where
        some_value : (j =ᵗ k) ≡ true → lookup k ((j, w) ∷ m) ≡ some v → w ≡ v
        some_value same e = ground arith

        same_key : j ≡ k → w ≡ v → P (j, w) → P (k, v)
        same_key p q x = rw (← p, ← q) x

    pub insert-All : (k : Text) (v : V) (m : Assoc V) → P (k, v) → All P m → All P (insert k v m)
    unfolding insert
    insert-All k v [] h hs = (h, tt)
    insert-All k v ((j, w) ∷ m) h hs = elim (Bool-cases (j =ᵗ k)) [
      | inl same ↦ rw same (rw ((=ᵗ_iff j k).0 same) h, hs.1)
      | inr other ↦ rw other (hs.0, insert-All k v m h hs.1)
    ]
