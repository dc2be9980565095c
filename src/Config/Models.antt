-- ===== src/Config/Models.antt =====
-- Which models a configuration routes (basispoints/config.go).
use cliproxyapi_plugin_basis.Common.{
  ◌≡◌, refl, false, Option, some, List, [], ◌∷◌, arith, is_nil, inl, inr, ◌⊎◌, Bool-cases, All,
  if◌then◌else◌,
}
use cliproxyapi_plugin_basis.Common.Text.{
  Text, ◌=ᵗ◌, =ᵗ_iff, to_lower, trim_space, trim_space-trim_space,
}
use cliproxyapi_plugin_basis.Common.Assoc.{Assoc, lookup, lookup-insert, insert-All}
use cliproxyapi_plugin_basis.Config.{RawConfig, normalize, add_model, add_models, model_names}

-- An entry of the table of models: the key is the name in lower case, and the name is trimmed and
-- not blank.
abbrev pub IsModelEntry : Text × Text → Type 0
IsModelEntry (k, v) = (k ≡ to_lower v) × (trim_space v ≡ v) × (is_nil v ≡ false)

add_models-IsModelEntry :
    (m : Assoc Text) (names : List Text)
    → All IsModelEntry m
    → All IsModelEntry (add_models m names)
unfolding add_models
add_models-IsModelEntry m [] h = h
add_models-IsModelEntry m (n ∷ ns) h = elim (Bool-cases (is_nil (trim_space n))) [
  | inl blank ↦ add_models-IsModelEntry (add_model m n) ns (rw (blank, add_model) h)
  | inr set ↦
      add_models-IsModelEntry (add_model m n) ns
        (rw (set, add_model) (insert-All _ _ _ m (refl, trim_space-trim_space n, set) h))
]

-- Every entry of the table is in that form.
pub normalize-IsModelEntry : (raw : RawConfig) → All IsModelEntry (normalize raw).models
unfolding normalize
normalize-IsModelEntry raw = add_models-IsModelEntry [] (model_names raw.models) tt

-- `k` is the key of one of the names.
abbrev pub Listed : Text → List Text → Type 0
Listed k [] = ⊥
Listed k (n ∷ ns) = ((is_nil (trim_space n) ≡ false) × (to_lower (trim_space n) ≡ k)) ⊎ Listed k ns

abbrev IsSome : Option Text → Type 0
IsSome o = (v : Text) × (o ≡ some v)

lookup-add_model :
    (k n : Text) (m : Assoc Text)
    → lookup k (add_model m n) ≡ (
        if is_nil (trim_space n)
        then lookup k m
        else if to_lower (trim_space n) =ᵗ k
        then some (trim_space n)
        else lookup k m)
unfolding add_model
lookup-add_model k n m = ground (arith, lookup-insert (to_lower (trim_space n)) k (trim_space n) m)

add_models-keeps :
    (k : Text) (m : Assoc Text) (names : List Text)
    → IsSome (lookup k m)
    → IsSome (lookup k (add_models m names))
unfolding add_models
add_models-keeps k m [] h = h
add_models-keeps k m (n ∷ ns) (v, e) = add_models-keeps k (add_model m n) ns (kept n)
  where
    kept : (n : Text) → IsSome (lookup k (add_model m n))
    kept n = rw (lookup-add_model k n m) (elim (Bool-cases (is_nil (trim_space n))) [
      | inl blank ↦ rw blank (v, e)
      | inr set ↦ rw set (elim (Bool-cases (to_lower (trim_space n) =ᵗ k)) [
        | inl same ↦ rw same (trim_space n, refl)
        | inr other ↦ rw other (v, e)
      ])
    ])

lookup-add_models-Listed :
    (k : Text) (m : Assoc Text) (names : List Text)
    → Listed k names
    → IsSome (lookup k (add_models m names))
unfolding add_models
lookup-add_models-Listed k m [] h = absurd h
lookup-add_models-Listed k m (n ∷ ns) (inl (set, e)) =
    add_models-keeps k (add_model m n) ns
      (rw (lookup-add_model k n m, set, (=ᵗ_iff _ k).1 e) (trim_space n, refl))
lookup-add_models-Listed k m (n ∷ ns) (inr h) = lookup-add_models-Listed k (add_model m n) ns h

lookup-add_models_only :
    (k : Text) (m : Assoc Text) (names : List Text) {v : Text}
    → lookup k (add_models m names) ≡ some v
    → IsSome (lookup k m) ⊎ Listed k names
unfolding add_models
lookup-add_models_only k m [] {v} h = inl (v, h)
lookup-add_models_only k m (n ∷ ns) h = back (lookup-add_models_only k (add_model m n) ns h)
  where
    first : (v : Text) → lookup k (add_model m n) ≡ some v → IsSome (lookup k m) ⊎ Listed k (n ∷ ns)
    first v e = elim (Bool-cases (is_nil (trim_space n))) [
      | inl blank ↦ inl (v, ground (arith, lookup-add_model k n m))
      | inr set ↦ elim (Bool-cases (to_lower (trim_space n) =ᵗ k)) [
        | inl same ↦ inr (inl (set, (=ᵗ_iff _ k).0 same))
        | inr other ↦ inl (v, ground (arith, lookup-add_model k n m))
      ]
    ]

    back : IsSome (lookup k (add_model m n)) ⊎ Listed k ns → IsSome (lookup k m) ⊎ Listed k (n ∷ ns)
    back (inl (v, e)) = first v e
    back (inr l) = inr (inr l)

-- The table has a key exactly when one of the listed names, or of the defaults where the list is
-- left out, has that key; a blank name has none, and an empty list routes nothing.
pub normalize-Listed :
    (raw : RawConfig) (k : Text)
    → (Listed k (model_names raw.models) → (v : Text) × (lookup k (normalize raw).models ≡ some v))
      × ((v : Text) → lookup k (normalize raw).models ≡ some v → Listed k (model_names raw.models))
unfolding normalize lookup
normalize-Listed raw k = (
  lookup-add_models-Listed k [] (model_names raw.models),
  λ v h. elim (lookup-add_models_only k [] (model_names raw.models) h) [
    | inl (w, e) ↦ absurd (cc)
    | inr l ↦ l
  ],
)
