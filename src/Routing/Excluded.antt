-- ===== src/Routing/Excluded.antt =====
-- The exclusions of the host and the table of models in what a request resolves to
-- (basispoints/wire.go, basispoints/config.go).
use cliproxyapi_plugin_basis.Common.{
  ◌≡◌, subst, true, false, ◌||◌, some, List, [], ◌∷◌, arith, is_nil, inl, inr, ◌⊎◌, ◌≢◌, Bool-cases,
  Option-cases, if_split, if◌then◌else◌,
}
use cliproxyapi_plugin_basis.Common.Text.{Text, =ᵗ_iff, trim_space, to_lower, equal_fold, elem}
use cliproxyapi_plugin_basis.Common.Assoc.{Assoc, lookup, lookup-All}
use cliproxyapi_plugin_basis.Config.{
  Config, RawConfig, normalize, provider_codex, split_model_suffix,
}
use cliproxyapi_plugin_basis.Config.Models.{IsModelEntry, normalize-IsModelEntry}
use cliproxyapi_plugin_basis.Routing.{
  HostSummary, Remembered, remember_host, add_excluded, all_excluded, first_match, candidates,
  match_configured_model, resolve_model,
}

-- The name is in the table of models, under a key that is not excluded.
abbrev pub IsRoutable : Config → List Text → Text → Type 0
IsRoutable cfg excluded canonical =
    (key : Text) × (lookup key cfg.models ≡ some canonical) × (elem key excluded ≡ false)

first_match-IsRoutable :
    (cfg : Config) (excluded names : List Text) (c : Text)
    → first_match cfg excluded names ≡ some c
    → IsRoutable cfg excluded c
unfolding first_match
first_match-IsRoutable cfg excluded [] c h = absurd (cc)
first_match-IsRoutable cfg excluded (n ∷ ns) c h =
    elim (Bool-cases (elem (to_lower (trim_space n)) excluded)) [
      | inl out ↦ first_match-IsRoutable cfg excluded ns c (ground arith)
      | inr in_ ↦ elim (Option-cases (lookup (to_lower (trim_space n)) cfg.models)) [
        | inl missing ↦ first_match-IsRoutable cfg excluded ns c (ground arith)
        | inr (v, e) ↦ (to_lower (trim_space n), ground arith, in_)
      ]
    ]

resolve_model-IsRoutable :
    (cfg : Config) (r : Remembered) (model c : Text)
    → resolve_model cfg r model ≡ some c
    → IsRoutable cfg r.excluded c
unfolding resolve_model match_configured_model
resolve_model-IsRoutable cfg r model c h =
    let base = trim_space (split_model_suffix model).0 in
    elim (Bool-cases (is_nil base || elem (to_lower base) r.excluded)) [
      | inl out ↦ absurd (cc (rw out at h))
      | inr in_ ↦ first_match-IsRoutable cfg r.excluded (candidates base r.aliases) c (rw in_ at h)
    ]

-- What a configuration routes is one of its models, trimmed and not blank, whose name in lower
-- case is not excluded, whatever aliases the host has.
pub resolve_model-configured :
    (raw : RawConfig) (r : Remembered) (model c : Text)
    → resolve_model (normalize raw) r model ≡ some c
    → (lookup (to_lower c) (normalize raw).models ≡ some c)
      × (trim_space c ≡ c)
      × (is_nil c ≡ false)
      × (elem (to_lower c) r.excluded ≡ false)
resolve_model-configured raw r model c h =
    let (key, e, n) = resolve_model-IsRoutable (normalize raw) r model c h in
    let (k, t, b) =
      lookup-All IsModelEntry key (normalize raw).models (normalize-IsModelEntry raw) e in
    (
      subst (λ x. lookup x (normalize raw).models ≡ some c) k e,
      t,
      b,
      subst (λ x. elem x r.excluded ≡ false) k n,
    )

add_excluded-keeps :
    (k : Text) (excluded names : List Text)
    → elem k excluded ≡ true
    → elem k (add_excluded excluded names) ≡ true
unfolding add_excluded elem
add_excluded-keeps k excluded [] h = h
add_excluded-keeps k excluded (n ∷ ns) h =
    add_excluded-keeps k
      (if is_nil (to_lower (trim_space n)) then excluded else to_lower (trim_space n) ∷ excluded) ns
      (ground arith)

-- `k` is one of the names, in lower case and not blank.
abbrev pub Names : Text → List Text → Type 0
Names k [] = ⊥
Names k (n ∷ ns) =
    ((is_nil (to_lower (trim_space n)) ≡ false) × (to_lower (trim_space n) ≡ k)) ⊎ Names k ns

-- The host excludes `k` for a provider that is codex up to case.
abbrev pub Excludes : Text → Assoc (List Text) → Type 0
Excludes k [] = ⊥
Excludes k ((provider, names) ∷ rest) =
    ((equal_fold provider provider_codex ≡ true) × Names k names) ⊎ Excludes k rest

add_excluded-adds :
    (k : Text) (excluded names : List Text)
    → Names k names
    → elem k (add_excluded excluded names) ≡ true
unfolding add_excluded
add_excluded-adds k excluded [] m = absurd m
add_excluded-adds k excluded (n ∷ ns) (inl (set, e)) =
    rw set (add_excluded-keeps k (to_lower (trim_space n) ∷ excluded) ns (here e))
  where
    here : to_lower (trim_space n) ≡ k → elem k (to_lower (trim_space n) ∷ excluded) ≡ true
    here e = unfold elem in ground (arith, =ᵗ_iff (to_lower (trim_space n)) k)
add_excluded-adds k excluded (n ∷ ns) (inr m) =
    add_excluded-adds k
      (if is_nil (to_lower (trim_space n)) then excluded else to_lower (trim_space n) ∷ excluded) ns
      m

all_excluded-keeps :
    (k : Text) (excluded : List Text) (m : Assoc (List Text))
    → elem k excluded ≡ true
    → elem k (all_excluded excluded m) ≡ true
unfolding all_excluded
all_excluded-keeps k excluded [] h = h
all_excluded-keeps k excluded ((provider, names) ∷ rest) h =
    all_excluded-keeps k
      (if equal_fold provider provider_codex then add_excluded excluded names else excluded) rest
      (if_split (λ x. elem k x ≡ true) (equal_fold provider provider_codex)
        (λ _. add_excluded-keeps k excluded names h) (λ _. h))

all_excluded-adds :
    (k : Text) (excluded : List Text) (m : Assoc (List Text))
    → Excludes k m
    → elem k (all_excluded excluded m) ≡ true
unfolding all_excluded
all_excluded-adds k excluded [] e = absurd e
all_excluded-adds k excluded ((provider, names) ∷ rest) (inl (codex, named)) = rw codex (
    all_excluded-keeps k (add_excluded excluded names) rest
      (add_excluded-adds k excluded names named))
all_excluded-adds k excluded ((provider, names) ∷ rest) (inr e) =
    all_excluded-adds k
      (if equal_fold provider provider_codex then add_excluded excluded names else excluded) rest e

-- A model that the host excludes for codex is never what a request resolves to, under any of its
-- names: neither by itself, nor by an alias, a provider prefix or an effort suffix.
pub resolve_model-not_excluded :
    (raw : RawConfig) (host : HostSummary) (model c : Text)
    → Excludes (to_lower c) host.excluded_models
    → resolve_model (normalize raw) (remember_host host) model ≢ some c
unfolding remember_host
resolve_model-not_excluded raw host model c out h =
    let facts = resolve_model-configured raw (remember_host host) model c h in
    cc (facts.3, all_excluded-adds (to_lower c) [] host.excluded_models out)
