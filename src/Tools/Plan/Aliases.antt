-- ===== src/Tools/Plan/Aliases.antt =====
-- The text of a native step under one of its keys: `planTextAlias` of basispoints/plan.go.
use cliproxyapi_plugin_basis.Common.{
  false, Option, none, some, List, [], ◌∷◌, ◌≡◌, refl, sym, ap, ◌∙◌, subst, ◌⊎◌, inl, inr, arith,
  is_nil, if_split, Has, Has-here, Has-there, All, Result, ok, err, >>=-All,
}
use mathlib.Core.Option.{some-injective}
use cliproxyapi_plugin_basis.Common.Text.{Text, =ᵗ_iff, trim_space}
use cliproxyapi_plugin_basis.Json.{Json, string, Fields, find_field, as_string}
use cliproxyapi_plugin_basis.Tools.{PlanError}
use cliproxyapi_plugin_basis.Tools.Plan.{
  described_step, alias_value, alias_step, alias_from, plan_text_alias,
}

-- The text is there under one of the keys, and none of them holds anything else.
abbrev pub Describes : Fields → List Text → Text → Type 0
Describes step keys description =
    All (λ key. (find_field key step ≡ none) ⊎ (find_field key step ≡ some (string description)))
      keys
    × ((key : Text) × Has key keys × (find_field key step ≡ some (string description)))

abbrev pub IfSteps : {A : Type 0} → (A → Type 0) → Result PlanError A → Type 0
IfSteps P (err e) = Unit
IfSteps P (ok a) = P a

-- What the search under the keys gives, after it has found `found`.
abbrev AliasOf : Fields → Option Text → List Text → Option Text → Type 0
AliasOf step found keys none = found ≡ none
AliasOf step found keys (some s) =
    All (λ key. (find_field key step ≡ none) ⊎ (find_field key step ≡ some (string s))) keys
    × ((found ≡ none) ⊎ (found ≡ some s))
    × ((found ≡ some s) ⊎ ((key : Text) × Has key keys × (find_field key step ≡ some (string s))))

as_string-string : (v : Json) {s : Text} → as_string v ≡ some s → v ≡ string s
as_string-string (string t) h = cc
as_string-string _ h = absurd (cc)

module _ (step : Fields) (key : Text) (keys : List Text) where
  absent-AliasOf :
      {found found' : Option Text}
      → find_field key step ≡ none
      → found' ≡ found
      → (o : Option Text) → AliasOf step found' keys o
      → AliasOf step found (key ∷ keys) o
  absent-AliasOf p q none h = sym q ∙ h
  absent-AliasOf p q (some s) (all, before, any) =
      subst (λ f. AliasOf step f (key ∷ keys) (some s)) q ((inl p, all), before, shifted any)
    where
      shifted :
          {A : Type 0}
          → A ⊎ ((k : Text) × Has k keys × (find_field k step ≡ some (string s)))
          → A ⊎ ((k : Text) × Has k (key ∷ keys) × (find_field k step ≡ some (string s)))
      shifted (inl x) = inl x
      shifted (inr (k, m, e)) = inr (k, Has-there key m, e)

  present-AliasOf :
      {found : Option Text} (t : Text)
      → find_field key step ≡ some (string t)
      → (found ≡ none) ⊎ (found ≡ some t)
      → (o : Option Text) → AliasOf step (some t) keys o
      → AliasOf step found (key ∷ keys) o
  present-AliasOf t p f none h = absurd (cc)
  present-AliasOf t p f (some s) (all, inl b, any) = absurd (cc)
  present-AliasOf {found = found} t p f (some s) (all, inr b, any) =
      ((inr here, all), same f, inr (key, Has-here key keys, here))
    where
      here : find_field key step ≡ some (string s)
      here = p ∙ ap (λ x. some (string x)) (some-injective t s b)

      same : (found ≡ none) ⊎ (found ≡ some t) → (found ≡ none) ⊎ (found ≡ some s)
      same (inl x) = inl x
      same (inr x) = inr (x ∙ b)

  lifted :
      {A B : Option Text → Type 0}
      → ((o : Option Text) → A o → B o)
      → (r : Result PlanError (Option Text)) → IfSteps A r
      → IfSteps B r
  lifted f (err e) h = tt
  lifted f (ok o) h = f o h

  alias_step-AliasOf :
      (found found' : Option Text) (o : Option Json) (r : Result PlanError (Option Text))
      → find_field key step ≡ o
      → alias_step found o ≡ ok found'
      → IfSteps (AliasOf step found' keys) r
      → IfSteps (AliasOf step found (key ∷ keys)) r
  alias_step-AliasOf found found' none r p q h = lifted (absent-AliasOf p (cc)) r h
  alias_step-AliasOf found found' (some v) r p q h = read (as_string v) found refl refl q
    where
      told : (t : Text) → as_string v ≡ some t → find_field key step ≡ some (string t)
      told t e = p ∙ ap some (as_string-string v e)

      with_text :
          (t : Text)
          → as_string v ≡ some t
          → (found ≡ none) ⊎ (found ≡ some t)
          → found' ≡ some t
          → IfSteps (AliasOf step found (key ∷ keys)) r
      with_text t e f g =
          lifted (present-AliasOf t (told t e) f) r
            (subst (λ x. IfSteps (AliasOf step x keys) r) g h)

      read :
          (candidate before : Option Text)
          → as_string v ≡ candidate
          → found ≡ before
          → alias_value before candidate ≡ ok found'
          → IfSteps (AliasOf step found (key ∷ keys)) r
      read none before e f g = absurd (cc)
      read (some t) none e f g = with_text t e (inl f) (cc)
      read (some t) (some s) e f g =
          with_text t e (inr (f ∙ ap some ((=ᵗ_iff s t).0 (ground (arith, g))))) (ground (arith, g))

alias_from-AliasOf :
    (step : Fields) (found : Option Text) (keys : List Text)
    → IfSteps (AliasOf step found keys) (alias_from step found keys)
unfolding alias_from
alias_from-AliasOf step none [] = refl
alias_from-AliasOf step (some s) [] = (tt, inr refl, inl refl)
alias_from-AliasOf step found (key ∷ keys) =
    >>=-All (IfSteps (AliasOf step found (key ∷ keys))) (alias_step found (find_field key step)) _
      (λ e. tt)
      (λ found' p.
        alias_step-AliasOf step key keys found found' (find_field key step) _ refl p
          (alias_from-AliasOf step found' keys))

-- A description that is found is not blank, and it is the one text under the keys.
pub described_step-Describes :
    (step : Fields) (keys : List Text)
    → IfSteps
        (λ s. (is_nil (trim_space s) ≡ false) × Describes step keys s)
        (described_step (plan_text_alias step keys))
unfolding plan_text_alias
described_step-Describes step keys =
    found (alias_from step none keys) (alias_from-AliasOf step none keys)
  where
    Found : Text → Type 0
    Found s = (is_nil (trim_space s) ≡ false) × Describes step keys s

    found :
        (r : Result PlanError (Option Text))
        → IfSteps (AliasOf step none keys) r
        → IfSteps Found (described_step r)
    found (err e) h = tt
    found (ok none) h = tt
    found (ok (some s)) (all, before, inl e) = absurd (cc)
    found (ok (some s)) (all, before, inr any) =
        if_split (IfSteps Found) (is_nil (trim_space s)) (λ _. tt) (λ h. (h, (all, any)))
