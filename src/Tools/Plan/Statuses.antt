-- ===== src/Tools/Plan/Statuses.antt =====
-- The client's status for the status of a native step (basispoints/plan.go).
use cliproxyapi_plugin_basis.Common.{
  Bool, ◌||◌, ◌==◌, if◌then◌else◌, ◌++◌, true, false, Option, some, List, [], ◌∷◌, ◌≡◌, refl, ◌∙◌,
  ◌⊎◌, inl, inr, arith, is_nil, if_split, map,
}
use cliproxyapi_plugin_basis.Common.Text.{Text, lit, ◌=ᵗ◌, elem, trim_space, to_lower}
use cliproxyapi_plugin_basis.Common.Assoc.{Assoc, lookup}
use cliproxyapi_plugin_basis.Tools.Plan.{
  underscored, pending_words, progress_words, completed_words, normalize_native_plan_status,
}

-- The client's status for each word that the model uses.
abbrev pub statuses : Assoc Text
statuses =
    (lit "pending", lit "pending")
    ∷ (lit "not_started", lit "pending")
    ∷ (lit "todo", lit "pending")
    ∷ (lit "planned", lit "pending")
    ∷ (lit "queued", lit "pending")
    ∷ (lit "blocked", lit "pending")
    ∷ (lit "in_progress", lit "in_progress")
    ∷ (lit "active", lit "in_progress")
    ∷ (lit "started", lit "in_progress")
    ∷ (lit "doing", lit "in_progress")
    ∷ (lit "current", lit "in_progress")
    ∷ (lit "completed", lit "completed")
    ∷ (lit "complete", lit "completed")
    ∷ (lit "done", lit "completed")
    ∷ (lit "finished", lit "completed")
    ∷ []

-- A word in lower case, with `_` for a space or a hyphen inside it.
abbrev pub plain_word : Text → Text
plain_word word = map (λ c. if c == b' ' || c == b'-' then b'_' else c) (to_lower (trim_space word))

lookup-elem :
    (status : Text) (words : List Text) (word : Text) (rest : Assoc Text)
    → (elem word words ≡ true → lookup word (map (λ w. (w, status)) words ++ rest) ≡ some status)
      × (elem word words ≡ false
          → lookup word (map (λ w. (w, status)) words ++ rest) ≡ lookup word rest)
unfolding elem lookup
lookup-elem status [] word rest = (λ h. absurd (cc), λ h. refl)
lookup-elem status (w ∷ words) word rest =
    let (found, missed) = lookup-elem status words word rest in by_word (w =ᵗ word) found missed
  where
    by_word :
        {later : Bool} {o p : Option Text} (b : Bool)
        → (later ≡ true → o ≡ some status)
        → (later ≡ false → o ≡ p)
        → ((b || later) ≡ true → (if b then some status else o) ≡ some status)
          × ((b || later) ≡ false → (if b then some status else o) ≡ p)
    by_word true f g = (λ h. refl, λ h. absurd (cc))
    by_word false f g = (f, g)

pub normalize_native_plan_status-lookup :
    (status : Text)
    → (is_nil (normalize_native_plan_status status) ≡ true)
      ⊎ (lookup (map underscored (to_lower (trim_space status))) statuses
          ≡ some (normalize_native_plan_status status))
unfolding normalize_native_plan_status
normalize_native_plan_status-lookup status =
    let (in_pending, not_pending) = lookup-elem (lit "pending") pending_words word after_pending in
    let (in_progress, not_progress) =
      lookup-elem (lit "in_progress") progress_words word after_progress in
    let (in_completed, not_completed) = lookup-elem (lit "completed") completed_words word [] in
    if_split P (elem word pending_words) (λ h. inr (in_pending h))
      (λ a.
        if_split P (elem word progress_words) (λ h. inr (not_pending a ∙ in_progress h))
          (λ b.
            if_split P (elem word completed_words)
              (λ h. inr (not_pending a ∙ (not_progress b ∙ in_completed h))) (λ _. inl refl)))
  where
    word : Text
    word = map underscored (to_lower (trim_space status))

    after_progress : Assoc Text
    after_progress = map (λ w. (w, lit "completed")) completed_words ++ []

    after_pending : Assoc Text
    after_pending = map (λ w. (w, lit "in_progress")) progress_words ++ after_progress

    P : Text → Type 0
    P s = (is_nil s ≡ true) ⊎ (lookup word statuses ≡ some s)

pub map-plain :
    (s : Text) → map underscored s ≡ map (λ c. if c == b' ' || c == b'-' then b'_' else c) s
map-plain [] = refl
map-plain (c ∷ s) = cc (same (c == b' ') (c == b'-'), map-plain s)
  where
    same : (a b : Bool) → (if b || a then b'_' else c) ≡ (if a || b then b'_' else c)
    same true true = refl
    same true false = refl
    same false b = ground arith
