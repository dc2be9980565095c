-- ===== src/Config/Clamp.antt =====
-- The effort cap of basispoints/config.go: `clampEffort`.
use cliproxyapi_plugin_basis.Common.{
  ℕ, ◌≡◌, refl, false, none, some, arith, is_nil, min, inl, inr, Option-cases,
}
use cliproxyapi_plugin_basis.Common.Text.{Text, lit, trim_space, to_lower, ◌=ᵗ◌}
use cliproxyapi_plugin_basis.Config.{
  effort_rank, effective_cap, max_rank, clamp_effort, default_max_effort,
}

default_known : effort_rank default_max_effort ≡ some 5
unfolding effort_rank lit ◌=ᵗ◌
default_known = refl

effective_cap-known : (m : Text) → (r : ℕ) × (effort_rank (effective_cap m) ≡ some r)
unfolding effective_cap
effective_cap-known m = elim (Option-cases (effort_rank (to_lower (trim_space m)))) [
  | inl unknown ↦ (5, rw (unknown, effective_cap) default_known)
  | inr (r, known) ↦ (r, rw (known, effective_cap) known)
]

-- The cap in force is always a known level.
pub effort_rank-effective_cap : (m : Text) → effort_rank (effective_cap m) ≡ some (max_rank m)
effort_rank-effective_cap m =
    let (r, e) = effective_cap-known m in unfold max_rank in rw (e, max_rank)

-- A wanted effort that is not blank is clamped to a known level whose rank is at most the cap's:
-- the smaller of the two ranks where the wanted level is known, and the cap where it is not.
pub clamp_effort-capped :
    (effort max_effort : Text)
    → is_nil (to_lower (trim_space effort)) ≡ false
    → (r : ℕ) × (effort_rank (clamp_effort effort max_effort) ≡ some r)
      × (r ≡ elim (effort_rank (to_lower (trim_space effort))) [
        | none ↦ max_rank max_effort
        | some wanted ↦ min wanted (max_rank max_effort)
      ])
unfolding clamp_effort
clamp_effort-capped effort max_effort h =
    elim (Option-cases (effort_rank (to_lower (trim_space effort)))) [
      | inl unknown ↦ (
        max_rank max_effort,
        ground (arith, unknown, effort_rank-effective_cap max_effort),
        ground (arith, unknown),
      )
      | inr (w, known) ↦ (
        min w (max_rank max_effort),
        ground (arith, known, effort_rank-effective_cap max_effort),
        ground (arith, known),
      )
    ]
