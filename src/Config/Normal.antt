-- ===== src/Config/Normal.antt =====
-- The normal form that `normalize` of basispoints/config.go reaches.
use cliproxyapi_plugin_basis.Common.{◌≡◌, ◌≢◌, false, none, arith, is_nil, inl, inr, Option-cases}
use cliproxyapi_plugin_basis.Common.Text.{Text, lit, ◌=ᵗ◌}
use cliproxyapi_plugin_basis.Config.{RawConfig, Config, effort_rank, known_effort, normalize}

-- No setting that the request path needs is blank, and the effort cap is a known level.
pub record IsNormal (c : Config) : Type 0 where
  pub base_url_set : is_nil c.base_url ≡ false
  pub auth_mode_set : is_nil c.auth_mode ≡ false
  pub auth_provider_set : is_nil c.auth_provider ≡ false
  pub effort_known : effort_rank c.max_effort ≢ none
  pub region_set : is_nil c.s3.region ≡ false
  pub prefix_set : is_nil c.s3.prefix ≡ false

known_effort-known : (e : Text) → effort_rank (known_effort e) ≢ none
unfolding known_effort
known_effort-known e = elim (Option-cases (effort_rank e)) [
  | inl unknown ↦ rw (unknown, known_effort) (unfold effort_rank lit ◌=ᵗ◌ in λ h. cc)
  | inr (r, known) ↦ rw (known, known_effort) (λ h. cc)
]

-- Whatever the YAML said, the configuration in force is in normal form.
pub normalize-IsNormal : (raw : RawConfig) → IsNormal (normalize raw)
unfolding normalize lit
normalize-IsNormal raw = record {
  base_url_set = ground arith;
  auth_mode_set = ground arith;
  auth_provider_set = ground arith;
  effort_known = known_effort-known _;
  region_set = ground arith;
  prefix_set = ground arith;
}
