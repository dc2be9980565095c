-- ===== src/Tests/Configs.antt =====
-- basispoints/config.go and basispoints/wire.go on concrete configurations.
use cliproxyapi_plugin_basis.Scheduler.{sort}
use cliproxyapi_plugin_basis.Common.{
  ℕ, ◌≡◌, ◌≢◌, refl, true, false, Option, none, some, List, [], ◌∷◌, is_nil, inl, min,
  if◌then◌else◌,
}
use cliproxyapi_plugin_basis.Common.Int.{pos, negsuc}
use cliproxyapi_plugin_basis.Common.Text.{
  Text, lit, trim_space, to_lower, elem, ◌=ᵗ◌, equal_fold, trim_left, trim_right, has_prefix,
  cut_prefix,
}
use cliproxyapi_plugin_basis.Common.Assoc.{lookup, insert}
use cliproxyapi_plugin_basis.Config.{
  RawConfig, normalize, effort_rank, max_rank, clamp_effort, split_model_suffix, last_index,
}
use cliproxyapi_plugin_basis.Requests.Service.Lifecycle.{
  Notice, configured, summarized, notified, new_service, IsUsable, last_summary, notified-IsUsable,
}
use cliproxyapi_plugin_basis.Scheduler.Leases.{idle}
use cliproxyapi_plugin_basis.Config.Clamp.{clamp_effort-capped}
use cliproxyapi_plugin_basis.Config.Suffix.{with_suffix, split_model_suffix-with_suffix}
use cliproxyapi_plugin_basis.Catalogue.{
  Ascending, ids, model_infos, times, table_names, model_infos-Ascending,
}
use cliproxyapi_plugin_basis.Routing.{
  HostSummary, remember_host, resolve_model, match_configured_model,
}
use cliproxyapi_plugin_basis.Routing.Excluded.{resolve_model-configured, resolve_model-not_excluded}

-- Two models, one of them padded, and a negative limit.
abbrev raw_config : RawConfig
raw_config = record {
  base_url = lit " https://x.test/api/ ";
  auth_mode = [];
  auth_provider = lit "Codex";
  models = some (lit " GPT-A " ∷ lit "gpt-b" ∷ lit "  " ∷ []);
  max_effort = lit "High";
  max_in_flight = negsuc 2;
  min_interval = pos 5;
  cooldown = pos 0;
  image_upload = true;
  image_ttl_seconds = pos 0;
  s3 = record {
    endpoint = lit "r2.test/";
    region = [];
    bucket = lit "b";
    access_key = lit "k";
    secret_key = lit "s";
    prefix = lit "/p/";
  };
}

-- The host maps an alias to `gpt-b` and excludes `gpt-a`.
abbrev host_summary : HostSummary
host_summary = record {
  oauth_model_alias = (lit "codex", record { name = lit "gpt-b"; alias = lit "Bee" } ∷ []) ∷ [];
  excluded_models = (lit "CODEX", lit "GPT-a" ∷ []) ∷ [];
  proxy_url = [];
}

-- A text that is no YAML, and one that is read as the configuration above.
abbrev read_settings : Text → Option RawConfig
read_settings raw =
    if is_nil raw then none else if has_prefix raw (lit "bad") then none else some raw_config

abbrev notices : List Notice
notices = configured (lit "x") ∷ summarized host_summary ∷ configured (lit "bad") ∷ []

notified-IsUsable_example :
    IsUsable (notified read_settings notices new_service).config
    × ((notified read_settings notices new_service).sched ≡ idle.sched)
    × ((notified read_settings notices new_service).remembered
        ≡ last_summary read_settings notices
            (record { aliases = []; excluded = []; proxy_url = [] }))
notified-IsUsable_example = notified-IsUsable read_settings notices

notified_cap : (notified read_settings notices new_service).config.max_effort ≡ lit "high"
unfolding notified new_service lit has_prefix cut_prefix normalize effort_rank ◌=ᵗ◌ to_lower
    trim_space trim_right trim_left
notified_cap = refl

clamp_effort-capped_example :
    (r : ℕ) × (effort_rank (clamp_effort (lit " MAX ") (lit "high")) ≡ some r)
    × (r ≡ elim (effort_rank (to_lower (trim_space (lit " MAX ")))) [
      | none ↦ max_rank (lit "high")
      | some wanted ↦ min wanted (max_rank (lit "high"))
    ])
unfolding to_lower trim_space trim_right trim_left lit
clamp_effort-capped_example = clamp_effort-capped (lit " MAX ") (lit "high") refl

split_model_suffix-with_suffix_example :
    split_model_suffix (with_suffix (lit "gpt-a") (lit "high")) ≡ (lit "gpt-a", some (lit "high"))
unfolding trim_space last_index lit trim_right trim_left
split_model_suffix-with_suffix_example =
    split_model_suffix-with_suffix (lit "gpt-a") (lit "high") refl refl refl refl refl

resolve_model_bee :
    resolve_model (normalize raw_config) (remember_host host_summary) (lit "bee(high)")
    ≡ some (lit "gpt-b")
unfolding resolve_model match_configured_model trim_space trim_right trim_left split_model_suffix
    lit elem remember_host equal_fold ◌=ᵗ◌ to_lower lookup normalize insert
resolve_model_bee = refl

resolve_model-configured_example :
    (lookup (to_lower (lit "gpt-b")) (normalize raw_config).models ≡ some (lit "gpt-b"))
    × (trim_space (lit "gpt-b") ≡ lit "gpt-b")
    × (is_nil (lit "gpt-b") ≡ false)
    × (elem (to_lower (lit "gpt-b")) (remember_host host_summary).excluded ≡ false)
resolve_model-configured_example =
    resolve_model-configured raw_config (remember_host host_summary) (lit "bee(high)") (lit "gpt-b")
      resolve_model_bee

resolve_model-not_excluded_example :
    resolve_model (normalize raw_config) (remember_host host_summary) (lit "x/gpt-a(low)")
    ≢ some (lit "GPT-A")
unfolding equal_fold to_lower trim_space ◌=ᵗ◌ lit trim_right trim_left
resolve_model-not_excluded_example =
    resolve_model-not_excluded raw_config host_summary (lit "x/gpt-a(low)") (lit "GPT-A")
      (inl (refl, inl (refl, refl)))

model_infos-Ascending_example :
    Ascending (ids (model_infos (normalize raw_config)))
    × ((k : Text)
        → times k (ids (model_infos (normalize raw_config)))
          ≡ times k (table_names (normalize raw_config).models))
model_infos-Ascending_example = model_infos-Ascending (normalize raw_config)

model_infos_sorted : ids (model_infos (normalize raw_config)) ≡ lit "GPT-A" ∷ lit "gpt-b" ∷ []
unfolding model_infos sort normalize trim_space trim_right trim_left lit insert ◌=ᵗ◌ to_lower
model_infos_sorted = refl
