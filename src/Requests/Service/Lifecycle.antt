-- ===== src/Requests/Service/Lifecycle.antt =====
-- The service of basispoints/service.go between requests: `New`, `Configure` and `RememberHost`, with
-- `parseConfig` of basispoints/config.go and the models that are offered; and `retryAfter`.
use cliproxyapi_plugin_basis.Common.{
  ℕ, ◌-◌, ◌≡◌, refl, ap, ◌∙◌, Bool, true, false, Option, none, some, List, [], ◌∷◌, is_nil, ltb,
  if◌then◌else◌, if_split, All,
}
use cliproxyapi_plugin_basis.Common.Assoc.{Assoc}
use cliproxyapi_plugin_basis.Common.Int.{ℤ, pos, is_pos, scaled}
use cliproxyapi_plugin_basis.Common.Text.{Text, lit}
use cliproxyapi_plugin_basis.Catalogue.{ModelInfo, model_infos}
use cliproxyapi_plugin_basis.Config.{Config, RawConfig, normalize, second}
use cliproxyapi_plugin_basis.Config.Models.{IsModelEntry, normalize-IsModelEntry}
use cliproxyapi_plugin_basis.Config.Normal.{IsNormal, normalize-IsNormal}
use cliproxyapi_plugin_basis.Images.Uploader.{ImageStore}
use cliproxyapi_plugin_basis.Replay.{Cache, empty}
use cliproxyapi_plugin_basis.Routing.{HostSummary, Remembered, remember_host}
use cliproxyapi_plugin_basis.Scheduler.{Sched}
use cliproxyapi_plugin_basis.Scheduler.Leases.{idle}
use cliproxyapi_plugin_basis.Upstream.{header_value}

-- `Service`, without the clock and the override of the tests.
pub record Service : Type 0 where
  pub config : Config
  pub sched : Sched
  pub replay : Option Cache
  pub remembered : Remembered
  pub image_store : ImageStore

-- `rawConfig{}`
abbrev pub no_settings : RawConfig
no_settings = record {
  base_url = [];
  auth_mode = [];
  auth_provider = [];
  models = none;
  max_effort = [];
  max_in_flight = pos 0;
  min_interval = pos 0;
  cooldown = pos 0;
  image_upload = false;
  image_ttl_seconds = pos 0;
  s3 = record {
    endpoint = [];
    region = [];
    bucket = [];
    access_key = [];
    secret_key = [];
    prefix = [];
  };
}

-- `defaultConfig`
unfoldable pub default_config : Config
default_config = normalize no_settings

-- `New`
unfoldable pub new_service : Service
unfolding default_config empty
new_service = record {
  config = default_config;
  sched = idle.sched;
  replay = some empty;
  remembered = record { aliases = []; excluded = []; proxy_url = [] };
  image_store = record { images = none; stamp = [] };
}

abbrev pub normalized : Option RawConfig → Option Config
normalized none = none
normalized (some raw) = some (normalize raw)

-- `parseConfig`, given how a text that is not empty is read as YAML.
unfoldable pub parse_config : (Text → Option RawConfig) → Text → Option Config
unfolding default_config
parse_config read raw = if is_nil raw then some default_config else normalized (read raw)

abbrev pub with_config : Option Config → Service → Bool × Service
with_config none s = (false, s)
with_config (some cfg) s = (true, record s { config = cfg })

-- `Configure`, and whether it succeeds.
unfoldable pub configure : (Text → Option RawConfig) → Text → Service → Bool × Service
unfolding parse_config
configure read raw s = with_config (parse_config read raw) s

-- `RememberHost`
unfoldable pub remember : HostSummary → Service → Service
remember host s = record s { remembered = remember_host host }

-- `StaticModels`
unfoldable pub static_models : Service → List ModelInfo
static_models s = model_infos s.config

-- `retryAfter`: the number of seconds, or the time up to a date.
abbrev pub wait_until : ℕ → Option ℕ → ℤ
wait_until now none = pos 0
wait_until now (some time) = if ltb now time then pos (time - now) else pos 0

abbrev pub wait_for : ℕ → Option ℤ → Option ℕ → ℤ
wait_for now none date = wait_until now date
wait_for now (some seconds) date =
    if is_pos seconds then scaled seconds second else wait_until now date

unfoldable pub retry_after : (Text → Option ℤ) → (Text → Option ℕ) → Assoc (List Text) → ℕ → ℤ
unfolding header_value
retry_after atoi parse_time headers now =
    let value = header_value headers (lit "retry-after") in
    if is_nil value then pos 0 else wait_for now (atoi value) (parse_time value)

-- What the host tells the service between requests.
pub data Notice : Type 0 where
  configured : Text → Notice
  summarized : HostSummary → Notice

-- A configuration that the requests can use.
pub record IsUsable (c : Config) : Type 0 where
  pub normal : IsNormal c
  pub entries : All IsModelEntry c.models

normalize-IsUsable : (raw : RawConfig) → IsUsable (normalize raw)
normalize-IsUsable raw = record {
  normal = normalize-IsNormal raw;
  entries = normalize-IsModelEntry raw;
}

module _ (read : Text → Option RawConfig) where
  unfoldable pub notified : List Notice → Service → Service
  unfolding configure remember
  notified [] s = s
  notified (configured raw ∷ notices) s = notified notices (configure read raw s).1
  notified (summarized host ∷ notices) s = notified notices (remember host s)

  configure-IsUsable :
      (raw : Text) (s : Service)
      → IsUsable s.config
      → IsUsable (configure read raw s).1.config × ((configure read raw s).1.sched ≡ s.sched)
  unfolding configure
  configure-IsUsable raw s u =
      if_split (λ o. Kept (with_config o s)) (is_nil raw)
        (λ _. (normalize-IsUsable no_settings, refl)) (λ _. parsed (read raw))
    where
      Kept : Bool × Service → Type 0
      Kept x = IsUsable x.1.config × (x.1.sched ≡ s.sched)

      parsed : (o : Option RawConfig) → Kept (with_config (normalized o) s)
      parsed none = (u, refl)
      parsed (some settings) = (normalize-IsUsable settings, refl)

  -- The summary that counts is the last one.
  abbrev pub last_summary : List Notice → Remembered → Remembered
  last_summary [] r = r
  last_summary (configured raw ∷ notices) r = last_summary notices r
  last_summary (summarized host ∷ notices) r = last_summary notices (remember_host host)

  configure-remembered :
      (raw : Text) (s : Service) → (configure read raw s).1.remembered ≡ s.remembered
  unfolding configure
  configure-remembered raw s = kept (parse_config read raw)
    where
      kept : (o : Option Config) → (with_config o s).1.remembered ≡ s.remembered
      kept none = refl
      kept (some cfg) = refl

  notified-Kept :
      (notices : List Notice) (s : Service)
      → IsUsable s.config
      → IsUsable (notified notices s).config
        × ((notified notices s).sched ≡ s.sched)
        × ((notified notices s).remembered ≡ last_summary notices s.remembered)
  unfolding notified
  notified-Kept [] s u = (u, refl, refl)
  notified-Kept (configured raw ∷ notices) s u =
      let (u', same) = configure-IsUsable raw s u in
      let (v, kept, seen) = notified-Kept notices (configure read raw s).1 u' in
      (v, kept ∙ same, seen ∙ ap (last_summary notices) (configure-remembered raw s))
  notified-Kept (summarized host ∷ notices) s u = notified-Kept notices (remember host s) u

  -- From `New` on, whatever configurations the host gives, valid or not, and whatever summaries, in any
  -- order: no setting that the request path needs is blank, the effort cap is a known level, and every
  -- entry of the table of models has the name in lower case as its key, and a name that is trimmed and
  -- not blank; the scheduler is as at the start; and the aliases, the exclusions and the proxy are
  -- those of the last summary.
  pub notified-IsUsable :
      (notices : List Notice)
      → IsUsable (notified notices new_service).config
        × ((notified notices new_service).sched ≡ idle.sched)
        × ((notified notices new_service).remembered
            ≡ last_summary notices (record { aliases = []; excluded = []; proxy_url = [] }))
  unfolding new_service
  notified-IsUsable notices = notified-Kept notices new_service (normalize-IsUsable no_settings)
