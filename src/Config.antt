-- ===== src/Config.antt =====
-- basispoints/config.go: the configuration, its normal form, model names and effort levels.
pub mod Normal
pub mod Models
pub mod Suffix
pub mod Clamp
use cliproxyapi_plugin_basis.Common.{
  ℕ, zero, suc, ◌+◌, ◌*◌, Bool, not, false, ◌&&◌, ◌||◌, Option, none, some, List, [], ◌∷◌, ◌++◌,
  is_nil, ltb, ◌==◌, if◌then◌else◌, drop, take, length, ◌-◌,
}
use cliproxyapi_plugin_basis.Common.Int.{ℤ, pos, is_pos, pos_part, scaled}
use cliproxyapi_plugin_basis.Common.Text.{
  Text, lit, trim_space, trim_left, trim_right, to_lower, contains,
}
use cliproxyapi_plugin_basis.Common.Assoc.{Assoc, lookup, insert}

abbrev pub default_base_url : Text
default_base_url = lit "https://bps.openai.com/basispoints/api"

abbrev pub default_auth_mode : Text
default_auth_mode = lit "chatgpt"

abbrev pub default_auth_provider : Text
default_auth_provider = lit "codex"

abbrev pub default_max_effort : Text
default_max_effort = lit "xhigh"

abbrev pub provider_codex : Text
provider_codex = lit "codex"

-- A second and a millisecond, in the nanoseconds of time.Duration.
abbrev pub second : ℕ
second = 1000000000

abbrev pub millisecond : ℕ
millisecond = 1000000

abbrev pub default_image_ttl : ℤ
default_image_ttl = pos (30 * 60 * second)

abbrev pub default_models : List Text
default_models = lit "gpt-6-astra" ∷ lit "gpt-5.6-sol" ∷ []

abbrev pub effort_levels : Assoc ℕ
effort_levels =
    (lit "none", 0)
    ∷ (lit "minimal", 1)
    ∷ (lit "low", 2)
    ∷ (lit "medium", 3)
    ∷ (lit "high", 4)
    ∷ (lit "xhigh", 5)
    ∷ (lit "max", 6)
    ∷ []

unfoldable pub effort_rank : Text → Option ℕ
unfolding lookup
effort_rank e = lookup e effort_levels

-- The S3 settings of `Config`.
pub record S3Config : Type 0 where
  pub endpoint : Text
  pub region : Text
  pub bucket : Text
  pub access_key : Text
  pub secret_key : Text
  pub prefix : Text

pub record Config : Type 0 where
  pub base_url : Text
  pub auth_mode : Text
  pub auth_provider : Text
  pub models : Assoc Text
  pub max_effort : Text
  pub max_in_flight : ℕ
  pub min_interval : ℤ
  pub cooldown : ℤ
  pub image_upload : Bool
  pub image_ttl : ℤ
  pub s3 : S3Config

pub record RawConfig : Type 0 where
  pub base_url : Text
  pub auth_mode : Text
  pub auth_provider : Text
  pub models : Option (List Text)
  pub max_effort : Text
  pub max_in_flight : ℤ
  pub min_interval : ℤ
  pub cooldown : ℤ
  pub image_upload : Bool
  pub image_ttl_seconds : ℤ
  pub s3 : S3Config

abbrev pub is_slash : ℕ → Bool
is_slash c = c == b'/'

-- `if v == "" { v = d }`
abbrev pub or_default : Text → Text → Text
or_default v d = if is_nil v then d else v

abbrev pub with_scheme : Text → Text
with_scheme endpoint =
    if not (is_nil endpoint) && not (contains endpoint (lit "://"))
    then lit "https://" ++ endpoint
    else endpoint

pub add_model : Assoc Text → Text → Assoc Text
add_model models raw =
    let model = trim_space raw in
    if is_nil model then models else insert (to_lower model) model models

pub add_models : Assoc Text → List Text → Assoc Text
unfolding add_model
add_models models [] = models
add_models models (m ∷ ms) = add_models (add_model models m) ms

pub model_names : Option (List Text) → List Text
model_names none = default_models
model_names (some ms) = ms

abbrev pub duration_or : ℤ → ℤ → ℕ → ℤ
duration_or i default unit = if is_pos i then scaled i unit else default

pub known_effort : Text → Text
known_effort e = elim (effort_rank e) [ none ↦ default_max_effort | some _ ↦ e ]

unfoldable pub normalize : RawConfig → Config
unfolding add_models model_names known_effort
normalize raw = record {
  base_url = or_default (trim_right is_slash (trim_space raw.base_url)) default_base_url;
  auth_mode = or_default (trim_space raw.auth_mode) default_auth_mode;
  auth_provider = or_default (to_lower (trim_space raw.auth_provider)) default_auth_provider;
  models = add_models [] (model_names raw.models);
  max_effort = known_effort (to_lower (trim_space raw.max_effort));
  max_in_flight = pos_part raw.max_in_flight;
  min_interval = duration_or raw.min_interval (pos 0) millisecond;
  cooldown = duration_or raw.cooldown (pos 0) millisecond;
  image_upload = raw.image_upload;
  image_ttl = duration_or raw.image_ttl_seconds default_image_ttl second;
  s3 = record {
    endpoint = with_scheme (trim_right is_slash (trim_space raw.s3.endpoint));
    region = or_default (trim_space raw.s3.region) (lit "auto");
    bucket = trim_space raw.s3.bucket;
    access_key = trim_space raw.s3.access_key;
    secret_key = trim_space raw.s3.secret_key;
    prefix =
        or_default (trim_right is_slash (trim_left is_slash (trim_space raw.s3.prefix)))
          (lit "bps");
  };
}

unfoldable pub s3_configured : Config → Bool
s3_configured c =
    not (is_nil c.s3.endpoint)
    && not (is_nil c.s3.bucket)
    && not (is_nil c.s3.access_key)
    && not (is_nil c.s3.secret_key)

-- strings.LastIndex for one byte.
unfoldable pub last_index : ℕ → Text → Option ℕ
last_index c [] = none
last_index c (x ∷ xs) = elim (last_index c xs) [
  | some i ↦ some (i + 1)
  | none ↦ if x == c then some 0 else none
]

unfoldable pub has_suffix_byte : Text → ℕ → Bool
has_suffix_byte [] c = false
has_suffix_byte (x ∷ []) c = x == c
has_suffix_byte (x ∷ y ∷ s) c = has_suffix_byte (y ∷ s) c

-- The two parts round an opening bracket at `open_at`; -1 and 0 leave the name whole.
pub split_at : Text → Option ℕ → Text × Option Text
split_at model none = (model, none)
split_at model (some zero) = (model, none)
split_at model (some (suc i)) =
    let base = trim_space (take (suc i) model) in
    let suffix = trim_space (take (length model - 1 - (suc i + 1)) (drop (suc i + 1) model)) in
    if is_nil base || is_nil suffix then (model, none) else (base, some suffix)

-- The base and the effort of a model name such as `m(high)`; no suffix is `none`.
unfoldable pub split_model_suffix : Text → Text × Option Text
unfolding split_at last_index has_suffix_byte
split_model_suffix raw =
    let model = trim_space raw in
    if has_suffix_byte model b')' then split_at model (last_index b'(' model) else (model, none)

unfoldable pub canonical_model : Config → Text → Option Text
canonical_model c model = lookup (to_lower (trim_space (split_model_suffix model).0)) c.models

-- The cap in force: an unknown one is replaced by the default.
pub effective_cap : Text → Text
effective_cap max_effort =
    let cap = to_lower (trim_space max_effort) in
    elim (effort_rank cap) [ none ↦ default_max_effort | some _ ↦ cap ]

-- `max_rank`, looked up in the table.
pub max_rank : Text → ℕ
unfolding effective_cap
max_rank max_effort = elim (effort_rank (effective_cap max_effort)) [ none ↦ 0 | some r ↦ r ]

-- The effort sent upstream: the wanted one, at most `max_effort`.
unfoldable pub clamp_effort : Text → Text → Text
unfolding max_rank
clamp_effort effort max_effort =
    let wanted = to_lower (trim_space effort) in
    let cap = effective_cap max_effort in
    if is_nil wanted then [] else elim (effort_rank wanted) [
      | none ↦ cap
      | some rank ↦ if ltb (max_rank max_effort) rank then cap else wanted
    ]
