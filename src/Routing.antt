-- ===== src/Routing.antt =====
-- basispoints/wire.go: what the host says of aliases and excluded models (`RememberHost`), and
-- which configured model a requested name means (`matchConfiguredModel`).
pub mod Excluded
pub mod Fallback
pub mod Route
use cliproxyapi_plugin_basis.Common.{
  ℕ, zero, suc, ◌+◌, ◌-◌, Bool, true, false, not, ◌||◌, Option, none, some, List, [], ◌∷◌, ◌++◌,
  is_nil, ltb, if◌then◌else◌, length, drop,
}
use cliproxyapi_plugin_basis.Common.Text.{Text, lit, trim_space, to_lower, equal_fold, elem}
use cliproxyapi_plugin_basis.Common.Assoc.{Assoc, lookup, insert}
use cliproxyapi_plugin_basis.Config.{Config, provider_codex, split_model_suffix, last_index}

pub record ModelAlias : Type 0 where
  pub name : Text
  pub alias : Text

-- The parts of the host's configuration summary that the plugin reads.
pub record HostSummary : Type 0 where
  pub oauth_model_alias : Assoc (List ModelAlias)
  pub excluded_models : Assoc (List Text)
  pub proxy_url : Text

-- The fields of `Service` that `RememberHost` replaces.
pub record Remembered : Type 0 where
  pub aliases : Assoc Text
  pub excluded : List Text
  pub proxy_url : Text

add_alias : Assoc Text → ModelAlias → Assoc Text
add_alias aliases entry =
    let alias = to_lower (trim_space entry.alias) in
    let name = trim_space entry.name in
    if is_nil alias || is_nil name then aliases else insert alias name aliases

add_aliases : Assoc Text → List ModelAlias → Assoc Text
unfolding add_alias
add_aliases aliases [] = aliases
add_aliases aliases (e ∷ es) = add_aliases (add_alias aliases e) es

pub all_aliases : Assoc Text → Assoc (List ModelAlias) → Assoc Text
unfolding add_aliases
all_aliases aliases [] = aliases
all_aliases aliases ((provider, entries) ∷ rest) =
    all_aliases
      (if equal_fold provider provider_codex then add_aliases aliases entries else aliases) rest

pub add_excluded : List Text → List Text → List Text
add_excluded excluded [] = excluded
add_excluded excluded (n ∷ ns) =
    let name = to_lower (trim_space n) in
    add_excluded (if is_nil name then excluded else name ∷ excluded) ns

pub all_excluded : List Text → Assoc (List Text) → List Text
unfolding add_excluded
all_excluded excluded [] = excluded
all_excluded excluded ((provider, names) ∷ rest) =
    all_excluded
      (if equal_fold provider provider_codex then add_excluded excluded names else excluded) rest

unfoldable pub remember_host : HostSummary → Remembered
unfolding all_aliases all_excluded
remember_host host = record {
  aliases = all_aliases [] host.oauth_model_alias;
  excluded = all_excluded [] host.excluded_models;
  proxy_url = trim_space host.proxy_url;
}

-- The name without what stands before its last slash, unless the slash ends it.
last_segment : Text → Option ℕ → List Text
last_segment base none = []
last_segment base (some slash) =
    if ltb slash (length base - 1) then drop (slash + 1) base ∷ [] else []

abbrev pub mapped : Option Text → List Text
mapped none = []
mapped (some name) = let m = trim_space name in if is_nil m then [] else m ∷ []

-- The names to try: the base, its alias, and its last segment.
pub candidates : Text → Assoc Text → List Text
unfolding last_segment last_index
candidates base aliases =
    base ∷ (mapped (lookup (to_lower base) aliases) ++ last_segment base (last_index b'/' base))

pub first_match : Config → List Text → List Text → Option Text
first_match cfg excluded [] = none
first_match cfg excluded (c ∷ cs) =
    let key = to_lower (trim_space c) in
    let rest = first_match cfg excluded cs in
    if elem key excluded
    then rest
    else elim (lookup key cfg.models) [ none ↦ rest | some canonical ↦ some canonical ]

unfoldable pub match_configured_model : Config → Text → Assoc Text → List Text → Option Text
unfolding candidates first_match
match_configured_model cfg model aliases excluded =
    let base = trim_space (split_model_suffix model).0 in
    if is_nil base || elem (to_lower base) excluded
    then none
    else first_match cfg excluded (candidates base aliases)

unfoldable pub resolve_model : Config → Remembered → Text → Option Text
resolve_model cfg r model = match_configured_model cfg model r.aliases r.excluded
