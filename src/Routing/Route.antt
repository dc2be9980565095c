-- ===== src/Routing/Route.antt =====
-- `Route` and `CountTokens` of basispoints/service.go: whether the plugin takes a request, and the
-- length of one.
use cliproxyapi_plugin_basis.Common.{
  ℕ, ◌/◌, ◌&&◌, Bool, true, false, not, Option, none, some, [], ◌++◌, is_nil, ltb, if◌then◌else◌,
}
use cliproxyapi_plugin_basis.Common.Text.{Text, lit}
use cliproxyapi_plugin_basis.Config.{Config}
use cliproxyapi_plugin_basis.Prepare.Describe.{decimal}
use cliproxyapi_plugin_basis.Routing.{Remembered, resolve_model}
use cliproxyapi_plugin_basis.Routing.Fallback.{Results, native_fallback_reason}
use cliproxyapi_plugin_basis.Tools.Plan.Schema.{rune_count}

-- pluginapi.ModelRouteResponse; the only target is the plugin itself.
pub record RouteResponse : Type 0 where
  pub handled : Bool
  pub reason : Text

module _ (g : Results) where
  -- `Route`
  abbrev pub routed : Text → Option Text → RouteResponse
  routed fallback none = record { handled = false; reason = [] }
  routed fallback (some canonical) =
      if is_nil fallback
      then record { handled = true; reason = lit "basispoints" }
      else record { handled = false; reason = fallback }

  unfoldable pub route : Config → Remembered → Text → Text → RouteResponse
  route cfg r model body = routed (native_fallback_reason g body) (resolve_model cfg r model)

-- `CountTokens`: a quarter of the characters, and at least one of a payload that is not empty. The
-- text is valid UTF-8.
unfoldable pub token_count : Text → ℕ
unfolding rune_count
token_count payload =
    let count = rune_count payload / 4 in if ltb count 1 && not (is_nil payload) then 1 else count

unfoldable pub count_tokens : Text → Text
unfolding token_count
count_tokens payload =
    let count = decimal (token_count payload) in
    lit "{\"input_tokens\":" ++ count ++ lit ",\"total_tokens\":" ++ count ++ lit "}"
