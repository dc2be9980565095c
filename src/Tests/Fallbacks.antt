-- ===== src/Tests/Fallbacks.antt =====
-- `NativeFallbackReason` of basispoints/route.go, over texts as the results of gjson.
use cliproxyapi_plugin_basis.Common.{◌≡◌, refl, true, [], ◌∷◌}
use cliproxyapi_plugin_basis.Common.Text.{
  Text, lit, ◌=ᵗ◌, trim_space, trim_right, trim_left, elem, contains, to_lower, cut_prefix,
}
use cliproxyapi_plugin_basis.Routing.Fallback.{Results, native_fallback_reason}

-- One tool, whose every member is the text of the body.
abbrev one_tool : Results
one_tool = record {
  Result = Text;
  valid = λ body. true;
  get_bytes = λ body path. body;
  get = λ r path. r;
  is_array = λ r. true;
  elements = λ r. r ∷ [];
  as_string = λ r. r;
  as_bool = λ r. true;
  exists_json = λ r. true;
}

searched : native_fallback_reason one_tool (lit " Web_Search") ≡ lit "web_search"
unfolding lit native_fallback_reason ◌=ᵗ◌ to_lower trim_space trim_right trim_left elem
searched = refl

chosen : native_fallback_reason one_tool (lit "my_web_search") ≡ lit "tool_choice"
unfolding lit native_fallback_reason ◌=ᵗ◌ to_lower trim_space trim_right trim_left elem contains
    cut_prefix
chosen = refl
