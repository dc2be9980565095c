-- ===== src/Routing/Fallback.antt =====
-- `NativeFallbackReason` of basispoints/route.go: what keeps a request on the native channel.
use cliproxyapi_plugin_basis.Common.{Bool, not, ◌&&◌, ◌||◌, List, [], ◌∷◌, is_nil, if◌then◌else◌}
use cliproxyapi_plugin_basis.Common.Text.{Text, lit, ◌=ᵗ◌, elem, contains, to_lower, trim_space}

-- gjson: a Result, and what the code asks of one. `elements` are those that ForEach visits.
pub record Results : Type 1 where
  pub Result : Type 0
  pub valid : Text → Bool
  pub get_bytes : Text → Text → Result
  pub get : Result → Text → Result
  pub is_array : Result → Bool
  pub elements : Result → List Result
  pub as_string : Result → Text
  pub as_bool : Result → Bool
  pub exists_json : Result → Bool

abbrev pub web_search_kinds : List Text
web_search_kinds =
    lit "web_search"
    ∷ lit "web_search_preview"
    ∷ lit "web_search_preview_2025_03_11"
    ∷ lit "web_search_2025_08_26"
    ∷ []

module _ (g : Results) where
  -- Why a tool needs the native channel.
  unfoldable pub tool_reason : g.Result → Text
  tool_reason tool =
      let kind = to_lower (trim_space (g.as_string (g.get tool (lit "type")))) in
      if kind =ᵗ lit "image_generation"
      then lit "image_generation"
      else if elem kind web_search_kinds
          && (g.as_bool (g.get tool (lit "external_web_access"))
              || g.as_string (g.get tool (lit "search_context_size")) =ᵗ lit "high")
      then lit "web_search"
      else []

  -- The first tool that needs it ends the loop.
  unfoldable pub tools_reason : List g.Result → Text
  unfolding tool_reason
  tools_reason [] = []
  tools_reason (tool ∷ tools) =
      let rest = tools_reason tools in
      let reason = tool_reason tool in if is_nil reason then rest else reason

  unfoldable pub choice_reason : g.Result → Text
  choice_reason choice =
      let name = to_lower (g.as_string (g.get choice (lit "name"))) in
      if g.exists_json choice
        && (contains name (lit "web_search") || contains name (lit "image_generation"))
      then lit "tool_choice"
      else []

  abbrev pub declared_reason : g.Result → Text
  declared_reason tools = if g.is_array tools then tools_reason (g.elements tools) else []

  -- `NativeFallbackReason`
  unfoldable pub native_fallback_reason : Text → Text
  unfolding tools_reason choice_reason
  native_fallback_reason body =
      let reason = declared_reason (g.get_bytes body (lit "tools")) in
      if not (g.valid body)
      then []
      else if not (is_nil reason)
      then reason
      else choice_reason (g.get_bytes body (lit "tool_choice"))
