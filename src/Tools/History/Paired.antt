-- ===== src/Tools/History/Paired.antt =====
-- What `translateHistory` of basispoints/tools.go makes of calls of tools and their results.
use cliproxyapi_plugin_basis.Common.{
  true, false, ◌||◌, List, [], ◌∷◌, ◌++◌, ◌≡◌, sym, ap, ◌∙◌, Has, Has-append, Has-last,
}
use cliproxyapi_plugin_basis.Common.Text.{Text, lit, ◌=ᵗ◌}
use cliproxyapi_plugin_basis.Json.{Json, fields_of, text_at}
use cliproxyapi_plugin_basis.Tools.{is_tool}

-- A call of a tool with the identifier.
abbrev pub IsCallOf : Text → Json → Type 0
IsCallOf id v = (is_tool (fields_of v) ≡ true) × (text_at (lit "call_id") (fields_of v) ≡ id)

-- One of the items is the call.
abbrev pub HasCall : Text → List Json → Type 0
HasCall id items = (call : Json) × Has call items × IsCallOf id call

abbrev pub IsOutput : Json → Type 0
IsOutput v = text_at (lit "type") (fields_of v) ≡ lit "function_call_output"

-- Items in an order in which the result of a tool comes after a call with its identifier.
pub data Paired : List Json → Type 0 where
  no_items : Paired []
  add_item :
      (items : List Json) (v : Json)
      → Paired items
      → (IsOutput v → HasCall (text_at (lit "call_id") (fields_of v)) items)
      → Paired (items ++ v ∷ [])

-- More items have the calls of fewer.
pub HasCall-append :
    (id : Text) (items : List Json) (v : Json) → HasCall id items → HasCall id (items ++ v ∷ [])
HasCall-append id items v (call, at, is) = (call, Has-append items (v ∷ []) at, is)

pub HasCall-last :
    (id : Text) (items : List Json) (v : Json) → IsCallOf id v → HasCall id (items ++ v ∷ [])
HasCall-last id items v is = (v, Has-last items v, is)

-- A call of a tool is not a result.
pub call-not_output : (id : Text) (v : Json) → IsCallOf id v → IsOutput v → ⊥
unfolding is_tool lit ◌=ᵗ◌
call-not_output id v (is, _) out =
    absurd (
      true_is_false
        (sym is ∙ ap (λ t. t =ᵗ lit "function_call" || t =ᵗ lit "custom_tool_call") out))
  where
    true_is_false : true ≡ false → ⊥
    true_is_false h = cc
