-- ===== src/Stream/Items.antt =====
-- The events that basispoints/stream.go and basispoints/structured_output.go write of the items of a
-- complete response.
use cliproxyapi_plugin_basis.Common.{
  ℕ, suc, Bool, true, false, ◌&&◌, ◌||◌, List, [], ◌∷◌, ◌≡◌, refl, sym, ap, ◌∙◌, if_split,
  if◌then◌else◌, All,
}
use cliproxyapi_plugin_basis.Common.Text.{Text, lit, ◌=ᵗ◌, elem}
use cliproxyapi_plugin_basis.Common.Assoc.{Assoc}
use cliproxyapi_plugin_basis.Json.{
  Json, string, Fields, fields_of, items_of, text, text_at, get_field, set_field,
}
use cliproxyapi_plugin_basis.Json.Laws.{get_field-set_field_ne}
use cliproxyapi_plugin_basis.Tools.{Tool, is_tool}
use cliproxyapi_plugin_basis.Stream.{
  item_added, item_done, value_event, part_event, Stream, emit, added_item, emit_tool, emit_part,
  emit_parts, emit_structured_message, is_structured, emit_item, emit_output,
}
use cliproxyapi_plugin_basis.Stream.Events.{
  NamesDeclared, NamesDeclaredItem, IsGuarded, StepGuarded, emit-StepGuarded, StepGuarded-then,
}

-- Another field changes nothing that names a tool.
NamesDeclared-set :
    (tools : Assoc Tool) (key : Text) (v : Json) (item : Fields)
    → (key =ᵗ lit "type") ≡ false
    → (key =ᵗ lit "name") ≡ false
    → (key =ᵗ lit "namespace") ≡ false
    → NamesDeclared tools item
    → NamesDeclared tools (set_field key v item)
unfolding is_tool text_at
NamesDeclared-set tools key v item t n s h is =
    let (j, tool, found, name, namespace) =
      h (sym (ap tool_type (get_field-set_field_ne key _ v item t)) ∙ is) in
    (
      j,
      tool,
      found,
      ap text (get_field-set_field_ne key _ v item n) ∙ name,
      ap text (get_field-set_field_ne key _ v item s) ∙ namespace,
    )
  where
    tool_type : Json → Bool
    tool_type v = text v =ᵗ lit "function_call" || text v =ᵗ lit "custom_tool_call"

NamesDeclared-status :
    (tools : Assoc Tool) (v : Json) (item : Fields)
    → NamesDeclared tools item
    → NamesDeclared tools (set_field (lit "status") v item)
unfolding lit ◌=ᵗ◌
NamesDeclared-status tools v item h = NamesDeclared-set tools (lit "status") v item refl refl refl h

NamesDeclared-content :
    (tools : Assoc Tool) (v : Json) (item : Fields)
    → NamesDeclared tools item
    → NamesDeclared tools (set_field (lit "content") v item)
unfolding lit ◌=ᵗ◌
NamesDeclared-content tools v item h =
    NamesDeclared-set tools (lit "content") v item refl refl refl h

NamesDeclared-value :
    (tools : Assoc Tool) (custom : Bool) (v : Json) (item : Fields)
    → NamesDeclared tools item
    → NamesDeclared tools (set_field (if custom then lit "input" else lit "arguments") v item)
unfolding lit ◌=ᵗ◌
NamesDeclared-value tools true v item h =
    NamesDeclared-set tools (lit "input") v item refl refl refl h
NamesDeclared-value tools false v item h =
    NamesDeclared-set tools (lit "arguments") v item refl refl refl h

module _ (accepts : ℕ → Bool) (tools : Assoc Tool) where
  emit_tool-StepGuarded :
      (item : Fields) (index : ℕ) (s : Stream)
      → NamesDeclared tools item
      → IsGuarded tools s
      → StepGuarded tools (emit_tool accepts item index s)
  unfolding emit_tool
  emit_tool-StepGuarded item index s h g =
      if_split (StepGuarded tools) (elem (text_at (lit "id") item) s.emitted) (λ _. g)
        (λ _.
          StepGuarded-then tools _ _
            (emit-StepGuarded accepts tools _ (item_added index (added_item item)) _ marked (
              NamesDeclared-status tools _ _ (
                NamesDeclared-value tools (text_at (lit "type") item =ᵗ lit "custom_tool_call")
                  (string []) item h)))
            (λ s1 g1.
              StepGuarded-then tools _ _
                (emit-StepGuarded accepts tools _ (value_event _ _ _ _) s1 g1 tt)
                (λ s2 g2.
                  StepGuarded-then tools _ _
                    (emit-StepGuarded accepts tools _ (value_event _ _ _ _) s2 g2 tt)
                    (λ s3 g3. emit-StepGuarded accepts tools _ (item_done index item) s3 g3 h))))
    where
      marked : IsGuarded tools (record s { emitted = text_at (lit "id") item ∷ s.emitted })
      marked = record {
        is_written = record { shown = g.is_written.shown; numbered = g.is_written.numbered };
        counted = g.counted;
        same_tools = g.same_tools;
      }

  emit_parts-StepGuarded :
      (index : ℕ) (id : Text) (i : ℕ) (raws : List Json) (s : Stream)
      → IsGuarded tools s
      → StepGuarded tools (emit_parts accepts index id i raws s)
  unfolding emit_parts emit_part
  emit_parts-StepGuarded index id i [] s g = g
  emit_parts-StepGuarded index id i (raw ∷ rest) s g =
      StepGuarded-then tools (emit_part accepts index id i (fields_of raw) s) _
        (StepGuarded-then tools _ _ (emit-StepGuarded accepts tools _ (part_event _ _ _ _ _) s g tt)
          (λ s1 g1.
            StepGuarded-then tools _ _
              (emit-StepGuarded accepts tools _ (part_event _ _ _ _ _) s1 g1 tt)
              (λ s2 g2.
                StepGuarded-then tools _ _
                  (emit-StepGuarded accepts tools _ (part_event _ _ _ _ _) s2 g2 tt)
                  (λ s3 g3. emit-StepGuarded accepts tools _ (part_event _ _ _ _ _) s3 g3 tt))))
        (λ s' g'. emit_parts-StepGuarded index id (suc i) rest s' g')

  emit_structured_message-StepGuarded :
      (item : Fields) (index : ℕ) (s : Stream)
      → NamesDeclared tools item
      → IsGuarded tools s
      → StepGuarded tools (emit_structured_message accepts item index s)
  unfolding emit_structured_message
  emit_structured_message-StepGuarded item index s h g =
      StepGuarded-then tools _ _
        (emit-StepGuarded accepts tools _ (item_added index _) s g
          (NamesDeclared-status tools _ _ (NamesDeclared-content tools _ item h)))
        (λ s1 g1.
          StepGuarded-then tools
            (emit_parts accepts index (text_at (lit "id") item) 0
              (items_of (get_field (lit "content") item)) s1)
            (emit accepts (lit "response.output_item.done") (item_done index item))
            (emit_parts-StepGuarded index (text_at (lit "id") item) 0
              (items_of (get_field (lit "content") item)) s1 g1)
            (λ s2 g2. emit-StepGuarded accepts tools _ (item_done index item) s2 g2 h))

  pub emit_output-StepGuarded :
      (index : ℕ) (raws : List Json) (s : Stream)
      → All (NamesDeclaredItem tools) raws
      → IsGuarded tools s
      → StepGuarded tools (emit_output accepts index raws s)
  unfolding emit_output
  emit_output-StepGuarded index [] s h g = g
  emit_output-StepGuarded index (raw ∷ rest) s h g =
      StepGuarded-then tools (emit_item accepts (fields_of raw) index s) _
        (if_split (StepGuarded tools) (is_tool (fields_of raw))
          (λ _. emit_tool-StepGuarded (fields_of raw) index s h.0 g)
          (λ _.
            if_split (StepGuarded tools)
              (is_structured s && text_at (lit "type") (fields_of raw) =ᵗ lit "message")
              (λ _. emit_structured_message-StepGuarded (fields_of raw) index s h.0 g) (λ _. g)))
        (λ s' g'. emit_output-StepGuarded (suc index) rest s' h.1 g')
