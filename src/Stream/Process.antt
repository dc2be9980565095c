-- ===== src/Stream/Process.antt =====
-- `process` and `transform` of basispoints/stream.go: whatever the gateway sends, the client is shown
-- no call but of the tools that it declared.
use cliproxyapi_plugin_basis.Common.{
  ℕ, Bool, true, false, not, ◌&&◌, ◌||◌, Option, some, List, [], ◌∷◌, ◌≡◌, refl, sym, ap, ◌∙◌,
  subst, inl, inr, arith, is_nil, leb, length, if_split, All, Result, ok, err, guard, ◌>>=◌,
}
use cliproxyapi_plugin_basis.Common.Text.{Text, lit, ◌=ᵗ◌}
use cliproxyapi_plugin_basis.Common.Assoc.{Assoc}
use cliproxyapi_plugin_basis.Json.{
  Json, object, Fields, fields_of, items_of, text_at, get_field, set_field, object_read, Coding,
}
use cliproxyapi_plugin_basis.Json.Laws.{
  get_field-set_field_self, get_field-set_field_ne, to_list-of_list,
}
use cliproxyapi_plugin_basis.Tools.{Tool, Bridge, ToolError, is_tool, is_tool_event}
use cliproxyapi_plugin_basis.Tools.Collect.Declared.{IsDeclared}
use cliproxyapi_plugin_basis.Tools.Calls.{translate_response}
use cliproxyapi_plugin_basis.Tools.Calls.Response.{RelaysItem, Relays, translate_response-Relays}
use cliproxyapi_plugin_basis.Structured.{is_structured_message_event}
use cliproxyapi_plugin_basis.Stream.{
  StreamError, missing_response, invalid_event, omitted_tool, too_many_tools, passed, Stream, Step,
  settle_pending, filtered_output, is_structured, emit_output, is_end, pass_on, lift,
  answer_checked, translated, complete, with_format, incomplete, with_response, is_object_value,
  max_tools, wait_for, process_payload, kind_or, process_value, process,
}
use cliproxyapi_plugin_basis.Stream.Events.{
  NamesDeclared, NamesDeclaredItem, is_item_event, IsShown, IsGuarded, StepGuarded,
  emit-StepGuarded, StepGuarded-then,
}
use cliproxyapi_plugin_basis.Stream.Items.{emit_output-StepGuarded}

-- The guard reads what is written, the count and the catalog only.
IsGuarded-as :
    (tools : Assoc Tool) (s s' : Stream)
    → s'.written ≡ s.written
    → s'.sequence ≡ s.sequence
    → s'.bridge.tools ≡ s.bridge.tools
    → IsGuarded tools s
    → IsGuarded tools s'
IsGuarded-as tools s s' w n b g = record {
  is_written = record { shown = rw w g.is_written.shown; numbered = rw w g.is_written.numbered };
  counted = rw (w, n) g.counted;
  same_tools = b ∙ g.same_tools;
}

error_guarded :
    (tools : Assoc Tool) (e : StreamError) (s : Stream)
    → IsGuarded tools s
    → StepGuarded tools (err (e, s))
error_guarded tools e s g = (g.is_written, λ _. g)

lift_guarded :
    {A : Type 0} (tools : Assoc Tool) (s : Stream) (r : Result StreamError A) (f : A → Step)
    → IsGuarded tools s
    → ((a : A) → r ≡ ok a → StepGuarded tools (f a))
    → StepGuarded tools (lift s r >>= f)
lift_guarded tools s (ok a) f g h = h a refl
lift_guarded tools s (err e) f g h = error_guarded tools e s g

-- The items of a translated response name declared tools.
Relays-NamesDeclared :
    (k : Coding) (tools : Assoc Tool) (raws outs : List Json)
    → Relays k tools raws outs
    → All (NamesDeclaredItem tools) outs
Relays-NamesDeclared k tools [] [] r = tt
Relays-NamesDeclared k tools (raw ∷ raws) (out ∷ outs) r =
    (one r.0, Relays-NamesDeclared k tools raws outs r.1)
  where
    no_tool : is_tool (fields_of raw) ≡ false → out ≡ raw → is_tool (fields_of out) ≡ true → ⊥
    no_tool other same is = absurd (ground (arith, other, is, ap (λ v. is_tool (fields_of v)) same))

    one : RelaysItem k tools raw out → NamesDeclaredItem tools out
    one (inl (other, same)) = λ is. absurd (no_tool other same is)
    one (inr (result, same, (key, t, found, calls))) =
        subst (NamesDeclaredItem tools) (sym same)
          (λ _. (key, t, found, calls.name, calls.namespace))
Relays-NamesDeclared k tools [] (out ∷ outs) r = absurd r
Relays-NamesDeclared k tools (raw ∷ raws) [] r = absurd r

-- What is left of an incomplete output has no calls.
filtered_output-NamesDeclared :
    (tools : Assoc Tool) (structured : Bool) (raws : List Json)
    → All (NamesDeclaredItem tools) (filtered_output structured raws)
unfolding filtered_output
filtered_output-NamesDeclared tools structured [] = tt
filtered_output-NamesDeclared tools structured (raw ∷ rest) =
    if_split (All (NamesDeclaredItem tools))
      (not (is_tool (fields_of raw))
        && (not structured || not (text_at (lit "type") (fields_of raw) =ᵗ lit "message")))
      (λ h.
        (λ is. absurd (ground (arith, h, is)), filtered_output-NamesDeclared tools structured rest))
      (λ _. filtered_output-NamesDeclared tools structured rest)

module _ (accepts : ℕ → Bool) (k : Coding) (tools : Assoc Tool) where
  -- The gateway's event, with items that may be shown.
  pass_on-StepGuarded :
      (kind : Text) (payload : Fields) (s : Stream)
      → IsGuarded tools s
      → IsShown tools kind (passed payload)
      → StepGuarded tools (pass_on accepts kind payload s)
  pass_on-StepGuarded kind payload s g h =
      emit-StepGuarded accepts tools kind (passed payload) (record s { terminal = is_end kind })
        (IsGuarded-as tools s _ refl refl refl g) h

  -- A new response in the payload leaves its item.
  IsShown-response :
      (kind : Text) (payload response : Fields)
      → (is_item_event kind ≡ true → NamesDeclaredItem tools (get_field (lit "item") payload))
      → All (NamesDeclaredItem tools) (items_of (get_field (lit "output") response))
      → IsShown tools kind (passed (set_field (lit "response") (object response) payload))
  IsShown-response kind payload response item output = (
    λ e.
        subst (NamesDeclaredItem tools)
          (sym (
            get_field-set_field_ne (lit "response") (lit "item") _ payload
              (unfold lit ◌=ᵗ◌ in refl)))
          (item e),
    subst (λ v. All (NamesDeclaredItem tools) (items_of (get_field (lit "output") (fields_of v))))
        (sym (get_field-set_field_self (lit "response") (object response) payload)) output,
  )

  complete-StepGuarded :
      (kind : Text) (payload response : Fields) (s : Stream)
      → All IsDeclared tools
      → IsGuarded tools s
      → (is_item_event kind ≡ true → NamesDeclaredItem tools (get_field (lit "item") payload))
      → StepGuarded tools (complete accepts k kind payload response s)
  unfolding complete
  complete-StepGuarded kind payload response s d g item =
      lift_guarded tools s (answer_checked k s.bridge.structured response) _ g (λ u _.
        lift_guarded tools s' (guard (is_nil left) omitted_tool) _ g' (λ u _.
          lift_guarded tools s' (translated k response s.bridge) _ g'
            (λ r p. shown r (relayed r p))))
    where
      left : List Text
      left = settle_pending (items_of (get_field (lit "output") response)) s.pending_tools

      s' : Stream
      s' = record s { pending_tools = left }

      g' : IsGuarded tools s'
      g' = IsGuarded-as tools s s' refl refl refl g

      translated_ok :
          (r : Result ToolError (Fields × Bridge)) (done : Fields × Bridge)
          → elim r [ ok r ↦ ok r | err e ↦ err (StreamError.bad_call e) ] ≡ ok done
          → r ≡ ok done
      translated_ok (ok r) done h = cc
      translated_ok (err e) done h = absurd (cc)

      relayed :
          (r : Fields × Bridge)
          → translated k response s.bridge ≡ ok r
          → All (NamesDeclaredItem tools) (items_of (get_field (lit "output") r.0))
            × (r.1.tools ≡ tools)
      relayed r p =
          let (relays, kept) =
            translate_response-Relays k response r.0 s.bridge r.1 (rw g.same_tools d)
              (translated_ok (translate_response k response s.bridge) r p) in
          (
            Relays-NamesDeclared k tools (items_of (get_field (lit "output") response))
                (items_of (get_field (lit "output") r.0))
                (subst
                  (λ t.
                    Relays k t (items_of (get_field (lit "output") response))
                      (items_of (get_field (lit "output") r.0)))
                  g.same_tools relays),
            kept ∙ g.same_tools,
          )

      shown :
          (r : Fields × Bridge)
          → All (NamesDeclaredItem tools) (items_of (get_field (lit "output") r.0))
            × (r.1.tools ≡ tools)
          → StepGuarded tools (
              emit_output accepts 0
                (items_of (get_field (lit "output") r.0))
                (record s' { bridge = r.1 })
              >>= λ s''. pass_on accepts kind (set_field (lit "response") (object r.0) payload) s'')
      shown r (outs, kept) =
          StepGuarded-then tools
            (emit_output accepts 0 (items_of (get_field (lit "output") r.0))
              (record s' { bridge = r.1 }))
            _
            (emit_output-StepGuarded accepts tools 0 _ _ outs
              (IsGuarded-as tools s _ refl refl (kept ∙ sym g.same_tools) g))
            (λ s'' g''.
              pass_on-StepGuarded kind _ s'' g'' (IsShown-response kind payload r.0 item outs))

  incomplete-NamesDeclared :
      (structured : Bool) (effort : Text) (response : Fields)
      → All
          (NamesDeclaredItem tools)
          (items_of (get_field (lit "output") (incomplete structured effort response)))
  incomplete-NamesDeclared structured effort response =
      subst (All (NamesDeclaredItem tools))
        (sym (
          ap items_of (
            get_field-set_field_ne (lit "reasoning") (lit "output") _ _ (unfold lit ◌=ᵗ◌ in refl)
            ∙ get_field-set_field_self (lit "output") _ response)
          ∙ to_list-of_list _))
        (filtered_output-NamesDeclared tools structured _)

  with_response-StepGuarded :
      (kind : Text) (payload : Fields) (s : Stream) (response : Json)
      → All IsDeclared tools
      → IsGuarded tools s
      → (is_item_event kind ≡ true → NamesDeclaredItem tools (get_field (lit "item") payload))
      → get_field (lit "response") payload ≡ response
      → StepGuarded tools (with_response accepts k kind payload s response)
  with_response-StepGuarded kind payload s (object response) d g item p =
      if_split (StepGuarded tools) (kind =ᵗ lit "response.completed")
        (λ _.
          complete-StepGuarded kind payload (with_format s.bridge.structured response) s d g item)
        (λ _. pass_on-StepGuarded kind _ s g (
          IsShown-response kind payload _ item (
            incomplete-NamesDeclared (is_structured s) s.bridge.effort
              (with_format s.bridge.structured response))))
  with_response-StepGuarded kind payload s _ d g item p =
      pass_on-StepGuarded kind payload s g (item, unfold get_field in rw p tt)

  process_payload-StepGuarded :
      (kind : Text) (payload : Fields) (s : Stream)
      → All IsDeclared tools
      → IsGuarded tools s
      → StepGuarded tools (process_payload accepts k kind payload s)
  unfolding process_payload
  process_payload-StepGuarded kind payload s d g =
      if_split P
        (is_structured s && kind =ᵗ lit "response.completed" && not (is_object_value response))
        (λ _. error_guarded tools missing_response s g)
        (λ _.
          if_split P (is_tool_event kind) (λ _. g)
            (λ _.
              if_split P (is_structured s && is_structured_message_event kind item) (λ _. g)
                (λ _.
                  if_split P (kind =ᵗ lit "response.output_item.added" && is_tool item) (λ _. g)
                    (λ added.
                      if_split P (kind =ᵗ lit "response.output_item.done" && is_tool item)
                        (λ _. waits)
                        (λ done.
                          with_response-StepGuarded kind payload s response d g (no_tool added done)
                            refl)))))
    where
      P : Step → Type 0
      P = StepGuarded tools

      item : Fields
      item = fields_of (get_field (lit "item") payload)

      response : Json
      response = get_field (lit "response") payload

      waits : StepGuarded tools (wait_for item s)
      waits =
          if_split P (leb max_tools (length s.pending_tools))
            (λ _. error_guarded tools too_many_tools s g)
            (λ _. IsGuarded-as tools s _ refl refl refl g)

      no_tool :
          (kind =ᵗ lit "response.output_item.added" && is_tool item) ≡ false
          → (kind =ᵗ lit "response.output_item.done" && is_tool item) ≡ false
          → is_item_event kind ≡ true
          → NamesDeclared tools item
      no_tool added done event is = absurd (ground (arith, added, done, event, is))

  pub process-StepGuarded :
      (event bytes : Text) (s : Stream)
      → All IsDeclared tools
      → IsGuarded tools s
      → StepGuarded tools (process accepts k event bytes s)
  unfolding process
  process-StepGuarded event bytes s d g =
      if_split (StepGuarded tools) (bytes =ᵗ lit "[DONE]") (λ _. g)
        (λ _. value (object_read (k.decode bytes)))
    where
      value : (o : Option Json) → StepGuarded tools (process_value accepts k event s o)
      value (some (object payload)) =
          process_payload-StepGuarded (kind_or event (text_at (lit "type") payload)) payload s d g
      value _ = error_guarded tools invalid_event s g
