-- ===== src/Stream.antt =====
-- `transform` of basispoints/stream.go: the events of the gateway, as events for the client. The
-- writer is a parameter, which says of each event whether it is written. The text of an event is its
-- kind and its payload, with the two fields that `emit` sets in the payload kept beside it.
pub mod Lines
pub mod Events
pub mod Items
pub mod Process
pub mod Shown
pub mod Upstream
pub mod Body
use cliproxyapi_plugin_basis.Common.{
  ℕ, suc, ◌+◌, Bool, true, false, not, ◌&&◌, ◌||◌, Option, none, some, List, [], ◌∷◌, ◌++◌, is_nil,
  leb, ltb, if◌then◌else◌, length, Result, ok, err, guard, ◌>>◌, ◌>>=◌,
}
use cliproxyapi_plugin_basis.Common.Text.{Text, lit, ◌=ᵗ◌, elem}
use cliproxyapi_plugin_basis.Json.{
  Json, null, string, array, object, nil, Fields, end, as_object, fields_of, items_of, of_list,
  text, text_at, get_field, set_field, object_of, object_read, Coding,
}
use cliproxyapi_plugin_basis.Tools.{Structured, Bridge, ToolError, is_tool, is_tool_event}
use cliproxyapi_plugin_basis.Tools.Calls.{translate_response}
use cliproxyapi_plugin_basis.Structured.{
  StructuredError, validate_structured, is_structured_message_event,
}

pub data StreamError : Type 0 where
  -- the pipe is closed, or the gateway's stream failed
  closed_pipe read_failure : StreamError
  -- the errors of the protocol
  invalid_event missing_response too_many_tools omitted_tool event_too_large line_too_long :
      StreamError
  bad_answer : StructuredError → StreamError
  bad_call : ToolError → StreamError

-- An event that is written. An `output_index` or a `content_index` is kept as a number.
pub data Payload : Type 0 where
  -- the payload of the gateway's event
  passed : Fields → Payload
  -- an item of the response, at its index
  item_added item_done : ℕ → Fields → Payload
  -- a value of an item, under a field: the identifier of the item, its index
  value_event : ℕ → Text → Text → Json → Payload
  -- a value of a part of a message: the index of the item, its identifier, the index of the part
  part_event : ℕ → Text → ℕ → Text → Json → Payload
  -- the report of an error
  failure : StreamError → Payload

pub record Written : Type 0 where
  pub kind : Text
  pub sequence_number : ℕ
  pub payload : Payload

-- The variables of `transform`.
pub record Stream : Type 0 where
  pub sequence : ℕ
  pub terminal : Bool
  pub emitted : List Text
  pub pending_tools : List Text
  pub bridge : Bridge
  pub written : List Written

-- An error, and what was written before it.
abbrev pub Failed : Type 0
Failed = StreamError × Stream

abbrev pub Step : Type 0
Step = Result Failed Stream

-- The key of a pending call.
abbrev pub pending_key : Fields → Text
pending_key item = text_at (lit "call_id") item ++ 0 ∷ text_at (lit "id") item

unfoldable pub forget : Text → List Text → List Text
forget a [] = []
forget a (x ∷ xs) = let rest = forget a xs in if x =ᵗ a then rest else x ∷ rest

-- The pending calls that the response has are no longer pending.
unfoldable pub settle_pending : List Json → List Text → List Text
settle_pending [] pending = pending
settle_pending (raw ∷ rest) pending =
    let item = fields_of raw in
    settle_pending rest (if is_tool item then forget (pending_key item) pending else pending)

-- The output of a response that is not complete: no tools, and no messages if they are structured.
unfoldable pub filtered_output : Bool → List Json → List Json
filtered_output structured [] = []
filtered_output structured (raw ∷ rest) =
    let item = fields_of raw in
    let others = filtered_output structured rest in
    if not (is_tool item) && (not structured || not (text_at (lit "type") item =ᵗ lit "message"))
    then raw ∷ others
    else others

abbrev pub is_structured : Stream → Bool
is_structured s = elim s.bridge.structured [ none ↦ false | some f ↦ true ]

abbrev pub value_field : Fields → Text
value_field item =
    if text_at (lit "type") item =ᵗ lit "custom_tool_call" then lit "input" else lit "arguments"

abbrev pub value_prefix : Fields → Text
value_prefix item =
    if text_at (lit "type") item =ᵗ lit "custom_tool_call"
    then lit "response.custom_tool_call_input"
    else lit "response.function_call_arguments"

-- The item without its value, which comes in parts.
abbrev pub added_item : Fields → Fields
added_item item =
    set_field (lit "status") (string (lit "in_progress"))
      (set_field (value_field item) (string []) item)

abbrev pub part_field : Fields → Text
part_field part = if text_at (lit "type") part =ᵗ lit "refusal" then lit "refusal" else lit "text"

abbrev pub part_prefix : Fields → Text
part_prefix part =
    if text_at (lit "type") part =ᵗ lit "refusal"
    then lit "response.refusal"
    else lit "response.output_text"

abbrev pub is_end : Text → Bool
is_end kind = elem kind (
    lit "response.completed" ∷ lit "response.incomplete" ∷ lit "response.failed" ∷ lit "error" ∷ [])

-- The error of an event, before anything of it is written.
abbrev pub lift : {A : Type 0} → Stream → Result StreamError A → Result Failed A
lift s (ok a) = ok a
lift s (err e) = err (e, s)

abbrev pub answer_checked : Coding → Option Structured → Fields → Result StreamError (Unit {0})
answer_checked k none response = ok tt
answer_checked k (some f) response = elim (validate_structured k f response) [
  | ok u ↦ ok u
  | err e ↦ err (bad_answer e)
]

abbrev pub translated : Coding → Fields → Bridge → Result StreamError (Fields × Bridge)
translated k response b = elim (translate_response k response b) [
  | ok r ↦ ok r
  | err e ↦ err (bad_call e)
]

abbrev pub with_format : Option Structured → Fields → Fields
with_format none response = response
with_format (some f) response =
    set_field (lit "text")
      (object
        (set_field (lit "format") (object f.format) (fields_of (get_field (lit "text") response))))
      response

-- A response that is not complete.
abbrev pub incomplete : Bool → Text → Fields → Fields
incomplete structured effort response =
    set_field (lit "reasoning") (object (object_of ((lit "effort", string effort) ∷ []))) (
      set_field (lit "output")
        (array
          (of_list (filtered_output structured (items_of (get_field (lit "output") response)))))
        response)

abbrev pub is_object_value : Json → Bool
is_object_value (object fs) = true
is_object_value _ = false

abbrev pub max_tools : ℕ
max_tools = 1024

-- A call of a tool that is done waits for the complete response.
abbrev pub wait_for : Fields → Stream → Step
wait_for item s =
    if leb max_tools (length s.pending_tools)
    then err (too_many_tools, s)
    else ok (record s {
      pending_tools =
          if elem (pending_key item) s.pending_tools
          then s.pending_tools
          else pending_key item ∷ s.pending_tools;
    })

abbrev pub kind_or : Text → Text → Text
kind_or event kind = if is_nil kind then event else kind

module _ (accepts : ℕ → Bool) where
  -- `emit`
  unfoldable pub emit : Text → Payload → Stream → Step
  emit kind payload s =
      let w : Written = record { kind = kind; sequence_number = s.sequence; payload = payload } in
      if accepts s.sequence
      then ok (record s { sequence = s.sequence + 1; written = s.written ++ w ∷ [] })
      else err (closed_pipe, record s { sequence = s.sequence + 1 })

  -- `emitTool`
  unfoldable pub emit_tool : Fields → ℕ → Stream → Step
  unfolding emit
  emit_tool item index s =
      let id = text_at (lit "id") item in
      let value = get_field (value_field item) item in
      if elem id s.emitted
      then ok s
      else (emit (lit "response.output_item.added") (item_added index (added_item item))
            (record s { emitted = id ∷ s.emitted })
          >>= λ s1.
              emit (value_prefix item ++ lit ".delta") (value_event index id (lit "delta") value) s1
              >>= λ s2.
                  emit (value_prefix item ++ lit ".done")
                    (value_event index id (value_field item) value) s2
                  >>= λ s3. emit (lit "response.output_item.done") (item_done index item) s3)

  -- The events of a part of a message.
  unfoldable pub emit_part : ℕ → Text → ℕ → Fields → Stream → Step
  unfolding emit
  emit_part index id i part s =
      let field = part_field part in
      emit (lit "response.content_part.added")
        (part_event index id i (lit "part") (object (set_field field (string []) part))) s
      >>= λ s1.
          emit (part_prefix part ++ lit ".delta")
            (part_event index id i (lit "delta") (get_field field part)) s1
          >>= λ s2.
              emit (part_prefix part ++ lit ".done")
                (part_event index id i field (get_field field part)) s2
              >>= λ s3.
                  emit (lit "response.content_part.done")
                    (part_event index id i (lit "part") (object part)) s3

  unfoldable pub emit_parts : ℕ → Text → ℕ → List Json → Stream → Step
  unfolding emit_part
  emit_parts index id i [] s = ok s
  emit_parts index id i (raw ∷ rest) s =
      emit_part index id i (fields_of raw) s >>= λ s'. emit_parts index id (suc i) rest s'

  -- `emitStructuredMessage`
  unfoldable pub emit_structured_message : Fields → ℕ → Stream → Step
  unfolding emit_parts
  emit_structured_message item index s =
      emit (lit "response.output_item.added")
        (item_added index (
          set_field (lit "status") (string (lit "in_progress"))
            (set_field (lit "content") (array nil) item)))
        s
      >>= λ s'.
          emit_parts index (text_at (lit "id") item) 0 (items_of (get_field (lit "content") item))
            s'
          >>= λ s''. emit (lit "response.output_item.done") (item_done index item) s''

  -- The items of a complete response.
  abbrev pub emit_item : Fields → ℕ → Stream → Step
  emit_item item index s =
      if is_tool item
      then emit_tool item index s
      else if is_structured s && text_at (lit "type") item =ᵗ lit "message"
      then emit_structured_message item index s
      else ok s

  unfoldable pub emit_output : ℕ → List Json → Stream → Step
  emit_output index [] s = ok s
  emit_output index (raw ∷ rest) s =
      emit_item (fields_of raw) index s >>= λ s'. emit_output (suc index) rest s'

  -- The end of `process`.
  abbrev pub pass_on : Text → Fields → Stream → Step
  pass_on kind payload s = emit kind (passed payload) (record s { terminal = is_end kind })

  -- A complete response.
  unfoldable pub complete : Coding → Text → Fields → Fields → Stream → Step
  unfolding emit_output
  complete k kind payload response s =
      lift s (answer_checked k s.bridge.structured response)
      >> (let left =
            settle_pending (items_of (get_field (lit "output") response)) s.pending_tools in
          let s' = record s { pending_tools = left } in
          lift s' (guard (is_nil left) omitted_tool)
          >> (lift s' (translated k response s.bridge) >>= λ r.
              emit_output 0 (items_of (get_field (lit "output") r.0)) (record s' { bridge = r.1 })
              >>= λ s''. pass_on kind (set_field (lit "response") (object r.0) payload) s''))

  abbrev pub with_response : Coding → Text → Fields → Stream → Json → Step
  with_response k kind payload s (object response) =
      let formatted = with_format s.bridge.structured response in
      if kind =ᵗ lit "response.completed"
      then complete k kind payload formatted s
      else pass_on kind
          (set_field (lit "response")
            (object (incomplete (is_structured s) s.bridge.effort formatted)) payload)
          s
  with_response k kind payload s _ = pass_on kind payload s

  unfoldable pub process_payload : Coding → Text → Fields → Stream → Step
  unfolding complete
  process_payload k kind payload s =
      let item = fields_of (get_field (lit "item") payload) in
      let response = get_field (lit "response") payload in
      if is_structured s && kind =ᵗ lit "response.completed" && not (is_object_value response)
      then err (missing_response, s)
      else if is_tool_event kind
      then ok s
      else if is_structured s && is_structured_message_event kind item
      then ok s
      else if kind =ᵗ lit "response.output_item.added" && is_tool item
      then ok s
      else if kind =ᵗ lit "response.output_item.done" && is_tool item
      then wait_for item s
      else with_response k kind payload s response

  abbrev pub process_value : Coding → Text → Stream → Option Json → Step
  process_value k event s (some (object payload)) =
      process_payload k (kind_or event (text_at (lit "type") payload)) payload s
  process_value k event s _ = err (invalid_event, s)

  -- `process`
  unfoldable pub process : Coding → Text → Text → Stream → Step
  unfolding process_payload
  process k event bytes s =
      if bytes =ᵗ lit "[DONE]" then ok s else process_value k event s (object_read (k.decode bytes))
