-- ===== src/Sse/Completed.antt =====
-- The final event of a buffered answer (basispoints/sse.go). gjson and sjson are the record `Reader`.
use cliproxyapi_plugin_basis.Common.{
  ◌≡◌, ap, ◌∙◌, Bool, true, false, not, ◌&&◌, ◌||◌, Option, none, some, List, [], ◌∷◌, ◌++◌, is_nil,
  ◌==◌, arith, if◌then◌else◌, All,
}
use cliproxyapi_plugin_basis.Common.Text.{Text, lit, ◌=ᵗ◌, trim_space, contains}
use cliproxyapi_plugin_basis.Common.Split.{push_front}
use cliproxyapi_plugin_basis.Sse.{lf_lf, sse_data, json_object}

pub record Reader : Type 0 where
  -- gjson.GetBytes(raw, path).String() and .Exists()
  pub string_at : Text → Text → Text
  pub exists_at : Text → Text → Bool
  -- the text in the member `response` of `{"type":"response.completed"}`
  pub set_response : Text → Option Text

-- bytes.ReplaceAll of `\r\n` by `\n`.
unfoldable pub unify_lines : Text → Text
unify_lines [] = []
unify_lines (c ∷ []) = c ∷ []
unify_lines (c ∷ d ∷ s) =
    let one = unify_lines (d ∷ s) in
    let two = unify_lines s in if c == 13 && d == 10 then 10 ∷ two else c ∷ one

-- bytes.Split at `\n\n`.
unfoldable pub split_events : Text → List Text
split_events [] = [] ∷ []
split_events (c ∷ []) = (c ∷ []) ∷ []
split_events (c ∷ d ∷ s) =
    let one = split_events (d ∷ s) in
    let two = split_events s in if c == 10 && d == 10 then [] ∷ two else push_front c one

unfoldable pub nonblank : List Text → List Text
nonblank [] = []
nonblank (part ∷ parts) =
    let rest = nonblank parts in if is_nil (trim_space part) then rest else part ∷ rest

unfoldable pub collect_events : Text → List Text
unfolding unify_lines split_events nonblank
collect_events raw =
    let lines = unify_lines raw in
    if not (contains lines lf_lf) && not (contains lines (lit "data:"))
    then lines ∷ []
    else nonblank (split_events lines)

module _ (reader : Reader) where
  abbrev pub is_final : Text → Bool
  is_final content =
      reader.string_at content (lit "type") =ᵗ lit "response.completed"
      || reader.string_at content (lit "type") =ᵗ lit "response.incomplete"

  pub wrap_completed : Text → Text
  wrap_completed raw =
      let content = trim_space raw in
      if is_nil content || not (json_object content)
      then content
      else if is_final content
      then content
      else if not (reader.exists_at content (lit "output"))
          && not (reader.exists_at content (lit "id"))
      then content
      else elim (reader.set_response content) [ none ↦ content | some wrapped ↦ wrapped ]

  abbrev pub is_skipped : Text → Bool
  is_skipped content = is_nil content || content =ᵗ lit "[DONE]"

  -- The loop of `completedEvent`; `last` is the data of the last event before.
  pub scan_events : Text → Text → List Text → Text
  unfolding wrap_completed
  scan_events raw last [] = wrap_completed (if is_nil last then trim_space raw else last)
  scan_events raw last (event ∷ events) =
      let content = sse_data event in
      let skipped = scan_events raw last events in
      let passed = scan_events raw content events in
      if is_skipped content then skipped else if is_final content then content else passed

  unfoldable pub completed_event : Text → Text
  unfolding scan_events
  completed_event raw = scan_events raw [] (collect_events raw)

  -- The event has data of a final kind.
  abbrev pub Finishes : Text → Type 0
  Finishes event = (is_skipped (sse_data event) ≡ false) × (is_final (sse_data event) ≡ true)

  -- The event has no data, or is of another kind.
  abbrev pub Passes : Text → Type 0
  Passes event = (not (is_skipped (sse_data event)) && is_final (sse_data event)) ≡ false

  scan_events-first :
      (raw last : Text) (before : List Text) (event : Text) (after : List Text)
      → All Passes before
      → Finishes event
      → scan_events raw last (before ++ event ∷ after) ≡ sse_data event
  unfolding scan_events
  scan_events-first raw last [] event after h f = ground (arith, f.0, f.1)
  scan_events-first raw last (x ∷ before) event after h f =
      passing (is_skipped (sse_data x)) (is_final (sse_data x)) (sse_data x) h.0
        (scan_events-first raw last before event after h.1 f)
        (scan_events-first raw (sse_data x) before event after h.1 f)
    where
      passing :
          (skip final : Bool) (content : Text) {a b goal : Text}
          → (not skip && final) ≡ false
          → a ≡ goal
          → b ≡ goal
          → (if skip then a else if final then content else b) ≡ goal
      passing true final content p q r = q
      passing false true content p q r = absurd (cc)
      passing false false content p q r = r

  -- The completed event of an answer is the data of the first of its events that is of a final kind,
  -- whatever stands before and after.
  pub completed_event-first :
      (raw : Text) (before : List Text) (event : Text) (after : List Text)
      → collect_events raw ≡ before ++ event ∷ after
      → All Passes before
      → Finishes event
      → completed_event raw ≡ sse_data event
  unfolding completed_event
  completed_event-first raw before event after e h f =
      ap (scan_events raw []) e ∙ scan_events-first raw [] before event after h f
