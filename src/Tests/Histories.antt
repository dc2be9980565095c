-- ===== src/Tests/Histories.antt =====
-- `translateHistory` of basispoints/tools.go on a concrete history.
use cliproxyapi_plugin_basis.Common.{
  ◌≡◌, refl, sym, ap, ◌∙◌, none, some, List, [], ◌∷◌, All, Result, ok, err,
}
use cliproxyapi_plugin_basis.Common.Text.{
  lit, ◌=ᵗ◌, trim_space, trim_left, trim_right, cut_prefix, has_prefix, elem,
}
use cliproxyapi_plugin_basis.Json.{
  Json, object, Fields, end, object_of, text_at, find_field, get_field, set_field, delete_field,
  ltb_text, Coding,
}
use cliproxyapi_plugin_basis.Content.{validate_history_content, validate_parts}
use cliproxyapi_plugin_basis.Replay.{
  empty, get, get_for_call, get_matching, get_found, put, insert_entry, drop_old, evict,
}
use cliproxyapi_plugin_basis.Tools.{
  Bridge, ToolError, incomplete_call, qualified, replay_put, replay_get,
}
use cliproxyapi_plugin_basis.Tools.History.{
  rebuild_native_history_call, call_payload, history_call_fingerprint, internal_field, Translated,
  translate_history, history_items, history_step, item_kind, push_item, keep_item, lowered_output,
  native_call, original_call, replay_get_for_call,
}
use cliproxyapi_plugin_basis.Tools.History.Paired.{Paired}
use cliproxyapi_plugin_basis.Tools.History.Originals.{HoldsOriginals}
use cliproxyapi_plugin_basis.Tools.History.Answers.{ReadsInput, translate_history-Paired}
use cliproxyapi_plugin_basis.Tests.Calling.{value_or, text_field, f_call, f_item, coding, no_bridge}

abbrev f_output : Fields
f_output = object_of (text_field "type" "function_call_output" ∷ text_field "call_id" "c1" ∷ [])

-- A call, and its result.
abbrev history : List Json
history = f_call ∷ object f_output ∷ []

abbrev rebuilt : Fields
rebuilt = value_or (rebuild_native_history_call coding f_item) end

-- A coding that reads back the item that is rebuilt.
abbrev rebuilding : Coding
rebuilding = record coding { decode = λ t. some (object rebuilt) }

abbrev sound_bridge : Bridge
sound_bridge = record no_bridge { replay = some empty }

abbrev translated : Translated
translated =
    value_or (translate_history rebuilding (λ raw. none) history sound_bridge)
      (record { bridge = no_bridge; items = []; input = [] })

translated_ok : translate_history rebuilding (λ raw. none) history sound_bridge ≡ ok translated
unfolding delete_field text_at get_field object_of set_field ◌=ᵗ◌ lit ltb_text trim_space trim_right
    trim_left find_field call_payload qualified rebuild_native_history_call has_prefix cut_prefix
    translate_history history_items history_step item_kind push_item keep_item lowered_output
    native_call original_call replay_get_for_call replay_get replay_put history_call_fingerprint
    elem empty get get_for_call get_matching get_found put insert_entry drop_old evict
    validate_history_content validate_parts
translated_ok = refl

rebuilt_ok :
    rebuild_native_history_call rebuilding (delete_field internal_field f_item) ≡ ok rebuilt
unfolding delete_field text_at get_field object_of set_field ◌=ᵗ◌ lit ltb_text trim_space trim_right
    trim_left find_field call_payload qualified rebuild_native_history_call has_prefix cut_prefix
rebuilt_ok = refl

output_refused :
    rebuild_native_history_call rebuilding (delete_field internal_field f_output)
    ≡ err incomplete_call
unfolding delete_field text_at get_field object_of set_field ◌=ᵗ◌ lit ltb_text trim_space trim_right
    trim_left find_field call_payload qualified rebuild_native_history_call has_prefix cut_prefix
output_refused = refl

no_item :
    (native : Fields) → ◌≡◌ {A = Result ToolError Fields} (err incomplete_call) (ok native) → ⊥
no_item native h = cc

reads_history : All (ReadsInput rebuilding) history
reads_history = (
  λ native h. ap (λ r. some (object (value_or r end))) (sym rebuilt_ok ∙ h),
  (λ native h. absurd (no_item native (sym output_refused ∙ h)), tt),
)

empty_originals : HoldsOriginals rebuilding (lit "s") (some empty)
unfolding empty
empty_originals key e found = absurd (cc)

translate_history-Paired_example :
    Paired translated.items
    × HoldsOriginals rebuilding translated.bridge.scope translated.bridge.replay
translate_history-Paired_example =
    translate_history-Paired rebuilding (λ raw. none) history sound_bridge translated reads_history
      empty_originals translated_ok
