-- ===== src/Tools/History.antt =====
-- `translateHistory` of basispoints/tools.go: the client's history, in which each call of a tool is the
-- native item that it was translated from, or one that is rebuilt.
pub mod Paired
pub mod Originals
pub mod Answers
pub mod Kept
use cliproxyapi_plugin_basis.Common.{
  ℕ, suc, Bool, true, false, not, ◌&&◌, ◌||◌, Option, none, some, List, [], ◌∷◌, ◌++◌, is_nil,
  if◌then◌else◌, Result, ok, err, guard, ◌>>◌, ◌>>=◌,
}
use cliproxyapi_plugin_basis.Common.Text.{Text, lit, ◌=ᵗ◌, elem}
use cliproxyapi_plugin_basis.Content.{Url, validate_history_content, ContentError}
use cliproxyapi_plugin_basis.Json.{
  Json, null, bool, string, array, object, Items, nil, Fields, as_string, text_at, find_field,
  get_field, set_field, delete_field, object_of, Coding, fingerprint,
}
use cliproxyapi_plugin_basis.Replay.{get_for_call}
use cliproxyapi_plugin_basis.Tools.{
  Bridge, ToolError, incomplete_call, bad_namespace, undecodable_arguments, other_arguments,
  bad_input, other_call, invalid_item, reference_item, update_item, missing_original, bad_content,
  qualified, has_name, namespace_value, object_argument, is_item_id, replay_put, replay_get,
  replay_answer,
}

abbrev pub input_or : ToolError → Option Text → Result ToolError Text
input_or e none = err e
input_or e (some s) = ok s

-- The argument of a call, with the name of its field.
unfoldable pub call_payload : Coding → Fields → Result ToolError (Text × Json)
call_payload k item =
    let kind = text_at (lit "type") item in
    if kind =ᵗ lit "function_call"
    then (object_argument k undecodable_arguments other_arguments (get_field (lit "arguments") item)
        >>= λ arguments. ok (lit "arguments", object arguments))
    else if kind =ᵗ lit "custom_tool_call"
    then (input_or bad_input (as_string (get_field (lit "input") item)) >>= λ input.
        ok (lit "input", string input))
    else err other_call

abbrev pub canonical_call : Fields → Text → Text × Json → Fields
canonical_call item namespace payload = set_field payload.0 payload.1 (
    object_of (
      (lit "type", string (text_at (lit "type") item))
      ∷ (lit "call_id", string (text_at (lit "call_id") item))
      ∷ (lit "name", string (text_at (lit "name") item))
      ∷ (lit "namespace", string namespace)
      ∷ []))

-- `historyCallFingerprint`
unfoldable pub history_call_fingerprint : Coding → Fields → Text
unfolding call_payload
history_call_fingerprint k item =
    if has_name (text_at (lit "call_id") item) && has_name (text_at (lit "name") item)
    then elim (namespace_value (find_field (lit "namespace") item)) [
      | none ↦ []
      | some namespace ↦ elim (call_payload k item) [
        | err e ↦ []
        | ok payload ↦ fingerprint k (object (canonical_call item namespace payload))
      ]
    ]
    else []

-- The envelope and the arguments of the transport in which a call is wrapped.
abbrev pub call_envelope : Text → Text × Json → Json
call_envelope name payload =
    object (set_field payload.0 payload.1 (object_of ((lit "name", string name) ∷ [])))

abbrev pub transport_arguments : Text → Json
transport_arguments code = object (
    object_of (
      (lit "code", string code)
      ∷ (lit "summary", string (lit "Replay a previously requested client tool"))
      ∷ (
        lit "extended_summary",
        string (
            lit
              "The supplied client history contains this tool call; consume its recorded result without repeating it."),
      )
      ∷ (lit "destructive", bool false)
      ∷ (lit "references", array nil)
      ∷ []))

abbrev pub rebuilt_item : Coding → Fields → Text → Text → Fields
rebuilt_item k item id arguments =
    let item_id = text_at (lit "id") item in
    object_of (
      (lit "type", string (lit "function_call"))
      ∷ (
        lit "id",
        string (if is_item_id item_id then item_id else lit "fc_" ++ fingerprint k (string id)),
      )
      ∷ (lit "call_id", string id)
      ∷ (lit "name", string (lit "run_officejs"))
      ∷ (lit "arguments", string arguments)
      ∷ (lit "status", string (lit "completed"))
      ∷ [])

abbrev pub namespace_or : ToolError → Option Text → Result ToolError Text
namespace_or e none = err e
namespace_or e (some s) = ok s

-- `rebuildNativeHistoryCall`
unfoldable pub rebuild_native_history_call : Coding → Fields → Result ToolError Fields
unfolding call_payload
rebuild_native_history_call k item =
    let id = text_at (lit "call_id") item in
    let name = text_at (lit "name") item in
    guard (has_name id && has_name name) incomplete_call
    >> (namespace_or bad_namespace (namespace_value (find_field (lit "namespace") item))
        >>= λ namespace. call_payload k item >>= λ payload.
            let code = k.encode (call_envelope (qualified namespace name) payload) in
            ok (rebuilt_item k item id (k.encode (transport_arguments code))))

-- The loop's variables.
pub record History : Type 0 where
  pub bridge : Bridge
  pub result : List Json
  pub seen_calls : List Text
  pub trigger : Option Json

-- The cases of the type of an item.
pub data ItemKind : Type 0 where
  additional_tools item_reference compaction_trigger reasoning call call_output configuration_update
        other :
      ItemKind

unfoldable pub item_kind : Text → ItemKind
item_kind kind =
    if kind =ᵗ lit "additional_tools"
    then additional_tools
    else if kind =ᵗ lit "item_reference"
    then item_reference
    else if kind =ᵗ lit "compaction_trigger"
    then compaction_trigger
    else if kind =ᵗ lit "reasoning"
    then reasoning
    else if elem kind (lit "function_call" ∷ lit "custom_tool_call" ∷ [])
    then call
    else if elem kind (lit "function_call_output" ∷ lit "custom_tool_call_output" ∷ [])
    then call_output
    else if kind =ᵗ lit "configuration_update"
    then configuration_update
    else other

unfoldable pub push_item : Fields → History → History
push_item item h = record h { result = h.result ++ object item ∷ [] }

abbrev pub content_checked : Result ContentError (Unit {0}) → Result ToolError (Unit {0})
content_checked (ok u) = ok u
content_checked (err e) = err (bad_content e)

-- `b.replay.getForCall`
unfoldable pub replay_get_for_call : Coding → Bridge → Text → Fields → Option Fields × Bridge
unfolding history_call_fingerprint
replay_get_for_call k b id item = elim b.replay [
  | none ↦ (none, b)
  | some c ↦ replay_answer k b (get_for_call c b.scope id (history_call_fingerprint k item))
]

-- The native item of a call.
abbrev pub native_or_rebuilt :
    Coding → Text → Fields → Option Fields × Bridge → Result ToolError (Fields × Bridge)
native_or_rebuilt k id item (some native, b) = ok (native, b)
native_or_rebuilt k id item (none, b) = rebuild_native_history_call k item >>= λ native.
    replay_put k b id native (history_call_fingerprint k item) >>= λ b'. ok (native, b')

unfoldable pub native_call : Coding → Text → Fields → Bridge → Result ToolError (Fields × Bridge)
unfolding replay_get_for_call
native_call k id item b = native_or_rebuilt k id item (replay_get_for_call k b id item)

-- The original of a result of a tool, where no call of the history is it.
abbrev pub with_original : Text → History → Option Fields × Bridge → Result ToolError History
with_original id h (none, b) = err missing_original
with_original id h (some native, b) =
    ok (push_item native (record h { bridge = b; seen_calls = id ∷ h.seen_calls }))

unfoldable pub original_call : Coding → Text → History → Result ToolError History
original_call k id h =
    if elem id h.seen_calls then ok h else with_original id h (replay_get k h.bridge id)

-- The result of a tool, as the gateway takes it.
unfoldable pub lowered_output : Coding → Fields → Fields
lowered_output k item =
    let own = text_at (lit "id") item in
    let id = if is_nil own then lit "fc_" ++ text_at (lit "call_id") item else own in
    set_field (lit "id")
      (string (if is_item_id id then id else lit "fc_" ++ fingerprint k (string id)))
      (set_field (lit "type") (string (lit "function_call_output")) item)

-- The end of the loop's body; `left` is what the item of the input is by then.
unfoldable pub keep_item :
    (Text → Option Url) → ℕ → Fields → Fields → History → Result ToolError (History × Fields)
keep_item parse index left item h =
    content_checked
      (validate_history_content parse (get_field (lit "content") item) index (lit "content"))
    >> ok (push_item item h, left)

unfoldable pub reasoning_item : Fields → History → History
reasoning_item item h =
    let encrypted = text_at (lit "encrypted_content") item in
    if is_nil encrypted
    then h
    else push_item
        (object_of (
          (lit "type", string (lit "reasoning"))
          ∷ (lit "summary", array nil)
          ∷ (lit "encrypted_content", string encrypted)
          ∷ []))
        h

-- The switch on the type of the item, and what follows it.
unfoldable pub history_step :
    Coding
    → (Text → Option Url)
    → ℕ
    → Fields
    → History
    → ItemKind
    → Result ToolError (History × Fields)
unfolding native_call original_call keep_item lowered_output
history_step k parse index item h additional_tools = ok (h, item)
history_step k parse index item h item_reference = err reference_item
history_step k parse index item h compaction_trigger =
    ok (record h { trigger = some (object item) }, item)
history_step k parse index item h reasoning = ok (reasoning_item item h, item)
history_step k parse index item h call =
    let id = text_at (lit "call_id") item in
    native_call k id item h.bridge >>= λ found.
    keep_item parse index item found.0
      (record h { bridge = found.1; seen_calls = id ∷ h.seen_calls })
history_step k parse index item h call_output =
    original_call k (text_at (lit "call_id") item) h >>= λ h'.
    content_checked
      (validate_history_content parse (get_field (lit "output") item) index (lit "output"))
    >> keep_item parse index (lowered_output k item) (lowered_output k item) h'
history_step k parse index item h configuration_update = err update_item
history_step k parse index item h other = keep_item parse index item item h

abbrev pub internal_field : Text
internal_field = lit "internal_chat_message_metadata_passthrough"

abbrev pub history_item :
    Coding → (Text → Option Url) → ℕ → Json → History → Result ToolError (History × Fields)
history_item k parse index (object raw) h =
    let item = delete_field internal_field raw in
    history_step k parse index item h (item_kind (text_at (lit "type") item))
history_item k parse index _ h = err invalid_item

-- The loop, from an index on; with the items of the input as it leaves them.
unfoldable pub history_items :
    Coding → (Text → Option Url) → ℕ → List Json → History → Result ToolError (History × List Json)
unfolding history_step
history_items k parse index [] h = ok (h, [])
history_items k parse index (raw ∷ rest) h = history_item k parse index raw h >>= λ first.
    history_items k parse (suc index) rest first.0 >>= λ later.
    ok (later.0, object first.1 ∷ later.1)

abbrev pub with_trigger : Option Json → List Json → List Json
with_trigger none result = result
with_trigger (some v) result = result ++ v ∷ []

-- What the translation returns, and what it leaves of its input, whose items it changes.
pub record Translated : Type 0 where
  pub bridge : Bridge
  pub items : List Json
  pub input : List Json

-- `translateHistory`
unfoldable pub translate_history :
    Coding → (Text → Option Url) → List Json → Bridge → Result ToolError Translated
unfolding history_items
translate_history k parse input b =
    history_items k parse 0 input
      (record { bridge = b; result = []; seen_calls = []; trigger = none })
    >>= λ done. ok (record {
      bridge = done.0.bridge;
      items = with_trigger done.0.trigger done.0.result;
      input = done.1;
    })
