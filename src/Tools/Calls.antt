-- ===== src/Tools/Calls.antt =====
-- `translateCall` of basispoints/tools.go and what it calls: a native call of the model, as a call of
-- one of the client's tools.
pub mod Relayed
pub mod Direct
pub mod Planned
pub mod Translated
pub mod Response
pub mod RoundTrip
use cliproxyapi_plugin_basis.Common.{
  ℕ, Bool, true, false, not, ◌&&◌, ◌||◌, Option, none, some, List, [], ◌∷◌, ◌++◌, is_nil,
  if◌then◌else◌, Result, ok, err, guard, ◌>>◌, ◌>>=◌,
}
use cliproxyapi_plugin_basis.Common.Text.{Text, lit, ◌=ᵗ◌, trim_prefix}
use cliproxyapi_plugin_basis.Common.Assoc.{Assoc, lookup}
use cliproxyapi_plugin_basis.Envelope.Decode.{
  EnvelopeError, decode_transport_envelope, envelope_name, envelope_arguments,
}
use cliproxyapi_plugin_basis.Envelope.Custom.{
  CustomCall, ordinary, bad_name, bad_code, oversize, custom, custom_transport_envelope,
}
use cliproxyapi_plugin_basis.Json.{
  Json, null, bool, string, array, object, Items, nil, Fields, as_string, as_object, fields_of,
  items_of, of_list, text_at, is_null, find_field, get_field, set_field, object_of, object_read,
  text, Coding, json_codec, fingerprint,
}
use cliproxyapi_plugin_basis.Tools.{
  Tool, Bridge, ToolError, bad_transport, empty_transport, foreign_tool, native_tool, bad_custom,
  bad_envelope, other_kind, raw_function, missing_call_id, conflicting_input, input_arguments,
  bad_input, direct_input, undecodable_arguments, other_arguments, object_argument, replay_put,
  is_tool,
}
use cliproxyapi_plugin_basis.Tools.History.{
  history_call_fingerprint, rebuild_native_history_call, input_or,
}
use cliproxyapi_plugin_basis.Tools.Plan.{is_plan_name, translate_native_plan, with_namespace}
use cliproxyapi_plugin_basis.Tools.Recover.{recover_transport_envelope}

abbrev pub fc_id : Coding → Text → Text
fc_id k id = lit "fc_" ++ fingerprint k (string id)

-- The identifier of an item, or one made of the call's.
abbrev pub item_id_or : Coding → Fields → Text → Text
item_id_or k native id =
    if is_nil (text_at (lit "id") native) then fc_id k id else text_at (lit "id") native

abbrev pub client_item : Coding → Fields → Tool → Text → Fields
client_item k native info id = with_namespace info.namespace (
    object_of (
      (lit "type", string (info.kind ++ lit "_call"))
      ∷ (lit "id", string (item_id_or k native id))
      ∷ (lit "call_id", string id)
      ∷ (lit "name", string info.name)
      ∷ (lit "status", string (lit "completed"))
      ∷ []))

-- `envelope["input"]`, or its other spelling.
abbrev pub input_value : Option Json → Option Json → Result ToolError Json
input_value (some v) (some alias) = err conflicting_input
input_value (some v) none = ok v
input_value none (some alias) = ok alias
input_value none none = ok null

abbrev pub without_arguments : Option Json → Result ToolError (Unit {0})
without_arguments none = ok tt
without_arguments (some v) = err input_arguments

abbrev pub custom_input : Fields → Result ToolError Text
custom_input envelope =
    input_value (find_field (lit "input") envelope) (find_field (lit "args") envelope) >>= λ value.
    without_arguments (find_field (lit "arguments") envelope)
    >> input_or bad_input (as_string value)

abbrev pub envelope_result : Result EnvelopeError Json → Result ToolError Json
envelope_result (ok v) = ok v
envelope_result (err e) = err (bad_envelope e)

abbrev pub function_arguments : Coding → Fields → Result ToolError Fields
function_arguments k envelope =
    envelope_result (envelope_arguments (json_codec k) (object envelope)) >>= λ args.
    object_argument k undecodable_arguments other_arguments args

-- `finishClientToolCall`
unfoldable pub finish_client_tool_call :
    Coding → Fields → Tool → Fields → Bool → Result ToolError Fields
finish_client_tool_call k native info envelope marked =
    let id = text_at (lit "call_id") native in
    let item = client_item k native info id in
    guard (not marked || info.kind =ᵗ lit "custom") raw_function
    >> (guard (not (is_nil id)) missing_call_id
        >> (if info.kind =ᵗ lit "custom"
            then (custom_input envelope >>= λ input. ok (
                set_field (lit "type") (string (lit "custom_tool_call")) (
                  set_field (lit "id") (string (lit "ctc_" ++ fingerprint k (string id)))
                    (set_field (lit "input") (string input) item))))
            else (function_arguments k envelope >>= λ args. ok (
                set_field (lit "arguments") (string (k.encode (object args)))
                  (set_field (lit "encrypted_function_args") (array nil) item)))))

abbrev pub cached_call :
    Coding → Bridge → Fields → Fields → Fields → Result ToolError (Fields × Bridge)
cached_call k b native stored result =
    replay_put k b (text_at (lit "call_id") native) stored (history_call_fingerprint k result)
    >>= λ b'. ok (result, b')

-- The tool that a native call names directly.
abbrev pub direct_tool : Assoc Tool → Text → Option Tool
direct_tool tools name = elim (lookup name tools) [
  | some info ↦ some info
  | none ↦
      let trimmed = trim_prefix name (lit "functions.") in
      if trimmed =ᵗ name then none else lookup trimmed tools
]

abbrev pub direct_envelope : Tool → Fields → Result ToolError Fields
direct_envelope info native =
    let kind = text_at (lit "type") native in
    if info.kind =ᵗ lit "function"
    then (guard (kind =ᵗ lit "function_call") (other_kind info.name kind)
        >> ok (
            object_of (
              (lit "name", string info.name)
              ∷ (lit "arguments", get_field (lit "arguments") native)
              ∷ [])))
    else if info.kind =ᵗ lit "custom"
    then (guard (kind =ᵗ lit "custom_tool_call") (other_kind info.name kind)
        >> (input_or direct_input (as_string (get_field (lit "input") native)) >>= λ input.
            ok (object_of ((lit "name", string info.name) ∷ (lit "input", string input) ∷ []))))
    else err native_tool

-- The metadata of an encrypted call.
abbrev pub with_encrypted : Tool → Json → Fields → Fields
with_encrypted info encrypted result =
    if not (is_null encrypted) && info.kind =ᵗ lit "function"
    then set_field (lit "encrypted_function_args") encrypted result
    else result

abbrev pub direct_call : Coding → Fields → Bridge → Option Tool → Result ToolError (Fields × Bridge)
direct_call k native b none = err native_tool
direct_call k native b (some info) = direct_envelope info native >>= λ envelope.
    finish_client_tool_call k native info envelope false >>= λ item.
    let result = with_encrypted info (get_field (lit "encrypted_function_args") native) item in
    rebuild_native_history_call k result >>= λ wrapped. cached_call k b native wrapped result

-- `translateDirectCatalogCall`
unfoldable pub translate_direct_catalog_call :
    Coding → Fields → Bridge → Result ToolError (Fields × Bridge)
translate_direct_catalog_call k native b =
    direct_call k native b (direct_tool b.tools (text_at (lit "name") native))

-- The arguments of the transport.
abbrev pub transport_read : Option Json → Result ToolError Fields
transport_read none = err bad_transport
transport_read (some (object fs)) = ok fs
transport_read (some _) = err empty_transport

abbrev pub transport_arguments_of : Coding → Json → Result ToolError Fields
transport_arguments_of k (object fs) = ok fs
transport_arguments_of k v = transport_read (object_read (k.decode (text v)))

abbrev pub recovered_or :
    Option Fields → Result EnvelopeError Json → Result ToolError (Fields × Bool)
recovered_or recovered (ok v) = ok (fields_of v, false)
recovered_or (some envelope) (err e) = ok (envelope, false)
recovered_or none (err e) = err (bad_envelope e)

-- The envelope, and whether it is a raw call of a custom tool.
abbrev pub marked_envelope :
    Coding → Assoc Tool → Json → CustomCall → Result ToolError (Fields × Bool)
marked_envelope k tools code (custom name input) =
    ok (object_of ((lit "name", string name) ∷ (lit "input", string input) ∷ []), true)
marked_envelope k tools code ordinary =
    recovered_or (recover_transport_envelope k code tools)
      (decode_transport_envelope (json_codec k) code)
marked_envelope k tools code bad = err (bad_custom bad)

abbrev pub transport_envelope : Coding → Assoc Tool → Fields → Result ToolError (Fields × Bool)
transport_envelope k tools arguments =
    marked_envelope k tools (get_field (lit "code") arguments)
      (custom_transport_envelope (json_codec k) (object arguments))

abbrev pub name_result : Result EnvelopeError Text → Result ToolError Text
name_result (ok name) = ok name
name_result (err e) = err (bad_envelope e)

abbrev pub catalog_tool : Option Tool → Result ToolError Tool
catalog_tool none = err foreign_tool
catalog_tool (some info) = ok info

abbrev pub transport_call : Coding → Fields → Assoc Tool → Result ToolError Fields
transport_call k native tools =
    transport_arguments_of k (get_field (lit "arguments") native) >>= λ arguments.
    transport_envelope k tools arguments >>= λ envelope.
    name_result (envelope_name (json_codec k) (object envelope.0)) >>= λ name.
    catalog_tool (lookup name tools) >>= λ info.
    finish_client_tool_call k native info envelope.0 envelope.1

abbrev pub is_transport_name : Text → Bool
is_transport_name name = name =ᵗ lit "run_officejs" || name =ᵗ lit "functions.run_officejs"

-- `translateCall`
unfoldable pub translate_call : Coding → Fields → Bridge → Result ToolError (Fields × Bridge)
unfolding translate_direct_catalog_call
translate_call k native b =
    let name = text_at (lit "name") native in
    if text_at (lit "type") native =ᵗ lit "function_call" && is_plan_name name
    then translate_native_plan k (history_call_fingerprint k) native b
    else if not (is_transport_name name)
    then translate_direct_catalog_call k native b
    else (transport_call k native b.tools >>= λ result. cached_call k b native native result)

abbrev pub output_step : Coding → Json → Bridge → Result ToolError (Json × Bridge)
output_step k raw b =
    if is_tool (fields_of raw)
    then (translate_call k (fields_of raw) b >>= λ r. ok (object r.0, r.1))
    else ok (raw, b)

-- The loop over the output of a response.
unfoldable pub translate_output :
    Coding → List Json → Bridge → Result ToolError (List Json × Bridge)
translate_output k [] b = ok ([], b)
translate_output k (raw ∷ rest) b = output_step k raw b >>= λ first.
    translate_output k rest first.1 >>= λ later. ok (first.0 ∷ later.0, later.1)

-- What the loop leaves of the output, which it changes in place.
abbrev pub with_output : List Json → Json → Fields → Fields
with_output items (array xs) response = set_field (lit "output") (array (of_list items)) response
with_output items _ response = response

-- `translateResponse`, of a response that is not nil.
unfoldable pub translate_response : Coding → Fields → Bridge → Result ToolError (Fields × Bridge)
unfolding translate_output
translate_response k response b =
    translate_output k (items_of (get_field (lit "output") response)) b >>= λ r. ok (
      set_field (lit "parallel_tool_calls") (bool false) (
          set_field (lit "reasoning") (object (object_of ((lit "effort", string b.effort) ∷ [])))
            (with_output r.0 (get_field (lit "output") response) response)),
      r.1,
    )
