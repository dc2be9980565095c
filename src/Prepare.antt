-- ===== src/Prepare.antt =====
-- `Prepare` of basispoints/request.go: a request of the client, as one of the gateway.
pub mod Describe
pub mod Body
use cliproxyapi_plugin_basis.Common.{
  ℕ, suc, ◌+◌, Bool, true, false, not, ◌&&◌, ◌||◌, Option, none, some, List, [], ◌∷◌, ◌++◌, reverse,
  is_nil, if◌then◌else◌, take, Result, ok, err, guard, ◌>>◌, ◌>>=◌,
}
use cliproxyapi_plugin_basis.Common.Text.{Text, lit, ◌=ᵗ◌, elem, has_prefix, to_lower, trim_space}
use cliproxyapi_plugin_basis.Content.{Url}
use cliproxyapi_plugin_basis.Json.{
  Json, null, bool, number, string, array, object, Items, nil, Fields, as_object, fields_of,
  items_of, of_list, is_null, text, text_at, get_field, set_field, object_of, object_read, Coding,
  fingerprint,
}
use cliproxyapi_plugin_basis.Replay.{Cache}
use cliproxyapi_plugin_basis.Scheduler.{sort}
use cliproxyapi_plugin_basis.Structured.{
  StructuredError, prepare_structured_output, structured_instructions,
}
use cliproxyapi_plugin_basis.Tools.{Bridge, Structured, ToolError}
use cliproxyapi_plugin_basis.Tools.Collect.{collect_tools}
use cliproxyapi_plugin_basis.Tools.History.{Translated, translate_history}
use cliproxyapi_plugin_basis.Prepare.Describe.{describe_catalog, join_text, decimal}

pub data PrepareError : Type 0 where
  invalid_request no_model previous_response bad_mode bad_effort bad_choice bad_input : PrepareError
  bad_format : StructuredError → PrepareError
  bad_tools : ToolError → PrepareError

-- `NormalizeEffort`
unfoldable pub normalize_effort : Text → Result PrepareError Text
normalize_effort effort =
    let level = to_lower (trim_space effort) in
    if elem level ([] ∷ lit "medium" ∷ [])
    then ok (lit "medium")
    else if elem level (lit "low" ∷ lit "high" ∷ [])
    then ok level
    else if elem level (
        lit "xhigh"
        ∷ lit "x-high"
        ∷ lit "extra-high"
        ∷ lit "extra_high"
        ∷ lit "max"
        ∷ lit "ultra"
        ∷ [])
    then ok (lit "xhigh")
    else if elem level (lit "none" ∷ lit "minimal" ∷ [])
    then ok (lit "low")
    else err bad_effort

-- `message`
abbrev pub message : Text → Text → Json
message role content = object (
    object_of (
      (lit "type", string (lit "message"))
      ∷ (lit "role", string role)
      ∷ (
        lit "content",
        array (
            of_list (
              object (
                object_of
                  ((lit "type", string (lit "input_text")) ∷ (lit "text", string content) ∷ []))
              ∷ [])),
      )
      ∷ []))

-- The effort that is asked for.
abbrev pub requested_from : Fields → Json → Result PrepareError Text
requested_from source (object reasoning) =
    let mode = text_at (lit "mode") reasoning in
    guard (is_nil mode || mode =ᵗ lit "standard") bad_mode >> ok (text_at (lit "effort") reasoning)
requested_from source _ = ok (text_at (lit "reasoning_effort") source)

abbrev pub structured_result :
    Result StructuredError (Option Structured) → Result PrepareError (Option Structured)
structured_result (ok s) = ok s
structured_result (err e) = err (bad_format e)

abbrev pub tools_result : {A : Type 0} → Result ToolError A → Result PrepareError A
tools_result (ok a) = ok a
tools_result (err e) = err (bad_tools e)

-- The tools that items of the input add.
unfoldable pub additional_tools :
    Coding → List Json → Bridge → Result ToolError (List Json × Bridge)
additional_tools k [] b = ok ([], b)
additional_tools k (raw ∷ rest) b =
    let item = fields_of raw in
    (if text_at (lit "type") item =ᵗ lit "additional_tools"
      then collect_tools k (get_field (lit "tools") item) [] b
      else ok ([], b))
    >>= λ first. additional_tools k rest first.1 >>= λ later. ok (first.0 ++ later.0, later.1)

-- The catalog, unless no tool may be called.
unfoldable pub request_tools : Coding → Fields → Bridge → Result ToolError (List Json × Bridge)
unfolding additional_tools
request_tools k source b =
    if text_at (lit "tool_choice") source =ᵗ lit "none"
    then ok ([], b)
    else (collect_tools k (get_field (lit "tools") source) [] b >>= λ first.
        additional_tools k (items_of (get_field (lit "input") source)) first.1 >>= λ later.
        ok (first.0 ++ later.0, later.1))

abbrev pub request_input : Json → Result PrepareError (List Json)
request_input (string s) = ok (message (lit "user") s ∷ [])
request_input (array xs) = ok (items_of (array xs))
request_input _ = err bad_input

abbrev pub no_tools_protocol : Text
no_tools_protocol =
    lit
      "This request comes from an external Responses client. Return assistant text. Do not call Excel, Office, workbook or connector tools."

abbrev pub tools_protocol : Coding → List Json → Text
tools_protocol k catalog =
    lit
      "This request comes from an external Responses client. Use only the client tools in the catalog below. "
    ++ lit
        "There is no live Excel workbook for this request. The proxy intercepts run_officejs as a transport and never executes Office code. "
    ++ lit
        "To call one client tool, call native run_officejs using the transport matching its catalog type. "
    ++ lit
        "FUNCTION: code must contain one serialized JSON object {\"name\":\"CATALOG_NAME\",\"arguments\":{...}}. Arguments is an object, not an extra JSON string. "
    ++ lit
        "CUSTOM: set summary to exactly codex2api.custom/CATALOG_NAME and put the exact raw tool input directly in code. Do not wrap custom input in another JSON object or add Markdown fences. "
    ++ lit
        "For example, custom functions.exec uses summary=codex2api.custom/functions.exec and code containing its raw JavaScript; custom functions.apply_patch uses its exact patch text. The marker is mandatory for raw input. "
    ++ lit
        "CATALOG_NAME includes its exact namespace. Outer arguments also include extended_summary, destructive=false and references=[]. For FUNCTION transport, use an ordinary descriptive summary. "
    ++ lit
        "Never nest run_officejs inside code. Serialize outer native arguments with proper JSON escaping. For FUNCTION envelopes also escape all quotes, backslashes, newline, carriage return and tab characters within JSON string values. "
    ++ lit
        "Call one client tool at a time, including update_plan through this transport. After receiving its result continue the task; do not repeat completed calls. "
    ++ lit
        "Tool results replayed under run_officejs are the named client tool's results. When a tool is needed, emit its call in this response instead of only announcing it. "
    ++ lit
        "Do not call other native tools or claim that shell, filesystem or workspace access is unavailable when a suitable catalog tool exists. "
    ++ lit "If no tool is needed, answer as assistant text. Client tool catalog:\n"
    ++ describe_catalog k catalog
    ++ lit
        "\nEnd of catalog. Invoke native run_officejs once. FUNCTION uses a JSON envelope in code. CUSTOM uses the exact codex2api.custom/CATALOG_NAME summary marker and raw input in code. No Office code is executed by the proxy."

abbrev pub hosted_warning : Bridge → Text
hosted_warning b =
    lit "Hosted tools unavailable through Basispoints: "
    ++ join_text (lit ", ") (sort b.unsupported_tools)

abbrev pub warned : Bridge → Bridge
warned b =
    if is_nil b.unsupported_tools
    then b
    else record b { warnings = b.warnings ++ hosted_warning b ∷ [] }

abbrev pub hosted_notice : Bridge → Text
hosted_notice b =
    if is_nil b.unsupported_tools
    then []
    else 10 ∷ hosted_warning b
      ++ lit
          ". These declarations were omitted. Do not claim to have used them. If the task requires one, explain the limitation or use a suitable declared client tool."

abbrev pub format_notice : Coding → Option Structured → Text
format_notice k none = []
format_notice k (some s) = 10 ∷ structured_instructions k s

unfoldable pub protocol : Coding → List Json → Bridge → Text
protocol k catalog b =
    (if is_nil catalog then no_tools_protocol else tools_protocol k catalog)
    ++ hosted_notice b
    ++ format_notice k b.structured

-- The messages before the history.
abbrev pub prologue : Coding → Fields → List Json → Bridge → List Json
prologue k source catalog b =
    let instructions = text_at (lit "instructions") source in
    (if is_nil instructions then [] else message (lit "developer") instructions ∷ [])
    ++ message (lit "developer") (protocol k catalog b) ∷ []

abbrev pub has_suffix : Text → Text → Bool
has_suffix s suffix = has_prefix (reverse s) (reverse suffix)

-- Where the turn of the last user message ends, if there is one, and how many results of tools come
-- after it.
abbrev pub add_item : ℕ → Fields → Option ℕ × ℕ → Option ℕ × ℕ
add_item index item (some turn, n) = (some turn, n)
add_item index item (none, n) =
    if text_at (lit "role") item =ᵗ lit "user"
    then (some (suc index), n)
    else (none, if has_suffix (text_at (lit "type") item) (lit "_call_output") then n + 1 else n)

unfoldable pub last_turn : ℕ → List Json → Option ℕ × ℕ
last_turn index [] = (none, 0)
last_turn index (raw ∷ rest) = add_item index (fields_of raw) (last_turn (suc index) rest)

abbrev pub turn_end : List Json → ℕ
turn_end input = elim (last_turn 0 input).0 [
  | some turn ↦ turn
  | none ↦ if is_nil input then 0 else 1
]

-- The conversation: the client's key, or what names its first item.
abbrev pub conversation : Coding → Text → List Json → Text
conversation k key [] = key
conversation k key (first ∷ rest) = if is_nil key then fingerprint k first else key

abbrev pub scoped : Coding → Text → Json → Text
scoped k scope v = fingerprint k (array (of_list (string scope ∷ v ∷ [])))

abbrev pub metadata : Coding → Text → Text → List Json → Json
metadata k scope key input = object (
    object_of (
      (lit "task_id", string (scoped k scope (string (conversation k key input))))
      ∷ (lit "turn_id", string (scoped k scope (array (of_list (take (turn_end input) input)))))
      ∷ (lit "agent_iteration", string (decimal ((last_turn 0 input).1 + 1)))
      ∷ []))

abbrev pub default_management : Json
default_management = array (
    of_list (
      object (
        object_of (
          (lit "type", string (lit "compaction"))
          ∷ (lit "compact_threshold", number (lit "200000"))
          ∷ []))
      ∷ []))

abbrev pub managed : Json → Fields → Fields
managed (array xs) output = set_field (lit "context_management") (array xs) output
managed _ output = output

abbrev pub keyed : Coding → Text → Text → Fields → Fields
keyed k scope key output =
    if is_nil key
    then output
    else set_field (lit "prompt_cache_key") (string (lit "bps-" ++ scoped k scope (string key)))
        output

-- The fields that every body has.
abbrev pub output_fields : Coding → Text → Text → Text → Text → List Json → List Json → Fields
output_fields k scope key model effort messages input = object_of (
    (lit "model", string model)
    ∷ (lit "model_selection", string (lit "explicit"))
    ∷ (lit "stream", bool true)
    ∷ (lit "store", bool false)
    ∷ (lit "input", array (of_list messages))
    ∷ (lit "reasoning_effort", string effort)
    ∷ (lit "context_management", default_management)
    ∷ (lit "metadata", metadata k scope key input)
    ∷ [])

-- The body for the gateway.
unfoldable pub wire_body : Coding → Fields → Text → Text → Text → List Json → List Json → Fields
wire_body k source scope model effort messages input =
    let key = text_at (lit "prompt_cache_key") source in
    managed (get_field (lit "context_management") source)
      (keyed k scope key (output_fields k scope key model effort messages input))

-- The bridge before the tools.
abbrev pub new_bridge : Text → Text → Option Structured → Option Cache → Text → Bridge
new_bridge requested effort structured replay scope = record {
  requested_effort = requested;
  effort = effort;
  warnings = [];
  tools = [];
  unsupported_tools = [];
  structured = structured;
  replay = replay;
  scope = scope;
}

abbrev pub is_choice : Json → Bool
is_choice choice = is_null choice || text choice =ᵗ lit "auto" || text choice =ᵗ lit "none"

-- From the tools on.
unfoldable pub prepare_body :
    Coding → (Text → Option Url) → Fields → Text → Bridge → Result PrepareError (Fields × Bridge)
unfolding request_tools wire_body
prepare_body k parse source model b = tools_result (request_tools k source b) >>= λ catalog.
    request_input (get_field (lit "input") source) >>= λ input.
    tools_result (translate_history k parse input catalog.1) >>= λ done. ok (
      wire_body k source b.scope model b.effort
          (prologue k source catalog.0 done.bridge ++ done.items) done.input,
      warned done.bridge,
    )

unfoldable pub prepare_source :
    Coding
    → (Text → Option Url)
    → (Fields → Option (Json → Bool))
    → Fields
    → Text
    → Option Cache
    → Result PrepareError (Fields × Bridge)
unfolding prepare_body
prepare_source k parse compile source scope replay =
    let model = trim_space (text_at (lit "model") source) in
    guard (not (is_nil model)) no_model
    >> (guard (is_nil (text_at (lit "previous_response_id") source)) previous_response
        >> (requested_from source (get_field (lit "reasoning") source) >>= λ requested.
            normalize_effort requested >>= λ effort.
            structured_result (prepare_structured_output k compile (get_field (lit "text") source))
            >>= λ structured.
                guard (is_choice (get_field (lit "tool_choice") source)) bad_choice
                >> prepare_body k parse source model
                    (new_bridge requested effort structured replay scope)))

abbrev pub request_source : Option Json → Result PrepareError Fields
request_source (some (object source)) = ok source
request_source _ = err invalid_request

-- `Prepare`, before the body is encoded.
unfoldable pub prepare :
    Coding
    → (Text → Option Url)
    → (Fields → Option (Json → Bool))
    → Text
    → Text
    → Option Cache
    → Result PrepareError (Fields × Bridge)
unfolding prepare_source
prepare k parse compile raw scope replay = request_source (object_read (k.decode raw)) >>= λ source.
    prepare_source k parse compile source scope replay
