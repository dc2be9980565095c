-- ===== src/Tests/Serving.antt =====
-- `Execute` and `ExecuteStream` of basispoints/service.go on a concrete request: the whole path, from
-- the accounts of the host to the answer.
use cliproxyapi_plugin_basis.Sse.{json_object, sse_data}
use cliproxyapi_plugin_basis.Tools.Calls.{translate_response}
use cliproxyapi_plugin_basis.Stream.Shown.{fresh}
use cliproxyapi_plugin_basis.Common.{
  ℕ, ◌+◌, ◌≡◌, refl, true, none, some, [], ◌∷◌, Option, Result, ok, if◌then◌else◌, ◌==◌,
}
use cliproxyapi_plugin_basis.Common.Text.{
  Text, lit, ◌=ᵗ◌, elem, trim_space, trim_right, trim_left, cut_prefix, has_prefix, to_lower,
  contains, equal_fold, trim_prefix,
}
use cliproxyapi_plugin_basis.Json.{
  Json, array, object, object_of, of_list, text_at, get_field, set_field, ltb_text, delete_field,
  find_field,
}
use cliproxyapi_plugin_basis.Build.{
  Surroundings, build, clamp_body, edited_payload, request_scope, request_model,
}
use cliproxyapi_plugin_basis.Replay.{empty}
use cliproxyapi_plugin_basis.Requests.Service.{
  Outside, Request, Response, StreamResult, ServiceState, execute, execute_inline, service_build,
  service_translate,
}
use cliproxyapi_plugin_basis.Requests.Service.Answered.{
  AnswersExecute, AnswersStream, execute-Answers, execute_inline-Answers,
}
use cliproxyapi_plugin_basis.Scheduler.{
  Sched, pick, judge, record_matches_provider, sort, insert_sorted, text_le,
}
use cliproxyapi_plugin_basis.Sse.Completed.{Reader, completed_event, collect_events}
use cliproxyapi_plugin_basis.Upstream.{Failure, upstream_call, upstream_headers}
use cliproxyapi_plugin_basis.Tests.Accounts.{fresh as idle_sched, two_accounts, flat_codec}
use cliproxyapi_plugin_basis.Tests.Building.{surroundings, capped_config, client_request}
use cliproxyapi_plugin_basis.Tests.Calling.{text_field}
use cliproxyapi_plugin_basis.Tests.Preparing.{request}
use cliproxyapi_plugin_basis.Common.Assoc.{lookup, insert}
use cliproxyapi_plugin_basis.Config.{clamp_effort, effort_rank, split_model_suffix}
use cliproxyapi_plugin_basis.Content.{
  validate_history_content, validate_part, validate_parts, content_type_diagnostic,
}
use cliproxyapi_plugin_basis.Images.Rewrite.{rewrite_images, bytes_contain_data_image}
use cliproxyapi_plugin_basis.Structured.{prepare_structured_output}
use cliproxyapi_plugin_basis.Tools.{is_unsupported_hosted_tool, qualified, is_tool, is_tool_event}
use cliproxyapi_plugin_basis.Tools.Collect.{collect_tools}
use cliproxyapi_plugin_basis.Tools.History.{
  translate_history, history_items, history_step, item_kind, push_item, keep_item,
}
use cliproxyapi_plugin_basis.Prepare.{
  normalize_effort, prepare, prepare_source, prepare_body, request_tools, additional_tools,
  wire_body,
}
use cliproxyapi_plugin_basis.Requests.Call.{call}
use cliproxyapi_plugin_basis.Requests.{acquire}
use cliproxyapi_plugin_basis.Auth.{credential_from_json}
use cliproxyapi_plugin_basis.Requests.Service.Details.{upstream_error_detail}
use cliproxyapi_plugin_basis.Routing.{resolve_model, match_configured_model}
use cliproxyapi_plugin_basis.Stream.Upstream.{translate_upstream}
use cliproxyapi_plugin_basis.Stream.Lines.{transform, cut_newline, cut_return, raw_lines}
use cliproxyapi_plugin_basis.Stream.{process, emit, filtered_output, settle_pending}

-- {"response":{"output":[{"type":"message"}]},"type":"response.completed"}
abbrev done : Json
done = object (
    object_of (
      text_field "type" "response.completed"
      ∷ (
        lit "response",
        object (
            object_of (
              (
                lit "output",
                array (of_list (object (object_of (text_field "type" "message" ∷ [])) ∷ [])),
              )
              ∷ [])),
      )
      ∷ []))

abbrev serving : Surroundings
serving = record surroundings {
  coding = record {
    decode = λ t. if t =ᵗ lit "{1}" then some done else some (object request);
    decode_first = λ t. none;
    encode = λ v. lit "{2}";
    digest = λ t. t;
  };
}

abbrev final_reader : Reader
final_reader = record {
  string_at = λ raw path. if path =ᵗ lit "type" then lit "response.completed" else [];
  exists_at = λ raw path. true;
  set_response = λ raw. none;
}

-- The first post is rate limited; the state counts them.
abbrev pub outside : Outside
outside = record {
  State = ℕ;
  list_auth = λ n. (ok two_accounts, n);
  get_auth = λ index n. (ok index, n);
  post = λ req n. (
    ok (record {
      status_code = if n == 0 then 429 else 200;
      headers = [];
      body = lit "data: {1}\n\n";
    }),
    n + 1,
  );
  log = λ level message n. n;
  clock = λ n. (7, n);
  surroundings = serving;
  opener = record { open_store = λ cfg proxy. none; duration_text = λ ttl. [] };
  codec = flat_codec;
  reader = final_reader;
  build_wording = λ e. [];
  stream_wording = λ e. [];
}

abbrev pub asked : Request
asked = record {
  request = client_request;
  remembered = record { aliases = []; excluded = []; proxy_url = [] };
}

abbrev pub at_first : ServiceState outside
at_first = record {
  outside = 0;
  replay = some empty;
  image_store = record { images = none; stamp = [] };
  storage = 0;
}

execute-Answers_example :
    (r : Result Failure Response) × (sched' : Sched) × (st' : ServiceState outside) × (execute
        outside capped_config asked 3 idle_sched at_first
      ≡ some (r, sched', st'))
    × ((k : Text) → sched'.inflight k ≡ idle_sched.inflight k)
    × AnswersExecute outside capped_config asked r
unfolding elem ◌=ᵗ◌ lit trim_space trim_right trim_left
execute-Answers_example =
    execute-Answers outside capped_config asked (lit "a" ∷ lit "b" ∷ []) idle_sched at_first
      (λ st. (refl, (refl, tt)))

execute_inline-Answers_example :
    (r : Result Failure StreamResult) × (sched' : Sched) × (st' : ServiceState outside)
    × (execute_inline outside capped_config asked 3 idle_sched at_first ≡ some (r, sched', st'))
    × ((k : Text) → sched'.inflight k ≡ idle_sched.inflight k)
    × AnswersStream outside capped_config asked r
unfolding elem ◌=ᵗ◌ lit trim_space trim_right trim_left
execute_inline-Answers_example =
    execute_inline-Answers outside capped_config asked (lit "a" ∷ lit "b" ∷ []) idle_sched at_first
      (λ st. (refl, (refl, tt)))

-- The payload of the answer.
abbrev payload_of : Option (Result Failure Response × Sched × ServiceState outside) → Text
payload_of (some (ok resp, sched, st)) = resp.payload
payload_of _ = []

served : payload_of (execute outside capped_config asked 3 idle_sched at_first) ≡ lit "{2}"
unfolding execute build clamp_body edited_payload request_scope rewrite_images
    bytes_contain_data_image contains clamp_effort effort_rank split_model_suffix prepare
    prepare_source prepare_body request_tools additional_tools wire_body trim_space trim_right
    trim_left text_at get_field object_of set_field ◌=ᵗ◌ lit ltb_text normalize_effort elem to_lower
    prepare_structured_output collect_tools is_unsupported_hosted_tool lookup insert qualified
    translate_history history_items history_step item_kind push_item keep_item
    validate_history_content validate_part validate_parts content_type_diagnostic delete_field
    find_field has_prefix cut_prefix call acquire pick judge record_matches_provider sort
    insert_sorted text_le credential_from_json service_build service_translate upstream_error_detail
    resolve_model match_configured_model request_model translate_upstream transform process emit
    filtered_output completed_event collect_events upstream_call upstream_headers equal_fold
    raw_lines cut_return trim_prefix fresh cut_newline is_tool_event settle_pending is_tool
    translate_response sse_data json_object
served = refl
