-- ===== src/Tests/Building.antt =====
-- `build` of basispoints/wire.go on a concrete request.
use cliproxyapi_plugin_basis.Common.{◌≡◌, refl, none, some, [], ok, false, if◌then◌else◌}
use cliproxyapi_plugin_basis.Common.Text.{
  lit, ◌=ᵗ◌, trim_space, trim_right, trim_left, cut_prefix, has_prefix, elem, to_lower, contains,
}
use cliproxyapi_plugin_basis.Common.Assoc.{lookup, insert}
use cliproxyapi_plugin_basis.Config.{Config, clamp_effort, effort_rank, split_model_suffix}
use cliproxyapi_plugin_basis.Content.{
  validate_history_content, validate_part, validate_parts, content_type_diagnostic,
}
use cliproxyapi_plugin_basis.Images.Rewrite.{rewrite_images, bytes_contain_data_image}
use cliproxyapi_plugin_basis.Json.{
  object, object_of, text_at, get_field, set_field, ltb_text, delete_field, find_field,
}
use cliproxyapi_plugin_basis.Structured.{prepare_structured_output}
use cliproxyapi_plugin_basis.Tools.{Bridge, is_unsupported_hosted_tool, qualified}
use cliproxyapi_plugin_basis.Tools.Collect.{collect_tools}
use cliproxyapi_plugin_basis.Tools.History.{
  translate_history, history_items, history_step, item_kind, push_item, keep_item,
}
use cliproxyapi_plugin_basis.Prepare.{
  normalize_effort, prepare, prepare_source, prepare_body, request_tools, additional_tools,
  wire_body,
}
use cliproxyapi_plugin_basis.Upstream.{PreparedRequest}
use cliproxyapi_plugin_basis.Build.{
  ExecutorRequest, Editor, Surroundings, build, clamp_body, edited_payload, request_scope,
}
use cliproxyapi_plugin_basis.Build.Payload.{Edits, ComesFrom}
use cliproxyapi_plugin_basis.Build.Capped.{IsBuilt, build-IsBuilt}
use cliproxyapi_plugin_basis.Tests.Accounts.{one_each}
use cliproxyapi_plugin_basis.Tests.Calling.{value_or, no_bridge, coding}
use cliproxyapi_plugin_basis.Tests.Preparing.{request}
use cliproxyapi_plugin_basis.Tests.Uploads.{one_image, full_store}

-- A body is the text that was set in it last, but for an effort that is set beside the model.
abbrev pub last_set : Editor
last_set = record {
  string_at = λ raw path. raw;
  set_string = λ raw path value. if path =ᵗ lit "reasoning.effort" then some raw else some value;
}

-- The encoded body asks for the highest effort.
abbrev pub surroundings : Surroundings
surroundings = record {
  store = full_store;
  coding = record coding { decode = λ t. some (object request); encode = λ v. lit "xhigh" };
  editor = last_set;
  parse = λ raw. none;
  decode = λ payload. some payload;
  compile = λ schema. none;
}

abbrev pub capped_config : Config
capped_config = record one_each { max_effort = lit "high" }

abbrev pub client_request : ExecutorRequest
client_request = record { model = lit "m"; payload = lit "{}"; original_request = []; headers = [] }

abbrev built : PreparedRequest × Bridge
built =
    value_or
      (build surroundings capped_config client_request (lit "m") (lit "a") none (ok false) one_image
        0).0
      (record { model = []; body = []; url = [] }, no_bridge)

built_ok :
    (build surroundings capped_config client_request
      (lit "m")
      (lit "a")
      none
      (ok false)
      one_image
      0).0
    ≡ ok built
unfolding build clamp_body edited_payload request_scope rewrite_images bytes_contain_data_image
    contains clamp_effort effort_rank split_model_suffix prepare prepare_source prepare_body
    request_tools additional_tools wire_body trim_space trim_right trim_left text_at get_field
    object_of set_field ◌=ᵗ◌ lit ltb_text normalize_effort elem to_lower prepare_structured_output
    collect_tools is_unsupported_hosted_tool lookup insert qualified translate_history history_items
    history_step item_kind push_item keep_item validate_history_content validate_part validate_parts
    content_type_diagnostic delete_field find_field has_prefix cut_prefix
built_ok = refl

last_set-Edits : Edits surroundings.coding last_set (lit "m")
unfolding ◌=ᵗ◌ lit
last_set-Edits = record {
  model_set = λ raw raw' h. cc;
  model_kept = λ raw raw' value raw'' h g. cc;
  effort_set = λ fields value body' r known h. cc;
}

build-IsBuilt_example :
    IsBuilt capped_config last_set built
    × ComesFrom surroundings capped_config client_request
        (lit "m")
        (lit "a")
        none
        (ok false)
        one_image
        0
        built.0.body
build-IsBuilt_example =
    build-IsBuilt surroundings (lit "m") last_set-Edits capped_config client_request (lit "a") none
      (ok false) one_image 0 built.0 built.1 built_ok
