-- ===== src/Tests/Started.antt =====
-- `ExecuteStream` of basispoints/service.go where the host opened a stream, on a concrete request.
use cliproxyapi_plugin_basis.Common.{
  ◌+◌, ◌≡◌, refl, none, some, [], ◌∷◌, ◌==◌, if◌then◌else◌, Result, ok,
}
use cliproxyapi_plugin_basis.Common.Text.{lit, ◌=ᵗ◌, elem, trim_space, trim_right, trim_left}
use cliproxyapi_plugin_basis.Relay.Run.{bridged_stream, relay}
use cliproxyapi_plugin_basis.Relay.{end_of_stream}
use cliproxyapi_plugin_basis.Requests.Service.{ServiceState}
use cliproxyapi_plugin_basis.Requests.Service.Streaming.{
  Started, Streaming, execute_stream, Leaves, execute_stream-Leaves, read_chunks,
}
use cliproxyapi_plugin_basis.Scheduler.{Sched}
use cliproxyapi_plugin_basis.Upstream.{Failure}
use cliproxyapi_plugin_basis.Tests.Accounts.{fresh as idle_sched}
use cliproxyapi_plugin_basis.Tests.Building.{capped_config}
use cliproxyapi_plugin_basis.Tests.Serving.{outside, asked, at_first}
use cliproxyapi_plugin_basis.Tests.Streaming.{willing, short_stream}

-- The first stream is refused with a 429, whose body comes in two reads.
abbrev streams : Streaming outside
streams = record {
  post_stream = λ req n. (
    ok (record {
      status_code = if n == 0 then 429 else 200;
      stream = some (record {
        stream_id = lit "s";
        reads = (lit "a", none) ∷ (lit "b", some end_of_stream) ∷ [];
      });
    }),
    n + 1,
  );
  close = λ source n. n;
}

execute_stream-Leaves_example :
    (result : Result Failure Started × Sched × ServiceState outside) × (execute_stream outside
        streams capped_config asked 3
        (lit "h")
        idle_sched
        at_first
      ≡ some result)
    × Leaves outside streams capped_config asked
        (relay willing bridged_stream short_stream tt)
        idle_sched
        at_first
        result
unfolding elem ◌=ᵗ◌ lit trim_space trim_right trim_left
execute_stream-Leaves_example =
    execute_stream-Leaves outside streams capped_config asked (lit "a" ∷ lit "b" ∷ []) (lit "h")
      idle_sched at_first willing short_stream tt (λ st. (refl, (refl, tt)))

read_both :
    read_chunks ((lit "a", none) ∷ (lit "b", some end_of_stream) ∷ (lit "c", none) ∷ []) ≡ lit "ab"
unfolding read_chunks lit
read_both = refl
