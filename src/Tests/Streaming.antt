-- ===== src/Tests/Streaming.antt =====
-- `completedEvent` of basispoints/sse.go and the relay of a stream on concrete inputs.
use cliproxyapi_plugin_basis.Common.Split.{split_on, cut_at}
use cliproxyapi_plugin_basis.Common.{
  ◌≡◌, refl, arith, false, none, some, [], ◌∷◌, if◌then◌else◌, List,
}
use cliproxyapi_plugin_basis.Common.Text.{
  Text, lit, ◌=ᵗ◌, contains, cut_prefix, has_prefix, to_lower, trim_left, trim_right, trim_space,
}
use cliproxyapi_plugin_basis.Sse.{
  sse_data, json_object, push, flush, drain_loop, next_sse_event, format_sse_data,
}
use cliproxyapi_plugin_basis.Sse.Completed.{
  Reader, completed_event, collect_events, completed_event-first,
}
use cliproxyapi_plugin_basis.Relay.{
  Receiver, Event, chunk, tick, last_chunk, end_of_stream, other_error, relayed, emitted, closed,
  keepalive, incomplete_stream_event, pump, sse_terminal,
}
use cliproxyapi_plugin_basis.Relay.Run.{bridged_stream, Runs, relay, relay-Runs}
use cliproxyapi_plugin_basis.Relay.Bytes.{
  ByteReader, read_all, left, error_of, bytes_left, read_all-left,
}

-- A reader by which an event is of the kind that its data spells.
abbrev spelling : Reader
spelling = record {
  string_at =
      λ raw path. if raw =ᵗ lit "{1}" then lit "response.completed" else lit "response.created";
  exists_at = λ raw path. false;
  set_response = λ raw. none;
}

abbrev answer : Text
answer = lit "data: {0}\r\n\r\ndata: {1}\n\ndata: {2}\n\n"

collect_answer : collect_events answer ≡ lit "data: {0}" ∷ lit "data: {1}" ∷ lit "data: {2}" ∷ []
unfolding collect_events contains lit cut_prefix trim_space trim_right trim_left
collect_answer = refl

completed_event-first_example : completed_event spelling answer ≡ sse_data (lit "data: {1}")
unfolding sse_data trim_space trim_right trim_left lit json_object split_on has_prefix cut_prefix
    to_lower ◌=ᵗ◌
completed_event-first_example =
    completed_event-first spelling answer (lit "data: {0}" ∷ []) (lit "data: {1}")
      (lit "data: {2}" ∷ []) collect_answer (refl, tt) (refl, refl)

completed_event-answer : completed_event spelling answer ≡ lit "{1}"
unfolding completed_event lit collect_events contains cut_prefix trim_space trim_right trim_left
    sse_data json_object split_on to_lower ◌=ᵗ◌
completed_event-answer = refl

-- A receiver that takes everything, and names no kind.
abbrev pub willing : Receiver
willing = record { State = Unit {0}; emit = λ frame st. (none, st); kind = λ raw. [] }

-- A stream that ends without a final event, after a tick.
abbrev pub short_stream : List Event
short_stream = chunk (lit "data: {}") ∷ tick ∷ last_chunk (lit "\n\n") end_of_stream ∷ []

relay-Runs_example : Runs willing bridged_stream (relay willing bridged_stream short_stream tt)
relay-Runs_example = relay-Runs willing bridged_stream short_stream tt

-- A chunk that comes with the error after it, behind an empty one.
abbrev chunks : ByteReader
chunks = record {
  buf = [];
  failure = none;
  reads = (lit "ab", none) ∷ ([], none) ∷ (lit "c", some (other_error (lit "x"))) ∷ [];
}

read_all-left_example :
    ((read_all (2 ∷ 1 ∷ 5 ∷ 5 ∷ []) chunks).0 ≡ left chunks)
    × ((read_all (2 ∷ 1 ∷ 5 ∷ 5 ∷ []) chunks).1 ≡ some (error_of chunks))
unfolding lit bytes_left
read_all-left_example =
    read_all-left (2 ∷ 1 ∷ 5 ∷ 5 ∷ []) chunks
      (omega arith, (omega arith, (omega arith, (omega arith, tt)))) (omega arith)

chunks_left : left chunks ≡ lit "abc"
unfolding lit bytes_left
chunks_left = refl

pump_short : pump willing short_stream [] false tt ≡ (
  relayed,
  emitted keepalive
      ∷ emitted (lit "data: {}\n\n")
      ∷ emitted incomplete_stream_event
      ∷ closed []
      ∷ [],
)
unfolding pump push flush sse_terminal lit drain_loop next_sse_event cut_at cut_prefix
    format_sse_data sse_data trim_space trim_right trim_left json_object split_on has_prefix
    to_lower ◌=ᵗ◌
pump_short = refl
