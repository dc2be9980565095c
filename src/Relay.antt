-- ===== src/Relay.antt =====
-- `pump` of basispoints/service.go: the relay of an open stream to the host. What its select receives
-- is a list of events, in the order in which they are received; the calls of the host are recorded.
pub mod Closing
pub mod Run
pub mod Bytes
use cliproxyapi_plugin_basis.Common.{
  ℕ, Bool, true, false, ◌||◌, Option, none, some, List, [], ◌∷◌, ◌++◌, if◌then◌else◌,
}
use cliproxyapi_plugin_basis.Common.Text.{Text, lit, ◌=ᵗ◌}
use cliproxyapi_plugin_basis.Sse.{push, flush, sse_data}

-- How a read of the upstream stream ended: at the end of the stream, expected or not, or by an error.
pub data ReadError : Type 0 where
  end_of_stream : ReadError
  other_error : Text → ReadError

-- A cancelled context, a tick of the keepalive timer, and a chunk that was read, with its error.
pub data Event : Type 0 where
  cancelled : Text → Event
  tick : Event
  chunk : Text → Event
  last_chunk : Text → ReadError → Event

-- The calls `Emit` and `CloseStream` of the host.
pub data Call : Type 0 where
  emitted : Text → Call
  closed : Text → Call

-- The relay waits for events, has sent the whole stream, or has given up.
pub data Outcome : Type 0 where
  waiting relayed broken no_fuel : Outcome

pub record Receiver : Type 1 where
  pub State : Type 0
  -- the error of `Emit`, if there is one
  pub emit : Text → State → Option Text × State
  -- gjson's `type` of the data of an event
  pub kind : Text → Text

abbrev pub keepalive : Text
keepalive = lit ": keepalive\n\n"

abbrev pub incomplete_stream_event : Text
incomplete_stream_event =
    lit
      "data: {\"type\":\"response.failed\",\"response\":{\"status\":\"failed\",\"error\":{\"code\":\"basispoints_stream_incomplete\",\"message\":\"Upstream stream ended before completion\"}}}\n\n"

module _ (r : Receiver) where
  unfoldable pub sse_terminal : Text → Bool
  sse_terminal frame =
      let kind = r.kind (sse_data frame) in
      kind =ᵗ lit "response.completed"
      || kind =ᵗ lit "response.incomplete"
      || kind =ᵗ lit "response.failed"
      || kind =ᵗ lit "error"

  -- The outcome of `emitFrames`.
  pub record Sent : Type 0 where
    pub delivered : Bool
    pub terminal : Bool
    pub calls : List Call
    pub state : r.State

  abbrev pub after_call : Call → Sent → Sent
  after_call call s = record s { calls = call ∷ s.calls }

  pub emit_frames : List Text → Bool → r.State → Sent
  emit_frames [] terminal st = record {
    delivered = true;
    terminal = terminal;
    calls = [];
    state = st;
  }
  emit_frames (frame ∷ frames) terminal st =
      let terminal' = sse_terminal frame || terminal in
      let (failure, st') = r.emit frame st in
      elim failure [
        | none ↦ after_call (emitted frame) (emit_frames frames terminal' st')
        | some e ↦ record {
          delivered = false;
          terminal = terminal';
          calls = emitted frame ∷ closed e ∷ [];
          state = st';
        }
      ]

  abbrev pub with_calls : List Call → Outcome × List Call → Outcome × List Call
  with_calls calls (outcome, later) = (outcome, calls ++ later)

  -- The end of a stream whose frames have all been sent.
  abbrev pub finish_stream : Bool → ReadError → Outcome × List Call
  finish_stream terminal (other_error e) = (broken, closed e ∷ [])
  finish_stream true end_of_stream = (relayed, closed [] ∷ [])
  finish_stream false end_of_stream = (relayed, emitted incomplete_stream_event ∷ closed [] ∷ [])

  abbrev pub after_flush : ReadError → Sent → Outcome × List Call
  after_flush end s =
      if s.delivered then with_calls s.calls (finish_stream s.terminal end) else (broken, s.calls)

  pub flush_stream : Text → ReadError → Bool → r.State → Outcome × List Call
  unfolding emit_frames
  flush_stream buf end terminal st = elim (flush buf) [
    | none ↦ (no_fuel, [])
    | some (frames, rest) ↦ after_flush end (emit_frames frames terminal st)
  ]

  abbrev pub proceed : Sent → Outcome × List Call → Outcome × List Call
  proceed s later = if s.delivered then with_calls s.calls later else (broken, s.calls)

  -- The loop of `pump`, with the buffer of the splitter and whether a final event was sent.
  unfoldable pub pump : List Event → Text → Bool → r.State → Outcome × List Call
  unfolding flush_stream
  pump [] buf terminal st = (waiting, [])
  pump (cancelled e ∷ events) buf terminal st = (broken, closed e ∷ [])
  pump (tick ∷ events) buf terminal st =
      let (failure, st') = r.emit keepalive st in
      elim failure [
        | none ↦ with_calls (emitted keepalive ∷ []) (pump events buf terminal st')
        | some e ↦ (broken, emitted keepalive ∷ closed e ∷ [])
      ]
  pump (chunk bytes ∷ events) buf terminal st = elim (push buf bytes) [
    | none ↦ (no_fuel, [])
    | some (frames, buf') ↦
        let s = emit_frames frames terminal st in proceed s (pump events buf' s.terminal s.state)
  ]
  pump (last_chunk bytes end ∷ events) buf terminal st = elim (push buf bytes) [
    | none ↦ (no_fuel, [])
    | some (frames, buf') ↦
        let s = emit_frames frames terminal st in
        proceed s (flush_stream buf' end s.terminal s.state)
  ]
