-- ===== src/Stream/Shown.antt =====
-- Whole streams of `transform` of basispoints/stream.go.
use cliproxyapi_plugin_basis.Common.{
  ℕ, Bool, true, false, Option, none, some, List, [], ◌∷◌, ◌≡◌, refl, is_nil, leb, length, if_split,
  All, ok, err,
}
use cliproxyapi_plugin_basis.Common.Text.{Text, lit}
use cliproxyapi_plugin_basis.Common.Assoc.{Assoc}
use cliproxyapi_plugin_basis.Json.{Coding}
use cliproxyapi_plugin_basis.Tools.{Tool, Bridge}
use cliproxyapi_plugin_basis.Tools.Collect.Declared.{IsDeclared}
use cliproxyapi_plugin_basis.Stream.{
  StreamError, line_too_long, event_too_large, failure, Stream, Step, emit, process,
}
use cliproxyapi_plugin_basis.Stream.Lines.{
  max_line, cut_return, Flow, go, stop, fail, Reading, nothing_read, cut_newline, flush_event,
  read_line, is_too_large, read_lines, raw_lines, read_events, consumed, consume_event, Ending,
  is_protocol, reported, report, finished, transform,
}
use cliproxyapi_plugin_basis.Stream.Events.{IsWritten, IsGuarded, StepGuarded, emit-StepGuarded}
use cliproxyapi_plugin_basis.Stream.Process.{process-StepGuarded}

-- A stream as `transform` begins it.
unfoldable pub fresh : Bridge → Stream
fresh b = record {
  sequence = 0;
  terminal = false;
  emitted = [];
  pending_tools = [];
  bridge = b;
  written = [];
}

abbrev FlowGuarded : Assoc Tool → Flow → Type 0
FlowGuarded tools (go s) = IsGuarded tools s
FlowGuarded tools (stop s) = IsGuarded tools s
FlowGuarded tools (fail e s) = StepGuarded tools (err (e, s))

module _ (accepts : ℕ → Bool) (k : Coding) (tools : Assoc Tool) (d : All IsDeclared tools) where
  consume_event-FlowGuarded :
      (event bytes : Text) (s : Stream)
      → IsGuarded tools s
      → FlowGuarded tools (consume_event accepts k event bytes s)
  consume_event-FlowGuarded event bytes s g =
      if_split (FlowGuarded tools) s.terminal (λ _. g)
        (λ _.
          made (process accepts k event bytes s)
            (process-StepGuarded accepts k tools event bytes s d g))
    where
      made : (r : Step) → StepGuarded tools r → FlowGuarded tools (consumed r)
      made (ok s') h = if_split (FlowGuarded tools) s'.terminal (λ _. h) (λ _. h)
      made (err (e, s')) h = h

  flush_event-FlowGuarded :
      (r : Reading) (s : Stream)
      → IsGuarded tools s
      → FlowGuarded tools (flush_event (consume_event accepts k) r s)
  unfolding flush_event
  flush_event-FlowGuarded r s g =
      if_split (FlowGuarded tools) (is_nil r.data_text) (λ _. g)
        (λ _. consume_event-FlowGuarded r.event (cut_newline r.data_text) s g)

  failed_read : (e : StreamError) (s : Stream) → IsGuarded tools s → FlowGuarded tools (fail e s)
  failed_read e s g = (g.is_written, λ _. g)

  read_lines-FlowGuarded :
      (ending : Option StreamError) (lines : List Text) (r : Reading) (s : Stream)
      → IsGuarded tools s
      → FlowGuarded tools (read_lines (consume_event accepts k) ending lines r s)
  unfolding read_lines
  read_lines-FlowGuarded none [] r s g = flush_event-FlowGuarded r s g
  read_lines-FlowGuarded (some e) [] r s g = failed_read e s g
  read_lines-FlowGuarded ending (raw ∷ rest) r s g =
      if_split P (leb max_line (length raw)) (λ _. failed_read line_too_long s g)
        (λ _.
          if_split P (is_nil (cut_return raw))
            (λ _.
              next (flush_event (consume_event accepts k) r s) (flush_event-FlowGuarded r s g)
                (λ s' g'. read_lines-FlowGuarded ending rest nothing_read s' g'))
            (λ _.
              if_split P (is_too_large (cut_return raw) r) (λ _. failed_read event_too_large s g)
                (λ _. read_lines-FlowGuarded ending rest (read_line (cut_return raw) r) s g)))
    where
      P : Flow → Type 0
      P = FlowGuarded tools

      next :
          (f : Flow)
          → FlowGuarded tools f
          → ((s' : Stream)
              → IsGuarded tools s'
              → P (read_lines (consume_event accepts k) ending rest nothing_read s'))
          → P (elim f [
            | go s' ↦ read_lines (consume_event accepts k) ending rest nothing_read s'
            | stop s' ↦ stop s'
            | fail e s' ↦ fail e s'
          ])
      next (go s') h f = f s' h
      next (stop s') h f = h
      next (fail e s') h f = h

  finished-IsWritten : (f : Flow) → FlowGuarded tools f → IsWritten tools (finished accepts f).0
  finished-IsWritten (go s) g = g.is_written
  finished-IsWritten (stop s) g = g.is_written
  finished-IsWritten (fail e s) (written, guarded) =
      if_split {A = Stream × Ending} (λ r. IsWritten tools r.0) (is_protocol e) told (λ _. written)
    where
      sent : (r : Step) → StepGuarded tools r → IsWritten tools (reported r).0
      sent (ok s') g = g.is_written
      sent (err (e', s')) g = g.0

      told : is_protocol e ≡ true → IsWritten tools (report accepts e s).0
      told h =
          sent (emit accepts (lit "response.failed") (failure e) s)
            (emit-StepGuarded accepts tools (lit "response.failed") (failure e) s (guarded h) tt)

-- Whatever the gateway sends, each event that the client is sent has the next number, from zero on;
-- and every call of a tool in it, as an item that begins or ends or in the output of a response,
-- has the name and the namespace of a tool of the catalog, in which every tool is a function or a
-- custom tool.
pub transform-IsWritten :
    (accepts : ℕ → Bool) (k : Coding) (b : Bridge) (body : Text) (ending : Option StreamError)
    → All IsDeclared b.tools
    → IsWritten b.tools (transform accepts k body ending (fresh b)).0
unfolding transform read_events fresh
transform-IsWritten accepts k b body ending d = finished-IsWritten accepts k b.tools d _ (
    read_lines-FlowGuarded accepts k b.tools d ending (raw_lines body) nothing_read (fresh b)
      (record {
        is_written = record { shown = tt; numbered = tt };
        counted = refl;
        same_tools = refl;
      }))
