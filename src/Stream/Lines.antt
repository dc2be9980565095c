-- ===== src/Stream/Lines.antt =====
-- `readEvents` and the end of `transform` of basispoints/stream.go: the lines of the gateway's stream,
-- the events that they spell, and how the client's stream ends.
use cliproxyapi_plugin_basis.Common.{
  ℕ, ◌*◌, ◌^◌, Bool, true, false, not, ◌&&◌, Option, none, some, List, [], ◌∷◌, ◌++◌, is_nil, leb,
  ltb, ◌==◌, if◌then◌else◌, length, ok, err,
}
use cliproxyapi_plugin_basis.Common.Text.{Text, lit, trim_prefix, has_prefix, trim_space}
use cliproxyapi_plugin_basis.Json.{Coding}
use cliproxyapi_plugin_basis.Stream.{
  StreamError, closed_pipe, read_failure, event_too_large, line_too_long, Stream, failure, Step,
  emit, process,
}

abbrev pub max_line : ℕ
max_line = 16 * 2 ^ 20

-- The lines of a bufio.Scanner, with their ends cut off; the last needs no end.
unfoldable pub raw_lines : Text → List Text
raw_lines [] = []
raw_lines (c ∷ s) =
    let rest = raw_lines s in
    if c == 10 then [] ∷ rest else elim rest [ [] ↦ (c ∷ []) ∷ [] | l ∷ ls ↦ (c ∷ l) ∷ ls ]

-- A carriage return at the end goes too.
unfoldable pub cut_return : Text → Text
cut_return [] = []
cut_return (c ∷ s) = let rest = cut_return s in if is_nil s && c == 13 then [] else c ∷ rest

-- How a consumer goes on: with a state, or with an end, without or with an error.
pub data Flow : Type 0 where
  go stop : Stream → Flow
  fail : StreamError → Stream → Flow

-- What is read of an event so far.
pub record Reading : Type 0 where
  pub event : Text
  pub data_text : Text

abbrev pub nothing_read : Reading
nothing_read = record { event = []; data_text = [] }

-- strings.TrimSuffix of a newline.
unfoldable pub cut_newline : Text → Text
cut_newline [] = []
cut_newline (c ∷ s) = let rest = cut_newline s in if is_nil s && c == 10 then [] else c ∷ rest

-- A line that is not blank.
abbrev pub read_line : Text → Reading → Reading
read_line line r =
    if has_prefix line (lit "event:")
    then record r { event = trim_space (trim_prefix line (lit "event:")) }
    else if has_prefix line (lit "data:")
    then record r {
      data_text = r.data_text ++ trim_prefix (trim_prefix line (lit "data:")) (lit " ") ++ 10 ∷ [];
    }
    else r

-- Whether the data of the event grew past its bound.
abbrev pub is_too_large : Text → Reading → Bool
is_too_large line r =
    not (has_prefix line (lit "event:"))
    && has_prefix line (lit "data:")
    && ltb max_line (length (read_line line r).data_text)

module _ (consume : Text → Text → Stream → Flow) where
  -- `flush`
  unfoldable pub flush_event : Reading → Stream → Flow
  flush_event r s = if is_nil r.data_text then go s else consume r.event (cut_newline r.data_text) s

  -- The loop over the lines; `ending` is the error of the reader, if it fails.
  unfoldable pub read_lines : Option StreamError → List Text → Reading → Stream → Flow
  unfolding flush_event
  read_lines none [] r s = flush_event r s
  read_lines (some e) [] r s = fail e s
  read_lines ending (raw ∷ rest) r s =
      let line = cut_return raw in
      if leb max_line (length raw)
      then fail line_too_long s
      else if is_nil line
      then elim (flush_event r s) [
        | go s' ↦ read_lines ending rest nothing_read s'
        | stop s' ↦ stop s'
        | fail e s' ↦ fail e s'
      ]
      else if is_too_large line r
      then fail event_too_large s
      else read_lines ending rest (read_line line r) s

  -- `readEvents`
  unfoldable pub read_events : Text → Option StreamError → Stream → Flow
  unfolding read_lines
  read_events body ending s = read_lines ending (raw_lines body) nothing_read s

-- What `transform` makes of an event: nothing more follows a terminal one.
abbrev pub consumed : Step → Flow
consumed (ok s) = if s.terminal then stop s else go s
consumed (err (e, s)) = fail e s

abbrev pub consume_event : (ℕ → Bool) → Coding → Text → Text → Stream → Flow
consume_event accepts k event bytes s =
    if s.terminal then stop s else consumed (process accepts k event bytes s)

-- How the transformation ends.
pub data Ending : Type 0 where
  ended : Ending
  unexpected_end : Ending
  broken : StreamError → Ending

abbrev pub is_protocol : StreamError → Bool
is_protocol closed_pipe = false
is_protocol read_failure = false
is_protocol _ = true

abbrev pub end_of : Stream → Stream × Ending
end_of s = (s, if s.terminal then ended else unexpected_end)

abbrev pub reported : Step → Stream × Ending
reported (ok s) = (s, ended)
reported (err (e, s)) = (s, broken e)

-- The event of an error of the protocol; the payload is the text of the error.
abbrev pub report : (ℕ → Bool) → StreamError → Stream → Stream × Ending
report accepts e s = reported (emit accepts (lit "response.failed") (failure e) s)

abbrev pub finished : (ℕ → Bool) → Flow → Stream × Ending
finished accepts (go s) = end_of s
finished accepts (stop s) = end_of s
finished accepts (fail e s) = if is_protocol e then report accepts e s else (s, broken e)

-- `transform`, of a body and the error that ends it, if there is one.
unfoldable pub transform :
    (ℕ → Bool) → Coding → Text → Option StreamError → Stream → Stream × Ending
unfolding read_events
transform accepts k body ending s =
    finished accepts (read_events (consume_event accepts k) body ending s)
