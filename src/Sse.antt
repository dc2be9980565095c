-- ===== src/Sse.antt =====
-- basispoints/sse.go: the splitter that cuts a byte stream into server-sent events.
pub mod Drain
pub mod Chunks
pub mod Completed
use cliproxyapi_plugin_basis.Common.{
  ℕ, zero, suc, ◌+◌, Bool, true, false, not, ◌&&◌, ◌||◌, Option, none, some, List, [], ◌∷◌, ◌++◌,
  is_nil, ◌==◌, if◌then◌else◌, length, drop,
}
use cliproxyapi_plugin_basis.Common.Text.{
  Text, lit, ◌=ᵗ◌, trim_space, trim_right, to_lower, has_prefix,
}
use cliproxyapi_plugin_basis.Common.Split.{split_on, cut_at}

abbrev pub crlf_crlf : Text
crlf_crlf = 13 ∷ 10 ∷ 13 ∷ 10 ∷ []

abbrev pub lf_lf : Text
lf_lf = 10 ∷ 10 ∷ []

-- The first event of the buffer and what follows it: `\r\n\r\n` is looked for before `\n\n`.
unfoldable pub next_sse_event : Text → Option (Text × Text)
next_sse_event buf = elim (cut_at crlf_crlf buf) [
  | some found ↦ some found
  | none ↦ cut_at lf_lf buf
]

abbrev pub starts_object : Text → Bool
starts_object [] = false
starts_object (c ∷ s) = c == b'{'

unfoldable pub json_object : Text → Bool
json_object raw = starts_object (trim_space raw)

abbrev is_cr : ℕ → Bool
is_cr c = c == 13

-- The loop over the lines of an event; `found` says that a `data:` line came before.
data_lines : Text → Bool → List Text → Text
data_lines data_ found [] = data_
data_lines data_ found (l ∷ ls) =
    let line = trim_right is_cr l in
    let piece = trim_space (drop 5 line) in
    if not (has_prefix (to_lower line) (lit "data:"))
    then data_lines data_ found ls
    else data_lines ((if found then data_ ++ 10 ∷ [] else data_) ++ piece) true ls

unfoldable pub sse_data : Text → Text
unfolding data_lines
sse_data raw =
    let event = trim_space raw in
    if is_nil event
    then []
    else if json_object event
    then event
    else trim_space (data_lines [] false (split_on 10 event))

-- What is sent for an event; nothing where it holds no JSON object.
unfoldable pub format_sse_data : Text → Text
format_sse_data event =
    let content = sse_data event in
    if is_nil content || content =ᵗ lit "[DONE]"
    then []
    else if not (json_object content)
    then []
    else lit "data: " ++ content ++ lf_lf

-- `append(events, formatted)`, for an event in front of the later ones.
abbrev pub keep : Text → List Text → List Text
keep formatted events = if is_nil formatted then events else formatted ∷ events

abbrev pub keep_in : Text → Option (List Text × Text) → Option (List Text × Text)
keep_in formatted none = none
keep_in formatted (some (events, rest)) = some (keep formatted events, rest)

-- The loop of `drain`; `none` means that the fuel ran out.
unfoldable pub drain_loop : ℕ → Text → Option (List Text × Text)
drain_loop zero buf = none
drain_loop (suc fuel) buf = elim (next_sse_event buf) [
  | none ↦ some ([], buf)
  | some (event, rest) ↦ keep_in (format_sse_data event) (drain_loop fuel rest)
]

-- `push` on the buffer `buf`: the events and the buffer afterwards.
unfoldable pub push : Text → Text → Option (List Text × Text)
push buf chunk =
    if is_nil chunk then some ([], buf) else drain_loop (length (buf ++ chunk) + 1) (buf ++ chunk)

abbrev pub last_event : List Text × Text → List Text × Text
last_event (events, rest) =
    if is_nil (trim_space rest)
    then (events, rest)
    else (events ++ keep (format_sse_data rest) [], [])

-- `flush`
unfoldable pub flush : Text → Option (List Text × Text)
flush buf = elim (drain_loop (length buf + 1) buf) [ none ↦ none | some r ↦ some (last_event r) ]

abbrev more_events : List Text → Option (List Text × Text) → Option (List Text × Text)
more_events events none = none
more_events events (some (later, buf)) = some (events ++ later, buf)

-- The chunks of a stream, pushed one after another.
unfoldable pub push_all : Text → List Text → Option (List Text × Text)
push_all buf [] = some ([], buf)
push_all buf (chunk ∷ chunks) = elim (push buf chunk) [
  | none ↦ none
  | some (events, buf') ↦ more_events events (push_all buf' chunks)
]
