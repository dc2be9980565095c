-- ===== src/Requests/Service/Details.antt =====
-- What basispoints/service.go says of an answer in a log line, and the frames of a buffered answer.
use cliproxyapi_plugin_basis.Common.{
  Option, none, some, List, [], ◌∷◌, ◌++◌, is_nil, if◌then◌else◌, take, ◌≡◌, ap, ◌∙◌,
}
use cliproxyapi_plugin_basis.Common.Text.{Text, lit, trim_space}
use cliproxyapi_plugin_basis.Common.Split.{cut_at}
use cliproxyapi_plugin_basis.Sse.{push, flush, format_sse_data}
use cliproxyapi_plugin_basis.Sse.Drain.{push-returns, flush-returns}
use cliproxyapi_plugin_basis.Sse.Completed.{Reader, completed_event}

abbrev pub before_cut : Text → Option (Text × Text) → Text
before_cut s none = s
before_cut s (some (before, after)) = before

-- `redactS3Error` of basispoints/image_s3.go, of a message: no query, and at most 300 bytes.
unfoldable pub redact_s3_error : Text → Text
redact_s3_error message = take 300 (before_cut message (cut_at (lit "?") message))

-- `streamFrames`
abbrev pub frames_or : Text → List Text → List Text
frames_or event [] = if is_nil event then [] else format_sse_data event ∷ []
frames_or event (frame ∷ frames) = frame ∷ frames

abbrev pub flushed_frames : List Text → Option (List Text × Text) → Option (List Text)
flushed_frames frames none = none
flushed_frames frames (some (later, rest)) = some (frames ++ later)

abbrev pub pushed_frames : Option (List Text × Text) → Option (List Text)
pushed_frames none = none
pushed_frames (some (frames, buf)) = flushed_frames frames (flush buf)

abbrev pub framed : Text → Option (List Text) → Option (List Text)
framed event none = none
framed event (some frames) = some (frames_or event frames)

module _ (reader : Reader) where
  -- `upstreamErrorDetail`
  unfoldable pub upstream_error_detail : Text → Text
  unfolding redact_s3_error
  upstream_error_detail body =
      let code = trim_space (reader.string_at body (lit "error.code")) in
      let message = trim_space (reader.string_at body (lit "error.message")) in
      let detail =
        take 240 (redact_s3_error (if is_nil message then trim_space body else message)) in
      if is_nil code then detail else code ++ lit ": " ++ detail

  -- The splitter is a loop on fuel, which always suffices.
  unfoldable pub stream_frames : Text → Option (List Text)
  stream_frames raw = framed (completed_event reader raw) (pushed_frames (push [] raw))

  pub stream_frames-returns :
      (raw : Text) → (frames : List Text) × (stream_frames raw ≡ some frames)
  unfolding stream_frames
  stream_frames-returns raw =
      let ((frames, buf), p) = push-returns [] raw in
      let ((later, rest), f) = flush-returns buf in
      let found : pushed_frames (push [] raw) ≡ some (frames ++ later) =
        ap pushed_frames p ∙ ap (flushed_frames frames) f in
      (
        frames_or (completed_event reader raw) (frames ++ later),
        ap (framed (completed_event reader raw)) found,
      )
