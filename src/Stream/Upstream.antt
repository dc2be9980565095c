-- ===== src/Stream/Upstream.antt =====
-- The events of `transform` as the bytes that its `emit` writes (basispoints/stream.go), and
-- `translateUpstream` of basispoints/wire.go, which reads them to their end.
use cliproxyapi_plugin_basis.Common.{ℕ, true, none, List, [], ◌∷◌, ◌++◌, Result, ok, err}
use cliproxyapi_plugin_basis.Common.Text.{Text, lit}
use cliproxyapi_plugin_basis.Json.{
  Json, number, string, array, object, nil, Fields, set_field, object_of, Coding,
}
use cliproxyapi_plugin_basis.Prepare.Describe.{decimal}
use cliproxyapi_plugin_basis.Tools.{Bridge}
use cliproxyapi_plugin_basis.Stream.{
  StreamError, Payload, passed, item_added, item_done, value_event, part_event, failure, Written,
  Stream,
}
use cliproxyapi_plugin_basis.Stream.Lines.{Ending, ended, unexpected_end, broken, transform}
use cliproxyapi_plugin_basis.Stream.Shown.{fresh}

abbrev pub count : ℕ → Json
count n = number (decimal n)

-- What `emit` sends for an error of the protocol, given its text.
abbrev pub failed_response : Text → Fields
failed_response message = object_of (
    (
      lit "response",
      object (
          object_of (
            (lit "status", string (lit "failed"))
            ∷ (lit "output", array nil)
            ∷ (
              lit "error",
              object (
                  object_of (
                    (lit "code", string (lit "basispoints_protocol_error"))
                    ∷ (lit "message", string message)
                    ∷ [])),
            )
            ∷ [])),
    )
    ∷ [])

-- The wording of the errors is a parameter.
module _ (wording : StreamError → Text) (k : Coding) where
  -- The payload that `emit` is given.
  unfoldable pub payload_fields : Payload → Fields
  payload_fields (passed fields) = fields
  payload_fields (item_added index item) =
      object_of ((lit "output_index", count index) ∷ (lit "item", object item) ∷ [])
  payload_fields (item_done index item) =
      object_of ((lit "output_index", count index) ∷ (lit "item", object item) ∷ [])
  payload_fields (value_event index id field value) =
      object_of
        ((lit "output_index", count index) ∷ (lit "item_id", string id) ∷ (field, value) ∷ [])
  payload_fields (part_event index id i field value) = object_of (
      (lit "output_index", count index)
      ∷ (lit "item_id", string id)
      ∷ (lit "content_index", count i)
      ∷ (field, value)
      ∷ [])
  payload_fields (failure e) = failed_response (wording e)

  -- The bytes of an event.
  unfoldable pub event_text : Written → Text
  unfolding payload_fields
  event_text w =
      let payload =
        set_field (lit "sequence_number") (count w.sequence_number)
          (set_field (lit "type") (string w.kind) (payload_fields w.payload)) in
      lit "event: " ++ w.kind ++ lit "\ndata: " ++ k.encode (object payload) ++ lit "\n\n"

  unfoldable pub events_text : List Written → Text
  unfolding event_text
  events_text [] = []
  events_text (w ∷ ws) = event_text w ++ events_text ws

  -- What io.ReadAll makes of the pipe, and the bridge afterwards.
  abbrev pub read_all : Stream × Ending → Result Text Text × Bridge
  read_all (s, ended) = (ok (events_text s.written), s.bridge)
  read_all (s, unexpected_end) = (err (lit "unexpected EOF"), s.bridge)
  read_all (s, broken e) = (err (wording e), s.bridge)

  -- `translateUpstream` of an answer that is read to its end.
  unfoldable pub translate_upstream : Bridge → Text → Result Text Text × Bridge
  unfolding events_text
  translate_upstream b raw = read_all (transform (λ n. true) k raw none (fresh b))
