-- ===== src/Envelope/Decode.antt =====
-- The unwrapping of tool calls in basispoints/envelope.go. The
-- values of encoding/json and its decoder are the record `Codec`.
pub mod Plain
pub mod Encoded
use cliproxyapi_plugin_basis.Common.{
  ℕ, zero, suc, ◌+◌, ◌-◌, ◌^◌, ◌≡◌, ◌≢◌, refl, sym, ap, ◌∙◌, subst, Bool, true, false, not, ◌&&◌,
  ◌||◌, Option, none, some, List, [], ◌∷◌, ◌++◌, is_nil, ltb, ◌==◌, if◌then◌else◌, if_split, length,
  take, drop, arith, Bool-cases, Option-cases, inl, inr, ◌⊎◌, Result, ok, err,
}
use cliproxyapi_plugin_basis.Common.Text.{
  Text, lit, ◌=ᵗ◌, trim_space, equal_fold, is_space, cut_prefix,
}
use cliproxyapi_plugin_basis.Common.Split.{cut_at}
use cliproxyapi_plugin_basis.Envelope.{repair_transport_json_strings}

pub record Codec : Type 1 where
  -- a Go value of type any that a JSON text was read into
  pub Value : Type 0
  pub nil_value : Value
  pub text_value : Text → Value
  -- `decode` into an any, and into a map
  pub decode : Text → Option Value
  pub decode_object : Text → Option Value
  -- whether the value is a map, and whether it is a map that is nil
  pub is_object : Value → Bool
  pub is_nil_map : Value → Bool
  pub as_text : Value → Option Text
  -- an entry of a map
  pub field : Text → Value → Option Value

abbrev pub max_envelope_bytes : ℕ
max_envelope_bytes = 2 ^ 20

abbrev pub fence : Text
fence = b'`' ∷ b'`' ∷ b'`' ∷ []

-- strings.ContainsAny of the characters that no prose before an envelope has.
pub has_code_byte : Text → Bool
has_code_byte [] = false
has_code_byte (c ∷ s) =
    let rest = has_code_byte s in
    c == b'{'
    || c == b'}'
    || c == b'['
    || c == b']'
    || c == b'('
    || c == b')'
    || c == b';'
    || c == b'='
    || c == b'`'
    || c == b'"'
    || rest

pub prose_prefix : Text → Bool
unfolding has_code_byte
prose_prefix prefix = not (ltb 512 (length prefix)) && not (has_code_byte prefix)

-- The contents of a whole Markdown block that says that it is JSON, or says nothing.
pub fenced_text : Option (Text × Text) → Option Text
unfolding prose_prefix
fenced_text none = none
fenced_text (some (before, after)) =
    let fenced = fence ++ after in
    if not (prose_prefix before) || not (drop (length fenced - 3) fenced =ᵗ fence)
    then none
    else elim (cut_at (10 ∷ []) fenced) [
      | none ↦ none
      | some (head, tail) ↦
          let language = trim_space (drop 3 head) in
          if is_nil language || equal_fold language (lit "json")
          then some (trim_space (take (length tail - 3) tail))
          else none
    ]

-- The text from the first opening brace on, after prose.
pub braced_text : Option (Text × Text) → Option Text
unfolding prose_prefix
braced_text none = none
braced_text (some (before, after)) =
    if is_nil before || not (prose_prefix before) then none else some (b'{' ∷ after)

pub data EnvelopeError : Type 0 where
  no_envelope conflicting_names conflicting_arguments nested_text nested_value too_deep :
      EnvelopeError

module _ (c : Codec) where
  pub decode_envelope_value : Text → Option c.Value
  decode_envelope_value raw =
      let fixed = repair_transport_json_strings raw in
      elim (c.decode raw) [ some v ↦ some v | none ↦ if fixed =ᵗ raw then none else c.decode fixed ]

  -- How one round of `decodeTransportCode` ends.
  pub data Unwrapped : Type 0 where
    found : Unwrapped
    inner : c.Value → Unwrapped
    stuck : Unwrapped

  pub from_brace : Option Text → Unwrapped
  unfolding decode_envelope_value
  from_brace none = stuck
  from_brace (some text) = elim (decode_envelope_value text) [ none ↦ stuck | some v ↦ inner v ]

  pub from_text : Text → Unwrapped
  unfolding from_brace fenced_text braced_text
  from_text raw =
      let other = from_brace (braced_text (cut_at (b'{' ∷ []) raw)) in
      let fenced = fenced_text (cut_at fence raw) in
      if is_nil raw then stuck else elim (decode_envelope_value raw) [
        | some v ↦ inner v
        | none ↦ elim fenced [ some text ↦ inner (c.text_value text) | none ↦ other ]
      ]

  pub unwrap_text : Option Text → Unwrapped
  unfolding from_text
  unwrap_text none = stuck
  unwrap_text (some raw) =
      if ltb max_envelope_bytes (length raw) then stuck else from_text (trim_space raw)

  pub unwrap_value : c.Value → Unwrapped
  unfolding unwrap_text
  unwrap_value v =
      if c.is_object v && not (c.is_nil_map v) then found else unwrap_text (c.as_text v)

  -- The loop of `decodeTransportCode`, with the rounds that are left.
  pub decode_transport_rounds : ℕ → c.Value → Option c.Value
  unfolding unwrap_value
  decode_transport_rounds zero v = none
  decode_transport_rounds (suc n) v = elim (unwrap_value v) [
    | found ↦ some v
    | inner w ↦ decode_transport_rounds n w
    | stuck ↦ none
  ]

  unfoldable pub decode_transport_code : c.Value → Option c.Value
  unfolding decode_transport_rounds
  decode_transport_code v = decode_transport_rounds 4 v

  -- `text(v)`
  abbrev pub text_of : Option c.Value → Text
  text_of none = []
  text_of (some v) = elim (c.as_text v) [ none ↦ [] | some t ↦ t ]

  unfoldable pub envelope_name : c.Value → Result EnvelopeError Text
  envelope_name envelope =
      let name = text_of (c.field (lit "name") envelope) in
      let alias = text_of (c.field (lit "tool") envelope) in
      if not (is_nil name) && not (is_nil alias) && not (name =ᵗ alias)
      then err conflicting_names
      else ok (if is_nil name then alias else name)

  abbrev pub value_or_nil : Option c.Value → c.Value
  value_or_nil none = c.nil_value
  value_or_nil (some v) = v

  pub one_of : Option c.Value → Option c.Value → Result EnvelopeError c.Value
  one_of (some a) (some b) = err conflicting_arguments
  one_of (some a) none = ok a
  one_of none alias = ok (value_or_nil alias)

  unfoldable pub envelope_arguments : c.Value → Result EnvelopeError c.Value
  unfolding one_of
  envelope_arguments envelope =
      one_of (c.field (lit "arguments") envelope) (c.field (lit "args") envelope)

  -- The arguments of a wrapper: a map, or a text that holds one.
  pub read_arguments : c.Value → Option Text → Result EnvelopeError c.Value
  read_arguments args none = if c.is_object args then ok args else err nested_value
  read_arguments args (some raw) = elim (c.decode_object raw) [
    | none ↦ err nested_text
    | some parsed ↦ ok parsed
  ]

  abbrev pub is_wrapper : Text → Bool
  is_wrapper name = name =ᵗ lit "run_officejs" || name =ᵗ lit "functions.run_officejs"

  -- What a wrapper holds.
  pub wrapped_code : c.Value → Result EnvelopeError c.Value
  unfolding read_arguments
  wrapped_code envelope = elim (envelope_arguments envelope) [
    | err e ↦ err e
    | ok args ↦ elim (read_arguments args (c.as_text args)) [
      | err e ↦ err e
      | ok outer ↦ ok (value_or_nil (c.field (lit "code") outer))
    ]
  ]

  -- What a round of `decodeTransportEnvelope` makes of an envelope; `deeper` is what the later
  -- rounds make of a wrapper's contents.
  abbrev pub with_envelope :
      c.Value
      → Result EnvelopeError Text
      → Result EnvelopeError c.Value
      → Result EnvelopeError c.Value
  with_envelope envelope (err e) deeper = err e
  with_envelope envelope (ok name) deeper = if is_wrapper name then deeper else ok envelope

  -- The loop of `decodeTransportEnvelope`, with the rounds that are left.
  pub envelope_rounds : ℕ → c.Value → Result EnvelopeError c.Value
  unfolding wrapped_code
  envelope_rounds zero v = err too_deep
  envelope_rounds (suc n) v = elim (decode_transport_code v) [
    | none ↦ err no_envelope
    | some envelope ↦
        with_envelope envelope (envelope_name envelope)
          (elim (wrapped_code envelope) [ err e ↦ err e | ok w ↦ envelope_rounds n w ])
  ]

  unfoldable pub decode_transport_envelope : c.Value → Result EnvelopeError c.Value
  unfolding envelope_rounds
  decode_transport_envelope v = envelope_rounds 3 v
