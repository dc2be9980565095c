-- ===== src/Envelope/Decode/Encoded.antt =====
-- The unwrapping of a code that is the JSON of an envelope (basispoints/envelope.go).
use cliproxyapi_plugin_basis.Common.{
  ℕ, suc, ◌≡◌, refl, ap, ◌∙◌, false, not, ◌&&◌, Option, none, some, if◌then◌else◌, Result, ok, err,
  is_nil, ltb, length,
}
use cliproxyapi_plugin_basis.Common.Text.{Text, trim_space}
use cliproxyapi_plugin_basis.Envelope.Decode.{
  Codec, EnvelopeError, no_envelope, max_envelope_bytes, is_wrapper, found, inner, stuck, from_text,
  unwrap_text, unwrap_value, decode_envelope_value, decode_transport_rounds, decode_transport_code,
  envelope_name, wrapped_code, envelope_rounds, decode_transport_envelope, with_envelope, Unwrapped,
}
use cliproxyapi_plugin_basis.Envelope.Decode.Plain.{IsObject}

module _ (c : Codec) where
  -- The code of an envelope: a text of at most 1 MiB without space at its ends, which the decoder
  -- reads as the envelope, an object.
  pub record IsCodeOf (raw : Text) (e : c.Value) : Type 0 where
    pub short : ltb max_envelope_bytes (length raw) ≡ false
    pub trimmed : trim_space raw ≡ raw
    pub nonblank : is_nil raw ≡ false
    pub decodes : c.decode raw ≡ some e
    pub object : IsObject c e

  unwrap_text-IsCodeOf :
      (raw : Text) (e : c.Value) → IsCodeOf raw e → unwrap_text c (some raw) ≡ inner e
  unfolding unwrap_text from_text decode_envelope_value
  unwrap_text-IsCodeOf raw e i = rw (i.short, i.trimmed, i.nonblank, i.decodes) refl

  unwrap_value-text :
      (v : c.Value) (raw : Text)
      → (c.is_object v && not (c.is_nil_map v)) ≡ false
      → c.as_text v ≡ some raw
      → unwrap_value c v ≡ unwrap_text c (some raw)
  unfolding unwrap_value
  unwrap_value-text v raw plain is_text = rw (plain, is_text) refl

  unwrap_value-IsObject : (v : c.Value) → IsObject c v → unwrap_value c v ≡ found
  unfolding unwrap_value
  unwrap_value-IsObject v o = rw o refl

  round : ℕ → c.Value → Unwrapped c → Option c.Value
  round n v u = elim u [ found ↦ some v | inner w ↦ decode_transport_rounds c n w | stuck ↦ none ]

  rounds_lem :
      (n : ℕ) (v e : c.Value)
      → unwrap_value c v ≡ inner e
      → IsObject c e
      → decode_transport_rounds c (suc (suc n)) v ≡ some e
  unfolding decode_transport_rounds round
  rounds_lem n v e h o = ap (round (suc n) v) h ∙ ap (round n e) (unwrap_value-IsObject e o)

  decoded : ℕ → Option c.Value → Result EnvelopeError c.Value
  decoded n o = elim o [
    | none ↦ err no_envelope
    | some envelope ↦
        with_envelope c envelope (envelope_name c envelope)
          (elim (wrapped_code c envelope) [ err e ↦ err e | ok w ↦ envelope_rounds c n w ])
  ]

  decoded_lem :
      (n : ℕ) (e : c.Value) (name : Text)
      → envelope_name c e ≡ ok name
      → is_wrapper c name ≡ false
      → decoded n (some e) ≡ ok e
  unfolding decoded
  decoded_lem n e name q plain =
      ap (λ r. with_envelope c e r deeper) q
      ∙ ap {B = Result EnvelopeError c.Value} (λ b. if b then deeper else ok e) plain
    where
      deeper : Result EnvelopeError c.Value
      deeper = elim (wrapped_code c e) [ err e ↦ err e | ok w ↦ envelope_rounds c n w ]

  -- The code of an envelope whose name is clear and no wrapper's is that envelope.
  pub decode_transport_envelope-IsCodeOf :
      (v e : c.Value) (raw name : Text)
      → (c.is_object v && not (c.is_nil_map v)) ≡ false
      → c.as_text v ≡ some raw
      → IsCodeOf raw e
      → envelope_name c e ≡ ok name
      → is_wrapper c name ≡ false
      → decode_transport_envelope c v ≡ ok e
  unfolding decode_transport_envelope envelope_rounds decode_transport_code decoded
  decode_transport_envelope-IsCodeOf v e raw name plain is_text i q w =
      ap (decoded 2) (
        rounds_lem 2 v e (unwrap_value-text v raw plain is_text ∙ unwrap_text-IsCodeOf raw e i)
          i.object)
      ∙ decoded_lem 2 e name q w
