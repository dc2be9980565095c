-- ===== src/Envelope/Decode/Plain.antt =====
-- What the unwrapping of tool calls returns (basispoints/envelope.go).
use cliproxyapi_plugin_basis.Common.{
  ℕ, zero, suc, ◌≡◌, refl, ap, ◌∙◌, subst, true, false, not, ◌&&◌, Option, none, some, [], ◌∷◌,
  if◌then◌else◌, if_split, arith, Result, ok, err,
}
use cliproxyapi_plugin_basis.Common.Text.{Text, trim_space}
use cliproxyapi_plugin_basis.Common.Split.{cut_at}
use cliproxyapi_plugin_basis.Envelope.Decode.{
  Codec, EnvelopeError, no_envelope, is_wrapper, found, inner, stuck, braced_text, from_brace,
  from_text, unwrap_text, unwrap_value, decode_transport_rounds, decode_transport_code,
  envelope_name, wrapped_code, envelope_rounds, decode_transport_envelope, with_envelope, Unwrapped,
}

module _ (c : Codec) where
  -- A map that is not nil.
  abbrev pub IsObject : c.Value → Type 0
  IsObject v = (c.is_object v && not (c.is_nil_map v)) ≡ true

  abbrev ObjectOption : Option c.Value → Type 0
  ObjectOption none = Unit
  ObjectOption (some v) = IsObject v

  from_brace_found : (o : Option Text) → from_brace c o ≡ found → ⊥
  unfolding from_brace
  from_brace_found none h = absurd (cc)
  from_brace_found (some t) h = ground (arith, h)

  from_text_found : (raw : Text) → from_text c raw ≡ found → ⊥
  unfolding from_text
  from_text_found raw h = ground (arith, h, from_brace_found (braced_text (cut_at (b'{' ∷ []) raw)))

  unwrap_text_found : (o : Option Text) → unwrap_text c o ≡ found → ⊥
  unfolding unwrap_text
  unwrap_text_found none h = absurd (cc)
  unwrap_text_found (some raw) h = ground (arith, h, from_text_found (trim_space raw))

  unwrap_value_found : (v : c.Value) → unwrap_value c v ≡ found → IsObject v
  unfolding unwrap_value
  unwrap_value_found v h = ground (arith, h, unwrap_text_found (c.as_text v))

  rounds-Object : (n : ℕ) (v : c.Value) → ObjectOption (decode_transport_rounds c n v)
  unfolding decode_transport_rounds
  rounds-Object zero v = tt
  rounds-Object (suc n) v = later (unwrap_value c v) (unwrap_value_found v) (rounds-Object n)
    where
      later :
          (u : Unwrapped c)
          → (u ≡ found → IsObject v)
          → ((w : c.Value) → ObjectOption (decode_transport_rounds c n w))
          → ObjectOption
              (elim u [ found ↦ some v | inner w ↦ decode_transport_rounds c n w | stuck ↦ none ])
      later found f h = f refl
      later (inner w) f h = h w
      later stuck f h = tt

  -- An object is the value of its own code.
  decode_transport_code-IsObject : (v : c.Value) → IsObject v → decode_transport_code c v ≡ some v
  unfolding decode_transport_code unwrap_value
  decode_transport_code-IsObject v o = step (unwrap_value c v) (unfold unwrap_value in rw o refl)
    where
      step :
          (u : Unwrapped c)
          → u ≡ found
          → (elim u [ found ↦ some v | inner w ↦ decode_transport_rounds c 3 w | stuck ↦ none ])
            ≡ some v
      step found e = refl
      step (inner w) e = absurd (cc)
      step stuck e = absurd (cc)

  -- What a decoded envelope is: an object whose fields for a name give one, which may be blank and
  -- is not that of a wrapper.
  abbrev pub IsEnvelope : c.Value → Type 0
  IsEnvelope v =
      IsObject v × ((name : Text) × (envelope_name c v ≡ ok name) × (is_wrapper c name ≡ false))

  abbrev EnvelopeResult : Result EnvelopeError c.Value → Type 0
  EnvelopeResult (err e) = Unit
  EnvelopeResult (ok v) = IsEnvelope v

  envelope_rounds-IsEnvelope : (n : ℕ) (v : c.Value) → EnvelopeResult (envelope_rounds c n v)
  unfolding envelope_rounds decode_transport_code
  envelope_rounds-IsEnvelope zero v = tt
  envelope_rounds-IsEnvelope (suc n) v =
      decoded (decode_transport_code c v) (rounds-Object 4 v) (envelope_rounds-IsEnvelope n)
    where
      wrapped :
          (r : Result EnvelopeError c.Value)
          → ((w : c.Value) → EnvelopeResult (envelope_rounds c n w))
          → EnvelopeResult (elim r [ err e ↦ err e | ok w ↦ envelope_rounds c n w ])
      wrapped (err e) h = tt
      wrapped (ok w) h = h w

      named :
          (envelope : c.Value) (r : Result EnvelopeError Text)
          (deeper : Result EnvelopeError c.Value)
          → IsObject envelope
          → envelope_name c envelope ≡ r
          → EnvelopeResult deeper
          → EnvelopeResult (with_envelope c envelope r deeper)
      named envelope (err e) deeper o q h = tt
      named envelope (ok name) deeper o q h =
          if_split EnvelopeResult (is_wrapper c name) (λ _. h) (λ plain. (o, (name, q, plain)))

      decoded :
          (o : Option c.Value)
          → ObjectOption o
          → ((w : c.Value) → EnvelopeResult (envelope_rounds c n w))
          → EnvelopeResult (elim o [
            | none ↦ err no_envelope
            | some envelope ↦
                with_envelope c envelope
                  (envelope_name c envelope)
                  (elim (wrapped_code c envelope) [ err e ↦ err e | ok w ↦ envelope_rounds c n w ])
          ])
      decoded none o h = tt
      decoded (some envelope) o h =
          named envelope (envelope_name c envelope) _ o refl (wrapped (wrapped_code c envelope) h)

  envelope_rounds-plain :
      (n : ℕ) (v : c.Value) (name : Text)
      → decode_transport_code c v ≡ some v
      → envelope_name c v ≡ ok name
      → is_wrapper c name ≡ false
      → envelope_rounds c (suc n) v ≡ ok v
  unfolding envelope_rounds
  envelope_rounds-plain n v name e q plain =
      ap {B = Result EnvelopeError c.Value}
        (λ o. elim o [
          | none ↦ err no_envelope
          | some envelope ↦
              with_envelope c envelope (envelope_name c envelope)
                (elim (wrapped_code c envelope) [ err e ↦ err e | ok w ↦ envelope_rounds c n w ])
        ])
        e
      ∙ ap
          (λ r.
            with_envelope c v r
              (elim (wrapped_code c v) [ err e ↦ err e | ok w ↦ envelope_rounds c n w ]))
          q
      ∙ ap {B = Result EnvelopeError c.Value}
          (λ b.
            if b
            then (elim (wrapped_code c v) [ err e ↦ err e | ok w ↦ envelope_rounds c n w ])
            else ok v)
          plain

  -- A decoded envelope is an object whose two fields for a name do not disagree; the name that they
  -- give, which may be blank, is not that of a wrapper; and decoding the envelope again changes
  -- nothing.
  pub decode_transport_envelope-IsEnvelope :
      (v envelope : c.Value)
      → decode_transport_envelope c v ≡ ok envelope
      → IsEnvelope envelope × (decode_transport_envelope c envelope ≡ ok envelope)
  unfolding decode_transport_envelope
  decode_transport_envelope-IsEnvelope v envelope h = (is, again)
    where
      is : IsEnvelope envelope
      is = subst EnvelopeResult h (envelope_rounds-IsEnvelope 3 v)

      again : envelope_rounds c 3 envelope ≡ ok envelope
      again =
          envelope_rounds-plain 2 envelope is.1.0 (decode_transport_code-IsObject envelope is.0)
            is.1.1 is.1.2
