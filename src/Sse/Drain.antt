-- ===== src/Sse/Drain.antt =====
-- The loop of the splitter (basispoints/sse.go).
use cliproxyapi_plugin_basis.Common.{
  ℕ, zero, suc, ◌+◌, ◌<◌, ◌≡◌, refl, sym, ap, subst, Option, none, some, List, [], ◌∷◌, ◌++◌,
  length, length-append, arith, inl, inr, ◌⊎◌,
}
use cliproxyapi_plugin_basis.Common.Text.{Text}
use cliproxyapi_plugin_basis.Common.Split.{cut_at, cut_at_sound}
use cliproxyapi_plugin_basis.Sse.{
  flush, last_event, crlf_crlf, lf_lf, next_sse_event, format_sse_data, keep, keep_in, drain_loop,
  push,
}

-- What the loop of `drain` does: the events of a buffer, and what is left of it.
pub data Drains : Text → List Text → Text → Type 0 where
  done : {buf : Text} → next_sse_event buf ≡ none → Drains buf [] buf
  more :
      {buf event rest rest' : Text} {events : List Text}
      → next_sse_event buf ≡ some (event, rest)
      → Drains rest events rest'
      → Drains buf (keep (format_sse_data event) events) rest'

pub next_sse_event_sound :
    (s event rest : Text)
    → next_sse_event s ≡ some (event, rest)
    → (s ≡ event ++ crlf_crlf ++ rest) ⊎ (s ≡ event ++ lf_lf ++ rest)
unfolding next_sse_event
next_sse_event_sound s event rest h =
    by_cases (cut_at crlf_crlf s) (λ b r. cut_at_sound crlf_crlf s b r) h
  where
    by_cases :
        (o : Option (Text × Text))
        → ((b r : Text) → o ≡ some (b, r) → s ≡ b ++ crlf_crlf ++ r)
        → (elim o [ some found ↦ some found | none ↦ cut_at lf_lf s ]) ≡ some (event, rest)
        → (s ≡ event ++ crlf_crlf ++ rest) ⊎ (s ≡ event ++ lf_lf ++ rest)
    by_cases none f p = inr (cut_at_sound lf_lf s event rest p)
    by_cases (some (b, r)) f p = inl (f event rest p)

pub next_sse_event-shorter :
    (s event rest : Text) → next_sse_event s ≡ some (event, rest) → length rest < length s
next_sse_event-shorter s event rest h = elim (next_sse_event_sound s event rest h) [
  | inl p ↦
      subst (λ x. length rest < length x) (sym p)
        (omega (arith, length-append (event ++ crlf_crlf) rest, length-append event crlf_crlf))
  | inr p ↦
      subst (λ x. length rest < length x) (sym p)
        (omega (arith, length-append (event ++ lf_lf) rest, length-append event lf_lf))
]

-- With more fuel than bytes the loop ends.
unfoldable pub Drained : ℕ → Text → Type 0
Drained fuel buf =
    (events : List Text) × (rest : Text) × ((drain_loop fuel buf ≡ some (events, rest))
      × (Drains buf events rest × (next_sse_event rest ≡ none)))

pub drain_loop-Drained : (fuel : ℕ) (buf : Text) → length buf < fuel → Drained fuel buf
unfolding Drained drain_loop
drain_loop-Drained zero buf h = absurd (omega (arith, h))
drain_loop-Drained (suc fuel) buf h =
    by_cases (next_sse_event buf) refl (λ rest lt. drain_loop-Drained fuel rest lt)
  where
    by_cases :
        (o : Option (Text × Text))
        → next_sse_event buf ≡ o
        → ((rest : Text) → length rest < fuel → Drained fuel rest)
        → (events : List Text) × (rest : Text) × (((elim o as (λ k. Option (List Text × Text)) [
          | none ↦ some ([], buf)
          | some (event, rest) ↦ keep_in (format_sse_data event) (drain_loop fuel rest)
        ])
              ≡ some (events, rest))
            × (Drains buf events rest × (next_sse_event rest ≡ none)))
    by_cases none p later = ([], buf, (refl, (done p, p)))
    by_cases (some (event, rest)) p later =
        let (events, rest', (q, (ds, e))) =
          later rest (omega (arith, h, next_sse_event-shorter buf event rest p)) in
        (
          keep (format_sse_data event) events,
          rest',
          (ap (keep_in (format_sse_data event)) q, (more p ds, e)),
        )

-- Every push and every flush returns, whatever the buffer is.
pub push-returns : (buf bytes : Text) → (x : List Text × Text) × (push buf bytes ≡ some x)
unfolding push Drained
push-returns buf [] = (([], buf), refl)
push-returns buf (c ∷ bytes) =
    let (events, rest, (p, d)) =
      drain_loop-Drained (length (buf ++ c ∷ bytes) + 1) (buf ++ c ∷ bytes) (omega arith) in
    ((events, rest), p)

pub flush-returns : (buf : Text) → (x : List Text × Text) × (flush buf ≡ some x)
unfolding flush Drained
flush-returns buf =
    let (events, rest, (p, d)) = drain_loop-Drained (length buf + 1) buf (omega arith) in
    (
      last_event (events, rest),
      ap {B = Option (List Text × Text)}
          (λ o. elim o [ none ↦ none | some r ↦ some (last_event r) ]) p,
    )
