-- ===== src/Relay/Closing.antt =====
-- The calls of the host that the relay makes (`pump` of basispoints/service.go).
use cliproxyapi_plugin_basis.Common.{
  ◌≡◌, refl, Bool, true, false, ◌||◌, Option, none, some, List, [], ◌∷◌, ◌++◌, if_split, inl, inr,
  ◌⊎◌,
}
use cliproxyapi_plugin_basis.Common.Text.{Text, ◌=ᵗ◌, =ᵗ_refl}
use cliproxyapi_plugin_basis.Sse.{push, flush}
use cliproxyapi_plugin_basis.Sse.Drain.{push-returns, flush-returns}
use cliproxyapi_plugin_basis.Relay.{
  Event, cancelled, tick, chunk, last_chunk, ReadError, end_of_stream, other_error, Call, emitted,
  closed, Outcome, waiting, relayed, broken, no_fuel, Receiver, sse_terminal, Sent, emit_frames,
  with_calls, finish_stream, after_flush, flush_stream, proceed, pump, keepalive,
  incomplete_stream_event,
}

-- No call closes the stream.
abbrev pub AllEmitted : List Call → Type 0
AllEmitted [] = Unit
AllEmitted (emitted f ∷ calls) = AllEmitted calls
AllEmitted (closed e ∷ calls) = ⊥

-- The last call closes the stream, and no other does.
abbrev pub EndsClosed : List Call → Type 0
EndsClosed [] = ⊥
EndsClosed (emitted f ∷ calls) = EndsClosed calls
EndsClosed (closed e ∷ []) = Unit
EndsClosed (closed e ∷ call ∷ calls) = ⊥

EndsClosed-append :
    (calls later : List Call) → AllEmitted calls → EndsClosed later → EndsClosed (calls ++ later)
EndsClosed-append [] later a e = e
EndsClosed-append (emitted f ∷ calls) later a e = EndsClosed-append calls later a e
EndsClosed-append (closed x ∷ calls) later a e = absurd a

AllEmitted-append :
    (calls later : List Call) → AllEmitted calls → AllEmitted later → AllEmitted (calls ++ later)
AllEmitted-append [] later a e = e
AllEmitted-append (emitted f ∷ calls) later a e = AllEmitted-append calls later a e
AllEmitted-append (closed x ∷ calls) later a e = absurd a

module _ (r : Receiver) where
  -- A frame of a final kind was sent, or the event that stands for a missing one.
  abbrev pub HasFinal : List Call → Type 0
  HasFinal [] = ⊥
  HasFinal (emitted f ∷ calls) =
      ((sse_terminal r f || f =ᵗ incomplete_stream_event) ≡ true) ⊎ HasFinal calls
  HasFinal (closed e ∷ calls) = HasFinal calls

  pub HasFinal-left : (calls later : List Call) → HasFinal calls → HasFinal (calls ++ later)
  HasFinal-left [] later h = absurd h
  HasFinal-left (emitted f ∷ calls) later (inl h) = inl h
  HasFinal-left (emitted f ∷ calls) later (inr h) = inr (HasFinal-left calls later h)
  HasFinal-left (closed e ∷ calls) later h = HasFinal-left calls later h

  HasFinal-right : (calls later : List Call) → HasFinal later → HasFinal (calls ++ later)
  HasFinal-right [] later h = h
  HasFinal-right (emitted f ∷ calls) later h = inr (HasFinal-right calls later h)
  HasFinal-right (closed e ∷ calls) later h = HasFinal-right calls later h

  -- What `emitFrames` did: all frames were sent, or the stream was closed.
  abbrev SentWell : Bool → Sent r → Type 0
  SentWell terminal s =
      (s.delivered ≡ true → AllEmitted s.calls)
      × (s.delivered ≡ false → EndsClosed s.calls)
      × (s.terminal ≡ true → (terminal ≡ true) ⊎ HasFinal s.calls)

  emit_frames-SentWell :
      (frames : List Text) (terminal : Bool) (st : r.State)
      → SentWell terminal (emit_frames r frames terminal st)
  unfolding emit_frames
  emit_frames-SentWell [] terminal st = ((λ _. tt), (λ h. absurd (cc)), (λ h. inl h))
  emit_frames-SentWell (frame ∷ frames) terminal st =
      sent (r.emit frame st).0
        (emit_frames-SentWell frames (sse_terminal r frame || terminal) (r.emit frame st).1)
    where
      first :
          (calls : List Call)
          → ((sse_terminal r frame || terminal) ≡ true) ⊎ HasFinal calls
          → (terminal ≡ true) ⊎ HasFinal (emitted frame ∷ calls)
      first calls (inl h) = either (sse_terminal r frame) terminal refl h
        where
          either :
              (x t : Bool)
              → sse_terminal r frame ≡ x
              → (x || t) ≡ true
              → (t ≡ true) ⊎ HasFinal (emitted frame ∷ calls)
          either true t e h = inr (inl (rw e refl))
          either false t e h = inl h
      first calls (inr h) = inr (inr h)

      sent :
          (failure : Option Text)
          → SentWell
              (sse_terminal r frame || terminal)
              (emit_frames r frames (sse_terminal r frame || terminal) (r.emit frame st).1)
          → SentWell terminal (elim failure [
            | none ↦
                record (emit_frames r frames
                  (sse_terminal r frame || terminal)
                  (r.emit frame st).1) {
                    calls =
                        emitted frame
                        ∷ (emit_frames r frames
                            (sse_terminal r frame || terminal)
                            (r.emit frame st).1).calls;
                  }
            | some e ↦ record {
              delivered = false;
              terminal = sse_terminal r frame || terminal;
              calls = emitted frame ∷ closed e ∷ [];
              state = (r.emit frame st).1;
            }
          ])
      sent none (a, e, f) = (
        a,
        e,
        λ h.
            first
              (emit_frames r frames (sse_terminal r frame || terminal) (r.emit frame st).1).calls
              (f h),
      )
      sent (some x) w = ((λ h. absurd (cc)), (λ _. tt), λ h. first (closed x ∷ []) (inl h))

  -- What the relay did, by its outcome; `terminal` says that a final event was sent before.
  abbrev pub Closes : Bool → Outcome × List Call → Type 0
  Closes terminal (waiting, calls) = AllEmitted calls
  Closes terminal (relayed, calls) = EndsClosed calls × ((terminal ≡ true) ⊎ HasFinal calls)
  Closes terminal (broken, calls) = EndsClosed calls
  Closes terminal (no_fuel, calls) = ⊥

  with_calls-Closes :
      (terminal later : Bool) (calls : List Call) (x : Outcome × List Call)
      → AllEmitted calls
      → (later ≡ true → (terminal ≡ true) ⊎ HasFinal calls)
      → Closes later x
      → Closes terminal (with_calls r calls x)
  with_calls-Closes terminal later calls (waiting, more) a f h = AllEmitted-append calls more a h
  with_calls-Closes terminal later calls (relayed, more) a f (e, g) =
      (EndsClosed-append calls more a e, final g)
    where
      final : (later ≡ true) ⊎ HasFinal more → (terminal ≡ true) ⊎ HasFinal (calls ++ more)
      final (inl p) = elim (f p) [ inl t ↦ inl t | inr g ↦ inr (HasFinal-left calls more g) ]
      final (inr g) = inr (HasFinal-right calls more g)
  with_calls-Closes terminal later calls (broken, more) a f h = EndsClosed-append calls more a h
  with_calls-Closes terminal later calls (no_fuel, more) a f h = absurd h

  proceed-Closes :
      (terminal : Bool) (s : Sent r) (x : Outcome × List Call)
      → SentWell terminal s
      → Closes s.terminal x
      → Closes terminal (proceed r s x)
  proceed-Closes terminal s x (a, e, f) h =
      if_split (Closes terminal) s.delivered
        (λ d. with_calls-Closes terminal s.terminal s.calls x (a d) f h) (λ d. e d)

  finish_stream-Closes :
      (terminal : Bool) (end : ReadError) → Closes terminal (finish_stream r terminal end)
  finish_stream-Closes terminal (other_error e) = tt
  finish_stream-Closes true end_of_stream = (tt, inl refl)
  finish_stream-Closes false end_of_stream = (
    tt,
    inr (
        inl (
          last (sse_terminal r incomplete_stream_event)
            (incomplete_stream_event =ᵗ incomplete_stream_event)
            (=ᵗ_refl incomplete_stream_event))),
  )
    where
      last : (a b : Bool) → b ≡ true → (a || b) ≡ true
      last true b h = refl
      last false b h = h

  flush_stream-Closes :
      (buf : Text) (end : ReadError) (terminal : Bool) (st : r.State)
      → Closes terminal (flush_stream r buf end terminal st)
  unfolding flush_stream
  flush_stream-Closes buf end terminal st = flushed (flush-returns buf)
    where
      flushed :
          (x : List Text × Text) × (flush buf ≡ some x)
          → Closes terminal (elim (flush buf) [
            | none ↦ (no_fuel, [])
            | some (frames, rest) ↦ after_flush r end (emit_frames r frames terminal st)
          ])
      flushed ((frames, rest), p) = rw p (
          proceed-Closes terminal (emit_frames r frames terminal st)
            (finish_stream r (emit_frames r frames terminal st).terminal end)
            (emit_frames-SentWell frames terminal st)
            (finish_stream-Closes (emit_frames r frames terminal st).terminal end))

  pushed :
      (buf bytes : Text) (terminal : Bool) (st : r.State)
      (later : Text → Bool → r.State → Outcome × List Call)
      → ((b : Text) (t : Bool) (st : r.State) → Closes t (later b t st))
      → Closes terminal (elim (push buf bytes) [
        | none ↦ (no_fuel, [])
        | some (frames, buf') ↦ proceed r (emit_frames r frames terminal st) (
            later buf'
              (emit_frames r frames terminal st).terminal
              (emit_frames r frames terminal st).state)
      ])
  pushed buf bytes terminal st later h = from (push-returns buf bytes)
    where
      from :
          (x : List Text × Text) × (push buf bytes ≡ some x)
          → Closes terminal (elim (push buf bytes) [
            | none ↦ (no_fuel, [])
            | some (frames, buf') ↦ proceed r (emit_frames r frames terminal st) (
                later buf'
                  (emit_frames r frames terminal st).terminal
                  (emit_frames r frames terminal st).state)
          ])
      from ((frames, buf'), p) = rw p (
          proceed-Closes terminal (emit_frames r frames terminal st)
            (later buf' (emit_frames r frames terminal st).terminal
              (emit_frames r frames terminal st).state)
            (emit_frames-SentWell frames terminal st)
            (h buf' (emit_frames r frames terminal st).terminal
              (emit_frames r frames terminal st).state))

  -- Whatever the relay receives, and in whatever order: while it waits it has not closed the host's
  -- stream; once it stops it has closed it exactly once, as its last call; and it counts the stream as
  -- sent only after a final event, or after the event that reports its lack. The splitter always
  -- returns.
  pub pump-Closes :
      (events : List Event) (buf : Text) (terminal : Bool) (st : r.State)
      → Closes terminal (pump r events buf terminal st)
  unfolding pump
  pump-Closes [] buf terminal st = tt
  pump-Closes (cancelled e ∷ events) buf terminal st = tt
  pump-Closes (tick ∷ events) buf terminal st =
      ticked (r.emit keepalive st).0 (pump-Closes events buf terminal (r.emit keepalive st).1)
    where
      ticked :
          (failure : Option Text)
          → Closes terminal (pump r events buf terminal (r.emit keepalive st).1)
          → Closes terminal (elim failure [
            | none ↦
                with_calls r
                  (emitted keepalive ∷ [])
                  (pump r events buf terminal (r.emit keepalive st).1)
            | some e ↦ (broken, emitted keepalive ∷ closed e ∷ [])
          ])
      ticked none h =
          with_calls-Closes terminal terminal (emitted keepalive ∷ [])
            (pump r events buf terminal (r.emit keepalive st).1) tt (λ t. inl t) h
      ticked (some e) h = tt
  pump-Closes (chunk bytes ∷ events) buf terminal st =
      pushed buf bytes terminal st (pump r events) (pump-Closes events)
  pump-Closes (last_chunk bytes end ∷ events) buf terminal st =
      pushed buf bytes terminal st (λ b t st. flush_stream r b end t st)
        (λ b t st. flush_stream-Closes b end t st)
