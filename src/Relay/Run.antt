-- ===== src/Relay/Run.antt =====
-- The whole of `pump` of basispoints/service.go: the stream that is relayed, the loop, and what is
-- deferred to its end.
use cliproxyapi_plugin_basis.Common.{
  ℕ, suc, ◌≡◌, refl, sym, ap, ◌⊎◌, inl, inr, true, false, List, [], ◌∷◌, ◌++◌, map, append_assoc,
}
use cliproxyapi_plugin_basis.Common.Text.{lit}
use cliproxyapi_plugin_basis.Relay.{
  Event, Call, emitted, closed, Outcome, waiting, relayed, broken, no_fuel, Receiver, pump,
}
use cliproxyapi_plugin_basis.Relay.Closing.{
  AllEmitted, EndsClosed, Closes, HasFinal, HasFinal-left, pump-Closes,
}

-- What `openStream` opened: nothing, a stream without a bridge, or one with it.
pub data Opened : Type 0 where
  no_stream bare_stream bridged_stream : Opened

-- What the relay does: a call of the host, the closing of the reader over the stream or of the stream
-- itself, and the release of the account with a status.
pub data Act : Type 0 where
  told : Call → Act
  reader_closed stream_closed : Act
  released : ℕ → Act

-- The deferred calls, the last one first.
abbrev pub deferred : Opened → List Act
deferred no_stream = released 200 ∷ []
deferred bare_stream = stream_closed ∷ released 200 ∷ []
deferred bridged_stream = reader_closed ∷ released 200 ∷ []

abbrev pub ending_of : Outcome × List Call → Outcome × List Act
ending_of (waiting, calls) = (waiting, map told calls)
ending_of (relayed, calls) = (relayed, map told calls ++ deferred bridged_stream)
ending_of (broken, calls) = (broken, map told calls ++ deferred bridged_stream)
ending_of (no_fuel, calls) = (no_fuel, map told calls)

module _ (r : Receiver) where
  -- `pump`
  unfoldable pub relay : Opened → List Event → r.State → Outcome × List Act
  relay bridged_stream events st = ending_of (pump r events [] false st)
  relay no_stream events st =
      (broken, told (closed (lit "basispoints stream is empty")) ∷ deferred no_stream)
  relay bare_stream events st =
      (broken, told (closed (lit "basispoints stream is empty")) ∷ deferred bare_stream)

-- How many acts close the host's stream, close what was opened, and release the account.
abbrev pub host_closes : List Act → ℕ
host_closes [] = 0
host_closes (told (closed e) ∷ acts) = suc (host_closes acts)
host_closes (_ ∷ acts) = host_closes acts

abbrev pub stream_closes : List Act → ℕ
stream_closes [] = 0
stream_closes (reader_closed ∷ acts) = suc (stream_closes acts)
stream_closes (stream_closed ∷ acts) = suc (stream_closes acts)
stream_closes (_ ∷ acts) = stream_closes acts

abbrev pub releases : List Act → ℕ
releases [] = 0
releases (released status ∷ acts) = suc (releases acts)
releases (_ ∷ acts) = releases acts

abbrev pub to_close : Opened → ℕ
to_close no_stream = 0
to_close bare_stream = 1
to_close bridged_stream = 1

-- The calls of the host among the acts.
abbrev pub calls_of : List Act → List Call
calls_of [] = []
calls_of (told c ∷ acts) = c ∷ calls_of acts
calls_of (_ ∷ acts) = calls_of acts

-- Each act of an end was done once, the release of the account as the last.
abbrev pub IsOver : Opened → List Act → Type 0
IsOver opened acts =
    (host_closes acts ≡ 1)
    × (stream_closes acts ≡ to_close opened)
    × ((before : List Act) × (acts ≡ before ++ released 200 ∷ []) × (releases before ≡ 0))

module _ (r : Receiver) where
  abbrev pub Runs : Opened → Outcome × List Act → Type 0
  Runs opened (waiting, acts) =
      (host_closes acts ≡ 0) × (stream_closes acts ≡ 0) × (releases acts ≡ 0)
  Runs opened (relayed, acts) = IsOver opened acts × HasFinal r (calls_of acts)
  Runs opened (broken, acts) = IsOver opened acts
  Runs opened (no_fuel, acts) = ⊥

-- Told calls alone close no stream of the gateway and release nothing.
told_only :
    (calls : List Call) (later : List Act)
    → (stream_closes (map told calls ++ later) ≡ stream_closes later)
      × (releases (map told calls ++ later) ≡ releases later)
told_only [] later = (refl, refl)
told_only (emitted f ∷ calls) later = told_only calls later
told_only (closed e ∷ calls) later = told_only calls later

AllEmitted-told : (calls : List Call) → AllEmitted calls → host_closes (map told calls) ≡ 0
AllEmitted-told [] a = refl
AllEmitted-told (emitted f ∷ calls) a = AllEmitted-told calls a
AllEmitted-told (closed e ∷ calls) a = absurd a

EndsClosed-told :
    (calls : List Call) (later : List Act)
    → EndsClosed calls
    → host_closes (map told calls ++ later) ≡ suc (host_closes later)
EndsClosed-told [] later e = absurd e
EndsClosed-told (emitted f ∷ calls) later e = EndsClosed-told calls later e
EndsClosed-told (closed x ∷ []) later e = refl
EndsClosed-told (closed x ∷ c ∷ calls) later e = absurd e

calls_of-told :
    (calls : List Call) (later : List Act)
    → calls_of (map told calls ++ later) ≡ calls ++ calls_of later
calls_of-told [] later = refl
calls_of-told (c ∷ calls) later = ap (λ cs. c ∷ cs) (calls_of-told calls later)

waits : (calls : List Call) → (stream_closes (map told calls) ≡ 0) × (releases (map told calls) ≡ 0)
waits [] = (refl, refl)
waits (emitted f ∷ calls) = waits calls
waits (closed e ∷ calls) = waits calls

IsOver-told :
    (calls : List Call)
    → EndsClosed calls
    → IsOver bridged_stream (map told calls ++ deferred bridged_stream)
IsOver-told calls e = (
  EndsClosed-told calls (deferred bridged_stream) e,
  (told_only calls (deferred bridged_stream)).0,
  (
    map told calls ++ reader_closed ∷ [],
    sym (append_assoc (map told calls) (reader_closed ∷ []) (released 200 ∷ [])),
    (told_only calls (reader_closed ∷ [])).1,
  ),
)

-- Whatever is relayed, and whatever the relay receives: while it waits it has closed nothing and keeps
-- the account; once it is over it has closed the host's stream once and the gateway's once, if there
-- is one, and has released the account with status 200, as its last act. It counts a stream as sent
-- only after a final event, or after the event that reports its lack.
pub relay-Runs :
    (r : Receiver) (opened : Opened) (events : List Event) (st : r.State)
    → Runs r opened (relay r opened events st)
unfolding relay
relay-Runs r no_stream events st = (refl, refl, (told (closed _) ∷ [], refl, refl))
relay-Runs r bare_stream events st =
    (refl, refl, (told (closed _) ∷ stream_closed ∷ [], refl, refl))
relay-Runs r bridged_stream events st =
    run (pump r events [] false st) (pump-Closes r events [] false st)
  where
    run : (x : Outcome × List Call) → Closes r false x → Runs r bridged_stream (ending_of x)
    run (waiting, calls) c = (AllEmitted-told calls c, (waits calls).0, (waits calls).1)
    run (relayed, calls) (c, f) = (
      IsOver-told calls c,
      rw (calls_of-told calls (deferred bridged_stream)) (HasFinal-left r calls [] (final calls f)),
    )
      where
        final : (calls : List Call) → (false ≡ true) ⊎ HasFinal r calls → HasFinal r calls
        final calls (inl h) = absurd (cc)
        final calls (inr h) = h
    run (broken, calls) c = IsOver-told calls c
    run (no_fuel, calls) c = absurd c
