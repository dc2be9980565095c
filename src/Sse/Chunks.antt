-- ===== src/Sse/Chunks.antt =====
-- Streams that arrive in chunks (basispoints/sse.go).
use cliproxyapi_plugin_basis.Common.{
  ℕ, ◌+◌, ◌≡◌, refl, sym, ap, ◌∙◌, subst, false, Option, none, some, List, [], ◌∷◌, ◌++◌, ◌==◌,
  length, arith, append_assoc, append-nil, All, inl, inr,
}
use mathlib.Core.Option.{some-injective}
use cliproxyapi_plugin_basis.Common.Text.{Text, cut_prefix}
use cliproxyapi_plugin_basis.Common.Split.{cut_at, cut_step}
use cliproxyapi_plugin_basis.Sse.{
  crlf_crlf, lf_lf, next_sse_event, format_sse_data, keep, push, push_all, more_events,
}
use cliproxyapi_plugin_basis.Sse.Drain.{
  next_sse_event_sound, Drains, done, more, Drained, drain_loop-Drained,
}

-- No carriage return.
abbrev pub NoCr : Text → Type 0
NoCr [] = Unit
NoCr (c ∷ s) = ((c == 13) ≡ false) × NoCr s

NoCr-append : (s t : Text) → NoCr s → NoCr t → NoCr (s ++ t)
NoCr-append [] t hs ht = ht
NoCr-append (c ∷ s) t hs ht = (hs.0, NoCr-append s t hs.1 ht)

NoCr-after : (s t : Text) → NoCr (s ++ t) → NoCr t
NoCr-after [] t h = h
NoCr-after (c ∷ s) t h = NoCr-after s t h.1

cut_at-NoCr : (s : Text) → NoCr s → cut_at crlf_crlf s ≡ none
unfolding cut_at cut_prefix
cut_at-NoCr [] h = refl
cut_at-NoCr (c ∷ s) h = ground (arith, h.0, cut_at-NoCr s h.1)

cut_step-append :
    (t : Text) (c : ℕ) (p q : Option Text) (u v : Option (Text × Text)) (before after : Text)
    → ((r : Text) → p ≡ some r → q ≡ some (r ++ t))
    → (p ≡ none → q ≡ none)
    → ((b r : Text) → u ≡ some (b, r) → v ≡ some (b, r ++ t))
    → cut_step p c u ≡ some (before, after)
    → cut_step q c v ≡ some (before, after ++ t)
cut_step-append t c none q none v before after f n g h = absurd (cc)
cut_step-append t c none q (some (b, r)) v before after f n g h =
    grind (arith, n refl, g b r refl, h)
cut_step-append t c (some r) q u v before after f n g h = grind (arith, f r refl, h)

cut_at_lf-append :
    (s t before after : Text)
    → cut_at lf_lf s ≡ some (before, after)
    → cut_at lf_lf (s ++ t) ≡ some (before, after ++ t)
unfolding cut_at cut_prefix
cut_at_lf-append [] t before after h = cc
cut_at_lf-append (x ∷ []) t before after h = ground (arith, h)
cut_at_lf-append (x ∷ y ∷ s) t before after h =
    cut_step-append t x (cut_prefix lf_lf (x ∷ y ∷ s)) (cut_prefix lf_lf (x ∷ y ∷ s ++ t))
      (cut_at lf_lf (y ∷ s)) (cut_at lf_lf (y ∷ s ++ t)) before after (λ r e. ground (arith, e))
      (λ e. ground (arith, e)) (λ b r e. cut_at_lf-append (y ∷ s) t b r e) h

next_sse_event-NoCr : (s : Text) → NoCr s → next_sse_event s ≡ cut_at lf_lf s
unfolding next_sse_event
next_sse_event-NoCr s h =
    ap {B = Option (Text × Text)} (λ o. elim o [ some found ↦ some found | none ↦ cut_at lf_lf s ])
      (cut_at-NoCr s h)

next_sse_event-rest :
    (s event rest : Text) → NoCr s → next_sse_event s ≡ some (event, rest) → NoCr rest
next_sse_event-rest s event rest n h = elim (next_sse_event_sound s event rest h) [
  | inl p ↦ NoCr-after (event ++ crlf_crlf) rest (subst NoCr p n)
  | inr p ↦ NoCr-after (event ++ lf_lf) rest (subst NoCr p n)
]

keep-append : (f : Text) (es es' : List Text) → keep f es ++ es' ≡ keep f (es ++ es')
keep-append [] es es' = refl
keep-append (c ∷ f) es es' = refl

Drains-append :
    {s r : Text} {es : List Text} (t : Text) {es' : List Text} {r' : Text}
    → Drains s es r
    → NoCr s
    → NoCr t
    → Drains (r ++ t) es' r'
    → Drains (s ++ t) (es ++ es') r'
Drains-append t (done p) ns nt d = d
Drains-append {s = s} t {es' = es'} {r' = r'}
      (more {event = event} {rest = rest} {events = events} p ds) ns nt d =
    subst (λ es. Drains (s ++ t) es r') (sym (keep-append (format_sse_data event) events es'))
      (more
        (next_sse_event-NoCr (s ++ t) (NoCr-append s t ns nt)
          ∙ cut_at_lf-append s t event rest (sym (next_sse_event-NoCr s ns) ∙ p))
        (Drains-append t ds (next_sse_event-rest s event rest ns p) nt d))

Drains-NoCr : {s r : Text} {es : List Text} → Drains s es r → NoCr s → NoCr r
Drains-NoCr (done p) n = n
Drains-NoCr {s = s} (more {event = event} {rest = rest} p ds) n =
    Drains-NoCr ds (next_sse_event-rest s event rest n p)

none_ne : {A : Type 0} {a : A} {o : Option A} → o ≡ none → o ≡ some a → ⊥
none_ne p q = absurd (cc)

Drains-unique :
    {s r r' : Text} {es es' : List Text} → Drains s es r → Drains s es' r' → (es ≡ es') × (r ≡ r')
Drains-unique (done p) (done q) = (refl, refl)
Drains-unique (done p) (more q d) = absurd (none_ne p q)
Drains-unique (more p d) (done q) = absurd (none_ne q p)
Drains-unique (more {event = e} {rest = x} {rest' = r} {events = es} p d)
      (more {event = e'} {rest = x'} {rest' = r'} {events = es'} q d') =
    let same : Path (Text × Text) (e, x) (e', x') = some-injective (e, x) (e', x') (sym p ∙ q) in
    let (later, left) =
      Drains-unique d (subst (λ z. Drains z es' r') (sym (ap (λ t. t.1) same)) d') in
    (grind (arith, ap (λ t. t.0) same, later), left)

-- What a push on a drained buffer returns.
Pushed : Text → Text → Option (List Text × Text) → Type 0
Pushed buf chunk o =
    (events : List Text) × (rest : Text) × ((o ≡ some (events, rest))
      × (Drains (buf ++ chunk) events rest × (next_sse_event rest ≡ none)))

push-Pushed : (buf chunk : Text) → next_sse_event buf ≡ none → Pushed buf chunk (push buf chunk)
unfolding push Pushed
push-Pushed buf [] h =
    ([], buf, (refl, (subst (λ b. Drains b [] buf) (sym (append-nil buf)) (done h), h)))
push-Pushed buf (c ∷ chunk) h =
    unfold Drained in
    drain_loop-Drained (length (buf ++ c ∷ chunk) + 1) (buf ++ c ∷ chunk) (omega arith)

abbrev pub concat : List Text → Text
concat [] = []
concat (chunk ∷ chunks) = chunk ++ concat chunks

concat-NoCr : (chunks : List Text) → All NoCr chunks → NoCr (concat chunks)
concat-NoCr [] h = tt
concat-NoCr (chunk ∷ chunks) h = NoCr-append chunk (concat chunks) h.0 (concat-NoCr chunks h.1)

push_all-Drains :
    (buf : Text) (chunks : List Text)
    → next_sse_event buf ≡ none
    → NoCr buf
    → All NoCr chunks
    → (events : List Text) × (rest : Text) × ((push_all buf chunks ≡ some (events, rest))
        × Drains (buf ++ concat chunks) events rest)
unfolding push_all Pushed
push_all-Drains buf [] h n ns =
    ([], buf, (refl, subst (λ b. Drains b [] buf) (sym (append-nil buf)) (done h)))
push_all-Drains buf (chunk ∷ chunks) h n ns =
    let (events, rest, (p, (ds, none_left))) = push-Pushed buf chunk h in
    let (later, rest', (q, ds')) =
      push_all-Drains rest chunks none_left (Drains-NoCr ds (NoCr-append buf chunk n ns.0)) ns.1 in
    (
      events ++ later,
      rest',
      (
        ap {B = Option (List Text × Text)}
              (λ o. elim o [
                | none ↦ none
                | some (events, buf') ↦ more_events events (push_all buf' chunks)
              ])
              p
            ∙ ap (more_events events) q,
        subst (λ b. Drains b (events ++ later) rest') (append_assoc buf chunk (concat chunks))
            (Drains-append (concat chunks) ds (NoCr-append buf chunk n ns.0)
              (concat-NoCr chunks ns.1) ds'),
      ),
    )

-- However a stream without carriage returns is cut into chunks, the pushes of the chunks, one after
-- another from an empty buffer, all return, and they give the events, and leave the buffer, of one
-- push of the whole stream.
pub push_all-concat :
    (chunks : List Text)
    → All NoCr chunks
    → (r : List Text × Text) × ((push_all [] chunks ≡ some r) × (push [] (concat chunks) ≡ some r))
unfolding next_sse_event cut_at cut_prefix Pushed
push_all-concat chunks ns =
    let (events, rest, (p, ds)) = push_all-Drains [] chunks refl tt ns in
    let (events', rest', (q, (ds', left))) = push-Pushed [] (concat chunks) refl in
    let (same, same') = Drains-unique ds' ds in
    ((events, rest), (p, q ∙ grind (arith, same, same')))
