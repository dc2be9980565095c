-- ===== src/Stream/Body.antt =====
-- `streamBody` of basispoints/stream.go: the reader that `Stream` returns, and the goroutine behind it.
-- Both close the gateway's stream when they are done with it.
use cliproxyapi_plugin_basis.Common.{◌≡◌, refl, ap, Option, none, some, List, [], ◌∷◌}
use cliproxyapi_plugin_basis.Common.Text.{Text}

-- The reader is closed, or the goroutine comes to its end, in any order and the reader any number of
-- times.
pub data Closing : Type 0 where
  by_reader by_transform : Closing

-- Closing the gateway's stream may fail; the state is that of the stream.
module _ (State : Type 0) (close : State → Option Text × State) where
  -- `once` and `err`: the answer of the first closing, when there was one.
  pub record StreamBody : Type 0 where
    pub closed : Option (Option Text)
    pub upstream : State

  -- `closeUpstream`
  abbrev pub first_closing : Option (Option Text) → State → Option Text × StreamBody
  first_closing (some e) st = (e, record { closed = some e; upstream = st })
  first_closing none st = let (e, st') = close st in (e, record { closed = some e; upstream = st' })

  unfoldable pub close_upstream : StreamBody → Option Text × StreamBody
  close_upstream b = first_closing b.closed b.upstream

  -- `Close`, whose pipe is closed without an error, and the end of the goroutine of `Stream`.
  unfoldable pub close_by : Closing → StreamBody → Option Text × StreamBody
  unfolding close_upstream
  close_by by_reader b = close_upstream b
  close_by by_transform b = close_upstream b

  -- The errors that the closings return, and the body afterwards.
  abbrev pub and_closings :
      Option Text × StreamBody
      → (StreamBody → List (Option Text) × StreamBody)
      → List (Option Text) × StreamBody
  and_closings (e, b) later = let (es, b') = later b in (e ∷ es, b')

  unfoldable pub close_all : List Closing → StreamBody → List (Option Text) × StreamBody
  unfolding close_by
  close_all [] b = ([], b)
  close_all (c ∷ cs) b = and_closings (close_by c b) (close_all cs)

  -- Every answer is this one.
  abbrev pub AllAre : Option Text → List (Option Text) → Type 0
  AllAre e [] = Unit
  AllAre e (x ∷ xs) = (x ≡ e) × AllAre e xs

  close_all-later :
      (cs : List Closing) (e : Option Text) (st : State)
      → AllAre e (close_all cs (record { closed = some e; upstream = st })).0
        × ((close_all cs (record { closed = some e; upstream = st })).1
            ≡ record { closed = some e; upstream = st })
  unfolding close_all
  close_all-later [] e st = (tt, refl)
  close_all-later (by_reader ∷ cs) e st = let (a, p) = close_all-later cs e st in ((refl, a), p)
  close_all-later (by_transform ∷ cs) e st = let (a, p) = close_all-later cs e st in ((refl, a), p)

  -- However often and in whatever order the reader and the goroutine are done with the gateway's stream,
  -- it is closed once, and each of them is given the answer of that closing.
  pub close_all-once :
      (c : Closing) (cs : List Closing) (st : State)
      → AllAre (close st).0 (close_all (c ∷ cs) (record { closed = none; upstream = st })).0
        × ((close_all (c ∷ cs) (record { closed = none; upstream = st })).1.upstream ≡ (close st).1)
  unfolding close_all
  close_all-once by_reader cs st =
      let (a, p) = close_all-later cs (close st).0 (close st).1 in
      ((refl, a), ap (λ (b : StreamBody). b.upstream) p)
  close_all-once by_transform cs st =
      let (a, p) = close_all-later cs (close st).0 (close st).1 in
      ((refl, a), ap (λ (b : StreamBody). b.upstream) p)
