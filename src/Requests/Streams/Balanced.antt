-- ===== src/Requests/Streams/Balanced.antt =====
-- The loop of `openStream`, and the counters of the scheduler (basispoints/service.go).
use cliproxyapi_plugin_basis.Common.{
  ℕ, zero, suc, ◌+◌, ◌<◌, ◌≡◌, refl, ◌∙◌, true, false, Option, none, some, List, [], ◌∷◌, arith,
  length, All-Has, Result, ok, err,
}
use cliproxyapi_plugin_basis.Common.Text.{Text, elem}
use cliproxyapi_plugin_basis.Config.{Config}
use cliproxyapi_plugin_basis.Scheduler.{Lease}
use cliproxyapi_plugin_basis.Upstream.{Failure}
use cliproxyapi_plugin_basis.Requests.{World}
use cliproxyapi_plugin_basis.Requests.Acquire.{listed}
use cliproxyapi_plugin_basis.Requests.Call.{not_routed}
use cliproxyapi_plugin_basis.Requests.Call.Tries.{SameInflight, Holding}
use cliproxyapi_plugin_basis.Requests.Call.Balanced.{
  ListsOnly, left_count, left_count-lt, left_count_all,
}
use cliproxyapi_plugin_basis.Requests.Streams.{
  StreamHost, StreamAttempt, unserved, failed, throttled, streaming, stream_attempt, stream_loop,
  open_stream,
}
use cliproxyapi_plugin_basis.Requests.Streams.Held.{StreamSettled, stream_attempt-Ends}

module _ (s : StreamHost) where
  -- A failure leaves the counters alone; a stream comes with an open lease, which is the only change.
  abbrev pub HeldBy :
      World s.host → Result Failure (s.Stream × s.host.Bridge × Lease) → World s.host → Type 0
  HeldBy w (err e) w' = SameInflight s.host w w'
  HeldBy w (ok (stream, bridge, lease)) w' =
      (lease.released ≡ false) × Holding s.host lease.key w w'

  abbrev Ended :
      World s.host
      → Option (Result Failure (s.Stream × s.host.Bridge × Lease) × World s.host)
      → Type 0
  Ended w none = ⊥
  Ended w (some (r, w')) = HeldBy w r w'

  Ended-after :
      (w w' : World s.host)
      (o : Option (Result Failure (s.Stream × s.host.Bridge × Lease) × World s.host))
      → SameInflight s.host w w'
      → Ended w' o
      → Ended w o
  Ended-after w w' none same d = d
  Ended-after w w' (some (err e, w'')) same d = λ k. d k ∙ same k
  Ended-after w w' (some (ok (stream, bridge, lease), w'')) same d =
      (d.0, λ k. ground (arith, d.1 k, same k))

module _ (s : StreamHost) (cfg : Config) (canonical : Text) (universe : List Text)
    (only : ListsOnly s.host universe) where
  loop_step :
      (fuel : ℕ) (skip : List Text) (last : Option Failure) (w : World s.host)
      (x : StreamAttempt s × World s.host)
      → stream_attempt s cfg canonical skip w ≡ some x
      → StreamSettled s (listed s.host (s.host.list_auth w.host).0) skip w x
      → left_count s.host universe skip < suc fuel
      → ((key : Text) (e : Failure) (w' : World s.host)
          → left_count s.host universe (key ∷ skip) < fuel
          → Ended s w' (stream_loop s cfg canonical fuel (key ∷ skip) (some e) w'))
      → Ended s w (stream_loop s cfg canonical (suc fuel) skip last w)
  unfolding stream_loop
  loop_step fuel skip last w (unserved e, w') eq v lt ih = rw (eq, stream_loop) v
  loop_step fuel skip last w (failed e, w') eq v lt ih = rw (eq, stream_loop) v
  loop_step fuel skip last w (streaming stream bridge lease, w') eq v lt ih = rw (eq, stream_loop) v
  loop_step fuel skip last w (throttled key e, w') eq (same, (new, (r, m, named))) lt ih =
      rw (eq, stream_loop)
        (Ended-after s w w' (stream_loop s cfg canonical fuel (key ∷ skip) (some e) w') same
          (ih key e w' (omega (arith, left_count-lt key skip universe known new, lt))))
    where
      known : elem key universe ≡ true
      known = rw named (All-Has _ (listed s.host (s.host.list_auth w.host).0) (only w.host) m)

  stream_loop-Ended :
      (fuel : ℕ) (skip : List Text) (last : Option Failure) (w : World s.host)
      → left_count s.host universe skip < fuel
      → Ended s w (stream_loop s cfg canonical fuel skip last w)
  stream_loop-Ended zero skip last w lt = absurd (omega arith)
  stream_loop-Ended (suc fuel) skip last w lt =
      let (x, e, v) = stream_attempt-Ends s cfg canonical skip w in
      loop_step fuel skip last w x e v lt
        (λ key f w' less. stream_loop-Ended fuel (key ∷ skip) (some f) w' less)

module _ (s : StreamHost) where
  -- When every account that the host may list is among `universe`, one round more than there are
  -- accounts is enough: `openStream` returns. A failure leaves every counter as it was; a stream
  -- comes with an open lease, whose account is the only one that counts one request more.
  pub open_stream-HeldBy :
      (universe : List Text) (canonical : Option Text) (w : World s.host)
      → ListsOnly s.host universe
      → (r : Result Failure (s.Stream × s.host.Bridge × Lease)) × (w' : World s.host) × (open_stream
            s
            (length universe + 1)
            canonical
            w
          ≡ some (r, w'))
        × HeldBy s w r w'
  unfolding open_stream
  open_stream-HeldBy universe none w only = (err not_routed, w, refl, λ k. refl)
  open_stream-HeldBy universe (some canonical) w only =
      returned (stream_loop s w.config canonical (length universe + 1) [] none w) (
        stream_loop-Ended s w.config canonical universe only (length universe + 1) [] none w
          (left_count_all universe))
    where
      returned :
          (o : Option (Result Failure (s.Stream × s.host.Bridge × Lease) × World s.host))
          → Ended s w o
          → (r : Result Failure (s.Stream × s.host.Bridge × Lease)) × (w' : World s.host) × (o
              ≡ some (r, w'))
            × HeldBy s w r w'
      returned none d = absurd d
      returned (some (r, w')) d = (r, w', refl, d)
