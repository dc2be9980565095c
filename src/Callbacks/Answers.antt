-- ===== src/Callbacks/Answers.antt =====
-- What the callbacks of host_client.go return.
use cliproxyapi_plugin_basis.Common.{
  ℕ, ◌≡◌, refl, ap, true, false, Option, none, some, [], ◌∷◌, is_nil, arith, Result, ok, err,
}
use cliproxyapi_plugin_basis.Common.Text.{Text}
use cliproxyapi_plugin_basis.Callbacks.{
  HostEnvelope, Bridge, open_envelope, PullStream, at_end, read_answer, call_host, read_stream,
  close_stream,
}

open_envelope-ok :
    (code : ℕ) (o : Option HostEnvelope) (result : Text)
    → open_envelope code o ≡ ok result
    → (code ≡ 0)
      × ((env : HostEnvelope) × (o ≡ some env) × (env.is_ok ≡ true) × (env.result ≡ result))
unfolding open_envelope
open_envelope-ok code none result h = absurd (cc)
open_envelope-ok code (some env) result h =
    (ground (arith, h), (env, refl, ground (arith, h), ground (arith, h)))

module _ (b : Bridge) where
  -- A callback succeeds only where the host answered with the code 0 and something that reads as an
  -- envelope which says that all is well, and it returns what that envelope holds.
  pub call_host-ok :
      (method payload : Text) (st : b.State) (result : Text)
      → (call_host b method payload st).0 ≡ ok result
      → (raw : Text) × (env : HostEnvelope) × ((b.call_raw method payload st).0 ≡ ok (raw, 0))
        × (is_nil raw ≡ false)
        × (b.read_envelope raw ≡ some env)
        × (env.is_ok ≡ true)
        × (env.result ≡ result)
  unfolding call_host read_answer
  call_host-ok method payload st result h = answered (b.call_raw method payload st).0 h
    where
      answered :
          (r : Result Text (Text × ℕ))
          → read_answer b r ≡ ok result
          → (raw : Text) × (env : HostEnvelope) × (r ≡ ok (raw, 0))
            × (is_nil raw ≡ false)
            × (b.read_envelope raw ≡ some env)
            × (env.is_ok ≡ true)
            × (env.result ≡ result)
      answered (err e) h = absurd (cc)
      answered (ok ([], code)) h = absurd (cc)
      answered (ok (x ∷ raw, code)) h =
          let (zero_code, (env, read, fine, same)) =
            open_envelope-ok code (b.read_envelope (x ∷ raw)) result h in
          (x ∷ raw, env, ap (λ n. ok (x ∷ raw, n)) zero_code, refl, read, fine, same)

  closed_does_nothing :
      (t : PullStream) (st : b.State)
      → t.closed ≡ true
      → (read_stream b t st ≡ (([], at_end), st)) × (close_stream b t st ≡ (none, t, st))
  unfolding read_stream close_stream
  closed_does_nothing t st h = (rw h refl, rw h refl)

  closed_after : (s : PullStream) (st : b.State) → (close_stream b s st).1.closed ≡ true
  unfolding close_stream
  closed_after s st = ground arith

  -- Once a stream is closed, whatever the close answered, a read is at the end at once and a further
  -- close does nothing: neither calls the host.
  pub close_stream-closed :
      (s : PullStream) (st st' : b.State)
      → (read_stream b (close_stream b s st).1 st' ≡ (([], at_end), st'))
        × (close_stream b (close_stream b s st).1 st' ≡ (none, (close_stream b s st).1, st'))
  close_stream-closed s st st' = closed_does_nothing (close_stream b s st).1 st' (closed_after s st)
