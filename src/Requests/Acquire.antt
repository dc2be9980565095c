-- ===== src/Requests/Acquire.antt =====
-- The loop of `acquire`, and the counters of the scheduler (basispoints/service.go).
use cliproxyapi_plugin_basis.Common.{
  ℕ, zero, suc, ◌+◌, ◌<◌, ◌≡◌, refl, ap, false, not, Option, none, some, List, [], ◌∷◌, arith,
  length, Has, count_if, count_if-lt, Result, ok, err, if◌then◌else◌,
}
use cliproxyapi_plugin_basis.Common.Text.{Text, ◌=ᵗ◌, =ᵗ_iff, elem, trim_space}
use cliproxyapi_plugin_basis.Config.{Config}
use cliproxyapi_plugin_basis.Scheduler.{AuthRecord, Sched, pick, taken, release, PickError}
use cliproxyapi_plugin_basis.Scheduler.Pick.{pick-FreeAt}
use cliproxyapi_plugin_basis.Scheduler.Leases.{inflight-finish, inflight-taken}
use cliproxyapi_plugin_basis.Upstream.{Failure}
use cliproxyapi_plugin_basis.Requests.{
  Host, World, give_back, read_credential, acquire_loop, Acquired, Round, stopped, retried,
  after_read, after_pick, acquire_round, acquire_from, acquire,
}

-- How many records are still to be tried.
abbrev pub open_count : List Text → List AuthRecord → ℕ
open_count excluded = count_if (λ r. not (elem (trim_space r.auth_index) excluded))

-- Trying a new account leaves fewer.
open_count-lt :
    (index : Text) (excluded : List Text) (records : List AuthRecord) (r : AuthRecord)
    → Has r records
    → index ≡ trim_space r.auth_index
    → elem index excluded ≡ false
    → open_count (index ∷ excluded) records < open_count excluded records
unfolding elem
open_count-lt index excluded records r m e n =
    count_if-lt (λ x. not (elem (trim_space x.auth_index) (index ∷ excluded)))
      (λ x. not (elem (trim_space x.auth_index) excluded)) (λ y k. ground arith) records m
      (ground (arith, =ᵗ_iff index (trim_space r.auth_index))) (rw (← e) (ground arith))

open_count_all : (records : List AuthRecord) → open_count [] records < length records + 1
unfolding count_if elem
open_count_all [] = omega arith
open_count_all (r ∷ rs) = omega (arith, open_count_all rs)

module _ (h : Host) where
  -- How many requests an outcome holds of account `k`.
  abbrev pub held : Acquired h → Text → ℕ
  held (err e) k = 0
  held (ok (l, c)) k = if l.key =ᵗ k then 1 else 0

  -- Every account's counter has grown by what the outcome holds.
  abbrev pub Accounted : World h → Acquired h → World h → Type 0
  Accounted w r w' = (k : Text) → w'.sched.inflight k ≡ w.sched.inflight k + held r k

  -- A lease that is returned is open, of an account of the records that was not to be skipped, and
  -- goes with the credential of that account.
  abbrev pub Leased : List AuthRecord → List Text → Acquired h → Type 0
  Leased records skip (err e) = Unit
  Leased records skip (ok (l, c)) =
      (l.released ≡ false)
      × (c.key ≡ l.key)
      × (elem l.key skip ≡ false)
      × ((r : AuthRecord) × Has r records × (l.key ≡ trim_space r.auth_index))

  module _ (records : List AuthRecord) (skip : List Text) where
    -- A round accounts for what it returns, or leaves the counters alone and fewer records to try.
    abbrev RoundInv : World h → List Text → Round h → Type 0
    RoundInv w excluded (stopped r w') = Accounted w r w' × Leased records skip r
    RoundInv w excluded (retried index w') =
        ((k : Text) → w'.sched.inflight k ≡ w.sched.inflight k)
        × (open_count (index ∷ excluded) records < open_count excluded records)

    abbrev Done : World h → Option (Acquired h × World h) → Type 0
    Done w none = ⊥
    Done w (some (r, w')) = Accounted w r w' × Leased records skip r

    weaken :
        (w w' : World h) (o : Option (Acquired h × World h))
        → ((k : Text) → w'.sched.inflight k ≡ w.sched.inflight k)
        → Done w' o
        → Done w o
    weaken w w' none same d = d
    weaken w w' (some (r, w'')) same d = ((λ k. omega (arith, d.0 k, same k)), d.1)

    module _ (w : World h) (excluded : List Text) where
      after_read-RoundInv :
          (index : Text) (w' : World h) (o : Option (Text × Text)) (r : AuthRecord)
          → Has r records
          → index ≡ trim_space r.auth_index
          → elem index skip ≡ false
          → elem index excluded ≡ false
          → ((k : Text) → w'.sched.inflight k ≡ (taken w.sched index).inflight k)
          → RoundInv w excluded (after_read h index w' o)
      unfolding after_read give_back release
      after_read-RoundInv index w' (some c) r m named fresh new same = (
        (λ k. ground (arith, same k, inflight-taken w.sched index k)),
        (refl, refl, fresh, (r, m, named)),
      )
      after_read-RoundInv index w' none r m named fresh new same = (
        (λ k. ground (
          arith,
          same k,
          same index,
          inflight-taken w.sched index k,
          inflight-finish w'.sched w'.config index 0 (h.clock w'.host).0 k,
          =ᵗ_iff index k,
        )),
        open_count-lt index excluded records r m named new,
      )

      acquire_round-RoundInv :
          (cfg : Config) → RoundInv w excluded (acquire_round h cfg records skip excluded w)
      unfolding acquire_round after_pick
      acquire_round-RoundInv cfg = go (pick w.sched cfg skip excluded now records) refl
        where
          now : ℕ
          now = (h.clock w.host).0

          w₁ : World h
          w₁ = record { sched = w.sched; config = w.config; host = (h.clock w.host).1 }

          read : Text → Sched → World h
          read index s = record {
            sched = s;
            config = w.config;
            host = (h.get_auth index (h.clock w.host).1).1;
          }

          go :
              (x : Result PickError (Text × Sched))
              → pick w.sched cfg skip excluded now records ≡ x
              → RoundInv w excluded (after_pick h excluded w₁ x)
          go (err e) eq = ((λ k. omega arith), tt)
          go (ok (index, s)) eq =
              let ((r, m, f), e) = pick-FreeAt w.sched cfg skip excluded now records index s eq in
              after_read-RoundInv index (read index s)
                (read_credential h (h.get_auth index (h.clock w.host).1).0) r m f.named
                f.not_skipped f.not_excluded (λ k. ap (λ (x : Sched). x.inflight k) e)

    module _ (cfg : Config) where
      loop_from :
          (fuel : ℕ) (excluded : List Text) (w : World h) (x : Round h)
          → acquire_round h cfg records skip excluded w ≡ x
          → RoundInv w excluded x
          → open_count excluded records < suc fuel
          → ((index : Text) (w' : World h)
              → open_count (index ∷ excluded) records < fuel
              → Done w' (acquire_loop h fuel cfg records skip (index ∷ excluded) w'))
          → Done w (acquire_loop h (suc fuel) cfg records skip excluded w)
      unfolding acquire_loop
      loop_from fuel excluded w (stopped r w') e v lt ih = rw (e, acquire_loop) v
      loop_from fuel excluded w (retried index w') e v lt ih =
          rw (e, acquire_loop)
            (weaken w w' (acquire_loop h fuel cfg records skip (index ∷ excluded) w') v.0
              (ih index w' (omega arith)))

      acquire_loop-Done :
          (fuel : ℕ) (excluded : List Text) (w : World h)
          → open_count excluded records < fuel
          → Done w (acquire_loop h fuel cfg records skip excluded w)
      acquire_loop-Done zero excluded w lt = absurd (omega arith)
      acquire_loop-Done (suc fuel) excluded w lt =
          loop_from fuel excluded w (acquire_round h cfg records skip excluded w) refl
            (acquire_round-RoundInv w excluded cfg) lt
            (λ index w'. acquire_loop-Done fuel (index ∷ excluded) w')

  -- The records of a listing; none where the listing fails.
  abbrev pub listed : Result Failure (List AuthRecord) → List AuthRecord
  listed (ok records) = records
  listed (err e) = []

  -- Acquiring always returns, whatever the host answers. Where it returns a lease, the counter of
  -- that account has grown by one and no other has changed, and the account is one of the listed
  -- that was not to be skipped; where it fails, no counter has changed.
  pub acquire-Accounted :
      (cfg : Config) (skip : List Text) (w : World h)
      → (r : Acquired h) × (w' : World h) × (acquire h cfg skip w ≡ some (r, w'))
        × Accounted w r w'
        × Leased (listed (h.list_auth w.host).0) skip r
  unfolding acquire
  acquire-Accounted cfg skip w = from (h.list_auth w.host).0
    where
      w₁ : World h
      w₁ = record { sched = w.sched; config = w.config; host = (h.list_auth w.host).1 }

      returned :
          (records : List AuthRecord) (o : Option (Acquired h × World h))
          → Done records skip w o
          → (r : Acquired h) × (w' : World h) × (o ≡ some (r, w'))
            × Accounted w r w'
            × Leased records skip r
      returned records none d = absurd d
      returned records (some (r, w')) d = (r, w', refl, d.0, d.1)

      from :
          (x : Result Failure (List AuthRecord))
          → (r : Acquired h) × (w' : World h) × (acquire_from h cfg skip x w₁ ≡ some (r, w'))
            × Accounted w r w'
            × Leased (listed x) skip r
      from (err e) = (err e, w₁, refl, (λ k. omega arith), tt)
      from (ok records) =
          returned records (acquire_loop h (length records + 1) cfg records skip [] w₁)
            (acquire_loop-Done records skip cfg (length records + 1) [] w₁ (open_count_all records))
