-- ===== src/Scheduler/Leases.antt =====
-- Many requests at once (basispoints/service.go): every interleaving of `pick` and `finish`, which
-- each run under the mutex. Between them the configuration may be replaced.
use cliproxyapi_plugin_basis.Common.{
  ℕ, ◌+◌, ◌-◌, ◌≤◌, ◌<◌, ◌≡◌, refl, sym, ap, List, [], ◌∷◌, ◌++◌, arith, count_if, ok,
  if◌then◌else◌, subst, none,
}
use cliproxyapi_plugin_basis.Common.Text.{Text, ◌=ᵗ◌, =ᵗ_iff}
use cliproxyapi_plugin_basis.Config.{Config}
use cliproxyapi_plugin_basis.Scheduler.{AuthRecord, Sched, taken, pick, finish}
use cliproxyapi_plugin_basis.Scheduler.Pick.{pick-FreeAt}

-- How many of the leases are of account `k`.
abbrev pub leases_of : Text → List Text → ℕ
leases_of k = count_if (λ j. j =ᵗ k)

pub inflight-finish :
    (s : Sched) (cfg : Config) (key : Text) (status now : ℕ) (k : Text)
    → (finish s cfg key status now).inflight k
      ≡ (if key =ᵗ k then s.inflight key - 1 else s.inflight k)
unfolding finish
inflight-finish s cfg key status now k = ground (arith, =ᵗ_iff key k)

-- The scheduler and the accounts of the requests under way.
pub record Pool : Type 0 where
  pub sched : Sched
  pub leases : List Text

-- One atomic step of some request: it takes an account, or it gives one back.
pub data Step (cap : ℕ) (p : Pool) : Pool → Type 0 where
  takes :
      (cfg : Config) (skip excluded : List Text) (now : ℕ) (records : List AuthRecord) (i : Text)
      (s : Sched)
      → cfg.max_in_flight ≡ cap
      → pick p.sched cfg skip excluded now records ≡ ok (i, s)
      → Step cap p (record { sched = s; leases = i ∷ p.leases })
  gives :
      (cfg : Config) (status now : ℕ) (before : List Text) (i : Text) (after : List Text)
      → p.leases ≡ before ++ (i ∷ after)
      → Step cap p (record { sched = finish p.sched cfg i status now; leases = before ++ after })

pub data Reach (cap : ℕ) (p : Pool) : Pool → Type 0 where
  here : Reach cap p p
  next : {q r : Pool} → Reach cap p q → Step cap q r → Reach cap p r

-- The counter of each account is the number of its leases, and is at most the cap if there is one.
pub record IsCounted (cap : ℕ) (p : Pool) : Type 0 where
  pub counted : (k : Text) → p.sched.inflight k ≡ leases_of k p.leases
  pub capped : 0 < cap → (k : Text) → p.sched.inflight k ≤ cap

leases_of-removed :
    (k i : Text) (xs ys : List Text)
    → leases_of k (xs ++ (i ∷ ys)) ≡ leases_of k (xs ++ ys) + (if i =ᵗ k then 1 else 0)
unfolding count_if
leases_of-removed k i [] ys = ground arith
leases_of-removed k i (x ∷ xs) ys = ground (arith, leases_of-removed k i xs ys)

pub inflight-taken :
    (s : Sched) (i k : Text) → (taken s i).inflight k ≡ s.inflight k + (if i =ᵗ k then 1 else 0)
inflight-taken s i k = ground (arith, =ᵗ_iff i k)

taken-IsCounted :
    (cap : ℕ) (p : Pool) (i : Text)
    → (0 < cap → p.sched.inflight i < cap)
    → IsCounted cap p
    → IsCounted cap (record { sched = taken p.sched i; leases = i ∷ p.leases })
unfolding count_if
taken-IsCounted cap p i room v = record {
  counted = λ k. ground (arith, inflight-taken p.sched i k, v.counted k);
  capped = λ z k. ground (arith, room z, v.capped z k, =ᵗ_iff i k);
}

-- Whatever requests do, in any order, the counters and the leases agree, and no account has more
-- requests under way than the cap allows.
pub Step-IsCounted : (cap : ℕ) {p q : Pool} → Step cap p q → IsCounted cap p → IsCounted cap q
Step-IsCounted cap {p} (takes cfg skip excluded now records i s same h) v =
    let (f, e) = pick-FreeAt p.sched cfg skip excluded now records i s h in
    subst (λ x. IsCounted cap (record { sched = x; leases = i ∷ p.leases })) (sym e)
      (taken-IsCounted cap p i (λ z. ground (arith, f.2.room, same)) v)
Step-IsCounted cap {p} (gives cfg status now before i after e) v = record {
  counted = λ k. ground (
    arith,
    inflight-finish p.sched cfg i status now k,
    v.counted k,
    v.counted i,
    ap (leases_of k) e,
    leases_of-removed k i before after,
    =ᵗ_iff i k,
  );
  capped =
      λ z k. ground (arith, inflight-finish p.sched cfg i status now k, v.capped z k, =ᵗ_iff i k);
}

pub Reach-IsCounted : (cap : ℕ) {p q : Pool} → IsCounted cap p → Reach cap p q → IsCounted cap q
Reach-IsCounted cap v here = v
Reach-IsCounted cap v (next r st) = Step-IsCounted cap st (Reach-IsCounted cap v r)

-- The service as it starts.
abbrev pub idle : Pool
idle = record {
  sched = record { cursor = 0; inflight = λ _. 0; next_at = λ _. none; cool_until = λ _. none };
  leases = [];
}

idle-IsCounted : (cap : ℕ) → IsCounted cap idle
unfolding count_if
idle-IsCounted cap = record { counted = λ k. refl; capped = λ z k. omega arith }

-- From the start of the service on, the counter of an account is the number of requests that hold
-- it, and under a cap that number never passes the cap.
pub Reach-idle-IsCounted :
    (cap : ℕ) (p : Pool)
    → Reach cap idle p
    → ((k : Text) → p.sched.inflight k ≡ leases_of k p.leases)
      × (0 < cap → (k : Text) → leases_of k p.leases ≤ cap)
Reach-idle-IsCounted cap p r =
    let v = Reach-IsCounted cap (idle-IsCounted cap) r in
    (v.counted, λ z k. subst (λ n. n ≤ cap) (v.counted k) (v.capped z k))
