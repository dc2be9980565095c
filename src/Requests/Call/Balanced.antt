-- ===== src/Requests/Call/Balanced.antt =====
-- The loop of `call`, and the counters of the scheduler (basispoints/service.go).
use cliproxyapi_plugin_basis.Common.{
  ℕ, zero, suc, ◌+◌, ◌<◌, ◌≡◌, refl, ◌∙◌, subst, true, false, not, Option, none, some, List, [],
  ◌∷◌, arith, inl, inr, Bool-cases, length, Has, Has-here, Has-there, count_if, count_if-lt, All,
  All-Has, Result, err,
}
use cliproxyapi_plugin_basis.Common.Text.{Text, ◌=ᵗ◌, =ᵗ_iff, elem, trim_space}
use cliproxyapi_plugin_basis.Config.{Config}
use cliproxyapi_plugin_basis.Scheduler.{AuthRecord}
use cliproxyapi_plugin_basis.Upstream.{Failure}
use cliproxyapi_plugin_basis.Requests.{Host, World}
use cliproxyapi_plugin_basis.Requests.Acquire.{listed}
use cliproxyapi_plugin_basis.Requests.Call.{
  Attempt, no_account, finished, limited, attempt, call_loop, call, not_routed,
}
use cliproxyapi_plugin_basis.Requests.Call.Tries.{SameInflight, Settled, attempt-Ends}

module _ (h : Host) where
  -- Every account that the host may list is one of `universe`.
  abbrev pub ListsOnly : List Text → Type 0
  ListsOnly universe =
      (st : h.State)
      → All (λ (r : AuthRecord). elem (trim_space r.auth_index) universe ≡ true)
          (listed h (h.list_auth st).0)

  -- How many accounts are not to be skipped.
  abbrev pub left_count : List Text → List Text → ℕ
  left_count universe skip = count_if (λ k. not (elem k skip)) universe

  abbrev Ended : World h → Option (Result Failure Text × World h) → Type 0
  Ended w none = ⊥
  Ended w (some (r, w')) = SameInflight h w w'

elem-Has : (a : Text) (xs : List Text) → elem a xs ≡ true → Has a xs
unfolding elem
elem-Has a [] h = absurd (cc)
elem-Has a (x ∷ xs) h = elim (Bool-cases (x =ᵗ a)) [
  | inl same ↦ subst (λ y. Has y (x ∷ xs)) ((=ᵗ_iff x a).0 same) (Has-here x xs)
  | inr other ↦ Has-there x (elem-Has a xs (ground arith))
]

pub left_count-lt :
    (key : Text) (skip universe : List Text)
    → elem key universe ≡ true
    → elem key skip ≡ false
    → count_if (λ k. not (elem k (key ∷ skip))) universe
      < count_if (λ k. not (elem k skip)) universe
unfolding elem
left_count-lt key skip universe m n =
    count_if-lt (λ k. not (elem k (key ∷ skip))) (λ k. not (elem k skip)) (λ y e. ground arith)
      universe (elem-Has key universe m) (ground (arith, =ᵗ_iff key key)) (ground arith)

pub left_count_all : (u : List Text) → count_if (λ k. not (elem k [])) u < length u + 1
unfolding count_if elem
left_count_all [] = omega arith
left_count_all (x ∷ xs) = omega (arith, left_count_all xs)

module _ (h : Host) (cfg : Config) (canonical : Text) (universe : List Text)
    (only : ListsOnly h universe) where
  Ended-after :
      (w w' : World h) (o : Option (Result Failure Text × World h))
      → SameInflight h w w'
      → Ended h w' o
      → Ended h w o
  Ended-after w w' none same d = d
  Ended-after w w' (some (r, w'')) same d = λ k. d k ∙ same k

  loop_step :
      (fuel : ℕ) (skip : List Text) (last : Option Failure) (w : World h) (a : Attempt)
      (w' : World h)
      → attempt h cfg canonical skip w ≡ some (a, w')
      → Settled h (listed h (h.list_auth w.host).0) skip w a w'
      → left_count h universe skip < suc fuel
      → ((key : Text) (e : Failure)
          → left_count h universe (key ∷ skip) < fuel
          → Ended h w' (call_loop h cfg canonical fuel (key ∷ skip) (some e) w'))
      → Ended h w (call_loop h cfg canonical (suc fuel) skip last w)
  unfolding call_loop
  loop_step fuel skip last w (no_account e) w' eq v lt ih = rw (eq, call_loop) v
  loop_step fuel skip last w (finished r) w' eq v lt ih = rw (eq, call_loop) v
  loop_step fuel skip last w (limited key e) w' eq (same, (new, (r, m, named))) lt ih =
      rw (eq, call_loop)
        (Ended-after w w' (call_loop h cfg canonical fuel (key ∷ skip) (some e) w') same
          (ih key e (omega (arith, left_count-lt key skip universe known new))))
    where
      known : elem key universe ≡ true
      known = rw named (All-Has _ (listed h (h.list_auth w.host).0) (only w.host) m)

  call_loop-Ended :
      (fuel : ℕ) (skip : List Text) (last : Option Failure) (w : World h)
      → left_count h universe skip < fuel
      → Ended h w (call_loop h cfg canonical fuel skip last w)
  call_loop-Ended zero skip last w lt = absurd (omega arith)
  call_loop-Ended (suc fuel) skip last w lt =
      let (a, w', e, v) = attempt-Ends h cfg canonical skip w in
      loop_step fuel skip last w a w' e v lt
        (λ key f less. call_loop-Ended fuel (key ∷ skip) (some f) w' less)

module _ (h : Host) where
  -- When every account that the host may list is among `universe`, one round more than there are
  -- accounts is enough: `call` returns, and on every path, errors included, each account's counter
  -- is what it was before.
  pub call-SameInflight :
      (universe : List Text) (canonical : Option Text) (w : World h)
      → ListsOnly h universe
      → (r : Result Failure Text) × (w' : World h) × (call h (length universe + 1) canonical w
          ≡ some (r, w'))
        × SameInflight h w w'
  unfolding call
  call-SameInflight universe none w only = (err not_routed, w, refl, λ k. refl)
  call-SameInflight universe (some canonical) w only =
      returned (call_loop h w.config canonical (length universe + 1) [] none w) (
        call_loop-Ended h w.config canonical universe only (length universe + 1) [] none w
          (left_count_all universe))
    where
      returned :
          (o : Option (Result Failure Text × World h))
          → Ended h w o
          → (r : Result Failure Text) × (w' : World h) × (o ≡ some (r, w')) × SameInflight h w w'
      returned none d = absurd d
      returned (some (r, w')) d = (r, w', refl, d)
