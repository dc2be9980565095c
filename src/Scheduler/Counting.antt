-- ===== src/Scheduler/Counting.antt =====
-- What the loop of `pick` collects and counts (basispoints/service.go).
use cliproxyapi_plugin_basis.Common.{
  suc, ◌+◌, ◌≡◌, refl, ap, ◌≢◌, inl, inr, Bool, true, false, List, [], ◌∷◌, arith, length, All,
  All-append, Has, Has-here, Has-there, Bool-cases, ltb, ◌||◌, length-append, count_if,
}
use cliproxyapi_plugin_basis.Common.Text.{Text}
use cliproxyapi_plugin_basis.Scheduler.{
  AuthRecord, Standing, ignored, omitted, cooling, busy, eligible, Tally, count_in, tally,
  insert_sorted, sort, text_le,
}

module _ (P : Text → Type 0) where
  pub tally-All :
      (standing : AuthRecord → Standing) (t : Tally) (rs : List AuthRecord)
      → ((r : AuthRecord) → Has r rs → (i : Text) → standing r ≡ eligible i → P i)
      → All P t.eligible
      → All P (tally standing t rs).eligible
  unfolding tally
  tally-All standing t [] h a = a
  tally-All standing t (r ∷ rs) h a =
      tally-All standing (count_in t (standing r)) rs (λ r' m. h r' (Has-there r m))
        (one (standing r) refl)
    where
      one : (x : Standing) → standing r ≡ x → All P (count_in t x).eligible
      one (eligible i) e = All-append P t.eligible (i ∷ []) a (h r (Has-here r rs) i e, tt)
      one _ e = a

  insert_sorted-All : (x : Text) (xs : List Text) → P x → All P xs → All P (insert_sorted x xs)
  unfolding insert_sorted
  insert_sorted-All x [] p a = (p, tt)
  insert_sorted-All x (y ∷ ys) p a = elim (Bool-cases (text_le x y)) [
    | inl le ↦ rw le (p, a)
    | inr gt ↦ rw gt (a.0, insert_sorted-All x ys p a.1)
  ]

  pub sort-All : (xs : List Text) → All P xs → All P (sort xs)
  unfolding sort
  sort-All [] a = tt
  sort-All (x ∷ xs) a = insert_sorted-All x (sort xs) a.0 (sort-All xs a.1)

length-insert_sorted : (x : Text) (xs : List Text) → length (insert_sorted x xs) ≡ suc (length xs)
unfolding insert_sorted
length-insert_sorted x [] = refl
length-insert_sorted x (y ∷ ys) = ground (arith, length-insert_sorted x ys)

pub length-sort : (xs : List Text) → length (sort xs) ≡ length xs
unfolding sort
length-sort [] = refl
length-sort (x ∷ xs) = omega (arith, length-insert_sorted x (sort xs), length-sort xs)

abbrev pub is_eligible : Standing → Bool
is_eligible (eligible i) = true
is_eligible _ = false

abbrev pub is_busy : Standing → Bool
is_busy busy = true
is_busy _ = false

abbrev pub is_cooling : Standing → Bool
is_cooling cooling = true
is_cooling _ = false

abbrev pub is_seen : Standing → Bool
is_seen ignored = false
is_seen _ = true

-- What the loop counts.
pub record Counts (standing : AuthRecord → Standing) (t u : Tally) (rs : List AuthRecord)
    : Type 0 where
  pub free_count :
      length u.eligible ≡ length t.eligible + count_if (λ r. is_eligible (standing r)) rs
  pub busy_count : u.busy ≡ t.busy + count_if (λ r. is_busy (standing r)) rs
  pub cooling_count : u.cooling ≡ t.cooling + count_if (λ r. is_cooling (standing r)) rs
  pub seen : u.saw_provider ≡ (t.saw_provider || ltb 0 (count_if (λ r. is_seen (standing r)) rs))

pub tally-Counts :
    (standing : AuthRecord → Standing) (t : Tally) (rs : List AuthRecord)
    → Counts standing t (tally standing t rs) rs
unfolding tally count_if
tally-Counts standing t [] = ground arith
tally-Counts standing t (r ∷ rs) =
    one (standing r) refl (tally-Counts standing (count_in t (standing r)) rs)
  where
    one :
        (x : Standing)
        → standing r ≡ x
        → Counts standing (count_in t x) (tally standing (count_in t x) rs) rs
        → Counts standing t (tally standing (count_in t x) rs) (r ∷ rs)
    one (eligible i) e c = ground (arith, length-append t.eligible (i ∷ []))
    one _ e c = ground arith

pub seen_ignored : (x : Standing) → is_seen x ≡ false → x ≡ ignored
seen_ignored ignored h = refl
seen_ignored _ h = cc

pub busy_only : (x : Standing) → is_busy x ≡ true → x ≡ busy
busy_only busy h = refl
busy_only _ h = cc

pub cooling_only : (x : Standing) → is_cooling x ≡ true → x ≡ cooling
cooling_only cooling h = refl
cooling_only _ h = cc

pub not_busy : (x : Standing) → is_busy x ≡ false → x ≢ busy
not_busy x h e = cc (ap is_busy e)

pub not_cooling : (x : Standing) → is_cooling x ≡ false → x ≢ cooling
not_cooling x h e = cc (ap is_cooling e)

pub omitted_only :
    (x : Standing)
    → is_seen x ≡ true
    → is_eligible x ≡ false
    → is_busy x ≡ false
    → is_cooling x ≡ false
    → x ≡ omitted
omitted_only omitted a b c d = refl
omitted_only _ a b c d = cc
