-- ===== src/Scheduler/Pick.antt =====
-- The results of `pick` (basispoints/service.go).
use cliproxyapi_plugin_basis.Common.{
  ℕ, zero, suc, ◌%◌, ◌≡◌, refl, sym, ap, ◌∙◌, ◌≢◌, Bool, true, false, Option, none, some, List,
  arith, length, get_elem?, All, Has, has, subst, ltb, count_if, count_if-none, count_if-some,
  All-Has, get_elem?-mod, All-map, All-from_Has, ok, err, Result,
}
use cliproxyapi_plugin_basis.Common.Text.{Text}
use cliproxyapi_plugin_basis.Config.{Config}
use cliproxyapi_plugin_basis.Scheduler.{
  taken, AuthRecord, Sched, Standing, ignored, omitted, cooling, busy, eligible, judge, Tally,
  no_tally, tally, sort, choose, pick, refusal, PickError, no_codex_credential, basispoints_busy,
  basispoints_cooling, exhausted,
}
use cliproxyapi_plugin_basis.Scheduler.Eligible.{IsFree, judge-eligible, eligible-judge}
use cliproxyapi_plugin_basis.Scheduler.Counting.{
  tally-All, sort-All, length-sort, is_eligible, is_busy, is_cooling, is_seen, Counts, tally-Counts,
  seen_ignored, busy_only, cooling_only, not_busy, not_cooling, omitted_only,
}

module _ (s : Sched) (cfg : Config) (skip excluded : List Text) (now : ℕ)
    (records : List AuthRecord) where
  abbrev at_work : AuthRecord → Standing
  at_work = judge s cfg skip excluded now

  abbrev candidates : List Text
  candidates = sort (tally at_work no_tally records).eligible

  candidates-count : length candidates ≡ count_if (λ r. is_eligible (at_work r)) records
  candidates-count =
      length-sort (tally at_work no_tally records).eligible
      ∙ (tally-Counts at_work no_tally records).free_count
      ∙ omega arith

  abbrev refused_by : Tally → PickError
  refused_by t = refusal t.saw_provider t.busy t.cooling

  -- There is a free record with this index.
  abbrev pub FreeAt : Text → Type 0
  FreeAt i = (r : AuthRecord) × Has r records × IsFree s cfg skip excluded now r i

  candidates-FreeAt : All FreeAt candidates
  candidates-FreeAt = sort-All FreeAt _ (
      tally-All FreeAt at_work no_tally records
        (λ r m i e. (r, m, judge-eligible s cfg skip excluded now r i e)) tt)

  -- A chosen index has a free record; the choice is refused when there is no candidate.
  data Outcome : Result PickError (Text × Sched) → Type 0 where
    chosen : (i : Text) → FreeAt i → Outcome (ok (i, taken s i))
    refused :
        count_if (λ r. is_eligible (at_work r)) records ≡ 0
        → Outcome (err (refused_by (tally at_work no_tally records)))

  choose-Outcome :
      (o : Option Text)
      → ((i : Text) → o ≡ some i → FreeAt i)
      → (o ≡ none → length candidates ≡ 0)
      → Outcome (choose s (tally at_work no_tally records) o)
  unfolding choose
  choose-Outcome none f h = refused (sym candidates-count ∙ h refl)
  choose-Outcome (some i) f h = chosen i (f i refl)

  pick-Outcome : Outcome (pick s cfg skip excluded now records)
  unfolding pick
  pick-Outcome = choose-Outcome (get_elem? candidates k) found missing
    where
      k : ℕ
      k = s.cursor % length candidates

      found : (i : Text) → get_elem? candidates k ≡ some i → FreeAt i
      found i e = All-Has FreeAt candidates candidates-FreeAt (has k e)

      missing : get_elem? candidates k ≡ none → length candidates ≡ 0
      missing e = get_elem?-mod candidates s.cursor e

  -- A successful choice is the index of a record that is free, and only that request is counted.
  pub pick-FreeAt :
      (i : Text) (s' : Sched)
      → pick s cfg skip excluded now records ≡ ok (i, s')
      → FreeAt i × (s' ≡ taken s i)
  pick-FreeAt i s' h = go (pick s cfg skip excluded now records) h pick-Outcome
    where
      go :
          (x : Result PickError (Text × Sched))
          → x ≡ ok (i, s')
          → Outcome x
          → FreeAt i × (s' ≡ taken s i)
      go _ e (chosen j f) = let same : j ≡ i = cc in (subst FreeAt same f, cc)
      go _ e (refused c) = absurd (cc)

  -- With a free record there is always a choice.
  pub pick-succeeds :
      (r : AuthRecord) (i : Text)
      → Has r records
      → IsFree s cfg skip excluded now r i
      → (j : Text) × (pick s cfg skip excluded now records ≡ ok (j, taken s j))
  pick-succeeds r i m f = go (pick s cfg skip excluded now records) refl pick-Outcome
    where
      go :
          (x : Result PickError (Text × Sched))
          → pick s cfg skip excluded now records ≡ x
          → Outcome x
          → (j : Text) × (pick s cfg skip excluded now records ≡ ok (j, taken s j))
      go _ e (chosen j g) = (j, e)
      go _ e (refused c) = absurd (
          true≢false_at
            (All-Has _ records (count_if-none (λ r. is_eligible (at_work r)) records c) m))
        where
          true≢false_at : is_eligible (at_work r) ≡ false → ⊥
          true≢false_at h =
              let e : at_work r ≡ eligible i = eligible-judge s cfg skip excluded now r i f in
              cc (ap is_eligible e)

  abbrev Stands : Standing → Type 0
  Stands x = (r : AuthRecord) × Has r records × (at_work r ≡ x)

  -- Why no account is chosen, in terms of all the records.
  abbrev pub Explains : PickError → Type 0
  Explains no_codex_credential = All (λ r. at_work r ≡ ignored) records
  Explains basispoints_busy = Stands busy × All (λ r. at_work r ≢ cooling) records
  Explains basispoints_cooling = Stands cooling
  Explains exhausted =
      Stands omitted × All (λ r. (at_work r ≢ busy) × (at_work r ≢ cooling)) records

  not_counted :
      (p : Standing → Bool)
      → 0 ≡ count_if (λ r. p (at_work r)) records
      → All (λ r. p (at_work r) ≡ false) records
  not_counted p e = count_if-none (λ r. p (at_work r)) records (sym e)

  stands :
      (p : Standing → Bool) (x : Standing) {n : ℕ}
      → ((y : Standing) → p y ≡ true → y ≡ x)
      → suc n ≡ count_if (λ r. p (at_work r)) records
      → Stands x
  stands p x only e =
      let (r, m, h) = count_if-some (λ r. p (at_work r)) records (omega arith) in
      (r, m, only (at_work r) h)

  explain :
      (saw : Bool) (nb nc : ℕ)
      → 0 ≡ count_if (λ r. is_eligible (at_work r)) records
      → nb ≡ count_if (λ r. is_busy (at_work r)) records
      → nc ≡ count_if (λ r. is_cooling (at_work r)) records
      → saw ≡ ltb 0 (count_if (λ r. is_seen (at_work r)) records)
      → Explains (refusal saw nb nc)
  explain false nb nc f b k e =
      All-map records (λ r h. seen_ignored (at_work r) h) (not_counted is_seen (ground arith))
  explain true zero zero f b k e =
      let (r, m, seen) = count_if-some (λ r. is_seen (at_work r)) records (ground arith) in
      let quiet : (is_busy (at_work r) ≡ false) × (is_cooling (at_work r) ≡ false) = (
        All-Has _ records (not_counted is_busy b) m,
        All-Has _ records (not_counted is_cooling k) m,
      ) in
      (
        (
          r,
          m,
          omitted_only _ seen (All-Has _ records (not_counted is_eligible f) m) quiet.0 quiet.1,
        ),
        All-from_Has _ records (λ r' m'. (
          not_busy _ (All-Has _ records (not_counted is_busy b) m'),
          not_cooling _ (All-Has _ records (not_counted is_cooling k) m'),
        )),
      )
  explain true (suc nb) zero f b k e =
      let same : basispoints_busy ≡ refusal true (suc nb) 0 = ground arith in
      subst Explains same (
        stands is_busy busy busy_only b,
        All-map records (λ r h. not_cooling (at_work r) h) (not_counted is_cooling k),
      )
  explain true zero (suc nc) f b k e =
      let same : basispoints_cooling ≡ refusal true 0 (suc nc) = ground arith in
      subst Explains same (stands is_cooling cooling cooling_only k)
  explain true (suc nb) (suc nc) f b k e =
      let same : basispoints_cooling ≡ refusal true (suc nb) (suc nc) = ground arith in
      subst Explains same (stands is_cooling cooling cooling_only k)

  -- A refusal means that no record is free, and its kind says why: nothing usable at all; a busy
  -- account and none cooling; a cooling one; or only accounts that the request has tried.
  pub pick-Explains :
      (e : PickError)
      → pick s cfg skip excluded now records ≡ err e
      → All (λ r. (i : Text) → ¬ IsFree s cfg skip excluded now r i) records × Explains e
  pick-Explains e h = go (pick s cfg skip excluded now records) h pick-Outcome
    where
      counts : Counts at_work no_tally (tally at_work no_tally records) records
      counts = tally-Counts at_work no_tally records

      not_free :
          (r : AuthRecord)
          → is_eligible (at_work r) ≡ false
          → (i : Text) → ¬ IsFree s cfg skip excluded now r i
      not_free r n i f = cc (n, ap is_eligible (eligible-judge s cfg skip excluded now r i f))

      go :
          (x : Result PickError (Text × Sched))
          → x ≡ err e
          → Outcome x
          → All (λ r. (i : Text) → ¬ IsFree s cfg skip excluded now r i) records × Explains e
      go _ eq (chosen j f) = absurd (cc)
      go _ eq (refused c) = (
        All-map records not_free (not_counted is_eligible (sym c)),
        subst Explains (cc) (
            explain _ _ _ (sym c) (counts.busy_count ∙ omega arith)
              (counts.cooling_count ∙ omega arith) counts.seen),
      )
