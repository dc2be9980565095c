-- ===== src/Scheduler/Eligible.antt =====
-- When an account may take a request (basispoints/service.go, the loop of `pick`).
use cliproxyapi_plugin_basis.Common.{
  ℕ, ◌≤◌, ◌<◌, ◌≡◌, refl, true, false, Option, none, some, List, arith, is_nil,
}
use cliproxyapi_plugin_basis.Common.Text.{Text, elem, trim_space}
use cliproxyapi_plugin_basis.Config.{Config}
use cliproxyapi_plugin_basis.Scheduler.{
  AuthRecord, Sched, eligible, judge, record_matches_provider, before,
}

module _ (s : Sched) (cfg : Config) (skip excluded : List Text) (now : ℕ) where
  -- The record is of the provider, enabled and due, and its account may take a request now.
  pub record IsFree (r : AuthRecord) (index : Text) : Type 0 where
    pub matches : record_matches_provider r cfg.auth_provider ≡ true
    pub enabled : r.disabled ≡ false
    pub available : r.unavailable ≡ false
    pub due : r.next_retry_after ≤ now
    pub named : index ≡ trim_space r.auth_index
    pub index_set : is_nil index ≡ false
    pub not_skipped : elem index skip ≡ false
    pub not_excluded : elem index excluded ≡ false
    pub cooled : (t : ℕ) → s.cool_until index ≡ some t → t ≤ now
    pub spaced : (t : ℕ) → s.next_at index ≡ some t → t ≤ now
    pub room : 0 < cfg.max_in_flight → s.inflight index < cfg.max_in_flight

  pub judge-eligible :
      (r : AuthRecord) (i : Text) → judge s cfg skip excluded now r ≡ eligible i → IsFree r i
  unfolding judge
  judge-eligible r i h = record {
    matches = ground arith;
    enabled = ground arith;
    available = ground arith;
    due = ground arith;
    named = ground arith;
    index_set = ground arith;
    not_skipped = ground arith;
    not_excluded = ground arith;
    cooled = λ t e. ground arith;
    spaced = λ t e. ground arith;
    room = λ z. ground arith;
  }

  pub eligible-judge :
      (r : AuthRecord) (i : Text) → IsFree r i → judge s cfg skip excluded now r ≡ eligible i
  unfolding judge
  eligible-judge r i f =
      ground
        (arith, f.matches, cooled_out (s.cool_until i) f.cooled, cooled_out (s.next_at i) f.spaced)
    where
      cooled_out : (o : Option ℕ) → ((t : ℕ) → o ≡ some t → t ≤ now) → before now o ≡ false
      cooled_out none h = refl
      cooled_out (some t) h = ground (arith, h t refl)
