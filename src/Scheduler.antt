-- ===== src/Scheduler.antt =====
-- basispoints/service.go: the choice of an account for a request (`pick`), the end of a request
-- (`finish`), and the lease between them. Times are nanoseconds, and the zero time is 0.
pub mod Eligible
mod Counting
pub mod Pick
pub mod Leases
use cliproxyapi_plugin_basis.Common.{
  ℕ, zero, suc, ◌+◌, ◌-◌, ◌%◌, Bool, true, false, not, ◌&&◌, ◌||◌, Option, none, some, List, [],
  ◌∷◌, ◌++◌, is_nil, ltb, leb, ◌==◌, if◌then◌else◌, length, get_elem?, Result, ok, err,
}
use cliproxyapi_plugin_basis.Common.Int.{ℤ, is_pos, pos_part}
use cliproxyapi_plugin_basis.Common.Text.{Text, lit, ◌=ᵗ◌, trim_space, to_lower, equal_fold, elem}
use cliproxyapi_plugin_basis.Config.{Config, default_auth_provider, or_default}

pub record AuthRecord : Type 0 where
  pub auth_index : Text
  pub provider : Text
  pub kind : Text
  pub disabled : Bool
  pub unavailable : Bool
  pub next_retry_after : ℕ

-- The maps of `Service` that the scheduler owns, and its cursor.
pub record Sched : Type 0 where
  pub cursor : ℕ
  pub inflight : Text → ℕ
  pub next_at : Text → Option ℕ
  pub cool_until : Text → Option ℕ

abbrev pub update {ℓ} : {A : Type ℓ} → (Text → A) → Text → A → Text → A
update f k v j = if k =ᵗ j then v else f j

unfoldable pub record_matches_provider : AuthRecord → Text → Bool
record_matches_provider r provider =
    let wanted = or_default (to_lower (trim_space provider)) default_auth_provider in
    equal_fold (trim_space r.provider) wanted || equal_fold (trim_space r.kind) wanted

-- What one turn of the loop in `pick` makes of a record.
pub data Standing : Type 0 where
  ignored omitted cooling busy : Standing
  eligible : Text → Standing

-- `now.Before(until)` for an entry of a map, which may be missing.
abbrev pub before : ℕ → Option ℕ → Bool
before now none = false
before now (some t) = ltb now t

unfoldable pub judge : Sched → Config → List Text → List Text → ℕ → AuthRecord → Standing
judge s cfg skip excluded now r =
    let index = trim_space r.auth_index in
    if not (record_matches_provider r cfg.auth_provider) || r.disabled || r.unavailable
    then ignored
    else if not (r.next_retry_after == 0) && ltb now r.next_retry_after
    then ignored
    else if is_nil index
    then ignored
    else if elem index skip || elem index excluded
    then omitted
    else if before now (s.cool_until index) || before now (s.next_at index)
    then cooling
    else if ltb 0 cfg.max_in_flight && leb cfg.max_in_flight (s.inflight index)
    then busy
    else eligible index

pub record Tally : Type 0 where
  pub eligible : List Text
  pub saw_provider : Bool
  pub busy : ℕ
  pub cooling : ℕ

abbrev pub no_tally : Tally
no_tally = record { eligible = []; saw_provider = false; busy = 0; cooling = 0 }

abbrev pub count_in : Tally → Standing → Tally
count_in t ignored = t
count_in t omitted = record t { saw_provider = true }
count_in t cooling = record t { saw_provider = true; cooling = t.cooling + 1 }
count_in t busy = record t { saw_provider = true; busy = t.busy + 1 }
count_in t (eligible i) = record t { saw_provider = true; eligible = t.eligible ++ i ∷ [] }

pub tally : (AuthRecord → Standing) → Tally → List AuthRecord → Tally
tally standing t [] = t
tally standing t (r ∷ rs) = tally standing (count_in t (standing r)) rs

-- The order of strings: by bytes.
unfoldable pub text_le : Text → Text → Bool
text_le [] ys = true
text_le (x ∷ xs) [] = false
text_le (x ∷ xs) (y ∷ ys) = ltb x y || (x == y && text_le xs ys)

unfoldable pub insert_sorted : Text → List Text → List Text
unfolding text_le
insert_sorted x [] = x ∷ []
insert_sorted x (y ∷ ys) = if text_le x y then x ∷ y ∷ ys else y ∷ insert_sorted x ys

-- sort.Strings
unfoldable pub sort : List Text → List Text
unfolding insert_sorted
sort [] = []
sort (x ∷ xs) = insert_sorted x (sort xs)

-- The errors of `pick`; `exhausted` is the variable `errExhausted`.
pub data PickError : Type 0 where
  no_codex_credential basispoints_busy basispoints_cooling exhausted : PickError

-- The refusal, from what the loop saw and how many accounts were busy and cooling.
abbrev pub refusal : Bool → ℕ → ℕ → PickError
refusal saw_provider busy_count cooling_count =
    if not saw_provider
    then no_codex_credential
    else if ltb 0 busy_count && cooling_count == 0
    then basispoints_busy
    else if ltb 0 cooling_count || ltb 0 busy_count
    then basispoints_cooling
    else exhausted

-- The state after a request is counted for `index`.
abbrev pub taken : Sched → Text → Sched
taken s index = record s {
  cursor = s.cursor + 1;
  inflight = update s.inflight index (s.inflight index + 1);
}

-- The account at the cursor, and the state in which its request is counted.
choose : Sched → Tally → Option Text → Result PickError (Text × Sched)
choose s t none = err (refusal t.saw_provider t.busy t.cooling)
choose s t (some index) = ok (index, taken s index)

unfoldable pub pick :
    Sched → Config → List Text → List Text → ℕ → List AuthRecord → Result PickError (Text × Sched)
unfolding tally sort choose
pick s cfg skip excluded now records =
    let t = tally (judge s cfg skip excluded now) no_tally records in
    let sorted = sort t.eligible in choose s t (get_elem? sorted (s.cursor % length sorted))

-- `finish`, under the configuration of the moment. The wait that upstream asked for is an argument
-- of the source that its body does not read.
unfoldable pub finish : Sched → Config → Text → ℕ → ℕ → Sched
finish s cfg key status now = record s {
  inflight =
      if ltb 0 (s.inflight key) then update s.inflight key (s.inflight key - 1) else s.inflight;
  next_at =
      if is_pos cfg.min_interval
      then update s.next_at key (some (now + pos_part cfg.min_interval))
      else s.next_at;
  cool_until =
      if status == 429 && is_pos cfg.cooldown
      then update s.cool_until key (some (now + pos_part cfg.cooldown))
      else s.cool_until;
}

-- A lease with the state of its sync.Once.
pub record Lease : Type 0 where
  pub key : Text
  pub released : Bool

-- A second release of a lease does nothing.
unfoldable pub release : Lease → Sched → Config → ℕ → ℕ → Lease × Sched
unfolding finish
release l s cfg status now =
    if l.released then (l, s) else (record l { released = true }, finish s cfg l.key status now)
