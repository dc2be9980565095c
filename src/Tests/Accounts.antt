-- ===== src/Tests/Accounts.antt =====
-- basispoints/service.go and basispoints/auth.go on a host with two accounts, one of them busy.
use cliproxyapi_plugin_basis.Common.{
  ℕ, ◌+◌, ◌≡◌, ◌≤◌, ◌<◌, refl, true, false, none, some, List, [], ◌∷◌, ok, err, All, if◌then◌else◌,
  ◌==◌,
}
use cliproxyapi_plugin_basis.Common.Int.{pos}
use cliproxyapi_plugin_basis.Common.Text.{
  Text, lit, elem, equal_fold, to_lower, trim_left, trim_right, trim_space, ◌=ᵗ◌,
}
use cliproxyapi_plugin_basis.Config.{Config}
use cliproxyapi_plugin_basis.Scheduler.{
  AuthRecord, Sched, pick, finish, taken, basispoints_busy, judge, record_matches_provider,
}
use cliproxyapi_plugin_basis.Scheduler.Eligible.{IsFree}
use cliproxyapi_plugin_basis.Scheduler.Pick.{Explains, pick-Explains}
use cliproxyapi_plugin_basis.Scheduler.Leases.{
  Pool, takes, gives, Reach, here, next, idle, leases_of, Reach-idle-IsCounted,
}
use cliproxyapi_plugin_basis.Auth.{Codec, credential_from_json}
use cliproxyapi_plugin_basis.Auth.Credentials.{CredentialOf, credential_from_json-CredentialOf}
use cliproxyapi_plugin_basis.Requests.{Host, World, Acquired, acquire}
use cliproxyapi_plugin_basis.Requests.Acquire.{Accounted, Leased, acquire-Accounted}

-- At most one request at a time for each account.
abbrev pub one_each : Config
one_each = record {
  base_url = lit "https://x.test";
  auth_mode = lit "chatgpt";
  auth_provider = lit "codex";
  models = (lit "m", lit "m") ∷ [];
  max_effort = lit "high";
  max_in_flight = 1;
  min_interval = pos 0;
  cooldown = pos 0;
  image_upload = false;
  image_ttl = pos 0;
  s3 = record {
    endpoint = [];
    region = [];
    bucket = [];
    access_key = [];
    secret_key = [];
    prefix = [];
  };
}

abbrev pub account : Text → AuthRecord
account index = record {
  auth_index = index;
  provider = lit "codex";
  kind = [];
  disabled = false;
  unavailable = false;
  next_retry_after = 0;
}

abbrev pub two_accounts : List AuthRecord
two_accounts = account (lit "a") ∷ account (lit "b") ∷ []

abbrev pub fresh : Sched
fresh = record { cursor = 1; inflight = λ _. 0; next_at = λ _. none; cool_until = λ _. none }

pick_b : pick fresh one_each [] [] 0 two_accounts ≡ ok (lit "b", taken fresh (lit "b"))
unfolding pick judge record_matches_provider equal_fold ◌=ᵗ◌ to_lower trim_space trim_right
    trim_left lit elem
pick_b = refl

-- Both accounts have a request under way.
abbrev full : Sched
full = record { cursor = 0; inflight = λ _. 1; next_at = λ _. none; cool_until = λ _. none }

pick-full : pick full one_each [] [] 0 two_accounts ≡ err basispoints_busy
unfolding pick judge record_matches_provider equal_fold ◌=ᵗ◌ to_lower trim_space trim_right
    trim_left lit elem
pick-full = refl

pick-Explains_example :
    All (λ r. (i : Text) → ¬ IsFree full one_each [] [] 0 r i) two_accounts
    × Explains full one_each [] [] 0 two_accounts basispoints_busy
pick-Explains_example = pick-Explains full one_each [] [] 0 two_accounts basispoints_busy pick-full

-- One request takes an account and gives it back.
abbrev held : Pool
held = record { sched = taken idle.sched (lit "a"); leases = lit "a" ∷ [] }

abbrev given : Pool
given = record { sched = finish held.sched one_each (lit "a") 200 5; leases = [] }

pick_a : pick idle.sched one_each [] [] 0 two_accounts ≡ ok (lit "a", taken idle.sched (lit "a"))
unfolding pick judge record_matches_provider equal_fold ◌=ᵗ◌ to_lower trim_space trim_right
    trim_left lit elem
pick_a = refl

given-Reach : Reach 1 idle given
given-Reach =
    next
      (next here
        (takes one_each [] [] 0 two_accounts (lit "a") (taken idle.sched (lit "a")) refl pick_a))
      (gives one_each 200 5 [] (lit "a") [] refl)

Reach-idle-IsCounted_example :
    ((k : Text) → given.sched.inflight k ≡ leases_of k given.leases)
    × (0 < 1 → (k : Text) → leases_of k given.leases ≤ 1)
Reach-idle-IsCounted_example = Reach-idle-IsCounted 1 given given-Reach

-- A file whose members are its paths.
abbrev pub flat_codec : Codec
flat_codec = record {
  string_at = λ raw path. raw;
  raw_member = λ raw name. none;
  is_object = λ raw. true;
  valid = λ raw. true;
  raw_url_decode = λ raw. some raw;
  url_decode = λ raw. some raw;
}

credential_from_json_flat : credential_from_json flat_codec (lit "x") ≡ some (lit "x", lit "x")
unfolding credential_from_json trim_space trim_right trim_left lit
credential_from_json_flat = refl

credential_from_json-CredentialOf_example :
    CredentialOf flat_codec (lit "x") (credential_from_json flat_codec (lit "x"))
credential_from_json-CredentialOf_example = credential_from_json-CredentialOf flat_codec (lit "x")

-- A host with the two accounts, whose upstream is rate limited at first: the state counts the posts.
abbrev pub limited_host : Host
limited_host = record {
  State = ℕ;
  list_auth = λ n. (ok two_accounts, n);
  get_auth = λ index n. (ok index, n);
  post = λ req n. (
    ok (record { status_code = if n == 0 then 429 else 200; headers = []; body = lit "{}" }),
    n + 1,
  );
  log = λ level message n. n;
  clock = λ n. (7, n);
  credential = λ raw. some (lit "token", raw);
  error_code = λ body. [];
  error_detail = λ body. body;
  Bridge = Unit;
  build = λ model account n. (ok (record { model = model; body = account; url = lit "u" }, tt), n);
  translate = λ b body n. (ok body, n);
}

abbrev pub start : World limited_host
start = record { sched = fresh; config = one_each; host = 0 }

acquire-Accounted_example :
    (r : Acquired limited_host) × (w' : World limited_host) × (acquire limited_host one_each
        (lit "b" ∷ [])
        start
      ≡ some (r, w'))
    × Accounted limited_host start r w'
    × Leased limited_host two_accounts (lit "b" ∷ []) r
acquire-Accounted_example = acquire-Accounted limited_host one_each (lit "b" ∷ []) start
