-- ===== src/Replay/Recency/Runs.antt =====
-- Whole runs of the replay cache, against the list of entries (basispoints/tools.go).
use cliproxyapi_plugin_basis.Common.{
  ◌≡◌, refl, ap, ◌∙◌, Bool, true, false, Option, none, some, List, [], ◌∷◌, is_nil, if◌then◌else◌,
}
use cliproxyapi_plugin_basis.Common.Text.{Text}
use cliproxyapi_plugin_basis.Replay.{
  Entry, Cache, empty, cache_key, put, get, get_for_call, get_matching,
}
use cliproxyapi_plugin_basis.Replay.Invariant.{
  IsSound, empty-IsSound, put-IsSound, get_matching-IsSound,
}
use cliproxyapi_plugin_basis.Replay.Recency.{
  put_recent, get_recent, put-recent, SameAnswer, get_matching-recent,
}

-- A call of a method of the cache.
pub data Operation : Type 0 where
  put_item : Text → Text → Option Text → Text → Operation
  get_item : Text → Text → Operation
  get_item_for_call : Text → Text → Text → Operation

abbrev pub put_answer : Option Cache → Option (Option Text × Cache)
put_answer none = none
put_answer (some d) = some (none, d)

-- What it does to the cache, with what it answers; `none` is a fault.
unfoldable pub operate : Cache → Operation → Option (Option Text × Cache)
operate c (put_item scope id item signature) = put_answer (put c scope id item signature)
operate c (get_item scope id) = some (get c scope id)
operate c (get_item_for_call scope id signature) = some (get_for_call c scope id signature)

-- What it does to the list.
unfoldable pub operate_recent : List Entry → Operation → Option Text × List Entry
operate_recent es (put_item scope id item signature) = (none, put_recent es scope id item signature)
operate_recent es (get_item scope id) = get_recent es (cache_key scope id) [] false
operate_recent es (get_item_for_call scope id signature) =
    if is_nil signature then (none, es) else get_recent es (cache_key scope id) signature true

-- The answers of a run, and its end.
abbrev pub then_answers :
    Option Text → Option (List (Option Text) × Cache) → Option (List (Option Text) × Cache)
then_answers answer none = none
then_answers answer (some (answers, d)) = some (answer ∷ answers, d)

unfoldable pub run : List Operation → Cache → Option (List (Option Text) × Cache)
run [] c = some ([], c)
run (op ∷ ops) c = elim (operate c op) [ none ↦ none | some r ↦ then_answers r.0 (run ops r.1) ]

unfoldable pub run_recent : List Operation → List Entry → List (Option Text) × List Entry
run_recent [] es = ([], es)
run_recent (op ∷ ops) es =
    let r = operate_recent es op in let later = run_recent ops r.1 in (r.0 ∷ later.0, later.1)

operate-SameAnswer :
    (c : Cache) (op : Operation)
    → IsSound c
    → (r : Option Text × Cache) × (operate c op ≡ some r)
      × IsSound r.1
      × SameAnswer r (operate_recent c.order op)
unfolding operate operate_recent get get_for_call
operate-SameAnswer c (put_item scope id item signature) s =
    let (d, (p, sound)) = put-IsSound c scope id item signature s in
    ((none, d), ap put_answer p, sound, (refl, put-recent c d scope id item signature s p))
operate-SameAnswer c (get_item scope id) s = (
  get_matching c scope id [] false,
  refl,
  get_matching-IsSound c scope id [] false s,
  get_matching-recent c scope id [] false s,
)
operate-SameAnswer c (get_item_for_call scope id signature) s =
    (get_for_call c scope id signature, refl, blank (is_nil signature), answered (is_nil signature))
  where
    blank : (b : Bool) → IsSound (if b then (none, c) else get_matching c scope id signature true).1
    blank true = s
    blank false = get_matching-IsSound c scope id signature true s

    answered :
        (b : Bool)
        → SameAnswer
            (if b then (none, c) else get_matching c scope id signature true)
            (if b then (none, c.order) else get_recent c.order (cache_key scope id) signature true)
    answered true = (refl, refl)
    answered false = get_matching-recent c scope id signature true s

run-SameAnswers :
    (ops : List Operation) (c : Cache)
    → IsSound c
    → (answers : List (Option Text)) × (d : Cache) × (run ops c ≡ some (answers, d))
      × (answers ≡ (run_recent ops c.order).0)
      × (d.order ≡ (run_recent ops c.order).1)
unfolding run run_recent
run-SameAnswers [] c s = ([], c, refl, refl, refl)
run-SameAnswers (op ∷ ops) c s =
    let (r, p, sound, same) = operate-SameAnswer c op s in
    let (answers, d, q, qs, es) = run-SameAnswers ops r.1 sound in
    (
      r.0 ∷ answers,
      d,
      ap (λ o. elim o [ none ↦ none | some r ↦ then_answers r.0 (run ops r.1) ]) p
          ∙ ap (then_answers r.0) q,
      cc (same.0, qs, same.1),
      cc (es, same.1),
    )

-- The replay cache is the list of its entries in the order of their last use: every sequence of its
-- methods, from the empty cache on, runs without a fault, gives the answers that the list gives, and
-- ends with the entries that the list ends with. The list has no map and no counters: a put takes
-- the entries of its key away, adds its own at the end, and takes entries away from the front until
-- there are at most 1024, of at most 16 MiB together; an item of more than 1 MiB or without an
-- identifier is not put; and a lookup moves the entry that it finds to the end.
pub run-run_recent :
    (ops : List Operation)
    → (answers : List (Option Text)) × (d : Cache) × (run ops empty ≡ some (answers, d))
      × ((answers, d.order) ≡ run_recent ops [])
unfolding empty
run-run_recent ops =
    let (answers, d, p, qs, es) = run-SameAnswers ops empty empty-IsSound in
    (answers, d, p, cc (qs, es))
