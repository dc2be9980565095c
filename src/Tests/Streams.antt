-- ===== src/Tests/Streams.antt =====
-- basispoints/sse.go and the replay cache of basispoints/tools.go on concrete inputs.
use mathlib.Core.Bool.{false≢true}
use cliproxyapi_plugin_basis.Replay.Order.{find_in, total}
use cliproxyapi_plugin_basis.Common.Split.{cut_at, split_on}
use cliproxyapi_plugin_basis.Common.{
  ◌≡◌, refl, Bool, true, not, ◌&&◌, none, some, List, [], ◌∷◌, is_nil, ◌⊎◌, arith, if◌then◌else◌,
  ◌==◌,
}
use cliproxyapi_plugin_basis.Common.Text.{
  Text, =ᵗ_iff, lit, ◌=ᵗ◌, cut_prefix, has_prefix, to_lower, trim_left, trim_right, trim_space,
}
use cliproxyapi_plugin_basis.Sse.{
  push, push_all, drain_loop, format_sse_data, json_object, next_sse_event, sse_data,
}
use cliproxyapi_plugin_basis.Sse.Chunks.{NoCr, concat, push_all-concat}
use cliproxyapi_plugin_basis.Replay.{Cache, Entry, cache_key, empty, put, get, get_for_call, evict}
use cliproxyapi_plugin_basis.Replay.Order.{find_in, total}
use cliproxyapi_plugin_basis.Replay.Invariant.{IsSound, empty-IsSound, put-IsSound}
use cliproxyapi_plugin_basis.Replay.Lookup.{put-get, put-elsewhere}

abbrev no_cr : Text → Bool
no_cr [] = true
no_cr (c ∷ s) = not (c == 13) && no_cr s

no_cr-NoCr : (s : Text) → no_cr s ≡ true → NoCr s
no_cr-NoCr [] h = tt
no_cr-NoCr (c ∷ s) h = (ground (arith, h), no_cr-NoCr s (ground (arith, h)))

-- Two events; the first is cut within its end.
abbrev two_chunks : List Text
two_chunks = lit "data: {\"a\":1}\n" ∷ lit "\ndata: {}\n\n{" ∷ []

push_all-concat_example :
    (r : List Text × Text) × ((push_all [] two_chunks ≡ some r)
      × (push [] (concat two_chunks) ≡ some r))
unfolding lit
push_all-concat_example =
    push_all-concat two_chunks
      (no_cr-NoCr (lit "data: {\"a\":1}\n") refl, (no_cr-NoCr (lit "\ndata: {}\n\n{") refl, tt))

push_all_two :
    push_all [] two_chunks ≡ some (lit "data: {\"a\":1}\n\n" ∷ lit "data: {}\n\n" ∷ [], lit "{")
unfolding push_all push lit drain_loop next_sse_event cut_at cut_prefix format_sse_data sse_data
    trim_space trim_right trim_left json_object split_on has_prefix to_lower ◌=ᵗ◌
push_all_two = refl

put-IsSound_example :
    (d : Cache) × ((put empty (lit "s") (lit "call") (some (lit "{}")) (lit "f") ≡ some d)
      × IsSound d)
put-IsSound_example =
    put-IsSound empty (lit "s") (lit "call") (some (lit "{}")) (lit "f") empty-IsSound

abbrev one_entry : Entry
one_entry = record {
  key = cache_key (lit "s") (lit "call");
  raw = lit "{}";
  call_fingerprint = lit "f";
}

-- The cache that holds this item.
abbrev one_item : Cache
one_item = record {
  entries = record { find = λ j. if one_entry.key =ᵗ j then some one_entry else none; size = 1 };
  order = one_entry ∷ [];
  bytes = 2;
}

put_one : put empty (lit "s") (lit "call") (some (lit "{}")) (lit "f") ≡ some one_item
unfolding put lit evict empty
put_one = refl

one_item-IsSound : IsSound one_item
unfolding find_in ◌=ᵗ◌ total lit
one_item-IsSound = record {
  agrees = record { same = λ k. refl; counted = refl; summed = refl; distinct = (refl, tt) };
  few = omega arith;
  small = omega arith;
}

put-get_example :
    (d : Cache) × ((put one_item (lit "s") (lit "other") (some (lit "[1]")) (lit "g") ≡ some d)
      × (((get d (lit "s") (lit "other")).0 ≡ some (lit "[1]"))
          × ((call : Text)
              → (get_for_call d (lit "s") (lit "other") call).0
                ≡ (if not (is_nil call) && (lit "g" =ᵗ call) then some (lit "[1]") else none))))
unfolding lit
put-get_example =
    put-get one_item (lit "s") (lit "other") (lit "[1]") (lit "g") one_item-IsSound refl
      (omega arith)

put-elsewhere_example :
    ((get one_item (lit "t") (lit "call")).0 ≡ none)
    ⊎ ((get one_item (lit "t") (lit "call")).0 ≡ (get empty (lit "t") (lit "call")).0)
unfolding lit ◌=ᵗ◌
put-elsewhere_example =
    put-elsewhere empty one_item (lit "s") (lit "call") (some (lit "{}")) (lit "f") (lit "t")
      (lit "call") (ground arith, tt) (ground arith, tt)
      (λ same. false≢true ((=ᵗ_iff (lit "s") (lit "t")).1 same.0)) put_one
