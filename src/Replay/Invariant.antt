-- ===== src/Replay/Invariant.antt =====
-- The bounds of the replay cache, and the agreement of its map, its list and its byte count
-- (basispoints/tools.go).
use cliproxyapi_plugin_basis.Common.{
  ℕ, ◌+◌, ◌-◌, ◌≤◌, ◌≡◌, refl, sym, ap, ◌∙◌, Bool, ◌&&◌, ◌||◌, not, Option, none, some, List, [],
  ◌∷◌, ◌++◌, arith, if_split, length, length-append, ltb, is_nil,
}
use cliproxyapi_plugin_basis.Common.Text.{Text, ◌=ᵗ◌, =ᵗ_iff, =ᵗ_refl}
use cliproxyapi_plugin_basis.Replay.{
  Entry, GoMap, Cache, empty, map_set, map_delete, remove_key, max_item, max_entries, max_bytes,
  cache_key, evict, drop_old, insert_entry, put, get_found, get_matching,
}
use cliproxyapi_plugin_basis.Replay.Order.{
  find_in, total, Distinct, find_in-remove_key, remove_key-Distinct, length-remove_key,
  total-remove_key, find_in-append, append-Distinct, total-append, find_in_key,
}

-- The map and the list hold the same entries, and the count is that of their bytes.
pub record Agrees (m : GoMap Entry) (order : List Entry) (bytes : ℕ) : Type 0 where
  pub same : (k : Text) → m.find k ≡ find_in k order
  pub counted : m.size ≡ length order
  pub summed : bytes ≡ total order
  pub distinct : Distinct order

-- The invariant of the cache.
pub record IsSound (c : Cache) : Type 0 where
  pub agrees : Agrees c.entries c.order c.bytes
  pub few : length c.order ≤ max_entries
  pub small : total c.order ≤ max_bytes

pub empty-IsSound : IsSound empty
unfolding empty find_in total
empty-IsSound = record {
  agrees = record { same = λ k. refl; counted = refl; summed = refl; distinct = tt };
  few = omega arith;
  small = omega arith;
}

-- Without its first entry the list still agrees with the map without that key.
pub Agrees-front :
    (m : GoMap Entry) (e : Entry) (es : List Entry) (bytes : ℕ)
    → Agrees m (e ∷ es) bytes
    → Agrees (map_delete m e.key) es (bytes - length e.raw)
unfolding find_in total
Agrees-front m e es bytes a = record {
  same = λ k. ground (arith, a.same k, a.distinct.0, =ᵗ_iff e.key k);
  counted = ground (arith, a.same e.key, a.counted, =ᵗ_refl e.key);
  summed = omega (arith, a.summed);
  distinct = a.distinct.1;
}

abbrev SoundOption : Option Cache → Type 0
SoundOption none = ⊥
SoundOption (some c) = IsSound c

-- Eviction ends with a sound cache, and never runs into an empty list.
evict-IsSound :
    (order : List Entry) (m : GoMap Entry) (bytes : ℕ)
    → Agrees m order bytes
    → SoundOption (evict order m bytes)
unfolding evict total
evict-IsSound [] m bytes a =
    if_split SoundOption (ltb max_entries m.size || ltb max_bytes bytes)
      (λ over. ground (arith, a.counted, a.summed))
      (λ within. record { agrees = a; few = omega arith; small = unfold total in omega arith })
evict-IsSound (e ∷ es) m bytes a =
    if_split SoundOption (ltb max_entries m.size || ltb max_bytes bytes)
      (λ _.
        evict-IsSound es (map_delete m e.key) (bytes - length e.raw) (Agrees-front m e es bytes a))
      (λ within. record {
        agrees = a;
        few = ground (arith, a.counted);
        small = ground (arith, a.summed);
      })

-- An entry that comes last, under a key that the list does not have.
Agrees-back :
    (m : GoMap Entry) (e : Entry) (es : List Entry) (bytes : ℕ)
    → Agrees m es bytes
    → m.find e.key ≡ none
    → Agrees (map_set m e.key e) (es ++ e ∷ []) (bytes + length e.raw)
Agrees-back m e es bytes a h = record {
  same = λ k. ground (arith, a.same k, find_in-append k es e (fresh));
  counted = ground (arith, h, a.counted, length-append es (e ∷ []));
  summed = omega (arith, a.summed, total-append es e);
  distinct = append-Distinct es e fresh a.distinct;
}
  where
    fresh : find_in e.key es ≡ none
    fresh = sym (a.same e.key) ∙ h

-- An entry that comes last, under a key whose old entry leaves the list.
Agrees-replace :
    (m : GoMap Entry) (e old : Entry) (es : List Entry) (bytes : ℕ)
    → Agrees m es bytes
    → m.find e.key ≡ some old
    → Agrees
        (map_set m e.key e)
        (remove_key e.key es ++ e ∷ [])
        (bytes - length old.raw + length e.raw)
Agrees-replace m e old es bytes a h = record {
  same = λ k. ground (
    arith,
    a.same k,
    find_in-append k (remove_key e.key es) e gone,
    find_in-remove_key e.key k es a.distinct,
    =ᵗ_iff e.key k,
  );
  counted = ground (
    arith,
    h,
    a.counted,
    length-append (remove_key e.key es) (e ∷ []),
    length-remove_key e.key es old held,
  );
  summed =
      omega
        (arith, a.summed, total-append (remove_key e.key es) e, total-remove_key e.key es old held);
  distinct = append-Distinct (remove_key e.key es) e gone (remove_key-Distinct e.key es a.distinct);
}
  where
    held : find_in e.key es ≡ some old
    held = sym (a.same e.key) ∙ h

    gone : find_in e.key (remove_key e.key es) ≡ none
    gone = ground (arith, find_in-remove_key e.key e.key es a.distinct, =ᵗ_refl e.key)

pub Agrees-insert :
    (c : Cache) (e : Entry) (o : Option Entry)
    → Agrees c.entries c.order c.bytes
    → c.entries.find e.key ≡ o
    → Agrees
        (map_set (drop_old c e.key o).entries e.key e)
        ((drop_old c e.key o).order ++ e ∷ [])
        ((drop_old c e.key o).bytes + length e.raw)
unfolding drop_old
Agrees-insert c e none a h = Agrees-back c.entries e c.order c.bytes a h
Agrees-insert c e (some old) a h = Agrees-replace c.entries e old c.order c.bytes a h

insert_entry-IsSound : (c : Cache) (e : Entry) → IsSound c → SoundOption (insert_entry c e)
unfolding insert_entry
insert_entry-IsSound c e s =
    evict-IsSound _ _ _ (Agrees-insert c e (c.entries.find e.key) s.agrees refl)

-- `put` on a sound cache never faults, and leaves a sound cache: whatever the item and the call
-- are, the map and the list hold the same entries, the byte count is their sum, and neither bound
-- is exceeded.
pub put-IsSound :
    (c : Cache) (scope id : Text) (item : Option Text) (signature : Text)
    → IsSound c
    → (d : Cache) × ((put c scope id item signature ≡ some d) × IsSound d)
unfolding put
put-IsSound c scope id none signature s = (c, (refl, s))
put-IsSound c scope id (some raw) signature s =
    if_split (λ o. (d : Cache) × ((o ≡ some d) × IsSound d))
      (is_nil id || ltb max_item (length raw)) (λ _. (c, (refl, s)))
      (λ _. result _ (insert_entry-IsSound c _ s))
  where
    result : (o : Option Cache) → SoundOption o → (d : Cache) × ((o ≡ some d) × IsSound d)
    result none h = absurd h
    result (some d) h = (d, (refl, h))

-- The entry moves to the back of the list.
Agrees-touch :
    (m : GoMap Entry) (e : Entry) (es : List Entry) (bytes : ℕ)
    → Agrees m es bytes
    → m.find e.key ≡ some e
    → Agrees m (remove_key e.key es ++ e ∷ []) bytes
Agrees-touch m e es bytes a h = record {
  same = λ k. ground (
    arith,
    a.same k,
    find_in-append k (remove_key e.key es) e gone,
    find_in-remove_key e.key k es a.distinct,
    =ᵗ_iff e.key k,
  );
  counted = omega (
    arith,
    a.counted,
    length-append (remove_key e.key es) (e ∷ []),
    length-remove_key e.key es e held,
  );
  summed =
      omega
        (arith, a.summed, total-append (remove_key e.key es) e, total-remove_key e.key es e held);
  distinct = append-Distinct (remove_key e.key es) e gone (remove_key-Distinct e.key es a.distinct);
}
  where
    held : find_in e.key es ≡ some e
    held = sym (a.same e.key) ∙ h

    gone : find_in e.key (remove_key e.key es) ≡ none
    gone = ground (arith, find_in-remove_key e.key e.key es a.distinct, =ᵗ_refl e.key)

get_found-IsSound :
    (c : Cache) (k signature : Text) (required : Bool) (o : Option Entry)
    → IsSound c
    → c.entries.find k ≡ o
    → IsSound (get_found c signature required o).1
unfolding get_found
get_found-IsSound c k signature required none s h = s
get_found-IsSound c k signature required (some e) s h =
    if_split {A = Option Text × Cache} (λ p. IsSound p.1)
      (required && not (e.call_fingerprint =ᵗ signature)) (λ _. s)
      (λ _. record {
        agrees = touched;
        few = omega (arith, touched.counted, s.agrees.counted, s.few);
        small = omega (arith, touched.summed, s.agrees.summed, s.small);
      })
  where
    keyed : e.key ≡ k
    keyed = find_in_key k c.order e (sym (s.agrees.same k) ∙ h)

    touched : Agrees c.entries (remove_key e.key c.order ++ e ∷ []) c.bytes
    touched =
        Agrees-touch c.entries e c.order c.bytes s.agrees (ap (λ j. c.entries.find j) keyed ∙ h)

-- A lookup, matched to a call or not, leaves a sound cache.
pub get_matching-IsSound :
    (c : Cache) (scope id signature : Text) (required : Bool)
    → IsSound c
    → IsSound (get_matching c scope id signature required).1
unfolding get_matching
get_matching-IsSound c scope id signature required s =
    get_found-IsSound c (cache_key scope id) signature required
      (c.entries.find (cache_key scope id)) s refl
