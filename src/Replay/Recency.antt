-- ===== src/Replay/Recency.antt =====
-- The replay cache as a list of entries in the order of their last use, without the map and the
-- counters that basispoints/tools.go keeps beside it.
pub mod Runs
use cliproxyapi_plugin_basis.Common.{
  ℕ, ◌+◌, ◌-◌, ◌≡◌, refl, sym, ap, ◌∙◌, subst, Bool, true, false, ◌&&◌, ◌||◌, not, Option, none,
  some, List, [], ◌∷◌, ◌++◌, arith, ◌⊎◌, inl, inr, if_split, length, ltb, is_nil, if◌then◌else◌,
}
use cliproxyapi_plugin_basis.Common.Text.{Text, ◌=ᵗ◌, =ᵗ_iff, =ᵗ_refl}
use cliproxyapi_plugin_basis.Replay.{
  Entry, GoMap, Cache, map_set, map_delete, remove_key, max_item, max_entries, max_bytes, cache_key,
  evict, drop_old, insert_entry, put, get_found, get_matching, get, get_for_call,
}
use cliproxyapi_plugin_basis.Replay.Order.{find_in, total, Distinct, find_in_key}
use cliproxyapi_plugin_basis.Replay.Invariant.{Agrees, IsSound, Agrees-front, Agrees-insert}

-- The entries of other keys.
unfoldable pub without : Text → List Entry → List Entry
without k [] = []
without k (e ∷ es) = let rest = without k es in if e.key =ᵗ k then rest else e ∷ rest

abbrev pub over : List Entry → Bool
over es = ltb max_entries (length es) || ltb max_bytes (total es)

-- The entries that are left when the first ones go until the rest is within the bounds.
unfoldable pub trim : List Entry → List Entry
trim [] = []
trim (e ∷ es) = let rest = trim es in if over (e ∷ es) then rest else e ∷ es

-- What a put makes of the entries: its own comes last, in the place of any of its key.
unfoldable pub put_recent : List Entry → Text → Text → Option Text → Text → List Entry
put_recent es scope id none signature = es
put_recent es scope id (some raw) signature =
    if is_nil id || ltb max_item (length raw)
    then es
    else trim (
        without (cache_key scope id) es
        ++ record { key = cache_key scope id; raw = raw; call_fingerprint = signature } ∷ [])

abbrev pub found_recent : List Entry → Text → Bool → Option Entry → Option Text × List Entry
found_recent es signature required none = (none, es)
found_recent es signature required (some e) =
    if required && not (e.call_fingerprint =ᵗ signature)
    then (none, es)
    else (some e.raw, without e.key es ++ e ∷ [])

-- What a lookup answers; the entry that it finds comes last.
unfoldable pub get_recent : List Entry → Text → Text → Bool → Option Text × List Entry
get_recent es key signature required = found_recent es signature required (find_in key es)

without-none : (k : Text) (es : List Entry) → find_in k es ≡ none → without k es ≡ es
unfolding find_in without
without-none k [] h = refl
without-none k (e ∷ es) h = ground (arith, without-none k es)

remove_key-without : (k : Text) (es : List Entry) → Distinct es → remove_key k es ≡ without k es
unfolding find_in without remove_key
remove_key-without k [] d = refl
remove_key-without k (e ∷ es) d =
    ground (arith, remove_key-without k es d.1, without-none k es, d.0, =ᵗ_iff e.key k)

abbrev Trims : List Entry → Option Cache → Type 0
Trims es none = ⊥
Trims es (some d) = d.order ≡ trim es

evict-Trims :
    (es : List Entry) (m : GoMap Entry) (bytes : ℕ)
    → Agrees m es bytes
    → Trims es (evict es m bytes)
unfolding evict trim total
evict-Trims [] m bytes a =
    if_split (Trims []) (ltb max_entries m.size || ltb max_bytes bytes)
      (λ over. absurd (ground (arith, a.counted, a.summed))) (λ _. refl)
evict-Trims (e ∷ es) m bytes a =
    if_split (Trims (e ∷ es)) (ltb max_entries m.size || ltb max_bytes bytes)
      (λ big.
        later (evict es (map_delete m e.key) (bytes - length e.raw)) (sym same_test ∙ big) (
          evict-Trims es (map_delete m e.key) (bytes - length e.raw) (Agrees-front m e es bytes a)))
      (λ small. sym (ap (λ b. if b then trim es else e ∷ es) (sym same_test ∙ small)))
  where
    same_test : (ltb max_entries m.size || ltb max_bytes bytes) ≡ over (e ∷ es)
    same_test = cc (a.counted, a.summed)

    later : (o : Option Cache) → over (e ∷ es) ≡ true → Trims es o → Trims (e ∷ es) o
    later none big t = absurd t
    later (some d) big t = t ∙ sym (ap (λ b. if b then trim es else e ∷ es) big)

-- A put on a sound cache changes the list as it changes the entries.
pub put-recent :
    (c d : Cache) (scope id : Text) (item : Option Text) (signature : Text)
    → IsSound c
    → put c scope id item signature ≡ some d
    → d.order ≡ put_recent c.order scope id item signature
unfolding put put_recent insert_entry
put-recent c d scope id none signature s h = ground (arith, h)
put-recent c d scope id (some raw) signature s h =
    refused (is_nil id || ltb max_item (length raw)) h
  where
    new : Entry
    new = record { key = cache_key scope id; raw = raw; call_fingerprint = signature }

    dropped :
        (o : Option Entry)
        → c.entries.find new.key ≡ o
        → (drop_old c new.key o).order ≡ without new.key c.order
    dropped none p =
        unfold drop_old in sym (without-none new.key c.order (sym (s.agrees.same new.key) ∙ p))
    dropped (some old) p = unfold drop_old in remove_key-without new.key c.order s.agrees.distinct

    inserted : Trims (without new.key c.order ++ new ∷ []) (insert_entry c new)
    inserted =
        subst (λ es. Trims (es ++ new ∷ []) (insert_entry c new))
          (dropped (c.entries.find new.key) refl)
          (evict-Trims _ _ _ (Agrees-insert c new (c.entries.find new.key) s.agrees refl))

    refused :
        (b : Bool)
        → (if b then some c else insert_entry c new) ≡ some d
        → d.order ≡ (if b then c.order else trim (without new.key c.order ++ new ∷ []))
    refused true p = ground (arith, p)
    refused false p = subst (Trims (without new.key c.order ++ new ∷ [])) p inserted

-- An answer of the cache and one of the list, and what they leave.
abbrev pub SameAnswer : Option Text × Cache → Option Text × List Entry → Type 0
SameAnswer (answer, d) (spec, es) = (answer ≡ spec) × (d.order ≡ es)

-- So does a lookup, which answers what the list has.
pub get_matching-recent :
    (c : Cache) (scope id signature : Text) (required : Bool)
    → IsSound c
    → SameAnswer
        (get_matching c scope id signature required)
        (get_recent c.order (cache_key scope id) signature required)
unfolding get_matching get_found get_recent
get_matching-recent c scope id signature required s =
    rw (s.agrees.same (cache_key scope id)) (found (find_in (cache_key scope id) c.order))
  where
    answered :
        (e : Entry) (b : Bool)
        → SameAnswer
            (if b
              then (none, c)
              else (some e.raw, record c { order = remove_key e.key c.order ++ e ∷ [] }))
            (if b then (none, c.order) else (some e.raw, without e.key c.order ++ e ∷ []))
    answered e true = (refl, refl)
    answered e false =
        (refl, ap (λ es. es ++ e ∷ []) (remove_key-without e.key c.order s.agrees.distinct))

    found :
        (o : Option Entry)
        → SameAnswer (get_found c signature required o) (found_recent c.order signature required o)
    found none = (refl, refl)
    found (some e) = answered e (required && not (e.call_fingerprint =ᵗ signature))
