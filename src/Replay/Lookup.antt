-- ===== src/Replay/Lookup.antt =====
-- What the replay cache answers after an item was put into it (basispoints/tools.go).
use cliproxyapi_plugin_basis.Common.{
  ℕ, ◌+◌, ◌-◌, ◌≤◌, ◌<◌, ◌≡◌, refl, sym, ap, ◌∙◌, subst, true, false, ◌&&◌, ◌||◌, not, Option, none,
  some, List, [], ◌∷◌, ◌++◌, arith, ◌⊎◌, inl, inr, if_split, length, ltb, is_nil, if◌then◌else◌,
}
use cliproxyapi_plugin_basis.Common.Text.{Text, ◌=ᵗ◌, =ᵗ_iff, =ᵗ_refl, =ᵗ_ne}
use cliproxyapi_plugin_basis.Replay.{
  Entry, GoMap, Cache, map_set, map_delete, max_item, max_entries, max_bytes, cache_key, evict,
  drop_old, insert_entry, put, get_found, get_matching, get, get_for_call,
}
use cliproxyapi_plugin_basis.Replay.Order.{total, find_in-append_none}
use cliproxyapi_plugin_basis.Replay.Invariant.{Agrees, IsSound, Agrees-front, Agrees-insert}

abbrev HoldsOption : Entry → Option Cache → Type 0
HoldsOption e none = ⊥
HoldsOption e (some d) = d.entries.find e.key ≡ some e

-- Eviction stops before the entry that came last, if that one alone is within the bounds.
evict-HoldsOption :
    (es : List Entry) (e : Entry) (m : GoMap Entry) (bytes : ℕ)
    → Agrees m (es ++ e ∷ []) bytes
    → length e.raw ≤ max_item
    → m.find e.key ≡ some e
    → HoldsOption e (evict (es ++ e ∷ []) m bytes)
unfolding evict
evict-HoldsOption [] e m bytes a small h =
    if_split (HoldsOption e) (ltb max_entries m.size || ltb max_bytes bytes)
      (λ over. absurd (unfold total in ground (arith, a.counted, a.summed))) (λ _. h)
evict-HoldsOption (x ∷ es) e m bytes a small h =
    if_split (HoldsOption e) (ltb max_entries m.size || ltb max_bytes bytes)
      (λ _.
        evict-HoldsOption es e (map_delete m x.key) (bytes - length x.raw)
          (Agrees-front m x (es ++ e ∷ []) bytes a) small kept)
      (λ _. h)
  where
    kept : (map_delete m x.key).find e.key ≡ some e
    kept = ground (
      arith,
      h,
      find_in-append_none x.key es e a.distinct.0,
      =ᵗ_iff x.key e.key,
      =ᵗ_iff e.key x.key,
    )

insert_entry-HoldsOption :
    (c : Cache) (e : Entry) → IsSound c → length e.raw ≤ max_item → HoldsOption e (insert_entry c e)
unfolding insert_entry
insert_entry-HoldsOption c e s small =
    evict-HoldsOption _ e _ _ (Agrees-insert c e (c.entries.find e.key) s.agrees refl) small
      (ground (arith, =ᵗ_refl e.key))

-- A lookup that matches the call finds an item exactly when the call has the item's signature, and
-- the blank signature matches nothing.
get_for_call-found :
    (d : Cache) (scope id call : Text) (e : Entry)
    → d.entries.find (cache_key scope id) ≡ some e
    → (get_for_call d scope id call).0
      ≡ (if not (is_nil call) && (e.call_fingerprint =ᵗ call) then some e.raw else none)
unfolding get_for_call get_matching get_found
get_for_call-found d scope id call e h = ground (arith, ap (λ o. get_found d call true o) h)

-- After a put, by a nonblank id and of at most 1 MiB, on a sound cache, the lookup under this scope
-- and id answers with the item; the lookup that must match a call answers with it exactly when the
-- call's signature is the one stored and not blank, and answers with nothing otherwise.
pub put-get :
    (c : Cache) (scope id raw signature : Text)
    → IsSound c
    → is_nil id ≡ false
    → length raw ≤ max_item
    → (d : Cache) × ((put c scope id (some raw) signature ≡ some d)
        × (((get d scope id).0 ≡ some raw)
            × ((call : Text)
                → (get_for_call d scope id call).0
                  ≡ (if not (is_nil call) && (signature =ᵗ call) then some raw else none))))
unfolding put
put-get c scope id raw signature s named small =
    result (put c scope id (some raw) signature) refl held
  where
    e : Entry
    e = record { key = cache_key scope id; raw = raw; call_fingerprint = signature }

    held : HoldsOption e (put c scope id (some raw) signature)
    held =
        if_split (HoldsOption e) (is_nil id || ltb max_item (length raw))
          (λ out. absurd (ground (arith, named, small))) (λ _. insert_entry-HoldsOption c e s small)

    result :
        (o : Option Cache)
        → put c scope id (some raw) signature ≡ o
        → HoldsOption e o
        → (d : Cache) × ((put c scope id (some raw) signature ≡ some d)
            × (((get d scope id).0 ≡ some raw)
                × ((call : Text)
                    → (get_for_call d scope id call).0
                      ≡ (if not (is_nil call) && (signature =ᵗ call) then some raw else none))))
    result none p h = absurd h
    result (some d) p h = (
      d,
      (
        p,
        (unfold get get_matching get_found in rw h, λ call. get_for_call-found d scope id call e h),
      ),
    )

abbrev pub Within : GoMap Entry → Text → Option Cache → Type 0
Within m k none = Unit
Within m k (some d) = (d.entries.find k ≡ none) ⊎ (d.entries.find k ≡ m.find k)

-- Eviction only takes entries away.
pub evict-Within :
    (es : List Entry) (m : GoMap Entry) (bytes : ℕ) (k : Text) → Within m k (evict es m bytes)
unfolding evict
evict-Within [] m bytes k =
    if_split (Within m k) (ltb max_entries m.size || ltb max_bytes bytes) (λ _. tt) (λ _. inr refl)
evict-Within (x ∷ es) m bytes k =
    if_split (Within m k) (ltb max_entries m.size || ltb max_bytes bytes)
      (λ _.
        widen (evict es (map_delete m x.key) (bytes - length x.raw))
          (evict-Within es (map_delete m x.key) (bytes - length x.raw) k))
      (λ _. inr refl)
  where
    widen : (o : Option Cache) → Within (map_delete m x.key) k o → Within m k o
    widen none w = tt
    widen (some d) (inl gone) = inl gone
    widen (some d) (inr same) = ground (arith)

-- No NUL byte.
abbrev pub NoNul : Text → Type 0
NoNul [] = Unit
NoNul (c ∷ s) = (0 < c) × NoNul s

-- The key of a scope without a NUL names the scope and the call.
cache_key-injective :
    (s t i j : Text) → NoNul s → NoNul t → cache_key s i ≡ cache_key t j → (s ≡ t) × (i ≡ j)
cache_key-injective [] [] i j hs ht p = ground (arith, p)
cache_key-injective [] (y ∷ t) i j hs ht p = absurd (ground (arith, ht.0, p))
cache_key-injective (x ∷ s) [] i j hs ht p = absurd (ground (arith, hs.0, p))
cache_key-injective (x ∷ s) (y ∷ t) i j hs ht p =
    ground (arith, cache_key-injective s t i j hs.1 ht.1)

raw_of : Option Entry → Option Text
raw_of none = none
raw_of (some e) = some e.raw

get_lem :
    (c : Cache) (scope id : Text)
    → (get c scope id).0 ≡ raw_of (c.entries.find (cache_key scope id))
unfolding get get_matching get_found raw_of
get_lem c scope id = found (c.entries.find (cache_key scope id))
  where
    found : (o : Option Entry) → (get_found c [] false o).0 ≡ raw_of o
    found none = refl
    found (some e) = refl

pub put-Within :
    (c : Cache) (scope id : Text) (item : Option Text) (signature k : Text)
    → (cache_key scope id =ᵗ k) ≡ false
    → Within c.entries k (put c scope id item signature)
unfolding put insert_entry drop_old
put-Within c scope id none signature k h = inr refl
put-Within c scope id (some raw) signature k h =
    if_split (Within c.entries k) (is_nil id || ltb max_item (length raw)) (λ _. inr refl)
      (λ _. narrow (c.entries.find (cache_key scope id)))
  where
    e : Entry
    e = record { key = cache_key scope id; raw = raw; call_fingerprint = signature }

    kept : (o : Option Cache) → Within (map_set c.entries e.key e) k o → Within c.entries k o
    kept none w = tt
    kept (some d) (inl gone) = inl gone
    kept (some d) (inr same) = ground (arith, h)

    narrow :
        (o : Option Entry)
        → Within c.entries k (
            let d = drop_old c e.key o in
            evict (d.order ++ e ∷ []) (map_set d.entries e.key e) (d.bytes + length e.raw))
    narrow none = kept _ (evict-Within _ _ _ k)
    narrow (some old) = kept _ (evict-Within _ _ _ k)

-- A put answers no other call: under another scope or another id, scopes having no NUL byte, the
-- lookup afterwards finds what it found before, or nothing any more (the item was evicted).
pub put-elsewhere :
    (c d : Cache) (scope id : Text) (item : Option Text) (signature other call : Text)
    → NoNul scope
    → NoNul other
    → ((scope ≡ other) × (id ≡ call) → ⊥)
    → put c scope id item signature ≡ some d
    → ((get d other call).0 ≡ none) ⊎ ((get d other call).0 ≡ (get c other call).0)
unfolding raw_of
put-elsewhere c d scope id item signature other call hs ho apart p = answer (
    subst (Within c.entries (cache_key other call)) p
      (put-Within c scope id item signature (cache_key other call) differ))
  where
    differ : (cache_key scope id =ᵗ cache_key other call) ≡ false
    differ =
        =ᵗ_ne (cache_key scope id) (cache_key other call)
          (λ same. apart (cache_key-injective scope other id call hs ho same))

    answer :
        (d.entries.find (cache_key other call) ≡ none)
          ⊎ (d.entries.find (cache_key other call) ≡ c.entries.find (cache_key other call))
        → ((get d other call).0 ≡ none) ⊎ ((get d other call).0 ≡ (get c other call).0)
    answer (inl gone) = inl (get_lem d other call ∙ ap raw_of gone)
    answer (inr same) = inr (get_lem d other call ∙ ap raw_of same ∙ sym (get_lem c other call))
