-- ===== src/Replay/Stored.antt =====
-- Laws of the items that the replay cache holds (basispoints/tools.go): what all of them satisfy,
-- all of them satisfy after a put and after a lookup.
use cliproxyapi_plugin_basis.Common.{
  ℕ, ◌+◌, ◌≡◌, refl, sym, ◌∙◌, subst, Bool, ◌&&◌, ◌||◌, not, Option, none, some, List, [], ◌∷◌,
  ◌++◌, arith, inl, inr, if_split, length, ltb, is_nil, Bool-cases,
}
use cliproxyapi_plugin_basis.Common.Text.{Text, ◌=ᵗ◌, =ᵗ_iff}
use cliproxyapi_plugin_basis.Replay.{
  Entry, GoMap, Cache, map_set, max_item, cache_key, evict, drop_old, insert_entry, put, get_found,
  get_matching,
}
use cliproxyapi_plugin_basis.Replay.Lookup.{Within, evict-Within}

-- A law of the keys and the entries under them.
abbrev pub Everything : (Text → Entry → Type 0) → GoMap Entry → Type 0
Everything P m = (k : Text) (e : Entry) → m.find k ≡ some e → P k e

module _ (P : Text → Entry → Type 0) where
  abbrev Stored : Option Cache → Type 0
  Stored none = Unit
  Stored (some d) = Everything P d.entries

  set_lem :
      (m : GoMap Entry) (key : Text) (new : Entry)
      → P key new
      → Everything P m
      → Everything P (map_set m key new)
  set_lem m key new h all k e found = elim (Bool-cases (key =ᵗ k)) [
    | inl same ↦ at_key ((=ᵗ_iff key k).0 same) (ground (arith, found, same))
    | inr other ↦ all k e (ground (arith, found, other))
  ]
    where
      at_key : key ≡ k → new ≡ e → P k e
      at_key p q = rw (← p, ← q) h

  evict_lem :
      (es : List Entry) (m : GoMap Entry) (bytes : ℕ) → Everything P m → Stored (evict es m bytes)
  evict_lem es m bytes all = narrowed (evict es m bytes) (λ k. evict-Within es m bytes k)
    where
      narrowed : (o : Option Cache) → ((k : Text) → Within m k o) → Stored o
      narrowed none w = tt
      narrowed (some d) w =
          λ k e found. elim (w k) [ inl gone ↦ absurd (cc) | inr same ↦ all k e (sym same ∙ found) ]

  insert_lem :
      (c : Cache) (new : Entry)
      → P new.key new
      → Everything P c.entries
      → Stored (insert_entry c new)
  unfolding insert_entry drop_old
  insert_lem c new h all = dropped (c.entries.find new.key)
    where
      dropped :
          (o : Option Entry)
          → Stored (
              let d = drop_old c new.key o in
              evict
                (d.order ++ new ∷ [])
                (map_set d.entries new.key new)
                (d.bytes + length new.raw))
      dropped none = evict_lem _ _ _ (set_lem c.entries new.key new h all)
      dropped (some old) = evict_lem _ _ _ (set_lem c.entries new.key new h all)

  -- After a put of an entry that satisfies the law.
  pub put-Everything :
      (c d : Cache) (scope id raw signature : Text)
      → P
          (cache_key scope id)
          (record { key = cache_key scope id; raw = raw; call_fingerprint = signature })
      → Everything P c.entries
      → put c scope id (some raw) signature ≡ some d
      → Everything P d.entries
  unfolding put
  put-Everything c d scope id raw signature h all p = subst Stored p (
      if_split Stored (is_nil id || ltb max_item (length raw)) (λ _. all)
        (λ _. insert_lem c _ h all))

  -- A lookup answers with the JSON of an entry that satisfies the law, and leaves the entries.
  pub get_matching-Everything :
      (c : Cache) (scope id signature : Text) (required : Bool)
      → Everything P c.entries
      → ((raw : Text)
          → (get_matching c scope id signature required).0 ≡ some raw
          → (e : Entry) × P (cache_key scope id) e × (e.raw ≡ raw))
        × Everything P (get_matching c scope id signature required).1.entries
  unfolding get_matching get_found
  get_matching-Everything c scope id signature required all =
      found (c.entries.find (cache_key scope id)) refl
    where
      nothing :
          (raw : Text)
          → ◌≡◌ {A = Option Text} none (some raw)
          → (e : Entry) × P (cache_key scope id) e × (e.raw ≡ raw)
      nothing raw h = absurd (cc)

      found :
          (o : Option Entry)
          → c.entries.find (cache_key scope id) ≡ o
          → ((raw : Text)
              → (get_found c signature required o).0 ≡ some raw
              → (e : Entry) × P (cache_key scope id) e × (e.raw ≡ raw))
            × Everything P (get_found c signature required o).1.entries
      found none p = (nothing, all)
      found (some e) p =
          if_split {A = Option Text × Cache}
            (λ r.
              ((raw : Text)
                → r.0 ≡ some raw
                → (e : Entry) × P (cache_key scope id) e × (e.raw ≡ raw))
              × Everything P r.1.entries)
            (required && not (e.call_fingerprint =ᵗ signature)) (λ _. (nothing, all))
            (λ _. (λ raw h. (e, all _ e p, ground (arith, h)), all))
