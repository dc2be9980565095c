-- ===== src/Tools/History/Originals.antt =====
-- The native items that the replay cache holds for the calls of one scope (basispoints/tools.go).
use cliproxyapi_plugin_basis.Common.{
  Bool, true, false, Option, none, some, [], ◌∷◌, ◌≡◌, refl, ◌∙◌, subst, arith, is_nil, if_split,
  Result, ok, err, ◌>>=◌, >>=-All, guard-All, ◌&&◌,
}
use cliproxyapi_plugin_basis.Common.Text.{Text, lit, ◌=ᵗ◌}
use cliproxyapi_plugin_basis.Json.{
  object, Fields, text_at, find_field, ltb_text, get_field, set_field, object_of, Coding,
}
use cliproxyapi_plugin_basis.Replay.{Entry, Cache, cache_key, put, get, get_for_call, get_matching}
use cliproxyapi_plugin_basis.Replay.Stored.{Everything, put-Everything, get_matching-Everything}
use cliproxyapi_plugin_basis.Tools.{
  Bridge, ToolError, incomplete_call, bad_namespace, cache_fault, has_name, namespace_value,
  is_tool, native_item, replay_answer, replay_put, replay_get,
}
use cliproxyapi_plugin_basis.Tools.History.{
  call_payload, namespace_or, rebuilt_item, rebuild_native_history_call, history_call_fingerprint,
  replay_get_for_call, native_or_rebuilt, native_call,
}
use cliproxyapi_plugin_basis.Tools.History.Paired.{IsCallOf}
use cliproxyapi_plugin_basis.Tools.Calls.Relayed.{IfOk}

-- The JSON of an entry is that of a call of a tool, with the identifier that the key has.
abbrev pub IsOriginal : Coding → Text → Text → Entry → Type 0
IsOriginal k scope key e =
    (id : Text)
    → key ≡ cache_key scope id
    → (native : Fields) × (k.decode e.raw ≡ some (object native)) × IsCallOf id (object native)

-- All that the cache holds for the scope are such items.
abbrev pub HoldsOriginals : Coding → Text → Option Cache → Type 0
HoldsOriginals k scope none = Unit
HoldsOriginals k scope (some c) = Everything (IsOriginal k scope) c.entries

cache_key-right : (scope i j : Text) → cache_key scope i ≡ cache_key scope j → i ≡ j
cache_key-right [] i j h = ground (arith, h)
cache_key-right (c ∷ scope) i j h = ground (arith, cache_key-right scope i j)

-- What a lookup that answers with an item leaves.
abbrev pub FindsOriginal : Coding → Bridge → Text → Option Fields × Bridge → Type 0
FindsOriginal k b id (found, b') =
    ((native : Fields) → found ≡ some native → IsCallOf id (object native))
    × HoldsOriginals k b'.scope b'.replay
    × (b'.scope ≡ b.scope)

native_item-some :
    (k : Coding) (raw : Text) (stored native : Fields)
    → k.decode raw ≡ some (object stored)
    → native_item k (some raw) ≡ some native
    → stored ≡ native
native_item-some k raw stored native d h = ground (arith, d, h)

module _ (k : Coding) (b : Bridge) (id : Text) where
  nothing_found :
      (native : Fields) → ◌≡◌ {A = Option Fields} none (some native) → IsCallOf id (object native)
  nothing_found native h = absurd (cc)

  answer_lem :
      (c : Cache) (signature : Text) (required : Bool)
      → Everything (IsOriginal k b.scope) c.entries
      → FindsOriginal k b id (replay_answer k b (get_matching c b.scope id signature required))
  answer_lem c signature required all =
      let (answer, kept) =
        get_matching-Everything (IsOriginal k b.scope) c b.scope id signature required all in
      (read (get_matching c b.scope id signature required).0 answer, kept, refl)
    where
      decoded :
          (raw : Text)
          → (e : Entry) × IsOriginal k b.scope (cache_key b.scope id) e × (e.raw ≡ raw)
          → (native : Fields) → native_item k (some raw) ≡ some native
          → IsCallOf id (object native)
      decoded raw (e, is, same) native h =
          let (stored, d, call) = is id refl in
          subst (λ n. IsCallOf id (object n))
            (native_item-some k raw stored native
              (subst (λ r. k.decode r ≡ some (object stored)) same d) h)
            call

      read :
          (o : Option Text)
          → ((raw : Text)
              → o ≡ some raw
              → (e : Entry) × IsOriginal k b.scope (cache_key b.scope id) e × (e.raw ≡ raw))
          → (native : Fields) → native_item k o ≡ some native
          → IsCallOf id (object native)
      read none f native h = absurd (cc)
      read (some raw) f native h = decoded raw (f raw refl) native h

  pub replay_get-FindsOriginal :
      HoldsOriginals k b.scope b.replay → FindsOriginal k b id (replay_get k b id)
  unfolding replay_get get
  replay_get-FindsOriginal = found b.replay refl
    where
      found :
          (o : Option Cache)
          → b.replay ≡ o
          → HoldsOriginals k b.scope o
          → FindsOriginal k b id
              (elim o [ none ↦ (none, b) | some c ↦ replay_answer k b (get c b.scope id) ])
      found none p h = (nothing_found, rw p tt, refl)
      found (some c) p h = answer_lem c [] false h

  replay_get_for_call-FindsOriginal :
      (item : Fields)
      → HoldsOriginals k b.scope b.replay
      → FindsOriginal k b id (replay_get_for_call k b id item)
  unfolding replay_get_for_call get_for_call
  replay_get_for_call-FindsOriginal item = found b.replay refl
    where
      signature : Text
      signature = history_call_fingerprint k item

      found :
          (o : Option Cache)
          → b.replay ≡ o
          → HoldsOriginals k b.scope o
          → FindsOriginal k b id (elim o [
            | none ↦ (none, b)
            | some c ↦ replay_answer k b (get_for_call c b.scope id signature)
          ])
      found none p h = (nothing_found, rw p tt, refl)
      found (some c) p h =
          if_split (λ r. FindsOriginal k b id (replay_answer k b r)) (is_nil signature)
            (λ _. (nothing_found, h, refl)) (λ _. answer_lem c signature true h)

-- The encoder's text of the item that is rebuilt of a call, if one is, is read back as the item.
abbrev pub ReadsRebuilt : Coding → Fields → Type 0
ReadsRebuilt k item =
    (native : Fields)
    → rebuild_native_history_call k item ≡ ok native
    → k.decode (k.encode (object native)) ≡ some (object native)

rebuilt_item-IsCallOf :
    (k : Coding) (item : Fields) (id arguments : Text)
    → IsCallOf id (object (rebuilt_item k item id arguments))
unfolding is_tool text_at get_field set_field object_of lit ◌=ᵗ◌ ltb_text
rebuilt_item-IsCallOf k item id arguments = (refl, refl)

rebuild-IsCallOf :
    (k : Coding) (item : Fields)
    → IfOk
        (λ native. IsCallOf (text_at (lit "call_id") item) (object native))
        (rebuild_native_history_call k item)
unfolding rebuild_native_history_call
rebuild-IsCallOf k item =
    guard-All P (has_name (text_at (lit "call_id") item) && has_name (text_at (lit "name") item))
      incomplete_call _ tt
      (λ _.
        >>=-All P (namespace_or bad_namespace (namespace_value (find_field (lit "namespace") item)))
          _ (λ e. tt)
          (λ ns _.
            >>=-All P (call_payload k item) _ (λ e. tt)
              (λ payload _. rebuilt_item-IsCallOf k item _ _)))
  where
    P : Result ToolError Fields → Type 0
    P = IfOk (λ native. IsCallOf (text_at (lit "call_id") item) (object native))

-- After a put of a native item under its identifier.
abbrev KeepsOriginals : Coding → Bridge → Bridge → Type 0
KeepsOriginals k b b' = HoldsOriginals k b'.scope b'.replay × (b'.scope ≡ b.scope)

replay_put-KeepsOriginals :
    (k : Coding) (b : Bridge) (id : Text) (native : Fields) (signature : Text)
    → k.decode (k.encode (object native)) ≡ some (object native)
    → IsCallOf id (object native)
    → HoldsOriginals k b.scope b.replay
    → IfOk (KeepsOriginals k b) (replay_put k b id native signature)
unfolding replay_put
replay_put-KeepsOriginals k b id native signature reads call = held b.replay refl
  where
    raw : Text
    raw = k.encode (object native)

    new : Entry
    new = record { key = cache_key b.scope id; raw = raw; call_fingerprint = signature }

    original : IsOriginal k b.scope (cache_key b.scope id) new
    original j p = (
      native,
      reads,
      subst (λ i. IsCallOf i (object native)) (cache_key-right b.scope id j p) call,
    )

    stored :
        (c : Cache) (o : Option Cache)
        → put c b.scope id (some raw) signature ≡ o
        → Everything (IsOriginal k b.scope) c.entries
        → IfOk {A = Bridge}
            (KeepsOriginals k b)
            (elim o [ none ↦ err cache_fault | some d ↦ ok (record b { replay = some d }) ])
    stored c none p all = tt
    stored c (some d) p all =
        (put-Everything (IsOriginal k b.scope) c d b.scope id raw signature original all p, refl)

    held :
        (o : Option Cache)
        → b.replay ≡ o
        → HoldsOriginals k b.scope o
        → IfOk {A = Bridge} (KeepsOriginals k b) (elim o [
          | none ↦ ok b
          | some c ↦ elim (put c b.scope id (some raw) signature) [
            | none ↦ err cache_fault
            | some d ↦ ok (record b { replay = some d })
          ]
        ])
    held none p h = (rw p tt, refl)
    held (some c) p h = stored c (put c b.scope id (some raw) signature) refl h

abbrev pub IsNativeCall : Coding → Bridge → Text → Fields × Bridge → Type 0
IsNativeCall k b id (native, b') =
    IsCallOf id (object native) × HoldsOriginals k b'.scope b'.replay × (b'.scope ≡ b.scope)

-- The native item of a call of the history has the call's identifier.
pub native_call-IsNativeCall :
    (k : Coding) (item : Fields) (b : Bridge)
    → ReadsRebuilt k item
    → HoldsOriginals k b.scope b.replay
    → IfOk
        (IsNativeCall k b (text_at (lit "call_id") item))
        (native_call k (text_at (lit "call_id") item) item b)
unfolding native_call
native_call-IsNativeCall k item b reads h =
    found (replay_get_for_call k b id item) (replay_get_for_call-FindsOriginal k b id item h)
  where
    id : Text
    id = text_at (lit "call_id") item

    put_lem :
        (native : Fields) (b' : Bridge)
        → b'.scope ≡ b.scope
        → rebuild_native_history_call k item ≡ ok native
        → IsCallOf id (object native)
        → HoldsOriginals k b'.scope b'.replay
        → IfOk (IsNativeCall k b id) (
            replay_put k b' id native (history_call_fingerprint k item) >>= λ b''. ok (native, b''))
    put_lem native b' same p call held =
        >>=-All (IfOk (IsNativeCall k b id)) (replay_put k b' id native _) _ (λ e. tt)
          (λ b'' q.
            let (kept, scope) =
              subst (IfOk (KeepsOriginals k b')) q
                (replay_put-KeepsOriginals k b' id native _ (reads native p) call held) in
            (call, kept, scope ∙ same))

    found :
        (r : Option Fields × Bridge)
        → FindsOriginal k b id r
        → IfOk (IsNativeCall k b id) (native_or_rebuilt k id item r)
    found (some native, b') (is, held, same) = (is native refl, held, same)
    found (none, b') (is, held, same) =
        >>=-All (IfOk (IsNativeCall k b id)) (rebuild_native_history_call k item) _ (λ e. tt)
          (λ native p.
            put_lem native b' same p
              (subst (IfOk (λ n. IsCallOf id (object n))) p (rebuild-IsCallOf k item)) held)
