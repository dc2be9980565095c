-- ===== src/Replay.antt =====
-- `ReplayCache` of basispoints/tools.go: the native tool items of past turns, by scope and call, in
-- the order of their last use.
pub mod Order
pub mod Invariant
pub mod Lookup
pub mod Stored
pub mod Recency
use cliproxyapi_plugin_basis.Common.{
  ℕ, zero, suc, ◌+◌, ◌-◌, ◌*◌, ◌^◌, Bool, true, false, not, ◌&&◌, ◌||◌, Option, none, some, List,
  [], ◌∷◌, ◌++◌, is_nil, ltb, if◌then◌else◌, length,
}
use cliproxyapi_plugin_basis.Common.Text.{Text, ◌=ᵗ◌}

-- `replayEntry`
pub record Entry : Type 0 where
  pub key : Text
  pub raw : Text
  pub call_fingerprint : Text

-- A Go map: what it holds under each key, and how many keys it has.
pub record GoMap (V : Type 0) : Type 0 where
  pub find : Text → Option V
  pub size : ℕ

abbrev pub is_some : Option Entry → Bool
is_some none = false
is_some (some e) = true

abbrev pub map_set : GoMap Entry → Text → Entry → GoMap Entry
map_set m k v = record {
  find = λ j. if k =ᵗ j then some v else m.find j;
  size = if is_some (m.find k) then m.size else m.size + 1;
}

abbrev pub map_delete : GoMap Entry → Text → GoMap Entry
map_delete m k = record {
  find = λ j. if k =ᵗ j then none else m.find j;
  size = if is_some (m.find k) then m.size - 1 else m.size;
}

-- `order` has the entry that was used longest ago in front.
pub record Cache : Type 0 where
  pub entries : GoMap Entry
  pub order : List Entry
  pub bytes : ℕ

unfoldable pub empty : Cache
empty = record { entries = record { find = λ _. none; size = 0 }; order = []; bytes = 0 }

-- `order.Remove`, for the element that holds the key.
unfoldable pub remove_key : Text → List Entry → List Entry
remove_key k [] = []
remove_key k (e ∷ es) = let rest = remove_key k es in if e.key =ᵗ k then es else e ∷ rest

abbrev pub max_item : ℕ
max_item = 2 ^ 20

abbrev pub max_entries : ℕ
max_entries = 1024

abbrev pub max_bytes : ℕ
max_bytes = 16 * 2 ^ 20

-- The key of an item: the scope, a NUL and the call.
abbrev pub cache_key : Text → Text → Text
cache_key scope id = scope ++ (0 ∷ id)

-- `for len(c.entries) > 1024 || c.bytes > 16<<20 { … }`; `none` is the fault of the loop body
-- on an empty list.
unfoldable pub evict : List Entry → GoMap Entry → ℕ → Option Cache
evict [] m bytes =
    if ltb max_entries m.size || ltb max_bytes bytes
    then none
    else some (record { entries = m; order = []; bytes = bytes })
evict (old ∷ rest) m bytes =
    let later = evict rest (map_delete m old.key) (bytes - length old.raw) in
    if ltb max_entries m.size || ltb max_bytes bytes
    then later
    else some (record { entries = m; order = old ∷ rest; bytes = bytes })

-- `if old := c.entries[key]; old != nil { … }`
unfoldable pub drop_old : Cache → Text → Option Entry → Cache
drop_old c key none = c
drop_old c key (some old) = record c {
  bytes = c.bytes - length old.raw;
  order = remove_key key c.order;
}

unfoldable pub insert_entry : Cache → Entry → Option Cache
unfolding drop_old
insert_entry c e =
    let d = drop_old c e.key (c.entries.find e.key) in
    evict (d.order ++ e ∷ []) (map_set d.entries e.key e) (d.bytes + length e.raw)

-- `put`, given the JSON of the item, if it has one, and the signature of the client's call.
unfoldable pub put : Cache → Text → Text → Option Text → Text → Option Cache
unfolding insert_entry
put c scope id none signature = some c
put c scope id (some raw) signature =
    if is_nil id || ltb max_item (length raw)
    then some c
    else insert_entry c
        (record { key = cache_key scope id; raw = raw; call_fingerprint = signature })

unfoldable pub get_found : Cache → Text → Bool → Option Entry → Option Text × Cache
get_found c signature required none = (none, c)
get_found c signature required (some cached) =
    if required && not (cached.call_fingerprint =ᵗ signature)
    then (none, c)
    else (some cached.raw, record c { order = remove_key cached.key c.order ++ cached ∷ [] })

-- `getMatching`: the JSON that the caller decodes, and the cache with the entry moved to the back.
unfoldable pub get_matching : Cache → Text → Text → Text → Bool → Option Text × Cache
unfolding get_found
get_matching c scope id signature required =
    get_found c signature required (c.entries.find (cache_key scope id))

-- `get`
unfoldable pub get : Cache → Text → Text → Option Text × Cache
unfolding get_matching
get c scope id = get_matching c scope id [] false

-- `getForCall`, for a call whose fingerprint is `signature`; the blank one matches nothing.
unfoldable pub get_for_call : Cache → Text → Text → Text → Option Text × Cache
unfolding get_matching
get_for_call c scope id signature =
    if is_nil signature then (none, c) else get_matching c scope id signature true
