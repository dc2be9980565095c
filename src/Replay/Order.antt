-- ===== src/Replay/Order.antt =====
-- Lists of entries with distinct keys.
use cliproxyapi_plugin_basis.Common.{
  ℕ, ◌+◌, ◌≡◌, refl, false, Option, none, some, List, [], ◌∷◌, ◌++◌, arith, length, if◌then◌else◌,
}
use cliproxyapi_plugin_basis.Common.Text.{Text, ◌=ᵗ◌, =ᵗ_iff}
use cliproxyapi_plugin_basis.Replay.{Entry, remove_key}

unfoldable pub find_in : Text → List Entry → Option Entry
find_in k [] = none
find_in k (e ∷ es) = if e.key =ᵗ k then some e else find_in k es

unfoldable pub total : List Entry → ℕ
total [] = 0
total (e ∷ es) = length e.raw + total es

-- No two entries have one key.
abbrev pub Distinct : List Entry → Type 0
Distinct [] = Unit
Distinct (e ∷ es) = (find_in e.key es ≡ none) × Distinct es

pub find_in-remove_key :
    (k j : Text) (es : List Entry)
    → Distinct es
    → find_in j (remove_key k es) ≡ (if k =ᵗ j then none else find_in j es)
unfolding find_in remove_key
find_in-remove_key k j [] d = ground arith
find_in-remove_key k j (e ∷ es) d =
    ground (arith, d.0, find_in-remove_key k j es d.1, =ᵗ_iff e.key k, =ᵗ_iff e.key j, =ᵗ_iff k j)

pub remove_key-Distinct : (k : Text) (es : List Entry) → Distinct es → Distinct (remove_key k es)
unfolding remove_key
remove_key-Distinct k [] d = tt
remove_key-Distinct k (e ∷ es) d =
    ground (arith, remove_key-Distinct k es d.1, find_in-remove_key k e.key es d.1)

pub length-remove_key :
    (k : Text) (es : List Entry) (e : Entry)
    → find_in k es ≡ some e
    → length (remove_key k es) + 1 ≡ length es
unfolding find_in remove_key
length-remove_key k [] e h = cc
length-remove_key k (x ∷ es) e h = ground (arith, length-remove_key k es e)

pub total-remove_key :
    (k : Text) (es : List Entry) (e : Entry)
    → find_in k es ≡ some e
    → total (remove_key k es) + length e.raw ≡ total es
unfolding find_in remove_key total
total-remove_key k [] e h = cc
total-remove_key k (x ∷ es) e h = ground (arith, total-remove_key k es e)

pub find_in-append :
    (k : Text) (es : List Entry) (e : Entry)
    → find_in e.key es ≡ none
    → find_in k (es ++ e ∷ []) ≡ (if e.key =ᵗ k then some e else find_in k es)
unfolding find_in
find_in-append k [] e h = refl
find_in-append k (x ∷ es) e h =
    ground (arith, find_in-append k es e, =ᵗ_iff x.key k, =ᵗ_iff e.key k, =ᵗ_iff x.key e.key)

pub append-Distinct :
    (es : List Entry) (e : Entry) → find_in e.key es ≡ none → Distinct es → Distinct (es ++ e ∷ [])
unfolding find_in
append-Distinct [] e h d = (refl, tt)
append-Distinct (x ∷ es) e h d =
    ground (
      arith,
      append-Distinct es e,
      find_in-append x.key es e,
      =ᵗ_iff x.key e.key,
      =ᵗ_iff e.key x.key,
    )

pub total-append : (es : List Entry) (e : Entry) → total (es ++ e ∷ []) ≡ total es + length e.raw
unfolding total
total-append [] e = omega arith
total-append (x ∷ es) e = omega (arith, total-append es e)

pub find_in_key : (k : Text) (es : List Entry) (e : Entry) → find_in k es ≡ some e → e.key ≡ k
unfolding find_in
find_in_key k [] e h = absurd (cc)
find_in_key k (x ∷ es) e h = ground (arith, find_in_key k es e, =ᵗ_iff x.key k)

pub find_in-append_none :
    (k : Text) (es : List Entry) (e : Entry)
    → find_in k (es ++ e ∷ []) ≡ none
    → (e.key =ᵗ k) ≡ false
unfolding find_in
find_in-append_none k [] e h = ground (arith)
find_in-append_none k (x ∷ es) e h = ground (arith, find_in-append_none k es e)
