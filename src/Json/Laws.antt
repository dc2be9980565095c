-- ===== src/Json/Laws.antt =====
-- The laws of the fields of an object.
use cliproxyapi_plugin_basis.Common.{◌≡◌, refl, false, List, [], ◌∷◌, arith, if◌then◌else◌}
use cliproxyapi_plugin_basis.Common.Text.{Text, ◌=ᵗ◌, =ᵗ_iff, =ᵗ_refl}
use cliproxyapi_plugin_basis.Json.{Json, Fields, end, entry, to_list, of_list, get_field, set_field}

pub to_list-of_list : (vs : List Json) → to_list (of_list vs) ≡ vs
to_list-of_list [] = refl
to_list-of_list (v ∷ vs) = cc (to_list-of_list vs)

pub get_field-set_field :
    (k j : Text) (v : Json) (fs : Fields)
    → get_field j (set_field k v fs) ≡ (if k =ᵗ j then v else get_field j fs)
unfolding get_field set_field
get_field-set_field k j v end = refl
get_field-set_field k j v (entry i w fs) =
    ground (arith, =ᵗ_iff k j, =ᵗ_iff i k, =ᵗ_iff i j, get_field-set_field k j v fs)

pub get_field-set_field_self :
    (k : Text) (v : Json) (fs : Fields) → get_field k (set_field k v fs) ≡ v
get_field-set_field_self k v fs = ground (arith, get_field-set_field k k v fs, =ᵗ_refl k)

pub get_field-set_field_ne :
    (k j : Text) (v : Json) (fs : Fields)
    → (k =ᵗ j) ≡ false
    → get_field j (set_field k v fs) ≡ get_field j fs
get_field-set_field_ne k j v fs h = ground (arith, h, get_field-set_field k j v fs)
