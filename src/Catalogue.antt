-- ===== src/Catalogue.antt =====
-- The list of models that the plugin offers the host: `modelInfos` of basispoints/config.go.
use cliproxyapi_plugin_basis.Common.{
  ℕ, ◌≡◌, refl, sym, ap, subst, ◌∙◌, Bool, true, false, List, [], ◌∷◌, arith, if_split, map,
  count_if,
}
use cliproxyapi_plugin_basis.Common.Text.{Text, lit, ◌=ᵗ◌}
use cliproxyapi_plugin_basis.Common.Assoc.{Assoc}
use cliproxyapi_plugin_basis.Config.{Config}
use cliproxyapi_plugin_basis.Scheduler.{sort, insert_sorted, text_le}

-- `pluginapi.ModelInfo`, as far as it is set.
pub record ModelInfo : Type 0 where
  pub id : Text
  pub object : Text
  pub owned_by : Text
  pub kind : Text
  pub display_name : Text
  pub name : Text
  pub description : Text
  pub thinking_levels : List Text
  pub methods : List Text
  pub user_defined : Bool

abbrev pub model_info : Text → ModelInfo
model_info name = record {
  id = name;
  object = lit "model";
  owned_by = lit "openai";
  kind = lit "chat";
  display_name = name;
  name = name;
  description = lit "Basis Points responses model";
  thinking_levels = lit "minimal" ∷ lit "low" ∷ lit "medium" ∷ lit "high" ∷ lit "xhigh" ∷ [];
  methods = lit "responses" ∷ lit "chat" ∷ [];
  user_defined = true;
}

-- The names in the table of models.
abbrev pub table_names : Assoc Text → List Text
table_names [] = []
table_names ((key, name) ∷ models) = name ∷ table_names models

unfoldable pub model_infos : Config → List ModelInfo
model_infos c = map model_info (sort (table_names c.models))

abbrev pub ids : List ModelInfo → List Text
ids [] = []
ids (info ∷ infos) = info.id ∷ ids infos

-- Ascending by bytes.
abbrev pub Ascending : List Text → Type 0
Ascending [] = Unit
Ascending (x ∷ []) = Unit
Ascending (x ∷ y ∷ r) = (text_le x y ≡ true) × Ascending (y ∷ r)

text_le_total : (x y : Text) → text_le x y ≡ false → text_le y x ≡ true
unfolding text_le
text_le_total [] y h = absurd (cc)
text_le_total (a ∷ x) [] h = refl
text_le_total (a ∷ x) (b ∷ y) h = ground (arith, h, text_le_total x y)

Ascending-rest : (y : Text) (r : List Text) → Ascending (y ∷ r) → Ascending r
Ascending-rest y [] h = tt
Ascending-rest y (z ∷ r) h = h.1

Ascending-first :
    (x y : Text) (r : List Text)
    → text_le y x ≡ true
    → Ascending (y ∷ r)
    → Ascending (insert_sorted x r)
    → Ascending (y ∷ insert_sorted x r)
unfolding insert_sorted
Ascending-first x y [] e h = λ a. (e, tt)
Ascending-first x y (z ∷ r) e h =
    if_split (λ t. Ascending t → Ascending (y ∷ t)) (text_le x z) (λ _ a. (e, a)) (λ _ a. (h.0, a))

insert_sorted-Ascending : (x : Text) (r : List Text) → Ascending r → Ascending (insert_sorted x r)
unfolding insert_sorted
insert_sorted-Ascending x [] h = tt
insert_sorted-Ascending x (y ∷ r) h =
    if_split Ascending (text_le x y) (λ e. (e, h))
      (λ e.
        Ascending-first x y r (text_le_total x y e) h
          (insert_sorted-Ascending x r (Ascending-rest y r h)))

sort-Ascending : (r : List Text) → Ascending (sort r)
unfolding sort
sort-Ascending [] = tt
sort-Ascending (x ∷ r) = insert_sorted-Ascending x (sort r) (sort-Ascending r)

-- How often a name is in a list.
abbrev pub times : Text → List Text → ℕ
times k names = count_if (λ n. n =ᵗ k) names

times-insert_sorted : (k x : Text) (r : List Text) → times k (insert_sorted x r) ≡ times k (x ∷ r)
unfolding insert_sorted count_if
times-insert_sorted k x [] = refl
times-insert_sorted k x (y ∷ r) = ground (arith, times-insert_sorted k x r)

times-sort : (k : Text) (r : List Text) → times k (sort r) ≡ times k r
unfolding sort count_if
times-sort k [] = refl
times-sort k (x ∷ r) = times-insert_sorted k x (sort r) ∙ ground (arith, times-sort k r)

ids-map : (r : List Text) → ids (map model_info r) ≡ r
ids-map [] = refl
ids-map (x ∷ r) = ap (λ t. x ∷ t) (ids-map r)

-- The models offered to the host are the names of the table, each as often as the table has it, in
-- ascending order.
pub model_infos-Ascending :
    (c : Config)
    → Ascending (ids (model_infos c))
      × ((k : Text) → times k (ids (model_infos c)) ≡ times k (table_names c.models))
unfolding model_infos
model_infos-Ascending c = (
  subst Ascending (sym (ids-map (sort (table_names c.models))))
      (sort-Ascending (table_names c.models)),
  λ k. ap (times k) (ids-map (sort (table_names c.models))) ∙ times-sort k (table_names c.models),
)
