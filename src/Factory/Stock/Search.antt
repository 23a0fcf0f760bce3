-- ===== src/Factory/Stock/Search.antt =====
-- The search through the indices, and the search through all items.
use mathlib.Core.List.{map-append}
use ocremote.Base.{
  ◌≡◌, refl, sym, ap, ◌∙◌, inl, inr, Bool, true, ◌&&◌, Option, none, List, [], ◌∷◌, ◌++◌, map, Text,
  text_eq, arith, Bool-cases, Option-cases,
}
use ocremote.Serialize.Value.{Doubles}
use ocremote.Item.{Item, ItemFilter, item_eq, matches}
use ocremote.Factory.ItemInfo.{ItemInfo, Provider}
use ocremote.Factory.Stock.{
  Stock, find_info, modify_info, get_or_add_item_info, add_item_provider, visit_range, visit_items,
  get_item,
}

module _ (F : Doubles) where
  open F use {Double}

  -- The indices have each stored item, in the order of the items.
  pub record IsIndexed (s : Stock F) : Type 0 where
    pub by_name : s.name_map ≡ map (λ e. (e.0.name, e.0)) s.items
    pub by_label : s.label_map ≡ map (λ e. (e.0.label, e.0)) s.items

  -- A change of the values leaves the keys as they are.
  map-modify_info {ℓ} :
      {B : Type ℓ} (g : Item Double → B) (item : Item Double) (f : ItemInfo → ItemInfo)
      (items : List (Item Double × ItemInfo))
      → map (λ e. g e.0) (modify_info F item f items) ≡ map (λ e. g e.0) items
  unfolding modify_info
  map-modify_info g item f [] = refl
  map-modify_info g item f ((key, info) ∷ rest) = elim (Bool-cases (item_eq F key item)) [
    | inl e ↦ rw e
    | inr e ↦ rw e (ap (◌∷◌ (g key)) (map-modify_info g item f rest))
  ]

  modify_info-IsIndexed :
      (s : Stock F) (item : Item Double) (f : ItemInfo → ItemInfo)
      → IsIndexed s
      → IsIndexed (record s { items = modify_info F item f s.items })
  modify_info-IsIndexed s item f v = record {
    by_name = v.by_name ∙ sym (map-modify_info (λ x. (x.name, x)) item f s.items);
    by_label = v.by_label ∙ sym (map-modify_info (λ x. (x.label, x)) item f s.items);
  }

  get_or_add-IsIndexed :
      (s : Stock F) (item : Item Double) → IsIndexed s → IsIndexed (get_or_add_item_info F s item)
  unfolding get_or_add_item_info
  get_or_add-IsIndexed s item v = elim (Option-cases (find_info F item s.items)) [
    | inl e ↦
        rw (e, get_or_add_item_info)
          (record {
            by_name =
                ap (λ m. m ++ (item.name, item) ∷ []) v.by_name ∙ sym (map-append _ s.items _);
            by_label =
                ap (λ m. m ++ (item.label, item) ∷ []) v.by_label ∙ sym (map-append _ s.items _);
          })
    | inr (info, e) ↦ rw (e, get_or_add_item_info) v
  ]

  -- A provider that a storage adds keeps the indices in step with the items.
  pub add_item_provider-IsIndexed :
      (s : Stock F) (item : Item Double) (provider : Provider)
      → IsIndexed s
      → IsIndexed (add_item_provider F s item provider)
  unfolding add_item_provider
  add_item_provider-IsIndexed s item provider v =
      modify_info-IsIndexed (get_or_add_item_info F s item) item _ (get_or_add-IsIndexed s item v)

  -- A search through an index is a search through the items under the index's key.
  visit_range-map :
      (s : Stock F) (key : Text) (of : Item Double → Text) (test : Item Double → Bool)
      (items : List (Item Double × ItemInfo)) (result : Option (Item Double))
      → visit_range F s key test (map (λ e. (of e.0, e.0)) items) result
        ≡ visit_items F s (λ item. text_eq (of item) key && test item) items result
  unfolding visit_range visit_items
  visit_range-map s key of test [] result = refl
  visit_range-map s key of test ((item, info) ∷ rest) result = visit_range-map s key of test rest _

  pub visit_items-test :
      (s : Stock F) (test test' : Item Double → Bool)
      → ((item : Item Double) → test item ≡ test' item)
      → (items : List (Item Double × ItemInfo)) (result : Option (Item Double))
      → visit_items F s test items result ≡ visit_items F s test' items result
  unfolding visit_items
  visit_items-test s test test' h [] result = refl
  visit_items-test s test test' h ((item, info) ∷ rest) result =
      rw (h item) (visit_items-test s test test' h rest _)

  pub and_true : (b : Bool) → (b && true) ≡ b
  and_true b = ground arith

  -- The same item, where the indices are in the order of the items; `Agree` has other orders.
  pub get_item-eq-visit_items :
      (s : Stock F) (filter : ItemFilter Double)
      → IsIndexed s
      → get_item F s filter ≡ visit_items F s (matches filter) s.items none
  unfolding get_item matches
  get_item-eq-visit_items s (ItemFilter.name n) v =
      ap (λ m. visit_range F s n (λ _. true) m none) v.by_name
      ∙ visit_range-map s n (λ x. x.name) (λ _. true) s.items none
      ∙ visit_items-test s _ _ (λ item. and_true _) s.items none
  get_item-eq-visit_items s (ItemFilter.label l) v =
      ap (λ m. visit_range F s l (λ _. true) m none) v.by_label
      ∙ visit_range-map s l (λ x. x.label) (λ _. true) s.items none
      ∙ visit_items-test s _ _ (λ item. and_true _) s.items none
  get_item-eq-visit_items s (ItemFilter.label_name l n) v =
      ap (λ m. visit_range F s l (λ x. text_eq x.name n) m none) v.by_label
      ∙ visit_range-map s l (λ x. x.label) (λ x. text_eq x.name n) s.items none
  get_item-eq-visit_items s (ItemFilter.fn f) v = refl
