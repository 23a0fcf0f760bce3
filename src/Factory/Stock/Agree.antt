-- ===== src/Factory/Stock/Agree.antt =====
-- The search through an index and the search through all items: the three containers are gone
-- through in orders that have nothing to do with each other.

use ocremote.Base.{
  ◌≡◌, ◌↔◌, refl, sym, ap, ◌∙◌, inl, inr, ◌⊎◌, Bool, true, ◌&&◌, Option, none, some, List, [], ◌∷◌,
  map, All, OneOf, front, later, Text, text_eq, arith, Bool-cases, Option-cases, OneOf-All, All-map,
}
use ocremote.Base.Int.{ℤ, parts_eq, pos, ltb_ℤ, ◌≤ℤ◌, eq_of_parts}
use ocremote.Serialize.Value.{Doubles}
use ocremote.Item.{Item, ItemFilter, matches}
use ocremote.Factory.ItemInfo
use ocremote.Factory.ItemInfo.{ItemInfo}
use ocremote.Factory.Stock.{Stock, add_result, visit_range, visit_items, get_item}
use ocremote.Factory.Stock.Search.{IsIndexed, visit_items-test, and_true}
use ocremote.Factory.Stock.Best.{
  total, Passes, NoMore, visit_items-Passes, total_nonneg, none_total,
}

-- The lists have the same elements, in any order.
abbrev pub HaveSame : {A : Type 0} → List A → List A → Type 0
HaveSame xs ys = All (λ x. OneOf x ys) xs × All (λ y. OneOf y xs) ys

module _ (F : Doubles) where
  open F use {Double}

  abbrev Entries : Type 0
  Entries = List (Item Double × ItemInfo)

  abbrev pub keys : Entries → List (Item Double)
  keys items = map (λ e. e.0) items

  abbrev pub values : List (Text × Item Double) → List (Item Double)
  values entries = map (λ e. e.1) entries

  -- Each index has just the stored items, under their names and labels, in an order of its own.
  pub record IsKeyed (s : Stock F) : Type 0 where
    pub named : HaveSame (keys s.items) (values s.name_map)
    pub under_name : All (λ e. e.0 ≡ e.1.name) s.name_map
    pub labelled : HaveSame (keys s.items) (values s.label_map)
    pub under_label : All (λ e. e.0 ≡ e.1.label) s.label_map

  HaveSame-refl : {A : Type 0} (xs : List A) → HaveSame xs xs
  HaveSame-refl xs = (self xs, self xs)
    where
      self : {A : Type 0} (xs : List A) → All (λ x. OneOf x xs) xs
      self [] = tt
      self (x ∷ xs) = (front, All-map _ (λ y. OneOf y (x ∷ xs)) xs (λ y one. later one) (self xs))

  abbrev index : (Item Double → Text) → Entries → List (Text × Item Double)
  index of items = map (λ e. (of e.0, e.0)) items

  indexed :
      (of : Item Double → Text) (items : Entries)
      → (HaveSame (keys items) (values (index of items))) × All (λ e. e.0 ≡ of e.1) (index of items)
  indexed of items = (rw (values-map of items) (HaveSame-refl (keys items)), under items)
    where
      values-map :
          (of : Item Double → Text) (items : Entries) → values (index of items) ≡ keys items
      values-map of [] = refl
      values-map of (e ∷ items) = ap (◌∷◌ e.0) (values-map of items)

      under : (items : Entries) → All (λ e. e.0 ≡ of e.1) (index of items)
      under [] = tt
      under (e ∷ items) = (refl, under items)

  -- The stocks of which `add_item_provider` keeps the indices are such.
  pub IsIndexed-IsKeyed : (s : Stock F) → IsIndexed F s → IsKeyed s
  IsIndexed-IsKeyed s v = record {
    named = rw v.by_name (indexed (λ x. x.name) s.items).0;
    under_name = rw v.by_name (indexed (λ x. x.name) s.items).1;
    labelled = rw v.by_label (indexed (λ x. x.label) s.items).0;
    under_label = rw v.by_label (indexed (λ x. x.label) s.items).1;
  }

  visit_items-OneOf :
      (s : Stock F) (test : Item Double → Bool) (items : Entries) (result : Option (Item Double))
      (x : Item Double)
      → visit_items F s test items result ≡ some x
      → (result ≡ some x) ⊎ OneOf x (keys items)
  unfolding visit_items add_result
  visit_items-OneOf s test [] result x h = inl h
  visit_items-OneOf s test ((item, info) ∷ rest) result x h = elim (Bool-cases (test item)) [
    | inr e ↦ elim (visit_items-OneOf s test rest result x (rw e at h)) [
      | inl same ↦ inl same
      | inr one ↦ inr (later one)
    ]
    | inl e ↦ elim (Bool-cases (ltb_ℤ (total F s result) (total F s (some item)))) [
      | inr l ↦ elim (visit_items-OneOf s test rest result x (rw (e, l) at h)) [
        | inl same ↦ inl same
        | inr one ↦ inr (later one)
      ]
      | inl l ↦ elim (visit_items-OneOf s test rest (some item) x (rw (e, l) at h)) [
        | inl same ↦ let is : item ≡ x = cc in inr (rw is front)
        | inr one ↦ inr (later one)
      ]
    ]
  ]

  NoMore-at :
      (s : Stock F) (test : Item Double → Bool) (bound : ℤ) (items : Entries) (x : Item Double)
      → All (NoMore F s test bound) items
      → OneOf x (keys items)
      → test x ≡ true
      → total F s (some x) ≤ℤ bound
  NoMore-at s test bound [] x h one t = elim one [ ]
  NoMore-at s test bound (e ∷ rest) _ h front t = h.0 t
  NoMore-at s test bound (e ∷ rest) x h (later one) t = NoMore-at s test bound rest x h.1 one t

  -- Searches through the same items, in any two orders, come to as much.
  visit_items-le :
      (s : Stock F) (test : Item Double → Bool) (items others : Entries)
      → All (λ x. OneOf x (keys others)) (keys items)
      → total F s (visit_items F s test items none) ≤ℤ total F s (visit_items F s test others none)
  visit_items-le s test items others h =
      let a = visit_items-Passes F s test items none tt in
      let b = visit_items-Passes F s test others none tt in
      elim (Option-cases (visit_items F s test items none)) [
        | inl e ↦
            rw (e, none_total F s) (total_nonneg F s test (visit_items F s test others none) b.0)
        | inr (x, e) ↦
            let passes = rw e at a.0 in
            elim (visit_items-OneOf s test items none x e) [
              | inl absent ↦ cc
              | inr one ↦ rw e (
                  NoMore-at s test _ others x b.2
                    (OneOf-All (λ y. OneOf y (keys others)) x (keys items) one h) passes.0)
            ]
      ]

  -- Two results of which as much is available are both null or neither.
  Passes-none :
      (s : Stock F) (test : Item Double → Bool) (a b : Option (Item Double))
      → Passes F s test b
      → total F s a ≡ total F s b
      → a ≡ none
      → b ≡ none
  Passes-none s test a none h same e = refl
  Passes-none s test a (some y) h same e =
      let nothing : total F s a ≡ pos 0 = ap (total F s) e ∙ none_total F s in
      absurd (omega (arith, h.1, parts_eq same, parts_eq nothing))

  -- The entries of an index as entries of the items.
  abbrev listed : List (Text × Item Double) → Entries
  listed entries = map (λ e. (e.1, ItemInfo.empty)) entries

  keys-listed : (entries : List (Text × Item Double)) → keys (listed entries) ≡ values entries
  keys-listed [] = refl
  keys-listed (e ∷ entries) = ap (◌∷◌ e.1) (keys-listed entries)

  visit_range-listed :
      (s : Stock F) (key : Text) (of : Item Double → Text) (test : Item Double → Bool)
      (entries : List (Text × Item Double)) (result : Option (Item Double))
      → All (λ e. e.0 ≡ of e.1) entries
      → visit_range F s key test entries result
        ≡ visit_items F s (λ item. text_eq (of item) key && test item) (listed entries) result
  unfolding visit_range visit_items
  visit_range-listed s key of test [] result h = refl
  visit_range-listed s key of test ((k, item) ∷ rest) result h =
      rw h.0 (visit_range-listed s key of test rest _ h.1)

  -- Whatever index it uses, getItem is a search by the filter's own test through the same items.
  record IsSearch (s : Stock F) (test : Item Double → Bool) (result : Option (Item Double))
      : Type 0 where
    items : Entries
    same : HaveSame (keys s.items) (keys items)
    searched : result ≡ visit_items F s test items none

  index-IsSearch :
      (s : Stock F) (key : Text) (of : Item Double → Text) (test wanted : Item Double → Bool)
      (entries : List (Text × Item Double))
      → HaveSame (keys s.items) (values entries)
      → All (λ e. e.0 ≡ of e.1) entries
      → ((item : Item Double) → (text_eq (of item) key && test item) ≡ wanted item)
      → IsSearch s wanted (visit_range F s key test entries none)
  index-IsSearch s key of test wanted entries same under is = record {
    items = listed entries;
    same = rw (keys-listed entries) same;
    searched =
        visit_range-listed s key of test entries none under
        ∙ visit_items-test F s _ wanted is (listed entries) none;
  }

  get_item-IsSearch :
      (s : Stock F) (filter : ItemFilter Double)
      → IsKeyed s
      → IsSearch s (matches filter) (get_item F s filter)
  unfolding get_item matches
  get_item-IsSearch s (ItemFilter.name n) v =
      index-IsSearch s n (λ x. x.name) (λ _. true) _ s.name_map v.named v.under_name
        (λ item. and_true F _)
  get_item-IsSearch s (ItemFilter.label l) v =
      index-IsSearch s l (λ x. x.label) (λ _. true) _ s.label_map v.labelled v.under_label
        (λ item. and_true F _)
  get_item-IsSearch s (ItemFilter.label_name l n) v =
      index-IsSearch s l (λ x. x.label) (λ x. text_eq x.name n) _ s.label_map v.labelled
        v.under_label (λ item. refl)
  get_item-IsSearch s (ItemFilter.fn f) v = record {
    items = s.items;
    same = HaveSame-refl (keys s.items);
    searched = refl;
  }

  -- While each index has just the stored items, in whatever order: of what getItem returns as much
  -- is available as of what a search through all items by the filter's own test returns, and the one
  -- is null exactly where the other is. (Of items of which as much is available, the one that is met
  -- first is returned, so that the two may be different items.)
  pub get_item-agrees :
      (s : Stock F) (filter : ItemFilter Double)
      → IsKeyed s
      → let best = get_item F s filter in
        let scanned = visit_items F s (matches filter) s.items none in
        (total F s best ≡ total F s scanned) × (best ≡ none ↔ scanned ≡ none)
  get_item-agrees s filter v =
      let test = matches filter in
      let found = get_item-IsSearch s filter v in
      let there = visit_items-le s test found.items s.items found.same.1 in
      let back = visit_items-le s test s.items found.items found.same.0 in
      let same : total F s (visit_items F s test found.items none)
          ≡ total F s (visit_items F s test s.items none) =
        eq_of_parts _ _ (omega (arith, there, back)) in
      rw found.searched (
        same,
        (
          Passes-none s test _ _ (visit_items-Passes F s test s.items none tt).0 same,
          Passes-none s test _ _ (visit_items-Passes F s test found.items none tt).0 (sym same),
        ),
      )
