-- ===== src/Factory/Stock/Best.antt =====
-- The choice that `getItem` makes among the items that pass a filter.
use mathlib.Core.Bool.{false≢true}
use ocremote.Base.{
  ◌≡◌, refl, inl, inr, Bool, true, Option, none, some, List, [], ◌∷◌, All, arith, Bool-cases,
  if◌then◌else◌,
}
use ocremote.Base.Int.{ℤ, pos, ltb_ℤ, ◌≤ℤ◌, ◌<ℤ◌, ltb_ℤ→lt, ltb_ℤ→le}
use ocremote.Serialize.Value.{Doubles}
use ocremote.Item.{Item, ItemFilter, matches}
use ocremote.Factory.ItemInfo.{ItemInfo}
use ocremote.Factory.Stock.Search.{IsIndexed, get_item-eq-visit_items}
use ocremote.Factory.Stock.{Stock, get_avail, add_result, visit_items, get_item}

module _ (F : Doubles) where
  open F use {Double}

  -- What is available of an item, the backup included; of a null item nothing.
  abbrev pub total : Stock F → Option (Item Double) → ℤ
  total s item = get_avail F s item true

  abbrev pub NoMore : Stock F → (Item Double → Bool) → ℤ → Item Double × ItemInfo → Type 0
  NoMore s test bound e = test e.0 ≡ true → total s (some e.0) ≤ℤ bound

  abbrev pub Passes : Stock F → (Item Double → Bool) → Option (Item Double) → Type 0
  Passes s test none = Unit
  Passes s test (some item) = (test item ≡ true) × (pos 0 <ℤ total s (some item))

  visit_one :
      Stock F → (Item Double → Bool) → Item Double → Option (Item Double) → Option (Item Double)
  visit_one s test item result = if test item then add_result F s result item else result

  pub none_total : (s : Stock F) → total s none ≡ pos 0
  unfolding get_avail
  none_total s = refl

  pub total_nonneg :
      (s : Stock F) (test : Item Double → Bool) (result : Option (Item Double))
      → Passes s test result
      → pos 0 ≤ℤ total s result
  total_nonneg s test none h = rw (none_total s) (omega arith)
  total_nonneg s test (some item) h = omega (arith, h.1)

  visit_one-Passes :
      (s : Stock F) (test : Item Double → Bool) (item : Item Double) (result : Option (Item Double))
      → Passes s test result
      → Passes s test (visit_one s test item result)
        × (total s result ≤ℤ total s (visit_one s test item result))
        × (test item ≡ true → total s (some item) ≤ℤ total s (visit_one s test item result))
  unfolding visit_one add_result
  visit_one-Passes s test item result h = elim (Bool-cases (test item)) [
    | inr e ↦ rw e (h, omega arith, λ t. absurd (false≢true t))
    | inl e ↦ elim (Bool-cases (ltb_ℤ (total s result) (total s (some item)))) [
      | inl more ↦
          let lt = ltb_ℤ→lt (total s result) (total s (some item)) more in
          rw (e, more)
            (
              (e, omega (arith, lt, total_nonneg s test result h)),
              omega (arith, lt),
              λ _. omega arith,
            )
      | inr less ↦
          let le = ltb_ℤ→le (total s result) (total s (some item)) less in
          rw (e, less) (h, omega arith, λ _. le)
    ]
  ]

  NoMore-mono :
      (s : Stock F) (test : Item Double → Bool) (a b : ℤ)
      → a ≤ℤ b
      → (items : List (Item Double × ItemInfo)) → All (NoMore s test a) items
      → All (NoMore s test b) items
  NoMore-mono s test a b le [] h = tt
  NoMore-mono s test a b le (e ∷ rest) h =
      ((λ t. omega (arith, h.0 t, le)), NoMore-mono s test a b le rest h.1)

  pub visit_items-Passes :
      (s : Stock F) (test : Item Double → Bool) (items : List (Item Double × ItemInfo))
      (result : Option (Item Double))
      → Passes s test result
      → let best = visit_items F s test items result in
        Passes s test best
        × (total s result ≤ℤ total s best)
        × All (NoMore s test (total s best)) items
  unfolding visit_items visit_one
  visit_items-Passes s test [] result h = (h, omega arith, tt)
  visit_items-Passes s test ((item, info) ∷ rest) result h =
      let one = visit_one-Passes s test item result h in
      let later = visit_items-Passes s test rest (visit_one s test item result) one.0 in
      (later.0, omega (arith, one.1, later.1), ((λ t. omega (arith, one.2 t, later.1)), later.2))

  -- While the indices are in step with the items: an item that `getItem` returns passes the filter
  -- and some of it is available, and of no stored item that passes the filter more is available
  -- than of the returned one (than nothing, if none is returned).
  pub get_item-best :
      (s : Stock F) (filter : ItemFilter Double)
      → IsIndexed F s
      → let best = get_item F s filter in
        Passes s (matches filter) best × All (NoMore s (matches filter) (total s best)) s.items
  get_item-best s filter v =
      rw (get_item-eq-visit_items F s filter v)
        (let r = visit_items-Passes s (matches filter) s.items none tt in (r.0, r.2))
