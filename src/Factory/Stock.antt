-- ===== src/Factory/Stock.antt =====
-- The index of the stored items in `Factory` (server/CPPImpl/Factory.h and Factory.cpp): `items`,
-- `nameMap` and `labelMap`, with `getOrAddItemInfo`, `getItem`, `getAvail`, the backups and
-- `endOfCycle`'s clearing. The three hash maps are lists of their entries, each in some order: what is
-- new comes last, but the source goes through each map in an order of its own that is not specified,
-- so that of items of which as much is available it may return another one.
pub mod Finding
pub mod Search
pub mod Best
pub mod Agree
use ocremote.Base.{
  ℕ, Bool, true, ◌&&◌, Option, none, some, List, [], ◌∷◌, ◌++◌, map, Text, text_eq, if◌then◌else◌,
}
use ocremote.Base.Int.{ℤ, pos, ltb_ℤ}
use ocremote.Serialize.Value.{Doubles}
use ocremote.Item.{Item, ItemFilter, item_eq, matches}
use ocremote.Factory.ItemInfo
use ocremote.Factory.ItemInfo.{ItemInfo, Provider, Reservation}

module _ (F : Doubles) where
  open F use {Double}

  pub record Stock : Type 0 where
    pub items : List (Item Double × ItemInfo)
    pub name_map : List (Text × Item Double)
    pub label_map : List (Text × Item Double)

  -- items.find(item)
  unfoldable pub find_info : Item Double → List (Item Double × ItemInfo) → Option ItemInfo
  find_info item [] = none
  find_info item ((key, info) ∷ rest) =
      if item_eq F key item then some info else find_info item rest

  -- A change of the value that `items` has for the item.
  unfoldable pub modify_info :
      Item Double
      → (ItemInfo → ItemInfo)
      → List (Item Double × ItemInfo)
      → List (Item Double × ItemInfo)
  modify_info item f [] = []
  modify_info item f ((key, info) ∷ rest) =
      if item_eq F key item then (key, f info) ∷ rest else (key, info) ∷ modify_info item f rest

  -- Factory::getOrAddItemInfo; the reference that it returns is `modify_info` at the item.
  unfoldable pub get_or_add_item_info : Stock → Item Double → Stock
  unfolding find_info
  get_or_add_item_info s item = elim (find_info item s.items) [
    | some info ↦ s
    | none ↦ record {
      items = s.items ++ (item, ItemInfo.empty) ∷ [];
      name_map = s.name_map ++ (item.name, item) ∷ [];
      label_map = s.label_map ++ (item.label, item) ∷ [];
    }
  ]

  -- factory.getOrAddItemInfo(item).addProvider(provider), as the storages' `update` has it.
  unfoldable pub add_item_provider : Stock → Item Double → Provider → Stock
  unfolding get_or_add_item_info modify_info
  add_item_provider s item provider =
      let s' = get_or_add_item_info s item in
      record s' { items = modify_info item (λ info. ItemInfo.add_provider info provider) s'.items }

  -- Factory::getAvail; a null item has nothing.
  unfoldable pub get_avail : Stock → Option (Item Double) → Bool → ℤ
  unfolding find_info
  get_avail s none allow_backup = pos 0
  get_avail s (some item) allow_backup = elim (find_info item s.items) [
    | none ↦ pos 0
    | some info ↦ ItemInfo.get_avail info allow_backup
  ]

  -- Visitor::addResult
  unfoldable pub add_result : Stock → Option (Item Double) → Item Double → Option (Item Double)
  add_result s result item =
      if ltb_ℤ (get_avail s result true) (get_avail s (some item) true) then some item else result

  -- The loops of `visit` over equal_range(key), and over all items.
  unfoldable pub visit_range :
      Stock
      → Text
      → (Item Double → Bool)
      → List (Text × Item Double)
      → Option (Item Double)
      → Option (Item Double)
  visit_range s key test [] result = result
  visit_range s key test ((k, item) ∷ rest) result =
      visit_range s key test rest
        (if text_eq k key && test item then add_result s result item else result)

  unfoldable pub visit_items :
      Stock
      → (Item Double → Bool)
      → List (Item Double × ItemInfo)
      → Option (Item Double)
      → Option (Item Double)
  visit_items s test [] result = result
  visit_items s test ((item, info) ∷ rest) result =
      visit_items s test rest (if test item then add_result s result item else result)

  -- Factory::getItem
  unfoldable pub get_item : Stock → ItemFilter Double → Option (Item Double)
  unfolding visit_range visit_items
  get_item s (ItemFilter.name n) = visit_range s n (λ _. true) s.name_map none
  get_item s (ItemFilter.label l) = visit_range s l (λ _. true) s.label_map none
  get_item s (ItemFilter.label_name l n) =
      visit_range s l (λ item. text_eq item.name n) s.label_map none
  get_item s (ItemFilter.fn f) = visit_items s f s.items none

  -- The loop over the backups in updateAndBackupItems.
  unfoldable pub backup_items : List (ItemFilter Double × ℤ) → Stock → Stock
  backup_items [] s = s
  backup_items ((filter, size) ∷ rest) s = backup_items rest (elim (get_item s filter) [
    | none ↦ s
    | some item ↦ record s { items = modify_info item (λ info. ItemInfo.backup info size) s.items }
  ])

  -- The clearing in endOfCycle.
  abbrev pub cleared : Stock
  cleared = record { items = []; name_map = []; label_map = [] }
