-- ===== src/Item/Insert/Count.antt =====
-- How much of an item an inventory holds, and what a plan of transfers does to it.
use ocremote.Base.{
  ℕ, ◌≡◌, refl, true, Option, none, some, List, [], ◌∷◌, ◌++◌, length, get_elem?, set,
  get_elem?-middle, set-middle, if◌then◌else◌,
}
use ocremote.Base.Int.{ℤ, pos, ◌+ℤ◌, ◌≤ℤ◌, int_laws, parts_eq}
use ocremote.Serialize.Value.{Doubles}
use ocremote.Item.{Item, ItemStack, Inventory, item_eq}

module _ (F : Doubles) where
  open F use {Double}

  -- How much of the item a slot holds, and an inventory.
  unfoldable pub units : Item Double → Option (ItemStack Double) → ℤ
  units item none = pos 0
  units item (some s) = if item_eq F s.item item then s.size else pos 0

  unfoldable pub count : Item Double → Inventory Double → ℤ
  unfolding units
  count item [] = pos 0
  count item (s ∷ rest) = units item s +ℤ count item rest

  -- No stack of the item is larger than the item allows.
  abbrev pub Fits : Item Double → Option (ItemStack Double) → Type 0
  Fits item none = Unit
  Fits item (some s) = item_eq F s.item item ≡ true → s.size ≤ℤ item.max_size

  -- The slot has no room on a stack of the item.
  abbrev pub Full : Item Double → Option (ItemStack Double) → Type 0
  Full item none = Unit
  Full item (some s) = item_eq F s.item item ≡ true → item.max_size ≤ℤ s.size

  -- A planned transfer of `n` of the item into a slot.
  unfoldable pub transfer : Item Double → Inventory Double → ℕ × ℤ → Inventory Double
  transfer item inventory (slot, n) = elim (get_elem? inventory slot) [
    | none ↦ inventory
    | some none ↦ set inventory slot (some (record { item = item; size = n }))
    | some (some s) ↦ set inventory slot (some (record s { size = s.size +ℤ n }))
  ]

  unfoldable pub transfers : Item Double → Inventory Double → List (ℕ × ℤ) → Inventory Double
  unfolding transfer
  transfers item inventory [] = inventory
  transfers item inventory (a ∷ actions) = transfers item (transfer item inventory a) actions

  pub transfers-append :
      (item : Item Double) (inventory : Inventory Double) (xs : List (ℕ × ℤ)) (a : ℕ × ℤ)
      → transfers item inventory (xs ++ a ∷ []) ≡ transfer item (transfers item inventory xs) a
  unfolding transfers
  transfers-append item inventory [] a = refl
  transfers-append item inventory (x ∷ xs) a =
      transfers-append item (transfer item inventory x) xs a

  pub transfer-middle :
      (item : Item Double) (done rest : Inventory Double) (s : ItemStack Double) (n : ℤ)
      → transfer item (done ++ some s ∷ rest) (length done, n)
        ≡ done ++ some (record s { size = s.size +ℤ n }) ∷ rest
  unfolding transfer
  transfer-middle item done rest s n =
      rw (get_elem?-middle done (some s) rest, transfer) (set-middle done (some s) _ rest)

  pub count-append :
      (item : Item Double) (xs ys : Inventory Double)
      → count item (xs ++ ys) ≡ count item xs +ℤ count item ys
  unfolding count
  count-append item [] ys = omega int_laws
  count-append item (x ∷ xs) ys = omega (int_laws, parts_eq (count-append item xs ys))
