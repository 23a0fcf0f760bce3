-- ===== src/Item/Insert.antt =====
-- `insertIntoInventory` of server/CPPImpl/Item.cpp.
pub mod Count
pub mod Round
pub mod Invariant
pub mod Outcome
use ocremote.Base.{ℕ, ◌+◌, not, ◌&&◌, Option, none, some, List, [], ◌∷◌, ◌++◌, set, if◌then◌else◌}
use ocremote.Base.Int.{ℤ, pos, ◌+ℤ◌, ◌-ℤ◌, min_ℤ, is_zero}
use ocremote.Serialize.Value.{Doubles}
use ocremote.Item.{Item, ItemStack, Inventory, item_eq}

-- The size that was placed, and how much goes to which slot.
pub record InsertResult : Type 0 where
  pub total_size : ℤ
  pub actions : List (ℕ × ℤ)

-- The variables of the loop but for the slot, and the inventory.
pub record Progress : Type 0 where
  pub size : ℤ
  pub first_empty_slot : Option ℕ
  pub result : InsertResult

abbrev pub or_else : Option ℕ → ℕ → Option ℕ
or_else none slot = some slot
or_else (some first) slot = some first

module _ (F : Doubles) where
  open F use {Double}

  -- `n` of the item are placed in the slot: the updates of the variables but for the stack.
  unfoldable pub place : ℕ → ℤ → Progress → Progress
  place slot n p = record p {
    size = p.size -ℤ n;
    result = record {
      total_size = p.result.total_size +ℤ n;
      actions = p.result.actions ++ (slot, n) ∷ [];
    };
  }

  -- What fits on a stack of the item.
  unfoldable pub to_proc : Item Double → ℤ → ItemStack Double → ℤ
  to_proc item size stack = min_ℤ size (item.max_size -ℤ stack.size)

  -- The body of the loop at a stack, and at a slot.
  unfoldable pub visit_stack :
      Item Double → ℕ → ItemStack Double → Progress → Option (ItemStack Double) × Progress
  unfolding to_proc place
  visit_stack item slot stack p =
      let n = to_proc item p.size stack in
      if item_eq F stack.item item && not (is_zero n)
      then (some (record stack { size = stack.size +ℤ n }), place slot n p)
      else (some stack, p)

  unfoldable pub visit :
      Item Double → ℕ → Option (ItemStack Double) → Progress → Option (ItemStack Double) × Progress
  unfolding visit_stack
  visit item slot none p = (none, record p { first_empty_slot = or_else p.first_empty_slot slot })
  visit item slot (some stack) p = visit_stack item slot stack p

  -- for (size_t slot{}; size && slot < inventory.size(); ++slot), from `slot` on.
  unfoldable pub scan : Item Double → ℕ → Inventory Double → Progress → Inventory Double × Progress
  unfolding visit
  scan item slot [] p = ([], p)
  scan item slot (stack ∷ rest) p =
      let (stack', p') = visit item slot stack p in
      let (rest', p'') = scan item (slot + 1) rest p' in
      if is_zero p.size then (stack ∷ rest, p) else (stack' ∷ rest', p'')

  -- What is left goes to the first empty slot, if there is one.
  unfoldable pub fill_empty :
      Item Double → Inventory Double → Progress → Inventory Double × Progress
  unfolding place
  fill_empty item inventory p = elim p.first_empty_slot [
    | none ↦ (inventory, p)
    | some slot ↦
        (set inventory slot (some (record { item = item; size = p.size })), place slot p.size p)
  ]

  abbrev pub start : Item Double → ℤ → Progress
  start item size = record {
    size = min_ℤ size item.max_size;
    first_empty_slot = none;
    result = record { total_size = pos 0; actions = [] };
  }

  -- The inventory is changed in place: the new one comes with the result.
  unfoldable pub insert : Inventory Double → Item Double → ℤ → Inventory Double × InsertResult
  unfolding scan fill_empty
  insert inventory item size =
      let (inventory', p) = scan item 0 inventory (start item size) in
      let (filled, q) = fill_empty item inventory' p in
      if is_zero p.size then (inventory', p.result) else (filled, q.result)
