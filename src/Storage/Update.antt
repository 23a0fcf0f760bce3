-- ===== src/Storage/Update.antt =====
-- The storages of server/CPPImpl/Storages.h and Storages.cpp: what their `update` makes of the
-- listed stacks, and the actions of `sink` and `extract`.
pub mod Counted
use ocremote.Base.{true, false, ℕ, ◌+◌, Option, none, some, List, [], ◌∷◌, set, get_elem?, Text}
use ocremote.Base.Int.{ℤ, pos, negsuc, ◌-ℤ◌, leb_ℤ}
use ocremote.Serialize.Value.{Doubles, Key, Value}
use ocremote.Serialize.Casts.{Casts}
use ocremote.Serialize.Table.{erase}
use ocremote.Item.{Item, ItemStack, Inventory}
use ocremote.Item.Codec.{serialize_item}
use ocremote.Factory.Stock.{Stock, add_item_provider}
use ocremote.Storage.Chest.{Chest}
use ocremote.Action.{Action, xfer_me, call}
use ocremote.Process.Transfer.{AccessInv, transfer_item, to_bus, from_bus}
use ocremote.Literals

pub record AccessMe : Type 0 where
  pub inv : AccessInv
  pub me : Text
  pub entry : ℤ

-- The priorities of ProviderDrawer, ProviderChest and ProviderME, by the size.
unfoldable pub drawer_priority : ℤ → ℤ
drawer_priority size = negsuc 2147483647

unfoldable pub chest_priority : ℤ → ℤ
chest_priority size = pos 0 -ℤ size

unfoldable pub me_priority : ℤ → ℤ
me_priority size = pos 2147483647

module _ (F : Doubles) where
  open F use {Double}

  -- The loops over the listed slots in `update`, from `slot` on. The providers are told apart by
  -- `id_of` their slot.
  unfoldable pub add_stacks : (ℕ → ℕ) → (ℤ → ℤ) → ℕ → Inventory Double → Stock F → Stock F
  add_stacks id_of priority_of slot [] s = s
  add_stacks id_of priority_of slot (none ∷ rest) s = add_stacks id_of priority_of (slot + 1) rest s
  add_stacks id_of priority_of slot (some stack ∷ rest) s =
      add_stacks id_of priority_of (slot + 1) rest (
        add_item_provider F s stack.item
          (record { id = id_of slot; priority = priority_of stack.size; avail = stack.size }))

  -- The callbacks in `update` of the three kinds of storages.
  unfoldable pub update_drawer : (ℕ → ℕ) → Inventory Double → Stock F → Stock F
  unfolding add_stacks drawer_priority
  update_drawer id_of items s = add_stacks id_of drawer_priority 0 items s

  unfoldable pub update_chest : (ℕ → ℕ) → Inventory Double → Chest F → Stock F → Chest F × Stock F
  unfolding add_stacks chest_priority
  update_chest id_of items chest s =
      (record chest { content = items }, add_stacks id_of chest_priority 0 items s)

  -- stack->item->others.erase("isCraftable")
  unfoldable pub without_craftable : List (ItemStack Double) → Inventory Double
  without_craftable [] = []
  without_craftable (stack ∷ rest) =
      some (record stack {
        item = record stack.item {
          others = erase F (Key.str Literals.is_craftable) stack.item.others;
        };
      })
      ∷ without_craftable rest

  unfoldable pub update_me : (ℕ → ℕ) → List (ItemStack Double) → Stock F → Stock F
  unfolding add_stacks me_priority without_craftable
  update_me id_of items s = add_stacks id_of me_priority 0 (without_craftable items) s

  -- The callback in ProviderChest::extract. `none`: there is no stack.
  unfoldable pub on_extracted : ℤ → ℕ → Chest F → Option (Chest F)
  on_extracted size slot chest = elim (get_elem? chest.content slot) [
    | none ↦ none
    | some none ↦ none
    | some (some stack) ↦
        let left = stack.size -ℤ size in
        elim (leb_ℤ left (pos 0)) [
          | true ↦ some (record chest { content = set chest.content slot none })
          | false ↦ some (record chest {
            content = set chest.content slot (some (record stack { size = left }));
          })
        ]
  ]

module _ (F : Doubles) (C : Casts F) where
  open F use {Double}
  open C use {of_int, of_size}

  -- The actions of `sink` from a slot of the bus.
  unfoldable pub drawer_sink : AccessInv → ℤ → ℕ → Action Double
  drawer_sink access size slot = call access.addr Literals.transfer_item (
      Value.num (of_int access.side_bus)
      ∷ Value.num (of_int access.side_inv)
      ∷ Value.num (of_int size)
      ∷ Value.num (of_size (slot + 1))
      ∷ [])

  unfoldable pub chest_sink : AccessInv → ℤ → ℕ → Chest F → Action Double
  unfolding from_bus
  chest_sink access n slot chest = from_bus F C access n slot chest.slot_to_sink

  unfoldable pub me_sink : AccessMe → ℤ → ℕ → Action Double
  unfolding transfer_item
  me_sink access size slot =
      transfer_item F C access.inv.addr access.inv.side_bus access.inv.side_inv size (slot + 1) 9

  -- The actions of `extract`, of the provider of `own_slot`, to a slot of the bus.
  unfoldable pub extract : AccessInv → ℤ → ℕ → ℕ → Action Double
  unfolding to_bus
  extract access size own_slot slot = to_bus F C access size own_slot slot

  unfoldable pub me_extract : AccessMe → Item Double → ℤ → ℕ → Action Double
  unfolding serialize_item
  me_extract access item size slot =
      xfer_me access.me access.inv.addr (Value.table (serialize_item F C item))
        (Value.num (of_int access.inv.side_inv)
          ∷ Value.num (of_int access.inv.side_bus)
          ∷ Value.num (of_int size)
          ∷ Value.num (of_int access.entry)
          ∷ Value.num (of_size (slot + 1))
          ∷ [])
        size access.entry
