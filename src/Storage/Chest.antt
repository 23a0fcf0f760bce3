-- ===== src/Storage/Chest.antt =====
-- `StorageChest` of server/CPPImpl/Storages.h and Storages.cpp: where a stack goes in a chest.
pub mod Progress
use ocremote.Base.{
  ℕ, ◌+◌, Bool, true, ◌&&◌, Option, none, some, List, [], ◌∷◌, set, get_elem?, if◌then◌else◌,
}
use ocremote.Base.Int.{ℤ, pos, negsuc, ◌+ℤ◌, ◌-ℤ◌, min_ℤ, ltb_ℤ}
use ocremote.Serialize.Value.{Doubles}
use ocremote.Item.{Item, ItemStack, Inventory, item_eq}

-- The variables of the loop of `sinkPriority`.
pub record Search : Type 0 where
  pub empty_slot : Option ℕ
  pub max_size : Option ℤ
  pub slot_to_sink : ℕ

-- !maxSize.has_value() || size > *maxSize
abbrev pub is_better : Option ℤ → ℤ → Bool
is_better none size = true
is_better (some m) size = ltb_ℤ m size

-- The choice after the loop; std::numeric_limits<int>::min() + 1 is the lowest priority here.
unfoldable pub choose : Search → Option ℤ × ℕ
choose s = elim s.max_size [
  | some m ↦ (some m, s.slot_to_sink)
  | none ↦ elim s.empty_slot [
    | some e ↦ (some (negsuc 2147483646), e)
    | none ↦ (none, s.slot_to_sink)
  ]
]

abbrev pub begin : ℕ → Search
begin slot_to_sink = record { empty_slot = none; max_size = none; slot_to_sink = slot_to_sink }

module _ (F : Doubles) where
  open F use {Double}

  pub record Chest : Type 0 where
    pub content : Inventory Double
    pub slot_to_sink : ℕ

  -- The body of the loop at a slot, and the loop from `slot` on.
  unfoldable pub visit_slot : Item Double → ℕ → Option (ItemStack Double) → Search → Search
  visit_slot item slot none s = record s { empty_slot = some slot }
  visit_slot item slot (some stack) s =
      if item_eq F stack.item item
        && (ltb_ℤ stack.size item.max_size && is_better s.max_size stack.size)
      then record s { max_size = some stack.size; slot_to_sink = slot }
      else s

  unfoldable pub search : Item Double → ℕ → Inventory Double → Search → Search
  unfolding visit_slot
  search item slot [] s = s
  search item slot (stack ∷ rest) s = search item (slot + 1) rest (visit_slot item slot stack s)

  -- StorageChest::sinkPriority
  unfoldable pub sink_priority : Item Double → Chest → Option ℤ × Chest
  unfolding search choose
  sink_priority item chest =
      let (priority, slot) = choose (search item 0 chest.content (begin chest.slot_to_sink)) in
      (priority, record chest { slot_to_sink = slot })

  -- StorageChest::sink, up to the action. `none`: slotToSink is out of range.
  unfoldable pub sink : ItemStack Double → Chest → Option (ℤ × Chest)
  sink stack chest = elim (get_elem? chest.content chest.slot_to_sink) [
    | none ↦ none
    | some none ↦
        some
          (stack.size, record chest { content = set chest.content chest.slot_to_sink (some stack) })
    | some (some dst) ↦
        let n = min_ℤ stack.size (dst.item.max_size -ℤ dst.size) in
        some (
          n,
          record chest {
            content =
                set chest.content chest.slot_to_sink (some (record dst { size = dst.size +ℤ n }));
          },
        )
  ]
