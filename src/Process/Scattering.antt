-- ===== src/Process/Scattering.antt =====
-- `ProcessScatteringWorkingSet`: one input, which is spread evenly over several slots.
pub mod Limit
use ocremote.Base.{
  ℕ, zero, suc, ◌+◌, Bool, true, false, not, ◌&&◌, Option, none, some, List, [], ◌∷◌, ◌++◌, ◌==◌,
  ltb, length, set, get_elem?, if◌then◌else◌,
}
use ocremote.Base.Int.{ℤ, pos, ◌+ℤ◌, min_ℤ, ltb_ℤ, leb_ℤ}
use ocremote.Serialize.Value.{Doubles}
use ocremote.Item.{Item, ItemStack, Inventory, item_eq}

-- transferMap: how much goes to a slot.
unfoldable pub add_transfer : ℕ → List (ℕ × ℤ) → List (ℕ × ℤ)
add_transfer slot [] = (slot, pos 1) ∷ []
add_transfer slot ((key, n) ∷ rest) =
    if key == slot then (key, n +ℤ pos 1) ∷ rest else (key, n) ∷ add_transfer slot rest

-- Whether all slots of the inputs are in the inventory.
unfoldable pub are_slots : List ℕ → ℕ → Bool
are_slots [] n = true
are_slots (slot ∷ slots) n = ltb slot n && are_slots slots n

unfoldable pub is_in_slot : List ℕ → ℕ → Bool
is_in_slot [] slot = false
is_in_slot (x ∷ xs) slot = if x == slot then true else is_in_slot xs slot

module _ (F : Doubles) where
  open F use {Double}

  -- The loop over the slots that are output, from `slot` on.
  unfoldable pub outputs :
      (ℕ → ItemStack Double → Bool) → List ℕ → ℕ → Inventory Double → List (ℕ × ℤ)
  unfolding is_in_slot
  outputs out_filter in_slots slot [] = []
  outputs out_filter in_slots slot (none ∷ rest) = outputs out_filter in_slots (slot + 1) rest
  outputs out_filter in_slots slot (some stack ∷ rest) =
      let more = outputs out_filter in_slots (slot + 1) rest in
      if not (is_in_slot in_slots slot) && out_filter slot stack
      then (slot, stack.item.max_size) ∷ more
      else more

  -- The variables min_any and min.
  pub record Minimum : Type 0 where
    pub min_any : ℤ
    pub min : Option (ℤ × ℕ)

  -- The body of the loop over the slots of the input.
  unfoldable pub visit_slot : Item Double → Inventory Double → ℕ → Minimum → Minimum
  visit_slot item items slot m = elim (get_elem? items slot) [
    | none ↦ m
    | some none ↦ record m { min = some (pos 0, slot) }
    | some (some stack) ↦
        let smaller : Bool = elim m.min [
          | none ↦ true
          | some (size, other) ↦ ltb_ℤ stack.size size
        ] in
        record {
          min_any = min_ℤ m.min_any stack.size;
          min = if item_eq F stack.item item && smaller then some (stack.size, slot) else m.min;
        }
  ]

  unfoldable pub find_minimum : Item Double → Inventory Double → List ℕ → Minimum → Minimum
  unfolding visit_slot
  find_minimum item items [] m = m
  find_minimum item items (slot ∷ slots) m =
      find_minimum item items slots (visit_slot item items slot m)

  -- The variables of the loop that spreads the input.
  pub record Spread : Type 0 where
    pub items : Inventory Double
    pub transfer_total : ℤ
    pub transfer_map : List (ℕ × ℤ)
    pub full : Bool

  abbrev pub no_minimum : Minimum
  no_minimum = record { min_any = pos 0; min = none }

  -- One more goes to the slot.
  unfoldable pub add_one : Item Double → ℕ → Spread → Spread
  unfolding add_transfer
  add_one item slot p =
      let stack : Option (ItemStack Double) = elim (get_elem? p.items slot) [
        | none ↦ none
        | some none ↦ some (record { item = item; size = pos 1 })
        | some (some s) ↦ some (record s { size = s.size +ℤ pos 1 })
      ] in
      record p {
        items = set p.items slot stack;
        transfer_total = p.transfer_total +ℤ pos 1;
        transfer_map = add_transfer slot p.transfer_map;
      }

  -- while (demand.inAvail > 0): each round takes one off demand.inAvail, which is `n`.
  unfoldable pub spread : ℕ → Item Double → ℤ → List ℕ → Spread → Spread
  unfolding find_minimum add_one
  spread zero item each_slot_max in_slots p = p
  spread (suc n) item each_slot_max in_slots p =
      let m = find_minimum item p.items in_slots no_minimum in
      elim (leb_ℤ each_slot_max m.min_any) [
        | true ↦ record p { full = true }
        | false ↦ elim m.min [
          | none ↦ p
          | some (size, slot) ↦ elim (leb_ℤ item.max_size size) [
            | true ↦ p
            | false ↦ spread n item each_slot_max in_slots (add_one item slot p)
          ]
        ]
      ]

  -- The spreading of one demand.
  unfoldable pub begin : Inventory Double → Spread
  begin items = record { items = items; transfer_total = pos 0; transfer_map = []; full = false }
