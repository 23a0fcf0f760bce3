-- ===== src/Process/Slotted.antt =====
-- `ProcessSlotted`: each input of a recipe has slots of its own.
pub mod Rooms
pub mod Fits
use ocremote.Base.{
  ℕ, ◌+◌, Bool, true, false, not, ◌&&◌, ◌||◌, Option, none, some, List, [], ◌∷◌, ◌++◌, ◌==◌, length,
  if◌then◌else◌,
}
use ocremote.Base.Int.{ℤ, pos, ◌-ℤ◌, ◌*ℤ◌, div_ℤ, min_ℤ, leb_ℤ}
use ocremote.Serialize.Value.{Doubles}
use ocremote.Serialize.Casts.{Casts}
use ocremote.Item.{Item, ItemStack, Inventory, item_eq}
use ocremote.Action.{Action}
use ocremote.Factory.Demand.{Floats, RecipeIn, Recipe, Demand}
use ocremote.Process.Transfer.{AccessInv, from_bus}

-- Recipe<int, std::vector<size_t>>: eachSlotMaxInProc, and the slots of each input
abbrev pub SlottedRecipe : Type 0 → Type 0
SlottedRecipe D = Recipe D ℤ (List ℕ)

-- What came of the slots of an input: so many sets, with the slots that are used; the demand is
-- skipped; or slotInfos.at throws.
pub data Fit : Type 0 where
  fits : ℤ → List ℕ → Fit
  skip out_of_range : Fit

unfoldable pub is_used : List ℕ → ℕ → Bool
is_used [] slot = false
is_used (x ∷ xs) slot = x == slot || is_used xs slot

unfoldable pub each_size : {D : Type 0} → RecipeIn D (List ℕ) → ℤ
each_size i = div_ℤ i.size (pos (length i.info))

module _ (F : Doubles) where
  open F use {Double}

  -- slotInfos: the input slots with what is in them.
  abbrev pub SlotInfos : Type 0
  SlotInfos = List (ℕ × Option (ItemStack Double))

  unfoldable pub find_slot : SlotInfos → ℕ → Option (Option (ItemStack Double))
  find_slot [] slot = none
  find_slot ((key, info) ∷ rest) slot = if key == slot then some info else find_slot rest slot

  unfoldable pub empty_slots : List ℕ → SlotInfos
  empty_slots [] = []
  empty_slots (slot ∷ slots) = (slot, none) ∷ empty_slots slots

  unfoldable pub fill_slot : ℕ → ItemStack Double → SlotInfos → SlotInfos
  fill_slot slot stack [] = []
  fill_slot slot stack ((key, info) ∷ rest) =
      (key, if key == slot then some stack else info) ∷ fill_slot slot stack rest

  -- The loop over the listed slots from `slot` on: the slots of the inputs are filled in, of the
  -- others those that the filter lets through are output, with their sizes. There is a filter if
  -- `out_filter` is not `none`.
  unfoldable pub visit_items :
      Option (ℕ → ItemStack Double → Bool)
      → ℕ
      → Inventory Double
      → SlotInfos
      → SlotInfos × List (ℕ × ℤ)
  unfolding find_slot fill_slot
  visit_items out_filter slot [] infos = (infos, [])
  visit_items out_filter slot (none ∷ rest) infos = visit_items out_filter (slot + 1) rest infos
  visit_items out_filter slot (some stack ∷ rest) infos =
      let is_input : Bool = elim (find_slot infos slot) [ none ↦ false | some info ↦ true ] in
      let (infos', outputs) =
        visit_items out_filter (slot + 1) rest
          (if is_input then fill_slot slot stack infos else infos) in
      let is_output : Bool = elim out_filter [
        | none ↦ false
        | some f ↦ not is_input && f slot stack
      ] in
      (infos', if is_output then (slot, stack.item.max_size) ∷ outputs else outputs)

  -- The loop over the slots of an input.
  unfoldable pub visit_slots : SlotInfos → Item Double → ℤ → ℤ → List ℕ → ℤ → List ℕ → Fit
  unfolding find_slot
  visit_slots infos item limit each [] sets used = fits sets used
  visit_slots infos item limit each (slot ∷ slots) sets used = elim (find_slot infos slot) [
    | none ↦ out_of_range
    | some none ↦
        let n = min_ℤ sets (div_ℤ (limit -ℤ pos 0) each) in
        elim (leb_ℤ n (pos 0)) [
          | true ↦ skip
          | false ↦ visit_slots infos item limit each slots n (slot ∷ used)
        ]
    | some (some stack) ↦
        let n = min_ℤ sets (div_ℤ (limit -ℤ stack.size) each) in
        elim (not (item_eq F stack.item item) || leb_ℤ n (pos 0)) [
          | true ↦ skip
          | false ↦ visit_slots infos item limit each slots n (slot ∷ used)
        ]
  ]

  -- The loop over the inputs. A null item is not met, since there are sets.
  unfoldable pub visit_inputs :
      SlotInfos
      → ℤ
      → List (Option (Item Double))
      → List (RecipeIn Double (List ℕ))
      → ℤ
      → List ℕ
      → Fit
  unfolding visit_slots each_size
  visit_inputs infos max_in_proc items [] sets used = fits sets used
  visit_inputs infos max_in_proc [] (i ∷ ins) sets used = skip
  visit_inputs infos max_in_proc (none ∷ items) (i ∷ ins) sets used = skip
  visit_inputs infos max_in_proc (some item ∷ items) (i ∷ ins) sets used =
      elim (visit_slots infos item (min_ℤ max_in_proc item.max_size) (each_size i) i.info sets
        used) [
          | fits n used' ↦ visit_inputs infos max_in_proc items ins n used'
          | skip ↦ skip
          | out_of_range ↦ out_of_range
        ]

  -- Whether each slot that is not used is empty.
  unfoldable pub others_are_empty : SlotInfos → List ℕ → Bool
  unfolding is_used
  others_are_empty [] used = true
  others_are_empty ((slot, none) ∷ rest) used = others_are_empty rest used
  others_are_empty ((slot, some stack) ∷ rest) used =
      is_used used slot && others_are_empty rest used

  module _ (G : Floats) where
    -- The sets of one demand.
    unfoldable pub fit_demand : SlotInfos → Demand F G ℤ (List ℕ) → Fit
    unfolding visit_inputs others_are_empty
    fit_demand infos demand =
        elim (visit_inputs infos demand.recipe.info demand.inputs demand.recipe.inputs
          demand.in_avail []) [
            | fits n used ↦ if others_are_empty infos used then fits n used else skip
            | skip ↦ skip
            | out_of_range ↦ out_of_range
          ]

    -- The loop over the demands, which ends with the first that fits; `none`: slotInfos.at throws.
    unfoldable pub choose :
        SlotInfos → List (Demand F G ℤ (List ℕ)) → Option (Option (Demand F G ℤ (List ℕ) × ℤ))
    unfolding fit_demand
    choose infos [] = some none
    choose infos (demand ∷ rest) = elim (fit_demand infos demand) [
      | fits n used ↦ some (some (demand, n))
      | skip ↦ choose infos rest
      | out_of_range ↦ none
    ]

module _ (F : Doubles) (C : Casts F) where
  open F use {Double}

  -- The transfers of one input, and of all inputs, from their bus slots.
  unfoldable pub input_transfers : AccessInv → ℤ → ℕ → List ℕ → List (Action Double)
  input_transfers access size bus_slot [] = []
  input_transfers access size bus_slot (to_slot ∷ slots) =
      from_bus F C access size bus_slot to_slot ∷ input_transfers access size bus_slot slots

  unfoldable pub transfers :
      AccessInv → ℤ → List (RecipeIn Double (List ℕ)) → List ℕ → List (Action Double)
  unfolding input_transfers each_size
  transfers access sets [] bus_slots = []
  transfers access sets (i ∷ ins) [] = []
  transfers access sets (i ∷ ins) (bus_slot ∷ bus_slots) =
      input_transfers access (sets *ℤ each_size i) bus_slot i.info
      ++ transfers access sets ins bus_slots
