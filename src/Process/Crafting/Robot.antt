-- ===== src/Process/Crafting/Robot.antt =====
-- `ProcessCraftingRobot`: the actions for a recipe.
pub mod Slots
use ocremote.Base.{ℕ, ◌+◌, List, [], ◌∷◌, ◌++◌, Text, leb, if◌then◌else◌}
use ocremote.Base.Int.{ℤ, ◌*ℤ◌}
use ocremote.Serialize.Value.{Doubles, Value}
use ocremote.Serialize.Casts.{Casts}
use ocremote.Action.{Action, call}
use ocremote.Factory.Demand.{RecipeIn}
use ocremote.Process.Crafting.{NonConsumable, CraftRecipe, each_size, back}
use ocremote.Literals

pub record AccessCraftingRobot : Type 0 where
  pub client : Text
  pub side_bus : ℤ

-- ProcessCraftingRobot::mapCraftingGridSlot
unfoldable pub map_crafting_grid_slot : ℕ → ℕ
map_crafting_grid_slot slot = if leb 7 slot then slot + 2 else if leb 4 slot then slot + 1 else slot

module _ (F : Doubles) (C : Casts F) where
  open F use {Double}
  open C use {of_int, of_size}

  unfoldable pub select : ℕ → Action Double
  select slot = call Literals.robot Literals.select (Value.num (of_size slot) ∷ [])

  unfoldable pub transfer_to : ℕ → Action Double
  transfer_to slot = call Literals.robot Literals.transfer_to (Value.num (of_size slot) ∷ [])

  -- The loop over the slots of an input, whose items are in `bus_slot`.
  unfoldable pub input_slots : AccessCraftingRobot → ℤ → ℕ → List ℕ → List (Action Double)
  unfolding select map_crafting_grid_slot
  input_slots access size bus_slot [] = []
  input_slots access size bus_slot (to_slot ∷ slots) =
      select (map_crafting_grid_slot to_slot)
      ∷ call Literals.inventory_controller Literals.suck_from_slot (
          Value.num (of_int access.side_bus)
          ∷ Value.num (of_size (bus_slot + 1))
          ∷ Value.num (of_int size)
          ∷ [])
      ∷ input_slots access size bus_slot slots

  -- The loop over the inputs; there are more bus slots than inputs.
  unfoldable pub input_actions :
      AccessCraftingRobot → ℤ → List (RecipeIn Double (List ℕ)) → List ℕ → List (Action Double)
  unfolding input_slots
  input_actions access sets [] bus_slots = []
  input_actions access sets (i ∷ ins) [] = []
  input_actions access sets (i ∷ ins) (bus_slot ∷ bus_slots) =
      input_slots access (each_size i *ℤ sets) bus_slot i.info
      ++ input_actions access sets ins bus_slots

  -- The loops that load the items that are not consumed, and store them again.
  unfoldable pub load_actions : List NonConsumable → List (Action Double)
  unfolding select transfer_to map_crafting_grid_slot
  load_actions [] = []
  load_actions (info ∷ rest) =
      select info.storage_slot
      ∷ transfer_to (map_crafting_grid_slot info.crafting_grid_slot)
      ∷ load_actions rest

  unfoldable pub store_actions : List NonConsumable → List (Action Double)
  unfolding select transfer_to map_crafting_grid_slot
  store_actions [] = []
  store_actions (info ∷ rest) =
      select (map_crafting_grid_slot info.crafting_grid_slot)
      ∷ transfer_to info.storage_slot
      ∷ store_actions rest

  -- The group of actions for so many sets of a recipe, with its bus slots.
  unfoldable pub craft_actions :
      AccessCraftingRobot → ℤ → CraftRecipe Double → List ℕ → List (Action Double)
  unfolding input_actions load_actions store_actions select
  craft_actions access sets recipe bus_slots =
      input_actions access sets recipe.inputs bus_slots
      ++ (load_actions recipe.info.non_consumables
          ++ (select 16
              ∷ call Literals.crafting Literals.craft []
              ∷ call Literals.inventory_controller Literals.drop_into_slot (
                  Value.num (of_int access.side_bus)
                  ∷ Value.num (of_size (back bus_slots + 1))
                  ∷ [])
              ∷ store_actions recipe.info.non_consumables))
