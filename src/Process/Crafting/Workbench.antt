-- ===== src/Process/Crafting/Workbench.antt =====
-- `ProcessRFToolsControlWorkbench`: the actions for a recipe.
use ocremote.Base.{ℕ, zero, suc, ◌+◌, List, [], ◌∷◌, ◌++◌, Text}
use ocremote.Base.Int.{ℤ, pos, ◌*ℤ◌, pos_part}
use ocremote.Serialize.Value.{Doubles}
use ocremote.Serialize.Casts.{Casts}
use ocremote.Action.{Action, down, up}
use ocremote.Factory.Demand.{RecipeIn}
use ocremote.Process.Crafting.{NonConsumable, CraftRecipe, each_size, back}
use ocremote.Process.Transfer.{transfer_item}

pub record AccessRfToolsControlWorkbench : Type 0 where
  pub client : Text
  pub addr_in : Text
  pub addr_out : Text
  pub side_bus_in : ℤ
  pub side_bus_out : ℤ
  pub side_non_consumable : ℤ

module _ (F : Doubles) (C : Casts F) where
  open F use {Double}
  open C use {of_int, of_size}

  module _ (access : AccessRfToolsControlWorkbench) where
    -- The loops over the slots of an input, and over the inputs.
    unfoldable pub input_slots : ℤ → ℕ → List ℕ → List (Action Double)
    unfolding transfer_item
    input_slots size bus_slot [] = []
    input_slots size bus_slot (to_slot ∷ slots) =
        transfer_item F C access.addr_in access.side_bus_in down size (bus_slot + 1) to_slot
        ∷ input_slots size bus_slot slots

    unfoldable pub input_actions :
        ℤ → List (RecipeIn Double (List ℕ)) → List ℕ → List (Action Double)
    unfolding input_slots
    input_actions sets [] bus_slots = []
    input_actions sets (i ∷ ins) [] = []
    input_actions sets (i ∷ ins) (bus_slot ∷ bus_slots) =
        input_slots (each_size i *ℤ sets) bus_slot i.info ++ input_actions sets ins bus_slots

    unfoldable pub load_actions : List NonConsumable → List (Action Double)
    unfolding transfer_item
    load_actions [] = []
    load_actions (info ∷ rest) =
        transfer_item F C access.addr_in access.side_non_consumable down (pos 64) info.storage_slot
          info.crafting_grid_slot
        ∷ load_actions rest

    -- for (int i{}; i < sets; ++i)
    unfoldable pub output_actions : ℕ → ℕ → List (Action Double)
    unfolding transfer_item
    output_actions zero out_slot = []
    output_actions (suc n) out_slot =
        transfer_item F C access.addr_out up access.side_bus_out (pos 64) 1 (out_slot + 1)
        ∷ output_actions n out_slot

    unfoldable pub store_actions : List NonConsumable → List (Action Double)
    unfolding transfer_item
    store_actions [] = []
    store_actions (info ∷ rest) =
        transfer_item F C access.addr_in down access.side_non_consumable (pos 64)
          info.crafting_grid_slot info.storage_slot
        ∷ store_actions rest

    -- The group of actions for so many sets of a recipe, with its bus slots.
    unfoldable pub craft_actions : ℤ → CraftRecipe Double → List ℕ → List (Action Double)
    unfolding input_actions load_actions output_actions store_actions
    craft_actions sets recipe bus_slots =
        input_actions sets recipe.inputs bus_slots
        ++ (load_actions recipe.info.non_consumables
            ++ (output_actions (pos_part sets) (back bus_slots)
                ++ store_actions recipe.info.non_consumables))
