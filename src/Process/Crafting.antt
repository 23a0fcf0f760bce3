-- ===== src/Process/Crafting.antt =====
-- `ProcessCraftingRobot` and `ProcessRFToolsControlWorkbench`: what the two have in common. Plan
-- has the reservations of a cycle, Job the promises of a recipe, Robot and Workbench the actions.
pub mod Plan
pub mod Job
pub mod Robot
pub mod Workbench
use ocremote.Base.{ℕ, List, [], ◌∷◌, length}
use ocremote.Base.Int.{ℤ, pos, div_ℤ}
use ocremote.Factory.Demand.{RecipeIn, Recipe}

pub record NonConsumable : Type 0 where
  pub storage_slot : ℕ
  pub crafting_grid_slot : ℕ

pub record CraftInfo : Type 0 where
  pub max_sets : ℤ
  pub non_consumables : List NonConsumable

abbrev pub CraftRecipe : Type 0 → Type 0
CraftRecipe D = Recipe D CraftInfo (List ℕ)

-- in.size / static_cast<int>(in.data.size())
unfoldable pub each_size : {D : Type 0} → RecipeIn D (List ℕ) → ℤ
each_size i = div_ℤ i.size (pos (length i.info))

-- busSlots.back(), of a vector that is not empty.
unfoldable pub back : List ℕ → ℕ
back [] = 0
back (slot ∷ []) = slot
back (slot ∷ next ∷ rest) = back (next ∷ rest)
