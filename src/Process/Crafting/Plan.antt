-- ===== src/Process/Crafting/Plan.antt =====
-- The loop over the demands in the cycles of the robot and the workbench, up to the promises.
pub mod Returns
use ocremote.Base.{ℕ, Option, none, some, List, [], ◌∷◌, true, false}
use ocremote.Base.Int.{ℤ, pos, min_ℤ, leb_ℤ}
use ocremote.Serialize.Value.{Doubles}
use ocremote.Item.{Item}
use ocremote.Factory.ItemInfo.{Reservation}
use ocremote.Factory.Stock.{Stock}
use ocremote.Factory.Demand.{Floats, Demand, resolve_recipe_inputs, get_demand}
use ocremote.Factory.Reserving.{reserve_inputs}
use ocremote.Process.Crafting.{CraftInfo, CraftRecipe}

module _ (F : Doubles) (G : Floats) where
  open F use {Double}

  -- A recipe that is crafted, so many sets of it, with the reservations of its inputs.
  pub record Planned : Type 0 where
    pub recipe : CraftRecipe Double
    pub sets : ℤ
    pub reservations : List Reservation

  -- demand.in.clear(), resolveRecipeInputs, and the limit of the recipe.
  unfoldable pub refresh : Stock F → Demand F G CraftInfo (List ℕ) → Demand F G CraftInfo (List ℕ)
  refresh s demand =
      let d = resolve_recipe_inputs F G s (record demand { inputs = [] }) true in
      record d { in_avail = min_ℤ d.in_avail demand.recipe.info.max_sets }

  -- The loop over the demands; `none`: a reservation goes wrong.
  unfoldable pub plan_demands :
      List (Demand F G CraftInfo (List ℕ)) → Stock F → Option (Stock F × List Planned)
  unfolding refresh
  plan_demands [] s = some (s, [])
  plan_demands (demand ∷ rest) s =
      let d = refresh s demand in
      elim (leb_ℤ d.in_avail (pos 0)) [
        | true ↦ plan_demands rest s
        | false ↦ elim (reserve_inputs F d.in_avail d.inputs d.recipe.inputs s) [
          | none ↦ none
          | some (s', reservations) ↦ elim (plan_demands rest s') [
            | none ↦ none
            | some (s'', planned) ↦ some (
              s'',
              record { recipe = d.recipe; sets = d.in_avail; reservations = reservations }
                  ∷ planned,
            )
          ]
        ]
      ]

  unfoldable pub plan : List (CraftRecipe Double) → Stock F → Option (Stock F × List Planned)
  unfolding plan_demands
  plan recipes s = plan_demands (get_demand F G s recipes true) s
