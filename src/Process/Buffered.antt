-- ===== src/Process/Buffered.antt =====
-- `ProcessBuffered`: how many sets of a recipe are inserted into the buffer.
pub mod Greatest
pub mod Cycle
pub mod Recipes
use ocremote.Base.{ℕ, zero, suc, true, false, Option, none, some, List, [], ◌∷◌}
use ocremote.Base.Int.{ℤ, pos, ◌*ℤ◌, eq_ℤ}
use ocremote.Serialize.Value.{Doubles}
use ocremote.Item.{Item, Inventory}
use ocremote.Item.Insert.{InsertResult, insert}
use ocremote.Factory.Demand.{RecipeIn}

unfoldable pub add_plan : InsertResult → Option (List InsertResult) → Option (List InsertResult)
add_plan plan none = none
add_plan plan (some plans) = some (plan ∷ plans)

module _ (F : Doubles) {U : Type 0} where
  open F use {Double}

  -- A round of the loop over the inputs for so many sets: the inventory, and the plans, or `none`
  -- if an input does not go in whole. A null item is dereferenced; it is `none` too.
  unfoldable pub insert_inputs :
      ℤ
      → List (Option (Item Double))
      → List (RecipeIn Double U)
      → Inventory Double
      → Inventory Double × Option (List InsertResult)
  unfolding insert add_plan
  insert_inputs sets items [] inv = (inv, some [])
  insert_inputs sets [] (i ∷ ins) inv = (inv, none)
  insert_inputs sets (none ∷ items) (i ∷ ins) inv = (inv, none)
  insert_inputs sets (some item ∷ items) (i ∷ ins) inv =
      let required = sets *ℤ i.size in
      let (inv', plan) = insert F inv item required in
      elim (eq_ℤ plan.total_size required) [
        | false ↦ (inv', none)
        | true ↦
            let (inv'', plans) = insert_inputs sets items ins inv' in (inv'', add_plan plan plans)
      ]

  -- From `retry` on, with so many sets: the inventory is the backup again before each further
  -- round, but not after the last.
  unfoldable pub retry :
      ℕ
      → List (Option (Item Double))
      → List (RecipeIn Double U)
      → Inventory Double
      → Inventory Double × Option (ℕ × List InsertResult)
  unfolding insert_inputs
  retry zero items ins inv = (inv, none)
  retry (suc zero) items ins inv =
      let (inv', outcome) = insert_inputs (pos 1) items ins inv in
      elim outcome [ none ↦ (inv', none) | some plans ↦ (inv', some (1, plans)) ]
  retry (suc (suc n)) items ins inv =
      let (inv', outcome) = insert_inputs (pos (suc (suc n))) items ins inv in
      elim outcome [
        | none ↦ retry (suc n) items ins inv
        | some plans ↦ (inv', some (suc (suc n), plans))
      ]
