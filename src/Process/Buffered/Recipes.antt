-- ===== src/Process/Buffered/Recipes.antt =====
-- `ProcessBuffered`: the loop over the demands in the callback of a cycle, up to the promises.
pub mod Planned
pub mod Filled
pub mod Steps
pub mod Quota
use ocremote.Base.{ℕ, true, false, Option, none, some, List, [], ◌∷◌}
use ocremote.Base.Int.{ℤ, pos, ◌+ℤ◌, ◌-ℤ◌, ◌*ℤ◌, div_ℤ, min_ℤ, leb_ℤ, pos_part}
use ocremote.Serialize.Value.{Doubles}
use ocremote.Item.{Item, Inventory}
use ocremote.Item.Insert.{InsertResult}
use ocremote.Factory.ItemInfo.{Reservation}
use ocremote.Factory.Stock.{Stock}
use ocremote.Factory.Demand.{Floats, Demand, resolve_recipe_inputs, get_demand}
use ocremote.Factory.Reserving.{reserve}
use ocremote.Process.Buffered.{retry}
use ocremote.Process.Buffered.Cycle.{
  BufferedRecipe, list_sum, InProc, find_in_proc, add_in_proc, State,
}

module _ (F : Doubles) where
  open F use {Double}

  -- inProcSum, over demand.in
  unfoldable pub in_proc_sum : InProc F → List (Option (Item Double)) → ℤ
  unfolding find_in_proc
  in_proc_sum in_proc [] = pos 0
  in_proc_sum in_proc (none ∷ items) = in_proc_sum in_proc items
  in_proc_sum in_proc (some item ∷ items) = find_in_proc F item in_proc +ℤ in_proc_sum in_proc items

  -- *inProcs[i] += plans[i].totalSize, for each input
  unfoldable pub add_plans : List (Option (Item Double)) → List InsertResult → InProc F → InProc F
  unfolding add_in_proc
  add_plans (some item ∷ items) (plan ∷ plans) in_proc =
      add_plans items plans (add_in_proc F item plan.total_size in_proc)
  add_plans items plans in_proc = in_proc

  -- factory.reserve(name, demand.in[i], plans[i].totalSize), for each input. `none`: a reservation
  -- goes wrong, or an item is null.
  unfoldable pub reserve_plans :
      List (Option (Item Double))
      → List InsertResult
      → Stock F
      → Option (Stock F × List Reservation)
  unfolding reserve
  reserve_plans [] plans s = some (s, [])
  reserve_plans (item ∷ items) [] s = some (s, [])
  reserve_plans (none ∷ items) (plan ∷ plans) s = none
  reserve_plans (some item ∷ items) (plan ∷ plans) s = elim (reserve F s item plan.total_size) [
    | none ↦ none
    | some (s', shares) ↦ elim (reserve_plans items plans s') [
      | none ↦ none
      | some (s'', rest) ↦ some (s'', shares ∷ rest)
    ]
  ]

  -- A recipe that goes into the buffer: its inputs (demand.in), how many sets, the plans and the
  -- reservations.
  pub record Filling : Type 0 where
    pub recipe : BufferedRecipe Double
    pub inputs : List (Option (Item Double))
    pub sets : ℤ
    pub plans : List InsertResult
    pub reservations : List Reservation

  module _ (G : Floats) where
    -- demand.in.clear() and resolveRecipeInputs
    unfoldable pub refresh : Stock F → Demand F G ℤ Unit → Demand F G ℤ Unit
    refresh s demand = resolve_recipe_inputs F G s (record demand { inputs = [] }) true

    -- How many sets are tried. (A recipe without inputs divides by zero in the source.)
    unfoldable pub sets_to_try : Demand F G ℤ Unit → State F → ℤ
    unfolding list_sum in_proc_sum
    sets_to_try d st =
        let sum = list_sum d.recipe.inputs in
        min_ℤ (min_ℤ d.in_avail (div_ℤ st.counts.quota sum))
          (div_ℤ (d.recipe.info -ℤ in_proc_sum st.counts.in_proc d.inputs) sum)

    -- From the block after the loop over the inputs: the counts, and the reservations.
    unfoldable pub commit :
        Demand F G ℤ Unit
        → ℕ
        → List InsertResult
        → Inventory Double
        → State F
        → Option (State F × Option Filling)
    unfolding reserve_plans add_plans list_sum
    commit d sets plans inv st = elim (reserve_plans d.inputs plans st.stock) [
      | none ↦ none
      | some (stock, reservations) ↦ some (
        record {
          stock = stock;
          inventory = inv;
          counts = record {
            in_proc = add_plans d.inputs plans st.counts.in_proc;
            quota = st.counts.quota -ℤ pos sets *ℤ list_sum d.recipe.inputs;
          };
        },
        some (record {
          recipe = d.recipe;
          inputs = d.inputs;
          sets = pos sets;
          plans = plans;
          reservations = reservations;
        }),
      )
    ]

    -- What `retry` comes to. If not one set goes in, the inventory stays as the last try left it.
    unfoldable pub finish :
        Demand F G ℤ Unit
        → State F
        → Inventory Double × Option (ℕ × List InsertResult)
        → Option (State F × Option Filling)
    unfolding commit
    finish d st (inv, none) = some (record st { inventory = inv }, none)
    finish d st (inv, some (sets, plans)) = commit d sets plans inv st

    -- The body of the loop over the demands.
    unfoldable pub fill_demand : Demand F G ℤ Unit → State F → Option (State F × Option Filling)
    unfolding refresh sets_to_try finish retry
    fill_demand demand st =
        let d = refresh st.stock demand in
        let sets = sets_to_try d st in
        elim (leb_ℤ sets (pos 0)) [
          | true ↦ some (st, none)
          | false ↦ finish d st (retry F (pos_part sets) d.inputs d.recipe.inputs st.inventory)
        ]

    -- The loop over the demands, which ends where nothing is left of the quota.
    unfoldable pub fill_demands :
        List (Demand F G ℤ Unit) → State F → Option (State F × List Filling)
    unfolding fill_demand
    fill_demands [] st = some (st, [])
    fill_demands (demand ∷ rest) st = elim (fill_demand demand st) [
      | none ↦ none
      | some (st', none) ↦ fill_demands rest st'
      | some (st', some filling) ↦ elim (leb_ℤ st'.counts.quota (pos 0)) [
        | true ↦ some (st', filling ∷ [])
        | false ↦ elim (fill_demands rest st') [
          | none ↦ none
          | some (st'', fillings) ↦ some (st'', filling ∷ fillings)
        ]
      ]
    ]

    -- if (quota > 0) …
    unfoldable pub fill_recipes :
        List (BufferedRecipe Double) → State F → Option (State F × List Filling)
    unfolding fill_demands
    fill_recipes recipes st = elim (leb_ℤ st.counts.quota (pos 0)) [
      | true ↦ some (st, [])
      | false ↦ fill_demands (get_demand F G st.stock recipes true) st
    ]
