-- ===== src/Examples/Planning.antt =====
-- A recipe that takes the same item twice, on a stock that has some of it.
use mathlib.Core.List.{Perm}
use ocremote.Base.{
  ℕ, ◌≡◌, ◌≢◌, refl, true, false, Option, none, some, List, [], ◌∷◌, All, map, arith, text_eq,
}
use ocremote.Base.Int.{ℤ, pos, ◌≤ℤ◌, ◌<ℤ◌, ◌+ℤ◌, ◌-ℤ◌, ◌*ℤ◌, min_ℤ, max_ℤ, div_ℤ}
use ocremote.Serialize.Equality.{table_eq}
use ocremote.Item.{Item, ItemFilter, item_eq, bool_eq}
use ocremote.Factory.ItemInfo
use ocremote.Factory.ItemInfo.{Provider}
use ocremote.Factory.ItemInfo.Valid.{total_avail}
use ocremote.Factory.Stock.{Stock, find_info, get_avail, add_result, visit_range, get_item}
use ocremote.Factory.Demand.{
  RecipeIn, input_avail, note_need, add_need, resolve_input, resolve_inputs, limit_sets, resolve,
  get_demand, Demand,
}
use ocremote.Factory.Demand.Enough.{IsStocked, needs, total, resolve-enough}
use ocremote.Factory.Demand.Order.{IsWanted, ArePicked, IsSorted, get_demand-IsWanted}
use ocremote.Factory.Reserving.{reserve_inputs}
use ocremote.Factory.Reserving.Inputs.{IsSound, TakesAll, reserve_inputs-TakesAll}
use ocremote.Process.Crafting.{CraftInfo, CraftRecipe}
use ocremote.Process.Crafting.Plan.{Planned, plan}
use ocremote.Process.Crafting.Plan.Returns.{plan-returns}
use ocremote.Examples.Numbers.{bytes}
use ocremote.Examples.Casting.{percents}
use ocremote.Examples.Inserting.{item_named}

abbrev five : Provider
five = record { id = 0; priority = pos 1; avail = pos 5 }

-- Five of an item, one of them as a backup.
abbrev pub five_items : Stock bytes
five_items = record {
  items = (item_named 97, record { providers = five ∷ []; n_avail = pos 5; n_backup = pos 1 }) ∷ [];
  name_map = (97 ∷ [], item_named 97) ∷ [];
  label_map = (97 ∷ [], item_named 97) ∷ [];
}

five_items-IsStocked : IsStocked bytes five_items
five_items-IsStocked = ((omega arith, omega arith), tt)

pub five_items-IsSound : IsSound bytes five_items.items
unfolding total_avail ◌+ℤ◌
five_items-IsSound =
    ((record { counted = refl; positive = (omega arith, tt); ordered = (tt, tt) }, omega arith), tt)

abbrev pub input_of : ℤ → RecipeIn ℕ (List ℕ)
input_of size = record {
  item = ItemFilter.name (97 ∷ []);
  size = size;
  extra_backup = pos 0;
  allow_backup = false;
  info = 0 ∷ [];
}

abbrev inputs : List (RecipeIn ℕ (List ℕ))
inputs = input_of (pos 2) ∷ input_of (pos 1) ∷ []

inputs_usable : All (λ i. (pos 0 <ℤ i.size) × (pos 0 ≤ℤ i.extra_backup)) inputs
inputs_usable = ((omega arith, omega arith), ((omega arith, omega arith), tt))

resolve-inputs :
    resolve bytes five_items true inputs []
    ≡ (some (item_named 97) ∷ some (item_named 97) ∷ [], pos 1)
unfolding resolve resolve_inputs resolve_input limit_sets note_need add_need input_avail get_item
    visit_range add_result get_avail find_info ItemInfo.get_avail item_eq bool_eq text_eq table_eq
    min_ℤ max_ℤ div_ℤ ◌+ℤ◌ ◌-ℤ◌
resolve-inputs = refl

resolve-enough_example :
    let (items, in_avail) = resolve bytes five_items true inputs [] in
    (items ≡ map (λ i. get_item bytes five_items i.item) inputs)
    × (pos 0 <ℤ in_avail → All (λ item. item ≢ none) items)
    × ((x : Item ℕ) (sets : ℤ)
        → pos 0 ≤ℤ sets
        → sets ≤ℤ in_avail
        → sets *ℤ needs bytes x items inputs ≤ℤ total bytes five_items x)
resolve-enough_example =
    resolve-enough bytes five_items five_items-IsStocked true inputs inputs_usable

abbrev found : List (Option (Item ℕ))
found = some (item_named 97) ∷ some (item_named 97) ∷ []

found_there : All (λ item. item ≢ none) found
found_there = ((λ e. cc), ((λ e. cc), tt))

found_enough : (x : Item ℕ) → pos 1 *ℤ needs bytes x found inputs ≤ℤ total bytes five_items x
found_enough x =
    let r = resolve-enough bytes five_items five_items-IsStocked true inputs inputs_usable in
    (rw resolve-inputs at r.2) x (pos 1) (omega arith) (omega arith)

reserve_inputs-TakesAll_example :
    TakesAll bytes five_items
      (pos 1)
      found
      inputs
      (reserve_inputs bytes (pos 1) found inputs five_items)
reserve_inputs-TakesAll_example =
    reserve_inputs-TakesAll bytes (pos 1) found inputs five_items five_items-IsSound (omega arith)
      found_there (omega arith, (omega arith, tt)) found_enough

abbrev recipes : List (CraftRecipe ℕ)
recipes =
    record {
      outputs = record { item = ItemFilter.name (98 ∷ []); size = pos 3 } ∷ [];
      inputs = inputs;
      info = record { max_sets = pos 8; non_consumables = [] };
    }
    ∷ []

get_demand-IsWanted_example :
    All
      (IsWanted bytes percents five_items true recipes)
      (get_demand bytes percents five_items recipes true)
    × IsSorted bytes percents five_items true (get_demand bytes percents five_items recipes true)
    × ((ds : List (Demand bytes percents CraftInfo (List ℕ))) × ArePicked bytes percents five_items
          true recipes ds
        × Perm (get_demand bytes percents five_items recipes true) ds)
get_demand-IsWanted_example = get_demand-IsWanted bytes percents five_items true recipes

plan-returns_example :
    (left : Stock bytes) × (planned : List (Planned bytes percents)) × (plan bytes percents recipes
        five_items
      ≡ some (left, planned))
    × IsSound bytes left.items
    × All (λ p. (pos 0 <ℤ p.sets) × (p.sets ≤ℤ p.recipe.info.max_sets)) planned
plan-returns_example =
    plan-returns bytes percents recipes five_items (inputs_usable, tt) five_items-IsSound
