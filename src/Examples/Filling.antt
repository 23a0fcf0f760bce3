-- ===== src/Examples/Filling.antt =====
-- A buffer with a quota that is filled from a stock of five items.
use ocremote.Base.{
  Bool, ◌≡◌, ◌==◌, not, refl, true, false, Option, none, some, List, [], ◌∷◌, All, arith, ℕ, map,
}
use ocremote.Base.Int.{ℤ, pos, ◌+ℤ◌, ◌-ℤ◌}
use ocremote.Item.{Inventory, ItemStack, ItemFilter}
use ocremote.Factory.Demand.{get_demand}
use ocremote.Process.Buffered.Cycle.{
  Counts, find_in_proc, BufferedRecipe, State, list_sum, visit_items, count, is_output, is_barred,
  is_listed, output, placeholder, add_in_proc,
}
use ocremote.Process.Buffered.Recipes.{fill_recipes}
use ocremote.Process.Buffered.Cycle.Counted.{held, loose, visit_items-counted}
use ocremote.Process.Buffered.Recipes.Filled.{IsUsable}
use ocremote.Process.Buffered.Recipes.Quota.{Fills, fill_recipes-Fills}
use ocremote.Examples.Numbers.{bytes}
use ocremote.Examples.Casting.{percents}
use ocremote.Examples.Inserting.{item_named}
use ocremote.Examples.Planning.{five_items, five_items-IsSound}

-- Two of the item for each set, of which no more than ten may be in process.
abbrev recipes : List (BufferedRecipe ℕ)
recipes =
    record {
      outputs = [];
      inputs =
          record {
            item = ItemFilter.name (97 ∷ []);
            size = pos 2;
            extra_backup = pos 0;
            allow_backup = false;
            info = tt;
          }
          ∷ [];
      info = pos 10;
    }
    ∷ []

abbrev empty_buffer : State bytes
empty_buffer = record {
  stock = five_items;
  inventory = none ∷ none ∷ [];
  counts = record { in_proc = []; quota = pos 6 };
}

recipes-IsUsable : All (IsUsable bytes) recipes
unfolding list_sum ◌+ℤ◌
recipes-IsUsable = ((((omega arith, omega arith), tt), omega arith), tt)

fill_recipes-Fills_example :
    Fills bytes percents
      (get_demand bytes percents five_items recipes true)
      empty_buffer
      (fill_recipes bytes percents recipes empty_buffer)
fill_recipes-Fills_example =
    fill_recipes-Fills bytes percents recipes empty_buffer recipes-IsUsable five_items-IsSound
      (omega arith)

abbrev stack_of : ℕ → ℤ → Option (ItemStack ℕ)
stack_of n size = some (record { item = item_named n; size = size })

abbrev out_filter : Option (ℕ → ItemStack ℕ → Bool)
out_filter = some (λ slot stack. slot == 1)

abbrev slot_filter : Option (ℕ → Bool)
slot_filter = some (λ slot. not (slot == 3))

abbrev listed : Inventory ℕ
listed = stack_of 97 (pos 4) ∷ stack_of 98 (pos 1) ∷ none ∷ none ∷ []

abbrev counts : Counts bytes
counts = record { in_proc = []; quota = pos 6 }

-- The slot 1 is output and the slot 3 is barred; what is in the slot 0 counts.
visited :
    let (inv, outputs, c) = visit_items bytes out_filter slot_filter [] 0 listed counts in
    (inv ≡ stack_of 97 (pos 4) ∷ some placeholder ∷ none ∷ some placeholder ∷ [])
    × (map (λ o. o.0) outputs ≡ 1 ∷ [])
    × (c.quota ≡ pos 2)
unfolding visit_items count is_output is_barred is_listed output add_in_proc ◌-ℤ◌
visited = (refl, refl, refl)

visit_items-counted_example :
    let (inv, outputs, c) = visit_items bytes out_filter slot_filter [] 0 listed counts in
    (find_in_proc bytes (item_named 97) c.in_proc
      ≡ find_in_proc bytes (item_named 97) []
        +ℤ held bytes out_filter slot_filter [] (item_named 97) 0 listed)
    × (c.quota +ℤ loose bytes out_filter slot_filter [] 0 listed ≡ pos 6)
visit_items-counted_example =
    visit_items-counted bytes out_filter slot_filter [] (item_named 97) 0 listed counts
