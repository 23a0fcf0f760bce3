-- ===== src/Process/Buffered/Cycle.antt =====
-- `ProcessBuffered`: the callback of a cycle, up to the promises.
pub mod Counted
use ocremote.Base.{
  ℕ, ◌+◌, Bool, true, false, not, ◌||◌, Option, none, some, List, [], ◌∷◌, if◌then◌else◌,
}
use ocremote.Base.Int.{ℤ, pos, ◌+ℤ◌, ◌-ℤ◌, min_ℤ, max_ℤ, leb_ℤ}
use ocremote.Serialize.Value.{Doubles, Table}
use ocremote.Item.{Item, ItemStack, Inventory, ItemFilter, matches, item_eq}
use ocremote.Item.Insert.{InsertResult, insert}
use ocremote.Factory.ItemInfo.{Reservation}
use ocremote.Factory.Stock.{Stock, get_item, get_avail}
use ocremote.Factory.Demand.{RecipeIn, Recipe}
use ocremote.Factory.Reserving.{reserve}
use ocremote.Literals

pub record StockEntry (D : Type 0) : Type 0 where
  pub item : ItemFilter D
  pub to_stock : ℤ
  pub allow_backup : Bool
  pub extra_backup : ℤ

-- Recipe<int>: maxInproc
abbrev pub BufferedRecipe : Type 0 → Type 0
BufferedRecipe D = Recipe D ℤ Unit

-- placeholderItem, one of it
abbrev pub placeholder : {D : Type 0} → ItemStack D
placeholder = record {
  item = record {
    name = Literals.placeholder_name;
    label = Literals.placeholder_label;
    damage = pos 0;
    max_damage = pos 0;
    max_size = pos 1;
    has_tag = false;
    others = Table.end;
  };
  size = pos 1;
}

-- The sizes of the inputs of a recipe: listSum.
unfoldable pub list_sum : {D U : Type 0} → List (RecipeIn D U) → ℤ
list_sum [] = pos 0
list_sum (i ∷ ins) = i.size +ℤ list_sum ins

unfoldable pub is_listed : {D : Type 0} → List (StockEntry D) → Item D → Bool
is_listed [] item = false
is_listed (entry ∷ entries) item = matches entry.item item || is_listed entries item

module _ (F : Doubles) where
  open F use {Double}

  -- inProcMap and quota
  abbrev pub InProc : Type 0
  InProc = List (Item Double × ℤ)

  pub record Counts : Type 0 where
    pub in_proc : InProc
    pub quota : ℤ

  -- inProcMap[item], and inProcMap[item] += n
  unfoldable pub find_in_proc : Item Double → InProc → ℤ
  find_in_proc item [] = pos 0
  find_in_proc item ((key, n) ∷ rest) = if item_eq F key item then n else find_in_proc item rest

  unfoldable pub add_in_proc : Item Double → ℤ → InProc → InProc
  add_in_proc item n [] = (item, n) ∷ []
  add_in_proc item n ((key, m) ∷ rest) =
      let rest' = add_in_proc item n rest in
      if item_eq F key item then (key, m +ℤ n) ∷ rest else (key, m) ∷ rest'

  module _ (out_filter : Option (ℕ → ItemStack Double → Bool)) (slot_filter : Option (ℕ → Bool))
      (entries : List (StockEntry Double)) where
    unfoldable pub is_output : ℕ → Option (ItemStack Double) → Bool
    is_output slot none = false
    is_output slot (some stack) = elim out_filter [ none ↦ false | some f ↦ f slot stack ]

    unfoldable pub is_barred : ℕ → Bool
    is_barred slot = elim slot_filter [ none ↦ false | some f ↦ not (f slot) ]

    unfoldable pub count : Option (ItemStack Double) → Counts → Counts
    unfolding add_in_proc is_listed
    count none c = c
    count (some stack) c = record {
      in_proc = add_in_proc stack.item stack.size c.in_proc;
      quota = if is_listed entries stack.item then c.quota else c.quota -ℤ stack.size;
    }

    unfoldable pub output : ℕ → Option (ItemStack Double) → List (ℕ × ℤ) → List (ℕ × ℤ)
    output slot none outputs = outputs
    output slot (some stack) outputs = (slot, stack.item.max_size) ∷ outputs

    -- The loop over the listed slots from `slot` on: the inventory with the placeholder in the slots
    -- that are output or barred, the outputs with their sizes, and the counts.
    unfoldable pub visit_items :
        ℕ → Inventory Double → Counts → Inventory Double × List (ℕ × ℤ) × Counts
    unfolding is_output is_barred count output
    visit_items slot [] c = ([], [], c)
    visit_items slot (stack ∷ rest) c =
        let out = is_output slot stack in
        let taken = out || is_barred slot in
        let (inv, outputs, c') = visit_items (slot + 1) rest (if taken then c else count stack c) in
        (
          (if taken then some placeholder else stack) ∷ inv,
          (if out then output slot stack outputs else outputs),
          c',
        )

  -- What the loops over the entries and the demands change.
  pub record State : Type 0 where
    pub stock : Stock F
    pub inventory : Inventory Double
    pub counts : Counts

  -- The body of the loop over the stock list. `none`: the reservation goes wrong.
  unfoldable pub stock_item :
      StockEntry Double → Item Double → State → Option (State × Option (InsertResult × Reservation))
  unfolding find_in_proc add_in_proc get_avail insert reserve
  stock_item entry item st =
      let to_proc = min_ℤ (entry.to_stock -ℤ find_in_proc item st.counts.in_proc) (
        max_ℤ (pos 0)
          (get_avail F st.stock (some item) entry.allow_backup -ℤ entry.extra_backup)) in
      elim (leb_ℤ to_proc (pos 0)) [
        | true ↦ some (st, none)
        | false ↦
            let (inv, plan) = insert F st.inventory item to_proc in
            elim (leb_ℤ plan.total_size (pos 0)) [
              | true ↦ some (record st { inventory = inv }, none)
              | false ↦ elim (reserve F st.stock item plan.total_size) [
                | none ↦ none
                | some (stock, shares) ↦ some (
                  record {
                    stock = stock;
                    inventory = inv;
                    counts = record st.counts {
                      in_proc = add_in_proc item plan.total_size st.counts.in_proc;
                    };
                  },
                  some (plan, shares),
                )
              ]
            ]
      ]

  unfoldable pub add_stocked :
      Option (InsertResult × Reservation)
      → List (InsertResult × Reservation)
      → List (InsertResult × Reservation)
  add_stocked none rest = rest
  add_stocked (some stocked) rest = stocked ∷ rest

  -- The loop over the stock list.
  unfoldable pub stock_items :
      List (StockEntry Double) → State → Option (State × List (InsertResult × Reservation))
  unfolding stock_item get_item add_stocked
  stock_items [] st = some (st, [])
  stock_items (entry ∷ entries) st = elim (get_item F st.stock entry.item) [
    | none ↦ stock_items entries st
    | some item ↦ elim (stock_item entry item st) [
      | none ↦ none
      | some (st', stocked) ↦ elim (stock_items entries st') [
        | none ↦ none
        | some (st'', rest) ↦ some (st'', add_stocked stocked rest)
      ]
    ]
  ]
