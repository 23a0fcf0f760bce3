-- ===== src/Process/Buffered/Recipes/Filled.antt =====
-- What it is for a recipe to go into the buffer, and for no more sets of it to go in.
use ocremote.Base.{ℕ, ◌≡◌, inl, inr, ◌⊎◌, true, none, some, [], map, All, arith, Bool-cases}
use ocremote.Base.Int.{
  ℤ, pos, ◌≤ℤ◌, ◌<ℤ◌, ◌+ℤ◌, ◌-ℤ◌, ◌*ℤ◌, div_ℤ, div-lt, leb_ℤ→le, min_ℤ, min_ℤ_parts, leb_ℤ,
  leb_ℤ→lt, int_laws,
}
use ocremote.Serialize.Value.{Doubles}
use ocremote.Item.{Item}
use ocremote.Factory.Stock.{get_item}
use ocremote.Factory.Demand.{Floats, Demand, resolve, resolve_recipe_inputs}
use ocremote.Factory.Demand.Enough.{needs, total}
use ocremote.Process.Buffered.{insert_inputs}
use ocremote.Process.Buffered.Cycle.{BufferedRecipe, list_sum, find_in_proc, State}
use ocremote.Process.Buffered.Recipes.{in_proc_sum, Filling, refresh, sets_to_try}

module _ (F : Doubles) where
  open F use {Double}

  -- The inputs of a recipe need at least one item each, keep no negative backup, and there is one.
  abbrev pub IsUsable : BufferedRecipe Double → Type 0
  IsUsable recipe =
      All (λ i. (pos 0 <ℤ i.size) × (pos 0 ≤ℤ i.extra_backup)) recipe.inputs
      × (pos 0 <ℤ list_sum recipe.inputs)

  -- A recipe goes in, from one state to the next. Its inputs are what the stock has for its filters;
  -- at least one set goes in; what is in process of its inputs and what goes in are no more than its
  -- limit; the plans are those of an insertion of so many sets; of each item, what so many sets need
  -- is more in process and less in the stock; and what goes in is taken off the quota.
  pub record IsFilled (st : State F) (f : Filling F) (st' : State F) : Type 0 where
    pub found : f.inputs ≡ map (λ i. get_item F st.stock i.item) f.recipe.inputs
    pub positive : pos 0 <ℤ f.sets
    pub limited :
        in_proc_sum F st.counts.in_proc f.inputs +ℤ f.sets *ℤ list_sum f.recipe.inputs
        ≤ℤ f.recipe.info
    pub inserted :
        insert_inputs F f.sets f.inputs f.recipe.inputs st.inventory ≡ (st'.inventory, some f.plans)
    pub counted :
        (x : Item Double)
        → find_in_proc F x st'.counts.in_proc
          ≡ find_in_proc F x st.counts.in_proc +ℤ f.sets *ℤ needs F x f.inputs f.recipe.inputs
    pub taken :
        (x : Item Double)
        → total F st'.stock x ≡ total F st.stock x -ℤ (f.sets *ℤ needs F x f.inputs f.recipe.inputs)
    pub charged : st'.counts.quota +ℤ f.sets *ℤ list_sum f.recipe.inputs ≡ st.counts.quota

  module _ (G : Floats) where
    -- So many sets of a recipe are more than `resolveRecipeInputs` allows, than is left of the quota,
    -- or than its limit leaves room for, or they do not go into the inventory.
    abbrev pub Exceeds : Demand F G ℤ Unit → State F → ℕ → Type 0
    Exceeds demand st m =
        let (items, in_avail) = resolve F st.stock true demand.recipe.inputs [] in
        let size = pos m *ℤ list_sum demand.recipe.inputs in
        (in_avail <ℤ pos m)
        ⊎ ((st.counts.quota <ℤ size)
            ⊎ ((demand.recipe.info <ℤ in_proc_sum F st.counts.in_proc items +ℤ size)
                ⊎ ((insert_inputs F (pos m) items demand.recipe.inputs st.inventory).1 ≡ none)))

    abbrev pub IsMost : Demand F G ℤ Unit → State F → ℤ → Type 0
    IsMost demand st sets = (m : ℕ) → sets <ℤ pos m → Exceeds demand st m

    -- Sets that are not tried are too many, as are those that fail.
    pub exceeds :
        (demand : Demand F G ℤ Unit) (st : State F) (m : ℕ)
        → pos 0 <ℤ list_sum demand.recipe.inputs
        → (let d = refresh F G st.stock demand in
            pos m ≤ℤ sets_to_try F G d st
            → (insert_inputs F (pos m) d.inputs d.recipe.inputs st.inventory).1 ≡ none)
        → Exceeds demand st m
    unfolding refresh resolve_recipe_inputs sets_to_try
    exceeds demand st m some_size fails =
        let (items, in_avail) = resolve F st.stock true demand.recipe.inputs [] in
        let sum = list_sum demand.recipe.inputs in
        let room = demand.recipe.info -ℤ in_proc_sum F st.counts.in_proc items in
        let by_quota = div_ℤ st.counts.quota sum in
        let by_limit = div_ℤ room sum in
        let m1 = min_ℤ_parts (min_ℤ in_avail by_quota) by_limit in
        let m2 = min_ℤ_parts in_avail by_quota in
        elim (Bool-cases (leb_ℤ (pos m) in_avail)) [
          | inr e ↦ inl (leb_ℤ→lt (pos m) in_avail e)
          | inl e ↦ elim (Bool-cases (leb_ℤ (pos m) by_quota)) [
            | inr q ↦
                inr (inl (div-lt m st.counts.quota sum some_size (leb_ℤ→lt (pos m) by_quota q)))
            | inl q ↦ elim (Bool-cases (leb_ℤ (pos m) by_limit)) [
              | inr l ↦
                  let over = div-lt m room sum some_size (leb_ℤ→lt (pos m) by_limit l) in
                  inr (inr (inl (omega (int_laws, over))))
              | inl l ↦ inr (
                  inr (
                    inr (
                      fails (
                        omega (
                          arith,
                          m1,
                          m2,
                          leb_ℤ→le (pos m) in_avail e,
                          leb_ℤ→le (pos m) by_quota q,
                          leb_ℤ→le (pos m) by_limit l,
                        )))))
            ]
          ]
        ]
