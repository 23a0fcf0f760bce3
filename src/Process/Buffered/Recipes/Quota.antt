-- ===== src/Process/Buffered/Recipes/Quota.antt =====
-- The recipes keep to the quota, and their reservations do not go wrong.
use ocremote.Base.{
  OneOf-All, ◌≡◌, refl, inl, inr, true, Option, none, some, List, [], ◌∷◌, All, All-map, Bool-cases,
}
use ocremote.Base.Int.{ℤ, pos, ◌≤ℤ◌, ◌+ℤ◌, ◌*ℤ◌, leb_ℤ, leb_ℤ→le, int_laws, eq_of_parts, parts_eq}
use ocremote.Serialize.Value.{Doubles}
use ocremote.Item.{Inventory}
use ocremote.Factory.Demand.{Floats, Demand, get_demand}
use ocremote.Factory.Demand.Order.{get_demand-IsWanted}
use ocremote.Factory.Reserving.Inputs.{IsSound}
use ocremote.Process.Buffered.Cycle.{BufferedRecipe, list_sum, State}
use ocremote.Process.Buffered.Recipes.{Filling, fill_demand, fill_demands, fill_recipes}
use ocremote.Process.Buffered.Recipes.Filled.{IsUsable, IsFilled, IsMost}
use ocremote.Process.Buffered.Recipes.Steps.{Step, skipped, filled, fill_demand-Step}

module _ (F : Doubles) where
  open F use {Double}

  -- All that goes into the buffer.
  unfoldable pub spent : List (Filling F) → ℤ
  spent [] = pos 0
  spent (f ∷ fs) = f.sets *ℤ list_sum f.recipe.inputs +ℤ spent fs

  module _ (G : Floats) where
    -- The demands are met one after another, each with as many sets as can go in, until nothing is
    -- left of the quota; a demand for which nothing goes in may leave another inventory.
    pub data AreFilled
        : State F → List (Demand F G ℤ Unit) → List (Filling F) → State F → Type 0 where
      done : {st : State F} → AreFilled st [] [] st
      used_up :
          {st : State F} {demands : List (Demand F G ℤ Unit)}
          → st.counts.quota ≤ℤ pos 0
          → AreFilled st demands [] st
      passed :
          {st last : State F} {demand : Demand F G ℤ Unit} {demands : List (Demand F G ℤ Unit)}
          {fs : List (Filling F)} (inv : Inventory Double)
          → IsMost F G demand st (pos 0)
          → AreFilled (record st { inventory = inv }) demands fs last
          → AreFilled st (demand ∷ demands) fs last
      next :
          {st st' last : State F} {demand : Demand F G ℤ Unit} {demands : List (Demand F G ℤ Unit)}
          {f : Filling F} {fs : List (Filling F)}
          → f.recipe ≡ demand.recipe
          → IsFilled F st f st'
          → IsMost F G demand st f.sets
          → AreFilled st' demands fs last
          → AreFilled st (demand ∷ demands) (f ∷ fs) last

    -- What becomes of all demands.
    pub record Fills (demands : List (Demand F G ℤ Unit)) (st : State F)
        (outcome : Option (State F × List (Filling F))) : Type 0 where
      pub left : State F
      pub fillings : List (Filling F)
      pub returned : outcome ≡ some (left, fillings)
      pub sound : IsSound F left.stock.items
      pub filled : AreFilled st demands fillings left
      pub accounted : left.counts.quota +ℤ spent fillings ≡ st.counts.quota
      pub not_exceeded : pos 0 ≤ℤ left.counts.quota

    next-Fills :
        (demand : Demand F G ℤ Unit) (rest : List (Demand F G ℤ Unit)) (st : State F)
        (outcome : Option (State F × Option (Filling F)))
        → fill_demand F G demand st ≡ outcome
        → IsSound F st.stock.items
        → pos 0 ≤ℤ st.counts.quota
        → ((st' : State F)
            → IsSound F st'.stock.items
            → pos 0 ≤ℤ st'.counts.quota
            → Fills rest st' (fill_demands F G rest st'))
        → Step F G demand st outcome
        → Fills (demand ∷ rest) st (fill_demands F G (demand ∷ rest) st)
    unfolding fill_demands spent
    next-Fills demand rest st none e sound q go_on i = elim i [ ]
    next-Fills demand rest st (some (st', none)) e sound q go_on (skipped inv most) =
        let l = go_on (record st { inventory = inv }) sound q in
        rw (fill_demands, e)
          (record {
            left = l.left;
            fillings = l.fillings;
            returned = l.returned;
            sound = l.sound;
            filled = passed inv most l.filled;
            accounted = l.accounted;
            not_exceeded = l.not_exceeded;
          })
    next-Fills demand rest st (some (st', some f)) e sound q go_on (filled snd same k most nonneg) =
        elim (Bool-cases (leb_ℤ st'.counts.quota (pos 0))) [
          | inl used ↦
              rw (fill_demands, e, used)
                (record {
                  left = st';
                  fillings = f ∷ [];
                  returned = refl;
                  sound = snd;
                  filled = next same k most (used_up (leb_ℤ→le st'.counts.quota (pos 0) used));
                  accounted = eq_of_parts _ _ (omega (int_laws, parts_eq k.charged));
                  not_exceeded = nonneg;
                })
          | inr more ↦
              let l = go_on st' snd nonneg in
              rw (fill_demands, e, more, l.returned)
                (record {
                  left = l.left;
                  fillings = f ∷ l.fillings;
                  returned = refl;
                  sound = l.sound;
                  filled = next same k most l.filled;
                  accounted =
                      eq_of_parts _ _ (omega (int_laws, parts_eq k.charged, parts_eq l.accounted));
                  not_exceeded = l.not_exceeded;
                })
        ]

    fill_demands-Fills :
        (demands : List (Demand F G ℤ Unit)) (st : State F)
        → All (λ d. IsUsable F d.recipe) demands
        → IsSound F st.stock.items
        → pos 0 ≤ℤ st.counts.quota
        → Fills demands st (fill_demands F G demands st)
    unfolding fill_demands spent
    fill_demands-Fills [] st usable sound q = record {
      left = st;
      fillings = [];
      returned = refl;
      sound = sound;
      filled = done;
      accounted = eq_of_parts _ _ (omega int_laws);
      not_exceeded = q;
    }
    fill_demands-Fills (demand ∷ rest) st usable sound q =
        next-Fills demand rest st (fill_demand F G demand st) refl sound q
          (λ st' snd nonneg. fill_demands-Fills rest st' usable.1 snd nonneg)
          (fill_demand-Step F G demand st sound usable.0)

    -- In a sound stock, with recipes that have inputs, which need at least one item each and keep no
    -- negative backup, and with a quota that is not below zero: the reservations for the recipes go
    -- wrong for none, and leave a sound stock. The demands of `getDemand` are met one after another
    -- until nothing is left of the quota: each with as many sets as can go in, so that any more are
    -- more than `resolveRecipeInputs` allows, than is left of the quota, or than its limit leaves room
    -- for beside what is in process then of its inputs, or do not go into the inventory of that time. A recipe that goes in
    -- does so for at least one set of what the stock has then for its inputs, within its limit, and
    -- with the plans of an insertion of the sets; and from there on, of each item, what the sets need
    -- is more in process and less in the stock. All that goes in and the quota that is left are the
    -- quota, and that is not below zero.
    pub fill_recipes-Fills :
        (recipes : List (BufferedRecipe Double)) (st : State F)
        → All (IsUsable F) recipes
        → IsSound F st.stock.items
        → pos 0 ≤ℤ st.counts.quota
        → Fills (get_demand F G st.stock recipes true) st (fill_recipes F G recipes st)
    unfolding fill_recipes spent
    fill_recipes-Fills recipes st usable sound q =
        elim (Bool-cases (leb_ℤ st.counts.quota (pos 0))) [
          | inl used ↦
              rw (fill_recipes, used)
                (record {
                  left = st;
                  fillings = [];
                  returned = refl;
                  sound = sound;
                  filled = used_up (leb_ℤ→le st.counts.quota (pos 0) used);
                  accounted = eq_of_parts _ _ (omega int_laws);
                  not_exceeded = q;
                })
          | inr more ↦
              let wanted = get_demand-IsWanted F G st.stock true recipes in
              rw (fill_recipes, more)
                (fill_demands-Fills (get_demand F G st.stock recipes true) st
                  (All-map _ (λ d. IsUsable F d.recipe) (get_demand F G st.stock recipes true)
                    (λ d w. OneOf-All (IsUsable F) d.recipe recipes w.listed usable) wanted.0)
                  sound q)
        ]
