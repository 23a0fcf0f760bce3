-- ===== src/Process/Buffered/Recipes/Steps.antt =====
-- What becomes of one demand in the loop of `ProcessBuffered`.
use ocremote.Base.{
  ℕ, ◌≡◌, ◌≢◌, ◌<◌, refl, ap, inl, inr, true, false, Option, none, some, List, [], ◌∷◌, map, All,
  All-map, arith, Bool-cases, Option-cases,
}
use ocremote.Base.Int.{
  ℤ, pos, pos_part, neg_part, ◌≤ℤ◌, ◌<ℤ◌, ◌-ℤ◌, ◌*ℤ◌, div_ℤ, div-mul_pos, leb_ℤ→le, min_ℤ,
  min_ℤ_parts, leb_ℤ, leb_ℤ→lt, int_laws, eq_of_parts,
}
use ocremote.Serialize.Value.{Doubles}
use ocremote.Item.{Item, Inventory}
use ocremote.Item.Insert.{InsertResult}
use ocremote.Factory.Stock.{Stock, get_item}
use ocremote.Factory.Demand.{Floats, RecipeIn, Demand, resolve, resolve_recipe_inputs}
use ocremote.Factory.Demand.Enough.{resolve-enough, needs, total}
use ocremote.Factory.Reserving.{reserve, reserve_inputs}
use ocremote.Factory.Reserving.Inputs.{IsSound, reserve_inputs-TakesAll}
use ocremote.Process.Crafting.Plan.Returns.{IsSound-IsStocked}
use ocremote.Process.Buffered.{insert_inputs, retry}
use ocremote.Process.Buffered.Greatest.{AreWhole, IsGreatest, retry-IsGreatest}
use ocremote.Process.Buffered.Cycle.{list_sum, State}
use ocremote.Process.Buffered.Recipes.Filled.{IsUsable, IsFilled, Exceeds, IsMost, exceeds}
use ocremote.Process.Buffered.Recipes.Planned.{find-add_plans}
use ocremote.Process.Buffered.Recipes.{
  in_proc_sum, reserve_plans, Filling, refresh, sets_to_try, commit, finish, fill_demand,
}

positive_part : (n : ℤ) → pos 0 <ℤ n → neg_part n ≡ 0
positive_part n h = ground arith

module _ (F : Doubles) where
  open F use {Double}

  -- Plans that are whole reserve just what so many sets need.
  reserve_plans-whole :
      {U : Type 0} (sets : ℤ) (items : List (Option (Item Double))) (ins : List (RecipeIn Double U))
      (plans : List InsertResult) (s : Stock F)
      → AreWhole F sets ins plans
      → reserve_plans F items plans s ≡ reserve_inputs F sets items ins s
  unfolding reserve_plans reserve_inputs
  reserve_plans-whole sets [] ins plans s w = refl
  reserve_plans-whole sets (x ∷ items) [] [] s w = refl
  reserve_plans-whole sets (x ∷ items) [] (p ∷ plans) s w = elim w [ ]
  reserve_plans-whole sets (x ∷ items) (i ∷ ins) [] s w = elim w [ ]
  reserve_plans-whole sets (none ∷ items) (i ∷ ins) (p ∷ plans) s w = refl
  reserve_plans-whole sets (some x ∷ items) (i ∷ ins) (p ∷ plans) s w =
      let same : reserve F s x p.total_size ≡ reserve F s x (sets *ℤ i.size) =
        ap (reserve F s x) w.0 in
      elim (Option-cases (reserve F s x (sets *ℤ i.size))) [
        | inl e ↦ rw (reserve_plans, reserve_inputs, same, e) refl
        | inr (r, e) ↦
            rw (reserve_plans, reserve_inputs, same, e)
              (rw (reserve_plans-whole sets items ins plans r.0 w.1) refl)
      ]

  module _ (G : Floats) where
    -- What becomes of one demand: as many sets go in as can.
    pub data Step (demand : Demand F G ℤ Unit) (st : State F)
        : Option (State F × Option (Filling F)) → Type 0 where
      skipped :
          (inv : Inventory Double)
          → IsMost F G demand st (pos 0)
          → Step demand st (some (record st { inventory = inv }, none))
      filled :
          {st' : State F} {f : Filling F}
          → IsSound F st'.stock.items
          → f.recipe ≡ demand.recipe
          → IsFilled F st f st'
          → IsMost F G demand st f.sets
          → pos 0 ≤ℤ st'.counts.quota
          → Step demand st (some (st', some f))

    -- What is needed of a refreshed demand, for so many sets.
    record Ready (st : State F) (d : Demand F G ℤ Unit) (n : ℤ) : Type 0 where
      in_avail : n ≤ℤ d.in_avail
      in_quota : n ≤ℤ div_ℤ st.counts.quota (list_sum d.recipe.inputs)
      in_limit :
          n
          ≤ℤ div_ℤ
              (d.recipe.info -ℤ in_proc_sum F st.counts.in_proc d.inputs)
              (list_sum d.recipe.inputs)
      positive : pos 0 <ℤ n
      usable : IsUsable F d.recipe
      found : d.inputs ≡ map (λ i. get_item F st.stock i.item) d.recipe.inputs
      there : All (λ item. item ≢ none) d.inputs
      enough :
          (x : Item Double) (sets : ℤ)
          → pos 0 ≤ℤ sets
          → sets ≤ℤ d.in_avail
          → sets *ℤ needs F x d.inputs d.recipe.inputs ≤ℤ total F st.stock x

    commit-Step :
        (demand d : Demand F G ℤ Unit) (n : ℤ) (k : ℕ) (plans : List InsertResult)
        (inv : Inventory Double) (st : State F)
        → IsSound F st.stock.items
        → Ready st d n
        → 0 < k
        → pos k ≤ℤ n
        → AreWhole F (pos k) d.recipe.inputs plans
        → insert_inputs F (pos k) d.inputs d.recipe.inputs st.inventory ≡ (inv, some plans)
        → d.recipe ≡ demand.recipe
        → IsMost F G demand st (pos k)
        → Step demand st (commit F G d k plans inv st)
    unfolding commit
    commit-Step demand d n k plans inv st sound r hk hn whole inserted same most =
        let sum = list_sum d.recipe.inputs in
        let room = d.recipe.info -ℤ in_proc_sum F st.counts.in_proc d.inputs in
        let some_sets : pos 0 <ℤ pos k = omega (arith, hk) in
        let afford =
          div-mul_pos (pos k) st.counts.quota sum some_sets r.usable.1
            (omega (arith, hn, r.in_quota)) in
        let fit =
          div-mul_pos (pos k) room sum some_sets r.usable.1 (omega (arith, hn, r.in_limit)) in
        let t =
          reserve_inputs-TakesAll F (pos k) d.inputs d.recipe.inputs st.stock sound some_sets
            r.there (All-map _ (λ i. pos 0 <ℤ i.size) d.recipe.inputs (λ i u. u.0) r.usable.0)
            (λ x. r.enough x (pos k) (omega (arith, hk)) (omega (arith, hn, r.in_avail))) in
        rw
          (
            commit,
            reserve_plans-whole (pos k) d.inputs d.recipe.inputs plans st.stock whole,
            t.returned,
          )
          (filled t.sound same
            (record {
              found = r.found;
              positive = some_sets;
              limited = omega (int_laws, fit);
              inserted = inserted;
              counted = λ x.
                  find-add_plans F x (pos k) d.inputs d.recipe.inputs plans st.counts.in_proc
                    (omega (arith, hk)) r.there whole;
              taken = t.rest;
              charged = eq_of_parts _ _ (omega int_laws);
            })
            most (omega (int_laws, afford)))

    finish-Step :
        (demand d : Demand F G ℤ Unit) (n : ℤ) (st : State F)
        (tried : Inventory Double × Option (ℕ × List InsertResult))
        → IsSound F st.stock.items
        → Ready st d n
        → IsGreatest F d.inputs d.recipe.inputs st.inventory (pos_part n) tried
        → d.recipe ≡ demand.recipe
        → ((m : ℕ)
            → (pos m ≤ℤ n
                → (insert_inputs F (pos m) d.inputs d.recipe.inputs st.inventory).1 ≡ none)
            → Exceeds F G demand st m)
        → Step demand st (finish F G d st tried)
    unfolding finish
    finish-Step demand d n st (inv, none) sound r g same more = skipped inv (λ m h.
        more m (λ le. g m (omega (arith, h)) (omega (arith, le, positive_part n r.positive))))
    finish-Step demand d n st (inv, some (k, plans)) sound r g same more =
        commit-Step demand d n k plans inv st sound r g.0
          (omega (arith, g.1, positive_part n r.positive)) g.3 g.2 same
          (λ m h.
            more m (λ le. g.4 m (omega (arith, h)) (omega (arith, le, positive_part n r.positive))))

    refresh-Ready :
        (demand : Demand F G ℤ Unit) (st : State F)
        → IsSound F st.stock.items
        → IsUsable F demand.recipe
        → let d = refresh F G st.stock demand in
          leb_ℤ (sets_to_try F G d st) (pos 0) ≡ false → Ready st d (sets_to_try F G d st)
    unfolding refresh resolve_recipe_inputs sets_to_try
    refresh-Ready demand st sound usable more =
        let e =
          resolve-enough F st.stock (IsSound-IsStocked F G st.stock sound) true demand.recipe.inputs
            usable.0 in
        let (items, in_avail) = resolve F st.stock true demand.recipe.inputs [] in
        let sum = list_sum demand.recipe.inputs in
        let by_quota = div_ℤ st.counts.quota sum in
        let by_limit = div_ℤ (demand.recipe.info -ℤ in_proc_sum F st.counts.in_proc items) sum in
        let m1 = min_ℤ_parts (min_ℤ in_avail by_quota) by_limit in
        let m2 = min_ℤ_parts in_avail by_quota in
        let n = min_ℤ (min_ℤ in_avail by_quota) by_limit in
        let some_sets : pos 0 <ℤ n = leb_ℤ→lt n (pos 0) more in
        record {
          in_avail = omega (arith, m1, m2);
          in_quota = omega (arith, m1, m2);
          in_limit = omega (arith, m1, m2);
          positive = some_sets;
          usable = usable;
          found = e.0;
          there = e.1 (omega (arith, some_sets, m1, m2));
          enough = e.2;
        }

    pub fill_demand-Step :
        (demand : Demand F G ℤ Unit) (st : State F)
        → IsSound F st.stock.items
        → IsUsable F demand.recipe
        → Step demand st (fill_demand F G demand st)
    unfolding fill_demand refresh resolve_recipe_inputs
    fill_demand-Step demand st sound usable =
        let d = refresh F G st.stock demand in
        let n = sets_to_try F G d st in
        elim (Bool-cases (leb_ℤ n (pos 0))) [
          | inl no_sets ↦
              rw (fill_demand, no_sets)
                (skipped st.inventory (λ m h.
                  exceeds F G demand st m usable.1
                    (λ le. absurd (omega (arith, h, le, leb_ℤ→le n (pos 0) no_sets)))))
          | inr more ↦
              let r = refresh-Ready demand st sound usable more in
              rw (fill_demand, more)
                (finish-Step demand d n st
                  (retry F (pos_part n) d.inputs d.recipe.inputs st.inventory) sound r
                  (retry-IsGreatest F d.inputs d.recipe.inputs st.inventory (pos_part n)
                    (omega (arith, r.positive)))
                  refl (λ m. exceeds F G demand st m usable.1))
        ]
