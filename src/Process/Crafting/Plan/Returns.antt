-- ===== src/Process/Crafting/Plan/Returns.antt =====
-- The reservations of a cycle do not go wrong.
use ocremote.Base.{
  OneOf-All, ℕ, ◌≡◌, refl, inl, inr, true, false, Option, some, List, [], ◌∷◌, All, All-map, arith,
  Bool-cases,
}
use ocremote.Base.Int.{pos, ◌≤ℤ◌, ◌<ℤ◌, min_ℤ, min_ℤ_parts, leb_ℤ, leb_ℤ→lt, parts_eq, int_laws}
use ocremote.Serialize.Value.{Doubles}
use ocremote.Factory.ItemInfo.{Provider}
use ocremote.Factory.ItemInfo.Valid.{total_avail}
use ocremote.Factory.Stock.{Stock}
use ocremote.Factory.Demand.{Floats, Demand, resolve, resolve_recipe_inputs, get_demand}
use ocremote.Factory.Demand.Enough.{IsStocked, IsNonNegative, resolve-enough}
use ocremote.Factory.Demand.Order.{get_demand-IsWanted}
use ocremote.Factory.Reserving.{reserve_inputs}
use ocremote.Factory.Reserving.Inputs.{IsSound, TakesAll, reserve_inputs-TakesAll}
use ocremote.Process.Crafting.{CraftInfo, CraftRecipe}
use ocremote.Process.Crafting.Plan.{Planned, refresh, plan_demands, plan}

total_avail-nonneg : (ps : List Provider) → All (λ p. pos 0 <ℤ p.avail) ps → pos 0 ≤ℤ total_avail ps
unfolding total_avail
total_avail-nonneg [] h = omega arith
total_avail-nonneg (p ∷ ps) h = omega (int_laws, h.0, total_avail-nonneg ps h.1)

module _ (F : Doubles) (G : Floats) where
  open F use {Double}

  pub IsSound-IsStocked : (s : Stock F) → IsSound F s.items → IsStocked F s
  IsSound-IsStocked s h =
      All-map _ (λ e. IsNonNegative F e.1) s.items
        (λ e v.
          (omega (arith, parts_eq v.0.counted, total_avail-nonneg e.1.providers v.0.positive), v.1))
        h

  -- The inputs of a recipe need at least one item each, and keep no negative backup.
  abbrev pub IsUsable : CraftRecipe Double → Type 0
  IsUsable recipe = All (λ i. (pos 0 <ℤ i.size) × (pos 0 ≤ℤ i.extra_backup)) recipe.inputs

  refresh-TakesAll :
      (s : Stock F) (demand : Demand F G CraftInfo (List ℕ))
      → IsSound F s.items
      → IsUsable demand.recipe
      → let d = refresh F G s demand in
        leb_ℤ d.in_avail (pos 0) ≡ false
        → TakesAll F s d.in_avail d.inputs d.recipe.inputs
            (reserve_inputs F d.in_avail d.inputs d.recipe.inputs s)
  unfolding refresh resolve_recipe_inputs
  refresh-TakesAll s demand sound usable more =
      let r = resolve-enough F s (IsSound-IsStocked s sound) true demand.recipe.inputs usable in
      let (items, in_avail) = resolve F s true demand.recipe.inputs [] in
      let m = min_ℤ_parts in_avail demand.recipe.info.max_sets in
      let n = min_ℤ in_avail demand.recipe.info.max_sets in
      let some_sets : pos 0 <ℤ n = leb_ℤ→lt n (pos 0) more in
      reserve_inputs-TakesAll F n items demand.recipe.inputs s sound some_sets
        (r.1 (omega (arith, some_sets, m)))
        (All-map _ (λ i. pos 0 <ℤ i.size) demand.recipe.inputs (λ i u. u.0) usable)
        (λ x. r.2 x n (omega (arith, some_sets)) (omega (arith, m)))

  abbrev IsPossible : Planned F G → Type 0
  IsPossible p = (pos 0 <ℤ p.sets) × (p.sets ≤ℤ p.recipe.info.max_sets)

  record Plans (outcome : Option (Stock F × List (Planned F G))) : Type 0 where
    left : Stock F
    planned : List (Planned F G)
    returned : outcome ≡ some (left, planned)
    sound : IsSound F left.items
    possible : All IsPossible planned

  limited :
      (s : Stock F) (demand : Demand F G CraftInfo (List ℕ))
      → (refresh F G s demand).in_avail ≤ℤ (refresh F G s demand).recipe.info.max_sets
  unfolding refresh resolve_recipe_inputs
  limited s demand =
      omega (
        arith,
        min_ℤ_parts (resolve F s true demand.recipe.inputs []).1 demand.recipe.info.max_sets,
      )

  plan_demands-Plans :
      (ds : List (Demand F G CraftInfo (List ℕ))) (s : Stock F)
      → All (λ d. IsUsable d.recipe) ds
      → IsSound F s.items
      → Plans (plan_demands F G ds s)
  unfolding plan_demands
  plan_demands-Plans [] s usable sound = record {
    left = s;
    planned = [];
    returned = refl;
    sound = sound;
    possible = tt;
  }
  plan_demands-Plans (demand ∷ rest) s usable sound =
      let d = refresh F G s demand in
      elim (Bool-cases (leb_ℤ d.in_avail (pos 0))) [
        | inl none_left ↦
            let more = plan_demands-Plans rest s usable.1 sound in rw (none_left, plan_demands) more
        | inr some_left ↦
            let t = refresh-TakesAll s demand sound usable.0 some_left in
            let more = plan_demands-Plans rest t.left usable.1 t.sound in
            record {
              left = more.left;
              planned =
                  record { recipe = d.recipe; sets = d.in_avail; reservations = t.shares }
                  ∷ more.planned;
              returned = rw (some_left, plan_demands) (rw t.returned (rw more.returned refl));
              sound = more.sound;
              possible = ((leb_ℤ→lt d.in_avail (pos 0) some_left, limited s demand), more.possible);
            }
      ]

  -- In a sound stock, with recipes whose inputs need at least one item each and keep no negative
  -- backup: the cycle reserves the inputs of all recipes that it crafts, which goes wrong for none,
  -- and leaves a sound stock; each recipe that it crafts is crafted at least once and at most as
  -- often as the recipe allows.
  pub plan-returns :
      (recipes : List (CraftRecipe Double)) (s : Stock F)
      → All IsUsable recipes
      → IsSound F s.items
      → (left : Stock F) × (planned : List (Planned F G)) × (plan F G recipes s
          ≡ some (left, planned))
        × IsSound F left.items
        × All (λ p. (pos 0 <ℤ p.sets) × (p.sets ≤ℤ p.recipe.info.max_sets)) planned
  unfolding plan
  plan-returns recipes s usable sound =
      let wanted = get_demand-IsWanted F G s true recipes in
      let p =
        plan_demands-Plans (get_demand F G s recipes true) s
          (All-map _ (λ d. IsUsable d.recipe) (get_demand F G s recipes true)
            (λ d w. OneOf-All IsUsable d.recipe recipes w.listed usable) wanted.0)
          sound in
      (p.left, p.planned, p.returned, p.sound, p.possible)
