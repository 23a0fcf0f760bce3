-- ===== src/Factory/Demand/Order.antt =====
-- Which demands `getDemand` returns, and in which order.
use mathlib.Core.List.{Perm}
use mathlib.Core.List.Perm
use mathlib.Core.Path.{subst}
use ocremote.Base.{
  OneOf, front, later, ◌≡◌, ◌≢◌, refl, inl, inr, ◌⊎◌, Bool, true, false, ◌&&◌, Option, none, some,
  List, [], ◌∷◌, All, All-map, Bool-cases, Option-cases,
}
use ocremote.Base.Int.{pos, is_zero}
use ocremote.Serialize.Value.{Doubles}
use ocremote.Factory.Stock.{Stock}
use ocremote.Factory.Demand.{
  Floats, RecipeOut, Recipe, Demand, visit_outputs, has_outputs, resolve, resolve_recipe_inputs,
  recipe_demand, demands, insert_demand, sort_demands, get_demand,
}
use ocremote.Factory.Demand.Fullness.{
  Lacks, HasEnough, IsLeast, outputs-lacking, outputs-enough, visit_outputs-IsLeast,
}

module _ (F : Doubles) (G : Floats) where
  open F use {Double}
  open G use {two, less}

  module _ {T U : Type 0} (s : Stock F) (clip : Bool) where
    -- A demand for a recipe that has no outputs or lacks one, with inputs for some set.
    pub record IsWanted (recipes : List (Recipe Double T U)) (d : Demand F G T U) : Type 0 where
      pub listed : OneOf d.recipe recipes
      pub lacking :
          (d.recipe.outputs ≡ [])
          ⊎ ((out : RecipeOut Double) × OneOf out d.recipe.outputs × Lacks F G s out)
      pub fullness : IsLeast F G s d.recipe.outputs two d.fullness
      pub resolved :
          d
          ≡ resolve_recipe_inputs F G s
              (record { recipe = d.recipe; inputs = []; in_avail = pos 0; fullness = d.fullness })
              clip
      pub possible : is_zero d.in_avail ≡ false

    -- The recipe has outputs and enough of each, or no set of its inputs is there.
    abbrev IsUnwanted : Recipe Double T U → Type 0
    IsUnwanted recipe =
        ((recipe.outputs ≢ []) × All (HasEnough F G s) recipe.outputs)
        ⊎ (is_zero (resolve F s clip recipe.inputs []).1 ≡ true)

    -- One demand for each recipe but for the unwanted ones, in the order of the recipes.
    pub data ArePicked : List (Recipe Double T U) → List (Demand F G T U) → Type 0 where
      none_left : ArePicked [] []
      taken :
          {recipe : Recipe Double T U} {d : Demand F G T U} {recipes : List (Recipe Double T U)}
          {ds : List (Demand F G T U)}
          → d.recipe ≡ recipe
          → ArePicked recipes ds
          → ArePicked (recipe ∷ recipes) (d ∷ ds)
      passed_over :
          {recipe : Recipe Double T U} {recipes : List (Recipe Double T U)}
          {ds : List (Demand F G T U)}
          → IsUnwanted recipe
          → ArePicked recipes ds
          → ArePicked (recipe ∷ recipes) ds

    abbrev NotLess : Demand F G T U → Demand F G T U → Type 0
    NotLess x y = less y.fullness x.fullness ≡ false

    -- The least full come first.
    abbrev pub IsSorted : List (Demand F G T U) → Type 0
    IsSorted [] = Unit
    IsSorted (x ∷ rest) = All (NotLess x) rest × IsSorted rest

    -- What becomes of one recipe.
    abbrev Decided : List (Recipe Double T U) → Recipe Double T U → Option (Demand F G T U) → Type 0
    Decided all recipe none = IsUnwanted recipe
    Decided all recipe (some d) = (d.recipe ≡ recipe) × IsWanted all d

    recipe_demand-Decided :
        (all : List (Recipe Double T U)) (recipe : Recipe Double T U)
        → OneOf recipe all
        → Decided all recipe (recipe_demand F G s clip recipe)
    unfolding recipe_demand resolve_recipe_inputs
    recipe_demand-Decided all recipe one =
        let full =
          has_outputs F G recipe.outputs && (visit_outputs F G s recipe.outputs (true, two)).0 in
        elim (Bool-cases full) [
          | inl e ↦ rw (e, recipe_demand) (inl (outputs-enough F G s recipe.outputs e))
          | inr e ↦ elim (Bool-cases (is_zero (resolve F s clip recipe.inputs []).1)) [
            | inl z ↦ rw (e, z, recipe_demand) (inr z)
            | inr z ↦
                rw (e, z, recipe_demand)
                  (
                    refl,
                    record {
                      listed = one;
                      lacking = outputs-lacking F G s recipe.outputs e;
                      fullness = visit_outputs-IsLeast F G s recipe.outputs true two;
                      resolved = refl;
                      possible = z;
                    },
                  )
          ]
        ]

    demands-Decided :
        (all recipes : List (Recipe Double T U))
        → All (λ r. OneOf r all) recipes
        → All (IsWanted all) (demands F G s clip recipes)
          × ArePicked recipes (demands F G s clip recipes)
    unfolding demands
    demands-Decided all [] h = (tt, none_left)
    demands-Decided all (recipe ∷ rest) h =
        let (wanted, picked) = demands-Decided all rest h.1 in
        let decided = recipe_demand-Decided all recipe h.0 in
        elim (Option-cases (recipe_demand F G s clip recipe)) [
          | inl e ↦
              rw (e, demands) (wanted, passed_over (subst (Decided all recipe) e decided) picked)
          | inr (d, e) ↦
              let here = subst (Decided all recipe) e decided in
              rw (e, demands) ((here.1, wanted), taken here.0 picked)
        ]

    insert_demand-perm :
        (x : Demand F G T U) (ds : List (Demand F G T U)) → Perm (insert_demand F G x ds) (x ∷ ds)
    unfolding insert_demand
    insert_demand-perm x [] = Perm.refl (x ∷ [])
    insert_demand-perm x (y ∷ rest) = elim (Bool-cases (less y.fullness x.fullness)) [
      | inl e ↦
          rw (e, insert_demand)
            (Perm.trans (Perm.cons y (insert_demand-perm x rest)) (Perm.swap x y rest))
      | inr e ↦ rw (e, insert_demand) (Perm.refl (x ∷ y ∷ rest))
    ]

    sort_demands-perm : (ds : List (Demand F G T U)) → Perm (sort_demands F G ds) ds
    unfolding sort_demands
    sort_demands-perm [] = Perm.refl []
    sort_demands-perm (x ∷ rest) =
        Perm.trans (insert_demand-perm x (sort_demands F G rest))
          (Perm.cons x (sort_demands-perm rest))

    insert_demand-All :
        (P : Demand F G T U → Type 0) (x : Demand F G T U) (ds : List (Demand F G T U))
        → P x
        → All P ds
        → All P (insert_demand F G x ds)
    unfolding insert_demand
    insert_demand-All P x [] hx h = (hx, tt)
    insert_demand-All P x (y ∷ rest) hx h = elim (Bool-cases (less y.fullness x.fullness)) [
      | inl e ↦ rw (e, insert_demand) (h.0, insert_demand-All P x rest hx h.1)
      | inr e ↦ rw (e, insert_demand) (hx, h)
    ]

    insert_demand-IsSorted :
        (x : Demand F G T U) (ds : List (Demand F G T U))
        → IsSorted ds
        → IsSorted (insert_demand F G x ds)
    unfolding insert_demand
    insert_demand-IsSorted x [] h = (tt, tt)
    insert_demand-IsSorted x (y ∷ rest) h = elim (Bool-cases (less y.fullness x.fullness)) [
      | inl e ↦
          rw (e, insert_demand)
            (
              insert_demand-All (NotLess y) x rest (G.less_asym y.fullness x.fullness e) h.0,
              insert_demand-IsSorted x rest h.1,
            )
      | inr e ↦
          rw (e, insert_demand)
            (
              (
                e,
                All-map (NotLess y) (NotLess x) rest
                    (λ z n. G.not_less_trans x.fullness y.fullness z.fullness e n) h.0,
              ),
              h,
            )
    ]

    sort_demands-IsSorted : (ds : List (Demand F G T U)) → IsSorted (sort_demands F G ds)
    unfolding sort_demands
    sort_demands-IsSorted [] = tt
    sort_demands-IsSorted (x ∷ rest) =
        insert_demand-IsSorted x (sort_demands F G rest) (sort_demands-IsSorted rest)

    sort_demands-All :
        (P : Demand F G T U → Type 0) (ds : List (Demand F G T U))
        → All P ds
        → All P (sort_demands F G ds)
    unfolding sort_demands
    sort_demands-All P [] h = tt
    sort_demands-All P (x ∷ rest) h =
        insert_demand-All P x (sort_demands F G rest) h.0 (sort_demands-All P rest h.1)

    self-OneOf : (recipes : List (Recipe Double T U)) → All (λ r. OneOf r recipes) recipes
    self-OneOf [] = tt
    self-OneOf (r ∷ rest) =
        (front, All-map _ (λ x. OneOf x (r ∷ rest)) rest (λ x one. later one) (self-OneOf rest))

    -- Of all recipes, `getDemand` passes over those that have outputs and enough of each, and those
    -- of whose inputs no set is there; for each of the others it returns one demand. Its recipe has
    -- no outputs or has one of which less is there than is to be; its fullness is the least of two
    -- and of the parts, stored to size, of the outputs that lack; its inputs are those that
    -- `resolveRecipeInputs` finds, and the number of sets that they allow is not zero. The demands
    -- are in the order of fullness, the least full first.
    pub get_demand-IsWanted :
        (recipes : List (Recipe Double T U))
        → All (IsWanted recipes) (get_demand F G s recipes clip)
          × IsSorted (get_demand F G s recipes clip)
          × ((ds : List (Demand F G T U)) × ArePicked recipes ds
              × Perm (get_demand F G s recipes clip) ds)
    unfolding get_demand
    get_demand-IsWanted recipes =
        let ds = demands F G s clip recipes in
        let (wanted, picked) = demands-Decided recipes recipes (self-OneOf recipes) in
        (
          sort_demands-All (IsWanted recipes) ds wanted,
          sort_demands-IsSorted ds,
          (ds, picked, sort_demands-perm ds),
        )
