-- ===== src/Factory/Demand.antt =====
-- The recipes and their demands: `RecipeIn`, `RecipeOut`, `Recipe`, `Demand`, `InputAvailInfo`,
-- `resolveRecipeInputs` and `getDemand` of server/CPPImpl/Factory.h.
pub mod Enough
pub mod Fullness
pub mod Order
use ocremote.Base.{
  ◌≡◌, Bool, true, false, not, ◌&&◌, ◌||◌, Option, none, some, List, [], ◌∷◌, ◌++◌, if◌then◌else◌,
}
use ocremote.Base.Int.{ℤ, pos, ◌+ℤ◌, ◌-ℤ◌, div_ℤ, min_ℤ, max_ℤ, leb_ℤ, is_zero}
use ocremote.Serialize.Value.{Doubles}
use ocremote.Item.{Item, ItemFilter, item_eq}
use ocremote.Factory.Stock.{Stock, get_avail, get_item}

-- `float`, as far as the fullness of a demand needs it.
pub record Floats : Type 1 where
  pub Float : Type 0
  -- static_cast<float>(x) / y
  pub ratio : ℤ → ℤ → Float
  pub two : Float
  pub less : Float → Float → Bool
  pub less_asym : (x y : Float) → less x y ≡ true → less y x ≡ false
  -- No float that is compared is a NaN.
  pub not_less_trans : (x y z : Float) → less y x ≡ false → less z y ≡ false → less z x ≡ false

-- `data` of the source is `info` here.
pub record RecipeIn (D U : Type 0) : Type 0 where
  pub item : ItemFilter D
  pub size : ℤ
  pub extra_backup : ℤ
  pub allow_backup : Bool
  pub info : U

pub record RecipeOut (D : Type 0) : Type 0 where
  pub item : ItemFilter D
  pub size : ℤ

pub record Recipe (D T U : Type 0) : Type 0 where
  pub outputs : List (RecipeOut D)
  pub inputs : List (RecipeIn D U)
  pub info : T

pub record AvailInfo : Type 0 where
  pub avail : ℤ
  pub needed : ℤ
  pub allow_backup : Bool

-- std::numeric_limits<int>::max()
abbrev pub max_int : ℤ
max_int = pos 2147483647

module _ (F : Doubles) (G : Floats) where
  open F use {Double}
  open G use {Float, ratio, two, less}

  pub record Demand (T U : Type 0) : Type 0 where
    pub recipe : Recipe Double T U
    pub inputs : List (Option (Item Double))
    pub in_avail : ℤ
    pub fullness : Float

module _ (F : Doubles) where
  open F use {Double}

  -- The variables of the loop of `resolveRecipeInputs`.
  pub record Resolution : Type 0 where
    pub inputs : List (Option (Item Double))
    pub in_avail : ℤ
    pub avails : List (Item Double × AvailInfo)

  -- The loop over the entries of `avails`.
  unfoldable pub limit_sets : List (Item Double × AvailInfo) → ℤ → ℤ
  limit_sets [] n = n
  limit_sets ((item, info) ∷ rest) n = limit_sets rest (min_ℤ n (div_ℤ info.avail info.needed))

module _ (F : Doubles) {U : Type 0} where
  open F use {Double}

  -- What an input may take of an item.
  unfoldable pub input_avail : Stock F → Item Double → RecipeIn Double U → ℤ
  input_avail s item i = max_ℤ (pos 0) (get_avail F s (some item) i.allow_backup -ℤ i.extra_backup)

  -- An input whose item is known already.
  unfoldable pub add_need : Stock F → Item Double → RecipeIn Double U → AvailInfo → AvailInfo
  unfolding input_avail
  add_need s item i info =
      let stricter = info.allow_backup && not i.allow_backup in
      record {
        avail = if stricter then input_avail s item i else info.avail;
        allow_backup = if stricter then i.allow_backup else info.allow_backup;
        needed = info.needed +ℤ i.size;
      }

  -- avails.try_emplace(inItem), and what is done with the entry.
  unfoldable pub note_need :
      Stock F
      → Item Double
      → RecipeIn Double U
      → List (Item Double × AvailInfo)
      → List (Item Double × AvailInfo)
  unfolding add_need
  note_need s item i [] =
      (
        item,
        record { avail = input_avail s item i; needed = i.size; allow_backup = i.allow_backup },
      )
      ∷ []
  note_need s item i ((key, info) ∷ rest) =
      if item_eq F key item
      then (key, add_need s item i info) ∷ rest
      else (key, info) ∷ note_need s item i rest

  -- The body of the loop over the inputs.
  unfoldable pub resolve_input : Stock F → Bool → RecipeIn Double U → Resolution F → Resolution F
  unfolding note_need
  resolve_input s clip i r = elim (get_item F s i.item) [
    | none ↦ record r { inputs = r.inputs ++ none ∷ []; in_avail = pos 0 }
    | some item ↦ record {
      inputs = r.inputs ++ some item ∷ [];
      avails = note_need s item i r.avails;
      in_avail = if clip then min_ℤ r.in_avail (div_ℤ item.max_size i.size) else r.in_avail;
    }
  ]

  unfoldable pub resolve_inputs :
      Stock F → Bool → List (RecipeIn Double U) → Resolution F → Resolution F
  unfolding resolve_input
  resolve_inputs s clip [] r = r
  resolve_inputs s clip (i ∷ rest) r = resolve_inputs s clip rest (resolve_input s clip i r)

  -- What `resolveRecipeInputs` leaves in demand.in, which it adds to, and in demand.inAvail.
  unfoldable pub resolve :
      Stock F
      → Bool
      → List (RecipeIn Double U)
      → List (Option (Item Double))
      → List (Option (Item Double)) × ℤ
  unfolding resolve_inputs limit_sets
  resolve s clip ins before =
      let r =
        resolve_inputs s clip ins (record { inputs = before; in_avail = max_int; avails = [] }) in
      (r.inputs, limit_sets F r.avails r.in_avail)

module _ (F : Doubles) (G : Floats) where
  open F use {Double}
  open G use {Float, ratio, two, less}

  -- The loop over the outputs of a recipe: whether all are full, and the least fullness.
  unfoldable pub visit_outputs : Stock F → List (RecipeOut Double) → Bool × Float → Bool × Float
  visit_outputs s [] state = state
  visit_outputs s (out ∷ rest) (full, fullness) =
      let avail = get_avail F s (get_item F s out.item) true in
      let enough = leb_ℤ out.size avail in
      let now = ratio avail out.size in
      visit_outputs s rest
        (full && enough, if not enough && less now fullness then now else fullness)

  abbrev pub has_outputs : List (RecipeOut Double) → Bool
  has_outputs [] = false
  has_outputs (out ∷ rest) = true

  module _ {T U : Type 0} where
    -- Factory::resolveRecipeInputs
    unfoldable pub resolve_recipe_inputs : Stock F → Demand F G T U → Bool → Demand F G T U
    unfolding resolve
    resolve_recipe_inputs s demand clip =
        let (inputs, in_avail) = resolve F s clip demand.recipe.inputs demand.inputs in
        record demand { inputs = inputs; in_avail = in_avail }

    -- The body of the loop of `getDemand`; `none` where the demand is taken off the result again.
    -- demand.inAvail, which has no value before it is resolved, is 0 here.
    unfoldable pub recipe_demand : Stock F → Bool → Recipe Double T U → Option (Demand F G T U)
    unfolding visit_outputs resolve_recipe_inputs
    recipe_demand s clip recipe =
        let (full, fullness) = visit_outputs s recipe.outputs (true, two) in
        let demand =
          resolve_recipe_inputs s
            (record { recipe = recipe; inputs = []; in_avail = pos 0; fullness = fullness }) clip in
        if has_outputs recipe.outputs && full || is_zero demand.in_avail then none else some demand

    unfoldable pub demands : Stock F → Bool → List (Recipe Double T U) → List (Demand F G T U)
    unfolding recipe_demand
    demands s clip [] = []
    demands s clip (recipe ∷ rest) = elim (recipe_demand s clip recipe) [
      | none ↦ demands s clip rest
      | some demand ↦ demand ∷ demands s clip rest
    ]

    -- std::sort by fullness. The order of two that are equally full is not specified there; here
    -- it is the order of their recipes.
    unfoldable pub insert_demand : Demand F G T U → List (Demand F G T U) → List (Demand F G T U)
    insert_demand x [] = x ∷ []
    insert_demand x (y ∷ rest) =
        if less y.fullness x.fullness then y ∷ insert_demand x rest else x ∷ y ∷ rest

    unfoldable pub sort_demands : List (Demand F G T U) → List (Demand F G T U)
    unfolding insert_demand
    sort_demands [] = []
    sort_demands (x ∷ rest) = insert_demand x (sort_demands rest)

    -- Factory::getDemand
    unfoldable pub get_demand : Stock F → List (Recipe Double T U) → Bool → List (Demand F G T U)
    unfolding demands sort_demands
    get_demand s recipes clip = sort_demands (demands s clip recipes)
