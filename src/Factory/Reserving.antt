-- ===== src/Factory/Reserving.antt =====
-- `Factory::reserve` of server/CPPImpl/Factory.cpp, and the loops over the inputs of a recipe in
-- which the processes call it.
pub mod Inputs
use ocremote.Base.{Option, none, some, List, [], ◌∷◌}
use ocremote.Base.Int.{ℤ, ◌*ℤ◌}
use ocremote.Serialize.Value.{Doubles}
use ocremote.Item.{Item}
use ocremote.Factory.ItemInfo
use ocremote.Factory.ItemInfo.{Reservation}
use ocremote.Factory.Stock.{Stock, find_info, modify_info}
use ocremote.Factory.Demand.{RecipeIn}

module _ (F : Doubles) where
  open F use {Double}

  -- Factory::reserve. `none`: items.at throws, or the providers run out.
  unfoldable pub reserve : Stock F → Item Double → ℤ → Option (Stock F × Reservation)
  reserve s item size = elim (find_info F item s.items) [
    | none ↦ none
    | some info ↦ elim (ItemInfo.reserve info size) [
      | none ↦ none
      | some (left, shares) ↦
          some (record s { items = modify_info F item (λ _. left) s.items }, shares)
    ]
  ]

  -- factory.reserve(name, demand.in[i], sets * recipe.in[i].size) for each input; a null item is
  -- dereferenced.
  unfoldable pub reserve_inputs :
      {U : Type 0}
      → ℤ
      → List (Option (Item Double))
      → List (RecipeIn Double U)
      → Stock F
      → Option (Stock F × List Reservation)
  unfolding reserve
  reserve_inputs sets [] ins s = some (s, [])
  reserve_inputs sets (item ∷ items) [] s = some (s, [])
  reserve_inputs sets (none ∷ items) (i ∷ ins) s = none
  reserve_inputs sets (some item ∷ items) (i ∷ ins) s = elim (reserve s item (sets *ℤ i.size)) [
    | none ↦ none
    | some (s', shares) ↦ elim (reserve_inputs sets items ins s') [
      | none ↦ none
      | some (s'', rest) ↦ some (s'', shares ∷ rest)
    ]
  ]
