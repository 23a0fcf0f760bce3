-- ===== src/Examples/Stocking.antt =====
-- Providers, reservations and the index of the stored items.
use ocremote.Base.{ℕ, ◌≡◌, ◌↔◌, front, later, text_eq, refl, true, none, some, [], ◌∷◌, All, arith}
use ocremote.Base.Int.{pos, min_ℤ, ◌+ℤ◌, ◌-ℤ◌, ◌≤ℤ◌}
use ocremote.Item.{bool_eq, ItemFilter, matches, item_eq, AreSame, item_eq_iff}
use ocremote.Factory.ItemInfo.{
  ItemInfo, Provider, empty, Reservation, emplace, add_provider, take_best, reserve_loop, reserve,
}
use ocremote.Factory.ItemInfo.Valid.{total_avail, IsValid, add_provider-IsValid}
use ocremote.Factory.ItemInfo.Round.{Reserved}
use ocremote.Factory.ItemInfo.Reserve.{reserve-Reserved}
use ocremote.Factory.Stock.{
  Stock, cleared, add_item_provider, get_item, visit_items, get_or_add_item_info, modify_info,
  find_info,
}
use ocremote.Factory.Stock.Search.{IsIndexed, add_item_provider-IsIndexed}
use ocremote.Factory.Stock.Agree.{IsKeyed, get_item-agrees}
use ocremote.Serialize.Equality.{table_eq}
use ocremote.Factory.Stock.Best.{Passes, NoMore, total, get_item-best}
use ocremote.Examples.Numbers.{bytes}
use ocremote.Examples.Inserting.{item_named}

abbrev provider_of : ℕ → ℕ → ℕ → Provider
provider_of id priority avail = record { id = id; priority = pos priority; avail = pos avail }

abbrev two_providers : ItemInfo
two_providers = add_provider (add_provider empty (provider_of 0 1 5)) (provider_of 1 2 4)

empty-IsValid : IsValid empty
unfolding total_avail
empty-IsValid = record { counted = refl; positive = tt; ordered = tt }

one-IsValid : IsValid (add_provider empty (provider_of 0 1 5))
one-IsValid = add_provider-IsValid empty (provider_of 0 1 5) empty-IsValid (omega arith)

two_providers-IsValid : IsValid two_providers
two_providers-IsValid =
    add_provider-IsValid (add_provider empty (provider_of 0 1 5)) (provider_of 1 2 4) one-IsValid
      (omega arith)

add_provider-IsValid_example : IsValid two_providers
add_provider-IsValid_example =
    add_provider-IsValid (add_provider empty (provider_of 0 1 5)) (provider_of 1 2 4) one-IsValid
      (omega arith)

enough : pos 7 ≤ℤ two_providers.n_avail
unfolding add_provider ◌+ℤ◌
enough = omega arith

-- Four of the provider with priority 2, then three of the other.
reserve_two :
    reserve two_providers (pos 7)
    ≡ some (
      record { providers = provider_of 0 1 2 ∷ []; n_avail = pos 2; n_backup = pos 0 },
      (provider_of 1 2 4, pos 4) ∷ (provider_of 0 1 5, pos 3) ∷ [],
    )
unfolding reserve reserve_loop take_best add_provider emplace min_ℤ ◌-ℤ◌ ◌+ℤ◌
reserve_two = refl

reserve-Reserved_example :
    (left : ItemInfo) × (shares : Reservation) × (reserve two_providers (pos 7)
      ≡ some (left, shares))
    × Reserved two_providers (pos 7) left shares
reserve-Reserved_example =
    reserve-Reserved two_providers (pos 7) two_providers-IsValid (omega arith) enough

abbrev one_item : Stock bytes
one_item = add_item_provider bytes (cleared bytes) (item_named 97) (provider_of 0 1 5)

abbrev two_items : Stock bytes
two_items = add_item_provider bytes one_item (item_named 98) (provider_of 1 1 9)

cleared-IsIndexed : IsIndexed bytes (cleared bytes)
cleared-IsIndexed = record { by_name = refl; by_label = refl }

one_item-IsIndexed : IsIndexed bytes one_item
one_item-IsIndexed =
    add_item_provider-IsIndexed bytes (cleared bytes) (item_named 97) (provider_of 0 1 5)
      cleared-IsIndexed

two_items-IsIndexed : IsIndexed bytes two_items
two_items-IsIndexed =
    add_item_provider-IsIndexed bytes one_item (item_named 98) (provider_of 1 1 9)
      one_item-IsIndexed

add_item_provider-IsIndexed_example : IsIndexed bytes two_items
add_item_provider-IsIndexed_example =
    add_item_provider-IsIndexed bytes one_item (item_named 98) (provider_of 1 1 9)
      one_item-IsIndexed

-- The same stock, with the indices in the other order.
abbrev turned : Stock bytes
turned = record two_items {
  name_map = (98 ∷ [], item_named 98) ∷ (97 ∷ [], item_named 97) ∷ [];
  label_map = (98 ∷ [], item_named 98) ∷ (97 ∷ [], item_named 97) ∷ [];
}

turned-IsKeyed : IsKeyed bytes turned
unfolding add_item_provider get_or_add_item_info modify_info find_info item_eq bool_eq text_eq
    table_eq
turned-IsKeyed = record {
  named = ((later front, (front, tt)), (later front, (front, tt)));
  under_name = (refl, (refl, tt));
  labelled = ((later front, (front, tt)), (later front, (front, tt)));
  under_label = (refl, (refl, tt));
}

get_item-agrees_example :
    let best = get_item bytes turned (ItemFilter.name (98 ∷ [])) in
    let scanned =
      visit_items bytes turned (matches (ItemFilter.name (98 ∷ []))) turned.items none in
    (total bytes turned best ≡ total bytes turned scanned) × (best ≡ none ↔ scanned ≡ none)
get_item-agrees_example = get_item-agrees bytes turned (ItemFilter.name (98 ∷ [])) turned-IsKeyed

get_item-best_example :
    let best = get_item bytes two_items (ItemFilter.name (98 ∷ [])) in
    Passes bytes two_items (matches (ItemFilter.name (98 ∷ []))) best
    × All
        (NoMore bytes two_items (matches (ItemFilter.name (98 ∷ []))) (total bytes two_items best))
        two_items.items
get_item-best_example =
    get_item-best bytes two_items (ItemFilter.name (98 ∷ [])) two_items-IsIndexed

item_eq_iff_example :
    (item_eq bytes (item_named 97) (item_named 98) ≡ true)
    ↔ AreSame bytes (item_named 97) (item_named 98)
item_eq_iff_example = item_eq_iff bytes (item_named 97) (item_named 98)
