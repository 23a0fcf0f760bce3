-- ===== src/Examples/Inserting.antt =====
-- Planning an insertion into a small inventory.
use ocremote.Base.{ℕ, ◌≡◌, refl, false, none, some, [], ◌∷◌, arith, text_eq}
use ocremote.Base.Int.{pos, min_ℤ, ◌+ℤ◌, ◌-ℤ◌}
use ocremote.Serialize.Value.{end}
use ocremote.Serialize.Equality.{table_eq}
use ocremote.Item.{Item, Inventory, item_eq}
use ocremote.Item.Insert.{insert}
use ocremote.Item.Insert.Outcome.{Placed, insert-Placed}
use ocremote.Examples.Numbers.{bytes}

abbrev pub item_named : ℕ → Item ℕ
item_named n = record {
  name = n ∷ [];
  label = n ∷ [];
  damage = pos 0;
  max_damage = pos 0;
  max_size = pos 64;
  has_tag = false;
  others = end;
}

-- 60 of the item, an empty slot, and another item.
abbrev pub small : Inventory ℕ
small =
    some (record { item = item_named 97; size = pos 60 })
    ∷ none
    ∷ some (record { item = item_named 98; size = pos 64 })
    ∷ []

insert-small :
    (insert bytes small (item_named 97) (pos 10)).1.actions ≡ (0, pos 4) ∷ (1, pos 6) ∷ []
unfolding insert item_eq text_eq table_eq min_ℤ ◌-ℤ◌ ◌+ℤ◌
insert-small = refl

insert-Placed_example :
    let (after, result) = insert bytes small (item_named 97) (pos 10) in
    Placed bytes (item_named 97) (pos 10) small after result.total_size result.actions
insert-Placed_example =
    insert-Placed bytes small (item_named 97) (pos 10) (omega arith) (omega arith)
      ((λ _. omega arith), (tt, ((λ _. omega arith), tt)))
