-- ===== src/Examples/Storing.antt =====
-- A chest that has room for some of a stack.
use ocremote.Storage.Insertion.{chest, me, insert_item}
use ocremote.Storage.Insertion.Placed.{Placed, insert_item-Placed}
use ocremote.Factory.Demand.Enough.{total}
use ocremote.Storage.Update.{add_stacks, chest_priority}
use ocremote.Storage.Update.Counted.{count, add_stacks-total}
use ocremote.Examples.Planning.{five_items}
use ocremote.Base.{[], ◌∷◌, ◌≡◌, refl, ap, some, arith, text_eq}
use ocremote.Base.Int.{◌+ℤ◌, ℤ, pos, ◌≤ℤ◌, ◌<ℤ◌}
use ocremote.Serialize.Equality.{table_eq}
use ocremote.Item.{bool_eq, item_eq}
use ocremote.Item.Insert.Count.{transfer}
use ocremote.Storage.Chest.{Chest, visit_slot, search, choose, sink_priority, sink}
use ocremote.Storage.Chest.Progress.{sink_priority-sink}
use ocremote.Examples.Numbers.{bytes}
use ocremote.Examples.Inserting.{item_named, small}

abbrev small_chest : Chest bytes
small_chest = record { content = small; slot_to_sink = 9 }

-- The stack of 60 rather than the empty slot.
offered :
    sink_priority bytes (item_named 97) small_chest
    ≡ (some (pos 60), record { content = small; slot_to_sink = 0 })
unfolding sink_priority search visit_slot choose item_eq bool_eq text_eq table_eq
offered = refl

sink_priority-sink_example :
    let ready = (sink_priority bytes (item_named 97) small_chest).1 in
    (n : ℤ) × (after : Chest bytes) × (sink bytes
        (record { item = item_named 97; size = pos 10 })
        ready
      ≡ some (n, after))
    × (pos 0 <ℤ n)
    × (n ≤ℤ pos 10)
    × (after.content ≡ transfer bytes (item_named 97) small (ready.slot_to_sink, n))
sink_priority-sink_example =
    sink_priority-sink bytes (item_named 97) (pos 10) (pos 60) small_chest (omega arith)
      (ap (λ r. r.0) offered)

-- The chest takes four and then six, in its empty slot.
insert_item-Placed_example :
    Placed bytes
      (item_named 97)
      (pos 10)
      (insert_item bytes (item_named 97) (pos 10) (chest small_chest ∷ me ∷ []))
insert_item-Placed_example =
    insert_item-Placed bytes (item_named 97) (pos 10) (chest small_chest ∷ me ∷ []) (omega arith)

add_stacks-total_example :
    total bytes (add_stacks bytes (λ slot. slot) chest_priority 0 small five_items) (item_named 97)
    ≡ count bytes (item_named 97) small +ℤ total bytes five_items (item_named 97)
add_stacks-total_example =
    add_stacks-total bytes (λ slot. slot) chest_priority 0 small five_items (item_named 97)
