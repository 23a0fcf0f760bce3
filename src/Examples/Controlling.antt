-- ===== src/Examples/Controlling.antt =====
-- The machines, the crafting grid and the lists on the wire.
use ocremote.Base.{
  ℕ, ◌+◌, ◌<◌, ◌≡◌, ◌≢◌, ◌⊎◌, refl, true, false, List, [], ◌∷◌, All, arith, ltb, get_elem?, some,
}
use ocremote.Base.Int.{ℤ, pos, ◌≤ℤ◌, ◌<ℤ◌}
use ocremote.Serialize.Value.{Value}
use ocremote.Serialize.Arrays.{ok, array_to_table, table_to_array}
use ocremote.Serialize.Arrays.Trailing.{without_trailing, table_to_array-array_to_table}
use ocremote.Process.Reactor.Hysteresis.{run, position, changes, run-eq-changes}
use ocremote.Process.Mixer.{min_element, choose_color}
use ocremote.Process.Mixer.Least.{choose_color-least}
use ocremote.Process.Crafting.Robot.{map_crafting_grid_slot}
use ocremote.Process.Crafting.Robot.Slots.{map_crafting_grid_slot-lt}
use ocremote.Process.Scattering.{Spread, spread}
use ocremote.Process.Scattering.Limit.{spread-not_full}
use ocremote.Examples.Numbers.{bytes}
use ocremote.Examples.Casting.{byte_casts, byte_arithmetic}
use ocremote.Examples.Inserting.{item_named, small}

abbrev flags : List (Value ℕ)
flags = Value.bool true ∷ Value.nil ∷ Value.bool false ∷ Value.nil ∷ []

table_to_array-array_to_table_example :
    table_to_array bytes byte_casts (array_to_table bytes byte_casts flags)
    ≡ ok (without_trailing flags)
table_to_array-array_to_table_example =
    table_to_array-array_to_table bytes byte_casts flags (omega arith)

-- Between 10 and 20, from where it is not known whether the reactor is on.
apart : (pv : ℕ) → ltb 20 pv ≡ true → ltb pv 10 ≡ false
apart pv h = ground arith

changes_known :
    changes bytes byte_casts byte_arithmetic 10 20 (pos 1) (15 ∷ 25 ∷ 15 ∷ 5 ∷ [])
    ≡ (pos 0 ∷ pos 1 ∷ [], pos 1)
unfolding changes position
changes_known = refl

run-eq-changes_example :
    run bytes byte_casts byte_arithmetic 10 20 (pos 1) (15 ∷ 25 ∷ 15 ∷ 5 ∷ [])
    ≡ changes bytes byte_casts byte_arithmetic 10 20 (pos 1) (15 ∷ 25 ∷ 15 ∷ 5 ∷ [])
run-eq-changes_example =
    run-eq-changes bytes byte_casts byte_arithmetic 10 20 (pos 1) (15 ∷ 25 ∷ 15 ∷ 5 ∷ []) apart

abbrev colors : List ℤ
colors = pos 9 ∷ pos 3 ∷ pos 4 ∷ []

second_color : choose_color (pos 8) (pos 9) (pos 3 ∷ pos 4 ∷ []) ≡ 2
unfolding choose_color min_element
second_color = refl

choose_color-least_example :
    ((choose_color (pos 8) (pos 9) (pos 3 ∷ pos 4 ∷ []) ≡ 0) × All (λ x. pos 8 ≤ℤ x) colors)
    ⊎ ((i : ℕ) × (least : ℤ) × (choose_color (pos 8) (pos 9) (pos 3 ∷ pos 4 ∷ []) ≡ i + 1)
        × (get_elem? colors i ≡ some least)
        × (least <ℤ pos 8)
        × All (λ x. least ≤ℤ x) colors)
choose_color-least_example = choose_color-least (pos 8) (pos 9) (pos 3 ∷ pos 4 ∷ [])

map_crafting_grid_slot-lt_example :
    (map_crafting_grid_slot 3 < map_crafting_grid_slot 4)
    × (map_crafting_grid_slot 3 ≢ 4)
    × (map_crafting_grid_slot 3 ≢ 8)
    × (map_crafting_grid_slot 4 ≢ 4)
    × (map_crafting_grid_slot 4 ≢ 8)
    × (map_crafting_grid_slot 4 < 12)
map_crafting_grid_slot-lt_example =
    map_crafting_grid_slot-lt 3 4 (omega arith) (omega arith) (omega arith)

abbrev fresh : Spread bytes
fresh = record { items = small; transfer_total = pos 0; transfer_map = []; full = false }

spread-not_full_example : (spread bytes 9 (item_named 97) (pos 2) (0 ∷ 1 ∷ []) fresh).full ≡ false
spread-not_full_example =
    spread-not_full bytes 9 (item_named 97) (pos 2) (0 ∷ 1 ∷ []) fresh (omega arith) refl
