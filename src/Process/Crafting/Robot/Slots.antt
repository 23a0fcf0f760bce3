-- ===== src/Process/Crafting/Robot/Slots.antt =====
-- Where the robot has the crafting grid.
use ocremote.Base.{ℕ, ◌≤◌, ◌<◌, ◌≢◌, arith}
use ocremote.Process.Crafting.Robot.{map_crafting_grid_slot}

-- The nine slots of the crafting grid are mapped to slots in the same order, and to none of 4, 8, 12
-- and the later ones, where the items that are not consumed are kept.
pub map_crafting_grid_slot-lt :
    (a b : ℕ)
    → 1 ≤ a
    → a < b
    → b ≤ 9
    → (map_crafting_grid_slot a < map_crafting_grid_slot b)
      × (map_crafting_grid_slot a ≢ 4)
      × (map_crafting_grid_slot a ≢ 8)
      × (map_crafting_grid_slot b ≢ 4)
      × (map_crafting_grid_slot b ≢ 8)
      × (map_crafting_grid_slot b < 12)
unfolding map_crafting_grid_slot
map_crafting_grid_slot-lt a b h k l =
    (ground arith, ground arith, ground arith, ground arith, ground arith, ground arith)
