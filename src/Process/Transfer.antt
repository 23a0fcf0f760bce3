-- ===== src/Process/Transfer.antt =====
-- The actions that move items between an inventory and the bus: `AccessInv` of Factory.h and
-- `ProcessAccessInv::processOutput` of Processes.cpp.
use ocremote.Base.{ℕ, ◌+◌, true, List, [], ◌∷◌, Text}
use ocremote.Base.Int.{ℤ}
use ocremote.Serialize.Value.{Doubles, Value}
use ocremote.Serialize.Casts.{Casts}
use ocremote.Action.{Action, call, list}
use ocremote.Process.Job.{Effect, free}
use ocremote.Literals

pub record AccessInv : Type 0 where
  pub client : Text
  pub addr : Text
  pub side_inv : ℤ
  pub side_bus : ℤ

module _ (F : Doubles) (C : Casts F) where
  open F use {Double}
  open C use {of_int, of_size}

  -- An action transferItem from a side and slot of a block to another side and slot.
  unfoldable pub transfer_item : Text → ℤ → ℤ → ℤ → ℕ → ℕ → Action Double
  transfer_item inv from to size from_slot to_slot = call inv Literals.transfer_item (
      Value.num (of_int from)
      ∷ Value.num (of_int to)
      ∷ Value.num (of_int size)
      ∷ Value.num (of_size from_slot)
      ∷ Value.num (of_size to_slot)
      ∷ [])

  -- The action with which a cycle lists an inventory.
  unfoldable pub list_action : AccessInv → Action Double
  list_action access = list access.addr access.side_inv

  -- From a slot of the inventory to a slot of the bus.
  unfoldable pub to_bus : AccessInv → ℤ → ℕ → ℕ → Action Double
  unfolding transfer_item
  to_bus access size slot bus_slot =
      transfer_item access.addr access.side_inv access.side_bus size (slot + 1) (bus_slot + 1)

  -- From a slot of the bus to a slot of the inventory.
  unfoldable pub from_bus : AccessInv → ℤ → ℕ → ℕ → Action Double
  unfolding transfer_item
  from_bus access size bus_slot slot =
      transfer_item access.addr access.side_bus access.side_inv size (bus_slot + 1) (slot + 1)

  -- The transfers of a plan, by slot and size.
  unfoldable pub from_bus_all : AccessInv → ℕ → List (ℕ × ℤ) → List (Action Double)
  unfolding from_bus
  from_bus_all access bus_slot [] = []
  from_bus_all access bus_slot ((slot, size) ∷ rest) =
      from_bus access size bus_slot slot ∷ from_bus_all access bus_slot rest

  -- processOutput: the action once the bus slot is there, and the release after it.
  unfoldable pub process_output : AccessInv → ℕ → ℤ → ℕ → Action Double
  unfolding to_bus
  process_output access slot size bus_slot = to_bus access size slot bus_slot

-- The callback of `finally` in processOutput, whether the action failed or not.
unfoldable pub output_done : ℕ → List Effect
output_done bus_slot = free (bus_slot ∷ []) true ∷ []
