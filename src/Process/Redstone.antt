-- ===== src/Process/Redstone.antt =====
-- `ProcessRedstoneConditional`, `ProcessRedstoneEmitter` and `ProcessFluxNetwork`.
use ocremote.Base.{Bool, true, false, Option, none, some, List, [], ◌∷◌, Text, if◌then◌else◌}
use ocremote.Base.Int.{ℤ, pos, eq_ℤ, ltb_ℤ}
use ocremote.Serialize.Value.{Doubles, Key, Value}
use ocremote.Serialize.Casts.{Casts}
use ocremote.Serialize.Table.{find}
use ocremote.Serialize.Arrays.{Result, ok, err, bad_variant, out_of_range, ◌>>=◌}
use ocremote.Item.{ItemFilter}
use ocremote.Item.Codec.{as_table}
use ocremote.Factory.Stock.{Stock, get_avail, get_item}
use ocremote.Action.{call}
use ocremote.Process.Reply.{Reply, skip, send, Arithmetic}
use ocremote.Process.Reactor.{first_number}
use ocremote.Literals

pub record AccessRedstone : Type 0 where
  pub client : Text
  pub addr : Text
  pub side : ℤ

-- What a conditional does after the answer: its child's cycle, or nothing, or it fails.
pub data Decision : Type 0 where
  run_child do_nothing give_up : Decision

-- The valueFn of each output.
unfoldable pub apply_each : {D : Type 0} → List (D → ℤ) → D → List ℤ
apply_each [] energy = []
apply_each (value_fn ∷ rest) energy = value_fn energy ∷ apply_each rest energy

module _ (F : Doubles) (C : Casts F) (R : Arithmetic F) where
  open F use {Double}
  open C use {of_int, of_size, to_int}

  -- ProcessRedstoneConditional::cycle up to the answer, with the value of the precondition, if
  -- there is one.
  unfoldable pub conditional_reply : Option Bool → AccessRedstone → Reply Double
  conditional_reply (some false) access = skip
  conditional_reply other access =
      send access.client (call access.addr Literals.get_input (Value.num (of_int access.side) ∷ []))

  -- The callback of the answer.
  unfoldable pub conditional_decision : (ℤ → Bool) → Value Double → Decision
  conditional_decision predicate arg = elim (first_number F C R arg) [
    | err e ↦ give_up
    | ok level ↦ if predicate (to_int level) then run_child else do_nothing
  ]

  -- ProcessRedstoneEmitter::cycle
  unfoldable pub emitter_reply : ℤ → ℤ → AccessRedstone → Reply Double
  emitter_reply prev_value value access =
      if eq_ℤ value prev_value
      then skip
      else send access.client (
          call access.addr Literals.set_output
            (Value.num (of_int access.side) ∷ Value.num (of_int value) ∷ []))

  -- prevValue after the cycle.
  unfoldable pub emitter_done : ℤ → ℤ → ℤ
  emitter_done prev_value value = if eq_ℤ value prev_value then prev_value else value

  -- The function that `makeNeeded` returns.
  unfoldable pub make_needed : Stock F → ItemFilter Double → ℤ → ℤ
  make_needed s item to_stock =
      if ltb_ℤ (get_avail F s (get_item F s item) true) to_stock then pos 15 else pos 0

  -- std::get<double>(std::get<STable>(std::get<STable>(arg).at(1.0)).at("totalEnergy"))
  unfoldable pub total_energy : Value Double → Result Double
  total_energy arg = do
    t ← as_table F arg
    u ← elim (find F (Key.num (of_size 1)) t) [ none ↦ err out_of_range | some v ↦ as_table F v ]
    elim (find F (Key.str Literals.total_energy) u) [
      | none ↦ err out_of_range
      | some (Value.num x) ↦ ok x
      | some other ↦ err bad_variant
    ]

  -- ProcessFluxNetwork::cycle after the answer: lastEnergy and the values of the outputs, which then
  -- run as emitters.
  unfoldable pub flux_values : List (Double → ℤ) → Value Double → Result (Double × List ℤ)
  unfolding total_energy
  flux_values outputs arg = do energy ← total_energy arg; ok (energy, apply_each outputs energy)
