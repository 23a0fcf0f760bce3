-- ===== src/Process/Reactor.antt =====
-- `ProcessReactor` and its subclasses: the processes that control a reactor by its buffer.
pub mod Hysteresis
use ocremote.Base.{
  ◌≡◌, Bool, true, false, not, ◌&&◌, Option, none, some, List, [], ◌∷◌, Text, if◌then◌else◌,
}
use ocremote.Base.Int.{ℤ, pos, negsuc, eq_ℤ, ltb_ℤ, min_ℤ, max_ℤ}
use ocremote.Serialize.Value.{Doubles, Key, Value, Table}
use ocremote.Serialize.Casts.{Casts}
use ocremote.Serialize.Table.{find}
use ocremote.Serialize.Arrays.{Result, ok, err, bad_variant, out_of_range, ◌>>=◌}
use ocremote.Item.{ItemFilter}
use ocremote.Item.Codec.{as_table}
use ocremote.Factory.Stock.{Stock, get_avail, get_item}
use ocremote.Action.{Action, call}
use ocremote.Process.Reply.{AccessAddr, Reply, skip, fail, send, Arithmetic}
use ocremote.Literals

module _ (F : Doubles) (C : Casts F) (R : Arithmetic F) where
  open F use {Double, less}
  open C use {of_int, of_size, to_int, minus}
  open R use {plus, times, divide, round, half}

  -- What `getPV` starts with: a value that is known, or the answers that it waits for.
  pub data Query : Type 0 where
    known : Double → Query
    ask : List (Text × Action Double) → Query

  -- std::get<double>(std::get<STable>(v).at(1.0))
  unfoldable pub first_number : Value Double → Result Double
  first_number v = do
    t ← as_table F v
    elim (find F (Key.num (of_size 1)) t) [
      | none ↦ err out_of_range
      | some (Value.num x) ↦ ok x
      | some other ↦ err bad_variant
    ]

  -- ProcessReactor::getPV; the two actions for a turbine have each an access of its own.
  unfoldable pub get_pv : Stock F → ℤ → Bool → AccessAddr → AccessAddr → Query
  get_pv s cyanite_needed has_turbine access other =
      if ltb_ℤ (get_avail F s (get_item F s (ItemFilter.label Literals.cyanite_ingot)) true)
        cyanite_needed
      then known (of_int (pos 0))
      else if has_turbine
      then ask (
          (access.client, call access.addr Literals.get_hot_fluid_amount [])
          ∷ (other.client, call other.addr Literals.get_hot_fluid_amount_max [])
          ∷ [])
      else ask ((access.client, call access.addr Literals.get_energy_stored []) ∷ [])

  -- The callbacks of the answers of a turbine, and of a reactor without one; an error fails the
  -- promise.
  unfoldable pub turbine_pv : Value Double → Value Double → Result Double
  unfolding first_number
  turbine_pv amount max_amount = do
    x ← first_number amount
    y ← first_number max_amount
    ok (divide x y)

  unfoldable pub energy_pv : Value Double → Result Double
  unfolding first_number
  energy_pv stored = do x ← first_number stored; ok (divide x (of_int (pos 10000000)))

  -- ProcessReactorHysteresis::cycle: -1 is for no change.
  unfoldable pub choose_on : Double → Double → ℤ → Double → ℤ
  choose_on lower_bound upper_bound was_on pv =
      if less upper_bound pv && not (eq_ℤ was_on (pos 0))
      then pos 0
      else if less pv lower_bound && not (eq_ℤ was_on (pos 1))
      then pos 1
      else negsuc 0

  unfoldable pub hysteresis_reply : ℤ → AccessAddr → Reply Double
  hysteresis_reply on access =
      if ltb_ℤ on (pos 0)
      then skip
      else send access.client
          (call access.addr Literals.set_active (Value.bool (not (eq_ℤ on (pos 0))) ∷ []))

  -- wasOn after the answer, if there was something to send.
  unfoldable pub hysteresis_done : ℤ → ℤ → ℤ
  hysteresis_done was_on on = if ltb_ℤ on (pos 0) then was_on else on

  -- ProcessReactorProportional::cycle
  unfoldable pub rod_level : Double → Double
  rod_level pv = round (times (of_int (pos 100)) pv)

  unfoldable pub proportional_reply : ℤ → Double → AccessAddr → Reply Double
  unfolding rod_level
  proportional_reply prev pv access =
      if eq_ℤ (to_int (rod_level pv)) prev
      then skip
      else send access.client
          (call access.addr Literals.set_all_control_rod_levels (Value.num (rod_level pv) ∷ []))

  -- The state of ProcessReactorPID; the time is in seconds.
  pub record Pid : Type 0 where
    pub k_p : Double
    pub k_i : Double
    pub k_d : Double
    pub is_init : Bool
    pub prev_t : Double
    pub prev_e : Double
    pub accum : Double
    pub prev_out : ℤ

  -- std::clamp
  unfoldable pub clamp : Double → Double → Double → Double
  clamp x lo hi = if less x lo then lo else if less hi x then hi else x

  unfoldable pub clamp_int : ℤ → ℤ → ℤ → ℤ
  clamp_int x lo hi = if ltb_ℤ x lo then lo else if ltb_ℤ hi x then hi else x

  -- ProcessReactorPID::cycle up to `out`.
  unfoldable pub pid_step : Double → Double → Pid → Pid × ℤ
  unfolding clamp clamp_int
  pid_step now_t pv p =
      let now_e = times (minus half pv) (of_int (pos 2)) in
      let ts = minus now_t p.prev_t in
      let accum =
        if p.is_init
        then p.accum
        else clamp (plus p.accum (times (times ts now_e) p.k_i)) (of_int (negsuc 0))
            (of_int (pos 1)) in
      let diff = if p.is_init then of_int (pos 0) else divide (minus now_e p.prev_e) ts in
      let raw_out = plus (plus (times now_e p.k_p) accum) (times diff p.k_d) in
      (
        record p { is_init = false; accum = accum; prev_t = now_t; prev_e = now_e },
        clamp_int (to_int (round (times (of_int (pos 100)) (minus half raw_out)))) (pos 0)
            (pos 100),
      )

  unfoldable pub pid_reply : Pid → ℤ → AccessAddr → Reply Double
  pid_reply p out access =
      if eq_ℤ out p.prev_out
      then skip
      else send access.client
          (call access.addr Literals.set_all_control_rod_levels (Value.num (of_int out) ∷ []))

  -- After the answer: prev of a proportional process, and the state of a PID.
  unfoldable pub proportional_done : Double → ℤ
  unfolding rod_level
  proportional_done pv = to_int (rod_level pv)

  unfoldable pub pid_done : Pid → ℤ → Pid
  pid_done p out = record p { prev_out = out }
