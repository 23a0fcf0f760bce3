-- ===== src/Examples/Emptying.antt =====
-- Inventories that a process fills or empties.
use ocremote.Base.{ℕ, ◌≡◌, refl, none, some, List, [], ◌∷◌, ap, arith, text_eq}
use ocremote.Base.Int.{ℤ, pos, min_ℤ, div_ℤ, ◌-ℤ◌}
use ocremote.Serialize.Equality.{table_eq}
use ocremote.Item.{ItemFilter, matches, item_eq, item_eq-AreSame, bool_eq}
use ocremote.Factory.Demand.{Demand}
use ocremote.Process.Buffered.{retry}
use ocremote.Process.Buffered.Greatest.{IsGreatest, retry-IsGreatest}
use ocremote.Process.Slotted.{
  SlotInfos, each_size, find_slot, is_used, visit_slots, visit_inputs, others_are_empty, fit_demand,
  choose,
}
use ocremote.Process.Slotted.Fits.{Fitting, choose-Fitting}
use ocremote.Process.Inputless.{InputlessEntry, new_info, inputless_outputs}
use ocremote.Process.Inputless.Infos.{AreRespectful}
use ocremote.Process.Inputless.Shortage.{shortage, stored, taken, inputless_outputs-taken}
use ocremote.Examples.Numbers.{bytes}
use ocremote.Examples.Casting.{percents}
use ocremote.Examples.Inserting.{item_named, small}
use ocremote.Examples.Planning.{five_items, input_of}

-- Slot 0 has three of the item.
abbrev slot_infos : SlotInfos bytes
slot_infos = (0, some (record { item = item_named 97; size = pos 3 })) ∷ (1, none) ∷ []

abbrev demand : Demand bytes percents ℤ (List ℕ)
demand = record {
  recipe = record { outputs = []; inputs = input_of (pos 2) ∷ []; info = pos 8 };
  inputs = some (item_named 97) ∷ [];
  in_avail = pos 5;
  fullness = 0;
}

-- Two sets more make seven in the slot.
two_sets : choose bytes percents slot_infos (demand ∷ []) ≡ some (some (demand, pos 2))
unfolding choose fit_demand visit_inputs visit_slots find_slot others_are_empty is_used each_size
    item_eq bool_eq text_eq table_eq min_ℤ div_ℤ ◌-ℤ◌
two_sets = refl

choose-Fitting_example : Fitting bytes slot_infos percents (demand ∷ []) demand (pos 2)
unfolding each_size div_ℤ
choose-Fitting_example =
    choose-Fitting bytes slot_infos percents (demand ∷ []) demand (pos 2)
      ((omega arith, (omega arith, tt)), tt) two_sets

-- Eight of the item are needed.
abbrev entries : List (InputlessEntry ℕ)
entries = record { item = ItemFilter.name (97 ∷ []); needed = pos 8 } ∷ []

entries-AreRespectful : AreRespectful bytes entries
unfolding matches
entries-AreRespectful =
    (λ x y e. ap (λ n. text_eq n (97 ∷ [])) (item_eq-AreSame bytes x y e).name, tt)

inputless_outputs-taken_example :
    taken bytes small (item_named 97) (inputless_outputs bytes five_items entries none small)
    ≡ min_ℤ
        (shortage (new_info bytes five_items entries (item_named 97)))
        (stored bytes none (item_named 97) 0 small)
inputless_outputs-taken_example =
    inputless_outputs-taken bytes five_items entries entries-AreRespectful none small
      (item_named 97) (omega arith, (omega arith, tt))

-- Thirty of the item for each set: two sets have room, three do not.
retry-IsGreatest_example :
    IsGreatest bytes
      (some (item_named 97) ∷ [])
      (input_of (pos 30) ∷ [])
      small
      3
      (retry bytes 3 (some (item_named 97) ∷ []) (input_of (pos 30) ∷ []) small)
retry-IsGreatest_example =
    retry-IsGreatest bytes (some (item_named 97) ∷ []) (input_of (pos 30) ∷ []) small 3
      (omega arith)
