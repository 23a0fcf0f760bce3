-- ===== src/Examples/Bussing.antt =====
-- The bus: one waiter is handed the only free slot.
use ocremote.Base.{ℕ, false, ◌++◌, List, ◌≡◌, ◌≤◌, refl, arith, none, [], ◌∷◌}
use ocremote.Factory.Bus.{
  bus_free, hand_over, bus_allocate, do_bus_update, on_listed, classify, grant_free, contains,
  emplace, on_inserted, on_settled, on_cycle_done, start_cycle, erase, erase_all, end_of_bus_update,
}
use ocremote.Factory.Bus.Owns.{granted_slots}
use ocremote.Factory.Bus.Counting.{count, without}
use ocremote.Factory.Bus.Waiting.{Call, perform, perform_all, asked, served, served-in_turn}
use ocremote.Factory.Bus.Exclusive.{
  System, Phase, init, listing, Step, here, next, after, lists_bus, IsSafe, Reach-IsSafe,
}

abbrev called : System
called = after ℕ init.held init.phase (bus_allocate 7 init.bus)

abbrev handed : System
handed =
    after ℕ called.held (Phase.inserting (on_listed {A = ℕ} (none ∷ none ∷ []) called.bus).0.1) (
      (on_listed {A = ℕ} (none ∷ none ∷ []) called.bus).0.0,
      (on_listed {A = ℕ} (none ∷ none ∷ []) called.bus).1,
    )

called_phase : called.phase ≡ listing
unfolding after lists_bus bus_allocate do_bus_update
called_phase = refl

handed_slot : handed.held ≡ 1 ∷ []
unfolding after bus_allocate do_bus_update on_listed classify grant_free granted_slots contains
    emplace
handed_slot = refl

-- The update ends, the slot is given back, and the next cycle is quiet: it ends with an update.
abbrev over : System
over =
    after ℕ handed.held (Phase.settling (on_inserted false handed.bus).1)
      ((on_inserted false handed.bus).0, [])

abbrev rested : System
rested = after ℕ over.held Phase.idle (on_settled false over.bus)

abbrev returned : System
returned = after ℕ (without (1 ∷ []) rested.held) rested.phase (bus_free 1 false rested.bus)

abbrev begun : System
begun = after ℕ returned.held returned.phase (start_cycle returned.bus, [])

abbrev quiet : System
quiet = after ℕ begun.held begun.phase (on_cycle_done begun.bus)

handed_phase : handed.phase ≡ Phase.inserting false
unfolding after lists_bus bus_allocate do_bus_update on_listed classify grant_free granted_slots
    contains emplace
handed_phase = refl

over_phase : over.phase ≡ Phase.settling false
unfolding after lists_bus bus_allocate do_bus_update on_listed classify grant_free granted_slots
    contains emplace on_inserted erase_all erase
over_phase = refl

rested_holds : count 1 (1 ∷ []) ≤ count 1 rested.held
unfolding after lists_bus bus_allocate do_bus_update on_listed classify grant_free granted_slots
    contains emplace on_inserted erase_all erase on_settled end_of_bus_update count
rested_holds = omega arith

quiet_phase : quiet.phase ≡ listing
unfolding after lists_bus bus_allocate do_bus_update on_listed classify grant_free granted_slots
    contains emplace on_inserted erase_all erase on_settled end_of_bus_update bus_free hand_over
    start_cycle on_cycle_done
quiet_phase = refl

Reach-IsSafe_example : IsSafe ℕ 1 quiet
Reach-IsSafe_example = Reach-IsSafe ℕ 1 {s = quiet} (
    next
      (next
        (next
          (next
            (next (next (next here (Step.allocate 7)) (Step.listed (none ∷ none ∷ []) called_phase))
              (Step.inserted false handed_phase))
            (Step.settled false over_phase))
          (Step.free 1 false rested_holds))
        Step.started)
      Step.cycle_done)

-- Three ask, two slots are free, and one of them is given back.
abbrev calls : List (Call ℕ)
calls =
    Call.allocate 7
    ∷ Call.allocate 8
    ∷ Call.allocate 9
    ∷ Call.listed (none ∷ none ∷ [])
    ∷ Call.release 0 false
    ∷ []

served-calls : served (perform_all calls init.bus).1 ≡ 7 ∷ 8 ∷ 9 ∷ []
unfolding served perform_all perform bus_allocate do_bus_update on_listed classify grant_free
    contains emplace bus_free hand_over
served-calls = refl

served-in_turn_example :
    let (b', out) = perform_all calls init.bus in
    served out ++ b'.wait_queue ≡ init.bus.wait_queue ++ asked calls
served-in_turn_example = served-in_turn ℕ calls init.bus
