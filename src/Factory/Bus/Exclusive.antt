-- ===== src/Factory/Bus/Exclusive.antt =====
-- The bus as a system: the processes that allocate and free slots, the client that answers, and the start and the end of each cycle, in any order.
use ocremote.Base.{
  ℕ, ◌≡◌, refl, sym, ap, ◌∙◌, inl, inr, ◌≢◌, ◌≤◌, map, Bool, true, false, not, Option, List, [],
  ◌∷◌, ◌++◌, arith, Bool-cases, if◌then◌else◌,
}
use ocremote.Factory.Bus.{
  Effect, list_bus, granted, failed, insert_item, end_of_cycle, Bus, is_empty, do_bus_update,
  bus_allocate, hand_over, hand_over_all, bus_free, bus_free_all, on_listed, on_inserted,
  start_cycle, end_of_bus_update, on_settled, on_failed, on_cycle_failed, on_cycle_done,
}
use ocremote.Factory.Bus.Counting.{
  count, count-append, count-erase_all, count-erase_all_le, without, count-without,
}
use ocremote.Factory.Bus.Owns.{
  granted_slots, Owns, OwnsAfter, bus_allocate-Owns, bus_free-Owns, bus_free_all-Owns,
}
use ocremote.Factory.Bus.Listing.{on_listed-Owns}

-- Where the promise chain of doBusUpdate stands.
pub data Phase : Type 0 where
  idle listing : Phase
  inserting settling : Bool → Phase

abbrev pub is_active : Phase → Bool
is_active idle = false
is_active other = true

-- The bus, the slots that processes hold, and the update that is under way.
pub record System : Type 0 where
  pub bus : Bus
  pub held : List ℕ
  pub phase : Phase

-- A fresh factory.
abbrev pub init : System
init = record {
  bus = record {
    allocations = [];
    wait_queue = [];
    free_queue = [];
    is_running = false;
    end_of_cycle_after_update = false;
    n_updates = 0;
  };
  held = [];
  phase = idle;
}

module _ (A : Type 0) where
  -- An update is under way from the moment at which the bus is listed.
  unfoldable pub lists_bus : List (Effect A) → Bool
  lists_bus [] = false
  lists_bus (list_bus ∷ out) = true
  lists_bus (other ∷ out) = lists_bus out

  -- The system after a call, with the phase that it is in if the call starts no update.
  unfoldable pub after : List ℕ → Phase → Bus × List (Effect A) → System
  after held phase (b, out) = record {
    bus = b;
    held = held ++ granted_slots out;
    phase = if lists_bus out then listing else phase;
  }

  -- The start of a cycle; a call of busAllocate; a call of busFree, which does not check that the
  -- slots are held; the callbacks of an update that is under way, one after another, or its failure
  -- at any of them; and the end of a cycle. Of the slot `x` it is asked that it is freed no more often
  -- than it is held; any other may be freed at any time.
  pub data Step (x : ℕ) (s : System) : System → Type 0 where
    started : Step x s (after s.held s.phase (start_cycle s.bus, []))
    allocate : (waiter : ℕ) → Step x s (after s.held s.phase (bus_allocate waiter s.bus))
    free :
        (slot : ℕ) (has_item : Bool)
        → count x (slot ∷ []) ≤ count x s.held
        → Step x s (after (without (slot ∷ []) s.held) s.phase (bus_free slot has_item s.bus))
    free_all :
        (slots : List ℕ) (has_item : Bool)
        → count x slots ≤ count x s.held
        → Step x s (after (without slots s.held) s.phase (bus_free_all slots has_item s.bus))
    listed :
        (items : List (Option A))
        → s.phase ≡ listing
        → Step x s (
            after s.held
              (inserting (on_listed items s.bus).0.1)
              ((on_listed items s.bus).0.0, (on_listed items s.bus).1))
    inserted :
        (ever_inserted : Bool)
        → s.phase ≡ inserting ever_inserted
        → Step x s (
            after s.held
              (settling (on_inserted ever_inserted s.bus).1)
              ((on_inserted ever_inserted s.bus).0, []))
    settled :
        (restart : Bool)
        → s.phase ≡ settling restart
        → Step x s (after s.held idle (on_settled restart s.bus))
    update_failed : s.phase ≢ idle → Step x s (after s.held idle (on_failed s.bus))
    cycle_failed : Step x s (after s.held s.phase (on_cycle_failed s.bus))
    cycle_done : Step x s (after s.held s.phase (on_cycle_done s.bus))

  pub data Reach (x : ℕ) (s : System) : System → Type 0 where
    here : Reach x s s
    next : {t u : System} → Reach x s t → Step x t u → Reach x s u

  pub record IsSafe (x : ℕ) (s : System) : Type 0 where
    pub owns : Owns x s.bus s.held
    pub in_phase : s.bus.is_running ≡ is_active s.phase

  inserted-Owns :
      (x : ℕ) (e : Bool) (b : Bus) (held : List ℕ)
      → Owns x b held
      → Owns x (on_inserted e b).0 (held ++ [])
  unfolding on_inserted count
  inserted-Owns x e b held v =
      let erased =
        count-erase_all x b.free_queue b.allocations (omega (arith, v.owned)) (v.once x) in
      elim (Bool-cases (not (is_empty b.free_queue))) [
        | inl some_freed ↦ rw some_freed (record {
          owned = omega (arith, v.owned, erased, count-append x held []);
          once = λ y. omega (arith, v.once y, count-erase_all_le y b.free_queue b.allocations);
        })
        | inr none_freed ↦
            rw none_freed
              (record { owned = omega (arith, v.owned, count-append x held []); once = v.once })
      ]

  settled-Owns :
      (x : ℕ) (r : Bool) (b : Bus) (held : List ℕ)
      → Owns x b held
      → OwnsAfter A x held (on_settled r b)
  unfolding on_settled granted_slots count
  settled-Owns x r b held v = record {
    owned = ground (arith, v.owned, count-append x held []);
    once = λ y. ground (arith, v.once y);
  }

  failed_grants_none :
      (ws : List ℕ) (out : List (Effect A))
      → granted_slots (map failed ws ++ out) ≡ granted_slots out
  unfolding granted_slots
  failed_grants_none [] out = refl
  failed_grants_none (w ∷ ws) out = failed_grants_none ws out

  failed-Owns : (x : ℕ) (b : Bus) (held : List ℕ) → Owns x b held → OwnsAfter A x held (on_failed b)
  unfolding on_failed
  failed-Owns x b held v =
      let ended = end_of_bus_update {A = A} (record b { wait_queue = [] }) in
      rw (failed_grants_none b.wait_queue ended.1) (
        unfold end_of_bus_update granted_slots count in
        record {
          owned = ground (arith, v.owned, count-append x held []);
          once = λ y. ground (arith, v.once y);
        })

  cycle_failed-Owns :
      (x : ℕ) (b : Bus) (held : List ℕ) → Owns x b held → OwnsAfter A x held (on_cycle_failed b)
  unfolding on_cycle_failed granted_slots count
  cycle_failed-Owns x b held v = record {
    owned = ground (arith, v.owned, count-append x held []);
    once = λ y. ground (arith, v.once y);
  }

  cycle_done-Owns :
      (x : ℕ) (b : Bus) (held : List ℕ) → Owns x b held → OwnsAfter A x held (on_cycle_done b)
  unfolding on_cycle_done granted_slots count
  cycle_done-Owns x b held v = record {
    owned = ground (arith, v.owned, count-append x held []);
    once = λ y. ground (arith, v.once y);
  }

  started-Owns :
      (x : ℕ) (b : Bus) (held : List ℕ) → Owns x b held → Owns x (start_cycle b) (held ++ [])
  unfolding start_cycle count
  started-Owns x b held v = record {
    owned = omega (arith, v.owned, count-append x held []);
    once = v.once;
  }

  -- Every step keeps the ownership of the slot.
  Step-Owns : (x : ℕ) {s t : System} → Step x s t → Owns x s.bus s.held → Owns x t.bus t.held
  unfolding after granted_slots
  Step-Owns x {s} started v = started-Owns x s.bus s.held v
  Step-Owns x {s} (allocate w) v = bus_allocate-Owns A x w s.bus s.held v
  Step-Owns x {s} (free slot i h) v =
      bus_free-Owns A x slot i s.bus s.held (without (slot ∷ []) s.held)
        (count-without x (slot ∷ []) s.held h) v
  Step-Owns x {s} (free_all slots i h) v =
      bus_free_all-Owns A x slots i s.bus s.held (without slots s.held)
        (count-without x slots s.held h) v
  Step-Owns x {s} (listed items e) v = on_listed-Owns A x items s.bus s.held v
  Step-Owns x {s} (inserted e h) v = inserted-Owns x e s.bus s.held v
  Step-Owns x {s} (settled r h) v = settled-Owns x r s.bus s.held v
  Step-Owns x {s} (update_failed h) v = failed-Owns x s.bus s.held v
  Step-Owns x {s} cycle_failed v = cycle_failed-Owns x s.bus s.held v
  Step-Owns x {s} cycle_done v = cycle_done-Owns x s.bus s.held v

  -- An update is marked as running exactly while its callbacks are due.
  abbrev InPhase : Phase → Bus × List (Effect A) → Type 0
  InPhase phase (b, out) = b.is_running ≡ is_active (if lists_bus out then listing else phase)

  lists-append :
      (xs ys : List (Effect A)) → lists_bus xs ≡ false → lists_bus (xs ++ ys) ≡ lists_bus ys
  unfolding lists_bus
  lists-append [] ys h = refl
  lists-append (list_bus ∷ xs) ys h = cc
  lists-append (granted w s ∷ xs) ys h = lists-append xs ys h
  lists-append (failed w ∷ xs) ys h = lists-append xs ys h
  lists-append (insert_item i s ∷ xs) ys h = lists-append xs ys h
  lists-append (end_of_cycle ∷ xs) ys h = lists-append xs ys h

  hand_over_lists_none :
      (slot : ℕ) (b : Bus)
      → (lists_bus (hand_over slot b).1 ≡ false)
        × ((hand_over {A = A} slot b).0.is_running ≡ b.is_running)
  unfolding hand_over lists_bus
  hand_over_lists_none slot b = (ground arith, ground arith)

  hand_over_all_lists_none :
      (slots : List ℕ) (b : Bus)
      → (lists_bus (hand_over_all slots b).1 ≡ false)
        × ((hand_over_all {A = A} slots b).0.is_running ≡ b.is_running)
  unfolding hand_over_all lists_bus
  hand_over_all_lists_none [] b = (refl, refl)
  hand_over_all_lists_none (slot ∷ slots) b =
      let one = hand_over_lists_none slot b in
      let later = hand_over_all_lists_none slots (hand_over {A = A} slot b).0 in
      (lists-append (hand_over {A = A} slot b).1 _ one.0 ∙ later.0, later.1 ∙ one.1)

  active_anyway :
      (l : Bool) (p : Phase) → is_active p ≡ true → is_active (if l then listing else p) ≡ true
  active_anyway true p h = refl
  active_anyway false p h = h

  failed_lists_none :
      (ws : List ℕ) (out : List (Effect A)) → lists_bus (map failed ws ++ out) ≡ lists_bus out
  unfolding lists_bus
  failed_lists_none [] out = refl
  failed_lists_none (w ∷ ws) out = failed_lists_none ws out

  -- A call that lists nothing and leaves the mark alone.
  quiet-InPhase :
      (b : Bus) (r : Bus × List (Effect A)) (p : Phase)
      → lists_bus r.1 ≡ false
      → r.0.is_running ≡ b.is_running
      → b.is_running ≡ is_active p
      → InPhase p r
  quiet-InPhase b r p quiet same e = rw quiet (same ∙ e)

  free-InPhase :
      (slot : ℕ) (has_item : Bool) (b : Bus) (p : Phase)
      → b.is_running ≡ is_active p
      → InPhase p (bus_free slot has_item b)
  unfolding bus_free
  free-InPhase slot false b p e =
      let one = hand_over_lists_none slot b in quiet-InPhase b (hand_over slot b) p one.0 one.1 e
  free-InPhase slot true b p e = unfold do_bus_update lists_bus in ground arith

  free_all-InPhase :
      (slots : List ℕ) (has_item : Bool) (b : Bus) (p : Phase)
      → b.is_running ≡ is_active p
      → InPhase p (bus_free_all slots has_item b)
  unfolding bus_free_all
  free_all-InPhase [] has_item b p e = unfold lists_bus in e
  free_all-InPhase (slot ∷ slots) false b p e =
      let all = hand_over_all_lists_none (slot ∷ slots) b in
      quiet-InPhase b (hand_over_all (slot ∷ slots) b) p all.0 all.1 e
  free_all-InPhase (slot ∷ slots) true b p e = unfold do_bus_update lists_bus in ground arith

  failed-InPhase : (b : Bus) → InPhase idle (on_failed b)
  unfolding on_failed
  failed-InPhase b =
      rw
        (failed_lists_none b.wait_queue
          (end_of_bus_update {A = A} (record b { wait_queue = [] })).1)
        (unfold end_of_bus_update lists_bus in ground arith)

  running_listed :
      (items : List (Option A)) (b : Bus) → (on_listed items b).0.0.is_running ≡ b.is_running
  unfolding on_listed
  running_listed items b = refl

  running_inserted : (e : Bool) (b : Bus) → (on_inserted e b).0.is_running ≡ b.is_running
  unfolding on_inserted
  running_inserted e b = ground arith

  Step-in_phase :
      (x : ℕ) {s t : System}
      → Step x s t
      → s.bus.is_running ≡ is_active s.phase
      → t.bus.is_running ≡ is_active t.phase
  unfolding after lists_bus
  Step-in_phase x {s} started e = unfold start_cycle in e
  Step-in_phase x {s} (allocate w) e = unfold bus_allocate do_bus_update in ground arith
  Step-in_phase x {s} (free slot i h) e = free-InPhase slot i s.bus s.phase e
  Step-in_phase x {s} (free_all slots i h) e = free_all-InPhase slots i s.bus s.phase e
  Step-in_phase x {s} (listed items h) e =
      running_listed items s.bus
      ∙ e
      ∙ ap is_active h
      ∙ sym (
          active_anyway (lists_bus (on_listed items s.bus).1)
            (inserting (on_listed items s.bus).0.1) refl)
  Step-in_phase x {s} (inserted ever h) e = running_inserted ever s.bus ∙ e ∙ ap is_active h
  Step-in_phase x {s} (settled r h) e = unfold on_settled in ground arith
  Step-in_phase x {s} (update_failed h) e = failed-InPhase s.bus
  Step-in_phase x {s} cycle_failed e = unfold on_cycle_failed in ground arith
  Step-in_phase x {s} cycle_done e = unfold on_cycle_done in ground arith

  init-IsSafe : (x : ℕ) → IsSafe x init
  unfolding count
  init-IsSafe x = record {
    owns = record { owned = refl; once = λ y. omega arith };
    in_phase = refl;
  }

  IsSafe-along : (x : ℕ) {s t : System} → IsSafe x s → Reach x s t → IsSafe x t
  IsSafe-along x v here = v
  IsSafe-along x v (next r step) =
      let u = IsSafe-along x v r in
      record { owns = Step-Owns x step u.owns; in_phase = Step-in_phase x step u.in_phase }

  -- However the starts and the ends of cycles, allocations, releases, the callbacks of the bus
  -- updates and their failures follow one another from a fresh factory: a slot that is released only
  -- while it is held, whatever other slots are, is marked as allocated once if it is held by a
  -- process or waits to be freed, and not at all otherwise, so that it has no two holders; no slot is
  -- marked twice; and an update is marked as running exactly while its callbacks are due.
  pub Reach-IsSafe : (x : ℕ) {s : System} → Reach x init s → IsSafe x s
  Reach-IsSafe x r = IsSafe-along x (init-IsSafe x) r
