-- ===== src/Factory/Bus/Owns.antt =====
-- Who owns the slots of the bus: each allocated slot is held by one process, or waits to be freed.
use ocremote.Base.{
  ℕ, ◌+◌, ◌≤◌, ◌≡◌, refl, inl, inr, Bool, true, false, List, [], ◌∷◌, ◌++◌, arith, Bool-cases,
}
use ocremote.Factory.Bus.{
  Effect, list_bus, granted, failed, insert_item, end_of_cycle, Bus, do_bus_update, bus_allocate,
  hand_over, hand_over_all, bus_free, bus_free_all,
}
use ocremote.Factory.Bus.Counting.{
  count, count-append, count-erase, count-erase_all, count-erase_all_le,
}

-- The slots that are handed to waiters.
unfoldable pub granted_slots : {A : Type 0} → List (Effect A) → List ℕ
granted_slots [] = []
granted_slots (granted waiter slot ∷ out) = slot ∷ granted_slots out
granted_slots (other ∷ out) = granted_slots out

pub granted-append :
    {A : Type 0} (xs ys : List (Effect A))
    → granted_slots (xs ++ ys) ≡ granted_slots xs ++ granted_slots ys
unfolding granted_slots
granted-append [] ys = refl
granted-append (list_bus ∷ xs) ys = granted-append xs ys
granted-append (granted w s ∷ xs) ys = rw (granted-append xs ys)
granted-append (failed w ∷ xs) ys = granted-append xs ys
granted-append (insert_item i s ∷ xs) ys = granted-append xs ys
granted-append (end_of_cycle ∷ xs) ys = granted-append xs ys

-- The slot is marked as allocated as often as it is held or waits to be freed; no slot is marked
-- twice.
pub record Owns (x : ℕ) (b : Bus) (held : List ℕ) : Type 0 where
  pub owned : count x b.allocations ≡ count x held + count x b.free_queue
  pub once : (y : ℕ) → count y b.allocations ≤ 1

-- The slot is held as often as it is among the others, and `rest` has it for the rest.
abbrev pub Releases : ℕ → List ℕ → List ℕ → List ℕ → Type 0
Releases x slots held rest = count x held ≡ count x slots + count x rest

pub Owns-same :
    (x : ℕ) (b : Bus) (held held' : List ℕ)
    → count x held ≡ count x held'
    → Owns x b held
    → Owns x b held'
Owns-same x b held held' h v = record { owned = omega (arith, v.owned, h); once = v.once }

module _ (A : Type 0) (x : ℕ) where
  -- What a call hands out is held from then on.
  abbrev pub OwnsAfter : List ℕ → Bus × List (Effect A) → Type 0
  OwnsAfter held (b, out) = Owns x b (held ++ granted_slots out)

  pub bus_allocate-Owns :
      (waiter : ℕ) (b : Bus) (held : List ℕ)
      → Owns x b held
      → OwnsAfter held (bus_allocate waiter b)
  unfolding bus_allocate do_bus_update granted_slots count
  bus_allocate-Owns waiter b held v = record {
    owned = ground (arith, v.owned, count-append x held []);
    once = λ y. ground (arith, v.once y);
  }

  hand_over-Owns :
      (slot : ℕ) (b : Bus) (held rest : List ℕ)
      → Releases x (slot ∷ []) held rest
      → Owns x b held
      → OwnsAfter rest (hand_over slot b)
  unfolding hand_over granted_slots count
  hand_over-Owns slot b held rest r v = record {
    owned = ground (
      arith,
      v.owned,
      v.once x,
      r,
      count-append x rest [],
      count-append x rest (slot ∷ []),
      count-erase x slot b.allocations,
    );
    once = λ y. ground (arith, v.once y, count-erase y slot b.allocations);
  }

  hand_over_all-Owns :
      (slots : List ℕ) (b : Bus) (held rest : List ℕ)
      → Releases x slots held rest
      → Owns x b held
      → OwnsAfter rest (hand_over_all slots b)
  unfolding hand_over_all granted_slots count
  hand_over_all-Owns [] b held rest r v =
      Owns-same x b held _ (omega (arith, r, count-append x rest [])) v
  hand_over_all-Owns (slot ∷ slots) b held rest r v =
      let (b', out) = hand_over {A = A} slot b in
      let one =
        hand_over-Owns slot b held (slots ++ rest) (omega (arith, r, count-append x slots rest))
          v in
      let g = granted_slots out in
      let later =
        hand_over_all-Owns slots b' ((slots ++ rest) ++ g) (rest ++ g)
          (omega (
            arith,
            count-append x (slots ++ rest) g,
            count-append x slots rest,
            count-append x rest g,
          ))
          one in
      rw (granted-append out (hand_over_all {A = A} slots b').1) (
        Owns-same x _ _ _
          (omega (
            arith,
            count-append x (rest ++ g) (granted_slots (hand_over_all {A = A} slots b').1),
            count-append x rest g,
            count-append x g (granted_slots (hand_over_all {A = A} slots b').1),
            count-append x rest (g ++ granted_slots (hand_over_all {A = A} slots b').1),
          ))
          later)

  pub bus_free-Owns :
      (slot : ℕ) (has_item : Bool) (b : Bus) (held rest : List ℕ)
      → Releases x (slot ∷ []) held rest
      → Owns x b held
      → OwnsAfter rest (bus_free slot has_item b)
  unfolding bus_free do_bus_update granted_slots count
  bus_free-Owns slot false b held rest r v = hand_over-Owns slot b held rest r v
  bus_free-Owns slot true b held rest r v = record {
    owned = ground (
      arith,
      v.owned,
      v.once x,
      r,
      count-append x rest [],
      count-append x b.free_queue (slot ∷ []),
      count-erase x slot b.allocations,
    );
    once = λ y. ground (arith, v.once y, count-erase y slot b.allocations);
  }

  pub bus_free_all-Owns :
      (slots : List ℕ) (has_item : Bool) (b : Bus) (held rest : List ℕ)
      → Releases x slots held rest
      → Owns x b held
      → OwnsAfter rest (bus_free_all slots has_item b)
  unfolding bus_free_all do_bus_update granted_slots count
  bus_free_all-Owns [] has_item b held rest r v =
      Owns-same x b held _ (omega (arith, r, count-append x rest [])) v
  bus_free_all-Owns (slot ∷ slots) false b held rest r v =
      hand_over_all-Owns (slot ∷ slots) b held rest r v
  bus_free_all-Owns (slot ∷ slots) true b held rest r v = elim (Bool-cases b.is_running) [
    | inl run ↦ rw run (record {
      owned =
          omega
            (arith, v.owned, r, count-append x rest [], count-append x b.free_queue (slot ∷ slots));
      once = v.once;
    })
    | inr stop ↦
        let erased =
          count-erase_all x (slot ∷ slots) b.allocations (omega (arith, v.owned, r)) (v.once x) in
        rw stop (record {
          owned = omega (arith, v.owned, r, count-append x rest [], erased);
          once = λ y. omega (arith, v.once y, count-erase_all_le y (slot ∷ slots) b.allocations);
        })
  ]
