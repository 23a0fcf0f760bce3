-- ===== src/Factory/Bus/Listing.antt =====
-- The answer of a bus update: which slots are free, and who gets them.
use ocremote.Base.{
  ℕ, ◌+◌, ◌≤◌, ◌≡◌, refl, Bool, true, false, Option, none, some, List, [], ◌∷◌, ◌++◌, arith,
  if◌then◌else◌,
}
use ocremote.Factory.Bus.{
  Effect, insert_item, Bus, contains, emplace, classify, grant_free, on_listed,
}
use ocremote.Factory.Bus.Counting.{count, count-append, count-contains, count-emplace}
use ocremote.Factory.Bus.Owns.{granted_slots, granted-append, Owns}

-- A slot that is counted as free is not allocated, is counted once, and was visited.
record Free (allocations free : List ℕ) (i : ℕ) : Type 0 where
  apart : (x : ℕ) → count x allocations + count x free ≤ 1
  visited : (x : ℕ) → i ≤ x → count x free ≡ 0

module _ (A : Type 0) where
  step-Free :
      (allocations : List ℕ) (i : ℕ) (stack : Option A) (free : List ℕ)
      → ((x : ℕ) → count x allocations ≤ 1)
      → Free allocations free i
      → Free allocations
          (if contains allocations i then free else elim stack [ none ↦ i ∷ free | some s ↦ free ])
          (i + 1)
  unfolding count
  step-Free allocations i (some s) free k v = record {
    apart = λ x. ground (arith, v.apart x);
    visited = λ x h. ground (arith, v.visited x);
  }
  step-Free allocations i none free k v = record {
    apart = λ x.
        ground
          (arith, v.apart x, v.visited x, v.apart i, v.visited i, count-contains i allocations);
    visited = λ x h. ground (arith, v.visited x);
  }

  classify-Free :
      (allocations : List ℕ) (i : ℕ) (items : List (Option A)) (inserts : List (Effect A))
      (free : List ℕ)
      → ((x : ℕ) → count x allocations ≤ 1)
      → Free allocations free i
      → (x : ℕ) → count x allocations + count x (classify allocations i items inserts free).1 ≤ 1
  unfolding classify
  classify-Free allocations i [] inserts free k v = v.apart
  classify-Free allocations i (stack ∷ rest) inserts free k v =
      classify-Free allocations (i + 1) rest _ _ k (step-Free allocations i stack free k v)

  insert_grants_none :
      (b : Bool) (i : ℕ) (stack : Option A) (inserts : List (Effect A))
      → granted_slots inserts ≡ []
      → granted_slots (
          if b
          then inserts
          else elim stack [ none ↦ inserts | some s ↦ inserts ++ insert_item i s ∷ [] ])
        ≡ []
  unfolding granted_slots
  insert_grants_none true i stack inserts h = h
  insert_grants_none false i none inserts h = h
  insert_grants_none false i (some s) inserts h =
      rw (granted-append inserts (insert_item i s ∷ []), h)

  classify_grants_none :
      (allocations : List ℕ) (i : ℕ) (items : List (Option A)) (inserts : List (Effect A))
      (free : List ℕ)
      → granted_slots inserts ≡ []
      → granted_slots (classify allocations i items inserts free).0 ≡ []
  unfolding classify
  classify_grants_none allocations i [] inserts free h = h
  classify_grants_none allocations i (stack ∷ rest) inserts free h =
      classify_grants_none allocations (i + 1) rest _ _ (insert_grants_none _ i stack inserts h)

  -- The slots that are granted are allocated then, and each once.
  grant_free-count :
      (free waiters allocations : List ℕ)
      → ((x : ℕ) → count x allocations + count x free ≤ 1)
      → (x : ℕ)
      → let (state, out) = grant_free {A = A} free waiters allocations in
        (count x state.0 ≡ count x allocations + count x (granted_slots out))
        × (count x state.0 ≤ 1)
  unfolding grant_free granted_slots count
  grant_free-count [] waiters allocations h x = (omega arith, omega (arith, h x))
  grant_free-count (slot ∷ free) [] allocations h x = (omega arith, omega (arith, h x))
  grant_free-count (slot ∷ free) (waiter ∷ waiters) allocations h x =
      let fresh : count slot allocations ≡ 0 = ground (arith, h slot) in
      let later =
        grant_free-count free waiters (emplace slot allocations)
          (λ y. ground (arith, h y, count-emplace y slot allocations fresh)) x in
      (omega (arith, later.0, count-emplace x slot allocations fresh), later.1)

  pub on_listed-Owns :
      (x : ℕ) (items : List (Option A)) (b : Bus) (held : List ℕ)
      → Owns x b held
      → Owns x (on_listed items b).0.0 (held ++ granted_slots (on_listed items b).1)
  unfolding on_listed
  on_listed-Owns x items b held v =
      let (inserts, free) = classify b.allocations 0 items [] [] in
      let none_yet : Free b.allocations [] 0 = record {
        apart = λ y. unfold count in omega (arith, v.once y);
        visited = λ y _. unfold count in refl;
      } in
      let apart = classify-Free b.allocations 0 items [] [] v.once none_yet in
      let grants = (grant_free {A = A} free b.wait_queue b.allocations).1 in
      let quiet = classify_grants_none b.allocations 0 items [] [] (unfold granted_slots in refl) in
      let counted = grant_free-count free b.wait_queue b.allocations apart in
      rw (granted-append inserts grants, quiet)
        (record {
          owned = omega (arith, v.owned, (counted x).0, count-append x held (granted_slots grants));
          once = λ y. (counted y).1;
        })
