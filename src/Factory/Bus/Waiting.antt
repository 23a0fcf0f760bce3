-- ===== src/Factory/Bus/Waiting.antt =====
-- The order in which the waiters of the bus are served.
use ocremote.Base.{
  ℕ, ◌+◌, ◌≡◌, refl, sym, ap, ◌∙◌, inl, inr, map, Bool, true, false, not, Option, none, some, List,
  [], ◌∷◌, ◌++◌, append-nil, append_assoc, Bool-cases, ◌==◌,
}
use ocremote.Factory.Bus.{
  Effect, list_bus, granted, failed, insert_item, end_of_cycle, Bus, contains, is_empty,
  do_bus_update, bus_allocate, hand_over, hand_over_all, bus_free, bus_free_all, classify,
  grant_free, on_listed, on_inserted, end_of_bus_update, on_settled, on_failed, on_cycle_failed,
  on_cycle_done,
}

-- A call of the bus.
pub data Call (A : Type 0) : Type 0 where
  allocate : ℕ → Call A
  release : ℕ → Bool → Call A
  release_all : List ℕ → Bool → Call A
  listed : List (Option A) → Call A
  inserted settled : Bool → Call A
  update_failed cycle_failed cycle_done : Call A

module _ {A : Type 0} where
  unfoldable pub perform : Call A → Bus → Bus × List (Effect A)
  perform (allocate waiter) b = bus_allocate waiter b
  perform (release slot has_item) b = bus_free slot has_item b
  perform (release_all slots has_item) b = bus_free_all slots has_item b
  perform (listed items) b = ((on_listed items b).0.0, (on_listed items b).1)
  perform (inserted ever) b = ((on_inserted ever b).0, [])
  perform (settled restart) b = on_settled restart b
  perform update_failed b = on_failed b
  perform cycle_failed b = on_cycle_failed b
  perform cycle_done b = on_cycle_done b

  unfoldable pub perform_all : List (Call A) → Bus → Bus × List (Effect A)
  unfolding perform
  perform_all [] b = (b, [])
  perform_all (call ∷ calls) b =
      let (b', out) = perform call b in let (b'', more) = perform_all calls b' in (b'', out ++ more)

  unfoldable pub asked : List (Call A) → List ℕ
  asked [] = []
  asked (allocate waiter ∷ calls) = waiter ∷ asked calls
  asked (other ∷ calls) = asked calls

  -- The waiters that got a slot or a failure.
  unfoldable pub served : List (Effect A) → List ℕ
  served [] = []
  served (granted waiter slot ∷ out) = waiter ∷ served out
  served (failed waiter ∷ out) = waiter ∷ served out
  served (other ∷ out) = served out

module _ (A : Type 0) where
  served-append : (xs ys : List (Effect A)) → served (xs ++ ys) ≡ served xs ++ served ys
  unfolding served
  served-append [] ys = refl
  served-append (granted w s ∷ xs) ys = ap (◌∷◌ w) (served-append xs ys)
  served-append (failed w ∷ xs) ys = ap (◌∷◌ w) (served-append xs ys)
  served-append (list_bus ∷ xs) ys = served-append xs ys
  served-append (insert_item i s ∷ xs) ys = served-append xs ys
  served-append (end_of_cycle ∷ xs) ys = served-append xs ys

  -- After a call, the waiters that it served and those that still wait are the given ones.
  abbrev InTurn : List ℕ → Bus × List (Effect A) → Type 0
  InTurn waiters (b, out) = served out ++ b.wait_queue ≡ waiters

  hand_over-InTurn :
      (slot : ℕ) (b : Bus) (queue : List ℕ)
      → b.wait_queue ≡ queue
      → InTurn b.wait_queue (hand_over {A = A} slot b)
  unfolding hand_over served
  hand_over-InTurn slot b [] e = rw (e, hand_over) e
  hand_over-InTurn slot b (w ∷ rest) e = rw (e, hand_over) refl

  hand_over_all-InTurn :
      (slots : List ℕ) (b : Bus) → InTurn b.wait_queue (hand_over_all {A = A} slots b)
  unfolding hand_over_all served
  hand_over_all-InTurn [] b = refl
  hand_over_all-InTurn (slot ∷ slots) b =
      let r = hand_over {A = A} slot b in
      let more = hand_over_all {A = A} slots r.0 in
      ap (λ q. q ++ more.0.wait_queue) (served-append r.1 more.1)
      ∙ append_assoc (served r.1) (served more.1) more.0.wait_queue
      ∙ ap (◌++◌ (served r.1)) (hand_over_all-InTurn slots r.0)
      ∙ hand_over-InTurn slot b b.wait_queue refl

  classify-served :
      (allocations : List ℕ) (i : ℕ) (items : List (Option A)) (inserts : List (Effect A))
      (free : List ℕ)
      → served (classify allocations i items inserts free).0 ≡ served inserts
  unfolding classify served
  classify-served allocations i [] inserts free = refl
  classify-served allocations i (none ∷ rest) inserts free =
      elim (Bool-cases (contains allocations i)) [
        | inl e ↦ rw (e, classify) (classify-served allocations (i + 1) rest inserts _)
        | inr e ↦ rw (e, classify) (classify-served allocations (i + 1) rest inserts _)
      ]
  classify-served allocations i (some s ∷ rest) inserts free =
      elim (Bool-cases (contains allocations i)) [
        | inl e ↦ rw (e, classify) (classify-served allocations (i + 1) rest inserts _)
        | inr e ↦
            rw (e, classify)
              (classify-served allocations (i + 1) rest (inserts ++ insert_item i s ∷ []) _
                ∙ served-append inserts (insert_item i s ∷ [])
                ∙ append-nil (served inserts))
      ]

  grant_free-served :
      (free waiters allocations : List ℕ)
      → let (state, out) = grant_free {A = A} free waiters allocations in
        served out ++ state.1 ≡ waiters
  unfolding grant_free served
  grant_free-served [] waiters allocations = refl
  grant_free-served (slot ∷ free) [] allocations = refl
  grant_free-served (slot ∷ free) (w ∷ waiters) allocations =
      ap (◌∷◌ w) (grant_free-served free waiters _)

  abbrev failures : List ℕ → List (Effect A)
  failures waiters = map failed waiters

  served-failed : (waiters : List ℕ) → served (failures waiters) ≡ waiters
  unfolding served
  served-failed [] = refl
  served-failed (w ∷ waiters) = ap (◌∷◌ w) (served-failed waiters)

  free_all-InTurn :
      (slots : List ℕ) (has_item : Bool) (b : Bus)
      → InTurn b.wait_queue (bus_free_all {A = A} slots has_item b)
  unfolding bus_free_all do_bus_update served
  free_all-InTurn [] has_item b = refl
  free_all-InTurn (slot ∷ slots) false b = hand_over_all-InTurn (slot ∷ slots) b
  free_all-InTurn (slot ∷ slots) true b = elim (Bool-cases b.is_running) [
    | inl e ↦ rw e refl
    | inr e ↦ rw e refl
  ]

  listed-InTurn :
      (items : List (Option A)) (b : Bus)
      → InTurn b.wait_queue ((on_listed items b).0.0, (on_listed items b).1)
  unfolding on_listed served
  listed-InTurn items b =
      let (inserts, free) = classify b.allocations 0 items [] [] in
      let (state, out) = grant_free {A = A} free b.wait_queue b.allocations in
      ap (λ q. q ++ state.1)
        (served-append inserts out
          ∙ ap (λ q. q ++ served out) (classify-served b.allocations 0 items [] []))
      ∙ grant_free-served free b.wait_queue b.allocations

  end-InTurn : (b : Bus) → InTurn b.wait_queue (end_of_bus_update {A = A} b)
  unfolding end_of_bus_update served
  end-InTurn b = elim (Bool-cases b.end_of_cycle_after_update) [
    | inl e ↦ rw e refl
    | inr e ↦ rw e refl
  ]

  failed-InTurn : (b : Bus) → InTurn b.wait_queue (on_failed {A = A} b)
  unfolding on_failed
  failed-InTurn b =
      let (b', out) = end_of_bus_update {A = A} (record b { wait_queue = [] }) in
      ap (λ q. q ++ b'.wait_queue) (served-append (failures b.wait_queue) out)
      ∙ append_assoc (served (failures b.wait_queue)) (served out) b'.wait_queue
      ∙ ap (◌++◌ (served (failures b.wait_queue))) (end-InTurn (record b { wait_queue = [] }))
      ∙ append-nil (served (failures b.wait_queue))
      ∙ served-failed b.wait_queue

  cycle_done-InTurn : (b : Bus) → InTurn b.wait_queue (on_cycle_done {A = A} b)
  unfolding on_cycle_done do_bus_update served
  cycle_done-InTurn b = elim (Bool-cases b.is_running) [
    | inl e ↦ rw e refl
    | inr e ↦ rw e (elim (Bool-cases (b.n_updates == 0)) [ inl z ↦ rw z refl | inr z ↦ rw z refl ])
  ]

  -- The waiters that wait after a call was made, before any is served.
  abbrev queued : Call A → Bus → List ℕ
  queued (allocate waiter) b = b.wait_queue ++ waiter ∷ []
  queued other b = b.wait_queue

  perform-InTurn : (call : Call A) (b : Bus) → InTurn (queued call b) (perform call b)
  unfolding perform served
  perform-InTurn (allocate w) b =
      unfold bus_allocate do_bus_update in
      elim (Bool-cases b.is_running) [ inl e ↦ rw e refl | inr e ↦ rw e refl ]
  perform-InTurn (release slot false) b =
      unfold bus_free in hand_over-InTurn slot b b.wait_queue refl
  perform-InTurn (release slot true) b =
      unfold bus_free do_bus_update in
      elim (Bool-cases b.is_running) [ inl e ↦ rw e refl | inr e ↦ rw e refl ]
  perform-InTurn (release_all slots has_item) b = free_all-InTurn slots has_item b
  perform-InTurn (listed items) b = listed-InTurn items b
  perform-InTurn (inserted ever) b =
      unfold on_inserted in
      elim (Bool-cases (not (is_empty b.free_queue))) [ inl e ↦ rw e refl | inr e ↦ rw e refl ]
  perform-InTurn (settled true) b = unfold on_settled do_bus_update in refl
  perform-InTurn (settled false) b = unfold on_settled in end-InTurn b
  perform-InTurn update_failed b = failed-InTurn b
  perform-InTurn cycle_failed b =
      unfold on_cycle_failed in
      elim (Bool-cases b.is_running) [ inl e ↦ rw e refl | inr e ↦ rw e refl ]
  perform-InTurn cycle_done b = cycle_done-InTurn b

  queued-asked :
      (call : Call A) (calls : List (Call A)) (b : Bus)
      → queued call b ++ asked calls ≡ b.wait_queue ++ asked (call ∷ calls)
  unfolding asked
  queued-asked (allocate w) calls b = append_assoc b.wait_queue (w ∷ []) (asked calls)
  queued-asked (release s i) calls b = refl
  queued-asked (release_all s i) calls b = refl
  queued-asked (listed i) calls b = refl
  queued-asked (inserted e) calls b = refl
  queued-asked (settled r) calls b = refl
  queued-asked update_failed calls b = refl
  queued-asked cycle_failed calls b = refl
  queued-asked cycle_done calls b = refl

  perform_all-InTurn :
      (calls : List (Call A)) (b : Bus) → InTurn (b.wait_queue ++ asked calls) (perform_all calls b)
  unfolding perform_all asked served
  perform_all-InTurn [] b = sym (append-nil b.wait_queue)
  perform_all-InTurn (call ∷ calls) b =
      let r = perform call b in
      let more = perform_all calls r.0 in
      ap (λ q. q ++ more.0.wait_queue) (served-append r.1 more.1)
      ∙ append_assoc (served r.1) (served more.1) more.0.wait_queue
      ∙ ap (◌++◌ (served r.1)) (perform_all-InTurn calls r.0)
      ∙ sym (append_assoc (served r.1) r.0.wait_queue (asked calls))
      ∙ ap (λ q. q ++ asked calls) (perform-InTurn call b)
      ∙ queued-asked call calls b

  -- Whatever calls are made on a bus: the waiters that were served, with a slot or a failure,
  -- followed by those that still wait, are those that waited at first, followed by those that asked
  -- in the meantime, in that order.
  pub served-in_turn :
      (calls : List (Call A)) (b : Bus)
      → let (b', out) = perform_all calls b in
        served out ++ b'.wait_queue ≡ b.wait_queue ++ asked calls
  served-in_turn calls b = perform_all-InTurn calls b
