-- ===== src/Factory/Bus.antt =====
-- The bus of `Factory` (server/CPPImpl/Factory.h and Factory.cpp): `busAllocate`, `busFree`,
-- `doBusUpdate` with its callbacks, and the end of a cycle, which waits for the bus. A call returns
-- the new state with what it hands to others, in order: to the event loop, to the clients, to
-- `insertItem` and to `endOfCycle`. A waiter is named by a number.
pub mod Counting
pub mod Owns
pub mod Listing
pub mod Exclusive
pub mod Waiting
use ocremote.Base.{
  ℕ, zero, suc, ◌+◌, Bool, true, false, not, ◌&&◌, ◌||◌, Option, none, some, List, [], ◌∷◌, ◌++◌,
  map, ◌==◌, if◌then◌else◌,
}

pub data Effect (A : Type 0) : Type 0 where
  -- the `list` action on the bus inventory, of doBusUpdate
  list_bus : Effect A
  -- cont->onResult(slot), and cont->onFail(cause), for a waiter
  granted : ℕ → ℕ → Effect A
  failed : ℕ → Effect A
  -- insertItem(promises, slot, stack)
  insert_item : ℕ → A → Effect A
  end_of_cycle : Effect A

pub record Bus : Type 0 where
  pub allocations : List ℕ
  pub wait_queue : List ℕ
  pub free_queue : List ℕ
  pub is_running : Bool
  pub end_of_cycle_after_update : Bool
  pub n_updates : ℕ

-- unordered_set::find, emplace and erase
unfoldable pub contains : List ℕ → ℕ → Bool
contains [] slot = false
contains (x ∷ xs) slot = x == slot || contains xs slot

unfoldable pub emplace : ℕ → List ℕ → List ℕ
unfolding contains
emplace slot xs = if contains xs slot then xs else slot ∷ xs

unfoldable pub erase : ℕ → List ℕ → List ℕ
erase slot [] = []
erase slot (x ∷ xs) = if x == slot then erase slot xs else x ∷ erase slot xs

unfoldable pub erase_all : List ℕ → List ℕ → List ℕ
unfolding erase
erase_all [] xs = xs
erase_all (slot ∷ slots) xs = erase_all slots (erase slot xs)

abbrev pub is_empty : List ℕ → Bool
is_empty [] = true
is_empty (x ∷ xs) = false

module _ {A : Type 0} where
  -- Factory::doBusUpdate, up to the answer of the client
  unfoldable pub do_bus_update : Bus → Bus × List (Effect A)
  do_bus_update b = (record b { n_updates = b.n_updates + 1; is_running = true }, list_bus ∷ [])

  -- Factory::busAllocate
  unfoldable pub bus_allocate : ℕ → Bus → Bus × List (Effect A)
  unfolding do_bus_update
  bus_allocate waiter b =
      let b' : Bus = record b { wait_queue = b.wait_queue ++ waiter ∷ [] } in
      if b.is_running then (b', []) else do_bus_update b'

  -- One slot that is freed with no item in it: it goes to the first waiter, if there is one.
  unfoldable pub hand_over : ℕ → Bus → Bus × List (Effect A)
  hand_over slot b = elim b.wait_queue [
    | [] ↦ (record b { allocations = erase slot b.allocations }, [])
    | waiter ∷ rest ↦ (record b { wait_queue = rest }, granted waiter slot ∷ [])
  ]

  unfoldable pub hand_over_all : List ℕ → Bus → Bus × List (Effect A)
  unfolding hand_over
  hand_over_all [] b = (b, [])
  hand_over_all (slot ∷ slots) b =
      let (b', out) = hand_over slot b in
      let (b'', more) = hand_over_all slots b' in (b'', out ++ more)

  -- Factory::busFree of one slot
  unfoldable pub bus_free : ℕ → Bool → Bus → Bus × List (Effect A)
  unfolding hand_over do_bus_update
  bus_free slot has_item b =
      if not has_item
      then hand_over slot b
      else if b.is_running
      then (record b { free_queue = b.free_queue ++ slot ∷ [] }, [])
      else do_bus_update (record b { allocations = erase slot b.allocations })

  -- Factory::busFree of several slots
  unfoldable pub bus_free_all : List ℕ → Bool → Bus → Bus × List (Effect A)
  unfolding hand_over_all do_bus_update erase_all
  bus_free_all slots has_item b =
      if is_empty slots
      then (b, [])
      else if not has_item
      then hand_over_all slots b
      else if b.is_running
      then (record b { free_queue = b.free_queue ++ slots }, [])
      else do_bus_update (record b { allocations = erase_all slots b.allocations })

  -- The loop over the listed slots from `i` on. The vector of the free slots has its back first.
  unfoldable pub classify :
      List ℕ → ℕ → List (Option A) → List (Effect A) → List ℕ → List (Effect A) × List ℕ
  classify allocations i [] inserts free = (inserts, free)
  classify allocations i (stack ∷ rest) inserts free =
      classify allocations (i + 1) rest
        (if contains allocations i
          then inserts
          else elim stack [ none ↦ inserts | some s ↦ inserts ++ insert_item i s ∷ [] ])
        (if contains allocations i then free else elim stack [ none ↦ i ∷ free | some s ↦ free ])

  -- while (!freeSlots.empty() && !busWaitQueue.empty())
  unfoldable pub grant_free : List ℕ → List ℕ → List ℕ → (List ℕ × List ℕ) × List (Effect A)
  unfolding emplace
  grant_free [] waiters allocations = ((allocations, waiters), [])
  grant_free (slot ∷ free) [] allocations = ((allocations, []), [])
  grant_free (slot ∷ free) (waiter ∷ waiters) allocations =
      let (state, out) = grant_free free waiters (emplace slot allocations) in
      (state, granted waiter slot ∷ out)

  -- The answer of the client: the callback of `then`. The flag is whether anything was inserted; a
  -- listed stack has at least one item, so that insertItem adds a promise for it.
  unfoldable pub on_listed : List (Option A) → Bus → (Bus × Bool) × List (Effect A)
  unfolding classify grant_free
  on_listed items b =
      let (inserts, free) = classify b.allocations 0 items [] [] in
      let (state, grants) = grant_free free b.wait_queue b.allocations in
      (
        (
          record b { allocations = state.0; wait_queue = state.1 },
          elim inserts [ [] ↦ false | x ∷ xs ↦ true ],
        ),
        inserts ++ grants,
      )

-- All items were inserted: the callback of `map`. The flag is whether to update once more.
unfoldable pub on_inserted : Bool → Bus → Bus × Bool
unfolding erase_all
on_inserted ever_inserted b =
    if not (is_empty b.free_queue)
    then (record b { allocations = erase_all b.free_queue b.allocations; free_queue = [] }, true)
    else (b, ever_inserted && not (is_empty b.wait_queue))

-- Factory::start, as far as the bus goes: the updates of a cycle are counted from its start.
unfoldable pub start_cycle : Bus → Bus
start_cycle b = record b { n_updates = 0 }

module _ {A : Type 0} where
  -- TailListener::endOfBusUpdate
  unfoldable pub end_of_bus_update : Bus → Bus × List (Effect A)
  end_of_bus_update b =
      if b.end_of_cycle_after_update
      then (record b { is_running = false; end_of_cycle_after_update = false }, end_of_cycle ∷ [])
      else (record b { is_running = false }, [])

  -- TailListener::onResult
  unfoldable pub on_settled : Bool → Bus → Bus × List (Effect A)
  unfolding do_bus_update end_of_bus_update
  on_settled restart b = if restart then do_bus_update b else end_of_bus_update b

  -- TailListener::onFail: every waiter fails.
  unfoldable pub on_failed : Bus → Bus × List (Effect A)
  unfolding end_of_bus_update
  on_failed b =
      let (b', out) = end_of_bus_update (record b { wait_queue = [] }) in
      (b', map failed b.wait_queue ++ out)

  -- The listener of `start`, for a cycle that failed and one that is done.
  unfoldable pub on_cycle_failed : Bus → Bus × List (Effect A)
  on_cycle_failed b =
      if b.is_running
      then (record b { end_of_cycle_after_update = true }, [])
      else (b, end_of_cycle ∷ [])

  unfoldable pub on_cycle_done : Bus → Bus × List (Effect A)
  unfolding do_bus_update
  on_cycle_done b =
      if b.is_running
      then (record b { end_of_cycle_after_update = true }, [])
      else if b.n_updates == 0
      then do_bus_update (record b { end_of_cycle_after_update = true })
      else (b, end_of_cycle ∷ [])
