-- ===== src/Process/Job.antt =====
-- The promises of a transfer with several inputs, in the cycles of ProcessSlotted and
-- ProcessBuffered: for each input a bus slot is allocated and the reservation is extracted into it;
-- when all inputs are there, they are moved from the bus; at the end the slots are freed.
pub mod Frees
use ocremote.Base.{
  ℕ, zero, suc, ◌-◌, Bool, true, false, Option, none, some, List, [], ◌∷◌, ◌++◌, Text, set,
  if◌then◌else◌,
}
use ocremote.Promise.All.{
  Outcome, values, causes, Context, Event, resolves, rejects, context, settle,
}

-- Where the promise of an input stands.
pub data Status : Type 0 where
  waiting : Status
  extracting : ℕ → Status
  settled : Status

pub data Phase : Type 0 where
  gathering transferring done : Phase

pub record Job : Type 0 where
  pub statuses : List Status
  -- *slotsToFree
  pub slots_to_free : List ℕ
  -- the Context of Promise<size_t>::all
  pub gathered : Context ℕ
  pub phase : Phase

pub data Effect : Type 0 where
  -- reservation.extract(busSlot) of an input
  extract : ℕ → ℕ → Effect
  -- enqueueActionGroup of the transfers from the bus slots
  transfer : List ℕ → Effect
  -- factory.busFree(slots, hasItem)
  free : List ℕ → Bool → Effect

unfoldable pub all_waiting : ℕ → List Status
all_waiting zero = []
all_waiting (suc n) = waiting ∷ all_waiting n

-- A job with `n` inputs.
unfoldable pub begin : ℕ → Job
unfolding all_waiting
begin n = record {
  statuses = all_waiting n;
  slots_to_free = [];
  gathered = context 0 n;
  phase = gathering;
}

-- The callback of busAllocate for input `i`.
unfoldable pub on_slot : ℕ → ℕ → Job → Job × List Effect
on_slot i slot j = (
  record j {
    statuses = set j.statuses i (extracting slot);
    slots_to_free = j.slots_to_free ++ slot ∷ [];
  },
  extract i slot ∷ [],
)

-- The callback of `all`, with the results, or its failure, which goes on to `finally`.
unfoldable pub on_gathered : List (Outcome ℕ) → Job → Job × List Effect
on_gathered [] j = (j, [])
on_gathered (values slots ∷ rest) j = (record j { phase = transferring }, transfer slots ∷ [])
on_gathered (causes s ∷ rest) j = (record j { phase = done }, free j.slots_to_free true ∷ [])

-- The promise of input `i` is settled: its bus slot has its items, or there is no slot for it, or
-- the extraction failed.
unfoldable pub on_settled : ℕ → Event ℕ → Job → Job × List Effect
unfolding on_gathered
on_settled i event j =
    let (c, out) = settle event j.gathered in
    on_gathered out (record j { statuses = set j.statuses i settled; gathered = c })

-- The transfers are done: the callback of `map`, then that of `finally`.
unfoldable pub on_transferred : Job → Job × List Effect
on_transferred j =
    (record j { slots_to_free = []; phase = done }, free j.slots_to_free false ∷ free [] true ∷ [])

-- A transfer failed: the callback of `finally`.
unfoldable pub on_transfer_failed : Job → Job × List Effect
on_transfer_failed j = (record j { phase = done }, free j.slots_to_free true ∷ [])
