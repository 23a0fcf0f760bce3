-- ===== src/Process/Single.antt =====
-- The promises of a transfer with one bus slot, in the cycles of ProcessScatteringWorkingSet and, for
-- its stock list, ProcessBuffered: the slot is allocated, the reservation is extracted into it, and
-- the items are moved from it to several slots; at the end it is freed.
pub mod Frees
use ocremote.Base.{ℕ, true, false, Option, none, some, List, [], ◌∷◌}
use ocremote.Process.Job.{Effect, extract, transfer, free}

-- What the promise waits for: busAllocate, the extraction, or all the transfers.
pub data Standing : Type 0 where
  allocating extracting moving finished : Standing

pub record Single : Type 0 where
  -- *slotToFree, once the slot is there
  pub slot_to_free : Option ℕ
  pub standing : Standing

abbrev pub begin : Single
begin = record { slot_to_free = none; standing = allocating }

-- The callback of busAllocate.
unfoldable pub on_slot : ℕ → Single → Single × List Effect
on_slot slot s = (record { slot_to_free = some slot; standing = extracting }, extract 0 slot ∷ [])

-- No slot is allocated: the failure goes past the callback.
unfoldable pub on_no_slot : Single → Single × List Effect
on_no_slot s = (record s { standing = finished }, [])

-- The callback of the extraction: the transfers from the bus slot.
unfoldable pub on_extracted : ℕ → Single → Single × List Effect
on_extracted slot s = (record s { standing = moving }, transfer (slot ∷ []) ∷ [])

-- The callback of `finally`.
unfoldable pub on_finally : Single → Single × List Effect
on_finally s = elim s.slot_to_free [
  | none ↦ (record s { standing = finished }, [])
  | some slot ↦ (record s { standing = finished }, free (slot ∷ []) true ∷ [])
]

-- The transfers are done: the callback of `map`, then that of `finally`. (A slot that is not there
-- would be dereferenced.)
unfoldable pub on_moved : Single → Single × List Effect
unfolding on_finally
on_moved s = elim s.slot_to_free [
  | none ↦ on_finally s
  | some slot ↦
      let (s', out) = on_finally (record s { slot_to_free = none }) in
      (s', free (slot ∷ []) false ∷ out)
]
