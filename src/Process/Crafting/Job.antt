-- ===== src/Process/Crafting/Job.antt =====
-- The promises of a recipe that is crafted: a bus slot for each input, into which its reservation is
-- extracted, and one for the product.
pub mod Freed
use ocremote.Base.{ℕ, suc, ◌+◌, Bool, true, false, List, [], ◌∷◌, ◌++◌, set}
use ocremote.Promise.All.{
  Outcome, values, causes, Context, Event, resolves, rejects, context, settle,
}
use ocremote.Process.Job.{
  Status, settled, extracting, Phase, gathering, transferring, done, Effect, extract, transfer,
  free, all_waiting,
}

pub record CraftJob : Type 0 where
  pub statuses : List Status
  -- *slotsToFreeIn and *slotToFreeOut, which make_shared<size_t>() starts with 0
  pub slots_to_free_in : List ℕ
  pub slot_to_free_out : ℕ
  pub gathered : Context ℕ
  pub phase : Phase

-- A job with `n` inputs: the promise of the product's slot is the last.
unfoldable pub begin : ℕ → CraftJob
begin n = record {
  statuses = all_waiting (n + 1);
  slots_to_free_in = [];
  slot_to_free_out = 0;
  gathered = context 0 (n + 1);
  phase = gathering;
}

-- The callback of busAllocate for input `i`.
unfoldable pub on_slot : ℕ → ℕ → CraftJob → CraftJob × List Effect
on_slot i slot j = (
  record j {
    statuses = set j.statuses i (extracting slot);
    slots_to_free_in = j.slots_to_free_in ++ slot ∷ [];
  },
  extract i slot ∷ [],
)

-- The callback of `finally`.
unfoldable pub on_finally : CraftJob → CraftJob × List Effect
on_finally j =
    let slots = j.slots_to_free_in ++ j.slot_to_free_out ∷ [] in
    (record j { slots_to_free_in = slots; phase = done }, free slots true ∷ [])

unfoldable pub on_gathered : List (Outcome ℕ) → CraftJob → CraftJob × List Effect
unfolding on_finally
on_gathered [] j = (j, [])
on_gathered (values slots ∷ rest) j = (record j { phase = transferring }, transfer slots ∷ [])
on_gathered (causes s ∷ rest) j = on_finally j

-- The promise `i` is settled.
unfoldable pub on_settled : ℕ → Event ℕ → CraftJob → CraftJob × List Effect
unfolding on_gathered
on_settled i event j =
    let (c, out) = settle event j.gathered in
    on_gathered out (record j { statuses = set j.statuses i settled; gathered = c })

-- The callback of busAllocate for the product, which is promise `n`.
unfoldable pub on_slot_out : ℕ → ℕ → CraftJob → CraftJob × List Effect
unfolding on_settled
on_slot_out n slot j = on_settled n (resolves n slot) (record j { slot_to_free_out = slot })

-- The callbacks of `map` and `finally` after the actions, and that of `finally` if one failed.
unfoldable pub on_crafted : CraftJob → CraftJob × List Effect
unfolding on_finally
on_crafted j =
    let (j', out) = on_finally (record j { slots_to_free_in = [] }) in
    (j', free j.slots_to_free_in false ∷ out)

unfoldable pub on_craft_failed : CraftJob → CraftJob × List Effect
unfolding on_finally
on_craft_failed j = on_finally j
