-- ===== src/Examples/Awaiting.antt =====
-- Promises that are settled together, and the jobs that wait for them.
use ocremote.Base.{ℕ, ◌<◌, ◌≡◌, ◌≢◌, refl, List, [], ◌∷◌, All, length, arith, true, ◌++◌}
use ocremote.Promise.All.{values, Event, resolves, rejects, context, replicate, settle, settle_all}
use ocremote.Promise.All.Settles.{
  index, HaveDistinctIndices, results_of, verdict, Delivered, settle_all-Delivered,
}
use ocremote.Process.Job.{waiting, Job, done, free, begin, all_waiting, on_slot, on_settled}
use ocremote.Process.Job.Frees.{Step, start, next, freed, Run-freed}
use ocremote.Process.Crafting.Job
use ocremote.Process.Crafting.Job.Freed.{deny_all, begin-frees}

-- The second promise, then the first.
abbrev both : List (Event ℕ)
both = resolves 1 8 ∷ resolves 0 7 ∷ []

settle_all-both : (settle_all both (context 0 2)).1 ≡ values (7 ∷ 8 ∷ []) ∷ []
unfolding settle_all settle context replicate
settle_all-both = refl

both-HaveDistinctIndices : HaveDistinctIndices both
unfolding HaveDistinctIndices index
both-HaveDistinctIndices = ((λ (e : 0 ≡ 1). absurd (omega arith), tt), (tt, tt))

both_below : All (λ e. index e < length both) both
unfolding index
both_below = (omega arith, (omega arith, tt))

settle_all-Delivered_example :
    ((before : List (Event ℕ))
      → length before < length both
      → (settle_all before (context 0 (length both))).1 ≡ [])
    × ((settle_all both (context 0 (length both))).1
        ≡ verdict both (replicate (length both) 0) ∷ [])
    × All (Delivered (results_of both (replicate (length both) 0))) both
settle_all-Delivered_example =
    settle_all-Delivered 0 both (omega arith) both-HaveDistinctIndices both_below

-- One input, whose extraction into slot 5 fails.
abbrev granted : Job
granted = (on_slot 0 5 (begin 1)).0

abbrev failed : Job
failed = (on_settled 0 (rejects 0 (b'x' ∷ [])) granted).0

one_waiting : (begin 1).statuses ≡ waiting ∷ []
unfolding begin all_waiting
one_waiting = refl

grant_one : Step (begin 1) (5 ∷ []) (on_slot 0 5 (begin 1)).1 granted
unfolding begin all_waiting
grant_one = Step.grant 0 5 refl

fail_one : Step granted [] (on_settled 0 (rejects 0 (b'x' ∷ [])) granted).1 failed
unfolding begin all_waiting on_slot
fail_one = Step.extract_failed 0 5 (b'x' ∷ []) refl

Run-freed_example :
    (failed.phase ≢ done
      → freed ((on_slot 0 5 (begin 1)).1 ++ (on_settled 0 (rejects 0 (b'x' ∷ [])) granted).1) ≡ [])
    × (failed.phase ≡ done
        → freed ((on_slot 0 5 (begin 1)).1 ++ (on_settled 0 (rejects 0 (b'x' ∷ [])) granted).1)
          ≡ 5 ∷ [])
Run-freed_example = Run-freed (omega arith) (next (next start grant_one) fail_one)

begin-frees_example :
    (deny_all 0 ((b'x' ∷ []) ∷ (b'y' ∷ []) ∷ []) (Job.begin 1)).1 ≡ free (0 ∷ []) true ∷ []
begin-frees_example = begin-frees (b'x' ∷ []) ((b'y' ∷ []) ∷ [])
