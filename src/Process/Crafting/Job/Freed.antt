-- ===== src/Process/Crafting/Job/Freed.antt =====
-- What a crafting job frees where no slot could be allocated.
use ocremote.Base.{
  ℕ, ◌+◌, ◌-◌, ◌≡◌, refl, true, false, List, [], ◌∷◌, ◌++◌, Text, length, ◌==◌, arith, set,
}
use ocremote.Promise.All.{Outcome, values, causes, rejects, context, store_cause}
use ocremote.Promise.All.Settles.{apply, settle-apply}
use ocremote.Process.Job.{settled, Effect, free}
use ocremote.Process.Crafting.Job.{CraftJob, begin, on_gathered, on_settled, on_finally}

-- The promises from `i` on are rejected, one after another.
unfoldable pub deny_all : ℕ → List Text → CraftJob → CraftJob × List Effect
deny_all i [] j = (j, [])
deny_all i (cause ∷ rest) j =
    let (j', out) = on_settled i (rejects i cause) j in
    let (j'', more) = deny_all (i + 1) rest j' in (j'', out ++ more)

failed-frees :
    (i : ℕ) (cause : Text) (o : Outcome ℕ) (j : CraftJob)
    → j.slots_to_free_in ≡ []
    → j.slot_to_free_out ≡ 0
    → (on_gathered (apply (rejects i cause) o ∷ []) j).1 ++ [] ≡ free (0 ∷ []) true ∷ []
unfolding on_gathered on_finally apply store_cause
failed-frees i cause (values xs) j s o = rw (s, o) refl
failed-frees i cause (causes t) j s o = rw (s, o) refl

deny_all-frees :
    (cause : Text) (rest : List Text) (i : ℕ) (j : CraftJob)
    → j.gathered.n_remaining ≡ length (cause ∷ rest)
    → j.slots_to_free_in ≡ []
    → j.slot_to_free_out ≡ 0
    → (deny_all i (cause ∷ rest) j).1 ≡ free (0 ∷ []) true ∷ []
unfolding deny_all on_settled on_gathered on_finally
deny_all-frees cause [] i j h s o =
    let last : (j.gathered.n_remaining - 1 == 0) ≡ true = ground arith in
    rw (settle-apply (rejects i cause) j.gathered)
      (rw last (failed-frees i cause j.gathered.result _ s o))
deny_all-frees cause (next ∷ rest) i j h s o =
    let more : (j.gathered.n_remaining - 1 == 0) ≡ false = ground arith in
    rw (settle-apply (rejects i cause) j.gathered) (
      rw more (
        deny_all-frees next rest (i + 1)
          (record j {
            statuses = set j.statuses i settled;
            gathered = record {
              result = apply (rejects i cause) j.gathered.result;
              n_remaining = j.gathered.n_remaining - 1;
            };
          })
          (omega (arith, h)) s o))

-- Where no bus slot could be allocated for a crafting job, for whatever reasons, it frees slot 0,
-- which it does not have.
pub begin-frees :
    (cause : Text) (rest : List Text)
    → (deny_all 0 (cause ∷ rest) (begin (length rest))).1 ≡ free (0 ∷ []) true ∷ []
unfolding begin context
begin-frees cause rest = deny_all-frees cause rest 0 (begin (length rest)) (omega arith) refl refl
