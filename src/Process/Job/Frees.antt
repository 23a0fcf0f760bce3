-- ===== src/Process/Job/Frees.antt =====
-- The bus slots of a job, from their allocation to their release.
use ocremote.Base.{
  ℕ, zero, suc, ◌+◌, ◌-◌, ◌<◌, ◌≡◌, ◌≢◌, refl, sym, ap, ◌∙◌, inl, inr, true, false, some, List, [],
  ◌∷◌, ◌++◌, append-nil, append_assoc, get_elem?, set, ◌==◌, Text, arith, Bool-cases,
}
use ocremote.Promise.All.{Outcome, values, causes, Context, Event, resolves, rejects, context}
use ocremote.Promise.All.Settles.{apply, settle-apply}
use ocremote.Process.Job.{
  Status, waiting, extracting, settled, Phase, gathering, transferring, done, Job, Effect, extract,
  transfer, free, all_waiting, begin, on_slot, on_gathered, on_settled, on_transferred,
  on_transfer_failed,
}

-- What can happen to a job, with the slot that it is given and the effects.
pub data Step (j : Job) : List ℕ → List Effect → Job → Type 0 where
  grant :
      (i slot : ℕ)
      → get_elem? j.statuses i ≡ some waiting
      → Step j (slot ∷ []) (on_slot i slot j).1 (on_slot i slot j).0
  deny :
      (i : ℕ) (cause : Text)
      → get_elem? j.statuses i ≡ some waiting
      → Step j [] (on_settled i (rejects i cause) j).1 (on_settled i (rejects i cause) j).0
  extracted :
      (i slot : ℕ)
      → get_elem? j.statuses i ≡ some (extracting slot)
      → Step j [] (on_settled i (resolves i slot) j).1 (on_settled i (resolves i slot) j).0
  extract_failed :
      (i slot : ℕ) (cause : Text)
      → get_elem? j.statuses i ≡ some (extracting slot)
      → Step j [] (on_settled i (rejects i cause) j).1 (on_settled i (rejects i cause) j).0
  transferred : j.phase ≡ transferring → Step j [] (on_transferred j).1 (on_transferred j).0
  transfer_failed :
      j.phase ≡ transferring → Step j [] (on_transfer_failed j).1 (on_transfer_failed j).0

-- A run from a fresh job: the slots that were given, the effects, and the job.
pub data Run (n : ℕ) : List ℕ → List Effect → Job → Type 0 where
  start : Run n [] [] (begin n)
  next :
      {granted more : List ℕ} {out effects : List Effect} {j k : Job}
      → Run n granted out j
      → Step j more effects k
      → Run n (granted ++ more) (out ++ effects) k

-- The slots that are freed by the effects.
unfoldable pub freed : List Effect → List ℕ
freed [] = []
freed (extract i slot ∷ out) = freed out
freed (transfer slots ∷ out) = freed out
freed (free slots has_item ∷ out) = slots ++ freed out

pub freed-append : (xs ys : List Effect) → freed (xs ++ ys) ≡ freed xs ++ freed ys
unfolding freed
freed-append [] ys = refl
freed-append (extract i slot ∷ xs) ys = freed-append xs ys
freed-append (transfer slots ∷ xs) ys = freed-append xs ys
freed-append (free slots has_item ∷ xs) ys =
    ap (◌++◌ slots) (freed-append xs ys) ∙ sym (append_assoc slots (freed xs) (freed ys))

-- How many inputs are not settled.
is_open : Status → ℕ
is_open waiting = 1
is_open (extracting slot) = 1
is_open settled = 0

open_count : List Status → ℕ
open_count [] = 0
open_count (s ∷ ss) = is_open s + open_count ss

open_count-all_waiting : (n : ℕ) → open_count (all_waiting n) ≡ n
unfolding open_count all_waiting is_open
open_count-all_waiting zero = refl
open_count-all_waiting (suc n) = omega (arith, open_count-all_waiting n)

open_count-set :
    (ss : List Status) (i : ℕ) (s t : Status)
    → get_elem? ss i ≡ some s
    → open_count (set ss i t) + is_open s ≡ open_count ss + is_open t
unfolding open_count
open_count-set [] i s t h = cc
open_count-set (x ∷ ss) zero s t h = let same : x ≡ s = cc in omega (arith, ap is_open same)
open_count-set (x ∷ ss) (suc i) s t h = omega (arith, open_count-set ss i s t h)

abbrev InPhase : Phase → List ℕ → List Effect → Job → Type 0
InPhase gathering granted out j =
    (freed out ≡ []) × (j.slots_to_free ≡ granted) × (0 < open_count j.statuses)
InPhase transferring granted out j =
    (freed out ≡ []) × (j.slots_to_free ≡ granted) × (open_count j.statuses ≡ 0)
InPhase done granted out j = (freed out ≡ granted) × (open_count j.statuses ≡ 0)

record IsTidy (granted : List ℕ) (out : List Effect) (j : Job) : Type 0 where
  counted : j.gathered.n_remaining ≡ open_count j.statuses
  in_phase : InPhase j.phase granted out j

-- The effects on a job that was gathering, once all is there.
gathered-IsTidy :
    (granted : List ℕ) (out : List Effect) (o : Outcome ℕ) (j : Job)
    → j.gathered.n_remaining ≡ 0
    → open_count j.statuses ≡ 0
    → freed out ≡ []
    → j.slots_to_free ≡ granted
    → IsTidy granted (out ++ (on_gathered (o ∷ []) j).1) (on_gathered (o ∷ []) j).0
unfolding on_gathered freed
gathered-IsTidy granted out (values slots) j r u f s = record {
  counted = r ∙ sym u;
  in_phase = (freed-append out (transfer slots ∷ []) ∙ append-nil (freed out) ∙ f, s, u);
}
gathered-IsTidy granted out (causes c) j r u f s = record {
  counted = r ∙ sym u;
  in_phase = (
    freed-append out (free j.slots_to_free true ∷ [])
        ∙ ap (λ q. q ++ (j.slots_to_free ++ [])) f
        ∙ append-nil j.slots_to_free
        ∙ s,
    u,
  );
}

-- A job with an open input gathers.
open-gathering :
    (granted : List ℕ) (out : List Effect) (j : Job) (p : Phase)
    → j.phase ≡ p
    → IsTidy granted out j
    → 0 < open_count j.statuses
    → (j.phase ≡ gathering) × (freed out ≡ []) × (j.slots_to_free ≡ granted)
open-gathering granted out j gathering e v u =
    let h : InPhase gathering granted out j = rw e at v.in_phase in (e, h.0, h.1)
open-gathering granted out j transferring e v u =
    let h : InPhase transferring granted out j = rw e at v.in_phase in absurd (omega (arith, h.2))
open-gathering granted out j done e v u =
    let h : InPhase done granted out j = rw e at v.in_phase in absurd (omega (arith, h.1))

settled-IsTidy :
    (granted : List ℕ) (out : List Effect) (j : Job) (i : ℕ) (s : Status) (event : Event ℕ)
    → get_elem? j.statuses i ≡ some s
    → is_open s ≡ 1
    → IsTidy granted out j
    → IsTidy granted (out ++ (on_settled i event j).1) (on_settled i event j).0
unfolding on_settled is_open
settled-IsTidy granted out j i s event at one v =
    let fewer = open_count-set j.statuses i s settled at in
    let was = open-gathering granted out j j.phase refl v (omega (arith, fewer, one)) in
    let c : Context ℕ = record {
      result = apply event j.gathered.result;
      n_remaining = j.gathered.n_remaining - 1;
    } in
    let j1 : Job = record j { statuses = set j.statuses i settled; gathered = c } in
    elim (Bool-cases (j.gathered.n_remaining - 1 == 0)) [
      | inl last ↦
          let zero_left : j.gathered.n_remaining - 1 ≡ 0 = ground arith in
          rw (settle-apply event j.gathered) (
            rw last (
              gathered-IsTidy granted out c.result j1 zero_left
                (omega (arith, fewer, one, v.counted, zero_left)) was.1 was.2))
      | inr more ↦
          let some_left : 0 < j.gathered.n_remaining - 1 = ground arith in
          rw (settle-apply event j.gathered) (
            rw more (
              unfold on_gathered in
              record {
                counted = omega (arith, fewer, one, v.counted, some_left);
                in_phase = rw was.0 (
                  ap freed (append-nil out) ∙ was.1,
                  was.2,
                  omega (arith, fewer, one, v.counted, some_left),
                );
              }))
    ]

granted-IsTidy :
    (granted : List ℕ) (out : List Effect) (j : Job) (i slot : ℕ)
    → get_elem? j.statuses i ≡ some waiting
    → IsTidy granted out j
    → IsTidy (granted ++ slot ∷ []) (out ++ (on_slot i slot j).1) (on_slot i slot j).0
unfolding on_slot is_open freed
granted-IsTidy granted out j i slot at v =
    let same = open_count-set j.statuses i waiting (extracting slot) at in
    let fewer = open_count-set j.statuses i waiting settled at in
    let was = open-gathering granted out j j.phase refl v (omega (arith, fewer)) in
    record {
      counted = omega (arith, same, v.counted);
      in_phase = rw was.0 (
        freed-append out (extract i slot ∷ []) ∙ append-nil (freed out) ∙ was.1,
        ap (λ q. q ++ slot ∷ []) was.2,
        omega (arith, fewer, same),
      );
    }

ended-IsTidy :
    (granted : List ℕ) (out effects : List Effect) (j k : Job)
    → j.phase ≡ transferring
    → k.phase ≡ done
    → k.statuses ≡ j.statuses
    → k.gathered ≡ j.gathered
    → freed effects ≡ j.slots_to_free
    → IsTidy granted out j
    → IsTidy granted (out ++ effects) k
ended-IsTidy granted out effects j k p q s g f v =
    let h : InPhase transferring granted out j = rw p at v.in_phase in
    record {
      counted = ap (λ c. c.n_remaining) g ∙ v.counted ∙ ap open_count (sym s);
      in_phase = rw q (
        freed-append out effects ∙ ap (λ r. r ++ freed effects) h.0 ∙ f ∙ h.1,
        ap open_count s ∙ h.2,
      );
    }

Step-IsTidy :
    {j : Job} {more : List ℕ} {effects : List Effect} {k : Job} (granted : List ℕ)
    (out : List Effect)
    → Step j more effects k
    → IsTidy granted out j
    → IsTidy (granted ++ more) (out ++ effects) k
unfolding is_open freed on_transferred on_transfer_failed
Step-IsTidy {j} granted out (grant i slot at) v = granted-IsTidy granted out j i slot at v
Step-IsTidy {j} granted out (deny i cause at) v =
    rw (append-nil granted) (settled-IsTidy granted out j i waiting (rejects i cause) at refl v)
Step-IsTidy {j} granted out (extracted i slot at) v =
    rw (append-nil granted)
      (settled-IsTidy granted out j i (extracting slot) (resolves i slot) at refl v)
Step-IsTidy {j} granted out (extract_failed i slot cause at) v =
    rw (append-nil granted)
      (settled-IsTidy granted out j i (extracting slot) (rejects i cause) at refl v)
Step-IsTidy {j} granted out (transferred p) v = rw (append-nil granted) (
    ended-IsTidy granted out (free j.slots_to_free false ∷ free [] true ∷ []) j
      (record j { slots_to_free = []; phase = done }) p refl refl refl (append-nil j.slots_to_free)
      v)
Step-IsTidy {j} granted out (transfer_failed p) v = rw (append-nil granted) (
    ended-IsTidy granted out (free j.slots_to_free true ∷ []) j (record j { phase = done }) p refl
      refl refl (append-nil j.slots_to_free) v)

Run-IsTidy :
    {n : ℕ} {granted : List ℕ} {out : List Effect} {j : Job}
    → 0 < n
    → Run n granted out j
    → IsTidy granted out j
unfolding begin context freed
Run-IsTidy {n} h start = record {
  counted = sym (open_count-all_waiting n);
  in_phase = (refl, refl, omega (arith, open_count-all_waiting n));
}
Run-IsTidy h (next {granted} {out} run step) = Step-IsTidy granted out step (Run-IsTidy h run)

-- However the allocations, extractions and transfers of a job with at least one input end: until the
-- job is done, none of its bus slots is freed; and once it is done, the slots that were freed are
-- those that were allocated for it, each as often as it was allocated.
pub Run-freed :
    {n : ℕ} {granted : List ℕ} {out : List Effect} {j : Job}
    → 0 < n
    → Run n granted out j
    → ((j.phase ≢ done → freed out ≡ []) × (j.phase ≡ done → freed out ≡ granted))
Run-freed {granted} {out} {j} h run = by_phase granted out j j.phase refl (Run-IsTidy h run)
  where
    by_phase :
        (granted : List ℕ) (out : List Effect) (j : Job) (p : Phase)
        → j.phase ≡ p
        → IsTidy granted out j
        → ((j.phase ≢ done → freed out ≡ []) × (j.phase ≡ done → freed out ≡ granted))
    by_phase granted out j gathering e v =
        let h : InPhase gathering granted out j = rw e at v.in_phase in ((λ _. h.0), λ d. cc)
    by_phase granted out j transferring e v =
        let h : InPhase transferring granted out j = rw e at v.in_phase in ((λ _. h.0), λ d. cc)
    by_phase granted out j done e v =
        let h : InPhase done granted out j = rw e at v.in_phase in ((λ n. absurd (n e)), λ _. h.0)
