-- ===== src/Process/Single/Frees.antt =====
-- The bus slot of a single transfer, from its allocation to its release.
use ocremote.Base.{
  ℕ, true, false, ◌≡◌, refl, ap, sym, ◌∙◌, ◌⊎◌, inl, inr, Option, none, some, List, [], ◌∷◌, ◌++◌,
  append-nil,
}
use ocremote.Process.Job.{Effect, free}
use ocremote.Process.Job.Frees.{freed, freed-append}
use ocremote.Process.Single.{
  Single, Standing, allocating, extracting, moving, finished, begin, on_slot, on_no_slot,
  on_extracted, on_finally, on_moved,
}

-- What can happen to a transfer, with the slot that it is given and the effects.
pub data Step (s : Single) : List ℕ → List Effect → Single → Type 0 where
  grant :
      (slot : ℕ)
      → s.standing ≡ allocating
      → Step s (slot ∷ []) (on_slot slot s).1 (on_slot slot s).0
  deny : s.standing ≡ allocating → Step s [] (on_no_slot s).1 (on_no_slot s).0
  extracted :
      (slot : ℕ)
      → s.standing ≡ extracting
      → s.slot_to_free ≡ some slot
      → Step s [] (on_extracted slot s).1 (on_extracted slot s).0
  extract_failed : s.standing ≡ extracting → Step s [] (on_finally s).1 (on_finally s).0
  moved : s.standing ≡ moving → Step s [] (on_moved s).1 (on_moved s).0
  move_failed : s.standing ≡ moving → Step s [] (on_finally s).1 (on_finally s).0

-- A run from a fresh transfer: the slots that were given, the effects, and where it stands.
pub data Run : List ℕ → List Effect → Single → Type 0 where
  start : Run [] [] begin
  next :
      {granted more : List ℕ} {out effects : List Effect} {s t : Single}
      → Run granted out s
      → Step s more effects t
      → Run (granted ++ more) (out ++ effects) t

-- A slot was given, it is to be freed, and nothing was freed so far.
abbrev Held : List ℕ → List Effect → Option ℕ → Type 0
Held granted out slot = (x : ℕ) × (freed out ≡ []) × (granted ≡ x ∷ []) × (slot ≡ some x)

-- The slot is freed at the end, and not before.
abbrev Stands : Standing → List ℕ → List Effect → Option ℕ → Type 0
Stands allocating granted out slot = (freed out ≡ []) × (granted ≡ []) × (slot ≡ none)
Stands extracting granted out slot = Held granted out slot
Stands moving granted out slot = Held granted out slot
Stands finished granted out slot = freed out ≡ granted

-- A step can be taken until the end.
pub data CanStep (s : Single) : Type 0 where
  can : (more : List ℕ) (effects : List Effect) (t : Single) → Step s more effects t → CanStep s

finally-freed :
    (granted : List ℕ) (out : List Effect) (s : Single)
    → Held granted out s.slot_to_free
    → ((on_finally s).0.standing ≡ finished) × (freed (out ++ (on_finally s).1) ≡ granted ++ [])
unfolding on_finally freed
finally-freed granted out s (x, f, g, h) =
    rw (h, on_finally)
      (
        refl,
        freed-append out (free (x ∷ []) true ∷ [])
            ∙ ap (λ l. l ++ x ∷ []) f
            ∙ sym g
            ∙ sym (append-nil granted),
      )

moved-freed :
    (granted : List ℕ) (out : List Effect) (s : Single)
    → Held granted out s.slot_to_free
    → ((on_moved s).0.standing ≡ finished) × (freed (out ++ (on_moved s).1) ≡ granted ++ [])
unfolding on_moved on_finally freed
moved-freed granted out s (x, f, g, h) =
    rw (h, on_moved)
      (
        refl,
        freed-append out (free (x ∷ []) false ∷ [])
            ∙ ap (λ l. l ++ x ∷ []) f
            ∙ sym g
            ∙ sym (append-nil granted),
      )

step-Stands :
    (granted more : List ℕ) (out : List Effect) (s : Single) (effects : List Effect) (t : Single)
    → Step s more effects t
    → Stands s.standing granted out s.slot_to_free
    → Stands t.standing (granted ++ more) (out ++ effects) t.slot_to_free
unfolding on_slot on_no_slot on_extracted freed
step-Stands granted more out s effects t (grant slot e) h =
    let i : Stands allocating granted out s.slot_to_free = rw e at h in
    (slot, freed-append out _ ∙ append-nil (freed out) ∙ i.0, ap (λ g. g ++ slot ∷ []) i.1, refl)
step-Stands granted more out s effects t (deny e) h =
    let i : Stands allocating granted out s.slot_to_free = rw e at h in
    freed-append out [] ∙ append-nil (freed out) ∙ i.0 ∙ sym i.1 ∙ sym (append-nil granted)
step-Stands granted more out s effects t (extracted slot e f) h =
    let i : Held granted out s.slot_to_free = rw e at h in
    (i.0, freed-append out _ ∙ append-nil (freed out) ∙ i.1, append-nil granted ∙ i.2, i.3)
step-Stands granted more out s effects t (extract_failed e) h =
    let i : Held granted out s.slot_to_free = rw e at h in
    let r = finally-freed granted out s i in rw r.0 r.1
step-Stands granted more out s effects t (moved e) h =
    let i : Held granted out s.slot_to_free = rw e at h in
    let r = moved-freed granted out s i in rw r.0 r.1
step-Stands granted more out s effects t (move_failed e) h =
    let i : Held granted out s.slot_to_free = rw e at h in
    let r = finally-freed granted out s i in rw r.0 r.1

Run-Stands :
    (granted : List ℕ) (out : List Effect) (s : Single)
    → Run granted out s
    → Stands s.standing granted out s.slot_to_free
unfolding freed
Run-Stands granted out s start = (refl, refl, refl)
Run-Stands granted out s (next run step) = step-Stands _ _ _ _ _ _ step (Run-Stands _ _ _ run)

can_go_on :
    (granted : List ℕ) (out : List Effect) (s : Single) (standing : Standing)
    → s.standing ≡ standing
    → Stands standing granted out s.slot_to_free
    → ((standing ≡ finished) × (freed out ≡ granted)) ⊎ ((freed out ≡ []) × CanStep s)
can_go_on granted out s allocating e h = inr (h.0, can _ _ _ (deny e))
can_go_on granted out s extracting e h = inr (h.1, can _ _ _ (extracted h.0 e h.3))
can_go_on granted out s moving e h = inr (h.1, can _ _ _ (moved e))
can_go_on granted out s finished e h = inl (refl, h)

-- However the promises of a transfer end, over every run: it has come to its end, and the slot that
-- it was given, if there was one, has been freed just once; or nothing has been freed so far, and it
-- can go on.
pub freed_once :
    (granted : List ℕ) (out : List Effect) (s : Single)
    → Run granted out s
    → ((s.standing ≡ finished) × (freed out ≡ granted)) ⊎ ((freed out ≡ []) × CanStep s)
freed_once granted out s run =
    can_go_on granted out s s.standing refl (Run-Stands granted out s run)
