-- ===== src/Examples/Moving.antt =====
-- A transfer with one bus slot whose moves fail.
use ocremote.Base.{◌≡◌, refl, ◌⊎◌, List, [], ◌∷◌, ◌++◌}
use ocremote.Process.Job.{Effect}
use ocremote.Process.Job.Frees.{freed}
use ocremote.Process.Single.{Single, finished, begin, on_slot, on_extracted, on_finally}
use ocremote.Process.Single.Frees.{
  Run, start, next, grant, extracted, move_failed, CanStep, freed_once,
}

abbrev granted : Single
granted = (on_slot 5 begin).0

abbrev sent : Single
sent = (on_extracted 5 granted).0

abbrev failed : Single
failed = (on_finally sent).0

abbrev effects : List Effect
effects = ((([] ++ (on_slot 5 begin).1) ++ (on_extracted 5 granted).1) ++ (on_finally sent).1)

failed-Run : Run (5 ∷ []) effects failed
unfolding on_slot on_extracted
failed-Run = next (next (next start (grant 5 refl)) (extracted 5 refl refl)) (move_failed refl)

freed_once_example :
    ((failed.standing ≡ finished) × (freed effects ≡ 5 ∷ []))
    ⊎ ((freed effects ≡ []) × CanStep failed)
freed_once_example = freed_once (5 ∷ []) effects failed failed-Run
