-- ===== src/Process/Reactor/Hysteresis.antt =====
-- The reactor with hysteresis as a switch with two positions.
use ocremote.Base.{
  ◌≡◌, refl, true, false, List, [], ◌∷◌, arith, Bool-cases, inl, inr, ◌⊎◌, if◌then◌else◌,
}
use ocremote.Base.Int.{ℤ, pos, ltb_ℤ, eq_ℤ, eq_ℤ_sound}
use ocremote.Serialize.Value.{Doubles}
use ocremote.Serialize.Casts.{Casts}
use ocremote.Process.Reply.{Arithmetic}
use ocremote.Process.Reactor.{choose_on, hysteresis_done}

module _ (F : Doubles) (C : Casts F) (R : Arithmetic F) (lower upper : F.Double) where
  open F use {Double, less}

  -- The commands that are sent for the measured values, each carried out before the next, and
  -- wasOn at the end.
  unfoldable pub run : ℤ → List Double → List ℤ × ℤ
  run was_on [] = ([], was_on)
  run was_on (pv ∷ pvs) =
      let on = choose_on F C R lower upper was_on pv in
      let (commands, last) = run (hysteresis_done F C R was_on on) pvs in
      (if ltb_ℤ on (pos 0) then commands else on ∷ commands, last)

  -- The switch: where it stands after a measured value, and its changes.
  unfoldable pub position : ℤ → Double → ℤ
  position was pv = if less upper pv then pos 0 else if less pv lower then pos 1 else was

  unfoldable pub changes : ℤ → List Double → List ℤ × ℤ
  unfolding position
  changes was [] = ([], was)
  changes was (pv ∷ pvs) =
      let now = position was pv in
      let (rest, last) = changes now pvs in (if eq_ℤ now was then rest else now ∷ rest, last)

  abbrev Agrees : ℤ → Double → Type 0
  Agrees was pv =
      let on = choose_on F C R lower upper was pv in
      (hysteresis_done F C R was on ≡ position was pv)
      × (((ltb_ℤ on (pos 0) ≡ true) × (eq_ℤ (position was pv) was ≡ true))
          ⊎ ((ltb_ℤ on (pos 0) ≡ false)
              × (eq_ℤ (position was pv) was ≡ false)
              × (on ≡ position was pv)))

  choose_on-Agrees :
      (was : ℤ) (pv : Double) → (less upper pv ≡ true → less pv lower ≡ false) → Agrees was pv
  unfolding choose_on hysteresis_done position
  choose_on-Agrees was pv apart = elim (Bool-cases (less upper pv)) [
    | inl high ↦ elim (Bool-cases (eq_ℤ was (pos 0))) [
      | inl off ↦ rw (high, apart high, off) (eq_ℤ_sound was (pos 0) off, inl (refl, ground arith))
      | inr on ↦ rw (high, on) (refl, inr (refl, ground arith, refl))
    ]
    | inr not_high ↦ elim (Bool-cases (less pv lower)) [
      | inl low ↦ elim (Bool-cases (eq_ℤ was (pos 1))) [
        | inl on ↦ rw (not_high, low, on) (eq_ℤ_sound was (pos 1) on, inl (refl, ground arith))
        | inr off ↦ rw (not_high, low, off) (refl, inr (refl, ground arith, refl))
      ]
      | inr not_low ↦ rw (not_high, not_low) (refl, inl (refl, ground arith))
    ]
  ]

  -- Where no value is both above the upper and below the lower bound: whatever is measured, the
  -- commands that are sent are the changes of a switch that goes off above the upper bound, on below
  -- the lower one, and stays where it is between them; and wasOn is where the switch stands.
  pub run-eq-changes :
      (was : ℤ) (pvs : List Double)
      → ((pv : Double) → less upper pv ≡ true → less pv lower ≡ false)
      → run was pvs ≡ changes was pvs
  unfolding run changes
  run-eq-changes was [] apart = refl
  run-eq-changes was (pv ∷ pvs) apart =
      let step = choose_on-Agrees was pv (apart pv) in
      let ih = run-eq-changes (position was pv) pvs apart in
      elim step.1 [
        | inl (quiet, same) ↦ rw (step.0, quiet, same, ih) refl
        | inr (sent, moved, is) ↦ rw (step.0, sent, moved, ih) (rw is refl)
      ]
