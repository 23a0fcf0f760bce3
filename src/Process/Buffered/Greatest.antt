-- ===== src/Process/Buffered/Greatest.antt =====
-- The sets that go into the buffer are the most that do.
use mathlib.Core.Path.{subst}
use ocremote.Base.{
  some_inj, ℕ, zero, suc, ◌≤◌, ◌<◌, ◌≡◌, refl, sym, ap, inl, inr, ◌⊎◌, Option, none, some, List, [],
  ◌∷◌, arith, Bool-cases, Option-cases,
}
use ocremote.Base.Int.{ℤ, pos, ◌*ℤ◌, eq_ℤ, eq_ℤ_sound}
use ocremote.Serialize.Value.{Doubles}
use ocremote.Item.{Item, Inventory}
use ocremote.Item.Insert.{InsertResult, insert}
use ocremote.Factory.Demand.{RecipeIn}
use ocremote.Process.Buffered.{add_plan, insert_inputs, retry}

none_some : {A : Type 0} {plans : List InsertResult} → none ≡ some plans → A
none_some e = cc

add_plan_cases :
    (plan : InsertResult) (rest : Option (List InsertResult)) (plans : List InsertResult)
    → add_plan plan rest ≡ some plans
    → (more : List InsertResult) × (rest ≡ some more) × (plan ∷ more ≡ plans)
unfolding add_plan
add_plan_cases plan none plans h = none_some h
add_plan_cases plan (some more) plans h = (more, refl, some_inj h)

le_suc_cases : (m n : ℕ) → m ≤ suc n → (m ≤ n) ⊎ (m ≡ suc n)
le_suc_cases m n h = ground arith

module _ (F : Doubles) {U : Type 0} where
  open F use {Double}

  -- Each plan places so many sets of its input.
  abbrev pub AreWhole : ℤ → List (RecipeIn Double U) → List InsertResult → Type 0
  AreWhole sets [] [] = Unit
  AreWhole sets [] (plan ∷ plans) = ⊥
  AreWhole sets (i ∷ ins) [] = ⊥
  AreWhole sets (i ∷ ins) (plan ∷ plans) =
      (plan.total_size ≡ sets *ℤ i.size) × AreWhole sets ins plans

  insert_inputs-AreWhole :
      (sets : ℤ) (items : List (Option (Item Double))) (ins : List (RecipeIn Double U))
      (inv : Inventory Double) (plans : List InsertResult)
      → (insert_inputs F sets items ins inv).1 ≡ some plans
      → AreWhole sets ins plans
  unfolding insert_inputs
  insert_inputs-AreWhole sets items [] inv plans h = subst (AreWhole sets []) (some_inj h) tt
  insert_inputs-AreWhole sets [] (i ∷ ins) inv plans h = none_some h
  insert_inputs-AreWhole sets (none ∷ items) (i ∷ ins) inv plans h = none_some h
  insert_inputs-AreWhole sets (some item ∷ items) (i ∷ ins) inv plans h =
      let required = sets *ℤ i.size in
      let (inv', plan) = insert F inv item required in
      elim (Bool-cases (eq_ℤ plan.total_size required)) [
        | inr e ↦ none_some (rw (e, insert_inputs) at h)
        | inl e ↦
            let (more, is, same) =
              add_plan_cases plan (insert_inputs F sets items ins inv').1 plans
                (rw (e, insert_inputs) at h) in
            subst (AreWhole sets (i ∷ ins)) same (
              eq_ℤ_sound plan.total_size required e,
              insert_inputs-AreWhole sets items ins inv' more is,
            )
      ]

module _ (F : Doubles) {U : Type 0} (items : List (Option (Item F.Double)))
    (ins : List (RecipeIn F.Double U)) (inv : Inventory F.Double) where
  open F use {Double}

  -- So many sets do not go in whole.
  abbrev pub Fails : ℕ → Type 0
  Fails m = (insert_inputs F (pos m) items ins inv).1 ≡ none

  -- What the rounds come to: the most sets that go in, with what they leave, or none go in.
  abbrev pub IsGreatest : ℕ → Inventory Double × Option (ℕ × List InsertResult) → Type 0
  IsGreatest n (after, some (k, plans)) =
      (0 < k)
      × (k ≤ n)
      × (insert_inputs F (pos k) items ins inv ≡ (after, some plans))
      × AreWhole F (pos k) ins plans
      × ((m : ℕ) → k < m → m ≤ n → Fails m)
  IsGreatest n (after, none) = (m : ℕ) → 0 < m → m ≤ n → Fails m

  found :
      (n : ℕ) (plans : List InsertResult)
      → (insert_inputs F (pos (suc n)) items ins inv).1 ≡ some plans
      → IsGreatest (suc n) ((insert_inputs F (pos (suc n)) items ins inv).0, some (suc n, plans))
  found n plans e = (
    omega arith,
    omega arith,
    ap (λ k. ((insert_inputs F (pos (suc n)) items ins inv).0, k)) e,
    insert_inputs-AreWhole F (pos (suc n)) items ins inv plans e,
    λ m h k. absurd (omega arith),
  )

  one_more :
      (n : ℕ) (r : Inventory Double × Option (ℕ × List InsertResult))
      → Fails (suc n)
      → IsGreatest n r
      → IsGreatest (suc n) r
  one_more n (after, none) fails h = λ m a b. elim (le_suc_cases m n b) [
    | inl less ↦ h m a less
    | inr same ↦ subst Fails (sym same) fails
  ]
  one_more n (after, some (k, plans)) fails h = (
    h.0,
    omega (arith, h.1),
    h.2,
    h.3,
    λ m a b. elim (le_suc_cases m n b) [
      | inl less ↦ h.4 m a less
      | inr same ↦ subst Fails (sym same) fails
    ],
  )

  -- The rounds from so many sets on, at least one, decide how many go into the buffer: of all
  -- numbers of sets up to there, the greatest that goes in whole, with the inventory and the plans
  -- that it comes to, each for just what its input needs; or none, if no number of sets goes in.
  pub retry-IsGreatest : (n : ℕ) → 0 < n → IsGreatest n (retry F n items ins inv)
  unfolding retry
  retry-IsGreatest zero h = absurd (omega arith)
  retry-IsGreatest (suc zero) h = elim (Option-cases (insert_inputs F (pos 1) items ins inv).1) [
    | inl e ↦ rw (e, retry) (λ m a b. let same : 1 ≡ m = omega arith in subst Fails same e)
    | inr (plans, e) ↦ rw (e, retry) (found 0 plans e)
  ]
  retry-IsGreatest (suc (suc n)) h =
      elim (Option-cases (insert_inputs F (pos (suc (suc n))) items ins inv).1) [
        | inl e ↦
            rw (e, retry)
              (one_more (suc n) (retry F (suc n) items ins inv) e
                (retry-IsGreatest (suc n) (omega arith)))
        | inr (plans, e) ↦ rw (e, retry) (found (suc n) plans e)
      ]
