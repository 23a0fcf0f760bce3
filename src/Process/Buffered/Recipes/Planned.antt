-- ===== src/Process/Buffered/Recipes/Planned.antt =====
-- What the plans of `ProcessBuffered` add to the items in process.
use ocremote.Base.{◌≡◌, ◌≢◌, refl, inl, inr, none, some, Option, List, [], ◌∷◌, All, Bool-cases}
use ocremote.Base.Int.{ℤ, pos, ◌≤ℤ◌, ◌+ℤ◌, ◌*ℤ◌, int_laws, eq_of_parts, parts_eq}
use ocremote.Serialize.Value.{Doubles}
use ocremote.Item.{Item, item_eq}
use ocremote.Item.Insert.{InsertResult}
use ocremote.Factory.Demand.{RecipeIn}
use ocremote.Factory.Demand.Enough.{needs, mul_zero}
use ocremote.Factory.Reserving.Inputs.{mul_if}
use ocremote.Process.Buffered.Greatest.{AreWhole}
use ocremote.Process.Buffered.Cycle.{InProc, find_in_proc, add_in_proc}
use ocremote.Process.Buffered.Cycle.Counted.{find-add_in_proc}
use ocremote.Process.Buffered.Recipes.{add_plans}

module _ (F : Doubles) where
  open F use {Double}

  -- Plans that are whole add just what so many sets need, also where inputs are the same item.
  pub find-add_plans :
      {U : Type 0} (x : Item Double) (sets : ℤ) (items : List (Option (Item Double)))
      (ins : List (RecipeIn Double U)) (plans : List InsertResult) (in_proc : InProc F)
      → pos 0 ≤ℤ sets
      → All (λ item. item ≢ none) items
      → AreWhole F sets ins plans
      → find_in_proc F x (add_plans F items plans in_proc)
        ≡ find_in_proc F x in_proc +ℤ sets *ℤ needs F x items ins
  unfolding add_plans needs
  find-add_plans x sets [] ins plans in_proc n there w =
      eq_of_parts _ _ (omega (int_laws, parts_eq (mul_zero sets)))
  find-add_plans x sets (none ∷ items) ins plans in_proc n there w = absurd (there.0 refl)
  find-add_plans x sets (some y ∷ items) [] [] in_proc n there w =
      eq_of_parts _ _ (omega (int_laws, parts_eq (mul_zero sets)))
  find-add_plans x sets (some y ∷ items) [] (p ∷ plans) in_proc n there w = elim w [ ]
  find-add_plans x sets (some y ∷ items) (i ∷ ins) [] in_proc n there w = elim w [ ]
  find-add_plans x sets (some y ∷ items) (i ∷ ins) (p ∷ plans) in_proc n there w =
      let added = find-add_in_proc F x y p.total_size in_proc in
      let rest =
        find-add_plans x sets items ins plans (add_in_proc F y p.total_size in_proc) n there.1
          w.1 in
      let split = mul_if sets i.size (needs F x items ins) (item_eq F y x) n in
      elim (Bool-cases (item_eq F y x)) [
        | inl e ↦
            let added' = rw e at added in
            let split' = rw e at split in
            rw e (
              eq_of_parts _ _
                (omega (int_laws, parts_eq rest, parts_eq added', parts_eq split', parts_eq w.0)))
        | inr e ↦
            let added' = rw e at added in
            let split' = rw e at split in
            rw e
              (eq_of_parts _ _ (omega (int_laws, parts_eq rest, parts_eq added', parts_eq split')))
      ]
