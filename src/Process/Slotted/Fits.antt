-- ===== src/Process/Slotted/Fits.antt =====
-- The demand that a slotted process chooses fits into its slots.
use mathlib.Core.Path.{subst}
use ocremote.Base.{
  ℕ, ◌≡◌, refl, inl, inr, ◌⊎◌, Bool, true, false, ◌||◌, Option, none, some, List, [], ◌∷◌, ◌++◌,
  ◌==◌, All, All-map, arith, Bool-cases, some_inj, OneOf, front, later,
}
use ocremote.Base.Int.{ℤ, pos, ◌*ℤ◌, ◌≤ℤ◌, ◌<ℤ◌, min_ℤ, parts_eq}
use ocremote.Serialize.Value.{Doubles}
use ocremote.Item.{Item, ItemStack}
use ocremote.Factory.Demand.{Floats, RecipeIn, Demand}
use ocremote.Process.Slotted.{
  Fit, fits, skip, out_of_range, is_used, each_size, SlotInfos, visit_slots, visit_inputs,
  others_are_empty, fit_demand, choose,
}
use ocremote.Process.Slotted.Rooms.{
  HasRoom, Bounded, Bounded-HasRoom, Bounded-le, skip_fits, visit_slots-FitsSlots,
}

-- The slots of all inputs.
unfoldable pub slots_of : {D : Type 0} → List (RecipeIn D (List ℕ)) → List ℕ
slots_of [] = []
slots_of (i ∷ ins) = i.info ++ slots_of ins

is_used-append :
    (xs ys : List ℕ) (slot : ℕ) → is_used (xs ++ ys) slot ≡ (is_used xs slot || is_used ys slot)
unfolding is_used
is_used-append [] ys slot = refl
is_used-append (x ∷ xs) ys slot = elim (Bool-cases (x == slot)) [
  | inl e ↦ rw e refl
  | inr e ↦ rw e (is_used-append xs ys slot)
]

module _ (F : Doubles) (infos : SlotInfos F) where
  open F use {Double}

  -- There is room for so many sets of the inputs in their slots.
  abbrev pub HaveRoom :
      ℤ → ℤ → List (Option (Item Double)) → List (RecipeIn Double (List ℕ)) → Type 0
  HaveRoom max_in_proc n items [] = Unit
  HaveRoom max_in_proc n [] (i ∷ ins) = ⊥
  HaveRoom max_in_proc n (none ∷ items) (i ∷ ins) = ⊥
  HaveRoom max_in_proc n (some item ∷ items) (i ∷ ins) =
      All (HasRoom F infos item (min_ℤ max_in_proc item.max_size) (n *ℤ each_size i)) i.info
      × HaveRoom max_in_proc n items ins

  abbrev AreBounded : ℤ → ℤ → List (Option (Item Double)) → List (RecipeIn Double (List ℕ)) → Type 0
  AreBounded max_in_proc n items [] = Unit
  AreBounded max_in_proc n [] (i ∷ ins) = ⊥
  AreBounded max_in_proc n (none ∷ items) (i ∷ ins) = ⊥
  AreBounded max_in_proc n (some item ∷ items) (i ∷ ins) =
      All (Bounded F infos item (min_ℤ max_in_proc item.max_size) (each_size i) n) i.info
      × AreBounded max_in_proc n items ins

  AreBounded-HaveRoom :
      (max_in_proc n : ℤ) (items : List (Option (Item Double)))
      (ins : List (RecipeIn Double (List ℕ)))
      → pos 0 <ℤ n
      → All (λ i. pos 0 <ℤ each_size i) ins
      → AreBounded max_in_proc n items ins
      → HaveRoom max_in_proc n items ins
  AreBounded-HaveRoom max_in_proc n items [] hn he h = tt
  AreBounded-HaveRoom max_in_proc n [] (i ∷ ins) hn he h = h
  AreBounded-HaveRoom max_in_proc n (none ∷ items) (i ∷ ins) hn he h = h
  AreBounded-HaveRoom max_in_proc n (some item ∷ items) (i ∷ ins) hn he h = (
    All-map _ (HasRoom F infos item (min_ℤ max_in_proc item.max_size) (n *ℤ each_size i)) i.info
        (λ slot b.
          Bounded-HasRoom F infos item (min_ℤ max_in_proc item.max_size) (each_size i) n slot hn
            he.0 b)
        h.0,
    AreBounded-HaveRoom max_in_proc n items ins hn he.1 h.1,
  )

  record FitsInputs (max_in_proc : ℤ) (items : List (Option (Item Double)))
      (ins : List (RecipeIn Double (List ℕ))) (sets : ℤ) (used : List ℕ) (n : ℤ) (after : List ℕ)
      : Type 0 where
    pub positive : pos 0 <ℤ n
    pub fewer : n ≤ℤ sets
    pub bounded : AreBounded max_in_proc n items ins
    pub marked :
        (slot : ℕ)
        → is_used after slot ≡ true
        → (is_used used slot ≡ true) ⊎ (is_used (slots_of ins) slot ≡ true)

  or_left : (a b : Bool) → a ≡ true → (a || b) ≡ true
  or_left a b e = rw e refl

  or_right : (a b : Bool) → b ≡ true → (a || b) ≡ true
  or_right a b e = elim (Bool-cases a) [ inl t ↦ rw t refl | inr t ↦ rw (t, e) refl ]

  Fit-cases :
      (f : Fit)
      → ((n : ℤ) × (used : List ℕ) × (f ≡ fits n used)) ⊎ ((f ≡ skip) ⊎ (f ≡ out_of_range))
  Fit-cases (fits n used) = inl (n, used, refl)
  Fit-cases skip = inr (inl refl)
  Fit-cases out_of_range = inr (inr refl)

  visit_inputs-FitsInputs :
      (max_in_proc : ℤ) (items : List (Option (Item Double)))
      (ins : List (RecipeIn Double (List ℕ))) (sets : ℤ) (used : List ℕ) (n : ℤ) (after : List ℕ)
      → pos 0 <ℤ sets
      → visit_inputs F infos max_in_proc items ins sets used ≡ fits n after
      → FitsInputs max_in_proc items ins sets used n after
  unfolding visit_inputs slots_of
  visit_inputs-FitsInputs max_in_proc items [] sets used n after h e =
      let same : (sets ≡ n) × (used ≡ after) = (cc, cc) in
      record {
        positive = omega (arith, h, parts_eq same.0);
        fewer = omega (arith, parts_eq same.0);
        bounded = tt;
        marked = λ s u. inl (rw same.1 u);
      }
  visit_inputs-FitsInputs max_in_proc [] (i ∷ ins) sets used n after h e = skip_fits F infos e
  visit_inputs-FitsInputs max_in_proc (none ∷ items) (i ∷ ins) sets used n after h e =
      skip_fits F infos e
  visit_inputs-FitsInputs max_in_proc (some item ∷ items) (i ∷ ins) sets used n after h e =
      let limit = min_ℤ max_in_proc item.max_size in
      elim (Fit-cases (visit_slots F infos item limit (each_size i) i.info sets used)) [
        | inr (inl stop) ↦ skip_fits F infos (rw (stop, visit_inputs) at e)
        | inr (inr stop) ↦ let f = rw (stop, visit_inputs) at e in cc
        | inl (m, used', found) ↦
            let first =
              visit_slots-FitsSlots F infos item limit (each_size i) i.info sets used m used' h
                found in
            let rest =
              visit_inputs-FitsInputs max_in_proc items ins m used' n after first.positive
                (rw (found, visit_inputs) at e) in
            record {
              positive = rest.positive;
              fewer = omega (arith, first.fewer, rest.fewer);
              bounded = (
                All-map _ (Bounded F infos item limit (each_size i) n) i.info
                    (λ slot b. Bounded-le F infos item limit (each_size i) n m slot rest.fewer b)
                    first.bounded,
                rest.bounded,
              );
              marked = λ s u. rw (is_used-append i.info (slots_of ins) s) (elim (rest.marked s u) [
                | inr r ↦ inr (or_right (is_used i.info s) _ r)
                | inl r ↦ elim (first.marked s r) [
                  | inl t ↦ inl t
                  | inr t ↦ inr (or_left _ (is_used (slots_of ins) s) t)
                ]
              ]);
            }
      ]

  -- What is in no slot of the inputs is nothing.
  abbrev pub IsClear : List (RecipeIn Double (List ℕ)) → ℕ × Option (ItemStack Double) → Type 0
  IsClear ins (slot, info) = (info ≡ none) ⊎ (is_used (slots_of ins) slot ≡ true)

  others_are_empty-IsClear :
      (rest : SlotInfos F) (used : List ℕ) (ins : List (RecipeIn Double (List ℕ)))
      → ((slot : ℕ) → is_used used slot ≡ true → is_used (slots_of ins) slot ≡ true)
      → others_are_empty F rest used ≡ true
      → All (IsClear ins) rest
  unfolding others_are_empty
  others_are_empty-IsClear [] used ins h e = tt
  others_are_empty-IsClear ((slot, none) ∷ rest) used ins h e =
      (inl refl, others_are_empty-IsClear rest used ins h e)
  others_are_empty-IsClear ((slot, some stack) ∷ rest) used ins h e =
      elim (Bool-cases (is_used used slot)) [
        | inl t ↦ (inr (h slot t), others_are_empty-IsClear rest used ins h (rw t at e))
        | inr t ↦ let f : false ≡ true = rw t at e in cc
      ]

  module _ (G : Floats) where
    -- The demand that is chosen, with its number of sets.
    pub record Fitting (demands : List (Demand F G ℤ (List ℕ))) (d : Demand F G ℤ (List ℕ)) (n : ℤ)
        : Type 0 where
      pub listed : OneOf d demands
      pub positive : pos 0 <ℤ n
      pub possible : n ≤ℤ d.in_avail
      pub room : HaveRoom d.recipe.info n d.inputs d.recipe.inputs
      pub clear : All (IsClear d.recipe.inputs) infos

    abbrev pub IsReady : Demand F G ℤ (List ℕ) → Type 0
    IsReady d = (pos 0 <ℤ d.in_avail) × All (λ i. pos 0 <ℤ each_size i) d.recipe.inputs

    fit_demand-Fitting :
        (d : Demand F G ℤ (List ℕ)) (rest : List (Demand F G ℤ (List ℕ))) (n : ℤ) (used : List ℕ)
        → IsReady d
        → fit_demand F G infos d ≡ fits n used
        → Fitting (d ∷ rest) d n
    unfolding fit_demand
    fit_demand-Fitting d rest n used ready e =
        elim (Fit-cases
          (visit_inputs F infos d.recipe.info d.inputs d.recipe.inputs d.in_avail [])) [
            | inr (inl stop) ↦ skip_fits F infos (rw (stop, fit_demand) at e)
            | inr (inr stop) ↦ let f = rw (stop, fit_demand) at e in cc
            | inl (m, marks, found) ↦ elim (Bool-cases (others_are_empty F infos marks)) [
              | inr stop ↦ skip_fits F infos (rw (found, stop, fit_demand) at e)
              | inl rest_empty ↦
                  let r =
                    visit_inputs-FitsInputs d.recipe.info d.inputs d.recipe.inputs d.in_avail [] m
                      marks ready.0 found in
                  let f = rw (found, rest_empty, fit_demand) at e in
                  let same : m ≡ n = cc in
                  let bounded : AreBounded d.recipe.info n d.inputs d.recipe.inputs =
                    rw same at r.bounded in
                  let positive : pos 0 <ℤ n = omega (arith, parts_eq same, r.positive) in
                  record {
                    listed = front;
                    positive = positive;
                    possible = omega (arith, parts_eq same, r.fewer);
                    room =
                        AreBounded-HaveRoom d.recipe.info n d.inputs d.recipe.inputs positive
                          ready.1 bounded;
                    clear =
                        others_are_empty-IsClear infos marks d.recipe.inputs
                          (λ slot u. elim (r.marked slot u) [
                            | inl t ↦ let no : false ≡ true = t in cc
                            | inr t ↦ t
                          ])
                          rest_empty;
                  }
            ]
          ]

    -- Where each demand has a positive number of sets and each input has at least one item for each
    -- of its slots: of the demand that is chosen, if there is one, some sets are processed, and no
    -- more than its inputs allow; each slot of an input is empty or has the item of that input, and
    -- has room for its part of the sets up to the limit, and the slots of no input are empty.
    pub choose-Fitting :
        (demands : List (Demand F G ℤ (List ℕ))) (d : Demand F G ℤ (List ℕ)) (n : ℤ)
        → All IsReady demands
        → choose F G infos demands ≡ some (some (d, n))
        → Fitting demands d n
    unfolding choose
    choose-Fitting [] d n ready e = let no = some_inj e in cc
    choose-Fitting (demand ∷ rest) d n ready e = elim (Fit-cases (fit_demand F G infos demand)) [
      | inr (inr stop) ↦ let no = rw (stop, choose) at e in cc
      | inr (inl stop) ↦
          let r = choose-Fitting rest d n ready.1 (rw (stop, choose) at e) in
          record {
            listed = later r.listed;
            positive = r.positive;
            possible = r.possible;
            room = r.room;
            clear = r.clear;
          }
      | inl (m, used, found) ↦
          let f = some_inj (some_inj (rw (found, choose) at e)) in
          subst (λ p. Fitting (demand ∷ rest) p.0 p.1) f
            (fit_demand-Fitting demand rest m used ready.0 found)
    ]
