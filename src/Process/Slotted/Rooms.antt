-- ===== src/Process/Slotted/Rooms.antt =====
-- The slots of one input have room for it.
use ocremote.Base.{
  ℕ, ◌≡◌, refl, inl, inr, ◌⊎◌, true, none, some, List, [], ◌∷◌, ◌==◌, All, arith, Bool-cases,
  Option-cases,
}
use ocremote.Base.Int.{
  ℤ, pos, ◌+ℤ◌, ◌-ℤ◌, ◌*ℤ◌, ◌≤ℤ◌, ◌<ℤ◌, div_ℤ, min_ℤ, leb_ℤ, leb_ℤ→lt, min_ℤ_parts, div-mul_pos,
  int_laws, parts_eq,
}
use ocremote.Serialize.Value.{Doubles}
use ocremote.Item.{Item, ItemStack, item_eq}
use ocremote.Process.Slotted.{fits, skip, is_used, SlotInfos, find_slot, visit_slots}

module _ (F : Doubles) (infos : SlotInfos F) where
  open F use {Double}

  -- So many of the item have room in the slot: it is empty, or it has some of the item, and in
  -- the end it has no more than the limit.
  pub data HasRoom (item : Item Double) (limit amount : ℤ) (slot : ℕ) : Type 0 where
    empty : find_slot F infos slot ≡ some none → amount ≤ℤ limit → HasRoom item limit amount slot
    stacked :
        (stack : ItemStack Double)
        → find_slot F infos slot ≡ some (some stack)
        → item_eq F stack.item item ≡ true
        → stack.size +ℤ amount ≤ℤ limit
        → HasRoom item limit amount slot

  -- The same with the quotient, which the later slots only make smaller.
  pub data Bounded (item : Item Double) (limit each n : ℤ) (slot : ℕ) : Type 0 where
    empty :
        find_slot F infos slot ≡ some none
        → n ≤ℤ div_ℤ (limit -ℤ pos 0) each
        → Bounded item limit each n slot
    stacked :
        (stack : ItemStack Double)
        → find_slot F infos slot ≡ some (some stack)
        → item_eq F stack.item item ≡ true
        → n ≤ℤ div_ℤ (limit -ℤ stack.size) each
        → Bounded item limit each n slot

  pub Bounded-HasRoom :
      (item : Item Double) (limit each n : ℤ) (slot : ℕ)
      → pos 0 <ℤ n
      → pos 0 <ℤ each
      → Bounded item limit each n slot
      → HasRoom item limit (n *ℤ each) slot
  Bounded-HasRoom item limit each n slot hn he (Bounded.empty e h) =
      HasRoom.empty e (omega (int_laws, div-mul_pos n (limit -ℤ pos 0) each hn he h))
  Bounded-HasRoom item limit each n slot hn he (Bounded.stacked stack e same h) =
      HasRoom.stacked stack e same
        (omega (int_laws, div-mul_pos n (limit -ℤ stack.size) each hn he h))

  pub Bounded-le :
      (item : Item Double) (limit each m n : ℤ) (slot : ℕ)
      → m ≤ℤ n
      → Bounded item limit each n slot
      → Bounded item limit each m slot
  Bounded-le item limit each m n slot h (Bounded.empty e k) = Bounded.empty e (omega (arith, h, k))
  Bounded-le item limit each m n slot h (Bounded.stacked stack e same k) =
      Bounded.stacked stack e same (omega (arith, h, k))

  -- What the loop over the slots of an input leaves.
  pub record FitsSlots (item : Item Double) (limit each : ℤ) (slots : List ℕ) (sets : ℤ)
      (used : List ℕ) (n : ℤ) (after : List ℕ) : Type 0 where
    pub positive : pos 0 <ℤ n
    pub fewer : n ≤ℤ sets
    pub bounded : All (Bounded item limit each n) slots
    pub marked :
        (slot : ℕ)
        → is_used after slot ≡ true
        → (is_used used slot ≡ true) ⊎ (is_used slots slot ≡ true)

  pub skip_fits : {A : Type 0} {n : ℤ} {used : List ℕ} → skip ≡ fits n used → A
  skip_fits e = cc

  later_slot :
      (slot slot' : ℕ) (slots used : List ℕ)
      → (is_used (slot ∷ used) slot' ≡ true) ⊎ (is_used slots slot' ≡ true)
      → (is_used used slot' ≡ true) ⊎ (is_used (slot ∷ slots) slot' ≡ true)
  unfolding is_used
  later_slot slot slot' slots used h = elim (Bool-cases (slot == slot')) [
    | inl e ↦ inr (rw e refl)
    | inr e ↦ rw e (rw (e, is_used) at h)
  ]

  add_slot :
      {item : Item Double} {limit each : ℤ} {slots : List ℕ} {sets m n : ℤ} {used after : List ℕ}
      (slot : ℕ)
      → m ≤ℤ sets
      → Bounded item limit each n slot
      → FitsSlots item limit each slots m (slot ∷ used) n after
      → FitsSlots item limit each (slot ∷ slots) sets used n after
  add_slot {slots} {used} slot h bound r = record {
    positive = r.positive;
    fewer = omega (arith, h, r.fewer);
    bounded = (bound, r.bounded);
    marked = λ s u. later_slot slot s slots used (r.marked s u);
  }

  pub visit_slots-FitsSlots :
      (item : Item Double) (limit each : ℤ) (slots : List ℕ) (sets : ℤ) (used : List ℕ) (n : ℤ)
      (after : List ℕ)
      → pos 0 <ℤ sets
      → visit_slots F infos item limit each slots sets used ≡ fits n after
      → FitsSlots item limit each slots sets used n after
  unfolding visit_slots
  visit_slots-FitsSlots item limit each [] sets used n after h e =
      let same : (sets ≡ n) × (used ≡ after) = (cc, cc) in
      record {
        positive = omega (arith, h, parts_eq same.0);
        fewer = omega (arith, parts_eq same.0);
        bounded = tt;
        marked = λ s u. inl (rw same.1 u);
      }
  visit_slots-FitsSlots item limit each (slot ∷ slots) sets used n after h e =
      elim (Option-cases (find_slot F infos slot)) [
        | inl missing ↦ let f = rw (missing, visit_slots) at e in cc
        | inr (none, found) ↦
            let q = div_ℤ (limit -ℤ pos 0) each in
            let m = min_ℤ sets q in
            elim (Bool-cases (leb_ℤ m (pos 0))) [
              | inl stop ↦ skip_fits (rw (found, stop, visit_slots) at e)
              | inr more ↦
                  let r =
                    visit_slots-FitsSlots item limit each slots m (slot ∷ used) n after
                      (leb_ℤ→lt m (pos 0) more) (rw (found, more, visit_slots) at e) in
                  let below = min_ℤ_parts sets q in
                  add_slot slot (omega (arith, below))
                    (Bounded.empty found (omega (arith, below, r.fewer))) r
            ]
        | inr (some stack, found) ↦
            let q = div_ℤ (limit -ℤ stack.size) each in
            let m = min_ℤ sets q in
            elim (Bool-cases (item_eq F stack.item item)) [
              | inr other ↦ skip_fits (rw (found, other, visit_slots) at e)
              | inl alike ↦ elim (Bool-cases (leb_ℤ m (pos 0))) [
                | inl stop ↦ skip_fits (rw (found, alike, stop, visit_slots) at e)
                | inr more ↦
                    let r =
                      visit_slots-FitsSlots item limit each slots m (slot ∷ used) n after
                        (leb_ℤ→lt m (pos 0) more) (rw (found, alike, more, visit_slots) at e) in
                    let below = min_ℤ_parts sets q in
                    add_slot slot (omega (arith, below))
                      (Bounded.stacked stack found alike (omega (arith, below, r.fewer))) r
              ]
            ]
      ]
