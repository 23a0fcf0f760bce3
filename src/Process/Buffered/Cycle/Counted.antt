-- ===== src/Process/Buffered/Cycle/Counted.antt =====
-- What the loop over the listed slots counts.
use ocremote.Base.{
  ℕ, ◌+◌, ◌≡◌, refl, sym, ◌∙◌, inl, inr, Bool, true, false, ◌||◌, Option, none, some, List, [], ◌∷◌,
  Bool-cases, if◌then◌else◌,
}
use ocremote.Base.Int.{ℤ, pos, ◌+ℤ◌, eq_of_parts, parts_eq, int_laws}
use ocremote.Serialize.Value.{Doubles}
use ocremote.Item.{Item, ItemStack, Inventory, item_eq, item_eq_sym, item_eq_trans}
use ocremote.Process.Buffered.Cycle.{
  StockEntry, InProc, Counts, find_in_proc, add_in_proc, is_listed, is_output, is_barred, count,
  visit_items,
}

module _ (F : Doubles) where
  open F use {Double}

  item_eq-same : (key y x : Item Double) → item_eq F key y ≡ true → item_eq F key x ≡ item_eq F y x
  item_eq-same key y x e = elim (Bool-cases (item_eq F key x)) [
    | inl f ↦ f ∙ sym (item_eq_trans F y key x (item_eq_sym F key y e) f)
    | inr f ↦ elim (Bool-cases (item_eq F y x)) [
      | inl g ↦ let same : true ≡ false = sym (item_eq_trans F key y x e g) ∙ f in cc
      | inr g ↦ f ∙ sym g
    ]
  ]

  -- So many of `x`, if the item is `x`.
  abbrev pub share : Item Double → Item Double → ℤ → ℤ
  share x item n = if item_eq F item x then n else pos 0

  pub find-add_in_proc :
      (x item : Item Double) (n : ℤ) (in_proc : InProc F)
      → find_in_proc F x (add_in_proc F item n in_proc) ≡ find_in_proc F x in_proc +ℤ share x item n
  unfolding find_in_proc add_in_proc
  find-add_in_proc x item n [] = elim (Bool-cases (item_eq F item x)) [
    | inl e ↦ rw e (eq_of_parts _ _ (omega int_laws))
    | inr e ↦ rw e (eq_of_parts _ _ (omega int_laws))
  ]
  find-add_in_proc x item n ((key, m) ∷ rest) = elim (Bool-cases (item_eq F key item)) [
    | inl e ↦
        let same = item_eq-same key item x e in
        elim (Bool-cases (item_eq F item x)) [
          | inl f ↦ rw (e, same, f) refl
          | inr f ↦ rw (e, same, f) (eq_of_parts _ _ (omega int_laws))
        ]
    | inr e ↦ elim (Bool-cases (item_eq F key x)) [
      | inl f ↦
          let apart : item_eq F item x ≡ false = elim (Bool-cases (item_eq F item x)) [
            | inl g ↦
                let same : true ≡ false =
                  sym (item_eq_trans F key x item f (item_eq_sym F item x g)) ∙ e in
                cc
            | inr g ↦ g
          ] in
          rw (e, f, apart) (eq_of_parts _ _ (omega int_laws))
      | inr f ↦ rw (e, f) (find-add_in_proc x item n rest)
    ]
  ]

  module _ (out_filter : Option (ℕ → ItemStack Double → Bool)) (slot_filter : Option (ℕ → Bool))
      (entries : List (StockEntry Double)) where
    abbrev Slots : Type 0
    Slots = List (Option (ItemStack Double))

    -- A slot that is output or barred does not count.
    abbrev pub is_taken : ℕ → Option (ItemStack Double) → Bool
    is_taken slot stack =
        is_output F out_filter slot_filter entries slot stack
        || is_barred F out_filter slot_filter entries slot

    -- How many of an item are in the slots that count, from `slot` on.
    unfoldable pub held : Item Double → ℕ → Inventory Double → ℤ
    held x slot [] = pos 0
    held x slot (none ∷ rest) = held x (slot + 1) rest
    held x slot (some stack ∷ rest) =
        (if is_taken slot (some stack) then pos 0 else share x stack.item stack.size)
        +ℤ held x (slot + 1) rest

    -- How many items that no entry is for are in the slots that count.
    unfoldable pub loose : ℕ → Inventory Double → ℤ
    loose slot [] = pos 0
    loose slot (none ∷ rest) = loose (slot + 1) rest
    loose slot (some stack ∷ rest) =
        (if is_taken slot (some stack) || is_listed entries stack.item then pos 0 else stack.size)
        +ℤ loose (slot + 1) rest

    -- After the loop over the listed slots, for every item: what is in process of it has grown by just
    -- what is of it in the slots that are neither output nor barred; and the quota has lost just what
    -- is in these slots of the items that no stock entry is for.
    pub visit_items-counted :
        (x : Item Double) (slot : ℕ) (inv : Inventory Double) (c : Counts F)
        → let (inv', outputs, c') = visit_items F out_filter slot_filter entries slot inv c in
          (find_in_proc F x c'.in_proc ≡ find_in_proc F x c.in_proc +ℤ held x slot inv)
          × (c'.quota +ℤ loose slot inv ≡ c.quota)
    unfolding visit_items count held loose
    visit_items-counted x slot [] c =
        (eq_of_parts _ _ (omega int_laws), eq_of_parts _ _ (omega int_laws))
    visit_items-counted x slot (none ∷ rest) c =
        let ih = visit_items-counted x (slot + 1) rest c in
        elim (Bool-cases (is_barred F out_filter slot_filter entries slot)) [
          | inl b ↦ rw b ih
          | inr b ↦ rw b ih
        ]
    visit_items-counted x slot (some stack ∷ rest) c =
        elim (Bool-cases (is_taken slot (some stack))) [
          | inl t ↦
              let ih = visit_items-counted x (slot + 1) rest c in
              rw t (
                eq_of_parts _ _ (omega (int_laws, parts_eq ih.0)),
                eq_of_parts _ _ (omega (int_laws, parts_eq ih.1)),
              )
          | inr t ↦
              let c1 = count F out_filter slot_filter entries (some stack) c in
              let ih = visit_items-counted x (slot + 1) rest c1 in
              let added = find-add_in_proc x stack.item stack.size c.in_proc in
              rw t (
                eq_of_parts _ _ (omega (int_laws, parts_eq ih.0, parts_eq added)),
                elim (Bool-cases (is_listed entries stack.item)) [
                  | inl l ↦
                      let quota = rw l at ih.1 in
                      rw l (eq_of_parts _ _ (omega (int_laws, parts_eq quota)))
                  | inr l ↦
                      let quota = rw l at ih.1 in
                      rw l (eq_of_parts _ _ (omega (int_laws, parts_eq quota)))
                ],
              )
        ]
