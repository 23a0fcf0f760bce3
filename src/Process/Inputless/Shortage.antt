-- ===== src/Process/Inputless/Shortage.antt =====
-- How much of an item goes out.
use ocremote.Base.{
  ℕ, suc, ◌+◌, ◌≡◌, sym, ap, ◌∙◌, inl, inr, Bool, Option, none, some, List, [], ◌∷◌, get_elem?,
  arith, Bool-cases, if◌then◌else◌,
}
use ocremote.Base.Int.{
  zero_add, ℤ, pos, ◌+ℤ◌, ◌-ℤ◌, ◌≤ℤ◌, ◌<ℤ◌, min_ℤ, max_ℤ, leb_ℤ, leb_ℤ→le, leb_ℤ→lt, min_ℤ_parts,
  max_ℤ_parts, int_laws, eq_of_parts,
}
use ocremote.Serialize.Value.{Doubles}
use ocremote.Item.{Item, ItemStack, Inventory, item_eq}
use ocremote.Factory.Stock.{Stock}
use ocremote.Process.Inputless.{
  InputlessEntry, InputlessInfo, is_allowed, AvailMap, new_info, info_of, put_info, visit_outputs,
  inputless_outputs,
}
use ocremote.Process.Inputless.Infos.{AreRespectful, info_of-same, info_of-put_info}

-- How much of an item is still needed.
unfoldable pub shortage : InputlessInfo → ℤ
shortage info = max_ℤ (pos 0) (info.needed -ℤ info.avail)

none_stored : (info : InputlessInfo) → pos 0 ≡ min_ℤ (shortage info) (pos 0)
unfolding shortage
none_stored info =
    let lack = info.needed -ℤ info.avail in
    let m = max_ℤ_parts (pos 0) lack in
    eq_of_parts _ _ (omega (arith, m, min_ℤ_parts (max_ℤ (pos 0) lack) (pos 0)))

-- Nothing goes out of a stack, and some of it does.
keep_all :
    (info : InputlessInfo) (size more : ℤ)
    → pos 0 ≤ℤ size
    → pos 0 ≤ℤ more
    → min_ℤ (info.needed -ℤ info.avail) size ≤ℤ pos 0
    → min_ℤ (shortage info) more ≡ min_ℤ (shortage info) (size +ℤ more)
unfolding shortage
keep_all info size more hs hm h =
    let lack = info.needed -ℤ info.avail in
    let m = max_ℤ_parts (pos 0) lack in
    let k = min_ℤ_parts lack size in
    let a = min_ℤ_parts (max_ℤ (pos 0) lack) more in
    let b = min_ℤ_parts (max_ℤ (pos 0) lack) (size +ℤ more) in
    eq_of_parts _ _ (omega (int_laws, m, k, a, b))

take_some :
    (info : InputlessInfo) (size more : ℤ)
    → pos 0 ≤ℤ size
    → pos 0 ≤ℤ more
    → let n = min_ℤ (info.needed -ℤ info.avail) size in
      pos 0 <ℤ n
      → n +ℤ min_ℤ (shortage (record info { avail = info.avail +ℤ n })) more
        ≡ min_ℤ (shortage info) (size +ℤ more)
unfolding shortage
take_some info size more hs hm h =
    let lack = info.needed -ℤ info.avail in
    let n = min_ℤ lack size in
    let left = info.needed -ℤ (info.avail +ℤ n) in
    let m = max_ℤ_parts (pos 0) lack in
    let l = max_ℤ_parts (pos 0) left in
    let k = min_ℤ_parts lack size in
    let a = min_ℤ_parts (max_ℤ (pos 0) left) more in
    let b = min_ℤ_parts (max_ℤ (pos 0) lack) (size +ℤ more) in
    eq_of_parts _ _ (omega (int_laws, m, l, k, a, b))

module _ (F : Doubles) where
  open F use {Double}

  -- How much of an item is in a slot of the inventory that passes the filter, from `slot` on.
  unfoldable pub stored : Option (ℕ → Bool) → Item Double → ℕ → Inventory Double → ℤ
  stored slot_filter x slot [] = pos 0
  stored slot_filter x slot (none ∷ rest) = stored slot_filter x (slot + 1) rest
  stored slot_filter x slot (some stack ∷ rest) =
      (if is_allowed slot_filter slot
        then (if item_eq F stack.item x then stack.size else pos 0)
        else pos 0)
      +ℤ stored slot_filter x (slot + 1) rest

  -- How much of an item is in a stack that is listed, by the size `n`.
  unfoldable pub share : Item Double → ℤ → Option (Option (ItemStack Double)) → ℤ
  share x n (some (some stack)) = if item_eq F stack.item x then n else pos 0
  share x n other = pos 0

  -- How much of an item the outputs take out of an inventory.
  unfoldable pub taken : Inventory Double → Item Double → List (ℕ × ℤ) → ℤ
  unfolding share
  taken items x [] = pos 0
  taken items x ((slot, n) ∷ rest) = share x n (get_elem? items slot) +ℤ taken items x rest

  abbrev pub AreStacks : Inventory Double → Type 0
  AreStacks [] = Unit
  AreStacks (none ∷ rest) = AreStacks rest
  AreStacks (some stack ∷ rest) = (pos 0 ≤ℤ stack.size) × AreStacks rest

  stored_nonneg :
      (slot_filter : Option (ℕ → Bool)) (x : Item Double) (slot : ℕ) (items : Inventory Double)
      → AreStacks items
      → pos 0 ≤ℤ stored slot_filter x slot items
  unfolding stored
  stored_nonneg slot_filter x slot [] h = omega arith
  stored_nonneg slot_filter x slot (none ∷ rest) h = stored_nonneg slot_filter x (slot + 1) rest h
  stored_nonneg slot_filter x slot (some stack ∷ rest) h =
      let ih = stored_nonneg slot_filter x (slot + 1) rest h.1 in
      elim (Bool-cases (is_allowed slot_filter slot)) [
        | inr e ↦ rw e (omega (int_laws, ih))
        | inl e ↦ elim (Bool-cases (item_eq F stack.item x)) [
          | inl f ↦ rw (e, f) (omega (int_laws, ih, h.0))
          | inr f ↦ rw (e, f) (omega (int_laws, ih))
        ]
      ]

  module _ (s : Stock F) (entries : List (InputlessEntry Double))
      (h : AreRespectful F entries) where
    IsSuffix : ℕ → Inventory Double → Inventory Double → Type 0
    IsSuffix slot rest items = (i : ℕ) → get_elem? items (slot + i) ≡ get_elem? rest i

    IsSuffix-next :
        (slot : ℕ) (y : Option (ItemStack Double)) (rest items : Inventory Double)
        → IsSuffix slot (y ∷ rest) items
        → IsSuffix (slot + 1) rest items
    unfolding IsSuffix
    IsSuffix-next slot y rest items h i =
        let e : slot + 1 + i ≡ slot + suc i = omega arith in
        ap (λ j. get_elem? items j) e ∙ h (suc i)

    IsSuffix-head :
        (slot : ℕ) (y : Option (ItemStack Double)) (rest items : Inventory Double)
        → IsSuffix slot (y ∷ rest) items
        → get_elem? items slot ≡ some y
    unfolding IsSuffix
    IsSuffix-head slot y rest items h =
        let e : slot ≡ slot + 0 = omega arith in ap (λ j. get_elem? items j) e ∙ h 0

    shortage-put_info :
        (item x : Item Double) (now : InputlessInfo) (m : AvailMap F)
        → shortage (info_of F s entries (put_info F s entries item now m) x)
          ≡ (if item_eq F item x then shortage now else shortage (info_of F s entries m x))
    shortage-put_info item x now m = elim (Bool-cases (item_eq F item x)) [
      | inl t ↦ rw t (ap shortage (rw t at (info_of-put_info F s entries h item x now m)))
      | inr t ↦ rw t (ap shortage (rw t at (info_of-put_info F s entries h item x now m)))
    ]

    visit_outputs-taken :
        (slot_filter : Option (ℕ → Bool)) (items : Inventory Double) (x : Item Double) (slot : ℕ)
        (rest : Inventory Double) (m : AvailMap F)
        → AreStacks rest
        → IsSuffix slot rest items
        → taken items x (visit_outputs F s entries slot_filter slot rest m)
          ≡ min_ℤ (shortage (info_of F s entries m x)) (stored slot_filter x slot rest)
    unfolding visit_outputs taken stored
    visit_outputs-taken slot_filter items x slot [] m st suffix =
        none_stored (info_of F s entries m x)
    visit_outputs-taken slot_filter items x slot (none ∷ rest) m st suffix =
        visit_outputs-taken slot_filter items x (slot + 1) rest m st
          (IsSuffix-next slot none rest items suffix)
    visit_outputs-taken slot_filter items x slot (some stack ∷ rest) m st suffix =
        let info = info_of F s entries m stack.item in
        let n = min_ℤ (info.needed -ℤ info.avail) stack.size in
        let later = IsSuffix-next slot (some stack) rest items suffix in
        let ih = λ (m' : AvailMap F).
          visit_outputs-taken slot_filter items x (slot + 1) rest m' st.1 later in
        let more = stored slot_filter x (slot + 1) rest in
        let there = stored_nonneg slot_filter x (slot + 1) rest st.1 in
        let put = λ (now : InputlessInfo). shortage-put_info stack.item x now m in
        elim (Bool-cases (is_allowed slot_filter slot)) [
          | inr e ↦ rw (e, visit_outputs, zero_add more) (ih m)
          | inl e ↦ elim (Bool-cases (item_eq F stack.item x)) [
            | inl same ↦
                let back : info_of F s entries m x ≡ info =
                  sym (info_of-same F s entries h m stack.item x same) in
                elim (Bool-cases (leb_ℤ n (pos 0))) [
                  | inl stop ↦
                      rw (e, same, stop, visit_outputs, back)
                        (ih (put_info F s entries stack.item info m)
                          ∙ ap (λ k. min_ℤ k more) (rw same at (put info))
                          ∙ keep_all info stack.size more st.0 there (leb_ℤ→le n (pos 0) stop))
                  | inr go ↦
                      let now : InputlessInfo = record info { avail = info.avail +ℤ n } in
                      rw
                        (
                          e,
                          same,
                          go,
                          visit_outputs,
                          back,
                          IsSuffix-head slot (some stack) rest items suffix,
                          share,
                          same,
                        )
                        (ap (λ k. n +ℤ k)
                            (ih (put_info F s entries stack.item now m)
                              ∙ ap (λ k. min_ℤ k more) (rw same at (put now)))
                          ∙ take_some info stack.size more st.0 there (leb_ℤ→lt n (pos 0) go))
                ]
            | inr other ↦ elim (Bool-cases (leb_ℤ n (pos 0))) [
              | inl stop ↦
                  rw (e, other, stop, visit_outputs, zero_add more)
                    (ih (put_info F s entries stack.item info m)
                      ∙ ap (λ k. min_ℤ k more) (rw other at (put info)))
              | inr go ↦
                  let now : InputlessInfo = record info { avail = info.avail +ℤ n } in
                  rw
                    (
                      e,
                      other,
                      go,
                      visit_outputs,
                      zero_add more,
                      IsSuffix-head slot (some stack) rest items suffix,
                      share,
                      other,
                    )
                    (zero_add _
                      ∙ ih (put_info F s entries stack.item now m)
                      ∙ ap (λ k. min_ℤ k more) (rw other at (put now)))
            ]
          ]
        ]

    -- Where the filters do not tell equal items apart and no stack is below nothing: of each item
    -- just as much goes out as is lacking, or all that the slots have that pass the filter, if that
    -- is less.
    pub inputless_outputs-taken :
        (slot_filter : Option (ℕ → Bool)) (items : Inventory Double) (x : Item Double)
        → AreStacks items
        → taken items x (inputless_outputs F s entries slot_filter items)
          ≡ min_ℤ (shortage (new_info F s entries x)) (stored slot_filter x 0 items)
    unfolding inputless_outputs info_of IsSuffix
    inputless_outputs-taken slot_filter items x st =
        visit_outputs-taken slot_filter items x 0 items [] st
          (λ i. let e : 0 + i ≡ i = omega arith in ap (λ j. get_elem? items j) e)
