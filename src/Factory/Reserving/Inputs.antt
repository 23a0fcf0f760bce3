-- ===== src/Factory/Reserving/Inputs.antt =====
-- The reservations for the inputs of a recipe.
use ocremote.Base.{
  ℕ, ◌+◌, ◌*◌, ◌≡◌, ◌≢◌, refl, sym, ap, ◌∙◌, inl, inr, Bool, true, false, Option, none, some, List,
  [], ◌∷◌, All, arith, Bool-cases, Option-cases, some_inj, if◌then◌else◌,
}
use ocremote.Base.Int.{
  ℤ, pos, negsuc, ◌+ℤ◌, ◌-ℤ◌, ◌*ℤ◌, ◌≤ℤ◌, ◌<ℤ◌, int_laws, parts_eq, +ℤ_parts, pos_part, neg_part,
}
use ocremote.Serialize.Value.{Doubles}
use ocremote.Item.{Item, item_eq, item_eq_refl}
use ocremote.Factory.ItemInfo
use ocremote.Factory.ItemInfo.{ItemInfo, Reservation}
use ocremote.Factory.ItemInfo.Valid.{IsValid}
use ocremote.Factory.ItemInfo.Reserve.{reserve-Reserved}
use ocremote.Factory.Stock.{Stock, find_info, modify_info, get_avail}
use ocremote.Factory.Stock.Finding.{find_info-modify_info}
use ocremote.Factory.Demand.{RecipeIn}
use ocremote.Factory.Demand.Enough.{total, needs, find_info-same, mul_zero}
use ocremote.Factory.Reserving.{reserve, reserve_inputs}

mul_parts :
    (n : ℕ) (b : ℤ)
    → pos_part (pos n *ℤ b) + n * neg_part b ≡ neg_part (pos n *ℤ b) + n * pos_part b
unfolding ◌*ℤ◌
mul_parts n b = ground arith

mul_add : (n : ℤ) (a b : ℤ) → pos 0 ≤ℤ n → n *ℤ (a +ℤ b) ≡ (n *ℤ a) +ℤ (n *ℤ b)
mul_add (negsuc n) a b h = absurd (omega arith)
mul_add (pos n) a b h =
    let e : n * (pos_part (a +ℤ b) + neg_part a + neg_part b)
        ≡ n * (neg_part (a +ℤ b) + pos_part a + pos_part b) =
      ap (λ (t : ℕ). n * t) (+ℤ_parts a b) in
    grind (int_laws, mul_parts n a, mul_parts n b, mul_parts n (a +ℤ b), e)

mul_pos : (n a : ℤ) → pos 0 <ℤ n → pos 0 <ℤ a → pos 0 <ℤ n *ℤ a
unfolding ◌*ℤ◌
mul_pos (pos n) (pos a) h k = grind arith
mul_pos (negsuc n) a h k = absurd (omega arith)
mul_pos (pos n) (negsuc a) h k = absurd (omega arith)

mul_nonneg : (n a : ℤ) → pos 0 ≤ℤ n → pos 0 ≤ℤ a → pos 0 ≤ℤ n *ℤ a
unfolding ◌*ℤ◌
mul_nonneg (pos n) (pos a) h k = grind arith
mul_nonneg (negsuc n) a h k = absurd (omega arith)
mul_nonneg (pos n) (negsuc a) h k = absurd (omega arith)

pub mul_if :
    (n size rest : ℤ) (b : Bool)
    → pos 0 ≤ℤ n
    → n *ℤ ((if b then size else pos 0) +ℤ rest) ≡ (if b then n *ℤ size else pos 0) +ℤ (n *ℤ rest)
mul_if n size rest true h = mul_add n size rest h
mul_if n size rest false h =
    omega (int_laws, parts_eq (mul_add n (pos 0) rest h), parts_eq (mul_zero n))

module _ (F : Doubles) where
  open F use {Double}

  -- Every entry of the stock is valid, with no negative backup.
  abbrev pub IsSound : List (Item Double × ItemInfo) → Type 0
  IsSound items = All (λ e. IsValid e.1 × (pos 0 ≤ℤ e.1.n_backup)) items

  find_info-IsSound :
      (x : Item Double) (info : ItemInfo) (items : List (Item Double × ItemInfo))
      → IsSound items
      → find_info F x items ≡ some info
      → IsValid info × (pos 0 ≤ℤ info.n_backup)
  unfolding find_info
  find_info-IsSound x info [] h e = cc
  find_info-IsSound x info ((key, i) ∷ rest) h e = elim (Bool-cases (item_eq F key x)) [
    | inl t ↦ rw (sym (some_inj (rw (t, find_info) at e))) h.0
    | inr t ↦ find_info-IsSound x info rest h.1 (rw (t, find_info) at e)
  ]

  modify_info-IsSound :
      (item : Item Double) (left : ItemInfo) (items : List (Item Double × ItemInfo))
      → IsValid left × (pos 0 ≤ℤ left.n_backup)
      → IsSound items
      → IsSound (modify_info F item (λ _. left) items)
  unfolding modify_info
  modify_info-IsSound item left [] l h = tt
  modify_info-IsSound item left ((key, i) ∷ rest) l h = elim (Bool-cases (item_eq F key item)) [
    | inl e ↦ rw (e, modify_info) (l, h.1)
    | inr e ↦ rw (e, modify_info) (h.0, modify_info-IsSound item left rest l h.1)
  ]

  total-modify_info :
      (s : Stock F) (item x : Item Double) (info left : ItemInfo) (size : ℤ)
      → find_info F item s.items ≡ some info
      → left.n_avail ≡ info.n_avail -ℤ size
      → total F (record s { items = modify_info F item (λ _. left) s.items }) x
        ≡ total F s x -ℤ (if item_eq F item x then size else pos 0)
  unfolding get_avail ItemInfo.get_avail
  total-modify_info s item x info left size e taken = elim (Bool-cases (item_eq F item x)) [
    | inl same ↦
        let found : find_info F x s.items ≡ some info =
          sym (find_info-same F item x s.items same) ∙ e in
        rw (find_info-modify_info F x item info (λ _. left) s.items e, get_avail)
          (rw same (rw (found, get_avail) taken))
    | inr other ↦
        rw (find_info-modify_info F x item info (λ _. left) s.items e, get_avail)
          (rw other (omega int_laws))
  ]

  -- `size` of the item was reserved.
  record Takes (s : Stock F) (item : Item Double) (size : ℤ)
      (outcome : Option (Stock F × Reservation)) : Type 0 where
    left : Stock F
    shares : Reservation
    returned : outcome ≡ some (left, shares)
    sound : IsSound left.items
    rest :
        (x : Item Double)
        → total F left x ≡ total F s x -ℤ (if item_eq F item x then size else pos 0)

  reserve-Takes :
      (s : Stock F) (item : Item Double) (size : ℤ)
      → IsSound s.items
      → pos 0 <ℤ size
      → size ≤ℤ total F s item
      → Takes s item size (reserve F s item size)
  unfolding reserve get_avail ItemInfo.get_avail
  reserve-Takes s item size sound some_wanted enough =
      elim (Option-cases (find_info F item s.items)) [
        | inl e ↦ absurd (omega (arith, some_wanted, (rw (e, get_avail) at enough)))
        | inr (info, e) ↦
            let v = find_info-IsSound item info s.items sound e in
            let have : size ≤ℤ info.n_avail = rw (e, get_avail) at enough in
            let (left, shares, done, r) =
              reserve-Reserved info size v.0 (omega (arith, some_wanted)) have in
            record {
              left = record s { items = modify_info F item (λ _. left) s.items };
              shares = shares;
              returned = rw (e, reserve) (rw done refl);
              sound =
                  modify_info-IsSound item left s.items
                    (r.valid, omega (arith, parts_eq r.backup_kept, v.1)) sound;
              rest = λ x. total-modify_info s item x info left size e r.taken;
            }
      ]

  needs_nonneg :
      {U : Type 0} (x : Item Double) (items : List (Option (Item Double)))
      (ins : List (RecipeIn Double U))
      → All (λ i. pos 0 <ℤ i.size) ins
      → pos 0 ≤ℤ needs F x items ins
  unfolding needs
  needs_nonneg x [] ins h = omega arith
  needs_nonneg x (none ∷ items) [] h = omega arith
  needs_nonneg x (some y ∷ items) [] h = omega arith
  needs_nonneg x (none ∷ items) (i ∷ ins) h = needs_nonneg x items ins h.1
  needs_nonneg x (some y ∷ items) (i ∷ ins) h =
      let more = needs_nonneg x items ins h.1 in
      elim (Bool-cases (item_eq F y x)) [
        | inl e ↦ rw e (omega (int_laws, h.0, more))
        | inr e ↦ rw e (omega (int_laws, more))
      ]

  -- One set of the inputs was reserved `sets` times.
  pub record TakesAll {U : Type 0} (s : Stock F) (sets : ℤ) (items : List (Option (Item Double)))
      (ins : List (RecipeIn Double U)) (outcome : Option (Stock F × List Reservation))
      : Type 0 where
    pub left : Stock F
    pub shares : List Reservation
    pub returned : outcome ≡ some (left, shares)
    pub sound : IsSound left.items
    pub rest : (x : Item Double) → total F left x ≡ total F s x -ℤ (sets *ℤ needs F x items ins)

  -- In a sound stock, for a number of sets above zero, where no input is null, each needs at least
  -- one item, and of each item there is as much as the inputs for it need together: the
  -- reservations for the inputs, one after another, succeed, although they may be for the same item;
  -- they leave a sound stock, which has just so much less of each item.
  pub reserve_inputs-TakesAll :
      {U : Type 0} (sets : ℤ) (items : List (Option (Item Double))) (ins : List (RecipeIn Double U))
      (s : Stock F)
      → IsSound s.items
      → pos 0 <ℤ sets
      → All (λ item. item ≢ none) items
      → All (λ i. pos 0 <ℤ i.size) ins
      → ((x : Item Double) → sets *ℤ needs F x items ins ≤ℤ total F s x)
      → TakesAll s sets items ins (reserve_inputs F sets items ins s)
  unfolding reserve_inputs needs
  reserve_inputs-TakesAll sets [] ins s sound n there sizes enough = record {
    left = s;
    shares = [];
    returned = refl;
    sound = sound;
    rest = λ x. omega (int_laws, parts_eq (mul_zero sets));
  }
  reserve_inputs-TakesAll sets (some item ∷ items) [] s sound n there sizes enough = record {
    left = s;
    shares = [];
    returned = refl;
    sound = sound;
    rest = λ x. omega (int_laws, parts_eq (mul_zero sets));
  }
  reserve_inputs-TakesAll sets (none ∷ items) ins s sound n there sizes enough =
      absurd (there.0 refl)
  reserve_inputs-TakesAll sets (some item ∷ items) (i ∷ ins) s sound n there sizes enough =
      let n0 : pos 0 ≤ℤ sets = omega (arith, n) in
      let split =
        λ (x : Item Double). mul_if sets i.size (needs F x items ins) (item_eq F item x) n0 in
      let here : sets *ℤ (i.size +ℤ needs F item items ins) ≤ℤ total F s item =
        rw (item_eq_refl F item) at (enough item) in
      let t = reserve-Takes s item (sets *ℤ i.size) sound (mul_pos sets i.size n sizes.0) (
        omega (
          int_laws,
          here,
          parts_eq (mul_add sets i.size (needs F item items ins) n0),
          mul_nonneg sets (needs F item items ins) n0 (needs_nonneg item items ins sizes.1),
        )) in
      let r =
        reserve_inputs-TakesAll sets items ins t.left t.sound n there.1 sizes.1
          (λ x. omega (int_laws, parts_eq (split x), enough x, parts_eq (t.rest x))) in
      record {
        left = r.left;
        shares = t.shares ∷ r.shares;
        returned = rw (t.returned, reserve_inputs) (rw r.returned refl);
        sound = r.sound;
        rest = λ x. omega (int_laws, parts_eq (split x), parts_eq (t.rest x), parts_eq (r.rest x));
      }
