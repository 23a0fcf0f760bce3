-- ===== src/Item.antt =====
-- server/CPPImpl/Item.h and Item.cpp: items, stacks and the filters. `Insert` has the planning of
-- an insertion into an inventory, with its proofs below it, and `Codec` items as tables.
pub mod Insert
pub mod Codec
use ocremote.Base.{
  false, Bool-cases, inl, inr, ◌≡◌, ◌↔◌, Bool, true, not, ◌&&◌, Option, List, Text, arith, text_eq,
  text_eq_refl, text_eq_sound, sym, ◌∙◌, if◌then◌else◌,
}
use ocremote.Base.Int.{ℤ, eq_ℤ, eq_ℤ_sound}
use ocremote.Serialize.Value.{Doubles, Table}
use ocremote.Serialize.Equality.{table_eq, table_eq_refl, table_eq_sym, table_eq_trans}
use ocremote.Serialize.Same.{AreSameTables, table_eq-AreSameTables, AreSameTables-table_eq}

-- `int` is ℤ: where a sum leaves its range the behaviour of the source is undefined.
pub record Item (D : Type 0) : Type 0 where
  pub name : Text
  pub label : Text
  pub damage : ℤ
  pub max_damage : ℤ
  pub max_size : ℤ
  pub has_tag : Bool
  pub others : Table D

pub record ItemStack (D : Type 0) : Type 0 where
  pub item : Item D
  pub size : ℤ

-- A slot is null where it holds nothing.
abbrev pub Inventory : Type 0 → Type 0
Inventory D = List (Option (ItemStack D))

unfoldable pub bool_eq : Bool → Bool → Bool
bool_eq a b = if a then b else not b

-- The filters that are indexed by name or label, and those that are a function.
pub data ItemFilter (D : Type 0) : Type 0 where
  name : Text → ItemFilter D
  label : Text → ItemFilter D
  label_name : Text → Text → ItemFilter D
  fn : (Item D → Bool) → ItemFilter D

-- The virtual `filter`.
unfoldable pub matches : {D : Type 0} → ItemFilter D → Item D → Bool
matches (ItemFilter.name n) item = text_eq item.name n
matches (ItemFilter.label l) item = text_eq item.label l
matches (ItemFilter.label_name l n) item = text_eq item.label l && text_eq item.name n
matches (ItemFilter.fn f) item = f item

module _ (F : Doubles) where
  open F use {Double}

  -- operator== of Item. Two pointers to one item are equal too, as `item_eq_refl` has it.
  unfoldable pub item_eq : Item Double → Item Double → Bool
  unfolding bool_eq
  item_eq x y =
      text_eq x.name y.name
      && (text_eq x.label y.label
          && (eq_ℤ x.damage y.damage
              && (eq_ℤ x.max_damage y.max_damage
                  && (eq_ℤ x.max_size y.max_size
                      && (bool_eq x.has_tag y.has_tag && table_eq F x.others y.others)))))

  pub item_eq_refl : (x : Item Double) → item_eq x x ≡ true
  unfolding item_eq
  item_eq_refl x =
      ground (arith, text_eq_refl x.name, text_eq_refl x.label, table_eq_refl F x.others)

  -- Each field of the one is that of the other.
  pub record AreSame (x y : Item Double) : Type 0 where
    pub name : x.name ≡ y.name
    pub label : x.label ≡ y.label
    pub damage : x.damage ≡ y.damage
    pub max_damage : x.max_damage ≡ y.max_damage
    pub max_size : x.max_size ≡ y.max_size
    pub has_tag : x.has_tag ≡ y.has_tag
    pub others : AreSameTables F x.others y.others

  pub item_eq-AreSame : (x y : Item Double) → item_eq x y ≡ true → AreSame x y
  unfolding item_eq
  item_eq-AreSame x y h = record {
    name = text_eq_sound x.name y.name (ground arith);
    label = text_eq_sound x.label y.label (ground arith);
    damage = eq_ℤ_sound x.damage y.damage (ground arith);
    max_damage = eq_ℤ_sound x.max_damage y.max_damage (ground arith);
    max_size = eq_ℤ_sound x.max_size y.max_size (ground arith);
    has_tag = ground arith;
    others = table_eq-AreSameTables F x.others y.others (ground arith);
  }

  AreSame-item_eq : (x y : Item Double) → AreSame x y → item_eq x y ≡ true
  unfolding item_eq
  AreSame-item_eq x y h =
      rw
        (
          h.name,
          h.label,
          h.damage,
          h.max_damage,
          h.max_size,
          h.has_tag,
          AreSameTables-table_eq F h.others,
        )
        (ground (arith, text_eq_refl y.name, text_eq_refl y.label))

  -- operator== holds of two items exactly where they have the same name, label, damage, maximal
  -- damage and maximal stack size, both or none have a tag, and the tables of their other fields
  -- have, entry by entry and at every depth, the same alternatives with equal numbers, the same
  -- texts and the same truth values.
  pub item_eq_iff : (x y : Item Double) → (item_eq x y ≡ true) ↔ AreSame x y
  item_eq_iff x y = (item_eq-AreSame x y, AreSame-item_eq x y)

  pub item_eq_sym : (x y : Item Double) → item_eq x y ≡ true → item_eq y x ≡ true
  item_eq_sym x y h =
      let p = item_eq-AreSame x y h in
      AreSame-item_eq y x (record {
        name = sym p.name;
        label = sym p.label;
        damage = sym p.damage;
        max_damage = sym p.max_damage;
        max_size = sym p.max_size;
        has_tag = sym p.has_tag;
        others =
            table_eq-AreSameTables F y.others x.others
              (table_eq_sym F x.others y.others (AreSameTables-table_eq F p.others));
      })

  pub item_eq_trans :
      (x y z : Item Double) → item_eq x y ≡ true → item_eq y z ≡ true → item_eq x z ≡ true
  item_eq_trans x y z h k =
      let p = item_eq-AreSame x y h in
      let q = item_eq-AreSame y z k in
      AreSame-item_eq x z (record {
        name = p.name ∙ q.name;
        label = p.label ∙ q.label;
        damage = p.damage ∙ q.damage;
        max_damage = p.max_damage ∙ q.max_damage;
        max_size = p.max_size ∙ q.max_size;
        has_tag = p.has_tag ∙ q.has_tag;
        others = table_eq-AreSameTables F x.others z.others (
            table_eq_trans F x.others y.others z.others (AreSameTables-table_eq F p.others)
              (AreSameTables-table_eq F q.others));
      })

  -- Equal items equal the same items.
  pub item_eq-left : (a b x : Item Double) → item_eq a b ≡ true → item_eq a x ≡ item_eq b x
  item_eq-left a b x e = elim (Bool-cases (item_eq a x)) [
    | inl t ↦ t ∙ sym (item_eq_trans b a x (item_eq_sym a b e) t)
    | inr t ↦ elim (Bool-cases (item_eq b x)) [
      | inl u ↦ let no : true ≡ false = sym (item_eq_trans a b x e u) ∙ t in cc
      | inr u ↦ t ∙ sym u
    ]
  ]

  pub item_eq-right : (a x y : Item Double) → item_eq x y ≡ true → item_eq a x ≡ item_eq a y
  item_eq-right a x y e = elim (Bool-cases (item_eq a x)) [
    | inl t ↦ t ∙ sym (item_eq_trans a x y t e)
    | inr t ↦ elim (Bool-cases (item_eq a y)) [
      | inl u ↦ let no : true ≡ false = sym (item_eq_trans a y x u (item_eq_sym x y e)) ∙ t in cc
      | inr u ↦ t ∙ sym u
    ]
  ]
