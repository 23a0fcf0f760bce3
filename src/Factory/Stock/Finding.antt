-- ===== src/Factory/Stock/Finding.antt =====
-- What `items` has after a change of one of its values.
use ocremote.Base.{
  ◌≡◌, refl, sym, ◌∙◌, ap, inl, inr, true, false, some, List, [], ◌∷◌, Bool-cases, some_inj,
  if◌then◌else◌,
}
use ocremote.Serialize.Value.{Doubles}
use ocremote.Item.{Item, item_eq, item_eq_sym, item_eq_trans}
use ocremote.Factory.ItemInfo.{ItemInfo}
use ocremote.Factory.Stock.{find_info, modify_info}

module _ (F : Doubles) where
  open F use {Double}

  pub find_info-modify_info :
      (x item : Item Double) (info : ItemInfo) (f : ItemInfo → ItemInfo)
      (items : List (Item Double × ItemInfo))
      → find_info F item items ≡ some info
      → find_info F x (modify_info F item f items)
        ≡ (if item_eq F item x then some (f info) else find_info F x items)
  unfolding find_info modify_info
  find_info-modify_info x item info f [] h = cc
  find_info-modify_info x item info f ((key, i) ∷ rest) h = elim (Bool-cases (item_eq F key item)) [
    | inl e ↦ elim (Bool-cases (item_eq F key x)) [
      | inl t ↦
          let same : i ≡ info = some_inj (rw (e, find_info) at h) in
          rw (e, t, item_eq_trans F item key x (item_eq_sym F key item e) t)
            (ap (λ k. some (f k)) same)
      | inr t ↦ elim (Bool-cases (item_eq F item x)) [
        | inl g ↦ let h : true ≡ false = sym (item_eq_trans F key item x e g) ∙ t in cc
        | inr g ↦ rw (e, t, g) refl
      ]
    ]
    | inr e ↦
        let ih = find_info-modify_info x item info f rest (rw (e, find_info) at h) in
        elim (Bool-cases (item_eq F key x)) [
          | inl t ↦ elim (Bool-cases (item_eq F item x)) [
            | inl g ↦
                let h : true ≡ false =
                  sym (item_eq_trans F key x item t (item_eq_sym F item x g)) ∙ e in
                cc
            | inr g ↦ rw (e, t, g) refl
          ]
          | inr t ↦ rw (e, t) ih
        ]
  ]
