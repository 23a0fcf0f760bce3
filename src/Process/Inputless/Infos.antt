-- ===== src/Process/Inputless/Infos.antt =====
-- What availMap has for equal items.
use ocremote.Base.{
  ◌≡◌, refl, sym, ◌∙◌, inl, inr, true, false, List, [], ◌∷◌, All, Bool-cases, if◌then◌else◌,
}
use ocremote.Base.Int.{ℤ, pos, max_ℤ}
use ocremote.Serialize.Value.{Doubles}
use ocremote.Item.{item_eq-left, item_eq-right, Item, matches, item_eq, item_eq_sym, item_eq_trans}
use ocremote.Factory.Stock.{Stock, get_avail}
use ocremote.Factory.Demand.Enough.{find_info-same}
use ocremote.Process.Inputless.{
  InputlessEntry, InputlessInfo, max_needed, AvailMap, new_info, info_of, put_info,
}

module _ (F : Doubles) where
  open F use {Double}

  -- The filters of the entries do not tell equal items apart.
  abbrev pub AreRespectful : List (InputlessEntry Double) → Type 0
  AreRespectful entries =
      All (λ e. (x y : Item Double) → item_eq F x y ≡ true → matches e.item x ≡ matches e.item y)
        entries

  max_needed-same :
      (entries : List (InputlessEntry Double)) (x y : Item Double) (n : ℤ)
      → AreRespectful entries
      → item_eq F x y ≡ true
      → max_needed F entries x n ≡ max_needed F entries y n
  unfolding max_needed
  max_needed-same [] x y n h e = refl
  max_needed-same (entry ∷ rest) x y n h e =
      rw (h.0 x y e)
        (max_needed-same rest x y (if matches entry.item y then max_ℤ n entry.needed else n) h.1 e)

  module _ (s : Stock F) (entries : List (InputlessEntry Double)) (h : AreRespectful entries) where
    pub info_of-same :
        (m : AvailMap F) (x y : Item Double)
        → item_eq F x y ≡ true
        → info_of F s entries m x ≡ info_of F s entries m y
    unfolding info_of new_info get_avail
    info_of-same [] x y e =
        rw (find_info-same F x y s.items e, get_avail)
          (rw (max_needed-same entries x y (pos 0) h e) refl)
    info_of-same ((key, info) ∷ rest) x y e = elim (Bool-cases (item_eq F key x)) [
      | inl t ↦ rw (t, item_eq_trans F key x y t e) refl
      | inr t ↦ elim (Bool-cases (item_eq F key y)) [
        | inl u ↦
            let g : item_eq F key x ≡ true = item_eq_trans F key y x u (item_eq_sym F x y e) in
            let no : true ≡ false = sym g ∙ t in cc
        | inr u ↦ rw (t, u) (info_of-same rest x y e)
      ]
    ]

    pub info_of-put_info :
        (item x : Item Double) (now : InputlessInfo) (m : AvailMap F)
        → info_of F s entries (put_info F s entries item now m) x
          ≡ (if item_eq F item x then now else info_of F s entries m x)
    unfolding info_of put_info
    info_of-put_info item x now [] = refl
    info_of-put_info item x now ((key, info) ∷ rest) =
        let ih = info_of-put_info item x now rest in
        elim (Bool-cases (item_eq F key item)) [
          | inl t ↦
              let same = item_eq-left F key item x t in
              elim (Bool-cases (item_eq F item x)) [
                | inl u ↦ rw (t, same, u) refl
                | inr u ↦ rw (t, same, u) refl
              ]
          | inr t ↦ elim (Bool-cases (item_eq F item x)) [
            | inl u ↦ rw (t, sym (item_eq-right F key item x u), t, u) (rw u at ih)
            | inr u ↦ rw (t, u) (rw (rw u at ih) refl)
          ]
        ]
