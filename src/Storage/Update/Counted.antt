-- ===== src/Storage/Update/Counted.antt =====
-- What is available after an update.
use ocremote.Base.{
  ℕ, ◌+◌, ◌≡◌, refl, sym, ap, ◌∙◌, inl, inr, Option, none, some, List, [], ◌∷◌, ◌++◌, Bool-cases,
  Option-cases, if◌then◌else◌,
}
use ocremote.Base.Int.{zero_add, ℤ, pos, ◌+ℤ◌, is_zero, zero_parts, int_laws, eq_of_parts}
use ocremote.Serialize.Value.{Doubles}
use ocremote.Item.{Item, Inventory, item_eq, item_eq_refl, item_eq-right}
use ocremote.Factory.ItemInfo
use ocremote.Factory.ItemInfo.{ItemInfo, Provider}
use ocremote.Factory.Stock.{Stock, find_info, get_or_add_item_info, add_item_provider, get_avail}
use ocremote.Factory.Stock.Finding.{find_info-modify_info}
use ocremote.Factory.Demand.Enough.{total, find_info-same}
use ocremote.Storage.Update.{add_stacks}

add_provider-n_avail :
    (info : ItemInfo) (p : Provider)
    → (ItemInfo.add_provider info p).n_avail ≡ info.n_avail +ℤ p.avail
unfolding ItemInfo.add_provider
add_provider-n_avail info p = elim (Bool-cases (is_zero p.avail)) [
  | inl e ↦ rw e (eq_of_parts _ _ (omega (int_laws, zero_parts p.avail e)))
  | inr e ↦ rw e refl
]

add_comm : (m n : ℤ) → m +ℤ n ≡ n +ℤ m
add_comm m n = eq_of_parts _ _ (omega int_laws)

add_swap : (m n k : ℤ) → m +ℤ (n +ℤ k) ≡ (n +ℤ m) +ℤ k
add_swap m n k = eq_of_parts _ _ (omega int_laws)

module _ (F : Doubles) where
  open F use {Double}

  -- How much of an item is in an inventory.
  unfoldable pub count : Item Double → Inventory Double → ℤ
  count x [] = pos 0
  count x (none ∷ rest) = count x rest
  count x (some stack ∷ rest) =
      (if item_eq F stack.item x then stack.size else pos 0) +ℤ count x rest

  find_info-append :
      (x item : Item Double) (items : List (Item Double × ItemInfo)) (info : ItemInfo)
      → find_info F item items ≡ none
      → find_info F x (items ++ (item, info) ∷ [])
        ≡ (if item_eq F item x then some info else find_info F x items)
  unfolding find_info
  find_info-append x item [] info h = refl
  find_info-append x item ((key, i) ∷ rest) info h = elim (Bool-cases (item_eq F key item)) [
    | inl e ↦ let no = rw (e, find_info) at h in cc
    | inr e ↦
        let ih = find_info-append x item rest info (rw (e, find_info) at h) in
        elim (Bool-cases (item_eq F item x)) [
          | inl t ↦ rw (t, sym (item_eq-right F key item x t), e) (rw t at ih)
          | inr t ↦ rw (t, rw t at ih) refl
        ]
  ]

  amount : Option ItemInfo → ℤ
  amount none = pos 0
  amount (some info) = info.n_avail

  total-amount : (s : Stock F) (x : Item Double) → total F s x ≡ amount (find_info F x s.items)
  unfolding get_avail ItemInfo.get_avail amount
  total-amount s x = elim (Option-cases (find_info F x s.items)) [
    | inl e ↦ rw (e, get_avail) refl
    | inr (info, e) ↦ rw (e, get_avail) refl
  ]

  find_info-add_item_provider :
      (s : Stock F) (item x : Item Double) (p : Provider)
      → amount (find_info F x (add_item_provider F s item p).items)
        ≡ (if item_eq F item x then p.avail else pos 0) +ℤ amount (find_info F x s.items)
  unfolding add_item_provider get_or_add_item_info amount
  find_info-add_item_provider s item x p = elim (Option-cases (find_info F item s.items)) [
    | inl fresh ↦
        let f = λ (info : ItemInfo). ItemInfo.add_provider info p in
        let there =
          rw (item_eq_refl F item) at (find_info-append item item s.items ItemInfo.empty fresh) in
        let found =
          find_info-modify_info F x item ItemInfo.empty f (s.items ++ (item, ItemInfo.empty) ∷ [])
            there in
        elim (Bool-cases (item_eq F item x)) [
          | inl t ↦
              rw
                (
                  fresh,
                  get_or_add_item_info,
                  rw t at found,
                  t,
                  sym (find_info-same F item x s.items t),
                  fresh,
                )
                (add_provider-n_avail ItemInfo.empty p ∙ add_comm (pos 0) p.avail)
          | inr t ↦
              rw
                (
                  fresh,
                  get_or_add_item_info,
                  rw t at found,
                  t,
                  rw t at (find_info-append x item s.items ItemInfo.empty fresh),
                )
                (sym (zero_add _))
        ]
    | inr (info, e) ↦
        let f = λ (info : ItemInfo). ItemInfo.add_provider info p in
        let found = find_info-modify_info F x item info f s.items e in
        elim (Bool-cases (item_eq F item x)) [
          | inl t ↦
              rw
                (
                  e,
                  get_or_add_item_info,
                  rw t at found,
                  t,
                  sym (find_info-same F item x s.items t),
                  e,
                )
                (add_provider-n_avail info p ∙ add_comm info.n_avail p.avail)
          | inr t ↦ rw (e, get_or_add_item_info, rw t at found, t) (sym (zero_add _))
        ]
  ]

  -- After the update of a storage, of each item just as much more is available, the backup
  -- included, as the listed stacks have of it.
  pub add_stacks-total :
      (id_of : ℕ → ℕ) (priority_of : ℤ → ℤ) (slot : ℕ) (items : Inventory Double) (s : Stock F)
      (x : Item Double)
      → total F (add_stacks F id_of priority_of slot items s) x ≡ count x items +ℤ total F s x
  unfolding add_stacks count
  add_stacks-total id_of priority_of slot [] s x = sym (zero_add _)
  add_stacks-total id_of priority_of slot (none ∷ rest) s x =
      add_stacks-total id_of priority_of (slot + 1) rest s x
  add_stacks-total id_of priority_of slot (some stack ∷ rest) s x =
      let p : Provider = record {
        id = id_of slot;
        priority = priority_of stack.size;
        avail = stack.size;
      } in
      let s' = add_item_provider F s stack.item p in
      let one =
        total-amount s' x
        ∙ find_info-add_item_provider s stack.item x p
        ∙ ap (λ k. (if item_eq F stack.item x then stack.size else pos 0) +ℤ k)
            (sym (total-amount s x)) in
      add_stacks-total id_of priority_of (slot + 1) rest s' x
      ∙ ap (λ k. count x rest +ℤ k) one
      ∙ add_swap (count x rest) (if item_eq F stack.item x then stack.size else pos 0) (total F s x)
