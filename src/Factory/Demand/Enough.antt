-- ===== src/Factory/Demand/Enough.antt =====
-- What `resolveRecipeInputs` promises is there.
use ocremote.Base.{
  ◌≡◌, ◌≢◌, refl, sym, ◌∙◌, inl, inr, Bool, true, false, Option, none, some, List, [], ◌∷◌, ◌++◌,
  append-nil, append_assoc, map, All, All-map, arith, Bool-cases, Option-cases, if◌then◌else◌, not,
  ◌&&◌,
}
use ocremote.Base.Int.{
  div-mul, ℤ, pos, negsuc, ◌+ℤ◌, ◌-ℤ◌, ◌*ℤ◌, ◌≤ℤ◌, ◌<ℤ◌, div_ℤ, min_ℤ, int_laws, min_ℤ_parts,
  max_ℤ_parts, parts_eq,
}
use ocremote.Serialize.Value.{Doubles}
use ocremote.Item.{Item, item_eq, item_eq_sym, item_eq_trans}
use ocremote.Factory.ItemInfo
use ocremote.Factory.ItemInfo.{ItemInfo}
use ocremote.Factory.Stock.{Stock, find_info, get_avail, get_item}
use ocremote.Factory.Demand.{
  RecipeIn, AvailInfo, max_int, Resolution, input_avail, add_need, note_need, resolve_input,
  resolve_inputs, limit_sets, resolve,
}

pub mul_zero : (n : ℤ) → n *ℤ pos 0 ≡ pos 0
unfolding ◌*ℤ◌
mul_zero (pos n) = grind arith
mul_zero (negsuc n) = grind arith

module _ (F : Doubles) where
  open F use {Double}

  -- What is there of an item, the backup included.
  abbrev pub total : Stock F → Item Double → ℤ
  total s x = get_avail F s (some x) true

  abbrev pub IsNonNegative : ItemInfo → Type 0
  IsNonNegative info = (pos 0 ≤ℤ info.n_avail) × (pos 0 ≤ℤ info.n_backup)

  abbrev pub IsStocked : Stock F → Type 0
  IsStocked s = All (λ e. IsNonNegative e.1) s.items

  pub find_info-same :
      (x y : Item Double) (items : List (Item Double × ItemInfo))
      → item_eq F x y ≡ true
      → find_info F x items ≡ find_info F y items
  unfolding find_info
  find_info-same x y [] h = refl
  find_info-same x y ((key, info) ∷ rest) h = elim (Bool-cases (item_eq F key x)) [
    | inl e ↦ rw (e, item_eq_trans F key x y e h) refl
    | inr e ↦ elim (Bool-cases (item_eq F key y)) [
      | inl f ↦
          let g : item_eq F key x ≡ true = item_eq_trans F key y x f (item_eq_sym F x y h) in
          let same : true ≡ false = sym g ∙ e in cc
      | inr f ↦ rw (e, f) (find_info-same x y rest h)
    ]
  ]

  total-same : (s : Stock F) (x y : Item Double) → item_eq F x y ≡ true → total s x ≡ total s y
  unfolding get_avail
  total-same s x y h = rw (find_info-same x y s.items h, get_avail) refl

  find_info-IsNonNegative :
      (x : Item Double) (items : List (Item Double × ItemInfo)) (info : ItemInfo)
      → All (λ e. IsNonNegative e.1) items
      → find_info F x items ≡ some info
      → IsNonNegative info
  unfolding find_info
  find_info-IsNonNegative x [] info h e = cc
  find_info-IsNonNegative x ((key, i) ∷ rest) info h e = elim (Bool-cases (item_eq F key x)) [
    | inl t ↦
        let f : some i ≡ some info = rw (t, find_info) at e in
        let g : i ≡ info = cc in rw (sym g) h.0
    | inr t ↦ find_info-IsNonNegative x rest info h.1 (rw (t, find_info) at e)
  ]

  -- With or without the backup, an item has between nothing and all of what is there.
  get_avail_bounds :
      (s : Stock F) (x : Item Double) (allow : Bool)
      → IsStocked s
      → (pos 0 ≤ℤ total s x) × (get_avail F s (some x) allow ≤ℤ total s x)
  unfolding get_avail ItemInfo.get_avail
  get_avail_bounds s x allow h = elim (Option-cases (find_info F x s.items)) [
    | inl e ↦ rw (e, get_avail) (omega arith)
    | inr (info, e) ↦
        let v = find_info-IsNonNegative x s.items info h e in
        rw (e, get_avail) (bounds info allow v)
  ]
    where
      bounds :
          (info : ItemInfo) (allow : Bool)
          → (pos 0 ≤ℤ info.n_avail) × (pos 0 ≤ℤ info.n_backup)
          → (pos 0 ≤ℤ ItemInfo.get_avail info true)
            × (ItemInfo.get_avail info allow ≤ℤ ItemInfo.get_avail info true)
      bounds info true v = (v.0, omega arith)
      bounds info false v =
          (v.0, omega (int_laws, v.0, v.1, max_ℤ_parts (pos 0) (info.n_avail -ℤ info.n_backup)))

  -- How much of an item one set of the inputs needs.
  unfoldable pub needs :
      {U : Type 0} → Item Double → List (Option (Item Double)) → List (RecipeIn Double U) → ℤ
  needs x (some y ∷ ys) (i ∷ is) = (if item_eq F y x then i.size else pos 0) +ℤ needs x ys is
  needs x (none ∷ ys) (i ∷ is) = needs x ys is
  needs x ys is = pos 0

  asked : Item Double → List (Item Double × AvailInfo) → ℤ
  asked x [] = pos 0
  asked x ((key, info) ∷ rest) = if item_eq F key x then info.needed else asked x rest

  abbrev IsCovered : Stock F → Item Double × AvailInfo → Type 0
  IsCovered s (key, info) =
      (pos 0 <ℤ info.needed) × (pos 0 ≤ℤ info.avail) × (info.avail ≤ℤ total s key)

  limit_sets-le :
      (avails : List (Item Double × AvailInfo)) (n : ℤ)
      → (limit_sets F avails n ≤ℤ n)
        × All (λ e. limit_sets F avails n ≤ℤ div_ℤ e.1.avail e.1.needed) avails
  unfolding limit_sets
  limit_sets-le [] n = (omega arith, tt)
  limit_sets-le ((item, info) ∷ rest) n =
      let m = min_ℤ_parts n (div_ℤ info.avail info.needed) in
      let more = limit_sets-le rest (min_ℤ n (div_ℤ info.avail info.needed)) in
      (omega (arith, m, more.0), (omega (arith, m, more.0), more.1))

  -- So many sets of what was asked are there.
  asked-covered :
      (s : Stock F) (x : Item Double) (n : ℤ) (avails : List (Item Double × AvailInfo))
      → IsStocked s
      → pos 0 ≤ℤ n
      → All (IsCovered s) avails
      → All (λ e. n ≤ℤ div_ℤ e.1.avail e.1.needed) avails
      → n *ℤ asked x avails ≤ℤ total s x
  unfolding asked
  asked-covered s x n [] stocked hn h k =
      rw (mul_zero n) (omega (arith, (get_avail_bounds s x true stocked).0))
  asked-covered s x n ((key, info) ∷ rest) stocked hn h k = elim (Bool-cases (item_eq F key x)) [
    | inl e ↦
        let one = div-mul n info.avail info.needed hn h.0.1 h.0.0 k.0 in
        rw e (omega (arith, one, h.0.2, parts_eq (total-same s key x e)))
    | inr e ↦ rw e (asked-covered s x n rest stocked hn h.1 k.1)
  ]

module _ (F : Doubles) {U : Type 0} (s : Stock F) (stocked : IsStocked F s) where
  open F use {Double}

  input_avail_bounds :
      (item : Item Double) (i : RecipeIn Double U)
      → pos 0 ≤ℤ i.extra_backup
      → (pos 0 ≤ℤ input_avail F s item i) × (input_avail F s item i ≤ℤ total F s item)
  unfolding input_avail
  input_avail_bounds item i h =
      let b = get_avail_bounds F s item i.allow_backup stocked in
      let m = max_ℤ_parts (pos 0) (get_avail F s (some item) i.allow_backup -ℤ i.extra_backup) in
      (omega (int_laws, m), omega (int_laws, m, b.0, b.1, h))

  add_need-IsCovered :
      (key item : Item Double) (i : RecipeIn Double U) (info : AvailInfo)
      → item_eq F key item ≡ true
      → pos 0 <ℤ i.size
      → pos 0 ≤ℤ i.extra_backup
      → IsCovered F s (key, info)
      → IsCovered F s (key, add_need F s item i info)
  unfolding add_need
  add_need-IsCovered key item i info e size extra h =
      elim (Bool-cases (info.allow_backup && not i.allow_backup)) [
        | inl strict ↦
            let b = input_avail_bounds item i extra in
            let t = parts_eq (total-same F s key item e) in
            rw strict (omega (int_laws, h.0, size), b.0, omega (arith, b.1, t))
        | inr same ↦ rw same (omega (int_laws, h.0, size), h.1, h.2)
      ]

  note_need-IsCovered :
      (item : Item Double) (i : RecipeIn Double U) (avails : List (Item Double × AvailInfo))
      → pos 0 <ℤ i.size
      → pos 0 ≤ℤ i.extra_backup
      → All (IsCovered F s) avails
      → All (IsCovered F s) (note_need F s item i avails)
  unfolding note_need
  note_need-IsCovered item i [] size extra h =
      let b = input_avail_bounds item i extra in ((size, b.0, b.1), tt)
  note_need-IsCovered item i ((key, info) ∷ rest) size extra h =
      elim (Bool-cases (item_eq F key item)) [
        | inl e ↦ rw (e, note_need) (add_need-IsCovered key item i info e size extra h.0, h.1)
        | inr e ↦ rw (e, note_need) (h.0, note_need-IsCovered item i rest size extra h.1)
      ]

  abbrev need_of : Item Double → Item Double → RecipeIn Double U → ℤ
  need_of x item i = if item_eq F item x then i.size else pos 0

  asked-note_need :
      (x item : Item Double) (i : RecipeIn Double U) (avails : List (Item Double × AvailInfo))
      → asked F x (note_need F s item i avails) ≡ asked F x avails +ℤ need_of x item i
  unfolding note_need asked add_need
  asked-note_need x item i [] = elim (Bool-cases (item_eq F item x)) [
    | inl e ↦ rw e (omega int_laws)
    | inr e ↦ rw e (omega int_laws)
  ]
  asked-note_need x item i ((key, info) ∷ rest) = elim (Bool-cases (item_eq F key item)) [
    | inl e ↦ elim (Bool-cases (item_eq F key x)) [
      | inl f ↦
          let g = item_eq_trans F item key x (item_eq_sym F key item e) f in
          rw (e, note_need) (rw (f, g) refl)
      | inr f ↦ elim (Bool-cases (item_eq F item x)) [
        | inl g ↦ let h : true ≡ false = sym (item_eq_trans F key item x e g) ∙ f in cc
        | inr g ↦ rw (e, note_need) (rw (f, g) (omega int_laws))
      ]
    ]
    | inr e ↦ elim (Bool-cases (item_eq F key x)) [
      | inl f ↦ elim (Bool-cases (item_eq F item x)) [
        | inl g ↦
            let h : true ≡ false =
              sym (item_eq_trans F key x item f (item_eq_sym F item x g)) ∙ e in
            cc
        | inr g ↦ rw (e, note_need) (rw (f, g) (omega int_laws))
      ]
      | inr f ↦ rw (e, note_need) (rw f (asked-note_need x item i rest))
    ]
  ]

  IsInput : RecipeIn Double U → Type 0
  IsInput i = (pos 0 <ℤ i.size) × (pos 0 ≤ℤ i.extra_backup)

  -- What the loop over `ins` adds to the variables.
  record Resolves (clip : Bool) (ins : List (RecipeIn Double U)) (r r' : Resolution F)
      : Type 0 where
    found : r'.inputs ≡ r.inputs ++ map (λ i. get_item F s i.item) ins
    covered : All (IsCovered F s) r'.avails
    counted :
        (x : Item Double)
        → asked F x r'.avails
          ≡ asked F x r.avails +ℤ needs F x (map (λ i. get_item F s i.item) ins) ins
    fewer : pos 0 <ℤ r'.in_avail → r'.in_avail ≤ℤ r.in_avail
    missing : pos 0 <ℤ r'.in_avail → All (λ item. item ≢ none) (map (λ i. get_item F s i.item) ins)

  resolve_inputs-Resolves :
      (clip : Bool) (ins : List (RecipeIn Double U)) (r : Resolution F)
      → All IsInput ins
      → All (IsCovered F s) r.avails
      → Resolves clip ins r (resolve_inputs F s clip ins r)
  unfolding resolve_inputs needs IsInput
  resolve_inputs-Resolves clip [] r h c = record {
    found = sym (append-nil r.inputs);
    covered = c;
    counted = λ x. omega int_laws;
    fewer = λ _. omega arith;
    missing = λ _. tt;
  }
  resolve_inputs-Resolves clip (i ∷ rest) r h c = elim (Option-cases (get_item F s i.item)) [
    | inl e ↦
        let r1 = record r { inputs = r.inputs ++ none ∷ []; in_avail = pos 0 } in
        let l = resolve_inputs-Resolves clip rest r1 h.1 c in
        rw (e, resolve_input)
          (record {
            found =
                rw e (
                  l.found
                  ∙ append_assoc r.inputs (none ∷ []) (map (λ i. get_item F s i.item) rest));
            covered = l.covered;
            counted = λ x. rw (e, needs) (l.counted x);
            fewer = λ p. absurd (omega (arith, p, l.fewer p));
            missing = λ p. absurd (omega (arith, p, l.fewer p));
          })
    | inr (item, e) ↦
        let n1 = if clip then min_ℤ r.in_avail (div_ℤ item.max_size i.size) else r.in_avail in
        let fewer1 : n1 ≤ℤ r.in_avail = clipped clip r.in_avail (div_ℤ item.max_size i.size) in
        let r1 : Resolution F = record {
          inputs = r.inputs ++ some item ∷ [];
          avails = note_need F s item i r.avails;
          in_avail = n1;
        } in
        let l =
          resolve_inputs-Resolves clip rest r1 h.1
            (note_need-IsCovered item i r.avails h.0.0 h.0.1 c) in
        rw (e, resolve_input)
          (record {
            found = rw e (
                l.found
                ∙ append_assoc r.inputs (some item ∷ []) (map (λ i. get_item F s i.item) rest));
            covered = l.covered;
            counted = λ x.
                rw (e, needs)
                  (omega (
                    int_laws,
                    parts_eq (l.counted x),
                    parts_eq (asked-note_need x item i r.avails),
                  ));
            fewer = λ p. omega (arith, l.fewer p, fewer1);
            missing = λ p. rw e ((λ z. cc), l.missing p);
          })
  ]
    where
      clipped : (clip : Bool) (n m : ℤ) → (if clip then min_ℤ n m else n) ≤ℤ n
      clipped true n m = omega (arith, min_ℤ_parts n m)
      clipped false n m = omega arith

  -- In a stock where no count is below nothing, with inputs of at least one item and no negative
  -- backup: `resolveRecipeInputs` of a fresh demand leaves the item that `getItem` finds for each
  -- input; if some set is possible, no input is without an item; and of each item there is as much,
  -- the backup included, as the inputs for it need together for the sets that are possible, or for
  -- fewer sets.
  pub resolve-enough :
      (clip : Bool) (ins : List (RecipeIn Double U))
      → All (λ i. (pos 0 <ℤ i.size) × (pos 0 ≤ℤ i.extra_backup)) ins
      → let (items, in_avail) = resolve F s clip ins [] in
        (items ≡ map (λ i. get_item F s i.item) ins)
        × (pos 0 <ℤ in_avail → All (λ item. item ≢ none) items)
        × ((x : Item Double) (sets : ℤ)
            → pos 0 ≤ℤ sets
            → sets ≤ℤ in_avail
            → sets *ℤ needs F x items ins ≤ℤ total F s x)
  unfolding resolve IsInput asked
  resolve-enough clip ins h =
      let start : Resolution F = record { inputs = []; in_avail = max_int; avails = [] } in
      let l = resolve_inputs-Resolves clip ins start h tt in
      let r = resolve_inputs F s clip ins start in
      let limit = limit_sets-le F r.avails r.in_avail in
      (
        l.found,
        λ p. rw l.found (l.missing (omega (arith, p, limit.0))),
        λ x sets n k.
            let same : asked F x r.avails ≡ needs F x r.inputs ins =
              rw l.found (l.counted x ∙ omega int_laws) in
            rw (sym same) (
              asked-covered F s x sets r.avails stocked n l.covered (
                All-map _ (λ e. sets ≤ℤ div_ℤ e.1.avail e.1.needed) r.avails
                  (λ e m. omega (arith, k, m)) limit.1)),
      )
