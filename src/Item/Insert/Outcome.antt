-- ===== src/Item/Insert/Outcome.antt =====
-- What `insertIntoInventory` promises to its callers.
use mathlib.Core.Bool.{false≢true}
use ocremote.Base.{
  ℕ, zero, suc, ◌+◌, ◌≡◌, ◌≢◌, refl, sym, ap, ◌∙◌, ◌⊎◌, inl, inr, true, false, Option, none, some,
  List, [], ◌∷◌, ◌++◌, append-nil, append_assoc, length, length-append, get_elem?, set, All, arith,
  Bool-cases,
}
use ocremote.Base.Int.{
  ℤ, pos, ◌+ℤ◌, ◌≤ℤ◌, ◌<ℤ◌, min_ℤ, is_zero, int_laws, zero_parts, parts_eq, min_ℤ_parts,
}
use ocremote.Serialize.Value.{Doubles}
use ocremote.Item.{Item, Inventory, item_eq_refl}
use ocremote.Item.Insert.{Progress, start, visit, scan, fill_empty, insert, place}
use ocremote.Item.Insert.Count.{count, Fits, Full, transfers, transfer, transfers-append}
use ocremote.Item.Insert.Invariant.{Invariant, visit_empty-Invariant, visit_stack-Invariant}

module _ (F : Doubles) where
  open F use {Double}

  visit-Invariant :
      (item : Item Double) (size : ℤ) (orig done rest : Inventory Double) (s : _) (p : Progress)
      → Invariant F item size orig done (s ∷ rest) p
      → let r = visit F item (length done) s p in
        Invariant F item size orig (done ++ r.0 ∷ []) rest r.1
  unfolding visit
  visit-Invariant item size orig done rest none p v =
      visit_empty-Invariant F item size orig done rest p p.first_empty_slot refl v
  visit-Invariant item size orig done rest (some s) p v =
      visit_stack-Invariant F item size orig done rest s p v

  -- Where the loop stops: something is known of the slots that it visited.
  record Stopped (item : Item Double) (size : ℤ) (orig whole : Inventory Double) (p : Progress)
      : Type 0 where
    done : Inventory Double
    rest : Inventory Double
    split : whole ≡ done ++ rest
    invariant : Invariant F item size orig done rest p
    ended : (is_zero p.size ≡ true) ⊎ (rest ≡ [])

  scan-Stopped :
      (item : Item Double) (size : ℤ) (orig done rest : Inventory Double) (slot : ℕ) (p : Progress)
      → slot ≡ length done
      → Invariant F item size orig done rest p
      → let r = scan F item slot rest p in Stopped item size orig (done ++ r.0) r.1
  unfolding scan
  scan-Stopped item size orig done [] slot p e v = record {
    done = done;
    rest = [];
    split = refl;
    invariant = v;
    ended = inr refl;
  }
  scan-Stopped item size orig done (s ∷ rest) slot p e v = elim (Bool-cases (is_zero p.size)) [
    | inl stop ↦
        rw stop
          (record { done = done; rest = s ∷ rest; split = refl; invariant = v; ended = inl stop })
    | inr go ↦
        let r = visit F item slot s p in
        let next : Invariant F item size orig (done ++ r.0 ∷ []) rest r.1 =
          rw e (visit-Invariant item size orig done rest s p v) in
        let later =
          scan-Stopped item size orig (done ++ r.0 ∷ []) rest (slot + 1) r.1
            (omega (arith, e, length-append done (r.0 ∷ []))) next in
        rw go (rw (append_assoc done (r.0 ∷ []) _) at later)
  ]

  start-Invariant :
      (item : Item Double) (size : ℤ) (inventory : Inventory Double)
      → pos 0 ≤ℤ size
      → pos 0 ≤ℤ item.max_size
      → All (Fits F item) inventory
      → Invariant F item (min_ℤ size item.max_size) inventory [] inventory (start F item size)
  unfolding transfers
  start-Invariant item size inventory h k fits = record {
    nonneg = omega (arith, min_ℤ_parts size item.max_size);
    at_most = omega arith;
    conserved = omega int_laws;
    counted = refl;
    fits_done = tt;
    fits_rest = fits;
    full = λ _. tt;
    replay = refl;
    empty = λ slot e. cc;
    no_empty = λ _. tt;
  }

  All-append {ℓ} :
      (P : _ → Type ℓ) (xs ys : Inventory Double) → All P xs → All P ys → All P (xs ++ ys)
  All-append P [] ys h k = k
  All-append P (x ∷ xs) ys h k = (h.0, All-append P xs ys h.1 k)

  All-set :
      (item : Item Double) (xs : Inventory Double) (slot : ℕ) (v : _)
      → All (Fits F item) xs
      → Fits F item v
      → All (Fits F item) (set xs slot v)
  All-set item [] slot v h k = tt
  All-set item (x ∷ xs) zero v h k = (k, h.1)
  All-set item (x ∷ xs) (suc slot) v h k = (h.0, All-set item xs slot v h.1 k)

  count-set :
      (item : Item Double) (xs : Inventory Double) (slot : ℕ) (n : ℤ)
      → get_elem? xs slot ≡ some none
      → count F item (set xs slot (some (record { item = item; size = n }))) ≡ count F item xs +ℤ n
  unfolding count
  count-set item [] slot n h = cc
  count-set item (none ∷ xs) zero n h = rw (item_eq_refl F item) (omega int_laws)
  count-set item (some s ∷ xs) zero n h = cc
  count-set item (x ∷ xs) (suc slot) n h = omega (int_laws, parts_eq (count-set item xs slot n h))

  -- What the callers of the insertion rely on.
  pub record Placed (item : Item Double) (size : ℤ) (before after : Inventory Double) (total : ℤ)
      (actions : List (ℕ × ℤ)) : Type 0 where
    pub bounds : (pos 0 ≤ℤ total) × (total ≤ℤ min_ℤ size item.max_size)
    pub counted : count F item after ≡ count F item before +ℤ total
    pub fits : All (Fits F item) after
    pub planned : transfers F item before actions ≡ after
    pub exhausted :
        total <ℤ min_ℤ size item.max_size → All (Full F item) after × All (λ s. s ≢ none) after

  -- The loop came to its end with nothing left to place.
  Placed-done :
      (item : Item Double) (size : ℤ) (before whole : Inventory Double) (p : Progress)
      → Stopped item (min_ℤ size item.max_size) before whole p
      → is_zero p.size ≡ true
      → Placed item size before whole p.result.total_size p.result.actions
  Placed-done item size before whole p st z =
      let v = st.invariant in
      let zero_size = zero_parts p.size z in
      record {
        bounds = (
          omega (int_laws, parts_eq v.conserved, v.at_most),
          omega (int_laws, parts_eq v.conserved, v.nonneg),
        );
        counted =
            rw st.split (omega (int_laws, parts_eq v.counted, parts_eq v.conserved, zero_size));
        fits = rw st.split (All-append (Fits F item) st.done st.rest v.fits_done v.fits_rest);
        planned = v.replay ∙ sym st.split;
        exhausted = λ less. absurd (omega (int_laws, parts_eq v.conserved, zero_size, less));
      }

  -- Every slot was visited and none is empty.
  Placed-full :
      (item : Item Double) (size : ℤ) (before whole : Inventory Double) (p : Progress)
      → Invariant F item (min_ℤ size item.max_size) before whole [] p
      → is_zero p.size ≡ false
      → p.first_empty_slot ≡ none
      → Placed item size before whole p.result.total_size p.result.actions
  Placed-full item size before whole p v z e =
      let w = append-nil whole in
      record {
        bounds = (
          omega (int_laws, parts_eq v.conserved, v.at_most),
          omega (int_laws, parts_eq v.conserved, v.nonneg),
        );
        counted =
            let c : count F item whole +ℤ p.size ≡ count F item before +ℤ min_ℤ size item.max_size =
              rw w at v.counted in
            omega (int_laws, parts_eq c, parts_eq v.conserved);
        fits = v.fits_done;
        planned = v.replay ∙ w;
        exhausted = λ _. (v.full z, v.no_empty e);
      }

  -- Every slot was visited, and the rest goes to an empty one.
  Placed-fill :
      (item : Item Double) (size : ℤ) (before whole : Inventory Double) (p : Progress) (slot : ℕ)
      → Invariant F item (min_ℤ size item.max_size) before whole [] p
      → p.first_empty_slot ≡ some slot
      → let q = place F slot p.size p in
        Placed item size before
          (set whole slot (some (record { item = item; size = p.size })))
          q.result.total_size
          q.result.actions
  unfolding place transfer
  Placed-fill item size before whole p slot v e =
      let w = append-nil whole in
      let at = v.empty slot e in
      record {
        bounds = (
          omega (int_laws, parts_eq v.conserved, v.at_most, v.nonneg),
          omega (int_laws, parts_eq v.conserved, v.nonneg),
        );
        counted =
            let c : count F item whole +ℤ p.size ≡ count F item before +ℤ min_ℤ size item.max_size =
              rw w at v.counted in
            rw (count-set item whole slot p.size at)
              (omega (int_laws, parts_eq c, parts_eq v.conserved));
        fits =
            All-set item whole slot _ v.fits_done
              (λ _. omega (int_laws, v.at_most, min_ℤ_parts size item.max_size));
        planned =
            transfers-append F item before p.result.actions (slot, p.size)
            ∙ ap (λ t. transfer F item t (slot, p.size)) (v.replay ∙ w)
            ∙ rw (at, transfer);
        exhausted = λ less. absurd (omega (int_laws, parts_eq v.conserved, less));
      }

  all_visited :
      (item : Item Double) (size : ℤ) (before whole : Inventory Double) (p : Progress)
      → Stopped item size before whole p
      → is_zero p.size ≡ false
      → Invariant F item size before whole [] p
  all_visited item size before whole p st z = elim st.ended [
    | inl y ↦ absurd (false≢true (sym z ∙ y))
    | inr nothing ↦
        let e : whole ≡ st.done = st.split ∙ ap (◌++◌ st.done) nothing ∙ append-nil st.done in
        let v : Invariant F item size before st.done [] p = rw nothing at st.invariant in rw e v
  ]

  Placed-insert :
      (item : Item Double) (size : ℤ) (before whole : Inventory Double) (p : Progress)
      → Stopped item (min_ℤ size item.max_size) before whole p
      → (first : Option ℕ) → p.first_empty_slot ≡ first
      → is_zero p.size ≡ false
      → let (filled, q) = fill_empty F item whole p in
        Placed item size before filled q.result.total_size q.result.actions
  unfolding fill_empty
  Placed-insert item size before whole p st none e z =
      rw (e, fill_empty)
        (Placed-full item size before whole p (all_visited item _ before whole p st z) z e)
  Placed-insert item size before whole p st (some slot) e z =
      rw (e, fill_empty)
        (Placed-fill item size before whole p slot (all_visited item _ before whole p st z) e)

  -- A plan to insert `size` of an item into an inventory in which no stack of the item is too
  -- large: it places between nothing and the smaller of `size` and one full stack; the inventory
  -- holds as much more of the item; no stack becomes too large; carrying out the planned transfers
  -- gives just the new inventory; and if less was placed, then no slot is left empty and every
  -- stack of the item is full.
  pub insert-Placed :
      (inventory : Inventory Double) (item : Item Double) (size : ℤ)
      → pos 0 ≤ℤ size
      → pos 0 ≤ℤ item.max_size
      → All (Fits F item) inventory
      → let (after, result) = insert F inventory item size in
        Placed item size inventory after result.total_size result.actions
  unfolding insert
  insert-Placed inventory item size h k fits =
      let st =
        scan-Stopped item (min_ℤ size item.max_size) inventory [] inventory 0 (start F item size)
          refl (start-Invariant item size inventory h k fits) in
      let (whole, p) = scan F item 0 inventory (start F item size) in
      elim (Bool-cases (is_zero p.size)) [
        | inl z ↦ rw z (Placed-done item size inventory whole p st z)
        | inr z ↦ rw z (Placed-insert item size inventory whole p st p.first_empty_slot refl z)
      ]
