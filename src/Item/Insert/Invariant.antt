-- ===== src/Item/Insert/Invariant.antt =====
-- The invariant of the loop of `insertIntoInventory`.
use ocremote.Base.{
  ℕ, ◌≡◌, ◌≢◌, refl, sym, ap, ◌∙◌, inl, inr, false, not, ◌&&◌, Option, none, some, [], ◌∷◌, ◌++◌,
  append_assoc, length, get_elem?, get_elem?-middle, get_elem?-snoc, All, All-snoc, arith,
  Bool-cases,
}
use ocremote.Base.Int.{ℤ, pos, ◌+ℤ◌, ◌≤ℤ◌, is_zero, int_laws, parts_eq}
use ocremote.Serialize.Value.{Doubles}
use ocremote.Item.{Item, ItemStack, Inventory, item_eq}
use ocremote.Item.Insert.{Progress, to_proc, visit_stack, visit, place, or_else}
use ocremote.Item.Insert.Count.{
  units, count, Fits, Full, transfer, transfers, transfers-append, transfer-middle, count-append,
}
use ocremote.Item.Insert.Round.{Round, placed-Round, kept-Round}

module _ (F : Doubles) where
  open F use {Double}

  -- The loop invariant: `done` are the slots that were visited, as they are now.
  pub record Invariant (item : Item Double) (size : ℤ) (orig done rest : Inventory Double)
      (p : Progress) : Type 0 where
    pub nonneg : pos 0 ≤ℤ p.size
    pub at_most : p.size ≤ℤ size
    pub conserved : p.size +ℤ p.result.total_size ≡ size
    pub counted : count F item (done ++ rest) +ℤ p.size ≡ count F item orig +ℤ size
    pub fits_done : All (Fits F item) done
    pub fits_rest : All (Fits F item) rest
    pub full : is_zero p.size ≡ false → All (Full F item) done
    pub replay : transfers F item orig p.result.actions ≡ done ++ rest
    pub empty : (slot : ℕ) → p.first_empty_slot ≡ some slot → get_elem? done slot ≡ some none
    pub no_empty : p.first_empty_slot ≡ none → All (λ s. s ≢ none) done

  count-snoc :
      (item : Item Double) (done rest : Inventory Double) (s : Option (ItemStack Double))
      → count F item (done ++ s ∷ rest) ≡ count F item done +ℤ (units F item s +ℤ count F item rest)
  unfolding count
  count-snoc item done rest s = count-append F item done (s ∷ rest)

  -- The slots that were visited, one more.
  snoc :
      (done rest : Inventory Double) (s : Option (ItemStack Double))
      → (done ++ s ∷ []) ++ rest ≡ done ++ s ∷ rest
  snoc done rest s = append_assoc done (s ∷ []) rest

  Round-counted :
      (item : Item Double) (done rest orig : Inventory Double) (s s' : Option (ItemStack Double))
      (p p' : Progress) (size : ℤ)
      → Round F item (length done) s s' p p'
      → count F item (done ++ s ∷ rest) +ℤ p.size ≡ count F item orig +ℤ size
      → count F item ((done ++ s' ∷ []) ++ rest) +ℤ p'.size ≡ count F item orig +ℤ size
  Round-counted item done rest orig s s' p p' size r h =
      rw (snoc done rest s', count-snoc item done rest s')
        (omega (int_laws, parts_eq r.counted, parts_eq h, parts_eq (count-snoc item done rest s)))

  still_left : (a b : ℤ) → pos 0 ≤ℤ a → a ≤ℤ b → is_zero a ≡ false → is_zero b ≡ false
  still_left a b h k e = ground arith

  step-Invariant :
      (item : Item Double) (size : ℤ) (orig done rest : Inventory Double)
      (s s' : Option (ItemStack Double)) (p p' : Progress)
      → Invariant item size orig done (s ∷ rest) p
      → Round F item (length done) s s' p p'
      → transfers F item orig p'.result.actions ≡ done ++ s' ∷ rest
      → ((slot : ℕ)
          → p'.first_empty_slot ≡ some slot
          → get_elem? (done ++ s' ∷ []) slot ≡ some none)
      → (p'.first_empty_slot ≡ none → All (λ x. x ≢ none) (done ++ s' ∷ []))
      → Invariant item size orig (done ++ s' ∷ []) rest p'
  step-Invariant item size orig done rest s s' p p' v r replay empty no_empty = record {
    nonneg = r.bounds.0;
    at_most = omega (arith, v.at_most, r.bounds.1);
    conserved = r.conserved ∙ v.conserved;
    counted = Round-counted item done rest orig s s' p p' size r v.counted;
    fits_done = All-snoc (Fits F item) done s' v.fits_done r.fits;
    fits_rest = v.fits_rest.1;
    full = λ left.
        All-snoc (Full F item) done s'
          (v.full (still_left p'.size p.size r.bounds.0 r.bounds.1 left)) (r.full left);
    replay = replay ∙ sym (snoc done rest s');
    empty = empty;
    no_empty = no_empty;
  }

  -- At an empty slot.
  pub visit_empty-Invariant :
      (item : Item Double) (size : ℤ) (orig done rest : Inventory Double) (p : Progress)
      (first : Option ℕ)
      → p.first_empty_slot ≡ first
      → Invariant item size orig done (none ∷ rest) p
      → Invariant item size orig (done ++ none ∷ []) rest (visit F item (length done) none p).1
  unfolding visit
  visit_empty-Invariant item size orig done rest p first e v =
      step-Invariant item size orig done rest none none p _ v
        (record {
          fits = tt;
          bounds = (v.nonneg, omega arith);
          conserved = refl;
          counted = refl;
          full = λ _. tt;
        })
        v.replay (found first e) (missing first e)
    where
      found :
          (o : Option ℕ)
          → p.first_empty_slot ≡ o
          → (slot : ℕ) → or_else p.first_empty_slot (length done) ≡ some slot
          → get_elem? (done ++ none ∷ []) slot ≡ some none
      found none e slot h =
          let at : length done ≡ slot = ground arith in rw (← at) (get_elem?-middle done none [])
      found (some first) e slot h =
          get_elem?-snoc done none slot none (v.empty slot (e ∙ (rw e at h)))

      missing :
          (o : Option ℕ)
          → p.first_empty_slot ≡ o
          → or_else p.first_empty_slot (length done) ≡ none
          → All (λ x. x ≢ none) (done ++ none ∷ [])
      missing none e h = let f : or_else none (length done) ≡ none = rw e at h in cc
      missing (some first) e h = let f : or_else (some first) (length done) ≡ none = rw e at h in cc

  pub visit_stack-Invariant :
      (item : Item Double) (size : ℤ) (orig done rest : Inventory Double) (s : ItemStack Double)
      (p : Progress)
      → Invariant item size orig done (some s ∷ rest) p
      → let r = visit F item (length done) (some s) p in
        Invariant item size orig (done ++ r.0 ∷ []) rest r.1
  unfolding visit place
  visit_stack-Invariant item size orig done rest s p v =
      elim (Bool-cases (item_eq F s.item item && not (is_zero (to_proc F item p.size s)))) [
        | inl go ↦
            rw (go, visit_stack)
              (step-Invariant item size orig done rest (some s) _ p _ v
                (placed-Round F item (length done) s p (ground arith) (v.fits_rest.0 (ground arith))
                  v.nonneg)
                (transfers-append F item orig p.result.actions _
                  ∙ ap (λ t. transfer F item t (length done, to_proc F item p.size s)) v.replay
                  ∙ transfer-middle F item done rest s _)
                (λ slot h. get_elem?-snoc done _ slot none (v.empty slot h))
                (λ h. All-snoc _ done _ (v.no_empty h) (λ e. cc)))
        | inr stop ↦
            rw (stop, visit_stack)
              (step-Invariant item size orig done rest (some s) _ p _ v
                (kept-Round F item (length done) s p v.fits_rest.0 v.nonneg stop) v.replay
                (λ slot h. get_elem?-snoc done _ slot none (v.empty slot h))
                (λ h. All-snoc _ done _ (v.no_empty h) (λ e. cc)))
      ]
