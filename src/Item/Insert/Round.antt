-- ===== src/Item/Insert/Round.antt =====
-- One round of the loop of `insertIntoInventory`.
use ocremote.Base.{ℕ, ◌≡◌, refl, true, false, not, ◌&&◌, Option, some, arith}
use ocremote.Base.Int.{
  ℤ, pos, ◌+ℤ◌, ◌-ℤ◌, ◌≤ℤ◌, min_ℤ, min_ℤ_parts, is_zero, int_laws, -ℤ_parts, not_zero_parts,
}
use ocremote.Serialize.Value.{Doubles}
use ocremote.Item.{Item, ItemStack, item_eq}
use ocremote.Item.Insert.{Progress, to_proc, place}
use ocremote.Item.Insert.Count.{units, Fits, Full}

module _ (F : Doubles) where
  open F use {Double}

  -- One round keeps the units F of the slot and the rest to place together, and plans what it did.
  pub record Round (item : Item Double) (slot : ℕ) (s s' : Option (ItemStack Double))
      (p p' : Progress) : Type 0 where
    pub fits : Fits F item s'
    pub bounds : (pos 0 ≤ℤ p'.size) × (p'.size ≤ℤ p.size)
    pub conserved : p'.size +ℤ p'.result.total_size ≡ p.size +ℤ p.result.total_size
    pub counted : units F item s' +ℤ p'.size ≡ units F item s +ℤ p.size
    pub full : is_zero p'.size ≡ false → Full F item s'

  pub placed-Round :
      (item : Item Double) (slot : ℕ) (s : ItemStack Double) (p : Progress)
      → item_eq F s.item item ≡ true
      → s.size ≤ℤ item.max_size
      → pos 0 ≤ℤ p.size
      → let n = to_proc F item p.size s in
        Round item slot (some s) (some (record s { size = s.size +ℤ n })) p (place F slot n p)
  unfolding place units to_proc
  placed-Round item slot s p same fits nonneg =
      let n : ℤ = min_ℤ p.size (item.max_size -ℤ s.size) in
      let cases = min_ℤ_parts p.size (item.max_size -ℤ s.size) in
      record {
        fits = λ _. omega (int_laws, cases);
        bounds = (omega (int_laws, cases), omega (int_laws, cases));
        conserved = omega int_laws;
        counted = rw same (omega int_laws);
        full = λ some_left _. omega (int_laws, cases, not_zero_parts (p.size -ℤ n) some_left);
      }

  pub kept-Round :
      (item : Item Double) (slot : ℕ) (s : ItemStack Double) (p : Progress)
      → (item_eq F s.item item ≡ true → s.size ≤ℤ item.max_size)
      → pos 0 ≤ℤ p.size
      → (item_eq F s.item item && not (is_zero (to_proc F item p.size s))) ≡ false
      → Round item slot (some s) (some s) p p
  unfolding to_proc
  kept-Round item slot s p fits nonneg no_room = record {
    fits = fits;
    bounds = (nonneg, omega arith);
    conserved = refl;
    counted = refl;
    full = λ some_left same.
        ground (arith, min_ℤ_parts p.size (item.max_size -ℤ s.size), -ℤ_parts item.max_size s.size);
  }
