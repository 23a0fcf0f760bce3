-- ===== src/Process/Scattering/Limit.antt =====
-- The limit of what is in process in each slot.
use ocremote.Base.{
  ℕ, zero, suc, ◌≡◌, inl, inr, false, none, some, List, [], ◌∷◌, get_elem?, arith, Bool-cases,
  Option-cases,
}
use ocremote.Base.Int.{ℤ, pos, ◌≤ℤ◌, ◌<ℤ◌, leb_ℤ, min_ℤ_parts}
use ocremote.Serialize.Value.{Doubles}
use ocremote.Item.{Item, Inventory}
use ocremote.Process.Scattering.{
  Minimum, visit_slot, find_minimum, Spread, no_minimum, add_one, spread,
}

module _ (F : Doubles) where
  open F use {Double}

  visit_slot-le :
      (item : Item Double) (items : Inventory Double) (slot : ℕ) (m : Minimum F)
      → (visit_slot F item items slot m).min_any ≤ℤ m.min_any
  unfolding visit_slot
  visit_slot-le item items slot m = elim (Option-cases (get_elem? items slot)) [
    | inl e ↦ rw (e, visit_slot) (omega arith)
    | inr (none, e) ↦ rw (e, visit_slot) (omega arith)
    | inr (some stack, e) ↦ rw (e, visit_slot) (omega (arith, min_ℤ_parts m.min_any stack.size))
  ]

  find_minimum-le :
      (item : Item Double) (items : Inventory Double) (slots : List ℕ) (m : Minimum F)
      → (find_minimum F item items slots m).min_any ≤ℤ m.min_any
  unfolding find_minimum
  find_minimum-le item items [] m = omega arith
  find_minimum-le item items (slot ∷ slots) m = omega (
    arith,
    find_minimum-le item items slots (visit_slot F item items slot m),
    visit_slot-le item items slot m,
  )

  -- The limit has no effect: where it is above zero, then whatever the slots hold, spreading an
  -- input never finds them full, and so never ends the loop over the demands.
  pub spread-not_full :
      (n : ℕ) (item : Item Double) (each_slot_max : ℤ) (in_slots : List ℕ) (p : Spread F)
      → pos 0 <ℤ each_slot_max
      → p.full ≡ false
      → (spread F n item each_slot_max in_slots p).full ≡ false
  unfolding spread add_one
  spread-not_full zero item each_slot_max in_slots p h f = f
  spread-not_full (suc n) item each_slot_max in_slots p h f =
      let m = find_minimum F item p.items in_slots (no_minimum F) in
      let least : m.min_any ≤ℤ pos 0 = find_minimum-le item p.items in_slots (no_minimum F) in
      let open_limit : leb_ℤ each_slot_max m.min_any ≡ false = ground (arith, least, h) in
      elim (Option-cases m.min) [
        | inl e ↦ rw (open_limit, e, spread) f
        | inr ((size, slot), e) ↦ elim (Bool-cases (leb_ℤ item.max_size size)) [
          | inl enough ↦ rw (open_limit, e, enough, spread) f
          | inr more ↦
              rw (open_limit, e, more, spread)
                (spread-not_full n item each_slot_max in_slots (add_one F item slot p) h f)
        ]
      ]
