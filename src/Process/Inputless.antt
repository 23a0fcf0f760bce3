-- ===== src/Process/Inputless.antt =====
-- `ProcessInputless`: moves items out of an inventory as far as they are needed.
pub mod Infos
pub mod Shortage
use ocremote.Base.{
  ℕ, ◌+◌, Bool, true, false, ◌&&◌, Option, none, some, List, [], ◌∷◌, if◌then◌else◌,
}
use ocremote.Base.Int.{ℤ, pos, ◌+ℤ◌, ◌-ℤ◌, min_ℤ, max_ℤ, leb_ℤ, ltb_ℤ}
use ocremote.Serialize.Value.{Doubles}
use ocremote.Item.{Item, ItemFilter, Inventory, matches, item_eq}
use ocremote.Factory.Stock.{Stock, get_avail, get_item}

pub record InputlessEntry (D : Type 0) : Type 0 where
  pub item : ItemFilter D
  pub needed : ℤ

pub record InputlessInfo : Type 0 where
  pub avail : ℤ
  pub needed : ℤ

-- Whether a slot passes the filter, if there is one.
unfoldable pub is_allowed : Option (ℕ → Bool) → ℕ → Bool
is_allowed none slot = true
is_allowed (some f) slot = f slot

module _ (F : Doubles) where
  open F use {Double}

  -- The first loop over the entries: `skip`.
  unfoldable pub is_stocked : Stock F → List (InputlessEntry Double) → Bool
  is_stocked s [] = true
  is_stocked s (entry ∷ rest) =
      if ltb_ℤ (get_avail F s (get_item F s entry.item) true) entry.needed
      then false
      else is_stocked s rest

  -- The loop over the entries for an item that is new in availMap.
  unfoldable pub max_needed : List (InputlessEntry Double) → Item Double → ℤ → ℤ
  max_needed [] item needed = needed
  max_needed (entry ∷ rest) item needed =
      max_needed rest item (if matches entry.item item then max_ℤ needed entry.needed else needed)

  -- availMap
  abbrev pub AvailMap : Type 0
  AvailMap = List (Item Double × InputlessInfo)

  module _ (s : Stock F) (entries : List (InputlessEntry Double)) where
    unfoldable pub new_info : Item Double → InputlessInfo
    unfolding max_needed
    new_info item = record {
      avail = get_avail F s (some item) true;
      needed = max_needed entries item (pos 0);
    }

    -- What availMap has for the item after try_emplace.
    unfoldable pub info_of : AvailMap → Item Double → InputlessInfo
    unfolding new_info
    info_of [] item = new_info item
    info_of ((key, info) ∷ rest) item = if item_eq F key item then info else info_of rest item

    -- availMap with that information for the item.
    unfoldable pub put_info : Item Double → InputlessInfo → AvailMap → AvailMap
    put_info item now [] = (item, now) ∷ []
    put_info item now ((key, info) ∷ rest) =
        if item_eq F key item then (key, now) ∷ rest else (key, info) ∷ put_info item now rest

    -- The loop over the listed slots, from `slot` on: what goes out of which slot.
    unfoldable pub visit_outputs :
        Option (ℕ → Bool) → ℕ → Inventory Double → AvailMap → List (ℕ × ℤ)
    unfolding is_allowed info_of put_info
    visit_outputs slot_filter slot [] m = []
    visit_outputs slot_filter slot (none ∷ rest) m = visit_outputs slot_filter (slot + 1) rest m
    visit_outputs slot_filter slot (some stack ∷ rest) m = elim (is_allowed slot_filter slot) [
      | false ↦ visit_outputs slot_filter (slot + 1) rest m
      | true ↦
          let info = info_of m stack.item in
          let n = min_ℤ (info.needed -ℤ info.avail) stack.size in
          elim (leb_ℤ n (pos 0)) [
            | true ↦ visit_outputs slot_filter (slot + 1) rest (put_info stack.item info m)
            | false ↦
                (slot, n)
                ∷ visit_outputs slot_filter (slot + 1) rest
                    (put_info stack.item (record info { avail = info.avail +ℤ n }) m)
          ]
    ]

    -- The outputs of a cycle, after the inventory is listed.
    unfoldable pub inputless_outputs : Option (ℕ → Bool) → Inventory Double → List (ℕ × ℤ)
    unfolding visit_outputs
    inputless_outputs slot_filter items = visit_outputs slot_filter 0 items []
