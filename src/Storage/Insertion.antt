-- ===== src/Storage/Insertion.antt =====
-- `Factory::insertItem` of server/CPPImpl/Factory.cpp, and the storages that it chooses from:
-- `sinkPriority` and `sink` of server/CPPImpl/Storages.h and Storages.cpp by the kind of storage.
pub mod Placed
use ocremote.Base.{
  ℕ, zero, suc, ◌+◌, Bool, true, false, Option, none, some, List, [], ◌∷◌, set, get_elem?,
  if◌then◌else◌,
}
use ocremote.Base.Int.{ℤ, pos, negsuc, ◌-ℤ◌, pos_part, ltb_ℤ, leb_ℤ}
use ocremote.Serialize.Value.{Doubles}
use ocremote.Item.{Item, ItemFilter, ItemStack, matches}
use ocremote.Storage.Chest
use ocremote.Storage.Chest.{Chest}

-- Whether one of the filters matches: the loop of StorageDrawer::sinkPriority.
unfoldable pub matches_one : {D : Type 0} → List (ItemFilter D) → Item D → Bool
matches_one [] item = false
matches_one (f ∷ rest) item = if matches f item then true else matches_one rest item

-- !bestStorage || *nowPriority > bestPriority, with the storage by its index.
unfoldable pub better : ℕ → Option ℤ → Option (ℕ × ℤ) → Option (ℕ × ℤ)
better i none best = best
better i (some p) none = some (i, p)
better i (some p) (some (j, q)) = if ltb_ℤ q p then some (i, p) else some (j, q)

module _ (F : Doubles) where
  open F use {Double}

  pub data Storage : Type 0 where
    drawer : List (ItemFilter Double) → Storage
    chest : Chest F → Storage
    me : Storage

  -- The virtual `sinkPriority`; std::numeric_limits<int>::max() for a drawer, min() for the ME.
  unfoldable pub sink_priority : Item Double → Storage → Option ℤ × Storage
  unfolding matches_one
  sink_priority item (drawer filters) =
      (if matches_one filters item then some (pos 2147483647) else none, drawer filters)
  sink_priority item (chest c) =
      let (priority, c') = Chest.sink_priority F item c in (priority, chest c')
  sink_priority item me = (some (negsuc 2147483647), me)

  -- The virtual `sink`, up to the action: how much of the stack goes there.
  unfoldable pub sink : ItemStack Double → Storage → Option (ℤ × Storage)
  sink stack (drawer filters) = some (stack.size, drawer filters)
  sink stack (chest c) = elim (Chest.sink F stack c) [
    | none ↦ none
    | some (n, c') ↦ some (n, chest c')
  ]
  sink stack me = some (stack.size, me)

  -- The loop over the storages, from index `i` on.
  unfoldable pub find_best :
      ℕ → Item Double → List Storage → Option (ℕ × ℤ) → Option (ℕ × ℤ) × List Storage
  unfolding sink_priority better
  find_best i item [] best = (best, [])
  find_best i item (s ∷ rest) best =
      let (priority, s') = sink_priority item s in
      let (found, rest') = find_best (i + 1) item rest (better i priority best) in
      (found, s' ∷ rest')

  -- What an insertion leaves: the parts, with the storages that they go to, what is left, and
  -- whether it failed with "storage is full".
  pub record Insertion : Type 0 where
    pub parts : List (ℕ × ℤ)
    pub left : ℤ
    pub storages : List Storage
    pub is_full : Bool

  unfoldable pub add_part : ℕ → ℤ → Option Insertion → Option Insertion
  add_part i n none = none
  add_part i n (some r) = some (record r { parts = (i, n) ∷ r.parts })

  -- The loop while there is some of the stack. `none`: a sink throws, or the fuel does not last.
  unfoldable pub insert_loop : ℕ → Item Double → ℤ → List Storage → Option Insertion
  unfolding sink find_best add_part
  insert_loop zero item size ss = none
  insert_loop (suc fuel) item size ss = elim (leb_ℤ size (pos 0)) [
    | true ↦ some (record { parts = []; left = size; storages = ss; is_full = false })
    | false ↦
        let (best, ss') = find_best 0 item ss none in
        elim best [
          | none ↦ some (record { parts = []; left = size; storages = ss'; is_full = true })
          | some (i, priority) ↦ elim (get_elem? ss' i) [
            | none ↦ none
            | some s ↦ elim (sink (record { item = item; size = size }) s) [
              | none ↦ none
              | some (n, s') ↦ add_part i n (insert_loop fuel item (size -ℤ n) (set ss' i s'))
            ]
          ]
        ]
  ]

  -- Factory::insertItem: each round takes some of the stack.
  unfoldable pub insert_item : Item Double → ℤ → List Storage → Option Insertion
  unfolding insert_loop
  insert_item item size ss = insert_loop (pos_part size + 1) item size ss
