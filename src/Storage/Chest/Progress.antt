-- ===== src/Storage/Chest/Progress.antt =====
-- A chest that offers to take an item takes some of it.
use ocremote.Base.{
  ℕ, ◌≡◌, refl, sym, inl, inr, true, ◌&&◌, Option, none, some, [], ◌∷◌, ◌++◌, append_assoc, length,
  length-append, set, get_elem?, get_elem?-middle, arith, some_inj, Bool-cases, Option-cases,
}
use ocremote.Base.Int.{
  ℤ, pos, ◌+ℤ◌, ◌-ℤ◌, ◌≤ℤ◌, ◌<ℤ◌, min_ℤ, ltb_ℤ, int_laws, min_ℤ_parts, parts_eq, ltb_ℤ→lt,
}
use ocremote.Serialize.Value.{Doubles}
use ocremote.Item.Insert.Count.{transfer}
use ocremote.Item.{Item, ItemStack, Inventory, item_eq, item_eq-AreSame}
use ocremote.Storage.Chest.{
  Search, is_better, Chest, visit_slot, search, choose, begin, sink_priority, sink,
}

module _ (F : Doubles) where
  open F use {Double}

  -- A stack of the item, with room for more.
  HasRoom : Item Double → Inventory Double → ℕ → Type 0
  HasRoom item content slot =
      (stack : ItemStack Double) × (get_elem? content slot ≡ some (some stack))
      × (item_eq F stack.item item ≡ true)
      × (stack.size <ℤ item.max_size)

  -- What the variables of the loop say of the slots that were visited.
  record Found (item : Item Double) (content : Inventory Double) (s : Search) : Type 0 where
    room : (m : ℤ) → s.max_size ≡ some m → HasRoom item content s.slot_to_sink
    empty : (e : ℕ) → s.empty_slot ≡ some e → get_elem? content e ≡ some none

  visit_slot-Found :
      (item : Item Double) (done : Inventory Double) (stack : Option (ItemStack Double))
      (rest : Inventory Double) (s : Search)
      → Found item (done ++ stack ∷ rest) s
      → Found item (done ++ stack ∷ rest) (visit_slot F item (length done) stack s)
  unfolding visit_slot HasRoom
  visit_slot-Found item done none rest s f = record {
    room = f.room;
    empty = λ e h. rw (sym (some_inj h)) (get_elem?-middle done none rest);
  }
  visit_slot-Found item done (some stack) rest s f =
      elim (Bool-cases (
        item_eq F stack.item item
        && (ltb_ℤ stack.size item.max_size && is_better s.max_size stack.size))) [
          | inl e ↦
              rw (e, visit_slot)
                (record {
                  room = λ m h. (
                    stack,
                    get_elem?-middle done (some stack) rest,
                    ground (arith, e),
                    ltb_ℤ→lt stack.size item.max_size (ground (arith, e)),
                  );
                  empty = f.empty;
                })
          | inr e ↦ rw (e, visit_slot) f
        ]

  search-Found :
      (item : Item Double) (done left : Inventory Double) (s : Search)
      → Found item (done ++ left) s
      → Found item (done ++ left) (search F item (length done) left s)
  unfolding search
  search-Found item done [] s f = f
  search-Found item done (stack ∷ rest) s f =
      let split = append_assoc done (stack ∷ []) rest in
      let next =
        search-Found item (done ++ stack ∷ []) rest (visit_slot F item (length done) stack s)
          (rw split (visit_slot-Found item done stack rest s f)) in
      rw (sym split, sym (length-append done (stack ∷ []))) next

  searched : Item Double → Chest F → Search
  searched item chest = search F item 0 chest.content (begin chest.slot_to_sink)

  searched-Found :
      (item : Item Double) (chest : Chest F) → Found item chest.content (searched item chest)
  unfolding searched
  searched-Found item chest =
      search-Found item [] chest.content (begin chest.slot_to_sink)
        (record { room = λ m h. cc; empty = λ e h. cc })

  -- `sink` into a slot takes some of the stack, and the content changes by the transfer of that.
  record Takes (item : Item Double) (size : ℤ) (content : Inventory Double) (slot : ℕ)
      : Type 0 where
    n : ℤ
    after : Chest F
    taken :
        sink F
          (record { item = item; size = size })
          (record { content = content; slot_to_sink = slot })
        ≡ some (n, after)
    some_taken : pos 0 <ℤ n
    not_more : n ≤ℤ size
    transferred : after.content ≡ transfer F item content (slot, n)

  room-Takes :
      (item : Item Double) (size : ℤ) (content : Inventory Double) (slot : ℕ)
      → pos 0 <ℤ size
      → HasRoom item content slot
      → Takes item size content slot
  unfolding HasRoom sink transfer
  room-Takes item size content slot h (stack, at, same, less) =
      let limit = (item_eq-AreSame F stack.item item same).max_size in
      let n = min_ℤ size (stack.item.max_size -ℤ stack.size) in
      let parts = min_ℤ_parts size (stack.item.max_size -ℤ stack.size) in
      record {
        n = n;
        after = record {
          content = set content slot (some (record stack { size = stack.size +ℤ n }));
          slot_to_sink = slot;
        };
        taken = rw (at, sink) refl;
        some_taken = omega (int_laws, parts_eq limit, h, less, parts);
        not_more = omega (int_laws, parts);
        transferred = rw (at, transfer) refl;
      }

  empty-Takes :
      (item : Item Double) (size : ℤ) (content : Inventory Double) (slot : ℕ)
      → pos 0 <ℤ size
      → get_elem? content slot ≡ some none
      → Takes item size content slot
  unfolding sink transfer
  empty-Takes item size content slot h at = record {
    n = size;
    after = record {
      content = set content slot (some (record { item = item; size = size }));
      slot_to_sink = slot;
    };
    taken = rw (at, sink) refl;
    some_taken = h;
    not_more = omega arith;
    transferred = rw (at, transfer) refl;
  }

  choose-Takes :
      (item : Item Double) (size p : ℤ) (content : Inventory Double) (s : Search)
      → Found item content s
      → pos 0 <ℤ size
      → (choose s).0 ≡ some p
      → Takes item size content (choose s).1
  unfolding choose
  choose-Takes item size p content s f h offered = elim (Option-cases s.max_size) [
    | inr (m, e) ↦ rw (e, choose) (room-Takes item size content s.slot_to_sink h (f.room m e))
    | inl no_room ↦ elim (Option-cases s.empty_slot) [
      | inr (slot, e) ↦
          rw (no_room, e, choose) (empty-Takes item size content slot h (f.empty slot e))
      | inl full ↦
          let nothing : Option ℤ = none in
          let impossible : nothing ≡ some p = rw (no_room, full, choose) at offered in cc
    ]
  ]

  -- A chest that offers to take an item does take some of a stack of it: after `sinkPriority` has
  -- returned a priority, `sink` of at least one of the item finds its slot, takes more than nothing
  -- and no more than the stack has, and changes the content just as the transfer that it plans.
  pub sink_priority-sink :
      (item : Item Double) (size p : ℤ) (chest : Chest F)
      → pos 0 <ℤ size
      → (sink_priority F item chest).0 ≡ some p
      → let ready = (sink_priority F item chest).1 in
        (n : ℤ) × (after : Chest F) × (sink F (record { item = item; size = size }) ready
          ≡ some (n, after))
        × (pos 0 <ℤ n)
        × (n ≤ℤ size)
        × (after.content ≡ transfer F item chest.content (ready.slot_to_sink, n))
  unfolding sink_priority searched
  sink_priority-sink item size p chest h offered =
      let t =
        choose-Takes item size p chest.content (searched item chest) (searched-Found item chest) h
          offered in
      (t.n, t.after, t.taken, t.some_taken, t.not_more, t.transferred)
