-- ===== src/Storage/Insertion/Placed.antt =====
-- All of a stack goes to the storages, as long as one of them takes some.
use ocremote.Base.{
  ℕ, zero, suc, ◌+◌, ◌<◌, ◌≡◌, refl, sym, ap, ◌∙◌, inl, inr, ◌⊎◌, true, false, Option, none, some,
  List, [], ◌∷◌, All, set, get_elem?, arith, Bool-cases, Option-cases,
}
use ocremote.Base.Int.{
  zero_add, ℤ, pos, negsuc, ◌+ℤ◌, ◌-ℤ◌, ◌≤ℤ◌, ◌<ℤ◌, pos_part, ltb_ℤ, leb_ℤ, leb_ℤ→le, leb_ℤ→lt,
  int_laws, eq_of_parts, parts_eq,
}
use ocremote.Serialize.Value.{Doubles}
use ocremote.Item.{Item}
use ocremote.Storage.Chest
use ocremote.Storage.Chest.Progress.{sink_priority-sink}
use ocremote.Storage.Insertion.{
  better, Storage, drawer, chest, me, sink_priority, sink, find_best, Insertion, add_part,
  insert_loop, insert_item,
}

-- How much the parts are together.
unfoldable pub sum_of : List (ℕ × ℤ) → ℤ
sum_of [] = pos 0
sum_of ((i, n) ∷ rest) = n +ℤ sum_of rest

less_left :
    (size n : ℤ) (fuel : ℕ)
    → pos 0 <ℤ n
    → n ≤ℤ size
    → pos_part size < suc fuel
    → pos_part (size -ℤ n) < fuel
unfolding ◌-ℤ◌
less_left (pos size) (pos n) fuel h k l = ground arith
less_left (pos size) (negsuc n) fuel h k l = absurd (omega arith)
less_left (negsuc size) (pos n) fuel h k l = absurd (omega arith)
less_left (negsuc size) (negsuc n) fuel h k l = absurd (omega arith)

better_cases :
    (i : ℕ) (p : Option ℤ) (best : Option (ℕ × ℤ))
    → (better i p best ≡ best) ⊎ ((q : ℤ) × (p ≡ some q) × (better i p best ≡ some (i, q)))
unfolding better
better_cases i none best = inl refl
better_cases i (some p) none = inr (p, refl, refl)
better_cases i (some p) (some (j, q)) = elim (Bool-cases (ltb_ℤ q p)) [
  | inl e ↦ inr (p, refl, rw e refl)
  | inr e ↦ inl (rw e refl)
]

better-none :
    (i : ℕ) (p : Option ℤ) (best : Option (ℕ × ℤ))
    → better i p best ≡ none
    → (best ≡ none) × (p ≡ none)
unfolding better
better-none i none best h = (h, refl)
better-none i (some p) none h = cc
better-none i (some p) (some (j, q)) h = elim (Bool-cases (ltb_ℤ q p)) [
  | inl e ↦ let no = rw e at h in cc
  | inr e ↦ let no = rw e at h in cc
]

module _ (F : Doubles) where
  open F use {Double}

  -- The storage offers no priority for the item.
  abbrev pub Refuses : Item Double → Storage F → Type 0
  Refuses item s = (sink_priority F item s).0 ≡ none

  sink_priority-sinks :
      (item : Item Double) (size p : ℤ) (s : Storage F)
      → pos 0 <ℤ size
      → (sink_priority F item s).0 ≡ some p
      → (n : ℤ) × (after : Storage F) × (sink F
            (record { item = item; size = size })
            (sink_priority F item s).1
          ≡ some (n, after))
        × (pos 0 <ℤ n)
        × (n ≤ℤ size)
  unfolding sink_priority sink Chest.sink Chest.sink_priority
  sink_priority-sinks item size p (drawer filters) h e =
      (size, drawer filters, refl, h, omega arith)
  sink_priority-sinks item size p (chest c) h e =
      let (n, after, taken, some_taken, not_more, same) = sink_priority-sink F item size p c h e in
      (n, chest after, rw taken refl, some_taken, not_more)
  sink_priority-sinks item size p me h e = (size, me, refl, h, omega arith)

  -- The storage that was found: at index `j` from `i` on, with its state after its priority.
  record Offer (item : Item Double) (i : ℕ) (ss after : List (Storage F)) (found : Option (ℕ × ℤ))
      : Type 0 where
    pub j : ℕ
    pub p : ℤ
    pub s : Storage F
    pub found_it : found ≡ some (i + j, p)
    pub offered : (sink_priority F item s).0 ≡ some p
    pub ready : get_elem? after j ≡ some (sink_priority F item s).1

  find_best-Offer :
      (i : ℕ) (item : Item Double) (ss : List (Storage F)) (best : Option (ℕ × ℤ))
      → let (found, after) = find_best F i item ss best in
        (found ≡ best) ⊎ Offer item i ss after found
  unfolding find_best
  find_best-Offer i item [] best = inl refl
  find_best-Offer i item (s ∷ rest) best =
      let (priority, s') = sink_priority F item s in
      elim (find_best-Offer (i + 1) item rest (better i priority best)) [
        | inl same ↦ elim (better_cases i priority best) [
          | inl kept ↦ inl (same ∙ kept)
          | inr (p, offered, now) ↦
              let e : i ≡ i + 0 = omega arith in
              inr (record {
                j = 0;
                p = p;
                s = s;
                found_it = same ∙ now ∙ ap (λ k. some (k, p)) e;
                offered = offered;
                ready = refl;
              })
        ]
        | inr o ↦
            let e : i + 1 + o.j ≡ i + suc o.j = omega arith in
            inr (record {
              j = suc o.j;
              p = o.p;
              s = o.s;
              found_it = o.found_it ∙ ap (λ k. some (k, o.p)) e;
              offered = o.offered;
              ready = o.ready;
            })
      ]

  find_best-Refuses :
      (i : ℕ) (item : Item Double) (ss : List (Storage F)) (best : Option (ℕ × ℤ))
      → (find_best F i item ss best).0 ≡ none
      → (best ≡ none) × All (Refuses item) ss
  unfolding find_best
  find_best-Refuses i item [] best h = (h, tt)
  find_best-Refuses i item (s ∷ rest) best h =
      let (nothing, refused) =
        find_best-Refuses (i + 1) item rest (better i (sink_priority F item s).0 best) h in
      let b = better-none i (sink_priority F item s).0 best nothing in (b.0, (b.1, refused))

  -- What `insertItem` returns for so much of an item.
  pub record Placed (item : Item Double) (size : ℤ) (outcome : Option (Insertion F)) : Type 0 where
    pub result : Insertion F
    pub returned : outcome ≡ some result
    pub whole : sum_of result.parts +ℤ result.left ≡ size
    pub some_each : All (λ part. pos 0 <ℤ part.1) result.parts
    -- nothing is left, or every storage was asked and refuses the item
    pub ended :
        ((result.is_full ≡ false) × (result.left ≡ pos 0))
        ⊎ ((result.is_full ≡ true)
            × (pos 0 <ℤ result.left)
            × (asked : List (Storage F)) × All (Refuses item) asked
            × ((find_best F 0 item asked none).1 ≡ result.storages))

  insert_loop-Placed :
      (fuel : ℕ) (item : Item Double) (size : ℤ) (ss : List (Storage F))
      → pos 0 ≤ℤ size
      → pos_part size < fuel
      → Placed item size (insert_loop F fuel item size ss)
  unfolding insert_loop sum_of add_part
  insert_loop-Placed zero item size ss h k = absurd (omega arith)
  insert_loop-Placed (suc fuel) item size ss h k = elim (Bool-cases (leb_ℤ size (pos 0))) [
    | inl stop ↦
        let none_left : size ≡ pos 0 =
          eq_of_parts _ _ (omega (arith, h, leb_ℤ→le size (pos 0) stop)) in
        record {
          result = record { parts = []; left = size; storages = ss; is_full = false };
          returned = rw (stop, insert_loop) refl;
          whole = zero_add size;
          some_each = tt;
          ended = inl (refl, none_left);
        }
    | inr go ↦
        let more = leb_ℤ→lt size (pos 0) go in
        let (found, ready) = find_best F 0 item ss none in
        elim (Option-cases found) [
          | inl nothing ↦ record {
            result = record { parts = []; left = size; storages = ready; is_full = true };
            returned = rw (go, nothing, insert_loop) refl;
            whole = zero_add size;
            some_each = tt;
            ended = inr (refl, more, ss, (find_best-Refuses 0 item ss none nothing).1, refl);
          }
          | inr (best, is) ↦ elim (find_best-Offer 0 item ss none) [
            | inl same ↦ let no : some best ≡ none = sym is ∙ same in cc
            | inr o ↦
                let e : 0 + o.j ≡ o.j = omega arith in
                let this : found ≡ some (o.j, o.p) = o.found_it ∙ ap (λ k. some (k, o.p)) e in
                let (n, after, taken, some_taken, not_more) =
                  sink_priority-sinks item size o.p o.s more o.offered in
                let rest =
                  insert_loop-Placed fuel item (size -ℤ n) (set ready o.j after)
                    (omega (int_laws, not_more)) (less_left size n fuel some_taken not_more k) in
                record {
                  result = record rest.result { parts = (o.j, n) ∷ rest.result.parts };
                  returned =
                      rw (go, this, o.ready, taken, insert_loop)
                        (rw (rest.returned, add_part) refl);
                  whole = eq_of_parts _ _ (omega (int_laws, parts_eq rest.whole));
                  some_each = (some_taken, rest.some_each);
                  ended = rest.ended;
                }
          ]
        ]
  ]

  -- For at least nothing of an item, `insertItem` ends: the parts that it stores, more than nothing
  -- each, and what is left are together the stack; and either nothing is left, or it fails after
  -- every storage was asked and refuses the item.
  pub insert_item-Placed :
      (item : Item Double) (size : ℤ) (ss : List (Storage F))
      → pos 0 ≤ℤ size
      → Placed item size (insert_item F item size ss)
  unfolding insert_item
  insert_item-Placed item size ss h =
      insert_loop-Placed (pos_part size + 1) item size ss h (omega arith)
