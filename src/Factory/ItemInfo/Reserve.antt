-- ===== src/Factory/ItemInfo/Reserve.antt =====
-- What `reserve` takes, and from which providers.
use ocremote.Base.{
  ℕ, zero, suc, ◌<◌, ◌≡◌, refl, sym, ap, ◌∙◌, inl, inr, true, false, Option, some, List, [], ◌∷◌,
  ◌++◌, append-nil, append_assoc, length, arith, Bool-cases,
}
use ocremote.Base.Int.{
  ℤ, pos, ◌-ℤ◌, ◌≤ℤ◌, ◌<ℤ◌, min_ℤ, ltb_ℤ, leb_ℤ, int_laws, min_ℤ_parts, parts_eq, ltb_ℤ→lt,
  ltb_ℤ→le, leb_ℤ→lt,
}
use ocremote.Factory.ItemInfo.{Provider, ItemInfo, Reservation, take_best, reserve_loop, reserve}
use ocremote.Factory.ItemInfo.Valid.{total_avail, IsValid}
use ocremote.Factory.ItemInfo.Round.{
  Reserved, Reserved-nothing, Best, IsValid-Best, used_up-IsValid, partly_used-Reserved,
  used_up-Reserved,
}

-- The loop from a valid state returns, with the shares so far and what was reserved now.
record Returns (info : ItemInfo) (size : ℤ) (result : Reservation)
    (outcome : Option (ItemInfo × Reservation)) : Type 0 where
  left : ItemInfo
  shares : Reservation
  returned : outcome ≡ some (left, result ++ shares)
  reserved : Reserved info size left shares

loop_stops :
    (fuel : ℕ) (info : ItemInfo) (size : ℤ) (result : Reservation)
    → 0 < fuel
    → ltb_ℤ (pos 0) size ≡ false
    → reserve_loop fuel info size result ≡ some (info, result)
unfolding reserve_loop
loop_stops zero info size result h e = absurd (omega arith)
loop_stops (suc fuel) info size result h e = rw (e, reserve_loop)

loop_goes_on :
    (fuel : ℕ) (info : ItemInfo) (best : Provider) (rest : List Provider) (size : ℤ)
    (result : Reservation)
    → info.providers ≡ best ∷ rest
    → ltb_ℤ (pos 0) size ≡ true
    → let n = min_ℤ size best.avail in
      reserve_loop (suc fuel) info size result
      ≡ reserve_loop fuel (take_best best rest info n) (size -ℤ n) (result ++ (best, n) ∷ [])
unfolding reserve_loop
loop_goes_on fuel info best rest size result e h = rw (h, e, reserve_loop)

stopped-Returns :
    (fuel : ℕ) (info : ItemInfo) (size : ℤ) (result : Reservation)
    → 0 < fuel
    → IsValid info
    → pos 0 ≤ℤ size
    → ltb_ℤ (pos 0) size ≡ false
    → Returns info size result (reserve_loop fuel info size result)
stopped-Returns fuel info size result f v h z = record {
  left = info;
  shares = [];
  returned =
      loop_stops fuel info size result f z ∙ ap (λ r. some (info, r)) (sym (append-nil result));
  reserved = Reserved-nothing info size v (omega (int_laws, h, ltb_ℤ→le (pos 0) size z));
}

total_avail-nil : total_avail [] ≡ pos 0
unfolding total_avail
total_avail-nil = refl

nothing_left : (a : ℤ) → a ≤ℤ pos 0 → ltb_ℤ (pos 0) a ≡ false
nothing_left a h = ground arith

providers-used_up :
    (info : ItemInfo) (best : Provider) (rest : List Provider) (size : ℤ)
    → leb_ℤ (best.avail -ℤ min_ℤ size best.avail) (pos 0) ≡ true
    → (take_best best rest info (min_ℤ size best.avail)).providers ≡ rest
unfolding take_best
providers-used_up info best rest size e = rw e

n_avail-take_best :
    (info : ItemInfo) (best : Provider) (rest : List Provider) (size : ℤ)
    → size ≤ℤ info.n_avail
    → size -ℤ min_ℤ size best.avail ≤ℤ (take_best best rest info (min_ℤ size best.avail)).n_avail
unfolding take_best
n_avail-take_best info best rest size h = omega (int_laws, h)

Best-Returns :
    (fuel : ℕ) (info : ItemInfo) (best : Provider) (rest : List Provider) (size : ℤ)
    (result : Reservation)
    → Best info best rest
    → info.providers ≡ best ∷ rest
    → pos 0 <ℤ size
    → (leb_ℤ (best.avail -ℤ min_ℤ size best.avail) (pos 0) ≡ true
        → let n = min_ℤ size best.avail in
          let info' = take_best best rest info n in
          Returns info'
            (size -ℤ n)
            (result ++ (best, n) ∷ [])
            (reserve_loop fuel info' (size -ℤ n) (result ++ (best, n) ∷ [])))
    → 0 < fuel
    → ltb_ℤ (pos 0) size ≡ true
    → Returns info size result (reserve_loop (suc fuel) info size result)
Best-Returns fuel info best rest size result b e h rec f go =
    let n : ℤ = min_ℤ size best.avail in
    let cases = min_ℤ_parts size best.avail in
    let step = loop_goes_on fuel info best rest size result e go in
    elim (Bool-cases (leb_ℤ (best.avail -ℤ n) (pos 0))) [
      | inl done ↦
          let r = rec done in
          record {
            left = r.left;
            shares = (best, n) ∷ r.shares;
            returned =
                step
                ∙ r.returned
                ∙ ap (λ t. some (r.left, t)) (append_assoc result ((best, n) ∷ []) r.shares);
            reserved = used_up-Reserved info r.left best rest size r.shares b e h done r.reserved;
          }
      | inr more ↦
          let lt = leb_ℤ→lt (best.avail -ℤ n) (pos 0) more in
          record {
            left = take_best best rest info n;
            shares = (best, n) ∷ [];
            returned =
                step
                ∙ loop_stops fuel _ _ _ f (nothing_left (size -ℤ n) (omega (int_laws, cases, lt)));
            reserved = partly_used-Reserved info best rest size b e h more;
          }
    ]

loop-Returns :
    (fuel : ℕ) (info : ItemInfo) (ps : List Provider) (size : ℤ) (result : Reservation)
    → info.providers ≡ ps
    → suc (length ps) < fuel
    → IsValid info
    → pos 0 ≤ℤ size
    → size ≤ℤ info.n_avail
    → Returns info size result (reserve_loop fuel info size result)
loop-Returns zero info ps size result e f v h k = absurd (omega arith)
loop-Returns (suc fuel) info [] size result e f v h k =
    stopped-Returns (suc fuel) info size result (omega arith) v h (
      nothing_left size
        (omega (int_laws, k, parts_eq (v.counted ∙ ap total_avail e ∙ total_avail-nil))))
loop-Returns (suc fuel) info (best ∷ rest) size result e f v h k =
    let b = IsValid-Best info best rest v e in
    elim (Bool-cases (ltb_ℤ (pos 0) size)) [
      | inl go ↦
          Best-Returns fuel info best rest size result b e (ltb_ℤ→lt (pos 0) size go)
            (λ done.
              loop-Returns fuel (take_best best rest info (min_ℤ size best.avail)) rest
                (size -ℤ min_ℤ size best.avail) _ (providers-used_up info best rest size done)
                (omega (arith, f)) (used_up-IsValid info best rest size b done)
                (omega (int_laws, min_ℤ_parts size best.avail))
                (n_avail-take_best info best rest size k))
            (omega (arith, f)) go
      | inr stop ↦ stopped-Returns (suc fuel) info size result (omega arith) v h stop
    ]

-- A reservation of no more than is available succeeds: exactly `size` is taken, from each provider
-- more than nothing and no more than it has; the count of what is available falls by `size`, the
-- backup stays, the state stays valid; and every provider that is left has at most the priority of
-- each that was taken from.
pub reserve-Reserved :
    (info : ItemInfo) (size : ℤ)
    → IsValid info
    → pos 0 ≤ℤ size
    → size ≤ℤ info.n_avail
    → (left : ItemInfo) × (shares : Reservation) × (reserve info size ≡ some (left, shares))
      × Reserved info size left shares
unfolding reserve
reserve-Reserved info size v h k =
    let r =
      loop-Returns (suc (suc (length info.providers))) info info.providers size [] refl
        (omega arith) v h k in
    (r.left, r.shares, r.returned, r.reserved)
