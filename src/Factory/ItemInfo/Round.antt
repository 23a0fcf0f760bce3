-- ===== src/Factory/ItemInfo/Round.antt =====
-- One round of the loop of `ItemInfo::reserve`.
use mathlib.Core.Path.{subst}
use ocremote.Base.{◌≡◌, refl, sym, ap, ◌∙◌, true, false, List, [], ◌∷◌, All, arith}
use ocremote.Base.Int.{
  ℤ, pos, ◌+ℤ◌, ◌-ℤ◌, ◌≤ℤ◌, ◌<ℤ◌, min_ℤ, leb_ℤ, int_laws, min_ℤ_parts, parts_eq, leb_ℤ→le, leb_ℤ→lt,
}
use ocremote.Factory.ItemInfo.{Provider, ItemInfo, Reservation, take_best}
use ocremote.Factory.ItemInfo.Valid.{
  total_avail, total_reserved, AtMost, IsOrdered, IsPositive, IsValid,
}

-- `size` was reserved: `shares` of the providers before, and the providers that are left.
pub record Reserved (info : ItemInfo) (size : ℤ) (left : ItemInfo) (shares : Reservation)
    : Type 0 where
  pub valid : IsValid left
  pub taken : left.n_avail ≡ info.n_avail -ℤ size
  pub total : total_reserved shares ≡ size
  pub fair : All (λ share. (pos 0 <ℤ share.1) × (share.1 ≤ℤ share.0.avail)) shares
  pub best_first : All (λ share. All (AtMost share.0.priority) left.providers) shares
  pub backup_kept : left.n_backup ≡ info.n_backup
  pub bounded : (bound : ℤ) → All (AtMost bound) info.providers → All (AtMost bound) left.providers

pub Reserved-nothing :
    (info : ItemInfo) (size : ℤ) → IsValid info → size ≡ pos 0 → Reserved info size info []
unfolding total_reserved
Reserved-nothing info size v e = record {
  valid = v;
  taken = omega (int_laws, parts_eq e);
  total = sym e;
  fair = tt;
  best_first = tt;
  backup_kept = refl;
  bounded = λ b h. h;
}

-- The providers and the count, with the best provider named.
pub record Best (info : ItemInfo) (best : Provider) (rest : List Provider) : Type 0 where
  pub counted : info.n_avail ≡ best.avail +ℤ total_avail rest
  pub positive : IsPositive best × All IsPositive rest
  pub ordered : All (AtMost best.priority) rest × IsOrdered rest

pub IsValid-Best :
    (info : ItemInfo) (best : Provider) (rest : List Provider)
    → IsValid info
    → info.providers ≡ best ∷ rest
    → Best info best rest
unfolding total_avail
IsValid-Best info best rest v e = record {
  counted = v.counted ∙ ap total_avail e;
  positive = subst (All IsPositive) e v.positive;
  ordered = subst IsOrdered e v.ordered;
}

-- The best provider is used up, and taken off the queue.
pub used_up-IsValid :
    (info : ItemInfo) (best : Provider) (rest : List Provider) (size : ℤ)
    → Best info best rest
    → leb_ℤ (best.avail -ℤ min_ℤ size best.avail) (pos 0) ≡ true
    → IsValid (take_best best rest info (min_ℤ size best.avail))
unfolding take_best
used_up-IsValid info best rest size b e =
    let le = leb_ℤ→le (best.avail -ℤ min_ℤ size best.avail) (pos 0) e in
    rw e (record {
      counted = omega (int_laws, parts_eq b.counted, min_ℤ_parts size best.avail, le);
      positive = b.positive.1;
      ordered = b.ordered.1;
    })

-- The best provider has more than is wanted: it stays, with the rest of its items.
pub partly_used-Reserved :
    (info : ItemInfo) (best : Provider) (rest : List Provider) (size : ℤ)
    → Best info best rest
    → info.providers ≡ best ∷ rest
    → pos 0 <ℤ size
    → leb_ℤ (best.avail -ℤ min_ℤ size best.avail) (pos 0) ≡ false
    → Reserved info size
        (take_best best rest info (min_ℤ size best.avail))
        ((best, min_ℤ size best.avail) ∷ [])
unfolding take_best total_avail total_reserved
partly_used-Reserved info best rest size b e h more =
    let lt = leb_ℤ→lt (best.avail -ℤ min_ℤ size best.avail) (pos 0) more in
    let cases = min_ℤ_parts size best.avail in
    rw more (record {
      valid = record {
        counted = omega (int_laws, parts_eq b.counted, cases);
        positive = (omega (int_laws, lt), b.positive.1);
        ordered = b.ordered;
      };
      taken = omega (int_laws, cases, lt);
      total = omega (int_laws, cases, lt);
      fair = ((omega (int_laws, cases, h), omega (int_laws, cases)), tt);
      best_first = ((omega arith, b.ordered.0), tt);
      backup_kept = refl;
      bounded = λ bound k. subst (All (AtMost bound)) e k;
    })

-- What is reserved after the best provider was used up, together with its share.
pub used_up-Reserved :
    (info left : ItemInfo) (best : Provider) (rest : List Provider) (size : ℤ)
    (shares : Reservation)
    → Best info best rest
    → info.providers ≡ best ∷ rest
    → pos 0 <ℤ size
    → leb_ℤ (best.avail -ℤ min_ℤ size best.avail) (pos 0) ≡ true
    → Reserved
        (take_best best rest info (min_ℤ size best.avail))
        (size -ℤ min_ℤ size best.avail)
        left
        shares
    → Reserved info size left ((best, min_ℤ size best.avail) ∷ shares)
unfolding take_best total_reserved
used_up-Reserved info left best rest size shares b e h done r =
    let cases = min_ℤ_parts size best.avail in
    let kept : (bound : ℤ) → All (AtMost bound) rest → All (AtMost bound) left.providers =
      λ bound k. r.bounded bound (rw done k) in
    record {
      valid = r.valid;
      taken = omega (int_laws, parts_eq r.taken);
      total = omega (int_laws, parts_eq r.total);
      fair = ((omega (int_laws, cases, h, b.positive.0), omega (int_laws, cases)), r.fair);
      best_first = (kept best.priority b.ordered.0, r.best_first);
      backup_kept = r.backup_kept;
      bounded = λ bound k. kept bound (subst (All (AtMost bound)) e k).1;
    }
