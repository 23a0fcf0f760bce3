-- ===== src/Factory/ItemInfo/Valid.antt =====
-- The invariant of `ItemInfo`: what is counted, and the order of the providers.
use ocremote.Base.{◌≡◌, refl, inl, inr, List, [], ◌∷◌, All, arith, Bool-cases}
use ocremote.Base.Int.{
  ℤ, pos, ◌+ℤ◌, ◌≤ℤ◌, ◌<ℤ◌, ltb_ℤ, is_zero, int_laws, parts_eq, ltb_ℤ→lt, ltb_ℤ→le, not_zero_parts,
}
use ocremote.Factory.ItemInfo.{Provider, ItemInfo, Reservation, emplace, add_provider}

unfoldable pub total_avail : List Provider → ℤ
total_avail [] = pos 0
total_avail (p ∷ rest) = p.avail +ℤ total_avail rest

unfoldable pub total_reserved : Reservation → ℤ
total_reserved [] = pos 0
total_reserved (share ∷ rest) = share.1 +ℤ total_reserved rest

abbrev pub AtMost : ℤ → Provider → Type 0
AtMost bound p = p.priority ≤ℤ bound

-- The providers with the highest priority come first.
abbrev pub IsOrdered : List Provider → Type 0
IsOrdered [] = Unit
IsOrdered (p ∷ rest) = All (AtMost p.priority) rest × IsOrdered rest

abbrev pub IsPositive : Provider → Type 0
IsPositive p = pos 0 <ℤ p.avail

pub record IsValid (info : ItemInfo) : Type 0 where
  pub counted : info.n_avail ≡ total_avail info.providers
  pub positive : All IsPositive info.providers
  pub ordered : IsOrdered info.providers

pub total_avail-emplace :
    (x : Provider) (ps : List Provider) → total_avail (emplace x ps) ≡ x.avail +ℤ total_avail ps
unfolding total_avail emplace
total_avail-emplace x [] = refl
total_avail-emplace x (p ∷ ps) = elim (Bool-cases (ltb_ℤ p.priority x.priority)) [
  | inl h ↦ rw h
  | inr h ↦ rw h (omega (int_laws, parts_eq (total_avail-emplace x ps)))
]

pub All-emplace :
    (P : Provider → Type 0) (x : Provider) (ps : List Provider)
    → P x
    → All P ps
    → All P (emplace x ps)
unfolding emplace
All-emplace P x [] hx h = (hx, tt)
All-emplace P x (p ∷ ps) hx h = elim (Bool-cases (ltb_ℤ p.priority x.priority)) [
  | inl e ↦ rw e (hx, h)
  | inr e ↦ rw e (h.0, All-emplace P x ps hx h.1)
]

pub AtMost-mono : (a b : ℤ) (ps : List Provider) → a ≤ℤ b → All (AtMost a) ps → All (AtMost b) ps
AtMost-mono a b [] le h = tt
AtMost-mono a b (p ∷ ps) le h = (omega (arith, h.0), AtMost-mono a b ps le h.1)

pub emplace-IsOrdered :
    (x : Provider) (ps : List Provider) → IsOrdered ps → IsOrdered (emplace x ps)
unfolding emplace
emplace-IsOrdered x [] h = (tt, tt)
emplace-IsOrdered x (p ∷ ps) h = elim (Bool-cases (ltb_ℤ p.priority x.priority)) [
  | inl e ↦
      let lt = ltb_ℤ→lt p.priority x.priority e in
      rw e ((omega (arith, lt), AtMost-mono p.priority x.priority ps (omega (arith, lt)) h.0), h)
  | inr e ↦ rw e (
    All-emplace (AtMost p.priority) x ps (ltb_ℤ→le p.priority x.priority e) h.0,
    emplace-IsOrdered x ps h.1,
  )
]

-- Adding a provider that has at least nothing to a valid state gives a valid state: the count is
-- the sum over the providers, each of which has something, and they are in the order of priority.
pub add_provider-IsValid :
    (info : ItemInfo) (provider : Provider)
    → IsValid info
    → pos 0 ≤ℤ provider.avail
    → IsValid (add_provider info provider)
unfolding add_provider
add_provider-IsValid info provider v h = elim (Bool-cases (is_zero provider.avail)) [
  | inl z ↦ rw z v
  | inr n ↦ rw n (record {
    counted =
        omega
          (int_laws, parts_eq v.counted, parts_eq (total_avail-emplace provider info.providers));
    positive =
        All-emplace IsPositive provider info.providers
          (omega (arith, not_zero_parts provider.avail n)) v.positive;
    ordered = emplace-IsOrdered provider info.providers v.ordered;
  })
]
