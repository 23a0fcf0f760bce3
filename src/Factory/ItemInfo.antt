-- ===== src/Factory/ItemInfo.antt =====
-- `ItemInfo` and `Reservation` of server/CPPImpl/Factory.h and Factory.cpp.
pub mod Valid
pub mod Round
pub mod Reserve
use ocremote.Base.{
  ℕ, zero, suc, Bool, true, false, Option, none, some, List, [], ◌∷◌, ◌++◌, length, if◌then◌else◌,
}
use ocremote.Base.Int.{ℤ, pos, ◌+ℤ◌, ◌-ℤ◌, min_ℤ, max_ℤ, ltb_ℤ, leb_ℤ, is_zero}

-- A provider, with the number by which its storage and slot are told apart from others.
pub record Provider : Type 0 where
  pub id : ℕ
  pub priority : ℤ
  pub avail : ℤ

-- The priority queue is the list of its elements, the top first.
pub record ItemInfo : Type 0 where
  pub providers : List Provider
  pub n_avail : ℤ
  pub n_backup : ℤ

abbrev pub empty : ItemInfo
empty = record { providers = []; n_avail = pos 0; n_backup = pos 0 }

-- How much is to be taken from which provider.
abbrev pub Reservation : Type 0
Reservation = List (Provider × ℤ)

-- std::priority_queue::emplace. Which of two providers with one priority comes first is not
-- specified there; here it is the older one.
unfoldable pub emplace : Provider → List Provider → List Provider
emplace x [] = x ∷ []
emplace x (p ∷ rest) = if ltb_ℤ p.priority x.priority then x ∷ p ∷ rest else p ∷ emplace x rest

unfoldable pub add_provider : ItemInfo → Provider → ItemInfo
unfolding emplace
add_provider info provider = if is_zero provider.avail then info else record info {
  n_avail = info.n_avail +ℤ provider.avail;
  providers = emplace provider info.providers;
}

unfoldable pub backup : ItemInfo → ℤ → ItemInfo
backup info size = record info { n_backup = info.n_backup +ℤ size }

unfoldable pub get_avail : ItemInfo → Bool → ℤ
get_avail info allow_backup =
    if allow_backup then info.n_avail else max_ℤ (pos 0) (info.n_avail -ℤ info.n_backup)

-- The body of the loop of `reserve`: `best` is the top, with `rest` below it.
unfoldable pub take_best : Provider → List Provider → ItemInfo → ℤ → ItemInfo
take_best best rest info to_proc = record info {
  n_avail = info.n_avail -ℤ to_proc;
  providers =
      if leb_ℤ (best.avail -ℤ to_proc) (pos 0)
      then rest
      else record best { avail = best.avail -ℤ to_proc } ∷ rest;
}

-- while (size > 0), with fuel. `none`: the queue was empty at `top`, or the fuel ran out.
unfoldable pub reserve_loop : ℕ → ItemInfo → ℤ → Reservation → Option (ItemInfo × Reservation)
unfolding take_best
reserve_loop zero info size result = none
reserve_loop (suc fuel) info size result = elim (ltb_ℤ (pos 0) size) [
  | false ↦ some (info, result)
  | true ↦ elim info.providers [
    | [] ↦ none
    | best ∷ rest ↦
        reserve_loop fuel (take_best best rest info (min_ℤ size best.avail))
          (size -ℤ min_ℤ size best.avail) (result ++ (best, min_ℤ size best.avail) ∷ [])
  ]
]

-- Each round takes a provider off, or ends the loop.
unfoldable pub reserve : ItemInfo → ℤ → Option (ItemInfo × Reservation)
reserve info size = reserve_loop (suc (suc (length info.providers))) info size []
