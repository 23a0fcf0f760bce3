-- ===== src/Serialize/Casts.antt =====
-- The casts between `double`, `int` and `size_t`, which are the platform's.
use ocremote.Base.{ℕ, ◌+◌, ◌<◌, ◌≡◌, true}
use ocremote.Base.Int.{ℤ, pos, negsuc, ◌≤ℤ◌}
use ocremote.Serialize.Value.{Doubles}

-- An `int` of 32 bits.
abbrev pub IsInt32 : ℤ → Type 0
IsInt32 n = (negsuc 2147483647 ≤ℤ n) × (n ≤ℤ pos 2147483647)

-- 2 ^ 53: the numbers below are exact as doubles.
abbrev pub max_exact : ℕ
max_exact = 9007199254740992

pub record Casts (F : Doubles) : Type 0 where
  -- static_cast<double>(int), static_cast<double>(size_t), and the casts back, which round to zero
  pub of_int : ℤ → F.Double
  pub of_size : ℕ → F.Double
  pub to_int : F.Double → ℤ
  pub to_size : F.Double → ℕ
  -- the difference of two doubles
  pub minus : F.Double → F.Double → F.Double
  pub to_int-of_int : (n : ℤ) → IsInt32 n → to_int (of_int n) ≡ n
  pub to_size-of_size : (n : ℕ) → n < max_exact → to_size (of_size n) ≡ n
  pub minus-of_size : (n : ℕ) → n + 1 < max_exact → minus (of_size (n + 1)) (of_size 1) ≡ of_size n
  pub less-of_size : (m n : ℕ) → m < n → n < max_exact → F.less (of_size m) (of_size n) ≡ true
