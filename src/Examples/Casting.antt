-- ===== src/Examples/Casting.antt =====
-- A concrete choice for the casts, the floats and the arithmetic, on the numbers of Numbers.
use ocremote.Base.{
  ℕ, ◌+◌, ◌-◌, ◌*◌, ◌/◌, ◌%◌, ◌<◌, ◌≡◌, true, false, arith, ltb, ◌==◌, if◌then◌else◌,
}
use ocremote.Base.Int.{ℤ, pos, negsuc, pos_part}
use ocremote.Serialize.Casts.{IsInt32, Casts, max_exact}
use ocremote.Factory.Demand.{Floats}
use ocremote.Process.Reply.{Arithmetic}
use ocremote.Examples.Numbers.{bytes}

-- The numbers below nothing are the odd ones.
abbrev pub byte_of_int : ℤ → ℕ
byte_of_int (pos n) = 2 * n
byte_of_int (negsuc n) = 2 * n + 1

abbrev pub byte_to_int : ℕ → ℤ
byte_to_int x = if x % 2 == 0 then pos (x / 2) else negsuc (x / 2)

pub byte_to_int-byte_of_int : (n : ℤ) → IsInt32 n → byte_to_int (byte_of_int n) ≡ n
byte_to_int-byte_of_int (pos n) h = ground arith
byte_to_int-byte_of_int (negsuc n) h = ground arith

pub byte_to_size-of : (n : ℕ) → n < max_exact → 2 * n / 2 ≡ n
byte_to_size-of n h = omega arith

pub byte_minus : (n : ℕ) → n + 1 < max_exact → 2 * (n + 1) - 2 * 1 ≡ 2 * n
byte_minus n h = omega arith

pub byte_less : (m n : ℕ) → m < n → n < max_exact → ltb (2 * m) (2 * n) ≡ true
byte_less m n h k = ground arith

abbrev pub byte_casts : Casts bytes
byte_casts = record {
  of_int = byte_of_int;
  of_size = λ n. 2 * n;
  to_int = byte_to_int;
  to_size = λ x. x / 2;
  minus = λ x y. x - y;
  to_int-of_int = byte_to_int-byte_of_int;
  to_size-of_size = byte_to_size-of;
  minus-of_size = byte_minus;
  less-of_size = byte_less;
}

pub percent_less_asym : (x y : ℕ) → ltb x y ≡ true → ltb y x ≡ false
percent_less_asym x y h = ground arith

pub percent_not_less_trans : (x y z : ℕ) → ltb y x ≡ false → ltb z y ≡ false → ltb z x ≡ false
percent_not_less_trans x y z h k = ground arith

-- Percentages of numbers that are not below nothing.
abbrev pub percents : Floats
percents = record {
  Float = ℕ;
  ratio = λ a b. pos_part a * 100 / pos_part b;
  two = 200;
  less = λ x y. ltb x y;
  less_asym = percent_less_asym;
  not_less_trans = percent_not_less_trans;
}

abbrev pub byte_arithmetic : Arithmetic bytes
byte_arithmetic = record {
  plus = λ x y. x + y;
  times = λ x y. x * y;
  divide = λ x y. x / y;
  round = λ x. x;
  half = 0;
}
