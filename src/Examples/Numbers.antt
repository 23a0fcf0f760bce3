-- ===== src/Examples/Numbers.antt =====
-- A concrete choice for the parameter `Doubles`: one-byte numbers, printed as one byte.
use ocremote.Base.{
  ℕ, ◌+◌, ◌-◌, ◌≡◌, ◌≢◌, true, false, Option, none, some, [], ◌∷◌, Text, All, arith, ltb, ◌==◌,
}
use ocremote.Serialize.Value.{Doubles}

abbrev pub read_byte : Text → Option ℕ
read_byte [] = none
read_byte (c ∷ []) = some (c - 65)
read_byte (c ∷ d ∷ s) = none

pub byte_no_at : (x : ℕ) → All (λ c. c ≢ 64) ((x + 65) ∷ [])
byte_no_at x = ((λ e. absurd (omega arith)), tt)

pub read_byte-print : (x : ℕ) → read_byte ((x + 65) ∷ []) ≡ some x
read_byte-print x = ground arith

pub byte_eq_refl : (x : ℕ) → (x == x) ≡ true
byte_eq_refl x = ground arith

pub byte_eq_sym : (x y : ℕ) → (x == y) ≡ true → (y == x) ≡ true
byte_eq_sym x y h = ground arith

pub byte_eq_trans : (x y z : ℕ) → (x == y) ≡ true → (y == z) ≡ true → (x == z) ≡ true
byte_eq_trans x y z h k = ground arith

pub byte_less_asym : (x y : ℕ) → ltb x y ≡ true → ltb y x ≡ false
byte_less_asym x y h = ground arith

abbrev pub bytes : Doubles
bytes = record {
  Double = ℕ;
  print = λ x. (x + 65) ∷ [];
  stod = read_byte;
  is_normal = λ x. true;
  equal = λ x y. x == y;
  less = λ x y. ltb x y;
  print_no_at = byte_no_at;
  stod-print = λ x _. read_byte-print x;
  equal_refl = byte_eq_refl;
  equal_sym = byte_eq_sym;
  equal_trans = byte_eq_trans;
  less_asym = byte_less_asym;
}
