-- ===== src/Serialize/Value.antt =====
-- The values of the wire format: Serialize.h. `double` and its text are the platform's, so they
-- are a parameter: `Doubles` has the operations that the code calls and what it relies on.
use ocremote.Base.{◌≡◌, ◌≢◌, Bool, true, false, Option, some, Text, All}

-- The doubles that the program meets, which are all but NaN; `operator==` and `operator<` on them,
-- `std::ostream << double` with `max_digits10` digits, and `std::stod`.
pub record Doubles : Type 1 where
  pub Double : Type 0
  -- what `os << std::setprecision(max_digits10) << x` writes
  pub print : Double → Text
  -- `std::stod`, which throws on what it cannot read
  pub stod : Text → Option Double
  -- zeros and normal numbers: the values that `stod` reads back without a range error
  pub is_normal : Double → Bool
  pub equal : Double → Double → Bool
  pub less : Double → Double → Bool
  -- a printed number has digits, signs, points and letters: never the terminator `@`
  pub print_no_at : (x : Double) → All (λ c. c ≢ 64) (print x)
  -- `max_digits10` digits identify a double
  pub stod-print : (x : Double) → is_normal x ≡ true → stod (print x) ≡ some x
  pub equal_refl : (x : Double) → equal x x ≡ true
  pub equal_sym : (x y : Double) → equal x y ≡ true → equal y x ≡ true
  pub equal_trans : (x y z : Double) → equal x y ≡ true → equal y z ≡ true → equal x z ≡ true
  pub less_asym : (x y : Double) → less x y ≡ true → less y x ≡ false

-- std::variant<double, std::string, bool>
pub data Key (D : Type 0) : Type 0 where
  num : D → Key D
  str : Text → Key D
  bool : Bool → Key D

-- SValue, and STable: a std::map, which is the list of its entries in the order of their keys.
mutual
  pub data Value (D : Type 0) : Type 0 where
    nil : Value D
    num : D → Value D
    str : Text → Value D
    bool : Bool → Value D
    table : Table D → Value D

  pub data Table (D : Type 0) : Type 0 where
    end : Table D
    entry : Key D → Value D → Table D → Table D
