-- ===== src/Base/Int.antt =====
-- Signed integers over the native numbers, under the library's names: the model of `int`.
-- Sums and orders go through the two parts of an integer, which are numbers that `omega` reads.
use Prim.Native.Nat.{ℕ, suc, ◌+◌, ◌-◌, ◌*◌, ◌/◌, ◌≤◌, ◌<◌}
use mathlib.Core.Path.{◌≡◌}
use mathlib.Core.Bool.{Bool, true, false, ◌&&◌}
use mathlib.Core.Logic.{◌⊎◌}
use native.Mathlib.Omega.{arith}
use ocremote.Base.Tests.{ltb, leb, if◌then◌else◌}

-- `negsuc n` is -(n + 1).
pub data ℤ : Type 0 where
  pos : ℕ → ℤ
  negsuc : ℕ → ℤ

abbrev pub pos_part : ℤ → ℕ
pos_part (pos n) = n
pos_part (negsuc n) = 0

abbrev pub neg_part : ℤ → ℕ
neg_part (pos n) = 0
neg_part (negsuc n) = suc n

abbrev pub sub_ℕ : ℕ → ℕ → ℤ
sub_ℕ a b = if leb b a then pos (a - b) else negsuc (b - a - 1)

infixl 65 ◌+ℤ◌ ◌-ℤ◌
infix 50 ◌≤ℤ◌ ◌<ℤ◌
unfoldable pub ◌+ℤ◌ : ℤ → ℤ → ℤ
a +ℤ b = sub_ℕ (pos_part a + pos_part b) (neg_part a + neg_part b)

unfoldable pub ◌-ℤ◌ : ℤ → ℤ → ℤ
a -ℤ b = sub_ℕ (pos_part a + neg_part b) (neg_part a + pos_part b)

abbrev pub ◌≤ℤ◌ : ℤ → ℤ → Type 0
a ≤ℤ b = pos_part a + neg_part b ≤ pos_part b + neg_part a

abbrev pub ◌<ℤ◌ : ℤ → ℤ → Type 0
a <ℤ b = suc (pos_part a + neg_part b) ≤ pos_part b + neg_part a

abbrev pub ltb_ℤ : ℤ → ℤ → Bool
ltb_ℤ a b = ltb (pos_part a + neg_part b) (pos_part b + neg_part a)

abbrev pub leb_ℤ : ℤ → ℤ → Bool
leb_ℤ a b = leb (pos_part a + neg_part b) (pos_part b + neg_part a)

-- std::min and std::max at `int`.
unfoldable pub min_ℤ : ℤ → ℤ → ℤ
min_ℤ a b = if ltb_ℤ b a then b else a

unfoldable pub max_ℤ : ℤ → ℤ → ℤ
max_ℤ a b = if ltb_ℤ a b then b else a

-- One lemma for each operation lets `omega` work with the operations shut, at any depth.
pub +ℤ_parts :
    (a b : ℤ)
    → pos_part (a +ℤ b) + neg_part a + neg_part b ≡ neg_part (a +ℤ b) + pos_part a + pos_part b
unfolding ◌+ℤ◌
+ℤ_parts a b = ground arith

pub -ℤ_parts :
    (a b : ℤ)
    → pos_part (a -ℤ b) + neg_part a + pos_part b ≡ neg_part (a -ℤ b) + pos_part a + neg_part b
unfolding ◌-ℤ◌
-ℤ_parts a b = ground arith

pub eq_of_parts : (a b : ℤ) → pos_part a + neg_part b ≡ pos_part b + neg_part a → a ≡ b
eq_of_parts a b h = ground arith

pub ruleset int_laws = (arith, +ℤ_parts, -ℤ_parts, eq_of_parts)

-- The two parts of a minimum or maximum are those of the one argument or of the other.
pub min_ℤ_parts :
    (a b : ℤ)
    → ((pos_part (min_ℤ a b) ≡ pos_part a) × (neg_part (min_ℤ a b) ≡ neg_part a) × (a ≤ℤ b))
      ⊎ ((pos_part (min_ℤ a b) ≡ pos_part b) × (neg_part (min_ℤ a b) ≡ neg_part b) × (b <ℤ a))
unfolding min_ℤ
min_ℤ_parts a b = ground arith

pub max_ℤ_parts :
    (a b : ℤ)
    → ((pos_part (max_ℤ a b) ≡ pos_part b) × (neg_part (max_ℤ a b) ≡ neg_part b) × (a <ℤ b))
      ⊎ ((pos_part (max_ℤ a b) ≡ pos_part a) × (neg_part (max_ℤ a b) ≡ neg_part a) × (b ≤ℤ a))
unfolding max_ℤ
max_ℤ_parts a b = ground arith

-- A test on an `int`, and whether it is zero.
abbrev pub eq_ℤ : ℤ → ℤ → Bool
eq_ℤ a b = leb_ℤ a b && leb_ℤ b a

abbrev pub is_zero : ℤ → Bool
is_zero a = eq_ℤ a (pos 0)

pub eq_ℤ_sound : (a b : ℤ) → eq_ℤ a b ≡ true → a ≡ b
eq_ℤ_sound a b h = ground arith

pub ltb_ℤ→lt : (a b : ℤ) → ltb_ℤ a b ≡ true → a <ℤ b
ltb_ℤ→lt a b h = ground arith

pub ltb_ℤ→le : (a b : ℤ) → ltb_ℤ a b ≡ false → b ≤ℤ a
ltb_ℤ→le a b h = ground arith

pub not_zero_parts :
    (a : ℤ) → is_zero a ≡ false → (pos_part a < neg_part a) ⊎ (neg_part a < pos_part a)
not_zero_parts a h = ground arith

pub zero_parts : (a : ℤ) → is_zero a ≡ true → pos_part a ≡ neg_part a
zero_parts a h = ground arith

-- An equation of integers as one of numbers, for `omega`.
pub parts_eq : {a b : ℤ} → a ≡ b → pos_part a + neg_part b ≡ pos_part b + neg_part a
parts_eq e = ground arith

-- Integer division rounds towards zero. (By zero it is undefined in the source; here it is 0.)
neg : ℕ → ℤ
neg n = sub_ℕ 0 n

unfoldable pub div_ℤ : ℤ → ℤ → ℤ
unfolding neg
div_ℤ (pos a) (pos b) = pos (a / b)
div_ℤ (pos a) (negsuc b) = neg (a / suc b)
div_ℤ (negsuc a) (pos b) = neg (suc a / b)
div_ℤ (negsuc a) (negsuc b) = pos (suc a / suc b)

infixl 70 ◌*ℤ◌
unfoldable pub ◌*ℤ◌ : ℤ → ℤ → ℤ
a *ℤ b =
    sub_ℕ (pos_part a * pos_part b + neg_part a * neg_part b)
      (pos_part a * neg_part b + neg_part a * pos_part b)

pub leb_ℤ→le : (a b : ℤ) → leb_ℤ a b ≡ true → a ≤ℤ b
leb_ℤ→le a b h = ground arith

pub leb_ℤ→lt : (a b : ℤ) → leb_ℤ a b ≡ false → b <ℤ a
leb_ℤ→lt a b h = ground arith

-- No more sets than the quotient need no more than there is.
pub div-mul : (n a b : ℤ) → pos 0 ≤ℤ n → pos 0 ≤ℤ a → pos 0 <ℤ b → n ≤ℤ div_ℤ a b → n *ℤ b ≤ℤ a
unfolding div_ℤ ◌*ℤ◌
div-mul (pos n) (pos a) (pos b) hn ha hb h = grind arith
div-mul (pos n) (pos a) (negsuc b) hn ha hb h = absurd (omega arith)
div-mul (pos n) (negsuc a) b hn ha hb h = absurd (omega arith)
div-mul (negsuc n) a b hn ha hb h = absurd (omega arith)

pub div-mul_pos : (n a b : ℤ) → pos 0 <ℤ n → pos 0 <ℤ b → n ≤ℤ div_ℤ a b → n *ℤ b ≤ℤ a
unfolding div_ℤ neg
div-mul_pos n (pos a) b hn hb h = div-mul n (pos a) b (omega arith) (omega arith) hb h
div-mul_pos n (negsuc a) (pos b) hn hb h = absurd (ground arith)
div-mul_pos n (negsuc a) (negsuc b) hn hb h = absurd (omega arith)

-- More sets than the quotient need more than there is.
pub div-lt : (n : ℕ) (a b : ℤ) → pos 0 <ℤ b → div_ℤ a b <ℤ pos n → a <ℤ pos n *ℤ b
unfolding div_ℤ ◌*ℤ◌ neg
div-lt n (pos a) (pos b) hb h = grind arith
div-lt n (negsuc a) (pos b) hb h = grind arith
div-lt n a (negsuc b) hb h = absurd (omega arith)

pub zero_add : (n : ℤ) → pos 0 +ℤ n ≡ n
zero_add n = eq_of_parts _ _ (omega int_laws)
