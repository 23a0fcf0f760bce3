-- ===== src/Factory/Bus/Counting.antt =====
-- How often a slot stands in the lists of the bus.
use ocremote.Base.{
  min, ℕ, ◌+◌, ◌≤◌, ◌≡◌, refl, false, List, [], ◌∷◌, ◌++◌, arith, ◌==◌, if◌then◌else◌,
}
use ocremote.Factory.Bus.{contains, emplace, erase, erase_all}

unfoldable pub count : ℕ → List ℕ → ℕ
count x [] = 0
count x (y ∷ ys) = (if y == x then 1 else 0) + count x ys

pub count-append : (x : ℕ) (xs ys : List ℕ) → count x (xs ++ ys) ≡ count x xs + count x ys
unfolding count
count-append x [] ys = omega arith
count-append x (z ∷ xs) ys = omega (arith, count-append x xs ys)

pub count-contains : (x : ℕ) (xs : List ℕ) → contains xs x ≡ false → count x xs ≡ 0
unfolding count contains
count-contains x [] h = refl
count-contains x (y ∷ ys) h = ground (arith, count-contains x ys)

pub count-erase :
    (x slot : ℕ) (xs : List ℕ) → count x (erase slot xs) ≡ (if slot == x then 0 else count x xs)
unfolding count erase
count-erase x slot [] = ground arith
count-erase x slot (y ∷ ys) = ground (arith, count-erase x slot ys)

pub contains-count : (x : ℕ) (xs : List ℕ) → count x xs ≡ 0 → contains xs x ≡ false
unfolding count contains
contains-count x [] h = refl
contains-count x (y ∷ ys) h = ground (arith, contains-count x ys)

pub count-emplace :
    (x slot : ℕ) (xs : List ℕ)
    → count slot xs ≡ 0
    → count x (emplace slot xs) ≡ (if slot == x then 1 else 0) + count x xs
unfolding count emplace
count-emplace x slot xs h = rw (contains-count slot xs h)

-- A slot that stands in the list at most once is taken out.
pub count-erase_all :
    (x : ℕ) (slots xs : List ℕ)
    → count x slots ≤ count x xs
    → count x xs ≤ 1
    → count x (erase_all slots xs) + count x slots ≡ count x xs
unfolding erase_all count
count-erase_all x [] xs h k = omega arith
count-erase_all x (slot ∷ slots) xs h k =
    let e = count-erase x slot xs in
    let rest =
      count-erase_all x slots (erase slot xs) (ground (arith, e, h, k)) (ground (arith, e, k)) in
    ground (arith, rest, e, h, k)

pub count-erase_all_le : (x : ℕ) (slots xs : List ℕ) → count x (erase_all slots xs) ≤ count x xs
unfolding erase_all count
count-erase_all_le x [] xs = omega arith
count-erase_all_le x (slot ∷ slots) xs =
    ground (arith, count-erase_all_le x slots (erase slot xs), count-erase x slot xs)

-- The slot is taken out of the list once, or not at all if it is not in it.
unfoldable pub take_out : ℕ → List ℕ → List ℕ
take_out slot [] = []
take_out slot (y ∷ ys) = let rest = take_out slot ys in if y == slot then ys else y ∷ rest

unfoldable pub without : List ℕ → List ℕ → List ℕ
unfolding take_out
without [] xs = xs
without (slot ∷ slots) xs = without slots (take_out slot xs)

count-take_out :
    (x slot : ℕ) (xs : List ℕ)
    → count x (take_out slot xs) + (if slot == x then min 1 (count x xs) else 0) ≡ count x xs
unfolding take_out count
count-take_out x slot [] = ground arith
count-take_out x slot (y ∷ ys) = ground (arith, count-take_out x slot ys)

pub count-without :
    (x : ℕ) (slots xs : List ℕ)
    → count x slots ≤ count x xs
    → count x xs ≡ count x slots + count x (without slots xs)
unfolding without count
count-without x [] xs h = omega arith
count-without x (slot ∷ slots) xs h =
    let one = count-take_out x slot xs in
    let rest = count-without x slots (take_out slot xs) (ground (arith, one, h)) in
    ground (arith, one, rest, h)
