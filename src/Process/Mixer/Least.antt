-- ===== src/Process/Mixer/Least.antt =====
-- Which color the mixer makes.
use ocremote.Base.{
  ℕ, zero, suc, ◌+◌, ◌≡◌, refl, inl, inr, ◌⊎◌, some, List, [], ◌∷◌, ◌++◌, append_assoc, append-nil,
  All, length, length-append, get_elem?, get_elem?-middle, arith, Bool-cases,
}
use ocremote.Base.Int.{ℤ, ◌≤ℤ◌, ◌<ℤ◌, ltb_ℤ, leb_ℤ, ltb_ℤ→lt, ltb_ℤ→le, leb_ℤ→le, leb_ℤ→lt}
use ocremote.Process.Mixer.{min_element, choose_color}

-- Of the values, the one at the index is none larger than another.
record IsLeast (xs : List ℤ) (i : ℕ) (least : ℤ) : Type 0 where
  at : get_elem? xs i ≡ some least
  bound : All (λ x. least ≤ℤ x) xs

All-append-one : (P : ℤ → Type 0) (xs : List ℤ) (x : ℤ) → All P xs → P x → All P (xs ++ x ∷ [])
All-append-one P [] x h k = (k, tt)
All-append-one P (y ∷ ys) x h k = (h.0, All-append-one P ys x h.1 k)

All-le : (xs : List ℤ) (a b : ℤ) → b ≤ℤ a → All (λ x. a ≤ℤ x) xs → All (λ x. b ≤ℤ x) xs
All-le [] a b h k = tt
All-le (x ∷ xs) a b h k = (omega (arith, k.0), All-le xs a b h k.1)

get_elem?-front :
    (xs : List ℤ) (x : ℤ) (i : ℕ) (v : ℤ)
    → get_elem? xs i ≡ some v
    → get_elem? (xs ++ x ∷ []) i ≡ some v
get_elem?-front [] x i v h = cc
get_elem?-front (y ∷ ys) x zero v h = h
get_elem?-front (y ∷ ys) x (suc i) v h = get_elem?-front ys x i v h

min_element-IsLeast :
    (done rest : List ℤ) (i best : ℕ) (least : ℤ)
    → i ≡ length done
    → IsLeast done best least
    → let r = min_element i best least rest in IsLeast (done ++ rest) r.0 r.1
unfolding min_element
min_element-IsLeast done [] i best least here v = rw (append-nil done) v
min_element-IsLeast done (x ∷ rest) i best least here v =
    rw (← append_assoc done (x ∷ []) rest) (elim (Bool-cases (ltb_ℤ x least)) [
      | inl e ↦
          rw (e, min_element)
            (min_element-IsLeast (done ++ x ∷ []) rest (i + 1) i x
              (omega (arith, here, length-append done (x ∷ [])))
              (record {
                at = rw here (get_elem?-middle done x []);
                bound =
                    All-append-one (λ y. x ≤ℤ y) done x
                      (All-le done least x (omega (arith, ltb_ℤ→lt x least e)) v.bound)
                      (omega arith);
              }))
      | inr e ↦
          rw (e, min_element)
            (min_element-IsLeast (done ++ x ∷ []) rest (i + 1) best least
              (omega (arith, here, length-append done (x ∷ [])))
              (record {
                at = get_elem?-front done x best least v.at;
                bound = All-append-one (λ y. least ≤ℤ y) done x v.bound (ltb_ℤ→le x least e);
              }))
    ])

-- The mixer is off exactly where every plastic is there as often as it is needed; otherwise it is
-- set to one more than the index of a plastic of which less is there than is needed, and none is
-- there less often.
pub choose_color-least :
    (needed first : ℤ) (rest : List ℤ)
    → ((choose_color needed first rest ≡ 0) × All (λ x. needed ≤ℤ x) (first ∷ rest))
      ⊎ ((i : ℕ) × (least : ℤ) × (choose_color needed first rest ≡ i + 1)
          × (get_elem? (first ∷ rest) i ≡ some least)
          × (least <ℤ needed)
          × All (λ x. least ≤ℤ x) (first ∷ rest))
unfolding choose_color
choose_color-least needed first rest =
    let v =
      min_element-IsLeast (first ∷ []) rest 1 0 first refl
        (record { at = refl; bound = (omega arith, tt) }) in
    let r = min_element 1 0 first rest in
    elim (Bool-cases (leb_ℤ needed r.1)) [
      | inl e ↦ rw e (inl (refl, All-le (first ∷ rest) r.1 needed (leb_ℤ→le needed r.1 e) v.bound))
      | inr e ↦ rw e (inr (r.0, r.1, refl, v.at, leb_ℤ→lt needed r.1 e, v.bound))
    ]
