-- ===== src/Serialize/Table/Laws.antt =====
-- What a std::map has after a change at a key that is a string.
use ocremote.Base.{
  ◌≡◌, refl, sym, ap, inl, inr, ◌⊎◌, Bool, true, false, ◌||◌, none, some, [], ◌∷◌, Text, arith,
  Bool-cases,
}
use ocremote.Serialize.Value.{Doubles, Key, Value, Table, end, entry}
use ocremote.Serialize.Table.{text_less, text_less_asym, key_less, key_less_asym, put, find, erase}
use ocremote.Serialize.WellFormed.{Above}

text_less_trans :
    (x y z : Text) → text_less x y ≡ true → text_less y z ≡ true → text_less x z ≡ true
unfolding text_less
text_less_trans [] [] z h k = cc
text_less_trans [] (y ∷ ys) [] h k = cc
text_less_trans [] (y ∷ ys) (z ∷ zs) h k = refl
text_less_trans (x ∷ xs) [] z h k = cc
text_less_trans (x ∷ xs) (y ∷ ys) [] h k = cc
text_less_trans (x ∷ xs) (y ∷ ys) (z ∷ zs) h k = ground (arith, text_less_trans xs ys zs)

text_less_irrefl : (x : Text) → text_less x x ≡ false
unfolding text_less
text_less_irrefl [] = refl
text_less_irrefl (x ∷ xs) = ground (arith, text_less_irrefl xs)

-- Neither comes first: the texts are the same.
text_less_total : (x y : Text) → text_less x y ≡ false → text_less y x ≡ false → x ≡ y
unfolding text_less
text_less_total [] [] h k = refl
text_less_total [] (y ∷ ys) h k = cc
text_less_total (x ∷ xs) [] h k = cc
text_less_total (x ∷ xs) (y ∷ ys) h k = ground (arith, text_less_total xs ys)

-- The two texts differ: the one or the other comes first.
abbrev pub differ : Text → Text → Bool
differ x y = text_less x y || text_less y x

module _ (F : Doubles) where
  open F use {Double}

  less_trans :
      (s : Text) (i j : Key Double)
      → key_less F (Key.str s) i ≡ true
      → key_less F i j ≡ true
      → key_less F (Key.str s) j ≡ true
  unfolding key_less
  less_trans s (Key.num x) j h k = cc
  less_trans s (Key.str t) (Key.num x) h k = cc
  less_trans s (Key.str t) (Key.str u) h k = text_less_trans s t u h k
  less_trans s (Key.str t) (Key.bool b) h k = refl
  less_trans s (Key.bool a) (Key.num x) h k = cc
  less_trans s (Key.bool a) (Key.str u) h k = cc
  less_trans s (Key.bool a) (Key.bool b) h k = refl

  -- A key that is neither before nor after a string is that string.
  less_total :
      (s : Text) (i : Key Double)
      → key_less F (Key.str s) i ≡ false
      → key_less F i (Key.str s) ≡ false
      → i ≡ Key.str s
  unfolding key_less
  less_total s (Key.num x) h k = cc
  less_total s (Key.str t) h k = ap Key.str (sym (text_less_total s t h k))
  less_total s (Key.bool b) h k = cc

  -- The keys ascend.
  abbrev pub IsAscending : Table Double → Type 0
  IsAscending end = Unit
  IsAscending (entry k v t) = Above F k t × IsAscending t

  key_self : (s : Text) → key_less F (Key.str s) (Key.str s) ≡ false
  unfolding key_less
  key_self s = text_less_irrefl s

  pub find-put_self :
      (s : Text) (v : Value Double) (t : Table Double)
      → find F (Key.str s) (put F (Key.str s) v t) ≡ some v
  unfolding find put
  find-put_self s v end = ground (arith, key_self s)
  find-put_self s v (entry i u t) =
      ground (arith, key_self s, key_less_asym F i (Key.str s), find-put_self s v t)

  pub erase-put_self :
      (s : Text) (v : Value Double) (t : Table Double)
      → erase F (Key.str s) (put F (Key.str s) v t) ≡ erase F (Key.str s) t
  unfolding erase put
  erase-put_self s v end = ground (arith, key_self s)
  erase-put_self s v (entry i u t) =
      ground (arith, key_self s, key_less_asym F i (Key.str s), erase-put_self s v t)

  -- The keys of two strings that differ are in order, the one way or the other.
  Apart : Text → Text → Type 0
  Apart s r =
      ((key_less F (Key.str s) (Key.str r) ≡ true) × (key_less F (Key.str r) (Key.str s) ≡ false))
      ⊎ ((key_less F (Key.str s) (Key.str r) ≡ false) × (key_less F (Key.str r) (Key.str s) ≡ true))

  differ-Apart : (s r : Text) → differ s r ≡ true → Apart s r
  unfolding key_less Apart
  differ-Apart s r h = elim (Bool-cases (text_less s r)) [
    | inl e ↦ inl (e, text_less_asym s r e)
    | inr e ↦ inr (e, rw e at h)
  ]

  -- A key that is neither before nor after a string stands where the string stands.
  same_place :
      (r : Text) (i j : Key Double)
      → key_less F (Key.str r) i ≡ false
      → key_less F i (Key.str r) ≡ false
      → (key_less F j i ≡ key_less F j (Key.str r)) × (key_less F i j ≡ key_less F (Key.str r) j)
  same_place r i j h k =
      let e = less_total r i h k in (ap (λ x. key_less F j x) e, ap (λ x. key_less F x j) e)

  pub find-put_ne :
      (s r : Text) (w : Value Double) (t : Table Double)
      → differ s r ≡ true
      → find F (Key.str s) (put F (Key.str r) w t) ≡ find F (Key.str s) t
  unfolding find put Apart
  find-put_ne s r w end h = elim (differ-Apart s r h) [
    | inl (a, b) ↦ rw a refl
    | inr (a, b) ↦ rw (a, b) refl
  ]
  find-put_ne s r w (entry i u t) h =
      let ih = find-put_ne s r w t h in
      elim (differ-Apart s r h) [
        | inl (a, b) ↦ ground (arith, less_trans s (Key.str r) i, same_place r i (Key.str s))
        | inr (a, b) ↦ ground (arith, same_place r i (Key.str s))
      ]

  put-Above :
      (r : Text) (w : Value Double) (t : Table Double)
      → Above F (Key.str r) t
      → put F (Key.str r) w t ≡ entry (Key.str r) w t
  unfolding put
  put-Above r w end a = refl
  put-Above r w (entry i u t) (Above.entry e a) = rw e refl

  Above_trans :
      (s : Text) (i : Key Double) (t : Table Double)
      → key_less F (Key.str s) i ≡ true
      → Above F i t
      → Above F (Key.str s) t
  Above_trans s i end e a = Above.end
  Above_trans s i (entry j u t) e (Above.entry d a) =
      Above.entry (less_trans s i j e d) (Above_trans s i t e a)

  pub erase-put_ne :
      (s r : Text) (w : Value Double) (t : Table Double)
      → differ s r ≡ true
      → IsAscending t
      → erase F (Key.str s) (put F (Key.str r) w t) ≡ put F (Key.str r) w (erase F (Key.str s) t)
  unfolding erase put Apart
  erase-put_ne s r w end h a = elim (differ-Apart s r h) [
    | inl (a, b) ↦ rw a refl
    | inr (a, b) ↦ rw (a, b) refl
  ]
  erase-put_ne s r w (entry i u t) h a =
      let ih = erase-put_ne s r w t h a.1 in
      let before =
        λ (e : key_less F (Key.str r) i ≡ true). put-Above r w t (Above_trans r i t e a.0) in
      elim (differ-Apart s r h) [
        | inl (d, b) ↦ ground (
          arith,
          less_trans s (Key.str r) i,
          same_place r i (Key.str s),
          same_place s i (Key.str r),
        )
        | inr (d, b) ↦ ground (
          arith,
          less_trans r (Key.str s) i,
          same_place r i (Key.str s),
          same_place s i (Key.str r),
          key_less_asym F i (Key.str r),
          before,
        )
      ]

  Above-put :
      (k : Key Double) (r : Text) (w : Value Double) (t : Table Double)
      → key_less F k (Key.str r) ≡ true
      → Above F k t
      → Above F k (put F (Key.str r) w t)
  unfolding put
  Above-put k r w end e a = Above.entry e Above.end
  Above-put k r w (entry i u t) e (Above.entry d a) = elim (Bool-cases (key_less F (Key.str r) i)) [
    | inl c ↦ rw c (Above.entry e (Above.entry d a))
    | inr c ↦ elim (Bool-cases (key_less F i (Key.str r))) [
      | inl b ↦ rw (c, b) (Above.entry d (Above-put k r w t e a))
      | inr b ↦ rw (c, b) (Above.entry d a)
    ]
  ]

  pub put-IsAscending :
      (r : Text) (w : Value Double) (t : Table Double)
      → IsAscending t
      → IsAscending (put F (Key.str r) w t)
  unfolding put
  put-IsAscending r w end a = (Above.end, tt)
  put-IsAscending r w (entry i u t) a = elim (Bool-cases (key_less F (Key.str r) i)) [
    | inl c ↦ rw c (Above.entry c (Above_trans r i t c a.0), a)
    | inr c ↦ elim (Bool-cases (key_less F i (Key.str r))) [
      | inl b ↦ rw (c, b) (Above-put i r w t b a.0, put-IsAscending r w t a.1)
      | inr b ↦ rw (c, b) a
    ]
  ]

  -- To erase a key that is absent changes nothing.
  pub erase_absent : (k : Key Double) (t : Table Double) → find F k t ≡ none → erase F k t ≡ t
  unfolding find erase
  erase_absent k end h = refl
  erase_absent k (entry i u t) h = ground (arith, erase_absent k t)
