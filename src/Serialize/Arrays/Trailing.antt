-- ===== src/Serialize/Arrays/Trailing.antt =====
-- Writing a list as a table and reading it back.
use ocremote.Base.{
  ℕ, ◌+◌, ◌≤◌, ◌<◌, ◌≡◌, refl, sym, ap, ◌∙◌, inl, inr, ◌⊎◌, true, false, List, [], Bool-cases,
  if◌then◌else◌, append_assoc, append-nil, length-append, ◌∷◌, ◌++◌, length, arith,
}
use ocremote.Serialize.Value.{Doubles, Key, Value, Table}
use ocremote.Serialize.Casts.{Casts, max_exact}
use ocremote.Serialize.Table.{put, key_less, key_less_asym}
use ocremote.Serialize.Arrays.{
  ok, is_nil, store, put_values, array_to_table, index_of, store_entries, table_to_array,
}

-- The list without the nils at its end.
unfoldable pub without_trailing : {D : Type 0} → List (Value D) → List (Value D)
without_trailing [] = []
without_trailing (v ∷ vs) = elim (without_trailing vs) [
  | [] ↦ if is_nil v then [] else v ∷ []
  | w ∷ ws ↦ v ∷ w ∷ ws
]

List-cases : {A : Type 0} (xs : List A) → (xs ≡ []) ⊎ ((y : A) × (ys : List A) × (xs ≡ y ∷ ys))
List-cases [] = inl refl
List-cases (y ∷ ys) = inr (y, ys, refl)

module _ {D : Type 0} where
  is_nil-eq-nil : (v : Value D) → is_nil v ≡ true → v ≡ Value.nil
  is_nil-eq-nil Value.nil h = refl
  is_nil-eq-nil (Value.num x) h = cc
  is_nil-eq-nil (Value.str s) h = cc
  is_nil-eq-nil (Value.bool b) h = cc
  is_nil-eq-nil (Value.table t) h = cc

  store-without_trailing :
      (vs : List (Value D)) (v : Value D) → store (length vs) v (without_trailing vs) ≡ vs ++ v ∷ []
  unfolding store without_trailing
  store-without_trailing [] v = refl
  store-without_trailing (p ∷ ps) v = elim (List-cases (without_trailing ps)) [
    | inl e ↦
        let ih : store (length ps) v [] ≡ ps ++ v ∷ [] = rw e at (store-without_trailing ps v) in
        elim (Bool-cases (is_nil p)) [
          | inl z ↦ rw (e, z, without_trailing) (rw (is_nil-eq-nil p z) (ap (◌∷◌ Value.nil) ih))
          | inr z ↦ rw (e, z, without_trailing) (ap (◌∷◌ p) ih)
        ]
    | inr (y, ys, e) ↦
        let ih : store (length ps) v (y ∷ ys) ≡ ps ++ v ∷ [] =
          rw e at (store-without_trailing ps v) in
        rw (e, without_trailing) (ap (◌∷◌ p) ih)
  ]

  without_trailing-snoc_nil :
      (vs : List (Value D)) (v : Value D)
      → is_nil v ≡ true
      → without_trailing (vs ++ v ∷ []) ≡ without_trailing vs
  unfolding without_trailing
  without_trailing-snoc_nil [] v h = rw h refl
  without_trailing-snoc_nil (p ∷ ps) v h =
      rw (without_trailing-snoc_nil ps v h, without_trailing) refl

  without_trailing-snoc :
      (vs : List (Value D)) (v : Value D)
      → is_nil v ≡ false
      → without_trailing (vs ++ v ∷ []) ≡ vs ++ v ∷ []
  unfolding without_trailing
  without_trailing-snoc [] v h = rw h refl
  without_trailing-snoc (p ∷ ps) v h =
      rw (without_trailing-snoc ps v h, without_trailing) (cons_snoc p ps)
    where
      cons_snoc :
          (p : Value D) (ps : List (Value D))
          → elim (ps ++ v ∷ []) as (λ _. List (Value D)) [
            | [] ↦ if is_nil p then [] else p ∷ []
            | w ∷ ws ↦ p ∷ w ∷ ws
          ]
            ≡ p ∷ ps ++ v ∷ []
      cons_snoc p [] = refl
      cons_snoc p (q ∷ ps) = refl

module _ (F : Doubles) (C : Casts F) where
  open F use {Double, equal}
  open C use {of_size, to_size, minus}

  append_table : Table Double → Table Double → Table Double
  append_table Table.end u = u
  append_table (Table.entry k v t) u = Table.entry k v (append_table t u)

  -- The keys are indices, from 1 up to `i`.
  Below : ℕ → Table Double → Type 0
  Below i Table.end = Unit
  Below i (Table.entry k v t) = ((j : ℕ) × (k ≡ Key.num (of_size j)) × (j ≤ i)) × Below i t

  -- The entries of the values that are not nil, from index `i` on.
  numbered : ℕ → List (Value Double) → Table Double
  numbered i [] = Table.end
  numbered i (v ∷ vs) =
      if is_nil v
      then numbered (i + 1) vs
      else Table.entry (Key.num (of_size (i + 1))) v (numbered (i + 1) vs)

  put-Below :
      (i : ℕ) (v : Value Double) (t : Table Double)
      → i + 1 < max_exact
      → Below i t
      → put F (Key.num (of_size (i + 1))) v t
        ≡ append_table t (Table.entry (Key.num (of_size (i + 1))) v Table.end)
  unfolding put Below append_table
  put-Below i v Table.end small b = refl
  put-Below i v (Table.entry k w t) small b =
      let (j, same, le) = b.0 in
      let less : key_less F k (Key.num (of_size (i + 1))) ≡ true =
        rw same (unfold key_less in C.less-of_size j (i + 1) (omega arith) small) in
      let not_less = key_less_asym F k (Key.num (of_size (i + 1))) less in
      rw (not_less, put) (rw less (ap (Table.entry k w) (put-Below i v t small b.1)))

  append_table-Below :
      (i : ℕ) (v : Value Double) (t : Table Double)
      → Below i t
      → Below (i + 1) (append_table t (Table.entry (Key.num (of_size (i + 1))) v Table.end))
  unfolding append_table Below
  append_table-Below i v Table.end b = ((i + 1, refl, omega arith), tt)
  append_table-Below i v (Table.entry k w t) b =
      let (j, same, le) = b.0 in ((j, same, omega arith), append_table-Below i v t b.1)

  Below-suc : (i : ℕ) (t : Table Double) → Below i t → Below (i + 1) t
  unfolding Below
  Below-suc i Table.end b = tt
  Below-suc i (Table.entry k w t) b =
      let (j, same, le) = b.0 in ((j, same, omega arith), Below-suc i t b.1)

  append_table_assoc :
      (t : Table Double) (k : Key Double) (v : Value Double) (u : Table Double)
      → append_table (append_table t (Table.entry k v Table.end)) u
        ≡ append_table t (Table.entry k v u)
  unfolding append_table
  append_table_assoc Table.end k v u = refl
  append_table_assoc (Table.entry j w t) k v u = ap (Table.entry j w) (append_table_assoc t k v u)

  append_table-end : (t : Table Double) → append_table t Table.end ≡ t
  unfolding append_table
  append_table-end Table.end = refl
  append_table-end (Table.entry k v t) = ap (Table.entry k v) (append_table-end t)

  put_values-eq-numbered :
      (i : ℕ) (vs : List (Value Double)) (t : Table Double)
      → i + length vs < max_exact
      → Below i t
      → put_values F C i vs t ≡ append_table t (numbered i vs)
  unfolding put_values numbered
  put_values-eq-numbered i [] t small b = sym (append_table-end t)
  put_values-eq-numbered i (v ∷ vs) t small b = elim (Bool-cases (is_nil v)) [
    | inl e ↦ rw e (put_values-eq-numbered (i + 1) vs t (omega arith) (Below-suc i t b))
    | inr e ↦ rw e (
        rw (put-Below i v t (omega arith) b) (
          put_values-eq-numbered (i + 1) vs _ (omega arith) (append_table-Below i v t b)
          ∙ append_table_assoc t (Key.num (of_size (i + 1))) v (numbered (i + 1) vs)))
  ]

  index_of-of_size : (n : ℕ) → n + 1 < max_exact → index_of F C (Key.num (of_size (n + 1))) ≡ ok n
  unfolding index_of
  index_of-of_size n small =
      rw (C.minus-of_size n small)
        (rw (C.to_size-of_size n (omega arith), F.equal_refl (of_size n)) refl)

  store_entries-numbered :
      (vs done : List (Value Double))
      → length done + length vs < max_exact
      → store_entries F C (numbered (length done) vs) (without_trailing done)
        ≡ ok (without_trailing (done ++ vs))
  unfolding store_entries numbered
  store_entries-numbered [] done small = ap (λ d. ok (without_trailing d)) (sym (append-nil done))
  store_entries-numbered (v ∷ vs) done small =
      let ih : store_entries F C (numbered (length done + 1) vs) (without_trailing (done ++ v ∷ []))
          ≡ ok (without_trailing (done ++ v ∷ vs)) =
        rw (← append_assoc done (v ∷ []) vs) (
          rw (← length-append done (v ∷ [])) (
            store_entries-numbered vs (done ++ v ∷ [])
              (omega (arith, length-append done (v ∷ []))))) in
      elim (Bool-cases (is_nil v)) [
        | inl e ↦ rw e (rw (sym (without_trailing-snoc_nil done v e)) ih)
        | inr e ↦ rw (e) (
            rw (index_of-of_size (length done) (omega arith), store_entries)
              (rw (store-without_trailing done v ∙ sym (without_trailing-snoc done v e)) ih))
      ]

  -- A list that is written as a table and read back is the list without the nils at its end, if it
  -- is shorter than the integers that are exact as doubles.
  pub table_to_array-array_to_table :
      (vs : List (Value Double))
      → length vs < max_exact
      → table_to_array F C (array_to_table F C vs) ≡ ok (without_trailing vs)
  unfolding table_to_array array_to_table Below append_table without_trailing
  table_to_array-array_to_table vs small =
      rw (put_values-eq-numbered 0 vs Table.end (omega arith) tt)
        (store_entries-numbered vs [] (omega arith))
