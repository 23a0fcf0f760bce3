-- ===== src/Serialize/Arrays.antt =====
-- `arrayToSTable` and `sTableToArray` of server/CPPImpl/Serialize.cpp.
pub mod Trailing
use ocremote.Base.{
  ℕ, zero, suc, ◌+◌, Bool, true, false, Option, none, some, List, [], ◌∷◌, Text, if◌then◌else◌,
}
use ocremote.Serialize.Value.{Doubles, Key, Value, Table}
use ocremote.Serialize.Casts.{Casts}
use ocremote.Serialize.Table.{put}

-- What the calls throw.
pub data Error : Type 0 where
  -- std::bad_variant_access
  bad_variant : Error
  -- std::runtime_error
  non_integer_key : Error
  key_not_found : Text → Error
  -- std::out_of_range
  out_of_range : Error

pub data Result (A : Type 0) : Type 0 where
  ok : A → Result A
  err : Error → Result A

infixl 5 ◌>>=◌
abbrev pub ◌>>=◌ : {A B : Type 0} → Result A → (A → Result B) → Result B
ok a >>= f = f a
err e >>= f = err e

-- holds_alternative<std::monostate>
abbrev pub is_nil : {D : Type 0} → Value D → Bool
is_nil Value.nil = true
is_nil other = false

-- result.resize(i + 1) if it is shorter, and result[i] = v.
unfoldable pub store : {D : Type 0} → ℕ → Value D → List (Value D) → List (Value D)
store zero v [] = v ∷ []
store zero v (x ∷ xs) = v ∷ xs
store (suc i) v [] = Value.nil ∷ store i v []
store (suc i) v (x ∷ xs) = x ∷ store i v xs

module _ (F : Doubles) (C : Casts F) where
  open F use {Double, equal}
  open C use {of_size, to_size, minus}

  -- The loop of `arrayToSTable` from index `i` on.
  unfoldable pub put_values : ℕ → List (Value Double) → Table Double → Table Double
  put_values i [] result = result
  put_values i (v ∷ vs) result =
      put_values (i + 1) vs
        (if is_nil v then result else put F (Key.num (of_size (i + 1))) v result)

  unfoldable pub array_to_table : List (Value Double) → Table Double
  unfolding put_values
  array_to_table vs = put_values 0 vs Table.end

  -- The index of an entry.
  unfoldable pub index_of : Key Double → Result ℕ
  index_of (Key.num x) =
      let key = minus x (of_size 1) in
      if equal (of_size (to_size key)) key then ok (to_size key) else err non_integer_key
  index_of (Key.str s) = err bad_variant
  index_of (Key.bool b) = err bad_variant

  -- The loop of `sTableToArray` over the entries.
  unfoldable pub store_entries : Table Double → List (Value Double) → Result (List (Value Double))
  unfolding index_of store
  store_entries Table.end result = ok result
  store_entries (Table.entry k v t) result = index_of k >>= λ i. store_entries t (store i v result)

  unfoldable pub table_to_array : Table Double → Result (List (Value Double))
  unfolding store_entries
  table_to_array t = store_entries t []
