-- ===== src/Serialize/Equality.antt =====
-- operator== of SKey, SValue and STable (Serialize.h): std::variant and std::map compare the
-- alternatives and the entries.
use ocremote.Base.{
  ◌≡◌, refl, Bool, true, false, not, ◌&&◌, arith, text_eq, text_eq_refl, text_eq_sym, text_eq_trans,
  if◌then◌else◌,
}
use ocremote.Serialize.Value.{Doubles, Key, Value, Table, end, entry}

bool_eq : Bool → Bool → Bool
bool_eq a b = if a then b else not b

module _ (F : Doubles) where
  open F use {Double, equal, equal_refl, equal_sym, equal_trans}

  unfoldable pub key_eq : Key Double → Key Double → Bool
  unfolding bool_eq
  key_eq (Key.num x) (Key.num y) = equal x y
  key_eq (Key.str s) (Key.str t) = text_eq s t
  key_eq (Key.bool a) (Key.bool b) = bool_eq a b
  key_eq j k = false

  unfoldable mutual
    unfolding bool_eq

    pub value_eq : Value Double → Value Double → Bool
    value_eq Value.nil Value.nil = true
    value_eq (Value.num x) (Value.num y) = equal x y
    value_eq (Value.str s) (Value.str t) = text_eq s t
    value_eq (Value.bool a) (Value.bool b) = bool_eq a b
    value_eq (Value.table t) (Value.table u) = table_eq t u
    value_eq v w = false

    pub table_eq : Table Double → Table Double → Bool
    table_eq end end = true
    table_eq end (entry k w u) = false
    table_eq (entry j v t) end = false
    table_eq (entry j v t) (entry k w u) = key_eq j k && (value_eq v w && table_eq t u)

  key_eq_refl : (k : Key Double) → key_eq k k ≡ true
  unfolding key_eq
  key_eq_refl (Key.num x) = equal_refl x
  key_eq_refl (Key.str s) = text_eq_refl s
  key_eq_refl (Key.bool b) = ground arith

  mutual
    unfolding value_eq table_eq

    value_eq_refl : (v : Value Double) → value_eq v v ≡ true
    value_eq_refl Value.nil = refl
    value_eq_refl (Value.num x) = equal_refl x
    value_eq_refl (Value.str s) = text_eq_refl s
    value_eq_refl (Value.bool b) = ground arith
    value_eq_refl (Value.table t) = table_eq_refl t

    pub table_eq_refl : (t : Table Double) → table_eq t t ≡ true
    table_eq_refl end = refl
    table_eq_refl (entry k v t) = rw (key_eq_refl k, value_eq_refl v, table_eq_refl t)

  key_eq_sym : (j k : Key Double) → key_eq j k ≡ true → key_eq k j ≡ true
  unfolding key_eq
  key_eq_sym (Key.num x) (Key.num y) h = equal_sym x y h
  key_eq_sym (Key.str s) (Key.str t) h = text_eq_sym s t h
  key_eq_sym (Key.bool a) (Key.bool b) h = ground arith
  key_eq_sym j k h = cc

  key_eq_trans : (i j k : Key Double) → key_eq i j ≡ true → key_eq j k ≡ true → key_eq i k ≡ true
  unfolding key_eq
  key_eq_trans (Key.num x) (Key.num y) (Key.num z) h k = equal_trans x y z h k
  key_eq_trans (Key.str x) (Key.str y) (Key.str z) h k = text_eq_trans x y z h k
  key_eq_trans (Key.bool a) (Key.bool b) (Key.bool c) h k = ground arith
  key_eq_trans i j k h h' = cc

  both : (a b : Bool) → (a && b) ≡ true → (a ≡ true) × (b ≡ true)
  both a b h = ground arith

  mutual
    unfolding value_eq table_eq

    value_eq_sym : (v w : Value Double) → value_eq v w ≡ true → value_eq w v ≡ true
    value_eq_sym Value.nil Value.nil h = h
    value_eq_sym (Value.num x) (Value.num y) h = equal_sym x y h
    value_eq_sym (Value.str s) (Value.str t) h = text_eq_sym s t h
    value_eq_sym (Value.bool a) (Value.bool b) h = ground arith
    value_eq_sym (Value.table t) (Value.table u) h = table_eq_sym t u h
    value_eq_sym v w h = cc

    pub table_eq_sym : (t u : Table Double) → table_eq t u ≡ true → table_eq u t ≡ true
    table_eq_sym end end h = h
    table_eq_sym end (entry k w u) h = cc
    table_eq_sym (entry j v t) end h = cc
    table_eq_sym (entry j v t) (entry k w u) h =
        let p = both (key_eq j k) _ h in
        let q = both (value_eq v w) _ p.1 in
        rw (key_eq_sym j k p.0, value_eq_sym v w q.0, table_eq_sym t u q.1)

  mutual
    unfolding value_eq table_eq

    value_eq_trans :
        (u v w : Value Double) → value_eq u v ≡ true → value_eq v w ≡ true → value_eq u w ≡ true
    value_eq_trans Value.nil Value.nil w h k = k
    value_eq_trans (Value.num x) (Value.num y) (Value.num z) h k = equal_trans x y z h k
    value_eq_trans (Value.str x) (Value.str y) (Value.str z) h k = text_eq_trans x y z h k
    value_eq_trans (Value.bool a) (Value.bool b) (Value.bool c) h k = ground arith
    value_eq_trans (Value.table x) (Value.table y) (Value.table z) h k = table_eq_trans x y z h k
    value_eq_trans u v w h k = cc

    pub table_eq_trans :
        (x y z : Table Double) → table_eq x y ≡ true → table_eq y z ≡ true → table_eq x z ≡ true
    table_eq_trans end end z h k = k
    table_eq_trans (entry i u x) (entry j v y) (entry k w z) h h' =
        let p = both (key_eq i j) _ h in
        let q = both (value_eq u v) _ p.1 in
        let p' = both (key_eq j k) _ h' in
        let q' = both (value_eq v w) _ p'.1 in
        rw (
          key_eq_trans i j k p.0 p'.0,
          value_eq_trans u v w q.0 q'.0,
          table_eq_trans x y z q.1 q'.1,
        )
    table_eq_trans x y z h k = cc
