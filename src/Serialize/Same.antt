-- ===== src/Serialize/Same.antt =====
-- What operator== of SKey, SValue and STable (Serialize.h) comes to: the same alternatives, with
-- equal numbers, and the same texts and truth values.
use ocremote.Base.{◌≡◌, refl, Bool, true, false, ◌&&◌, arith, text_eq_refl, text_eq_sound, Text}
use ocremote.Serialize.Value.{Doubles, Key, Value, Table}
use ocremote.Serialize.Equality.{key_eq, value_eq, table_eq}

module _ (F : Doubles) where
  open F use {Double, equal}

  pub data AreSameKeys : Key Double → Key Double → Type 0 where
    num : {x y : Double} → equal x y ≡ true → AreSameKeys (Key.num x) (Key.num y)
    str : (s : Text) → AreSameKeys (Key.str s) (Key.str s)
    bool : (b : Bool) → AreSameKeys (Key.bool b) (Key.bool b)

  mutual
    pub data AreSameValues : Value Double → Value Double → Type 0 where
      nil : AreSameValues Value.nil Value.nil
      num : {x y : Double} → equal x y ≡ true → AreSameValues (Value.num x) (Value.num y)
      str : (s : Text) → AreSameValues (Value.str s) (Value.str s)
      bool : (b : Bool) → AreSameValues (Value.bool b) (Value.bool b)
      table :
          {t u : Table Double} → AreSameTables t u → AreSameValues (Value.table t) (Value.table u)

    pub data AreSameTables : Table Double → Table Double → Type 0 where
      end : AreSameTables Table.end Table.end
      entry :
          {j k : Key Double} {v w : Value Double} {t u : Table Double}
          → AreSameKeys j k
          → AreSameValues v w
          → AreSameTables t u
          → AreSameTables (Table.entry j v t) (Table.entry k w u)

  key_eq-AreSameKeys : (j k : Key Double) → key_eq F j k ≡ true → AreSameKeys j k
  unfolding key_eq
  key_eq-AreSameKeys (Key.num x) (Key.num y) h = num h
  key_eq-AreSameKeys (Key.str s) (Key.str t) h = rw (text_eq_sound s t h) (str t)
  key_eq-AreSameKeys (Key.bool true) (Key.bool true) h = bool true
  key_eq-AreSameKeys (Key.bool false) (Key.bool false) h = bool false
  key_eq-AreSameKeys j k h = cc

  AreSameKeys-key_eq : (j k : Key Double) → AreSameKeys j k → key_eq F j k ≡ true
  unfolding key_eq
  AreSameKeys-key_eq j k (num h) = h
  AreSameKeys-key_eq j k (str s) = text_eq_refl s
  AreSameKeys-key_eq j k (bool true) = refl
  AreSameKeys-key_eq j k (bool false) = refl

  both : (a b : Bool) → (a && b) ≡ true → (a ≡ true) × (b ≡ true)
  both a b h = ground arith

  mutual
    unfolding value_eq table_eq

    value_eq-AreSameValues : (v w : Value Double) → value_eq F v w ≡ true → AreSameValues v w
    value_eq-AreSameValues Value.nil Value.nil h = nil
    value_eq-AreSameValues (Value.num x) (Value.num y) h = num h
    value_eq-AreSameValues (Value.str s) (Value.str t) h = rw (text_eq_sound s t h) (str t)
    value_eq-AreSameValues (Value.bool true) (Value.bool true) h = bool true
    value_eq-AreSameValues (Value.bool false) (Value.bool false) h = bool false
    value_eq-AreSameValues (Value.table t) (Value.table u) h = table (table_eq-AreSameTables t u h)
    value_eq-AreSameValues v w h = cc

    pub table_eq-AreSameTables : (t u : Table Double) → table_eq F t u ≡ true → AreSameTables t u
    table_eq-AreSameTables Table.end Table.end h = end
    table_eq-AreSameTables Table.end (Table.entry k w u) h = cc
    table_eq-AreSameTables (Table.entry j v t) Table.end h = cc
    table_eq-AreSameTables (Table.entry j v t) (Table.entry k w u) h =
        let p = both (key_eq F j k) _ h in
        let q = both (value_eq F v w) _ p.1 in
        entry (key_eq-AreSameKeys j k p.0) (value_eq-AreSameValues v w q.0)
          (table_eq-AreSameTables t u q.1)

  mutual
    unfolding value_eq table_eq

    AreSameValues-value_eq : {v w : Value Double} → AreSameValues v w → value_eq F v w ≡ true
    AreSameValues-value_eq nil = refl
    AreSameValues-value_eq (num h) = h
    AreSameValues-value_eq (str s) = text_eq_refl s
    AreSameValues-value_eq (bool true) = refl
    AreSameValues-value_eq (bool false) = refl
    AreSameValues-value_eq (table h) = AreSameTables-table_eq h

    pub AreSameTables-table_eq : {t u : Table Double} → AreSameTables t u → table_eq F t u ≡ true
    AreSameTables-table_eq end = refl
    AreSameTables-table_eq (entry {j} {k} hk hv ht) =
        rw (AreSameKeys-key_eq j k hk, AreSameValues-value_eq hv, AreSameTables-table_eq ht)
