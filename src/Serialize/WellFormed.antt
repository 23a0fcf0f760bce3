-- ===== src/Serialize/WellFormed.antt =====
-- The values that can be written and read back: the invariant of std::map, with numbers that
-- `stod` reads.
use ocremote.Base.{◌≡◌, Bool, true, Text}
use ocremote.Serialize.Value.{Doubles, Key, Value, Table}
use ocremote.Serialize.Table.{key_less}

module _ (F : Doubles) where
  open F use {Double, is_normal}

  -- Every key of the table comes after `k`.
  pub data Above (k : Key Double) : Table Double → Type 0 where
    end : Above k Table.end
    entry :
        {j : Key Double} {v : Value Double} {t : Table Double}
        → key_less F k j ≡ true
        → Above k t
        → Above k (Table.entry j v t)

  abbrev pub IsNormalKey : Key Double → Type 0
  IsNormalKey (Key.num x) = is_normal x ≡ true
  IsNormalKey (Key.str s) = Unit
  IsNormalKey (Key.bool b) = Unit

  -- What a std::map can be, with numbers that print exactly: the keys ascend.
  mutual
    pub data IsWritable : Value Double → Type 0 where
      nil : IsWritable Value.nil
      num : {x : Double} → is_normal x ≡ true → IsWritable (Value.num x)
      str : (s : Text) → IsWritable (Value.str s)
      bool : (b : Bool) → IsWritable (Value.bool b)
      table : {t : Table Double} → IsMap t → IsWritable (Value.table t)

    pub data IsMap : Table Double → Type 0 where
      end : IsMap Table.end
      entry :
          {k : Key Double} {v : Value Double} {t : Table Double}
          → IsNormalKey k
          → IsWritable v
          → Above k t
          → IsMap t
          → IsMap (Table.entry k v t)
