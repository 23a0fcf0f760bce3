-- ===== src/Item/Codec.antt =====
-- `Item::serialize` and `parseItemStack` of server/CPPImpl/Item.cpp.
pub mod RoundTrip
use ocremote.Base.{Bool, none, some, Text}
use ocremote.Base.Int.{ℤ}
use ocremote.Serialize.Value.{Doubles, Key, Value, Table}
use ocremote.Serialize.Casts.{Casts}
use ocremote.Serialize.Table.{put, find, erase}
use ocremote.Serialize.Arrays.{Result, ok, err, bad_variant, key_not_found, ◌>>=◌}
use ocremote.Item.{Item, ItemStack}
use ocremote.Literals

module _ (F : Doubles) where
  open F use {Double}

  -- t[key] = value
  abbrev pub put_text : Text → Value Double → Table Double → Table Double
  put_text key v t = put F (Key.str key) v t

  -- The casts of `transferHelper`: std::get throws on another alternative.
  unfoldable pub as_text : Value Double → Result Text
  as_text (Value.str s) = ok s
  as_text other = err bad_variant

  unfoldable pub as_bool : Value Double → Result Bool
  as_bool (Value.bool b) = ok b
  as_bool other = err bad_variant

  unfoldable pub as_table : Value Double → Result (Table Double)
  as_table (Value.table t) = ok t
  as_table other = err bad_variant

  -- The lambda `transfer`: what the key has, and the table without it.
  unfoldable pub transfer :
      {A : Type 0} → (Value Double → Result A) → Text → Table Double → Result (A × Table Double)
  transfer cast key t = elim (find F (Key.str key) t) [
    | none ↦ err (key_not_found key)
    | some v ↦ cast v >>= λ a. ok (a, erase F (Key.str key) t)
  ]

module _ (F : Doubles) (C : Casts F) where
  open F use {Double}
  open C use {of_int, to_int}

  unfoldable pub as_int : Value Double → Result ℤ
  as_int (Value.num x) = ok (to_int x)
  as_int other = err bad_variant

  -- Item::serialize
  unfoldable pub serialize_item : Item Double → Table Double
  serialize_item item = put_text F Literals.has_tag (Value.bool item.has_tag) (
      put_text F Literals.max_size (Value.num (of_int item.max_size)) (
        put_text F Literals.max_damage (Value.num (of_int item.max_damage)) (
          put_text F Literals.damage (Value.num (of_int item.damage)) (
            put_text F Literals.label (Value.str item.label)
              (put_text F Literals.name (Value.str item.name) item.others)))))

  -- parseItemStack
  unfoldable pub parse_item_stack : Value Double → Result (ItemStack Double)
  unfolding transfer as_text as_int as_bool as_table
  parse_item_stack s = do
    t0 ← as_table F s
    (size, t1) ← transfer F as_int Literals.size t0
    (name, t2) ← transfer F (as_text F) Literals.name t1
    (label, t3) ← transfer F (as_text F) Literals.label t2
    (damage, t4) ← transfer F as_int Literals.damage t3
    (max_damage, t5) ← transfer F as_int Literals.max_damage t4
    (max_size, t6) ← transfer F as_int Literals.max_size t5
    (has_tag, t7) ← transfer F (as_bool F) Literals.has_tag t6
    ok (record {
      item = record {
        name = name;
        label = label;
        damage = damage;
        max_damage = max_damage;
        max_size = max_size;
        has_tag = has_tag;
        others = t7;
      };
      size = size;
    })
