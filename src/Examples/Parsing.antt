-- ===== src/Examples/Parsing.antt =====
-- An item with another field that is written and read back.
use ocremote.Base.{◌≡◌, refl, true, false, [], ◌∷◌, arith}
use ocremote.Base.Int.{pos}
use ocremote.Serialize.Value.{Key, Value, Table}
use ocremote.Serialize.Table.{text_less, key_less, find}
use ocremote.Serialize.WellFormed.{Above}
use ocremote.Serialize.Arrays.{ok}
use ocremote.Item.{Item}
use ocremote.Item.Codec.{put_text, serialize_item, parse_item_stack}
use ocremote.Item.Codec.RoundTrip.{IsItem, parse_item_stack-serialize_item}
use ocremote.Literals
use ocremote.Examples.Numbers.{bytes}
use ocremote.Examples.Casting.{byte_casts}

-- A pick with a field `z`.
abbrev pick : Item (bytes.Double)
pick = record {
  name = b'p' ∷ [];
  label = b'P' ∷ [];
  damage = pos 7;
  max_damage = pos 100;
  max_size = pos 1;
  has_tag = true;
  others = Table.entry (Key.str (b'z' ∷ [])) (Value.bool false) Table.end;
}

pick-IsItem : IsItem bytes byte_casts pick
unfolding find key_less text_less
pick-IsItem = record {
  damage = (omega arith, omega arith);
  max_damage = (omega arith, omega arith);
  max_size = (omega arith, omega arith);
  sorted = (Above.end, tt);
  own = (refl, (refl, (refl, (refl, (refl, (refl, (refl, tt)))))));
}

parse_item_stack-serialize_item_example :
    parse_item_stack bytes byte_casts (
      Value.table (
        put_text bytes Literals.size
          (Value.num (byte_casts.of_int (pos 3)))
          (serialize_item bytes byte_casts pick)))
    ≡ ok (record { item = pick; size = pos 3 })
parse_item_stack-serialize_item_example =
    parse_item_stack-serialize_item bytes byte_casts pick (pos 3) pick-IsItem
      (omega arith, omega arith)
