-- ===== src/Serialize/Print.antt =====
-- `serialize` of Serialize.cpp.
use ocremote.Base.{Bool, [], ◌∷◌, ◌++◌, Text, ◌==◌, if◌then◌else◌}
use ocremote.Serialize.Value.{Doubles, Key, Value, nil, table, Table, end, entry}

-- The loop over a string's bytes: `@` is written as `@.`.
unfoldable pub escape : Text → Text
escape [] = []
escape (c ∷ s) = (if c == b'@' then b'@' ∷ b'.' ∷ [] else c ∷ []) ++ escape s

module _ (F : Doubles) where
  open F use {Double, print}

  print_number : Double → Text
  print_number x = b'#' ∷ print x ++ b'@' ∷ []

  print_string : Text → Text
  unfolding escape
  print_string s = b'@' ∷ escape s ++ b'@' ∷ b'~' ∷ []

  print_bool : Bool → Text
  print_bool b = if b then b'+' ∷ [] else b'-' ∷ []

  unfoldable pub print_key : Key Double → Text
  unfolding print_number print_string print_bool
  print_key (Key.num x) = print_number x
  print_key (Key.str s) = print_string s
  print_key (Key.bool b) = print_bool b

  unfoldable mutual
    unfolding print_number print_string print_bool print_key

    pub serialize : Value Double → Text
    serialize nil = b'!' ∷ []
    serialize (Value.num x) = print_number x
    serialize (Value.str s) = print_string s
    serialize (Value.bool b) = print_bool b
    serialize (table t) = b'=' ∷ serialize_entries t ++ b'!' ∷ []

    pub serialize_entries : Table Double → Text
    serialize_entries end = []
    serialize_entries (entry k v t) = print_key k ++ (serialize v ++ serialize_entries t)
