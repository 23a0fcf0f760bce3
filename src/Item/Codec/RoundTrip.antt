-- ===== src/Item/Codec/RoundTrip.antt =====
-- An item that is written and read back: `Item::serialize` and `parseItemStack` of
-- server/CPPImpl/Item.cpp.
use ocremote.Base.{
  ◌≡◌, refl, ap, ◌∙◌, Bool, true, ◌&&◌, none, some, List, [], ◌∷◌, ◌++◌, Text, arith, All,
}
use ocremote.Base.Int.{ℤ}
use ocremote.Serialize.Value.{Doubles, Key, Value, Table}
use ocremote.Serialize.Casts.{Casts, IsInt32}
use ocremote.Serialize.Table.{text_less, find, erase}
use ocremote.Serialize.Table.Laws.{
  differ, IsAscending, find-put_self, find-put_ne, erase-put_self, erase-put_ne, put-IsAscending,
  erase_absent,
}
use ocremote.Serialize.Arrays.{Result, ok}
use ocremote.Item.{Item}
use ocremote.Item.Codec.{
  put_text, transfer, as_text, as_bool, as_table, as_int, serialize_item, parse_item_stack,
}
use ocremote.Literals

both : (a b : Bool) → (a && b) ≡ true → (a ≡ true) × (b ≡ true)
both a b h = ground arith

module _ (F : Doubles) where
  open F use {Double}

  -- Several values that are put, the last one of the list first.
  abbrev puts : List (Text × Value Double) → Table Double → Table Double
  puts [] t = t
  puts ((k, v) ∷ kvs) t = put_text F k v (puts kvs t)

  -- The key differs from those of the list.
  abbrev fresh : Text → List (Text × Value Double) → Bool
  fresh k [] = true
  fresh k ((j, v) ∷ kvs) = differ k j && fresh k kvs

  puts-IsAscending :
      (kvs : List (Text × Value Double)) (t : Table Double)
      → IsAscending F t
      → IsAscending F (puts kvs t)
  puts-IsAscending [] t a = a
  puts-IsAscending ((k, v) ∷ kvs) t a = put-IsAscending F k v _ (puts-IsAscending kvs t a)

  find-puts :
      (k : Text) (kvs : List (Text × Value Double)) (t : Table Double)
      → fresh k kvs ≡ true
      → find F (Key.str k) (puts kvs t) ≡ find F (Key.str k) t
  find-puts k [] t h = refl
  find-puts k ((j, v) ∷ kvs) t h =
      find-put_ne F k j v (puts kvs t) (both _ _ h).0 ∙ find-puts k kvs t (both _ _ h).1

  -- The key leaves the table, the others stay.
  erase-puts :
      (k : Text) (v : Value Double) (pre post : List (Text × Value Double)) (t : Table Double)
      → fresh k (pre ++ post) ≡ true
      → IsAscending F t
      → find F (Key.str k) t ≡ none
      → erase F (Key.str k) (puts (pre ++ (k, v) ∷ post) t) ≡ puts (pre ++ post) t
  erase-puts k v [] post t h a e =
      erase-put_self F k v (puts post t)
      ∙ erase_absent F (Key.str k) (puts post t) (find-puts k post t h ∙ e)
  erase-puts k v ((j, w) ∷ pre) post t h a e =
      erase-put_ne F k j w (puts (pre ++ (k, v) ∷ post) t) (both _ _ h).0 (puts-IsAscending _ t a)
      ∙ ap (put_text F j w) (erase-puts k v pre post t (both _ _ h).1 a e)

  find-middle :
      (k : Text) (v : Value Double) (pre post : List (Text × Value Double)) (t : Table Double)
      → fresh k (pre ++ post) ≡ true
      → find F (Key.str k) (puts (pre ++ (k, v) ∷ post) t) ≡ some v
  find-middle k v [] post t h = find-put_self F k v (puts post t)
  find-middle k v ((j, w) ∷ pre) post t h =
      find-put_ne F k j w (puts (pre ++ (k, v) ∷ post) t) (both _ _ h).0
      ∙ find-middle k v pre post t (both _ _ h).1

  transfer-puts :
      {A : Type 0} (cast : Value Double → Result A) (k : Text) (v : Value Double) (x : A)
      (pre post : List (Text × Value Double)) (t : Table Double)
      → cast v ≡ ok x
      → fresh k (pre ++ post) ≡ true
      → IsAscending F t
      → find F (Key.str k) t ≡ none
      → transfer F cast k (puts (pre ++ (k, v) ∷ post) t) ≡ ok (x, puts (pre ++ post) t)
  unfolding transfer
  transfer-puts cast k v x pre post t c h a e =
      rw (transfer, find-middle k v pre post t h, c, erase-puts k v pre post t h a e) refl

-- The keys that parseItemStack takes.
abbrev own_keys : List Text
own_keys =
    Literals.size ∷ Literals.name ∷ Literals.label ∷ Literals.damage ∷ Literals.max_damage
    ∷ Literals.max_size ∷ Literals.has_tag ∷ []

module _ (F : Doubles) (C : Casts F) where
  open F use {Double}
  open C use {of_int, to_int-of_int}

  abbrev Field : Type 0
  Field = Text × Value Double

  abbrev num_field : Text → ℤ → Field
  num_field key n = (key, Value.num (of_int n))

  abbrev IsOther : List Text → Table Double → Type 0
  IsOther keys t = All (λ k. find F (Key.str k) t ≡ none) keys

  -- The item can be in memory: its numbers are of 32 bits, and the map of the other fields is
  -- sorted and has none of the keys of the item's own.
  pub record IsItem (item : Item Double) : Type 0 where
    pub damage : IsInt32 item.damage
    pub max_damage : IsInt32 item.max_damage
    pub max_size : IsInt32 item.max_size
    pub sorted : IsAscending F item.others
    pub own : IsOther own_keys item.others

  int_cast : (k : ℤ) → IsInt32 k → as_int F C (Value.num (of_int k)) ≡ ok k
  unfolding as_int
  int_cast k h = ap ok (to_int-of_int k h)

  -- parseItemStack reads back what Item::serialize has written, with the size beside it: every
  -- field, and the map of the other fields unchanged.
  pub parse_item_stack-serialize_item :
      (item : Item Double) (n : ℤ)
      → IsItem item
      → IsInt32 n
      → parse_item_stack F C
          (Value.table (put_text F Literals.size (Value.num (of_int n)) (serialize_item F C item)))
        ≡ ok (record { item = item; size = n })
  unfolding parse_item_stack serialize_item as_table as_text as_bool text_less
  parse_item_stack-serialize_item item n i h =
      let t = item.others in
      let name : Field = (Literals.name, Value.str item.name) in
      let label : Field = (Literals.label, Value.str item.label) in
      let damage = num_field Literals.damage item.damage in
      let max_damage = num_field Literals.max_damage item.max_damage in
      let max_size = num_field Literals.max_size item.max_size in
      let has_tag : Field = (Literals.has_tag, Value.bool item.has_tag) in
      rw
        (
          transfer-puts F (as_int F C) Literals.size (Value.num (of_int n)) n []
              (has_tag ∷ max_size ∷ max_damage ∷ damage ∷ label ∷ name ∷ []) t (int_cast n h) refl
              i.sorted i.own.0,
          transfer-puts F (as_text F) Literals.name (Value.str item.name) item.name
              (has_tag ∷ max_size ∷ max_damage ∷ damage ∷ label ∷ []) [] t refl refl i.sorted
              i.own.1.0,
          transfer-puts F (as_text F) Literals.label (Value.str item.label) item.label
              (has_tag ∷ max_size ∷ max_damage ∷ damage ∷ []) [] t refl refl i.sorted i.own.1.1.0,
          transfer-puts F (as_int F C) Literals.damage (Value.num (of_int item.damage)) item.damage
              (has_tag ∷ max_size ∷ max_damage ∷ []) [] t (int_cast item.damage i.damage) refl
              i.sorted i.own.1.1.1.0,
          transfer-puts F (as_int F C) Literals.max_damage (Value.num (of_int item.max_damage))
              item.max_damage (has_tag ∷ max_size ∷ []) [] t (int_cast item.max_damage i.max_damage)
              refl i.sorted i.own.1.1.1.1.0,
          transfer-puts F (as_int F C) Literals.max_size (Value.num (of_int item.max_size))
              item.max_size (has_tag ∷ []) [] t (int_cast item.max_size i.max_size) refl i.sorted
              i.own.1.1.1.1.1.0,
          transfer-puts F (as_bool F) Literals.has_tag (Value.bool item.has_tag) item.has_tag [] []
              t refl refl i.sorted i.own.1.1.1.1.1.1.0,
        )
        refl
