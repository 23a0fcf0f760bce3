-- ===== src/Serialize/Table.antt =====
-- std::map with the keys of the wire format: Serialize.h, `STable`.
pub mod Laws
use ocremote.Base.{
  ◌≡◌, refl, Bool, true, false, not, ◌&&◌, ◌||◌, Option, none, some, [], ◌∷◌, Text, arith, ltb,
  ◌==◌, if◌then◌else◌,
}
use ocremote.Serialize.Value.{Doubles, Key, Value, Table, end, entry}

-- operator< of std::string: by bytes, a proper prefix first.
unfoldable pub text_less : Text → Text → Bool
text_less [] [] = false
text_less [] (y ∷ ys) = true
text_less (x ∷ xs) [] = false
text_less (x ∷ xs) (y ∷ ys) = ltb x y || (x == y && text_less xs ys)

pub text_less_asym : (x y : Text) → text_less x y ≡ true → text_less y x ≡ false
unfolding text_less
text_less_asym [] [] h = refl
text_less_asym [] (y ∷ ys) h = refl
text_less_asym (x ∷ xs) [] h = cc
text_less_asym (x ∷ xs) (y ∷ ys) h = ground (arith, text_less_asym xs ys)

module _ (F : Doubles) where
  open F use {Double, less, less_asym}

  -- operator< of the variant: by the alternative, then by the value.
  unfoldable pub key_less : Key Double → Key Double → Bool
  key_less (Key.num x) (Key.num y) = less x y
  key_less (Key.num x) (Key.str t) = true
  key_less (Key.num x) (Key.bool b) = true
  key_less (Key.str s) (Key.num y) = false
  key_less (Key.str s) (Key.str t) = text_less s t
  key_less (Key.str s) (Key.bool b) = true
  key_less (Key.bool a) (Key.num y) = false
  key_less (Key.bool a) (Key.str t) = false
  key_less (Key.bool a) (Key.bool b) = not a && b

  pub key_less_asym : (k j : Key Double) → key_less k j ≡ true → key_less j k ≡ false
  unfolding key_less
  key_less_asym (Key.num x) (Key.num y) h = less_asym x y h
  key_less_asym (Key.num x) (Key.str t) h = refl
  key_less_asym (Key.num x) (Key.bool b) h = refl
  key_less_asym (Key.str s) (Key.num y) h = cc
  key_less_asym (Key.str s) (Key.str t) h = text_less_asym s t h
  key_less_asym (Key.str s) (Key.bool b) h = refl
  key_less_asym (Key.bool a) (Key.num y) h = cc
  key_less_asym (Key.bool a) (Key.str t) h = cc
  key_less_asym (Key.bool a) (Key.bool b) h = ground arith

  -- map.emplace(k, v): an entry with an equivalent key stays as it is.
  unfoldable pub emplace : Key Double → Value Double → Table Double → Table Double
  emplace k v end = entry k v end
  emplace k v (entry j w t) =
      if key_less k j
      then entry k v (entry j w t)
      else if key_less j k
      then entry j w (emplace k v t)
      else entry j w t

  -- map[k] = v: an entry with an equivalent key keeps its key and takes the value.
  unfoldable pub put : Key Double → Value Double → Table Double → Table Double
  put k v end = entry k v end
  put k v (entry j w t) =
      if key_less k j
      then entry k v (entry j w t)
      else if key_less j k
      then entry j w (put k v t)
      else entry j v t

  -- map.find(k)
  unfoldable pub find : Key Double → Table Double → Option (Value Double)
  find k end = none
  find k (entry j w t) = if key_less k j then none else if key_less j k then find k t else some w

  -- map.erase(map.find(k))
  unfoldable pub erase : Key Double → Table Double → Table Double
  erase k end = end
  erase k (entry j w t) =
      if key_less k j then entry j w t else if key_less j k then entry j w (erase k t) else t
