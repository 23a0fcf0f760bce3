-- ===== src/Serialize/Deserialize/States.antt =====
-- The stacks that the deserializer can be in.
use ocremote.Base.{
  ℕ, Bool, true, false, Option, none, some, List, [], ◌∷◌, Text, ◌==◌, if◌then◌else◌,
}
use ocremote.Serialize.Value.{Doubles, Value}
use ocremote.Serialize.Deserialize.{
  Error, Frame, Run, running, thrown, after, ◌>>=◌, root, start, number, string, table, reduce,
  shift_number, shift_string, shift_root, shift_byte, shift, feed, enter_start, bad_number,
  invalid_reduce, invalid_shift, null_state,
}

-- What a broken packet may cause: a std::runtime_error, or a refusal of `std::stod`.
abbrev pub IsRuntimeError : Error → Type 0
IsRuntimeError invalid_reduce = ⊥
IsRuntimeError invalid_shift = ⊥
IsRuntimeError null_state = ⊥
IsRuntimeError _ = Unit

module _ (F : Doubles) where
  open F use {Double, stod}

  -- The tables that are being read, around them the start state.
  abbrev pub IsParents : List (Frame F) → Type 0
  IsParents (start ∷ []) = Unit
  IsParents (start ∷ _ ∷ _) = ⊥
  IsParents (table t k ∷ st) = IsParents st
  IsParents _ = ⊥

  -- On top of them a state that reads bytes.
  abbrev pub IsReady : List (Frame F) → Type 0
  IsReady (root ∷ st) = IsParents st
  IsReady (number b ∷ st) = IsParents st
  IsReady (string b e ∷ st) = IsParents st
  IsReady _ = ⊥

  abbrev pub IsSound : Run F → Type 0
  IsSound (running st out) = IsReady st
  IsSound (thrown e out) = IsRuntimeError e

  reduce-IsSound : (st : List (Frame F)) (x : Value Double) → IsParents st → IsSound (reduce F st x)
  unfolding reduce
  reduce-IsSound [] x h = elim h [ ]
  reduce-IsSound (start ∷ []) x h = tt
  reduce-IsSound (start ∷ _ ∷ _) x h = elim h [ ]
  reduce-IsSound (table t (some k) ∷ st) x h = h
  reduce-IsSound (table t none ∷ st) Value.nil h = reduce-IsSound st (Value.table t) h
  reduce-IsSound (table t none ∷ st) (Value.num x) h = h
  reduce-IsSound (table t none ∷ st) (Value.str x) h = h
  reduce-IsSound (table t none ∷ st) (Value.bool x) h = h
  reduce-IsSound (table t none ∷ st) (Value.table x) h = tt
  reduce-IsSound (root ∷ st) x h = elim h [ ]
  reduce-IsSound (number b ∷ st) x h = elim h [ ]
  reduce-IsSound (string b e ∷ st) x h = elim h [ ]

  if-IsSound : (b : Bool) (r s : Run F) → IsSound r → IsSound s → IsSound (if b then r else s)
  if-IsSound true r s hr hs = hr
  if-IsSound false r s hr hs = hs

  number-IsSound :
      (b : Text) (st : List (Frame F)) (now : ℕ) → IsParents st → IsSound (shift_number F b st now)
  unfolding shift_number
  number-IsSound b st now h = if-IsSound (now == 64) _ _ (read (stod b)) h
    where
      read :
          (o : Option Double)
          → IsSound (elim o [ none ↦ thrown bad_number [] | some x ↦ reduce F st (Value.num x) ])
      read none = tt
      read (some x) = reduce-IsSound st (Value.num x) h

  string-IsSound :
      (b : Text) (e : Bool) (st : List (Frame F)) (now : ℕ)
      → IsParents st
      → IsSound (shift_string F b e st now)
  unfolding shift_string
  string-IsSound b true st now h =
      if-IsSound (now == 46) _ _ h
        (if-IsSound (now == 126) _ _ (reduce-IsSound st (Value.str b) h) tt)
  string-IsSound b false st now h = if-IsSound (now == 64) _ _ h h

  root-IsSound : (st : List (Frame F)) (now : ℕ) → IsParents st → IsSound (shift_root F st now)
  unfolding shift_root
  root-IsSound st now h = if-IsSound (now == 33) _ _ (reduce-IsSound st Value.nil h) (
      if-IsSound (now == 35) _ _ h (
        if-IsSound (now == 64) _ _ h (
          if-IsSound (now == 43) _ _ (reduce-IsSound st (Value.bool true) h) (
            if-IsSound (now == 45) _ _ (reduce-IsSound st (Value.bool false) h)
              (if-IsSound (now == 61) _ _ h tt)))))

  shift_byte-IsSound : (st : List (Frame F)) (now : ℕ) → IsReady st → IsSound (shift_byte F st now)
  unfolding shift_byte
  shift_byte-IsSound [] now h = elim h [ ]
  shift_byte-IsSound (root ∷ st) now h = root-IsSound st now h
  shift_byte-IsSound (number b ∷ st) now h = number-IsSound b st now h
  shift_byte-IsSound (string b e ∷ st) now h = string-IsSound b e st now h
  shift_byte-IsSound (start ∷ st) now h = elim h [ ]
  shift_byte-IsSound (table t k ∷ st) now h = elim h [ ]

  after-IsSound : (out : List (Value Double)) (r : Run F) → IsSound r → IsSound (after F out r)
  after-IsSound out (running st more) h = h
  after-IsSound out (thrown e more) h = h

  bind-IsSound :
      (r : Run F) (f : List (Frame F) → Run F)
      → IsSound r
      → ((st : List (Frame F)) → IsReady st → IsSound (f st))
      → IsSound (◌>>=◌ F r f)
  bind-IsSound (running st out) f h k = after-IsSound out (f st) (k st h)
  bind-IsSound (thrown e out) f h k = h

  shift-IsSound : (st : List (Frame F)) (bytes : Text) → IsReady st → IsSound (shift F st bytes)
  unfolding shift
  shift-IsSound (root ∷ st) [] h = h
  shift-IsSound (number b ∷ st) [] h = h
  shift-IsSound (string b e ∷ st) [] h = h
  shift-IsSound (start ∷ st) [] h = elim h [ ]
  shift-IsSound (table t k ∷ st) [] h = elim h [ ]
  shift-IsSound [] [] h = elim h [ ]
  shift-IsSound st (now ∷ rest) h =
      bind-IsSound (shift_byte F st now) _ (shift_byte-IsSound st now h)
        (λ st' h'. shift-IsSound st' rest h')

  feed-IsSound :
      (st : List (Frame F)) (chunks : List Text) → IsReady st → IsSound (feed F st chunks)
  unfolding feed
  feed-IsSound st [] h = h
  feed-IsSound st (chunk ∷ chunks) h =
      bind-IsSound (shift F st chunk) _ (shift-IsSound st chunk h)
        (λ st' h'. feed-IsSound st' chunks h')

  -- Whatever chunks of bytes a client sends, a fresh deserializer never throws a std::logic_error
  -- and never uses a null state: it throws what a broken packet may cause, or it goes on with a
  -- state that reads bytes, above nested tables, above the one start state.
  pub feed-start-IsSound : (chunks : List Text) → IsSound (feed F (enter_start F) chunks)
  unfolding enter_start
  feed-start-IsSound chunks = feed-IsSound (root ∷ start ∷ []) chunks tt
