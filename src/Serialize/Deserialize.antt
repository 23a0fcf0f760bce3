-- ===== src/Serialize/Deserialize.antt =====
-- `Deserializer` of Serialize.h and Serialize.cpp. `env.s` with the chain of its parents `p` is a
-- list of frames, the innermost first. The parser is fed with chunks and calls `cb` on each whole
-- value: a run has the values that were passed to `cb`, and either the stack or what was thrown.
pub mod Chunks
pub mod States
pub mod RoundTrip
use ocremote.Base.{
  ℕ, Bool, true, false, Option, none, some, List, [], ◌∷◌, ◌++◌, Text, ◌==◌, if◌then◌else◌,
}
use ocremote.Serialize.Value.{Doubles, Key, Value, Table, end}
use ocremote.Serialize.Table.{emplace}

pub data Error : Type 0 where
  -- std::logic_error, and the use of a null `env.s`
  invalid_reduce invalid_shift null_state : Error
  -- std::runtime_error, and what `std::stod` throws
  unknown_escape invalid_tag invalid_table_key bad_number : Error

module _ (F : Doubles) where
  open F use {Double, stod}

  pub data Frame : Type 0 where
    root start : Frame
    number : Text → Frame
    string : Text → Bool → Frame
    table : Table Double → Option (Key Double) → Frame

  pub data Run : Type 0 where
    running : List Frame → List (Value Double) → Run
    thrown : Error → List (Value Double) → Run

  -- The values that were passed on earlier come first.
  abbrev pub after : List (Value Double) → Run → Run
  after out (running st more) = running st (out ++ more)
  after out (thrown e more) = thrown e (out ++ more)

  infixl 5 ◌>>=◌
  abbrev pub ◌>>=◌ : Run → (List Frame → Run) → Run
  running st out >>= f = after out (f st)
  thrown e out >>= f = thrown e out

  -- enter<Table>(), and enter<Start>() at the construction, with their init().
  unfoldable pub enter_table : List Frame → List Frame
  enter_table st = root ∷ table end none ∷ st

  unfoldable pub enter_start : List Frame
  enter_start = root ∷ start ∷ []

  -- Table::reduce with no key, but for the end mark: the value becomes the key.
  reduce_key : Table Double → List Frame → Value Double → Run
  reduce_key t st (Value.num x) = running (root ∷ table t (some (Key.num x)) ∷ st) []
  reduce_key t st (Value.str s) = running (root ∷ table t (some (Key.str s)) ∷ st) []
  reduce_key t st (Value.bool b) = running (root ∷ table t (some (Key.bool b)) ∷ st) []
  reduce_key t st other = thrown invalid_table_key []

  -- The virtual `reduce`, up to the call of `shift` on what is left of the chunk.
  unfoldable pub reduce : List Frame → Value Double → Run
  unfolding reduce_key
  reduce [] x = thrown null_state []
  reduce (start ∷ st) x = running (root ∷ start ∷ st) (x ∷ [])
  reduce (table t (some k) ∷ st) x = running (root ∷ table (emplace F k x t) none ∷ st) []
  reduce (table t none ∷ st) Value.nil = reduce st (Value.table t)
  reduce (table t none ∷ st) x = reduce_key t st x
  reduce (root ∷ st) x = thrown invalid_reduce []
  reduce (number b ∷ st) x = thrown invalid_reduce []
  reduce (string b esc ∷ st) x = thrown invalid_reduce []

  -- The body of the loop of Number::shift.
  unfoldable pub shift_number : Text → List Frame → ℕ → Run
  shift_number buffer st now =
      if now == b'@'
      then elim (stod buffer) [ none ↦ thrown bad_number [] | some x ↦ reduce st (Value.num x) ]
      else running (number (buffer ++ now ∷ []) ∷ st) []

  -- The body of the loop of String::shift.
  unfoldable pub shift_string : Text → Bool → List Frame → ℕ → Run
  shift_string buffer escape st now =
      if escape
      then (if now == b'.'
          then running (string (buffer ++ b'@' ∷ []) false ∷ st) []
          else if now == b'~'
          then reduce st (Value.str buffer)
          else thrown unknown_escape [])
      else if now == b'@'
      then running (string buffer true ∷ st) []
      else running (string (buffer ++ now ∷ []) false ∷ st) []

  -- Root::shift on the first byte.
  unfoldable pub shift_root : List Frame → ℕ → Run
  unfolding enter_table
  shift_root st now =
      if now == b'!'
      then reduce st Value.nil
      else if now == b'#'
      then running (number [] ∷ st) []
      else if now == b'@'
      then running (string [] false ∷ st) []
      else if now == b'+'
      then reduce st (Value.bool true)
      else if now == b'-'
      then reduce st (Value.bool false)
      else if now == b'='
      then running (enter_table st) []
      else thrown invalid_tag []

  -- The virtual `shift` on one byte.
  unfoldable pub shift_byte : List Frame → ℕ → Run
  unfolding shift_number shift_string shift_root
  shift_byte [] now = thrown null_state []
  shift_byte (root ∷ st) now = shift_root st now
  shift_byte (number buffer ∷ st) now = shift_number buffer st now
  shift_byte (string buffer escape ∷ st) now = shift_string buffer escape st now
  shift_byte (start ∷ st) now = thrown invalid_shift []
  shift_byte (table t k ∷ st) now = thrown invalid_shift []

  -- `shift` with nothing left to read: only the states that read bytes may be on top.
  unfoldable pub shift_end : List Frame → Run
  shift_end [] = thrown null_state []
  shift_end (start ∷ st) = thrown invalid_shift []
  shift_end (table t k ∷ st) = thrown invalid_shift []
  shift_end (top ∷ st) = running (top ∷ st) []

  -- Deserializer::operator(): the tail calls of `shift` and `reduce` are the rounds of this loop.
  unfoldable pub shift : List Frame → Text → Run
  unfolding shift_end shift_byte
  shift st [] = shift_end st
  shift st (now ∷ rest) = shift_byte st now >>= λ st'. shift st' rest

  -- The calls for the chunks that arrive one after another, up to the first that throws.
  unfoldable pub feed : List Frame → List Text → Run
  feed st [] = running st []
  feed st (chunk ∷ chunks) = shift st chunk >>= λ st'. feed st' chunks
