-- ===== src/Action.antt =====
-- The actions of server/CPPImpl/Actions.h and Actions.cpp: what they send, and what they make of an
-- answer. Promise has the promises that they fulfil.
use ocremote.Base.{ℕ, none, some, List, [], ◌∷◌, Text, if◌then◌else◌}
use ocremote.Base.Int.{ℤ, pos}
use ocremote.Serialize.Value.{Doubles, Value, Table}
use ocremote.Serialize.Casts.{Casts}
use ocremote.Serialize.Arrays.{Result, ok, ◌>>=◌, array_to_table, table_to_array}
use ocremote.Item.{ItemStack, Inventory}
use ocremote.Item.Codec.{put_text, as_table, parse_item_stack}
use ocremote.Literals

-- Actions::Print, List, ListME, XferME and Call, with their fields.
pub data Action (D : Type 0) : Type 0 where
  print : (text : Text) (color : ℕ) (beep : D) → Action D
  list : (inv : Text) (side : ℤ) → Action D
  list_me : (inv : Text) → Action D
  xfer_me : (me inv : Text) (filter : Value D) (args : List (Value D)) (size entry : ℤ) → Action D
  call : (inv fn : Text) (args : List (Value D)) → Action D

-- The sides of a block.
abbrev pub down : ℤ
down = pos 0

abbrev pub up : ℤ
up = pos 1

module _ (F : Doubles) (C : Casts F) where
  open F use {Double, less}
  open C use {of_int, of_size}

  -- The virtual `dump`.
  unfoldable pub dump : Action Double → Table Double → Table Double
  dump (print text color beep) s =
      let s' = put_text F Literals.text (Value.str text) (
        put_text F Literals.color (Value.num (of_size color))
          (put_text F Literals.op (Value.str Literals.print) s)) in
      if less (of_int (pos 0)) beep then put_text F Literals.beep (Value.num beep) s' else s'
  dump (list inv side) s = put_text F Literals.inv (Value.str inv) (
      put_text F Literals.side (Value.num (of_int side))
        (put_text F Literals.op (Value.str Literals.list) s))
  dump (list_me inv) s =
      put_text F Literals.inv (Value.str inv)
        (put_text F Literals.op (Value.str Literals.list_me) s)
  dump (xfer_me me inv filter args size entry) s = put_text F Literals.me (Value.str me) (
      put_text F Literals.inv (Value.str inv) (
        put_text F Literals.args (Value.table (array_to_table F C args)) (
          put_text F Literals.filter filter (
            put_text F Literals.entry (Value.num (of_int entry)) (
              put_text F Literals.size (Value.num (of_int size))
                (put_text F Literals.op (Value.str Literals.xfer_me) s))))))
  dump (call inv fn args) s = put_text F Literals.inv (Value.str inv) (
      put_text F Literals.args (Value.table (array_to_table F C args)) (
        put_text F Literals.fn (Value.str fn) (put_text F Literals.op (Value.str Literals.call) s)))

  -- The packet of a group of actions, in Client::send.
  unfoldable pub dump_group : List (Action Double) → List (Value Double)
  unfolding dump
  dump_group [] = []
  dump_group (action ∷ rest) = Value.table (dump action Table.end) ∷ dump_group rest

  unfoldable pub packet : List (Action Double) → Value Double
  unfolding dump_group
  packet group = Value.table (array_to_table F C (dump_group group))

  -- The loop of List::onResult: a slot that is no table is empty.
  unfoldable pub parse_slots : List (Value Double) → Result (Inventory Double)
  parse_slots [] = ok []
  parse_slots (Value.table t ∷ rest) = do
    stack ← parse_item_stack F C (Value.table t)
    stacks ← parse_slots rest
    ok (some stack ∷ stacks)
  parse_slots (other ∷ rest) = do stacks ← parse_slots rest; ok (none ∷ stacks)

  -- List::onResult
  unfoldable pub list_result : Value Double → Result (Inventory Double)
  unfolding parse_slots
  list_result s = do t ← as_table F s; items ← table_to_array F C t; parse_slots items

  unfoldable pub parse_stacks : List (Value Double) → Result (List (ItemStack Double))
  parse_stacks [] = ok []
  parse_stacks (s ∷ rest) = do
    stack ← parse_item_stack F C s
    stacks ← parse_stacks rest
    ok (stack ∷ stacks)

  -- ListME::onResult
  unfoldable pub list_me_result : Value Double → Result (List (ItemStack Double))
  unfolding parse_stacks
  list_me_result s = do t ← as_table F s; items ← table_to_array F C t; parse_stacks items
