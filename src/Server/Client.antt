-- ===== src/Server/Client.antt =====
-- `Client` of server/CPPImpl/Server.h and Server.cpp: the queues of one connection. A is the type of
-- the actions, V of the values that a client sends.
pub mod Pending
pub mod History
use ocremote.Base.{
  ℕ, ◌+◌, ◌-◌, Bool, true, false, not, ◌&&◌, ◌||◌, Option, none, some, List, [], ◌∷◌, ◌++◌, Text,
  length, if◌then◌else◌,
}

pub record Client (A : Type 0) : Type 0 where
  pub login : Option Text
  pub send_queue : List (List A)
  pub response_queue : List A
  -- whether `responseTimer` is set
  pub has_timer : Bool
  pub is_sending : Bool
  pub send_queue_total : ℕ

-- What a call hands to the platform and to the listeners of the actions.
pub data Output (A V : Type 0) : Type 0 where
  -- async_write of the packet with the dumps of these actions
  write : List A → Output A V
  -- a new timer, and the end of the old one
  arm_timer reset_timer : Output A V
  -- onResult and onFail of an action
  result : A → V → Output A V
  fail : A → Output A V

abbrev pub is_nil {ℓ} : {B : Type ℓ} → List B → Bool
is_nil [] = true
is_nil (x ∷ xs) = false

module _ {A : Type 0} where
  -- A client that has just connected.
  abbrev pub connected : Client A
  connected = record {
    login = none;
    send_queue = [];
    response_queue = [];
    has_timer = false;
    is_sending = false;
    send_queue_total = 0;
  }

  -- Client::countPending
  unfoldable pub count_pending : Client A → ℕ
  count_pending c = c.send_queue_total + length c.response_queue

  -- The actions of a list of groups.
  unfoldable pub flatten : List (List A) → List A
  flatten [] = []
  flatten (group ∷ groups) = group ++ flatten groups

module _ {A V : Type 0} where
  -- Client::updateTimer
  unfoldable pub update_timer : Bool → Client A → Client A × List (Output A V)
  update_timer restart c =
      if is_nil c.send_queue && is_nil c.response_queue
      then (record c { has_timer = false }, reset_timer ∷ [])
      else if restart || not c.has_timer
      then (record c { has_timer = true }, arm_timer ∷ [])
      else (c, [])

  -- Client::send once there is a group to send: everything but the test of `isSending`.
  unfoldable pub send_head : List A → List (List A) → Client A → Client A × List (Output A V)
  unfolding update_timer
  send_head head rest c =
      let (c', out) = update_timer false (record c {
        is_sending = true;
        response_queue = c.response_queue ++ head;
        send_queue_total = c.send_queue_total - length head;
        send_queue = rest;
      }) in
      (c', write head ∷ out)

  -- Client::send
  unfoldable pub send : Client A → Client A × List (Output A V)
  unfolding send_head
  send c = elim c.send_queue [
    | [] ↦ (c, [])
    | head ∷ rest ↦ if c.is_sending then (c, []) else send_head head rest c
  ]

  -- Client::enqueueActionGroup
  unfoldable pub enqueue_action_group : List A → Client A → Client A × List (Output A V)
  unfolding send
  enqueue_action_group actions c = send (record c {
    send_queue_total = c.send_queue_total + length actions;
    send_queue = c.send_queue ++ actions ∷ [];
  })

  -- The callback of async_write, where there was no error.
  unfoldable pub on_written : Client A → Client A × List (Output A V)
  unfolding send
  on_written c = send (record c { is_sending = false })

  -- Client::onPacket of a client that is logged in. `none`: the packet is unexpected.
  unfoldable pub on_response : V → Client A → Option (Client A × List (Output A V))
  unfolding update_timer
  on_response p c = elim c.response_queue [
    | [] ↦ none
    | action ∷ rest ↦
        let (c', out) = update_timer true (record c { response_queue = rest }) in
        some (c', result action p ∷ out)
  ]

  unfoldable pub fail_each : List A → List (Output A V)
  fail_each [] = []
  fail_each (action ∷ rest) = fail action ∷ fail_each rest

  -- Client::~Client: the failures that are posted for the actions in the two queues.
  unfoldable pub fail_all : Client A → List (Output A V)
  unfolding fail_each flatten
  fail_all c = fail_each (flatten c.send_queue) ++ fail_each c.response_queue
