-- ===== src/Server/Client/Pending.antt =====
-- The two queues of a client, read as one queue.
use mathlib.Core.Bool.{false≢true}
use mathlib.Core.Path.{ap₂}
use ocremote.Base.{
  ℕ, ◌+◌, ◌-◌, ◌≡◌, refl, sym, ap, ◌∙◌, inl, inr, Bool, true, false, Option, List, [], ◌∷◌, ◌++◌,
  append-nil, append_assoc, length, length-append, arith, Bool-cases,
}
use ocremote.Server.Client.{
  Client, is_nil, update_timer, send_head, send, enqueue_action_group, on_written, flatten,
}

module _ {A : Type 0} where
  -- Sent and not answered, then not sent yet.
  abbrev pub pending : Client A → List A
  pending c = c.response_queue ++ flatten c.send_queue

  -- The total is that of the groups; what is queued waits for the end of a write; and a sent action
  -- is watched by the timer.
  pub record IsValid (c : Client A) : Type 0 where
    pub counted : c.send_queue_total ≡ length (flatten c.send_queue)
    pub sending : is_nil c.send_queue ≡ false → c.is_sending ≡ true
    pub watched : is_nil c.response_queue ≡ false → c.has_timer ≡ true

  flatten-append :
      (xs : List (List A)) (group : List A) → flatten (xs ++ group ∷ []) ≡ flatten xs ++ group
  unfolding flatten
  flatten-append [] group = append-nil group
  flatten-append (x ∷ xs) group =
      ap (◌++◌ x) (flatten-append xs group) ∙ sym (append_assoc x (flatten xs) group)

module _ (A V : Type 0) where
  -- A timer update changes the timer only, and sets it where an answer is awaited.
  record TimerOnly (c c' : Client A) : Type 0 where
    same_login : c'.login ≡ c.login
    same_sends : c'.send_queue ≡ c.send_queue
    same_responses : c'.response_queue ≡ c.response_queue
    same_sending : c'.is_sending ≡ c.is_sending
    same_total : c'.send_queue_total ≡ c.send_queue_total
    watched : is_nil c.response_queue ≡ false → c'.has_timer ≡ true

  update_timer-TimerOnly :
      (restart : Bool) (c : Client A) → TimerOnly c (update_timer {V = V} restart c).0
  unfolding update_timer
  update_timer-TimerOnly restart c = record {
    same_login = ground arith;
    same_sends = ground arith;
    same_responses = ground arith;
    same_sending = ground arith;
    same_total = ground arith;
    watched = λ h. ground arith;
  }

  -- What a call does to the queue of the pending actions.
  pub record Leaves (c' : Client A) (login : Option (List ℕ)) (queue : List A) : Type 0 where
    pub valid : IsValid c'
    pub same_login : c'.login ≡ login
    pub queued : pending c' ≡ queue

  send_head-Leaves :
      (head : List A) (rest : List (List A)) (c : Client A)
      → c.send_queue_total ≡ length (flatten (head ∷ rest))
      → Leaves (send_head {V = V} head rest c).0 c.login (c.response_queue ++ flatten (head ∷ rest))
  unfolding send_head flatten
  send_head-Leaves head rest c counted =
      let c1 : Client A = record c {
        is_sending = true;
        response_queue = c.response_queue ++ head;
        send_queue_total = c.send_queue_total - length head;
        send_queue = rest;
      } in
      let t = update_timer-TimerOnly false c1 in
      record {
        valid = record {
          counted =
              t.same_total
              ∙ omega (arith, counted, length-append head (flatten rest))
              ∙ ap (λ q. length (flatten q)) (sym t.same_sends);
          sending = λ _. t.same_sending;
          watched = λ h. t.watched (ap is_nil (sym t.same_responses) ∙ h);
        };
        same_login = t.same_login;
        queued =
            rw (t.same_responses, t.same_sends) (append_assoc c.response_queue head (flatten rest));
      }

  -- What `send` needs: that the total is right, and that sent actions are watched.
  send-Leaves :
      (c : Client A) (queue : List (List A))
      → c.send_queue ≡ queue
      → c.send_queue_total ≡ length (flatten c.send_queue)
      → (is_nil c.response_queue ≡ false → c.has_timer ≡ true)
      → Leaves (send {V = V} c).0 c.login (pending c)
  unfolding send
  send-Leaves c [] e counted watched =
      rw (e, send)
        (record {
          valid = record {
            counted = counted;
            sending = λ h. absurd (false≢true (sym h ∙ ap is_nil e));
            watched = watched;
          };
          same_login = refl;
          queued = ap (λ q. c.response_queue ++ flatten q) e;
        })
  send-Leaves c (head ∷ rest) e counted watched = elim (Bool-cases c.is_sending) [
    | inl busy ↦
        rw (e, busy, send)
          (record {
            valid = record { counted = counted; sending = λ _. refl; watched = watched };
            same_login = refl;
            queued = ap (λ q. c.response_queue ++ flatten q) e;
          })
    | inr free ↦
        rw (e, free, send) (send_head-Leaves head rest c (counted ∙ ap (λ q. length (flatten q)) e))
  ]

  pub enqueue-Leaves :
      (actions : List A) (c : Client A)
      → IsValid c
      → Leaves (enqueue_action_group {V = V} actions c).0 c.login (pending c ++ actions)
  unfolding enqueue_action_group
  enqueue-Leaves actions c v =
      let grown = flatten-append c.send_queue actions in
      rw (append_assoc c.response_queue (flatten c.send_queue) actions) (
        rw (← grown) (
          send-Leaves
            (record c {
              send_queue_total = c.send_queue_total + length actions;
              send_queue = c.send_queue ++ actions ∷ [];
            })
            _ refl
            (omega
              (arith, v.counted, ap length grown, length-append (flatten c.send_queue) actions))
            v.watched))

  pub written-Leaves :
      (c : Client A) → IsValid c → Leaves (on_written {V = V} c).0 c.login (pending c)
  unfolding on_written
  written-Leaves c v =
      send-Leaves (record c { is_sending = false }) c.send_queue refl v.counted v.watched

  -- The answer of the action at the front.
  pub response-Leaves :
      (action : A) (rest : List A) (c : Client A)
      → IsValid c
      → Leaves
          (update_timer {V = V} true (record c { response_queue = rest })).0
          c.login
          (rest ++ flatten c.send_queue)
  response-Leaves action rest c v =
      let t = update_timer-TimerOnly true (record c { response_queue = rest }) in
      record {
        valid = record {
          counted = t.same_total ∙ v.counted ∙ ap (λ q. length (flatten q)) (sym t.same_sends);
          sending = λ h. t.same_sending ∙ v.sending (ap is_nil (sym t.same_sends) ∙ h);
          watched = λ h. t.watched (ap is_nil (sym t.same_responses) ∙ h);
        };
        same_login = t.same_login;
        queued = ap₂ (λ r q. r ++ flatten q) t.same_responses t.same_sends;
      }
