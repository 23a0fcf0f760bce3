-- ===== src/Server/Registry/Conserved.antt =====
-- The actions that `Server` is given: each is settled once, or still pending.
use ocremote.Base.{
  ℕ, ◌+◌, ◌≡◌, refl, ap, sym, ◌∙◌, inl, inr, Bool, Bool-cases, true, Option, none, some, List, [],
  ◌∷◌, ◌++◌, Text, Option-cases, append-nil, arith,
}
use ocremote.Server.Client
use ocremote.Server.Client.{
  Client, Output, write, arm_timer, reset_timer, result, fail, update_timer, send, send_head,
  on_written, on_response, fail_all, fail_each, flatten, connected,
}
use ocremote.Server.Client.Pending.{pending, enqueue-Leaves, written-Leaves, response-Leaves}
use ocremote.Server.Registry.{
  throws_first, Server, is_not_connected, through_all, Event, connects, receives, writes, breaks,
  enqueues, Effect, empty, accept, find_name, find_client, put_client, store, erase_client,
  remove_client, enqueue_action_group, on_answer, on_login, on_packet, with_client, step, run,
}
use ocremote.Server.Registry.Lookup.{find-put_client_ne}
use ocremote.Server.Registry.Consistent.{IsConsistent, empty-IsConsistent}
use ocremote.Server.Registry.Named.{taken-held}
use ocremote.Server.Registry.Agree.{
  on_login_free, on_login_taken, answering, response_cases, step-IsConsistent,
}
use ocremote.Server.Registry.Settled.{
  settled, given, waiting, tally, tally-append, waiting-put, waiting-erase, settled-append,
  settled-refuse, settled-fail_all, timer-settled, send-settled,
}

module _ {A : Type 0} (V : Type 0) (f : A → Bool) where
  -- One call: what was pending and what is given are what is settled and what is pending then.
  abbrev Conserves : Server A → List A → Server A × List (Effect A V) → Type 0
  Conserves s new r =
      tally f (waiting s.clients) + tally f new
      ≡ tally f (settled r.1) + tally f (waiting r.0.clients)

  destroyed :
      (c : Client A) → tally f (settled {V = V} (through_all (fail_all c))) ≡ tally f (pending c)
  destroyed c = rw (settled-fail_all V c) (
      omega (
        arith,
        tally-append f (flatten c.send_queue) c.response_queue,
        tally-append f c.response_queue (flatten c.send_queue),
      ))

  removed-Conserves :
      (id : ℕ) (c : Client A) (s : Server A)
      → find_client id s.clients ≡ some c
      → Conserves s [] (remove_client id c s)
  unfolding remove_client erase_client tally
  removed-Conserves id c s h = omega (arith, destroyed c, waiting-erase f id c s.clients h)

  stored-Conserves :
      (id : ℕ) (c : Client A) (r : Client A × List (Output A V)) (done new : List A) (s : Server A)
      → find_client id s.clients ≡ some c
      → settled (through_all r.1) ≡ done
      → tally f (pending c) + tally f new ≡ tally f done + tally f (pending r.0)
      → Conserves s new (store id r s)
  unfolding store
  stored-Conserves id c r done new s h out e =
      omega (arith, ap (tally f) out, e, waiting-put f id c r.0 s.clients h)

  login-Conserves :
      (id : ℕ) (c : Client A) (l : Text) (s : Server A)
      → IsConsistent s
      → find_client id s.clients ≡ some c
      → c.login ≡ none
      → Conserves s [] (on_login (some l) id c s)
  unfolding tally settled
  login-Conserves id c l s k h out =
      let c' : Client A = record c { login = some l } in
      let put = waiting-put f id c c' s.clients h in
      elim (Option-cases (find_name l s.logins)) [
        | inl free ↦ rw (on_login_free V id c l s free) (omega (arith, put))
        | inr (old, taken) ↦
            let (holder, apart, held, under) = taken-held s id c l old k h out taken in
            let still : find_client old (put_client id c' s.clients) ≡ some holder =
              find-put_client_ne id old c' s.clients (λ x. apart (sym x)) ∙ held in
            rw (on_login_taken V id c l s old holder taken apart held)
              (omega (arith, put, destroyed holder, waiting-erase f old holder _ still))
      ]

  enqueue-settled :
      (actions : List A) (c : Client A)
      → settled {V = V} (through_all (Client.enqueue_action_group actions c).1) ≡ []
  unfolding Client.enqueue_action_group
  enqueue-settled actions c = send-settled V _ _ refl

  counted :
      (queue whole : List A) (n : ℕ)
      → queue ≡ whole
      → tally f whole ≡ n
      → n ≡ tally f [] + tally f queue
  unfolding tally
  counted queue whole n e h = omega (arith, ap (tally f) e, h)

  enqueue-Conserves :
      (moved : Text → Text) (client : Text) (actions : List A) (s : Server A)
      → IsConsistent s
      → Conserves s actions (enqueue_action_group moved client actions s)
  unfolding enqueue_action_group
  enqueue-Conserves moved client actions s k = elim (Option-cases (find_name client s.logins)) [
    | inl absent ↦
        rw (enqueue_action_group, absent)
          (omega
            (arith, ap (tally f) (settled-refuse V moved (client ++ is_not_connected) actions)))
    | inr (id, found) ↦
        let (c, held, under) = k.listed client id found in
        rw (enqueue_action_group, found, held)
          (stored-Conserves id c (Client.enqueue_action_group actions c) [] actions s held
            (enqueue-settled actions c)
            (counted _ _ _ (enqueue-Leaves A V actions c (k.sound id c held).valid).queued
              (tally-append f (pending c) actions)))
  ]

  answer-Conserves :
      (throws : A → V → Bool) (p : V) (id : ℕ) (c : Client A) (s : Server A)
      → IsConsistent s
      → find_client id s.clients ≡ some c
      → Conserves s [] (on_answer throws p id c s)
  unfolding on_answer tally settled through_all
  answer-Conserves throws p id c s k h =
      elim (Bool-cases (throws_first throws p c.response_queue)) [
        | inl malformed ↦ rw (on_answer, malformed) (removed-Conserves id c s h)
        | inr fine ↦ elim (response_cases V p c c.response_queue refl) [
          | inl unexpected ↦ rw (on_answer, fine, unexpected) (removed-Conserves id c s h)
          | inr (action, rest, queue, answered) ↦
              let r : Client A × List (Output A V) = answering V p action rest c in
              let left = (response-Leaves A V action rest c (k.sound id c h).valid).queued in
              rw (on_answer, fine, answered)
                (stored-Conserves id c r (action ∷ []) [] s h
                  (ap (◌∷◌ action) (timer-settled V true _))
                  (omega (
                    arith,
                    ap (tally f) left,
                    ap (λ q. tally f (q ++ flatten c.send_queue)) queue,
                  )))
        ]
      ]

  packet-Conserves :
      (as_text : V → Option Text) (throws : A → V → Bool) (p : V) (id : ℕ) (c : Client A)
      (s : Server A)
      → IsConsistent s
      → find_client id s.clients ≡ some c
      → Conserves s [] (on_packet as_text throws p id c s)
  unfolding on_packet on_login
  packet-Conserves as_text throws p id c s k h = elim (Option-cases c.login) [
    | inr (l, under) ↦ rw (on_packet, under) (answer-Conserves throws p id c s k h)
    | inl out ↦ elim (Option-cases (as_text p)) [
      | inl other ↦ rw (on_packet, out, other) (removed-Conserves id c s h)
      | inr (l, text) ↦ rw (on_packet, out, text) (login-Conserves id c l s k h out)
    ]
  ]

  written-Conserves :
      (id : ℕ) (c : Client A) (s : Server A)
      → IsConsistent s
      → find_client id s.clients ≡ some c
      → Conserves s [] (store id (on_written c) s)
  unfolding on_written tally
  written-Conserves id c s k h =
      stored-Conserves id c (on_written c) [] [] s h (send-settled V _ _ refl)
        (omega (arith, ap (tally f) (written-Leaves A V c (k.sound id c h).valid).queued))

module _ {A V : Type 0} (as_text : V → Option Text) (throws : A → V → Bool) (moved : Text → Text)
    (f : A → Bool) where
  client-Conserves :
      (callback : ℕ → Client A → Server A → Server A × List (Effect A V)) (id : ℕ) (s : Server A)
      → ((c : Client A) → find_client id s.clients ≡ some c → Conserves V f s [] (callback id c s))
      → Conserves V f s [] (with_client as_text throws moved callback id s)
  unfolding with_client tally settled
  client-Conserves callback id s h = elim (Option-cases (find_client id s.clients)) [
    | inl gone ↦ rw (with_client, gone) (omega arith)
    | inr (c, found) ↦ rw (with_client, found) (h c found)
  ]

  step-Conserves :
      (event : Event A V) (s : Server A)
      → IsConsistent s
      → Conserves V f s (given (event ∷ [])) (step as_text throws moved event s)
  unfolding step given tally settled waiting flatten accept
  step-Conserves connects s k = omega arith
  step-Conserves (receives id p) s k =
      client-Conserves (on_packet as_text throws p) id s
        (λ c h. packet-Conserves V f as_text throws p id c s k h)
  step-Conserves (writes id) s k =
      client-Conserves (λ i c. store i (on_written c)) id s
        (λ c h. written-Conserves V f id c s k h)
  step-Conserves (breaks id) s k =
      client-Conserves remove_client id s (λ c h. removed-Conserves V f id c s h)
  step-Conserves (enqueues client actions) s k =
      rw (append-nil actions) (enqueue-Conserves V f moved client actions s k)

  given_cons :
      (event : Event A V) (events : List (Event A V))
      → tally f (given (event ∷ events)) ≡ tally f (given (event ∷ [])) + tally f (given events)
  unfolding given tally
  given_cons connects events = omega arith
  given_cons (receives id p) events = omega arith
  given_cons (writes id) events = omega arith
  given_cons (breaks id) events = omega arith
  given_cons (enqueues client actions) events =
      omega (arith, tally-append f actions (given events), ap (tally f) (append-nil actions))

  run-Conserves :
      (events : List (Event A V)) (s : Server A)
      → IsConsistent s
      → Conserves V f s (given events) (run as_text throws moved events s)
  unfolding run tally given settled
  run-Conserves [] s k = omega arith
  run-Conserves (event ∷ events) s k =
      let r = step as_text throws moved event s in
      let later = run as_text throws moved events r.0 in
      omega (
        arith,
        step-Conserves event s k,
        run-Conserves events r.0 (step-IsConsistent as_text throws moved event s k),
        given_cons event events,
        ap (tally f) (settled-append V r.1 later.1),
        tally-append f (settled r.1) (settled later.1),
      )

  -- After every sequence of events from no client at all, for every test of actions: of the actions
  -- that were enqueued, as many pass the test as of those that got a result or a failure and of
  -- those that are pending at the clients, together. So whatever is evicted, breaks off or is
  -- refused, no action is lost, and none is settled twice.
  pub run_conserves :
      (events : List (Event A V))
      → tally f (given events)
        ≡ tally f (settled (run as_text throws moved events empty).1)
          + tally f (waiting (run as_text throws moved events empty).0.clients)
  unfolding waiting tally
  run_conserves events =
      let whole = run-Conserves events empty empty-IsConsistent in omega (arith, whole)
