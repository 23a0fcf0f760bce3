-- ===== src/Server/Registry/Agree.antt =====
-- The clients and the names of `Server` agree over every history.
use ocremote.Base.{
  ℕ, ◌≡◌, ◌≢◌, refl, sym, ◌∙◌, ◌⊎◌, inl, inr, Bool, Bool-cases, true, Option, none, some, List, [],
  ◌∷◌, Text, Option-cases,
}
use ocremote.Server.Client
use ocremote.Server.Client.{Client, Output, result, update_timer, on_written, on_response, fail_all}
use ocremote.Server.Client.Pending.{Leaves, enqueue-Leaves, written-Leaves, response-Leaves}
use ocremote.Server.Registry.Lookup.{none-some, find-put_client_ne}
use ocremote.Server.Registry.{
  throws_first, Server, through_all, Event, connects, receives, writes, breaks, enqueues, Effect,
  empty, find_name, put_name, find_client, put_client, erase_entry, store, erase_client,
  remove_client, evict, update_login, enqueue_action_group, on_answer, on_login, on_packet,
  with_client, step, run,
}
use ocremote.Server.Registry.Consistent.{
  IsConsistent, empty-IsConsistent, accept-IsConsistent, put-IsConsistent, remove-IsConsistent,
}
use ocremote.Server.Registry.Named.{taken-held, Takes-IsConsistent, free-Takes, evicted-Takes}

module _ {A : Type 0} (V : Type 0) where
  pub on_login_free :
      (id : ℕ) (c : Client A) (l : Text) (s : Server A)
      → find_name l s.logins ≡ none
      → on_login {V = V} (some l) id c s ≡ (
        record s {
          clients = put_client id (record c { login = some l }) s.clients;
          logins = put_name l id s.logins;
        },
        [],
      )
  unfolding on_login update_login evict
  on_login_free id c l s free = rw (update_login, free, evict) refl

  pub on_login_taken :
      (id : ℕ) (c : Client A) (l : Text) (s : Server A) (old : ℕ) (holder : Client A)
      → find_name l s.logins ≡ some old
      → old ≢ id
      → find_client old s.clients ≡ some holder
      → on_login {V = V} (some l) id c s ≡ (
        record s {
          clients = erase_entry old (put_client id (record c { login = some l }) s.clients);
          logins = put_name l id s.logins;
        },
        through_all (fail_all holder),
      )
  unfolding on_login update_login evict erase_client
  on_login_taken id c l s old holder taken apart held =
      let still : find_client old (put_client id (record c { login = some l }) s.clients)
          ≡ some holder =
        find-put_client_ne id old _ s.clients (λ x. apart (sym x)) ∙ held in
      rw (update_login, taken, evict, still) refl

  login-IsConsistent :
      (id : ℕ) (c : Client A) (l : Text) (s : Server A)
      → IsConsistent s
      → find_client id s.clients ≡ some c
      → c.login ≡ none
      → IsConsistent (on_login {V = V} (some l) id c s).0
  login-IsConsistent id c l s k f out = elim (Option-cases (find_name l s.logins)) [
    | inl free ↦
        rw (on_login_free id c l s free)
          (Takes-IsConsistent s id c l _ k f out (free-Takes s id c l k f free))
    | inr (old, taken) ↦
        let (holder, apart, held, under) = taken-held s id c l old k f out taken in
        rw (on_login_taken id c l s old holder taken apart held)
          (Takes-IsConsistent s id c l _ k f out (evicted-Takes s id c l old k f out taken))
  ]

  -- A client that is found under a number takes the state that a call left, under the same name.
  stored-IsConsistent :
      (id : ℕ) (c : Client A) (r : Client A × List (Output A V)) (queue : List A) (s : Server A)
      → IsConsistent s
      → find_client id s.clients ≡ some c
      → Leaves A V r.0 c.login queue
      → (c.login ≡ none → queue ≡ [])
      → IsConsistent (store id r s).0
  unfolding store
  stored-IsConsistent id c r queue s k f l idle =
      put-IsConsistent s id c r.0 k f l.same_login
        (record { valid = l.valid; idle = λ h. l.queued ∙ idle (sym l.same_login ∙ h) })

  enqueue-IsConsistent :
      (moved : Text → Text) (client : Text) (actions : List A) (s : Server A)
      → IsConsistent s
      → IsConsistent (enqueue_action_group {V = V} moved client actions s).0
  unfolding enqueue_action_group
  enqueue-IsConsistent moved client actions s k = elim (Option-cases (find_name client s.logins)) [
    | inl absent ↦ rw (enqueue_action_group, absent) k
    | inr (id, found) ↦
        let (c, held, under) = k.listed client id found in
        rw (enqueue_action_group, found, held)
          (stored-IsConsistent id c (Client.enqueue_action_group actions c) _ s k held
            (enqueue-Leaves A V actions c (k.sound id c held).valid)
            (λ h. absurd (none-some client (sym h ∙ under))))
  ]

  removed-IsConsistent :
      (id : ℕ) (c : Client A) (s : Server A)
      → IsConsistent s
      → find_client id s.clients ≡ some c
      → IsConsistent (remove_client {V = V} id c s).0
  unfolding remove_client erase_client
  removed-IsConsistent id c s k f = remove-IsConsistent s id c k f

  -- The answer to the first action.
  abbrev pub answering : V → A → List A → Client A → Client A × List (Output A V)
  answering p action rest c =
      let (c', out) = update_timer true (record c { response_queue = rest }) in
      (c', result action p ∷ out)

  -- What on_response does: the packet is unexpected, or it answers the first action.
  pub response_cases :
      (p : V) (c : Client A) (queue : List A)
      → c.response_queue ≡ queue
      → (on_response p c ≡ none)
        ⊎ ((action : A) × (rest : List A) × (c.response_queue ≡ action ∷ rest)
            × (on_response p c ≡ some (answering p action rest c)))
  unfolding on_response
  response_cases p c [] e = inl (rw (on_response, e) refl)
  response_cases p c (action ∷ rest) e = inr (action, rest, e, rw (on_response, e) refl)

  answer-IsConsistent :
      (throws : A → V → Bool) (p : V) (id : ℕ) (c : Client A) (l : Text) (s : Server A)
      → IsConsistent s
      → find_client id s.clients ≡ some c
      → c.login ≡ some l
      → IsConsistent (on_answer throws p id c s).0
  unfolding on_answer
  answer-IsConsistent throws p id c l s k f under =
      elim (Bool-cases (throws_first throws p c.response_queue)) [
        | inl malformed ↦ rw (on_answer, malformed) (removed-IsConsistent id c s k f)
        | inr fine ↦ elim (response_cases p c c.response_queue refl) [
          | inl unexpected ↦ rw (on_answer, fine, unexpected) (removed-IsConsistent id c s k f)
          | inr (action, rest, queue, answered) ↦
              rw (on_answer, fine, answered)
                (stored-IsConsistent id c (answering p action rest c) _ s k f
                  (response-Leaves A V action rest c (k.sound id c f).valid)
                  (λ h. absurd (none-some l (sym h ∙ under))))
        ]
      ]

  packet-IsConsistent :
      (as_text : V → Option Text) (throws : A → V → Bool) (p : V) (id : ℕ) (c : Client A)
      (s : Server A)
      → IsConsistent s
      → find_client id s.clients ≡ some c
      → IsConsistent (on_packet as_text throws p id c s).0
  unfolding on_packet on_login
  packet-IsConsistent as_text throws p id c s k f = elim (Option-cases c.login) [
    | inr (l, under) ↦ rw (on_packet, under) (answer-IsConsistent throws p id c l s k f under)
    | inl out ↦ elim (Option-cases (as_text p)) [
      | inl other ↦ rw (on_packet, out, other) (removed-IsConsistent id c s k f)
      | inr (l, text) ↦ rw (on_packet, out, text) (login-IsConsistent id c l s k f out)
    ]
  ]

module _ {A V : Type 0} (as_text : V → Option Text) (throws : A → V → Bool)
    (moved : Text → Text) where
  client-IsConsistent :
      (callback : ℕ → Client A → Server A → Server A × List (Effect A V)) (id : ℕ) (s : Server A)
      → IsConsistent s
      → ((c : Client A) → find_client id s.clients ≡ some c → IsConsistent (callback id c s).0)
      → IsConsistent (with_client as_text throws moved callback id s).0
  unfolding with_client
  client-IsConsistent callback id s k h = elim (Option-cases (find_client id s.clients)) [
    | inl gone ↦ rw (with_client, gone) k
    | inr (c, f) ↦ rw (with_client, f) (h c f)
  ]

  pub step-IsConsistent :
      (event : Event A V) (s : Server A)
      → IsConsistent s
      → IsConsistent (step as_text throws moved event s).0
  unfolding step
  step-IsConsistent connects s k = accept-IsConsistent s k
  step-IsConsistent (receives id p) s k =
      client-IsConsistent (on_packet as_text throws p) id s k
        (λ c f. packet-IsConsistent V as_text throws p id c s k f)
  step-IsConsistent (writes id) s k =
      client-IsConsistent (λ i c. store i (on_written c)) id s k
        (λ c f.
          stored-IsConsistent V id c (on_written c) _ s k f
            (written-Leaves A V c (k.sound id c f).valid) (k.sound id c f).idle)
  step-IsConsistent (breaks id) s k =
      client-IsConsistent remove_client id s k (λ c f. removed-IsConsistent V id c s k f)
  step-IsConsistent (enqueues client actions) s k = enqueue-IsConsistent V moved client actions s k

  run_from-IsConsistent :
      (events : List (Event A V)) (s : Server A)
      → IsConsistent s
      → IsConsistent (run as_text throws moved events s).0
  unfolding run
  run_from-IsConsistent [] s k = k
  run_from-IsConsistent (event ∷ events) s k =
      run_from-IsConsistent events (step as_text throws moved event s).0
        (step-IsConsistent event s k)

  -- After every sequence of connections, packets, writes, broken connections and groups of actions,
  -- from no client at all: each name leads to a client that is connected and has logged in with it;
  -- each client that has logged in is found under its name, so that no two clients have one name
  -- and no pointer dangles; and the queues of each client are sound, with nothing pending for one
  -- that has not logged in.
  pub run-IsConsistent :
      (events : List (Event A V)) → IsConsistent (run as_text throws moved events empty).0
  run-IsConsistent events = run_from-IsConsistent events empty empty-IsConsistent
