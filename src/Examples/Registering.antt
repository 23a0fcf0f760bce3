-- ===== src/Examples/Registering.antt =====
-- Two clients that log in with one name, and a group for a name that nobody has.
use ocremote.Base.{ℕ, Bool, false, ◌≡◌, refl, Option, some, List, [], ◌∷◌, Text, text_eq, ◌==◌, ◌+◌}
use ocremote.Server.Client.{
  Client, Output, connected, update_timer, send_head, send, on_written, on_response, flatten,
  fail_each, fail_all,
}
use ocremote.Server.Client
use ocremote.Server.Registry.{
  Event, refused, connects, receives, enqueues, empty, accept, find_name, put_name, find_client,
  put_client, erase_entry, forget, through_all, store, erase_client, remove_client, evict,
  update_login, refuse, enqueue_action_group, on_answer, on_login, on_packet, with_client, step,
  run, is_not_connected,
}
use ocremote.Server.Registry.Consistent.{IsConsistent}
use ocremote.Server.Registry.Agree.{run-IsConsistent}
use ocremote.Server.Registry.Settled.{settled, given, waiting, tally}
use ocremote.Server.Registry.Conserved.{run_conserves}

-- The packets are texts; what is moved from is empty.
abbrev as_text : Text → Option Text
as_text t = some t

-- No answer is malformed.
abbrev never : ℕ → Text → Bool
never action p = false

abbrev moved : Text → Text
moved t = []

-- The client 1 evicts the client 0, which has the actions 1 and 2; nobody is called `c`.
abbrev events : List (Event ℕ Text)
events =
    connects
    ∷ receives 0 (97 ∷ [])
    ∷ connects
    ∷ enqueues (97 ∷ []) (1 ∷ 2 ∷ [])
    ∷ receives 1 (97 ∷ [])
    ∷ enqueues (97 ∷ []) (3 ∷ [])
    ∷ enqueues (99 ∷ []) (4 ∷ 5 ∷ [])
    ∷ []

four_done : settled (run as_text never moved events empty).1 ≡ 1 ∷ 2 ∷ 4 ∷ 5 ∷ []
unfolding run step with_client accept on_packet on_answer on_login remove_client store update_login
    evict erase_client enqueue_action_group refuse find_name put_name find_client put_client
    erase_entry forget through_all Client.enqueue_action_group send send_head update_timer fail_each
    fail_all flatten settled text_eq
four_done = refl

one_login : (run as_text never moved events empty).0.logins ≡ (97 ∷ [], 1) ∷ []
unfolding run step with_client accept on_packet on_answer on_login remove_client store update_login
    evict erase_client enqueue_action_group refuse find_name put_name find_client put_client
    erase_entry forget through_all Client.enqueue_action_group send send_head update_timer fail_each
    fail_all flatten text_eq
one_login = refl

-- The second action of a group that is refused gets what is left of the cause.
two_refusals :
    (enqueue_action_group {A = ℕ} {V = Text} moved (99 ∷ []) (4 ∷ 5 ∷ []) empty).1
    ≡ refused 4 (99 ∷ is_not_connected) ∷ refused 5 [] ∷ []
unfolding enqueue_action_group find_name refuse
two_refusals = refl

run-IsConsistent_example : IsConsistent (run as_text never moved events empty).0
run-IsConsistent_example = run-IsConsistent as_text never moved events

run_conserves_example :
    tally (λ a. a == 2) (given events)
    ≡ tally (λ a. a == 2) (settled (run as_text never moved events empty).1)
      + tally (λ a. a == 2) (waiting (run as_text never moved events empty).0.clients)
run_conserves_example = run_conserves as_text never moved (λ a. a == 2) events
