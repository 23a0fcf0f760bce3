-- ===== src/Examples/Connecting.antt =====
-- A connection that is written to and answers twice.
use ocremote.Base.{
  arith, ℕ, ◌≤◌, Text, text_eq, All, ◌≡◌, refl, none, some, List, [], ◌∷◌, ◌++◌, length,
}
use ocremote.Server.Client.{
  Client, Output, connected, update_timer, send_head, send, enqueue_action_group, on_written,
  on_response, count_pending, flatten,
}
use ocremote.Server.Access
use ocremote.Server.Access.{max_size, find_login, visit_accesses, get_best_access}
use ocremote.Server.Access.Fewest.{OneOf, pending_at, get_best_access-fewest}
use ocremote.Server.Client.Pending.{pending}
use ocremote.Server.Client.History.{
  Event, enqueues, writes, responds, step, run, enqueued, answered, run_in_order,
}

abbrev events : List (Event ℕ ℕ)
events =
    enqueues (1 ∷ 2 ∷ []) ∷ writes ∷ enqueues (3 ∷ []) ∷ responds 11 ∷ writes ∷ responds 12 ∷ []

abbrev final : Client ℕ × List (Output ℕ ℕ)
final = elim (run events connected) [ none ↦ (connected, []) | some r ↦ r ]

run-events : run events connected ≡ some final
unfolding run step enqueue_action_group send send_head update_timer on_written on_response
    count_pending flatten
run-events = refl

answered_events : answered final.1 ≡ 1 ∷ 2 ∷ []
unfolding run step enqueue_action_group send send_head update_timer on_written on_response answered
    count_pending flatten
answered_events = refl

run_in_order_example :
    (answered final.1 ++ pending final.0 ≡ enqueued events)
    × (count_pending final.0 ≡ length (pending final.0))
run_in_order_example = run_in_order events final.0 final.1 run-events

-- The client `b` has one action pending, `a` has none, and `c` is not connected.
abbrev logins : List (Text × Client ℕ)
logins = (97 ∷ [], connected) ∷ (98 ∷ [], (enqueue_action_group {V = ℕ} (1 ∷ []) connected).0) ∷ []

abbrev accesses : List Text
accesses = (99 ∷ []) ∷ (98 ∷ []) ∷ (97 ∷ []) ∷ []

get_best_access-accesses : get_best_access (λ x. x) logins accesses ≡ some (97 ∷ [])
unfolding get_best_access visit_accesses Access.count_pending find_login text_eq
    enqueue_action_group send send_head update_timer count_pending
get_best_access-accesses = refl

first_not_connected : pending_at (λ x. x) logins (99 ∷ []) ≤ max_size
unfolding Access.count_pending find_login text_eq
first_not_connected = omega arith

get_best_access-fewest_example :
    (best : Text) × (get_best_access (λ x. x) logins accesses ≡ some best)
    × OneOf (λ x. x) logins best accesses
    × All (λ a. pending_at (λ x. x) logins best ≤ pending_at (λ x. x) logins a) accesses
get_best_access-fewest_example =
    get_best_access-fewest (λ x. x) logins (99 ∷ []) ((98 ∷ []) ∷ (97 ∷ []) ∷ [])
      first_not_connected
