-- ===== src/Server/Client/History.antt =====
-- The history of a connection: what was enqueued, and what was answered.
use mathlib.Core.Bool.{false≢true}
use mathlib.Core.Path.{subst}
use ocremote.Base.{
  ◌≡◌, refl, sym, ap, ◌∙◌, inl, inr, Bool, true, false, Option, none, some, List, [], ◌∷◌, ◌++◌,
  append-nil, append_assoc, length, length-append, some_inj, arith, Bool-cases, Option-cases,
}
use ocremote.Server.Client.{
  Client, Output, write, arm_timer, reset_timer, result, fail, connected, update_timer, send_head,
  send, enqueue_action_group, on_written, on_response, count_pending, flatten,
}
use ocremote.Server.Client.Pending.{
  pending, IsValid, enqueue-Leaves, written-Leaves, response-Leaves,
}

pub connected-IsValid : (A : Type 0) → IsValid (connected {A = A})
unfolding flatten
connected-IsValid A = record {
  counted = refl;
  sending = λ h. absurd (false≢true (sym h));
  watched = λ h. absurd (false≢true (sym h));
}

-- What happens to a client that is logged in.
pub data Event (A V : Type 0) : Type 0 where
  enqueues : List A → Event A V
  writes : Event A V
  responds : V → Event A V

module _ {A V : Type 0} where
  unfoldable pub step : Event A V → Client A → Option (Client A × List (Output A V))
  step (enqueues actions) c = some (enqueue_action_group actions c)
  step writes c = some (on_written c)
  step (responds p) c = on_response p c

  -- The events one after another, and the outputs; `none`: a packet was unexpected.
  unfoldable pub run : List (Event A V) → Client A → Option (Client A × List (Output A V))
  unfolding step
  run [] c = some (c, [])
  run (event ∷ events) c = elim (step event c) [
    | none ↦ none
    | some (c', out) ↦ elim (run events c') [
      | none ↦ none
      | some (c'', more) ↦ some (c'', out ++ more)
    ]
  ]

  unfoldable pub enqueued : List (Event A V) → List A
  enqueued [] = []
  enqueued (enqueues actions ∷ events) = actions ++ enqueued events
  enqueued (writes ∷ events) = enqueued events
  enqueued (responds p ∷ events) = enqueued events

  -- The actions that got a result.
  unfoldable pub answered : List (Output A V) → List A
  answered [] = []
  answered (result action p ∷ out) = action ∷ answered out
  answered (other ∷ out) = answered out

  answered-append : (xs ys : List (Output A V)) → answered (xs ++ ys) ≡ answered xs ++ answered ys
  unfolding answered
  answered-append [] ys = refl
  answered-append (result a p ∷ xs) ys = ap (◌∷◌ a) (answered-append xs ys)
  answered-append (write h ∷ xs) ys = answered-append xs ys
  answered-append (arm_timer ∷ xs) ys = answered-append xs ys
  answered-append (reset_timer ∷ xs) ys = answered-append xs ys
  answered-append (fail a ∷ xs) ys = answered-append xs ys

module _ (A V : Type 0) where
  timer_answers_none :
      (restart : Bool) (c : Client A) → answered (update_timer {V = V} restart c).1 ≡ []
  unfolding update_timer answered
  timer_answers_none restart c = ground arith

  send_answers_none :
      (c : Client A) (queue : List (List A))
      → c.send_queue ≡ queue
      → answered (send {V = V} c).1 ≡ []
  unfolding send send_head answered
  send_answers_none c [] e = rw (e, send)
  send_answers_none c (head ∷ rest) e = elim (Bool-cases c.is_sending) [
    | inl busy ↦ rw (e, busy, send)
    | inr free ↦ rw (e, free, send) (timer_answers_none false _)
  ]

module _ {A V : Type 0} where
  -- One event: the answers and what is pending then are what was pending, and what was enqueued.
  record Kept (c : Client A) (more : List A) (c' : Client A) (out : List (Output A V))
      : Type 0 where
    valid : IsValid c'
    in_order : answered out ++ pending c' ≡ pending c ++ more

  responds-Kept :
      (p : V) (c c' : Client A) (out : List (Output A V)) (queue : List A)
      → c.response_queue ≡ queue
      → IsValid c
      → on_response p c ≡ some (c', out)
      → Kept c [] c' out
  unfolding on_response
  responds-Kept p c c' out [] e v h =
      let nothing : Option (Client A × List (Output A V)) = none in
      let impossible : nothing ≡ some (c', out) = rw (e, on_response) at h in cc
  responds-Kept p c c' out (action ∷ rest) e v h =
      let r = update_timer {V = V} true (record c { response_queue = rest }) in
      let first : Client A × List (Output A V) = (r.0, result action p ∷ r.1) in
      let h' : some first ≡ some (c', out) = rw (e, on_response) at h in
      let l = response-Leaves A V action rest c v in
      let same : first ≡ (c', out) = some_inj h' in
      subst (λ x. Kept c [] x.0 x.1) same
        (record {
          valid = l.valid;
          in_order =
              unfold answered in
              ap (λ q. action ∷ q ++ pending r.0)
                (timer_answers_none A V true (record c { response_queue = rest }))
              ∙ ap (◌∷◌ action) l.queued
              ∙ ap (λ q. q ++ flatten c.send_queue) (sym e)
              ∙ sym (append-nil (pending c));
        })

  step-Kept :
      (event : Event A V) (c c' : Client A) (out : List (Output A V))
      → IsValid c
      → step event c ≡ some (c', out)
      → Kept c (enqueued (event ∷ [])) c' out
  unfolding step enqueued enqueue_action_group on_written
  step-Kept (enqueues actions) c c' out v h =
      let l = enqueue-Leaves A V actions c v in
      subst (λ x. Kept c (actions ++ []) x.0 x.1) (some_inj h)
        (record {
          valid = l.valid;
          in_order =
              ap (λ q. q ++ pending (enqueue_action_group {V = V} actions c).0)
                (send_answers_none A V _ _ refl)
              ∙ l.queued
              ∙ ap (◌++◌ (pending c)) (sym (append-nil actions));
        })
  step-Kept writes c c' out v h =
      let l = written-Leaves A V c v in
      subst (λ x. Kept c [] x.0 x.1) (some_inj h)
        (record {
          valid = l.valid;
          in_order =
              ap (λ q. q ++ pending (on_written {V = V} c).0) (send_answers_none A V _ _ refl)
              ∙ l.queued
              ∙ sym (append-nil (pending c));
        })
  step-Kept (responds p) c c' out v h = responds-Kept p c c' out c.response_queue refl v h

  enqueued_cons :
      (event : Event A V) (events : List (Event A V))
      → enqueued (event ∷ events) ≡ enqueued (event ∷ []) ++ enqueued events
  unfolding enqueued
  enqueued_cons (enqueues actions) events =
      ap (λ q. q ++ enqueued events) (sym (append-nil actions))
  enqueued_cons writes events = refl
  enqueued_cons (responds p) events = refl

  -- An event and the events after it.
  Kept-trans :
      (c c' c'' : Client A) (more later : List A) (out outs : List (Output A V))
      → Kept c more c' out
      → Kept c' later c'' outs
      → Kept c (more ++ later) c'' (out ++ outs)
  Kept-trans c c' c'' more later out outs k l = record {
    valid = l.valid;
    in_order =
        ap (λ q. q ++ pending c'') (answered-append out outs)
        ∙ append_assoc (answered out) (answered outs) (pending c'')
        ∙ ap (◌++◌ (answered out)) l.in_order
        ∙ sym (append_assoc (answered out) (pending c') later)
        ∙ ap (λ q. q ++ later) k.in_order
        ∙ append_assoc (pending c) more later;
  }

  run-Kept :
      (events : List (Event A V)) (c c' : Client A) (out : List (Output A V))
      → IsValid c
      → run events c ≡ some (c', out)
      → Kept c (enqueued events) c' out
  unfolding run answered enqueued
  run-Kept [] c c' out v h =
      subst (λ x. Kept c (enqueued {V = V} []) x.0 x.1) (some_inj h)
        (record { valid = v; in_order = sym (append-nil (pending c)) })
  run-Kept (event ∷ events) c c' out v h = elim (Option-cases (step event c)) [
    | inl stuck ↦
        let nothing : Option (Client A × List (Output A V)) = none in
        let impossible : nothing ≡ some (c', out) = rw (stuck, run) at h in cc
    | inr (r, stepped) ↦
        let k = step-Kept event c r.0 r.1 v stepped in
        elim (Option-cases (run events r.0)) [
          | inl stuck ↦
              let nothing : Option (Client A × List (Output A V)) = none in
              let impossible : nothing ≡ some (c', out) = rw (stepped, stuck, run) at h in cc
          | inr (s, ran) ↦
              let l = run-Kept events r.0 s.0 s.1 k.valid ran in
              let whole : Client A × List (Output A V) = (s.0, r.1 ++ s.1) in
              let h' : some whole ≡ some (c', out) = rw (stepped, ran, run) at h in
              let same : whole ≡ (c', out) = some_inj h' in
              rw (enqueued_cons event events) (
                subst (λ x. Kept c (enqueued (event ∷ []) ++ enqueued events) x.0 x.1) same
                  (Kept-trans c r.0 s.0 _ _ r.1 s.1 k l))
        ]
  ]

  -- Whatever is enqueued, written and answered on a fresh connection, while no answer is
  -- unexpected: the actions that got a result, followed by those that are pending, are the enqueued
  -- actions in the order in which they were enqueued, so none is lost, answered twice or out of
  -- turn; and the pending count is their number.
  pub run_in_order :
      (events : List (Event A V)) (c : Client A) (out : List (Output A V))
      → run events connected ≡ some (c, out)
      → (answered out ++ pending c ≡ enqueued events) × (count_pending c ≡ length (pending c))
  unfolding count_pending
  run_in_order events c out h =
      let k = run-Kept events connected c out (connected-IsValid A) h in
      (
        k.in_order ∙ (unfold flatten in refl),
        omega (arith, k.valid.counted, length-append c.response_queue (flatten c.send_queue)),
      )
