-- ===== src/Server/Registry/Settled.antt =====
-- Counting the actions that are pending at the clients of `Server` and those that are settled.
use ocremote.Base.{
  ℕ, ◌+◌, ◌==◌, ◌≡◌, refl, ap, ◌∙◌, inl, inr, Bool, false, some, List, [], ◌∷◌, ◌++◌, Text,
  Bool-cases, some_inj, if◌then◌else◌, arith,
}
use ocremote.Server.Client.{
  Client, Output, write, arm_timer, reset_timer, result, fail, update_timer, send, send_head,
  fail_all, fail_each, flatten,
}
use ocremote.Server.Client.Pending.{pending}
use ocremote.Server.Registry.{
  through_all, Event, enqueues, Effect, through, refused, find_client, put_client, erase_entry,
  refuse,
}

module _ {A V : Type 0} where
  -- The actions that got a result or a failure.
  unfoldable pub settled : List (Effect A V) → List A
  settled [] = []
  settled (through (result action p) ∷ rest) = action ∷ settled rest
  settled (through (fail action) ∷ rest) = action ∷ settled rest
  settled (through other ∷ rest) = settled rest
  settled (refused action cause ∷ rest) = action ∷ settled rest

  -- The actions that the events enqueue.
  unfoldable pub given : List (Event A V) → List A
  given [] = []
  given (enqueues client actions ∷ events) = actions ++ given events
  given (other ∷ events) = given events

module _ {A : Type 0} where
  -- The actions that are pending at the clients.
  unfoldable pub waiting : List (ℕ × Client A) → List A
  waiting [] = []
  waiting ((id, c) ∷ rest) = pending c ++ waiting rest

  -- How many of the actions pass a test.
  unfoldable pub tally : (A → Bool) → List A → ℕ
  tally f [] = 0
  tally f (action ∷ rest) = (if f action then 1 else 0) + tally f rest

  pub tally-append : (f : A → Bool) (xs ys : List A) → tally f (xs ++ ys) ≡ tally f xs + tally f ys
  unfolding tally
  tally-append f [] ys = omega arith
  tally-append f (x ∷ xs) ys = omega (arith, tally-append f xs ys)

  pub waiting-put :
      (f : A → Bool) (id : ℕ) (c c' : Client A) (cs : List (ℕ × Client A))
      → find_client id cs ≡ some c
      → tally f (waiting (put_client id c' cs)) + tally f (pending c)
        ≡ tally f (waiting cs) + tally f (pending c')
  unfolding find_client put_client waiting
  waiting-put f id c c' [] h = cc
  waiting-put f id c c' ((j, d) ∷ rest) h = elim (Bool-cases (j == id)) [
    | inl e ↦
        let h' : some d ≡ some c = rw e at h in
        let same : tally f (pending d) ≡ tally f (pending c) =
          ap (λ z. tally f (pending z)) (some_inj h') in
        rw e (
          omega (
            arith,
            same,
            tally-append f (pending d) (waiting rest),
            tally-append f (pending c') (waiting rest),
          ))
    | inr e ↦
        let ih = waiting-put f id c c' rest (rw e at h) in
        rw e (
          omega (
            arith,
            ih,
            tally-append f (pending d) (waiting rest),
            tally-append f (pending d) (waiting (put_client id c' rest)),
          ))
  ]

  pub waiting-erase :
      (f : A → Bool) (id : ℕ) (c : Client A) (cs : List (ℕ × Client A))
      → find_client id cs ≡ some c
      → tally f (waiting (erase_entry id cs)) + tally f (pending c) ≡ tally f (waiting cs)
  unfolding find_client erase_entry waiting
  waiting-erase f id c [] h = cc
  waiting-erase f id c ((j, d) ∷ rest) h =
      grind (arith, waiting-erase f id c rest, tally-append f (pending d))

module _ {A : Type 0} (V : Type 0) where
  pub settled-append : (xs ys : List (Effect A V)) → settled (xs ++ ys) ≡ settled xs ++ settled ys
  unfolding settled
  settled-append [] ys = refl
  settled-append (through (result a p) ∷ xs) ys = ap (◌∷◌ a) (settled-append xs ys)
  settled-append (through (fail a) ∷ xs) ys = ap (◌∷◌ a) (settled-append xs ys)
  settled-append (through (write h) ∷ xs) ys = settled-append xs ys
  settled-append (through arm_timer ∷ xs) ys = settled-append xs ys
  settled-append (through reset_timer ∷ xs) ys = settled-append xs ys
  settled-append (refused a t ∷ xs) ys = ap (◌∷◌ a) (settled-append xs ys)

  pub settled-refuse :
      (moved : Text → Text) (cause : Text) (xs : List A)
      → settled {V = V} (refuse moved cause xs) ≡ xs
  unfolding settled refuse
  settled-refuse moved cause [] = refl
  settled-refuse moved cause (x ∷ xs) = ap (◌∷◌ x) (settled-refuse moved (moved cause) xs)

  settled-fail_each : (xs : List A) → settled {V = V} (through_all (fail_each xs)) ≡ xs
  unfolding settled through_all fail_each
  settled-fail_each [] = refl
  settled-fail_each (x ∷ xs) = ap (◌∷◌ x) (settled-fail_each xs)

  through_all-append :
      (xs ys : List (Output A V)) → through_all (xs ++ ys) ≡ through_all xs ++ through_all ys
  unfolding through_all
  through_all-append [] ys = refl
  through_all-append (x ∷ xs) ys = ap (◌∷◌ (through x)) (through_all-append xs ys)

  pub settled-fail_all :
      (c : Client A)
      → settled {V = V} (through_all (fail_all c)) ≡ flatten c.send_queue ++ c.response_queue
  unfolding fail_all
  settled-fail_all c =
      ap settled
        (through_all-append (fail_each (flatten c.send_queue)) (fail_each c.response_queue))
      ∙ settled-append (through_all (fail_each (flatten c.send_queue)))
          (through_all (fail_each c.response_queue))
      ∙ rw (settled-fail_each (flatten c.send_queue), settled-fail_each c.response_queue) refl

  pub timer-settled :
      (restart : Bool) (c : Client A)
      → settled {V = V} (through_all (update_timer restart c).1) ≡ []
  unfolding settled through_all update_timer
  timer-settled restart c = ground arith

  pub send-settled :
      (c : Client A) (queue : List (List A))
      → c.send_queue ≡ queue
      → settled {V = V} (through_all (send c).1) ≡ []
  unfolding send send_head settled through_all
  send-settled c [] e = rw (e, send) refl
  send-settled c (head ∷ rest) e = elim (Bool-cases c.is_sending) [
    | inl busy ↦ rw (e, busy, send) refl
    | inr free ↦ rw (e, free, send) (timer-settled false _)
  ]
