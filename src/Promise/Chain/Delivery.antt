-- ===== src/Promise/Chain/Delivery.antt =====
-- A chain of promises delivers: what happens when its promises are settled.
use ocremote.Base.{
  ℕ, ◌<◌, ◌≤◌, ◌≡◌, refl, ap, ◌∙◌, Bool, none, some, List, [], ◌∷◌, ◌++◌, length, arith,
}
use ocremote.Promise.Chain.{Outcome, Store, Effect, Settled, ok, threw, settle}
use ocremote.Promise.Chain.Path.{
  Stage, Leads, count_thens, deliveries, finals, awaited, deliveries-append, finals-append,
}
use ocremote.Promise.Chain.Ends.{live_finals, Ends, IsFresh, settle-Ends}

module _ {V : Type 0} where
  unfoldable prepend : List (Effect V) → Settled V → Settled V
  prepend out (ok s more) = ok s (out ++ more)
  prepend out (threw e) = threw e

  -- What comes after a settling: nothing, or the settling of the promise that it awaits.
  unfoldable continue : (ℕ → Store V → Settled V) → Settled V → Settled V
  unfolding prepend awaited
  continue later (threw e) = threw e
  continue later (ok s out) = elim (awaited out) [
    | none ↦ ok s out
    | some inner ↦ prepend out (later inner s)
  ]

module _ {V : Type 0} (alive : ℕ → Bool) (apply : ℕ → V → V)
    (start : ℕ → V → Store V → ℕ × Store V) where
  -- The chain is settled, and after it each promise that a callback of then has returned, in turn.
  unfoldable pub drive : ℕ → List (Outcome V) → ℕ → Store V → Settled V
  unfolding settle continue
  drive fuel [] p s = ok s []
  drive fuel (o ∷ os) p s = continue (drive fuel os) (settle alive apply start fuel p o s)

  -- All that the settlings do: they return, the listener `u` gets one outcome, nobody else gets one,
  -- and the callbacks of finally on the way are called, once each and in order.
  pub record Delivers (u : ℕ) (stages : List (Stage V)) (r : Settled V) : Type 0 where
    pub store : Store V
    pub out : List (Effect V)
    pub returns : r ≡ ok store out
    pub outcome : Outcome V
    pub delivered : deliveries out ≡ (u, outcome) ∷ []
    pub finally_called : finals out ≡ live_finals alive stages

  continue-Delivers :
      (u : ℕ) (stages : List (Stage V)) (later : ℕ → Store V → Settled V) (r : Settled V)
      → ((inner : ℕ) (s : Store V) (rest : List (Stage V))
          → Leads s u inner rest
          → length rest ≤ length stages
          → count_thens rest < count_thens stages
          → Delivers u rest (later inner s))
      → Ends alive u stages r
      → Delivers u stages (continue later r)
  unfolding continue prepend
  continue-Delivers u stages later (threw e) h i = elim i [ ]
  continue-Delivers u stages later (ok s out) h (Ends.done o d a f) =
      rw (continue, a)
        (record {
          store = s;
          out = out;
          returns = refl;
          outcome = o;
          delivered = d;
          finally_called = f;
        })
  continue-Delivers u stages later (ok s out) h (Ends.waits inner rest d a l m c f) =
      let i = h inner s rest l m c in
      rw (continue, a, i.returns)
        (record {
          store = i.store;
          out = out ++ i.out;
          returns = refl;
          outcome = i.outcome;
          delivered = deliveries-append out i.out ∙ ap (λ x. x ++ deliveries i.out) d ∙ i.delivered;
          finally_called = finals-append out i.out ∙ ap (◌++◌ (finals out)) i.finally_called ∙ f;
        })

  -- A chain of listeners, made by map, mapTo, then and finally, leads from a promise to a last
  -- listener. The promise is settled, and so is each promise that a callback of then returns, for as
  -- many of these as the chain has and one more. If such a promise is fresh, and there is more fuel
  -- than the chain has listeners: nothing throws, the last listener gets exactly one outcome, no
  -- other listener gets any, and the callbacks of finally whose owners are alive are called once
  -- each, in their order, whether the outcomes are results or failures.
  pub drive-Delivers :
      (fuel : ℕ) (os : List (Outcome V)) (u p : ℕ) (s : Store V) (stages : List (Stage V))
      → IsFresh start
      → Leads s u p stages
      → length stages < fuel
      → count_thens stages < length os
      → Delivers u stages (drive fuel os p s)
  unfolding drive
  drive-Delivers fuel [] u p s stages fresh l n c = absurd (omega arith)
  drive-Delivers fuel (o ∷ os) u p s stages fresh l n c =
      continue-Delivers u stages (drive fuel os) (settle alive apply start fuel p o s)
        (λ inner s' rest l' m c'.
          drive-Delivers fuel os u inner s' rest fresh l' (omega (arith, m, n))
            (omega (arith, c, c')))
        (settle-Ends alive apply start s u fuel p stages o fresh l n)
