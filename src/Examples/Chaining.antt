-- ===== src/Examples/Chaining.antt =====
-- A chain of promises that is built with the four operations, and settled.
use ocremote.Base.{
  ℕ, ◌+◌, ◌≡◌, refl, Bool, true, false, none, some, List, [], ◌∷◌, ◌++◌, Option, length, arith,
  ◌==◌, get_elem?, get_elem?-snoc,
}
use ocremote.Promise.Chain
use ocremote.Promise.Chain.{
  Outcome, result, failure, other, Store, listen, chain, Settled, ok, Listener, maps, finallys,
  thens, maps_to, settle, notify, attach, log,
}
use ocremote.Promise.Chain.Path.{Stage, Leads, count_thens}
use ocremote.Promise.Chain.Ends.{IsFresh}
use ocremote.Promise.Chain.Delivery.{Delivers, drive, drive-Delivers}

-- The owner 9 has died. A callback of map adds its number, one of then makes one promise.
abbrev alive : ℕ → Bool
alive owner = elim (owner == 9) [ true ↦ false | false ↦ true ]

abbrev apply : ℕ → ℕ → ℕ
apply fn v = fn + v

abbrev start : ℕ → ℕ → Store ℕ → ℕ × Store ℕ
start fn v s = (length s, s ++ none ∷ [])

-- An action's promise 0, with map, finally, then and mapTo, and the listener 70 in the end.
abbrev chained : Store ℕ
chained =
    some (maps 1 8 5)
    ∷ some (finallys 2 8 6)
    ∷ some (thens 3 8 7)
    ∷ some (maps_to 4 40)
    ∷ some (other 70)
    ∷ []

build : Option (ℕ × Store ℕ) → (ℕ → Store ℕ → Option (ℕ × Store ℕ)) → Option (ℕ × Store ℕ)
build none f = none
build (some (p, s)) f = f p s

-- The operations build this store.
chained_built :
    build
      (build
        (build
          (build (some (0, none ∷ [])) (λ p s. Chain.map p 8 5 s))
          (λ p s. Chain.finally p 8 6 s))
        (λ p s. Chain.then_ p 8 7 s))
      (λ p s. Chain.map_to p 40 s)
    ≡ some (
      4,
      some (maps 1 8 5)
          ∷ some (finallys 2 8 6)
          ∷ some (thens 3 8 7)
          ∷ some (maps_to 4 40)
          ∷ none
          ∷ [],
    )
unfolding build Chain.map Chain.finally Chain.then_ Chain.map_to chain listen
chained_built = refl

abbrev stages : List (Stage ℕ)
stages = Stage.map 8 5 ∷ Stage.finally 8 6 ∷ Stage.then_ 8 7 ∷ Stage.map_to 40 ∷ []

chained-Leads : Leads chained 70 0 stages
chained-Leads =
    Leads.map refl (Leads.finally refl (Leads.then_ refl (Leads.map_to refl (Leads.ends refl))))

start-IsFresh : IsFresh start
start-IsFresh fn v s = (last s, λ p l h. get_elem?-snoc s none p (some l) h)
  where
    last : (s : Store ℕ) → get_elem? (s ++ none ∷ []) (length s) ≡ some none
    last [] = refl
    last (x ∷ s) = last s

two_thens : count_thens stages ≡ 1
unfolding count_thens
two_thens = refl

drive-Delivers_example :
    Delivers alive apply start 70 stages
      (drive alive apply start 5 (result 1 ∷ failure (b'x' ∷ []) ∷ []) 0 chained)
drive-Delivers_example =
    drive-Delivers alive apply start 5 (result 1 ∷ failure (b'x' ∷ []) ∷ []) 70 0 chained stages
      start-IsFresh chained-Leads (omega arith) (omega (arith, two_thens))
