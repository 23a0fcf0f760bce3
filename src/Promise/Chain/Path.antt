-- ===== src/Promise/Chain/Path.antt =====
-- The way through the listeners of a chain of promises, and what is done on it.
use ocremote.Base.{ℕ, suc, ◌≡◌, refl, ap, Option, none, some, List, [], ◌∷◌, ◌++◌, get_elem?}
use ocremote.Promise.Chain.{
  Outcome, Listener, maps, maps_to, thens, finallys, promise, other, Store, Effect, calls,
  calls_finally, starts, delivers,
}

-- What a promise of a chain does with what it gets, by the kinds of listeners.
pub data Stage (V : Type 0) : Type 0 where
  map : (owner fn : ℕ) → Stage V
  map_to : V → Stage V
  then_ : (owner fn : ℕ) → Stage V
  finally : (owner fn : ℕ) → Stage V
  pass : Stage V

-- From the promise `p` the listeners lead through the stages to the listener `u`.
pub data Leads {V : Type 0} (s : Store V) (u : ℕ) : ℕ → List (Stage V) → Type 0 where
  ends : {p : ℕ} → get_elem? s p ≡ some (some (other u)) → Leads s u p []
  map :
      {p to owner fn : ℕ} {stages : List (Stage V)}
      → get_elem? s p ≡ some (some (maps to owner fn))
      → Leads s u to stages
      → Leads s u p (Stage.map owner fn ∷ stages)
  map_to :
      {p to : ℕ} {value : V} {stages : List (Stage V)}
      → get_elem? s p ≡ some (some (maps_to to value))
      → Leads s u to stages
      → Leads s u p (Stage.map_to value ∷ stages)
  then_ :
      {p to owner fn : ℕ} {stages : List (Stage V)}
      → get_elem? s p ≡ some (some (thens to owner fn))
      → Leads s u to stages
      → Leads s u p (Stage.then_ owner fn ∷ stages)
  finally :
      {p to owner fn : ℕ} {stages : List (Stage V)}
      → get_elem? s p ≡ some (some (finallys to owner fn))
      → Leads s u to stages
      → Leads s u p (Stage.finally owner fn ∷ stages)
  pass :
      {p to : ℕ} {stages : List (Stage V)}
      → get_elem? s p ≡ some (some (promise to))
      → Leads s u to stages
      → Leads s u p (Stage.pass ∷ stages)

module _ {V : Type 0} where
  -- Every listener of the one store is in the other.
  abbrev pub Keeps : Store V → Store V → Type 0
  Keeps s s' =
      (p : ℕ) (l : Listener V) → get_elem? s p ≡ some (some l) → get_elem? s' p ≡ some (some l)

  pub Leads-Keeps :
      (s s' : Store V) (u p : ℕ) (stages : List (Stage V))
      → Keeps s s'
      → Leads s u p stages
      → Leads s' u p stages
  Leads-Keeps s s' u p [] k (Leads.ends h) = Leads.ends (k p _ h)
  Leads-Keeps s s' u p (Stage.map owner fn ∷ stages) k (Leads.map h l) =
      Leads.map (k p _ h) (Leads-Keeps s s' u _ stages k l)
  Leads-Keeps s s' u p (Stage.map_to v ∷ stages) k (Leads.map_to h l) =
      Leads.map_to (k p _ h) (Leads-Keeps s s' u _ stages k l)
  Leads-Keeps s s' u p (Stage.then_ owner fn ∷ stages) k (Leads.then_ h l) =
      Leads.then_ (k p _ h) (Leads-Keeps s s' u _ stages k l)
  Leads-Keeps s s' u p (Stage.finally owner fn ∷ stages) k (Leads.finally h l) =
      Leads.finally (k p _ h) (Leads-Keeps s s' u _ stages k l)
  Leads-Keeps s s' u p (Stage.pass ∷ stages) k (Leads.pass h l) =
      Leads.pass (k p _ h) (Leads-Keeps s s' u _ stages k l)

  -- The callbacks of then on the way.
  unfoldable pub count_thens : List (Stage V) → ℕ
  count_thens [] = 0
  count_thens (Stage.then_ owner fn ∷ stages) = suc (count_thens stages)
  count_thens (stage ∷ stages) = count_thens stages

  -- What other listeners get, the callbacks of finally that are called, and the promise that is
  -- awaited in the end.
  unfoldable pub deliveries : List (Effect V) → List (ℕ × Outcome V)
  deliveries [] = []
  deliveries (delivers id o ∷ out) = (id, o) ∷ deliveries out
  deliveries (effect ∷ out) = deliveries out

  unfoldable pub finals : List (Effect V) → List ℕ
  finals [] = []
  finals (calls_finally fn ∷ out) = fn ∷ finals out
  finals (effect ∷ out) = finals out

  unfoldable pub awaited : List (Effect V) → Option ℕ
  awaited [] = none
  awaited (starts inner ∷ out) = some inner
  awaited (effect ∷ out) = awaited out

  pub deliveries-append :
      (xs ys : List (Effect V)) → deliveries (xs ++ ys) ≡ deliveries xs ++ deliveries ys
  unfolding deliveries
  deliveries-append [] ys = refl
  deliveries-append (calls fn v ∷ xs) ys = deliveries-append xs ys
  deliveries-append (calls_finally fn ∷ xs) ys = deliveries-append xs ys
  deliveries-append (starts inner ∷ xs) ys = deliveries-append xs ys
  deliveries-append (delivers id o ∷ xs) ys = ap (◌∷◌ (id, o)) (deliveries-append xs ys)

  pub finals-append : (xs ys : List (Effect V)) → finals (xs ++ ys) ≡ finals xs ++ finals ys
  unfolding finals
  finals-append [] ys = refl
  finals-append (calls fn v ∷ xs) ys = finals-append xs ys
  finals-append (calls_finally fn ∷ xs) ys = ap (◌∷◌ fn) (finals-append xs ys)
  finals-append (starts inner ∷ xs) ys = finals-append xs ys
  finals-append (delivers id o ∷ xs) ys = finals-append xs ys
