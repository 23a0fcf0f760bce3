-- ===== src/Promise/Chain.antt =====
-- The chains of `Promise` (server/CPPImpl/Actions.h): `listen`, `map`, `mapTo`, `then`, `finally`,
-- and what `onFail` and `onResult` do. The store has each promise's `next`; a promise is its index,
-- and a callback or an owner is a number. V is the type of the results.
pub mod Path
pub mod Ends
pub mod Delivery
use ocremote.Base.{
  ℕ, zero, suc, Bool, true, false, Option, none, some, List, [], ◌∷◌, ◌++◌, Text, length, get_elem?,
  set, if◌then◌else◌,
}

-- What a promise is settled with: onResult or onFail.
pub data Outcome (V : Type 0) : Type 0 where
  result : V → Outcome V
  failure : Text → Outcome V

-- The classes of listeners: the `Impl` of map, mapTo, then and finally with their fields; a promise,
-- which passes on what it gets (`then` makes its own promise the listener of the one that its
-- callback returns); and any other listener.
pub data Listener (V : Type 0) : Type 0 where
  maps : (to owner fn : ℕ) → Listener V
  maps_to : (to : ℕ) (value : V) → Listener V
  thens : (to owner fn : ℕ) → Listener V
  finallys : (to owner fn : ℕ) → Listener V
  promise : (to : ℕ) → Listener V
  other : (id : ℕ) → Listener V

abbrev pub Store : Type 0 → Type 0
Store V = List (Option (Listener V))

-- What the settling of a promise does: the callbacks of map, then and finally that are called, the
-- promise that the callback of then returns, and what another listener gets.
pub data Effect (V : Type 0) : Type 0 where
  calls : (fn : ℕ) → V → Effect V
  calls_finally : (fn : ℕ) → Effect V
  starts : (inner : ℕ) → Effect V
  delivers : (id : ℕ) → Outcome V → Effect V

-- std::logic_error("broken chain") and std::logic_error("already listened")
pub data Error : Type 0 where
  broken_chain already_listened out_of_fuel : Error

pub data Settled (V : Type 0) : Type 0 where
  ok : Store V → List (Effect V) → Settled V
  threw : Error → Settled V

-- "node died"
abbrev pub node_died : Text
node_died = b'n' ∷ b'o' ∷ b'd' ∷ b'e' ∷ b' ' ∷ b'd' ∷ b'i' ∷ b'e' ∷ b'd' ∷ []

module _ {V : Type 0} where
  -- Promise::listen. `none`: it is listened to already. (A promise that is not in the store is not
  -- listened to by anyone either; there is none in the code.)
  unfoldable pub listen : ℕ → Listener V → Store V → Option (Store V)
  listen p x s = elim (get_elem? s p) [
    | some none ↦ some (set s p (some x))
    | some (some next) ↦ none
    | none ↦ none
  ]

  -- A promise that was made with make_shared, and is listened to.
  unfoldable pub chain : ℕ → (ℕ → Listener V) → Store V → Option (ℕ × Store V)
  unfolding listen
  chain p impl s = elim (listen p (impl (length s)) (s ++ none ∷ [])) [
    | none ↦ none
    | some s' ↦ some (length s, s')
  ]

  -- Promise::map, mapTo, then and finally
  unfoldable pub map : ℕ → ℕ → ℕ → Store V → Option (ℕ × Store V)
  unfolding chain
  map p owner fn s = chain p (λ to. maps to owner fn) s

  unfoldable pub map_to : ℕ → V → Store V → Option (ℕ × Store V)
  unfolding chain
  map_to p value s = chain p (λ to. maps_to to value) s

  unfoldable pub then_ : ℕ → ℕ → ℕ → Store V → Option (ℕ × Store V)
  unfolding chain
  then_ p owner fn s = chain p (λ to. thens to owner fn) s

  unfoldable pub finally : ℕ → ℕ → ℕ → Store V → Option (ℕ × Store V)
  unfolding chain
  finally p owner fn s = chain p (λ to. finallys to owner fn) s

  -- What was done before, with what is done then.
  unfoldable pub log : Effect V → Settled V → Settled V
  log out (ok s more) = ok s (out ∷ more)
  log out (threw e) = threw e

-- `alive` says which owners are alive; `apply` is what the callbacks of map return, and `start` what
-- those of then return, a promise, with the promises that they make.
module _ {V : Type 0} (alive : ℕ → Bool) (apply : ℕ → V → V)
    (start : ℕ → V → Store V → ℕ × Store V) where
  -- fn(std::move(result))->listen(std::move(to)), in `then`
  unfoldable pub attach : ℕ → ℕ × Store V → Settled V
  unfolding listen
  attach to (inner, s) = elim (listen inner (promise to) s) [
    | none ↦ threw already_listened
    | some s' ↦ ok s' (starts inner ∷ [])
  ]

  -- onFail and onResult of a listener; `settle` is onFail and onResult of a promise.
  unfoldable pub notify :
      (ℕ → Outcome V → Store V → Settled V) → Listener V → Outcome V → Store V → Settled V
  unfolding log attach
  notify settle (maps to owner fn) (failure cause) s = settle to (failure cause) s
  notify settle (maps to owner fn) (result v) s =
      if alive owner
      then log (calls fn v) (settle to (result (apply fn v)) s)
      else settle to (failure node_died) s
  notify settle (maps_to to value) (failure cause) s = settle to (failure cause) s
  notify settle (maps_to to value) (result v) s = settle to (result value) s
  notify settle (thens to owner fn) (failure cause) s = settle to (failure cause) s
  notify settle (thens to owner fn) (result v) s =
      if alive owner
      then log (calls fn v) (attach to (start fn v s))
      else settle to (failure node_died) s
  notify settle (finallys to owner fn) o s =
      if alive owner then log (calls_finally fn) (settle to o s) else settle to o s
  notify settle (promise to) o s = settle to o s
  notify settle (other id) o s = ok s (delivers id o ∷ [])

  -- Promise::onFail and onResult
  unfoldable pub settle : ℕ → ℕ → Outcome V → Store V → Settled V
  unfolding notify
  settle zero p o s = threw out_of_fuel
  settle (suc fuel) p o s = elim (get_elem? s p) [
    | some (some next) ↦ notify (settle fuel) next o s
    | some none ↦ threw broken_chain
    | none ↦ threw broken_chain
  ]
