-- ===== src/Promise/All.antt =====
-- `Promise::all` of server/CPPImpl/Actions.h: the `Context` that several promises report to.
pub mod Settles
use ocremote.Base.{
  ℕ, zero, suc, ◌-◌, Bool, true, false, Option, none, some, List, [], ◌∷◌, ◌++◌, Text, length, set,
  if◌then◌else◌, ◌==◌,
}

-- std::variant<std::vector<T>, std::string>: the results so far, or the causes of the failures.
pub data Outcome (T : Type 0) : Type 0 where
  values : List T → Outcome T
  causes : Text → Outcome T

pub record Context (T : Type 0) : Type 0 where
  pub result : Outcome T
  pub n_remaining : ℕ

-- std::vector<T>(n), of default values
unfoldable pub replicate : {T : Type 0} → ℕ → T → List T
replicate zero x = []
replicate (suc n) x = x ∷ replicate n x

-- A promise that the context listens to is settled: `onResult` and `onFail` of its index.
pub data Event (T : Type 0) : Type 0 where
  resolves : ℕ → T → Event T
  rejects : ℕ → Text → Event T

module _ {T : Type 0} where
  unfoldable pub context : T → ℕ → Context T
  unfolding replicate
  context default n_total = record {
    result = values (replicate n_total default);
    n_remaining = n_total;
  }

  -- What `to` gets: once the last promise is settled, the result.
  unfoldable pub decrease_remaining : Context T → Context T × List (Outcome T)
  decrease_remaining c =
      let c' = record c { n_remaining = c.n_remaining - 1 } in
      (c', if c.n_remaining - 1 == 0 then c.result ∷ [] else [])

  unfoldable pub store_result : ℕ → T → Outcome T → Outcome T
  store_result which x (values xs) = values (set xs which x)
  store_result which x (causes s) = causes s

  unfoldable pub store_cause : Text → Outcome T → Outcome T
  store_cause reason (values xs) = causes reason
  store_cause reason (causes s) = causes (s ++ (b';' ∷ b' ' ∷ []) ++ reason)

  -- Context::onResult and Context::onFail
  unfoldable pub settle : Event T → Context T → Context T × List (Outcome T)
  unfolding decrease_remaining store_result store_cause
  settle (resolves which x) c =
      decrease_remaining (record c { result = store_result which x c.result })
  settle (rejects which reason) c =
      decrease_remaining (record c { result = store_cause reason c.result })

  -- The promises are settled one after another.
  unfoldable pub settle_all : List (Event T) → Context T → Context T × List (Outcome T)
  unfolding settle
  settle_all [] c = (c, [])
  settle_all (event ∷ events) c =
      let (c', out) = settle event c in let (c'', more) = settle_all events c' in (c'', out ++ more)

  -- Promise::all throws if there is nothing to wait for.
  unfoldable pub all : T → ℕ → Option (Context T)
  unfolding context
  all default n = if n == 0 then none else some (context default n)
