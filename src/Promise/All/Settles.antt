-- ===== src/Promise/All/Settles.antt =====
-- What the promise of `Promise::all` is settled with.
use ocremote.Base.{
  ℕ, zero, suc, ◌-◌, ◌<◌, ◌≡◌, ◌≢◌, refl, ap, ◌∙◌, true, false, some, List, [], ◌∷◌, ◌++◌, Text,
  All, All-map, length, set, length-set, get_elem?, get_elem?-set_self, get_elem?-set_ne, ◌==◌,
  arith, if◌then◌else◌,
}
use ocremote.Promise.All.{
  Outcome, values, causes, Context, Event, resolves, rejects, replicate, context,
  decrease_remaining, store_result, store_cause, settle, settle_all,
}

-- Causes are joined by "; ".
unfoldable pub join : Text → List Text → Text
join s [] = s
join s (t ∷ rest) = join (s ++ (b';' ∷ b' ' ∷ []) ++ t) rest

module _ {T : Type 0} where
  -- The causes of the failures, in the order in which they arrive.
  unfoldable pub causes_of : List (Event T) → List Text
  causes_of [] = []
  causes_of (resolves i x ∷ events) = causes_of events
  causes_of (rejects i s ∷ events) = s ∷ causes_of events

  -- The results at their indices.
  unfoldable pub results_of : List (Event T) → List T → List T
  results_of [] xs = xs
  results_of (resolves i x ∷ events) xs = results_of events (set xs i x)
  results_of (rejects i s ∷ events) xs = results_of events xs

  unfoldable pub verdict : List (Event T) → List T → Outcome T
  unfolding causes_of results_of join
  verdict events xs = elim (causes_of events) [
    | [] ↦ values (results_of events xs)
    | s ∷ rest ↦ causes (join s rest)
  ]

  unfoldable pub apply : Event T → Outcome T → Outcome T
  apply (resolves i x) o = store_result i x o
  apply (rejects i s) o = store_cause s o

  apply_all : List (Event T) → Outcome T → Outcome T
  apply_all [] o = o
  apply_all (event ∷ events) o = apply_all events (apply event o)

  apply_all-causes :
      (events : List (Event T)) (s : Text)
      → apply_all events (causes s) ≡ causes (join s (causes_of events))
  unfolding apply_all apply store_result store_cause causes_of join
  apply_all-causes [] s = refl
  apply_all-causes (resolves i x ∷ events) s = apply_all-causes events s
  apply_all-causes (rejects i t ∷ events) s = apply_all-causes events (s ++ (b';' ∷ b' ' ∷ []) ++ t)

  apply_all-values :
      (events : List (Event T)) (xs : List T) → apply_all events (values xs) ≡ verdict events xs
  unfolding apply_all apply store_result store_cause verdict causes_of results_of
  apply_all-values [] xs = refl
  apply_all-values (resolves i x ∷ events) xs = apply_all-values events (set xs i x)
  apply_all-values (rejects i s ∷ events) xs = apply_all-causes events s

  pub settle-apply :
      (event : Event T) (c : Context T)
      → settle event c ≡ (
        record { result = apply event c.result; n_remaining = c.n_remaining - 1 },
        if c.n_remaining - 1 == 0 then apply event c.result ∷ [] else [],
      )
  unfolding settle apply decrease_remaining
  settle-apply (resolves i x) c = refl
  settle-apply (rejects i s) c = refl

  settle_all-output :
      (event : Event T) (events : List (Event T)) (c : Context T)
      → c.n_remaining ≡ length (event ∷ events)
      → (settle_all (event ∷ events) c).1 ≡ apply_all (event ∷ events) c.result ∷ []
  unfolding settle_all apply_all
  settle_all-output event [] c h =
      let last : (c.n_remaining - 1 == 0) ≡ true = ground arith in
      rw (settle-apply event c) (rw last refl)
  settle_all-output event (next ∷ events) c h =
      let more : (c.n_remaining - 1 == 0) ≡ false = ground arith in
      rw (settle-apply event c) (
        rw more (
          settle_all-output next events
            (record { result = apply event c.result; n_remaining = c.n_remaining - 1 })
            (omega arith)))

  settle_all-quiet :
      (before : List (Event T)) (c : Context T)
      → length before < c.n_remaining
      → (settle_all before c).1 ≡ []
  unfolding settle_all
  settle_all-quiet [] c h = refl
  settle_all-quiet (event ∷ before) c h =
      let more : (c.n_remaining - 1 == 0) ≡ false = ground arith in
      rw (settle-apply event c) (
        rw more (
          settle_all-quiet before
            (record { result = apply event c.result; n_remaining = c.n_remaining - 1 })
            (omega arith)))

  unfoldable pub index : Event T → ℕ
  index (resolves i x) = i
  index (rejects i s) = i

  -- No promise is settled twice.
  unfoldable pub HaveDistinctIndices : List (Event T) → Type 0
  unfolding index
  HaveDistinctIndices [] = Unit
  HaveDistinctIndices (e ∷ events) =
      All (λ f. index f ≢ index e) events × HaveDistinctIndices events

  abbrev pub Delivered : List T → Event T → Type 0
  Delivered xs (resolves i x) = get_elem? xs i ≡ some x
  Delivered xs (rejects i s) = Unit

  results_of-elsewhere :
      (events : List (Event T)) (xs : List T) (i : ℕ)
      → All (λ f. index f ≢ i) events
      → get_elem? (results_of events xs) i ≡ get_elem? xs i
  unfolding results_of index
  results_of-elsewhere [] xs i h = refl
  results_of-elsewhere (resolves j x ∷ events) xs i h =
      results_of-elsewhere events (set xs j x) i h.1 ∙ get_elem?-set_ne xs x h.0
  results_of-elsewhere (rejects j s ∷ events) xs i h = results_of-elsewhere events xs i h.1

  results_of-Delivered :
      (events : List (Event T)) (xs : List T)
      → HaveDistinctIndices events
      → All (λ e. index e < length xs) events
      → All (Delivered (results_of events xs)) events
  unfolding results_of index HaveDistinctIndices
  results_of-Delivered [] xs d h = tt
  results_of-Delivered (resolves i x ∷ events) xs d h = (
    results_of-elsewhere events (set xs i x) i d.0 ∙ get_elem?-set_self xs i x h.0,
    results_of-Delivered events (set xs i x) d.1 (
        All-map _ (λ e. index e < length (set xs i x)) events
          (λ e k. omega (arith, k, length-set xs i x)) h.1),
  )
  results_of-Delivered (rejects i s ∷ events) xs d h = (tt, results_of-Delivered events xs d.1 h.1)

  length-replicate : (n : ℕ) (x : T) → length (replicate n x) ≡ n
  unfolding replicate
  length-replicate zero x = refl
  length-replicate (suc n) x = ap suc (length-replicate n x)

  -- `n` promises, at least one, are settled one after another, each once. Before the last one the
  -- promise of `all` is not settled. With the last one it is settled once: with the causes joined in
  -- the order of their arrival, if one was rejected, and otherwise with a vector that has each
  -- result at the index of its promise.
  pub settle_all-Delivered :
      (default : T) (events : List (Event T))
      → 0 < length events
      → HaveDistinctIndices events
      → All (λ e. index e < length events) events
      → ((before : List (Event T))
          → length before < length events
          → (settle_all before (context default (length events))).1 ≡ [])
        × ((settle_all events (context default (length events))).1
            ≡ verdict events (replicate (length events) default) ∷ [])
        × All (Delivered (results_of events (replicate (length events) default))) events
  unfolding context
  settle_all-Delivered default [] n d h = absurd (omega arith)
  settle_all-Delivered default (event ∷ events) n d h =
      let count = length (event ∷ events) in
      let c : Context T = context default count in
      (
        λ before k. settle_all-quiet before c k,
        settle_all-output event events c refl
            ∙ ap (λ o. o ∷ []) (apply_all-values (event ∷ events) (replicate count default)),
        results_of-Delivered (event ∷ events) (replicate count default) d (
            All-map _ (λ e. index e < length (replicate count default)) (event ∷ events)
              (λ e k. omega (arith, k, length-replicate count default)) h),
      )
