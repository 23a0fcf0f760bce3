-- ===== src/Server/Access/Fewest.antt =====
-- The access that `getBestAccess` chooses.
use ocremote.Base.{
  ℕ, ◌≤◌, ◌≡◌, refl, inl, inr, some, List, [], ◌∷◌, Text, All, ltb, ltb→lt, arith, Bool-cases, ◌⊎◌,
}
use ocremote.Server.Client.{Client}
use ocremote.Server.Access.{max_size, count_pending, visit_accesses, get_best_access}

module _ {A T : Type 0} (client : T → Text) (logins : List (Text × Client A)) where
  abbrev pub pending_at : T → ℕ
  pending_at access = count_pending logins (client access)

  pub data OneOf (x : T) : List T → Type 0 where
    front : {xs : List T} → OneOf x (x ∷ xs)
    later : {y : T} {xs : List T} → OneOf x xs → OneOf x (y ∷ xs)

  -- The choice among the accesses that are left, or the best one so far.
  record Chosen (left : List T) (best : T) (bound : ℕ) (choice : T) : Type 0 where
    from : (choice ≡ best) ⊎ OneOf choice left
    bounded : pending_at choice ≤ bound
    fewest : All (λ a. pending_at choice ≤ pending_at a) left

  visit_accesses-Chosen :
      (left : List T) (best : T) (bound : ℕ)
      → pending_at best ≤ bound
      → Chosen left best bound (visit_accesses client logins left best bound)
  unfolding visit_accesses
  visit_accesses-Chosen [] best bound h = record { from = inl refl; bounded = h; fewest = tt }
  visit_accesses-Chosen (access ∷ rest) best bound h =
      elim (Bool-cases (ltb (pending_at access) bound)) [
        | inl e ↦
            let c = visit_accesses-Chosen rest access (pending_at access) (omega arith) in
            rw (e, visit_accesses)
              (record {
                from = elim c.from [ inl same ↦ inr (rw same front) | inr one ↦ inr (later one) ];
                bounded = omega (arith, c.bounded, ltb→lt (pending_at access) bound e);
                fewest = (c.bounded, c.fewest);
              })
        | inr e ↦
            let c = visit_accesses-Chosen rest best bound h in
            rw (e, visit_accesses)
              (record {
                from = elim c.from [ inl same ↦ inl same | inr one ↦ inr (later one) ];
                bounded = c.bounded;
                fewest = (ground (arith, c.bounded, e), c.fewest);
              })
      ]

  -- Where there is an access, and the client of the first has no more actions pending than a size_t
  -- can count: `getBestAccess` returns one of the accesses, and of no access the client has fewer
  -- actions pending, where a client that is not connected counts as having the most.
  pub get_best_access-fewest :
      (first : T) (rest : List T)
      → pending_at first ≤ max_size
      → (best : T) × (get_best_access client logins (first ∷ rest) ≡ some best)
        × OneOf best (first ∷ rest)
        × All (λ a. pending_at best ≤ pending_at a) (first ∷ rest)
  unfolding get_best_access
  get_best_access-fewest first rest h =
      let c = visit_accesses-Chosen (first ∷ rest) first max_size h in
      (_, refl, elim c.from [ inl same ↦ rw same front | inr one ↦ one ], c.fewest)
