-- ===== src/Server/Access.antt =====
-- The choice of the client for an action: `countPending` and `getBestAccess` of `Server`
-- (server/CPPImpl/Server.h and Server.cpp). `logins` is the list of its entries.
pub mod Fewest
use ocremote.Base.{ℕ, Option, none, some, List, [], ◌∷◌, Text, text_eq, ltb, if◌then◌else◌}
use ocremote.Server.Client
use ocremote.Server.Client.{Client}

-- std::numeric_limits<size_t>::max()
abbrev pub max_size : ℕ
max_size = 18446744073709551615

module _ {A : Type 0} where
  -- logins.find(client)
  unfoldable pub find_login : Text → List (Text × Client A) → Option (Client A)
  find_login client [] = none
  find_login client ((login, c) ∷ rest) =
      if text_eq login client then some c else find_login client rest

  -- Server::countPending
  unfoldable pub count_pending : List (Text × Client A) → Text → ℕ
  unfolding find_login
  count_pending logins client = elim (find_login client logins) [
    | none ↦ max_size
    | some c ↦ Client.count_pending c
  ]

  -- The template Server::getBestAccess is for types T with a field `client`.
  module _ {T : Type 0} (client : T → Text) (logins : List (Text × Client A)) where
    -- The loop over the accesses, with bestAccess and bestCount.
    unfoldable pub visit_accesses : List T → T → ℕ → T
    visit_accesses [] best best_count = best
    visit_accesses (access ∷ rest) best best_count =
        let count = count_pending logins (client access) in
        let fewer = ltb count best_count in
        visit_accesses rest (if fewer then access else best) (if fewer then count else best_count)

    -- Server::getBestAccess. `none`: there is no front.
    unfoldable pub get_best_access : List T → Option T
    unfolding visit_accesses
    get_best_access [] = none
    get_best_access (first ∷ rest) = some (visit_accesses (first ∷ rest) first max_size)
