-- ===== src/Server/Registry.antt =====
-- `Server` of server/CPPImpl/Server.h and Server.cpp: the clients that are connected and the names
-- under which they logged in. A client is known by a number, which stands for its address and its
-- iterator. A callback of a client that is gone does nothing (it holds a weak pointer).
pub mod Lookup
pub mod Consistent
pub mod Named
pub mod Agree
pub mod Settled
pub mod Conserved
use ocremote.Base.{
  ℕ, suc, ◌==◌, Bool, false, Option, none, some, List, [], ◌∷◌, ◌++◌, Text, text_eq, if◌then◌else◌,
}
use ocremote.Server.Client
use ocremote.Server.Client.{Client, Output, connected, on_written, on_response, fail_all}

pub record Server (A : Type 0) : Type 0 where
  pub clients : List (ℕ × Client A)
  pub logins : List (Text × ℕ)
  -- the number of the next connection
  pub next : ℕ

-- What the server does: through a client, or a failure with its cause that it posts itself.
pub data Effect (A V : Type 0) : Type 0 where
  through : Output A V → Effect A V
  refused : A → Text → Effect A V

-- " isn't connected"
abbrev pub is_not_connected : Text
is_not_connected =
    b' ' ∷ b'i' ∷ b's' ∷ b'n' ∷ 39 ∷ b't' ∷ b' ' ∷ b'c' ∷ b'o' ∷ b'n' ∷ b'n' ∷ b'e' ∷ b'c' ∷ b't'
    ∷ b'e' ∷ b'd' ∷ []

-- logins.find, logins.erase and the assignment to an entry of `logins`.
unfoldable pub find_name : Text → List (Text × ℕ) → Option ℕ
find_name l [] = none
find_name l ((m, id) ∷ rest) = if text_eq m l then some id else find_name l rest

unfoldable pub erase_name : Text → List (Text × ℕ) → List (Text × ℕ)
erase_name l [] = []
erase_name l ((m, id) ∷ rest) =
    let rest' = erase_name l rest in if text_eq m l then rest' else (m, id) ∷ rest'

unfoldable pub put_name : Text → ℕ → List (Text × ℕ) → List (Text × ℕ)
put_name l id [] = (l, id) ∷ []
put_name l id ((m, j) ∷ rest) = if text_eq m l then (m, id) ∷ rest else (m, j) ∷ put_name l id rest

-- logins.erase(*c.getLogin()), if the client has logged in.
unfoldable pub forget : Option Text → List (Text × ℕ) → List (Text × ℕ)
unfolding erase_name
forget none logins = logins
forget (some l) logins = erase_name l logins

module _ {A : Type 0} where
  -- The client behind a pointer, a change of it, and clients.erase(itr).
  unfoldable pub find_client : ℕ → List (ℕ × Client A) → Option (Client A)
  find_client id [] = none
  find_client id ((j, c) ∷ rest) = if j == id then some c else find_client id rest

  unfoldable pub put_client : ℕ → Client A → List (ℕ × Client A) → List (ℕ × Client A)
  put_client id c [] = []
  put_client id c ((j, d) ∷ rest) = if j == id then (j, c) ∷ rest else (j, d) ∷ put_client id c rest

  unfoldable pub erase_entry : ℕ → List (ℕ × Client A) → List (ℕ × Client A)
  erase_entry id [] = []
  erase_entry id ((j, c) ∷ rest) = if j == id then rest else (j, c) ∷ erase_entry id rest

  abbrev pub empty : Server A
  empty = record { clients = []; logins = []; next = 0 }

  -- The callback of Server::accept.
  unfoldable pub accept : Server A → Server A
  accept s = record s { clients = (s.next, connected) ∷ s.clients; next = suc s.next }

module _ {A V : Type 0} where
  unfoldable pub through_all : List (Output A V) → List (Effect A V)
  through_all [] = []
  through_all (out ∷ rest) = through out ∷ through_all rest

  -- A client takes its new state, with what the call has put out.
  unfoldable pub store : ℕ → Client A × List (Output A V) → Server A → Server A × List (Effect A V)
  unfolding put_client through_all
  store id (c, out) s = (record s { clients = put_client id c s.clients }, through_all out)

  -- clients.erase(c.getItr()), which destroys the client.
  unfoldable pub erase_client : ℕ → Client A → Server A → Server A × List (Effect A V)
  unfolding erase_entry through_all
  erase_client id c s = (record s { clients = erase_entry id s.clients }, through_all (fail_all c))

  -- Server::removeClient
  unfoldable pub remove_client : ℕ → Client A → Server A → Server A × List (Effect A V)
  unfolding erase_client forget
  remove_client id c s = erase_client id c (record s { logins = forget c.login s.logins })

  -- The eviction in Server::updateLogin: `old` is what `logins` has under the name.
  unfoldable pub evict : Option ℕ → Server A → Server A × List (Effect A V)
  unfolding erase_client find_client
  evict none s = (s, [])
  evict (some old) s = elim (find_client old s.clients) [
    | none ↦ (s, [])
    | some c ↦ erase_client old c s
  ]

  -- Server::updateLogin
  unfoldable pub update_login : ℕ → Text → Server A → Server A × List (Effect A V)
  unfolding evict find_name put_name
  update_login id l s =
      let (s', out) = evict (find_name l s.logins) s in
      (record s' { logins = put_name l id s'.logins }, out)

  -- The loop of Server::enqueueActionGroup for a client that is not connected: `moved` is what a
  -- text is after it was moved from.
  unfoldable pub refuse : (Text → Text) → Text → List A → List (Effect A V)
  refuse moved cause [] = []
  refuse moved cause (action ∷ rest) = refused action cause ∷ refuse moved (moved cause) rest

  -- Server::enqueueActionGroup. (A name in `logins` without a client is a dangling pointer.)
  unfoldable pub enqueue_action_group :
      (Text → Text) → Text → List A → Server A → Server A × List (Effect A V)
  unfolding find_name find_client refuse store
  enqueue_action_group moved client actions s = elim (find_name client s.logins) [
    | none ↦ (s, refuse moved (client ++ is_not_connected) actions)
    | some id ↦ elim (find_client id s.clients) [
      | none ↦ (s, [])
      | some c ↦ store id (Client.enqueue_action_group actions c) s
    ]
  ]

  -- Server::enqueueAction
  unfoldable pub enqueue_action : (Text → Text) → Text → A → Server A → Server A × List (Effect A V)
  unfolding enqueue_action_group
  enqueue_action moved client action s = enqueue_action_group moved client (action ∷ []) s

  -- Whether onResult of the first action throws for the packet, as `throws` says.
  unfoldable pub throws_first : (A → V → Bool) → V → List A → Bool
  throws_first throws p [] = false
  throws_first throws p (action ∷ rest) = throws action p

  -- Client::onPacket of a client that has logged in. If onResult throws, Client::read removes the
  -- client, which has the action in its queue still.
  unfoldable pub on_answer :
      (A → V → Bool) → V → ℕ → Client A → Server A → Server A × List (Effect A V)
  unfolding remove_client store throws_first
  on_answer throws p id c s =
      if throws_first throws p c.response_queue
      then remove_client id c s
      else (elim (on_response p c) [ none ↦ remove_client id c s | some r ↦ store id r s ])

  -- Client::onPacket of a client that has not: `login` is the text of the packet. If the packet is
  -- none, std::get throws, and Client::read removes the client.
  unfoldable pub on_login : Option Text → ℕ → Client A → Server A → Server A × List (Effect A V)
  unfolding remove_client update_login put_client
  on_login none id c s = remove_client id c s
  on_login (some l) id c s =
      update_login id l
        (record s { clients = put_client id (record c { login = some l }) s.clients })

  -- Client::onPacket
  unfoldable pub on_packet :
      (V → Option Text)
      → (A → V → Bool)
      → V
      → ℕ
      → Client A
      → Server A
      → Server A × List (Effect A V)
  unfolding on_answer on_login
  on_packet as_text throws p id c s = elim c.login [
    | none ↦ on_login (as_text p) id c s
    | some l ↦ on_answer throws p id c s
  ]

-- What happens to the server, in any order: a connection, a packet of a client, the end of a write,
-- an error of the connection or a timeout, and a group of actions for a name.
pub data Event (A V : Type 0) : Type 0 where
  connects : Event A V
  receives : ℕ → V → Event A V
  writes breaks : ℕ → Event A V
  enqueues : Text → List A → Event A V

module _ {A V : Type 0} (as_text : V → Option Text) (throws : A → V → Bool)
    (moved : Text → Text) where
  -- A callback of the client: none once the client is gone.
  unfoldable pub with_client :
      (ℕ → Client A → Server A → Server A × List (Effect A V))
      → ℕ
      → Server A
      → Server A × List (Effect A V)
  unfolding find_client
  with_client callback id s = elim (find_client id s.clients) [
    | none ↦ (s, [])
    | some c ↦ callback id c s
  ]

  unfoldable pub step : Event A V → Server A → Server A × List (Effect A V)
  unfolding with_client accept on_packet store remove_client enqueue_action_group
  step connects s = (accept s, [])
  step (receives id p) s = with_client (on_packet as_text throws p) id s
  step (writes id) s = with_client (λ i c. store i (on_written c)) id s
  step (breaks id) s = with_client remove_client id s
  step (enqueues client actions) s = enqueue_action_group moved client actions s

  unfoldable pub run : List (Event A V) → Server A → Server A × List (Effect A V)
  unfolding step
  run [] s = (s, [])
  run (event ∷ events) s =
      let (s', out) = step event s in let (s'', more) = run events s' in (s'', out ++ more)
