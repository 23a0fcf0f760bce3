-- ===== src/Server/Registry/Named.antt =====
-- A login: `Client::onPacket` and `Server::updateLogin` of server/CPPImpl/Server.cpp.
use mathlib.Core.Path.{subst}
use ocremote.Base.{ℕ, ◌≡◌, ◌≢◌, ap, sym, ◌∙◌, ◌⊎◌, inl, inr, none, some, List, Text, some_inj}
use ocremote.Server.Client.{Client}
use ocremote.Server.Registry.{Server, find_name, put_name, find_client, put_client, erase_entry}
use ocremote.Server.Registry.Lookup.{
  none-some, put_name-split, find-put_name_self, find-put_name_ne, Descending, put-Descending,
  erase-Descending, find-put_client_self, find-put_client_ne, find-erase_client_ne,
}
use ocremote.Server.Registry.Consistent.{IsSound, IsConsistent, put-split, erase-split}

module _ {A : Type 0} where
  -- A client that has not logged in takes a name; `cs` is what the clients are then.
  pub record Takes (s : Server A) (id : ℕ) (c : Client A) (l : Text) (cs : List (ℕ × Client A))
      : Type 0 where
    split :
        (j : ℕ) (d : Client A)
        → find_client j cs ≡ some d
        → ((id ≡ j) × (record c { login = some l } ≡ d))
          ⊎ ((id ≢ j) × (find_client j s.clients ≡ some d) × (d.login ≢ some l))
    same : find_client id cs ≡ some (record c { login = some l })
    others :
        (j : ℕ) (d : Client A)
        → id ≢ j
        → d.login ≢ some l
        → find_client j s.clients ≡ some d
        → find_client j cs ≡ some d
    numbered : Descending s.next cs

  named-IsSound : (c : Client A) (l : Text) → IsSound c → IsSound (record c { login = some l })
  named-IsSound c l i = record {
    valid = record {
      counted = i.valid.counted;
      sending = i.valid.sending;
      watched = i.valid.watched;
    };
    idle = λ h. absurd (none-some l (sym h));
  }

  pub Takes-IsConsistent :
      (s : Server A) (id : ℕ) (c : Client A) (l : Text) (cs : List (ℕ × Client A))
      → IsConsistent s
      → find_client id s.clients ≡ some c
      → c.login ≡ none
      → Takes s id c l cs
      → IsConsistent (record s { clients = cs; logins = put_name l id s.logins })
  Takes-IsConsistent s id c l cs k f out t = record {
    listed = λ m j h. elim (put_name-split s.logins l id m j h) [
      | inl (x, y) ↦
          (record c { login = some l }, ap (λ i. find_client i cs) (sym y) ∙ t.same, ap some x)
      | inr (ne, g) ↦
          let (d, found, e) = k.listed m j g in
          let apart : id ≢ j = λ x. none-some m (
            sym out
            ∙ ap (λ z. z.login) (some_inj (sym f ∙ ap (λ i. find_client i s.clients) x ∙ found))
            ∙ e) in
          (d, t.others j d apart (λ y. ne (some_inj (sym y ∙ e))) found, e)
    ];
    registered = λ j d m h e. elim (t.split j d h) [
      | inl (x, y) ↦
          ap (λ z. find_name z (put_name l id s.logins))
            (some_inj (sym e ∙ sym (ap (λ z. z.login) y)))
          ∙ find-put_name_self l id s.logins
          ∙ ap some x
      | inr (ne, g, other) ↦
          find-put_name_ne l m id s.logins (λ x. other (e ∙ ap some (sym x)))
          ∙ k.registered j d m g e
    ];
    numbered = t.numbered;
    sound = λ j d h. elim (t.split j d h) [
      | inl (x, y) ↦ subst IsSound y (named-IsSound c l (k.sound id c f))
      | inr (ne, g, other) ↦ k.sound j d g
    ];
  }

  pub free-Takes :
      (s : Server A) (id : ℕ) (c : Client A) (l : Text)
      → IsConsistent s
      → find_client id s.clients ≡ some c
      → find_name l s.logins ≡ none
      → Takes s id c l (put_client id (record c { login = some l }) s.clients)
  free-Takes s id c l k f free = record {
    split = λ j d h. elim (put-split s id c (record c { login = some l }) j d f h) [
      | inl r ↦ inl r
      | inr (ne, g) ↦ inr (ne, g, λ e. none-some j (sym free ∙ k.registered j d l g e))
    ];
    same = find-put_client_self id c _ s.clients f;
    others = λ j d ne other g. find-put_client_ne id j _ s.clients ne ∙ g;
    numbered = put-Descending s.next id _ s.clients k.numbered;
  }

  -- Who has the name that a client wants to log in with.
  pub taken-held :
      (s : Server A) (id : ℕ) (c : Client A) (l : Text) (old : ℕ)
      → IsConsistent s
      → find_client id s.clients ≡ some c
      → c.login ≡ none
      → find_name l s.logins ≡ some old
      → (holder : Client A) × (old ≢ id)
        × (find_client old s.clients ≡ some holder)
        × (holder.login ≡ some l)
  taken-held s id c l old k f out taken =
      let (holder, held, under) = k.listed l old taken in
      (
        holder,
        (λ x. none-some l (
            sym out
            ∙ ap (λ z. z.login)
                (some_inj (sym f ∙ ap (λ i. find_client i s.clients) (sym x) ∙ held))
            ∙ under)),
        held,
        under,
      )

  pub evicted-Takes :
      (s : Server A) (id : ℕ) (c : Client A) (l : Text) (old : ℕ)
      → IsConsistent s
      → find_client id s.clients ≡ some c
      → c.login ≡ none
      → find_name l s.logins ≡ some old
      → Takes s id c l (erase_entry old (put_client id (record c { login = some l }) s.clients))
  evicted-Takes s id c l old k f out taken =
      let put = put_client id (record c { login = some l }) s.clients in
      let down : Descending s.next put = put-Descending s.next id _ s.clients k.numbered in
      let (holder, apart, held, under) = taken-held s id c l old k f out taken in
      record {
        split = λ j d h.
            let (away, h') = erase-split s.next put old j d down h in
            elim (put-split s id c (record c { login = some l }) j d f h') [
              | inl r ↦ inl r
              | inr (ne, g) ↦ inr (ne, g, λ e. away (some_inj (sym taken ∙ k.registered j d l g e)))
            ];
        same = find-erase_client_ne old id put apart ∙ find-put_client_self id c _ s.clients f;
        others = λ j d ne other g.
            let away : old ≢ j = λ x. other (
              ap (λ z. z.login)
                (some_inj (sym g ∙ ap (λ i. find_client i s.clients) (sym x) ∙ held))
              ∙ under) in
            find-erase_client_ne old j put away ∙ find-put_client_ne id j _ s.clients ne ∙ g;
        numbered = erase-Descending s.next old put down;
      }
