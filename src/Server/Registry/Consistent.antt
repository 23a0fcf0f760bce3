-- ===== src/Server/Registry/Consistent.antt =====
-- The clients and the names of `Server` agree: what each change of the two maps does to that.
use mathlib.Core.Path.{subst}
use ocremote.Base.{
  ℕ, ◌==◌, ◌≡◌, ◌≢◌, refl, ap, sym, ◌∙◌, ◌⊎◌, inl, inr, none, some, List, [], Text, arith,
  Bool-cases, some_inj, ℕ_discrete,
}
use ocremote.Server.Client.{Client, connected, flatten}
use ocremote.Server.Client.Pending.{IsValid, pending}
use ocremote.Server.Client.History.{connected-IsValid}
use ocremote.Server.Registry.{
  Server, empty, accept, forget, find_name, find_client, put_client, erase_entry,
}
use ocremote.Server.Registry.Lookup.{
  none-some, forget-split, forget-found, Descending, find_below, put-Descending, erase-Descending,
  find-put_client_self, find-put_client_ne, find-erase_client_self, find-erase_client_ne,
}

module _ {A : Type 0} where
  -- The queues of a client are sound, and nothing is pending before it has logged in.
  pub record IsSound (c : Client A) : Type 0 where
    pub valid : IsValid c
    pub idle : c.login ≡ none → pending c ≡ []

  -- Each name leads to a client that logged in with it; each client that has logged in is found
  -- under its name; no two connections have one number; and each client is sound.
  pub record IsConsistent (s : Server A) : Type 0 where
    pub listed :
        (l : Text) (id : ℕ)
        → find_name l s.logins ≡ some id
        → (c : Client A) × (find_client id s.clients ≡ some c) × (c.login ≡ some l)
    pub registered :
        (id : ℕ) (c : Client A) (l : Text)
        → find_client id s.clients ≡ some c
        → c.login ≡ some l
        → find_name l s.logins ≡ some id
    pub numbered : Descending s.next s.clients
    pub sound : (id : ℕ) (c : Client A) → find_client id s.clients ≡ some c → IsSound c

  pub empty-IsConsistent : IsConsistent (empty {A = A})
  unfolding find_name find_client
  empty-IsConsistent = record {
    listed = λ l id h. cc;
    registered = λ id c l h e. cc;
    numbered = tt;
    sound = λ id c h. cc;
  }

  connected-IsSound : IsSound (connected {A = A})
  unfolding flatten
  connected-IsSound = record { valid = connected-IsValid A; idle = λ _. refl }

  -- What is found after a change at one number, and after a removal.
  pub put-split :
      (s : Server A) (id : ℕ) (c c' : Client A) (j : ℕ) (d : Client A)
      → find_client id s.clients ≡ some c
      → find_client j (put_client id c' s.clients) ≡ some d
      → ((id ≡ j) × (c' ≡ d)) ⊎ ((id ≢ j) × (find_client j s.clients ≡ some d))
  put-split s id c c' j d f h = elim (ℕ_discrete id j) [
    | yes e ↦ inl (
      e,
      some_inj (
          sym (find-put_client_self id c c' s.clients f)
          ∙ ap (λ k. find_client k (put_client id c' s.clients)) e
          ∙ h),
    )
    | no ne ↦ inr (ne, sym (find-put_client_ne id j c' s.clients ne) ∙ h)
  ]

  pub erase-split :
      (n : ℕ) (cs : List (ℕ × Client A)) (id j : ℕ) (d : Client A)
      → Descending n cs
      → find_client j (erase_entry id cs) ≡ some d
      → (id ≢ j) × (find_client j cs ≡ some d)
  erase-split n cs id j d k h = elim (ℕ_discrete id j) [
    | yes e ↦
        let gone : find_client j (erase_entry id cs) ≡ none =
          ap (λ i. find_client i (erase_entry id cs)) (sym e) ∙ find-erase_client_self n id cs k in
        absurd (none-some d (sym gone ∙ h))
    | no ne ↦ (ne, sym (find-erase_client_ne id j cs ne) ∙ h)
  ]

  accept-split :
      (s : Server A) (j : ℕ) (d : Client A)
      → find_client j (accept s).clients ≡ some d
      → ((s.next ≡ j) × (connected ≡ d)) ⊎ (find_client j s.clients ≡ some d)
  unfolding accept find_client
  accept-split s j d h = elim (Bool-cases (s.next == j)) [
    | inl e ↦ inl (ground (arith, e), (let h' : some connected ≡ some d = rw e at h in some_inj h'))
    | inr e ↦ inr (rw e at h)
  ]

  accept-found :
      (s : Server A) (j : ℕ) (d : Client A)
      → IsConsistent s
      → find_client j s.clients ≡ some d
      → find_client j (accept s).clients ≡ some d
  unfolding accept find_client
  accept-found s j d k f = elim (Bool-cases (s.next == j)) [
    | inl e ↦
        absurd
          (none-some d (sym (find_below s.next j s.clients (ground (arith, e)) k.numbered) ∙ f))
    | inr e ↦ rw e f
  ]

  pub accept-IsConsistent : (s : Server A) → IsConsistent s → IsConsistent (accept s)
  unfolding accept find_client
  accept-IsConsistent s k = record {
    listed = λ l j h. let (c, f, e) = k.listed l j h in (c, accept-found s j c k f, e);
    registered = λ j d l h e. elim (accept-split s j d h) [
      | inl (x, y) ↦ absurd (none-some l (ap (λ z. z.login) y ∙ e))
      | inr y ↦ k.registered j d l y e
    ];
    numbered = (omega arith, k.numbered);
    sound = λ j d h. elim (accept-split s j d h) [
      | inl (x, y) ↦ subst IsSound y connected-IsSound
      | inr y ↦ k.sound j d y
    ];
  }

  -- A client takes a new state, under the same name.
  pub put-IsConsistent :
      (s : Server A) (id : ℕ) (c c' : Client A)
      → IsConsistent s
      → find_client id s.clients ≡ some c
      → c'.login ≡ c.login
      → IsSound c'
      → IsConsistent (record s { clients = put_client id c' s.clients })
  put-IsConsistent s id c c' k f same i = record {
    listed = λ l j h.
        let (d, g, e) = k.listed l j h in
        elim (ℕ_discrete id j) [
          | yes x ↦
              let found : find_client j (put_client id c' s.clients) ≡ some c' =
                ap (λ i. find_client i (put_client id c' s.clients)) (sym x)
                ∙ find-put_client_self id c c' s.clients f in
              let old : c ≡ d = some_inj (sym f ∙ ap (λ i. find_client i s.clients) x ∙ g) in
              (c', found, same ∙ ap (λ z. z.login) old ∙ e)
          | no ne ↦ (d, find-put_client_ne id j c' s.clients ne ∙ g, e)
        ];
    registered = λ j d l h e. elim (put-split s id c c' j d f h) [
      | inl (x, y) ↦ k.registered id c l f (sym same ∙ ap (λ z. z.login) y ∙ e) ∙ ap some x
      | inr (x, y) ↦ k.registered j d l y e
    ];
    numbered = put-Descending s.next id c' s.clients k.numbered;
    sound = λ j d h. elim (put-split s id c c' j d f h) [
      | inl (x, y) ↦ subst IsSound y i
      | inr (x, y) ↦ k.sound j d y
    ];
  }

  -- logins.erase and clients.erase of one client.
  pub remove-IsConsistent :
      (s : Server A) (id : ℕ) (c : Client A)
      → IsConsistent s
      → find_client id s.clients ≡ some c
      → IsConsistent
          (record s { logins = forget c.login s.logins; clients = erase_entry id s.clients })
  remove-IsConsistent s id c k f = record {
    listed = λ l j h.
        let (before, ne) = forget-split s.logins c.login l j h in
        let (d, g, e) = k.listed l j before in
        let apart : id ≢ j = λ x.
          ne (ap (λ z. z.login) (some_inj (sym f ∙ ap (λ i. find_client i s.clients) x ∙ g)) ∙ e) in
        (d, find-erase_client_ne id j s.clients apart ∙ g, e);
    registered = λ j d l h e.
        let (ne, g) = erase-split s.next s.clients id j d k.numbered h in
        forget-found s.logins c.login l j
          (λ x. ne (some_inj (sym (k.registered id c l f x) ∙ k.registered j d l g e)))
          (k.registered j d l g e);
    numbered = erase-Descending s.next id s.clients k.numbered;
    sound = λ j d h. k.sound j d (erase-split s.next s.clients id j d k.numbered h).1;
  }
