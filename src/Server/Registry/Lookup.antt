-- ===== src/Server/Registry/Lookup.antt =====
-- What the two maps of `Server` have after a change.
use mathlib.Core.Bool.{true≢false}
use ocremote.Base.{
  ℕ, ◌<◌, ◌≤◌, ◌==◌, ◌≡◌, ◌≢◌, refl, ap, sym, ◌∙◌, ◌⊎◌, inl, inr, false, Option, none, some, List,
  [], ◌∷◌, Text, arith, Bool-cases, text_eq, text_eq_sound, text_eq_refl, some_inj,
}
use ocremote.Server.Client.{Client}
use ocremote.Server.Registry.{
  forget, find_name, erase_name, put_name, find_client, put_client, erase_entry,
}

-- Names that differ.
pub other_name : (m l : Text) → m ≢ l → text_eq m l ≡ false
other_name m l h = elim (Bool-cases (text_eq m l)) [
  | inl e ↦ absurd (h (text_eq_sound m l e))
  | inr e ↦ e
]

pub find-put_name_self :
    (l : Text) (id : ℕ) (ls : List (Text × ℕ)) → find_name l (put_name l id ls) ≡ some id
unfolding find_name put_name
find-put_name_self l id [] = rw (text_eq_refl l) refl
find-put_name_self l id ((m, j) ∷ rest) = ground (arith, find-put_name_self l id rest)

pub find-put_name_ne :
    (l m : Text) (id : ℕ) (ls : List (Text × ℕ))
    → l ≢ m
    → find_name m (put_name l id ls) ≡ find_name m ls
unfolding find_name put_name
find-put_name_ne l m id [] h = rw (other_name l m h) refl
find-put_name_ne l m id ((k, j) ∷ rest) h =
    let ih = find-put_name_ne l m id rest h in
    elim (Bool-cases (text_eq k l)) [
      | inl e ↦
          let apart : text_eq k m ≡ false =
            other_name k m (λ d. h (sym (text_eq_sound k l e) ∙ d)) in
          rw (e, apart) refl
      | inr e ↦ ground (arith, ih)
    ]

pub find-erase_name_self : (l : Text) (ls : List (Text × ℕ)) → find_name l (erase_name l ls) ≡ none
unfolding find_name erase_name
find-erase_name_self l [] = refl
find-erase_name_self l ((m, j) ∷ rest) = ground (arith, find-erase_name_self l rest)

pub find-erase_name_ne :
    (l m : Text) (ls : List (Text × ℕ)) → l ≢ m → find_name m (erase_name l ls) ≡ find_name m ls
unfolding find_name erase_name
find-erase_name_ne l m [] h = refl
find-erase_name_ne l m ((k, j) ∷ rest) h =
    let ih = find-erase_name_ne l m rest h in
    elim (Bool-cases (text_eq k l)) [
      | inl e ↦
          let apart : text_eq k m ≡ false =
            other_name k m (λ d. h (sym (text_eq_sound k l e) ∙ d)) in
          rw (e, apart) ih
      | inr e ↦ ground (arith, ih)
    ]

pub none-some : {X : Type 0} (x : X) → none ≢ some x
none-some x h = cc

text_cases : (m l : Text) → (m ≡ l) ⊎ (m ≢ l)
text_cases m l = elim (Bool-cases (text_eq m l)) [
  | inl e ↦ inl (text_eq_sound m l e)
  | inr e ↦
      inr (λ x. absurd (true≢false (sym (text_eq_refl l) ∙ ap (λ y. text_eq y l) (sym x) ∙ e)))
]

-- What is found once the name of a client is forgotten.
pub forget-split :
    (logins : List (Text × ℕ)) (login : Option Text) (l : Text) (j : ℕ)
    → find_name l (forget login logins) ≡ some j
    → (find_name l logins ≡ some j) × (login ≢ some l)
unfolding forget
forget-split logins none l j h = (h, none-some l)
forget-split logins (some m) l j h = elim (text_cases m l) [
  | inl e ↦
      let gone : find_name l (erase_name m logins) ≡ none =
        ap (λ x. find_name x (erase_name m logins)) (sym e) ∙ find-erase_name_self m logins in
      absurd (none-some j (sym gone ∙ h))
  | inr ne ↦ (sym (find-erase_name_ne m l logins ne) ∙ h, λ x. ne (some_inj x))
]

pub forget-found :
    (logins : List (Text × ℕ)) (login : Option Text) (l : Text) (j : ℕ)
    → login ≢ some l
    → find_name l logins ≡ some j
    → find_name l (forget login logins) ≡ some j
unfolding forget
forget-found logins none l j ne h = h
forget-found logins (some m) l j ne h = find-erase_name_ne m l logins (λ x. ne (ap some x)) ∙ h

-- What is found once a name is given.
pub put_name-split :
    (logins : List (Text × ℕ)) (l : Text) (id : ℕ) (m : Text) (j : ℕ)
    → find_name m (put_name l id logins) ≡ some j
    → ((l ≡ m) × (id ≡ j)) ⊎ ((l ≢ m) × (find_name m logins ≡ some j))
put_name-split logins l id m j h = elim (text_cases l m) [
  | inl e ↦ inl (
    e,
    some_inj
        (sym (find-put_name_self l id logins) ∙ ap (λ x. find_name x (put_name l id logins)) e ∙ h),
  )
  | inr ne ↦ inr (ne, sym (find-put_name_ne l m id logins ne) ∙ h)
]

module _ {A : Type 0} where
  -- The numbers descend from below `n`: each connection gets a new one.
  abbrev pub Descending : ℕ → List (ℕ × Client A) → Type 0
  Descending n [] = Unit
  Descending n ((j, c) ∷ rest) = (j < n) × Descending j rest

  pub Descending-weaken :
      (n m : ℕ) (cs : List (ℕ × Client A)) → n ≤ m → Descending n cs → Descending m cs
  Descending-weaken n m [] h d = tt
  Descending-weaken n m ((j, c) ∷ rest) h d = (omega (arith, d.0), d.1)

  pub find_below :
      (n id : ℕ) (cs : List (ℕ × Client A)) → n ≤ id → Descending n cs → find_client id cs ≡ none
  unfolding find_client
  find_below n id [] h d = refl
  find_below n id ((j, c) ∷ rest) h d =
      ground (arith, find_below j id rest (omega (arith, d.0)) d.1)

  pub put-Descending :
      (n id : ℕ) (c : Client A) (cs : List (ℕ × Client A))
      → Descending n cs
      → Descending n (put_client id c cs)
  unfolding put_client
  put-Descending n id c [] d = tt
  put-Descending n id c ((j, e) ∷ rest) d = elim (Bool-cases (j == id)) [
    | inl same ↦ rw same d
    | inr other ↦ rw other (d.0, put-Descending j id c rest d.1)
  ]

  pub erase-Descending :
      (n id : ℕ) (cs : List (ℕ × Client A)) → Descending n cs → Descending n (erase_entry id cs)
  unfolding erase_entry
  erase-Descending n id [] d = tt
  erase-Descending n id ((j, e) ∷ rest) d = elim (Bool-cases (j == id)) [
    | inl same ↦ rw same (Descending-weaken j n rest (omega (arith, d.0)) d.1)
    | inr other ↦ rw other (d.0, erase-Descending j id rest d.1)
  ]

  pub find-put_client_self :
      (id : ℕ) (c d : Client A) (cs : List (ℕ × Client A))
      → find_client id cs ≡ some c
      → find_client id (put_client id d cs) ≡ some d
  unfolding find_client put_client
  find-put_client_self id c d [] h = cc
  find-put_client_self id c d ((j, e) ∷ rest) h = ground (arith, find-put_client_self id c d rest)

  pub find-put_client_ne :
      (id j : ℕ) (c : Client A) (cs : List (ℕ × Client A))
      → id ≢ j
      → find_client j (put_client id c cs) ≡ find_client j cs
  unfolding find_client put_client
  find-put_client_ne id j c [] h = refl
  find-put_client_ne id j c ((k, e) ∷ rest) h = ground (arith, find-put_client_ne id j c rest h)

  pub find-erase_client_self :
      (n id : ℕ) (cs : List (ℕ × Client A))
      → Descending n cs
      → find_client id (erase_entry id cs) ≡ none
  unfolding find_client erase_entry
  find-erase_client_self n id [] d = refl
  find-erase_client_self n id ((k, e) ∷ rest) d =
      let below = find_below k id rest in
      ground (arith, find-erase_client_self k id rest d.1, below, d.1)

  pub find-erase_client_ne :
      (id j : ℕ) (cs : List (ℕ × Client A))
      → id ≢ j
      → find_client j (erase_entry id cs) ≡ find_client j cs
  unfolding find_client erase_entry
  find-erase_client_ne id j [] h = refl
  find-erase_client_ne id j ((k, e) ∷ rest) h = ground (arith, find-erase_client_ne id j rest h)
