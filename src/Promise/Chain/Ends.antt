-- ===== src/Promise/Chain/Ends.antt =====
-- How the settling of a chain of promises ends.
use ocremote.Base.{
  ℕ, zero, suc, ◌<◌, ◌≤◌, ◌≡◌, ◌≢◌, refl, ap, sym, ◌∙◌, inl, inr, Bool, true, Option, none, some,
  List, [], ◌∷◌, ◌++◌, length, get_elem?, set, get_elem?-set_self, get_elem?-set_ne, if◌then◌else◌,
  arith, Bool-cases,
}
use ocremote.Promise.Chain.{
  Outcome, result, failure, Listener, promise, Store, Effect, calls, calls_finally, Settled, ok,
  threw, listen, log, attach, notify, settle,
}
use ocremote.Promise.Chain.Path.{
  Stage, Leads, Keeps, Leads-Keeps, count_thens, deliveries, finals, awaited,
}

module _ {V : Type 0} (alive : ℕ → Bool) where
  -- The callbacks of finally on the way whose owners are alive.
  unfoldable pub live_finals : List (Stage V) → List ℕ
  live_finals [] = []
  live_finals (Stage.finally owner fn ∷ stages) =
      let rest = live_finals stages in if alive owner then fn ∷ rest else rest
  live_finals (stage ∷ stages) = live_finals stages

  -- How the settling of a chain ends: it is delivered, or it hangs on a promise of its own.
  pub data Ends (u : ℕ) (stages : List (Stage V)) : Settled V → Type 0 where
    done :
        {s : Store V} {out : List (Effect V)} (o : Outcome V)
        → deliveries out ≡ (u, o) ∷ []
        → awaited out ≡ none
        → finals out ≡ live_finals stages
        → Ends u stages (ok s out)
    waits :
        {s' : Store V} {out : List (Effect V)} (inner : ℕ) (rest : List (Stage V))
        → deliveries out ≡ []
        → awaited out ≡ some inner
        → Leads s' u inner rest
        → length rest ≤ length stages
        → count_thens rest < count_thens stages
        → finals out ++ live_finals rest ≡ live_finals stages
        → Ends u stages (ok s' out)

  -- A stage before: it calls nothing, a callback, or one of finally.
  Ends-quiet :
      (u : ℕ) (stage : Stage V) (stages : List (Stage V)) (r : Settled V)
      → live_finals (stage ∷ stages) ≡ live_finals stages
      → count_thens stages ≤ count_thens (stage ∷ stages)
      → Ends u stages r
      → Ends u (stage ∷ stages) r
  Ends-quiet u stage stages (threw x) e n h = elim h [ ]
  Ends-quiet u stage stages (ok s out) e n (Ends.done o d a f) = Ends.done o d a (f ∙ sym e)
  Ends-quiet u stage stages (ok s' out) e n (Ends.waits inner rest d a l m c f) =
      Ends.waits inner rest d a l (omega (arith, m)) (omega (arith, c, n)) (f ∙ sym e)

  Ends-calls :
      (u fn : ℕ) (v : V) (stages : List (Stage V)) (r : Settled V)
      → Ends u stages r
      → Ends u stages (log (calls fn v) r)
  unfolding log deliveries awaited finals
  Ends-calls u fn v stages (threw x) h = elim h [ ]
  Ends-calls u fn v stages (ok s out) (Ends.done o d a f) = Ends.done o d a f
  Ends-calls u fn v stages (ok s' out) (Ends.waits inner rest d a l m c f) =
      Ends.waits inner rest d a l m c f

  Ends-finally :
      (u owner fn : ℕ) (stages : List (Stage V)) (r : Settled V)
      → alive owner ≡ true
      → Ends u stages r
      → Ends u (Stage.finally owner fn ∷ stages) (log (calls_finally fn) r)
  unfolding log deliveries awaited finals live_finals count_thens
  Ends-finally u owner fn stages (threw x) e h = elim h [ ]
  Ends-finally u owner fn stages (ok s out) e (Ends.done o d a f) =
      Ends.done o d a (rw e (ap (◌∷◌ fn) f))
  Ends-finally u owner fn stages (ok s' out) e (Ends.waits inner rest d a l m c f) =
      Ends.waits inner rest d a l (omega (arith, m)) c (rw e (ap (◌∷◌ fn) f))

-- The promise that a callback of then returns is there, nobody listens to it yet, and the callback
-- takes no listener away.
abbrev pub IsFresh : {V : Type 0} → (ℕ → V → Store V → ℕ × Store V) → Type 0
IsFresh {V = V} start =
    (fn : ℕ) (v : V) (s : Store V)
    → (get_elem? (start fn v s).1 (start fn v s).0 ≡ some none) × Keeps s (start fn v s).1

module _ {V : Type 0} (alive : ℕ → Bool) (apply : ℕ → V → V)
    (start : ℕ → V → Store V → ℕ × Store V) where
  Keeps-listen :
      (s : Store V) (q : ℕ) (x : Listener V)
      → get_elem? s q ≡ some none
      → Keeps s (set s q (some x))
  Keeps-listen s q x free p l h =
      get_elem?-set_ne s (some x) (λ e. taken l (sym free ∙ ap (get_elem? s) e ∙ h)) ∙ h
    where
      taken : (l : Listener V) → some none ≢ some (some l)
      taken l e = cc

  in_range : (s : Store V) (q : ℕ) (x : Option (Listener V)) → get_elem? s q ≡ some x → q < length s
  in_range [] q x h = cc
  in_range (y ∷ s) zero x h = omega arith
  in_range (y ∷ s) (suc q) x h = omega (arith, in_range s q x h)

  attach-Ends :
      (s : Store V) (u to owner fn : ℕ) (v : V) (stages : List (Stage V))
      → IsFresh start
      → Leads s u to stages
      → Ends alive u (Stage.then_ owner fn ∷ stages) (attach alive apply start to (start fn v s))
  unfolding attach listen deliveries awaited finals live_finals count_thens
  attach-Ends s u to owner fn v stages fresh l =
      let (free, keeps) = fresh fn v s in
      let s1 = (start fn v s).1 in
      let q = (start fn v s).0 in
      let s2 : Store V = set s1 q (some (promise to)) in
      let kept : Keeps s s2 = λ p x h. Keeps-listen s1 q (promise to) free p x (keeps p x h) in
      rw (attach, listen, free)
        (Ends.waits q (Stage.pass ∷ stages) refl refl
          (Leads.pass (get_elem?-set_self s1 q _ (in_range s1 q none free))
            (Leads-Keeps s s2 u to stages kept l))
          (omega arith) (omega arith) refl)

  pub settle-Ends :
      (s : Store V) (u fuel p : ℕ) (stages : List (Stage V)) (o : Outcome V)
      → IsFresh start
      → Leads s u p stages
      → length stages < fuel
      → Ends alive u stages (settle alive apply start fuel p o s)
  unfolding settle notify live_finals count_thens deliveries awaited finals
  settle-Ends s u zero p stages o fresh l n = absurd (omega arith)
  settle-Ends s u (suc fuel) p [] o fresh (Leads.ends h) n =
      rw (settle, h) (Ends.done o refl refl refl)
  settle-Ends s u (suc fuel) p (Stage.map owner fn ∷ stages) (failure c) fresh (Leads.map h l) n =
      rw (settle, h)
        (Ends-quiet alive u _ stages _ refl (omega arith)
          (settle-Ends s u fuel _ stages _ fresh l (omega arith)))
  settle-Ends s u (suc fuel) p (Stage.map owner fn ∷ stages) (result v) fresh (Leads.map h l) n =
      elim (Bool-cases (alive owner)) [
        | inl lives ↦
            rw (settle, h, lives)
              (Ends-calls alive u fn v _ _ (
                Ends-quiet alive u _ stages _ refl (omega arith)
                  (settle-Ends s u fuel _ stages _ fresh l (omega arith))))
        | inr died ↦
            rw (settle, h, died)
              (Ends-quiet alive u _ stages _ refl (omega arith)
                (settle-Ends s u fuel _ stages _ fresh l (omega arith)))
      ]
  settle-Ends s u (suc fuel) p (Stage.map_to v ∷ stages) (failure c) fresh (Leads.map_to h l) n =
      rw (settle, h)
        (Ends-quiet alive u _ stages _ refl (omega arith)
          (settle-Ends s u fuel _ stages _ fresh l (omega arith)))
  settle-Ends s u (suc fuel) p (Stage.map_to v ∷ stages) (result w) fresh (Leads.map_to h l) n =
      rw (settle, h)
        (Ends-quiet alive u _ stages _ refl (omega arith)
          (settle-Ends s u fuel _ stages _ fresh l (omega arith)))
  settle-Ends s u (suc fuel) p (Stage.then_ owner fn ∷ stages) (failure c) fresh (Leads.then_ h l)
        n =
      rw (settle, h)
        (Ends-quiet alive u _ stages _ refl (omega arith)
          (settle-Ends s u fuel _ stages _ fresh l (omega arith)))
  settle-Ends s u (suc fuel) p (Stage.then_ owner fn ∷ stages) (result v) fresh
        (Leads.then_ {to = to} h l) n =
      elim (Bool-cases (alive owner)) [
        | inl lives ↦
            rw (settle, h, lives)
              (Ends-calls alive u fn v _ _ (attach-Ends s u to owner fn v stages fresh l))
        | inr died ↦
            rw (settle, h, died)
              (Ends-quiet alive u _ stages _ refl (omega arith)
                (settle-Ends s u fuel _ stages _ fresh l (omega arith)))
      ]
  settle-Ends s u (suc fuel) p (Stage.finally owner fn ∷ stages) o fresh (Leads.finally h l) n =
      elim (Bool-cases (alive owner)) [
        | inl lives ↦
            rw (settle, h, lives)
              (Ends-finally alive u owner fn stages _ lives
                (settle-Ends s u fuel _ stages o fresh l (omega arith)))
        | inr died ↦
            rw (settle, h, died)
              (Ends-quiet alive u _ stages _ (rw died refl) (omega arith)
                (settle-Ends s u fuel _ stages o fresh l (omega arith)))
      ]
  settle-Ends s u (suc fuel) p (Stage.pass ∷ stages) o fresh (Leads.pass h l) n =
      rw (settle, h)
        (Ends-quiet alive u _ stages _ refl (omega arith)
          (settle-Ends s u fuel _ stages _ fresh l (omega arith)))
