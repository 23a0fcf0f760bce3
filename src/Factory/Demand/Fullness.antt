-- ===== src/Factory/Demand/Fullness.antt =====
-- The outputs of a recipe in `getDemand`: which of them lack, and the fullness.
use ocremote.Base.{
  OneOf, front, later, ◌≡◌, ◌≢◌, refl, sym, ◌∙◌, inl, inr, ◌⊎◌, Bool, true, false, ◌&&◌, List, [],
  ◌∷◌, All, arith, Bool-cases,
}
use ocremote.Base.Int.{ℤ, ◌≤ℤ◌, ◌<ℤ◌, leb_ℤ, leb_ℤ→lt, leb_ℤ→le}
use ocremote.Serialize.Value.{Doubles}
use ocremote.Factory.Stock.{Stock, get_avail, get_item}
use ocremote.Factory.Demand.{Floats, RecipeOut, has_outputs, visit_outputs}

module _ (F : Doubles) (G : Floats) (s : Stock F) where
  open F use {Double}
  open G use {Float, ratio, two, less}

  abbrev pub stored : RecipeOut Double → ℤ
  stored out = get_avail F s (get_item F s out.item) true

  -- Less of it is there than is to be.
  abbrev pub Lacks : RecipeOut Double → Type 0
  Lacks out = stored out <ℤ out.size

  abbrev pub HasEnough : RecipeOut Double → Type 0
  HasEnough out = out.size ≤ℤ stored out

  -- How full the recipe is where it is `most` at first: the least of that and of the parts of the
  -- outputs that lack.
  pub record IsLeast (outs : List (RecipeOut Double)) (most fullness : Float) : Type 0 where
    pub attained :
        (fullness ≡ most)
        ⊎ ((out : RecipeOut Double) × OneOf out outs
            × Lacks out
            × (fullness ≡ ratio (stored out) out.size))
    pub least : All (λ out. Lacks out → less (ratio (stored out) out.size) fullness ≡ false) outs
    pub at_most : less most fullness ≡ false

  less_irrefl : (x : Float) → less x x ≡ false
  less_irrefl x = elim (Bool-cases (less x x)) [ inl e ↦ G.less_asym x x e | inr e ↦ e ]

  visit_outputs-Lacks :
      (outs : List (RecipeOut Double)) (fullness : Float)
      → (visit_outputs F G s outs (true, fullness)).0 ≡ false
      → (out : RecipeOut Double) × OneOf out outs × Lacks out
  unfolding visit_outputs
  visit_outputs-Lacks [] fullness h = cc
  visit_outputs-Lacks (out ∷ rest) fullness h = elim (Bool-cases (leb_ℤ out.size (stored out))) [
    | inr e ↦ (out, front, leb_ℤ→lt out.size _ e)
    | inl e ↦
        let (o, one, lacks) = visit_outputs-Lacks rest fullness (rw (e, visit_outputs) at h) in
        (o, later one, lacks)
  ]

  visit_outputs_stays_false :
      (outs : List (RecipeOut Double)) (fullness : Float)
      → (visit_outputs F G s outs (false, fullness)).0 ≡ false
  unfolding visit_outputs
  visit_outputs_stays_false [] fullness = refl
  visit_outputs_stays_false (out ∷ rest) fullness = visit_outputs_stays_false rest _

  visit_outputs-HasEnough :
      (outs : List (RecipeOut Double)) (fullness : Float)
      → (visit_outputs F G s outs (true, fullness)).0 ≡ true
      → All HasEnough outs
  unfolding visit_outputs
  visit_outputs-HasEnough [] fullness h = tt
  visit_outputs-HasEnough (out ∷ rest) fullness h =
      elim (Bool-cases (leb_ℤ out.size (stored out))) [
        | inl e ↦ (
          leb_ℤ→le out.size _ e,
          visit_outputs-HasEnough rest fullness (rw (e, visit_outputs) at h),
        )
        | inr e ↦
            let h' = rw (e, visit_outputs) at h in
            let same : true ≡ false = sym h' ∙ visit_outputs_stays_false rest _ in cc
      ]

  pub outputs-lacking :
      (outs : List (RecipeOut Double))
      → has_outputs F G outs && (visit_outputs F G s outs (true, two)).0 ≡ false
      → (outs ≡ []) ⊎ ((out : RecipeOut Double) × OneOf out outs × Lacks out)
  outputs-lacking [] h = inl refl
  outputs-lacking (out ∷ rest) h = inr (visit_outputs-Lacks (out ∷ rest) two h)

  pub outputs-enough :
      (outs : List (RecipeOut Double))
      → has_outputs F G outs && (visit_outputs F G s outs (true, two)).0 ≡ true
      → (outs ≢ []) × All HasEnough outs
  outputs-enough [] h = cc
  outputs-enough (out ∷ rest) h = ((λ e. cc), visit_outputs-HasEnough (out ∷ rest) two h)

  -- Once an output is passed over or taken, the rest decides.
  skip-IsLeast :
      (out : RecipeOut Double) (rest : List (RecipeOut Double)) (most fullness : Float)
      → (Lacks out → less (ratio (stored out) out.size) fullness ≡ false)
      → IsLeast rest most fullness
      → IsLeast (out ∷ rest) most fullness
  skip-IsLeast out rest most fullness here v = record {
    attained = elim v.attained [
      | inl e ↦ inl e
      | inr (o, one, lacks, e) ↦ inr (o, later one, lacks, e)
    ];
    least = (here, v.least);
    at_most = v.at_most;
  }

  take-IsLeast :
      (out : RecipeOut Double) (rest : List (RecipeOut Double)) (most fullness : Float)
      → Lacks out
      → less (ratio (stored out) out.size) most ≡ true
      → IsLeast rest (ratio (stored out) out.size) fullness
      → IsLeast (out ∷ rest) most fullness
  take-IsLeast out rest most fullness lacks e v = record {
    attained = elim v.attained [
      | inl same ↦ inr (out, front, lacks, same)
      | inr (o, one, l, same) ↦ inr (o, later one, l, same)
    ];
    least = (λ l. v.at_most, v.least);
    at_most =
        G.not_less_trans fullness (ratio (stored out) out.size) most v.at_most (G.less_asym _ _ e);
  }

  -- The loop over the outputs finds that fullness.
  pub visit_outputs-IsLeast :
      (outs : List (RecipeOut Double)) (full : Bool) (most : Float)
      → IsLeast outs most (visit_outputs F G s outs (full, most)).1
  unfolding visit_outputs
  visit_outputs-IsLeast [] full most = record {
    attained = inl refl;
    least = tt;
    at_most = less_irrefl most;
  }
  visit_outputs-IsLeast (out ∷ rest) full most =
      let now = ratio (stored out) out.size in
      elim (Bool-cases (leb_ℤ out.size (stored out))) [
        | inl e ↦
            rw (e, visit_outputs)
              (skip-IsLeast out rest most _
                (λ l. absurd (omega (arith, l, leb_ℤ→le out.size (stored out) e)))
                (visit_outputs-IsLeast rest _ most))
        | inr e ↦ elim (Bool-cases (less now most)) [
          | inl l ↦
              rw (e, l, visit_outputs)
                (take-IsLeast out rest most _ (leb_ℤ→lt out.size _ e) l
                  (visit_outputs-IsLeast rest _ now))
          | inr l ↦
              let v = visit_outputs-IsLeast rest (full && false) most in
              rw (e, l, visit_outputs)
                (skip-IsLeast out rest most _ (λ _. G.not_less_trans _ most now v.at_most l) v)
        ]
      ]
