-- ===== src/Serialize/Deserialize/Chunks.antt =====
-- The deserializer and the way in which the bytes are cut into chunks.
use mathlib.Core.Path.{fun_ext}
use ocremote.Base.{ℕ, ◌≡◌, refl, sym, ap, ◌∙◌, List, [], ◌∷◌, ◌++◌, append-nil, append_assoc, Text}
use ocremote.Serialize.Value.{Doubles, Value}
use ocremote.Serialize.Deserialize.{
  Frame, Run, running, thrown, after, ◌>>=◌, root, start, number, string, table, shift_byte,
  shift_end, shift, feed,
}

-- The bytes of the chunks, in their order.
abbrev pub concat : List Text → Text
concat [] = []
concat (chunk ∷ chunks) = chunk ++ concat chunks

module _ (F : Doubles) where
  open F use {Double}

  pub after-nil : (r : Run F) → after F [] r ≡ r
  after-nil (running st out) = refl
  after-nil (thrown e out) = refl

  after-append :
      (xs ys : List (Value Double)) (r : Run F) → after F (xs ++ ys) r ≡ after F xs (after F ys r)
  after-append xs ys (running st out) = ap (running st) (append_assoc xs ys out)
  after-append xs ys (thrown e out) = ap (thrown e) (append_assoc xs ys out)

  after-bind :
      (out : List (Value Double)) (r : Run F) (g : List (Frame F) → Run F)
      → ◌>>=◌ F (after F out r) g ≡ after F out (◌>>=◌ F r g)
  after-bind out (running st more) g = after-append out more (g st)
  after-bind out (thrown e more) g = refl

  pub bind_assoc :
      (r : Run F) (f g : List (Frame F) → Run F)
      → ◌>>=◌ F (◌>>=◌ F r f) g ≡ ◌>>=◌ F r (λ st. ◌>>=◌ F (f st) g)
  bind_assoc (running st out) f g = after-bind out (f st) g
  bind_assoc (thrown e out) f g = refl

  pub bind-running : (r : Run F) → ◌>>=◌ F r (λ st. running st []) ≡ r
  bind-running (running st out) = ap (running st) (append-nil out)
  bind-running (thrown e out) = refl

  pub shift_cons :
      (st : List (Frame F)) (now : ℕ) (rest : Text)
      → shift F st (now ∷ rest) ≡ ◌>>=◌ F (shift_byte F st now) (λ st'. shift F st' rest)
  unfolding shift
  shift_cons st now rest = refl

  shift_end-bind :
      (st : List (Frame F)) (ys : Text)
      → ◌>>=◌ F (shift_end F st) (λ st'. shift F st' ys) ≡ shift F st ys
  unfolding shift
  shift_end-bind [] [] = refl
  shift_end-bind [] (y ∷ ys) = refl
  shift_end-bind (start ∷ st) [] = refl
  shift_end-bind (start ∷ st) (y ∷ ys) = refl
  shift_end-bind (table t k ∷ st) [] = refl
  shift_end-bind (table t k ∷ st) (y ∷ ys) = refl
  shift_end-bind (root ∷ st) ys = after-nil _
  shift_end-bind (number b ∷ st) ys = after-nil _
  shift_end-bind (string b e ∷ st) ys = after-nil _

  -- Reading two pieces in one call is reading the one, and then the other from where the first
  -- left the stack.
  pub shift-append :
      (st : List (Frame F)) (xs ys : Text)
      → shift F st (xs ++ ys) ≡ ◌>>=◌ F (shift F st xs) (λ st'. shift F st' ys)
  unfolding shift
  shift-append st [] ys = sym (shift_end-bind st ys)
  shift-append st (x ∷ xs) ys =
      ap (◌>>=◌ F (shift_byte F st x)) (fun_ext λ st'. shift-append st' xs ys)
      ∙ sym (bind_assoc (shift_byte F st x) _ _)

  -- However the bytes are cut into chunks, the calls pass on the same values, throw the same, and
  -- leave the same stack as one call on all the bytes.
  pub feed-eq-shift :
      (st : List (Frame F)) (chunk : Text) (chunks : List Text)
      → feed F st (chunk ∷ chunks) ≡ shift F st (chunk ++ concat chunks)
  unfolding feed
  feed-eq-shift st chunk [] = bind-running _ ∙ ap (shift F st) (sym (append-nil chunk))
  feed-eq-shift st chunk (next ∷ chunks) =
      ap (◌>>=◌ F (shift F st chunk)) (fun_ext λ st'. feed-eq-shift st' next chunks)
      ∙ sym (shift-append st chunk (next ++ concat chunks))
