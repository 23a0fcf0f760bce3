-- ===== src/Serialize/Deserialize/RoundTrip.antt =====
-- Writing values and reading them back.
use ocremote.Base.{
  ℕ, ◌≡◌, ◌≢◌, refl, sym, ap, ◌∙◌, inl, inr, Bool, true, false, Option, none, some, List, [], ◌∷◌,
  ◌++◌, append-nil, append_assoc, Text, All, arith, ◌==◌, Bool-cases, ==_iff, if◌then◌else◌,
}
use ocremote.Serialize.Value.{Doubles, Key, Value, Table, end, entry}
use ocremote.Serialize.Table.{emplace, key_less, key_less_asym}
use ocremote.Serialize.WellFormed.{Above, IsNormalKey, IsWritable, IsMap}
use ocremote.Serialize.Print.{escape, print_key, serialize, serialize_entries}
use ocremote.Serialize.Deserialize.{
  Frame, Run, running, thrown, after, ◌>>=◌, root, start, number, string, table, reduce, shift,
  feed, enter_start, bad_number,
}
use ocremote.Serialize.Deserialize.Chunks.{concat, after-nil, feed-eq-shift}

module _ (F : Doubles) where
  open F use {Double, print, stod, is_normal, print_no_at, stod-print}

  -- Goes on with the rest of the chunk.
  abbrev go_on : Run F → Text → Run F
  go_on r rest = ◌>>=◌ F r (λ st. shift F st rest)

  not_at : (c : ℕ) → c ≢ 64 → (c == 64) ≡ false
  not_at c h = ground arith

  -- Number::shift at the end mark.
  stod_result : Option Double → List (Frame F) → Run F
  stod_result o st = elim o [ none ↦ thrown bad_number [] | some x ↦ reduce F st (Value.num x) ]

  shift-digits :
      (buffer digits : Text) (st : List (Frame F)) (rest : Text)
      → All (λ c. c ≢ 64) digits
      → shift F (number buffer ∷ st) (digits ++ 64 ∷ rest)
        ≡ go_on (stod_result (stod (buffer ++ digits)) st) rest
  unfolding shift stod_result
  shift-digits buffer [] st rest h = rw (append-nil buffer)
  shift-digits buffer (c ∷ digits) st rest h = rw (not_at c h.0) (
      after-nil F _
      ∙ shift-digits (buffer ++ c ∷ []) digits st rest h.1
      ∙ ap (λ t. go_on (stod_result (stod t) st) rest) (append_assoc buffer (c ∷ []) digits))

  shift-escaped :
      (buffer s : Text) (st : List (Frame F)) (rest : Text)
      → shift F (string buffer false ∷ st) (escape s ++ 64 ∷ 126 ∷ rest)
        ≡ go_on (reduce F st (Value.str (buffer ++ s))) rest
  unfolding shift escape
  shift-escaped buffer [] st rest = rw (append-nil buffer) (after-nil F _)
  shift-escaped buffer (c ∷ s) st rest = elim (Bool-cases (c == 64)) [
    | inl at ↦ rw at (
        after-nil F _
        ∙ after-nil F _
        ∙ shift-escaped (buffer ++ 64 ∷ []) s st rest
        ∙ ap (λ t. go_on (reduce F st (Value.str t)) rest)
            (append_assoc buffer (64 ∷ []) s
              ∙ ap (λ (d : ℕ). buffer ++ d ∷ s) (sym ((==_iff c 64).0 at))))
    | inr other ↦
        rw (other, other)
          (after-nil F _
            ∙ shift-escaped (buffer ++ c ∷ []) s st rest
            ∙ ap (λ t. go_on (reduce F st (Value.str t)) rest) (append_assoc buffer (c ∷ []) s))
  ]

  shift-number :
      (x : Double) (st : List (Frame F)) (rest : Text)
      → is_normal x ≡ true
      → shift F (root ∷ st) ((35 ∷ print x ++ 64 ∷ []) ++ rest)
        ≡ go_on (reduce F st (Value.num x)) rest
  unfolding shift
  shift-number x st rest n =
      after-nil F _
      ∙ ap (shift F (number [] ∷ st)) (append_assoc (print x) (64 ∷ []) rest)
      ∙ shift-digits [] (print x) st rest (print_no_at x)
      ∙ ap (λ o. go_on (stod_result o st) rest) (stod-print x n)
      ∙ unfold stod_result in refl

  shift-string :
      (s : Text) (st : List (Frame F)) (rest : Text)
      → shift F (root ∷ st) ((64 ∷ escape s ++ 64 ∷ 126 ∷ []) ++ rest)
        ≡ go_on (reduce F st (Value.str s)) rest
  unfolding shift
  shift-string s st rest =
      after-nil F _
      ∙ ap (shift F (string [] false ∷ st)) (append_assoc (escape s) (64 ∷ 126 ∷ []) rest)
      ∙ shift-escaped [] s st rest

  shift-bool :
      (b : Bool) (st : List (Frame F)) (rest : Text)
      → shift F (root ∷ st) ((if b then 43 ∷ [] else 45 ∷ []) ++ rest)
        ≡ go_on (reduce F st (Value.bool b)) rest
  unfolding shift
  shift-bool true st rest = refl
  shift-bool false st rest = refl

  -- A key is read into the table that waits for one.
  shift-key :
      (t : Table Double) (k : Key Double) (st : List (Frame F)) (rest : Text)
      → IsNormalKey F k
      → shift F (root ∷ table t none ∷ st) (print_key F k ++ rest)
        ≡ shift F (root ∷ table t (some k) ∷ st) rest
  unfolding print_key reduce
  shift-key t (Key.num x) st rest n = shift-number x (table t none ∷ st) rest n ∙ after-nil F _
  shift-key t (Key.str s) st rest n = shift-string s (table t none ∷ st) rest ∙ after-nil F _
  shift-key t (Key.bool b) st rest n = shift-bool b (table t none ∷ st) rest ∙ after-nil F _

  append_table : Table Double → Table Double → Table Double
  append_table end u = u
  append_table (entry k v t) u = entry k v (append_table t u)

  append_table-end : (t : Table Double) → append_table t end ≡ t
  unfolding append_table
  append_table-end end = refl
  append_table-end (entry k v t) = ap (entry k v) (append_table-end t)

  append_table_assoc :
      (t u w : Table Double) → append_table (append_table t u) w ≡ append_table t (append_table u w)
  unfolding append_table
  append_table_assoc end u w = refl
  append_table_assoc (entry k v t) u w = ap (entry k v) (append_table_assoc t u w)

  Above-at :
      (j k : Key Double) (v : Value Double) (u t : Table Double)
      → Above F j (append_table u (entry k v t))
      → key_less F j k ≡ true
  unfolding append_table
  Above-at j k v end t (Above.entry h _) = h
  Above-at j k v (entry i w u) t (Above.entry _ h) = Above-at j k v u t h

  -- In a map the next key goes to the end.
  emplace-append :
      (k : Key Double) (v : Value Double) (u t : Table Double)
      → IsMap F (append_table u (entry k v t))
      → emplace F k v u ≡ append_table u (entry k v end)
  unfolding append_table emplace
  emplace-append k v end t m = refl
  emplace-append k v (entry j w u) t (IsMap.entry _ _ above m) =
      let below = Above-at j k v u t above in
      rw (key_less_asym F j k below, below) (ap (entry j w) (emplace-append k v u t m))

  shift-mark :
      (st : List (Frame F)) (rest : Text)
      → shift F (root ∷ st) (33 ∷ rest) ≡ go_on (reduce F st Value.nil) rest
  unfolding shift
  shift-mark st rest = refl

  shift-open :
      (st : List (Frame F)) (rest : Text)
      → shift F (root ∷ st) (61 ∷ rest) ≡ shift F (root ∷ table end none ∷ st) rest
  unfolding shift
  shift-open st rest = after-nil F _

  reassoc : (a b c d : Text) → (a ++ (b ++ c)) ++ d ≡ a ++ (b ++ (c ++ d))
  reassoc a b c d = append_assoc a (b ++ c) d ∙ ap (◌++◌ a) (append_assoc b c d)

  mutual
    unfolding serialize serialize_entries append_table reduce

    shift-serialize :
        (v : Value Double) (st : List (Frame F)) (rest : Text)
        → IsWritable F v
        → shift F (root ∷ st) (serialize F v ++ rest) ≡ go_on (reduce F st v) rest
    shift-serialize Value.nil st rest w = shift-mark st rest
    shift-serialize (Value.num x) st rest (IsWritable.num n) = shift-number x st rest n
    shift-serialize (Value.str s) st rest w = shift-string s st rest
    shift-serialize (Value.bool b) st rest w = shift-bool b st rest
    shift-serialize (Value.table t) st rest (IsWritable.table m) =
        shift-open st _
        ∙ ap (shift F (root ∷ table end none ∷ st))
            (append_assoc (serialize_entries F t) (33 ∷ []) rest)
        ∙ shift-entries t end st rest m m

    shift-entries :
        (t u : Table Double) (st : List (Frame F)) (rest : Text)
        → IsMap F t
        → IsMap F (append_table u t)
        → shift F (root ∷ table u none ∷ st) (serialize_entries F t ++ 33 ∷ rest)
          ≡ go_on (reduce F st (Value.table (append_table u t))) rest
    shift-entries end u st rest m n =
        shift-mark (table u none ∷ st) rest
        ∙ ap (λ w. go_on (reduce F st (Value.table w)) rest) (sym (append_table-end u))
    shift-entries (entry k v t) u st rest (IsMap.entry nk wv _ mt) n =
        let tail : Text = serialize_entries F t ++ 33 ∷ rest in
        ap (shift F (root ∷ table u none ∷ st))
          (reassoc (print_key F k) (serialize F v) (serialize_entries F t) (33 ∷ rest))
        ∙ shift-key u k st (serialize F v ++ tail) nk
        ∙ shift-serialize v (table u (some k) ∷ st) tail wv
        ∙ after-nil F _
        ∙ ap (λ w. shift F (root ∷ table w none ∷ st) tail) (emplace-append k v u t n)
        ∙ shift-entries t (append_table u (entry k v end)) st rest mt
            (rw (append_table_assoc u (entry k v end) t) n)
        ∙ ap (λ w. go_on (reduce F st (Value.table w)) rest)
            (append_table_assoc u (entry k v end) t)

  -- The values one after another, as they are written to a connection.
  abbrev pub serialize_all : List (Value Double) → Text
  serialize_all [] = []
  serialize_all (v ∷ vs) = serialize F v ++ serialize_all vs

  shift-serialize_all :
      (vs : List (Value Double))
      → All (IsWritable F) vs
      → shift F (enter_start F) (serialize_all vs) ≡ running (enter_start F) vs
  unfolding enter_start shift reduce
  shift-serialize_all [] h = refl
  shift-serialize_all (v ∷ vs) h =
      shift-serialize v (start ∷ []) (serialize_all vs) h.0
      ∙ ap (after F (v ∷ [])) (shift-serialize_all vs h.1)

  -- The values that were serialized one after another come back, the same and in the same order,
  -- however the network cuts the bytes into chunks, and the deserializer is ready for the next.
  -- The numbers in them are zeros or normal, and the tables have ascending keys, as a std::map has.
  pub feed-serialize_all :
      (vs : List (Value Double)) (chunk : Text) (chunks : List Text)
      → All (IsWritable F) vs
      → concat (chunk ∷ chunks) ≡ serialize_all vs
      → feed F (enter_start F) (chunk ∷ chunks) ≡ running (enter_start F) vs
  feed-serialize_all vs chunk chunks h e =
      feed-eq-shift F (enter_start F) chunk chunks
      ∙ ap (shift F (enter_start F)) e
      ∙ shift-serialize_all vs h
