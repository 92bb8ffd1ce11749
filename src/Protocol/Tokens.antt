-- ===== src/Protocol/Tokens.antt =====
-- The generic part of the round trip: a list of keyword=value pairs as the Compact functions print
-- it, and what Resolve makes of that text.
use ftserver.Protocol.Boost.{BoostText, is_space, is_punct, NoneOf, FirstNot, LastNot}
use ftserver.Protocol.{
  Floats, join_kv, resolve_kv, walk, resolve, dispatch, type_of, after_type, tokens_of, nonempty,
  first_two, skip_blanks,
}
use ftserver.Base.{
  ℕ, ◌≡◌, ◌≢◌, refl, sym, ap, subst, ◌∙◌, Bool, false, ◌||◌, List, [], ◌∷◌, ◌++◌, map, Text, ◌==◌,
  if◌then◌else◌, append_assoc, arith, c_str,
}

abbrev pub Field : Type 0
Field = Text × Text

abbrev comma : ℕ → Bool
comma c = c == b','

abbrev equals : ℕ → Bool
equals c = c == b'='

abbrev pub trimmed : ℕ → Bool
trimmed c = is_punct c || is_space c

abbrev blank : ℕ → Bool
blank c = c == b' '

abbrev nul : ℕ → Bool
nul c = c == 0

-- A keyword or value that the format can carry: no separator and no NUL, no space at its ends.
pub record IsClean (t : Text) : Type 0 where
  pub no_comma : NoneOf comma t
  pub no_equals : NoneOf equals t
  pub no_nul : NoneOf nul t
  pub front : FirstNot is_space t
  pub back : LastNot is_space t

abbrev pub IsKeyword : Text → Type 0
IsKeyword [] = ⊥
IsKeyword (c ∷ t) = (c == b' ' ≡ false) × IsClean (c ∷ t)

abbrev pub AreFields : List Field → Type 0
AreFields [] = Unit {0}
AreFields ((k, v) ∷ fs) = IsKeyword k × IsClean v × AreFields fs

abbrev pub pair_text : Field → Text
pair_text (k, v) = k ++ b'=' ∷ v

-- The pairs with commas between them.
abbrev pub joined : Field → List Field → Text
joined f [] = pair_text f
joined f (g ∷ gs) = pair_text f ++ b',' ∷ joined g gs

NoneOf-append : (p : ℕ → Bool) (xs ys : Text) → NoneOf p xs → NoneOf p ys → NoneOf p (xs ++ ys)
NoneOf-append p [] ys h k = k
NoneOf-append p (x ∷ xs) ys h k = (h.0, NoneOf-append p xs ys h.1 k)

LastNot-append :
    (p : ℕ → Bool) (xs : Text) (y : ℕ) (ys : Text) → LastNot p (y ∷ ys) → LastNot p (xs ++ y ∷ ys)
LastNot-append p [] y ys h = h
LastNot-append p (x ∷ []) y ys h = h
LastNot-append p (x ∷ z ∷ xs) y ys h = LastNot-append p (z ∷ xs) y ys h

NoneOf-FirstNot : (p : ℕ → Bool) (xs : Text) → NoneOf p xs → FirstNot p xs
NoneOf-FirstNot p [] h = tt
NoneOf-FirstNot p (x ∷ xs) h = h.0

pair_no_comma : (k v : Text) → IsKeyword k → IsClean v → NoneOf comma (k ++ b'=' ∷ v)
pair_no_comma [] v h c = absurd h
pair_no_comma (x ∷ k) v h c =
    NoneOf-append comma (x ∷ k) (b'=' ∷ v) (h.1).no_comma (refl, c.no_comma)

joined_no_nul : (f : Field) (fs : List Field) → AreFields (f ∷ fs) → NoneOf nul (joined f fs)
joined_no_nul ([], v) fs h = absurd h.0
joined_no_nul (c ∷ k, v) [] h =
    NoneOf-append nul (c ∷ k) (b'=' ∷ v) (h.0.1).no_nul (refl, (h.1).no_nul)
joined_no_nul (c ∷ k, v) (g ∷ gs) h =
    NoneOf-append nul (pair_text (c ∷ k, v)) (b',' ∷ joined g gs)
      (NoneOf-append nul (c ∷ k) (b'=' ∷ v) (h.0.1).no_nul (refl, (h.1).no_nul))
      (refl, joined_no_nul g gs h.2)

c_str-none : (t : Text) → NoneOf nul t → c_str t ≡ t
c_str-none [] h = refl
c_str-none (c ∷ t) h = ground (arith, h.0, c_str-none t h.1)

-- The last byte of the printed pairs.
abbrev pub EndsWell : (ℕ → Bool) → Field → List Field → Type 0
EndsWell p (k, v) [] = (v ≢ []) × LastNot p v
EndsWell p f (g ∷ gs) = EndsWell p g gs

joined-cons :
    (f : Field) (fs : List Field)
    → AreFields (f ∷ fs)
    → (c : ℕ) × (t : Text) × (joined f fs ≡ c ∷ t) × (c == b' ' ≡ false) × (comma c ≡ false)
joined-cons ([], v) fs h = absurd h.0
joined-cons (x ∷ k, v) [] h = (x, k ++ b'=' ∷ v, refl, h.0.0, (h.0.1).no_comma.0)
joined-cons (x ∷ k, v) (g ∷ gs) h =
    (x, (k ++ b'=' ∷ v) ++ b',' ∷ joined g gs, refl, h.0.0, (h.0.1).no_comma.0)

append-nonempty : (xs : Text) (y : ℕ) (ys : Text) → (c : ℕ) × (t : Text) × (xs ++ y ∷ ys ≡ c ∷ t)
append-nonempty [] y ys = (y, ys, refl)
append-nonempty (x ∷ xs) y ys = (x, xs ++ y ∷ ys, refl)

joined-nonempty : (f : Field) (fs : List Field) → (c : ℕ) × (t : Text) × (joined f fs ≡ c ∷ t)
joined-nonempty (k, v) [] = append-nonempty k b'=' v
joined-nonempty f (g ∷ gs) = append-nonempty (pair_text f) b',' (joined g gs)

LastNot-cons : (p : ℕ → Bool) (y : ℕ) (ys : Text) → ys ≢ [] → LastNot p ys → LastNot p (y ∷ ys)
LastNot-cons p y [] ne h = absurd (ne refl)
LastNot-cons p y (z ∷ ys) ne h = h

joined-LastNot :
    (p : ℕ → Bool) (f : Field) (fs : List Field) → EndsWell p f fs → LastNot p (joined f fs)
joined-LastNot p (k, v) [] h = LastNot-append p k b'=' v (LastNot-cons p b'=' v h.0 h.1)
joined-LastNot p f (g ∷ gs) h =
    let (c, t, e) = joined-nonempty g gs in
    LastNot-append p (pair_text f) b',' (joined g gs)
      (LastNot-cons p b',' (joined g gs) (λ d. cc) (joined-LastNot p g gs h))

module _ (fl : Floats) (b : BoostText) where
  open b use {
    split, trim, trim_right_if, iequals, format_kv, split-one, split-separator, trim_inner,
    trim_right_if-append, format_kv_lem,
  }

  -- What a Compact function appends, pair by pair.
  abbrev pub joins : Text → Field → List Field → Text
  joins output (k, v) [] = join_kv fl b output k v
  joins output (k, v) (g ∷ gs) = joins (join_kv fl b output k v) g gs

  joins-joined :
      (output : Text) (f : Field) (fs : List Field)
      → joins output f fs ≡ output ++ (joined f fs ++ b',' ∷ [])
  joins-joined output (k, v) [] =
      rw (format_kv_lem k v) (ap (◌++◌ output) (sym (append_assoc k (b'=' ∷ v) (b',' ∷ []))))
  joins-joined output (k, v) (g ∷ gs) =
      joins-joined (join_kv fl b output k v) g gs ∙ rw (format_kv_lem k v) (simp append_assoc)

  -- Trimming takes away the comma behind the last pair and nothing else.
  pub trim_right_if-joins :
      (output : Text) (f : Field) (fs : List Field)
      → EndsWell trimmed f fs
      → trim_right_if trimmed (joins output f fs) ≡ output ++ joined f fs
  trim_right_if-joins output f fs h =
      let (c, t, e) = joined-nonempty f fs in
      ap (trim_right_if trimmed)
        (joins-joined output f fs ∙ sym (append_assoc output (joined f fs) (b',' ∷ [])))
      ∙ trim_right_if-append _ (output ++ joined f fs) (b',' ∷ [])
          (subst (λ j. LastNot trimmed (output ++ j)) (sym e)
            (LastNot-append trimmed output c t
              (subst (LastNot trimmed) e (joined-LastNot trimmed f fs h))))
          (refl, tt)

  split-joined :
      (f : Field) (fs : List Field)
      → AreFields (f ∷ fs)
      → split comma (joined f fs) ≡ map pair_text (f ∷ fs)
  split-joined (k, v) [] h = split-one comma _ (pair_no_comma k v h.0 h.1)
  split-joined (k, v) (g ∷ gs) h =
      let (c, t, e, _, n) = joined-cons g gs h.2 in
      split-separator comma (k ++ b'=' ∷ v) b',' (joined g gs) (pair_no_comma k v h.0 h.1) refl
        (rw e n)
      ∙ ap (◌∷◌ (k ++ b'=' ∷ v)) (split-joined g gs h.2)

  split_pair :
      (k v : Text) → NoneOf equals k → NoneOf equals v → split equals (k ++ b'=' ∷ v) ≡ k ∷ v ∷ []
  split_pair k v h c =
      split-separator equals k b'=' v h refl (NoneOf-FirstNot equals v c)
      ∙ ap (◌∷◌ k) (split-one equals v c)

  resolve_kv-pair :
      (k v : Text)
      → IsKeyword k
      → IsClean v
      → resolve_kv fl b (pair_text (k, v)) ≡ (nonempty v, k, v)
  unfolding resolve_kv first_two
  resolve_kv-pair [] v h c = absurd h
  resolve_kv-pair (x ∷ k) v h c = rw (
    split_pair (x ∷ k) v (h.1).no_equals c.no_equals,
    trim_inner (x ∷ k) (h.1).front (h.1).back,
    trim_inner v c.front c.back,
  )

  -- The fold that a walk over printed pairs amounts to: a pair with an empty value is passed over.
  abbrev pub assign {ℓ} : {P : Type ℓ} → (Text → Text → P → P) → List Field → P → P
  assign key [] p = p
  assign key ((k, v) ∷ fs) p = assign key fs (if nonempty v then key k v p else p)

  walk-assign {ℓ} :
      {P : Type ℓ} (key : Text → Text → P → P) (fs : List Field) (p : P)
      → AreFields fs
      → walk fl b key (map pair_text fs) p ≡ assign key fs p
  unfolding walk
  walk-assign key [] p h = refl
  walk-assign key ((k, v) ∷ fs) p h =
      ap
        (λ (r : Bool × Text × Text).
          walk fl b key (map pair_text fs) (if r.0 then key r.1 r.2 p else p))
        (resolve_kv-pair k v h.0 h.1)
      ∙ walk-assign key fs (if nonempty v then key k v p else p) h.2

  -- A walk over the tokens of printed pairs.
  pub walk-tokens {ℓ} :
      {P : Type ℓ} (key : Text → Text → P → P) (f : Field) (fs : List Field) (p : P)
      → AreFields (f ∷ fs)
      → walk fl b key (tokens_of fl b (joined f fs)) p ≡ assign key (f ∷ fs) p
  walk-tokens key f fs p h =
      let (c, t, e) = joined-nonempty f fs in
      ap (λ ts. walk fl b key ts p)
        (ap (tokens_of fl b) e ∙ ap (split comma) (sym e) ∙ split-joined f fs h)
      ∙ walk-assign key (f ∷ fs) p h

  type_of-append : (t rest : Text) → NoneOf blank t → type_of fl b (t ++ b' ' ∷ rest) ≡ t
  unfolding type_of
  type_of-append [] rest h = refl
  type_of-append (c ∷ t) rest h = ground (arith, h.0, type_of-append t rest h.1)

  after_type-append :
      (t : Text) (c : ℕ) (rest : Text)
      → NoneOf blank t
      → (c == b' ') ≡ false
      → after_type fl b (t ++ b' ' ∷ c ∷ rest) ≡ c ∷ rest
  unfolding after_type skip_blanks
  after_type-append [] c rest h n = ground arith
  after_type-append (d ∷ t) c rest h n = ground (arith, after_type-append t c rest h.1 n)

  -- Resolve of a type, a space and printed pairs.
  pub resolve-joined :
      (t : Text) (f : Field) (fs : List Field)
      → NoneOf blank t
      → NoneOf nul t
      → AreFields (f ∷ fs)
      → resolve fl b (t ++ b' ' ∷ joined f fs) ≡ dispatch fl b t (tokens_of fl b (joined f fs))
  unfolding resolve
  resolve-joined t f fs h z k =
      let (c, u, e, n, _) = joined-cons f fs k in
      ap (λ x. dispatch fl b (type_of fl b x) (tokens_of fl b (after_type fl b x)))
        (c_str-none (t ++ b' ' ∷ joined f fs)
          (NoneOf-append nul t (b' ' ∷ joined f fs) z (refl, joined_no_nul f fs k)))
      ∙ ap (λ ty. dispatch fl b ty (tokens_of fl b (after_type fl b (t ++ b' ' ∷ joined f fs))))
          (type_of-append t (joined f fs) h)
      ∙ ap (λ s. dispatch fl b t (tokens_of fl b s))
          (ap (λ j. after_type fl b (t ++ b' ' ∷ j)) e ∙ after_type-append t c u h n ∙ sym e)
