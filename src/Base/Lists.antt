-- ===== src/Base/Lists.antt =====
-- Lists measured and indexed by native numbers, under the library's names.
use Prim.Native.Nat.{ℕ, zero, suc, ◌+◌, ◌-◌, ◌≤◌, ◌<◌, min}
use mathlib.Core.Path.{◌≡◌, refl, sym, ap, ◌∙◌}
use mathlib.Core.Logic.{◌≢◌}
use mathlib.Core.List.{List, [], ◌∷◌, ◌++◌, append_assoc}
use mathlib.Core.Option.{Option, none, some}
use native.Mathlib.Omega.{arith}
use native.Mathlib.Nat.{zero-add, suc-add}

module _ {ℓ} {A : Type ℓ} where
  abbrev pub length : List A → ℕ
  length [] = 0
  length (x ∷ xs) = suc (length xs)

  abbrev pub get_elem? : List A → ℕ → Option A
  get_elem? [] i = none
  get_elem? (x ∷ xs) zero = some x
  get_elem? (x ∷ xs) (suc i) = get_elem? xs i

  abbrev pub take : ℕ → List A → List A
  take zero xs = []
  take (suc n) [] = []
  take (suc n) (x ∷ xs) = x ∷ take n xs

  abbrev pub drop : ℕ → List A → List A
  drop zero xs = xs
  drop (suc n) [] = []
  drop (suc n) (x ∷ xs) = drop n xs

  abbrev pub replicate : ℕ → A → List A
  replicate zero a = []
  replicate (suc n) a = a ∷ replicate n a

  -- A block written over a list from an index on; what would stand past the end is dropped.
  abbrev pub splice : List A → ℕ → List A → List A
  splice xs i ys = take i xs ++ ys ++ drop (i + length ys) xs

  pub length-append : (xs ys : List A) → length (xs ++ ys) ≡ length xs + length ys
  length-append [] ys = omega arith
  length-append (x ∷ xs) ys = omega (arith, length-append xs ys)

  pub length-take : (n : ℕ) (xs : List A) → length (take n xs) ≡ min n (length xs)
  length-take zero xs = omega arith
  length-take (suc n) [] = omega arith
  length-take (suc n) (x ∷ xs) = omega (arith, length-take n xs)

  pub length-drop : (n : ℕ) (xs : List A) → length (drop n xs) ≡ length xs - n
  length-drop zero xs = omega arith
  length-drop (suc n) [] = omega arith
  length-drop (suc n) (x ∷ xs) = omega (arith, length-drop n xs)

  pub length-replicate : (n : ℕ) (a : A) → length (replicate n a) ≡ n
  length-replicate zero a = refl
  length-replicate (suc n) a = ap suc (length-replicate n a)

module _ {ℓ} {A : Type ℓ} where
  drop-nil : (n : ℕ) → drop {ℓ} {A = A} n [] ≡ []
  drop-nil zero = refl
  drop-nil (suc n) = refl

  pub drop-suc : (n : ℕ) (xs : List A) → drop n (drop 1 xs) ≡ drop (suc n) xs
  drop-suc n [] = drop-nil n
  drop-suc n (x ∷ xs) = refl

  pub drop-drop : (n m : ℕ) (xs : List A) → drop n (drop m xs) ≡ drop (m + n) xs
  drop-drop n zero xs = rw zero-add refl
  drop-drop n (suc m) [] = rw (drop-nil n) (sym (drop-nil (suc m + n)))
  drop-drop n (suc m) (x ∷ xs) = drop-drop n m xs ∙ rw (suc-add m n) refl

  pub take_all : (n : ℕ) (xs : List A) → length xs ≤ n → take n xs ≡ xs
  take_all zero [] h = refl
  take_all zero (x ∷ xs) h = absurd (omega arith)
  take_all (suc n) [] h = refl
  take_all (suc n) (x ∷ xs) h = ap (◌∷◌ x) (take_all n xs (omega arith))

  drop_all : (n : ℕ) (xs : List A) → length xs ≤ n → drop n xs ≡ []
  drop_all zero [] h = refl
  drop_all zero (x ∷ xs) h = absurd (omega arith)
  drop_all (suc n) [] h = refl
  drop_all (suc n) (x ∷ xs) h = drop_all n xs (omega arith)

  pub take-append-drop : (n : ℕ) (xs : List A) → take n xs ++ drop n xs ≡ xs
  take-append-drop zero xs = refl
  take-append-drop (suc n) [] = refl
  take-append-drop (suc n) (x ∷ xs) = ap (◌∷◌ x) (take-append-drop n xs)

  pub take-length-append : (xs ys : List A) → take (length xs) (xs ++ ys) ≡ xs
  take-length-append [] ys = refl
  take-length-append (x ∷ xs) ys = ap (◌∷◌ x) (take-length-append xs ys)

  pub drop-length-append : (xs ys : List A) → drop (length xs) (xs ++ ys) ≡ ys
  drop-length-append [] ys = refl
  drop-length-append (x ∷ xs) ys = drop-length-append xs ys

  pub drop-append : (n : ℕ) (xs ys : List A) → n ≤ length xs → drop n (xs ++ ys) ≡ drop n xs ++ ys
  drop-append zero xs ys h = refl
  drop-append (suc n) [] ys h = absurd (omega arith)
  drop-append (suc n) (x ∷ xs) ys h = drop-append n xs ys (omega arith)

  pub take-append : (n : ℕ) (xs ys : List A) → n ≤ length xs → take n (xs ++ ys) ≡ take n xs
  take-append zero xs ys h = refl
  take-append (suc n) [] ys h = absurd (omega arith)
  take-append (suc n) (x ∷ xs) ys h = ap (◌∷◌ x) (take-append n xs ys (omega arith))

  -- The entries to drop may be counted in another way.
  pub drop_congr : (n m : ℕ) (xs : List A) → n ≡ m → drop n xs ≡ drop m xs
  drop_congr n m xs e = ap (λ k. drop k xs) e

  pub take_congr : (n m : ℕ) (xs : List A) → n ≡ m → take n xs ≡ take m xs
  take_congr n m xs e = ap (λ k. take k xs) e

  -- A block that fits changes no length.
  pub length-splice :
      (xs : List A) (i : ℕ) (ys : List A)
      → i + length ys ≤ length xs
      → length (splice xs i ys) ≡ length xs
  length-splice xs i ys h = omega (
    arith,
    length-append (take i xs ++ ys) (drop (i + length ys) xs),
    length-append (take i xs) ys,
    length-take i xs,
    length-drop (i + length ys) xs,
  )

  pub length-splice-le : (xs ys : List A) → length xs ≤ length (splice xs 0 ys)
  length-splice-le xs ys =
      omega (arith, length-append ys (drop (0 + length ys) xs), length-drop (0 + length ys) xs)

  pub take-take : (n m : ℕ) (xs : List A) → take n (take m xs) ≡ take (min n m) xs
  take-take zero m xs = take_congr 0 (min 0 m) xs (omega arith)
  take-take (suc n) zero xs = take_congr 0 (min (suc n) 0) xs (omega arith)
  take-take (suc n) (suc m) [] = sym (take_all _ [] (omega arith))
  take-take (suc n) (suc m) (x ∷ xs) =
      ap (◌∷◌ x) (take-take n m xs) ∙ take_congr (suc (min n m)) _ (x ∷ xs) (omega arith)

  pub drop-take : (n m : ℕ) (xs : List A) → drop n (take m xs) ≡ take (m - n) (drop n xs)
  drop-take zero m xs = take_congr m _ xs (omega arith)
  drop-take (suc n) zero xs = take_congr 0 (0 - suc n) (drop (suc n) xs) (omega arith)
  drop-take (suc n) (suc m) [] = sym (take_all _ [] (omega arith))
  drop-take (suc n) (suc m) (x ∷ xs) =
      drop-take n m xs ∙ take_congr (m - n) _ (drop n xs) (omega arith)

  -- Taking more entries than there are is taking them all.
  pub take-min :
      (n m : ℕ) (xs : List A) → min n (length xs) ≡ min m (length xs) → take n xs ≡ take m xs
  take-min n m xs e =
      ap (take n) (sym (take_all (length xs) xs (omega arith)))
      ∙ take-take n (length xs) xs
      ∙ take_congr _ _ xs e
      ∙ sym (take-take m (length xs) xs)
      ∙ ap (take m) (take_all (length xs) xs (omega arith))

  pub length-zero : (xs : List A) → length xs ≡ 0 → xs ≡ []
  length-zero [] e = refl
  length-zero (x ∷ xs) e = absurd (omega arith)

  pub take_none : (n : ℕ) (xs : List A) → n ≡ 0 → take n xs ≡ []
  take_none zero xs e = refl
  take_none (suc n) xs e = absurd (omega arith)

  drop_past : (n : ℕ) (xs ys : List A) → length xs ≤ n → drop n (xs ++ ys) ≡ drop (n - length xs) ys
  drop_past n [] ys h = drop_congr n _ ys (omega arith)
  drop_past zero (x ∷ xs) ys h = absurd (omega arith)
  drop_past (suc n) (x ∷ xs) ys h =
      drop_past n xs ys (omega arith) ∙ drop_congr _ _ ys (omega arith)

  -- A window that ends before a written block, or starts after it, shows what it showed.
  pub window_before :
      (xs : List A) (i : ℕ) (ys : List A) (a n : ℕ)
      → a + n ≤ i
      → i ≤ length xs
      → take n (drop a (splice xs i ys)) ≡ take n (drop a xs)
  window_before xs i ys a n h k =
      let rest : List A = ys ++ drop (i + length ys) xs in
      ap (λ t. take n (drop a t)) (append_assoc (take i xs) ys (drop (i + length ys) xs))
      ∙ ap (take n) (drop-append a (take i xs) rest (omega (arith, length-take i xs)))
      ∙ take-append n (drop a (take i xs)) rest
          (omega (arith, length-take i xs, length-drop a (take i xs)))
      ∙ ap (take n) (drop-take a i xs)
      ∙ take-take n (i - a) (drop a xs)
      ∙ take_congr _ n (drop a xs) (omega arith)

  pub window_after :
      (xs : List A) (i : ℕ) (ys : List A) (a n : ℕ)
      → i + length ys ≤ a
      → i ≤ length xs
      → take n (drop a (splice xs i ys)) ≡ take n (drop a xs)
  window_after xs i ys a n h k =
      let len : length (take i xs ++ ys) ≡ i + length ys =
        omega (arith, length-take i xs, length-append (take i xs) ys) in
      ap (take n) (
        drop_past a (take i xs ++ ys) (drop (i + length ys) xs) (omega arith)
        ∙ drop-drop _ (i + length ys) xs
        ∙ drop_congr _ a xs (omega arith))

  -- What a block shows at its own place.
  pub window_at :
      (xs : List A) (i : ℕ) (ys : List A)
      → i ≤ length xs
      → drop i (splice xs i ys) ≡ ys ++ drop (i + length ys) xs
  window_at xs i ys k =
      ap (drop i) (append_assoc (take i xs) ys (drop (i + length ys) xs))
      ∙ drop_past i (take i xs) _ (omega (arith, length-take i xs))
      ∙ drop_congr (i - length (take i xs)) 0 _ (omega (arith, length-take i xs))

  -- A write out of bounds changes nothing.
  abbrev pub set : List A → ℕ → A → List A
  set [] i v = []
  set (x ∷ xs) zero v = v ∷ xs
  set (x ∷ xs) (suc i) v = x ∷ set xs i v

  pub length-set : (xs : List A) (i : ℕ) (v : A) → length (set xs i v) ≡ length xs
  length-set [] i v = refl
  length-set (x ∷ xs) zero v = refl
  length-set (x ∷ xs) (suc i) v = ap suc (length-set xs i v)

  pub get_elem?-set_self :
      (xs : List A) (i : ℕ) (v : A) → i < length xs → get_elem? (set xs i v) i ≡ some v
  get_elem?-set_self [] i v h = elim h [ ]
  get_elem?-set_self (x ∷ xs) zero v h = refl
  get_elem?-set_self (x ∷ xs) (suc i) v h = get_elem?-set_self xs i v (omega arith)

  pub get_elem?-set_ne :
      (xs : List A) (i j : ℕ) (v : A) → i ≢ j → get_elem? (set xs i v) j ≡ get_elem? xs j
  get_elem?-set_ne [] i j v h = refl
  get_elem?-set_ne (x ∷ xs) zero zero v h = absurd (h refl)
  get_elem?-set_ne (x ∷ xs) zero (suc j) v h = refl
  get_elem?-set_ne (x ∷ xs) (suc i) zero v h = refl
  get_elem?-set_ne (x ∷ xs) (suc i) (suc j) v h = get_elem?-set_ne xs i j v (λ e. h (ap suc e))

  pub get_elem?-append :
      (xs ys : List A) (i : ℕ) → i < length xs → get_elem? (xs ++ ys) i ≡ get_elem? xs i
  get_elem?-append [] ys i h = elim h [ ]
  get_elem?-append (x ∷ xs) ys zero h = refl
  get_elem?-append (x ∷ xs) ys (suc i) h = get_elem?-append xs ys i (omega arith)

  pub get_elem?-end : (xs : List A) (v : A) → get_elem? (xs ++ v ∷ []) (length xs) ≡ some v
  get_elem?-end [] v = refl
  get_elem?-end (x ∷ xs) v = get_elem?-end xs v

  pub get_elem?-lt : (xs : List A) (i : ℕ) {v : A} → get_elem? xs i ≡ some v → i < length xs
  get_elem?-lt [] i e = cc
  get_elem?-lt (x ∷ xs) zero e = omega arith
  get_elem?-lt (x ∷ xs) (suc i) e = omega (arith, get_elem?-lt xs i e)
