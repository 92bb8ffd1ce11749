-- ===== src/Tests/Library.antt =====
-- Concrete instances of the parameters: a bounded queue of bytes, the text functions, numbers
-- without a fraction, and two file systems.
use ftserver.Tcp.Circular.{CircularBuffer}
use ftserver.Protocol.Boost.{BoostText, is_space, to_lower, NoneOf, AllOf, FirstNot, LastNot}
use ftserver.Protocol.{Floats}
use ftserver.Writer.{FileSystem}
use ftserver.Base.{
  ℕ, zero, suc, ◌-◌, ◌≤◌, ◌≡◌, refl, ap, sym, ◌∙◌, Bool, true, false, ◌&&◌, Option, none, some,
  List, [], ◌∷◌, ◌++◌, map, append-nil, length-append, Text, codes, text_eq, text_eq_iff,
  if◌then◌else◌, length, drop, length-drop, arith, ◌≢◌, Bool-cases, inl, inr, if_false,
}

abbrev pub Bounded : Type 0
Bounded = Text × ℕ

-- The last bytes of the text, as many as there is room for.
abbrev pub shown : Bounded → Text
shown (xs, n) = drop (length xs - n) xs

pub drop_zero : (k : ℕ) (xs : Text) → k ≡ 0 → drop k xs ≡ xs
drop_zero k xs e = rw e refl

pub shown-fits : (xs : Text) (n : ℕ) → length xs ≤ n → shown (xs, n) ≡ xs
shown-fits xs n h = drop_zero _ xs (omega (arith, h))

pub length-shown : (q : Bounded) → length (shown q) ≤ q.1
length-shown (xs, n) = omega (arith, length-drop {0} (length xs - n) xs)

pub full_push :
    (xs : Text) (n c : ℕ)
    → length xs ≤ n
    → n ≤ length xs
    → shown (xs ++ c ∷ [], n) ≡ drop 1 (xs ++ c ∷ [])
full_push xs n c h k =
    let e : length (xs ++ c ∷ []) - n ≡ 1 = omega (arith, length-append {0} xs (c ∷ [])) in
    ap (λ m. drop m (xs ++ c ∷ [])) e

pub drop_nil : (k : ℕ) → drop {A = ℕ} k [] ≡ []
drop_nil zero = refl
drop_nil (suc k) = refl

abbrev pub bounded_queue : CircularBuffer
bounded_queue = record {
  Buf = Bounded;
  items = shown;
  capacity = λ q. q.1;
  push_back = λ q c. (shown q ++ c ∷ [], q.1);
  erase_begin = λ q n. (drop n (shown q), q.1);
  set_capacity = λ q n. (shown q, n);
  clear = λ q. ([], q.1);
  empty = ([], 0);
  length-items-le = length-shown;
  items-push_back = λ q c h. shown-fits _ _ (omega (arith, length-append {0} (shown q) (c ∷ [])));
  items-push_back_full = λ q c h. full_push (shown q) q.1 c (length-shown q) h;
  capacity-push_back = λ q c. refl;
  items-erase_begin =
      λ q n h. shown-fits _ _ (omega (arith, length-shown q, length-drop {0} n (shown q)));
  capacity-erase_begin = λ q n. refl;
  items-set_capacity = λ q n h. shown-fits _ _ h;
  capacity-set_capacity = λ q n. refl;
  items-clear = λ q. drop_nil (0 - q.1);
  capacity-clear = λ q. refl;
  items-empty = refl;
  capacity-empty = refl;
}

abbrev pub cons_head : ℕ → List Text → List Text
cons_head c [] = (c ∷ []) ∷ []
cons_head c (t ∷ ts) = (c ∷ t) ∷ ts

-- split, with whether the byte before was a separator.
unfoldable pub split_from : (ℕ → Bool) → Bool → Text → List Text
split_from p prev [] = [] ∷ []
split_from p prev (c ∷ cs) =
    let after = split_from p true cs in
    let within = split_from p false cs in
    if p c then (if prev then after else [] ∷ after) else cons_head c within

pub split_from-one :
    (p : ℕ → Bool) (prev : Bool) (xs : Text) → NoneOf p xs → split_from p prev xs ≡ xs ∷ []
unfolding split_from
split_from-one p prev [] h = refl
split_from-one p prev (c ∷ cs) h = rw (h.0, split_from-one p false cs h.1) refl

pub split_from-first :
    (p : ℕ → Bool) (ys : Text) → FirstNot p ys → split_from p true ys ≡ split_from p false ys
unfolding split_from
split_from-first p [] h = refl
split_from-first p (y ∷ ys) h = rw h refl

pub split_from-separator :
    (p : ℕ → Bool) (xs : Text) (s : ℕ) (ys : Text)
    → NoneOf p xs
    → p s ≡ true
    → FirstNot p ys
    → split_from p false (xs ++ s ∷ ys) ≡ xs ∷ split_from p false ys
unfolding split_from
split_from-separator p [] s ys h e f = rw e (ap (λ t. [] ∷ t) (split_from-first p ys f))
split_from-separator p (x ∷ xs) s ys h e f = rw (h.0, split_from-separator p xs s ys h.1 e f) refl

abbrev pub is_empty : Text → Bool
is_empty [] = true
is_empty (_ ∷ _) = false

unfoldable pub trim_end : (ℕ → Bool) → Text → Text
trim_end p [] = []
trim_end p (c ∷ cs) = let r = trim_end p cs in if p c && is_empty r then [] else c ∷ r

unfoldable pub trim_start : (ℕ → Bool) → Text → Text
trim_start p [] = []
trim_start p (c ∷ cs) = let r = trim_start p cs in if p c then r else c ∷ cs

pub trim_end-all : (p : ℕ → Bool) (ys : Text) → AllOf p ys → trim_end p ys ≡ []
unfolding trim_end
trim_end-all p [] h = refl
trim_end-all p (y ∷ ys) h = rw (trim_end-all p ys h.1, h.0) refl

pub kept_head : (q : Bool) (r : Text) → (if q && false then [] else r) ≡ r
kept_head true r = refl
kept_head false r = refl

pub trim_end-append :
    (p : ℕ → Bool) (xs ys : Text) → LastNot p xs → AllOf p ys → trim_end p (xs ++ ys) ≡ xs
unfolding trim_end
trim_end-append p [] ys l h = trim_end-all p ys h
trim_end-append p (x ∷ []) ys l h = rw (trim_end-all p ys h, l) refl
trim_end-append p (x ∷ y ∷ xs) ys l h =
    ap (λ (r : Text). if p x && is_empty r then [] else x ∷ r) (trim_end-append p (y ∷ xs) ys l h)
    ∙ kept_head (p x) (x ∷ y ∷ xs)

pub trim_start-id : (p : ℕ → Bool) (xs : Text) → FirstNot p xs → trim_start p xs ≡ xs
unfolding trim_start
trim_start-id p [] h = refl
trim_start-id p (x ∷ xs) h = rw h refl

pub trim_end-id : (p : ℕ → Bool) (xs : Text) → LastNot p xs → trim_end p xs ≡ xs
trim_end-id p xs l = ap (trim_end p) (sym (append-nil xs)) ∙ trim_end-append p xs [] l tt

abbrev pub texts : BoostText
texts = record {
  split = λ p. split_from p false;
  trim = λ xs. trim_start is_space (trim_end is_space xs);
  trim_right_if = trim_end;
  iequals = λ a c. text_eq (map to_lower a) (map to_lower c);
  format_kv = λ k v. k ++ b'=' ∷ (v ++ b',' ∷ []);
  split-one = λ p xs h. split_from-one p false xs h;
  split-separator = split_from-separator;
  trim_inner =
      λ xs f l. ap (trim_start is_space) (trim_end-id is_space xs l) ∙ trim_start-id is_space xs f;
  trim_right_if-append = trim_end-append;
  iequals_iff = λ a c. text_eq_iff (map to_lower a) (map to_lower c);
  format_kv_lem = λ k v. refl;
}

abbrev pub whole_numbers : Floats
whole_numbers = record { Float = ℕ; flt_min = 0; atof = length; show = λ n. codes "1" }

-- The files that are kept, the last written first; every directory is there.
abbrev pub read_kept : List (Text × Text) → Text → Option Text
read_kept [] p = none
read_kept ((q, t) ∷ d) p = if text_eq p q then some t else read_kept d p

read_kept_self : (p t : Text) (d : List (Text × Text)) → read_kept ((p, t) ∷ d) p ≡ some t
read_kept_self p t d = rw ((text_eq_iff p p).1 refl) refl

read_kept_ne :
    (p q t : Text) (d : List (Text × Text)) → p ≢ q → read_kept ((p, t) ∷ d) q ≡ read_kept d q
read_kept_ne p q t d h = elim (Bool-cases (text_eq q p)) [
  | inl same ↦ absurd (h (sym ((text_eq_iff q p).0 same)))
  | inr other ↦ if_false _ _ other
]

abbrev pub write_kept : Bool → List (Text × Text) → Text → Text → Option (List (Text × Text))
write_kept true d p t = some ((p, t) ∷ d)
write_kept false d p t = none

pub read-write_kept :
    (writable : Bool) (d d' : List (Text × Text)) (p t : Text)
    → write_kept writable d p t ≡ some d'
    → read_kept d' p ≡ some t
read-write_kept true d d' p t e =
    let same : ((p, t) ∷ d) ≡ d' = cc in ap (λ x. read_kept x p) (sym same) ∙ read_kept_self p t d
read-write_kept false d d' p t e = cc

pub read-write_kept_ne :
    (writable : Bool) (d d' : List (Text × Text)) (p q t : Text)
    → p ≢ q
    → write_kept writable d p t ≡ some d'
    → read_kept d' q ≡ read_kept d q
read-write_kept_ne true d d' p q t h e =
    let same : ((p, t) ∷ d) ≡ d' = cc in ap (λ x. read_kept x q) (sym same) ∙ read_kept_ne p q t d h
read-write_kept_ne false d d' p q t h e = cc

-- Whether writes succeed is given.
abbrev pub disk_with : Bool → FileSystem
disk_with writable = record {
  Disk = List (Text × Text);
  join = λ p q. p ++ codes "/" ++ q;
  is_directory = λ d p. true;
  create_directory = λ d p. some (true, d);
  write_file = write_kept writable;
  read_file = read_kept;
  read-write = read-write_kept writable;
  read-write_ne = read-write_kept_ne writable;
  read-create_directory =
      λ d d' p q b e. let same : d ≡ d' = cc in ap (λ x. read_kept x q) (sym same);
}
