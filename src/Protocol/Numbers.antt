-- ===== src/Protocol/Numbers.antt =====
-- How the protocol prints an `int` (operator<<, through boost::format) and reads one (atoi).
use ftserver.Protocol.Boost.{is_space}
use ftserver.Base.{
  ℕ, zero, suc, ◌+◌, ◌-◌, ◌*◌, ◌/◌, ◌%◌, ◌^◌, ◌≤◌, ◌<◌, ◌≡◌, refl, sym, ap, ◌∙◌, Bool, true, false,
  ◌&&◌, [], ◌∷◌, ◌++◌, arith, Text, ltb, leb, ◌==◌, Bool-cases, if◌then◌else◌, if_false,
  append_assoc, append-nil, subst, ℤ, pos, negsuc, inl, inr, min, ltb→lt,
}

abbrev pub int_max : ℕ
int_max = 2 ^ 31

-- The value of a 32-bit `int` with the given bits.
abbrev pub of_bits : ℕ → ℤ
of_bits b = if ltb b int_max then pos b else negsuc (2 ^ 32 - 1 - b)

-- The cast from `long` to `int`.
abbrev pub to_int32 : ℤ → ℤ
to_int32 (pos n) = of_bits (n % 2 ^ 32)
to_int32 (negsuc n) = of_bits (2 ^ 32 - 1 - n % 2 ^ 32)

-- The decimal digits of n; more fuel than n is enough.
unfoldable pub decimal : ℕ → ℕ → Text
decimal zero n = []
decimal (suc fuel) n =
    let upper = decimal fuel (n / 10) in (if ltb n 10 then [] else upper) ++ (48 + n % 10) ∷ []

unfoldable pub show_int : ℤ → Text
show_int (pos n) = decimal (suc n) n
show_int (negsuc n) = b'-' ∷ decimal (suc (suc n)) (suc n)

abbrev pub is_digit : ℕ → Bool
is_digit c = leb 48 c && leb c 57

abbrev pub read_digits : ℕ → Text → ℕ
read_digits acc [] = acc
read_digits acc (c ∷ cs) = elim (is_digit c) [
  | true ↦ read_digits (acc * 10 + (c - 48)) cs
  | false ↦ acc
]

abbrev pub skip_space : Text → Text
skip_space [] = []
skip_space (c ∷ cs) = elim (is_space c) [ true ↦ skip_space cs | false ↦ c ∷ cs ]

-- strtol in base 10, which keeps to the range of a 64-bit `long`.
unfoldable pub read_signed : Text → ℤ
read_signed [] = pos 0
read_signed (c ∷ cs) =
    if c == b'-'
    then (if read_digits 0 cs == 0 then pos 0 else negsuc (min (read_digits 0 cs) (2 ^ 63) - 1))
    else if c == b'+'
    then pos (min (read_digits 0 cs) (2 ^ 63 - 1))
    else pos (min (read_digits 0 (c ∷ cs)) (2 ^ 63 - 1))

unfoldable pub atoi : Text → ℤ
atoi s = to_int32 (read_signed (skip_space s))

read_digits-digit :
    (acc d : ℕ) (rest : Text)
    → d < 10
    → read_digits acc ((48 + d) ∷ rest) ≡ read_digits (acc * 10 + d) rest
read_digits-digit acc d rest h = ground arith

-- Reading the digits of n leaves n as the value read so far.
read_digits-decimal :
    (fuel n : ℕ) (rest : Text)
    → n < fuel
    → read_digits 0 (decimal fuel n ++ rest) ≡ read_digits n rest
unfolding decimal
read_digits-decimal zero n rest h = elim h [ ]
read_digits-decimal (suc fuel) n rest h = elim (Bool-cases (ltb n 10)) [
  | inl small ↦ rw small (
      read_digits-digit 0 (n % 10) rest (omega arith)
      ∙ ap (λ k. read_digits k rest) (omega (arith, ltb→lt n 10 small)))
  | inr large ↦
      rw (large, append_assoc)
        (read_digits-decimal fuel (n / 10) ((48 + n % 10) ∷ rest) (ground arith)
          ∙ read_digits-digit (n / 10) (n % 10) rest (omega arith)
          ∙ ap (λ k. read_digits k rest) (omega arith))
]

-- All bytes of a decimal are digits, and there is one at least.
abbrev pub Digits : Text → Type 0
Digits [] = Unit {0}
Digits (c ∷ cs) = (48 ≤ c) × (c ≤ 57) × Digits cs

Digits-append : (xs ys : Text) → Digits xs → Digits ys → Digits (xs ++ ys)
Digits-append [] ys h k = k
Digits-append (x ∷ xs) ys h k = (h.0, h.1, Digits-append xs ys h.2 k)

pub decimal-Digits : (fuel n : ℕ) → Digits (decimal fuel n)
unfolding decimal
decimal-Digits zero n = tt
decimal-Digits (suc fuel) n = elim (Bool-cases (ltb n 10)) [
  | inl small ↦ rw small (omega arith, omega arith, tt)
  | inr large ↦ rw large (
      Digits-append (decimal fuel (n / 10)) _ (decimal-Digits fuel (n / 10))
        (omega arith, omega arith, tt))
]

head_of : (xs : Text) (c : ℕ) → (d : ℕ) × (ds : Text) × (xs ++ c ∷ [] ≡ d ∷ ds)
head_of [] c = (c, [], refl)
head_of (x ∷ xs) c = (x, xs ++ c ∷ [], refl)

pub decimal-cons : (fuel n : ℕ) → n < fuel → (d : ℕ) × (ds : Text) × (decimal fuel n ≡ d ∷ ds)
unfolding decimal
decimal-cons zero n h = elim h [ ]
decimal-cons (suc fuel) n h = head_of _ _

read_digits-decimal_all : (fuel n : ℕ) → n < fuel → read_digits 0 (decimal fuel n) ≡ n
read_digits-decimal_all fuel n h =
    ap (read_digits 0) (sym (append-nil (decimal fuel n))) ∙ read_digits-decimal fuel n [] h

small_pos : (v : ℕ) → v < int_max → to_int32 (pos (min v (2 ^ 63 - 1))) ≡ pos v
small_pos v h = ground arith

small_negsuc : (n : ℕ) → n < int_max → to_int32 (negsuc (min (suc n) (2 ^ 63) - 1)) ≡ negsuc n
small_negsuc n h = ground arith

signed_plain :
    (c : ℕ) (cs : Text)
    → 48 ≤ c
    → c ≤ 57
    → read_signed (skip_space (c ∷ cs)) ≡ pos (min (read_digits 0 (c ∷ cs)) (2 ^ 63 - 1))
unfolding read_signed
signed_plain c cs h k = ground arith

signed_minus :
    (cs : Text) (n : ℕ)
    → read_digits 0 cs ≡ suc n
    → read_signed (skip_space (b'-' ∷ cs)) ≡ negsuc (min (suc n) (2 ^ 63) - 1)
unfolding read_signed
signed_minus cs n e = rw e (if_false (pos 0) (negsuc (min (suc n) (2 ^ 63) - 1)) (ground arith))

atoi_plain :
    (c : ℕ) (cs : Text)
    → Digits (c ∷ cs)
    → read_digits 0 (c ∷ cs) < int_max
    → atoi (c ∷ cs) ≡ pos (read_digits 0 (c ∷ cs))
unfolding atoi
atoi_plain c cs d h = ap to_int32 (signed_plain c cs d.0 d.1) ∙ small_pos _ h

atoi_minus :
    (cs : Text) (n : ℕ) → read_digits 0 cs ≡ suc n → n < int_max → atoi (b'-' ∷ cs) ≡ negsuc n
unfolding atoi
atoi_minus cs n e h = ap to_int32 (signed_minus cs n e) ∙ small_negsuc n h

-- The values of an `int`.
abbrev pub IsInt32 : ℤ → Type 0
IsInt32 (pos n) = n < int_max
IsInt32 (negsuc n) = n < int_max

-- atoi reads back what operator<< prints, for every value of an `int`.
pub atoi-show_int : (z : ℤ) → IsInt32 z → atoi (show_int z) ≡ z
unfolding show_int
atoi-show_int (pos n) h =
    let (c, cs, e) = decimal-cons (suc n) n (omega arith) in
    let all : read_digits 0 (c ∷ cs) ≡ n =
      ap (read_digits 0) (sym e) ∙ read_digits-decimal_all (suc n) n (omega arith) in
    rw e (atoi_plain c cs (subst Digits e (decimal-Digits (suc n) n)) (rw all h) ∙ ap pos all)
atoi-show_int (negsuc n) h =
    atoi_minus _ n (read_digits-decimal_all (suc (suc n)) (suc n) (omega arith)) h
