-- ===== src/Protocol/Boost.antt =====
-- The functions of boost::algorithm and boost::format that AsciiProtocol.cpp calls, which are not
-- part of this repository, with their documented behaviour; and what the C library says of bytes
-- in the classic locale.
use ftserver.Base.{
  ℕ, ◌+◌, ◌≡◌, ◌↔◌, Bool, true, false, ◌&&◌, ◌||◌, List, [], ◌∷◌, ◌++◌, map, Text, leb, ◌==◌,
  if◌then◌else◌,
}

-- isspace, ispunct and tolower.
abbrev pub is_space : ℕ → Bool
is_space c = c == 32 || (leb 9 c && leb c 13)

abbrev pub is_punct : ℕ → Bool
is_punct c =
    (leb 33 c && leb c 47)
    || (leb 58 c && leb c 64)
    || (leb 91 c && leb c 96)
    || (leb 123 c && leb c 126)

abbrev pub to_lower : ℕ → ℕ
to_lower c = if leb b'A' c && leb c b'Z' then c + 32 else c

-- No byte of the text passes the test; every byte passes it.
abbrev pub NoneOf : (ℕ → Bool) → Text → Type 0
NoneOf p [] = Unit {0}
NoneOf p (c ∷ cs) = (p c ≡ false) × NoneOf p cs

abbrev pub AllOf : (ℕ → Bool) → Text → Type 0
AllOf p [] = Unit {0}
AllOf p (c ∷ cs) = (p c ≡ true) × AllOf p cs

-- The first, and the last, byte fails the test, if there is one.
abbrev pub FirstNot : (ℕ → Bool) → Text → Type 0
FirstNot p [] = Unit {0}
FirstNot p (c ∷ cs) = p c ≡ false

abbrev pub LastNot : (ℕ → Bool) → Text → Type 0
LastNot p [] = Unit {0}
LastNot p (c ∷ []) = p c ≡ false
LastNot p (c ∷ d ∷ cs) = LastNot p (d ∷ cs)

pub record BoostText : Type 0 where
  -- algorithm::split with a predicate and token_compress_on
  pub split : (ℕ → Bool) → Text → List Text
  -- algorithm::trim, algorithm::trim_right_if, algorithm::iequals
  pub trim : Text → Text
  pub trim_right_if : (ℕ → Bool) → Text → Text
  pub iequals : Text → Text → Bool
  -- boost::format("%1%=%2%,") % keyword % value, with the value as it is streamed
  pub format_kv : Text → Text → Text
  pub split-one : (p : ℕ → Bool) (xs : Text) → NoneOf p xs → split p xs ≡ xs ∷ []
  pub split-separator :
      (p : ℕ → Bool) (xs : Text) (s : ℕ) (ys : Text)
      → NoneOf p xs
      → p s ≡ true
      → FirstNot p ys
      → split p (xs ++ s ∷ ys) ≡ xs ∷ split p ys
  pub trim_inner : (xs : Text) → FirstNot is_space xs → LastNot is_space xs → trim xs ≡ xs
  pub trim_right_if-append :
      (p : ℕ → Bool) (xs ys : Text) → LastNot p xs → AllOf p ys → trim_right_if p (xs ++ ys) ≡ xs
  pub iequals_iff : (a b : Text) → (iequals a b ≡ true) ↔ (map to_lower a ≡ map to_lower b)
  pub format_kv_lem : (k v : Text) → format_kv k v ≡ k ++ b'=' ∷ (v ++ b',' ∷ [])
