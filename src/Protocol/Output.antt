-- ===== src/Protocol/Output.antt =====
-- AsciiProtocol::output_compacted: ten output areas of 1024 bytes, used in turn, whose addresses
-- are handed to the callers.
use ftserver.Protocol.Boost.{BoostText}
use ftserver.Protocol.Tokens.{trimmed}
use ftserver.Base.{
  ℕ, zero, suc, ◌+◌, ◌*◌, ◌≤◌, ◌<◌, ◌≡◌, ◌≢◌, refl, ap, ◌∙◌, Option, none, some, List, [], ◌∷◌,
  ◌++◌, Text, c_str, arith, ◌==◌, leb, if◌then◌else◌, if_true, le→leb, length, take, drop, splice,
  length-splice, length-append, window_before, window_after, window_at, inl, inr, ◌⊎◌, append_assoc,
  replicate,
}

abbrev pub slot_size : ℕ
slot_size = 1024

abbrev pub slots : ℕ
slots = 10

-- The members ibuf_ and buff_.
pub record OutputRing : Type 0 where
  pub ibuf : ℕ
  pub buff : Text

-- AsciiProtocol()
unfoldable pub make_ascproto : OutputRing
make_ascproto = record { ibuf = 0; buff = replicate (slot_size * slots) 0 }

-- One result of output_compacted: the address in buff_, the length n, the state after.
pub record Output : Type 0 where
  pub address : ℕ
  pub n : ℕ
  pub ring : OutputRing

-- What sprintf writes for a trimmed text, without the closing NUL.
abbrev pub line_of : Text → Text
line_of t = c_str t ++ b'\n' ∷ []

abbrev next_index : ℕ → ℕ
next_index i = if suc i == slots then 0 else suc i

-- sprintf(buff, "%s\n", …) at the current area; `none` where it would write past the storage.
unfoldable pub sprintf_line : Text → OutputRing → Option Output
sprintf_line t r =
    let address = r.ibuf * slot_size in
    if leb (address + length (line_of t) + 1) (length r.buff)
    then some (record {
      address = address;
      n = length (line_of t);
      ring = record {
        ibuf = next_index r.ibuf;
        buff = splice r.buff address (line_of t ++ 0 ∷ []);
      };
    })
    else none

unfoldable pub output_compacted : BoostText → Text → OutputRing → Option Output
unfolding sprintf_line
output_compacted b output r = sprintf_line (BoostText.trim_right_if b trimmed output) r

-- The C string at an address.
abbrev pub string_at : ℕ → OutputRing → Text
string_at address r = c_str (drop address r.buff)

pub record IsRing (r : OutputRing) : Type 0 where
  pub index : r.ibuf < slots
  pub storage : length r.buff ≡ slot_size * slots

-- A line that fits in its area with the closing NUL.
abbrev pub IsShort : Text → Type 0
IsShort t = length (line_of t) < slot_size

abbrev pub after_line : Text → OutputRing → OutputRing
after_line t r = record {
  ibuf = next_index r.ibuf;
  buff = splice r.buff (r.ibuf * slot_size) (line_of t ++ 0 ∷ []);
}

block_length : (t : Text) → length (line_of t ++ 0 ∷ []) ≡ length (line_of t) + 1
block_length t = length-append (line_of t) (0 ∷ [])

block_fits :
    (t : Text) (r : OutputRing)
    → IsRing r
    → IsShort t
    → r.ibuf * slot_size + length (line_of t ++ 0 ∷ []) ≤ length r.buff
block_fits t r v h = omega (arith, v.index, v.storage, block_length t)

pub sprintf_line-some :
    (t : Text) (r : OutputRing)
    → IsRing r
    → IsShort t
    → sprintf_line t r
      ≡ some
          (record { address = r.ibuf * slot_size; n = length (line_of t); ring = after_line t r })
unfolding sprintf_line
sprintf_line-some t r v h = if_true _ none (le→leb _ _ (omega (arith, v.index, v.storage)))

pub after_line-IsRing : (t : Text) (r : OutputRing) → IsRing r → IsShort t → IsRing (after_line t r)
after_line-IsRing t r v h = record {
  index = ground arith;
  storage = length-splice r.buff _ _ (block_fits t r v h) ∙ v.storage;
}

c_str-line : (t rest : Text) → c_str (c_str t ++ b'\n' ∷ 0 ∷ rest) ≡ line_of t
c_str-line [] rest = refl
c_str-line (c ∷ t) rest = ground (arith, c_str-line t rest)

c_str-window :
    (n : ℕ) (xs ys : Text) → take n xs ≡ take n ys → length (c_str ys) < n → c_str xs ≡ c_str ys
c_str-window zero xs ys e h = elim h [ ]
c_str-window (suc n) [] [] e h = refl
c_str-window (suc n) [] (y ∷ ys) e h = cc
c_str-window (suc n) (x ∷ xs) [] e h = cc
c_str-window (suc n) (x ∷ xs) (y ∷ ys) e h = ground (arith, c_str-window n xs ys)

apart : (a b : ℕ) → a ≢ b → (a < b) ⊎ (b < a)
apart a b ne = grind arith

-- What the area just printed shows.
pub shown :
    (t : Text) (r : OutputRing)
    → IsRing r
    → IsShort t
    → string_at (r.ibuf * slot_size) (after_line t r) ≡ line_of t
shown t r v h =
    ap c_str (
      window_at r.buff (r.ibuf * slot_size) (line_of t ++ 0 ∷ [])
        (omega (arith, v.index, v.storage)))
    ∙ ap c_str (append_assoc (line_of t) (0 ∷ []) _)
    ∙ ap c_str (append_assoc (c_str t) (b'\n' ∷ []) _)
    ∙ c_str-line t _

-- A line printed into one area leaves the strings of the others.
other_area :
    (t : Text) (r : OutputRing) (i : ℕ)
    → IsRing r
    → IsShort t
    → r.ibuf ≢ i
    → i < slots
    → take slot_size (drop (i * slot_size) (after_line t r).buff)
      ≡ take slot_size (drop (i * slot_size) r.buff)
other_area t r i v h ne lt = elim (apart r.ibuf i ne) [
  | inl before ↦
      window_after r.buff (r.ibuf * slot_size) _ (i * slot_size) slot_size
        (omega (arith, block_length t)) (omega (arith, v.index, v.storage))
  | inr after ↦
      window_before r.buff (r.ibuf * slot_size) _ (i * slot_size) slot_size (omega arith)
        (omega (arith, v.index, v.storage))
]

-- Later lines, none of which comes round to area i.
pub print_all : List Text → OutputRing → Option OutputRing
print_all [] r = some r
print_all (t ∷ ts) r = elim (sprintf_line t r) [ none ↦ none | some o ↦ print_all ts o.ring ]

print_all-next :
    (t : Text) (ts : List Text) (r : OutputRing) {o : Output}
    → sprintf_line t r ≡ some o
    → print_all (t ∷ ts) r ≡ print_all ts o.ring
unfolding print_all
print_all-next t ts r e = ground (arith, e)

abbrev pub AllShort : List Text → Type 0
AllShort [] = Unit {0}
AllShort (t ∷ ts) = IsShort t × AllShort ts

-- g more lines may be printed before area i is used again.
abbrev Gap : ℕ → ℕ → ℕ → Type 0
Gap g ibuf i = ((ibuf + g ≡ i) ⊎ (ibuf + g ≡ i + slots)) × (g < slots)

print_all-keeps :
    (ts : List Text) (r : OutputRing) (g i : ℕ)
    → IsRing r
    → AllShort ts
    → length ts ≤ g
    → Gap g r.ibuf i
    → i < slots
    → (r' : OutputRing) × (print_all ts r ≡ some r')
      × (take slot_size (drop (i * slot_size) r'.buff)
          ≡ take slot_size (drop (i * slot_size) r.buff))
unfolding print_all
print_all-keeps [] r g i v s h gap lt = (r, refl, refl)
print_all-keeps (t ∷ ts) r zero i v s h gap lt = absurd (omega arith)
print_all-keeps (t ∷ ts) r (suc g) i v s h gap lt =
    let (r', e, k) =
      print_all-keeps ts (after_line t r) g i (after_line-IsRing t r v s.0) s.1 (omega arith)
        (ground arith) lt in
    (
      r',
      print_all-next t ts r (sprintf_line-some t r v s.0) ∙ e,
      k ∙ other_area t r i v s.0 (ground arith) lt,
    )

-- The address that a call returns shows its line, closed by the newline that the protocol wants,
-- and n is its length; the line stays there over nine further calls at least, whatever they print.
-- No call writes outside the storage, as long as each line fits in 1023 bytes.
pub output_stays :
    (t : Text) (ts : List Text) (r : OutputRing)
    → IsRing r
    → IsShort t
    → AllShort ts
    → length ts ≤ 9
    → (o : Output) × (r' : OutputRing) × (sprintf_line t r ≡ some o)
      × (print_all ts o.ring ≡ some r')
      × (o.n ≡ length (line_of t))
      × (string_at o.address r' ≡ line_of t)
output_stays t ts r v h s n =
    let (r', e, k) =
      print_all-keeps ts (after_line t r) 9 r.ibuf (after_line-IsRing t r v h) s n (ground arith)
        v.index in
    (
      record { address = r.ibuf * slot_size; n = length (line_of t); ring = after_line t r },
      r',
      sprintf_line-some t r v h,
      e,
      refl,
      c_str-window slot_size _ _ k (rw (shown t r v h) h) ∙ shown t r v h,
    )
