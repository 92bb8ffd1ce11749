-- ===== src/Tcp/Search.antt =====
-- What the nested loops of TCPClient::Lookup find.
use ftserver.Base.{
  ℕ, zero, suc, ◌+◌, ◌-◌, ◌≤◌, ◌<◌, ◌≡◌, refl, ap, ◌∙◌, ◌⊎◌, inl, inr, ◌↔◌, [], ◌∷◌, some, arith,
  Text, ◌==◌, ==_iff, Bool-cases, length, take, drop, drop-suc, drop-drop, ℤ, pos, negsuc,
}
use ftserver.Tcp.Circular.{CircularBuffer}
use ftserver.Tcp.{TcpClient, matched, look_from, lookup, received_size, source}

-- The text starts with the flag.
abbrev Starts : Text → Text → Type 0
Starts flag buf = take (length flag) buf ≡ flag

matched_iff : (flag buf : Text) → (matched (length flag) flag buf ≡ length flag) ↔ Starts flag buf
unfolding matched
matched_iff [] buf = (λ _. refl, λ _. refl)
matched_iff (f ∷ flag) [] = (λ e. absurd (omega arith), λ e. cc)
matched_iff (f ∷ flag) (c ∷ buf) =
    (λ e. ground (arith, (matched_iff flag buf).0), λ e. ground (arith, (matched_iff flag buf).1))

-- The outcome of the search over `rounds` positions from the head of `buf`, which is position `at`.
abbrev Outcome : ℕ → ℕ → Text → Text → ℤ → Type 0
Outcome rounds at flag buf z =
    ((k : ℕ) × (z ≡ pos (at + k))
      × (k < rounds)
      × Starts flag (drop k buf)
      × ((j : ℕ) → j < k → ¬ Starts flag (drop j buf)))
    ⊎ ((z ≡ negsuc 0) × ((j : ℕ) → j < rounds → ¬ Starts flag (drop j buf)))

not_before :
    (rounds : ℕ) (flag buf : Text)
    → ¬ Starts flag buf
    → ((j : ℕ) → j < rounds → ¬ Starts flag (drop j (drop 1 buf)))
    → (j : ℕ) → j < suc rounds
    → ¬ Starts flag (drop j buf)
not_before rounds flag buf here later zero h = here
not_before rounds flag buf here later (suc j) h = rw drop-suc at (later j (omega arith))

later-Outcome :
    (rounds at : ℕ) (flag buf : Text) (z : ℤ)
    → ¬ Starts flag buf
    → Outcome rounds (at + 1) flag (drop 1 buf) z
    → Outcome (suc rounds) at flag buf z
later-Outcome rounds at flag buf z here (inl (k, e, lt, s, before)) = inl (
  suc k,
  e ∙ ap pos (omega arith),
  omega arith,
  rw drop-suc at s,
  not_before k flag buf here before,
)
later-Outcome rounds at flag buf z here (inr (e, before)) =
    inr (e, not_before rounds flag buf here before)

look_from-Outcome :
    (rounds at : ℕ) (flag buf : Text)
    → Outcome rounds at flag buf (look_from rounds at (length flag) flag buf)
unfolding look_from
look_from-Outcome zero at flag buf = inr (refl, λ j h. elim h [ ])
look_from-Outcome (suc rounds) at flag buf =
    elim (Bool-cases (matched (length flag) flag buf == length flag)) [
      | inl full ↦ rw full (
          inl (
            zero,
            ap pos (omega arith),
            omega arith,
            (matched_iff flag buf).0 ((==_iff _ _).0 full),
            λ j h. elim h [ ],
          ))
      | inr short ↦ rw short (
          later-Outcome rounds at flag buf _
            (λ s. cc (short, (==_iff _ _).1 ((matched_iff flag buf).1 s)))
            (look_from-Outcome rounds (at + 1) flag (drop 1 buf)))
    ]

module _ (cb : CircularBuffer) (c : TcpClient cb) where
  -- The flag stands at position p of what has been received.
  abbrev pub StandsAt : Text → ℕ → Type 0
  StandsAt flag p =
      (p + length flag ≤ received_size cb c) × (take (length flag) (drop p (source cb c)) ≡ flag)

  -- The answer of Lookup from a position on: the first place, or -1 if there is none.
  abbrev pub IsFirst : Text → ℕ → ℤ → Type 0
  IsFirst flag from z =
      ((p : ℕ) × (z ≡ pos p)
        × (from ≤ p)
        × StandsAt flag p
        × ((q : ℕ) → from ≤ q → q < p → ¬ StandsAt flag q))
      ⊎ ((z ≡ negsuc 0) × ((q : ℕ) → from ≤ q → ¬ StandsAt flag q))

  shifted :
      (flag : Text) (from q : ℕ)
      → from ≤ q
      → StandsAt flag q
      → Starts flag (drop (q - from) (drop from (source cb c)))
  shifted flag from q h s = let e : from + (q - from) ≡ q = omega arith in rw (drop-drop, e) s.1

  Outcome-IsFirst :
      (flag : Text) (from : ℕ) (z : ℤ)
      → 0 < length flag
      → Outcome (received_size cb c + 1 - length flag - from) from flag (drop from (source cb c)) z
      → IsFirst flag from z
  Outcome-IsFirst flag from z h (inl (k, e, lt, s, before)) = inl (
    from + k,
    e,
    omega arith,
    (omega arith, rw drop-drop at s),
    λ q lo hi st. before (q - from) (omega arith) (shifted flag from q lo st),
  )
  Outcome-IsFirst flag from z h (inr (e, before)) =
      inr (e, λ q lo st. before (q - from) (omega (arith, st.0)) (shifted flag from q lo st))

  lookup_args :
      (flag : Text) (from : ℕ)
      → 0 < length flag
      → lookup cb (some flag) (pos (length flag)) (pos from) c
        ≡ look_from
            (received_size cb c + 1 - length flag - from)
            from
            (length flag)
            flag
            (drop from (source cb c))
  unfolding lookup
  lookup_args flag from h = ground arith

  -- Lookup with a flag of positive length, all of it compared, and a start that is not negative
  -- returns the first position from that start on at which the whole flag stands within the
  -- received bytes, and -1 exactly when there is no such position.
  pub lookup-IsFirst :
      (flag : Text) (from : ℕ)
      → 0 < length flag
      → IsFirst flag from (lookup cb (some flag) (pos (length flag)) (pos from) c)
  lookup-IsFirst flag from h =
      rw (lookup_args flag from h)
        (Outcome-IsFirst flag from _ h (look_from-Outcome _ from flag (drop from (source cb c))))
