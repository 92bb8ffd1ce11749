-- ===== src/NtpClient/Answers.antt =====
-- What a time server's answers do to the client.
use ftserver.Run.{Run, ok, fault, out_of_bounds, ◌>>=◌}
use ftserver.NtpClient.{
  Doubles, NtpClient, NtpPacket, TimeVal, send_failed, timeout, receive_failed, received, Round,
  be32, byte_at, read32, read_time, construct_packet, parse_packet, get_time, after_reply, round,
}
use ftserver.Base.{
  not, if_false, drop_congr, ℕ, suc, ◌+◌, ◌/◌, ◌%◌, ◌^◌, ◌≤◌, ◌<◌, ◌≡◌, ◌≢◌, refl, sym, ap, ◌∙◌,
  subst, ◌⊎◌, inl, inr, Bool, true, false, ◌&&◌, Option, none, some, List, [], ◌∷◌, ◌++◌, Text,
  c_str, ltb, ◌==◌, if◌then◌else◌, length, take, drop, splice, arith, drop-drop, drop-length-append,
  append_assoc,
}

byte_at-drop :
    (data_ : Text) (i k b : ℕ) (pre rest : Text)
    → drop i data_ ≡ pre ++ b ∷ rest
    → length pre ≡ k
    → byte_at data_ (i + k) ≡ b
byte_at-drop data_ i k b pre rest e n =
    let at : drop (i + k) data_ ≡ b ∷ rest =
      sym (drop-drop k i data_)
      ∙ ap (drop k) e
      ∙ ap (λ m. drop m (pre ++ b ∷ rest)) (sym n)
      ∙ drop-length-append pre (b ∷ rest) in
    ground (arith, at)

-- ntohl reads back what htonl wrote.
read32-be32 :
    (data_ : Text) (i w : ℕ) (rest : Text)
    → w < 2 ^ 32
    → drop i data_ ≡ be32 w ++ rest
    → read32 data_ i ≡ w
unfolding read32
read32-be32 data_ i w rest h e =
    let b0 : byte_at data_ i ≡ w / 2 ^ 24 % 256 =
      ap (byte_at data_) (omega arith) ∙ byte_at-drop data_ i 0 _ [] _ e refl in
    let b1 : byte_at data_ (i + 1) ≡ w / 2 ^ 16 % 256 =
      byte_at-drop data_ i 1 _ (_ ∷ []) _ e refl in
    let b2 : byte_at data_ (i + 2) ≡ w / 2 ^ 8 % 256 =
      byte_at-drop data_ i 2 _ (_ ∷ _ ∷ []) _ e refl in
    let b3 : byte_at data_ (i + 3) ≡ w % 256 = byte_at-drop data_ i 3 _ (_ ∷ _ ∷ _ ∷ []) _ e refl in
    omega (arith, b0, b1, b2, b3)

-- A server that answers as the protocol says, with the request's transmit time as the originate
-- time, tells the client exactly the time at which the request was sent: seconds and fraction, as
-- 32-bit numbers.
pub read_time-construct_packet :
    (coarse fine : ℕ) (pack answer rest : Text)
    → drop 24 answer ≡ take 8 (drop 40 (construct_packet coarse fine pack)) ++ rest
    → read_time answer 24 ≡ record { coarse = coarse % 2 ^ 32; fine = fine % 2 ^ 32 }
unfolding construct_packet read_time
read_time-construct_packet coarse fine pack answer rest e =
    let c : ℕ = coarse % 2 ^ 32 in
    let f : ℕ = fine % 2 ^ 32 in
    let second : drop 28 answer ≡ be32 f ++ rest = sym (drop-drop 4 24 answer) ∙ ap (drop 4) e in
    λ i. record {
      coarse = read32-be32 answer 24 c (be32 f ++ rest) (omega arith) e i;
      fine = read32-be32 answer 28 f rest (omega arith) second i;
    }

c_str-long :
    (a b c d : ℕ) (rest : Text)
    → a ≢ 0
    → b ≢ 0
    → c ≢ 0
    → d ≢ 0
    → 4 ≤ length (c_str (a ∷ b ∷ c ∷ d ∷ rest))
c_str-long a b c d rest ha hb hc hd = ground arith

parse_packet-long :
    (data_ : Text) → 4 ≤ length (c_str (drop 12 data_)) → parse_packet data_ ≡ fault out_of_bounds
unfolding parse_packet
parse_packet-long data_ h = if_false {b = ltb (length (c_str (drop 12 data_))) 4} _ _ (ground arith)

-- The client after an answer that could be read.
abbrev answered : (n : Doubles) → NtpClient n → Text → NtpClient n
answered n c data_ = record c { pack = data_; valid = true; nfail = 0 }

-- An answer whose four bytes of reference identifier are all different from 0, as an IPv4 address may
-- be, makes get_time write past the field.
pub get_time-overruns :
    (n : Doubles) (coarse fine : ℕ) (pre rest : Text) (a b c d : ℕ) (client : NtpClient n)
    → length pre ≡ 12
    → a ≢ 0
    → b ≢ 0
    → c ≢ 0
    → d ≢ 0
    → get_time n coarse fine (received (pre ++ a ∷ b ∷ c ∷ d ∷ rest)) client ≡ fault out_of_bounds
unfolding get_time parse_packet
get_time-overruns n coarse fine pre rest a b c d client h ha hb hc hd =
    let bytes : Text = pre ++ a ∷ b ∷ c ∷ d ∷ rest in
    let old : Text = construct_packet coarse fine client.pack in
    let more : Text = rest ++ drop (0 + length bytes) old in
    let at : drop 12 (splice old 0 bytes) ≡ a ∷ b ∷ c ∷ d ∷ more =
      ap (drop 12) (append_assoc pre (a ∷ b ∷ c ∷ d ∷ rest) (drop (0 + length bytes) old))
      ∙ drop_congr 12 (length pre) _ (sym h)
      ∙ drop-length-append pre (a ∷ b ∷ c ∷ d ∷ more) in
    ap
      (λ (m : Run NtpPacket).
        m >>= λ packet. ok (some packet, answered n client (splice old 0 bytes)))
      (parse_packet-long (splice old 0 bytes)
        (subst (λ t. 4 ≤ length (c_str t)) (sym at) (c_str-long a b c d more ha hb hc hd)))

-- A round that gets no answer, on a socket that is open or can be opened.
abbrev pub NoAnswer : Round → Type 0
NoAnswer e =
    (e.connects ≡ true)
    × ((e.reply ≡ send_failed) ⊎ (e.reply ≡ timeout) ⊎ (e.reply ≡ receive_failed))

abbrev pub NoAnswers : List Round → Type 0
NoAnswers [] = Unit {0}
NoAnswers (e ∷ es) = NoAnswer e × NoAnswers es

module _ (n : Doubles) where
  pub rounds : List Round → NtpClient n → Run (NtpClient n)
  rounds [] c = ok c
  rounds (e ∷ es) c = do (set_time, c') ← round n e c; rounds es c'

  -- What a round without an answer does to the validity.
  record Missed (c c' : NtpClient n) : Type 0 where
    nfail : c'.nfail ≡ c.nfail + 1
    valid : c'.valid ≡ (c.valid && ltb c'.nfail 5)

  -- get_time without an answer.
  get_time-none :
      (e : Round) (c : NtpClient n)
      → NoAnswer e
      → (c' : NtpClient n) × (get_time n e.coarse e.fine e.reply c ≡ ok (none, c'))
        × (c'.valid ≡ c.valid)
        × (c'.nfail ≡ c.nfail)
  unfolding get_time
  get_time-none e c (on, inl why) = (
    record c { sock = false; pack = construct_packet e.coarse e.fine c.pack },
    ap (λ r. get_time n e.coarse e.fine r c) why,
    refl,
    refl,
  )
  get_time-none e c (on, inr (inl why)) = (
    record c { pack = construct_packet e.coarse e.fine c.pack },
    ap (λ r. get_time n e.coarse e.fine r c) why,
    refl,
    refl,
  )
  get_time-none e c (on, inr (inr why)) = (
    record c { sock = false; pack = construct_packet e.coarse e.fine c.pack },
    ap (λ r. get_time n e.coarse e.fine r c) why,
    refl,
    refl,
  )

  after_reply-Missed :
      (tv : TimeVal) (c c' : NtpClient n)
      → c'.valid ≡ c.valid
      → c'.nfail ≡ c.nfail
      → Missed c (after_reply n tv (none, c')).1
  unfolding after_reply
  after_reply-Missed tv c c' v f = ground arith

  round-Missed :
      (e : Round) (c : NtpClient n)
      → NoAnswer e
      → (r : Option TimeVal × NtpClient n) × (round n e c ≡ ok r) × Missed c r.1
  unfolding round
  round-Missed e c a =
      let (c', go, v, f) = get_time-none e (record c { sock = true }) a in
      let on : (not c.sock && not e.connects) ≡ false = ground (arith, a.0) in
      (
        after_reply n e.now (none, c'),
        if_false _ _ on ∙ ap (λ m. m >>= λ r. ok (after_reply n e.now r)) go,
        after_reply-Missed e.now c c' v f,
      )

  abbrev Misses : ℕ → NtpClient n → Run (NtpClient n) → Type 0
  Misses k c m =
      (c' : NtpClient n) × (m ≡ ok c')
      × (c'.nfail ≡ c.nfail + k)
      × (c'.valid ≡ (if k == 0 then c.valid else c.valid && ltb (c.nfail + k) 5))

  both_below :
      (v : Bool) (f k : ℕ)
      → (if k == 0 then v && ltb (f + 1) 5 else (v && ltb (f + 1) 5) && ltb (f + 1 + k) 5)
        ≡ (if suc k == 0 then v else v && ltb (f + suc k) 5)
  both_below true f k = ground arith
  both_below false f k = ground arith

  rounds-Misses :
      (es : List Round) (c : NtpClient n) → NoAnswers es → Misses (length es) c (rounds es c)
  unfolding rounds
  rounds-Misses [] c h = (c, refl, omega arith, refl)
  rounds-Misses (e ∷ es) c h =
      let (r, go, m) = round-Missed e c h.0 in
      let (c', rest, f, v) = rounds-Misses es r.1 h.1 in
      let k : ℕ = length es in
      let v1 : r.1.valid ≡ (c.valid && ltb (c.nfail + 1) 5) =
        m.valid ∙ ap (λ x. c.valid && ltb x 5) m.nfail in
      let start : (if k == 0 then r.1.valid else r.1.valid && ltb (r.1.nfail + k) 5) ≡ (
          if k == 0
          then c.valid && ltb (c.nfail + 1) 5
          else (c.valid && ltb (c.nfail + 1) 5) && ltb (c.nfail + 1 + k) 5) =
        λ i. if k == 0 then v1 i else v1 i && ltb (m.nfail i + k) 5 in
      (
        c',
        ap (λ x. x >>= λ q. rounds es q.1) go ∙ rest,
        omega (arith, f, m.nfail),
        v ∙ start ∙ both_below c.valid c.nfail k,
      )

  first :
      (v : Bool) (f k : ℕ)
      → f < 5
      → (if k == 0 then v else v && ltb (f + k) 5) ≡ (v && ltb (f + k) 5)
  first true f k h = ground arith
  first false f k h = ground arith

  -- Rounds in which a socket can be had and no answer comes, on a client that has missed fewer
  -- than five: all are counted, and an offset that was valid stays so as long as fewer than five
  -- are missed in a row, and is invalid from the fifth on.
  pub rounds-NoAnswers :
      (es : List Round) (c : NtpClient n)
      → NoAnswers es
      → c.nfail < 5
      → (c' : NtpClient n) × (rounds es c ≡ ok c')
        × (c'.nfail ≡ c.nfail + length es)
        × (c'.valid ≡ (c.valid && ltb (c.nfail + length es) 5))
  rounds-NoAnswers es c h few =
      let (c', go, f, v) = rounds-Misses es c h in
      (c', go, f, v ∙ first c.valid c.nfail (length es) few)
