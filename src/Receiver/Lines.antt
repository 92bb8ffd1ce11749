-- ===== src/Receiver/Lines.antt =====
-- The line that begins the received bytes: how on_network_receive takes it.
use ftserver.Run.{Run, ok, fault, out_of_bounds, null_pointer, or_fault, ◌>>=◌}
use ftserver.Tcp.Circular.{CircularBuffer}
use ftserver.Tcp.Search.{StandsAt, lookup-IsFirst}
use ftserver.Tcp.{TcpClient, lookup, read, source, received_size}
use ftserver.Protocol.Boost.{BoostText, NoneOf}
use ftserver.Protocol.{Floats, resolve}
use ftserver.Receiver.{
  FileReceiver, connection, on_message, read_line, receive_message, on_network_receive,
}
use ftserver.Base.{
  ℕ, zero, suc, ◌+◌, ◌≤◌, ◌<◌, ◌≡◌, inl, inr, refl, sym, ap, ◌∙◌, Bool, false, some, [], ◌∷◌, ◌++◌,
  Text, codes, c_str, leb, ltb, ◌==◌, if◌then◌else◌, if_true, if_false, length, take, drop, splice,
  pos, arith, length-append, take-length-append, drop-length-append, take_congr, ◌&&◌, append_assoc,
}

abbrev pub newline : ℕ → Bool
newline c = c == b'\n'

abbrev pub nul : ℕ → Bool
nul c = c == 0

-- A NUL behind a text without one ends its C string.
c_str-ended : (t rest : Text) → NoneOf nul t → c_str (t ++ 0 ∷ rest) ≡ t
c_str-ended [] rest h = refl
c_str-ended (c ∷ t) rest h = ground (arith, h.0, c_str-ended t rest h.1)

-- The area after the line is read and its newline is replaced.
line_ended :
    (area t : Text)
    → length t + 1 ≤ length area
    → NoneOf nul t
    → c_str (splice (splice area 0 (t ++ b'\n' ∷ [])) (length t) (0 ∷ [])) ≡ t
line_ended area t h n =
    let line : Text = t ++ b'\n' ∷ [] in
    let rest : Text = drop (0 + length line) area in
    let front : take (length t) (line ++ rest) ≡ t =
      ap (take (length t)) (append_assoc t (b'\n' ∷ []) rest) ∙ take-length-append t _ in
    ap (λ x. c_str ((x ++ 0 ∷ []) ++ drop (length t + 1) (line ++ rest))) front
    ∙ ap c_str (append_assoc t (0 ∷ []) (drop (length t + 1) (line ++ rest)))
    ∙ c_str-ended t (drop (length t + 1) (line ++ rest)) n

only_place : (p n : ℕ) → ¬ (p < n) → ¬ (n < p) → p ≡ n
only_place p n h k = grind arith

not_within :
    (t rest : Text) (p : ℕ)
    → NoneOf newline t
    → p < length t
    → ¬ (take 1 (drop p (t ++ rest)) ≡ b'\n' ∷ [])
not_within [] rest p n h e = absurd (omega arith)
not_within (c ∷ t) rest zero n h e = ground (arith, n.0)
not_within (c ∷ t) rest (suc p) n h e = not_within t rest p n.1 (omega arith) e

module _ (cb : CircularBuffer) where
  -- The received bytes begin with the line t, in the area that is used without the queue.
  pub record HasLine (c : TcpClient cb) (t : Text) : Type 0 where
    pub rest : Text
    pub plain : c.usebuf ≡ false
    pub area : c.bufrcv ≡ t ++ b'\n' ∷ rest
    pub counted : length t < c.bytercv
    pub one_line : NoneOf newline t
    pub no_nul : NoneOf nul t

  lookup-HasLine :
      (c : TcpClient cb) (t : Text)
      → HasLine c t
      → lookup cb (some (codes "\n")) (pos 1) (pos 0) c ≡ pos (length t)
  lookup-HasLine c t l =
      let whole : source cb c ≡ t ++ b'\n' ∷ l.rest = if_false _ _ l.plain ∙ l.area in
      let size : received_size cb c ≡ c.bytercv = if_false _ _ l.plain in
      let here : StandsAt cb c (codes "\n") (length t) = (
        omega (arith, l.counted),
        ap (λ x. take 1 (drop (length t) x)) whole
            ∙ ap (take 1) (drop-length-append t (b'\n' ∷ l.rest)),
      ) in
      elim (lookup-IsFirst cb c (codes "\n") 0 (omega arith)) [
        | inl (p, z, lo, st, before) ↦
            z
            ∙ ap pos (
                only_place p (length t)
                  (λ lt.
                    not_within t (b'\n' ∷ l.rest) p l.one_line lt
                      (ap (λ x. take 1 (drop p x)) (sym whole) ∙ st.1))
                  (λ lt. before (length t) (omega arith) lt here))
        | inr (z, nowhere) ↦ absurd (nowhere (length t) (omega arith) here)
      ]

  read-HasLine :
      (c : TcpClient cb) (t : Text)
      → HasLine c t
      → read cb (pos (length t + 1)) (pos 0) c ≡ (t ++ b'\n' ∷ [], c)
  unfolding read
  read-HasLine c t l =
      let cut : take (length t + 1) c.bufrcv ≡ t ++ b'\n' ∷ [] =
        ap (take (length t + 1)) (l.area ∙ sym (append_assoc t (b'\n' ∷ []) l.rest))
        ∙ take_congr _ _ _ (sym (length-append {0} t (b'\n' ∷ [])))
        ∙ take-length-append (t ++ b'\n' ∷ []) l.rest in
      ground (arith, l.plain, l.counted, cut)

module _ (cb : CircularBuffer) (fl : Floats) (b : BoostText) where
  abbrev Receiver : Type 0
  Receiver = FileReceiver cb fl b

  -- The receiver with the line in its own area.
  abbrev pub line_taken : Text → TcpClient cb → Receiver → Receiver
  line_taken t c r = record r {
    tcpptr = some c;
    bufrcv = splice (splice r.bufrcv 0 (t ++ b'\n' ∷ [])) (length t) (0 ∷ []);
  }

  read_line-HasLine :
      (r : Receiver) (c : TcpClient cb) (t : Text)
      → HasLine cb c t
      → length t + 1 ≤ length r.bufrcv
      → read_line cb fl b (pos (length t)) r c ≡ ok (line_taken t c r)
  unfolding read_line
  read_line-HasLine r c t l fits =
      let n : length (t ++ b'\n' ∷ []) ≡ length t + 1 = length-append {0} t (b'\n' ∷ []) in
      ap
        (λ q.
          if leb (length q.0) (length r.bufrcv) && ltb (length t) (length r.bufrcv)
          then ok (record r {
            tcpptr = some q.1;
            bufrcv = splice (splice r.bufrcv 0 q.0) (length t) (0 ∷ []);
          })
          else fault out_of_bounds)
        (read-HasLine cb c t l)
      ∙ if_true
          {b = leb (length (t ++ b'\n' ∷ [])) (length r.bufrcv) && ltb (length t) (length r.bufrcv)}
          _ _ (ground (arith, n))

  pub on_network_receive-HasLine :
      (r : Receiver) (c : TcpClient cb) (t : Text)
      → r.tcpptr ≡ some c
      → HasLine cb c t
      → length t + 1 ≤ length r.bufrcv
      → on_network_receive cb fl b r ≡ on_message cb fl b (resolve fl b t) (line_taken t c r)
  unfolding on_network_receive receive_message connection
  on_network_receive-HasLine r c t e l fits =
      ap (λ o. or_fault o null_pointer >>= receive_message cb fl b r) e
      ∙ ap
          (λ z. read_line cb fl b z r c >>= λ r'.
            on_message cb fl b (resolve fl b (c_str r'.bufrcv)) r')
          (lookup-HasLine cb c t l)
      ∙ ap
          (λ (m : Run Receiver). m >>= λ r'. on_message cb fl b (resolve fl b (c_str r'.bufrcv)) r')
          (read_line-HasLine r c t l fits)
      ∙ ap (λ x. on_message cb fl b (resolve fl b x) (line_taken t c r))
          (line_ended r.bufrcv t fits l.no_nul)
