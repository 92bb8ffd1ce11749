-- ===== src/Tcp/Sending.antt =====
-- The send queue of TCPClient: Write appends what fits and handle_write takes from the front what
-- the socket has sent, with one asynchronous write outstanding at most.
use ftserver.Base.{
  ℕ, zero, suc, ◌+◌, ◌-◌, ◌≤◌, ◌<◌, ◌≡◌, refl, sym, ap, ◌∙◌, inl, inr, true, not, ◌&&◌, List, [],
  ◌∷◌, ◌++◌, Option, none, some, arith, Text, ltb, ◌==◌, ==_iff, Bool-cases, if◌then◌else◌, if_true,
  length, take, drop, append_assoc, append-nil, length-append, length-zero, take_none, drop_congr,
  length-take, min, drop-append, take-append-drop,
}
use ftserver.Tcp.Circular.{CircularBuffer}
use ftserver.Tcp.{TcpClient, push_all, write_buffered, write, handle_write, start_write}
use ftserver.Tcp.Buffers.{items-push_all}

module _ (cb : CircularBuffer) where
  open cb use {items, capacity, length-items-le, items-erase_begin}

  -- The outstanding write covers the front of the queue, and there is none only if it is empty.
  abbrev pub Flight : Option Text → Text → Type 0
  Flight none queued = queued ≡ []
  Flight (some w) queued = (0 < length w) × ((rest : Text) × (queued ≡ w ++ rest))

  pub record IsSending (c : TcpClient cb) : Type 0 where
    pub buffered : c.usebuf ≡ true
    pub flight : Flight c.writing (items c.crcsnd)

  abbrev pub queued : TcpClient cb → Text
  queued c = items c.crcsnd

  -- How many bytes of a text Write accepts.
  abbrev pub fitting : Text → TcpClient cb → ℕ
  fitting buff c = min (length buff) (capacity c.crcsnd - length (queued c))

  smaller : (a b : ℕ) → (if ltb a b then a else b) ≡ min a b
  smaller a b = ground arith

  pub queued-push_all :
      (xs : Text) (c : TcpClient cb)
      → length xs + length (queued c) ≤ capacity c.crcsnd
      → items (push_all cb xs c.crcsnd) ≡ queued c ++ xs
  queued-push_all xs c h =
      items-push_all cb xs c.crcsnd
      ∙ drop_congr (length (queued c ++ xs) - capacity c.crcsnd) 0 _
          (omega (arith, length-append {0} (queued c) xs))

  start_write-Flight :
      (c : TcpClient cb)
      → c.usebuf ≡ true
      → c.writing ≡ none
      → IsSending (start_write cb c) × (queued (start_write cb c) ≡ queued c)
  unfolding start_write
  start_write-Flight c on idle = elim (Bool-cases (length (queued c) == 0)) [
    | inl empty ↦
        rw empty
          (record { buffered = on; flight = rw idle (length-zero _ ((==_iff _ 0).0 empty)) }, refl)
    | inr some_left ↦
        rw some_left
          (record { buffered = on; flight = (ground arith, ([], sym (append-nil _))) }, refl)
  ]

  Flight-idle : (m : Option Text) (xs : Text) → Flight m xs → length xs ≡ 0 → m ≡ none
  Flight-idle none xs f e = refl
  Flight-idle (some w) xs (pos_, (rest, split)) e =
      absurd (omega (arith, ap length split, length-append {0} w rest))

  Flight-append :
      (m : Option Text) (xs ys : Text)
      → Flight m xs
      → (length xs ≡ 0 → ys ≡ [])
      → Flight m (xs ++ ys)
  Flight-append none xs ys f e = rw (f, e (ap length f))
  Flight-append (some w) xs ys (pos_, (rest, split)) e =
      (pos_, (rest ++ ys, rw split (append_assoc w rest ys)))

  pub take-fitting :
      (buff : Text) (c : TcpClient cb)
      → length (take (fitting buff c) buff) + length (queued c) ≤ capacity c.crcsnd
  take-fitting buff c =
      omega (arith, length-take {0} (fitting buff c) buff, length-items-le c.crcsnd)

  -- The client after the bytes that fit are queued, before a write is started.
  abbrev pub enqueued : Text → TcpClient cb → TcpClient cb
  enqueued buff c = record c { crcsnd = push_all cb (take (fitting buff c) buff) c.crcsnd }

  pub write_buffered-enqueued :
      (buff : Text) (c : TcpClient cb)
      → write_buffered cb buff c ≡ (
        fitting buff c,
        if length (queued c) == 0 && not (fitting buff c == 0)
            then start_write cb (enqueued buff c)
            else enqueued buff c,
      )
  unfolding write_buffered
  write_buffered-enqueued buff c =
      rw (smaller (length buff) (capacity c.crcsnd - length (queued c)))

  abbrev pub Written : Text → TcpClient cb → ℕ × TcpClient cb → Type 0
  Written buff c (n, c') =
      (n ≡ fitting buff c) × IsSending c' × (queued c' ≡ queued c ++ take n buff)

  write_buffered-Written :
      (buff : Text) (c : TcpClient cb) → IsSending c → Written buff c (write_buffered cb buff c)
  write_buffered-Written buff c s =
      rw (write_buffered-enqueued buff c)
        (elim (Bool-cases (length (queued c) == 0 && not (fitting buff c == 0))) [
          | inl first ↦
              let started =
                start_write-Flight (enqueued buff c) s.buffered
                  (Flight-idle c.writing (queued c) s.flight (ground arith)) in
              rw first (refl, started.0, started.1 ∙ queued-push_all _ c (take-fitting buff c))
          | inr later ↦ rw later (
            refl,
            record {
              buffered = s.buffered;
              flight = rw (queued-push_all _ c (take-fitting buff c)) (
                  Flight-append c.writing (queued c) _ s.flight
                    (λ e. take_none (fitting buff c) buff (ground arith)));
            },
            queued-push_all _ c (take-fitting buff c),
          )
        ])

  pub write-idle_area :
      (accepted : Text → ℕ) (x : ℕ) (buff : Text) (c : TcpClient cb)
      → c.usebuf ≡ true
      → write cb accepted (x ∷ buff) c ≡ write_buffered cb (x ∷ buff) c
  unfolding write
  write-idle_area accepted x buff c on = if_true _ _ on

  -- Write through the queue accepts as many bytes as there is room for, appends just these to the
  -- queue in order, overwrites nothing, and keeps an asynchronous write over the front of the
  -- queue outstanding unless the queue is empty.
  pub write-Written :
      (accepted : Text → ℕ) (buff : Text) (c : TcpClient cb)
      → IsSending c
      → Written buff c (write cb accepted buff c)
  write-Written accepted [] c s = unfold write in (omega arith, s, sym (append-nil _))
  write-Written accepted (x ∷ buff) c s =
      rw (write-idle_area accepted x buff c s.buffered) (write_buffered-Written (x ∷ buff) c s)

  handle_write_ok :
      (n : ℕ) (c : TcpClient cb)
      → IsSending c
      → n ≤ length (queued c)
      → let c' = (handle_write cb 0 n c).0 in IsSending c' × (queued c' ≡ drop n (queued c))
  unfolding handle_write
  handle_write_ok n c s h =
      let started =
        start_write-Flight
          (record c { writing = none; crcsnd = CircularBuffer.erase_begin cb c.crcsnd n })
          s.buffered refl in
      (started.0, started.1 ∙ items-erase_begin c.crcsnd n h)

  -- What happens to the send side: a call of Write, or the socket reports n bytes as sent.
  pub data SendEvent : Type 0 where
    written : Text → SendEvent
    sent : ℕ → SendEvent

  -- The client with all that Write has accepted and all that the socket has sent so far.
  pub record SendLog : Type 0 where
    pub client : TcpClient cb
    pub accepted : Text
    pub delivered : Text

  abbrev outgoing : Option Text → Text
  outgoing none = []
  outgoing (some w) = w

  -- The socket reports bytes of the outstanding write only.
  abbrev pub IsPossible : SendEvent → SendLog → Type 0
  IsPossible (written buff) l = Unit {0}
  IsPossible (sent n) l = n ≤ length (outgoing l.client.writing)

  pub send_step : SendEvent → SendLog → SendLog
  send_step (written buff) l =
      let (n, c') = write cb (λ b. 0) buff l.client in
      record { client = c'; accepted = l.accepted ++ take n buff; delivered = l.delivered }
  send_step (sent n) l = record {
    client = (handle_write cb 0 n l.client).0;
    accepted = l.accepted;
    delivered = l.delivered ++ take n (outgoing l.client.writing);
  }

  pub send_run : List SendEvent → SendLog → SendLog
  send_run [] l = l
  send_run (e ∷ es) l = send_run es (send_step e l)

  abbrev pub ArePossible : List SendEvent → SendLog → Type 0
  ArePossible [] l = Unit {0}
  ArePossible (e ∷ es) l = IsPossible e l × ArePossible es (send_step e l)

  -- Nothing is lost, repeated or reordered: what was accepted is what was sent, then the queue.
  pub record IsFaithful (l : SendLog) : Type 0 where
    pub sending : IsSending l.client
    pub in_order : l.accepted ≡ l.delivered ++ queued l.client

  sent_split :
      (n : ℕ) (m : Option Text) (q : Text)
      → Flight m q
      → n ≤ length (outgoing m)
      → (n ≤ length q) × (take n (outgoing m) ++ drop n q ≡ q)
  sent_split zero none q f h = (omega arith, refl)
  sent_split (suc n) none q f h = absurd (omega arith)
  sent_split n (some w) q (pos_, (rest, split)) h = rw split (
    omega (arith, length-append {0} w rest),
    rw (drop-append n w rest h) (
        sym (append_assoc (take n w) (drop n w) rest) ∙ ap (λ t. t ++ rest) (take-append-drop n w)),
  )

  send_step-IsFaithful :
      (e : SendEvent) (l : SendLog) → IsFaithful l → IsPossible e l → IsFaithful (send_step e l)
  unfolding send_step
  send_step-IsFaithful (written buff) l f p =
      let (count, ok, kept) = write-Written (λ b. 0) buff l.client f.sending in
      record {
        sending = ok;
        in_order =
            rw (kept, f.in_order)
              (append_assoc l.delivered (queued l.client)
                (take (write cb (λ b. 0) buff l.client).0 buff));
      }
  send_step-IsFaithful (sent n) l f p =
      let (fits, split) = sent_split n l.client.writing (queued l.client) f.sending.flight p in
      let (ok, left) = handle_write_ok n l.client f.sending fits in
      record {
        sending = ok;
        in_order =
            rw (left, f.in_order)
              (ap (◌++◌ l.delivered) (sym split)
                ∙ sym (append_assoc l.delivered (take n (outgoing l.client.writing)) _));
      }

  -- Over every sequence of Write calls and successful completions, each of at most the bytes outstanding,
  -- the bytes
  -- accepted by Write are the bytes sent followed by the queue, in order, with no loss, and there
  -- is always an asynchronous write outstanding while the queue is not empty.
  pub send_run-IsFaithful :
      (es : List SendEvent) (l : SendLog)
      → IsFaithful l
      → ArePossible es l
      → IsFaithful (send_run es l)
  unfolding send_run
  send_run-IsFaithful [] l f p = f
  send_run-IsFaithful (e ∷ es) l f p =
      send_run-IsFaithful es (send_step e l) (send_step-IsFaithful e l f p.0) p.1
