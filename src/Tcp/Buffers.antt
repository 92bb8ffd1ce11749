-- ===== src/Tcp/Buffers.antt =====
-- The receive side of TCPClient: what handle_read keeps of the bytes that arrive, and what Read
-- hands out and takes from the queue.
use ftserver.Base.{
  ℕ, ◌+◌, ◌-◌, ◌*◌, ◌≤◌, ◌<◌, ◌≡◌, refl, sym, ap, ◌∙◌, inl, inr, true, false, [], ◌∷◌, ◌++◌, arith,
  Text, ltb, ◌==◌, Bool-cases, ltb→lt, if◌then◌else◌, length, take, drop, drop-drop, drop-append,
  append_assoc, append-nil, length-append, min, if_true, if_false, drop-take, take-take, take-min,
  ==_iff, length-splice, take-length-append, drop-take, take-take, take-min, ==_iff, drop_congr,
  take_congr, length-drop, length-take, take_all, splice, pos,
}
use ftserver.Tcp.Circular.{CircularBuffer}
use ftserver.Tcp.{
  TcpClient, tcp_pack_size, push_all, handle_read, read, read_queue, read_area, received_size,
  source,
}

module _ (cb : CircularBuffer) where
  open cb use {
    Buf, items, capacity, push_back, erase_begin, length-items-le, items-push_back,
    items-push_back_full, capacity-push_back, items-erase_begin, capacity-erase_begin,
    capacity-set_capacity, items-empty, items-set_capacity, capacity-empty,
  }

  capacity-push_all : (xs : Text) (b : Buf) → capacity (push_all cb xs b) ≡ capacity b
  unfolding push_all
  capacity-push_all [] b = refl
  capacity-push_all (x ∷ xs) b = capacity-push_all xs (push_back b x) ∙ capacity-push_back b x

  -- The last n entries.
  abbrev pub last_of : ℕ → Text → Text
  last_of n xs = drop (length xs - n) xs

  items-push_back_any :
      (b : Buf) (c : ℕ) → items (push_back b c) ≡ last_of (capacity b) (items b ++ c ∷ [])
  items-push_back_any b c = elim (Bool-cases (ltb (length (items b)) (capacity b))) [
    | inl room ↦
        items-push_back b c (ltb→lt _ _ room)
        ∙ drop_congr 0 _ _ (omega (arith, ltb→lt _ _ room, length-append {0} (items b) (c ∷ [])))
    | inr full ↦
        items-push_back_full b c (ground arith)
        ∙ drop_congr 1 (length (items b ++ c ∷ []) - capacity b) (items b ++ c ∷ [])
            (ground (arith, length-items-le b, length-append {0} (items b) (c ∷ [])))
  ]

  -- Pushing a text into the circular buffer keeps the last bytes that fit.
  pub items-push_all :
      (xs : Text) (b : Buf) → items (push_all cb xs b) ≡ last_of (capacity b) (items b ++ xs)
  unfolding push_all
  items-push_all [] b =
      rw append-nil
        (drop_congr 0 (length (items b) - capacity b) _ (omega (arith, length-items-le b)))
  items-push_all (x ∷ xs) b =
      let a : Text = items b ++ x ∷ [] in
      let d : ℕ = length a - capacity b in
      let joined : drop d a ++ xs ≡ drop d (a ++ xs) = sym (drop-append d a xs (omega arith)) in
      items-push_all xs (push_back b x)
      ∙ rw (capacity-push_back b x, items-push_back_any b x, joined, append_assoc, drop-drop)
          (drop_congr _ _ (items b ++ x ∷ xs) (
            omega (
              arith,
              length-append {0} (items b) (x ∷ []),
              length-append {0} (items b) (x ∷ xs),
              length-drop {0} d (items b ++ x ∷ xs),
              length-items-le b,
            )))

  -- A receive area of the fixed size, and nothing counted beyond it.
  pub record IsValid (c : TcpClient cb) : Type 0 where
    pub area : length c.bufrcv ≡ tcp_pack_size
    pub within : c.bytercv ≤ tcp_pack_size
    pub queue : c.usebuf ≡ true → capacity c.crcrcv ≡ tcp_pack_size * 10

  -- What Lookup and Read work on: the received bytes alone.
  unfoldable pub received : TcpClient cb → Text
  received c = take (received_size cb c) (source cb c)

  received_all : (b : Buf) → take (length (items b)) (items b) ≡ items b
  received_all b = take_all _ _ (omega arith)

  pub received_on : (c : TcpClient cb) → c.usebuf ≡ true → received c ≡ items c.crcrcv
  unfolding received
  received_on c on =
      rw (if_true (length (items c.crcrcv)) c.bytercv on, if_true (items c.crcrcv) c.bufrcv on)
        (received_all c.crcrcv)

  pub received_off : (c : TcpClient cb) → c.usebuf ≡ false → received c ≡ take c.bytercv c.bufrcv
  unfolding received
  received_off c off =
      rw (if_false (length (items c.crcrcv)) c.bytercv off, if_false (items c.crcrcv) c.bufrcv off)

  -- What handle_read with no error leaves behind, in the two modes.
  kept_on :
      (arrived : Text) (c : TcpClient cb)
      → c.usebuf ≡ true
      → (handle_read cb 0 arrived c).0 ≡ record c {
        reading = false;
        bufrcv = splice c.bufrcv 0 arrived;
        crcrcv = push_all cb arrived c.crcrcv;
      }
  unfolding handle_read
  kept_on arrived c on = if_true _ _ on

  pub kept_off :
      (arrived : Text) (c : TcpClient cb)
      → c.usebuf ≡ false
      → (handle_read cb 0 arrived c).0
        ≡ record c { reading = false; bufrcv = splice c.bufrcv 0 arrived; bytercv = length arrived }
  unfolding handle_read
  kept_off arrived c off = if_false _ _ off

  filled_area :
      (arrived : Text) (c : TcpClient cb)
      → IsValid c
      → length arrived ≤ tcp_pack_size
      → length (splice c.bufrcv 0 arrived) ≡ tcp_pack_size
  filled_area arrived c v h = length-splice c.bufrcv 0 arrived (omega (arith, v.area)) ∙ v.area

  -- handle_read with no error on n bytes that fit in the area: with the queue enabled the last
  -- 15000 bytes of what was queued and what arrived are kept, else the last packet alone; the
  -- client stays valid.
  pub received-handle_read :
      (arrived : Text) (c : TcpClient cb)
      → IsValid c
      → length arrived ≤ tcp_pack_size
      → let c' = (handle_read cb 0 arrived c).0 in
        IsValid c'
        × (received c'
            ≡ (if c.usebuf then last_of (tcp_pack_size * 10) (received c ++ arrived) else arrived))
  unfolding handle_read
  received-handle_read arrived c v h = elim (Bool-cases c.usebuf) [
    | inl on ↦ rw (kept_on arrived c on) (
      record {
        area = filled_area arrived c v h;
        within = v.within;
        queue = λ _. capacity-push_all arrived c.crcrcv ∙ v.queue on;
      },
      received_on _ on
          ∙ items-push_all arrived c.crcrcv
          ∙ rw (v.queue on, ← received_on c on) (sym (if_true _ _ on)),
    )
    | inr off ↦ rw (kept_off arrived c off) (
      record { area = filled_area arrived c v h; within = h; queue = λ e. cc },
      received_off _ off ∙ take-length-append arrived _ ∙ sym (if_false _ _ off),
    )
  ]

  -- Read on the plain area.
  plain_window :
      (n f b : ℕ) (xs : Text)
      → take (if ltb b (f + n) then b - f else n) (drop f xs) ≡ take n (drop f (take b xs))
  plain_window n f b xs =
      take_congr _ (min n (b - f)) (drop f xs) (ground arith)
      ∙ sym (rw (drop-take f b xs) (take-take n (b - f) (drop f xs)))

  -- Read on the queue.
  queue_window :
      (n f : ℕ) (xs : Text)
      → take ((if ltb (f + n) (length xs) then f + n else length xs) - f) (drop f xs)
        ≡ take n (drop f xs)
  queue_window n f xs = take-min _ n (drop f xs) (ground (arith, length-drop {0} f xs))

  length-queue_window :
      (n f : ℕ) (xs : Text)
      → length (take n (drop f xs)) ≡ (if ltb (f + n) (length xs) then f + n else length xs) - f
  length-queue_window n f xs = ground (arith, length-take {0} n (drop f xs), length-drop {0} f xs)

  items_rest :
      (i : ℕ) (c : TcpClient cb)
      → c.usebuf ≡ true
      → i ≤ length (items c.crcrcv)
      → received (if i == 0 then c else record c { crcrcv = erase_begin c.crcrcv i })
        ≡ drop i (items c.crcrcv)
  items_rest i c on h = elim (Bool-cases (i == 0)) [
    | inl none_read ↦
        rw none_read (received_on c on ∙ drop_congr 0 i _ (sym ((==_iff i 0).0 none_read)))
    | inr some_read ↦ rw some_read (
        received_on (record c { crcrcv = erase_begin c.crcrcv i }) on
        ∙ items-erase_begin c.crcrcv i h)
  ]

  -- What a read returns, and what is left.
  abbrev ReadsRight : ℕ → ℕ → TcpClient cb → Text × TcpClient cb → Type 0
  ReadsRight n f c (out, c') =
      (out ≡ take n (drop f (received c)))
      × (received c' ≡ (if c.usebuf then drop (length out) (received c) else received c))

  read_queue-ReadsRight :
      (n f : ℕ) (c : TcpClient cb) → c.usebuf ≡ true → ReadsRight n f c (read_queue cb n f c)
  unfolding read_queue
  read_queue-ReadsRight n f c on =
      rw (if_true _ _ on, received_on c on)
        (
          queue_window n f (items c.crcrcv),
          items_rest _ c on (ground arith)
              ∙ drop_congr _ _ (items c.crcrcv) (
                  sym (
                    ap length (queue_window n f (items c.crcrcv))
                    ∙ length-queue_window n f (items c.crcrcv))),
        )

  read_area-ReadsRight :
      (n f : ℕ) (c : TcpClient cb) → c.usebuf ≡ false → ReadsRight n f c (read_area cb n f c)
  unfolding read_area
  read_area-ReadsRight n f c off =
      rw (if_false (drop _ (received c)) (received c) off, received_off c off)
        (plain_window n f c.bytercv c.bufrcv, refl)

  read_on :
      (n f : ℕ) (c : TcpClient cb)
      → 0 < n
      → c.usebuf ≡ true
      → read cb (pos n) (pos f) c ≡ read_queue cb n f c
  unfolding read
  read_on n f c h on = ground arith

  read_off :
      (n f : ℕ) (c : TcpClient cb)
      → 0 < n
      → c.usebuf ≡ false
      → read cb (pos n) (pos f) c ≡ read_area cb n f c
  unfolding read
  read_off n f c h off = ground arith

  -- Read with a positive length n and a start f that is not negative, returns
  -- the received bytes at f to f + n, as far as they go. Without the queue the received bytes all stay;
  -- with it as many bytes as were read leave the front of the queue, wherever they were read.
  pub read-received :
      (n f : ℕ) (c : TcpClient cb)
      → 0 < n
      → let (out, c') = read cb (pos n) (pos f) c in
        (out ≡ take n (drop f (received c)))
        × (received c' ≡ (if c.usebuf then drop (length out) (received c) else received c))
  read-received n f c h = elim (Bool-cases c.usebuf) [
    | inl on ↦ rw (read_on n f c h on) (read_queue-ReadsRight n f c on)
    | inr off ↦ rw (read_off n f c h off) (read_area-ReadsRight n f c off)
  ]
