-- ===== src/NtpClient.antt =====
-- src/NTPClient.h and src/NTPClient.cpp: the time server's client, as rounds of its thread. The
-- socket is seen as open or not; what it and the clock deliver arrives as arguments. `double` is a
-- parameter. A `long` has eight bytes, the lowest first. Log lines are left out.
pub mod Answers
use ftserver.Run.{Run, ok, fault, out_of_bounds, ◌>>=◌}
use ftserver.Base.{
  ℕ, zero, suc, ◌+◌, ◌-◌, ◌*◌, ◌/◌, ◌%◌, ◌^◌, ◌≡◌, Bool, true, false, not, ◌&&◌, ◌||◌, Option, none,
  some, List, [], ◌∷◌, ◌++◌, Text, codes, c_str, leb, ltb, ◌==◌, if◌then◌else◌, length, take, drop,
  splice, replicate, ℤ, pos, negsuc,
}

-- The type double: its values as the source's literals name them, and the operations used.
pub record Doubles : Type 1 where
  pub Double : Type 0
  pub literal : Text → Double
  pub of_int : ℤ → Double
  pub to_nat : Double → ℕ
  pub add : Double → Double → Double
  pub sub : Double → Double → Double
  pub mul : Double → Double → Double
  pub div : Double → Double → Double
  pub neg : Double → Double
  pub le : Double → Double → Bool

abbrev pub jan_1970 : ℕ
jan_1970 = 0x83AA7E80

abbrev pub ntp_pck_len : ℕ
ntp_pck_len = 48

-- struct timeval
pub record TimeVal : Type 0 where
  pub tv_sec : ℕ
  pub tv_usec : ℕ

-- ntp_time
pub record NtpTime : Type 0 where
  pub coarse : ℕ
  pub fine : ℕ

-- The parts of ntp_packet that are used after get_time.
pub record NtpPacket : Type 0 where
  pub stratum : ℕ
  pub reference_identifier : Text
  pub originate_timestamp : NtpTime
  pub receive_timestamp : NtpTime
  pub transmit_timestamp : NtpTime

-- The four bytes of htonl's result in memory, and with the upper half of the `long` behind them.
abbrev pub be32 : ℕ → Text
be32 w = w / 2 ^ 24 % 256 ∷ w / 2 ^ 16 % 256 ∷ w / 2 ^ 8 % 256 ∷ w % 256 ∷ []

abbrev pub long_bytes : ℕ → Text
long_bytes w = be32 w ++ 0 ∷ 0 ∷ 0 ∷ 0 ∷ []

-- ntohl of the four bytes at a position; a byte that is not there reads as zero.
abbrev pub byte_at : Text → ℕ → ℕ
byte_at data_ i = elim (drop i data_) [ [] ↦ 0 | c ∷ _ ↦ c ]

unfoldable pub read32 : Text → ℕ → ℕ
read32 data_ i =
    byte_at data_ i * 2 ^ 24
    + byte_at data_ (i + 1) * 2 ^ 16
    + byte_at data_ (i + 2) * 2 ^ 8
    + byte_at data_ (i + 3)

unfoldable pub read_time : Text → ℕ → NtpTime
unfolding read32
read_time data_ i = record { coarse = read32 data_ i; fine = read32 data_ (i + 4) }

-- (LI << 30) | (version << 27) | (MODE << 24) | (STRATUM << 16) | (POLL << 8) | (PREC & 0xff)
abbrev pub header_word : ℕ
header_word = 4 * 2 ^ 27 + 3 * 2 ^ 24 + 4 * 2 ^ 8 + 0xFA

-- construct_packet, with the time and the fraction that it puts in.
unfoldable pub construct_packet : ℕ → ℕ → Text → Text
construct_packet coarse fine pack =
    let p0 = splice pack 0 (replicate ntp_pck_len 0) in
    let p1 = splice p0 0 (long_bytes header_word) in
    let p2 = splice p1 4 (long_bytes (2 ^ 16)) in
    let p3 = splice p2 8 (long_bytes (2 ^ 16)) in
    let p4 = splice p3 40 (long_bytes (coarse % 2 ^ 32)) in
    splice p4 44 (long_bytes (fine % 2 ^ 32))

-- What becomes of one exchange. recvfrom takes at most the 384 bytes of the buffer from an answer.
pub data Reply : Type 0 where
  send_failed : Reply
  timeout : Reply
  receive_failed : Reply
  received : Text → Reply

-- The fields of a packet; strcpy puts the text at 12 with its NUL into four bytes.
unfoldable pub parse_packet : Text → Run NtpPacket
unfolding read_time
parse_packet data_ =
    if ltb (length (c_str (drop 12 data_))) 4
    then ok (record {
      stratum = byte_at data_ 1;
      reference_identifier = c_str (drop 12 data_);
      originate_timestamp = read_time data_ 24;
      receive_timestamp = read_time data_ 32;
      transmit_timestamp = read_time data_ 40;
    })
    else fault out_of_bounds

-- What one round meets: whether a socket can be had, the time sent, and the reply with its time.
pub record Round : Type 0 where
  pub connects : Bool
  pub coarse : ℕ
  pub fine : ℕ
  pub reply : Reply
  pub now : TimeVal

module _ (d : Doubles) where
  open d use {Double, literal, of_int, to_nat, add, sub, mul, div, neg, le}

  pub record NtpClient : Type 0 where
    pub host : Text
    pub port : ℕ
    pub sock : Bool
    pub pack : Text
    pub offset : Double
    pub valid : Bool
    pub nfail : ℕ
    pub t_sync : Double
    pub auto_sync : Bool

  abbrev pub limit_of : ℤ → Double
  limit_of t_sync = mul (of_int t_sync) (literal (codes "0.001"))

  -- NTPClient(hostIP, port, tSync)
  unfoldable pub make_ntp : Text → ℕ → ℤ → NtpClient
  make_ntp host_ip port t_sync = record {
    host = host_ip;
    port = port;
    sock = false;
    pack = replicate (ntp_pck_len * 8) 0;
    offset = literal (codes "0.0");
    valid = false;
    nfail = 0;
    t_sync = limit_of t_sync;
    auto_sync = false;
  }

  -- ~NTPClient, once the thread has ended.
  unfoldable pub destroy_ntp : NtpClient → NtpClient
  destroy_ntp c = record c { sock = false }

  unfoldable pub set_host : Text → ℕ → NtpClient → NtpClient
  set_host ip port c = record c { host = ip; port = port; sock = false }

  unfoldable pub set_sync_limit : ℤ → NtpClient → NtpClient
  set_sync_limit t_sync c = record c { t_sync = limit_of t_sync }

  unfoldable pub enable_auto_synch : Bool → NtpClient → NtpClient
  enable_auto_synch enabled c = record c { auto_sync = enabled }

  -- `offset_ >= tSync_ || offset_ <= -tSync_`
  abbrev pub drifted : NtpClient → Bool
  drifted c = le c.t_sync c.offset || le c.offset (neg c.t_sync)

  -- tv_sec + tv_usec * 1E-6
  abbrev pub seconds : TimeVal → Double
  seconds tv = add (of_int (pos tv.tv_sec)) (mul (of_int (pos tv.tv_usec)) (literal (codes "1E-6")))

  -- The time that SynchClock sets.
  abbrev pub corrected : Double → TimeVal
  corrected t = record {
    tv_sec = to_nat t;
    tv_usec = to_nat (mul (sub t (of_int (pos (to_nat t)))) (literal (codes "1E6")));
  }

  -- SynchClock: the time it sets, if it does, and the client after.
  unfoldable pub synch_clock : TimeVal → NtpClient → Option TimeVal × NtpClient
  synch_clock tv c =
      if c.valid && drifted c
      then (some (corrected (add (seconds tv) c.offset)), record c { valid = false })
      else (none, c)

  -- get_time: the packet, if one came, and the client after.
  unfoldable pub get_time : ℕ → ℕ → Reply → NtpClient → Run (Option NtpPacket × NtpClient)
  get_time coarse fine send_failed c =
      ok (none, record c { sock = false; pack = construct_packet coarse fine c.pack })
  get_time coarse fine timeout c =
      ok (none, record c { pack = construct_packet coarse fine c.pack })
  get_time coarse fine receive_failed c =
      ok (none, record c { sock = false; pack = construct_packet coarse fine c.pack })
  get_time coarse fine (received bytes) c =
      let data_ = splice (construct_packet coarse fine c.pack) 0 bytes in
      do
        packet ← parse_packet data_
        ok (some packet, record c { pack = data_; valid = true; nfail = 0 })

  -- coarse + (double) fine / UINTMAX
  abbrev pub stamp : NtpTime → Double
  stamp t = add (of_int (pos t.coarse)) (div (of_int (pos t.fine)) (literal (codes "4294967295.0")))

  -- ((t2 - t1) + (t3 - t4)) * 0.5
  abbrev pub offset_of : NtpPacket → TimeVal → Double
  offset_of p tv =
      let t4 =
        add (of_int (pos (jan_1970 + tv.tv_sec)))
          (mul (of_int (pos tv.tv_usec)) (literal (codes "1E-6"))) in
      mul
        (add (sub (stamp p.receive_timestamp) (stamp p.originate_timestamp))
          (sub (stamp p.transmit_timestamp) t4))
        (literal (codes "0.5"))

  -- What the thread does once get_time has returned.
  unfoldable pub after_reply : TimeVal → Option NtpPacket × NtpClient → Option TimeVal × NtpClient
  unfolding synch_clock
  after_reply tv (some p, c) =
      let c' = record c { offset = offset_of p tv } in
      if drifted c' && c.auto_sync then synch_clock tv c' else (none, c')
  after_reply tv (none, c) =
      let c' = record c { nfail = c.nfail + 1 } in
      (none, if leb 5 c'.nfail && c'.valid then record c' { valid = false } else c')

  -- One round of thread_body, after its sleep.
  unfoldable pub round : Round → NtpClient → Run (Option TimeVal × NtpClient)
  unfolding get_time after_reply
  round e c =
      if not c.sock && not e.connects
      then ok (none, c)
      else get_time e.coarse e.fine e.reply (record c { sock = true }) >>= λ r.
          ok (after_reply e.now r)
