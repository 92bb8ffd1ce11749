-- ===== src/Tcp.antt =====
-- src/tcpasio.h and src/tcpasio.cpp, class TCPClient: the receive buffers, the send queue and the
-- registered slots. The socket is seen through its flags and through the reads and writes that
-- are outstanding on it; what it transfers arrives as arguments of the handlers.
pub mod Circular
pub mod Search
pub mod Buffers
pub mod Sending
pub mod Failing
pub mod Connecting
pub mod Server
use Circular.{CircularBuffer}
use ftserver.Base.{
  ℕ, zero, suc, ◌+◌, ◌-◌, ◌*◌, ◌≡◌, Bool, true, false, not, ◌&&◌, ◌||◌, Option, none, some, List,
  [], ◌∷◌, ◌++◌, map, Text, ltb, leb, ◌==◌, if◌then◌else◌, length, take, drop, splice, replicate, ℤ,
  pos, negsuc, leb_ℤ, ltb_ℤ, pos_part,
}

abbrev pub tcp_pack_size : ℕ
tcp_pack_size = 1500

-- A slot is the number of the function that is connected.
abbrev pub Slot : Type 0
Slot = ℕ

-- One call of a slot: the slot and its second argument.
abbrev pub Call : Type 0
Call = Slot × ℤ

pub record TcpClient (cb : CircularBuffer) : Type 0 where
  pub sock_open : Bool
  pub cbconn : List Slot
  pub cbrcv : List Slot
  pub cbsnd : List Slot
  pub usebuf : Bool
  pub bytercv : ℕ
  pub bufrcv : Text
  pub crcrcv : CircularBuffer.Buf cb
  pub crcsnd : CircularBuffer.Buf cb
  pub reading : Bool
  pub writing : Option Text

-- `if (!cb.empty()) cb.disconnect_all_slots(); cb.connect(slot);`
abbrev reconnect : List Slot → Slot → List Slot
reconnect slots slot =
    let kept : List Slot = elim slots [ [] ↦ [] | _ ∷ _ ↦ [] ] in kept ++ slot ∷ []

-- `if (!cb.empty()) cb(this, value);`
abbrev pub fire : List Slot → ℤ → List Call
fire slots value = map (λ s. (s, value)) slots

-- The matching loop `for (i = 0, j = pos; i < len && flag[i] == buf[j]; ++i, ++j);`: the final i.
pub matched : ℕ → Text → Text → ℕ
matched zero flag buf = 0
matched (suc k) (f ∷ flag) (c ∷ buf) = if f == c then suc (matched k flag buf) else 0
matched (suc k) _ _ = 0

-- `for (pos = from; i != len && pos <= n; ++pos)`, with the rounds left and the bytes at pos on.
pub look_from : ℕ → ℕ → ℕ → Text → Text → ℤ
unfolding matched
look_from zero pos_ len flag buf = negsuc 0
look_from (suc rounds) pos_ len flag buf =
    let rest = look_from rounds (pos_ + 1) len flag (drop 1 buf) in
    if matched len flag buf == len then pos pos_ else rest

module _ (cb : CircularBuffer) where
  open cb use {items, capacity, push_back, erase_begin, set_capacity, clear, empty}

  -- TCPClient(), with the socket not yet open.
  unfoldable pub maketcp_client : TcpClient cb
  maketcp_client = record {
    sock_open = false;
    cbconn = [];
    cbrcv = [];
    cbsnd = [];
    usebuf = false;
    bytercv = 0;
    bufrcv = replicate tcp_pack_size 0;
    crcrcv = empty;
    crcsnd = empty;
    reading = false;
    writing = none;
  }

  -- Close() when the socket reports no error.
  unfoldable pub close : TcpClient cb → TcpClient cb
  close c = if c.sock_open then record c { sock_open = false } else c

  -- ~TCPClient
  unfoldable pub destroy_client : TcpClient cb → TcpClient cb
  unfolding close
  destroy_client c = close c

  pub use_buffer : Bool → TcpClient cb → TcpClient cb
  use_buffer true c = if c.usebuf then c else record c {
    usebuf = true;
    crcrcv = set_capacity c.crcrcv (tcp_pack_size * 10);
    crcsnd = set_capacity c.crcsnd (tcp_pack_size * 10);
  }
  use_buffer false c =
      if c.usebuf
      then record c { usebuf = false; crcrcv = clear c.crcrcv; crcsnd = clear c.crcsnd }
      else c

  unfoldable pub register_connect : Slot → TcpClient cb → TcpClient cb
  register_connect slot c = record c { cbconn = reconnect c.cbconn slot }

  unfoldable pub register_read : Slot → TcpClient cb → TcpClient cb
  register_read slot c = record c { cbrcv = reconnect c.cbrcv slot }

  unfoldable pub register_write : Slot → TcpClient cb → TcpClient cb
  register_write slot c = record c { cbsnd = reconnect c.cbsnd slot }

  -- The bytes that Lookup and Read index, and how many of them count.
  abbrev pub source : TcpClient cb → Text
  source c = if c.usebuf then items c.crcrcv else c.bufrcv

  abbrev pub received_size : TcpClient cb → ℕ
  received_size c = if c.usebuf then length (items c.crcrcv) else c.bytercv

  -- Lookup(char* first), `none` for a null pointer: the result, and what is stored in *first.
  unfoldable pub lookup_first : Bool → TcpClient cb → ℤ × Text
  lookup_first first c =
      if not (first && not (received_size c == 0))
      then (negsuc 0, [])
      else (pos (received_size c), take 1 (source c))

  -- Lookup(flag, len, from), `none` for a null flag.
  unfoldable pub lookup : Option Text → ℤ → ℤ → TcpClient cb → ℤ
  unfolding look_from
  lookup none len from c = negsuc 0
  lookup (some flag) len from c =
      if leb_ℤ len (pos 0) || ltb_ℤ from (pos 0)
      then negsuc 0
      else look_from (received_size c + 1 - pos_part len - pos_part from) (pos_part from)
          (pos_part len) flag (drop (pos_part from) (source c))

  -- The copying part of Read for a positive length: the bytes put into buff, and the client after.
  pub read_queue : ℕ → ℕ → TcpClient cb → Text × TcpClient cb
  read_queue len from c =
      let n0 = from + len in
      let size = length (items c.crcrcv) in
      let n = if ltb n0 size then n0 else size in
      let i = n - from in
      (
        take i (drop from (items c.crcrcv)),
        if i == 0 then c else record c { crcrcv = erase_begin c.crcrcv i },
      )

  pub read_area : ℕ → ℕ → TcpClient cb → Text × TcpClient cb
  read_area len from c =
      let n = if ltb c.bytercv (from + len) then c.bytercv - from else len in
      (take n (drop from c.bufrcv), c)

  -- Read(buff, len, from) into a buffer that is not null: the bytes read (their number is the
  -- result), and the client after.
  unfoldable pub read : ℤ → ℤ → TcpClient cb → Text × TcpClient cb
  unfolding read_queue read_area
  read len from c =
      if leb_ℤ len (pos 0) || ltb_ℤ from (pos 0)
      then ([], c)
      else if c.usebuf
      then read_queue (pos_part len) (pos_part from) c
      else read_area (pos_part len) (pos_part from) c

  unfoldable pub start_read : TcpClient cb → TcpClient cb
  start_read c = if c.sock_open then record c { reading = true } else c

  -- async_write_some over the whole linearised queue.
  unfoldable pub start_write : TcpClient cb → TcpClient cb
  start_write c =
      if length (items c.crcsnd) == 0 then c else record c { writing = some (items c.crcsnd) }

  pub push_all : Text → CircularBuffer.Buf cb → CircularBuffer.Buf cb
  push_all [] b = b
  push_all (x ∷ xs) b = push_all xs (push_back b x)

  -- Write of a text that is not null, through the send queue: the number of bytes accepted.
  pub write_buffered : Text → TcpClient cb → ℕ × TcpClient cb
  unfolding push_all start_write
  write_buffered buff c =
      let n0 = length (items c.crcsnd) in
      let room = capacity c.crcsnd - n0 in
      let n = if ltb (length buff) room then length buff else room in
      let queued = record c { crcsnd = push_all (take n buff) c.crcsnd } in
      (n, if n0 == 0 && not (n == 0) then start_write queued else queued)

  -- Write(buff, len) with len the length of buff; `accepted` is what sock_.write_some returns.
  unfoldable pub write : (Text → ℕ) → Text → TcpClient cb → ℕ × TcpClient cb
  unfolding write_buffered
  write accepted [] c = (0, c)
  write accepted (x ∷ buff) c =
      if c.usebuf then write_buffered (x ∷ buff) c else (accepted (x ∷ buff), c)

  -- handle_connect(ec): the client after, and the calls made.
  unfoldable pub handle_connect : ℕ → TcpClient cb → TcpClient cb × List Call
  unfolding start_read
  handle_connect ec c = (if ec == 0 then start_read c else c, fire c.cbconn (pos ec))

  -- The part of handle_read under the lock: `arrived` is what the socket put into bufrcv_.
  pub store_arrived : Text → TcpClient cb → TcpClient cb
  unfolding push_all
  store_arrived arrived c =
      let filled = record c { bufrcv = splice c.bufrcv 0 arrived } in
      if c.usebuf
      then record filled { crcrcv = push_all arrived c.crcrcv }
      else record filled { bytercv = length arrived }

  -- handle_read(ec, n). The callback runs between the two parts, so a caller continues with
  -- `finish_read`, which is `if (!ec) start_read();`.
  unfoldable pub handle_read : ℕ → Text → TcpClient cb → TcpClient cb × List Call
  unfolding store_arrived
  handle_read ec arrived c =
      let idle = record c { reading = false } in
      (if ec == 0 then store_arrived arrived idle else idle, fire c.cbrcv (pos ec))

  unfoldable pub finish_read : ℕ → TcpClient cb → TcpClient cb
  unfolding start_read
  finish_read ec c = if ec == 0 then start_read c else c

  -- handle_write(ec, n)
  unfoldable pub handle_write : ℕ → ℕ → TcpClient cb → TcpClient cb × List Call
  unfolding start_write
  handle_write ec n c =
      let done = record c { writing = none } in
      if ec == 0
      then (start_write (record done { crcsnd = erase_begin c.crcsnd n }), fire c.cbsnd (pos n))
      else (done, [])
