-- ===== src/Tcp/Connecting.antt =====
-- class TCPClient of src/tcpasio.cpp on the side that connects: Connect and AsyncConnect, and what a
-- client may do after the first of them.
use ftserver.Run.{Run, ok, fault, uncaught, ◌>>=◌, Ensures, Ensures->>=, Ensures-mono}
use ftserver.Tcp.Circular.{CircularBuffer}
use ftserver.Tcp.{
  TcpClient, Slot, maketcp_client, close, use_buffer, register_connect, register_read,
  register_write, read, write, handle_write, start_write, handle_connect, start_read, read_queue,
  read_area, write_buffered,
}
use ftserver.Base.{ℕ, ◌≡◌, refl, Bool, true, false, List, [], ◌∷◌, Text, ◌==◌, ℤ, arith}

-- How an attempt ends: resolve throws, the socket cannot be opened, or the error code of the
-- connection, 0 for none. A socket that was opened for it stays open, as boost documents.
pub data Attempt : Type 0 where
  unresolved unopened : Attempt
  tried : ℕ → Attempt

module _ (cb : CircularBuffer) where
  -- Connect, with set_option taken to succeed.
  unfoldable pub connect : Attempt → TcpClient cb → Run (Bool × TcpClient cb)
  connect unresolved c = fault uncaught
  connect unopened c = ok (false, c)
  connect (tried ec) c = ok (ec == 0, record c { sock_open = true })

  -- AsyncConnect; the result comes by handle_connect.
  unfoldable pub async_connect : Attempt → TcpClient cb → Run (TcpClient cb)
  async_connect unresolved c = fault uncaught
  async_connect unopened c = ok c
  async_connect (tried ec) c = ok (record c { sock_open = true })

  -- What the owner of a client can call beside AsyncConnect, and the completion of a write.
  pub data Use : Type 0 where
    connects : Attempt → Use
    closes : Use
    buffers : Bool → Use
    registers_connect registers_read registers_write : Slot → Use
    reads : ℤ → ℤ → Use
    writes : (Text → ℕ) → Text → Use
    wrote : ℕ → ℕ → Use

  pub after : Use → TcpClient cb → Run (TcpClient cb)
  after (connects a) c = do (rslt, c') ← connect a c; ok c'
  after closes c = ok (close cb c)
  after (buffers usebuf) c = ok (use_buffer cb usebuf c)
  after (registers_connect slot) c = ok (register_connect cb slot c)
  after (registers_read slot) c = ok (register_read cb slot c)
  after (registers_write slot) c = ok (register_write cb slot c)
  after (reads len from) c = ok (read cb len from c).1
  after (writes accepted buff) c = ok (write cb accepted buff c).1
  after (wrote ec n) c = ok (handle_write cb ec n c).0

  pub after_all : List Use → TcpClient cb → Run (TcpClient cb)
  after_all [] c = ok c
  after_all (u ∷ us) c = do c' ← after u c; after_all us c'

  abbrev IsDeaf : TcpClient cb → Type 0
  IsDeaf c = c.reading ≡ false

  use_buffer-IsDeaf :
      (usebuf : Bool) (c : TcpClient cb) → IsDeaf c → IsDeaf (use_buffer cb usebuf c)
  unfolding use_buffer
  use_buffer-IsDeaf true c h = ground arith
  use_buffer-IsDeaf false c h = ground arith

  read-IsDeaf : (len from : ℤ) (c : TcpClient cb) → IsDeaf c → IsDeaf (read cb len from c).1
  unfolding read read_queue read_area
  read-IsDeaf len from c h = ground arith

  write-IsDeaf :
      (accepted : Text → ℕ) (buff : Text) (c : TcpClient cb)
      → IsDeaf c
      → IsDeaf (write cb accepted buff c).1
  unfolding write write_buffered start_write
  write-IsDeaf accepted [] c h = h
  write-IsDeaf accepted (x ∷ buff) c h = ground arith

  handle_write-IsDeaf : (ec n : ℕ) (c : TcpClient cb) → IsDeaf c → IsDeaf (handle_write cb ec n c).0
  unfolding handle_write start_write
  handle_write-IsDeaf ec n c h = ground arith

  after-IsDeaf : (u : Use) (c : TcpClient cb) → IsDeaf c → Ensures IsDeaf (after u c)
  unfolding after connect close register_connect register_read register_write
  after-IsDeaf (connects unresolved) c h = tt
  after-IsDeaf (connects unopened) c h = h
  after-IsDeaf (connects (tried ec)) c h = h
  after-IsDeaf closes c h = ground arith
  after-IsDeaf (buffers usebuf) c h = use_buffer-IsDeaf usebuf c h
  after-IsDeaf (registers_connect slot) c h = h
  after-IsDeaf (registers_read slot) c h = h
  after-IsDeaf (registers_write slot) c h = h
  after-IsDeaf (reads len from) c h = read-IsDeaf len from c h
  after-IsDeaf (writes accepted buff) c h = write-IsDeaf accepted buff c h
  after-IsDeaf (wrote ec n) c h = handle_write-IsDeaf ec n c h

  after_all-IsDeaf : (us : List Use) (c : TcpClient cb) → IsDeaf c → Ensures IsDeaf (after_all us c)
  unfolding after_all
  after_all-IsDeaf [] c h = h
  after_all-IsDeaf (u ∷ us) c h =
      Ensures->>= IsDeaf IsDeaf (after u c) (after_all us) (after-IsDeaf u c h)
        λ c' h'. after_all-IsDeaf us c' h'

  -- A client on which Connect, Close, UseBuffer, Read, Write and the registrations are called in any
  -- order, and whose writes complete in any way, never has a read outstanding on its socket, connected or
  -- not; AsyncConnect and a handle_connect without error then leave one.
  pub after_all-async_connect :
      (us : List Use)
      → Ensures
          (λ c.
            (c.reading ≡ false)
            × Ensures (λ c'. (handle_connect cb 0 c').0.reading ≡ true) (async_connect (tried 0) c))
          (after_all us (maketcp_client cb))
  unfolding async_connect handle_connect start_read
  after_all-async_connect us =
      Ensures-mono IsDeaf _ (after_all us (maketcp_client cb)) (λ c h. (h, refl))
        (after_all-IsDeaf us (maketcp_client cb) (unfold maketcp_client in refl))
