-- ===== src/Tcp/Failing.antt =====
-- The send queue of TCPClient after an asynchronous write has failed.
use ftserver.Base.{
  ℕ, ◌<◌, ◌≡◌, refl, ap, true, false, List, [], ◌∷◌, none, arith, Text, ◌==◌, length, take,
  length-append,
}
use ftserver.Tcp.Circular.{CircularBuffer}
use ftserver.Tcp.{TcpClient, write_buffered, write, handle_write}
use ftserver.Tcp.Sending.{
  IsSending, queued, queued-push_all, take-fitting, fitting, write_buffered-enqueued,
  write-idle_area,
}

module _ (cb : CircularBuffer) where
  open cb use {items}

  -- A queue that holds bytes with no asynchronous write outstanding, as a failed write leaves it.
  pub record IsStuck (c : TcpClient cb) : Type 0 where
    pub buffered : c.usebuf ≡ true
    pub idle : c.writing ≡ none
    pub waiting : 0 < length (queued cb c)

  pub write_all : List Text → TcpClient cb → TcpClient cb
  write_all [] c = c
  write_all (buff ∷ buffs) c = write_all buffs (write cb (λ b. 0) buff c).1

  write_buffered-IsStuck :
      (buff : Text) (c : TcpClient cb) → IsStuck c → IsStuck (write_buffered cb buff c).1
  write_buffered-IsStuck buff c s =
      let later : (length (queued cb c) == 0) ≡ false = ground arith in
      rw (write_buffered-enqueued cb buff c, later)
        (record {
          buffered = s.buffered;
          idle = s.idle;
          waiting = omega (
            arith,
            s.waiting,
            ap length (queued-push_all cb _ c (take-fitting cb buff c)),
            length-append {0} (queued cb c) (take (fitting cb buff c) buff),
          );
        })

  write_all-IsStuck :
      (buffs : List Text) (c : TcpClient cb) → IsStuck c → IsStuck (write_all buffs c)
  unfolding write_all
  write_all-IsStuck [] c s = s
  write_all-IsStuck ([] ∷ buffs) c s = write_all-IsStuck buffs _ (unfold write in s)
  write_all-IsStuck ((x ∷ buff) ∷ buffs) c s =
      write_all-IsStuck buffs _ (
        rw (write-idle_area cb (λ b. 0) x buff c s.buffered)
          (write_buffered-IsStuck (x ∷ buff) c s))

  handle_write_error :
      (ec n : ℕ) (c : TcpClient cb)
      → 0 < ec
      → (handle_write cb ec n c).0 ≡ record c { writing = none }
  unfolding handle_write
  handle_write_error ec n c h = ground arith

  -- Once an asynchronous write fails while bytes are queued, no later Write, however many follow,
  -- starts another: the queue stays, and nothing is outstanding on the socket.
  pub write_all-handle_write_error :
      (ec n : ℕ) (buffs : List Text) (c : TcpClient cb)
      → 0 < ec
      → IsSending cb c
      → 0 < length (queued cb c)
      → IsStuck (write_all buffs (handle_write cb ec n c).0)
  write_all-handle_write_error ec n buffs c h s w =
      rw (handle_write_error ec n c h)
        (write_all-IsStuck buffs _ (record { buffered = s.buffered; idle = refl; waiting = w }))
