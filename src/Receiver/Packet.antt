-- ===== src/Receiver/Packet.antt =====
-- One packet: what the read handler and network_receive make of it.
use ftserver.Run.{ok, null_pointer, or_fault, ◌>>=◌}
use ftserver.Files.{FileInfo, data_arrive, IsStored}
use ftserver.Files.Assembly.{grown, arrive-fits}
use ftserver.Tcp.Circular.{CircularBuffer}
use ftserver.Tcp.Buffers.{kept_off}
use ftserver.Tcp.{TcpClient, tcp_pack_size, Slot, fire, read, handle_read, finish_read}
use ftserver.Protocol.Boost.{BoostText}
use ftserver.Protocol.{Floats}
use ftserver.Receiver.{
  FileReceiver, ready, connection, current, stored_data, receive_from, receive_in, receive_data,
  network_receive, network_read, called, map_option,
}
use ftserver.Base.{
  ℕ, ◌+◌, ◌≤◌, ◌≡◌, refl, ap, ◌∙◌, false, some, List, ◌∷◌, Text, leb, length, take, splice,
  get_elem?, pos, arith, take-length-append,
}

module _ (cb : CircularBuffer) (fl : Floats) (b : BoostText) where
  abbrev Receiver : Type 0
  Receiver = FileReceiver cb fl b

  -- The connection after a packet, and after the next read is started.
  abbrev pub filled : Text → TcpClient cb → TcpClient cb
  filled d c = record c { reading = false; bufrcv = splice c.bufrcv 0 d; bytercv = length d }

  read-filled :
      (d : Text) (c : TcpClient cb)
      → c.usebuf ≡ false
      → length d ≤ tcp_pack_size
      → read cb (pos tcp_pack_size) (pos 0) (filled d c) ≡ (d, filled d c)
  unfolding read
  read-filled d c off h =
      let cut : take (length d) (splice c.bufrcv 0 d) ≡ d = take-length-append d _ in
      ground (arith, cut)

  pub current-some :
      (r : Receiver) (k : ℕ) (f : FileInfo)
      → r.fileptr ≡ some k
      → get_elem? r.files k ≡ some f
      → current cb fl b r ≡ ok (k, f)
  unfolding current
  current-some r k f e h = ground (arith, e, h)

  -- The receiver after a packet for its file.
  abbrev pub took : Text → TcpClient cb → ℕ → FileInfo → Receiver → Receiver
  took d c k f r =
      stored_data cb fl b r (filled d c) d k (grown d f, leb f.filesize (f.rcvsize + length d))

  receive_from-packet :
      (d : Text) (r : Receiver) (c : TcpClient cb) (k : ℕ) (f : FileInfo)
      → c.usebuf ≡ false
      → r.fileptr ≡ some k
      → get_elem? r.files k ≡ some f
      → IsStored f
      → length d ≤ tcp_pack_size
      → f.rcvsize + length d ≤ f.filesize
      → receive_from cb fl b r (filled d c) ≡ ok (took d c k f r)
  unfolding receive_from
  receive_from-packet d r c k f off e h s short fits = rw (read-filled d c off short) (
      ap
        (λ m. m >>= λ q. data_arrive d q.1 >>= λ a. ok (stored_data cb fl b r (filled d c) d q.0 a))
        (current-some r k f e h)
      ∙ ap (λ m. m >>= λ a. ok (stored_data cb fl b r (filled d c) d k a)) (arrive-fits d f s fits))

  pub handle_read-plain :
      (d : Text) (c : TcpClient cb) (s : Slot) (ss : List Slot)
      → c.usebuf ≡ false
      → c.cbrcv ≡ s ∷ ss
      → handle_read cb 0 d c ≡ (filled d c, fire (s ∷ ss) (pos 0))
  unfolding handle_read
  handle_read-plain d c s ss off e = λ i. (kept_off cb d c off i, fire (e i) (pos 0))

  -- The receiver once the next read is started.
  abbrev pub went_on : Receiver → Receiver
  went_on r = record r { tcpptr = map_option (finish_read cb 0) r.tcpptr }

  network_receive-ready :
      (r : Receiver) (c : TcpClient cb)
      → r.state ≡ ready
      → r.tcpptr ≡ some c
      → network_receive cb fl b 0 r ≡ receive_from cb fl b r c
  unfolding network_receive receive_in receive_data connection
  network_receive-ready r c e t =
      ap (λ st. receive_in cb fl b st r) e
      ∙ ap (λ o. or_fault o null_pointer >>= receive_from cb fl b r) t

  pub network_read-packet :
      (d : Text) (r : Receiver) (c : TcpClient cb) (s : Slot) (ss : List Slot) (k : ℕ)
      (f : FileInfo)
      → r.tcpptr ≡ some c
      → c.cbrcv ≡ s ∷ ss
      → c.usebuf ≡ false
      → r.state ≡ ready
      → r.fileptr ≡ some k
      → get_elem? r.files k ≡ some f
      → IsStored f
      → length d ≤ tcp_pack_size
      → f.rcvsize + length d ≤ f.filesize
      → network_read cb fl b 0 d r ≡ ok (went_on (took d c k f r))
  unfolding network_read connection stored_data
  network_read-packet d r c s ss k f t cs off st e h v short fits =
      let r1 : Receiver = record r { tcpptr = some (filled d c) } in
      ap
        (λ o. or_fault o null_pointer >>= λ c1.
          called cb fl b 0 (handle_read cb 0 d c1).1
            (record r { tcpptr = some (handle_read cb 0 d c1).0 })
          >>= λ r2. ok (went_on r2))
        t
      ∙ ap (λ p. called cb fl b 0 p.1 (record r { tcpptr = some p.0 }) >>= λ r2. ok (went_on r2))
          (handle_read-plain d c s ss off cs)
      ∙ ap (λ m. m >>= λ r2. ok (went_on r2))
          (network_receive-ready r1 (filled d c) st refl
            ∙ receive_from-packet d r1 c k f off e h v short fits)
