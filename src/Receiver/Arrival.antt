-- ===== src/Receiver/Arrival.antt =====
-- The line of a file arrives at a waiting receiver, and its message is handled.
use ftserver.Run.{ok, null_pointer, or_fault, ◌>>=◌, Ensures}
use ftserver.Files.{FileInfo}
use ftserver.Tcp.Circular.{CircularBuffer}
use ftserver.Tcp.{TcpClient, handle_read}
use ftserver.Protocol.Boost.{BoostText, NoneOf}
use ftserver.Protocol.{Floats}
use ftserver.Receiver.Lines.{HasLine, newline, nul}
use ftserver.Receiver.Packets.{next_client, next_client-same, next_client-area}
use ftserver.Receiver.Packet.{filled, went_on, handle_read-plain}
use ftserver.Receiver.Announce.{IsAnnounced, on_network_receive-announces}
use ftserver.Receiver.Ownership.{IsSafe, Safely, Private}
use ftserver.Receiver.Reading.{on_network_receive-Safely}
use ftserver.Receiver.{
  FileReceiver, waiting, network_receive_msg, network_read, network_receive, receive_in, connection,
  called, held, on_network_receive,
}
use ftserver.Base.{
  ◌+◌, ◌≡◌, refl, sym, ap, ◌∙◌, subst, false, some, [], ◌∷◌, ◌++◌, Text, length, ℕ, arith, drop,
  append_assoc, length-append,
}
use ftserver.Receiver.Session.{Sending, content_of, IsSound, handle_first, take_message, IsIdle}

module _ (cb : CircularBuffer) (fl : Floats) (b : BoostText) where
  abbrev Receiver : Type 0
  Receiver = FileReceiver cb fl b

  -- The receiver after a line has arrived and its message is taken.
  abbrev pub alerted : Text → TcpClient cb → Receiver → Receiver
  alerted d c r = record r { tcpptr = some (next_client cb fl b c d); posted = [] }

  network_receive-waiting :
      (r : Receiver)
      → r.state ≡ waiting
      → network_receive cb fl b 0 r
        ≡ ok (record r { posted = r.posted ++ network_receive_msg ∷ [] })
  unfolding network_receive receive_in
  network_receive-waiting r e = ap (λ st. receive_in cb fl b st r) e

  pub network_read-alerted :
      (d : Text) (r : Receiver) (i : IsIdle cb fl b r)
      → (network_read cb fl b 0 d r >>= take_message cb fl b)
        ≡ on_network_receive cb fl b (alerted d i.client r)
  unfolding network_read connection
  network_read-alerted d r i =
      let c : TcpClient cb = i.client in
      let r1 : Receiver = record r { tcpptr = some (filled cb fl b d c) } in
      ap
        (λ o.
          (or_fault o null_pointer >>= λ c1.
          called cb fl b 0 (handle_read cb 0 d c1).1
            (record r { tcpptr = some (handle_read cb 0 d c1).0 })
          >>= λ r2. ok (went_on cb fl b r2))
          >>= take_message cb fl b)
        i.connected
      ∙ ap
          (λ p.
            (called cb fl b 0 p.1 (record r { tcpptr = some p.0 }) >>= λ r2.
            ok (went_on cb fl b r2))
            >>= take_message cb fl b)
          (handle_read-plain cb fl b d c i.slot i.more i.plain i.registered)
      ∙ ap (λ m. (m >>= λ r2. ok (went_on cb fl b r2)) >>= take_message cb fl b)
          (network_receive-waiting r1 i.waits)
      ∙ ap
          (λ ms.
            handle_first cb fl b (ms ++ network_receive_msg ∷ [])
              (went_on cb fl b (record r1 { posted = ms ++ network_receive_msg ∷ [] })))
          i.nothing

  alerted-HasLine :
      (c : TcpClient cb) (line : Text)
      → c.usebuf ≡ false
      → NoneOf newline line
      → NoneOf nul line
      → HasLine cb (next_client cb fl b c (line ++ b'\n' ∷ [])) line
  alerted-HasLine c line off one clean = record {
    rest = drop (0 + length (line ++ b'\n' ∷ [])) c.bufrcv;
    plain = (next_client-same cb fl b c (line ++ b'\n' ∷ [])).1 ∙ off;
    area =
        (next_client-area cb fl b c (line ++ b'\n' ∷ [])).0
        ∙ append_assoc line (b'\n' ∷ []) (drop (0 + length (line ++ b'\n' ∷ [])) c.bufrcv);
    counted = omega (
      arith,
      (next_client-area cb fl b c (line ++ b'\n' ∷ [])).1,
      length-append {0} line (b'\n' ∷ []),
    );
    one_line = one;
    no_nul = clean;
  }

  IsIdle-IsSafe : (r : Receiver) → IsIdle cb fl b r → IsSafe cb fl b r
  IsIdle-IsSafe r i = record {
    below = i.below;
    private = subst (λ st. Private st r.fileptr (held cb fl b r)) (sym i.waits) tt;
  }

  -- What the receiver makes of the line: an announcement that leaves alone what others hold.
  pub announced-Safely :
      (s : Sending) (r : Receiver) (i : IsIdle cb fl b r)
      → IsSound cb fl b s
      → let r0 = alerted (s.line ++ b'\n' ∷ []) i.client r in
        (k : ℕ) × (g : FileInfo) × (r1 : Receiver) × (on_network_receive cb fl b r0 ≡ ok r1)
        × IsAnnounced cb fl b s.announced r0 r1 k g
        × Safely cb fl b r0 r1
  announced-Safely s r i v =
      let c : TcpClient cb = next_client cb fl b i.client (s.line ++ b'\n' ∷ []) in
      let r0 : Receiver = alerted (s.line ++ b'\n' ∷ []) i.client r in
      let here : HasLine cb c s.line =
        alerted-HasLine i.client s.line i.plain v.one_line v.no_nul in
      let slots : c.cbrcv ≡ i.slot ∷ i.more =
        (next_client-same cb fl b i.client (s.line ++ b'\n' ∷ [])).0 ∙ i.registered in
      let (k, g, r1, go, a) =
        on_network_receive-announces cb fl b r0 c s.line s.announced (length (content_of s)) i.slot
          i.more refl here slots (omega (arith, v.fits, i.room)) v.describes v.size i.sized
          i.ring in
      let safe : IsSafe cb fl b r0 =
        let x : IsSafe cb fl b r = IsIdle-IsSafe r i in
        record { below = x.below; private = x.private } in
      (
        k,
        g,
        r1,
        go,
        a,
        subst (Ensures (Safely cb fl b r0)) go (on_network_receive-Safely cb fl b r0 safe),
      )
