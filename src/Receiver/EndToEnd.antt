-- ===== src/Receiver/EndToEnd.antt =====
-- One transfer through a receiver, from the line that announces a file to the report that it is
-- complete.
use ftserver.Run.{ok}
use ftserver.Files.{FileInfo}
use ftserver.Files.Assembly.{stored, total}
use ftserver.Writer.{FileWritter}
use ftserver.Tcp.Circular.{CircularBuffer}
use ftserver.Tcp.{TcpClient, Slot}
use ftserver.Protocol.Boost.{BoostText}
use ftserver.Protocol.Output.{IsRing}
use ftserver.Protocol.{Floats, fileinfo, AsciiProtoFileinfo, resolve}
use ftserver.Receiver.Lines.{HasLine}
use ftserver.Receiver.Packets.{ArePackets, read_packets}
use ftserver.Receiver.Delivery.{IsDelivered, read_packets-deliver}
use ftserver.Files.Sized.{AllSized}
use ftserver.Receiver.Announce.{IsAnnounced, on_network_receive-announces}
use ftserver.Receiver.{
  FileReceiver, waiting, described, receive_complete_msg, handler, on_network_receive,
}
use ftserver.Base.{
  ℕ, ◌+◌, ◌≤◌, ◌≡◌, sym, ap, ◌∙◌, true, some, List, [], ◌∷◌, ◌++◌, Text, codes, length, get_elem?,
  pos, pos_part, take, arith, append_assoc,
}

module _ (cb : CircularBuffer) (fl : Floats) (b : BoostText) where
  abbrev Receiver : Type 0
  Receiver = FileReceiver cb fl b

  -- The file that p announces has come in whole: its object holds the bytes t under the announced
  -- names, is in the queue of the writer, and both reports have gone to the sender.
  pub record IsTransferred (p : AsciiProtoFileinfo) (t : Text) (r r' : Receiver) : Type 0 where
    pub number : ℕ
    pub file : FileInfo
    pub content :
        get_elem? r'.files number ≡ some (record file { filedata = t; rcvsize = length t })
    pub names : file ≡ described cb fl b p file
    pub queued : r'.fwptr ≡ record (r.fwptr) { quenf = r.fwptr.quenf ++ number ∷ [] }
    pub told :
        r'.sent ≡ r.sent ++ (codes "filestat status=1\n") ∷ (codes "filestat status=2\n") ∷ []
    pub again : r'.state ≡ waiting

  delivered-IsTransferred :
      (p : AsciiProtoFileinfo) (r r1 r3 : Receiver) (k : ℕ) (g : FileInfo) (t : Text)
      → IsAnnounced cb fl b p r r1 k g
      → IsDelivered cb fl b r1 k g t r3
      → length t ≡ g.filesize
      → IsTransferred p t r r3
  delivered-IsTransferred p r r1 r3 k g t a d n =
      let bytes : stored g ++ t ≡ t = ap (λ m. take m g.filedata ++ t) a.empty in
      let longer : FileWritter → FileWritter = λ w. record w { quenf = w.quenf ++ k ∷ [] } in
      record {
        number = k;
        file = g;
        content = d.content ∙ λ i. some (record g { filedata = bytes i; rcvsize = sym n i });
        names = a.names;
        queued = d.queued ∙ ap longer a.writer_same;
        told =
            d.told
            ∙ ap (λ x. x ++ (codes "filestat status=2\n") ∷ []) a.told
            ∙ append_assoc r.sent ((codes "filestat status=1\n") ∷ [])
                ((codes "filestat status=2\n") ∷ []);
        again = d.again;
      }

  -- A sender announces a file of n bytes in a line that the receiver finds at the front of what
  -- it received, and that fits its area, then sends n bytes in one or more packets of 1 to 1500
  -- bytes, on a connection that calls this receiver back. No message is pending, the writer
  -- runs, the output areas are set up, and every file object has an array of its size. Then the
  -- message for the line, the packets, and the message that the last packet causes are all
  -- handled without a fault, and leave the file in the writer's queue with the announced names
  -- and exactly the bytes sent, and both reports sent.
  pub transfer-IsTransferred :
      (r : Receiver) (c : TcpClient cb) (line : Text) (p : AsciiProtoFileinfo) (n : ℕ) (s : Slot)
      (ss : List Slot) (d : Text) (ds : List Text)
      → r.tcpptr ≡ some c
      → HasLine cb c line
      → c.cbrcv ≡ s ∷ ss
      → length line + 1 ≤ length r.bufrcv
      → resolve fl b line ≡ some (fileinfo p)
      → p.filesize ≡ pos n
      → AllSized r.files
      → IsRing r.ring
      → r.posted ≡ []
      → r.fwptr.running ≡ true
      → ArePackets cb fl b (d ∷ ds)
      → length (total (d ∷ ds)) ≡ n
      → (r1 : Receiver) × (r2 : Receiver) × (r3 : Receiver) × (on_network_receive cb fl b r ≡ ok r1)
        × (read_packets cb fl b (d ∷ ds) r1 ≡ ok r2)
        × (r2.posted ≡ receive_complete_msg ∷ [])
        × (handler cb fl b receive_complete_msg r2 ≡ ok r3)
        × IsTransferred p (total (d ∷ ds)) r r3
  transfer-IsTransferred r c line p n s ss d ds e l cs fits m size sized v empty run packets all =
      let (k, g, r1, go1, a) =
        on_network_receive-announces cb fl b r c line p n s ss e l cs fits m size sized v in
      let room : g.filesize ≡ n = ap pos_part (a.size ∙ size) in
      let (r2, go2, pending, (r3, go3, done)) =
        read_packets-deliver cb fl b d ds r1 k g a.receiving packets
          (omega (arith, a.empty, room, all)) a.ring_ready (a.posted_same ∙ empty)
          (ap (λ w. w.running) a.writer_same ∙ run) in
      (
        r1,
        r2,
        r3,
        go1,
        go2,
        pending,
        go3,
        delivered-IsTransferred p r r1 r3 k g (total (d ∷ ds)) a done (all ∙ sym room),
      )
