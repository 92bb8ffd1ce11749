-- ===== src/Receiver/Stored.antt =====
-- One transfer to the end: from the line that announces a file to the file on the disk.
use ftserver.Run.{ok}
use ftserver.Files.{FileInfo}
use ftserver.Files.Assembly.{total}
use ftserver.Writer.{FileSystem, WriterState, registration}
use ftserver.Writer.Monitor.{passes}
use ftserver.Writer.Drain.{AreFiles, passes-AreStored}
use ftserver.Writer.Saving.{IsWritable}
use ftserver.Tcp.Circular.{CircularBuffer}
use ftserver.Tcp.{TcpClient, Slot}
use ftserver.Protocol.Boost.{BoostText}
use ftserver.Protocol.Output.{IsRing}
use ftserver.Protocol.{Floats, fileinfo, AsciiProtoFileinfo, resolve}
use ftserver.Receiver.Lines.{HasLine}
use ftserver.Receiver.Packets.{ArePackets, read_packets}
use ftserver.Files.Sized.{AllSized}
use ftserver.Receiver.EndToEnd.{IsTransferred, transfer-IsTransferred}
use ftserver.Receiver.{FileReceiver, receive_complete_msg, handler, on_network_receive}
use ftserver.Base.{
  ◌+◌, ◌≤◌, ◌<◌, ◌≡◌, refl, ap, ◌∙◌, subst, true, some, List, [], ◌∷◌, ◌++◌, Text, length, pos, ℕ,
  append-nil,
}

module _ (cb : CircularBuffer) (fl : Floats) (b : BoostText) (fs : FileSystem) where
  open fs use {join, read_file}

  abbrev Receiver : Type 0
  Receiver = FileReceiver cb fl b

  -- The path under which the file that p announces is to be found.
  abbrev pub announced_path : Text → AsciiProtoFileinfo → Text
  announced_path root p = join (join root p.subpath) p.filename

  -- What is on the disk, and what the writer is left with.
  pub record IsOnDisk (p : AsciiProtoFileinfo) (t root : Text) (w w' : WriterState fs)
      : Type 0 where
    pub file : FileInfo
    pub stored : read_file w'.disk (announced_path root p) ≡ some t
    pub bytes : file.filedata ≡ t
    pub registered :
        w'.registered ≡ w.registered ++ registration fs w.writer.db file (announced_path root p)
    pub queue : w'.writer.quenf ≡ []

  transferred_stored :
      (p : AsciiProtoFileinfo) (t : Text) (r r' : Receiver) (w : WriterState fs)
      → IsTransferred cb fl b p t r r'
      → r.fwptr.quenf ≡ []
      → IsWritable fs
      → w.writer ≡ r'.fwptr
      → w.rslt ≡ true
      → w.errcnt < 5
      → (w' : WriterState fs) × (passes fs 1 r'.files w ≡ ok w')
        × IsOnDisk p t r.fwptr.path_root w w'
  transferred_stored p t r r' w i idle can at good few =
      let f : FileInfo = record (i.file) { filedata = t; rcvsize = length t } in
      let found : AreFiles fs r'.files (i.number ∷ []) = ((f, i.content), tt) in
      let same : w.writer ≡ record (r.fwptr) { quenf = r.fwptr.quenf ++ i.number ∷ [] } =
        at ∙ i.queued in
      let queue : w.writer.quenf ≡ i.number ∷ [] =
        ap (λ x. x.quenf) same ∙ ap (λ ks. ks ++ i.number ∷ []) idle in
      let root : w.writer.path_root ≡ r.fwptr.path_root = ap (λ x. x.path_root) same in
      let place : join (join w.writer.path_root f.subpath) f.filename
          ≡ announced_path r.fwptr.path_root p =
        λ k. join (join (root k) (i.names k).subpath) (i.names k).filename in
      let (w', go, after, registered, (stored, _)) =
        passes-AreStored fs r'.files can (i.number ∷ []) found w queue good few (tt, tt) in
      (
        w',
        go,
        record {
          file = f;
          stored = subst (λ x. read_file w'.disk x ≡ some t) place stored;
          bytes = refl;
          registered =
              registered
              ∙ ap (λ x. w.registered ++ x) (append-nil _)
              ∙ ap (λ x. w.registered ++ registration fs w.writer.db f x) place;
          queue = ap (λ x. x.quenf) after;
        },
      )

  -- A sender announces a file of n bytes in a line that the receiver finds at the front of what it
  -- received, and that fits its area, then sends n bytes in one or more packets of 1 to 1500 bytes, on a
  -- connection that calls this receiver back. No message is pending, the writer runs and has nothing in
  -- its queue, its last save succeeded, directories can be made and files written, the output areas are
  -- set up, and every file object has an array of its size. Then the message for the line, the packets
  -- and the message that the last packet causes are handled without a fault, and one pass of the
  -- writer's thread leaves exactly the bytes sent in the file whose directory and name the line gives,
  -- below the writer's root, registers it if there is a data base, and empties the queue.
  pub transfer-IsOnDisk :
      (r : Receiver) (c : TcpClient cb) (line : Text) (p : AsciiProtoFileinfo) (n : ℕ) (s : Slot)
      (ss : List Slot) (d : Text) (ds : List Text)
      → r.tcpptr ≡ some c
      → HasLine cb c line
      → c.cbrcv ≡ s ∷ ss
      → length line + 1 ≤ length r.bufrcv
      → resolve fl b line ≡ some (fileinfo p)
      → p.filesize ≡ pos n
      → AllSized r.files
      → IsRing r.ring
      → r.posted ≡ []
      → r.fwptr.running ≡ true
      → ArePackets cb fl b (d ∷ ds)
      → length (total (d ∷ ds)) ≡ n
      → r.fwptr.quenf ≡ []
      → IsWritable fs
      → (w : WriterState fs) → w.rslt ≡ true
      → w.errcnt < 5
      → (r1 : Receiver) × (r2 : Receiver) × (r3 : Receiver) × (w' : WriterState fs)
        × (on_network_receive cb fl b r ≡ ok r1)
        × (read_packets cb fl b (d ∷ ds) r1 ≡ ok r2)
        × (handler cb fl b receive_complete_msg r2 ≡ ok r3)
        × (passes fs 1 r3.files (record w { writer = r3.fwptr }) ≡ ok w')
        × IsOnDisk p (total (d ∷ ds)) r.fwptr.path_root (record w { writer = r3.fwptr }) w'
  transfer-IsOnDisk r c line p n s ss d ds e l cs fits m size sized v empty run packets all idle can
        w good few =
      let (r1, r2, r3, go1, go2, pending, go3, i) =
        transfer-IsTransferred cb fl b r c line p n s ss d ds e l cs fits m size sized v empty run
          packets all in
      let (w', go, there) =
        transferred_stored p (total (d ∷ ds)) r r3 (record w { writer = r3.fwptr }) i idle can refl
          good few in
      (r1, r2, r3, w', go1, go2, go3, go, there)
