-- ===== src/Agent/FirstFile.antt =====
-- The first file of a connection: from its accept, by handle_accept of src/tcpasio.cpp and
-- network_accept of src/TransferAgent.cpp, to the file on the disk.
use ftserver.Run.{ok}
use ftserver.Files.Assembly.{total}
use ftserver.Writer.{FileSystem, FileWritter, WriterState}
use ftserver.Writer.Monitor.{passes}
use ftserver.Writer.Saving.{IsWritable}
use ftserver.Tcp.Circular.{CircularBuffer}
use ftserver.Tcp.{
  TcpClient, Slot, tcp_pack_size, maketcp_client, register_read, finish_read, handle_read,
  start_read,
}
use ftserver.Tcp.Server.{accepted_client, start}
use ftserver.Protocol.Boost.{BoostText, NoneOf}
use ftserver.Protocol.Output.{IsRing, make_ascproto}
use ftserver.Protocol.{Floats, fileinfo, AsciiProtoFileinfo, resolve}
use ftserver.Receiver.Lines.{HasLine, newline, nul}
use ftserver.Receiver.Packets.{ArePackets, read_packets}
use ftserver.Files.Sized.{AllSized}
use ftserver.Receiver.Stored.{IsOnDisk, transfer-IsOnDisk}
use ftserver.Receiver.{
  couple_network, network_receive, FileReceiver, network_receive_msg, receive_complete_msg, handler,
  network_read, make_filercv,
}
use ftserver.Agent.Connections.{coupled_receiver, network_accept}
use ftserver.Base.{
  ◌+◌, ◌≤◌, ◌<◌, ◌≡◌, refl, true, some, List, [], ◌∷◌, ◌++◌, Text, length, pos, ℕ, arith, replicate,
  drop, append_assoc, length-append, splice,
}

pub ascproto-IsRing : IsRing make_ascproto
unfolding make_ascproto
ascproto-IsRing = record { index = omega arith; storage = refl }

module _ (cb : CircularBuffer) (fl : Floats) (b : BoostText) where
  abbrev Receiver : Type 0
  Receiver = FileReceiver cb fl b

  -- The client that start_accept made, once the acceptor has connected its socket.
  abbrev pub new_client : TcpClient cb
  new_client = record (maketcp_client cb) { sock_open = true }

  -- The receiver that network_accept has coupled, after `client->start()`.
  abbrev pub started_receiver : Slot → FileWritter → Receiver
  started_receiver slot w = record (coupled_receiver cb fl b slot w new_client) {
    tcpptr = some (accepted_client cb 0 (register_read cb slot new_client));
  }

  -- The receiver when the line has arrived, before its message is taken.
  abbrev line_arrived : Slot → FileWritter → Text → Receiver
  line_arrived slot w line = record (started_receiver slot w) {
    tcpptr = some (record (accepted_client cb 0 (register_read cb slot new_client)) {
      bufrcv = splice (replicate tcp_pack_size 0) 0 (line ++ b'\n' ∷ []);
      bytercv = length (line ++ b'\n' ∷ []);
      reading = true;
    });
    posted = network_receive_msg ∷ [];
  }

  network_read-line_arrived :
      (slot : Slot) (w : FileWritter) (line : Text)
      → network_read cb fl b 0 (line ++ b'\n' ∷ []) (started_receiver slot w)
        ≡ ok (line_arrived slot w line)
  unfolding network_read handle_read network_receive finish_read start_read start accepted_client
      register_read maketcp_client make_filercv
  network_read-line_arrived slot w line = refl

  started-HasLine :
      (slot : Slot) (line : Text)
      → NoneOf newline line
      → NoneOf nul line
      → HasLine cb
          (record (accepted_client cb 0 (register_read cb slot new_client)) {
            bufrcv = splice (replicate tcp_pack_size 0) 0 (line ++ b'\n' ∷ []);
            bytercv = length (line ++ b'\n' ∷ []);
            reading = true;
          })
          line
  unfolding accepted_client start start_read register_read maketcp_client
  started-HasLine slot line one none_ = record {
    rest = drop (0 + length (line ++ b'\n' ∷ [])) (replicate tcp_pack_size 0);
    plain = refl;
    area =
        append_assoc line (b'\n' ∷ [])
          (drop (0 + length (line ++ b'\n' ∷ [])) (replicate tcp_pack_size 0));
    counted = omega (arith, length-append {0} line (b'\n' ∷ []));
    one_line = one;
    no_nul = none_;
  }

  module _ (fs : FileSystem) where
    -- A connection is accepted and network_accept couples its receiver, the first in the list; the line that announces a file of n bytes
    -- arrives in one packet, of at most 1500 bytes with its newline and with no other newline or NUL;
    -- then n bytes arrive in one or more packets of 1 to 1500 bytes. The writer runs, has nothing in its
    -- queue, and its last save succeeded; directories can be made and files written. Then the line only
    -- posts a message; its handling, the packets, and the message that the last packet causes meet no
    -- fault; and one pass of the writer's thread leaves exactly the bytes sent in the file whose
    -- directory and name the line gives, below the writer's root, registers it if there is a data base,
    -- and empties the queue.
    pub first_file-IsOnDisk :
        (slot : Slot) (line : Text) (p : AsciiProtoFileinfo) (n : ℕ) (d : Text) (ds : List Text)
        → length line + 1 ≤ tcp_pack_size
        → NoneOf newline line
        → NoneOf nul line
        → resolve fl b line ≡ some (fileinfo p)
        → p.filesize ≡ pos n
        → ArePackets cb fl b (d ∷ ds)
        → length (total (d ∷ ds)) ≡ n
        → IsWritable fs
        → (w : WriterState fs) → w.writer.running ≡ true
        → w.writer.quenf ≡ []
        → w.rslt ≡ true
        → w.errcnt < 5
        → (r : Receiver) × (r1 : Receiver) × (r2 : Receiver) × (r3 : Receiver) × (w' : WriterState
            fs)
          × (network_accept cb fl b true slot w.writer new_client []
              ≡ coupled_receiver cb fl b slot w.writer new_client ∷ [])
          × (network_read cb fl b 0 (line ++ b'\n' ∷ []) (started_receiver slot w.writer) ≡ ok r)
          × (r.posted ≡ network_receive_msg ∷ [])
          × (handler cb fl b network_receive_msg (record r { posted = [] }) ≡ ok r1)
          × (read_packets cb fl b (d ∷ ds) r1 ≡ ok r2)
          × (handler cb fl b receive_complete_msg r2 ≡ ok r3)
          × (passes fs 1 r3.files (record w { writer = r3.fwptr }) ≡ ok w')
          × IsOnDisk cb fl b fs p
              (total (d ∷ ds))
              w.writer.path_root
              (record w { writer = r3.fwptr })
              w'
    unfolding network_accept couple_network make_filercv register_read accepted_client start
        start_read maketcp_client
    first_file-IsOnDisk slot line p n d ds fits one none_ m size packets all can w run idle good
          few =
        let r : Receiver = line_arrived slot w.writer line in
        let sized : AllSized r.files = λ k f e. let bad : ⊥ = cc in absurd bad in
        let (r1, r2, r3, w', go1, go2, go3, go, there) =
          transfer-IsOnDisk cb fl b fs (record r { posted = [] }) _ line p n slot [] d ds refl
            (started-HasLine slot line one none_) refl fits m size sized ascproto-IsRing refl run
            packets all idle can w good few in
        (
          r,
          r1,
          r2,
          r3,
          w',
          refl,
          network_read-line_arrived slot w.writer line,
          refl,
          go1,
          go2,
          go3,
          go,
          there,
        )
