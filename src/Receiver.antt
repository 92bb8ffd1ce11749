-- ===== src/Receiver.antt =====
-- src/FileReceiver.h and src/FileReceiver.cpp: one connection's protocol, with the file objects it
-- shares with the writer. `posted` is the message queue: all messages of this class are posted with
-- one priority, so they are handled in the order of posting. The socket's write_some is taken to
-- send all that it is given. Log lines are left out.
pub mod Ownership
pub mod Reading
pub mod Shared
pub mod Packet
pub mod Packets
pub mod Delivery
pub mod Lines
pub mod Announce
pub mod EndToEnd
pub mod Stored
pub mod Session
pub mod Arrival
pub mod Ending
pub mod Sequence
use ftserver.Run.{Run, ok, fault, null_pointer, out_of_bounds, or_fault, ◌>>=◌}
use ftserver.Files.{FileInfo, new_file_info, data_arrive}
use ftserver.Writer.{FileWritter, new_file}
use ftserver.Tcp.Circular.{CircularBuffer}
use ftserver.Tcp.{
  Slot, Call, handle_read, finish_read, TcpClient, register_read, tcp_pack_size, lookup, read,
  close,
}
use ftserver.Protocol.Boost.{BoostText}
use ftserver.Protocol.Output.{OutputRing, make_ascproto, Output, output_compacted, string_at}
use ftserver.Protocol.{
  Floats, Proto, cooler, vacuum, fileinfo, filestat, AsciiProtoFileinfo, make_apfilestat,
  compact_filestat, resolve,
}
use ftserver.Base.{
  ℕ, zero, suc, ◌+◌, ◌≤◌, ◌≡◌, Bool, true, false, not, ◌&&◌, ◌||◌, Option, none, some, List, [],
  ◌∷◌, ◌++◌, Text, codes, c_str, ltb, leb, ◌==◌, if◌then◌else◌, length, take, splice, replicate,
  get_elem?, set, ℤ, pos, negsuc, ◌==ℤ◌, ◌+ℤ◌,
}

-- enum STATE, and its numbers.
pub data State : Type 0 where
  waiting ready complete failure : State

abbrev pub state_number : State → ℤ
state_number waiting = pos 0
state_number ready = pos 1
state_number complete = pos 2
state_number failure = pos 3

-- enum MSG_TC
pub data Message : Type 0 where
  network_receive_msg network_close_msg receive_complete_msg : Message

abbrev pub count : ℕ → List ℕ → ℕ
count k [] = 0
count k (j ∷ js) = if j == k then suc (count k js) else count k js

abbrev pub map_option {ℓ} : {A : Type ℓ} → (A → A) → Option A → Option A
map_option f none = none
map_option f (some a) = some (f a)

module _ (cb : CircularBuffer) (fl : Floats) (b : BoostText) where
  -- FileReceiver with what it shares: the file objects, the writer, and the objects that a save
  -- in progress holds a pointer to. `sent` is what the socket has been given, oldest first.
  pub record FileReceiver : Type 0 where
    pub files : List FileInfo
    pub fwptr : FileWritter
    pub saving : List ℕ
    pub fileptr : Option ℕ
    pub tcpptr : Option (TcpClient cb)
    pub ring : OutputRing
    pub state : State
    pub bufrcv : Text
    pub posted : List Message
    pub sent : List Text

  abbrev pub post_message : Message → FileReceiver → FileReceiver
  post_message m r = record r { posted = r.posted ++ m ∷ [] }

  -- The objects that others than this receiver point to.
  abbrev pub held : FileReceiver → List ℕ
  held r = r.fwptr.quenf ++ r.saving

  -- fileptr_.use_count()
  abbrev pub use_count : FileReceiver → ℕ
  use_count r = elim r.fileptr [ none ↦ 0 | some k ↦ suc (count k (held r)) ]

  -- tcpptr_ and fileptr_ followed.
  pub connection : FileReceiver → Run (TcpClient cb)
  connection r = or_fault r.tcpptr null_pointer

  pub current : FileReceiver → Run (ℕ × FileInfo)
  current r = do
    k ← or_fault r.fileptr null_pointer
    f ← or_fault (get_elem? r.files k) null_pointer
    ok (k, f)

  -- What notify_status prints.
  abbrev pub status_text : State → Text
  status_text status =
      compact_filestat fl b (record make_apfilestat { status = state_number status })

  -- Write through the socket, once the text is in the output area.
  pub write_status : State → FileReceiver → Output → Run FileReceiver
  unfolding connection
  write_status status r out = do
    c ← connection r
    ok (record r {
      state = status;
      ring = out.ring;
      sent = r.sent ++ take out.n (string_at out.address out.ring) ∷ [];
    })

  unfoldable pub notify_status : State → FileReceiver → Run FileReceiver
  unfolding write_status
  notify_status status r = do
    out ← or_fault (output_compacted b (status_text status) r.ring) out_of_bounds
    write_status status r out

  -- The file data of network_receive: Read into bufrcv_, then DataArrive.
  pub stored_data : FileReceiver → TcpClient cb → Text → ℕ → FileInfo × Bool → FileReceiver
  stored_data r c' data_ k (f', done) =
      let r' = record r {
        tcpptr = some c';
        bufrcv = splice r.bufrcv 0 data_;
        files = set r.files k f';
      } in
      if done then post_message receive_complete_msg r' else r'

  pub receive_from : FileReceiver → TcpClient cb → Run FileReceiver
  unfolding current stored_data
  receive_from r c = do
    let (data_, c') = read cb (pos tcp_pack_size) (pos 0) c
    (k, f) ← current r
    arrived ← data_arrive data_ f
    ok (stored_data r c' data_ k arrived)

  unfoldable pub receive_data : FileReceiver → Run FileReceiver
  unfolding connection receive_from
  receive_data r = do c ← connection r; receive_from r c

  -- network_receive(client, ec), called by the socket's read handler.
  pub receive_in : State → FileReceiver → Run FileReceiver
  unfolding receive_data
  receive_in ready r = receive_data r
  receive_in waiting r = ok (post_message network_receive_msg r)
  receive_in _ r = ok r

  unfoldable pub network_receive : ℕ → FileReceiver → Run FileReceiver
  unfolding receive_in
  network_receive ec r =
      if not (ec == 0) then ok (post_message network_close_msg r) else receive_in r.state r

  -- Whether a new object is made: no object yet, one that others use, or one of another size.
  abbrev pub needs_new : FileReceiver → ℤ → Bool
  needs_new r size = use_count r == 0 || ltb 1 (use_count r) || elim r.fileptr [
    | none ↦ true
    | some k ↦ elim (get_elem? r.files k) [ none ↦ true | some f ↦ not (pos f.filesize ==ℤ size) ]
  ]

  -- `fileptr_ = boost::make_shared<FileInfo>(fileinfo->filesize);`
  unfoldable pub make_file : ℤ → FileReceiver → Run FileReceiver
  make_file size r = do
    f ← new_file_info size
    ok (record r { files = r.files ++ f ∷ []; fileptr = some (length r.files) })

  abbrev pub described : AsciiProtoFileinfo → FileInfo → FileInfo
  described p f = record f {
    gid = p.gid;
    uid = p.uid;
    cid = p.cid;
    grid = p.grid;
    field = p.field;
    tmobs = p.tmobs;
    subpath = p.subpath;
    filename = p.filename;
    rcvsize = 0;
  }

  unfoldable pub describe : AsciiProtoFileinfo → FileReceiver → Run FileReceiver
  unfolding current
  describe p r = do (k, f) ← current r; ok (record r { files = set r.files k (described p f) })

  -- The branch of on_network_receive for a file description, up to notify_status(READY).
  unfoldable pub take_fileinfo : AsciiProtoFileinfo → FileReceiver → Run FileReceiver
  take_fileinfo p r = do
    r' ← if needs_new r p.filesize then make_file p.filesize r else ok r
    describe p r'

  -- What on_network_receive does with the message that Resolve returns.
  unfoldable pub on_message : Option (Proto fl) → FileReceiver → Run FileReceiver
  unfolding connection
  on_message (some (fileinfo p)) r = do r' ← take_fileinfo p r; notify_status ready r'
  on_message (some (filestat p)) r = ok r
  on_message (some (cooler p)) r = ok r
  on_message (some (vacuum p)) r = ok r
  on_message none r = do c ← connection r; ok (record r { tcpptr = some (close cb c) })

  -- The read of one line into bufrcv_: `bufrcv_[pos] = 0` is outside the area for pos = -1.
  unfoldable pub read_line : ℤ → FileReceiver → TcpClient cb → Run FileReceiver
  read_line (negsuc n) r c = fault out_of_bounds
  read_line (pos p) r c =
      let (line, c') = read cb (pos (p + 1)) (pos 0) c in
      if leb (length line) (length r.bufrcv) && ltb p (length r.bufrcv)
      then ok (record r { tcpptr = some c'; bufrcv = splice (splice r.bufrcv 0 line) p (0 ∷ []) })
      else fault out_of_bounds

  unfoldable pub receive_message : FileReceiver → TcpClient cb → Run FileReceiver
  receive_message r c = do
    r' ← read_line (lookup cb (some (codes "\n")) (pos 1) (pos 0) c) r c
    on_message (resolve fl b (c_str r'.bufrcv)) r'

  unfoldable pub on_network_receive : FileReceiver → Run FileReceiver
  unfolding connection receive_message
  on_network_receive r = do c ← connection r; receive_message r c

  unfoldable pub on_network_close : FileReceiver → Run FileReceiver
  on_network_close r = ok (record r { tcpptr = none })

  -- Hand the file over and report it, or report a wrong size.
  unfoldable pub report_file : FileReceiver → ℕ × FileInfo → Run FileReceiver
  report_file r (k, f) =
      if f.filesize == f.rcvsize
      then notify_status complete (record r { fwptr = new_file k r.fwptr })
      else notify_status failure r

  unfoldable pub on_receive_complete : FileReceiver → Run FileReceiver
  unfolding current report_file
  on_receive_complete r = do
    file ← current r
    r' ← report_file r file
    ok (record r' { state = waiting })

  -- One message taken from the queue and handled by the function registered for it.
  abbrev pub handler : Message → FileReceiver → Run FileReceiver
  handler network_receive_msg = on_network_receive
  handler network_close_msg = on_network_close
  handler receive_complete_msg = on_receive_complete

  abbrev pub is_open : Option (TcpClient cb) → Bool
  is_open none = false
  is_open (some c) = c.sock_open

  -- IsAlive, with whether this object is the only owner of the connection.
  unfoldable pub is_alive : Bool → FileReceiver → Bool
  is_alive unique r = unique && is_open r.tcpptr

  -- FileReceiver(fwptr), with the file objects that are there; the bytes of the area are not
  -- initialised, and zero here.
  unfoldable pub make_filercv : List FileInfo → List ℕ → FileWritter → FileReceiver
  make_filercv files saving w = record {
    files = files;
    fwptr = w;
    saving = saving;
    fileptr = none;
    tcpptr = none;
    ring = make_ascproto;
    state = waiting;
    bufrcv = replicate tcp_pack_size 0;
    posted = [];
    sent = [];
  }

  -- CoupleNetwork, with whether the message queue starts and the slot of network_receive.
  unfoldable pub couple_network : Bool → Slot → TcpClient cb → FileReceiver → Bool × FileReceiver
  couple_network false slot client r = (false, r)
  couple_network true slot client r =
      (true, record r { tcpptr = some (register_read cb slot client) })

  -- The callbacks of the read handler: each slot that is connected is network_receive.
  abbrev pub called : ℕ → List Call → FileReceiver → Run FileReceiver
  called ec [] r = ok r
  called ec (_ ∷ _) r = network_receive ec r

  -- TCPClient::handle_read on this receiver's connection, with the callback that it makes.
  unfoldable pub network_read : ℕ → Text → FileReceiver → Run FileReceiver
  unfolding connection
  network_read ec arrived r = do
    c ← connection r
    let (c', calls) = handle_read cb ec arrived c
    r' ← called ec calls (record r { tcpptr = some c' })
    ok (record r' { tcpptr = map_option (finish_read cb ec) r'.tcpptr })
