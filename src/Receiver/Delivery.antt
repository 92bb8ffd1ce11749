-- ===== src/Receiver/Delivery.antt =====
-- One file on its way through a receiver: put together, handed to the writer and reported.
use ftserver.Run.{Run, ok, null_pointer, out_of_bounds, or_fault, ◌>>=◌}
use ftserver.Files.{FileInfo}
use ftserver.Files.Assembly.{stored, full, total, grow_all, grow_all-full}
use ftserver.Writer.{new_file}
use ftserver.Tcp.Circular.{CircularBuffer}
use ftserver.Tcp.{TcpClient}
use ftserver.Protocol.Boost.{BoostText}
use ftserver.Protocol.Tokens.{trimmed, trim_right_if-joins}
use ftserver.Protocol.Numbers.{show_int, decimal}
use ftserver.Protocol.Output.{
  OutputRing, Output, IsRing, IsShort, line_of, after_line, shown, sprintf_line, sprintf_line-some,
  output_compacted, string_at,
}
use ftserver.Protocol.RoundTrip.{compact_filestat-joins, show_int-IsNumber}
use ftserver.Protocol.{Floats}
use ftserver.Receiver.{
  FileReceiver, State, waiting, ready, complete, failure, state_number, receive_complete_msg,
  connection, notify_status, write_status, status_text, report_file, handler, on_receive_complete,
}
use ftserver.Receiver.Packets.{IsReceiving, ArePackets, read_packets, IsComplete, read_packets-grow}
use ftserver.Receiver.Packet.{current-some}
use ftserver.Base.{
  ◌*◌, ℕ, ◌+◌, ◌≡◌, refl, sym, ap, ◌∙◌, true, some, List, [], ◌∷◌, ◌++◌, Text, codes, c_str,
  if_true, length, take, take_all, get_elem?, arith, ==_iff,
}

-- The text of a status report, without the newline.
abbrev pub report : State → Text
report st = codes "filestat status=" ++ show_int (state_number st)

pub report-IsShort : (st : State) → (c_str (report st) ≡ report st) × IsShort (report st)
unfolding show_int decimal
report-IsShort waiting = (refl, omega arith)
report-IsShort ready = (refl, omega arith)
report-IsShort complete = (refl, omega arith)
report-IsShort failure = (refl, omega arith)

module _ (cb : CircularBuffer) (fl : Floats) (b : BoostText) where
  abbrev Receiver : Type 0
  Receiver = FileReceiver cb fl b

  status_text-report :
      (st : State) → BoostText.trim_right_if b trimmed (status_text cb fl b st) ≡ report st
  status_text-report st =
      let (clean, ne, last) = show_int-IsNumber (state_number st) in
      ap (BoostText.trim_right_if b trimmed) (compact_filestat-joins fl b (state_number st))
      ∙ trim_right_if-joins fl b (codes "filestat ") (codes "status", show_int (state_number st)) []
          (ne, last)

  -- What a status report puts on the connection.
  abbrev pub reported : State → Receiver → Receiver
  reported st r = record r {
    state = st;
    ring = after_line (report st) r.ring;
    sent = r.sent ++ (report st ++ b'\n' ∷ []) ∷ [];
  }

  line_sent :
      (st : State) (ring : OutputRing)
      → IsRing ring
      → take
          (length (line_of (report st)))
          (string_at (ring.ibuf * 1024) (after_line (report st) ring))
        ≡ report st ++ b'\n' ∷ []
  line_sent st ring v =
      let (same, short) = report-IsShort st in
      let all : take (length (line_of (report st))) (line_of (report st)) ≡ line_of (report st) =
        take_all (length (line_of (report st))) (line_of (report st)) (omega arith) in
      ap (take (length (line_of (report st)))) (shown (report st) ring v short)
      ∙ all
      ∙ ap (λ t. t ++ b'\n' ∷ []) same

  -- The line in its output area.
  abbrev area : State → OutputRing → Output
  area st ring = record {
    address = ring.ibuf * 1024;
    n = length (line_of (report st));
    ring = after_line (report st) ring;
  }

  output-area :
      (st : State) (ring : OutputRing)
      → IsRing ring
      → output_compacted b (status_text cb fl b st) ring ≡ some (area st ring)
  unfolding output_compacted
  output-area st ring v =
      ap (λ t. sprintf_line t ring) (status_text-report st)
      ∙ sprintf_line-some (report st) ring v (report-IsShort st).1

  write_status-area :
      (st : State) (r : Receiver) (c : TcpClient cb)
      → IsRing r.ring
      → r.tcpptr ≡ some c
      → write_status cb fl b st r (area st r.ring) ≡ ok (reported st r)
  unfolding write_status connection
  write_status-area st r c v t =
      ap
        (λ o. or_fault o null_pointer >>= λ c1. ok (record (reported st r) {
          sent =
              r.sent
              ++ take (area st r.ring).n (string_at (area st r.ring).address (area st r.ring).ring)
                ∷ [];
        }))
        t
      ∙ ap (λ l. ok (record (reported st r) { sent = r.sent ++ l ∷ [] })) (line_sent st r.ring v)

  pub notify_status-reported :
      (st : State) (r : Receiver) (c : TcpClient cb)
      → IsRing r.ring
      → r.tcpptr ≡ some c
      → notify_status cb fl b st r ≡ ok (reported st r)
  unfolding notify_status
  notify_status-reported st r c v t =
      ap (λ o. or_fault o out_of_bounds >>= write_status cb fl b st r) (output-area st r.ring v)
      ∙ write_status-area st r c v t

  -- The receiver after a complete file is handed over.
  abbrev pub handed_over : ℕ → Receiver → Receiver
  handed_over k r = record (reported complete (record r { fwptr = new_file k r.fwptr })) {
    state = waiting;
  }

  abbrev settled : Receiver → Run Receiver
  settled r = ok (record r { state = waiting })

  pub on_receive_complete-hands_over :
      (r : Receiver) (k : ℕ) (f : FileInfo) (c : TcpClient cb)
      → r.fileptr ≡ some k
      → get_elem? r.files k ≡ some f
      → f.filesize ≡ f.rcvsize
      → IsRing r.ring
      → r.tcpptr ≡ some c
      → on_receive_complete cb fl b r ≡ ok (handed_over k r)
  unfolding on_receive_complete report_file
  on_receive_complete-hands_over r k f c e h s v t =
      ap (λ (m : Run (ℕ × FileInfo)). m >>= λ q. report_file cb fl b r q >>= settled)
        (current-some cb fl b r k f e h)
      ∙ ap (λ (m : Run Receiver). m >>= settled)
          (if_true _ _ ((==_iff _ _).1 s)
            ∙ notify_status-reported complete (record r { fwptr = new_file k r.fwptr }) c v t)

  -- The receiver has handed over file k, whose bytes are t behind what had been stored.
  pub record IsDelivered (r : Receiver) (k : ℕ) (f : FileInfo) (t : Text) (r' : Receiver)
      : Type 0 where
    pub queued : r'.fwptr ≡ record (r.fwptr) { quenf = r.fwptr.quenf ++ k ∷ [] }
    pub content :
        get_elem? r'.files k ≡ some (record f { filedata = stored f ++ t; rcvsize = f.filesize })
    pub told : r'.sent ≡ r.sent ++ (codes "filestat status=2\n") ∷ []
    pub again : r'.state ≡ waiting

  handed_over-IsDelivered :
      (r r1 : Receiver) (k : ℕ) (f g : FileInfo) (t : Text)
      → IsComplete cb fl b r k g r1
      → g ≡ full f t
      → r.fwptr.running ≡ true
      → IsDelivered r k f t (handed_over k r1)
  unfolding new_file show_int decimal
  handed_over-IsDelivered r r1 k f g t c e run = record {
    queued = ap (new_file k) c.rest.fwptr ∙ if_true _ _ run;
    content = c.receiving.content ∙ ap some e;
    told = ap (λ s. s ++ (report complete ++ b'\n' ∷ []) ∷ []) c.rest.sent;
    again = refl;
  }

  -- A file of which something is missing, on a receiver that is ready for it, with no message
  -- pending, its output areas set up and a writer that runs: the packets, of 1 to 1500 bytes,
  -- that bring exactly the missing bytes, in order, are taken without a fault and cause one
  -- message; handling it puts the file into the queue of the writer with all its bytes in order,
  -- tells the sender that it is complete, and leaves the receiver waiting for the next file.
  pub read_packets-deliver :
      (d : Text) (ds : List Text) (r : Receiver) (k : ℕ) (f : FileInfo)
      → IsReceiving cb fl b r k f
      → ArePackets cb fl b (d ∷ ds)
      → f.rcvsize + length (total (d ∷ ds)) ≡ f.filesize
      → IsRing r.ring
      → r.posted ≡ []
      → r.fwptr.running ≡ true
      → (r1 : Receiver) × (read_packets cb fl b (d ∷ ds) r ≡ ok r1)
        × (r1.posted ≡ receive_complete_msg ∷ [])
        × ((r2 : Receiver) × (handler cb fl b receive_complete_msg r1 ≡ ok r2)
            × IsDelivered r k f (total (d ∷ ds)) r2)
  read_packets-deliver d ds r k f q a e v p run =
      let (r1, go, c) = read_packets-grow cb fl b d ds r k f q a e in
      let g : FileInfo = grow_all (d ∷ ds) f in
      let all : g ≡ full f (total (d ∷ ds)) = grow_all-full (d ∷ ds) f q.is_stored e in
      (
        r1,
        go,
        c.posted ∙ ap (λ m. m ++ receive_complete_msg ∷ []) p,
        (
          handed_over k r1,
          on_receive_complete-hands_over r1 k g c.receiving.client c.receiving.current_file
              c.receiving.content (ap (λ h. h.filesize) all ∙ sym (ap (λ h. h.rcvsize) all))
              (rw c.rest.ring v) c.receiving.connected,
          handed_over-IsDelivered r r1 k f g (total (d ∷ ds)) c all run,
        ),
      )
