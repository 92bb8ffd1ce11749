-- ===== src/Receiver/Announce.antt =====
-- A file announced in one line: the object that is made ready for it.
use ftserver.Run.{Run, ok, ◌>>=◌}
use ftserver.Files.{FileInfo, new_file_info, IsStored}
use ftserver.Tcp.Circular.{CircularBuffer}
use ftserver.Tcp.{TcpClient, Slot}
use ftserver.Protocol.Boost.{BoostText}
use ftserver.Protocol.Numbers.{show_int, decimal}
use ftserver.Protocol.Output.{IsRing, after_line-IsRing}
use ftserver.Files.Sized.{AllSized, set-AllSized, end-AllSized}
use ftserver.Protocol.{Floats, fileinfo, AsciiProtoFileinfo, resolve}
use ftserver.Receiver.Lines.{HasLine, line_taken, on_network_receive-HasLine}
use ftserver.Receiver.Delivery.{reported, report, report-IsShort, notify_status-reported}
use ftserver.Receiver.Packets.{IsReceiving}
use ftserver.Receiver.Packet.{current-some}
use ftserver.Receiver.{
  FileReceiver, ready, needs_new, make_file, described, describe, take_fileinfo, on_message,
  on_network_receive, notify_status,
}
use ftserver.Base.{
  ℕ, ◌+◌, ◌≤◌, ◌≡◌, inl, inr, refl, sym, ap, ◌∙◌, subst, true, false, some, List, [], ◌∷◌, ◌++◌,
  Text, codes, if◌then◌else◌, if_true, if_false, length, get_elem?, set, pos, ℤ, ◌==ℤ◌, replicate,
  arith, Bool-cases, Option-cases, get_elem?-set_self, get_elem?-lt, get_elem?-end,
  length-replicate, length-splice, length-splice-le, splice,
}

-- FileInfo(n).
abbrev fresh : ℕ → FileInfo
fresh n = record {
  gid = [];
  uid = [];
  cid = [];
  grid = [];
  field = [];
  tmobs = [];
  subpath = [];
  filename = [];
  filesize = n;
  rcvsize = 0;
  filedata = replicate n 0;
}

module _ (cb : CircularBuffer) (fl : Floats) (b : BoostText) where
  abbrev Receiver : Type 0
  Receiver = FileReceiver cb fl b

  -- The object k of the receiver is ready for the file that p describes, and is empty.
  pub record IsPrepared (p : AsciiProtoFileinfo) (r r' : Receiver) (k : ℕ) (g : FileInfo)
      : Type 0 where
    pub current_file : r'.fileptr ≡ some k
    pub content : get_elem? r'.files k ≡ some g
    pub is_stored : IsStored g
    pub empty : g.rcvsize ≡ 0
    pub size : pos g.filesize ≡ p.filesize
    pub names : g ≡ described cb fl b p g
    pub connection_same : r'.tcpptr ≡ r.tcpptr
    pub ring_same : r'.ring ≡ r.ring
    pub sent_same : r'.sent ≡ r.sent
    pub posted_same : r'.posted ≡ r.posted
    pub writer_same : r'.fwptr ≡ r.fwptr
    pub saving_same : r'.saving ≡ r.saving
    pub area : length r.bufrcv ≤ length r'.bufrcv
    pub sized : AllSized r'.files

  abbrev Prepares : AsciiProtoFileinfo → Receiver → Run Receiver → Type 0
  Prepares p r m = (k : ℕ) × (g : FileInfo) × (r' : Receiver) × (m ≡ ok r') × IsPrepared p r r' k g

  describe-Prepares :
      (p : AsciiProtoFileinfo) (r r1 : Receiver) (k : ℕ) (f : FileInfo)
      → r1.fileptr ≡ some k
      → get_elem? r1.files k ≡ some f
      → length f.filedata ≡ f.filesize
      → pos f.filesize ≡ p.filesize
      → (r1.tcpptr ≡ r.tcpptr)
        × (r1.ring ≡ r.ring)
        × (r1.sent ≡ r.sent)
        × (r1.posted ≡ r.posted)
        × (r1.fwptr ≡ r.fwptr)
        × (r1.saving ≡ r.saving)
        × (length r.bufrcv ≤ length r1.bufrcv)
      → AllSized r1.files
      → Prepares p r (describe cb fl b p r1)
  unfolding describe
  describe-Prepares p r r1 k f e h sized same (t, g, s, o, w, v, n) all = (
    k,
    described cb fl b p f,
    record r1 { files = set r1.files k (described cb fl b p f) },
    ap (λ m. m >>= λ q. ok (record r1 { files = set r1.files q.0 (described cb fl b p q.1) }))
        (current-some cb fl b r1 k f e h),
    record {
      current_file = e;
      content = get_elem?-set_self r1.files k _ (get_elem?-lt r1.files k h);
      is_stored = record { sized = sized; counted = omega arith };
      empty = refl;
      size = same;
      names = refl;
      connection_same = t;
      ring_same = g;
      sent_same = s;
      posted_same = o;
      writer_same = w;
      saving_same = v;
      area = n;
      sized = set-AllSized r1.files k _ all sized;
    },
  )

  -- What is known where no new object is made.
  kept_object :
      (r : Receiver) (z : ℤ)
      → needs_new cb fl b r z ≡ false
      → (k : ℕ) × (f : FileInfo) × (r.fileptr ≡ some k)
        × (get_elem? r.files k ≡ some f)
        × ((pos f.filesize ==ℤ z) ≡ true)
  kept_object r z e = elim (Option-cases r.fileptr) [
    | inl nothing_ ↦ let bad : ⊥ = ground arith in absurd bad
    | inr (k, p) ↦ elim (Option-cases (get_elem? r.files k)) [
      | inl gone ↦ let bad : ⊥ = ground arith in absurd bad
      | inr (f, h) ↦ (k, f, p, h, ground arith)
    ]
  ]

  same_size : (z : ℤ) (m n : ℕ) → z ≡ pos n → (pos m ==ℤ z) ≡ true → pos m ≡ z
  same_size z m n e h =
      let h' : (pos m ==ℤ pos n) ≡ true = ap (λ x. pos m ==ℤ x) (sym e) ∙ h in
      let same : m ≡ n = ground arith in ap pos same ∙ sym e

  -- The receiver with a new object.
  abbrev with_new : ℕ → Receiver → Receiver
  with_new n r = record r { files = r.files ++ fresh n ∷ []; fileptr = some (length r.files) }

  take_fileinfo-Prepares :
      (p : AsciiProtoFileinfo) (n : ℕ) (r : Receiver)
      → p.filesize ≡ pos n
      → AllSized r.files
      → Prepares p r (take_fileinfo cb fl b p r)
  unfolding take_fileinfo make_file new_file_info
  take_fileinfo-Prepares p n r e sized = elim (Bool-cases (needs_new cb fl b r p.filesize)) [
    | inl new ↦
        let made : (if needs_new cb fl b r p.filesize then make_file cb fl b p.filesize r else ok r)
            ≡ ok (with_new n r) =
          if_true _ _ new ∙ ap (λ z. make_file cb fl b z r) e in
        subst (Prepares p r) (sym (ap (λ m. m >>= describe cb fl b p) made)) (
          describe-Prepares p r (with_new n r) (length r.files) (fresh n) refl
            (get_elem?-end r.files (fresh n)) (length-replicate n 0) (sym e)
            (refl, refl, refl, refl, refl, refl, omega arith)
            (end-AllSized r.files (fresh n) sized (length-replicate n 0)))
    | inr old ↦
        let (k, f, at, there, size) = kept_object r p.filesize old in
        let kept : (if needs_new cb fl b r p.filesize then make_file cb fl b p.filesize r else ok r)
            ≡ ok r =
          if_false _ _ old in
        subst (Prepares p r) (sym (ap (λ m. m >>= describe cb fl b p) kept)) (
          describe-Prepares p r r k f at there (sized k f there)
            (same_size p.filesize f.filesize n e size)
            (refl, refl, refl, refl, refl, refl, omega arith) sized)
  ]

  -- The receiver has made file k ready for what p announces, and has told the sender so.
  pub record IsAnnounced (p : AsciiProtoFileinfo) (r r' : Receiver) (k : ℕ) (g : FileInfo)
      : Type 0 where
    pub receiving : IsReceiving cb fl b r' k g
    pub empty : g.rcvsize ≡ 0
    pub size : pos g.filesize ≡ p.filesize
    pub names : g ≡ described cb fl b p g
    pub told : r'.sent ≡ r.sent ++ (codes "filestat status=1\n") ∷ []
    pub posted_same : r'.posted ≡ r.posted
    pub writer_same : r'.fwptr ≡ r.fwptr
    pub saving_same : r'.saving ≡ r.saving
    pub area : length r.bufrcv ≤ length r'.bufrcv
    pub sized : AllSized r'.files
    pub ring_ready : IsRing r'.ring

  -- A received line that fits the receiver's area and describes a file with a size that is not
  -- negative, on a connection that calls this receiver back, where the output areas are set up
  -- and every file object has an array of its size: handling the message that the line caused
  -- leaves the receiver ready for that file with an empty object of the announced size, which
  -- carries the names of the line, and tells the sender to go on.
  pub on_network_receive-announces :
      (r : Receiver) (c : TcpClient cb) (t : Text) (p : AsciiProtoFileinfo) (n : ℕ) (s : Slot)
      (ss : List Slot)
      → r.tcpptr ≡ some c
      → HasLine cb c t
      → c.cbrcv ≡ s ∷ ss
      → length t + 1 ≤ length r.bufrcv
      → resolve fl b t ≡ some (fileinfo p)
      → p.filesize ≡ pos n
      → AllSized r.files
      → IsRing r.ring
      → (k : ℕ) × (g : FileInfo) × (r' : Receiver) × (on_network_receive cb fl b r ≡ ok r')
        × IsAnnounced p r r' k g
  unfolding on_message show_int decimal
  on_network_receive-announces r c t p n s ss e l cs fits m size sized v =
      let (k, g, r1, go, q) = take_fileinfo-Prepares p n (line_taken cb fl b t c r) size sized in
      let whole : Text = splice r.bufrcv 0 (t ++ b'\n' ∷ []) in
      let room : length r.bufrcv ≤ length whole = length-splice-le {0} r.bufrcv (t ++ b'\n' ∷ []) in
      let ended : length (splice whole (length t) (0 ∷ [])) ≡ length whole =
        length-splice {0} whole (length t) (0 ∷ []) (omega (arith, fits, room)) in
      (
        k,
        g,
        reported cb fl b ready r1,
        on_network_receive-HasLine cb fl b r c t e l fits
            ∙ ap (λ o. on_message cb fl b o (line_taken cb fl b t c r)) m
            ∙ ap (λ (x : Run Receiver). x >>= notify_status cb fl b ready) go
            ∙ notify_status-reported cb fl b ready r1 c (rw q.ring_same v) q.connection_same,
        record {
          receiving = record {
            client = c;
            slot = s;
            more = ss;
            connected = q.connection_same;
            registered = cs;
            plain = l.plain;
            is_ready = refl;
            current_file = q.current_file;
            content = q.content;
            is_stored = q.is_stored;
          };
          empty = q.empty;
          size = q.size;
          names = q.names;
          told = ap (λ x. x ++ (report ready ++ b'\n' ∷ []) ∷ []) q.sent_same;
          posted_same = q.posted_same;
          writer_same = q.writer_same;
          saving_same = q.saving_same;
          area = omega (arith, q.area, room, ended);
          sized = q.sized;
          ring_ready =
              after_line-IsRing (report ready) r1.ring (rw q.ring_same v) (report-IsShort ready).1;
        },
      )
