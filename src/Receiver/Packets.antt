-- ===== src/Receiver/Packets.antt =====
-- The packets of one file on their way through a receiver.
use ftserver.Run.{Run, ok, ◌>>=◌}
use ftserver.Files.{FileInfo, IsStored}
use ftserver.Files.Sized.{AllSized, set-AllSized}
use ftserver.Files.Assembly.{grown, total, grown-IsStored, grow_all}
use ftserver.Tcp.Circular.{CircularBuffer}
use ftserver.Tcp.{TcpClient, tcp_pack_size, Slot, finish_read, start_read}
use ftserver.Protocol.Boost.{BoostText}
use ftserver.Protocol.{Floats}
use ftserver.Receiver.{FileReceiver, ready, receive_complete_msg, stored_data, network_read}
use ftserver.Base.{
  ℕ, ◌+◌, ◌≤◌, ◌<◌, ◌≡◌, refl, ap, ◌∙◌, true, false, some, List, [], ◌∷◌, ◌++◌, Text, leb,
  if◌then◌else◌, if_true, if_false, length, splice, get_elem?, arith, get_elem?-set_self,
  get_elem?-lt, Bool-cases, inl, inr, length-splice-le, length-set, get_elem?-set_ne, Option, ◌≢◌,
  length-append,
}
use ftserver.Receiver.Packet.{filled, took, went_on, network_read-packet}

module _ (cb : CircularBuffer) (fl : Floats) (b : BoostText) where
  abbrev Receiver : Type 0
  Receiver = FileReceiver cb fl b

  -- File k, whose content is f so far, is being received over a connection without the queue.
  pub record IsReceiving (r : Receiver) (k : ℕ) (f : FileInfo) : Type 0 where
    pub client : TcpClient cb
    pub slot : Slot
    pub more : List Slot
    pub connected : r.tcpptr ≡ some client
    pub registered : client.cbrcv ≡ slot ∷ more
    pub plain : client.usebuf ≡ false
    pub is_ready : r.state ≡ ready
    pub current_file : r.fileptr ≡ some k
    pub content : get_elem? r.files k ≡ some f
    pub is_stored : IsStored f

  -- What a packet leaves alone.
  pub record KeepsRest (r r' : Receiver) : Type 0 where
    pub fwptr : r'.fwptr ≡ r.fwptr
    pub ring : r'.ring ≡ r.ring
    pub sent : r'.sent ≡ r.sent
    pub saving : r'.saving ≡ r.saving
    pub area : length r.bufrcv ≤ length r'.bufrcv
    pub fileptr : r'.fileptr ≡ r.fileptr
    pub length_same : length r'.files ≡ length r.files
    pub elsewhere :
        (k j : ℕ) → r.fileptr ≡ some k → k ≢ j → get_elem? r'.files j ≡ get_elem? r.files j
    pub sized : AllSized r.files → AllSized r'.files

  KeepsRest-trans : (r r' r'' : Receiver) → KeepsRest r r' → KeepsRest r' r'' → KeepsRest r r''
  KeepsRest-trans r r' r'' a z = record {
    fwptr = z.fwptr ∙ a.fwptr;
    ring = z.ring ∙ a.ring;
    sent = z.sent ∙ a.sent;
    saving = z.saving ∙ a.saving;
    area = omega (arith, a.area, z.area);
    fileptr = z.fileptr ∙ a.fileptr;
    length_same = z.length_same ∙ a.length_same;
    elsewhere = λ k j e n. z.elsewhere k j (a.fileptr ∙ e) n ∙ a.elsewhere k j e n;
    sized = λ h. z.sized (a.sized h);
  }

  abbrev pub IsPacket : Text → Type 0
  IsPacket d = (0 < length d) × (length d ≤ tcp_pack_size)

  abbrev pub next_client : TcpClient cb → Text → TcpClient cb
  next_client c d = finish_read cb 0 (filled cb fl b d c)

  pub next_client-same :
      (c : TcpClient cb) (d : Text)
      → ((next_client c d).cbrcv ≡ c.cbrcv) × ((next_client c d).usebuf ≡ c.usebuf)
  unfolding finish_read start_read
  next_client-same c d = ground arith

  pub next_client-area :
      (c : TcpClient cb) (d : Text)
      → ((next_client c d).bufrcv ≡ splice c.bufrcv 0 d) × ((next_client c d).bytercv ≡ length d)
  unfolding finish_read start_read
  next_client-area c d = ground arith

  -- The outcome of one packet.
  record Took (d : Text) (r : Receiver) (k : ℕ) (f : FileInfo) (r' : Receiver) : Type 0 where
    receiving : IsReceiving r' k (grown d f)
    rest : KeepsRest r r'
    posted : r'.posted ≡ (
        if leb f.filesize (f.rcvsize + length d)
        then r.posted ++ receive_complete_msg ∷ []
        else r.posted)

  file_number : {p : Option ℕ} (i k : ℕ) → p ≡ some i → p ≡ some k → i ≡ k
  file_number i k e at = cc

  took-KeepsRest :
      (d : Text) (c : TcpClient cb) (k : ℕ) (f : FileInfo) (r : Receiver)
      → length (grown d f).filedata ≡ f.filesize
      → r.fileptr ≡ some k
      → KeepsRest r (went_on cb fl b (took cb fl b d c k f r))
  unfolding stored_data
  took-KeepsRest d c k f r n at = elim (Bool-cases (leb f.filesize (f.rcvsize + length d))) [
    | inl last ↦ rw last (record {
      fwptr = refl;
      ring = refl;
      sent = refl;
      saving = refl;
      area = length-splice-le {0} r.bufrcv d;
      fileptr = refl;
      length_same = length-set {0} r.files k (grown d f);
      elsewhere = λ i j e apart.
          get_elem?-set_ne r.files k j (grown d f) (λ same. apart (file_number i k e at ∙ same));
      sized = λ h. set-AllSized r.files k (grown d f) h n;
    })
    | inr early ↦ rw early (record {
      fwptr = refl;
      ring = refl;
      sent = refl;
      saving = refl;
      area = length-splice-le {0} r.bufrcv d;
      fileptr = refl;
      length_same = length-set {0} r.files k (grown d f);
      elsewhere = λ i j e apart.
          get_elem?-set_ne r.files k j (grown d f) (λ same. apart (file_number i k e at ∙ same));
      sized = λ h. set-AllSized r.files k (grown d f) h n;
    })
  ]

  took-Took :
      (d : Text) (r : Receiver) (k : ℕ) (f : FileInfo) (q : IsReceiving r k f)
      → f.rcvsize + length d ≤ f.filesize
      → Took d r k f (went_on cb fl b (took cb fl b d q.client k f r))
  unfolding stored_data
  took-Took d r k f q fits = record {
    receiving = record {
      client = next_client q.client d;
      slot = q.slot;
      more = q.more;
      connected = ground arith;
      registered = (next_client-same q.client d).0 ∙ q.registered;
      plain = (next_client-same q.client d).1 ∙ q.plain;
      is_ready = ground arith;
      current_file = ground arith;
      content =
          ground
            (arith, get_elem?-set_self r.files k (grown d f) (get_elem?-lt r.files k q.content));
      is_stored = grown-IsStored d f q.is_stored fits;
    };
    rest =
        took-KeepsRest d q.client k f r (grown-IsStored d f q.is_stored fits).sized q.current_file;
    posted = ground arith;
  }

  network_read-Took :
      (d : Text) (r : Receiver) (k : ℕ) (f : FileInfo)
      → IsReceiving r k f
      → length d ≤ tcp_pack_size
      → f.rcvsize + length d ≤ f.filesize
      → (r' : Receiver) × (network_read cb fl b 0 d r ≡ ok r') × Took d r k f r'
  network_read-Took d r k f q short fits = (
    went_on cb fl b (took cb fl b d q.client k f r),
    network_read-packet cb fl b d r q.client q.slot q.more k f q.connected q.registered q.plain
        q.is_ready q.current_file q.content q.is_stored short fits,
    took-Took d r k f q fits,
  )

  -- Packet after packet, with no error.
  unfoldable pub read_packets : List Text → Receiver → Run Receiver
  read_packets [] r = ok r
  read_packets (d ∷ ds) r = do r' ← network_read cb fl b 0 d r; read_packets ds r'

  abbrev pub ArePackets : List Text → Type 0
  ArePackets [] = Unit {0}
  ArePackets (d ∷ ds) = IsPacket d × ArePackets ds

  -- All packets of a file have been taken.
  pub record IsComplete (r : Receiver) (k : ℕ) (f : FileInfo) (r' : Receiver) : Type 0 where
    pub receiving : IsReceiving r' k f
    pub rest : KeepsRest r r'
    pub posted : r'.posted ≡ r.posted ++ receive_complete_msg ∷ []

  read_packets-next :
      (d : Text) (ds : List Text) (r r1 : Receiver) (k : ℕ) (g : FileInfo)
      → network_read cb fl b 0 d r ≡ ok r1
      → KeepsRest r r1
      → r1.posted ≡ r.posted
      → (r' : Receiver) × (read_packets ds r1 ≡ ok r') × IsComplete r1 k g r'
      → (r' : Receiver) × (read_packets (d ∷ ds) r ≡ ok r') × IsComplete r k g r'
  unfolding read_packets
  read_packets-next d ds r r1 k g e kept same (r', go, c) = (
    r',
    ap (λ m. m >>= read_packets ds) e ∙ go,
    record {
      receiving = c.receiving;
      rest = KeepsRest-trans r r1 r' kept c.rest;
      posted = c.posted ∙ ap (λ p. p ++ receive_complete_msg ∷ []) same;
    },
  )

  pub read_packets-grow :
      (d : Text) (ds : List Text) (r : Receiver) (k : ℕ) (f : FileInfo)
      → IsReceiving r k f
      → ArePackets (d ∷ ds)
      → f.rcvsize + length (total (d ∷ ds)) ≡ f.filesize
      → (r' : Receiver) × (read_packets (d ∷ ds) r ≡ ok r')
        × IsComplete r k (grow_all (d ∷ ds) f) r'
  unfolding read_packets
  read_packets-grow d [] r k f q a e =
      let n : length (d ++ []) ≡ length d = length-append {0} d [] ∙ omega arith in
      let (r1, go, t) = network_read-Took d r k f q a.0.1 (omega arith) in
      let last : leb f.filesize (f.rcvsize + length d) ≡ true = ground arith in
      (
        r1,
        ap (λ m. m >>= ok) go,
        record { receiving = t.receiving; rest = t.rest; posted = t.posted ∙ if_true _ _ last },
      )
  read_packets-grow d (d' ∷ ds) r k f q a e =
      let n : length (d ++ (d' ++ total ds)) ≡ length d + (length d' + length (total ds)) =
        omega (arith, length-append {0} d (d' ++ total ds), length-append {0} d' (total ds)) in
      let (r1, go, t) = network_read-Took d r k f q a.0.1 (omega arith) in
      let early : leb f.filesize (f.rcvsize + length d) ≡ false = ground (arith, a.1.0.0) in
      read_packets-next d (d' ∷ ds) r r1 k _ go t.rest (t.posted ∙ if_false _ _ early) (
        read_packets-grow d' ds r1 k (grown d f) t.receiving a.1
          (omega (arith, length-append {0} d' (total ds))))
