-- ===== src/Receiver/Sequence.antt =====
-- File after file over one connection: each is received, and those that wait for the writer stay as they
-- are.
use ftserver.Run.{ok, ◌>>=◌, bind_assoc}
use ftserver.Files.{FileInfo}
use ftserver.Files.Assembly.{full, grow_all-full}
use ftserver.Writer.{FileWritter}
use ftserver.Tcp.Circular.{CircularBuffer}
use ftserver.Protocol.Boost.{BoostText}
use ftserver.Protocol.{Floats}
use ftserver.Receiver.Packets.{read_packets, IsComplete, read_packets-grow}
use ftserver.Receiver.Ownership.{Keeps}
use ftserver.Receiver.{FileReceiver, described, network_read, held, count}
use ftserver.Base.{
  ◌+◌, ◌≤◌, ◌≡◌, refl, sym, ap, ◌∙◌, subst, some, List, [], ◌∷◌, ◌++◌, Text, codes, length,
  pos_part, ℕ, arith, append_assoc, get_elem?, ◌<◌, append-nil,
}
use ftserver.Receiver.Session.{
  Sending, content_of, IsSound, AreSound, take_message, transfer, session, IsIdle, IsReceived,
}
use ftserver.Receiver.Arrival.{alerted, announced-Safely, network_read-alerted}
use ftserver.Receiver.Ending.{final, final-IsIdle, final-IsReceived, final-reached}

count_insert : (j k : ℕ) (xs ys : List ℕ) → count j (xs ++ ys) ≤ count j ((xs ++ k ∷ []) ++ ys)
count_insert j k [] ys = ground arith
count_insert j k (x ∷ xs) ys = ground (arith, count_insert j k xs ys)

count_inserted : (k : ℕ) (xs ys : List ℕ) → 0 < count k ((xs ++ k ∷ []) ++ ys)
count_inserted k [] ys = ground arith
count_inserted k (x ∷ xs) ys = ground (arith, count_inserted k xs ys)

-- What a sender of these files is told.
abbrev pub reports : List Sending → List Text
reports [] = []
reports (_ ∷ ss) = (codes "filestat status=1\n") ∷ (codes "filestat status=2\n") ∷ reports ss

module _ (cb : CircularBuffer) (fl : Floats) (b : BoostText) where
  abbrev Receiver : Type 0
  Receiver = FileReceiver cb fl b

  -- One file.
  pub transfer-IsReceived :
      (s : Sending) (r : Receiver)
      → IsIdle cb fl b r
      → IsSound cb fl b s
      → (r' : Receiver) × (transfer cb fl b s r ≡ ok r')
        × IsIdle cb fl b r'
        × IsReceived cb fl b s r r'
  unfolding transfer
  transfer-IsReceived s r i v =
      let r0 : Receiver = alerted cb fl b (s.line ++ b'\n' ∷ []) i.client r in
      let (k, g, r1, go, a, q) = announced-Safely cb fl b s r i v in
      let e : g.rcvsize + length (content_of s) ≡ g.filesize =
        omega (arith, a.empty, ap pos_part (a.size ∙ v.size)) in
      let (r2, packets, c) =
        read_packets-grow cb fl b s.first s.others r1 k g a.receiving v.packets e in
      let whole : IsComplete cb fl b r1 k (full g (content_of s)) r2 =
        subst (λ f. IsComplete cb fl b r1 k f r2)
          (grow_all-full (s.first ∷ s.others) g a.receiving.is_stored e) c in
      let x : IsReceived cb fl b s r0 (final cb fl b s r0 r1 r2 k g v a q whole i.runs) =
        final-IsReceived cb fl b s r0 r1 r2 k g v a q whole i.runs in
      (
        final cb fl b s r0 r1 r2 k g v a q whole i.runs,
        bind_assoc (network_read cb fl b 0 (s.line ++ b'\n' ∷ []) r) (take_message cb fl b)
              (λ r2. read_packets cb fl b (s.first ∷ s.others) r2 >>= take_message cb fl b)
            ∙ ap
                (λ m.
                  m >>= λ r2. read_packets cb fl b (s.first ∷ s.others) r2 >>= take_message cb fl b)
                (network_read-alerted cb fl b (s.line ++ b'\n' ∷ []) r i ∙ go)
            ∙ ap (λ m. m >>= take_message cb fl b) packets
            ∙ final-reached cb fl b s r0 r1 r2 k g v a q whole i.runs refl,
        final-IsIdle cb fl b s r0 r1 r2 k g v a q whole i.runs i.room,
        record {
          number = x.number;
          file = x.file;
          content = x.content;
          names = x.names;
          queued = x.queued;
          saving_same = x.saving_same;
          kept = x.kept;
          told = x.told;
        },
      )

  -- These objects hold these files.
  abbrev pub AreHeld : List FileInfo → List Sending → List ℕ → Type 0
  AreHeld files [] [] = Unit {0}
  AreHeld files (s ∷ ss) (k ∷ ks) =
      ((g : FileInfo) × (get_elem? files k
          ≡ some (record g { filedata = content_of s; rcvsize = length (content_of s) }))
        × (g ≡ described cb fl b s.announced g))
      × AreHeld files ss ks
  AreHeld files _ _ = ⊥

  -- All files have come in, in order, and wait for the writer.
  pub record AllReceived (ss : List Sending) (r r' : Receiver) : Type 0 where
    pub numbers : List ℕ
    pub holds : AreHeld r'.files ss numbers
    pub queued : r'.fwptr ≡ record (r.fwptr) { quenf = r.fwptr.quenf ++ numbers }
    pub kept : Keeps cb fl b r r'
    pub told : r'.sent ≡ r.sent ++ reports ss

  held-IsReceived :
      (s : Sending) (r r1 : Receiver) (x : IsReceived cb fl b s r r1)
      → held cb fl b r1 ≡ (r.fwptr.quenf ++ x.number ∷ []) ++ r.saving
  held-IsReceived s r r1 x = λ i. (x.queued i).quenf ++ x.saving_same i

  AllReceived-cons :
      (s : Sending) (ss : List Sending) (r r1 r2 : Receiver)
      → IsReceived cb fl b s r r1
      → AllReceived ss r1 r2
      → AllReceived (s ∷ ss) r r2
  AllReceived-cons s ss r r1 r2 x y =
      let later = held-IsReceived s r r1 x in
      record {
        numbers = x.number ∷ y.numbers;
        holds = (
          (
            x.file,
            y.kept x.number (
                  subst (λ ks. 0 < count x.number ks) (sym later)
                    (count_inserted x.number r.fwptr.quenf r.saving))
                ∙ x.content,
            x.names,
          ),
          y.holds,
        );
        queued =
            y.queued
            ∙ ap (λ (w : FileWritter). record w { quenf = w.quenf ++ y.numbers }) x.queued
            ∙ ap (λ ks. record (r.fwptr) { quenf = ks })
                (append_assoc r.fwptr.quenf (x.number ∷ []) y.numbers);
        kept = λ j n.
            y.kept j (
              subst (λ ks. 0 < count j ks) (sym later)
                (omega (arith, n, count_insert j x.number r.fwptr.quenf r.saving)))
            ∙ x.kept j n;
        told =
            y.told
            ∙ ap (λ t. t ++ reports ss) x.told
            ∙ append_assoc r.sent
                ((codes "filestat status=1\n") ∷ (codes "filestat status=2\n") ∷ []) (reports ss);
      }

  -- A waiting receiver takes any number of sound files one after another without a fault, each line, its
  -- packets and the messages that they cause: it then waits again; the objects of the files, with their
  -- names and exactly the bytes sent, are the new end of the writer's queue, in the order of sending; what
  -- was in the queue or being saved before is unchanged; and the sender got two reports for each file.
  pub session-AllReceived :
      (ss : List Sending) (r : Receiver)
      → IsIdle cb fl b r
      → AreSound cb fl b ss
      → (r' : Receiver) × (session cb fl b ss r ≡ ok r') × IsIdle cb fl b r' × AllReceived ss r r'
  unfolding session
  session-AllReceived [] r i v = (
    r,
    refl,
    i,
    record {
      numbers = [];
      holds = tt;
      queued = ap (λ ks. record (r.fwptr) { quenf = ks }) (sym (append-nil r.fwptr.quenf));
      kept = λ j n. refl;
      told = sym (append-nil r.sent);
    },
  )
  session-AllReceived (s ∷ ss) r i (v, vs) =
      let (r1, go, i1, x) = transfer-IsReceived s r i v in
      let (r2, rest, i2, y) = session-AllReceived ss r1 i1 vs in
      (r2, ap (λ m. m >>= session cb fl b ss) go ∙ rest, i2, AllReceived-cons s ss r r1 r2 x y)
