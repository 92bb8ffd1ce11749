-- ===== src/Agent/Steps.antt =====
-- What one act makes of an orderly system: a file more in the queue, or on the disk.
use ftserver.Run.{Run, ok, ◌>>=◌}
use ftserver.Files.{FileInfo}
use ftserver.Writer.{FileSystem, FileWritter, WriterState, waiting}
use ftserver.Writer.Drain.{IsFresh, AreDistinct}
use ftserver.Writer.Saving.{IsWritable}
use ftserver.Writer.Turns.{turn, turn-Lands, turn_idle}
use ftserver.Tcp.Circular.{CircularBuffer}
use ftserver.Protocol.Boost.{BoostText}
use ftserver.Protocol.{Floats}
use ftserver.Receiver.Stored.{announced_path}
use ftserver.Receiver.Session.{Sending, content_of, IsSound, IsIdle}
use ftserver.Receiver.Sequence.{AreHeld, transfer-IsReceived}
use ftserver.Receiver.Ownership.{AllBelow}
use ftserver.Receiver.{FileReceiver, count}
use ftserver.Agent.Sessions.{announced_paths, AreOnDisk}
use ftserver.Base.{
  ◌<◌, ◌≤◌, ◌≡◌, ◌≢◌, inl, inr, refl, sym, ap, ◌∙◌, subst, some, List, [], ◌∷◌, ◌++◌, Text, length,
  ℕ, arith, get_elem?,
}
use ftserver.Agent.System.{System, sends, saves, act, IsOrderly}

count_left : (j : ℕ) (xs ys : List ℕ) → count j xs ≤ count j (xs ++ ys)
count_left j [] ys = omega arith
count_left j (x ∷ xs) ys = ground (arith, count_left j xs ys)

module _ (cb : CircularBuffer) (fl : Floats) (b : BoostText) (fs : FileSystem) where
  open fs use {Disk, join, read_file}

  abbrev Receiver : Type 0
  Receiver = FileReceiver cb fl b

  AreHeld-add :
      (files files' : List FileInfo) (ss : List Sending) (ks : List ℕ) (s : Sending) (k : ℕ)
      → AreHeld cb fl b files ss ks
      → ((j : ℕ) → 0 < count j ks → get_elem? files' j ≡ get_elem? files j)
      → AreHeld cb fl b files' (s ∷ []) (k ∷ [])
      → AreHeld cb fl b files' (ss ++ s ∷ []) (ks ++ k ∷ [])
  AreHeld-add files files' [] [] s k h same new = new
  AreHeld-add files files' (x ∷ ss) (j ∷ ks) s k ((g, at, n), h) same new = (
    (g, same j (ground arith) ∙ at, n),
    AreHeld-add files files' ss ks s k h (λ i c. same i (ground arith)) new,
  )
  AreHeld-add files files' [] (j ∷ ks) s k h same new = absurd h
  AreHeld-add files files' (x ∷ ss) [] s k h same new = absurd h

  abbrev path : Text → Sending → Text
  path root s = announced_path cb fl b fs root s.announced

  Fresh-at :
      (root q : Text) (landed : List Sending) (s : Sending) (rest : List Sending)
      → IsFresh q (announced_paths cb fl b fs root (landed ++ s ∷ rest))
      → path root s ≢ q
  Fresh-at root q [] s rest h = h.0
  Fresh-at root q (x ∷ landed) s rest h = Fresh-at root q landed s rest h.1

  AreOnDisk-add :
      (root : Text) (d d' : Disk) (landed : List Sending) (s : Sending) (rest : List Sending)
      → AreDistinct (announced_paths cb fl b fs root (landed ++ s ∷ rest))
      → AreOnDisk cb fl b fs root d landed
      → read_file d' (path root s) ≡ some (content_of s)
      → ((q : Text) → path root s ≢ q → read_file d' q ≡ read_file d q)
      → AreOnDisk cb fl b fs root d' (landed ++ s ∷ [])
  AreOnDisk-add root d d' [] s rest apart h new same = (new, tt)
  AreOnDisk-add root d d' (x ∷ landed) s rest apart h new same = (
    same (path root x) (Fresh-at root (path root x) landed s rest apart.0) ∙ h.0,
    AreOnDisk-add root d d' landed s rest apart.1 h.1 new same,
  )

  -- A file more has come in.
  pub IsOrderly-sends :
      (root : Text) (landed queued : List Sending) (y : System cb fl b fs) (s : Sending)
      → IsOrderly cb fl b fs root landed queued y
      → IsSound cb fl b s
      → (y' : System cb fl b fs) × (act cb fl b fs (sends s) y ≡ ok y')
        × IsOrderly cb fl b fs root landed (queued ++ s ∷ []) y'
  IsOrderly-sends root landed queued y s o v =
      let (r, go, i, x) = transfer-IsReceived cb fl b s y.receiver o.idle v in
      (
        record { receiver = r; thread = record (y.thread) { writer = r.fwptr } },
        ap
            (λ (m : Run Receiver). m >>= λ r1.
              ok (record { receiver = r1; thread = record (y.thread) { writer = r1.fwptr } }))
            go,
        record {
          idle = i;
          shared = refl;
          at_root = ap (λ w. w.path_root) x.queued ∙ o.at_root;
          holds =
              subst (λ ks. AreHeld cb fl b r.files (queued ++ s ∷ []) ks)
                (sym (ap (λ w. w.quenf) x.queued))
                (AreHeld-add y.receiver.files r.files queued y.receiver.fwptr.quenf s x.number
                  o.holds
                  (λ j c.
                    x.kept j
                      (omega (arith, c, count_left j y.receiver.fwptr.quenf y.receiver.saving)))
                  ((x.file, x.content, x.names), tt));
          good = o.good;
          few = o.few;
          going = o.going;
          on_disk = o.on_disk;
        },
      )

  -- The thread's turn as a step of both.
  after_turn : (y : System cb fl b fs) (w : WriterState fs) → System cb fl b fs
  after_turn y w = record { receiver = record (y.receiver) { fwptr = w.writer }; thread = w }

  act-turn :
      (y : System cb fl b fs) (w : WriterState fs)
      → turn fs y.receiver.files y.thread ≡ ok w
      → act cb fl b fs saves y ≡ ok (after_turn y w)
  unfolding after_turn
  act-turn y w e = ap (λ (m : Run (WriterState fs)). m >>= λ u. ok (after_turn y u)) e

  -- A waiting receiver does not mind that the queue gets shorter.
  IsIdle-shorter :
      (r : Receiver) (w : FileWritter) (k : ℕ) (rest : List ℕ)
      → IsIdle cb fl b r
      → r.fwptr.quenf ≡ k ∷ rest
      → w ≡ record (r.fwptr) { quenf = rest }
      → IsIdle cb fl b (record r { fwptr = w })
  IsIdle-shorter r w k rest i q e = record {
    client = i.client;
    slot = i.slot;
    more = i.more;
    connected = i.connected;
    registered = i.registered;
    plain = i.plain;
    waits = i.waits;
    sized = i.sized;
    ring = i.ring;
    nothing = i.nothing;
    runs = ap (λ x. x.running) e ∙ i.runs;
    below =
        subst (λ x. AllBelow (length r.files) (x ++ r.saving)) (sym (ap (λ x. x.quenf) e))
          (subst (λ ks. AllBelow (length r.files) (ks ++ r.saving)) q i.below).1;
    room = i.room;
  }

  -- The first of the queue has been saved.
  pub IsOrderly-saved :
      (root : Text) (landed queued others : List Sending) (s : Sending) (y : System cb fl b fs)
      (k : ℕ) (rest : List ℕ)
      → IsOrderly cb fl b fs root landed (s ∷ queued) y
      → y.receiver.fwptr.quenf ≡ k ∷ rest
      → IsWritable fs
      → AreDistinct (announced_paths cb fl b fs root (landed ++ s ∷ others))
      → (y' : System cb fl b fs) × (act cb fl b fs saves y ≡ ok y')
        × IsOrderly cb fl b fs root (landed ++ s ∷ []) queued y'
  unfolding after_turn
  IsOrderly-saved root landed queued others s y k rest o q can apart =
      let ((g, at, n), h) : AreHeld cb fl b y.receiver.files (s ∷ queued) (k ∷ rest) =
        subst (λ ks. AreHeld cb fl b y.receiver.files (s ∷ queued) ks) q o.holds in
      let (w, go, l) =
        turn-Lands fs y.receiver.files can k rest _ y.thread (ap (λ x. x.quenf) o.shared ∙ q) at
          o.good o.few o.going in
      let same : w.writer ≡ record (y.receiver.fwptr) { quenf = rest } =
        l.writer ∙ ap (λ (x : FileWritter). record x { quenf = rest }) o.shared in
      let place : join (join y.thread.writer.path_root g.subpath) g.filename ≡ path root s =
        (λ i. join (join (o.shared i).path_root (n i).subpath) (n i).filename)
        ∙ ap (λ x. path x s) o.at_root in
      (
        after_turn y w,
        act-turn y w go,
        record {
          idle = IsIdle-shorter y.receiver w.writer k rest o.idle q same;
          shared = refl;
          at_root = ap (λ x. x.path_root) same ∙ o.at_root;
          holds =
              subst (λ ks. AreHeld cb fl b y.receiver.files queued ks)
                (sym (ap (λ x. x.quenf) same)) h;
          good = l.good;
          few = l.few;
          going = inl l.going;
          on_disk =
              AreOnDisk-add root y.thread.disk w.disk landed s others apart o.on_disk
                (subst (λ p. read_file w.disk p ≡ some (content_of s)) place l.stored)
                (λ p ne. l.elsewhere p (subst (λ x. x ≢ p) (sym place) ne));
        },
      )

  -- Nothing waits: the thread's turn changes nothing but where it stands.
  pub IsOrderly-idle :
      (root : Text) (landed : List Sending) (y : System cb fl b fs)
      → IsOrderly cb fl b fs root landed [] y
      → y.receiver.fwptr.quenf ≡ []
      → (y' : System cb fl b fs) × (act cb fl b fs saves y ≡ ok y')
        × IsOrderly cb fl b fs root landed [] y'
  unfolding after_turn
  IsOrderly-idle root landed y o q =
      let w : WriterState fs = record (y.thread) { phase = waiting } in
      let r : Receiver = record (y.receiver) { fwptr = y.thread.writer } in
      let same : y.receiver ≡ r = sym (ap (λ x. record (y.receiver) { fwptr = x }) o.shared) in
      (
        after_turn y w,
        act-turn y w
            (turn_idle fs y.receiver.files y.thread (ap (λ x. x.quenf) o.shared ∙ q) o.few o.going),
        record {
          idle = subst (λ x. IsIdle cb fl b x) same o.idle;
          shared = refl;
          at_root = ap (λ x. x.path_root) o.shared ∙ o.at_root;
          holds = subst (λ x. AreHeld cb fl b x.files [] x.fwptr.quenf) same o.holds;
          good = o.good;
          few = o.few;
          going = inr refl;
          on_disk = o.on_disk;
        },
      )
