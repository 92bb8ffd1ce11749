-- ===== src/Agent/Sessions.antt =====
-- The whole life of a connection: from its accept over all files that are sent, to the files on the disk.
use ftserver.Run.{ok}
use ftserver.Files.{FileInfo}
use ftserver.Writer.{FileSystem, FileWritter, Registration, WriterState, registration}
use ftserver.Writer.Monitor.{passes}
use ftserver.Writer.Drain.{
  AreFiles, AreDistinct, found, paths, registrations, AreStored, passes-AreStored,
}
use ftserver.Writer.Saving.{IsWritable, path_of}
use ftserver.Tcp.Circular.{CircularBuffer}
use ftserver.Tcp.{Slot, maketcp_client, register_read, start_read}
use ftserver.Tcp.Server.{accepted_client, start}
use ftserver.Protocol.Boost.{BoostText}
use ftserver.Protocol.{Floats}
use ftserver.Receiver.Stored.{announced_path}
use ftserver.Receiver.Session.{Sending, content_of, AreSound, session, IsIdle}
use ftserver.Receiver.Sequence.{AreHeld, reports, session-AllReceived}
use ftserver.Receiver.Ownership.{AllBelow}
use ftserver.Receiver.{FileReceiver, make_filercv}
use ftserver.Agent.FirstFile.{started_receiver, ascproto-IsRing}
use ftserver.Base.{
  Option-cases, inl, inr, ◌<◌, ◌≡◌, refl, sym, ap, ◌∙◌, subst, true, some, none, Option, List, [],
  ◌∷◌, ◌++◌, map, map-append, Text, length, ℕ, arith,
}

-- The places that are registered, if there is a data base.
abbrev pub registered_paths : Option Text → List Text → List Text
registered_paths none ps = []
registered_paths (some url) ps = ps

abbrev pub places : List Registration → List Text
places rs = map (λ r. r.img_path) rs

module _ (cb : CircularBuffer) (fl : Floats) (b : BoostText) (fs : FileSystem) where
  open fs use {Disk, join, read_file}

  abbrev Receiver : Type 0
  Receiver = FileReceiver cb fl b

  abbrev pub announced_paths : Text → List Sending → List Text
  announced_paths root [] = []
  announced_paths root (s ∷ ss) =
      announced_path cb fl b fs root s.announced ∷ announced_paths root ss

  -- Each file is on the disk at the place that its line gives, with the bytes sent.
  abbrev pub AreOnDisk : Text → Disk → List Sending → Type 0
  AreOnDisk root d [] = Unit {0}
  AreOnDisk root d (s ∷ ss) =
      (read_file d (announced_path cb fl b fs root s.announced) ≡ some (content_of s))
      × AreOnDisk root d ss

  pub started-IsIdle :
      (slot : Slot) (w : FileWritter)
      → w.running ≡ true
      → w.quenf ≡ []
      → IsIdle cb fl b (started_receiver cb fl b slot w)
  unfolding make_filercv register_read accepted_client start start_read maketcp_client
  started-IsIdle slot w run idle = record {
    client = _;
    slot = slot;
    more = [];
    connected = refl;
    registered = refl;
    plain = refl;
    waits = refl;
    sized = λ k f e. let bad : ⊥ = cc in absurd bad;
    ring = ascproto-IsRing;
    nothing = refl;
    runs = run;
    below = subst (λ ks. AllBelow 0 (ks ++ [])) (sym idle) tt;
    room = omega arith;
  }

  AreHeld-AreFiles :
      (files : List FileInfo) (ss : List Sending) (ks : List ℕ)
      → AreHeld cb fl b files ss ks
      → AreFiles fs files ks
  AreHeld-AreFiles files [] [] h = tt
  AreHeld-AreFiles files (s ∷ ss) (k ∷ ks) ((g, at, n), h) =
      ((_, at), AreHeld-AreFiles files ss ks h)
  AreHeld-AreFiles files [] (k ∷ ks) h = absurd h
  AreHeld-AreFiles files (s ∷ ss) [] h = absurd h

  paths-AreHeld :
      (files : List FileInfo) (root : Text) (ss : List Sending) (ks : List ℕ)
      (h : AreHeld cb fl b files ss ks)
      → paths fs files root (found fs files ks (AreHeld-AreFiles files ss ks h))
        ≡ announced_paths root ss
  unfolding AreHeld-AreFiles
  paths-AreHeld files root [] [] h = refl
  paths-AreHeld files root (s ∷ ss) (k ∷ ks) ((g, at, n), h) =
      λ i. join (join root (n i).subpath) (n i).filename ∷ paths-AreHeld files root ss ks h i
  paths-AreHeld files root [] (k ∷ ks) h = absurd h
  paths-AreHeld files root (s ∷ ss) [] h = absurd h

  AreStored-AreOnDisk :
      (files : List FileInfo) (root : Text) (d : Disk) (ss : List Sending) (ks : List ℕ)
      (h : AreHeld cb fl b files ss ks)
      → AreStored fs files root d (found fs files ks (AreHeld-AreFiles files ss ks h))
      → AreOnDisk root d ss
  unfolding AreHeld-AreFiles
  AreStored-AreOnDisk files root d [] [] h st = tt
  AreStored-AreOnDisk files root d (s ∷ ss) (k ∷ ks) ((g, at, n), h) (st, rest) = (
    subst (λ p. read_file d p ≡ some (content_of s))
        (λ i. join (join root (n i).subpath) (n i).filename) st,
    AreStored-AreOnDisk files root d ss ks h rest,
  )
  AreStored-AreOnDisk files root d [] (k ∷ ks) h st = absurd h
  AreStored-AreOnDisk files root d (s ∷ ss) [] h st = absurd h

  AreHeld-length :
      (files : List FileInfo) (ss : List Sending) (ks : List ℕ)
      → AreHeld cb fl b files ss ks
      → length ks ≡ length ss
  AreHeld-length files [] [] h = refl
  AreHeld-length files (s ∷ ss) (k ∷ ks) h = omega (arith, AreHeld-length files ss ks h.1)
  AreHeld-length files [] (k ∷ ks) h = absurd h
  AreHeld-length files (s ∷ ss) [] h = absurd h

  places-none :
      (files gs : List FileInfo) (w : FileWritter)
      → w.db ≡ none
      → places (registrations fs files w gs) ≡ []
  places-none files [] w e = refl
  places-none files (g ∷ gs) w e =
      ap
        (λ o.
          places
            (registration fs o g (path_of fs files w.path_root g) ++ registrations fs files w gs))
        e
      ∙ places-none files gs w e

  places-some :
      (files gs : List FileInfo) (w : FileWritter) (url : Text)
      → w.db ≡ some url
      → places (registrations fs files w gs) ≡ paths fs files w.path_root gs
  places-some files [] w url e = refl
  places-some files (g ∷ gs) w url e =
      ap
        (λ o.
          places
            (registration fs o g (path_of fs files w.path_root g) ++ registrations fs files w gs))
        e
      ∙ ap (λ ps. path_of fs files w.path_root g ∷ ps) (places-some files gs w url e)

  places-registrations :
      (files gs : List FileInfo) (w : FileWritter)
      → places (registrations fs files w gs) ≡ registered_paths w.db (paths fs files w.path_root gs)
  places-registrations files gs w = elim (Option-cases w.db) [
    | inl e ↦
        places-none files gs w e
        ∙ ap (λ o. registered_paths o (paths fs files w.path_root gs)) (sym e)
    | inr (url, e) ↦
        places-some files gs w url e
        ∙ ap (λ o. registered_paths o (paths fs files w.path_root gs)) (sym e)
  ]

  -- A connection is accepted; over it any number of files is announced and sent, one after another, each
  -- in a line of at most 1500 bytes with its newline, which Resolve takes for a description, and in
  -- packets of 1 to 1500 bytes that bring as many bytes as the line says. The writer runs, has nothing in
  -- its queue, and its last save succeeded; directories can be made and files written; and the files go
  -- to different places. Then nothing faults, the sender gets two reports for each file, and as many
  -- passes of the writer's thread as there are files empty the queue and leave each file with exactly
  -- the bytes sent at the place that its line gives below the writer's root; if there is a data base,
  -- just these places have been registered in addition, in the order of sending.
  pub session-AreOnDisk :
      (slot : Slot) (ss : List Sending) (w : WriterState fs)
      → AreSound cb fl b ss
      → w.writer.running ≡ true
      → w.writer.quenf ≡ []
      → w.rslt ≡ true
      → w.errcnt < 5
      → IsWritable fs
      → AreDistinct (announced_paths w.writer.path_root ss)
      → (r : Receiver) × (w' : WriterState fs) × (session cb fl b ss
            (started_receiver cb fl b slot w.writer)
          ≡ ok r)
        × (r.sent ≡ reports ss)
        × (passes fs (length ss) r.files (record w { writer = r.fwptr }) ≡ ok w')
        × (w'.writer.quenf ≡ [])
        × AreOnDisk w.writer.path_root w'.disk ss
        × (places w'.registered
            ≡ places w.registered
              ++ registered_paths w.writer.db (announced_paths w.writer.path_root ss))
  unfolding make_filercv
  session-AreOnDisk slot ss w v run idle good few can apart =
      let (r, go, _, x) =
        session-AllReceived cb fl b ss (started_receiver cb fl b slot w.writer)
          (started-IsIdle slot w.writer run idle) v in
      let queue : r.fwptr.quenf ≡ x.numbers =
        ap (λ y. y.quenf) x.queued ∙ ap (λ ks. ks ++ x.numbers) idle in
      let root : r.fwptr.path_root ≡ w.writer.path_root = ap (λ y. y.path_root) x.queued in
      let held = AreHeld-AreFiles r.files ss x.numbers x.holds in
      let at : paths fs r.files r.fwptr.path_root (found fs r.files x.numbers held)
          ≡ announced_paths w.writer.path_root ss =
        paths-AreHeld r.files r.fwptr.path_root ss x.numbers x.holds
        ∙ ap (λ y. announced_paths y ss) root in
      let (w', went, after, registered, stored) =
        passes-AreStored fs r.files can x.numbers held (record w { writer = r.fwptr }) queue good
          few (subst AreDistinct (sym at) apart) in
      (
        r,
        w',
        go,
        x.told,
        subst (λ n. passes fs n r.files (record w { writer = r.fwptr }) ≡ ok w')
            (AreHeld-length r.files ss x.numbers x.holds) went,
        ap (λ y. y.quenf) after,
        subst (λ y. AreOnDisk y w'.disk ss) root
            (AreStored-AreOnDisk r.files r.fwptr.path_root w'.disk ss x.numbers x.holds stored),
        ap places registered
            ∙ map-append (λ y. y.img_path) w.registered _
            ∙ ap (λ ps. places w.registered ++ ps)
                (places-registrations r.files (found fs r.files x.numbers held) r.fwptr ∙ λ i.
                  registered_paths (x.queued i).db (at i)),
      )
