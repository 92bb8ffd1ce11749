-- ===== src/Writer/Drain.antt =====
-- The writer's thread on a disk that can be written: the queue empties onto the disk.
use ftserver.Run.{Run, ok, ◌>>=◌}
use ftserver.Files.{FileInfo}
use ftserver.Writer.{FileSystem, FileWritter, Registration, WriterState, registration, counted}
use ftserver.Writer.Monitor.{passes}
use ftserver.Base.{
  ℕ, ◌<◌, ◌≡◌, ◌≢◌, refl, sym, ap, ◌∙◌, subst, true, some, List, [], ◌∷◌, ◌++◌, append_assoc,
  append-nil, Text, arith, get_elem?, length,
}
use ftserver.Writer.Saving.{
  IsWritable, path_of, Saves, save-Saves, Counted, counted-Counted, went_round, pass-Saves,
}

-- The path is none of these.
abbrev pub IsFresh : Text → List Text → Type 0
IsFresh q [] = Unit {0}
IsFresh q (p ∷ ps) = (p ≢ q) × IsFresh q ps

abbrev pub AreDistinct : List Text → Type 0
AreDistinct [] = Unit {0}
AreDistinct (p ∷ ps) = IsFresh p ps × AreDistinct ps

module _ (fs : FileSystem) (files : List FileInfo) where
  open fs use {
    Disk, join, is_directory, create_directory, write_file, read_file, read-write, read-write_ne,
    read-create_directory,
  }

  -- Every number of the queue is that of an object.
  abbrev pub AreFiles : List ℕ → Type 0
  AreFiles [] = Unit {0}
  AreFiles (k ∷ ks) = ((f : FileInfo) × (get_elem? files k ≡ some f)) × AreFiles ks

  -- The files of the queue with their numbers' objects.
  abbrev pub found : (ks : List ℕ) → AreFiles ks → List FileInfo
  found [] h = []
  found (k ∷ ks) h = h.0.0 ∷ found ks h.1

  abbrev pub paths : Text → List FileInfo → List Text
  paths root [] = []
  paths root (f ∷ gs) = path_of fs files root f ∷ paths root gs

  abbrev pub registrations : FileWritter → List FileInfo → List Registration
  registrations w [] = []
  registrations w (f ∷ gs) =
      registration fs w.db f (path_of fs files w.path_root f) ++ registrations w gs

  -- Each file can be read at its place.
  abbrev pub AreStored : Text → Disk → List FileInfo → Type 0
  AreStored root d [] = Unit {0}
  AreStored root d (f ∷ gs) =
      (read_file d (path_of fs files root f) ≡ some f.filedata) × AreStored root d gs

  -- The state after the files gs of the queue are saved.
  pub record IsDrained (s : WriterState fs) (gs : List FileInfo) (s' : WriterState fs)
      : Type 0 where
    pub writer : s'.writer ≡ record (s.writer) { quenf = [] }
    pub registered : s'.registered ≡ s.registered ++ registrations s.writer gs
    pub elsewhere :
        (q : Text)
        → IsFresh q (paths s.writer.path_root gs)
        → read_file s'.disk q ≡ read_file s.disk q
    pub stored : AreDistinct (paths s.writer.path_root gs) → AreStored s.writer.path_root s'.disk gs

  -- One file more at the front.
  IsDrained-cons :
      (s t u s' : WriterState fs) (f : FileInfo) (rest : List ℕ) (gs : List FileInfo)
      → Counted fs files s t
      → Saves fs files t f rest u
      → IsDrained (went_round fs files u) gs s'
      → IsDrained s (f ∷ gs) s'
  IsDrained-cons s t u s' f rest gs c v d =
      let w : u.writer ≡ record (s.writer) { quenf = rest } =
        v.writer ∙ ap (λ (x : FileWritter). record x { quenf = rest }) c.writer in
      let root : u.writer.path_root ≡ s.writer.path_root = ap (λ x. x.path_root) w in
      let path : Text = path_of fs files s.writer.path_root f in
      let at : path_of fs files t.writer.path_root f ≡ path =
        ap (λ x. path_of fs files x.path_root f) c.writer in
      record {
        writer = d.writer ∙ ap (λ (x : FileWritter). record x { quenf = [] }) w;
        registered =
            d.registered
            ∙ (λ i. v.registered i ++ registrations (w i) gs)
            ∙ (λ i.
                (c.registered i
                  ++ registration fs (c.writer i).db f (path_of fs files (c.writer i).path_root f))
                ++ registrations s.writer gs)
            ∙ append_assoc s.registered (registration fs s.writer.db f path)
                (registrations s.writer gs);
        elsewhere = λ q h.
            d.elsewhere q (subst (λ x. IsFresh q (paths x gs)) (sym root) h.1)
            ∙ v.elsewhere q (subst (λ x. x ≢ q) (sym at) h.0)
            ∙ ap (λ x. read_file x q) c.disk;
        stored = λ h. (
          d.elsewhere path (subst (λ x. IsFresh path (paths x gs)) (sym root) h.0)
              ∙ subst (λ x. read_file u.disk x ≡ some f.filedata) at v.stored,
          subst (λ x. AreStored x s'.disk gs) root
              (d.stored (subst (λ x. AreDistinct (paths x gs)) (sym root) h.1)),
        );
      }

  -- By induction on the queue.
  drains :
      (can : IsWritable fs) (ks : List ℕ) (h : AreFiles ks) (s : WriterState fs)
      → s.writer.quenf ≡ ks
      → s.rslt ≡ true
      → s.errcnt < 5
      → (s' : WriterState fs) × (passes fs (length ks) files s ≡ ok s')
        × IsDrained s (found ks h) s'
  unfolding passes
  drains can [] h s q r few = (
    s,
    refl,
    record {
      writer = λ i. record (s.writer) { quenf = q i };
      registered = sym (append-nil s.registered);
      elsewhere = λ q h. refl;
      stored = λ h. tt;
    },
  )
  drains can (k ∷ ks) ((f, at), h) s q r few =
      let c = counted-Counted fs files s r in
      let (u, v) = save-Saves fs files can f ks (counted fs s) in
      let (s', go, d) =
        drains can ks h (went_round fs files u) (ap (λ w. w.quenf) v.writer) refl
          (omega (arith, v.errcnt, c.errcnt)) in
      (
        s',
        ap (λ (m : Run (WriterState fs)). m >>= λ s1. passes fs (length ks) files s1)
              (pass-Saves fs files k ks f s u q at r few v)
            ∙ go,
        IsDrained-cons s (counted fs s) u s' f ks (found ks h) c v d,
      )

  -- On a disk where directories can be made and files can be written, a thread whose last save
  -- succeeded saves all files of its queue in as many passes as there are, if the numbers in the queue
  -- are those of objects and their paths are all different: the queue is then empty and nothing else
  -- about the writer has changed, each file is registered in its turn if there is a data base, and each
  -- can be read at its path with its bytes.
  pub passes-AreStored :
      (can : IsWritable fs) (ks : List ℕ) (h : AreFiles ks) (s : WriterState fs)
      → s.writer.quenf ≡ ks
      → s.rslt ≡ true
      → s.errcnt < 5
      → AreDistinct (paths s.writer.path_root (found ks h))
      → (s' : WriterState fs) × (passes fs (length ks) files s ≡ ok s')
        × (s'.writer ≡ record (s.writer) { quenf = [] })
        × (s'.registered ≡ s.registered ++ registrations s.writer (found ks h))
        × AreStored s.writer.path_root s'.disk (found ks h)
  passes-AreStored can ks h s q r few distinct =
      let (s', go, d) = drains can ks h s q r few in
      (s', go, d.writer, d.registered, d.stored distinct)
