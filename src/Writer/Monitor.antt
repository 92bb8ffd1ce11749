-- ===== src/Writer/Monitor.antt =====
-- The writer's thread: what one save does, and when the thread gives up.
use ftserver.Run.{Run, ok, fault, uncaught, or_fault, Ensures, Ensures->>=, any-Ensures, ◌>>=◌}
use ftserver.Files.{FileInfo}
use ftserver.Writer.{
  FileSystem, FileWritter, WriterState, testing, stopped, save, save_first, save_front, pass,
  pass_on, ensure_directory, registration, counted, written,
}
use ftserver.Base.{
  ℕ, zero, suc, ◌+◌, ◌<◌, ◌≡◌, ◌⊎◌, inl, inr, refl, ap, ◌∙◌, Bool, true, false, none, some, List,
  ◌∷◌, ◌++◌, Text, arith, ltb, if◌then◌else◌, if_true, if_false, lt→ltb, Bool-cases, Option-cases,
  get_elem?, ◌≤◌, sym, subst,
}

module _ (fs : FileSystem) where
  open fs use {Disk, join, is_directory, create_directory, write_file, read_file, read-write}

  -- Where the first file of the queue is to be stored.
  abbrev pub place : WriterState fs → FileInfo → Text
  place s f = join (join s.writer.path_root f.subpath) f.filename

  -- The outcome of saving f with the rest of the queue behind it.
  abbrev pub Saved : FileInfo → List ℕ → WriterState fs → Bool × WriterState fs → Type 0
  Saved f rest s (done, s') =
      ((done ≡ true)
        × (s'.writer ≡ record (s.writer) { quenf = rest })
        × (read_file s'.disk (place s f) ≡ some f.filedata)
        × (s'.registered ≡ s.registered ++ registration fs s.writer.db f (place s f)))
      ⊎ ((done ≡ false) × (s'.writer ≡ s.writer) × (s'.registered ≡ s.registered))

  pub save-Saved :
      (f : FileInfo) (rest : List ℕ) (s : WriterState fs)
      → Ensures (Saved f rest s) (save fs f rest s)
  unfolding save
  save-Saved f rest s =
      Ensures->>= (λ x. Unit {0}) (Saved f rest s)
        (ensure_directory fs s.disk (join s.writer.path_root f.subpath)) _ (any-Ensures _)
        λ there h. elim (Bool-cases there.0) [
          | inl yes_ ↦ rw yes_ (elim (Option-cases (write_file there.1 (place s f) f.filedata)) [
            | inl e ↦ rw e (inr (refl, refl, refl))
            | inr (d', e) ↦ rw e (inl (refl, refl, read-write there.1 d' _ _ e, refl))
          ])
          | inr no_ ↦ rw no_ (inr (refl, refl, refl))
        ]

  save_front-some :
      (files : List FileInfo) (k : ℕ) (rest : List ℕ) (f : FileInfo) (s : WriterState fs)
      → get_elem? files k ≡ some f
      → save_front fs files (k ∷ rest) s ≡ save fs f rest s
  unfolding save_front
  save_front-some files k rest f s h = rw h refl

  pub save_first-front :
      (files : List FileInfo) (k : ℕ) (rest : List ℕ) (f : FileInfo) (s : WriterState fs)
      → s.writer.quenf ≡ k ∷ rest
      → get_elem? files k ≡ some f
      → save_first fs files s ≡ save fs f rest s
  unfolding save_first
  save_first-front files k rest f s e h =
      ap (λ q. save_front fs files q s) e ∙ save_front-some files k rest f s h

  -- The directory of the file is not there, and making it throws.
  abbrev pub NoDirectory : WriterState fs → FileInfo → Type 0
  NoDirectory s f =
      (is_directory s.disk (join s.writer.path_root f.subpath) ≡ false)
      × (create_directory s.disk (join s.writer.path_root f.subpath) ≡ none)

  -- The three ways a save can go.
  abbrev pub SaveEnds : FileInfo → List ℕ → WriterState fs → Run (Bool × WriterState fs) → Type 0
  SaveEnds f rest s m =
      ((r : Bool × WriterState fs) × (m ≡ ok r) × Saved f rest s r)
      ⊎ ((m ≡ fault uncaught) × NoDirectory s f)

  save-throws :
      (f : FileInfo) (rest : List ℕ) (s : WriterState fs)
      → NoDirectory s f
      → save fs f rest s ≡ fault uncaught
  unfolding save
  save-throws f rest s (gone, throws) = rw (gone, throws) refl

  ends :
      (f : FileInfo) (rest : List ℕ) (s : WriterState fs) (r : Bool × Disk)
      → ensure_directory fs s.disk (join s.writer.path_root f.subpath) ≡ ok r
      → SaveEnds f rest s (save fs f rest s)
  unfolding save
  ends f rest s r e =
      let go = ap (λ m. m >>= λ x. ok (written fs f rest s x)) e in
      inl (written fs f rest s r, go, subst (Ensures (Saved f rest s)) go (save-Saved f rest s))

  save-SaveEnds :
      (f : FileInfo) (rest : List ℕ) (s : WriterState fs) → SaveEnds f rest s (save fs f rest s)
  unfolding save
  save-SaveEnds f rest s =
      let dir : Text = join s.writer.path_root f.subpath in
      elim (Bool-cases (is_directory s.disk dir)) [
        | inl there ↦
            let e : ensure_directory fs s.disk dir ≡ ok (true, s.disk) = if_true _ _ there in
            ends f rest s (true, s.disk) e
        | inr gone ↦ elim (Option-cases (create_directory s.disk dir)) [
          | inl throws ↦ inr (save-throws f rest s (gone, throws), (gone, throws))
          | inr (r, makes) ↦
              ends f rest s r (if_false _ _ gone ∙ ap (λ o. or_fault o uncaught) makes)
        ]
      ]

  -- save_first with a file at the front of the queue either stores its bytes under root path,
  -- subdirectory and name, registers it if there is a database and takes it from the queue, or fails and
  -- leaves the queue and the registrations as they were, or ends the program by an exception, which
  -- happens just when the directory is not there and making it throws.
  pub save_first-Saved :
      (files : List FileInfo) (k : ℕ) (rest : List ℕ) (f : FileInfo) (s : WriterState fs)
      → s.writer.quenf ≡ k ∷ rest
      → get_elem? files k ≡ some f
      → SaveEnds f rest s (save_first fs files s)
        × (NoDirectory s f → save_first fs files s ≡ fault uncaught)
  save_first-Saved files k rest f s e h = (
    subst (SaveEnds f rest s) (sym (save_first-front files k rest f s e h))
        (save-SaveEnds f rest s),
    λ n. save_first-front files k rest f s e h ∙ save-throws f rest s n,
  )

  unfoldable pub passes : ℕ → List FileInfo → WriterState fs → Run (WriterState fs)
  passes zero files s = ok s
  passes (suc n) files s = do s' ← pass fs files s; passes n files s'

-- A file system on which directories are there or create_directory returns, but no file can be
-- written, as when the disk is full.
pub record IsUnwritable (fs : FileSystem) : Type 0 where
  pub returns :
      (d : FileSystem.Disk fs) (p : Text)
      → (r : Bool × FileSystem.Disk fs) × (ensure_directory fs d p ≡ ok r)
  pub refuses : (d : FileSystem.Disk fs) (p t : Text) → FileSystem.write_file fs d p t ≡ none

module _ (fs : FileSystem) (full : IsUnwritable fs) (files : List FileInfo) (k : ℕ) (rest : List ℕ)
    (f : FileInfo) (here : get_elem? files k ≡ some f) where
  save-full :
      (s : WriterState fs)
      → (d : FileSystem.Disk fs) × (save fs f rest s ≡ ok (false, record s { disk = d }))
  unfolding save
  save-full s =
      let (r, e) = full.returns s.disk (FileSystem.join fs s.writer.path_root f.subpath) in
      let no_ = full.refuses r.1 (place fs s f) f.filedata in
      (
        r.1,
        ap (λ m. m >>= λ x. ok (written fs f rest s x)) e
            ∙ ap ok (elim (Bool-cases r.0) [ inl t ↦ rw (t, no_) refl | inr n ↦ rw n refl ]),
      )

  -- The last try has failed, n failures are counted, and the writer is as in s.
  pub record Tried (s s' : WriterState fs) (n : ℕ) : Type 0 where
    pub writer : s'.writer ≡ s.writer
    pub registered : s'.registered ≡ s.registered
    pub rslt : s'.rslt ≡ false
    pub phase : s'.phase ≡ testing
    pub errcnt : s'.errcnt ≡ n

  counted-same :
      (s : WriterState fs)
      → ((counted fs s).writer ≡ s.writer)
        × ((counted fs s).registered ≡ s.registered)
        × ((counted fs s).errcnt ≡ (if s.rslt then 0 else s.errcnt + 1))
  unfolding counted
  counted-same s = ground arith

  pass-Tried :
      (s : WriterState fs)
      → s.writer.quenf ≡ k ∷ rest
      → s.errcnt < 5
      → (s' : WriterState fs) × (pass fs files s ≡ ok s')
        × Tried s s' (if s.rslt then 0 else s.errcnt + 1)
  unfolding pass pass_on
  pass-Tried s q few =
      let t : WriterState fs = counted fs s in
      let (w, g, n) = counted-same s in
      let (d, e) = save-full t in
      (
        record t { disk = d; rslt = false; phase = testing },
        if_true _ _ (lt→ltb s.errcnt 5 few)
            ∙ ap (λ ks. pass_on fs files ks s) q
            ∙ ap
                (λ (m : Run (Bool × WriterState fs)).
                  m >>= λ p. ok (record (p.1) { rslt = p.0; phase = testing }))
                (save_first-front fs files k rest f t (ap (λ x. x.quenf) w ∙ q) here ∙ e),
        record { writer = w; registered = g; rslt = refl; phase = refl; errcnt = n },
      )

  passes-Tried :
      (n : ℕ) (s : WriterState fs)
      → s.writer.quenf ≡ k ∷ rest
      → s.rslt ≡ false
      → s.phase ≡ testing
      → s.errcnt + n ≤ 5
      → (s' : WriterState fs) × (passes fs n files s ≡ ok s') × Tried s s' (s.errcnt + n)
  unfolding passes
  passes-Tried zero s q r p few = (
    s,
    refl,
    record { writer = refl; registered = refl; rslt = r; phase = p; errcnt = omega arith },
  )
  passes-Tried (suc n) s q r p few =
      let (s1, go, t) = pass-Tried s q (omega (arith, few)) in
      let one : s1.errcnt ≡ s.errcnt + 1 = t.errcnt ∙ ap (λ b. if b then 0 else s.errcnt + 1) r in
      let (s2, more, u) =
        passes-Tried n s1 (ap (λ w. w.quenf) t.writer ∙ q) t.rslt t.phase
          (omega (arith, one, few)) in
      (
        s2,
        ap (λ m. m >>= passes fs n files) go ∙ more,
        record {
          writer = u.writer ∙ t.writer;
          registered = u.registered ∙ t.registered;
          rslt = u.rslt;
          phase = u.phase;
          errcnt = omega (arith, u.errcnt, one);
        },
      )

  tried :
      (s : WriterState fs)
      → s.writer.quenf ≡ k ∷ rest
      → s.rslt ≡ true
      → s.errcnt < 5
      → (n : ℕ) → n ≤ 5
      → (s' : WriterState fs) × (passes fs (suc n) files s ≡ ok s') × Tried s s' n
  unfolding passes
  tried s q r few n le =
      let (s1, go, t) = pass-Tried s q few in
      let none_ : s1.errcnt ≡ 0 = t.errcnt ∙ ap (λ b. if b then 0 else s.errcnt + 1) r in
      let (s2, more, u) =
        passes-Tried n s1 (ap (λ w. w.quenf) t.writer ∙ q) t.rslt t.phase
          (omega (arith, none_, le)) in
      (
        s2,
        ap (λ m. m >>= passes fs n files) go ∙ more,
        record {
          writer = u.writer ∙ t.writer;
          registered = u.registered ∙ t.registered;
          rslt = u.rslt;
          phase = u.phase;
          errcnt = omega (arith, u.errcnt, none_);
        },
      )

  pass_stops :
      (s : WriterState fs)
      → s.errcnt ≡ 5
      → pass fs files s
        ≡ ok (record s { phase = stopped; writer = record (s.writer) { running = false } })
  unfolding pass
  pass_stops s e = if_false {b = ltb s.errcnt 5} _ _ (ground arith)

  -- The thread has stopped, refuses new files, and still holds the ones it had.
  abbrev pub HasGivenUp : WriterState fs → Run (WriterState fs) → Type 0
  HasGivenUp s r =
      (s' : WriterState fs) × (r ≡ ok s')
      × (s'.phase ≡ stopped)
      × (s'.writer ≡ record (s.writer) { running = false })

  after_try :
      (s s1 : WriterState fs) (n m : ℕ)
      → pass fs files s ≡ ok s1
      → Tried s s1 m
      → HasGivenUp s1 (passes fs n files s1)
      → HasGivenUp s (passes fs (suc n) files s)
  unfolding passes
  after_try s s1 n m go t (s', done, stop, same) = (
    s',
    ap (λ m. m >>= passes fs n files) go ∙ done,
    stop,
    same ∙ ap (λ (w : FileWritter). record w { running = false }) t.writer,
  )

  stops_from :
      (n : ℕ) (s : WriterState fs)
      → s.writer.quenf ≡ k ∷ rest
      → s.rslt ≡ false
      → s.errcnt + n ≡ 5
      → HasGivenUp s (passes fs (suc n) files s)
  unfolding passes
  stops_from zero s q r e = (
    record s { phase = stopped; writer = record (s.writer) { running = false } },
    rw (pass_stops s (omega arith)) refl,
    refl,
    refl,
  )
  stops_from (suc n) s q r e =
      let (s1, go, t) = pass-Tried s q (omega arith) in
      let one : s1.errcnt ≡ s.errcnt + 1 = t.errcnt ∙ ap (λ b. if b then 0 else s.errcnt + 1) r in
      after_try s s1 (suc n) _ go t
        (stops_from n s1 (ap (λ w. w.quenf) t.writer ∙ q) t.rslt (omega (arith, one, e)))

  stops :
      (s : WriterState fs)
      → s.writer.quenf ≡ k ∷ rest
      → s.rslt ≡ true
      → s.errcnt < 5
      → HasGivenUp s (passes fs 7 files s)
  stops s q r few =
      let (s1, go, t) = pass-Tried s q few in
      let none_ : s1.errcnt ≡ 0 = t.errcnt ∙ ap (λ b. if b then 0 else s.errcnt + 1) r in
      after_try s s1 6 _ go t
        (stops_from 5 s1 (ap (λ w. w.quenf) t.writer ∙ q) t.rslt (omega (arith, none_)))

  -- If directories cause no exception but no file can be written, a thread whose last save succeeded
  -- tries the first file of its queue six times: after the n-th try it is at the loop's test with n - 1
  -- failures counted, its writer and the registrations unchanged. At the seventh test, and not before,
  -- it stops: it refuses further files, and the queue still holds all it held.
  pub gives_up :
      (s : WriterState fs)
      → s.writer.quenf ≡ k ∷ rest
      → s.rslt ≡ true
      → s.errcnt < 5
      → ((n : ℕ)
          → n ≤ 5
          → (s' : WriterState fs) × (passes fs (suc n) files s ≡ ok s') × Tried s s' n)
        × HasGivenUp s (passes fs 7 files s)
  gives_up s q r few = (tried s q r few, stops s q r few)
