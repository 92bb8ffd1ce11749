-- ===== src/Writer/Saving.antt =====
-- The writer's thread on a disk that can be written: what one save and one pass make of it.
use ftserver.Run.{Run, ok, uncaught, or_fault, ◌>>=◌}
use ftserver.Files.{FileInfo}
use ftserver.Writer.{
  FileSystem, WriterState, written, testing, save, pass, pass_on, ensure_directory, registration,
  counted,
}
use ftserver.Writer.Monitor.{save_first-front}
use ftserver.Base.{
  ℕ, ◌<◌, ◌≡◌, ◌≢◌, ◌⊎◌, inl, inr, refl, ap, ◌∙◌, Bool, true, some, List, ◌∷◌, ◌++◌, Text, arith,
  if_true, if_false, lt→ltb, Bool-cases, get_elem?,
}

-- Every directory is there or can be made, and every file can be written.
pub record IsWritable (fs : FileSystem) : Type 0 where
  pub makes :
      (d : FileSystem.Disk fs) (p : Text)
      → (FileSystem.is_directory fs d p ≡ true)
        ⊎ ((d' : FileSystem.Disk fs) × (FileSystem.create_directory fs d p ≡ some (true, d')))
  pub writes :
      (d : FileSystem.Disk fs) (p t : Text)
      → (d' : FileSystem.Disk fs) × (FileSystem.write_file fs d p t ≡ some d')

module _ (fs : FileSystem) (files : List FileInfo) where
  open fs use {
    Disk, join, is_directory, create_directory, write_file, read_file, read-write, read-write_ne,
    read-create_directory,
  }

  abbrev pub path_of : Text → FileInfo → Text
  path_of root f = join (join root f.subpath) f.filename

  -- What one save makes of a disk.
  pub record Saves (s : WriterState fs) (f : FileInfo) (rest : List ℕ) (s' : WriterState fs)
      : Type 0 where
    pub saved : save fs f rest s ≡ ok (true, s')
    pub errcnt : s'.errcnt ≡ s.errcnt
    pub writer : s'.writer ≡ record (s.writer) { quenf = rest }
    pub registered :
        s'.registered ≡ s.registered ++ registration fs s.writer.db f (path_of s.writer.path_root f)
    pub stored : read_file s'.disk (path_of s.writer.path_root f) ≡ some f.filedata
    pub elsewhere :
        (q : Text) → path_of s.writer.path_root f ≢ q → read_file s'.disk q ≡ read_file s.disk q

  ensured :
      (full : IsWritable fs) (d : Disk) (p : Text)
      → (d' : Disk) × (ensure_directory fs d p ≡ ok (true, d'))
        × ((q : Text) → read_file d' q ≡ read_file d q)
  ensured can d p = elim (Bool-cases (is_directory d p)) [
    | inl there ↦ (d, if_true _ _ there, λ q. refl)
    | inr gone ↦ elim (can.makes d p) [
      | inl there ↦ let bad : ⊥ = cc in absurd bad
      | inr (d', made) ↦ (
        d',
        if_false _ _ gone ∙ ap (λ o. or_fault o uncaught) made,
        λ q. read-create_directory d d' p q true made,
      )
    ]
  ]

  pub save-Saves :
      (can : IsWritable fs) (f : FileInfo) (rest : List ℕ) (s : WriterState fs)
      → (s' : WriterState fs) × Saves s f rest s'
  unfolding save
  save-Saves can f rest s =
      let dir : Text = join s.writer.path_root f.subpath in
      let path : Text = path_of s.writer.path_root f in
      let (d, there, kept) = ensured can s.disk dir in
      let (d', e) = can.writes d path f.filedata in
      let after : WriterState fs = record s {
        disk = d';
        writer = record (s.writer) { quenf = rest };
        registered = s.registered ++ registration fs s.writer.db f path;
      } in
      (
        after,
        record {
          saved = ap (λ m. m >>= λ r. ok (written fs f rest s r)) there ∙ rw e refl;
          errcnt = refl;
          writer = refl;
          registered = refl;
          stored = read-write d d' path f.filedata e;
          elsewhere = λ q h. read-write_ne d d' path q f.filedata h e ∙ kept q;
        },
      )

  -- Counting leaves all but the count alone, and clears it after a success.
  pub record Counted (s t : WriterState fs) : Type 0 where
    pub writer : t.writer ≡ s.writer
    pub disk : t.disk ≡ s.disk
    pub registered : t.registered ≡ s.registered
    pub errcnt : t.errcnt ≡ 0

  pub counted-Counted : (s : WriterState fs) → s.rslt ≡ true → Counted s (counted fs s)
  unfolding counted
  counted-Counted s r = ground arith

  -- The state after a pass that saves.
  abbrev pub went_round : WriterState fs → WriterState fs
  went_round u = record u { rslt = true; phase = testing }

  pub pass-Saves :
      (k : ℕ) (rest : List ℕ) (f : FileInfo) (s u : WriterState fs)
      → s.writer.quenf ≡ k ∷ rest
      → get_elem? files k ≡ some f
      → s.rslt ≡ true
      → s.errcnt < 5
      → Saves (counted fs s) f rest u
      → pass fs files s ≡ ok (went_round u)
  unfolding pass pass_on
  pass-Saves k rest f s u q h r few v =
      let t : WriterState fs = counted fs s in
      let c = counted-Counted s r in
      if_true _ _ (lt→ltb s.errcnt 5 few)
      ∙ ap (λ ks. pass_on fs files ks s) q
      ∙ ap
          (λ (m : Run (Bool × WriterState fs)).
            m >>= λ p. ok (record (p.1) { rslt = p.0; phase = testing }))
          (save_first-front fs files k rest f t (ap (λ w. w.quenf) c.writer ∙ q) h ∙ v.saved)
