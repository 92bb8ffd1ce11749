-- ===== src/Writer/Order.antt =====
-- The writer's queue while other threads go on adding files.
use ftserver.Run.{ok, Ensures, Ensures->>=}
use ftserver.Files.{FileInfo}
use ftserver.Writer.{
  destroy_filewritter, FileSystem, FileWritter, WriterState, waiting, new_file, update_storage,
  pass, wake, stopped, join_thread,
}
use ftserver.Base.{
  ℕ, ◌≡◌, refl, sym, ap, ◌∙◌, subst, Bool, inl, inr, false, some, List, [], ◌∷◌, ◌++◌, append_assoc,
  Text, arith, if◌then◌else◌, Bool-cases,
}
use ftserver.Writer.Ending.{IsJoined, join_thread-IsJoined}
use ftserver.Writer.Accounts.{
  objects, objects-append, registered_files, accounted, Accounts, saved_pass-Accounts,
  pass-Accounts,
}

module _ (fs : FileSystem) (files : List FileInfo) where
  -- The writer with the numbers of the files that it accepted.
  pub record WriterLog : Type 0 where
    pub state : WriterState fs
    pub accepted : List ℕ

  -- A step of some thread: a receiver offers a file, the writer's thread makes a pass or is woken, or the
  -- agent moves the storage.
  pub data Step (l : WriterLog) : WriterLog → Type 0 where
    offers :
        (k : ℕ)
        → Step l (record l {
          state = record (l.state) { writer = new_file k l.state.writer };
          accepted = if l.state.writer.running then l.accepted ++ k ∷ [] else l.accepted;
        })
    makes_pass :
        (s : WriterState fs) → pass fs files l.state ≡ ok s → Step l (record l { state = s })
    wakes :
        (s : WriterState fs)
        → l.state.phase ≡ waiting
        → wake fs files l.state ≡ ok s
        → Step l (record l { state = s })
    moves :
        (path time : Text) (opened : Bool) (r : FileWritter × List (Text × Text))
        → update_storage path time opened l.state.writer ≡ ok r
        → Step l (record l { state = record (l.state) { writer = r.0 } })

  pub data Reach (l : WriterLog) : WriterLog → Type 0 where
    here : Reach l l
    next : {k m : WriterLog} → Reach l k → Step k m → Reach l m

  -- With a data base in use, the accepted files are those registered and then those in the queue.
  pub record InOrder (l : WriterLog) : Type 0 where
    pub url : Text
    pub in_use : l.state.writer.db ≡ some url
    pub in_order : objects files l.accepted ≡ accounted fs files l.state

  Accounts-InOrder :
      (l : WriterLog) (s : WriterState fs)
      → InOrder l
      → Accounts fs files l.state s
      → InOrder (record l { state = s })
  Accounts-InOrder l s i a = record {
    url = i.url;
    in_use = a.same_db ∙ i.in_use;
    in_order = i.in_order ∙ sym a.same_files;
  }

  new_file-InOrder :
      (k : ℕ) (l : WriterLog)
      → InOrder l
      → InOrder (record l {
        state = record (l.state) { writer = new_file k l.state.writer };
        accepted = if l.state.writer.running then l.accepted ++ k ∷ [] else l.accepted;
      })
  unfolding new_file
  new_file-InOrder k l i = elim (Bool-cases l.state.writer.running) [
    | inl on ↦ rw on (record {
      url = i.url;
      in_use = i.in_use;
      in_order =
          objects-append files l.accepted (k ∷ [])
          ∙ ap (λ t. t ++ objects files (k ∷ [])) i.in_order
          ∙ append_assoc (registered_files l.state.registered) (objects files l.state.writer.quenf)
              (objects files (k ∷ []))
          ∙ ap (λ t. registered_files l.state.registered ++ t)
              (sym (objects-append files l.state.writer.quenf (k ∷ [])));
    })
    | inr off ↦ rw off (record { url = i.url; in_use = i.in_use; in_order = i.in_order })
  ]

  update_storage-Kept :
      (path time : Text) (opened : Bool) (w : FileWritter)
      → Ensures
          (λ (r : FileWritter × List (Text × Text)). (r.0.db ≡ w.db) × (r.0.quenf ≡ w.quenf))
          (update_storage path time opened w)
  unfolding update_storage
  update_storage-Kept path time opened w = ground arith

  Step-InOrder : {k l : WriterLog} → Step k l → InOrder k → InOrder l
  Step-InOrder {k} (offers n) i = new_file-InOrder n k i
  Step-InOrder {k} (makes_pass s e) i = Accounts-InOrder k s i (
      subst (Ensures (Accounts fs files k.state)) e (pass-Accounts fs files k.state i.url i.in_use))
  Step-InOrder {k} (wakes s w e) i = Accounts-InOrder k s i (
      subst (Ensures (Accounts fs files k.state)) e
        (unfold wake in saved_pass-Accounts fs files k.state i.url i.in_use))
  Step-InOrder {k} (moves path time opened r e) i =
      let (d, q) = subst (Ensures _) e (update_storage-Kept path time opened k.state.writer) in
      Accounts-InOrder k (record (k.state) { writer = r.0 }) i
        (record {
          same_db = d;
          same_files = ap (λ ks. registered_files k.state.registered ++ objects files ks) q;
        })

  Reach-kept : {k l : WriterLog} → InOrder k → Reach k l → InOrder l
  Reach-kept i here = i
  Reach-kept i (next r s) = Step-InOrder s (Reach-kept i r)

  -- The thread has ended, and every accepted file is registered or lost.
  abbrev pub EndsInOrder : WriterLog → List ℕ × WriterState fs → Type 0
  EndsInOrder l (lost, s) =
      (objects files l.accepted ≡ registered_files s.registered ++ objects files lost)
      × (s.phase ≡ stopped)
      × (s.writer.quenf ≡ [])
      × (s.writer.running ≡ false)

  pub Reach-InOrder_files :
      {k l : WriterLog}
      → InOrder k
      → Reach k l
      → InOrder l × Ensures (EndsInOrder l) (destroy_filewritter fs files l.state)
  unfolding destroy_filewritter
  Reach-InOrder_files {k} {l} i r =
      let j = Reach-kept i r in
      (
        j,
        Ensures->>= (IsJoined fs files l.state) (EndsInOrder l) (join_thread fs files l.state) _
            (join_thread-IsJoined fs files l.state j.url j.in_use)
            λ s v. (j.in_order ∙ sym v.accounts.same_files, v.ended, refl, refl),
      )
