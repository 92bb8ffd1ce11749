-- ===== src/Writer/Accounts.antt =====
-- The writer's thread, and the files that it has registered and those that wait.
use ftserver.Run.{null_pointer, or_fault, Ensures, Ensures->>=, Ensures-mono, or_fault-Ensures}
use ftserver.Files.{FileInfo}
use ftserver.Writer.{
  FileSystem, Registration, WriterState, save, save_first, save_front, saved_pass, counted, pass,
  pass_on, registration,
}
use ftserver.Writer.Monitor.{place, Saved, save-Saved}
use ftserver.Base.{
  ℕ, ◌≡◌, refl, sym, ap, ◌∙◌, subst, Bool, inl, inr, none, some, List, [], ◌∷◌, ◌++◌, map,
  map-append, append_assoc, Text, arith, ltb, if_true, if_false, Bool-cases, get_elem?,
}

-- The objects of these numbers, in order.
abbrev pub objects : List FileInfo → List ℕ → List FileInfo
objects files [] = []
objects files (k ∷ ks) = elim (get_elem? files k) [
  | none ↦ objects files ks
  | some f ↦ f ∷ objects files ks
]

pub objects-append :
    (files : List FileInfo) (xs ys : List ℕ)
    → objects files (xs ++ ys) ≡ objects files xs ++ objects files ys
objects-append files [] ys = refl
objects-append files (x ∷ xs) ys = ground (arith, objects-append files xs ys)

abbrev pub registered_files : List Registration → List FileInfo
registered_files rs = map (λ r. r.file) rs

module _ (fs : FileSystem) (files : List FileInfo) where
  -- What was registered and what waits, in order.
  abbrev pub accounted : WriterState fs → List FileInfo
  accounted s = registered_files s.registered ++ objects files s.writer.quenf

  -- A change of the writer's state that neither loses nor adds a file.
  pub record Accounts (s s' : WriterState fs) : Type 0 where
    pub same_db : s'.writer.db ≡ s.writer.db
    pub same_files : accounted s' ≡ accounted s

  pub Accounts-trans : (s t u : WriterState fs) → Accounts s t → Accounts t u → Accounts s u
  Accounts-trans s t u a c = record {
    same_db = c.same_db ∙ a.same_db;
    same_files = c.same_files ∙ a.same_files;
  }

  -- Taking the first file out of the queue and registering it moves it across.
  moved_across :
      (rs : List Registration) (k : ℕ) (rest : List ℕ) (f : FileInfo) (path : Text)
      → get_elem? files k ≡ some f
      → registered_files (rs ++ (record { file = f; img_path = path }) ∷ []) ++ objects files rest
        ≡ registered_files rs ++ objects files (k ∷ rest)
  moved_across rs k rest f path h =
      ap (λ t. t ++ objects files rest)
        (map-append (λ r. r.file) rs ((record { file = f; img_path = path }) ∷ []))
      ∙ append_assoc (registered_files rs) (f ∷ []) (objects files rest)
      ∙ ap
          (λ o.
            registered_files rs
            ++ elim o [ none ↦ objects files rest | some f ↦ f ∷ objects files rest ])
          (sym h)

  Saved-Accounts :
      (k : ℕ) (rest : List ℕ) (f : FileInfo) (s : WriterState fs) (url : Text)
      → s.writer.quenf ≡ k ∷ rest
      → get_elem? files k ≡ some f
      → s.writer.db ≡ some url
      → (r : Bool × WriterState fs) → Saved fs f rest s r
      → Accounts s r.1
  Saved-Accounts k rest f s url q h d r (inl (e, w, stored, g)) = record {
    same_db = ap (λ w. w.db) w;
    same_files =
        (λ i. registered_files (g i) ++ objects files (w i).quenf)
        ∙ ap
            (λ o.
              registered_files (s.registered ++ registration fs o f (place fs s f))
              ++ objects files rest)
            d
        ∙ moved_across s.registered k rest f (place fs s f) h
        ∙ ap (λ ks. registered_files s.registered ++ objects files ks) (sym q);
  }
  Saved-Accounts k rest f s url q h d r (inr (e, w, g)) = record {
    same_db = ap (λ w. w.db) w;
    same_files = λ i. registered_files (g i) ++ objects files (w i).quenf;
  }

  save_front-Accounts :
      (ks : List ℕ) (s : WriterState fs) (url : Text)
      → s.writer.quenf ≡ ks
      → s.writer.db ≡ some url
      → Ensures (λ r. Accounts s r.1) (save_front fs files ks s)
  unfolding save_front
  save_front-Accounts [] s url q d = tt
  save_front-Accounts (k ∷ rest) s url q d =
      Ensures->>= (λ f. get_elem? files k ≡ some f) (λ (r : Bool × WriterState fs). Accounts s r.1)
        (or_fault (get_elem? files k) null_pointer) _
        (or_fault-Ensures (get_elem? files k) null_pointer)
        λ f h.
          Ensures-mono (Saved fs f rest s) (λ r. Accounts s r.1) (save fs f rest s)
            (Saved-Accounts k rest f s url q h d) (save-Saved fs f rest s)

  pub save_first-Accounts :
      (s : WriterState fs) (url : Text)
      → s.writer.db ≡ some url
      → Ensures (λ r. Accounts s r.1) (save_first fs files s)
  unfolding save_first
  save_first-Accounts s url d = save_front-Accounts s.writer.quenf s url refl d

  pub same :
      (s s' : WriterState fs) → s'.writer ≡ s.writer → s'.registered ≡ s.registered → Accounts s s'
  same s s' w r = record {
    same_db = ap (λ w. w.db) w;
    same_files = λ i. registered_files (r i) ++ objects files (w i).quenf;
  }

  pub saved_pass-Accounts :
      (s : WriterState fs) (url : Text)
      → s.writer.db ≡ some url
      → Ensures (Accounts s) (saved_pass fs files s)
  saved_pass-Accounts s url d =
      Ensures->>= (λ (r : Bool × WriterState fs). Accounts s r.1) (Accounts s)
        (save_first fs files s) _ (save_first-Accounts s url d)
        λ r a. Accounts-trans s r.1 _ a (same r.1 _ refl refl)

  counted-Accounts :
      (s : WriterState fs)
      → ((counted fs s).writer ≡ s.writer) × ((counted fs s).registered ≡ s.registered)
  unfolding counted
  counted-Accounts s = ground arith

  pass_on-Accounts :
      (ks : List ℕ) (s : WriterState fs) (url : Text)
      → s.writer.db ≡ some url
      → Ensures (Accounts s) (pass_on fs files ks s)
  unfolding pass_on
  pass_on-Accounts [] s url d = same s _ refl refl
  pass_on-Accounts (k ∷ ks) s url d =
      let (w, r) = counted-Accounts s in
      Ensures-mono (Accounts (counted fs s)) (Accounts s) (saved_pass fs files (counted fs s))
        (λ s' a. Accounts-trans s (counted fs s) s' (same s (counted fs s) w r) a)
        (saved_pass-Accounts (counted fs s) url (ap (λ w. w.db) w ∙ d))

  pub pass-Accounts :
      (s : WriterState fs) (url : Text)
      → s.writer.db ≡ some url
      → Ensures (Accounts s) (pass fs files s)
  unfolding pass
  pass-Accounts s url d = elim (Bool-cases (ltb s.errcnt 5)) [
    | inl go ↦
        subst (Ensures (Accounts s)) (sym (if_true _ _ go))
          (pass_on-Accounts s.writer.quenf s url d)
    | inr stop ↦
        subst (Ensures (Accounts s)) (sym (if_false _ _ stop))
          (record { same_db = refl; same_files = refl })
  ]
