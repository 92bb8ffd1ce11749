-- ===== src/Writer/Ending.antt =====
-- The end of the writer's thread when its object is destroyed.
use ftserver.Run.{
  Run, ok, fault, null_pointer, or_fault, ◌>>=◌, Ensures, Ensures->>=, Ensures-mono, any-Ensures,
}
use ftserver.Files.{FileInfo}
use ftserver.Writer.{
  FileSystem, Phase, WriterState, testing, waiting, stopped, save, save_first, save_front, no_files,
  unwind, join_from, join_thread,
}
use ftserver.Writer.Monitor.{Saved, save-Saved}
use ftserver.Writer.Accounts.{Accounts, Accounts-trans, same, save_first-Accounts}
use ftserver.Base.{
  ℕ, zero, suc, ◌+◌, ◌≤◌, ◌≡◌, ◌⊎◌, inl, inr, refl, sym, ap, ◌∙◌, subst, Bool, true, false, not,
  ◌||◌, some, List, [], ◌∷◌, Text, arith, ltb, if_true, if_false, Bool-cases, length, get_elem?,
}

module _ (fs : FileSystem) (files : List FileInfo) where
  -- What unwind does in its three branches, for any property of the outcome.
  unwind-Ensures :
      (P : WriterState fs → Type 0) (n : ℕ) (s : WriterState fs)
      → P (record s { phase = stopped })
      → P (record s { errcnt = s.errcnt + 1; phase = stopped })
      → (no_files fs s.writer.quenf ≡ false
          → s.rslt ≡ true
          → Ensures P (
              save_first fs files (record s { errcnt = 0 }) >>= λ r.
              unwind fs n files (record (r.1) { rslt = r.0 })))
      → Ensures P (unwind fs (suc n) files s)
  unfolding unwind
  unwind-Ensures P n s ends sleeps goes =
      elim (Bool-cases (not (ltb s.errcnt 5) || no_files fs s.writer.quenf)) [
        | inl e ↦ subst (Ensures P) (sym (if_true _ _ e)) ends
        | inr e ↦ subst (Ensures P) (sym (if_false _ _ e)) (elim (Bool-cases s.rslt) [
          | inl r ↦ subst (Ensures P) (sym (if_false _ _ (ap not r))) (goes (ground arith) r)
          | inr r ↦ subst (Ensures P) (sym (if_true _ _ (ap not r))) sleeps
        ])
      ]

  unwind-Accounts :
      (n : ℕ) (s : WriterState fs) (url : Text)
      → s.writer.db ≡ some url
      → Ensures (Accounts fs files s) (unwind fs n files s)
  unwind-Accounts zero s url d = unfold unwind in same fs files s s refl refl
  unwind-Accounts (suc n) s url d =
      unwind-Ensures (Accounts fs files s) n s (same fs files s _ refl refl)
        (same fs files s _ refl refl)
        λ e r.
          Ensures->>=
            (λ (r : Bool × WriterState fs). Accounts fs files (record s { errcnt = 0 }) r.1)
            (Accounts fs files s) (save_first fs files (record s { errcnt = 0 })) _
            (save_first-Accounts fs files (record s { errcnt = 0 }) url d)
            λ r a.
              let t : WriterState fs = record (r.1) { rslt = r.0 } in
              let b : Accounts fs files s t = record {
                same_db = a.same_db;
                same_files = a.same_files;
              } in
              Ensures-mono (Accounts fs files t) (Accounts fs files s) (unwind fs n files t)
                (λ u c. Accounts-trans fs files s t u b c) (unwind-Accounts n t url (b.same_db ∙ d))

  -- A save takes a file from the queue or fails.
  abbrev Shortens : ℕ → Bool × WriterState fs → Type 0
  Shortens n r = ((r.0 ≡ true) × (length r.1.writer.quenf + 1 ≡ n)) ⊎ (r.0 ≡ false)

  save_front-Shortens :
      (ks : List ℕ) (s : WriterState fs) → Ensures (Shortens (length ks)) (save_front fs files ks s)
  unfolding save_front
  save_front-Shortens [] s = tt
  save_front-Shortens (k ∷ rest) s =
      Ensures->>= (λ f. Unit {0}) (Shortens (length (k ∷ rest)))
        (or_fault (get_elem? files k) null_pointer) _ (any-Ensures _)
        λ f h.
          Ensures-mono (Saved fs f rest s) (Shortens (length (k ∷ rest))) (save fs f rest s)
            (λ r v. elim v [
              | inl (e, w, g, h') ↦ inl (e, omega (arith, ap (λ x. length x.quenf) w))
              | inr (e, w, g) ↦ inr e
            ])
            (save-Saved fs f rest s)

  abbrev Enough : ℕ → WriterState fs → Type 0
  Enough n s = (length s.writer.quenf + 2 ≤ n) ⊎ ((s.rslt ≡ false) × (1 ≤ n))

  -- These rounds are enough.
  unwind-stops :
      (n : ℕ) (s : WriterState fs)
      → Enough n s
      → Ensures (λ s'. s'.phase ≡ stopped) (unwind fs n files s)
  unfolding save_first
  unwind-stops zero s (inl h) = absurd (omega (arith, h))
  unwind-stops zero s (inr (e, h)) = absurd (omega (arith, h))
  unwind-stops (suc n) s h =
      unwind-Ensures (λ s'. s'.phase ≡ stopped) n s refl refl
        λ e r.
          Ensures->>= (Shortens (length s.writer.quenf)) (λ s'. s'.phase ≡ stopped)
            (save_first fs files (record s { errcnt = 0 })) _
            (save_front-Shortens s.writer.quenf (record s { errcnt = 0 }))
            λ q v.
              unwind-stops n (record (q.1) { rslt = q.0 })
                (elim v [
                  | inl (done, l) ↦ elim h [
                    | inl le ↦ inl (omega (arith, l, le))
                    | inr (f, le) ↦ let bad : ⊥ = cc in absurd bad
                  ]
                  | inr failed ↦ elim h [
                    | inl le ↦ inr (failed, omega (arith, le))
                    | inr (f, le) ↦ let bad : ⊥ = cc in absurd bad
                  ]
                ])

  -- The thread has ended, and no file is lost or added on the way.
  pub record IsJoined (s s' : WriterState fs) : Type 0 where
    pub accounts : Accounts fs files s s'
    pub ended : s'.phase ≡ stopped

  both :
      (s : WriterState fs) (m : Run (WriterState fs))
      → Ensures (Accounts fs files s) m
      → Ensures (λ s'. s'.phase ≡ stopped) m
      → Ensures (IsJoined s) m
  both s (ok s') a e = record { accounts = a; ended = e }
  both s (fault x) a e = tt

  join_from-IsJoined :
      (p : Phase) (s : WriterState fs) (url : Text)
      → s.phase ≡ p
      → s.writer.db ≡ some url
      → Ensures (IsJoined s) (join_from fs p files s)
  join_from-IsJoined testing s url e d =
      both s (unwind fs (length s.writer.quenf + 2) files s) (unwind-Accounts _ s url d)
        (unwind-stops _ s (inl (omega arith)))
  join_from-IsJoined waiting s url e d = record {
    accounts = same fs files s _ refl refl;
    ended = refl;
  }
  join_from-IsJoined stopped s url e d = record {
    accounts = same fs files s s refl refl;
    ended = e;
  }

  pub join_thread-IsJoined :
      (s : WriterState fs) (url : Text)
      → s.writer.db ≡ some url
      → Ensures (IsJoined s) (join_thread fs files s)
  unfolding join_thread
  join_thread-IsJoined s url d = join_from-IsJoined s.phase s url refl d
