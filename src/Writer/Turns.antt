-- ===== src/Writer/Turns.antt =====
-- One turn of the writer's thread wherever it stands: at the loop's test, in its wait or after its end.
use ftserver.Run.{Run, ok, ◌>>=◌}
use ftserver.Files.{FileInfo}
use ftserver.Writer.{
  FileSystem, WriterState, Phase, testing, waiting, stopped, pass, pass_on, wake, counted,
}
use ftserver.Writer.Monitor.{save_first-front}
use ftserver.Writer.Saving.{
  IsWritable, Saves, save-Saves, counted-Counted, pass-Saves, path_of, went_round,
}
use ftserver.Base.{
  ℕ, ◌<◌, ◌≡◌, ◌≢◌, ◌⊎◌, inl, inr, refl, sym, ap, ◌∙◌, subst, Bool, true, some, List, [], ◌∷◌, Text,
  arith, if_true, lt→ltb, get_elem?,
}

module _ (fs : FileSystem) (files : List FileInfo) where
  open fs use {read_file}

  -- In its wait it goes on when there is a file.
  abbrev woken : List ℕ → WriterState fs → Run (WriterState fs)
  woken [] s = ok s
  woken (_ ∷ _) s = wake fs files s

  abbrev turn_in : Phase → WriterState fs → Run (WriterState fs)
  turn_in testing s = pass fs files s
  turn_in waiting s = woken s.writer.quenf s
  turn_in stopped s = ok s

  unfoldable pub turn : WriterState fs → Run (WriterState fs)
  turn s = turn_in s.phase s

  abbrev pub IsGoing : WriterState fs → Type 0
  IsGoing s = (s.phase ≡ testing) ⊎ (s.phase ≡ waiting)

  -- The first file of the queue has been saved.
  pub record Lands (s : WriterState fs) (f : FileInfo) (rest : List ℕ) (s' : WriterState fs)
      : Type 0 where
    pub writer : s'.writer ≡ record (s.writer) { quenf = rest }
    pub stored : read_file s'.disk (path_of fs files s.writer.path_root f) ≡ some f.filedata
    pub elsewhere :
        (q : Text)
        → path_of fs files s.writer.path_root f ≢ q
        → read_file s'.disk q ≡ read_file s.disk q
    pub good : s'.rslt ≡ true
    pub few : s'.errcnt < 5
    pub going : s'.phase ≡ testing

  Lands-Saves :
      (f : FileInfo) (rest : List ℕ) (s u : WriterState fs)
      → Saves fs files s f rest u
      → s.errcnt < 5
      → Lands s f rest (went_round fs files u)
  Lands-Saves f rest s u v few = record {
    writer = v.writer;
    stored = v.stored;
    elsewhere = v.elsewhere;
    good = refl;
    few = subst (λ n. n < 5) (sym v.errcnt) few;
    going = refl;
  }

  wake-Saves :
      (k : ℕ) (rest : List ℕ) (f : FileInfo) (s u : WriterState fs)
      → s.writer.quenf ≡ k ∷ rest
      → get_elem? files k ≡ some f
      → Saves fs files s f rest u
      → wake fs files s ≡ ok (went_round fs files u)
  unfolding wake
  wake-Saves k rest f s u q h v =
      ap
        (λ (m : Run (Bool × WriterState fs)).
          m >>= λ p. ok (record (p.1) { rslt = p.0; phase = testing }))
        (save_first-front fs files k rest f s q h ∙ v.saved)

  -- On a disk that can be written a thread that goes on saves the first file of its queue in one turn.
  pub turn-Lands :
      (can : IsWritable fs) (k : ℕ) (rest : List ℕ) (f : FileInfo) (s : WriterState fs)
      → s.writer.quenf ≡ k ∷ rest
      → get_elem? files k ≡ some f
      → s.rslt ≡ true
      → s.errcnt < 5
      → IsGoing s
      → (s' : WriterState fs) × (turn s ≡ ok s') × Lands s f rest s'
  unfolding turn
  turn-Lands can k rest f s q h good few (inl at) =
      let t : WriterState fs = counted fs s in
      let c = counted-Counted fs files s good in
      let (u, v) = save-Saves fs files can f rest t in
      let l = Lands-Saves f rest t u v (omega (arith, c.errcnt)) in
      let root = ap (λ w. path_of fs files w.path_root f) c.writer in
      (
        went_round fs files u,
        ap (λ x. turn_in x s) at ∙ pass-Saves fs files k rest f s u q h good few v,
        record {
          writer = l.writer ∙ (λ i. record (c.writer i) { quenf = rest });
          stored = subst (λ p. read_file u.disk p ≡ some f.filedata) root l.stored;
          elsewhere = λ p n.
              l.elsewhere p (subst (λ x. x ≢ p) (sym root) n) ∙ ap (λ d. read_file d p) c.disk;
          good = refl;
          few = l.few;
          going = refl;
        },
      )
  turn-Lands can k rest f s q h good few (inr at) =
      let (u, v) = save-Saves fs files can f rest s in
      (
        went_round fs files u,
        ap (λ x. turn_in x s) at ∙ ap (λ ks. woken ks s) q ∙ wake-Saves k rest f s u q h v,
        Lands-Saves f rest s u v few,
      )

  -- Without a file the thread ends up in its wait, and nothing else changes.
  pub turn_idle :
      (s : WriterState fs)
      → s.writer.quenf ≡ []
      → s.errcnt < 5
      → IsGoing s
      → turn s ≡ ok (record s { phase = waiting })
  unfolding turn pass pass_on
  turn_idle s q few (inl at) =
      ap (λ x. turn_in x s) at
      ∙ if_true _ _ (lt→ltb s.errcnt 5 few)
      ∙ ap (λ ks. pass_on fs files ks s) q
  turn_idle s q few (inr at) =
      ap (λ x. turn_in x s) at ∙ ap (λ ks. woken ks s) q ∙ ap (λ x. ok (record s { phase = x })) at
