-- ===== src/Log/Turns.antt =====
-- What valid_file does to the log when a message comes on the same day as the last, or on another.
use ftserver.Run.{Run, ok, ◌>>=◌}
use ftserver.Log.{
  Stream, closed, file, is_closed, Moment, Access, GLog, log_path, continue_line, head_line,
  close_file, new_day, reopen, valid_open, valid_on, valid_file, print, print_all,
}
use ftserver.Base.{
  ℕ, ◌≡◌, ◌≢◌, ◌⊎◌, inl, inr, refl, sym, ap, ◌∙◌, Bool, true, false, List, [], ◌∷◌, ◌++◌,
  append_assoc, append-nil, Text, ◌==◌, ◌==ℤ◌, not, if◌then◌else◌, if_true, if_false, ==_iff, pos,
  arith,
}

-- The directory can be used, and the file opens.
abbrev pub good : Access
good = record { usable = true; opens = true }

abbrev pub pieces : Stream → List Text → List (Stream × Text)
pieces f [] = []
pieces f (s ∷ ss) = (f, s) ∷ pieces f ss

-- Where a day begins: the old file is closed with a line, and the new one headed by another.
abbrev pub turn : Moment → Moment → List (Stream × Text)
turn t t' =
    if t.day == t'.day
    then []
    else (file (log_path t.iso), continue_line) ∷ (file (log_path t'.iso), head_line) ∷ []

-- Days that have the same number are the same day.
abbrev pub Follows : Moment → Moment → Type 0
Follows t t' = ((t.day ≡ t'.day) × (t.iso ≡ t'.iso)) ⊎ (t.day ≢ t'.day)

-- The log stands open on the file of t's date.
pub record IsOpenOn (t : Moment) (g : GLog) : Type 0 where
  pub day : g.day ≡ pos t.day
  pub fd : g.fd ≡ file (log_path t.iso)

-- What is printed goes to one stream, and nothing else changes but the count.
pub print_all-pieces :
    (ss : List Text) (g : GLog)
    → ((print_all ss g).written ≡ g.written ++ pieces g.fd ss)
      × ((print_all ss g).day ≡ g.day)
      × ((print_all ss g).fd ≡ g.fd)
print_all-pieces [] g = (sym (append-nil g.written), refl, refl)
print_all-pieces (s ∷ ss) g =
    let (w, d, f) = print_all-pieces ss (print s g) in
    (w ∙ append_assoc g.written ((g.fd, s) ∷ []) (pieces g.fd ss), d, f)

not_same : (m n : ℕ) → m ≢ n → (m == n) ≡ false
not_same m n h = ground (arith, h)

-- What valid_file does to the log, on the way from the day of t0 to that of t.
abbrev pub Turns : Moment → Moment → GLog → Run (Bool × GLog) → Type 0
Turns t0 t g m =
    (g' : GLog) × (m ≡ ok (true, g')) × (g'.written ≡ g.written ++ turn t0 t) × IsOpenOn t g'

-- The log once the file of another day is closed.
abbrev pub turned : Moment → Text → GLog → GLog
turned t p g = record g {
  day = pos t.day;
  fd = closed;
  written = g.written ++ (file p, continue_line) ∷ [];
}

pub valid_file-same :
    (t0 t : Moment) (g : GLog) → IsOpenOn t0 g → t0.day ≡ t.day → valid_file t good g ≡ ok (true, g)
unfolding valid_file valid_open
valid_file-same t0 t g o d =
    let kept : new_day t g ≡ g = ground (arith, o.day, d) in
    ap (λ f. valid_on f t good g) o.fd
    ∙ ap (λ x. valid_open t good x) kept
    ∙ ap (λ f. reopen f t good g >>= λ g'. ok (not (is_closed g'.fd), g')) o.fd
    ∙ ap (λ f. ok (not (is_closed f), g)) o.fd

pub valid_file-Turns :
    (t0 t : Moment) (g : GLog) → IsOpenOn t0 g → Follows t0 t → Turns t0 t g (valid_file t good g)
unfolding valid_file valid_open
valid_file-Turns t0 t g o (inl (d, same)) = (
  g,
  valid_file-same t0 t g o d,
  sym (append-nil g.written) ∙ ap (λ x. g.written ++ x) (sym (if_true _ _ ((==_iff _ _).1 d))),
  record { day = o.day ∙ ap pos d; fd = o.fd ∙ ap (λ x. file (log_path x)) same },
)
valid_file-Turns t0 t g o (inr other) =
    let p : Text = log_path t0.iso in
    let later : (g.day ==ℤ pos t.day) ≡ false = ground (arith, o.day, other) in
    let shut : new_day t g ≡ turned t p g =
      if_false _ _ later ∙ ap (λ f. close_file f (record g { day = pos t.day })) o.fd in
    let new : turn t0 t ≡ (file p, continue_line) ∷ (file (log_path t.iso), head_line) ∷ [] =
      if_false _ _ (not_same t0.day t.day other) in
    (
      record (turned t p g) {
        fd = file (log_path t.iso);
        written = (turned t p g).written ++ (file (log_path t.iso), head_line) ∷ [];
        tmlast = t.seconds;
        bytecache = 80;
        cycling = true;
      },
      ap (λ f. valid_on f t good g) o.fd ∙ ap (λ x. valid_open t good x) shut,
      append_assoc g.written ((file p, continue_line) ∷ [])
            ((file (log_path t.iso), head_line) ∷ [])
          ∙ ap (λ x. g.written ++ x) (sym new),
      record { day = refl; fd = refl },
    )
