-- ===== src/Log/Days.antt =====
-- Which file a message goes to.
use ftserver.Run.{Run, ok, ◌>>=◌}
use ftserver.Log.{
  LogType, Stream, closed, file, Moment, GLog, make_glog, log_path, head_line, new_day, valid_open,
  valid_file, released, destroy_glog, print_all, write_texts, write_typed, type_texts, where_texts,
}
use ftserver.Base.{
  ◌≡◌, refl, sym, ap, ◌∙◌, Bool, true, false, Option, some, List, [], ◌∷◌, ◌++◌, append_assoc,
  append-nil, Text, codes, ◌==ℤ◌, if◌then◌else◌, if_false, pos, negsuc, arith,
}
use ftserver.Log.Turns.{
  good, pieces, turn, Follows, IsOpenOn, print_all-pieces, valid_file-same, valid_file-Turns,
}

-- A call of the second Write, with what it is given.
pub record Entry : Type 0 where
  pub time : Moment
  pub type : LogType
  pub place : Option Text
  pub text : Text

abbrev pub texts_of : Entry → List Text
texts_of e =
    (e.time.time_of_day ++ codes " >> ")
    ∷ (type_texts e.type ++ where_texts e.place ++ e.text ∷ codes "\n" ∷ [])

abbrev pub write_entry : Entry → GLog → Run GLog
write_entry e g = write_typed e.time good e.type e.place (some e.text) g

pub write_all : List Entry → GLog → Run GLog
write_all [] g = ok g
write_all (e ∷ es) g = do g' ← write_entry e g; write_all es g'

-- What is to be found in the files after a message at t: each message in the file of its own date.
pub journal : Moment → List Entry → List (Stream × Text)
journal t [] = []
journal t (e ∷ es) =
    turn t e.time ++ (pieces (file (log_path e.time.iso)) (texts_of e) ++ journal e.time es)

abbrev pub AreFollowing : Moment → List Entry → Type 0
AreFollowing t [] = Unit {0}
AreFollowing t (e ∷ es) = Follows t e.time × AreFollowing e.time es

-- What a message adds once the file is valid.
abbrev wrote : Entry → GLog → GLog
wrote e g = record (print_all (texts_of e) g) { tmlast = e.time.seconds }

write_entry-wrote :
    (e : Entry) (g g1 : GLog)
    → valid_file e.time good g ≡ ok (true, g1)
    → write_entry e g ≡ ok (wrote e g1)
unfolding write_typed write_texts
write_entry-wrote e g g1 go =
    ap (λ (m : Run (Bool × GLog)). m >>= λ q. if q.0 then ok (wrote e q.1) else ok q.1) go

-- One message behind a message at t0.
abbrev Writes : Moment → Entry → GLog → Run GLog → Type 0
Writes t0 e g m =
    (g' : GLog) × (m ≡ ok g')
    × (g'.written
        ≡ g.written ++ (turn t0 e.time ++ pieces (file (log_path e.time.iso)) (texts_of e)))
    × IsOpenOn e.time g'

write_entry-Writes :
    (t0 : Moment) (e : Entry) (g : GLog)
    → IsOpenOn t0 g
    → Follows t0 e.time
    → Writes t0 e g (write_entry e g)
write_entry-Writes t0 e g o f =
    let (g1, go, w, o1) = valid_file-Turns t0 e.time g o f in
    let (w2, d2, f2) = print_all-pieces (texts_of e) g1 in
    (
      wrote e g1,
      write_entry-wrote e g g1 go,
      w2
          ∙ (λ i. w i ++ pieces (o1.fd i) (texts_of e))
          ∙ append_assoc g.written (turn t0 e.time)
              (pieces (file (log_path e.time.iso)) (texts_of e)),
      record { day = d2 ∙ o1.day; fd = f2 ∙ o1.fd },
    )

write_all-journal :
    (es : List Entry) (t0 : Moment) (g : GLog)
    → IsOpenOn t0 g
    → AreFollowing t0 es
    → (g' : GLog) × (t : Moment) × (write_all es g ≡ ok g')
      × (g'.written ≡ g.written ++ journal t0 es)
      × IsOpenOn t g'
unfolding write_all journal
write_all-journal [] t0 g o h = (g, t0, refl, sym (append-nil g.written), o)
write_all-journal (e ∷ es) t0 g o (f, h) =
    let (g1, go, w, o1) = write_entry-Writes t0 e g o f in
    let (g', t, rest, w', o') = write_all-journal es e.time g1 o1 h in
    let page : List (Stream × Text) = pieces (file (log_path e.time.iso)) (texts_of e) in
    (
      g',
      t,
      ap (λ (m : Run GLog). m >>= λ g1. write_all es g1) go ∙ rest,
      w'
          ∙ ap (λ x. x ++ journal e.time es) w
          ∙ append_assoc g.written (turn t0 e.time ++ page) (journal e.time es)
          ∙ ap (λ x. g.written ++ x) (append_assoc (turn t0 e.time) page (journal e.time es)),
      o',
    )

-- The first message opens the file of its date.
first_entry :
    (e : Entry)
    → (g' : GLog) × (write_entry e (make_glog closed) ≡ ok g')
      × (g'.written
          ≡ (file (log_path e.time.iso), head_line)
            ∷ pieces (file (log_path e.time.iso)) (texts_of e))
      × IsOpenOn e.time g'
unfolding valid_file valid_open make_glog
first_entry e =
    let g1 : GLog = record {
      day = pos e.time.day;
      fd = file (log_path e.time.iso);
      written = (file (log_path e.time.iso), head_line) ∷ [];
      tmlast = e.time.seconds;
      bytecache = 80;
      cycling = true;
    } in
    let (w, d, f) = print_all-pieces (texts_of e) g1 in
    let later : (negsuc 0 ==ℤ pos e.time.day) ≡ false = ground arith in
    let new : new_day e.time (make_glog closed)
        ≡ record (make_glog closed) { day = pos e.time.day } =
      if_false _ _ later in
    (
      wrote e g1,
      write_entry-wrote e (make_glog closed) g1 (ap (valid_open e.time good) new),
      w,
      record { day = d; fd = f },
    )

-- From the start of the program, while the directory can be used and files open, messages on days of which those
-- that follow one another and have the same number in the month are the same day: no call fails,
-- what is written is, in order, each message in the file of its own date, headed by a line when that
-- file is opened, and with a closing line in the old file before; and the destructor leaves no file open
-- and adds nothing to what is written.
pub write_all-eq-journal :
    (e : Entry) (es : List Entry)
    → AreFollowing e.time es
    → (g' : GLog) × (write_all (e ∷ es) (make_glog closed) ≡ ok g')
      × (g'.written
          ≡ (file (log_path e.time.iso), head_line)
            ∷ (pieces (file (log_path e.time.iso)) (texts_of e) ++ journal e.time es))
      × ((destroy_glog g').fd ≡ closed)
      × ((destroy_glog g').written ≡ g'.written)
unfolding write_all destroy_glog
write_all-eq-journal e es h =
    let (g1, go, w, o) = first_entry e in
    let (g', t, rest, w', o') = write_all-journal es e.time g1 o h in
    (
      g',
      ap (λ (m : Run GLog). m >>= λ g1. write_all es g1) go ∙ rest,
      w' ∙ ap (λ x. x ++ journal e.time es) w,
      ap released o'.fd,
      refl,
    )

-- After a message at t0, a message at t on a day of the same number, be it of another month, goes to
-- the file of t0's date, which stays open.
pub write_entry_stale :
    (t0 : Moment) (e : Entry) (g : GLog)
    → IsOpenOn t0 g
    → t0.day ≡ e.time.day
    → (g' : GLog) × (write_entry e g ≡ ok g')
      × (g'.written ≡ g.written ++ pieces (file (log_path t0.iso)) (texts_of e))
      × (g'.fd ≡ file (log_path t0.iso))
write_entry_stale t0 e g o d =
    let (w, _, f) = print_all-pieces (texts_of e) g in
    (
      wrote e g,
      write_entry-wrote e g g (valid_file-same t0 e.time g o d),
      w ∙ ap (λ x. g.written ++ pieces x (texts_of e)) o.fd,
      f ∙ o.fd,
    )
