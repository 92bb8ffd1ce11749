-- ===== src/Log.antt =====
-- src/GLog.h and src/GLog.cpp: the log. What is written is kept as the sequence of texts, each with the
-- stream it went to; a file's content is its part of the sequence. The time, its text forms, what
-- the formatted message is, and the outcomes of the calls on the log's directory arrive as arguments.
pub mod Turns
pub mod Days
use ftserver.Run.{Run, ok, fault, null_pointer, ◌>>=◌}
use ftserver.Base.{
  ℕ, zero, suc, ◌+◌, ◌≡◌, Bool, true, false, not, ◌&&◌, ◌||◌, Option, none, some, List, [], ◌∷◌,
  ◌++◌, Text, codes, ltb, ◌==◌, ◌==ℤ◌, if◌then◌else◌, length, replicate, ℤ, pos, negsuc,
}

pub data LogType : Type 0 where
  log_normal log_warn log_fault : LogType

-- fd_: null, stdout or stderr, or an open log file by its path.
pub data Stream : Type 0 where
  closed standard : Stream
  file : Text → Stream

-- ptime: the day of the month, the date by to_iso_string, the time of day by to_simple_string, and
-- the seconds since some origin.
pub record Moment : Type 0 where
  pub day : ℕ
  pub iso : Text
  pub time_of_day : Text
  pub seconds : ℕ

-- How access, mkdir and fopen end: whether the directory can be used once it was made if it was
-- missing, and whether the file opens.
pub record Access : Type 0 where
  pub usable : Bool
  pub opens : Bool

pub record GLog : Type 0 where
  pub day : ℤ
  pub fd : Stream
  pub written : List (Stream × Text)
  pub tmlast : ℕ
  pub bytecache : ℕ
  pub cycling : Bool

-- GLog(out)
unfoldable pub make_glog : Stream → GLog
make_glog out = record {
  day = negsuc 0;
  fd = out;
  written = [];
  tmlast = 0;
  bytecache = 0;
  cycling = false;
}

-- fclose on a log file; null and the standard streams stay.
abbrev pub released : Stream → Stream
released (file p) = closed
released s = s

-- ~GLog: the flushing thread ends, and an open log file is closed.
unfoldable pub destroy_glog : GLog → GLog
destroy_glog g = record g { cycling = false; fd = released g.fd }

-- path /= prefix and date; gLogDir and gLogPrefix of globaldef.h.
abbrev pub log_path : Text → Text
log_path iso = codes "/var/log/ftserver" ++ codes "/" ++ codes "ftserver_" ++ iso ++ codes ".log"

abbrev pub continue_line : Text
continue_line = replicate 69 b'>' ++ codes " continue\n"

abbrev pub head_line : Text
head_line = replicate 79 b'-' ++ codes "\n"

-- The date has changed: fd_ is closed, with a last line.
abbrev pub close_file : Stream → GLog → GLog
close_file (file p) g = record g {
  fd = closed;
  written = g.written ++ (file p, continue_line) ∷ [];
}
close_file _ g = g

abbrev pub new_day : Moment → GLog → GLog
new_day t g = if g.day ==ℤ pos t.day then g else close_file g.fd (record g { day = pos t.day })

-- The new file, with a line at its head; fopen's result is not tested before fprintf.
abbrev pub open_file : Moment → Access → GLog → Run GLog
open_file t a g =
    if a.opens
    then ok (record g {
      fd = file (log_path t.iso);
      written = g.written ++ (file (log_path t.iso), head_line) ∷ [];
      tmlast = t.seconds;
      bytecache = length head_line;
      cycling = true;
    })
    else fault null_pointer

abbrev pub reopen : Stream → Moment → Access → GLog → Run GLog
reopen closed t a g = if a.usable then open_file t a g else ok g
reopen _ t a g = ok g

abbrev pub is_closed : Stream → Bool
is_closed closed = true
is_closed _ = false

-- The second half of valid_file.
unfoldable pub valid_open : Moment → Access → GLog → Run (Bool × GLog)
valid_open t a g = do g' ← reopen g.fd t a g; ok (not (is_closed g'.fd), g')

abbrev pub valid_on : Stream → Moment → Access → GLog → Run (Bool × GLog)
valid_on standard t a g = ok (true, g)
valid_on _ t a g = valid_open t a (new_day t g)

unfoldable pub valid_file : Moment → Access → GLog → Run (Bool × GLog)
unfolding valid_open
valid_file t a g = valid_on g.fd t a g

-- fprintf to fd_, with its result added to bytecache_.
abbrev pub print : Text → GLog → GLog
print s g = record g { written = g.written ++ (g.fd, s) ∷ []; bytecache = g.bytecache + length s }

abbrev pub print_all : List Text → GLog → GLog
print_all [] g = g
print_all (s ∷ ss) g = print_all ss (print s g)

-- The body of both Write functions on the texts that they print.
unfoldable pub write_texts : Moment → Access → List Text → GLog → Run GLog
unfolding valid_file
write_texts t a ss g = do
  (valid, g') ← valid_file t a g
  if valid then ok (record (print_all ss g') { tmlast = t.seconds }) else ok g'

-- Write(format, ...), `none` for a null format.
unfoldable pub write : Moment → Access → Option Text → GLog → Run GLog
unfolding write_texts
write t a none g = ok g
write t a (some s) g = write_texts t a ((t.time_of_day ++ codes " >> ") ∷ s ∷ codes "\n" ∷ []) g

abbrev pub type_texts : LogType → List Text
type_texts log_normal = []
type_texts log_warn = codes "WARN: " ∷ []
type_texts log_fault = codes "ERROR: " ∷ []

abbrev pub where_texts : Option Text → List Text
where_texts none = []
where_texts (some s) = (s ++ codes ", ") ∷ []

-- Write(type, where, format, ...)
unfoldable pub write_typed : Moment → Access → LogType → Option Text → Option Text → GLog → Run GLog
unfolding write_texts
write_typed t a type place none g = ok g
write_typed t a type place (some s) g =
    write_texts t a
      ((t.time_of_day ++ codes " >> ")
        ∷ (type_texts type ++ where_texts place ++ s ∷ codes "\n" ∷ []))
      g

-- One round of thread_cycle at a time: whether it flushes.
unfoldable pub cycle : ℕ → GLog → Bool × GLog
cycle now g =
    if ltb 0 g.bytecache && ltb (g.tmlast + 1) now
    then (true, record g { bytecache = 0 })
    else (false, g)
