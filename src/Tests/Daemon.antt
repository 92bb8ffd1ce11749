-- ===== src/Tests/Daemon.antt =====
-- Runs of the log, of processes that start, and of main.
use ftserver.Run.{ok, Ensures}
use ftserver.Log.{
  log_warn, Moment, GLog, make_glog, destroy_glog, closed, file, log_path, head_line,
}
use ftserver.Log.Turns.{pieces}
use ftserver.Log.Days.{
  Entry, texts_of, journal, write_all, write_entry, write_all-eq-journal, write_entry_stale,
}
use ftserver.Daemon.{PidFile, PidCalls, is_proc_singleton, child, Process, World, main}
use ftserver.Daemon.Single.{Excludes, Host, IsSingle, starts, Reach, here, next, Reach-IsSingle}
use ftserver.Daemon.Serving.{AllServed, IsLaunched, main-AllServed}
use ftserver.Protocol.Numbers.{show_int, decimal}
use ftserver.Tests.Config.{translator, unset, surroundings}
use ftserver.Base.{
  ℕ, ◌≡◌, refl, inl, inr, Bool, true, false, Option, none, some, [], ◌∷◌, ◌++◌, Text, codes, ◌==◌,
  pos, arith,
}

abbrev moment_of : ℕ → Text → Moment
moment_of day iso = record { day = day; iso = iso; time_of_day = codes "12:00:00"; seconds = 0 }

abbrev entry_of : Moment → Entry
entry_of t = record { time = t; type = log_warn; place = none; text = codes "drifts" }

abbrev may_first : Entry
may_first = entry_of (moment_of 1 (codes "20180501"))

abbrev may_second : Entry
may_second = entry_of (moment_of 2 (codes "20180502"))

abbrev june_first : Entry
june_first = entry_of (moment_of 1 (codes "20180601"))

write_all-eq-journal_example :
    (g' : GLog) × (write_all (may_first ∷ may_second ∷ june_first ∷ []) (make_glog closed) ≡ ok g')
    × (g'.written
        ≡ (file (log_path (codes "20180501")), head_line)
          ∷ (pieces (file (log_path (codes "20180501"))) (texts_of may_first)
              ++ journal may_first.time (may_second ∷ june_first ∷ [])))
    × ((destroy_glog g').fd ≡ closed)
    × ((destroy_glog g').written ≡ g'.written)
write_all-eq-journal_example =
    write_all-eq-journal may_first (may_second ∷ june_first ∷ [])
      (inr (λ e. omega (arith, e)), (inr (λ e. omega (arith, e)), tt))

abbrev open_in_may : GLog
open_in_may = record {
  day = pos 1;
  fd = file (log_path (codes "20180501"));
  written = [];
  tmlast = 0;
  bytecache = 0;
  cycling = true;
}

write_entry_stale_example :
    (g' : GLog) × (write_entry june_first open_in_may ≡ ok g')
    × (g'.written ≡ pieces (file (log_path (codes "20180501"))) (texts_of june_first))
    × (g'.fd ≡ file (log_path (codes "20180501")))
write_entry_stale_example =
    write_entry_stale may_first.time june_first open_in_may (record { day = refl; fd = refl }) refl

-- A lock is granted to its holder and when nobody holds it.
abbrev granted : ℕ → Option ℕ → Bool
granted p none = true
granted p (some q) = q == p

granted-Excludes : Excludes granted
granted-Excludes p q h = ground (arith, h)

abbrev all_well : PidCalls
all_well = record { opens = true; truncates = true; written = 3; gets = true; sets = true }

abbrev no_file : PidFile
no_file = record { holder = none; content = [] }

abbrev nobody : Host
nobody = record { file = no_file; running = [] }

abbrev one_runs : Host
one_runs = record { file = record { holder = some 42; content = codes "42\n" }; running = 42 ∷ [] }

two_start : Reach granted nobody one_runs
unfolding is_proc_singleton show_int decimal
two_start =
    next (next here (starts all_well 42 tt)) (starts all_well 43 ((λ e. omega (arith, e)), tt))

Reach-IsSingle_example : IsSingle one_runs
Reach-IsSingle_example = Reach-IsSingle granted-Excludes (inl refl) two_start

abbrev world : World
world = record {
  first_fork = child;
  next_fork = child;
  opens_null = true;
  granted = granted;
  calls = all_well;
  pid = 42;
  file = no_file;
  document = some [];
  writes = false;
  updates = true;
  surroundings = surroundings;
}

abbrev started : Process
started = record { own_session = false; directory = codes "/root"; mask = 18; standard_open = true }

main-AllServed_example :
    Ensures
      (λ r. AllServed (IsLaunched translator unset world) r.1)
      (main translator unset world started none)
main-AllServed_example = main-AllServed translator unset world started none
