-- ===== src/Daemon.antt =====
-- src/daemon.cpp and src/ftserver.cpp: becoming a daemon, the file that keeps a second instance from
-- running, and main. The outcomes of system calls arrive as arguments; what syslog gets is left out.
pub mod Single
pub mod IoService
pub mod Serving
use ftserver.Run.{Run, ok, fault, uncaught, ◌>>=◌}
use ftserver.Protocol.Numbers.{show_int}
use ftserver.Config.{Translator, Document, ParamConfig, load_file, init_file, index_update}
use ftserver.Agent.Service.{Service, Surroundings, make_service, start_service, stop_service}
use ftserver.Base.{
  ℕ, ◌+◌, ◌≡◌, Bool, true, false, not, Option, none, some, List, [], ◌∷◌, ◌++◌, Text, codes,
  text_eq, ◌==◌, if◌then◌else◌, length, take, pos,
}

-- The pid file: the process that holds its lock, if any, and its bytes.
pub record PidFile : Type 0 where
  pub holder : Option ℕ
  pub content : Text

-- How the calls on it end: open, ftruncate, the bytes that write takes, and fcntl twice.
pub record PidCalls : Type 0 where
  pub opens : Bool
  pub truncates : Bool
  pub written : ℕ
  pub gets : Bool
  pub sets : Bool

-- sprintf(buff, "%d\n", getpid())
abbrev pub pid_text : ℕ → Text
pid_text pid = show_int (pos pid) ++ codes "\n"

-- isProcSingleton, for a process; `granted` is whether F_SETLK succeeds on a lock and its holder.
unfoldable pub is_proc_singleton :
    (granted : ℕ → Option ℕ → Bool) → PidCalls → ℕ → PidFile → Bool × PidFile
is_proc_singleton granted c pid f =
    let locked = record f { holder = some pid } in
    let kept = record locked { content = take c.written (pid_text pid) } in
    if not c.opens
    then (false, f)
    else if not (granted pid f.holder)
    then (false, f)
    else if not c.truncates
    then (false, locked)
    else if not (c.written == length (pid_text pid))
    then (false, kept)
    else if not c.gets
    then (false, kept)
    else if not c.sets
    then (false, kept)
    else (true, kept)

-- What fork returns.
pub data Fork : Type 0 where
  fork_failed parent child : Fork

-- What MakeItDaemon changes of the process: whether it has its own session, its directory, its
-- umask, and which of the standard descriptors it left open.
pub record Process : Type 0 where
  pub own_session : Bool
  pub directory : Text
  pub mask : ℕ
  pub standard_open : Bool

pub data Made : Type 0 where
  exits : ℕ → Made
  returns : Bool → Process → Made

-- MakeItDaemon after the first fork, and after the second.
unfoldable pub close_standard : Bool → Process → Made
close_standard opens_null p =
    let p' = record p { standard_open = false } in
    if opens_null then returns true p' else returns false p'

unfoldable pub second_fork : Fork → Bool → Process → Made
unfolding close_standard
second_fork parent opens_null p = exits 0
second_fork fork_failed opens_null p = returns false p
second_fork child opens_null p = close_standard opens_null p

unfoldable pub make_it_daemon : Fork → Fork → Bool → Process → Made
unfolding second_fork
make_it_daemon parent f opens_null p = exits 0
make_it_daemon fork_failed f opens_null p = returns false p
make_it_daemon child f opens_null p =
    second_fork f opens_null (record p { own_session = true; directory = codes "/"; mask = 0 })

-- What main does that can be seen from outside, in order: `serves` is ios.run() with the service.
pub data Did : Type 0 where
  prints_usage : Did
  writes_settings : ParamConfig → Did
  logs : Text → Did
  serves : Service → Did
  writes_index : Text → Text → Did
  ends : Service → Did

-- What main meets; `writes` tells whether the settings file can be written when it was not to be read, and
-- `updates` whether it can be read and written in the end.
pub record World : Type 0 where
  pub first_fork : Fork
  pub next_fork : Fork
  pub opens_null : Bool
  pub granted : ℕ → Option ℕ → Bool
  pub calls : PidCalls
  pub pid : ℕ
  pub file : PidFile
  pub document : Option Document
  pub writes : Bool
  pub updates : Bool
  pub surroundings : Surroundings

abbrev pub config_path : Text
config_path = codes "/usr/local/etc/ftserver.xml"

-- Its copyright sign is the two bytes of UTF-8.
abbrev pub launch_text : Text
launch_text =
    codes "Try to launch ftserver v0.2 @ Oct, 2017 "
    ++ 0xC2 ∷ 0xA9 ∷ codes " SVOM Group, NAOC as daemon"

module _ (tr : Translator) (unset : ParamConfig) where
  -- `TransferAgent agent;`, on settings of which nothing is set.
  abbrev pub agent : World → Run Service
  agent w = do p ← load_file tr w.writes config_path w.document unset; ok (make_service p)

  -- ~TransferAgent, by the destructor of its settings, with whether the file can be read and written: if
  -- not, an exception leaves the destructor.
  abbrev pub updated : Bool → Option (Text × Text) → Run (List Did)
  updated updates none = ok []
  updated updates (some (name, value)) =
      if updates then ok (writes_index name value ∷ []) else fault uncaught

  abbrev pub destroyed : Bool → Service → Run (List Did)
  destroyed updates s = updated updates (index_update tr s.param)

  -- What StartService returns, and the rest of main.
  abbrev pub after_start : World → Bool × Service → Run (ℕ × List Did)
  after_start w (true, s) =
      let (s', _) = stop_service {A = ℕ} s [] in
      do
        did ← destroyed w.updates s'
        ok (
          0,
          logs (codes "Daemon goes running")
              ∷ serves s
              ∷ ends s'
              ∷ logs (codes "Daemon stopped")
              ∷ did,
        )
  after_start w (false, s) = do
    did ← destroyed w.updates s
    ok (0, logs (codes "Fail to launch ftserver") ∷ logs (codes "Daemon stopped") ∷ did)

  abbrev pub launch : World → Run (ℕ × List Did)
  launch w = do
    a ← agent w
    r ← start_service w.surroundings a
    (code, did) ← after_start w r
    ok (code, logs launch_text ∷ did)

  -- From isProcSingleton on.
  abbrev pub if_single : World → Run (ℕ × List Did)
  if_single w =
      let (alone, file) = is_proc_singleton w.granted w.calls w.pid w.file in
      if not alone
      then ok (2, logs (codes "ftserver is already running or failed to access PID file") ∷ [])
      else launch w

  abbrev pub as_daemon : World → Made → Run (ℕ × List Did)
  as_daemon w (exits code) = ok (code, [])
  as_daemon w (returns false p) = ok (1, [])
  as_daemon w (returns true p) = if_single w

  -- main with argv[1] if there is one: the exit code, and what it did.
  unfoldable pub main : World → Process → Option Text → Run (ℕ × List Did)
  main w p (some arg) =
      if text_eq arg (codes "-d")
      then (init_file tr w.writes (codes "ftserver.xml") unset >>= λ q.
          ok (0, writes_settings q ∷ []))
      else ok (0, prints_usage ∷ [])
  main w p none = as_daemon w (make_it_daemon w.first_fork w.next_fork w.opens_null p)
