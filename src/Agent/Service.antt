-- ===== src/Agent/Service.antt =====
-- src/TransferAgent.cpp: starting and stopping the service, and the connections it accepts. Threads
-- are seen as running or not, the writer's thread by the writer's `running`; the time server's client is seen as started or not.
use ftserver.Run.{Run, ok, fault, out_of_bounds, or_fault, ◌>>=◌}
use ftserver.Writer.{FileWritter, make_filewritter, set_database, set_notify_path, update_storage}
use ftserver.Tcp.{Slot}
use ftserver.Tcp.Server.{TcpServer, maketcp_server, register_accept, create_server}
use ftserver.Config.{ParamConfig}
use ftserver.Agent.{DiskSettings, find_storage}
use ftserver.Base.{
  ℕ, ◌-◌, ◌^◌, Bool, true, false, not, ◌||◌, Option, none, some, List, [], ◌++◌, Text, ◌==◌,
  if◌then◌else◌, length, get_elem?, ℤ, pos, negsuc, pos_part, leb_ℤ, ◌==ℤ◌,
}

-- The conversion of an int that meets a 64-bit unsigned number.
abbrev pub unsigned64 : ℤ → ℕ
unsigned64 (pos n) = n
unsigned64 (negsuc n) = 2 ^ 64 - 1 - n

-- The settings of the disks, for an index that is not negative: another is outside the vector.
abbrev pub disk_settings : ParamConfig → ℤ → Run DiskSettings
disk_settings p (negsuc i) = fault out_of_bounds
disk_settings p (pos i) = ok (record {
  n_storage = pos_part p.n_storage;
  i_storage = i;
  min_disk_storage = unsigned64 p.min_disk_storage;
  path_storage = p.path_storage;
  n_template = pos_part p.n_template;
  min_disk_template = unsigned64 p.min_disk_template;
  path_template = p.path_template;
})

-- `param_.pathStorage.size() != param_.nStorage || ... || param_.nTemplate <= 0` fails.
abbrev pub consistent : ParamConfig → Bool
consistent p = not (
    not (pos (length p.path_storage) ==ℤ p.n_storage)
    || not (pos (length p.path_template) ==ℤ p.n_template)
    || leb_ℤ p.n_storage (pos 0)
    || leb_ℤ p.n_template (pos 0))

pub record Service : Type 0 where
  pub param : ParamConfig
  pub fwptr : Option FileWritter
  pub notified : List (Text × Text)
  pub tcpsrv : Option TcpServer
  pub ntp : Bool
  pub idle : Bool
  pub autofree : Bool

-- TransferAgent(), once LoadFile has read the settings.
abbrev pub make_service : ParamConfig → Service
make_service p = record {
  param = p;
  fwptr = none;
  notified = [];
  tcpsrv = none;
  ntp = false;
  idle = false;
  autofree = false;
}

-- What the start meets: the free space of a path, the time as text, whether the notification file
-- opens, and the error that opening the server throws.
pub record Surroundings : Type 0 where
  pub available : Text → ℕ
  pub time : Text
  pub opened : Bool
  pub thrown : Option ℕ

-- The slot of network_accept.
abbrev pub accept_slot : Slot
accept_slot = 0

-- The writer before its storage is chosen.
abbrev pub new_writer : ParamConfig → FileWritter
new_writer p =
    set_notify_path p.b_notify_storage p.path_notify_storage
      (set_database p.b_db (some p.url_db) make_filewritter)

-- From the server on.
unfoldable pub start_server : Surroundings → Service → Run (Bool × Service)
start_server e s = do
  (rslt, server) ← create_server e.thrown (register_accept accept_slot maketcp_server)
  if rslt == 0
      then ok (
        true,
        record s { tcpsrv = some server; ntp = s.param.b_ntp; idle = true; autofree = true },
      )
      else ok (false, record s { tcpsrv = some server })

-- From find_storage on, with what it returns.
unfoldable pub start_storage :
    Surroundings → Service → Option ℕ × DiskSettings → Run (Bool × Service)
unfolding start_server
start_storage e s (none, d) = ok (false, record s { fwptr = some (new_writer s.param) })
start_storage e s (some i, d) = do
  path ← or_fault (get_elem? s.param.path_storage i) out_of_bounds
  (w, note) ← update_storage path e.time e.opened (new_writer s.param)
  start_server e (record s {
    param = record (s.param) { i_storage = pos i };
    fwptr = some w;
    notified = s.notified ++ note;
  })

unfoldable pub start_service : Surroundings → Service → Run (Bool × Service)
unfolding start_storage
start_service e s =
    if not (consistent s.param)
    then ok (false, s)
    else disk_settings s.param s.param.i_storage >>= λ d.
        find_storage e.available d >>= start_storage e s

-- StopService, for the threads and the list of receivers.
unfoldable pub stop_service {ℓ} : {A : Type ℓ} → Service → List A → Service × List A
stop_service s rs = (record s { idle = false; autofree = false }, [])
