-- ===== src/Agent/Starting.antt =====
-- What StartService leaves, on each of its ways out.
use ftserver.Agent.Storage.{IsFirstFree, find_storage-found}
use ftserver.Run.{
  Run, ok, fault, out_of_bounds, or_fault, Ensures, Ensures->>=, or_fault-Ensures, Ensures-mono,
  comes_from,
}
use ftserver.Writer.{FileWritter, set_database, set_notify_path, update_storage}
use ftserver.Tcp.Server.{TcpServer, maketcp_server, register_accept, create_server}
use ftserver.Config.{ParamConfig}
use ftserver.Agent.{DiskSettings, find_storage}
use ftserver.Base.{
  ℕ, ◌≡◌, refl, sym, ap, ◌∙◌, Bool, true, false, ◌⊎◌, inl, inr, not, Option, none, some, List, ◌++◌,
  Text, get_elem?, pos, subst, if_true, if_false, ==_iff, Bool-cases, arith, length, ◌<◌, [], ◌==ℤ◌,
  leb_ℤ, pos_part, ℤ, negsuc,
}
use ftserver.Agent.Service.{
  Service, Surroundings, disk_settings, consistent, accept_slot, new_writer, start_server,
  start_storage, start_service,
}

-- The service runs: files are stored below the first disk with enough space, which becomes the
-- current one, connections are accepted, and both threads run.
pub record IsServing (e : Surroundings) (s : Service) (d : DiskSettings) (s' : Service)
    : Type 0 where
  pub disk : ℕ
  pub path : Text
  pub writer : FileWritter
  pub server : TcpServer
  pub found : IsFirstFree e.available d 0 (some disk)
  pub named : get_elem? s.param.path_storage disk ≡ some path
  pub stores : s'.fwptr ≡ some writer
  pub below : writer.path_root ≡ path
  pub ready : writer.running ≡ true
  pub current : s'.param.i_storage ≡ pos disk
  pub listens : s'.tcpsrv ≡ some server
  pub accepts : server.accepting ≡ true
  pub threads : (s'.idle ≡ true) × (s'.autofree ≡ true)

-- The start has failed without a fault: the settings do not match, and there is no new writer, or no
-- disk has enough space, and a writer that stores nowhere has been made, with its thread.
abbrev pub Refuses : Surroundings → Service → Service → Type 0
Refuses e s s' =
    ((consistent s.param ≡ false) × (s'.fwptr ≡ s.fwptr))
    ⊎ ((d : DiskSettings) × (disk_settings s.param s.param.i_storage ≡ ok d)
        × IsFirstFree e.available d 0 none
        × ((w : FileWritter) × (s'.fwptr ≡ some w) × (w.running ≡ true) × (w.path_root ≡ [])))

abbrev pub Starts : Surroundings → Service → Bool × Service → Type 0
Starts e s (started, s') =
    ((started ≡ true)
      × ((d : DiskSettings) × (disk_settings s.param s.param.i_storage ≡ ok d)
          × IsServing e s d s'))
    ⊎ ((started ≡ false)
        × Refuses e s s'
        × (s'.tcpsrv ≡ s.tcpsrv)
        × (s'.idle ≡ s.idle)
        × (s'.autofree ≡ s.autofree))

update_storage-root :
    (path time : Text) (opened : Bool) (w : FileWritter)
    → Ensures
        (λ (q : FileWritter × List (Text × Text)).
          (q.0.path_root ≡ path) × (q.0.running ≡ w.running))
        (update_storage path time opened w)
unfolding update_storage
update_storage-root path time opened w = ground arith

new_writer-running :
    (p : ParamConfig) → ((new_writer p).running ≡ true) × ((new_writer p).path_root ≡ [])
unfolding set_notify_path set_database
new_writer-running p = ground arith

abbrev n_of : Run DiskSettings → ℕ
n_of (ok d) = d.n_storage
n_of (fault e) = 0

abbrev paths_of : Run DiskSettings → List Text
paths_of (ok d) = d.path_storage
paths_of (fault e) = []

sized :
    (z : ℤ) (m : ℕ)
    → (pos m ==ℤ z) ≡ true
    → leb_ℤ z (pos 0) ≡ false
    → (n : ℕ) × (z ≡ pos n) × (m ≡ n) × (0 < n)
sized (pos n) m e h = (n, refl, ground arith, ground arith)
sized (negsuc n) m e h = absurd (ground (arith, e))

n_storage-length :
    (p : ParamConfig)
    → consistent p ≡ true
    → (n : ℕ) × (p.n_storage ≡ pos n) × (length p.path_storage ≡ n) × (0 < n)
n_storage-length p c = sized p.n_storage (length p.path_storage) (ground arith) (ground arith)

-- Settings that match have a path for each disk, and a disk.
consistent-paths :
    (p : ParamConfig) (i : ℤ) (d : DiskSettings)
    → consistent p ≡ true
    → disk_settings p i ≡ ok d
    → (length d.path_storage ≡ d.n_storage) × (0 < d.n_storage)
consistent-paths p (negsuc i) d c e = let bad : ⊥ = cc in absurd bad
consistent-paths p (pos i) d c e =
    let (n, at, len, more) = n_storage-length p c in
    let sizes : d.n_storage ≡ n = ap n_of (sym e) ∙ ap pos_part at in
    let paths : d.path_storage ≡ p.path_storage = ap paths_of (sym e) in
    (ap length paths ∙ len ∙ sym sizes, omega (arith, sizes, more))

create_server-accepting :
    (thrown : Option ℕ)
    → Ensures
        (λ (q : ℕ × TcpServer). (q.0 ≡ 0) × (q.1.accepting ≡ true))
        (create_server thrown (register_accept accept_slot maketcp_server))
unfolding create_server
create_server-accepting none = (refl, refl)
create_server-accepting (some ec) = tt

abbrev Serves : Service → Bool × Service → Type 0
Serves s (started, s') =
    (started ≡ true)
    × (s'.fwptr ≡ s.fwptr)
    × (s'.param ≡ s.param)
    × ((t : TcpServer) × (s'.tcpsrv ≡ some t) × (t.accepting ≡ true))
    × (s'.idle ≡ true)
    × (s'.autofree ≡ true)

start_server-Serves : (e : Surroundings) (s : Service) → Ensures (Serves s) (start_server e s)
unfolding start_server
start_server-Serves e s =
    Ensures->>= _ (Serves s) (create_server e.thrown (register_accept accept_slot maketcp_server)) _
      (create_server-accepting e.thrown)
      λ q h.
        subst (Ensures (Serves s)) (sym (if_true _ _ ((==_iff q.0 0).1 h.0)))
          (refl, refl, refl, (q.1, refl, h.1), refl, refl)

-- The service once the storage is chosen.
abbrev chosen : Service → ℕ → FileWritter × List (Text × Text) → Service
chosen s i (w, note) = record s {
  param = record (s.param) { i_storage = pos i };
  fwptr = some w;
  notified = s.notified ++ note;
}

start_storage-Starts :
    (e : Surroundings) (s : Service) (d : DiskSettings) (q : Option ℕ × DiskSettings)
    → disk_settings s.param s.param.i_storage ≡ ok d
    → IsFirstFree e.available d 0 q.0
    → Ensures (Starts e s) (start_storage e s q)
unfolding start_storage
start_storage-Starts e s d (none, d') h f = inr (
  refl,
  inr (
    d,
    h,
    f,
    (new_writer s.param, refl, (new_writer-running s.param).0, (new_writer-running s.param).1),
  ),
  refl,
  refl,
  refl,
)
start_storage-Starts e s d (some i, d') h f =
    Ensures->>= _ (Starts e s) (or_fault (get_elem? s.param.path_storage i) out_of_bounds) _
      (or_fault-Ensures (get_elem? s.param.path_storage i) out_of_bounds)
      λ path named.
        Ensures->>= _ (Starts e s) (update_storage path e.time e.opened (new_writer s.param)) _
          (update_storage-root path e.time e.opened (new_writer s.param))
          λ q at.
            Ensures-mono (Serves (chosen s i q)) (Starts e s) (start_server e (chosen s i q))
              (λ r v. inl (
                v.0,
                (
                  d,
                  h,
                  record {
                    disk = i;
                    path = path;
                    writer = q.0;
                    server = v.3.0;
                    found = f;
                    named = named;
                    stores = v.1;
                    below = at.0;
                    ready = at.1 ∙ (new_writer-running s.param).0;
                    current = ap (λ p. p.i_storage) v.2;
                    listens = v.3.1;
                    accepts = v.3.2;
                    threads = (v.4, v.5);
                  },
                ),
              ))
              (start_server-Serves e (chosen s i q))

-- StartService, unless it faults, either returns true and leaves the service running with its files
-- below the first disk with enough space, beginning with the one that the settings name and going
-- round; or it returns false and has started neither the server nor one of its own two threads. Then
-- either the numbers of paths do not match the settings, and no writer has been made; or every disk is
-- full, and a writer has been made that stores nowhere, with its thread.
pub start_service-Starts :
    (e : Surroundings) (s : Service) → Ensures (Starts e s) (start_service e s)
unfolding start_service
start_service-Starts e s = elim (Bool-cases (consistent s.param)) [
  | inr bad ↦
      subst (Ensures (Starts e s)) (sym (if_true _ _ (ap not bad)))
        (inr (refl, inl (bad, refl), refl, refl, refl))
  | inl good ↦ subst (Ensures (Starts e s)) (sym (if_false _ _ (ap not good))) (
      Ensures->>= (λ d. disk_settings s.param s.param.i_storage ≡ ok d) (Starts e s)
        (disk_settings s.param s.param.i_storage) _ (comes_from _)
        λ d h.
          let (sizes, some_) = consistent-paths s.param s.param.i_storage d good h in
          Ensures->>= (λ (q : Option ℕ × DiskSettings). IsFirstFree e.available d 0 q.0)
            (Starts e s) (find_storage e.available d) _
            (find_storage-found e.available d sizes some_) λ q f. start_storage-Starts e s d q h f)
]
