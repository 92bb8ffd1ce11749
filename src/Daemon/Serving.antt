-- ===== src/Daemon/Serving.antt =====
-- When main waits for connections.
use ftserver.Run.{ok, Ensures, Ensures->>=, comes_from, any-Ensures}
use ftserver.Config.{index_update, init_file, Translator, ParamConfig}
use ftserver.Agent.{DiskSettings}
use ftserver.Agent.Service.{Service, start_service, stop_service, disk_settings}
use ftserver.Agent.Starting.{IsServing, Starts, start_service-Starts}
use ftserver.Daemon.{
  destroyed, updated, is_proc_singleton, Fork, fork_failed, parent, child, Process, make_it_daemon,
  second_fork, close_standard, Did, serves, ends, World, agent, after_start, launch, if_single,
  as_daemon, main,
}
use ftserver.Base.{
  ℕ, ◌≡◌, inl, inr, refl, sym, ap, subst, Bool, true, false, not, Option, none, some, List, [], ◌∷◌,
  Text, codes, text_eq, if_true, if_false, Bool-cases,
}

-- Whatever main serves satisfies P, and is stopped directly after.
abbrev pub AllServed : (Service → Type 0) → List Did → Type 0
AllServed P [] = Unit {0}
AllServed P (serves s ∷ []) = ⊥
AllServed P (serves s ∷ d ∷ ds) = P s × (d ≡ ends (stop_service {A = ℕ} s []).0) × AllServed P ds
AllServed P (_ ∷ ds) = AllServed P ds

module _ (tr : Translator) (unset : ParamConfig) where
  -- The process is a daemon on its own, and StartService has left s running.
  pub record IsLaunched (w : World) (s : Service) : Type 0 where
    pub first_child : w.first_fork ≡ child
    pub next_child : w.next_fork ≡ child
    pub alone : (is_proc_singleton w.granted w.calls w.pid w.file).0 ≡ true
    pub agent_ : Service
    pub loaded : agent tr unset w ≡ ok agent_
    pub settings : DiskSettings
    pub known : disk_settings agent_.param agent_.param.i_storage ≡ ok settings
    pub serving : IsServing w.surroundings agent_ settings s

  abbrev Served : World → ℕ × List Did → Type 0
  Served w r = AllServed (IsLaunched w) r.1

  updated-AllServed :
      (w : World) (updates : Bool) (o : Option (Text × Text))
      → Ensures (AllServed (IsLaunched w)) (updated tr unset updates o)
  updated-AllServed w updates none = tt
  updated-AllServed w true (some (name, value)) = tt
  updated-AllServed w false (some (name, value)) = tt

  after_start-AllServed :
      (w : World)
      → w.first_fork ≡ child
      → w.next_fork ≡ child
      → (is_proc_singleton w.granted w.calls w.pid w.file).0 ≡ true
      → (a : Service) → agent tr unset w ≡ ok a
      → (r : Bool × Service) → Starts w.surroundings a r
      → Ensures (Served w) (after_start tr unset w r)
  after_start-AllServed w f n alone a loaded (false, s) h =
      Ensures->>= (AllServed (IsLaunched w)) (Served w) (destroyed tr unset w.updates s) _
        (updated-AllServed w w.updates (index_update tr s.param)) λ did g. g
  after_start-AllServed w f n alone a loaded (true, s) (inl (t, (d, known, serving))) =
      let s' : Service = (stop_service {A = ℕ} s []).0 in
      Ensures->>= (AllServed (IsLaunched w)) (Served w) (destroyed tr unset w.updates s') _
        (updated-AllServed w w.updates (index_update tr s'.param))
        λ did g. (
          record {
            first_child = f;
            next_child = n;
            alone = alone;
            agent_ = a;
            loaded = loaded;
            settings = d;
            known = known;
            serving = serving;
          },
          refl,
          g,
        )
  after_start-AllServed w f n alone a loaded (true, s) (inr (t, _, _, _, _)) =
      let bad : ⊥ = cc in absurd bad

  launch-AllServed :
      (w : World)
      → w.first_fork ≡ child
      → w.next_fork ≡ child
      → (is_proc_singleton w.granted w.calls w.pid w.file).0 ≡ true
      → Ensures (Served w) (launch tr unset w)
  launch-AllServed w f n alone =
      Ensures->>= (λ a. agent tr unset w ≡ ok a) (Served w) (agent tr unset w) _
        (comes_from (agent tr unset w))
        λ a loaded.
          Ensures->>= (Starts w.surroundings a) (Served w) (start_service w.surroundings a) _
            (start_service-Starts w.surroundings a)
            λ r h.
              Ensures->>= (Served w) (Served w) (after_start tr unset w r) _
                (after_start-AllServed w f n alone a loaded r h) λ q g. g

  if_single-AllServed :
      (w : World)
      → w.first_fork ≡ child
      → w.next_fork ≡ child
      → Ensures (Served w) (if_single tr unset w)
  if_single-AllServed w f n =
      elim (Bool-cases (is_proc_singleton w.granted w.calls w.pid w.file).0) [
        | inl alone ↦
            subst (Ensures (Served w)) (sym (if_false _ _ (ap not alone)))
              (launch-AllServed w f n alone)
        | inr other ↦ subst (Ensures (Served w)) (sym (if_true _ _ (ap not other))) tt
      ]

  close_standard-AllServed :
      (w : World) (q : Process) (o : Bool)
      → w.first_fork ≡ child
      → w.next_fork ≡ child
      → Ensures (Served w) (as_daemon tr unset w (close_standard o q))
  unfolding close_standard
  close_standard-AllServed w q true f n = if_single-AllServed w f n
  close_standard-AllServed w q false f n = tt

  second_fork-AllServed :
      (w : World) (q : Process) (k : Fork)
      → w.first_fork ≡ child
      → w.next_fork ≡ k
      → Ensures (Served w) (as_daemon tr unset w (second_fork k w.opens_null q))
  unfolding second_fork
  second_fork-AllServed w q fork_failed f n = tt
  second_fork-AllServed w q parent f n = tt
  second_fork-AllServed w q child f n = close_standard-AllServed w q w.opens_null f n

  make_it_daemon-AllServed :
      (w : World) (k : Fork) (p : Process)
      → w.first_fork ≡ k
      → Ensures (Served w) (as_daemon tr unset w (make_it_daemon k w.next_fork w.opens_null p))
  unfolding make_it_daemon
  make_it_daemon-AllServed w fork_failed p f = tt
  make_it_daemon-AllServed w parent p f = tt
  make_it_daemon-AllServed w child p f = second_fork-AllServed w _ w.next_fork f refl

  pub main-AllServed :
      (w : World) (p : Process) (arg : Option Text)
      → Ensures (λ r. AllServed (IsLaunched w) r.1) (main tr unset w p arg)
  unfolding main
  main-AllServed w p none = make_it_daemon-AllServed w w.first_fork p refl
  main-AllServed w p (some arg) = elim (Bool-cases (text_eq arg (codes "-d"))) [
    | inl settings_ ↦ subst (Ensures (Served w)) (sym (if_true _ _ settings_)) (
        Ensures->>= (λ q. Unit {0}) (Served w) (init_file tr w.writes (codes "ftserver.xml") unset)
          _ (any-Ensures _) λ q h. tt)
    | inr usage_ ↦
        subst (Ensures (λ r. AllServed (IsLaunched w) r.1)) (sym (if_false _ _ usage_)) tt
  ]
