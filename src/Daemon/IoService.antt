-- ===== src/Daemon/IoService.antt =====
-- src/IOServiceKeep.h and src/IOServiceKeep.cpp: a service of boost whose run is kept from returning
-- as long as the object lives. When run returns is a parameter with the documented laws.
use ftserver.Base.{ℕ, ◌≡◌, refl, sym, ap, ◌∙◌, Bool, true, false, not, ◌&&◌, List, [], ◌∷◌}

-- io_service::run: whether it returns, by the work object, stop() and the number of handlers that
-- are still to be called. It returns after stop(); without, it stays while there is work or a handler.
pub record RunReturns : Type 0 where
  pub returns : Bool → Bool → ℕ → Bool
  pub returns-stopped : (work : Bool) (n : ℕ) → returns work true n ≡ true
  pub returns-work : (n : ℕ) → returns true false n ≡ false
  pub returns-idle : returns false false 0 ≡ true

pub record IoServiceKeep : Type 0 where
  pub work : Bool
  pub stopped : Bool
  pub running : Bool

module _ (run : RunReturns) where
  open run use {returns, returns-stopped, returns-work, returns-idle}

  -- The thread leaves run when it returns, with n handlers to be called.
  unfoldable pub run_thread : ℕ → IoServiceKeep → IoServiceKeep
  run_thread n k = record k { running = k.running && not (returns k.work k.stopped n) }

  -- IOServiceKeep()
  unfoldable pub make_keep : IoServiceKeep
  make_keep = record { work = true; stopped = false; running = true }

  -- ~IOServiceKeep, up to the join, which waits for the thread.
  unfoldable pub destroy_keep : IoServiceKeep → IoServiceKeep
  destroy_keep k = record k { work = false; stopped = true }

  -- The thread through any numbers of handlers.
  run_all : List ℕ → IoServiceKeep → IoServiceKeep
  run_all [] k = k
  run_all (n ∷ ns) k = run_all ns (run_thread n k)

  run_all-work :
      (ns : List ℕ) (k : IoServiceKeep)
      → k.work ≡ true
      → k.stopped ≡ false
      → k.running ≡ true
      → run_all ns k ≡ k
  unfolding run_all run_thread
  run_all-work [] k w s r = refl
  run_all-work (n ∷ ns) k w s r =
      let same : run_thread n k ≡ k = λ i. record k {
        running = ((λ j. r j && not (returns (w j) (s j) n)) ∙ ap not (returns-work n) ∙ sym r) i;
      } in
      ap (run_all ns) same ∙ run_all-work ns k w s r

  -- While the object lives its thread stays in run, whatever there is to call, and even with nothing; in
  -- the destructor the thread ends before the join, whatever is left to call.
  keep_runs :
      (ns : List ℕ) (n : ℕ)
      → ((run_all ns make_keep).running ≡ true)
        × ((run_thread n (destroy_keep (run_all ns make_keep))).running ≡ false)
  unfolding make_keep destroy_keep run_thread
  keep_runs ns n =
      let kept : run_all ns make_keep ≡ make_keep = run_all-work ns make_keep refl refl refl in
      (
        ap (λ k. k.running) kept,
        ap (λ k. (run_thread n (destroy_keep k)).running) kept ∙ ap not (returns-stopped false n),
      )
