-- ===== src/Agent.antt =====
-- src/TransferAgent.h and src/TransferAgent.cpp: the choice of the disk, the clearing of old data,
-- the list of receivers and the times of the checks. The file system's free space is a parameter;
-- directory entries are given with what the code asks of them. Threads and log lines are left out.
pub mod Storage
pub mod Clearing
pub mod Fresh
pub mod Cleared
pub mod Connections
pub mod FirstFile
pub mod Sessions
pub mod System
pub mod Steps
pub mod Interleaving
pub mod Service
pub mod Starting
use ftserver.Run.{Run, ok, out_of_bounds, or_fault, ◌>>=◌}
use ftserver.Base.{
  ℕ, zero, suc, ◌+◌, ◌-◌, ◌*◌, ◌/◌, ◌^◌, ◌≡◌, Bool, true, false, not, ◌&&◌, ◌||◌, Option, none,
  some, List, [], ◌∷◌, ◌++◌, Text, codes, leb, ltb, ◌==◌, if◌then◌else◌, get_elem?, length,
}

-- The storage part of param_config, with the indices that the code keeps at least 0.
pub record DiskSettings : Type 0 where
  pub n_storage : ℕ
  pub i_storage : ℕ
  pub min_disk_storage : ℕ
  pub path_storage : List Text
  pub n_template : ℕ
  pub min_disk_template : ℕ
  pub path_template : List Text

-- `if (iNew >= n) iNew -= n;`
abbrev pub wrapped : ℕ → ℕ → ℕ
wrapped n i = if leb n i then i - n else i

-- An entry of a directory: its name, its age in seconds as the code takes it, which is the local time
-- less the file's time in UTC, its size, and whether it is a regular file
-- or a directory.
pub record Entry : Type 0 where
  pub filename : Text
  pub age : ℕ
  pub size : ℕ
  pub is_regular_file : Bool
  pub is_directory : Bool

abbrev pub days3 : ℕ
days3 = 3 * 86400

abbrev pub days10 : ℕ
days10 = 10 * 86400

-- `x->path().filename().c_str()[0] != 'G'` fails.
abbrev pub of_gwac : Entry → Bool
of_gwac x = elim x.filename [ [] ↦ false | c ∷ _ ↦ c == b'G' ]

-- What a clearing loop does with an entry.
pub data Action : Type 0 where
  kept removed thinned : Action

unfoldable pub storage_action : Entry → Action
storage_action x = if not (of_gwac x) then kept else if ltb days3 x.age then removed else kept

unfoldable pub template_action : Entry → Action
template_action x =
    if not (of_gwac x)
    then kept
    else if ltb days10 x.age || (x.is_regular_file && ltb days3 x.age)
    then removed
    else if ltb days3 x.age && x.is_directory
    then thinned
    else kept

-- An age below 0 counts as 0: both are kept. free_template_directory: an entry of more than 100 KB is removed.
unfoldable pub directory_action : Entry → Action
directory_action x = if ltb 100 (x.size / 1024) then removed else kept

-- next_noon, from the second of the day.
unfoldable pub next_noon : ℕ → ℕ
next_noon now =
    if leb now 43200
    then if ltb (43200 - now) 10 then 43200 - now + 86400 else 43200 - now
    else 43200 + 86400 - now

-- One round of thread_idle, with IsAlive of the receivers.
pub idle_round {ℓ} : {A : Type ℓ} → (A → Bool) → List A → List A
idle_round is_alive [] = []
idle_round is_alive (r ∷ rs) =
    let rest = idle_round is_alive rs in if is_alive r then r ∷ rest else rest

module _ (available : Text → ℕ) where
  -- `(space.available >> 30) >= param_.minDiskStorage`
  abbrev pub has_space : DiskSettings → Text → Bool
  has_space p path = leb p.min_disk_storage (available path / 2 ^ 30)

  -- The loop of find_storage with the rounds left: the index it breaks at. An index that is not that
  -- of a path reads outside the vector.
  unfoldable pub search : ℕ → DiskSettings → ℕ → Run (Option ℕ)
  search zero p i_new = ok none
  search (suc rounds) p i_new =
      let i = wrapped p.n_storage i_new in
      let rest = search rounds p (i + 1) in
      or_fault (get_elem? p.path_storage i) out_of_bounds >>= λ path.
      if has_space p path then ok (some i) else rest

  abbrev pub settled : DiskSettings → Option ℕ → DiskSettings
  settled p none = p
  settled p (some i) = record p { i_storage = i }

  -- find_storage: the index of the path it returns, and the settings after.
  unfoldable pub find_storage : DiskSettings → Run (Option ℕ × DiskSettings)
  unfolding search
  find_storage p = do o ← search p.n_storage p p.i_storage; ok (o, settled p o)

  -- What free_storage asks of the others: UpdateStorage with the path of an index, after the old
  -- data under that path are removed or not.
  pub data Freeing : Type 0 where
    nothing : Freeing
    moved : ℕ → Freeing
    cleaned : ℕ → Freeing

  abbrev pub next_disk : DiskSettings → ℕ
  next_disk p = if leb p.n_storage (p.i_storage + 1) then 0 else p.i_storage + 1

  -- free_storage, on what find_storage returns.
  abbrev pub free_with : DiskSettings → Option ℕ × DiskSettings → Run (Freeing × DiskSettings)
  free_with p (none, p') = do
    _ ← or_fault (get_elem? p.path_storage (next_disk p)) out_of_bounds
    ok (cleaned (next_disk p), record p' { i_storage = next_disk p })
  free_with p (some i, p') = ok (if i == p.i_storage then nothing else moved i, p')

  unfoldable pub free_storage : DiskSettings → Run (Freeing × DiskSettings)
  unfolding find_storage
  free_storage p = find_storage p >>= free_with p
