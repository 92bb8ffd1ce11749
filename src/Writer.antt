-- ===== src/Writer.antt =====
-- src/FileWritter.h and src/FileWritter.cpp: the queue of finished files and the thread that puts
-- them on the disk. Files are numbers of shared objects (Files.antt). The file system and
-- boost::filesystem paths are parameters; log lines are left out.
pub mod Monitor
pub mod Accounts
pub mod Ending
pub mod Order
pub mod Saving
pub mod Drain
pub mod Turns
use ftserver.Run.{Run, ok, fault, uncaught, empty_queue, null_pointer, or_fault, ◌>>=◌}
use ftserver.Files.{FileInfo}
use ftserver.Base.{
  ℕ, zero, suc, ◌+◌, ◌≡◌, ◌≢◌, Bool, true, false, not, ◌&&◌, ◌||◌, length, Option, none, some, List,
  [], ◌∷◌, ◌++◌, Text, codes, ltb, ◌==◌, if◌then◌else◌, get_elem?,
}

-- What the writer uses of the file system: fs::path's `/=`, is_directory, create_directory (its
-- result and the disk after, `none` if it throws), and fopen(…, "wb") with fwrite and fclose, `none` if fopen fails.
pub record FileSystem : Type 1 where
  pub Disk : Type 0
  pub join : Text → Text → Text
  pub is_directory : Disk → Text → Bool
  pub create_directory : Disk → Text → Option (Bool × Disk)
  pub write_file : Disk → Text → Text → Option Disk
  pub read_file : Disk → Text → Option Text
  pub read-write : (d d' : Disk) (p t : Text) → write_file d p t ≡ some d' → read_file d' p ≡ some t
  pub read-write_ne :
      (d d' : Disk) (p q t : Text)
      → p ≢ q
      → write_file d p t ≡ some d'
      → read_file d' q ≡ read_file d q
  pub read-create_directory :
      (d d' : Disk) (p q : Text) (b : Bool)
      → create_directory d p ≡ some (b, d')
      → read_file d' q ≡ read_file d q

-- A call of DataTransfer::regOrigImage: the file and the path it was stored at.
pub record Registration : Type 0 where
  pub file : FileInfo
  pub img_path : Text

pub record FileWritter : Type 0 where
  pub path_root : Text
  pub quenf : List ℕ
  pub db : Option Text
  pub running : Bool
  pub path_notify : Text

-- FileWritter(), once its thread has set running_.
abbrev pub make_filewritter : FileWritter
make_filewritter = record {
  path_root = [];
  quenf = [];
  db = none;
  running = true;
  path_notify = [];
}

-- UpdateStorage: the writer after, and what it writes to the notification file, if any. The time
-- is the local time as text; fopen's result is not tested, so fprintf faults where it fails.
unfoldable pub update_storage :
    Text → Text → Bool → FileWritter → Run (FileWritter × List (Text × Text))
update_storage path time opened w =
    let moved = record w { path_root = path } in
    elim w.path_notify [
      | [] ↦ ok (moved, [])
      | c ∷ p ↦
          (if opened
            then ok (moved, (c ∷ p, path ++ codes "     " ++ time ++ codes "\n") ∷ [])
            else fault null_pointer)
    ]

-- SetDatabase(enabled, url), `none` for a null url.
unfoldable pub set_database : Bool → Option Text → FileWritter → FileWritter
set_database false url w = record w { db = none }
set_database true none w = w
set_database true (some url) w = record w { db = some url }

unfoldable pub set_notify_path : Bool → Text → FileWritter → FileWritter
set_notify_path enabled filepath w = record w { path_notify = if enabled then filepath else [] }

-- NewFile: whether the file was taken, and the writer after.
unfoldable pub new_file : ℕ → FileWritter → FileWritter
new_file k w = if w.running then record w { quenf = w.quenf ++ k ∷ [] } else w

-- thread_monitor between two passes of its loop: `waiting` is inside cvfile_.wait.
pub data Phase : Type 0 where
  testing waiting stopped : Phase

module _ (fs : FileSystem) where
  open fs use {Disk, join, is_directory, create_directory, write_file, read_file}

  pub record WriterState : Type 0 where
    pub writer : FileWritter
    pub disk : Disk
    pub registered : List Registration
    pub rslt : Bool
    pub errcnt : ℕ
    pub phase : Phase

  -- The directory of the file is there, or can be made: the test, and the disk after it. Nothing
  -- catches what create_directory throws when it fails.
  abbrev pub ensure_directory : Disk → Text → Run (Bool × Disk)
  ensure_directory d p =
      if is_directory d p then ok (true, d) else or_fault (create_directory d p) uncaught

  abbrev pub registration : Option Text → FileInfo → Text → List Registration
  registration none f path = []
  registration (some url) f path = record { file = f; img_path = path } ∷ []

  -- save_first, at the queue's first object f with the rest of the queue, once is_directory or
  -- create_directory has returned.
  abbrev pub written : FileInfo → List ℕ → WriterState → Bool × Disk → Bool × WriterState
  written f rest s r =
      let dir = join s.writer.path_root f.subpath in
      let path = join dir f.filename in
      if r.0
      then elim (write_file r.1 path f.filedata) [
        | none ↦ (false, record s { disk = r.1 })
        | some d' ↦ (
          true,
          record s {
            disk = d';
            writer = record (s.writer) { quenf = rest };
            registered = s.registered ++ registration s.writer.db f path;
          },
        )
      ]
      else (false, record s { disk = r.1 })

  unfoldable pub save : FileInfo → List ℕ → WriterState → Run (Bool × WriterState)
  save f rest s =
      ensure_directory s.disk (join s.writer.path_root f.subpath) >>= λ r. ok (written f rest s r)

  abbrev pub no_files : List ℕ → Bool
  no_files [] = true
  no_files (_ ∷ _) = false

  -- save_first with what the queue holds; quenf_.front() of the empty queue is undefined.
  unfoldable pub save_front : List FileInfo → List ℕ → WriterState → Run (Bool × WriterState)
  save_front files [] s = fault empty_queue
  save_front files (k ∷ rest) s = do f ← or_fault (get_elem? files k) null_pointer; save f rest s

  unfoldable pub save_first : List FileInfo → WriterState → Run (Bool × WriterState)
  unfolding save_front
  save_first files s = save_front files s.writer.quenf s

  -- `rslt = save_first();` and back to the loop's test.
  abbrev pub saved_pass : List FileInfo → WriterState → Run WriterState
  saved_pass files s = do
    (done, s') ← save_first files s
    ok (record s' { rslt = done; phase = testing })

  -- The middle branches of the loop: count a failure, or clear the count.
  unfoldable pub counted : WriterState → WriterState
  counted s =
      if not s.rslt
      then record s { errcnt = s.errcnt + 1 }
      else if s.errcnt == 0
      then s
      else record s { errcnt = 0 }

  -- One pass of the loop's body and the way back to its test, on the queue's content.
  pub pass_on : List FileInfo → List ℕ → WriterState → Run WriterState
  pass_on files [] s = ok (record s { phase = waiting })
  pass_on files (_ ∷ _) s = saved_pass files (counted s)

  -- One pass of `while (errcnt < 5)`, up to the wait or through save_first, or the loop's end.
  unfoldable pub pass : List FileInfo → WriterState → Run WriterState
  unfolding pass_on
  pass files s =
      if ltb s.errcnt 5
      then pass_on files s.writer.quenf s
      else ok (record s { phase = stopped; writer = record (s.writer) { running = false } })

  -- The condition variable returns, by notify_one or spuriously.
  unfoldable pub wake : List FileInfo → WriterState → Run WriterState
  wake files s = saved_pass files s

  -- The thread once it is to be interrupted, from the loop's test, with the rounds left: the wait and
  -- the sleep throw, and a thread that comes to neither goes on saving.
  unfoldable pub unwind : ℕ → List FileInfo → WriterState → Run WriterState
  unwind zero files s = ok s
  unwind (suc n) files s =
      if not (ltb s.errcnt 5) || no_files s.writer.quenf
      then ok (record s { phase = stopped })
      else if not s.rslt
      then ok (record s { errcnt = s.errcnt + 1; phase = stopped })
      else save_first files (record s { errcnt = 0 }) >>= λ r.
          unwind n files (record (r.1) { rslt = r.0 })

  -- interrupt() and join(): enough rounds for all files, a failure and the end.
  abbrev pub join_from : Phase → List FileInfo → WriterState → Run WriterState
  join_from testing files s = unwind (length s.writer.quenf + 2) files s
  join_from waiting files s = ok (record s { phase = stopped })
  join_from stopped files s = ok s

  unfoldable pub join_thread : List FileInfo → WriterState → Run WriterState
  unfolding unwind
  join_thread files s = join_from s.phase files s

  -- ~FileWritter: what the thread has not saved when it ends is lost.
  unfoldable pub destroy_filewritter : List FileInfo → WriterState → Run (List ℕ × WriterState)
  unfolding join_thread
  destroy_filewritter files s = do
    s' ← join_thread files s
    ok (s'.writer.quenf, record s' { writer = record (s'.writer) { running = false; quenf = [] } })
