-- ===== src/Tests/Writer.antt =====
-- Runs of the writer's thread: two files in the queue.
use ftserver.Run.{ok, Ensures}
use ftserver.Files.{FileInfo}
use ftserver.Writer.{
  destroy_filewritter, join_thread, unwind, save_first, save_front, save, make_filewritter,
  FileWritter, WriterState, testing, new_file,
}
use ftserver.Writer.Monitor.{passes}
use ftserver.Writer.Drain.{AreFiles, AreStored, registrations, passes-AreStored}
use ftserver.Writer.Saving.{IsWritable}
use ftserver.Writer.Order.{
  WriterLog, Reach, here, next, offers, InOrder, EndsInOrder, Reach-InOrder_files,
}
use ftserver.Tests.Library.{disk_with}
use ftserver.Base.{
  ℕ, ◌≡◌, ◌≢◌, refl, ap, inl, true, some, List, [], ◌∷◌, Text, codes, length, arith,
}

-- A whole file of one byte.
abbrev file_of : Text → FileInfo
file_of name = record {
  gid = [];
  uid = [];
  cid = [];
  grid = [];
  field = [];
  tmobs = [];
  subpath = codes "G12";
  filename = name;
  filesize = 1;
  rcvsize = 1;
  filedata = codes "x";
}

abbrev two_files : List FileInfo
two_files = file_of (codes "a.fit") ∷ file_of (codes "bb.fit") ∷ []

abbrev two_queued : FileWritter
two_queued = record make_filewritter {
  path_root = codes "/data";
  quenf = 0 ∷ 1 ∷ [];
  db = some (codes "http://db/");
}

abbrev state_of : FileWritter → WriterState (disk_with true)
state_of w = record {
  writer = w;
  disk = [];
  registered = [];
  rslt = true;
  errcnt = 0;
  phase = testing;
}

disk-IsWritable : IsWritable (disk_with true)
disk-IsWritable = record { makes = λ d p. inl refl; writes = λ d p t. ((p, t) ∷ d, refl) }

abbrev two_queued-AreFiles : AreFiles (disk_with true) two_files (0 ∷ 1 ∷ [])
two_queued-AreFiles = ((file_of (codes "a.fit"), refl), ((file_of (codes "bb.fit"), refl), tt))

two_paths-ne : codes "/data/G12/bb.fit" ≢ codes "/data/G12/a.fit"
two_paths-ne e = omega (arith, ap length e)

passes-AreStored_example :
    (s' : WriterState (disk_with true)) × (passes (disk_with true) 2 two_files (state_of two_queued)
      ≡ ok s')
    × (s'.writer ≡ record two_queued { quenf = [] })
    × (s'.registered ≡ registrations (disk_with true) two_files two_queued two_files)
    × AreStored (disk_with true) two_files (codes "/data") s'.disk two_files
passes-AreStored_example =
    passes-AreStored (disk_with true) two_files disk-IsWritable (0 ∷ 1 ∷ []) two_queued-AreFiles
      (state_of two_queued) refl refl (omega arith) ((two_paths-ne, tt), (tt, tt))

abbrev one_queued : FileWritter
one_queued = record two_queued { quenf = 0 ∷ [] }

abbrev before : WriterLog (disk_with true) two_files
before = record { state = state_of one_queued; accepted = 0 ∷ [] }

abbrev after : WriterLog (disk_with true) two_files
after = record { state = state_of two_queued; accepted = 0 ∷ 1 ∷ [] }

offered : Reach (disk_with true) two_files before after
unfolding new_file
offered = next here (offers 1)

Reach-InOrder_files_example :
    InOrder (disk_with true) two_files after
    × Ensures
        (EndsInOrder (disk_with true) two_files after)
        (destroy_filewritter (disk_with true) two_files after.state)
Reach-InOrder_files_example =
    Reach-InOrder_files (disk_with true) two_files
      (record { url = codes "http://db/"; in_use = refl; in_order = refl }) offered

-- Here the thread saves both files before it comes to its wait.
destroyed_at_work :
    (r : List ℕ × WriterState (disk_with true)) × (destroy_filewritter
        (disk_with true)
        two_files
        after.state
      ≡ ok r)
    × (r.0 ≡ [])
unfolding destroy_filewritter join_thread unwind save_first save_front save
destroyed_at_work = (_, refl, refl)
