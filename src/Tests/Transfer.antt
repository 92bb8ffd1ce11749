-- ===== src/Tests/Transfer.antt =====
-- Runs of the protocol, of the file objects, of the writer and of a receiver.
use ftserver.Tests.Delivery.{client_of}
use ftserver.Run.{ok, fault, out_of_bounds, Ensures, uncaught}
use ftserver.Files.{FileInfo, IsStored, data_arrive}
use ftserver.Files.Assembly.{
  stored, grown, total, arrive_all, data_arrive-cases, arrive_all-total, arrive_all-over,
}
use ftserver.Protocol.{
  AsciiProtoFileinfo, make_apfilestat, fileinfo, filestat, compact_fileinfo, compact_filestat,
  resolve, new_base,
}
use ftserver.Protocol.Boost.{BoostText}
use ftserver.Protocol.Tokens.{trimmed}
use ftserver.Protocol.RoundTrip.{IsSendable, resolve-compact_fileinfo, resolve-compact_filestat}
use ftserver.Protocol.Output.{
  OutputRing, Output, make_ascproto, IsRing, line_of, sprintf_line, print_all, string_at,
  output_stays,
}
use ftserver.Writer.{FileWritter, make_filewritter, WriterState, testing, save_first}
use ftserver.Writer.Monitor.{
  SaveEnds, NoDirectory, save_first-Saved, passes, IsUnwritable, Tried, HasGivenUp, gives_up,
}
use ftserver.Receiver.{FileReceiver, ready, network_close_msg, receive_complete_msg}
use ftserver.Receiver.Ownership.{IsSafe, Safely}
use ftserver.Receiver.Shared.{Event, arrives, handles, step, run_events, run_events-Safely}
use ftserver.Tests.Library.{bounded_queue, texts, whole_numbers, disk_with}
use ftserver.Base.{
  ℕ, suc, ◌≤◌, ◌+◌, ◌<◌, ◌≡◌, ◌↔◌, ◌⊎◌, refl, Bool, true, false, some, List, [], ◌∷◌, ◌++◌, Text,
  codes, pos, length, replicate, arith,
}

abbrev image : AsciiProtoFileinfo
image = record {
  base = record (new_base (codes "fileinfo")) { gid = codes "001"; uid = []; cid = codes "12" };
  grid = codes "G0014";
  field = codes "07480700";
  tmobs = codes "2017-11-23T15:29:38";
  subpath = codes "G12/171123";
  filename = codes "G12_mon_0001.fit";
  filesize = pos 5;
}

clean_image : IsSendable image
clean_image = record {
  type_is = refl;
  no_utc = refl;
  gid = ground arith;
  uid = ground arith;
  cid = ground arith;
  grid = ground arith;
  field = ground arith;
  tmobs = ground arith;
  subpath = ground arith;
  filename = ground arith;
  filesize = omega arith;
}

resolve-compact_fileinfo_example :
    resolve whole_numbers texts
      (BoostText.trim_right_if texts trimmed (compact_fileinfo whole_numbers texts image))
    ≡ some (fileinfo image)
resolve-compact_fileinfo_example = resolve-compact_fileinfo whole_numbers texts image clean_image

resolve-compact_filestat_example :
    resolve whole_numbers texts (
      BoostText.trim_right_if texts trimmed
        (compact_filestat whole_numbers texts (record make_apfilestat { status = pos 2 })))
    ≡ some (filestat (record make_apfilestat { status = pos 2 }))
resolve-compact_filestat_example =
    resolve-compact_filestat whole_numbers texts (pos 2) (omega arith)

fresh-IsRing : IsRing make_ascproto
unfolding make_ascproto
fresh-IsRing = record { index = omega arith; storage = refl }

output_stays_example :
    (o : Output) × (r' : OutputRing) × (sprintf_line (codes "filestat status=1") make_ascproto
      ≡ some o)
    × (print_all (codes "filestat status=2" ∷ []) o.ring ≡ some r')
    × (o.n ≡ length (line_of (codes "filestat status=1")))
    × (string_at o.address r' ≡ line_of (codes "filestat status=1"))
output_stays_example =
    output_stays (codes "filestat status=1") (codes "filestat status=2" ∷ []) make_ascproto
      fresh-IsRing (omega arith) (omega arith, tt) (omega arith)

-- A file of five bytes of which three are there.
abbrev begun_file : FileInfo
begun_file = record {
  gid = codes "001";
  uid = [];
  cid = codes "12";
  grid = [];
  field = [];
  tmobs = [];
  subpath = codes "G12";
  filename = codes "a.fit";
  filesize = 5;
  rcvsize = 3;
  filedata = codes "abc" ++ 0 ∷ 0 ∷ [];
}

begun_file-IsStored : IsStored begun_file
begun_file-IsStored = record { sized = refl; counted = omega arith }

data_arrive-cases_example :
    ((5 < 3 + length (codes "de")) × (data_arrive (codes "de") begun_file ≡ fault out_of_bounds))
    ⊎ ((done : Bool) × (data_arrive (codes "de") begun_file
          ≡ ok (grown (codes "de") begun_file, done))
        × IsStored (grown (codes "de") begun_file)
        × (stored (grown (codes "de") begun_file) ≡ stored begun_file ++ codes "de")
        × ((done ≡ true) ↔ ((grown (codes "de") begun_file).rcvsize ≡ 5)))
data_arrive-cases_example = data_arrive-cases (codes "de") begun_file begun_file-IsStored

abbrev two_packets : List Text
two_packets = codes "d" ∷ codes "e" ∷ []

arrive_all-total_example :
    arrive_all two_packets begun_file
    ≡ ok (record begun_file { filedata = stored begun_file ++ total two_packets; rcvsize = 5 })
arrive_all-total_example = arrive_all-total two_packets begun_file begun_file-IsStored refl

arrive_all-over_example : arrive_all (codes "de" ∷ codes "f" ∷ []) begun_file ≡ fault out_of_bounds
arrive_all-over_example =
    arrive_all-over (codes "de" ∷ codes "f" ∷ []) begun_file begun_file-IsStored (omega arith)

abbrev files_held : List FileInfo
files_held = begun_file ∷ []

abbrev queueing_writer : FileWritter
queueing_writer = record make_filewritter {
  path_root = codes "/data";
  quenf = 0 ∷ [];
  db = some (codes "http://db/");
}

abbrev writer_on : (b : Bool) → WriterState (disk_with b)
writer_on b = record {
  writer = queueing_writer;
  disk = [];
  registered = [];
  rslt = true;
  errcnt = 0;
  phase = testing;
}

save_first-Saved_example :
    SaveEnds
      (disk_with true)
      begun_file
      []
      (writer_on true)
      (save_first (disk_with true) files_held (writer_on true))
    × (NoDirectory (disk_with true) (writer_on true) begun_file
        → save_first (disk_with true) files_held (writer_on true) ≡ fault uncaught)
save_first-Saved_example =
    save_first-Saved (disk_with true) files_held 0 [] begun_file (writer_on true) refl refl

full_disk : IsUnwritable (disk_with false)
full_disk = record { returns = λ d p. ((true, d), refl); refuses = λ d p t. refl }

gives_up_example :
    ((n : ℕ)
      → n ≤ 5
      → (s' : WriterState (disk_with false)) × (passes
            (disk_with false)
            (suc n)
            files_held
            (writer_on false)
          ≡ ok s')
        × Tried (disk_with false) full_disk files_held 0 [] begun_file refl (writer_on false) s' n)
    × HasGivenUp
        (disk_with false)
        full_disk
        files_held
        0
        []
        begun_file
        refl
        (writer_on false)
        (passes (disk_with false) 7 files_held (writer_on false))
gives_up_example =
    gives_up (disk_with false) full_disk files_held 0 [] begun_file refl (writer_on false) refl refl
      (omega arith)

abbrev Receiving : Type 0
Receiving = FileReceiver bounded_queue whole_numbers texts

-- A receiver whose first file is with the writer and whose second is being received.
abbrev busy : Receiving
busy = record {
  files = begun_file ∷ begun_file ∷ [];
  fwptr = queueing_writer;
  saving = [];
  fileptr = some 1;
  tcpptr = some (client_of []);
  ring = make_ascproto;
  state = ready;
  bufrcv = replicate 1500 0;
  posted = [];
  sent = [];
}

busy-IsSafe : IsSafe bounded_queue whole_numbers texts busy
busy-IsSafe = record { below = (omega arith, tt); private = refl }

abbrev two_events : List (Event bounded_queue whole_numbers texts)
two_events = arrives 0 (codes "xyz") ∷ handles network_close_msg ∷ []

run_events-Safely_example :
    Ensures
      (λ r'.
        Ensures
          (Safely bounded_queue whole_numbers texts r')
          (step bounded_queue whole_numbers texts (handles receive_complete_msg) r'))
      (run_events bounded_queue whole_numbers texts two_events busy)
run_events-Safely_example =
    run_events-Safely bounded_queue whole_numbers texts two_events (handles receive_complete_msg)
      busy busy-IsSafe
