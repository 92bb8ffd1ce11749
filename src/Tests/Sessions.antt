-- ===== src/Tests/Sessions.antt =====
-- A run of a connection over which two files of the same size are sent.
use ftserver.Run.{ok}
use ftserver.Writer.{WriterState, make_filewritter}
use ftserver.Receiver.{waiting, make_filercv}
use ftserver.Writer.Monitor.{passes}
use ftserver.Protocol.{AsciiProtoFileinfo, fileinfo, resolve, compact_fileinfo}
use ftserver.Protocol.Boost.{BoostText}
use ftserver.Protocol.Tokens.{trimmed}
use ftserver.Protocol.Numbers.{show_int, decimal}
use ftserver.Protocol.RoundTrip.{IsSendable, resolve-compact_fileinfo}
use ftserver.Receiver.Session.{IsIdle, Sending, AreSound, session}
use ftserver.Receiver.Sequence.{reports, AllReceived, session-AllReceived}
use ftserver.Agent.FirstFile.{started_receiver}
use ftserver.Agent.Sessions.{AreOnDisk, places, session-AreOnDisk, started-IsIdle}
use ftserver.Agent.System.{System, Act, sends, saves, turns, run_acts, IsOrderly}
use ftserver.Agent.Interleaving.{run_acts-IsOrderly}
use ftserver.Tests.Library.{disk_with, trim_end, bounded_queue, texts, whole_numbers}
use ftserver.Tests.Delivery.{
  receiver_of, client_of, one_file-AllSized, new-IsRing, Receiving, image, image_line,
  image_line-resolve, two_packets-ArePackets, idle_writer, disk-IsWritable,
}
use ftserver.Base.{
  ◌≡◌, refl, sym, ap, ◌∙◌, inl, true, some, List, [], ◌∷◌, ◌++◌, Text, codes, arith,
}

abbrev other_image : AsciiProtoFileinfo
other_image = record image { filename = codes "b.fit" }

other_image-IsSendable : IsSendable other_image
other_image-IsSendable = record {
  type_is = refl;
  no_utc = refl;
  gid = ground arith;
  uid = ground arith;
  cid = ground arith;
  grid = ground arith;
  field = ground arith;
  tmobs = ground arith;
  subpath = ground arith;
  filename = ground arith;
  filesize = omega arith;
}

abbrev other_line : Text
other_line =
    codes
      "fileinfo group_id=001,unit_id=,cam_id=,grid_id=,field_id=,tmobs=,subpath=,filename=b.fit,filesize=5"

other_printed :
    BoostText.trim_right_if texts trimmed (compact_fileinfo whole_numbers texts other_image)
    ≡ other_line
unfolding compact_fileinfo trim_end show_int decimal
other_printed = refl

other_line-resolve : resolve whole_numbers texts other_line ≡ some (fileinfo other_image)
other_line-resolve =
    ap (resolve whole_numbers texts) (sym other_printed)
    ∙ resolve-compact_fileinfo whole_numbers texts other_image other_image-IsSendable

abbrev two_files : List Sending
two_files =
    record { line = image_line; announced = image; first = codes "abc"; others = codes "de" ∷ [] }
    ∷ record {
      line = other_line;
      announced = other_image;
      first = codes "vw";
      others = codes "xyz" ∷ [];
    }
    ∷ []

two_files-AreSound : AreSound bounded_queue whole_numbers texts two_files
two_files-AreSound = (
  record {
    fits = omega arith;
    one_line = ground arith;
    no_nul = ground arith;
    describes = image_line-resolve;
    packets = two_packets-ArePackets;
    size = refl;
  },
  (
    record {
      fits = omega arith;
      one_line = ground arith;
      no_nul = ground arith;
      describes = other_line-resolve;
      packets = ((omega arith, omega arith), ((omega arith, omega arith), tt));
      size = refl;
    },
    tt,
  ),
)

session-AreOnDisk_example :
    (r : Receiving) × (w' : WriterState (disk_with true)) × (session bounded_queue whole_numbers
        texts two_files
        (started_receiver bounded_queue whole_numbers texts 1 idle_writer.writer)
      ≡ ok r)
    × (r.sent ≡ reports two_files)
    × (passes (disk_with true) 2 r.files (record idle_writer { writer = r.fwptr }) ≡ ok w')
    × (w'.writer.quenf ≡ [])
    × AreOnDisk bounded_queue whole_numbers texts (disk_with true) [] w'.disk two_files
    × (places w'.registered ≡ [])
session-AreOnDisk_example =
    session-AreOnDisk bounded_queue whole_numbers texts (disk_with true) 1 two_files idle_writer
      two_files-AreSound refl refl refl (omega arith) disk-IsWritable
      ((λ e. ground arith, tt), (tt, tt))

-- A receiver whose last file is still in the queue.
abbrev busy : Receiving
busy = record (receiver_of waiting (client_of [])) {
  fwptr = record make_filewritter { quenf = 0 ∷ [] };
}

busy-IsIdle : IsIdle bounded_queue whole_numbers texts busy
busy-IsIdle = record {
  client = client_of [];
  slot = 1;
  more = [];
  connected = refl;
  registered = refl;
  plain = refl;
  waits = refl;
  sized = one_file-AllSized;
  ring = new-IsRing;
  nothing = refl;
  runs = refl;
  below = (omega arith, tt);
  room = omega arith;
}

session-AllReceived_example :
    (r' : Receiving) × (session bounded_queue whole_numbers texts two_files busy ≡ ok r')
    × IsIdle bounded_queue whole_numbers texts r'
    × AllReceived bounded_queue whole_numbers texts two_files busy r'
session-AllReceived_example =
    session-AllReceived bounded_queue whole_numbers texts two_files busy busy-IsIdle
      two_files-AreSound

-- The thread saves the first file before the second is sent.
abbrev save_between : List Act
save_between = elim two_files [ s1 ∷ s2 ∷ [] ↦ sends s1 ∷ saves ∷ sends s2 ∷ [] | _ ↦ [] ]

abbrev started : System bounded_queue whole_numbers texts (disk_with true)
started = record {
  receiver = started_receiver bounded_queue whole_numbers texts 1 idle_writer.writer;
  thread = idle_writer;
}

started-IsOrderly : IsOrderly bounded_queue whole_numbers texts (disk_with true) [] [] [] started
unfolding make_filercv
started-IsOrderly = record {
  idle =
      started-IsIdle bounded_queue whole_numbers texts (disk_with true) 1 idle_writer.writer refl
        refl;
  shared = refl;
  at_root = refl;
  holds = tt;
  good = refl;
  few = omega arith;
  going = inl refl;
  on_disk = tt;
}

run_acts-IsOrderly_example :
    (y1 : System bounded_queue whole_numbers texts (disk_with true)) × (y2 : System bounded_queue
      whole_numbers texts
      (disk_with true))
    × (landed : List Sending) × (queued : List Sending) × (run_acts bounded_queue whole_numbers
          texts
          (disk_with true)
          save_between
          started
        ≡ ok y1)
    × IsOrderly bounded_queue whole_numbers texts (disk_with true) [] landed queued y1
    × (landed ++ queued ≡ two_files)
    × (run_acts bounded_queue whole_numbers texts (disk_with true) (turns queued) y1 ≡ ok y2)
    × IsOrderly bounded_queue whole_numbers texts (disk_with true) [] two_files [] y2
run_acts-IsOrderly_example =
    run_acts-IsOrderly bounded_queue whole_numbers texts (disk_with true) [] save_between [] []
      started started-IsOrderly two_files-AreSound disk-IsWritable
      ((λ e. ground arith, tt), (tt, tt))
