-- ===== src/Tests/Delivery.antt =====
-- Runs of a connection that announces and brings a file, and of a file on its way to the disk.
use ftserver.Files.{FileInfo}
use ftserver.Writer.{make_filewritter, WriterState, testing}
use ftserver.Writer.Saving.{IsWritable}
use ftserver.Tcp.{TcpClient}
use ftserver.Protocol.{AsciiProtoFileinfo, fileinfo, resolve, new_base, compact_fileinfo}
use ftserver.Protocol.Boost.{BoostText}
use ftserver.Protocol.Tokens.{trimmed}
use ftserver.Protocol.RoundTrip.{IsSendable, resolve-compact_fileinfo}
use ftserver.Protocol.Output.{make_ascproto, IsRing}
use ftserver.Receiver.{FileReceiver, State}
use ftserver.Receiver.Packets.{ArePackets}
use ftserver.Receiver.Lines.{HasLine}
use ftserver.Files.Sized.{AllSized}
use ftserver.Protocol.Numbers.{show_int, decimal}
use ftserver.Tests.Library.{disk_with, trim_end, bounded_queue, texts, whole_numbers}
use ftserver.Base.{
  zero, suc, ◌≡◌, refl, sym, ap, ◌∙◌, inl, true, false, none, some, [], ◌∷◌, ◌++◌, Text, codes, pos,
  length, replicate, arith,
}

abbrev pub Receiving : Type 0
Receiving = FileReceiver bounded_queue whole_numbers texts

-- A connection that reads into its area, with some bytes there.
abbrev pub client_of : Text → TcpClient bounded_queue
client_of t = record {
  sock_open = true;
  cbconn = [];
  cbrcv = 1 ∷ [];
  cbsnd = [];
  usebuf = false;
  bytercv = length t;
  bufrcv = t ++ replicate 100 0;
  crcrcv = ([], 0);
  crcsnd = ([], 0);
  reading = false;
  writing = none;
}

-- A file of five bytes of which three are there.
abbrev pub part : FileInfo
part = record {
  gid = codes "001";
  uid = [];
  cid = codes "12";
  grid = [];
  field = [];
  tmobs = [];
  subpath = codes "G12";
  filename = codes "a.fit";
  filesize = 5;
  rcvsize = 3;
  filedata = codes "abc" ++ 0 ∷ 0 ∷ [];
}

abbrev pub receiver_of : State → TcpClient bounded_queue → Receiving
receiver_of st c = record {
  files = part ∷ [];
  fwptr = make_filewritter;
  saving = [];
  fileptr = some 0;
  tcpptr = some c;
  ring = make_ascproto;
  state = st;
  bufrcv = replicate 1500 0;
  posted = [];
  sent = [];
}

pub new-IsRing : IsRing make_ascproto
unfolding make_ascproto
new-IsRing = record { index = omega arith; storage = refl }

pub running_new : make_filewritter.running ≡ true
running_new = refl

abbrev pub image : AsciiProtoFileinfo
image = record {
  base = record (new_base (codes "fileinfo")) { gid = codes "001" };
  grid = [];
  field = [];
  tmobs = [];
  subpath = [];
  filename = codes "a.fit";
  filesize = pos 5;
}

image-IsSendable : IsSendable image
image-IsSendable = record {
  type_is = refl;
  no_utc = refl;
  gid = ground arith;
  uid = ground arith;
  cid = ground arith;
  grid = ground arith;
  field = ground arith;
  tmobs = ground arith;
  subpath = ground arith;
  filename = ground arith;
  filesize = omega arith;
}

abbrev pub image_line : Text
image_line =
    codes
      "fileinfo group_id=001,unit_id=,cam_id=,grid_id=,field_id=,tmobs=,subpath=,filename=a.fit,filesize=5"

printed :
    BoostText.trim_right_if texts trimmed (compact_fileinfo whole_numbers texts image) ≡ image_line
unfolding compact_fileinfo trim_end show_int decimal
printed = refl

pub image_line-resolve : resolve whole_numbers texts image_line ≡ some (fileinfo image)
image_line-resolve =
    ap (resolve whole_numbers texts) (sym printed)
    ∙ resolve-compact_fileinfo whole_numbers texts image image-IsSendable

abbrev announcing : TcpClient bounded_queue
announcing = client_of (image_line ++ b'\n' ∷ [])

announcing-HasLine : HasLine bounded_queue announcing image_line
announcing-HasLine = record {
  rest = replicate 100 0;
  plain = refl;
  area = refl;
  counted = omega arith;
  one_line = ground arith;
  no_nul = ground arith;
}

pub one_file-AllSized : AllSized (part ∷ [])
one_file-AllSized zero f e = ground arith
one_file-AllSized (suc k) f e = ground arith

pub two_packets-ArePackets :
    ArePackets bounded_queue whole_numbers texts (codes "abc" ∷ codes "de" ∷ [])
two_packets-ArePackets = ((omega arith, omega arith), ((omega arith, omega arith), tt))

abbrev pub idle_writer : WriterState (disk_with true)
idle_writer = record {
  writer = make_filewritter;
  disk = [];
  registered = [];
  rslt = true;
  errcnt = 0;
  phase = testing;
}

pub disk-IsWritable : IsWritable (disk_with true)
disk-IsWritable = record { makes = λ d p. inl refl; writes = λ d p t. ((p, t) ∷ d, refl) }
