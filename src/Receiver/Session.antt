-- ===== src/Receiver/Session.antt =====
-- A connection over which file after file is announced and sent, with the messages that the arrivals
-- cause taken from the receiver's queue.
use ftserver.Run.{Run, ok, ◌>>=◌}
use ftserver.Files.{FileInfo}
use ftserver.Files.Assembly.{total}
use ftserver.Files.Sized.{AllSized}
use ftserver.Tcp.Circular.{CircularBuffer}
use ftserver.Tcp.{TcpClient, Slot, tcp_pack_size}
use ftserver.Protocol.Boost.{BoostText, NoneOf}
use ftserver.Protocol.Output.{IsRing}
use ftserver.Protocol.{Floats, fileinfo, AsciiProtoFileinfo, resolve}
use ftserver.Receiver.Lines.{newline, nul}
use ftserver.Receiver.Packets.{ArePackets, read_packets}
use ftserver.Receiver.Ownership.{AllBelow, Keeps}
use ftserver.Receiver.{FileReceiver, waiting, Message, handler, described, network_read, held}
use ftserver.Base.{
  ◌+◌, ◌≤◌, ◌≡◌, true, false, some, List, [], ◌∷◌, ◌++◌, Text, codes, length, pos, ℕ, get_elem?,
}

-- A file as a sender announces it in a line and cuts it into packets.
pub record Sending : Type 0 where
  pub line : Text
  pub announced : AsciiProtoFileinfo
  pub first : Text
  pub others : List Text

abbrev pub content_of : Sending → Text
content_of s = total (s.first ∷ s.others)

module _ (cb : CircularBuffer) (fl : Floats) (b : BoostText) where
  abbrev Receiver : Type 0
  Receiver = FileReceiver cb fl b

  -- The line fits a packet and the receiver's area, describes the file, and the packets bring as many
  -- bytes as it says.
  pub record IsSound (s : Sending) : Type 0 where
    pub fits : length s.line + 1 ≤ tcp_pack_size
    pub one_line : NoneOf newline s.line
    pub no_nul : NoneOf nul s.line
    pub describes : resolve fl b s.line ≡ some (fileinfo s.announced)
    pub packets : ArePackets cb fl b (s.first ∷ s.others)
    pub size : s.announced.filesize ≡ pos (length (content_of s))

  abbrev pub AreSound : List Sending → Type 0
  AreSound [] = Unit {0}
  AreSound (s ∷ ss) = IsSound s × AreSound ss

  -- The thread of the message queue takes the first message, if there is one.
  abbrev pub handle_first : List Message → Receiver → Run Receiver
  handle_first [] r = ok r
  handle_first (m ∷ ms) r = handler cb fl b m (record r { posted = ms })

  abbrev pub take_message : Receiver → Run Receiver
  take_message r = handle_first r.posted r

  -- The line arrives and is handled; the packets arrive, and their message is handled.
  unfoldable pub transfer : Sending → Receiver → Run Receiver
  transfer s r = do
    r1 ← network_read cb fl b 0 (s.line ++ b'\n' ∷ []) r
    r2 ← take_message r1
    r3 ← read_packets cb fl b (s.first ∷ s.others) r2
    take_message r3

  unfoldable pub session : List Sending → Receiver → Run Receiver
  unfolding transfer
  session [] r = ok r
  session (s ∷ ss) r = do r' ← transfer s r; session ss r'

  -- The receiver waits for the next line on a connection without the queue, and all is in order.
  pub record IsIdle (r : Receiver) : Type 0 where
    pub client : TcpClient cb
    pub slot : Slot
    pub more : List Slot
    pub connected : r.tcpptr ≡ some client
    pub registered : client.cbrcv ≡ slot ∷ more
    pub plain : client.usebuf ≡ false
    pub waits : r.state ≡ waiting
    pub sized : AllSized r.files
    pub ring : IsRing r.ring
    pub nothing : r.posted ≡ []
    pub runs : r.fwptr.running ≡ true
    pub below : AllBelow (length r.files) (held cb fl b r)
    pub room : tcp_pack_size ≤ length r.bufrcv

  -- The file of s has come in: its object k holds the announced names and the bytes sent, waits for the
  -- writer as the last, and what others hold is as it was.
  pub record IsReceived (s : Sending) (r r' : Receiver) : Type 0 where
    pub number : ℕ
    pub file : FileInfo
    pub content :
        get_elem? r'.files number
        ≡ some (record file { filedata = content_of s; rcvsize = length (content_of s) })
    pub names : file ≡ described cb fl b s.announced file
    pub queued : r'.fwptr ≡ record (r.fwptr) { quenf = r.fwptr.quenf ++ number ∷ [] }
    pub saving_same : r'.saving ≡ r.saving
    pub kept : Keeps cb fl b r r'
    pub told :
        r'.sent ≡ r.sent ++ (codes "filestat status=1\n") ∷ (codes "filestat status=2\n") ∷ []
