-- ===== src/Agent/System.antt =====
-- A receiver and the writer's thread at work together: a file is sent over the connection, or the thread has
-- its turn, in any order. A turn saves a file as a whole.
use ftserver.Run.{Run, ok, ◌>>=◌}
use ftserver.Writer.{FileSystem, WriterState}
use ftserver.Writer.Turns.{turn, IsGoing}
use ftserver.Tcp.Circular.{CircularBuffer}
use ftserver.Protocol.Boost.{BoostText}
use ftserver.Protocol.{Floats}
use ftserver.Receiver.Session.{Sending, transfer, IsIdle}
use ftserver.Receiver.Sequence.{AreHeld}
use ftserver.Receiver.{FileReceiver}
use ftserver.Agent.Sessions.{AreOnDisk}
use ftserver.Base.{◌<◌, ◌≡◌, true, List, [], ◌∷◌, Text}

-- What happens next: a file is sent over the connection, or the writer's thread has its turn.
pub data Act : Type 0 where
  sends : Sending → Act
  saves : Act

abbrev pub sent_by : List Act → List Sending
sent_by [] = []
sent_by (sends s ∷ acts) = s ∷ sent_by acts
sent_by (saves ∷ acts) = sent_by acts

-- A turn of the thread for each file.
abbrev pub turns : List Sending → List Act
turns [] = []
turns (_ ∷ ss) = saves ∷ turns ss

module _ (cb : CircularBuffer) (fl : Floats) (b : BoostText) (fs : FileSystem) where
  abbrev Receiver : Type 0
  Receiver = FileReceiver cb fl b

  -- The receiver and the thread, which share the writer.
  pub record System : Type 0 where
    pub receiver : Receiver
    pub thread : WriterState fs

  abbrev pub act : Act → System → Run System
  act (sends s) y = do
    r ← transfer cb fl b s y.receiver
    ok (record { receiver = r; thread = record (y.thread) { writer = r.fwptr } })
  act saves y = do
    w ← turn fs y.receiver.files y.thread
    ok (record { receiver = record (y.receiver) { fwptr = w.writer }; thread = w })

  unfoldable pub run_acts : List Act → System → Run System
  run_acts [] y = ok y
  run_acts (a ∷ acts) y = do y' ← act a y; run_acts acts y'

  -- The receiver waits for a line and the thread goes on without errors; the landed files are on the disk,
  -- and the queue has the queued ones.
  pub record IsOrderly (root : Text) (landed queued : List Sending) (y : System) : Type 0 where
    pub idle : IsIdle cb fl b y.receiver
    pub shared : y.thread.writer ≡ y.receiver.fwptr
    pub at_root : y.receiver.fwptr.path_root ≡ root
    pub holds : AreHeld cb fl b y.receiver.files queued y.receiver.fwptr.quenf
    pub good : y.thread.rslt ≡ true
    pub few : y.thread.errcnt < 5
    pub going : IsGoing fs y.receiver.files y.thread
    pub on_disk : AreOnDisk cb fl b fs root y.thread.disk landed
