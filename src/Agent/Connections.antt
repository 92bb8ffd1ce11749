-- ===== src/Agent/Connections.antt =====
-- src/TransferAgent.cpp, network_accept and thread_idle: the list of receivers.
use ftserver.Writer.{FileWritter}
use ftserver.Tcp.Circular.{CircularBuffer}
use ftserver.Tcp.{TcpClient, Slot, register_read}
use ftserver.Protocol.Boost.{BoostText}
use ftserver.Protocol.{Floats}
use ftserver.Receiver.{FileReceiver, make_filercv, couple_network}
use ftserver.Base.{Bool, some, List, [], ◌∷◌, ◌++◌, if◌then◌else◌}

module _ (cb : CircularBuffer) (fl : Floats) (b : BoostText) where
  abbrev Receiver : Type 0
  Receiver = FileReceiver cb fl b

  -- network_accept, with whether the receiver's message queue starts.
  unfoldable pub network_accept :
      Bool → Slot → FileWritter → TcpClient cb → List Receiver → List Receiver
  unfolding make_filercv couple_network
  network_accept starts slot w client rs =
      let (coupled, r) = couple_network cb fl b starts slot client (make_filercv cb fl b [] [] w) in
      if coupled then rs ++ r ∷ [] else rs

  -- The receiver of an accepted connection.
  abbrev pub coupled_receiver : Slot → FileWritter → TcpClient cb → Receiver
  coupled_receiver slot w client = record (make_filercv cb fl b [] [] w) {
    tcpptr = some (register_read cb slot client);
  }
