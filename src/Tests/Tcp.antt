-- ===== src/Tests/Tcp.antt =====
-- Runs of a connection's buffers.

use ftserver.Tcp.{
  handle_connect, maketcp_client, TcpClient, handle_read, handle_write, lookup, read, write,
}
use ftserver.Tcp.Search.{IsFirst, lookup-IsFirst}
use ftserver.Tcp.Buffers.{IsValid, received, received-handle_read, read-received}
use ftserver.Tcp.Sending.{
  IsSending, Written, write-Written, SendEvent, written, sent, SendLog, IsFaithful, send_run,
  send_run-IsFaithful,
}
use ftserver.Tcp.Failing.{IsStuck, write_all, write_all-handle_write_error}
use ftserver.Run.{Ensures}
use ftserver.Tcp.Connecting.{
  Use, connects, writes, closes, tried, after_all, async_connect, after_all-async_connect,
}
use ftserver.Tests.Library.{bounded_queue}
use ftserver.Base.{
  false, ◌-◌, ◌≡◌, refl, true, none, some, List, [], ◌∷◌, codes, pos, length, take, drop, replicate,
  arith,
}

abbrev Client : Type 0
Client = TcpClient bounded_queue

-- A queue of 15000 bytes that holds "abc" and then a newline.
abbrev queueing : Client
queueing = record {
  sock_open = true;
  cbconn = [];
  cbrcv = 1 ∷ [];
  cbsnd = [];
  usebuf = true;
  bytercv = 0;
  bufrcv = replicate 1500 0;
  crcrcv = (codes "abc\n", 15000);
  crcsnd = ([], 15000);
  reading = true;
  writing = none;
}

abbrev sending : Client
sending = record queueing { crcsnd = (codes "filestat", 15000); writing = some (codes "file") }

queueing-IsValid : IsValid bounded_queue queueing
queueing-IsValid = record { area = refl; within = omega arith; queue = λ e. refl }

queueing-IsSending : IsSending bounded_queue queueing
queueing-IsSending = record { buffered = refl; flight = refl }

sending-IsSending : IsSending bounded_queue sending
sending-IsSending = record { buffered = refl; flight = (omega arith, (codes "stat", refl)) }

lookup-IsFirst_example :
    IsFirst bounded_queue queueing
      (codes "\n")
      1
      (lookup bounded_queue (some (codes "\n")) (pos 1) (pos 1) queueing)
lookup-IsFirst_example = lookup-IsFirst bounded_queue queueing (codes "\n") 1 (omega arith)

received-handle_read_example :
    let c' = (handle_read bounded_queue 0 (codes "more") queueing).0 in
    IsValid bounded_queue c'
    × (received bounded_queue c' ≡ drop (length (codes "abc\nmore") - 15000) (codes "abc\nmore"))
unfolding received
received-handle_read_example =
    received-handle_read bounded_queue (codes "more") queueing queueing-IsValid (omega arith)

read-received_example :
    let (out, c') = read bounded_queue (pos 2) (pos 1) queueing in
    (out ≡ take 2 (drop 1 (received bounded_queue queueing)))
    × (received bounded_queue c' ≡ drop (length out) (received bounded_queue queueing))
read-received_example = read-received bounded_queue 2 1 queueing (omega arith)

write-Written_example :
    Written bounded_queue
      (codes "status")
      queueing
      (write bounded_queue length (codes "status") queueing)
write-Written_example =
    write-Written bounded_queue length (codes "status") queueing queueing-IsSending

abbrev two_events : List (SendEvent bounded_queue)
two_events = sent 3 ∷ written (codes "now") ∷ []

abbrev begun : SendLog bounded_queue
begun = record { client = sending; accepted = codes "a filestat"; delivered = codes "a " }

send_run-IsFaithful_example : IsFaithful bounded_queue (send_run bounded_queue two_events begun)
send_run-IsFaithful_example =
    send_run-IsFaithful bounded_queue two_events begun
      (record { sending = sending-IsSending; in_order = refl }) (omega arith, (tt, tt))

write_all-handle_write_error_example :
    IsStuck bounded_queue
      (write_all bounded_queue (codes "next" ∷ []) (handle_write bounded_queue 104 0 sending).0)
write_all-handle_write_error_example =
    write_all-handle_write_error bounded_queue 104 0 (codes "next" ∷ []) sending (omega arith)
      sending-IsSending (omega arith)

-- A client that connects and writes.
abbrev three_uses : List (Use bounded_queue)
three_uses = connects (tried 0) ∷ writes length (codes "hello") ∷ closes ∷ []

after_all-async_connect_example :
    Ensures
      (λ c.
        (c.reading ≡ false)
        × Ensures
            (λ c'. (handle_connect bounded_queue 0 c').0.reading ≡ true)
            (async_connect bounded_queue (tried 0) c))
      (after_all bounded_queue three_uses (maketcp_client bounded_queue))
after_all-async_connect_example = after_all-async_connect bounded_queue three_uses
