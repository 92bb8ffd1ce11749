-- ===== src/Tcp/Server.antt =====
-- src/tcpasio.cpp, class TCPServer: the listening socket, seen through its being open and through
-- the asynchronous accept that is outstanding on it.
use ftserver.Run.{Run, ok, fault, uncaught}
use ftserver.Tcp.Circular.{CircularBuffer}
use ftserver.Tcp.{TcpClient, Slot, start_read}
use ftserver.Base.{
  ℕ, ◌≡◌, refl, ap, ◌∙◌, Bool, true, false, Option, none, some, List, [], ◌∷◌, ◌==◌, if◌then◌else◌,
  arith,
}

pub record TcpServer : Type 0 where
  pub acceptor_open : Bool
  pub accepting : Bool
  pub cbaccept : List Slot

-- TCPServer()
unfoldable pub maketcp_server : TcpServer
maketcp_server = record { acceptor_open = false; accepting = false; cbaccept = [] }

-- RegisterAccespt: the slots that were connected are taken off first.
unfoldable pub register_accept : Slot → TcpServer → TcpServer
register_accept slot s = record s { cbaccept = slot ∷ [] }

unfoldable pub start_accept : TcpServer → TcpServer
start_accept s = if s.acceptor_open then record s { accepting = true } else s

-- CreateServer, with the error that one of the calls on the acceptor throws, if any. These throw a
-- system_error, which the handler for an error_code does not catch.
unfoldable pub create_server : Option ℕ → TcpServer → Run (ℕ × TcpServer)
unfolding start_accept
create_server none s = ok (0, start_accept (record s { acceptor_open = true }))
create_server (some ec) s = fault uncaught

-- ~TCPServer
unfoldable pub destroy_server : TcpServer → TcpServer
destroy_server s = if s.acceptor_open then record s { acceptor_open = false } else s

-- handle_accept(client, ec), first part: the slots that are called with the client.
unfoldable pub accept_calls : ℕ → TcpServer → List Slot
accept_calls ec s = if ec == 0 then s.cbaccept else []

-- handle_accept(client, ec), last part.
unfoldable pub handle_accept : ℕ → TcpServer → TcpServer
unfolding start_accept
handle_accept ec s = start_accept (record s { accepting = false })

module _ (cb : CircularBuffer) where
  -- start(): set_option, then the first read.
  unfoldable pub start : TcpClient cb → TcpClient cb
  start c = start_read cb c

  -- handle_accept(client, ec), between the two: `client->start()`.
  unfoldable pub accepted_client : ℕ → TcpClient cb → TcpClient cb
  unfolding start
  accepted_client ec c = if ec == 0 then start c else c

-- The server after a sequence of accepts, each with its error.
accept_all : List ℕ → TcpServer → TcpServer
accept_all [] s = s
accept_all (ec ∷ ecs) s = accept_all ecs (handle_accept ec s)

accept_all-open :
    (ecs : List ℕ) (s : TcpServer)
    → s.acceptor_open ≡ true
    → s.accepting ≡ true
    → accept_all ecs s ≡ s
unfolding accept_all handle_accept
accept_all-open [] s o a = refl
accept_all-open (ec ∷ ecs) s o a =
    let same : handle_accept ec s ≡ s = ground arith in rw same (accept_all-open ecs s o a)

-- A closed acceptor accepts no more: an accept that still ends is the last one.
handle_accept-destroy_server :
    (ec : ℕ) (s : TcpServer) → (handle_accept ec (destroy_server s)).accepting ≡ false
unfolding handle_accept start_accept destroy_server
handle_accept-destroy_server ec s = ground arith

-- The server that CreateServer has opened for a slot.
abbrev listening : Slot → TcpServer
listening slot = record { acceptor_open = true; accepting = true; cbaccept = slot ∷ [] }

-- A server that CreateServer has opened always has an accept outstanding and the same slot to call,
-- after any number of accepts, whether they fail or not.
create_server-accept_all :
    (ecs : List ℕ) (slot : Slot) (s : TcpServer)
    → create_server none (register_accept slot maketcp_server) ≡ ok (0, s)
    → ((accept_all ecs s).accepting ≡ true) × ((accept_all ecs s).cbaccept ≡ slot ∷ [])
unfolding create_server register_accept maketcp_server
create_server-accept_all ecs slot s e =
    let opened : s ≡ listening slot = cc in
    let all : accept_all ecs s ≡ listening slot =
      ap (accept_all ecs) opened ∙ accept_all-open ecs (listening slot) refl refl in
    (ap (λ t. t.accepting) all, ap (λ t. t.cbaccept) all)
