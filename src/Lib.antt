-- ===== src/Lib.antt =====
-- ftserver receives image files over TCP and stores them: a camera computer announces a file in
-- one line of text, is told that it may send, sends the bytes, and is told how it went; the file
-- is queued for a thread that writes it to the disk and registers it in a data base.
--
-- The parts, with the code they model:
--   Tcp        class TCPClient of src/tcpasio.h and src/tcpasio.cpp: the receive queue or single
--              area (Lookup, Read, handle_read), the send queue (Write, handle_write, start_write)
--              and the registered slots. Tcp/Circular has boost::circular_buffer as an interface,
--              Tcp/Server class TCPServer, Tcp/Connecting the side that connects, Tcp/Failing the
--              send queue after an error.
--   Protocol   src/AsciiProtocolBase.h, src/AsciiProtocol.h and src/AsciiProtocol.cpp: the
--              messages (Protocol/Messages), Compact… and Resolve. Protocol/Output is
--              output_compacted with its ring of ten areas of 1024 bytes; Protocol/Numbers the C
--              library's decimal numbers; Protocol/Boost the interface of boost::algorithm and
--              boost::format.
--   Files      struct FileInfo of src/FileWritter.h.
--   Writer     class FileWritter of src/FileWritter.h and src/FileWritter.cpp, its thread as
--              passes of the loop of thread_monitor. Writer/Order lets receivers and the agent act
--              between the passes, Writer/Drain follows the passes over a whole queue, and Writer/Turns
--              one turn of the thread wherever it stands.
--   Receiver   src/FileReceiver.h and src/FileReceiver.cpp: the read callback network_receive and
--              the handlers of the three messages, on file objects in a store, where use_count is
--              counted from the pointers that the writer and a save in progress hold.
--              Receiver/Announce, Receiver/Delivery and Receiver/EndToEnd follow one file from its
--              line to its report, and Receiver/Stored on to the disk; Receiver/Session and
--              Receiver/Sequence follow file after file over one connection;
--              Receiver/Ownership and Receiver/Shared are about the store.
--   Transfer   class DataTransfer of src/DataTransfer.h and src/DataTransfer.cpp: the form that is
--              posted to the data base's web server, and what is reported of it.
--              Transfer/Registering is its use by save_first; Transfer/Memory counts what it
--              allocates and frees.
--   MessageQueue   src/MessageQueue.h and src/MessageQueue.cpp. The receiver has its messages
--              in the order of posting.
--   Config     struct param_config of src/parameter.h, on what boost::property_tree shows of a file.
--   NtpClient  src/NTPClient.h and src/NTPClient.cpp: the request, the reading of an answer, and
--              the thread as rounds of its loop.
--   Agent      src/TransferAgent.cpp: the choice of the disk and the clearing of old data, on the
--              storage settings of src/parameter.h; Agent/Service starts and stops the service
--              (what it leaves is in Agent/Starting), Agent/Connections accepts, Agent/Clearing has
--              the directories;
--              Agent/FirstFile follows a connection from its accept to its first file's storage,
--              and Agent/Sessions over all files that are sent; in Agent/System and
--              Agent/Interleaving the writer's thread has its turns between the files.
--   Log        src/GLog.h and src/GLog.cpp: what is written to which file of the log.
--   Daemon     src/daemon.cpp and src/ftserver.cpp: becoming a daemon, the pid file, and main.
--              Daemon/Single has several processes one after another; Daemon/IoService is
--              src/IOServiceKeep.h and src/IOServiceKeep.cpp.
--   Run        results of code that may do what C++ leaves undefined.
--   Base       numbers, lists and texts as lists of bytes; Tests has instances and runs.
--
-- How they interact: the socket's read handler calls network_receive, which reads the packet from
-- the connection into the file object, or posts a message; the handlers take a line from the
-- connection, parse it, and answer through the output areas; a complete file goes to the writer by
-- number, so that the object stays shared until it is stored. main runs the agent's service, which
-- owns the writer and the server that accepts the connections.
--
-- Numbers: `int` values of the protocol are integers with atoi's result taken to 32 bits; sizes
-- and positions are natural numbers where the code never lets them be negative. decimal runs on
-- fuel above the number it prints, and look_from on the number of positions to try, which is what
-- the loop's test allows; both are enough for every call.
--
-- Parameters: the circular buffer, the text functions of boost, `float` with atof, `double` with
-- its arithmetic, the translators between a settings file's text and values, the file system, the
-- free space of a path, when io_service::run returns, the message_queue of
-- boost::interprocess, the outcome of a request to libcurl, and
-- whether F_SETLK grants a lock. The circular buffer, the texts, the translators, the file system,
-- io_service::run and the message_queue are records of operations with the documented laws that the code relies on;
-- `float` and `double` are assumed to have no law. What a socket transfers, and whether a system
-- call succeeds, arrives as an argument. A file that opens is written in full.
--
-- Not modelled: the log lines that the other parts write, and syslog; locks and interleavings
-- inside one call (each handler, callback and pass of a thread is one step); socket errors of
-- the synchronous write_some; overflow of sums of sizes beyond 32 bits; the bound of the
-- message queue; the size of the status area that a caller of uploadDatas gives, but for the one of
-- save_first; the text of error
-- messages; the text of XML files; errors of the file system other than file_size's while old
-- data is cleared; the waiting of the destructors for their threads.
pub mod Base
pub mod Run
pub mod Tcp
pub mod Protocol
pub mod Files
pub mod Writer
pub mod Receiver
pub mod MessageQueue
pub mod Transfer
pub mod Config
pub mod NtpClient
pub mod Log
pub mod Daemon
pub mod Agent
pub mod Tests
