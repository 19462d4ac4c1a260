-- ===== src/Lib.antt =====
-- TFTPServer: a TFTP server (RFC 1350, with option acknowledgements) over UDP.
--
-- The program's parts. A program makes a `TftpServer` with a root directory and a port, sets it up
-- and calls `Start`, which opens the socket, makes a thread pool and starts `ServerLoop`; that loop submits
-- each datagram to the pool. A worker of the pool runs `HandleClient` for each first datagram:
-- it reads the datagram with `TftpPacket::Deserialize`, tests the file name with `IsPathSecure` and
-- runs `HandleReadRequest` or `HandleWriteRequest`, which exchange packets with the client through
-- `SendPacket`, `ReceivePacket` and `SendError`, and read or store the file through callbacks.
--
-- The files.
--   Prelude, Prelude/*       names of the libraries, lists and bytes over native numbers, searches
--   Common                   include/tftp/tftp_common.h: constants, OpCode, ErrorCode, TransferMode
--   Options, Options/*       the `std::unordered_map` of options of include/tftp/tftp_packet.h
--   Packet                   include/tftp/tftp_packet.h: the members, the factories, the accessors
--   Packet/Strings           src/tftp_packet.cpp: read_string_validated, mode_to_string, string_to_mode
--   Packet/Writer            src/tftp_packet.cpp: TftpPacket::Serialize
--   Packet/Reader            src/tftp_packet.cpp: TftpPacket::Deserialize
--   Packet/{Header,Limits,ReadBack,RoundTrip,Accepted}  theorems on both
--   Server, Server/Io        src/internal/tftp_server_impl.cpp: SendPacket, ReceivePacket, SendError
--   Server/Numbers           `std::stoi` and `std::stoull` as the server uses them
--   Server/Download          src/internal/tftp_server_impl.cpp: HandleReadRequest
--   Server/Upload            src/internal/tftp_server_impl.cpp: HandleWriteRequest
--   Server/Client            src/internal/tftp_server_impl.cpp: HandleClient
--   Server/Settings          src/tftp_server.cpp: the setters of the numbers and of the secure mode
--   Server/Facade, Facade/*  src/tftp_server.cpp: the constructor, all setters, and their effect
--   Server/Lifecycle/*       src/internal/tftp_server_impl.cpp: Start, Stop, IsRunning, ServerLoop
--   Server/Shutdown/*        src/internal/tftp_server_impl.cpp: Stop and ServerLoop at the same time
--   Server/Files             src/internal/tftp_server_impl.cpp: the default callbacks
--   Server/Session           an upload and a later download with the default callbacks
--   ThreadPool, ThreadPool/* src/internal/tftp_thread_pool.cpp and .h: workers, Submit, Shutdown
--   Logger, Logger/Filtered  src/tftp_logger.cpp and include/tftp/tftp_logger.h: TftpLogger
--   Client, Client/Refusing  src/tftp_client.cpp: TftpClient
--   System                   the calls of the operating system that are logged and counted
--   Socket, Socket/*         src/tftp_socket.cpp and src/internal/tftp_socket_impl_unix.cpp
--   Socket/Windows/*         src/internal/tftp_socket_impl_win32.cpp, and the two beside each other
--   Socket/Library           src/tftp_socket.cpp: SocketLibraryGuard
--   Path                     src/tftp_util.cpp: IsPathSecure, NormalizePath
--   Validation               src/tftp_validation.cpp: the checks of parameters
--   Tests, Tests/*           runs at concrete inputs
--
-- State and operations. A packet is a record of the members of `TftpPacket`; `Deserialize` is a
-- function from the object before to the object after and the result, so that what a failure leaves
-- behind is part of it. The server's handlers pass a `World`: how many calls of `sendto` and how many
-- waits for a packet there were, and the trace of what was done. An exception is the result `thrown`.
-- The thread pool is a step relation: each worker stands at one place of its function, and the callers of
-- `Submit` and `Shutdown` are steps of their own, so that every interleaving of the code between two uses
-- of the mutex, the flag or the condition variable is a sequence of steps. Its parameter `may_wake` says
-- whether a wait may end without a notification. `Start`, `Stop` and the operations of a socket log
-- their calls of the operating system, the last call first; a program with several sockets is again a
-- step relation. `Server/Shutdown` puts `Stop`, `ServerLoop` and the pool together: a state holds the members
-- of the server, the places of the two functions and the whole state of the pool, and each step of the pool is
-- a step of the server. Its parameter `network` says whether `recvfrom` may return from its wait.
--
-- Parameters. `Net` is the operating system: the result of the n-th `sendto`, and what the n-th wait
-- (`select` and `recvfrom`) brings. `HashOrder` is the order in which a hash map is walked, any
-- permutation. The callbacks are the user's and do not throw; the default callbacks have a file system
-- `Files` of their own. `FileSystem` is what
-- `std::filesystem::absolute`, `weakly_canonical` and `relative` answer, exceptions included: a constant
-- function, which answers the same throughout a run, so that a link that is put into the root directory between
-- the test of a path and its use is outside the model; the
-- branches of a build for Windows are left out of src/tftp_util.cpp. Whether the socket of a client can
-- be made and bound is a parameter of `handle_client`. The results of `socket`, `setsockopt`, `bind` and
-- the other calls on a socket are arguments of the operation that makes them; `Platform` holds the
-- conversions of byte order and of the text of an address.
--
-- Bounds and fuel. Sizes are natural numbers, and `uint16_t` block numbers wrap modulo 65536; the sum
-- of the announced size and a block wraps modulo 2^64, as in a `size_t`. `timeout_secs * 1000` is not
-- wrapped: the setter limits the timeout to 3600 seconds. The loop of a download has a round for each
-- full block of the file and one more; that of an upload has one for each full block that
-- `max_transfer_size_` leaves room for and one more: by then the handler has ended, whatever the
-- network does.
--
-- Not modelled: the calls of the operating system (input and output only); the macros of the logger; what
-- `recvfrom` writes to the caller's buffer in the socket wrapper; the functions that only read a member of the
-- pool; the calls of WSAStartup and WSACleanup in the build of the
-- server for Windows; the programs under examples and the tests; a `Start` in one thread
-- while another calls `Stop`. In `Server/Lifecycle`, `Shutdown` and `join` are taken to return; in
-- `Server/Shutdown` they are not.
pub mod Prelude
pub mod Common
pub mod Options
pub mod Packet
pub mod Server
pub mod System
pub mod Path
pub mod Validation
pub mod ThreadPool
pub mod Socket
pub mod Client
pub mod Logger
mod Tests
