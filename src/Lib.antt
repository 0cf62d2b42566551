-- ===== src/Lib.antt =====
-- ramses_proxy, the raRt relay: a UDP server takes the datagrams of its peers and relays each, in a
-- frame with the peer's address, over a TCP session of that peer to the F1 server; what the F1 server
-- sends back on the session goes as a datagram to the peer that the frame names.
--
-- The parts, with the files that model them:
-- - Packet: the frame, class RouterPacket of inc/routerSession.h. Its array of 1032 bytes is a list;
--   an access outside of it is the result `none`. build_packet is the common part of
--   SessionManager::deliver_from_udp_peer and RouterSession::set_udp_buffer, receive_frame the reads
--   of RouterSession for one frame. Packet/Layout and Packet/RoundTrip are about what a frame holds,
--   Packet/Fields about its length fields, Packet/RoundTrip/Steps about its two reads, Packet/Peer about
--   the number that decode_peer reads, Packet/Bounds and Packet/Copying about the accesses to the
--   array.
-- - AdrTuple: the peer's address, src/adrTuple.cpp; boost's ip::address is the parameter AddressApi.
--   AdrTuple/Order is about the comparisons, AdrTuple/Text about the texts.
-- - Common: split_addr (src/common.cpp), makeHex (src/util.cpp), NetworkBuffer (inc/common.h).
-- - Params: src/paramsManager.cpp. boost's config_file_iterator is an argument of load. When load fails
--   it gives what it hands to syslog, and Daemon and Main make the call. Params/Saved is about load
--   and save, Params/Path about the path that load opens.
-- - Session: class RouterSession, src/routerSession.cpp. A handler takes the session's state to the
--   new state and the asynchronous operations that it starts. Session/Stream makes a step relation of
--   the handlers, in which the pending operations complete in any order; Session/Handlers,
--   Session/Pending and Session/Completions are about the single steps, Session/Order about the
--   reachable states, Session/Payload about a payload that came, Session/Works and Session/Progress
--   about the work on the queue, Session/Connecting about connects that fail; Session/Order/Channel
--   has the abstract view of a session, a channel of frames.
-- - Server: classes SessionManager (src/sessionManager.cpp) and UdpRelayServer
--   (src/udpRelayServer.cpp), which share one state here: the sessions, the std::map of them as a
--   list in the order of its keys, the queue of packets for the UDP peers, the receive buffer and the
--   operations that are pending. Server/Table has that map, Server/Map is about it, Server/Owned and
--   Server/Registry about the map and the sessions, Server/Receive about the datagrams that come,
--   Server/Delivery about those that are sent, Server/Echo about a frame on its way through a
--   session. Server/Downlink makes a step relation of the handlers that touch the queue for the UDP
--   peers, with Server/Downlink/Queue and Server/Downlink/Order about the order of the sends and
--   Server/Downlink/Loss about a packet that cannot be addressed. Server/Reach makes a step relation
--   of all handlers of the relay; Session/Peer and Server/Kept are about its single steps. Server/Run
--   makes one of the relay at work, in which only pending operations complete, and each once;
--   Server/Run/Linked, Quiet, Completing, Reading, Uplink, Dispatching, Sending and Handing are about
--   its single steps; Server/Run/Sessions, Receiving, Peers, Smooth and Stalling about the reachable
--   states. A receive of these relations stores its datagram in the receive buffer, and then its
--   handler runs. Server/Branches has the rules with which what holds at a handler's end follows from what
--   holds on each branch of it. Server/First is about the first datagram of
--   a peer, with Session/Sending.
-- - Log: src/rartlog.cpp, with zlog as a parameter. CommandLine, Signals, Daemon and Main:
--   src/main.cpp on a system that is not Windows; what the process gets from outside (the parsed
--   command line, the files, fork, setsid, zlog, whether the port is free) is an argument. Process has
--   what the process does outside, a list of effects in their order, and how it ends: it goes on, it
--   exits, or it is undefined; the run of the io_service from a server on is one effect, `serve`.
--   Process/Holds has the rules for a property of all effects and of the end, with which
--   CommandLine/Holds, Daemon/Holds and Main/Ends go through every branch; CommandLine/Reads,
--   Daemon/Goes and Main/Start are about the branches on which nothing fails, Main/Overflow about paths
--   that are too long.
-- - Tcp: src/tcpRelayServer.cpp, which main does not start; an accept that completes without an
--   error opens the socket of its session. Tcp/Accept is about its accepts. TcpSession:
--   src/tcpSession.cpp, which is empty.
-- - Syslog: SyslogTemporary and SYS_LOG of inc/common.h; a call of syslog is a value.
-- - Memory and Decimal: memcpy, strncat, strcpy, atoi and sprintf, as the C library documents them.
--   Outcome: how a handler ends, with exceptions and undefined behaviour told apart.
-- - Prelude: names and lemmas that the files share. Examples: concrete inputs and tests.
--
-- Integers: uint32_t lengths are natural numbers with their wrap-around written out (% 2 ^ 32),
-- atoi's result is an integer that must be in the range of int, and its conversions wrap. A char is a
-- number. A loop of the source is a recursion on the list that it walks, and needs no fuel; the run
-- of failing connects in Session/Connecting has fuel, and two more than the endpoints left are
-- enough.
--
-- The two threads of the process never touch the state together: all handlers run in the one thread
-- of the io_service, so that a handler is one step. A shared object has one owner here: a session is
-- a place of the server's list of sessions, and the map and the pending operations name that place.
--
-- Not modelled: the logs of the relay at work, the log_error of a load that fails, before zlog is
-- initialised or of a reload, the time in the file of events, zlog and inc/logging.h
-- (copies of libraries); usage() of src/main.cpp, a fixed text that nothing prints.
pub mod Prelude
pub mod Memory
pub mod Decimal
pub mod Packet
pub mod Common
pub mod AdrTuple
pub mod Params
pub mod Outcome
pub mod Session
pub mod Server
pub mod CommandLine
pub mod Daemon
pub mod Log
pub mod Main
pub mod Process
pub mod Signals
pub mod Syslog
pub mod Tcp
pub mod TcpSession
pub mod Examples
