-- ===== src/Server.antt =====
-- The session manager and the UDP server: class SessionManager of src/sessionManager.cpp and class
-- UdpRelayServer of src/udpRelayServer.cpp, with the state that the two and the sessions share. A
-- session is named by its place in `sessions`, the heap of the sessions that were made; a session
-- that nothing refers to any more stays there. `pending` holds the operations that were started and
-- have not completed, oldest first.
mod Table
pub mod Map
pub mod Owned
pub mod Branches
pub mod Registry
pub mod Receive
pub mod Kept
pub mod Reach
pub mod Delivery
pub mod Echo
pub mod Downlink
pub mod Run
pub mod First
use ramses_proxy.Prelude.{
  ℕ, suc, ◌+◌, ◌%◌, ◌^◌, ◌<◌, Bool, true, false, not, ◌&&◌, ◌||◌, Option, none, some, List, [], ◌∷◌,
  ◌++◌, Bytes, map, ltb, ◌==◌, if◌then◌else◌, length, get_elem?, set, replicate, drop,
}
use ramses_proxy.Outcome.{Outcome, ok, thrown, fault, ◌>>=◌, defined, or_throw}
use ramses_proxy.Decimal.{atoi, in_int, to_unsigned}
use ramses_proxy.Memory.{read}
use ramses_proxy.Packet.{
  RouterPacket, copy_construct, get_peer_data, packet_data_length, build_packet, arrive,
}
use ramses_proxy.AdrTuple
use ramses_proxy.AdrTuple.{AddressApi, AdrTuple, udp, to_string}
use ramses_proxy.Common.{NetworkBuffer, construct_buffer, clear_buffer, split_addr}
use ramses_proxy.Params.{Params}
use ramses_proxy.Session
use ramses_proxy.Session.{Session, Action, Endpoint, add_router_packet, set_adr_tuple}
unfoldable pub use ramses_proxy.Server.Table.{SessionsMap, assign, find, erase}

module _ (api : AddressApi) where
  -- ip::udp::endpoint
  pub record UdpEndpoint : Type 0 where
    pub address : api.Address
    pub port : ℕ

  -- An operation that a session started, the receive of a datagram, a datagram to a UDP peer.
  pub data Pending : Type 0 where
    of_session : ℕ → Action api → Pending
    receive_from : Pending
    send_to : UdpEndpoint → Bytes → Pending

  pub record Server : Type 0 where
    pub params : Option Params
    pub sessions : List (Session api)
    pub udp_sessions : SessionsMap api
    pub tcp_queue : List RouterPacket
    pub recv_buffer : NetworkBuffer
    pub pending : List Pending

  -- UdpRelayServer(ioservice, params) with its SessionManager; `raw` is what the storage of the
  -- receive buffer held.
  unfoldable pub construct : Option Params → Bytes → Server
  construct params raw = record {
    params = params;
    sessions = [];
    udp_sessions = [];
    tcp_queue = [];
    recv_buffer = construct_buffer raw;
    pending = [];
  }

  -- add_session(spSession)
  unfoldable pub add_session : ℕ → AdrTuple api → Server → Server
  add_session i adr st = record st { udp_sessions = assign api adr i st.udp_sessions }

  -- remove_session(adrTuple)
  unfoldable pub remove_session : AdrTuple api → Server → Server
  remove_session adr st = record st { udp_sessions = erase api adr st.udp_sessions }

  -- What a method of session i did.
  abbrev pub update : ℕ → Session api × List (Action api) → Server → Server
  update i (s, started) st = record st {
    sessions = set st.sessions i s;
    pending = st.pending ++ map (of_session i) started;
  }

  -- handle_connection_failed(spSession)
  unfoldable pub handle_connection_failed : ℕ → Server → Outcome Server
  handle_connection_failed i st = do
    s ← defined (get_elem? st.sessions i)
    ok (remove_session s.udp_tuple st)

  -- tcp_queue_empty()
  abbrev pub tcp_queue_empty : Server → Bool
  tcp_queue_empty st = Session.is_empty st.tcp_queue

  -- peek_tcp_packet(); front of an empty deque is undefined
  peek : List RouterPacket → Outcome RouterPacket
  peek [] = fault
  peek (p ∷ rest) = ok p

  unfoldable pub peek_tcp_packet : Server → Outcome RouterPacket
  unfolding peek
  peek_tcp_packet st = peek st.tcp_queue

  pop : List RouterPacket → Outcome (List RouterPacket)
  pop [] = fault
  pop (p ∷ rest) = ok rest

  -- pop_tcp_packet()
  unfoldable pub pop_tcp_packet : Server → Outcome Server
  unfolding pop
  pop_tcp_packet st = do rest ← pop st.tcp_queue; ok (record st { tcp_queue = rest })

  -- The endpoint of a peer's text: split_addr into buffers of 32 and 8 bytes, from_string, which
  -- throws, and atoi's int as an unsigned short.
  unfoldable pub udp_peer : Bytes → Outcome UdpEndpoint
  udp_peer text = do
    (ip, port) ← defined (split_addr 32 8 text)
    address ← or_throw (api.from_string ip)
    let n = atoi port
    if in_int n then ok (record { address = address; port = to_unsigned 16 n }) else fault

  -- The send of a packet: its body is what stands in the packet's array when the send starts. The
  -- source hands over a pointer into that array; `send_to` holds these bytes in its place.
  unfoldable pub send_packet : RouterPacket → Bytes → Server → Outcome Server
  send_packet packet text st = do
    peer ← udp_peer text
    body ← defined (read packet.payload (8 + packet.peer_length) (packet_data_length packet))
    ok (record st { pending = st.pending ++ (send_to peer body ∷ []) })

  -- deliver_to_udp_peer()
  unfoldable pub deliver_to_udp_peer : Server → Outcome Server
  deliver_to_udp_peer st = if tcp_queue_empty st then ok st else (do
    packet ← peek_tcp_packet st
    (text, res) ← defined (get_peer_data [] 128 packet)
    if res then send_packet packet text st else pop_tcp_packet st)

  -- deliver_to_udp_peer(spSession), which SessionManager::deliver_to_udp_peer calls: it makes no use of
  -- the session, and its statements are those of deliver_to_udp_peer() but for the logs.
  unfoldable pub deliver_to_udp_peer_session : ℕ → Server → Outcome Server
  deliver_to_udp_peer_session i st = deliver_to_udp_peer st

  -- handle_deliver_to_udp_peer(error, nBytesSent)
  unfoldable pub handle_deliver_to_udp_peer : Bool → Server → Outcome Server
  handle_deliver_to_udp_peer error st =
      if error
      then ok st
      else if not (tcp_queue_empty st)
      then (do t ← pop_tcp_packet st; deliver_to_udp_peer t)
      else ok st

  -- add_tcp_packet(packet); its bWriteInProgress is true if the queue is empty
  unfoldable pub add_tcp_packet : Bytes → RouterPacket → Server → Outcome Server
  add_tcp_packet raw packet st = do
    copied ← defined (copy_construct raw packet)
    let write_in_progress = tcp_queue_empty st
    let t = record st { tcp_queue = st.tcp_queue ++ (copied ∷ []) }
    if not write_in_progress then deliver_to_udp_peer t else ok t

  -- The session of the map whose own address is adrTuple, by the loop over the map.
  unfoldable pub session_of :
      List (Session api) → SessionsMap api → AdrTuple api → Outcome (Option ℕ)
  session_of sessions [] adr = ok none
  session_of sessions ((key, i) ∷ rest) adr =
      let others = session_of sessions rest adr in
      do
        s ← defined (get_elem? sessions i)
        if AdrTuple.eq api s.udp_tuple adr then ok (some i) else others

  -- add_router_packet of session i
  unfoldable pub add_packet_to : ℕ → Bytes → RouterPacket → Server → Outcome Server
  add_packet_to i raw packet st = do
    s ← defined (get_elem? st.sessions i)
    result ← defined (add_router_packet api st.params raw packet s)
    ok (update i result st)

  -- new RouterSession, set_adr_tuple and add_session: the new session's place is the heap's end
  unfoldable pub create_session : AdrTuple api → Server → Server
  create_session adr st =
      add_session (length st.sessions) adr (record st {
        sessions = st.sessions ++ (set_adr_tuple api adr (Session.construct api) ∷ []);
      })

  pub dispatch : Option ℕ → AdrTuple api → Bytes → RouterPacket → Server → Outcome Server
  dispatch none adr raw packet st =
      add_packet_to (length st.sessions) raw packet (create_session adr st)
  dispatch (some i) adr raw packet st = add_packet_to i raw packet st

  -- deliver_from_udp_peer(adrTuple, recvBuffer, nBytesReceived)
  unfoldable pub deliver_from_udp_peer : AdrTuple api → Bytes → ℕ → Server → Outcome Server
  unfolding dispatch
  deliver_from_udp_peer adr raw n st = do
    found ← session_of st.sessions st.udp_sessions adr
    built ← defined (build_packet (to_string api adr) st.recv_buffer.bytes n)
    elim built [ none ↦ ok st | some packet ↦ dispatch found adr raw packet st ]

  -- What asio has done when the receive that start_receive() starts completes: the bytes of the
  -- datagram stand at the start of buffer(m_recvBuffer).
  abbrev pub store_datagram : Bytes → Server → Server
  store_datagram datagram st = record st {
    recv_buffer = record st.recv_buffer {
      bytes = datagram ++ drop (length datagram) st.recv_buffer.bytes;
    };
  }

  -- start_receive()
  unfoldable pub start_receive : Server → Server
  start_receive st = record st { pending = st.pending ++ (receive_from ∷ []) }

  -- handle_receive(error, nBytesReceived), for the endpoint that the receive has stored
  unfoldable pub handle_receive : UdpEndpoint → Bytes → Bool → ℕ → Server → Outcome Server
  handle_receive remote raw error n st =
      let adr = AdrTuple.construct_from api udp remote.address remote.port in
      do
        t ←
            if not error || ltb 0 n
            then (do
              t ← deliver_from_udp_peer adr raw n st
              ok (record t { recv_buffer = clear_buffer t.recv_buffer }))
            else ok (remove_session adr st)
        ok (start_receive t)

  -- add_tcp_packet, then SessionManager::deliver_to_udp_peer for session i
  unfoldable pub deliver : ℕ → Option RouterPacket → Bytes → Server → Outcome Server
  deliver i none raw st = ok st
  deliver i (some packet) raw st = do
    t ← add_tcp_packet raw packet st
    deliver_to_udp_peer_session i t

  -- handle_read_payload(error, nBytesLength) of session i, when `bytes` have come. The packet is
  -- handed over before the session starts its next read; the two touch no common state.
  unfoldable pub handle_read_payload : ℕ → Bytes → Bytes → Bool → Server → Outcome Server
  handle_read_payload i raw bytes error st = do
    s ← defined (get_elem? st.sessions i)
    packet ← defined (arrive 4 bytes s.from_tcp)
    (t, started, delivery) ←
        defined
          (Session.handle_read_payload api error (length bytes) (record s { from_tcp = packet }))
    delivered ← deliver i delivery raw st
    ok (update i (t, started) delivered)
