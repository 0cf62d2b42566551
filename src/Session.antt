-- ===== src/Session.antt =====
-- The router session between a UDP peer and the F1 server: class RouterSession of
-- inc/routerSession.h and src/routerSession.cpp. handle_read_payload hands its packet to the session
-- session manager's queue (module Server). A method returns the new session and the asynchronous
-- operations that it starts; their completions call the handlers. `none` is undefined behaviour.
pub mod Stream
pub mod Pending
pub mod Handlers
pub mod Order
pub mod Peer
pub mod Progress
pub mod Works
pub mod Completions
pub mod Sending
pub mod Connecting
pub mod Payload
use ramses_proxy.Prelude.{
  ℕ, ◌+◌, Bool, true, false, not, ◌&&◌, Option, none, some, List, [], ◌∷◌, ◌++◌, Bytes, ltb, leb,
  ◌==◌, if◌then◌else◌, length, ◌>>=◌,
}
use ramses_proxy.Decimal.{decimal}
use ramses_proxy.Packet
use ramses_proxy.Packet.{
  RouterPacket, copy_construct, frame, decode_header, decode_peer, build_packet,
}
use ramses_proxy.AdrTuple
use ramses_proxy.AdrTuple.{AddressApi, AdrTuple, to_string}
use ramses_proxy.Common.{NetworkBuffer}
use ramses_proxy.Params.{Params, get_f1_port, get_f1_server_adr}

-- empty()
abbrev pub is_empty {ℓ} : {A : Type ℓ} → List A → Bool
is_empty [] = true
is_empty (x ∷ xs) = false

module _ (api : AddressApi) where
  -- ip::tcp::endpoint
  pub record Endpoint : Type 0 where
    pub address : api.Address
    pub port : ℕ

  -- ip::tcp::resolver::iterator: the endpoints that are left, none at the end.
  abbrev pub Endpoints : Type 0
  Endpoints = List Endpoint

  -- async_resolve(host, service); async_connect(endpoint), whose handler is bound with the iterator;
  -- async_read of the header and of n bytes of payload; async_write of a frame; the post of
  -- SessionManager::handle_connection_failed.
  pub data Action : Type 0 where
    resolve : Bytes → Bytes → Action
    connect : Endpoint → Endpoints → Action
    read_header : Action
    read_payload : ℕ → Action
    write : Bytes → Action
    post_failed : Action

  pub record Session : Type 0 where
    pub udp_tuple : AdrTuple api
    pub is_open : Bool
    pub queue : List RouterPacket
    pub from_tcp : RouterPacket
    pub connecting : Bool

  abbrev pub Result : Type 0
  Result = Option (Session × List Action)

  -- RouterSession(ioservice, pSessionManager)
  unfoldable pub construct : Session
  construct = record {
    udp_tuple = AdrTuple.construct api;
    is_open = false;
    queue = [];
    from_tcp = Packet.construct;
    connecting = false;
  }

  -- set_adr_tuple(adrTuple)
  unfoldable pub set_adr_tuple : AdrTuple api → Session → Session
  set_adr_tuple adr s = record s { udp_tuple = adr }

  -- start(), where `params` is what locking the weak pointer gives.
  unfoldable pub start : Option Params → Session → Result
  start none s = none
  start (some p) s = some (s, resolve (get_f1_server_adr p) (decimal (get_f1_port p)) ∷ [])

  -- close_session()
  unfoldable pub close_session : Session → Result
  close_session s = some (s, post_failed ∷ [])

  -- start_read_from_tcp()
  unfoldable pub start_read_from_tcp : Session → Result
  start_read_from_tcp s = some (s, read_header ∷ [])

  write_front : List RouterPacket → Session → Result
  write_front [] s = some (s, [])
  write_front (p ∷ rest) s = do bytes ← frame p; some (s, write bytes ∷ [])

  -- deliver_to_tcp_peer()
  unfoldable pub deliver_to_tcp_peer : Option Params → Session → Result
  unfolding write_front
  deliver_to_tcp_peer params s = if s.is_open then write_front s.queue s else start params s

  -- add_router_packet(udpPacket); `raw` is what the storage of the queue's new element held.
  unfoldable pub add_router_packet : Option Params → Bytes → RouterPacket → Session → Result
  add_router_packet params raw packet s = do
    copied ← copy_construct raw packet
    let t = record s { queue = s.queue ++ (copied ∷ []) }
    if is_empty s.queue then deliver_to_tcp_peer params t else some (t, [])

  -- set_udp_buffer(udpBuffer, nSize)
  unfoldable pub set_udp_buffer : Option Params → Bytes → NetworkBuffer → ℕ → Session → Result
  set_udp_buffer params raw buffer n s = do
    built ← build_packet (to_string api s.udp_tuple) buffer.bytes n
    elim built [ none ↦ some (s, []) | some packet ↦ add_router_packet params raw packet s ]

  -- m_socket.async_connect, which opens the socket
  abbrev connect_to : Endpoint → Endpoints → Session → Result
  connect_to e rest s = some (record s { is_open = true }, connect e rest ∷ [])

  -- start_tcp_connection(endpoint_iter), which reads the endpoint before it tests the iterator
  unfoldable pub start_tcp_connection : Endpoints → Session → Result
  start_tcp_connection [] s = none
  start_tcp_connection (e ∷ rest) s = connect_to e (e ∷ rest) s

  -- m_socket.close(), then the next endpoint; at the end of the list the session is given up
  retry : Endpoints → Session → Result
  unfolding close_session
  retry [] s = close_session s
  retry (e ∷ rest) s = connect_to e rest (record s { is_open = false })

  -- handle_connection(error, endpoint_iterator)
  unfoldable pub handle_connection : Option Params → Bool → Endpoints → Session → Result
  unfolding retry
  handle_connection params error endpoints s =
      if not error && s.is_open
      then (do
        (t, started) ← deliver_to_tcp_peer params s
        (u, reading) ← start_read_from_tcp t
        some (u, started ++ reading))
      else retry endpoints s

  resolved : Endpoints → Session → Result
  resolved [] s = none
  resolved (e ∷ rest) s = connect_to e rest s

  -- handle_resolve(error, endpoint_iterator), which reads the endpoint of a success unasked
  unfoldable pub handle_resolve : Bool → Endpoints → Session → Result
  unfolding retry resolved
  handle_resolve error endpoints s = if error then retry endpoints s else resolved endpoints s

  accept_header : Bool → Session → Result
  unfolding close_session
  accept_header true s = some (s, read_payload s.from_tcp.payload_length ∷ [])
  accept_header false s = close_session s

  -- handle_read_header(error, nBytesLength)
  unfoldable pub handle_read_header : Bool → ℕ → Session → Result
  unfolding accept_header
  handle_read_header error n s =
      if n == 0
      then close_session s
      else if not error
      then (do
        (packet, res) ← decode_header s.from_tcp
        accept_header res (record s { from_tcp = packet }))
      else close_session s

  deliver_rest : Option Params → List RouterPacket → Session → Result
  deliver_rest params [] s = none
  deliver_rest params (p ∷ rest) s =
      let t = record s { queue = rest } in
      if not (is_empty rest) then deliver_to_tcp_peer params t else some (t, [])

  -- handle_deliver_tcp(error); pop_front of an empty deque is undefined
  unfoldable pub handle_deliver_tcp : Option Params → Bool → Session → Result
  unfolding deliver_rest
  handle_deliver_tcp params error s =
      if not error then deliver_rest params s.queue s else close_session s

  -- What handle_read_payload leaves to the session manager: the packet for add_tcp_packet and
  -- deliver_to_udp_peer, if there is one.
  abbrev pub PayloadResult : Type 0
  PayloadResult = Option (Session × List Action × Option RouterPacket)

  -- The first test of handle_read_payload, which does not return.
  abbrev pub empty_read : ℕ → List Action
  empty_read n = if n == 0 then post_failed ∷ [] else []

  accept_payload : RouterPacket → Bool → Session → PayloadResult
  accept_payload packet true s =
      some (record s { from_tcp = Packet.clear }, read_header ∷ [], some packet)
  accept_payload packet false s = some (record s { from_tcp = Packet.clear }, [], none)

  -- handle_read_payload(error, nBytesLength)
  unfoldable pub handle_read_payload : Bool → ℕ → Session → PayloadResult
  unfolding accept_payload
  handle_read_payload error n s =
      if not error
      then (if n == 0
          then some (record s { from_tcp = Packet.clear }, empty_read n, none)
          else (do (packet, res) ← decode_peer s.from_tcp; accept_payload packet res s))
      else some (s, empty_read n ++ (post_failed ∷ []), none)
