-- ===== src/Server/Delivery.antt =====
-- The way of the F1 server's packets to the UDP peers.
use ramses_proxy.Prelude.{
  ℕ, ◌+◌, ◌%◌, ◌^◌, ◌≤◌, ◌<◌, ◌≡◌, refl, true, false, ltb, some, List, [], ◌∷◌, ◌++◌, Bytes, length,
  take, arith,
}
use ramses_proxy.Outcome.{ok, fault}
use ramses_proxy.Memory.{read}
use ramses_proxy.Decimal.{in_int, to_unsigned}
use ramses_proxy.Packet.{
  RouterPacket, IsWhole, copy_construct, frame, build_packet, receive_frame, get_peer_data,
  packet_data_length,
}
use ramses_proxy.Packet.Layout.{built, build_packet_layout}
use ramses_proxy.Packet.RoundTrip.{frame-built, received, frame_comes, peer_text, body-read}
use ramses_proxy.Common.Split.{NoColon, split_addr_overflow}
use ramses_proxy.AdrTuple.{AddressApi, AdrTuple, to_string}
use ramses_proxy.AdrTuple.Text.{IsV4Text, to_string_bounds, split_addr-to_string}
use ramses_proxy.Server.{
  Server, send_to, UdpEndpoint, udp_peer, send_packet, deliver_to_udp_peer,
  deliver_to_udp_peer_session, handle_deliver_to_udp_peer, add_tcp_packet, peek_tcp_packet,
  pop_tcp_packet, deliver,
}

module _ (api : AddressApi) where
  -- The packet is sent to the endpoint e with the bytes b.
  pub record IsFor (e : UdpEndpoint api) (b : Bytes) (p : RouterPacket) : Type 0 where
    pub text : Bytes
    pub has_text : get_peer_data [] 128 p ≡ some (text, true)
    pub has_peer : udp_peer api text ≡ ok e
    pub has_body : read p.payload (8 + p.peer_length) (packet_data_length p) ≡ some b

  -- A send is started.
  abbrev pub sending : UdpEndpoint api → Bytes → Server api → Server api
  sending e b st = record st { pending = st.pending ++ (send_to e b ∷ []) }

  -- The front of the queue is sent, and stays in the queue.
  pub deliver_to_udp_peer-IsFor :
      (st : Server api) (p : RouterPacket) (rest : List RouterPacket) (e : UdpEndpoint api)
      (b : Bytes)
      → st.tcp_queue ≡ p ∷ rest
      → IsFor e b p
      → deliver_to_udp_peer api st ≡ ok (sending e b st)
  unfolding deliver_to_udp_peer peek_tcp_packet send_packet
  deliver_to_udp_peer-IsFor st p rest e b eq f = rw (eq, f.has_text) (rw (f.has_peer, f.has_body))

  -- The send of the only packet completes: the queue is empty.
  pub handle_deliver_to_udp_peer_last :
      (st : Server api) (p : RouterPacket)
      → st.tcp_queue ≡ p ∷ []
      → handle_deliver_to_udp_peer api false st ≡ ok (record st { tcp_queue = [] })
  unfolding handle_deliver_to_udp_peer pop_tcp_packet deliver_to_udp_peer
  handle_deliver_to_udp_peer_last st p eq = rw eq

  -- When a send completes and another packet waits, which decodes to an endpoint and a body, the front
  -- leaves the queue and the send of that next packet is started.
  pub handle_deliver_to_udp_peer_next :
      (st : Server api) (p q : RouterPacket) (rest : List RouterPacket) (e : UdpEndpoint api)
      (b : Bytes)
      → st.tcp_queue ≡ p ∷ (q ∷ rest)
      → IsFor e b q
      → handle_deliver_to_udp_peer api false st
        ≡ ok (sending e b (record st { tcp_queue = q ∷ rest }))
  unfolding handle_deliver_to_udp_peer pop_tcp_packet
  handle_deliver_to_udp_peer_next st p q rest e b eq f =
      rw eq (deliver_to_udp_peer-IsFor (record st { tcp_queue = q ∷ rest }) q rest e b refl f)

  -- A packet that comes while the queue is empty is queued and sent.
  pub deliver_first :
      (i : ℕ) (st : Server api) (raw : Bytes) (c d : RouterPacket) (e : UdpEndpoint api) (b : Bytes)
      → st.tcp_queue ≡ []
      → copy_construct raw c ≡ some d
      → IsFor e b d
      → deliver api i (some c) raw st ≡ ok (sending e b (record st { tcp_queue = d ∷ [] }))
  unfolding deliver add_tcp_packet deliver_to_udp_peer_session
  deliver_first i st raw c d e b eq copied f =
      rw (copied, eq) (deliver_to_udp_peer-IsFor (record st { tcp_queue = d ∷ [] }) d [] e b refl f)

  -- A packet that comes, and can be copied, while another, which decodes to an endpoint and a body, is
  -- at the front of the queue goes to the end of the queue; two more sends of that front are started,
  -- and none of the new packet.
  pub deliver_again :
      (i : ℕ) (st : Server api) (raw : Bytes) (c d p : RouterPacket) (rest : List RouterPacket)
      (e : UdpEndpoint api) (b : Bytes)
      → st.tcp_queue ≡ p ∷ rest
      → copy_construct raw c ≡ some d
      → IsFor e b p
      → deliver api i (some c) raw st
        ≡ ok (sending e b (sending e b (record st { tcp_queue = p ∷ (rest ++ (d ∷ [])) })))
  unfolding deliver add_tcp_packet deliver_to_udp_peer_session
  deliver_again i st raw c d p rest e b eq copied f =
      rw (copied, eq)
        (rw
          (deliver_to_udp_peer-IsFor (record st { tcp_queue = p ∷ (rest ++ (d ∷ [])) }) p
            (rest ++ (d ∷ [])) e b refl f)
          (deliver_to_udp_peer-IsFor
            (sending e b (record st { tcp_queue = p ∷ (rest ++ (d ∷ [])) })) p (rest ++ (d ∷ [])) e
            b refl f))

  -- A peer's text with no colon and of 32 bytes or more, which get_peer_data gives up to 127 bytes of,
  -- overruns the buffer that split_addr copies it into.
  pub udp_peer_overflow :
      (text : Bytes) → NoColon text → 32 ≤ length text → udp_peer api text ≡ fault
  unfolding udp_peer
  udp_peer_overflow text h k = rw (split_addr_overflow 32 8 text h k)

  -- The text of an IPv4 peer gives back its endpoint.
  pub udp_peer-to_string :
      (a : AdrTuple api)
      → IsV4Text (api.text a.adr)
      → a.port < 65536
      → udp_peer api (to_string api a) ≡ ok (record { address = a.adr; port = a.port })
  unfolding udp_peer in_int to_unsigned
  udp_peer-to_string a v4 port =
      let (split, address, number) = split_addr-to_string api a v4 port in
      let fits : ltb a.port (2 ^ 31) ≡ true = ground arith in
      let wraps : a.port % 2 ^ 16 ≡ a.port = omega arith in
      rw (split, address, number) (rw (fits, wraps))

  module _ (a : AdrTuple api) (v4 : IsV4Text (api.text a.adr)) (port : a.port < 65536)
      (buffer : Bytes) (n : ℕ) (h : n ≤ length buffer) (k : length (to_string api a) + n + 4 ≤ 1024)
      (r : RouterPacket) (whole : IsWhole r) where
    abbrev echoed : RouterPacket
    echoed = received (to_string api a) buffer n h k r

    -- What the F1 server's copy of a frame decodes to is for the peer that sent the datagram.
    pub echoed-IsFor : IsFor (record { address = a.adr; port = a.port }) (take n buffer) echoed
    echoed-IsFor =
        let bounds = to_string_bounds api a v4 port in
        record {
          text = to_string api a;
          has_text =
              peer_text (to_string api a) buffer n h k r whole bounds.2 bounds.0
                (omega (arith, bounds.1));
          has_peer = udp_peer-to_string a v4 port;
          has_body = body-read (to_string api a) buffer n h k r whole;
        }

-- The echo. A datagram of n bytes of an IPv4 peer, whose text takes with it 1020 bytes at most, is
-- built into a packet p with the frame w. When the F1 server sends w back, the relay decodes it,
-- whatever its packet r held before, to a packet q; and in any state with q at the front of the queue
-- it starts one send, to the peer's address and port, of the datagram's bytes.
pub echo :
    (api : AddressApi) (a : AdrTuple api) (buffer : Bytes) (n : ℕ) (r : RouterPacket)
    (st : Server api) (rest : List RouterPacket)
    → IsV4Text (api.text a.adr)
    → a.port < 65536
    → n ≤ length buffer
    → length (to_string api a) + n + 4 ≤ 1024
    → IsWhole r
    → (p : RouterPacket) × (w : Bytes) × (q : RouterPacket) × (build_packet
          (to_string api a)
          buffer
          n
        ≡ some (some p))
      × (frame p ≡ some w)
      × (receive_frame w r ≡ some (q, true))
      × (deliver_to_udp_peer api (record st { tcp_queue = q ∷ rest })
          ≡ ok (record st {
            tcp_queue = q ∷ rest;
            pending =
                st.pending
                ++ (send_to (record { address = a.adr; port = a.port }) (take n buffer) ∷ []);
          }))
echo api a buffer n r st rest v4 port h k whole =
    let text = to_string api a in
    (
      built text buffer n,
      _,
      received text buffer n h k r,
      build_packet_layout text buffer n h (omega arith),
      frame-built text buffer n h k,
      frame_comes text buffer n h k r whole,
      deliver_to_udp_peer-IsFor api (record st { tcp_queue = received text buffer n h k r ∷ rest })
          (received text buffer n h k r) rest _ _ refl
          (echoed-IsFor api a v4 port buffer n h k r whole),
    )
