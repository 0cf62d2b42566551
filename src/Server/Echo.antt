-- ===== src/Server/Echo.antt =====
-- A frame of the F1 server on its way through a session to the UDP peer.
use ramses_proxy.Prelude.{
  ℕ, ◌+◌, ◌≤◌, ◌<◌, ◌≡◌, refl, false, some, [], ◌∷◌, ◌++◌, Bytes, length, take, drop, get_elem?,
  set, get_elem?-set_self, append_assoc, ◌==◌, arith,
}
use ramses_proxy.Outcome.{ok}
use ramses_proxy.Packet
use ramses_proxy.Packet.{
  RouterPacket, IsWhole, arrive, frame, build_packet, decode_header, decode_peer, copy_construct,
}
use ramses_proxy.Packet.Layout.{built, build_packet_layout}
use ramses_proxy.Packet.RoundTrip.{frame-built}
use ramses_proxy.Packet.RoundTrip.Steps.{
  Comes, received-Comes, wire, wire_long, copy_construct-received,
}
use ramses_proxy.AdrTuple.{AddressApi, AdrTuple, to_string}
use ramses_proxy.AdrTuple.Text.{IsV4Text}
use ramses_proxy.Session
use ramses_proxy.Session.{Session, Action, read_header, read_payload}
use ramses_proxy.Server.{Server, UdpEndpoint, send_to, of_session, handle_read_payload}
use ramses_proxy.Server.Delivery.{IsFor, echoed-IsFor, deliver_first}

module _ (api : AddressApi) where
  -- The header of a frame that comes to session s: the session asks for the rest.
  header-Comes :
      (w : Bytes) (s : Session api) (q : RouterPacket) (c : Comes w s.from_tcp q)
      → Session.handle_read_header api false 4 (record s { from_tcp = c.header })
        ≡ some (record s { from_tcp = c.sized }, read_payload (length (drop 4 w)) ∷ [])
  unfolding Session.handle_read_header
  header-Comes w s q c = rw (c.header_decoded, c.asked)

  -- The rest of the frame: the session hands the packet on and reads the next header.
  payload-Comes :
      (w : Bytes) (s : Session api) (q : RouterPacket) (c : Comes w s.from_tcp q)
      → 0 < length (drop 4 w)
      → Session.handle_read_payload api false
          (length (drop 4 w))
          (record s { from_tcp = c.payload })
        ≡ some (record s { from_tcp = Packet.clear }, read_header ∷ [], some q)
  unfolding Session.handle_read_payload
  payload-Comes w s q c some_bytes =
      let came : (length (drop 4 w) == 0) ≡ false = ground arith in rw (came, c.peer_decoded)

  -- The state after the header's handler of session i.
  abbrev pub reading : ℕ → Session api → Server api → Server api
  reading i s st = record st { sessions = set st.sessions i s }

  -- A frame whose packet and whose packet's copy are for the endpoint e goes through session i.
  handle_read_payload-Comes :
      (i : ℕ) (w raw : Bytes) (st : Server api) (s : Session api) (q d : RouterPacket)
      (e : UdpEndpoint api) (b : Bytes) (c : Comes w s.from_tcp q)
      → 0 < length (drop 4 w)
      → get_elem? st.sessions i ≡ some s
      → st.tcp_queue ≡ []
      → copy_construct raw q ≡ some d
      → IsFor api e b d
      → (t : Server api) × (handle_read_payload api i raw
            (drop 4 w)
            false
            (reading i (record s { from_tcp = c.sized }) st)
          ≡ ok t)
        × (t.tcp_queue ≡ d ∷ [])
        × (t.pending ≡ st.pending ++ (send_to e b ∷ (of_session i read_header ∷ [])))
  unfolding handle_read_payload
  handle_read_payload-Comes i w raw st s q d e b c some_bytes at empty copied f = (
    record st {
      sessions =
          set (set st.sessions i (record s { from_tcp = c.sized })) i
            (record s { from_tcp = Packet.clear });
      tcp_queue = d ∷ [];
      pending = (st.pending ++ (send_to e b ∷ [])) ++ (of_session i read_header ∷ []);
    },
    rw (get_elem?-set_self st.sessions i (record s { from_tcp = c.sized }) s at) (
        rw (c.payload_read) (
          rw (payload-Comes w s q c some_bytes) (
            rw (
              deliver_first api i (reading i (record s { from_tcp = c.sized }) st) raw q d e b empty
                copied f)))),
    refl,
    append_assoc st.pending (send_to e b ∷ []) (of_session i read_header ∷ []),
  )

-- The echo through a session. A datagram of n bytes of an IPv4 peer, whose text takes with it 1020
-- bytes at most, is built into a packet p with the frame w. When the F1 server sends w back to a
-- session i that waits for a header, with no packet in the queue for the UDP peers: the first four
-- bytes make the session ask for exactly the others; these make the relay, whatever the session's
-- packet and the queue's storage held before, start the send of the datagram's bytes to the peer's
-- address and port, and then the read of the next header, and nothing else.
pub echo_through_session :
    (api : AddressApi) (a : AdrTuple api) (buffer : Bytes) (n : ℕ) (st : Server api) (i : ℕ)
    (s : Session api) (raw : Bytes)
    → IsV4Text (api.text a.adr)
    → a.port < 65536
    → n ≤ length buffer
    → length (to_string api a) + n + 4 ≤ 1024
    → get_elem? st.sessions i ≡ some s
    → IsWhole s.from_tcp
    → st.tcp_queue ≡ []
    → length raw ≡ 1032
    → (p : RouterPacket) × (w : Bytes) × (header : RouterPacket) × (u : Session api) × (t : Server
        api)
      × (build_packet (to_string api a) buffer n ≡ some (some p))
      × (frame p ≡ some w)
      × (arrive 0 (take 4 w) s.from_tcp ≡ some header)
      × (Session.handle_read_header api false 4 (record s { from_tcp = header })
          ≡ some (u, read_payload (length (drop 4 w)) ∷ []))
      × (handle_read_payload api i raw
            (drop 4 w)
            false
            (record st { sessions = set st.sessions i u })
          ≡ ok t)
      × (t.pending
          ≡ st.pending
            ++ (send_to (record { address = a.adr; port = a.port }) (take n buffer)
                ∷ (of_session i read_header ∷ [])))
echo_through_session api a buffer n st i s raw v4 port h k at whole empty wr =
    let text = to_string api a in
    let w = wire text buffer n h k in
    let comes = received-Comes text buffer n h k s.from_tcp whole in
    let (r', whole', copied) = copy_construct-received text buffer n h k raw s.from_tcp wr whole in
    let (t, runs, queued, pending) =
      handle_read_payload-Comes api i w raw st s _ _ _ _ comes (wire_long text buffer n h k) at
        empty copied (echoed-IsFor api a v4 port buffer n h k r' whole') in
    (
      built text buffer n,
      w,
      comes.header,
      record s { from_tcp = comes.sized },
      t,
      build_packet_layout text buffer n h (omega arith),
      frame-built text buffer n h k,
      comes.header_read,
      header-Comes api w s _ comes,
      runs,
      pending,
    )
