-- ===== src/Server/First.antt =====
-- The first datagram of a peer on its way to the F1 server.
use ramses_proxy.Prelude.{
  ℕ, ◌+◌, ◌≤◌, ◌≡◌, refl, ◌∙◌, false, none, some, [], ◌∷◌, ◌++◌, Bytes, length, get_elem?,
  get_elem?-append_end, append_assoc, arith,
}
use ramses_proxy.Outcome.{ok}
use ramses_proxy.Decimal.{decimal}
use ramses_proxy.Packet.{RouterPacket, frame, build_packet}
use ramses_proxy.Packet.Layout.{built, build_packet_layout}
use ramses_proxy.Packet.RoundTrip.{frame-built}
use ramses_proxy.Packet.RoundTrip.Steps.{wire}
use ramses_proxy.AdrTuple
use ramses_proxy.AdrTuple.{AddressApi, AdrTuple, udp, to_string}
use ramses_proxy.Params.{Params}
use ramses_proxy.Session.{
  Session, Endpoint, Endpoints, resolve, connect, write, read_header, handle_resolve,
  handle_connection, handle_deliver_tcp,
}
use ramses_proxy.Session.Sending.{sends_first}
use ramses_proxy.Server.{Server, UdpEndpoint, of_session, receive_from, find, handle_receive}
use ramses_proxy.Server.Registry.{IsRegistered}
use ramses_proxy.Server.Receive.{handle_receive_new}

module _ (api : AddressApi) where
  -- The first datagram of a peer. In a state whose map is in step with its sessions and whose parameters
  -- are there, a datagram of n bytes, of a peer that the map does not know, which take with the peer's
  -- text 1020 bytes at most, makes a session that resolves the F1 server's name, and the next receive,
  -- and starts nothing else. When the name resolves to one endpoint or more, the session connects to the
  -- first; when the connect succeeds, it writes the frame that build_packet makes of the datagram, and
  -- reads a header; when the write completes, its queue is empty, and it starts nothing.
  pub first_datagram_written :
      (remote : UdpEndpoint api) (raw : Bytes) (n : ℕ) (st : Server api) (p : Params)
      (e : Endpoint api) (es : Endpoints api)
      → IsRegistered api st
      → length raw ≡ 1032
      → n ≤ length st.recv_buffer.bytes
      → st.params ≡ some p
      → length (to_string api (AdrTuple.construct_from api udp remote.address remote.port)) + n
        ≤ 1020
      → find api (AdrTuple.construct_from api udp remote.address remote.port) st.udp_sessions ≡ none
      → (b : RouterPacket) × (w : Bytes) × (t : Server api) × (s u v : Session api) × (build_packet
            (to_string api (AdrTuple.construct_from api udp remote.address remote.port))
            st.recv_buffer.bytes
            n
          ≡ some (some b))
        × (frame b ≡ some w)
        × (handle_receive api remote raw false n st ≡ ok t)
        × (t.pending
            ≡ st.pending
              ++ (of_session (length st.sessions) (resolve p.f1_adr (decimal p.f1_port))
                  ∷ (receive_from ∷ [])))
        × (get_elem? t.sessions (length st.sessions) ≡ some s)
        × (handle_resolve api false (e ∷ es) s ≡ some (u, connect e es ∷ []))
        × (handle_connection api t.params false es u ≡ some (v, write w ∷ (read_header ∷ [])))
        × (handle_deliver_tcp api t.params false v ≡ some (record v { queue = [] }, []))
  first_datagram_written remote raw n st p e es reg wr h ep fits unknown =
      let text = to_string api (AdrTuple.construct_from api udp remote.address remote.port) in
      let small : length text + n + 4 ≤ 1024 = omega arith in
      let (c, same, received) = handle_receive_new api remote raw n st reg wr h p ep fits unknown in
      let whole = frame-built text st.recv_buffer.bytes n h small in
      let (u, v, resolves, connects, delivers) =
        sends_first api st.params _ c _ e es refl (same ∙ whole) in
      (
        built text st.recv_buffer.bytes n,
        wire text st.recv_buffer.bytes n h small,
        _,
        _,
        u,
        v,
        build_packet_layout text st.recv_buffer.bytes n h (omega arith),
        whole,
        received,
        append_assoc st.pending _ (receive_from ∷ []),
        get_elem?-append_end st.sessions _,
        resolves,
        connects,
        delivers,
      )
