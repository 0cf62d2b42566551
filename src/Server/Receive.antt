-- ===== src/Server/Receive.antt =====
-- What a datagram of a UDP peer does.
use ramses_proxy.Prelude.{
  ℕ, ◌+◌, ◌≤◌, ◌<◌, ◌≡◌, refl, ◌∙◌, ap, false, leb, Option, none, some, List, [], ◌∷◌, ◌++◌, Bytes,
  length, get_elem?, set, get_elem?-append_end, set-append_end, arith, Bool-cases, Option-cases,
  inl, inr, append-nil,
}
use ramses_proxy.Outcome.{Outcome, ok, thrown, fault, ◌>>=◌}
use ramses_proxy.Decimal.{decimal}
use ramses_proxy.Packet.{copy_length, RouterPacket, copy_construct, frame}
use ramses_proxy.Packet.Layout.{built, build_packet_layout}
use ramses_proxy.Packet.Bounds.{build_packet_overflow}
use ramses_proxy.Packet.Copying.{copy_construct-frame, copy_construct_overflow, built-IsWhole}
use ramses_proxy.AdrTuple
use ramses_proxy.AdrTuple.{AddressApi, AdrTuple, udp, to_string}
use ramses_proxy.Common.{clear_buffer}
use ramses_proxy.Params.{Params}
use ramses_proxy.Session
use ramses_proxy.Session.{
  Session, Action, resolve, add_router_packet, deliver_to_tcp_peer, start, set_adr_tuple,
}
use ramses_proxy.Server.{
  Server, UdpEndpoint, of_session, receive_from, assign, find, session_of, add_session,
  add_packet_to, create_session, dispatch, deliver_from_udp_peer, start_receive, handle_receive,
}
use ramses_proxy.Server.Registry.{IsRegistered, session_of-find}

module _ (api : AddressApi) (remote : UdpEndpoint api) (raw : Bytes) (n : ℕ) (st : Server api)
    (v : IsRegistered api st) (wr : length raw ≡ 1032) (h : n ≤ length st.recv_buffer.bytes) where
  -- The peer's address, its text and the packet that is built.
  abbrev adr : AdrTuple api
  adr = AdrTuple.construct_from api udp remote.address remote.port

  abbrev text : Bytes
  text = to_string api adr

  abbrev packet : RouterPacket
  packet = built text st.recv_buffer.bytes n

  -- The relay waits for the next datagram, with a cleared buffer.
  abbrev pub listening : Server api → Server api
  listening t = record t {
    recv_buffer = clear_buffer t.recv_buffer;
    pending = t.pending ++ (receive_from ∷ []);
  }

  abbrev then_listening : Outcome (Server api) → Outcome (Server api)
  then_listening r = do t ← r; ok (listening t)

  found :
      (o : Option ℕ)
      → find api adr st.udp_sessions ≡ o
      → session_of api st.sessions st.udp_sessions adr ≡ ok o
  found o e = session_of-find api st.sessions st.udp_sessions adr v.sorted v.owned ∙ ap ok e

  -- With a packet that can be built, the handler dispatches it.
  dispatches :
      length text + n ≤ 1024
      → (o : Option ℕ) → find api adr st.udp_sessions ≡ o
      → handle_receive api remote raw false n st ≡ then_listening (dispatch api o adr raw packet st)
  unfolding handle_receive deliver_from_udp_peer start_receive
  dispatches fits o e =
      rw (found o e, build_packet_layout text st.recv_buffer.bytes n h fits)
        (go (dispatch api o adr raw packet st))
    where
      go :
          (r : Outcome (Server api))
          → (do
            t ← (do t ← r; ok (record t { recv_buffer = clear_buffer t.recv_buffer }))
            ok (start_receive api t))
            ≡ then_listening r
      go (ok t) = refl
      go thrown = refl
      go fault = refl

  copy_of_packet :
      length text + n ≤ 1020
      → (c : RouterPacket) × (copy_construct raw packet ≡ some c) × (frame c ≡ frame packet)
  copy_of_packet fits =
      let whole = built-IsWhole text st.recv_buffer.bytes n h (omega arith) in
      let (c, e, same, _, _, _) =
        copy_construct-frame raw packet wr whole (unfold built in omega arith)
          (unfold built in omega arith) in
      (c, e, same)

  abbrev new_session : Session api
  new_session = set_adr_tuple api adr (Session.construct api)

  new_adds :
      (p : Params) (c : RouterPacket) (ps : Option Params)
      → ps ≡ some p
      → copy_construct raw packet ≡ some c
      → add_router_packet api ps raw packet new_session
        ≡ some (record new_session { queue = c ∷ [] }, resolve p.f1_adr (decimal p.f1_port) ∷ [])
  unfolding add_router_packet set_adr_tuple Session.construct deliver_to_tcp_peer start
  new_adds p c ps ep e = rw (e, ep)

  known_adds :
      (s : Session api) (q : RouterPacket) (rest : List RouterPacket) (c : RouterPacket)
      → s.queue ≡ q ∷ rest
      → copy_construct raw packet ≡ some c
      → add_router_packet api st.params raw packet s
        ≡ some (record s { queue = q ∷ (rest ++ (c ∷ [])) }, [])
  unfolding add_router_packet
  known_adds s q rest c eq e = rw (e, eq)

  overflow_adds :
      1032 < copy_length packet
      → (i : ℕ) (t : Server api) → add_packet_to api i raw packet t ≡ fault
  unfolding add_packet_to add_router_packet
  overflow_adds over i t = elim (Option-cases (get_elem? t.sessions i)) [
    | inl e ↦ rw e
    | inr (s, e) ↦
        rw e (rw (copy_construct_overflow raw packet wr (unfold built in omega arith) over))
  ]

  -- In a state whose map is in step with its sessions and whose parameters are there, a datagram of at
  -- most 1020 bytes with its peer's text, of a peer that the map does not know, makes a session for it
  -- at the end of the heap, with a copy of the packet, of the same frame, alone in its queue; the
  -- session resolves the F1 server's name, and the relay receives again into a cleared buffer.
  pub handle_receive_new :
      (p : Params)
      → st.params ≡ some p
      → length text + n ≤ 1020
      → find api adr st.udp_sessions ≡ none
      → (c : RouterPacket) × (frame c ≡ frame packet)
        × (handle_receive api remote raw false n st
            ≡ ok (
                listening (record st {
                  sessions = st.sessions ++ (record new_session { queue = c ∷ [] } ∷ []);
                  udp_sessions = assign api adr (length st.sessions) st.udp_sessions;
                  pending =
                      st.pending
                      ++ (of_session (length st.sessions) (resolve p.f1_adr (decimal p.f1_port))
                          ∷ []);
                })))
  unfolding dispatch add_packet_to create_session add_session
  handle_receive_new p ep fits unknown =
      let (c, e, same) = copy_of_packet fits in
      (
        c,
        same,
        dispatches (omega arith) none unknown
            ∙ rw (get_elem?-append_end st.sessions new_session)
                (rw (new_adds p c st.params ep e) (rw set-append_end)),
      )

  -- In a state whose map is in step with its sessions, a datagram of at most 1020 bytes with its peer's
  -- text, of a peer whose session has packets in its queue, goes as a copy of the packet, of the same
  -- frame, to the end of that queue, and starts nothing but the next receive into a cleared buffer.
  pub handle_receive_known :
      (i : ℕ) (s : Session api) (q : RouterPacket) (rest : List RouterPacket)
      → length text + n ≤ 1020
      → find api adr st.udp_sessions ≡ some i
      → get_elem? st.sessions i ≡ some s
      → s.queue ≡ q ∷ rest
      → (c : RouterPacket) × (frame c ≡ frame packet)
        × (handle_receive api remote raw false n st
            ≡ ok (
                listening (record st {
                  sessions = set st.sessions i (record s { queue = q ∷ (rest ++ (c ∷ [])) });
                })))
  unfolding dispatch add_packet_to
  handle_receive_known i s q rest fits known es eq =
      let (c, e, same) = copy_of_packet fits in
      (
        c,
        same,
        dispatches (omega arith) (some i) known
            ∙ rw es (rw (known_adds s q rest c eq e) (rw append-nil)),
      )

  -- In a state whose map is in step with its sessions, the receive of a datagram that takes, with its
  -- peer's text, more than 1020 bytes is undefined behaviour, whether the peer is known or not.
  pub handle_receive_overflow :
      1020 < length text + n → handle_receive api remote raw false n st ≡ fault
  unfolding handle_receive deliver_from_udp_peer
  handle_receive_overflow over = elim (Bool-cases (leb (length text + n) 1024)) [
    | inl small ↦
        dispatches (ground arith) (find api adr st.udp_sessions) refl
        ∙ go (ground arith) (find api adr st.udp_sessions)
    | inr big ↦
        rw (found _ refl, build_packet_overflow text st.recv_buffer.bytes n h (ground arith))
  ]
    where
      go :
          length text + n ≤ 1024
          → (o : Option ℕ) → then_listening (dispatch api o adr raw packet st) ≡ fault
      go small none =
          unfold dispatch in
          rw (
            overflow_adds (unfold built in omega arith) (length st.sessions)
              (create_session api adr st))
      go small (some i) = unfold dispatch in rw (overflow_adds (unfold built in omega arith) i st)
