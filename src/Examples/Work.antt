-- ===== src/Examples/Work.antt =====
-- A relay at work that has received the peer's two datagrams.
use ramses_proxy.Server.Registry.{IsRegistered}
use ramses_proxy.Server.Run.Dispatching.{AllFrom}
use ramses_proxy.Server.Run.Peers.{Reach-Peers}
use ramses_proxy.Prelude.{◌++◌}
use ramses_proxy.Prelude.{◌≤◌, ◌≡◌, refl, false, some, [], ◌∷◌, length-replicate, arith}
use ramses_proxy.Outcome.{ok}
use ramses_proxy.Decimal.{decimal}
use ramses_proxy.AdrTuple.{construct_from, less, to_string}
use ramses_proxy.Common.{construct_buffer}
use ramses_proxy.Packet.{RouterPacket}
use ramses_proxy.Session
use ramses_proxy.Session.{
  Session, Endpoint, set_adr_tuple, resolve, connect, write, read_header, handle_resolve,
  handle_connection, handle_deliver_tcp,
}
use ramses_proxy.Packet.{frame, build_packet}
use ramses_proxy.Prelude.{Bytes, get_elem?}
use ramses_proxy.Server.{of_session, handle_receive}
use ramses_proxy.Server.First.{first_datagram_written}
use ramses_proxy.Session.Stream.{busy, WritesFront}
use ramses_proxy.Server
use ramses_proxy.Server.{Server, receive_from, find, start_receive}
use ramses_proxy.Server.Receive.{handle_receive_new}
use ramses_proxy.Server.Run.{own, receives, Reach, here, next, received}
use ramses_proxy.Server.Run.Linked.{Runs}
use ramses_proxy.Server.Run.Sessions.{Reach-Runs, Reach-single}
use ramses_proxy.Server.Run.Receiving.{Reach-Receives}
use ramses_proxy.Prelude.{map, length, ℕ, replicate}
use ramses_proxy.Packet.Layout.{built}
use ramses_proxy.Common.{clear_buffer}
use ramses_proxy.Server.{store_datagram, assign}
use ramses_proxy.Server.Receive.{handle_receive_known}
use ramses_proxy.Server.Run.{history}
use ramses_proxy.Examples.{numbers, peer, greeting, raw, params}
use ramses_proxy.Examples.Relay.{remote, buffer, length-buffer, waiting, waiting-IsRegistered}

-- Another datagram of five bytes.
abbrev answer : Bytes
answer = b'w' ∷ b'o' ∷ b'r' ∷ b'l' ∷ b'd' ∷ []

-- The relay when the packet c of the first datagram waits in the peer's session, and the second
-- datagram has been stored.
abbrev between : RouterPacket → Server numbers
between c = store_datagram numbers answer (record waiting {
  sessions =
      record (set_adr_tuple numbers peer (Session.construct numbers)) { queue = c ∷ [] } ∷ [];
  udp_sessions = (peer, 0) ∷ [];
  recv_buffer = clear_buffer waiting.recv_buffer;
  pending = of_session 0 (resolve params.f1_adr (decimal params.f1_port)) ∷ [];
})

between-IsRegistered : (c : RouterPacket) → IsRegistered numbers (between c)
unfolding set_adr_tuple
between-IsRegistered c = record { sorted = (tt, tt); owned = ((_, refl, refl), tt) }

length-between : (c : RouterPacket) → length (between c).recv_buffer.bytes ≡ 1024
unfolding clear_buffer replicate
length-between c = omega (arith, length-replicate {A = ℕ} 1019 0)

-- The state with the two datagrams, whose one session has the packets c and d; d has the second.
arrived :
    (c : RouterPacket) × (d : RouterPacket) × (st : Server numbers) × Reach numbers
      (start_receive numbers (Server.construct numbers (some params) buffer))
      st
    × (st.sessions
        ≡ record (set_adr_tuple numbers peer (Session.construct numbers)) { queue = c ∷ (d ∷ []) }
          ∷ [])
    × (frame d ≡ frame (built (to_string numbers peer) (between c).recv_buffer.bytes 5))
unfolding construct_from find assign less to_string decimal Server.construct construct_buffer
    start_receive
arrived =
    let (c, same, runs) =
      handle_receive_new numbers remote raw 5 waiting waiting-IsRegistered (length-replicate 1032 7)
        (omega (arith, length-buffer)) params refl (omega arith) refl in
    let (d, same', runs') =
      handle_receive_known numbers remote raw 5 (between c) (between-IsRegistered c)
        (length-replicate 1032 7) (omega (arith, length-between c)) 0 _ c [] (omega arith) refl refl
        refl in
    (
      c,
      d,
      _,
      next (of_session 0 (resolve params.f1_adr (decimal params.f1_port)) ∷ []) [] receive_from
          (next [] [] receive_from here refl (
            received remote raw greeting false (length-replicate 1032 7)
              (omega (arith, length-buffer)) runs))
          refl
          (received remote raw answer false (length-replicate 1032 7)
            (unfold clear_buffer in omega (arith, length-replicate {A = ℕ} 1024 0)) runs'),
      refl,
      same',
    )

abbrev serving : Session numbers
serving = record (set_adr_tuple numbers peer (Session.construct numbers)) {
  queue = arrived.0 ∷ (arrived.1 ∷ []);
}

Reach-Runs_example :
    Runs numbers
      (some params)
      serving
      (own numbers 0 (arrived.2).pending)
      (history numbers arrived.3 0)
Reach-Runs_example = Reach-Runs numbers (some params) buffer 0 serving arrived.3 (rw (arrived.4))

Reach-single_example :
    ((history numbers arrived.3 0).1 ++ map frame serving.queue ≡ (history numbers arrived.3 0).0)
    × (busy numbers (own numbers 0 (arrived.2).pending) ≤ 1)
    × (serving.queue ≡ [] → busy numbers (own numbers 0 (arrived.2).pending) ≡ 0)
    × WritesFront numbers serving.queue (own numbers 0 (arrived.2).pending)
Reach-single_example =
    Reach-single numbers (some params) buffer 0 serving arrived.3 (rw (arrived.4))

Reach-Peers_example :
    IsRegistered numbers arrived.2
    × AllFrom numbers serving.udp_tuple (history numbers arrived.3 0).1
    × AllFrom numbers serving.udp_tuple (map frame serving.queue)
Reach-Peers_example = Reach-Peers numbers (some params) buffer 0 serving arrived.3 (rw (arrived.4))

Reach-Receives_example : receives numbers (arrived.2).pending ≡ 1
Reach-Receives_example = Reach-Receives numbers (some params) buffer arrived.3

-- An endpoint of the F1 server.
abbrev server_at : Endpoint numbers
server_at = record { address = 12; port = 3500 }

first_datagram_written_example :
    (b : RouterPacket) × (w : Bytes) × (t : Server numbers) × (s u v : Session numbers)
    × (build_packet (to_string numbers peer) buffer 5 ≡ some (some b))
    × (frame b ≡ some w)
    × (handle_receive numbers remote raw false 5 waiting ≡ ok t)
    × (t.pending
        ≡ of_session 0 (resolve params.f1_adr (decimal params.f1_port)) ∷ (receive_from ∷ []))
    × (get_elem? t.sessions 0 ≡ some s)
    × (handle_resolve numbers false (server_at ∷ []) s ≡ some (u, connect server_at [] ∷ []))
    × (handle_connection numbers t.params false [] u ≡ some (v, write w ∷ (read_header ∷ [])))
    × (handle_deliver_tcp numbers t.params false v ≡ some (record v { queue = [] }, []))
unfolding construct_from find to_string decimal
first_datagram_written_example =
    first_datagram_written numbers remote raw 5 waiting params server_at [] waiting-IsRegistered
      (length-replicate 1032 7) (omega (arith, length-buffer)) refl (omega arith) refl
