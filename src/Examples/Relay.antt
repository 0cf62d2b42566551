-- ===== src/Examples/Relay.antt =====
-- The server's theorems at concrete states: one that knows no peer, and one that serves the peer.
use ramses_proxy.Prelude.{
  ℕ, ◌≡◌, refl, true, false, none, some, [], ◌∷◌, ◌++◌, Bytes, length, replicate, length-replicate,
  if◌then◌else◌, arith,
}
use ramses_proxy.Outcome.{ok, fault}
use ramses_proxy.Decimal.{decimal}
use ramses_proxy.Packet
use ramses_proxy.Packet.{RouterPacket, IsWhole, frame, build_packet, receive_frame}
use ramses_proxy.Packet.Layout.{built}
use ramses_proxy.AdrTuple
use ramses_proxy.AdrTuple.{AdrTuple, construct_from, eq, udp, to_string}
use ramses_proxy.Common.{clear_buffer, construct_buffer}
use ramses_proxy.Session
use ramses_proxy.Session.{Session, resolve, set_adr_tuple}
use ramses_proxy.Server.{
  Server, UdpEndpoint, of_session, receive_from, assign, find, erase, session_of, handle_receive,
  handle_connection_failed,
}
use ramses_proxy.Server.Registry.{IsRegistered, session_of-find, handle_connection_failed-find}
use ramses_proxy.Server
use ramses_proxy.Server.Reach.{Reach, receives, here, next, Reach-IsRegistered}
use ramses_proxy.Server.Receive.{handle_receive_new, handle_receive_known, handle_receive_overflow}
use ramses_proxy.Examples.{numbers, peer, far, greeting, raw, params}

abbrev pub remote : UdpEndpoint numbers
remote = record { address = 10; port = 2036 }

-- What the receive buffer holds: the datagram "hello" and the zeros behind it.
abbrev pub buffer : Bytes
buffer = greeting ++ replicate 1019 0

pub length-buffer : length buffer ≡ 1024
length-buffer = omega (arith, length-replicate {A = ℕ} 1019 0)

abbrev pub waiting : Server numbers
waiting = record {
  params = some params;
  sessions = [];
  udp_sessions = [];
  tcp_queue = [];
  recv_buffer = record { bytes = buffer; data_size = 1024 };
  pending = [];
}

pub waiting-IsRegistered : IsRegistered numbers waiting
waiting-IsRegistered = record { sorted = tt; owned = tt }

abbrev first : RouterPacket
first = built (to_string numbers peer) buffer 5

abbrev connected : Session numbers
connected = record {
  udp_tuple = peer;
  is_open = true;
  queue = first ∷ [];
  from_tcp = Packet.construct;
  connecting = false;
}

abbrev serving : Server numbers
serving = record waiting { sessions = connected ∷ []; udp_sessions = (peer, 0) ∷ [] }

serving-IsRegistered : IsRegistered numbers serving
serving-IsRegistered = record { sorted = (tt, tt); owned = ((connected, refl, refl), tt) }

handle_receive_new_example :
    (c : RouterPacket) × (frame c ≡ frame first)
    × (handle_receive numbers remote raw false 5 waiting
        ≡ ok (record waiting {
          sessions =
              record (set_adr_tuple numbers peer (Session.construct numbers)) { queue = c ∷ [] }
              ∷ [];
          udp_sessions = assign numbers peer 0 [];
          recv_buffer = clear_buffer waiting.recv_buffer;
          pending =
              of_session 0 (resolve params.f1_adr (decimal params.f1_port)) ∷ (receive_from ∷ []);
        }))
unfolding construct_from find to_string decimal
handle_receive_new_example =
    handle_receive_new numbers remote raw 5 waiting waiting-IsRegistered (length-replicate 1032 7)
      (omega (arith, length-buffer)) params refl (omega arith) refl

handle_receive_known_example :
    (c : RouterPacket) × (frame c ≡ frame first)
    × (handle_receive numbers remote raw false 5 serving
        ≡ ok (record serving {
          sessions = record connected { queue = first ∷ (c ∷ []) } ∷ [];
          recv_buffer = clear_buffer waiting.recv_buffer;
          pending = receive_from ∷ [];
        }))
unfolding construct_from find AdrTuple.less to_string decimal
handle_receive_known_example =
    handle_receive_known numbers remote raw 5 serving serving-IsRegistered (length-replicate 1032 7)
      (omega (arith, length-buffer)) 0 connected first [] (omega arith) refl refl refl

handle_receive_overflow_example : handle_receive numbers remote raw false 1014 serving ≡ fault
unfolding construct_from to_string decimal
handle_receive_overflow_example =
    handle_receive_overflow numbers remote raw 1014 serving serving-IsRegistered
      (length-replicate 1032 7) (omega (arith, length-buffer)) (omega arith)

session_of-find_example :
    session_of numbers (connected ∷ []) ((peer, 0) ∷ []) far
    ≡ ok (find numbers far ((peer, 0) ∷ []))
session_of-find_example =
    session_of-find numbers (connected ∷ []) ((peer, 0) ∷ []) far serving-IsRegistered.sorted
      serving-IsRegistered.owned

handle_connection_failed-find_example :
    (t : Server numbers) × (handle_connection_failed numbers 0 serving ≡ ok t)
    × (t.sessions ≡ serving.sessions)
    × (find numbers far t.udp_sessions
        ≡ (if eq numbers peer far then none else find numbers far serving.udp_sessions))
handle_connection_failed-find_example =
    handle_connection_failed-find numbers 0 serving connected far serving-IsRegistered refl

-- A new relay that the peer's datagram reaches.
reached : (st : Server numbers) × Reach numbers (Server.construct numbers (some params) buffer) st
unfolding construct_from find to_string decimal Server.construct construct_buffer
reached =
    let (c, same, received) =
      handle_receive_new numbers remote raw 5 waiting waiting-IsRegistered (length-replicate 1032 7)
        (omega (arith, length-buffer)) params refl (omega arith) refl in
    (_, next here (receives remote raw greeting false (omega (arith, length-buffer)) received))

Reach-IsRegistered_example : IsRegistered numbers reached.0
Reach-IsRegistered_example = Reach-IsRegistered numbers (some params) buffer reached.1
