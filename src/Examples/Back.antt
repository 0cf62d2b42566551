-- ===== src/Examples/Back.antt =====
-- The theorems on the way from the F1 server to the UDP peers at concrete inputs.
use ramses_proxy.Prelude.{
  ◌+◌, ◌≡◌, refl, false, none, some, inl, [], ◌∷◌, length, take, drop, length-replicate, arith,
}
use ramses_proxy.Outcome.{ok}
use ramses_proxy.Packet
use ramses_proxy.Packet.{RouterPacket, IsWhole, frame, build_packet, arrive}
use ramses_proxy.Packet.RoundTrip.{received}
use ramses_proxy.Packet.RoundTrip.Steps.{copy_construct-received}
use ramses_proxy.Session
use ramses_proxy.Session.{Session, Endpoint, handle_resolve, post_failed, read_header, read_payload}
use ramses_proxy.Session.Connecting.{refuse, handle_resolve-refuse}
use ramses_proxy.Server.{
  Server, send_to, of_session, handle_read_payload, handle_deliver_to_udp_peer,
}
use ramses_proxy.Server.Delivery.{echoed-IsFor, deliver_first, sending}
use ramses_proxy.Server.Echo.{echo_through_session}
use ramses_proxy.Server.Downlink.{Downlink, Reach, here, next, hands_over, InOrder}
use ramses_proxy.Server.Downlink.Order.{Reach-InOrder}
use ramses_proxy.Server.Downlink.Loss.{handle_deliver_to_udp_peer_loses}
use ramses_proxy.Examples.{numbers, peer, greeting, raw}
use ramses_proxy.Examples.Peers.{construct-IsWhole, peer-IsV4Text, text, text-length, home, idle}

-- A relay with one session, which waits for a header.
abbrev waiting : Session numbers
waiting = Session.construct numbers

abbrev served : Server numbers
served = record idle { sessions = waiting ∷ [] }

waiting-IsWhole : IsWhole waiting.from_tcp
unfolding Session.construct
waiting-IsWhole = construct-IsWhole

echo_through_session_example :
    (p : RouterPacket) × (w : _) × (header : RouterPacket) × (u : Session numbers) × (t : Server
      numbers)
    × (build_packet text greeting 5 ≡ some (some p))
    × (frame p ≡ some w)
    × (arrive 0 (take 4 w) waiting.from_tcp ≡ some header)
    × (Session.handle_read_header numbers false 4 (record waiting { from_tcp = header })
        ≡ some (u, read_payload (length (drop 4 w)) ∷ []))
    × (handle_read_payload numbers 0 raw (drop 4 w) false (record served { sessions = u ∷ [] })
        ≡ ok t)
    × (t.pending ≡ send_to home greeting ∷ (of_session 0 read_header ∷ []))
echo_through_session_example =
    echo_through_session numbers peer greeting 5 served 0 waiting raw peer-IsV4Text (omega arith)
      (omega arith) text-length refl waiting-IsWhole refl (length-replicate 1032 7)

-- The packet of the greeting that comes back, its copy, and the relay that has it.
pub copied :
    (r : RouterPacket) × IsWhole r
    × (Packet.copy_construct raw
          (received text greeting 5 (omega arith) text-length Packet.construct)
        ≡ some (received text greeting 5 (omega arith) text-length r))
copied =
    copy_construct-received text greeting 5 (omega arith) text-length raw Packet.construct
      (length-replicate 1032 7) construct-IsWhole

abbrev handed : Downlink numbers
handed = record {
  server = sending numbers home (take 5 greeting) (record idle {
    tcp_queue = received text greeting 5 (omega arith) text-length copied.0 ∷ [];
  });
  arrived = (home, take 5 greeting) ∷ [];
}

handed-Reach : Reach numbers (record { server = idle; arrived = [] }) handed
handed-Reach =
    let f =
      echoed-IsFor numbers peer peer-IsV4Text (omega arith) greeting 5 (omega arith) text-length
        copied.0 copied.1 in
    next here (
      hands_over 0 raw _ _ (home, take 5 greeting) _ copied.2 f
        (deliver_first numbers 0 idle raw _ _ home (take 5 greeting) refl copied.2 f) refl)

Reach-InOrder_example : InOrder numbers handed
Reach-InOrder_example = Reach-InOrder numbers idle refl refl handed-Reach

abbrev pub empty : RouterPacket
empty = record { payload_length = 0; peer_length = 0; payload = raw }

handle_deliver_to_udp_peer_loses_example :
    (t : Server numbers) × (handle_deliver_to_udp_peer numbers false
        (record idle { tcp_queue = empty ∷ (empty ∷ (empty ∷ [])) })
      ≡ ok t)
    × (t.tcp_queue ≡ empty ∷ [])
    × (t.pending ≡ [])
    × (handle_deliver_to_udp_peer numbers false t ≡ ok (record idle { tcp_queue = [] }))
handle_deliver_to_udp_peer_loses_example =
    handle_deliver_to_udp_peer_loses numbers
      (record idle { tcp_queue = empty ∷ (empty ∷ (empty ∷ [])) }) empty empty empty refl (inl refl)

-- Two endpoints of the F1 server.
abbrev one : Endpoint numbers
one = record { address = 10; port = 3500 }

abbrev two : Endpoint numbers
two = record { address = 11; port = 3500 }

handle_resolve-refuse_example :
    (t : Session numbers) × (started : _) × (u : Session numbers) × (handle_resolve numbers false
        (one ∷ (two ∷ []))
        waiting
      ≡ some (t, started))
    × (refuse numbers none (length (two ∷ []) + 2) t started
        ≡ some (one ∷ (two ∷ []), u, post_failed ∷ []))
    × (u.queue ≡ waiting.queue)
    × (u.udp_tuple ≡ waiting.udp_tuple)
handle_resolve-refuse_example = handle_resolve-refuse numbers none false one (two ∷ []) waiting
