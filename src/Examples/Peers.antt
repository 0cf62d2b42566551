-- ===== src/Examples/Peers.antt =====
-- The theorems on the way to the F1 server and back at one peer's datagram.
use ramses_proxy.Prelude.{
  none, ◌+◌, ◌≡◌, ◌≤◌, ◌<◌, refl, true, false, some, [], ◌∷◌, Bytes, length, take, replicate,
  length-replicate, arith,
}
use ramses_proxy.Outcome.{ok, fault}
use ramses_proxy.Decimal.{decimal}
use ramses_proxy.Packet
use ramses_proxy.Packet.{
  RouterPacket, IsWhole, frame, build_packet, receive_frame, decode_header, arrive, copy_construct,
}
use ramses_proxy.Packet.Layout.{built}
use ramses_proxy.Packet.RoundTrip.{received}
use ramses_proxy.Packet.Copying.{copy_construct-frame, built-IsWhole}
use ramses_proxy.AdrTuple.{to_string}
use ramses_proxy.AdrTuple.Text.{IsV4Text}
use ramses_proxy.Session
use ramses_proxy.Session.{
  Session, Action, resolve, add_router_packet, set_adr_tuple, deliver_to_tcp_peer, start,
}
use ramses_proxy.Session.{read_header}
use ramses_proxy.Session.Payload.{handle_read_payload_lem}
use ramses_proxy.Packet.Peer.{peer_field}
use ramses_proxy.Prelude.{ltb, if◌then◌else◌}
use ramses_proxy.Session.Stream.{Link, Reach, Inv, add, here, next}
use ramses_proxy.Session.Order.{fresh, Reach-Inv}
use ramses_proxy.Session.Stream.{busy}
use ramses_proxy.Session.Progress.{Reach-busy}
use ramses_proxy.Session.Order.Channel.{Moves, labels, Reach-Moves}
use ramses_proxy.Prelude.{map}
use ramses_proxy.Server.{Server, UdpEndpoint, send_to, udp_peer, deliver_to_udp_peer, deliver}
use ramses_proxy.Server.Delivery.{IsFor, echoed-IsFor, echo, deliver_again, udp_peer_overflow}
use ramses_proxy.Examples.{numbers, peer, greeting, raw, params}

pub construct-IsWhole : IsWhole Packet.construct
unfolding Packet.construct
construct-IsWhole = length-replicate 1032 0

pub peer-IsV4Text : IsV4Text (decimal 10)
unfolding decimal
peer-IsV4Text = record {
  some_text = λ e. cc;
  short = omega arith;
  no_colon = omega arith;
  no_nul = omega arith;
}

abbrev pub text : Bytes
text = to_string numbers peer

pub text-length : length text + 5 + 4 ≤ 1024
unfolding to_string decimal
text-length = omega arith

-- The packet of the peer's datagram, and its copy in a queue.
abbrev first : RouterPacket
first = built text greeting 5

first-IsWhole : IsWhole first
first-IsWhole = built-IsWhole text greeting 5 (omega arith) (omega (arith, text-length))

first_size : (0 < first.payload_length) × (first.payload_length ≤ 1024)
unfolding built
first_size = (omega arith, omega (arith, text-length))

queued : (q : RouterPacket) × (copy_construct raw first ≡ some q)
queued =
    let (q, e, _, _, _, _) =
      copy_construct-frame raw first (length-replicate 1032 7) first-IsWhole first_size.0
        first_size.1 in
    (q, e)

-- A session of the peer with the packet in its queue.
abbrev filled : Session numbers
filled = record (set_adr_tuple numbers peer (Session.construct numbers)) { queue = queued.0 ∷ [] }

added :
    add_router_packet numbers
      (some params)
      raw
      first
      (set_adr_tuple numbers peer (Session.construct numbers))
    ≡ some (filled, resolve params.f1_adr (decimal params.f1_port) ∷ [])
unfolding add_router_packet set_adr_tuple Session.construct deliver_to_tcp_peer start
added = rw queued.1

abbrev resolving : Link numbers
resolving = record {
  session = filled;
  pending = resolve params.f1_adr (decimal params.f1_port) ∷ [];
  written = [];
  added = frame first ∷ [];
  closed = 0;
}

resolving-Reach : Reach numbers (some params) (fresh numbers (some params) peer) resolving
resolving-Reach = next here (
    add raw first filled _ (length-replicate 1032 7)
      (record { whole = first-IsWhole; filled = first_size.0 }) added refl)

Reach-Inv_example : Inv numbers resolving
Reach-Inv_example = Reach-Inv numbers (some params) peer resolving-Reach

Reach-busy_example : busy numbers resolving.pending ≡ 1
Reach-busy_example = Reach-busy numbers (some params) peer resolving-Reach refl (λ e. cc)

Reach-Moves_example :
    Moves
      (record { given = []; inside = [] })
      (labels numbers (some params) resolving-Reach)
      (record { given = []; inside = map frame filled.queue })
Reach-Moves_example = Reach-Moves numbers (some params) peer resolving-Reach

abbrev pub home : UdpEndpoint numbers
home = record { address = 10; port = 2036 }

-- What the relay decodes when the F1 server sends the datagram back.
abbrev back : RouterPacket
back = received text greeting 5 (omega arith) text-length Packet.construct

back-IsFor : IsFor numbers home (take 5 greeting) back
back-IsFor =
    echoed-IsFor numbers peer peer-IsV4Text (omega arith) greeting 5 (omega arith) text-length
      Packet.construct construct-IsWhole

abbrev pub idle : Server numbers
idle = record {
  params = some params;
  sessions = [];
  udp_sessions = [];
  tcp_queue = [];
  recv_buffer = record { bytes = greeting; data_size = 1024 };
  pending = [];
}

echo_example :
    (p : RouterPacket) × (w : Bytes) × (q : RouterPacket) × (build_packet text greeting 5
      ≡ some (some p))
    × (frame p ≡ some w)
    × (receive_frame w Packet.construct ≡ some (q, true))
    × (deliver_to_udp_peer numbers (record idle { tcp_queue = q ∷ [] })
        ≡ ok (record idle { tcp_queue = q ∷ []; pending = send_to home greeting ∷ [] }))
echo_example =
    echo numbers peer greeting 5 Packet.construct idle [] peer-IsV4Text (omega arith) (omega arith)
      text-length construct-IsWhole

deliver_again_example :
    deliver numbers 0 (some first) raw (record idle { tcp_queue = back ∷ [] })
    ≡ ok (record idle {
      tcp_queue = back ∷ (queued.0 ∷ []);
      pending = send_to home greeting ∷ (send_to home greeting ∷ []);
    })
deliver_again_example =
    deliver_again numbers 0 (record idle { tcp_queue = back ∷ [] }) raw first queued.0 back [] home
      (take 5 greeting) refl queued.1 back-IsFor

udp_peer_overflow_example : udp_peer numbers (replicate 32 49) ≡ fault
unfolding replicate
udp_peer_overflow_example = udp_peer_overflow numbers (replicate 32 49) (omega arith) (omega arith)

-- A session that has read the peer's packet.
abbrev reading : Session numbers
reading = record {
  udp_tuple = peer;
  is_open = true;
  queue = [];
  from_tcp = first;
  connecting = false;
}

handle_read_payload_lem_example :
    Session.handle_read_payload numbers false 20 reading
    ≡ some (
        if ltb first.payload_length (peer_field first)
        then (record reading { from_tcp = Packet.clear }, [], none)
        else (
          record reading { from_tcp = Packet.clear },
          read_header ∷ [],
          some (record first { peer_length = peer_field first }),
        ))
handle_read_payload_lem_example =
    handle_read_payload_lem numbers reading 20 first-IsWhole (omega arith)
