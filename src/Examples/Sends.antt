-- ===== src/Examples/Sends.antt =====
-- The theorems on the sends to the UDP peers of a relay at work at concrete inputs.
use ramses_proxy.Prelude.{
  some, Bytes, ◌<◌, ◌≡◌, ◌≢◌, refl, true, false, [], ◌∷◌, take, length-replicate, arith,
}
use mathlib.Core.List.{cons-ne-nil}
use ramses_proxy.Outcome.{ok}
use ramses_proxy.Packet.{RouterPacket, get_peer_data}
use ramses_proxy.Packet.RoundTrip.{received}
use ramses_proxy.AdrTuple.{construct_from, udp}
use ramses_proxy.Server.{
  Server, send_to, receive_from, handle_receive, handle_deliver_to_udp_peer, remove_session,
  start_receive,
}
use ramses_proxy.Server.Delivery.{echoed-IsFor, handle_deliver_to_udp_peer_next, sending}
use ramses_proxy.Server.Downlink.{sends}
use ramses_proxy.Server.Run.{Reach, here, next, Step, sent}
use ramses_proxy.Server.Run
use ramses_proxy.Server.Run.Smooth.{Reach-Sends}
use ramses_proxy.Server.Run.Stalling.{Reach-stalls}
use ramses_proxy.Examples.{numbers, peer, greeting, raw}
use ramses_proxy.Examples.Relay.{remote}
use ramses_proxy.Examples.Peers.{peer-IsV4Text, text, text-length, home, idle}
use ramses_proxy.Examples.Back.{copied, empty}

-- The packet of the greeting.
abbrev good : RouterPacket
good = received text greeting 5 (omega arith) text-length copied.0

-- Two packets wait, and the send of the first is pending.
abbrev two_wait : Server numbers
two_wait = record idle {
  tcp_queue = empty ∷ (good ∷ []);
  pending = receive_from ∷ (send_to home [] ∷ []);
}

-- That send has completed.
abbrev one_waits : Server numbers
one_waits =
    sending numbers home (take 5 greeting)
      (record idle { tcp_queue = good ∷ []; pending = receive_from ∷ [] })

abbrev sent_one : Reach numbers two_wait one_waits
sent_one = next (receive_from ∷ []) [] (send_to home []) here refl (
    sent home [] false (
      handle_deliver_to_udp_peer_next numbers (record two_wait { pending = receive_from ∷ [] })
        empty good [] home (take 5 greeting) refl
        (echoed-IsFor numbers peer peer-IsV4Text (omega arith) greeting 5 (omega arith) text-length
          copied.0 copied.1)))

usable :
    (p : RouterPacket) (t : Bytes)
    → get_peer_data [] 128 p ≡ some (t, true)
    → (0 < p.peer_length) × (p.peer_length < 128)
unfolding get_peer_data
usable p t e = (ground arith, ground arith)

good_usable : (0 < good.peer_length) × (good.peer_length < 128)
good_usable =
    let f =
      echoed-IsFor numbers peer peer-IsV4Text (omega arith) greeting 5 (omega arith) text-length
        copied.0 copied.1 in
    usable good f.text f.has_text

Reach-Sends_example : sends numbers one_waits.pending ≢ []
Reach-Sends_example =
    Reach-Sends numbers (λ _ e. cons-ne-nil (home, []) [] e) sent_one (tt, (refl, good_usable))
      (cons-ne-nil good [])

-- That send fails.
abbrev stalled : Server numbers
stalled = record two_wait { pending = receive_from ∷ [] }

-- Then a receive fails.
abbrev later : Server numbers
later = start_receive numbers (
    remove_session numbers (construct_from numbers udp remote.address remote.port)
      (record stalled { pending = [] }))

receive_fails :
    handle_receive numbers remote raw true 0 (record stalled { pending = [] }) ≡ ok later
unfolding handle_receive
receive_fails = refl

abbrev received_then : Reach numbers stalled later
received_then =
    next [] [] receive_from here refl
      (Run.received remote raw [] true (length-replicate 1032 7) (omega arith) receive_fails)

Reach-stalls_example : (later.tcp_queue ≡ two_wait.tcp_queue) × (sends numbers later.pending ≡ [])
Reach-stalls_example =
    Reach-stalls numbers two_wait stalled (receive_from ∷ []) [] refl
      (unfold handle_deliver_to_udp_peer in refl) received_then (tt, tt)
