-- ===== src/Server/Downlink/Loss.antt =====
-- A packet with no usable peer's text loses the packet behind it.
use ramses_proxy.Prelude.{◌≡◌, ◌≤◌, ◌⊎◌, refl, false, ◌&&◌, ltb, some, [], ◌∷◌, arith}
use ramses_proxy.Outcome.{ok}
use ramses_proxy.Packet.{RouterPacket, get_peer_data}
use ramses_proxy.AdrTuple.{AddressApi}
use ramses_proxy.Server.{
  Server, handle_deliver_to_udp_peer, deliver_to_udp_peer, pop_tcp_packet, peek_tcp_packet,
}

unaddressed :
    (bad : RouterPacket)
    → (bad.peer_length ≡ 0) ⊎ (128 ≤ bad.peer_length)
    → get_peer_data [] 128 bad ≡ some ([], false)
unfolding get_peer_data
unaddressed bad h =
    let refused : (ltb 0 bad.peer_length && ltb bad.peer_length 128) ≡ false = ground arith in
    rw refused

module _ (api : AddressApi) where
  -- With a packet behind the front whose peer's text has length 0 or more than 127, and one more packet
  -- behind that: the completion of the front's send drops the two first and starts no send, whatever the
  -- last packet is for; and one more completion, as of a send that was started twice, drops the last
  -- packet too, which was never sent.
  pub handle_deliver_to_udp_peer_loses :
      (st : Server api) (p bad r : RouterPacket)
      → st.tcp_queue ≡ p ∷ (bad ∷ (r ∷ []))
      → (bad.peer_length ≡ 0) ⊎ (128 ≤ bad.peer_length)
      → (t : Server api) × (handle_deliver_to_udp_peer api false st ≡ ok t)
        × (t.tcp_queue ≡ r ∷ [])
        × (t.pending ≡ st.pending)
        × (handle_deliver_to_udp_peer api false t ≡ ok (record st { tcp_queue = [] }))
  unfolding handle_deliver_to_udp_peer deliver_to_udp_peer pop_tcp_packet peek_tcp_packet
  handle_deliver_to_udp_peer_loses st p bad r e h =
      (record st { tcp_queue = r ∷ [] }, rw (e, unaddressed bad h), refl, refl, refl)
