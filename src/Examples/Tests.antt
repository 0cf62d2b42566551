-- ===== src/Examples/Tests.antt =====
-- The theorems at concrete inputs.
use ramses_proxy.Prelude.{
  ◌+◌, ◌^◌, ◌≡◌, ◌≤◌, ◌<◌, ◌⊎◌, Bool, true, false, not, ◌&&◌, ◌||◌, none, some, [], Bytes, length,
  take, replicate, length-replicate, arith,
}
use ramses_proxy.Memory.{read}
use ramses_proxy.Packet.{
  RouterPacket, IsWhole, construct, decode_header, decode_peer, build_packet, frame, receive_frame,
  get_peer_data, get_packet_data, packet_data_length,
}
use ramses_proxy.Packet.RoundTrip.{receive_frame-build_packet}
use ramses_proxy.Packet.Bounds.{
  decode_header_bounds, decode_peer_bounds, DecodedHeader, DecodedPeer, packet_data_length_exact,
}
use ramses_proxy.Packet.Copying.{queued_packet, queued_packet_exact}
use ramses_proxy.Packet.Layout.{built}
use ramses_proxy.AdrTuple.{ne, less, to_string}
use ramses_proxy.AdrTuple.Order.{less_strict}
use ramses_proxy.AdrTuple.Text.{IsV4Text, split_addr-to_string}
use ramses_proxy.Common.{split_addr}
use ramses_proxy.Decimal.{pos, atoi, decimal}
use ramses_proxy.Examples.{numbers, peer, other, far, peer_text, greeting, raw}

construct-IsWhole : IsWhole construct
unfolding construct
construct-IsWhole = length-replicate 1032 0

receive_frame-build_packet_example :
    (p : RouterPacket) × (w : Bytes) × (q : RouterPacket) × (build_packet peer_text greeting 5
      ≡ some (some p))
    × (frame p ≡ some w)
    × (receive_frame w construct ≡ some (q, true))
    × (get_peer_data [] 128 q ≡ some (peer_text, true))
    × (packet_data_length q ≡ 5)
    × (take 5 (get_packet_data q) ≡ take 5 greeting)
receive_frame-build_packet_example =
    receive_frame-build_packet peer_text greeting 5 construct (omega arith) (omega arith)
      (omega arith) (omega arith) (omega arith) construct-IsWhole

queued_packet_exact_example :
    ((length peer_text + 5 ≤ 1020)
      × ((q : RouterPacket) × (queued_packet raw peer_text greeting 5 ≡ some (some q))
          × (frame q ≡ frame (built peer_text greeting 5))
          × IsWhole q))
    ⊎ ((1020 < length peer_text + 5) × (queued_packet raw peer_text greeting 5 ≡ none))
queued_packet_exact_example =
    queued_packet_exact raw peer_text greeting 5 (length-replicate 1032 7) (omega arith)

decode_header_bounds_example :
    (q : RouterPacket) × (res : Bool) × (decode_header construct ≡ some (q, res))
    × DecodedHeader construct q res
decode_header_bounds_example = decode_header_bounds construct construct-IsWhole

decode_peer_bounds_example :
    (q : RouterPacket) × (res : Bool) × (decode_peer construct ≡ some (q, res))
    × DecodedPeer construct q res
decode_peer_bounds_example = decode_peer_bounds construct construct-IsWhole

-- A packet whose peer length is the whole payload's.
abbrev lying : RouterPacket
lying = record { payload_length = 20; peer_length = 20; payload = replicate 1032 49 }

packet_data_length_exact_example :
    ((20 + 4 ≤ lying.payload_length)
      × (packet_data_length lying + 20 + 4 ≡ 20)
      × (read lying.payload (8 + 20) (packet_data_length lying)
          ≡ some (take (packet_data_length lying) (get_packet_data lying))))
    ⊎ ((20 < 20 + 4)
        × (2 ^ 31 < packet_data_length lying)
        × (read lying.payload (8 + 20) (packet_data_length lying) ≡ none))
packet_data_length_exact_example =
    packet_data_length_exact lying (length-replicate 1032 49) (omega arith) (omega arith)

less_strict_example :
    (less numbers peer peer ≡ false)
    × ((less numbers peer other && less numbers other far && not (less numbers peer far)) ≡ false)
    × ((less numbers peer other || less numbers other peer) ≡ ne numbers peer other)
less_strict_example = less_strict numbers peer other far

peer-IsV4Text : IsV4Text (decimal 10)
unfolding decimal
peer-IsV4Text = record {
  some_text = λ e. cc;
  short = omega arith;
  no_colon = omega arith;
  no_nul = omega arith;
}

split_addr-to_string_example :
    (split_addr 32 8 (to_string numbers peer) ≡ some (decimal 10, decimal 2036))
    × (numbers.from_string (decimal 10) ≡ some 10)
    × (atoi (decimal 2036) ≡ pos 2036)
split_addr-to_string_example = split_addr-to_string numbers peer peer-IsV4Text (omega arith)
