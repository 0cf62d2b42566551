-- ===== src/Packet/Layout.antt =====
-- The bytes of a packet that the relay builds from a datagram.
use ramses_proxy.Prelude.{
  ℕ, ◌+◌, ◌-◌, ◌<◌, ◌≤◌, ◌≡◌, refl, ap, ◌∙◌, true, some, [], ◌++◌, Bytes, append_assoc, length,
  length-append, length-replicate, replicate, replicate-append, take, take_all, arith,
}
use ramses_proxy.Memory.Laws.{memcpy-append}
use ramses_proxy.Decimal.{sprintf_4d}
use ramses_proxy.Decimal.RoundTrip.{length-sprintf_4d}
use ramses_proxy.Packet.{
  RouterPacket, construct, clear, set_peer_data, set_packet_data, write_field, encode_header,
  build_packet,
}

abbrev zeros : ℕ → Bytes
zeros n = replicate n 0

-- The array with its fields, the peer's text and the datagram in it.
abbrev pub layout : Bytes → Bytes → Bytes → Bytes → Bytes → Bytes
layout length_field peer_field peer body rest =
    length_field ++ (peer_field ++ (peer ++ (body ++ rest)))

-- The packet of n bytes of `buffer` for `peer`.
unfoldable pub built : Bytes → Bytes → ℕ → RouterPacket
built peer buffer n = record {
  payload_length = n + length peer + 4;
  peer_length = length peer;
  payload =
      layout (sprintf_4d (n + length peer + 4)) (sprintf_4d (length peer)) peer (take n buffer)
        (replicate (1024 - length peer - n) 0);
}

zeros_cut :
    (k n : ℕ)
    → k + n ≤ 1024
    → replicate 1032 0 ≡ zeros 8 ++ (zeros k ++ (zeros n ++ zeros (1024 - k - n)))
zeros_cut k n h =
    rw
      (
        replicate-append {A = ℕ} n (1024 - k - n) 0,
        replicate-append {A = ℕ} k (n + (1024 - k - n)) 0,
        replicate-append {A = ℕ} 8 (k + (n + (1024 - k - n))) 0,
      )
      (let e : 1032 ≡ 8 + (k + (n + (1024 - k - n))) = omega arith in ap (λ m. replicate m 0) e)

write_field-append :
    (a b c : Bytes) (off n : ℕ)
    → length a ≡ off
    → length b ≡ 4
    → n < 10000
    → write_field off n (a ++ (b ++ c)) ≡ some (a ++ (sprintf_4d n ++ c))
unfolding write_field
write_field-append a b c off n ea eb h = rw (length-sprintf_4d n h) (
    memcpy-append a b c (sprintf_4d n) off 4 ea eb (omega (arith, length-sprintf_4d n h))
    ∙ rw (take_all 4 (sprintf_4d n) (length-sprintf_4d n h)))

module _ (peer buffer : Bytes) (n : ℕ) (h : n ≤ length buffer) (k : length peer + n ≤ 1024) where
  abbrev np : ℕ
  np = length peer

  abbrev rest : Bytes
  rest = zeros (1024 - np - n)

  abbrev with_peer : RouterPacket
  with_peer = record {
    payload_length = 0;
    peer_length = np;
    payload = zeros 8 ++ (peer ++ (zeros n ++ rest));
  }

  abbrev with_body : RouterPacket
  with_body = record {
    payload_length = n + np + 4;
    peer_length = np;
    payload = zeros 8 ++ (peer ++ (take n buffer ++ rest));
  }

  set_peer : set_peer_data peer np construct ≡ some (with_peer, true)
  unfolding set_peer_data construct clear
  set_peer = rw (zeros_cut np n (omega arith)) (
      rw (
        memcpy-append (zeros 8) (zeros np) (zeros n ++ rest) peer 8 np (length-replicate 8 0)
            (length-replicate np 0) (omega arith),
        take_all np peer refl,
      ))

  set_body : set_packet_data buffer n with_peer ≡ some (with_body, true)
  unfolding set_packet_data
  set_body = rw (← append_assoc (zeros 8) peer (zeros n ++ rest)) (
      rw
        (
          memcpy-append (zeros 8 ++ peer) (zeros n) rest buffer (8 + np) n
              (omega (arith, length-append (zeros 8) peer, length-replicate {A = ℕ} 8 0))
              (length-replicate n 0) h,
          append_assoc (zeros 8) peer (take n buffer ++ rest),
        )
        (ground arith))

  encode : encode_header with_body ≡ some (built peer buffer n)
  unfolding encode_header built
  encode = rw (first, second)
    where
      tail : Bytes
      tail = peer ++ (take n buffer ++ rest)

      first :
          write_field 0 (n + np + 4) (zeros 8 ++ tail)
          ≡ some (sprintf_4d (n + np + 4) ++ (zeros 4 ++ tail))
      first =
          rw (← replicate-append {A = ℕ} 4 4 0, append_assoc)
            (write_field-append [] (zeros 4) (zeros 4 ++ tail) 0 (n + np + 4) refl
              (length-replicate 4 0) (omega arith))

      second :
          write_field 4 np (sprintf_4d (n + np + 4) ++ (zeros 4 ++ tail))
          ≡ some (sprintf_4d (n + np + 4) ++ (sprintf_4d np ++ tail))
      second =
          write_field-append (sprintf_4d (n + np + 4)) (zeros 4) tail 4 np
            (length-sprintf_4d (n + np + 4) (omega arith)) (length-replicate 4 0) (omega arith)

-- A datagram of n bytes fits behind a peer's text if the two take 1024 bytes at most.
pub build_packet_layout :
    (peer buffer : Bytes) (n : ℕ)
    → n ≤ length buffer
    → length peer + n ≤ 1024
    → build_packet peer buffer n ≡ some (some (built peer buffer n))
unfolding build_packet
build_packet_layout peer buffer n h k =
    rw (set_peer peer buffer n h k, set_body peer buffer n h k, encode peer buffer n h k)
