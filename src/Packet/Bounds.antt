-- ===== src/Packet/Bounds.antt =====
-- Which lengths the decoders accept, and which of them keep the relay inside its arrays.
use ramses_proxy.Prelude.{
  ℕ, zero, suc, ◌+◌, ◌^◌, ◌<◌, ◌≤◌, ◌≡◌, ◌⊎◌, refl, ◌∙◌, Bool, true, none, some, [], ◌∷◌, Bytes,
  length, length-drop, length-replicate, take, drop, ltb, arith, inl, inr, Bool-cases, Option-cases,
  replicate, ◌==◌, leb,
}
use ramses_proxy.Memory.{memcpy, read, read_string, strncat}
use ramses_proxy.Memory.Laws.{
  memcpy_in_bounds, memcpy_out_of_bounds, length-read_string, length-memcpy,
}
use ramses_proxy.Decimal.{atoi, to_unsigned}
use ramses_proxy.Packet.{
  RouterPacket, IsWhole, accept_payload, accept_peer, decode_header, decode_peer, construct, clear,
  set_peer_data, set_packet_data, get_packet_data, packet_data_length, arrive, build_packet,
  packet_capacity,
}

-- A read of n bytes from a region that has them ends, with n bytes at most.
read_string_total :
    (n : ℕ) (src : Bytes) → n ≤ length src → (s : Bytes) × (read_string n src ≡ some s)
unfolding read_string
read_string_total zero src h = ([], refl)
read_string_total (suc n) [] h = absurd (omega arith)
read_string_total (suc n) (c ∷ src) h = elim (Bool-cases (c == 0)) [
  | inl e ↦ ([], rw (e, read_string))
  | inr e ↦
      let (s, es) = read_string_total n src (omega arith) in (c ∷ s, rw (e, read_string) (rw es))
]

field_total : (src : Bytes) → 4 ≤ length src → (s : Bytes) × (strncat 5 [] src 4 ≡ some s)
unfolding strncat
field_total src h =
    let (s, e) = read_string_total 4 src h in
    let fits : ltb (0 + length s) 5 ≡ true = ground (arith, length-read_string 4 src e) in
    (s, rw e (rw fits))

abbrev pub DecodedHeader : RouterPacket → RouterPacket → Bool → Type 0
DecodedHeader p q res =
    (q.payload_length ≤ 1024)
    × ((res ≡ true) ⊎ (q.payload_length ≡ 0))
    × (q.peer_length ≡ p.peer_length)
    × (q.payload ≡ p.payload)

accept_payload_bounds :
    (n : ℕ) (p : RouterPacket) → DecodedHeader p (accept_payload n p).0 (accept_payload n p).1
unfolding accept_payload
accept_payload_bounds n p = ground arith

-- Whatever bytes came, decode_header stays inside its arrays and ends with a length of 1024 at
-- most, 0 if it refuses; it changes nothing else.
pub decode_header_bounds :
    (p : RouterPacket)
    → IsWhole p
    → (q : RouterPacket) × (res : Bool) × (decode_header p ≡ some (q, res)) × DecodedHeader p q res
unfolding decode_header
decode_header_bounds p whole =
    let (s, e) = field_total p.payload (omega arith) in
    let n = to_unsigned 32 (atoi s) in
    ((accept_payload n p).0, (accept_payload n p).1, rw e, accept_payload_bounds n p)

abbrev pub DecodedPeer : RouterPacket → RouterPacket → Bool → Type 0
DecodedPeer p q res =
    (q.peer_length ≤ q.payload_length)
    × ((res ≡ true) ⊎ (q.peer_length ≡ 0))
    × (q.payload_length ≡ p.payload_length)
    × (q.payload ≡ p.payload)

accept_peer_bounds :
    (n : ℕ) (p : RouterPacket) → DecodedPeer p (accept_peer n p).0 (accept_peer n p).1
unfolding accept_peer
accept_peer_bounds n p = ground arith

-- decode_peer stays inside its arrays and ends with a peer length that is at most the payload's, 0
-- if it refuses; it changes nothing else.
pub decode_peer_bounds :
    (p : RouterPacket)
    → IsWhole p
    → (q : RouterPacket) × (res : Bool) × (decode_peer p ≡ some (q, res)) × DecodedPeer p q res
unfolding decode_peer
decode_peer_bounds p whole =
    let (s, e) = field_total (drop 4 p.payload) (omega (arith, length-drop 4 p.payload)) in
    let n = to_unsigned 32 (atoi s) in
    ((accept_peer n p).0, (accept_peer n p).1, rw e, accept_peer_bounds n p)

-- After a header that decode_header accepts, a read of at most as many bytes as it asks for stays
-- inside the packet's array, which keeps its size.
pub arrive-decode_header :
    (p q : RouterPacket) (bytes : Bytes)
    → IsWhole p
    → decode_header p ≡ some (q, true)
    → length bytes ≤ q.payload_length
    → (r : RouterPacket) × (arrive 4 bytes q ≡ some r) × IsWhole r
unfolding arrive
arrive-decode_header p q bytes whole e size =
    let (q', res, e', bounds) = decode_header_bounds p whole in
    let eq : q ≡ q' = cc in
    let small : q.payload_length ≤ 1024 = rw eq bounds.0 in
    let kept : length q.payload ≡ 1032 = rw (eq, bounds.3) whole in
    let write = memcpy_in_bounds q.payload 4 bytes (length bytes) (omega arith) (omega arith) in
    (
      record q { payload = _ },
      rw write,
      length-memcpy q.payload 4 bytes (length bytes) write ∙ kept,
    )

-- The datagram's size as packet_data_length() computes it, and whether the socket's read of so many
-- bytes stays inside the array: it does exactly when the payload has room for the peer's text and
-- its length field; else the difference wraps to more than 2 ^ 31.
pub packet_data_length_exact :
    (p : RouterPacket)
    → IsWhole p
    → p.payload_length ≤ 1024
    → p.peer_length ≤ p.payload_length
    → ((p.peer_length + 4 ≤ p.payload_length)
        × (packet_data_length p + p.peer_length + 4 ≡ p.payload_length)
        × (read p.payload (8 + p.peer_length) (packet_data_length p)
            ≡ some (take (packet_data_length p) (get_packet_data p))))
      ⊎ ((p.payload_length < p.peer_length + 4)
          × (2 ^ 31 < packet_data_length p)
          × (read p.payload (8 + p.peer_length) (packet_data_length p) ≡ none))
unfolding packet_data_length read get_packet_data
packet_data_length_exact p whole small order =
    elim (Bool-cases (leb (p.peer_length + 4) p.payload_length)) [
      | inl fits ↦ inl (ground arith, ground arith, ground arith)
      | inr over ↦ inr (ground arith, ground arith, ground arith)
    ]

-- A datagram that does not fit behind its peer's text is written past the end of the array.
pub build_packet_overflow :
    (peer buffer : Bytes) (n : ℕ)
    → n ≤ length buffer
    → 1024 < length peer + n
    → build_packet peer buffer n ≡ none
unfolding build_packet set_peer_data set_packet_data construct clear
build_packet_overflow peer buffer n h k =
    elim (Option-cases (memcpy (replicate packet_capacity 0) 8 peer (length peer))) [
      | inl e ↦ rw e
      | inr (bytes, e) ↦ rw (
        e,
        memcpy_out_of_bounds bytes (8 + length peer) buffer n (
            omega (
              arith,
              length-memcpy (replicate packet_capacity 0) 8 peer (length peer) e,
              length-replicate {A = ℕ} packet_capacity 0,
            )),
      )
    ]
