-- ===== src/Packet.antt =====
-- The router packet, class RouterPacket of inc/routerSession.h: the frame that the relay exchanges
-- with the F1 server, four characters of payload length, four of peer length, the peer's address
-- and the datagram. `m_payload` is the region `payload` of 1032 bytes; `none` is an access outside
-- of it.
pub mod Bounds
pub mod Peer
pub mod Layout
pub mod RoundTrip
pub mod Fields
pub mod Copying
use ramses_proxy.Prelude.{
  ℕ, ◌+◌, ◌-◌, ◌%◌, ◌^◌, ◌≡◌, Bool, true, false, ◌&&◌, Option, none, some, Bytes, [], ltb, ◌==◌,
  if◌then◌else◌, length, take, drop, replicate, ◌>>=◌,
}
use ramses_proxy.Memory.{memcpy, read, strncat}
use ramses_proxy.Decimal.{atoi, to_unsigned, sprintf_4d}

abbrev pub header_length : ℕ
header_length = 4

abbrev pub peer_field_length : ℕ
peer_field_length = 4

abbrev pub max_payload_size : ℕ
max_payload_size = 1024

abbrev pub packet_capacity : ℕ
packet_capacity = header_length + peer_field_length + max_payload_size

abbrev pub u32_mod : ℕ
u32_mod = 2 ^ 32

pub record RouterPacket : Type 0 where
  pub payload_length : ℕ
  pub peer_length : ℕ
  pub payload : Bytes

-- The size of the array, which no operation changes.
abbrev pub IsWhole : RouterPacket → Type 0
IsWhole p = length p.payload ≡ 1032

-- clear(); it overwrites all three members, so it needs nothing of the old packet.
unfoldable pub clear : RouterPacket
clear = record { payload_length = 0; peer_length = 0; payload = replicate packet_capacity 0 }

-- RouterPacket()
unfoldable pub construct : RouterPacket
unfolding clear
construct = clear

-- The bytes that copy takes, in 32 bits.
abbrev pub copy_length : RouterPacket → ℕ
copy_length p = (header_length + peer_field_length + p.payload_length) % u32_mod

-- copy(other), into a packet whose array holds `raw`.
unfoldable pub copy : Bytes → RouterPacket → Option RouterPacket
copy raw other =
    if ltb 0 other.payload_length
    then (do
      bytes ← memcpy raw 0 other.payload (copy_length other)
      some (record other { payload = bytes }))
    else some (record other { payload = raw })

-- RouterPacket(other); `raw` is what the new packet's storage held.
unfoldable pub copy_construct : Bytes → RouterPacket → Option RouterPacket
unfolding copy
copy_construct raw other = copy raw other

-- data_length(), in 32 bits
unfoldable pub data_length : RouterPacket → ℕ
data_length p = (header_length + p.payload_length) % u32_mod

-- packet_data_length(), in 32 bits
unfoldable pub packet_data_length : RouterPacket → ℕ
packet_data_length p =
    (p.payload_length + u32_mod + u32_mod - p.peer_length - peer_field_length) % u32_mod

-- payload_length(n) and peer_length(n), the setters
unfoldable pub set_payload_length : ℕ → RouterPacket → RouterPacket
set_payload_length n p = record p { payload_length = (n + peer_field_length) % u32_mod }

unfoldable pub set_peer_length : ℕ → RouterPacket → RouterPacket
set_peer_length n p = record p { peer_length = n }

-- The test of decode_header() on the length that it read.
accept_payload : ℕ → RouterPacket → RouterPacket × Bool
accept_payload n p =
    if ltb max_payload_size n
    then (record p { payload_length = 0 }, false)
    else (record p { payload_length = n }, true)

-- decode_header(): the new packet and whether the length is accepted.
unfoldable pub decode_header : RouterPacket → Option (RouterPacket × Bool)
unfolding accept_payload
decode_header p = do
  header ← strncat 5 [] p.payload header_length
  some (accept_payload (to_unsigned 32 (atoi header)) p)

-- The test of decode_peer().
accept_peer : ℕ → RouterPacket → RouterPacket × Bool
accept_peer n p =
    if ltb p.payload_length n
    then (record p { peer_length = 0 }, false)
    else (record p { peer_length = n }, true)

-- decode_peer()
unfoldable pub decode_peer : RouterPacket → Option (RouterPacket × Bool)
unfolding accept_peer
decode_peer p = do
  peer ← strncat 5 [] (drop header_length p.payload) peer_field_length
  some (accept_peer (to_unsigned 32 (atoi peer)) p)

-- sprintf into a buffer of five bytes, then memcpy of four; %d of a value beyond int is undefined, and
-- its decimal text is too long here.
unfoldable pub write_field : ℕ → ℕ → Bytes → Option Bytes
write_field off n bytes =
    let text = sprintf_4d n in if ltb (length text) 5 then memcpy bytes off text 4 else none

-- encode_header()
unfoldable pub encode_header : RouterPacket → Option RouterPacket
encode_header p = do
  first ← write_field 0 p.payload_length p.payload
  second ← write_field header_length p.peer_length first
  some (record p { payload = second })

-- get_peer_data(peer, size), for `peer` a C string in a buffer of `size` bytes.
unfoldable pub get_peer_data : Bytes → ℕ → RouterPacket → Option (Bytes × Bool)
get_peer_data peer size p =
    if ltb 0 p.peer_length && ltb p.peer_length size
    then (do
      text ← strncat size peer (drop (header_length + peer_field_length) p.payload) p.peer_length
      some (text, true))
    else some (peer, false)

-- set_peer_data(peer, size)
unfoldable pub set_peer_data : Bytes → ℕ → RouterPacket → Option (RouterPacket × Bool)
set_peer_data peer size p = do
  bytes ← memcpy p.payload (header_length + peer_field_length) peer size
  some (record p { peer_length = size; payload = bytes }, true)

-- get_packet_data(packet, size), into a buffer that holds `packet`: it sets the payload's length.
unfoldable pub get_packet_data_into :
    Bytes → ℕ → RouterPacket → Option (RouterPacket × Bytes × Bool)
get_packet_data_into packet size p =
    let total = (size + p.peer_length) % u32_mod in
    do
      region ←
          read p.payload (header_length + peer_field_length + p.peer_length)
            ((total + u32_mod - p.peer_length) % u32_mod)
      bytes ← memcpy packet 0 region (length region)
      some (record p { payload_length = total }, bytes, true)

-- get_packet_data(): the bytes behind the peer's address.
unfoldable pub get_packet_data : RouterPacket → Bytes
get_packet_data p = drop (header_length + peer_field_length + p.peer_length) p.payload

-- set_packet_data(packet, size)
unfoldable pub set_packet_data : Bytes → ℕ → RouterPacket → Option (RouterPacket × Bool)
set_packet_data packet size p = do
  bytes ← memcpy p.payload (header_length + peer_field_length + p.peer_length) packet size
  some (
    record p {
      payload_length = (size + p.peer_length + peer_field_length) % u32_mod;
      payload = bytes;
    },
    true,
  )

-- The frame that async_write sends: data_length() bytes from data().
unfoldable pub frame : RouterPacket → Option Bytes
unfolding data_length
frame p = read p.payload 0 (data_length p)

-- What a read from the socket into the array at `off` leaves.
unfoldable pub arrive : ℕ → Bytes → RouterPacket → Option RouterPacket
arrive off bytes p = do
  region ← memcpy p.payload off bytes (length bytes)
  some (record p { payload = region })

-- The reads of one frame in their order (start_read_from_tcp, handle_read_header,
-- handle_read_payload), for a frame that comes whole.
unfoldable pub receive_frame : Bytes → RouterPacket → Option (RouterPacket × Bool)
receive_frame bytes p = do
  p1 ← arrive 0 (take header_length bytes) p
  (p2, res) ← decode_header p1
  if res
      then (do p3 ← arrive header_length (drop header_length bytes) p2; decode_peer p3)
      else some (p2, false)

-- How SessionManager::deliver_from_udp_peer and RouterSession::set_udp_buffer build the packet of a
-- datagram of n bytes in `buffer`, for the peer's text `peer`; `some none` is their early return.
unfoldable pub build_packet : Bytes → Bytes → ℕ → Option (Option RouterPacket)
build_packet peer buffer n = do
  (p, res) ← set_peer_data peer (length peer) construct
  if res
      then (do
        (q, res') ← set_packet_data buffer n p
        if res' then (do r ← encode_header q; some (some r)) else some none)
      else some none
