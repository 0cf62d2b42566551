-- ===== src/Packet/RoundTrip.antt =====
-- What the peer of the relay reads from a frame is what the relay put into it.
pub mod Steps
use ramses_proxy.Prelude.{
  ℕ, zero, suc, ◌+◌, ◌-◌, ◌%◌, ◌^◌, ◌<◌, ◌≤◌, ◌≡◌, refl, ap, ◌∙◌, true, false, some, [], ◌∷◌, ◌++◌,
  Bytes, append_assoc, length, length-append, length-take, length-drop, replicate, take, drop,
  take_all, take-append_exact, drop-append_exact, drop-drop, ltb, arith,
}
use ramses_proxy.Memory.{read, strncat}
use ramses_proxy.Memory.Laws.{
  memcpy-append_over, memcpy_in_bounds, read_in_bounds, NoNul, NoNul-append, read_string-append,
}
use ramses_proxy.Decimal.{atoi, to_unsigned, sprintf_4d}
use ramses_proxy.Decimal.RoundTrip.{
  length-sprintf_4d, atoi-sprintf_4d, AllDigits, decimal-AllDigits,
}
use ramses_proxy.Packet.{
  RouterPacket, IsWhole, decode_header, decode_peer, get_peer_data, get_packet_data,
  packet_data_length, frame, receive_frame, build_packet, arrive,
}
use ramses_proxy.Packet.Layout.{layout, built, build_packet_layout}
use ramses_proxy.Packet.Fields.{decode_header-field, decode_peer-field, drop-fields}

module _ (peer buffer : Bytes) (n : ℕ) (h : n ≤ length buffer)
    (k : length peer + n + 4 ≤ 1024) where
  abbrev total : ℕ
  total = n + length peer + 4

  abbrev body : Bytes
  body = take n buffer

  -- The bytes behind the length field.
  abbrev behind : Bytes
  behind = sprintf_4d (length peer) ++ (peer ++ body)

  length-body : length body ≡ n
  length-body = length-take n buffer ∙ omega arith

  length-behind : length behind ≡ total
  length-behind = omega (
    arith,
    length-append (sprintf_4d (length peer)) (peer ++ body),
    length-append peer body,
    length-body,
    length-sprintf_4d (length peer) (omega arith),
  )

  abbrev rest : Bytes
  rest = replicate (1024 - length peer - n) 0

  regroup :
      (tail : Bytes)
      → layout (sprintf_4d total) (sprintf_4d (length peer)) peer body tail
        ≡ (sprintf_4d total ++ behind) ++ tail
  regroup tail = simp append_assoc

  -- The frame holds the two fields, the peer's text and the datagram, and nothing else.
  pub frame-built : frame (built peer buffer n) ≡ some (sprintf_4d total ++ behind)
  unfolding frame built
  frame-built =
      let wrap : (4 + total) % 2 ^ 32 ≡ 4 + total = omega arith in
      let whole : length (sprintf_4d total ++ behind) ≡ 4 + total = omega (
        arith,
        length-append (sprintf_4d total) behind,
        length-sprintf_4d total (omega arith),
        length-behind,
      ) in
      rw (wrap, regroup rest)
        (read_in_bounds ((sprintf_4d total ++ behind) ++ rest) 0 (4 + total)
            (omega (arith, length-append (sprintf_4d total ++ behind) rest))
          ∙ rw (take-append_exact (4 + total) (sprintf_4d total ++ behind) rest whole))

  -- What the other side holds when the whole frame has come, over an array that held `old`.
  pub received : RouterPacket → RouterPacket
  received r = record {
    payload_length = total;
    peer_length = length peer;
    payload =
        layout (sprintf_4d total) (sprintf_4d (length peer)) peer body
          (drop total (drop 4 r.payload));
  }

  module _ (r : RouterPacket) (whole : IsWhole r) where
    r1 : RouterPacket
    r1 = record r { payload = sprintf_4d total ++ drop 4 r.payload }

    header_comes : arrive 0 (sprintf_4d total) r ≡ some r1
    unfolding arrive r1
    header_comes =
        rw
          (
            length-sprintf_4d total (omega arith),
            memcpy_in_bounds r.payload 0 (sprintf_4d total) 4
                (omega (arith, length-sprintf_4d total (omega arith))) (omega arith),
          )
          (rw (take_all 4 (sprintf_4d total) (length-sprintf_4d total (omega arith))))

    header_decodes : decode_header r1 ≡ some (record r1 { payload_length = total }, true)
    header_decodes =
        decode_header-field r1 total (drop 4 r.payload) (unfold r1 in refl) (omega arith)

    payload_comes :
        arrive 4 behind (record r1 { payload_length = total })
        ≡ some (record (received r) { peer_length = r.peer_length })
    unfolding arrive r1 received
    payload_comes =
        rw
          (
            length-behind,
            memcpy-append_over (sprintf_4d total) (drop 4 r.payload) behind 4 total
                (length-sprintf_4d total (omega arith)) (omega (arith, length-behind))
                (omega (arith, length-drop 4 r.payload)),
          )
          (rw (take_all total behind length-behind)
            (rw (append_assoc (sprintf_4d (length peer)) (peer ++ body), append_assoc peer body)))

    peer_decodes :
        decode_peer (record (received r) { peer_length = r.peer_length }) ≡ some (received r, true)
    unfolding received
    peer_decodes =
        decode_peer-field _ (length peer) (sprintf_4d total) _
          (length-sprintf_4d total (omega arith)) refl (omega arith) (omega arith)

    pub frame_comes : receive_frame (sprintf_4d total ++ behind) r ≡ some (received r, true)
    unfolding receive_frame
    frame_comes =
        let e : length (sprintf_4d total) ≡ 4 = length-sprintf_4d total (omega arith) in
        rw
          (
            take-append_exact 4 (sprintf_4d total) behind e,
            drop-append_exact 4 (sprintf_4d total) behind e,
          )
          (rw (header_comes, header_decodes, payload_comes, peer_decodes))

    pub behind_fields :
        drop 8 (received r).payload ≡ peer ++ (body ++ drop total (drop 4 r.payload))
    unfolding received
    behind_fields =
        drop-fields (sprintf_4d total) (sprintf_4d (length peer)) _
          (length-sprintf_4d total (omega arith)) (length-sprintf_4d (length peer) (omega arith))

    pub peer_text :
        NoNul peer
        → 0 < length peer
        → length peer < 128
        → get_peer_data [] 128 (received r) ≡ some (peer, true)
    unfolding get_peer_data strncat received
    peer_text clean low high =
        let lower : ltb 0 (length peer) ≡ true = ground arith in
        let upper : ltb (length peer) 128 ≡ true = ground arith in
        let buffer_lower : ltb (0 + length peer) 128 ≡ true = ground arith in
        rw (lower, upper, behind_fields)
          (rw (read_string-append peer _ (length peer) clean refl) (rw buffer_lower))

    pub data_size : packet_data_length (received r) ≡ n
    unfolding packet_data_length received
    data_size = omega arith

    pub data_bytes : take n (get_packet_data (received r)) ≡ body
    unfolding get_packet_data received
    data_bytes =
        rw (← drop-drop (length peer) 8, behind_fields)
          (rw (drop-append_exact (length peer) peer) (take-append_exact n body _ length-body))

    received_long : 8 + length peer + n ≤ length (received r).payload
    unfolding received
    received_long =
        let tail = drop total (drop 4 r.payload) in
        omega (
          arith,
          ap length (regroup tail),
          length-append (sprintf_4d total ++ behind) tail,
          length-append (sprintf_4d total) behind,
          length-behind,
          length-sprintf_4d total (omega arith),
        )

    -- The body that the relay sends on is the datagram.
    pub body-read :
        read (received r).payload (8 + (received r).peer_length) (packet_data_length (received r))
        ≡ some body
    body-read = rw data_size (
        read_in_bounds (received r).payload (8 + (received r).peer_length) n
          (unfold received in received_long)
        ∙ ap some (unfold get_packet_data in data_bytes))

-- A datagram that takes 1020 bytes at most with its peer's text, which has no NUL and between 1 and
-- 127 bytes, is built into a frame; from that frame the other side, whatever its packet held before,
-- reads the peer's text and the datagram's size and bytes.
pub receive_frame-build_packet :
    (peer buffer : Bytes) (n : ℕ) (r : RouterPacket)
    → n ≤ length buffer
    → length peer + n + 4 ≤ 1024
    → NoNul peer
    → 0 < length peer
    → length peer < 128
    → IsWhole r
    → (p : RouterPacket) × (w : Bytes) × (q : RouterPacket) × (build_packet peer buffer n
        ≡ some (some p))
      × (frame p ≡ some w)
      × (receive_frame w r ≡ some (q, true))
      × (get_peer_data [] 128 q ≡ some (peer, true))
      × (packet_data_length q ≡ n)
      × (take n (get_packet_data q) ≡ take n buffer)
receive_frame-build_packet peer buffer n r h k clean low high whole = (
  built peer buffer n,
  _,
  received peer buffer n h k r,
  build_packet_layout peer buffer n h (omega arith),
  frame-built peer buffer n h k,
  frame_comes peer buffer n h k r whole,
  peer_text peer buffer n h k r whole clean low high,
  data_size peer buffer n h k r whole,
  data_bytes peer buffer n h k r whole,
)
