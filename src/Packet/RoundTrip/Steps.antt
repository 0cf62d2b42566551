-- ===== src/Packet/RoundTrip/Steps.antt =====
-- The two reads of a frame one by one, and the copy of what they leave.
use ramses_proxy.Prelude.{
  ℕ, ◌+◌, ◌%◌, ◌^◌, ◌<◌, ◌≤◌, ◌≡◌, refl, ap, sym, ◌∙◌, true, some, ◌++◌, Bytes, length,
  length-append, length-drop, take, drop, drop-drop, take-append_exact, drop-append_exact,
  take-append-drop, arith,
}
use ramses_proxy.Memory.Laws.{read_in_bounds}
use ramses_proxy.Decimal.{sprintf_4d}
use ramses_proxy.Decimal.RoundTrip.{length-sprintf_4d}
use ramses_proxy.Packet.{
  RouterPacket, IsWhole, decode_header, decode_peer, frame, arrive, copy_construct,
}
use ramses_proxy.Packet.Copying.{copy_construct-frame}
use ramses_proxy.Packet.RoundTrip.{
  total, behind, length-behind, regroup, received, r1, header_comes, header_decodes, payload_comes,
  peer_decodes,
}

-- The frame w comes in two reads over the packet r, and decodes to q.
pub record Comes (w : Bytes) (r q : RouterPacket) : Type 0 where
  pub header : RouterPacket
  pub header_read : arrive 0 (take 4 w) r ≡ some header
  pub sized : RouterPacket
  pub header_decoded : decode_header header ≡ some (sized, true)
  pub asked : sized.payload_length ≡ length (drop 4 w)
  pub payload : RouterPacket
  pub payload_read : arrive 4 (drop 4 w) sized ≡ some payload
  pub peer_decoded : decode_peer payload ≡ some (q, true)

module _ (peer buffer : Bytes) (n : ℕ) (h : n ≤ length buffer)
    (k : length peer + n + 4 ≤ 1024) where
  -- The bytes of the frame.
  abbrev pub wire : Bytes
  wire = sprintf_4d (total peer buffer n h k) ++ behind peer buffer n h k

  field : length (sprintf_4d (total peer buffer n h k)) ≡ 4
  field = length-sprintf_4d (total peer buffer n h k) (omega arith)

  pub wire_long : 0 < length (drop 4 wire)
  wire_long = omega (
    arith,
    ap length (
        drop-append_exact 4 (sprintf_4d (total peer buffer n h k)) (behind peer buffer n h k)
          field),
    length-behind peer buffer n h k,
  )

  pub received-Comes : (r : RouterPacket) → IsWhole r → Comes wire r (received peer buffer n h k r)
  received-Comes r whole =
      let front : take 4 wire ≡ sprintf_4d (total peer buffer n h k) =
        take-append_exact 4 _ (behind peer buffer n h k) field in
      let back : drop 4 wire ≡ behind peer buffer n h k =
        drop-append_exact 4 _ (behind peer buffer n h k) field in
      record {
        header = r1 peer buffer n h k r whole;
        header_read = rw front (header_comes peer buffer n h k r whole);
        sized = record (r1 peer buffer n h k r whole) { payload_length = total peer buffer n h k };
        header_decoded = header_decodes peer buffer n h k r whole;
        asked = rw back (sym (length-behind peer buffer n h k));
        payload = record (received peer buffer n h k r) { peer_length = r.peer_length };
        payload_read = rw back (payload_comes peer buffer n h k r whole);
        peer_decoded = peer_decodes peer buffer n h k r whole;
      }

  -- A packet of the same frame and lengths is what the frame leaves over it.
  frame-received :
      (q : RouterPacket)
      → IsWhole q
      → frame q ≡ some wire
      → q.payload_length ≡ total peer buffer n h k
      → q.peer_length ≡ length peer
      → q ≡ received peer buffer n h k q
  unfolding received frame
  frame-received q whole e size peers =
      λ i. record { payload_length = size i; peer_length = peers i; payload = bytes i }
    where
      m : ℕ
      m = 4 + total peer buffer n h k

      reads : frame q ≡ some (take m q.payload)
      reads =
          let wraps : (4 + q.payload_length) % 2 ^ 32 ≡ m = omega (arith, size) in
          rw wraps (read_in_bounds q.payload 0 m (omega (arith, size, whole)))

      taken : take m q.payload ≡ wire
      taken = let both : some (take m q.payload) ≡ some wire = sym reads ∙ e in cc

      bytes : q.payload ≡ (received peer buffer n h k q).payload
      bytes =
          sym (take-append-drop m q.payload)
          ∙ ap (λ z. z ++ drop m q.payload) taken
          ∙ ap (λ z. wire ++ z) (sym (drop-drop (total peer buffer n h k) 4 q.payload))
          ∙ sym (regroup peer buffer n h k _)

  frame_of_received : (r : RouterPacket) → frame (received peer buffer n h k r) ≡ some wire
  unfolding frame received
  frame_of_received r =
      let wraps : (4 + total peer buffer n h k) % 2 ^ 32 ≡ 4 + total peer buffer n h k =
        omega arith in
      let whole : length wire ≡ 4 + total peer buffer n h k = omega (
        arith,
        length-append (sprintf_4d (total peer buffer n h k)) (behind peer buffer n h k),
        field,
        length-behind peer buffer n h k,
      ) in
      let tail = drop (total peer buffer n h k) (drop 4 r.payload) in
      rw (wraps, regroup peer buffer n h k tail)
        (read_in_bounds (wire ++ tail) 0 (4 + total peer buffer n h k)
            (omega (arith, length-append wire tail, whole))
          ∙ rw (take-append_exact (4 + total peer buffer n h k) wire tail whole))

  received-IsWhole : (r : RouterPacket) → IsWhole r → IsWhole (received peer buffer n h k r)
  unfolding received
  received-IsWhole r whole =
      let tail = drop (total peer buffer n h k) (drop 4 r.payload) in
      omega (
        arith,
        ap length (regroup peer buffer n h k tail),
        length-append wire tail,
        length-append (sprintf_4d (total peer buffer n h k)) (behind peer buffer n h k),
        field,
        length-behind peer buffer n h k,
        length-drop (total peer buffer n h k) (drop 4 r.payload),
        length-drop 4 r.payload,
      )

  -- The queue's copy of a frame that came is again what the frame leaves over some array.
  pub copy_construct-received :
      (raw : Bytes) (r : RouterPacket)
      → length raw ≡ 1032
      → IsWhole r
      → (r' : RouterPacket) × IsWhole r'
        × (copy_construct raw (received peer buffer n h k r) ≡ some (received peer buffer n h k r'))
  copy_construct-received raw r wr whole =
      let p = received peer buffer n h k r in
      let (q, e, same, size, peers, whole') =
        copy_construct-frame raw p wr (received-IsWhole r whole) (unfold received in omega arith)
          (unfold received in omega arith) in
      (
        q,
        whole',
        e
            ∙ ap some (
                frame-received q whole' (same ∙ frame_of_received r)
                  (size ∙ unfold received in refl) (peers ∙ unfold received in refl)),
      )
