-- ===== src/Packet/Copying.antt =====
-- The copy that std::deque::push_back makes of a packet.
use ramses_proxy.Prelude.{
  ℕ, ◌+◌, ◌-◌, ◌%◌, ◌^◌, ◌<◌, ◌≤◌, ◌≡◌, ◌⊎◌, refl, ◌∙◌, true, false, none, some, Option, ◌++◌,
  Bytes, length, length-drop, length-append, length-replicate, length-take, take, drop,
  take-append_le, take-take, ltb, leb, arith, ◌>>=◌, inl, inr, Bool-cases, replicate,
}
use ramses_proxy.Memory.{read}
use ramses_proxy.Memory.Laws.{memcpy_in_bounds, memcpy_out_of_bounds}
use ramses_proxy.Decimal.{sprintf_4d}
use ramses_proxy.Decimal.RoundTrip.{length-sprintf_4d}
use ramses_proxy.Packet.{RouterPacket, IsWhole, copy_length, copy_construct, frame, build_packet}
use ramses_proxy.Packet.Layout.{built, build_packet_layout}
use ramses_proxy.Packet.Bounds.{build_packet_overflow}

-- The array after copy(): the fields, the peer's text and the datagram, and eight bytes more.
copied : Bytes → RouterPacket → RouterPacket
copied raw p = record p { payload = take (copy_length p) p.payload ++ drop (copy_length p) raw }

copy_construct-copied :
    (raw : Bytes) (p : RouterPacket)
    → length raw ≡ 1032
    → IsWhole p
    → 0 < p.payload_length
    → copy_length p ≤ 1032
    → copy_construct raw p ≡ some (copied raw p)
unfolding copy_construct copied
copy_construct-copied raw p wr wp low high =
    let t : ltb 0 p.payload_length ≡ true = ground arith in
    rw (t, memcpy_in_bounds raw 0 p.payload (copy_length p) (omega arith) (omega arith))
      (let z : 0 + copy_length p ≡ copy_length p = omega arith in rw z)

-- The frame does not go behind the bytes that were copied, unless it goes behind the whole array.
frame-copied :
    (raw : Bytes) (p : RouterPacket)
    → length raw ≡ 1032
    → IsWhole p
    → copy_length p ≤ 1032
    → (frame (copied raw p) ≡ frame p) × IsWhole (copied raw p)
unfolding frame copied read
frame-copied raw p wr wp high =
    let m = copy_length p in
    let k = (4 + p.payload_length) % 2 ^ 32 in
    let front = take m p.payload in
    let back = drop m raw in
    let cut : length front ≡ m = omega (arith, length-take m p.payload) in
    let whole : length (front ++ back) ≡ 1032 =
      omega (arith, length-append front back, length-drop m raw) in
    elim (Bool-cases (leb k m)) [
      | inl inside ↦
          let same : take k (front ++ back) ≡ take k p.payload =
            take-append_le k front back (ground arith) ∙ take-take k m p.payload (ground arith) in
          (rw (whole, wp, same), whole)
      | inr behind ↦
          let far : leb (0 + k) 1032 ≡ false = ground arith in (rw (whole, wp, far), whole)
    ]

-- A copy into a storage of 1032 bytes ends exactly for payload lengths up to 1024, and then the
-- copy has the same frame and lengths.
pub copy_construct-frame :
    (raw : Bytes) (p : RouterPacket)
    → length raw ≡ 1032
    → IsWhole p
    → 0 < p.payload_length
    → p.payload_length ≤ 1024
    → (q : RouterPacket) × (copy_construct raw p ≡ some q)
      × (frame q ≡ frame p)
      × (q.payload_length ≡ p.payload_length)
      × (q.peer_length ≡ p.peer_length)
      × IsWhole q
copy_construct-frame raw p wr wp low high =
    let (same, whole) = frame-copied raw p wr wp (omega arith) in
    (
      copied raw p,
      copy_construct-copied raw p wr wp low (omega arith),
      same,
      unfold copied in refl,
      unfold copied in refl,
      whole,
    )

pub copy_construct_overflow :
    (raw : Bytes) (p : RouterPacket)
    → length raw ≡ 1032
    → 0 < p.payload_length
    → 1032 < copy_length p
    → copy_construct raw p ≡ none
unfolding copy_construct
copy_construct_overflow raw p wr low high =
    let t : ltb 0 p.payload_length ≡ true = ground arith in
    rw (t, memcpy_out_of_bounds raw 0 p.payload (copy_length p) (omega arith))

-- A copy that ends has the frame of the packet.
pub copy_construct_same_frame :
    (raw : Bytes) (p c : RouterPacket)
    → length raw ≡ 1032
    → IsWhole p
    → 0 < p.payload_length
    → copy_construct raw p ≡ some c
    → frame c ≡ frame p
copy_construct_same_frame raw p c wr wp low e = elim (Bool-cases (leb (copy_length p) 1032)) [
  | inl small ↦
      let eq = copy_construct-copied raw p wr wp low (ground arith) in
      let same_packet : c ≡ copied raw p = cc in
      rw same_packet (frame-copied raw p wr wp (ground arith)).0
  | inr big ↦ let fails = copy_construct_overflow raw p wr low (ground arith) in cc
]

-- A packet is built from a datagram and copied into a queue's new element; `some none` is the
-- early return of the callers.
pub queued_packet : Bytes → Bytes → Bytes → ℕ → Option (Option RouterPacket)
queued_packet raw peer buffer n = do
  maybe_packet ← build_packet peer buffer n
  elim maybe_packet [ none ↦ some none | some p ↦ (do q ← copy_construct raw p; some (some q)) ]

pub built-IsWhole :
    (peer buffer : Bytes) (n : ℕ)
    → n ≤ length buffer
    → length peer + n ≤ 1024
    → IsWhole (built peer buffer n)
unfolding built
built-IsWhole peer buffer n h k =
    let field = sprintf_4d (n + length peer + 4) in
    let field' = sprintf_4d (length peer) in
    let body = take n buffer in
    let rest : Bytes = replicate (1024 - length peer - n) 0 in
    omega (
      arith,
      length-append field (field' ++ (peer ++ (body ++ rest))),
      length-append field' (peer ++ (body ++ rest)),
      length-append peer (body ++ rest),
      length-append body rest,
      length-take n buffer,
      length-replicate {A = ℕ} (1024 - length peer - n) 0,
      length-sprintf_4d (n + length peer + 4) (omega arith),
      length-sprintf_4d (length peer) (omega arith),
    )

module _ (raw peer buffer : Bytes) (n : ℕ) (wr : length raw ≡ 1032) (h : n ≤ length buffer) where
  pub queued_packet_fits :
      length peer + n ≤ 1020
      → (q : RouterPacket) × (queued_packet raw peer buffer n ≡ some (some q))
        × (frame q ≡ frame (built peer buffer n))
        × IsWhole q
  unfolding queued_packet built
  queued_packet_fits fits =
      let (q, e, same, _, _, whole) =
        copy_construct-frame raw (built peer buffer n) wr
          (built-IsWhole peer buffer n h (omega arith)) (omega arith) (omega arith) in
      (q, rw (build_packet_layout peer buffer n h (omega arith)) (rw e), same, whole)

  pub queued_packet_overflow : 1020 < length peer + n → queued_packet raw peer buffer n ≡ none
  unfolding queued_packet built
  queued_packet_overflow over = elim (Bool-cases (leb (length peer + n) 1024)) [
    | inl small ↦
        rw (build_packet_layout peer buffer n h (ground arith))
          (rw (copy_construct_overflow raw (built peer buffer n) wr (omega arith) (ground arith)))
    | inr big ↦ rw (build_packet_overflow peer buffer n h (ground arith))
  ]

-- A datagram of n bytes for a peer's text is built and queued within the arrays exactly if the two
-- take 1020 bytes at most; then the queued packet has the frame of the built one.
pub queued_packet_exact :
    (raw peer buffer : Bytes) (n : ℕ)
    → length raw ≡ 1032
    → n ≤ length buffer
    → ((length peer + n ≤ 1020)
        × ((q : RouterPacket) × (queued_packet raw peer buffer n ≡ some (some q))
            × (frame q ≡ frame (built peer buffer n))
            × IsWhole q))
      ⊎ ((1020 < length peer + n) × (queued_packet raw peer buffer n ≡ none))
queued_packet_exact raw peer buffer n wr h = elim (Bool-cases (leb (length peer + n) 1020)) [
  | inl fits ↦
      let small : length peer + n ≤ 1020 = ground arith in
      inl (small, queued_packet_fits raw peer buffer n wr h small)
  | inr over ↦
      let big : 1020 < length peer + n = ground arith in
      inr (big, queued_packet_overflow raw peer buffer n wr h big)
]
