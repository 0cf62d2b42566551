-- ===== src/Packet/Peer.antt =====
-- What decode_peer reads.
use ramses_proxy.Prelude.{
  ℕ, ◌+◌, zero, suc, ◌≡◌, ◌≤◌, refl, true, false, some, Bool-cases, inl, inr, [], ◌∷◌, Bytes, ◌==◌,
  ltb, if◌then◌else◌, arith, length, length-drop, take, drop,
}
use ramses_proxy.Decimal.{atoi, to_unsigned}
use ramses_proxy.Memory.{read_string, strncat, c_str}
use ramses_proxy.Packet.{RouterPacket, IsWhole, decode_peer, accept_peer}

read_string_reads :
    (n : ℕ) (src : Bytes) → n ≤ length src → read_string n src ≡ some (c_str (take n src))
unfolding read_string c_str
read_string_reads zero src h = refl
read_string_reads (suc n) [] h = absurd (omega arith)
read_string_reads (suc n) (c ∷ src) h = elim (Bool-cases (c == 0)) [
  | inl e ↦ rw (read_string, c_str, e) refl
  | inr e ↦ rw (read_string, c_str, e, read_string_reads n src (omega arith)) refl
]

c_str-take_short : (n : ℕ) (src : Bytes) → length (c_str (take n src)) ≤ n
unfolding c_str
c_str-take_short zero src = omega arith
c_str-take_short (suc n) [] = omega arith
c_str-take_short (suc n) (c ∷ src) = elim (Bool-cases (c == 0)) [
  | inl e ↦ rw (c_str, e) (omega arith)
  | inr e ↦ rw (c_str, e) (omega (arith, c_str-take_short n src))
]

-- The number in the four bytes behind the header, which end at a NUL if they hold one.
abbrev pub peer_field : RouterPacket → ℕ
peer_field p = to_unsigned 32 (atoi (c_str (take 4 (drop 4 p.payload))))

-- decode_peer takes that number as the length of the peer's text, and accepts it, unless it is greater
-- than the payload's length; then it sets the length to 0 and refuses.
pub decode_peer-field :
    (p : RouterPacket)
    → IsWhole p
    → decode_peer p
      ≡ some (
          if ltb p.payload_length (peer_field p)
          then (record p { peer_length = 0 }, false)
          else (record p { peer_length = peer_field p }, true))
unfolding decode_peer strncat accept_peer
decode_peer-field p whole =
    let rest = drop 4 p.payload in
    let fits : ltb (0 + length (c_str (take 4 rest))) 5 ≡ true =
      ground (arith, c_str-take_short 4 rest) in
    rw (read_string_reads 4 rest (omega (arith, length-drop 4 p.payload))) (rw fits refl)
