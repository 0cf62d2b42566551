-- ===== src/Session/Payload.antt =====
-- What a session does with a payload that came.
use ramses_proxy.Prelude.{
  ℕ, ◌≡◌, ◌<◌, refl, false, some, none, [], ◌∷◌, ◌==◌, ltb, arith, Bool-cases, inl, inr,
  if◌then◌else◌,
}
use ramses_proxy.Packet
use ramses_proxy.Packet.{IsWhole}
use ramses_proxy.Packet.Peer.{peer_field, decode_peer-field}
use ramses_proxy.AdrTuple.{AddressApi}
use ramses_proxy.Session.{Session, read_header, handle_read_payload, accept_payload}

module _ (api : AddressApi) where
  -- A payload of one byte or more that came without an error, into an array of 1032 bytes. If the number
  -- in its peer field is at most the payload's length, the packet that came is handed on, with that
  -- number as the length of its peer's text, and the session reads the next header. If it is greater,
  -- nothing is handed on, and the session starts nothing: it neither reads on nor gives up. Either way
  -- the session's packet is cleared, and nothing else of the session changes.
  pub handle_read_payload_lem :
      (s : Session api) (n : ℕ)
      → IsWhole s.from_tcp
      → 0 < n
      → handle_read_payload api false n s
        ≡ some (
            if ltb s.from_tcp.payload_length (peer_field s.from_tcp)
            then (record s { from_tcp = Packet.clear }, [], none)
            else (
              record s { from_tcp = Packet.clear },
              read_header ∷ [],
              some (record (s.from_tcp) { peer_length = peer_field s.from_tcp }),
            ))
  unfolding handle_read_payload accept_payload
  handle_read_payload_lem s n whole some_bytes =
      let came : (n == 0) ≡ false = ground arith in
      rw (came, decode_peer-field s.from_tcp whole)
        (elim (Bool-cases (ltb s.from_tcp.payload_length (peer_field s.from_tcp))) [
          | inl big ↦ rw big refl
          | inr small ↦ rw small refl
        ])
