-- ===== src/Server/Kept.antt =====
-- What the sends to the UDP peers and the reads from the F1 server keep of the sessions and their map.
use ramses_proxy.Prelude.{
  subst, ℕ, ◌≡◌, refl, ◌∙◌, ap, Bool, Option, none, some, Bytes, length, get_elem?, arith,
}
use ramses_proxy.Outcome.{Outcome, ok, thrown, fault, ◌>>=◌}
use ramses_proxy.Packet.{RouterPacket}
use ramses_proxy.AdrTuple.{AddressApi}
use ramses_proxy.Session.{Session}
use ramses_proxy.Session.Peer.{handle_read_payload-Serves, PayloadServes}
use ramses_proxy.Server.{
  Server, deliver_to_udp_peer, handle_deliver_to_udp_peer, handle_read_payload, add_tcp_packet,
  deliver, deliver_to_udp_peer_session, pop_tcp_packet, peek_tcp_packet, send_packet,
}
use ramses_proxy.Prelude.{set}
use ramses_proxy.Server.Owned.{Owns-set}
use ramses_proxy.Server.Branches.{Ends, Ends-ok, handle_read_payload-Ends}
use ramses_proxy.Server.Registry.{IsRegistered}

module _ (api : AddressApi) where
  -- The sessions and their map are those of st.
  pub record SameSessions (st t : Server api) : Type 0 where
    pub sessions : t.sessions ≡ st.sessions
    pub udp_sessions : t.udp_sessions ≡ st.udp_sessions

  deliver_to_udp_peer-SameSessions :
      (st t : Server api) → deliver_to_udp_peer api st ≡ ok t → SameSessions st t
  unfolding deliver_to_udp_peer send_packet pop_tcp_packet peek_tcp_packet
  deliver_to_udp_peer-SameSessions st t e = record {
    sessions = ground arith;
    udp_sessions = ground arith;
  }

  pub handle_deliver_to_udp_peer-SameSessions :
      (error : Bool) (st t : Server api)
      → handle_deliver_to_udp_peer api error st ≡ ok t
      → SameSessions st t
  unfolding handle_deliver_to_udp_peer pop_tcp_packet deliver_to_udp_peer send_packet
      peek_tcp_packet
  handle_deliver_to_udp_peer-SameSessions error st t e = record {
    sessions = ground arith;
    udp_sessions = ground arith;
  }

  add_tcp_packet-SameSessions :
      (raw : Bytes) (p : RouterPacket) (st t : Server api)
      → add_tcp_packet api raw p st ≡ ok t
      → SameSessions st t
  unfolding add_tcp_packet pop_tcp_packet deliver_to_udp_peer send_packet peek_tcp_packet
  add_tcp_packet-SameSessions raw p st t e = record {
    sessions = ground arith;
    udp_sessions = ground arith;
  }

  -- What a handler of the server leaves has the sessions of st.
  abbrev pub Leaves : Server api → Outcome (Server api) → Type 0
  Leaves st r = Ends api (SameSessions st) r

  deliver-Leaves :
      (i : ℕ) (delivery : Option RouterPacket) (raw : Bytes) (st : Server api)
      → Leaves st (deliver api i delivery raw st)
  unfolding deliver deliver_to_udp_peer_session
  deliver-Leaves i none raw st = record { sessions = refl; udp_sessions = refl }
  deliver-Leaves i (some p) raw st =
      go (add_tcp_packet api raw p st) (add_tcp_packet-SameSessions raw p st)
    where
      go :
          (r : Outcome (Server api))
          → ((t : Server api) → r ≡ ok t → SameSessions st t)
          → Leaves st (do t ← r; deliver_to_udp_peer_session api i t)
      go (ok t) f = Ends-ok api (SameSessions st) (deliver_to_udp_peer api t) (λ u e.
          let first = f t refl in
          let second = deliver_to_udp_peer-SameSessions t u e in
          record {
            sessions = second.sessions ∙ first.sessions;
            udp_sessions = second.udp_sessions ∙ first.udp_sessions;
          })
      go thrown f = tt
      go fault f = tt

  pub kept-IsRegistered :
      (st t : Server api) → SameSessions st t → IsRegistered api st → IsRegistered api t
  kept-IsRegistered st t same v = record {
    sorted = rw (same.udp_sessions) v.sorted;
    owned = rw (same.udp_sessions, same.sessions) v.owned;
  }

  -- Session i has changed, but for its peer, and the map has not.
  pub record Moves (i : ℕ) (st t : Server api) : Type 0 where
    pub old : Session api
    pub new : Session api
    pub at : get_elem? st.sessions i ≡ some old
    pub same : new.udp_tuple ≡ old.udp_tuple
    pub sessions : t.sessions ≡ set st.sessions i new
    pub udp_sessions : t.udp_sessions ≡ st.udp_sessions

  pub handle_read_payload-Moves :
      (i : ℕ) (raw bytes : Bytes) (error : Bool) (st : Server api)
      → Ends api (Moves i st) (handle_read_payload api i raw bytes error st)
  handle_read_payload-Moves i raw bytes error st =
      handle_read_payload-Ends api (Moves i st) i raw bytes error st
        (λ s u packet ops delivery d e f g.
          let h : SameSessions st d = subst (Leaves st) g (deliver-Leaves i delivery raw st) in
          record {
            old = s;
            new = u;
            at = e;
            same = subst (PayloadServes api s.udp_tuple) f (
                handle_read_payload-Serves api error (length bytes)
                  (record s { from_tcp = packet }));
            sessions = ap (λ xs. set xs i u) h.sessions;
            udp_sessions = h.udp_sessions;
          })

  pub moved-IsRegistered :
      (i : ℕ) (st t : Server api) → Moves i st t → IsRegistered api st → IsRegistered api t
  moved-IsRegistered i st t m v = record {
    sorted = rw (m.udp_sessions) v.sorted;
    owned =
        rw (m.udp_sessions, m.sessions)
          (Owns-set api st.sessions i m.old m.new st.udp_sessions m.at m.same v.owned);
  }
