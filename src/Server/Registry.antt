-- ===== src/Server/Registry.antt =====
-- The map of the sessions says which session serves which peer.
use ramses_proxy.Prelude.{
  ℕ, ◌≡◌, refl, Bool, Option, none, some, List, [], ◌∷◌, Bytes, length, get_elem?,
  get_elem?-append_end, arith, if◌then◌else◌,
}
use ramses_proxy.Outcome.{ok}
use ramses_proxy.Packet.{RouterPacket}
use ramses_proxy.AdrTuple.{AddressApi, AdrTuple, eq}
use ramses_proxy.AdrTuple.Order.{less_irrefl, less_total, eq_iff}
use ramses_proxy.Params.{Params}
use ramses_proxy.Session.{
  Session, Action, add_router_packet, deliver_to_tcp_peer, start, set_adr_tuple,
}
use ramses_proxy.Server.{
  Server, SessionsMap, UdpEndpoint, find, session_of, add_session, remove_session, update,
  handle_connection_failed, add_packet_to, create_session, start_receive, handle_receive,
}
pub use ramses_proxy.Server.Branches.{Ends, Ends-map}
use ramses_proxy.Server.Branches.{
  add_packet_to-Ends, dispatch-Ends, deliver_from_udp_peer-Ends, handle_receive-Ends,
  handle_connection_failed-Ends,
}
use ramses_proxy.Server.Owned.{Owns, Owns-set, Owns-append, Owns-assign, Owns-erase}
use ramses_proxy.Server.Map.{IsSorted, find_below, assign-IsSorted, erase-IsSorted, find-erase}

module _ (api : AddressApi) where
  pub record IsRegistered (st : Server api) : Type 0 where
    pub sorted : IsSorted api st.udp_sessions
    pub owned : Owns api st.sessions st.udp_sessions

  -- In a map with rising keys, each the address of the session that it names, the loop that compares
  -- the sessions' own addresses finds what the map's find finds by its keys.
  pub session_of-find :
      (sessions : List (Session api)) (m : SessionsMap api) (adr : AdrTuple api)
      → IsSorted api m
      → Owns api sessions m
      → session_of api sessions m adr ≡ ok (find api adr m)
  unfolding session_of find
  session_of-find sessions [] adr h o = refl
  session_of-find sessions ((k, i) ∷ m) adr h ((s, e, same), o) =
      rw (e, same, session_of-find sessions m adr h.1 o)
        (ground (
          arith,
          eq_iff api k adr,
          less_irrefl api adr,
          less_total api adr k,
          find_below api adr k m,
        ))

  pub remove_session-IsRegistered :
      (adr : AdrTuple api) (st : Server api)
      → IsRegistered st
      → IsRegistered (remove_session api adr st)
  unfolding remove_session
  remove_session-IsRegistered adr st v = record {
    sorted = erase-IsSorted api adr st.udp_sessions v.sorted;
    owned = Owns-erase api st.sessions adr st.udp_sessions v.owned;
  }

  -- add_router_packet leaves the session's address alone.
  pub add_router_packet-udp_tuple :
      (params : Option Params) (raw : Bytes) (p : RouterPacket) (s t : Session api)
      (ops : List (Action api))
      → add_router_packet api params raw p s ≡ some (t, ops)
      → t.udp_tuple ≡ s.udp_tuple
  unfolding add_router_packet deliver_to_tcp_peer start
  add_router_packet-udp_tuple params raw p s t ops e = ground arith

  pub update-IsRegistered :
      (i : ℕ) (s t : Session api) (ops : List (Action api)) (st : Server api)
      → get_elem? st.sessions i ≡ some s
      → t.udp_tuple ≡ s.udp_tuple
      → IsRegistered st
      → IsRegistered (update api i (t, ops) st)
  update-IsRegistered i s t ops st e same v = record {
    sorted = v.sorted;
    owned = Owns-set api st.sessions i s t st.udp_sessions e same v.owned;
  }

  add_packet_to-IsRegistered :
      (i : ℕ) (raw : Bytes) (p : RouterPacket) (st : Server api)
      → IsRegistered st
      → Ends api IsRegistered (add_packet_to api i raw p st)
  add_packet_to-IsRegistered i raw p st v =
      add_packet_to-Ends api IsRegistered i raw p st (λ s u ops e f.
        update-IsRegistered i s u ops st e (add_router_packet-udp_tuple st.params raw p s u ops f)
          v)

  create_session-IsRegistered :
      (adr : AdrTuple api) (st : Server api)
      → IsRegistered st
      → IsRegistered (create_session api adr st)
  unfolding create_session add_session set_adr_tuple
  create_session-IsRegistered adr st v = record {
    sorted = assign-IsSorted api adr (length st.sessions) st.udp_sessions v.sorted;
    owned =
        Owns-assign api _ adr (length st.sessions) st.udp_sessions
          (_, get_elem?-append_end st.sessions _, refl)
          (Owns-append api st.sessions _ st.udp_sessions v.owned);
  }

  -- A completed receive, with a datagram or with an error, keeps the map in step with the sessions:
  -- if the keys rise and each is the address of the session that it names, then so they do in the
  -- state that the handler leaves, unless it ends by an exception or in undefined behaviour.
  pub handle_receive-IsRegistered :
      (remote : UdpEndpoint api) (raw : Bytes) (error : Bool) (n : ℕ) (st : Server api)
      → IsRegistered st
      → Ends api IsRegistered (handle_receive api remote raw error n st)
  unfolding start_receive
  handle_receive-IsRegistered remote raw error n st v =
      handle_receive-Ends api IsRegistered IsRegistered remote raw error n st
        (λ _.
          deliver_from_udp_peer-Ends api IsRegistered _ raw n st (λ _. v)
            (λ found p e f.
              dispatch-Ends api IsRegistered found _ raw p st
                (λ g.
                  add_packet_to-IsRegistered (length st.sessions) raw p _
                    (create_session-IsRegistered _ st v))
                (λ i g. add_packet_to-IsRegistered i raw p st v)))
        (λ _. remove_session-IsRegistered _ st v)
        (λ t h. record { sorted = h.sorted; owned = h.owned })
        (λ t h. record { sorted = h.sorted; owned = h.owned })

  pub handle_connection_failed-IsRegistered :
      (i : ℕ) (st : Server api)
      → IsRegistered st
      → Ends api IsRegistered (handle_connection_failed api i st)
  handle_connection_failed-IsRegistered i st v =
      handle_connection_failed-Ends api IsRegistered i st
        (λ s e. remove_session-IsRegistered s.udp_tuple st v)

  -- In a state whose map is in step with its sessions, a failed connection of session i takes out of
  -- the map the entry of i's peer, whichever session that entry names, and no other entry.
  pub handle_connection_failed-find :
      (i : ℕ) (st : Server api) (s : Session api) (k : AdrTuple api)
      → IsRegistered st
      → get_elem? st.sessions i ≡ some s
      → (t : Server api) × (handle_connection_failed api i st ≡ ok t)
        × (t.sessions ≡ st.sessions)
        × (find api k t.udp_sessions
            ≡ (if eq api s.udp_tuple k then none else find api k st.udp_sessions))
  unfolding handle_connection_failed remove_session
  handle_connection_failed-find i st s k v e = (
    remove_session api s.udp_tuple st,
    rw e,
    refl,
    find-erase api k s.udp_tuple st.udp_sessions v.sorted,
  )
