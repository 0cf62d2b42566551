-- ===== src/Server/Reach.antt =====
-- The states that the relay reaches. A step is a whole handler; it may run at any time, so that every
-- order in which the pending operations complete is among the sequences of steps.
use ramses_proxy.Prelude.{ℕ, ◌≤◌, ◌≡◌, subst, Bool, Option, some, List, Bytes, length, get_elem?}
use ramses_proxy.Outcome.{Outcome, ok}
use ramses_proxy.Packet.{RouterPacket, arrive}
use ramses_proxy.AdrTuple.{AddressApi}
use ramses_proxy.Params.{Params}
use ramses_proxy.Session.{
  Session, Action, Endpoints, handle_resolve, handle_connection, handle_deliver_tcp,
  handle_read_header,
}
use ramses_proxy.Session.Handlers.{Holds-some}
use ramses_proxy.Session.Peer.{
  handle_resolve-Serves, handle_connection-Serves, handle_deliver_tcp-Serves,
  handle_read_header-Serves,
}
use ramses_proxy.Server.{
  Server, UdpEndpoint, construct, update, handle_receive, handle_connection_failed,
  handle_deliver_to_udp_peer, handle_read_payload, store_datagram,
}
use ramses_proxy.Server.Registry.{
  IsRegistered, Ends, handle_receive-IsRegistered, handle_connection_failed-IsRegistered,
  update-IsRegistered,
}
use ramses_proxy.Server.Kept.{
  Moves, handle_deliver_to_udp_peer-SameSessions, kept-IsRegistered, handle_read_payload-Moves,
  moved-IsRegistered,
}

module _ (api : AddressApi) where
  -- A handler that touches one session only takes s to t and starts the operations ops.
  pub data Handles (params : Option Params) (s t : Session api) (ops : List (Action api))
      : Type 0 where
    resolves :
        (error : Bool) (es : Endpoints api)
        → handle_resolve api error es s ≡ some (t, ops)
        → Handles params s t ops
    connects :
        (error : Bool) (es : Endpoints api)
        → handle_connection api params error es s ≡ some (t, ops)
        → Handles params s t ops
    writes :
        (error : Bool)
        → handle_deliver_tcp api params error s ≡ some (t, ops)
        → Handles params s t ops
    reads_header :
        (error : Bool) (bytes : Bytes) (packet : RouterPacket)
        → arrive 0 bytes s.from_tcp ≡ some packet
        → handle_read_header api error (length bytes) (record s { from_tcp = packet })
          ≡ some (t, ops)
        → Handles params s t ops

  -- A receive stores the bytes of a datagram before its handler runs.
  pub data Step (st t : Server api) : Type 0 where
    receives :
        (remote : UdpEndpoint api) (raw datagram : Bytes) (error : Bool)
        → length datagram ≤ length st.recv_buffer.bytes
        → handle_receive api remote raw error (length datagram) (store_datagram api datagram st)
          ≡ ok t
        → Step st t
    gives_up : (i : ℕ) → handle_connection_failed api i st ≡ ok t → Step st t
    sends : (error : Bool) → handle_deliver_to_udp_peer api error st ≡ ok t → Step st t
    reads_payload :
        (i : ℕ) (raw bytes : Bytes) (error : Bool)
        → handle_read_payload api i raw bytes error st ≡ ok t
        → Step st t
    handles :
        (i : ℕ) (s u : Session api) (ops : List (Action api))
        → get_elem? st.sessions i ≡ some s
        → Handles st.params s u ops
        → t ≡ update api i (u, ops) st
        → Step st t

  pub data Reach (st : Server api) : Server api → Type 0 where
    here : Reach st st
    next : {t u : Server api} → Reach st t → Step t u → Reach st u

  pub Handles-udp_tuple :
      (params : Option Params) {s t : Session api} {ops : List (Action api)}
      → Handles params s t ops
      → t.udp_tuple ≡ s.udp_tuple
  Handles-udp_tuple params {s} {t} {ops} (resolves error es e) =
      Holds-some api (λ t ops. t.udp_tuple ≡ s.udp_tuple) _ t ops
        (handle_resolve-Serves api error es s) e
  Handles-udp_tuple params {s} {t} {ops} (connects error es e) =
      Holds-some api (λ t ops. t.udp_tuple ≡ s.udp_tuple) _ t ops
        (handle_connection-Serves api params error es s) e
  Handles-udp_tuple params {s} {t} {ops} (writes error e) =
      Holds-some api (λ t ops. t.udp_tuple ≡ s.udp_tuple) _ t ops
        (handle_deliver_tcp-Serves api params error s) e
  Handles-udp_tuple params {s} {t} {ops} (reads_header error bytes packet came e) =
      Holds-some api (λ t ops. t.udp_tuple ≡ s.udp_tuple) _ t ops
        (handle_read_header-Serves api error (length bytes) (record s { from_tcp = packet })) e

  Ends-ok :
      (r : Outcome (Server api)) (t : Server api)
      → Ends api (IsRegistered api) r
      → r ≡ ok t
      → IsRegistered api t
  Ends-ok r t h e = subst (Ends api (IsRegistered api)) e h

  pub Step-IsRegistered : {st t : Server api} → IsRegistered api st → Step st t → IsRegistered api t
  Step-IsRegistered {st} {t} v (receives remote raw datagram error h e) =
      Ends-ok _ t
        (handle_receive-IsRegistered api remote raw error (length datagram) _
          (record { sorted = v.sorted; owned = v.owned }))
        e
  Step-IsRegistered {st} {t} v (gives_up i e) =
      Ends-ok _ t (handle_connection_failed-IsRegistered api i st v) e
  Step-IsRegistered {st} {t} v (sends error e) =
      kept-IsRegistered api st t (handle_deliver_to_udp_peer-SameSessions api error st t e) v
  Step-IsRegistered {st} {t} v (reads_payload i raw bytes error e) =
      moved-IsRegistered api i st t
        (subst (Ends api (Moves api i st)) e (handle_read_payload-Moves api i raw bytes error st)) v
  Step-IsRegistered {st} {t} v (handles i s u ops e h eq) =
      rw eq (update-IsRegistered api i s u ops st e (Handles-udp_tuple st.params h) v)

  pub construct-IsRegistered :
      (params : Option Params) (raw : Bytes) → IsRegistered api (construct api params raw)
  unfolding construct
  construct-IsRegistered params raw = record { sorted = tt; owned = tt }

  -- In every state that a new relay reaches, whatever the order in which its handlers run and however
  -- their operations end, the keys of the map of the sessions rise strictly, and each is the address of
  -- the peer of the session that it names; so there is one session for a peer in the map, at most.
  pub Reach-IsRegistered :
      (params : Option Params) (raw : Bytes) {st : Server api}
      → Reach (construct api params raw) st
      → IsRegistered api st
  Reach-IsRegistered params raw here = construct-IsRegistered params raw
  Reach-IsRegistered params raw (next r step) =
      Step-IsRegistered (Reach-IsRegistered params raw r) step
