-- ===== src/Session/Sending.antt =====
-- A session that sends its only packet and meets no error.
use ramses_proxy.Prelude.{◌≡◌, refl, true, false, Option, some, [], ◌∷◌, Bytes}
use ramses_proxy.Packet.{RouterPacket, frame}
use ramses_proxy.AdrTuple.{AddressApi}
use ramses_proxy.Params.{Params}
use ramses_proxy.Session.{
  Session, Endpoint, Endpoints, connect, write, read_header, handle_resolve, handle_connection,
  handle_deliver_tcp, resolved, deliver_to_tcp_peer, write_front, start_read_from_tcp, deliver_rest,
}

module _ (api : AddressApi) where
  -- A session with the packet c in its queue, of the frame w, meets no error on the way.
  pub sends_first :
      (params : Option Params) (s : Session api) (c : RouterPacket) (w : Bytes) (e : Endpoint api)
      (es : Endpoints api)
      → s.queue ≡ c ∷ []
      → frame c ≡ some w
      → (t u : Session api) × (handle_resolve api false (e ∷ es) s ≡ some (t, connect e es ∷ []))
        × (handle_connection api params false es t ≡ some (u, write w ∷ (read_header ∷ [])))
        × (handle_deliver_tcp api params false u ≡ some (record u { queue = [] }, []))
  unfolding handle_resolve resolved handle_connection deliver_to_tcp_peer write_front
      start_read_from_tcp handle_deliver_tcp deliver_rest
  sends_first params s c w e es queue f =
      (record s { is_open = true }, record s { is_open = true }, refl, rw (queue, f), rw queue)
