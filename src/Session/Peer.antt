-- ===== src/Session/Peer.antt =====
-- No handler of a session changes the address of its peer.
use ramses_proxy.Prelude.{
  ℕ, ◌≡◌, refl, Bool, true, false, not, ◌&&◌, Option, none, some, List, [], ◌∷◌, ◌++◌, Bool-cases,
  Option-cases, inl, inr, if◌then◌else◌, ◌==◌, ◌>>=◌,
}
use ramses_proxy.Packet.{RouterPacket, frame, decode_header, decode_peer}
use ramses_proxy.AdrTuple.{AddressApi, AdrTuple}
use ramses_proxy.Params.{Params}
use ramses_proxy.Session.{
  Endpoints, Session, start, close_session, start_read_from_tcp, deliver_to_tcp_peer,
  handle_connection, handle_resolve, handle_read_header, handle_read_payload, handle_deliver_tcp,
  write_front, retry, resolved, deliver_rest, accept_header, accept_payload, Result, PayloadResult,
}
use ramses_proxy.Session.Handlers.{Holds}

module _ (api : AddressApi) where
  -- What a handler returns, if it returns, has the peer's address k.
  abbrev pub Serves : AdrTuple api → Result api → Type 0
  Serves k r = Holds api (λ t ops. t.udp_tuple ≡ k) r

  retry-Serves : (es : Endpoints api) (s : Session api) → Serves s.udp_tuple (retry api es s)
  unfolding retry close_session
  retry-Serves [] s = refl
  retry-Serves (e ∷ rest) s = refl

  pub handle_resolve-Serves :
      (error : Bool) (es : Endpoints api) (s : Session api)
      → Serves s.udp_tuple (handle_resolve api error es s)
  unfolding handle_resolve resolved
  handle_resolve-Serves true es s = retry-Serves es s
  handle_resolve-Serves false [] s = tt
  handle_resolve-Serves false (e ∷ rest) s = refl

  write_front-Serves :
      (queue : List RouterPacket) (s : Session api) → Serves s.udp_tuple (write_front api queue s)
  unfolding write_front
  write_front-Serves [] s = refl
  write_front-Serves (p ∷ rest) s = elim (Option-cases (frame p)) [
    | inl e ↦ rw e tt
    | inr (w, e) ↦ rw e refl
  ]

  start-Serves :
      (params : Option Params) (s : Session api) → Serves s.udp_tuple (start api params s)
  unfolding start
  start-Serves none s = tt
  start-Serves (some p) s = refl

  deliver-Serves :
      (params : Option Params) (s : Session api)
      → Serves s.udp_tuple (deliver_to_tcp_peer api params s)
  unfolding deliver_to_tcp_peer
  deliver-Serves params s = go s.is_open
    where
      go :
          (b : Bool)
          → Serves s.udp_tuple (if b then write_front api s.queue s else start api params s)
      go true = write_front-Serves s.queue s
      go false = start-Serves params s

  reading-Serves :
      (k : AdrTuple api) (r : Result api)
      → Serves k r
      → Serves k (do
        (t, started) ← r
        (u, reading) ← start_read_from_tcp api t
        some (u, started ++ reading))
  unfolding start_read_from_tcp
  reading-Serves k none h = tt
  reading-Serves k (some (t, ops)) h = h

  pub handle_connection-Serves :
      (params : Option Params) (error : Bool) (es : Endpoints api) (s : Session api)
      → Serves s.udp_tuple (handle_connection api params error es s)
  unfolding handle_connection
  handle_connection-Serves params error es s = go (not error && s.is_open)
    where
      go :
          (b : Bool)
          → Serves s.udp_tuple (
              if b
              then (do
                (t, started) ← deliver_to_tcp_peer api params s
                (u, reading) ← start_read_from_tcp api t
                some (u, started ++ reading))
              else retry api es s)
      go true =
          reading-Serves s.udp_tuple (deliver_to_tcp_peer api params s) (deliver-Serves params s)
      go false = retry-Serves es s

  deliver_rest-Serves :
      (params : Option Params) (queue : List RouterPacket) (s : Session api)
      → Serves s.udp_tuple (deliver_rest api params queue s)
  unfolding deliver_rest
  deliver_rest-Serves params [] s = tt
  deliver_rest-Serves params (p ∷ []) s = refl
  deliver_rest-Serves params (p ∷ (q ∷ rest)) s =
      deliver-Serves params (record s { queue = q ∷ rest })

  pub handle_deliver_tcp-Serves :
      (params : Option Params) (error : Bool) (s : Session api)
      → Serves s.udp_tuple (handle_deliver_tcp api params error s)
  unfolding handle_deliver_tcp close_session
  handle_deliver_tcp-Serves params true s = refl
  handle_deliver_tcp-Serves params false s = deliver_rest-Serves params s.queue s

  accept_header-Serves :
      (res : Bool) (s : Session api) → Serves s.udp_tuple (accept_header api res s)
  unfolding accept_header close_session
  accept_header-Serves true s = refl
  accept_header-Serves false s = refl

  pub handle_read_header-Serves :
      (error : Bool) (n : ℕ) (s : Session api)
      → Serves s.udp_tuple (handle_read_header api error n s)
  unfolding handle_read_header close_session
  handle_read_header-Serves error n s = elim (Bool-cases (n == 0)) [
    | inl e ↦ rw e refl
    | inr e ↦ rw e (go error)
  ]
    where
      go :
          (b : Bool)
          → Serves s.udp_tuple (
              if not b
              then (do
                (packet, res) ← decode_header s.from_tcp
                accept_header api res (record s { from_tcp = packet }))
              else close_session api s)
      go true = refl
      go false = elim (Option-cases (decode_header s.from_tcp)) [
        | inl f ↦ rw f tt
        | inr ((packet, res), f) ↦ rw f (accept_header-Serves res (record s { from_tcp = packet }))
      ]

  -- The same of handle_read_payload.
  abbrev pub PayloadServes : AdrTuple api → PayloadResult api → Type 0
  PayloadServes k none = Unit {0}
  PayloadServes k (some (t, ops, delivery)) = t.udp_tuple ≡ k

  accept_payload-Serves :
      (packet : RouterPacket) (res : Bool) (s : Session api)
      → PayloadServes s.udp_tuple (accept_payload api packet res s)
  unfolding accept_payload
  accept_payload-Serves packet true s = refl
  accept_payload-Serves packet false s = refl

  pub handle_read_payload-Serves :
      (error : Bool) (n : ℕ) (s : Session api)
      → PayloadServes s.udp_tuple (handle_read_payload api error n s)
  unfolding handle_read_payload
  handle_read_payload-Serves true n s = refl
  handle_read_payload-Serves false n s = elim (Bool-cases (n == 0)) [
    | inl e ↦ rw e refl
    | inr e ↦ rw e (elim (Option-cases (decode_peer s.from_tcp)) [
      | inl f ↦ rw f tt
      | inr ((packet, res), f) ↦ rw f (accept_payload-Serves packet res s)
    ])
  ]
