-- ===== src/Session/Works.antt =====
-- A handler of a session with packets in its queue goes on with them.
use ramses_proxy.Prelude.{
  ◌+◌, ◌≤◌, ◌≡◌, ◌≢◌, refl, sym, ◌∙◌, Bool, true, false, not, ◌&&◌, Option, none, some, List, [],
  ◌∷◌, ◌++◌, Bytes, arith, Option-cases, inl, inr, if◌then◌else◌, ◌>>=◌,
}
use ramses_proxy.Packet.{RouterPacket, frame, copy_construct}
use ramses_proxy.AdrTuple.{AddressApi}
use ramses_proxy.Params.{Params}
use ramses_proxy.Session.{
  Endpoints, Action, read_header, Session, start, close_session, start_read_from_tcp,
  deliver_to_tcp_peer, add_router_packet, handle_connection, handle_resolve, handle_deliver_tcp,
  write_front, retry, resolved, deliver_rest, is_empty, Result,
}
use ramses_proxy.Session.Stream.{busy, closings}
use ramses_proxy.Session.Pending.{busy-append}
use ramses_proxy.Session.Handlers.{Holds, Holds-map}

module _ (api : AddressApi) where
  -- With packets in the queue, a handler starts a resolve, a connect or a write, or closes the session.
  abbrev pub Works : Session api → List (Action api) → Type 0
  Works t ops = t.queue ≢ [] → 1 ≤ busy api ops + closings api ops

  write_front-Works :
      (queue : List RouterPacket) (s : Session api)
      → s.queue ≡ queue
      → Holds api Works (write_front api queue s)
  unfolding write_front
  write_front-Works [] s e = λ h. absurd (h e)
  write_front-Works (p ∷ rest) s e = elim (Option-cases (frame p)) [
    | inl f ↦ rw f tt
    | inr (w, f) ↦ rw f (λ h. omega arith)
  ]

  start-Works : (params : Option Params) (s : Session api) → Holds api Works (start api params s)
  unfolding start
  start-Works none s = tt
  start-Works (some p) s = λ h. omega arith

  deliver-Works :
      (params : Option Params) (s : Session api)
      → Holds api Works (deliver_to_tcp_peer api params s)
  unfolding deliver_to_tcp_peer
  deliver-Works params s = go s.is_open
    where
      go :
          (b : Bool) → Holds api Works (if b then write_front api s.queue s else start api params s)
      go true = write_front-Works s.queue s refl
      go false = start-Works params s

  retry-Works : (es : Endpoints api) (s : Session api) → Holds api Works (retry api es s)
  unfolding retry close_session
  retry-Works [] s = λ h. omega arith
  retry-Works (e ∷ rest) s = λ h. omega arith

  pub handle_resolve-Works :
      (error : Bool) (es : Endpoints api) (s : Session api)
      → Holds api Works (handle_resolve api error es s)
  unfolding handle_resolve resolved
  handle_resolve-Works true es s = retry-Works es s
  handle_resolve-Works false [] s = tt
  handle_resolve-Works false (e ∷ rest) s = λ h. omega arith

  closings-append :
      (xs ys : List (Action api)) → closings api (xs ++ ys) ≡ closings api xs + closings api ys
  closings-append [] ys = omega arith
  closings-append (Action.resolve h p ∷ xs) ys = closings-append xs ys
  closings-append (Action.connect e r ∷ xs) ys = closings-append xs ys
  closings-append (Action.write w ∷ xs) ys = closings-append xs ys
  closings-append (Action.read_header ∷ xs) ys = closings-append xs ys
  closings-append (Action.read_payload n ∷ xs) ys = closings-append xs ys
  closings-append (Action.post_failed ∷ xs) ys = omega (arith, closings-append xs ys)

  reading-Works :
      (r : Result api)
      → Holds api Works r
      → Holds api Works (do
        (t, started) ← r
        (u, reading) ← start_read_from_tcp api t
        some (u, started ++ reading))
  unfolding start_read_from_tcp
  reading-Works none h = tt
  reading-Works (some (t, ops)) h = λ k.
      omega
        (arith, h k, busy-append api ops (read_header ∷ []), closings-append ops (read_header ∷ []))

  pub handle_connection-Works :
      (params : Option Params) (error : Bool) (es : Endpoints api) (s : Session api)
      → Holds api Works (handle_connection api params error es s)
  unfolding handle_connection
  handle_connection-Works params error es s = go (not error && s.is_open)
    where
      go :
          (b : Bool)
          → Holds api Works (
              if b
              then (do
                (t, started) ← deliver_to_tcp_peer api params s
                (u, reading) ← start_read_from_tcp api t
                some (u, started ++ reading))
              else retry api es s)
      go true = reading-Works (deliver_to_tcp_peer api params s) (deliver-Works params s)
      go false = retry-Works es s

  deliver_rest-Works :
      (params : Option Params) (queue : List RouterPacket) (s : Session api)
      → Holds api Works (deliver_rest api params queue s)
  unfolding deliver_rest
  deliver_rest-Works params [] s = tt
  deliver_rest-Works params (p ∷ []) s = λ h. absurd (h refl)
  deliver_rest-Works params (p ∷ (q ∷ rest)) s =
      deliver-Works params (record s { queue = q ∷ rest })

  pub handle_deliver_tcp-Works :
      (params : Option Params) (error : Bool) (s : Session api)
      → Holds api Works (handle_deliver_tcp api params error s)
  unfolding handle_deliver_tcp close_session
  handle_deliver_tcp-Works params true s = λ h. omega arith
  handle_deliver_tcp-Works params false s = deliver_rest-Works params s.queue s

  -- A packet that is added to an empty queue.
  pub add_router_packet-Works :
      (params : Option Params) (raw : Bytes) (p : RouterPacket) (s : Session api)
      → Holds api (λ t ops. s.queue ≡ [] → Works t ops) (add_router_packet api params raw p s)
  unfolding add_router_packet
  add_router_packet-Works params raw p s = elim (Option-cases (copy_construct raw p)) [
    | inl e ↦ rw e tt
    | inr (c, e) ↦ rw e (go c s.queue refl)
  ]
    where
      go :
          (c : RouterPacket) (queue : List RouterPacket)
          → s.queue ≡ queue
          → Holds api
              (λ t ops. s.queue ≡ [] → Works t ops)
              (if is_empty queue
                then deliver_to_tcp_peer api params (record s { queue = s.queue ++ (c ∷ []) })
                else some (record s { queue = s.queue ++ (c ∷ []) }, []))
      go c [] e =
          Holds-map api Works (λ t ops. s.queue ≡ [] → Works t ops) (λ t ops h k. h) _
            (deliver-Works params (record s { queue = s.queue ++ (c ∷ []) }))
      go c (q ∷ rest) e = λ empty. let impossible : q ∷ rest ≡ [] = sym e ∙ empty in cc
