-- ===== src/Session/Progress.antt =====
-- A session with datagrams in its queue is at work on them until it is closed.
use ramses_proxy.Prelude.{
  ◌≤◌, ◌≡◌, ◌≢◌, refl, sym, ◌∙◌, subst, true, false, Option, some, List, [], ◌∷◌, ◌++◌, Bytes,
  arith,
}
use ramses_proxy.Packet.{RouterPacket, frame}
use ramses_proxy.AdrTuple.{AddressApi, AdrTuple}
use ramses_proxy.Params.{Params}
use ramses_proxy.Session.{Action, read_header, Session, add_router_packet, set_adr_tuple, construct}
use ramses_proxy.Session.Stream.{
  busy, Link, after, Step, add, resolves, connects, writes, write_fails, reads_header,
  reads_payload, posts, Reach, here, next,
}
use ramses_proxy.Session.Pending.{busy-append}
use ramses_proxy.Session.Handlers.{
  Holds-some, Reads, handle_read_header-Reads, handle_read_payload-Reads,
}
use ramses_proxy.Session.Order.{fresh, Reach-Inv}
use ramses_proxy.Session.Works.{
  handle_deliver_tcp-Works, handle_connection-Works, add_router_packet-Works, handle_resolve-Works,
  Works,
}

module _ (api : AddressApi) where
  module _ (params : Option Params) where
    -- A session that has not been closed and has packets in its queue has an operation pending.
    abbrev Live : Link api → Type 0
    Live l = l.closed ≡ 0 → l.session.queue ≢ [] → 1 ≤ busy api l.pending

    -- A handler that works.
    handled-Live :
        (l : Link api) (rest : List (Action api)) (t : Session api) (ops : List (Action api))
        (written : List (Option Bytes))
        → Works api t ops
        → Live (after api l rest t ops written)
    handled-Live l rest t ops written w closed some_packet =
        omega (arith, busy-append api rest ops, w some_packet, closed)

    -- A handler that leaves the queue and what is busy alone.
    read-Live :
        (l : Link api) (xs : List (Action api)) (a : Action api) (ys : List (Action api))
        (t : Session api) (ops : List (Action api))
        → Live l
        → l.pending ≡ xs ++ (a ∷ ys)
        → busy api (a ∷ []) ≡ 0
        → Reads api l.session t ops
        → Live (after api l (xs ++ ys) t ops l.written)
    read-Live l xs a ys t ops v e none_busy r closed some_packet =
        let before : 1 ≤ busy api (xs ++ (a ∷ ys)) =
          subst (λ o. 1 ≤ busy api o) e (v (omega (arith, closed)) (λ h. some_packet (r.0 ∙ h))) in
        omega (
          arith,
          busy-append api (xs ++ ys) ops,
          busy-append api xs ys,
          busy-append api xs (a ∷ ys),
          busy-append api (a ∷ []) ys,
          before,
        )

    -- A packet that is added: either the session starts on it, or it waits for those before it.
    add-Live :
        (l : Link api) (raw : Bytes) (p : RouterPacket) (t : Session api) (ops : List (Action api))
        (adds : List (Option Bytes))
        → Live l
        → add_router_packet api params raw p l.session ≡ some (t, ops)
        → Live (record (after api l l.pending t ops l.written) { added = adds })
    add-Live l raw p t ops adds v returns closed some_packet = go l.session.queue refl
      where
        go : (queue : List RouterPacket) → l.session.queue ≡ queue → 1 ≤ busy api (l.pending ++ ops)
        go [] e =
            let works =
              Holds-some api (λ t ops. l.session.queue ≡ [] → Works api t ops) _ t ops
                (add_router_packet-Works api params raw p l.session) returns in
            omega (arith, busy-append api l.pending ops, works e some_packet, closed)
        go (q ∷ rest) e =
            let before =
              v (omega (arith, closed)) (λ h. let impossible : q ∷ rest ≡ [] = sym e ∙ h in cc) in
            omega (arith, busy-append api l.pending ops, before)

    Step-Live : {l m : Link api} → Live l → Step api params l m → Live m
    Step-Live {l} {m} v (add raw p s ops wr built returns eq) =
        subst Live (sym eq) (add-Live l raw p s ops (l.added ++ (frame p ∷ [])) v returns)
    Step-Live {l} {m} v (resolves h p error es xs ys s ops e returns eq) = subst Live (sym eq) (
        handled-Live l (xs ++ ys) s ops l.written (
          Holds-some api (Works api) _ s ops (handle_resolve-Works api error es l.session) returns))
    Step-Live {l} {m} v (connects d es error xs ys s ops e returns eq) = subst Live (sym eq) (
        handled-Live l (xs ++ ys) s ops l.written (
          Holds-some api (Works api) _ s ops (handle_connection-Works api params error es l.session)
            returns))
    Step-Live {l} {m} v (writes w xs ys s ops e returns eq) = subst Live (sym eq) (
        handled-Live l (xs ++ ys) s ops (l.written ++ (some w ∷ [])) (
          Holds-some api (Works api) _ s ops (handle_deliver_tcp-Works api params false l.session)
            returns))
    Step-Live {l} {m} v (write_fails w xs ys s ops e returns eq) = subst Live (sym eq) (
        handled-Live l (xs ++ ys) s ops l.written (
          Holds-some api (Works api) _ s ops (handle_deliver_tcp-Works api params true l.session)
            returns))
    Step-Live {l} {m} v (reads_header bytes error packet xs ys s ops e came returns eq) =
        subst Live (sym eq) (
          read-Live l xs read_header ys s ops v e refl
            (handle_read_header-Reads api error _ _ s ops returns))
    Step-Live {l} {m} v
          (reads_payload n bytes error packet xs ys s ops delivery e came returns eq) =
        subst Live (sym eq) (
          read-Live l xs (Action.read_payload n) ys s ops v e refl
            (handle_read_payload-Reads api error _ _ s ops delivery returns))
    Step-Live {l} {m} v (posts xs ys e eq) =
        subst Live (sym eq)
          (read-Live l xs Action.post_failed ys l.session [] v e refl (refl, refl))

    Reach-Live :
        (adr : AdrTuple api) {l : Link api} → Reach api params (fresh api params adr) l → Live l
    unfolding set_adr_tuple construct
    Reach-Live adr here = λ closed some_packet. absurd (some_packet refl)
    Reach-Live adr (next r st) = Step-Live (Reach-Live adr r) st

    -- In every state that a new session reaches, whatever the order in which packets are added and
    -- operations complete: if packets are in the queue and the session has not been closed, by a write
    -- that failed, by the last endpoint that failed or by the reads, exactly one resolve, connect or write
    -- is pending, so the session waits for nothing but the network.
    pub Reach-busy :
        (adr : AdrTuple api) {l : Link api}
        → Reach api params (fresh api params adr) l
        → l.closed ≡ 0
        → l.session.queue ≢ []
        → busy api l.pending ≡ 1
    Reach-busy adr r closed some_packet =
        omega (arith, Reach-Live adr r closed some_packet, (Reach-Inv api params adr r).single)
