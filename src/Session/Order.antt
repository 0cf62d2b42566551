-- ===== src/Session/Order.antt =====
-- The F1 server gets the datagrams of a session one at a time and in their order.
pub mod Channel
use ramses_proxy.Prelude.{
  ◌≤◌, ◌≡◌, ◌≢◌, refl, sym, subst, ◌∙◌, ap, false, Option, some, List, [], ◌∷◌, ◌++◌, Bytes, map,
  append_assoc, arith,
}
use mathlib.Core.List.{map-append, concat-ne-nil}
use ramses_proxy.Packet.{RouterPacket, frame}
use ramses_proxy.AdrTuple.{AddressApi, AdrTuple}
use ramses_proxy.Params.{Params}
use ramses_proxy.Session.{
  Action, resolve, connect, read_header, read_payload, write, post_failed, Session, construct,
  set_adr_tuple, handle_deliver_tcp,
}
use ramses_proxy.Session.Stream.{
  busy, Front, WritesFront, Link, after, Step, add, resolves, connects, writes, write_fails,
  reads_header, reads_payload, posts, Reach, here, next, Inv,
}
use ramses_proxy.Session.Pending.{
  busy-append, WritesFront-append, WritesFront-unbusy, WritesFront-rest, Front-pending, Inv-after,
  busy-rest, WritesFront-grow,
}
use ramses_proxy.Session.Handlers.{
  Holds-some, Keeps, Adds, Reads, handle_resolve-Keeps, handle_connection-Keeps,
  handle_deliver_tcp-Keeps, handle_deliver_tcp_error, add_router_packet-Adds,
  handle_read_header-Reads, handle_read_payload-Reads,
}
use ramses_proxy.Session.Completions.{queue-nonempty, writes-Inv, Keeps-Inv, Reads-Inv}

module _ (api : AddressApi) (params : Option Params) where
  module _ (l : Link api) (p : RouterPacket) (t : Session api) (ops : List (Action api))
      (v : Inv api l) where
    added-Inv :
        (c : RouterPacket)
        → frame c ≡ frame p
        → t.queue ≡ l.session.queue ++ (c ∷ [])
        → busy api (l.pending ++ ops) ≤ 1
        → WritesFront api t.queue (l.pending ++ ops)
        → Inv api
            (record (after api l l.pending t ops l.written) { added = l.added ++ (frame p ∷ []) })
    added-Inv c same grows single front = record {
      order =
          ap (λ q. l.written ++ map frame q) grows
          ∙ ap (λ z. l.written ++ z) (map-append frame l.session.queue (c ∷ []))
          ∙ sym (append_assoc l.written (map frame l.session.queue) (frame c ∷ []))
          ∙ ap (λ z. z ++ (frame c ∷ [])) v.order
          ∙ ap (λ x. l.added ++ (x ∷ [])) same;
      single = single;
      idle = λ h. absurd (concat-ne-nil c l.session.queue (sym grows ∙ h));
      front = front;
    }

    add-Inv :
        Adds api l.session p t ops
        → Inv api
            (record (after api l l.pending t ops l.written) { added = l.added ++ (frame p ∷ []) })
    add-Inv (c, same, grows, starts, quiet) = go l.session.queue refl
      where
        go :
            (queue : List RouterPacket)
            → l.session.queue ≡ queue
            → Inv api (record (after api l l.pending t ops l.written) {
              added = l.added ++ (frame p ∷ []);
            })
        go [] eq =
            let (single, idle, front) = Inv-after api t.queue l.pending ops (v.idle eq) starts in
            added-Inv c same grows single front
        go (q ∷ rest) eq =
            let nothing : ops ≡ [] = quiet (λ h. let e : q ∷ rest ≡ [] = sym eq ∙ h in cc) in
            let unbusy : busy api ops ≡ 0 = ap (busy api) nothing in
            added-Inv c same grows (omega (arith, busy-append api l.pending ops, v.single)) (
              WritesFront-append api t.queue l.pending ops
                (subst (λ z. WritesFront api z l.pending) (sym grows)
                  (WritesFront-grow api l.session.queue c l.pending v.front))
                (WritesFront-unbusy api t.queue ops unbusy))

  -- Every step keeps the invariant.
  Step-Inv : {l m : Link api} → Inv api l → Step api params l m → Inv api m
  Step-Inv {l} {m} v (add raw p s ops wr built e eq) = rw eq (
      add-Inv l p s ops v (
        Holds-some api (Adds api l.session p) _ s ops
          (add_router_packet-Adds api params raw p l.session wr built) e))
  Step-Inv {l} {m} v (resolves h p error es xs ys s ops e returns eq) = rw eq (
      Keeps-Inv api params l xs (resolve h p) ys s ops v e refl (
        Holds-some api (Keeps api l.session.queue) _ s ops
          (handle_resolve-Keeps api error es l.session
            (queue-nonempty api params l xs _ ys v e refl))
          returns))
  Step-Inv {l} {m} v (connects d es error xs ys s ops e returns eq) = rw eq (
      Keeps-Inv api params l xs (connect d es) ys s ops v e refl (
        Holds-some api (Keeps api l.session.queue) _ s ops
          (handle_connection-Keeps api params error es l.session
            (queue-nonempty api params l xs _ ys v e refl))
          returns))
  Step-Inv {l} {m} v (writes w xs ys s ops e returns eq) =
      rw eq (writes-Inv api params l w xs ys s ops v e returns)
  Step-Inv {l} {m} v (write_fails w xs ys s ops e returns eq) = rw eq (
      Keeps-Inv api params l xs (write w) ys s ops v e refl (
        Holds-some api (Keeps api l.session.queue) _ s ops
          (handle_deliver_tcp_error api params l.session) returns))
  Step-Inv {l} {m} v (reads_header bytes error packet xs ys s ops e came returns eq) = rw eq (
      Reads-Inv api params l xs read_header ys s ops v e refl
        (handle_read_header-Reads api error _ _ s ops returns))
  Step-Inv {l} {m} v (reads_payload n bytes error packet xs ys s ops delivery e came returns eq) =
      rw eq (
        Reads-Inv api params l xs (read_payload n) ys s ops v e refl
          (handle_read_payload-Reads api error _ _ s ops delivery returns))
  Step-Inv {l} {m} v (posts xs ys e eq) =
      rw eq (Reads-Inv api params l xs post_failed ys l.session [] v e refl (refl, refl))

  -- A new session with nothing pending.
  abbrev pub fresh : AdrTuple api → Link api
  fresh adr = record {
    session = set_adr_tuple api adr (construct api);
    pending = [];
    written = [];
    added = [];
    closed = 0;
  }

  fresh-Inv : (adr : AdrTuple api) → Inv api (fresh adr)
  unfolding set_adr_tuple construct
  fresh-Inv adr = record { order = refl; single = omega arith; idle = λ _. refl; front = tt }

  -- In every state that a new session reaches, whatever the order in which packets are added and
  -- operations complete, with or without errors: the frames of the completed writes are the first of
  -- those added, in their order and each once, and the queue holds the others; at most one resolve,
  -- connect or write is pending, none when the queue is empty; and a pending write writes the frame
  -- at the front of the queue.
  pub Reach-Inv : (adr : AdrTuple api) {l : Link api} → Reach api params (fresh adr) l → Inv api l
  Reach-Inv adr here = fresh-Inv adr
  Reach-Inv adr (next r st) = Step-Inv (Reach-Inv adr r) st
