-- ===== src/Session/Completions.antt =====
-- What the completions of a session keep.
use ramses_proxy.Prelude.{
  ◌≤◌, ◌≡◌, ◌≢◌, refl, sym, subst, ◌∙◌, ap, false, Option, some, List, [], ◌∷◌, ◌++◌, Bytes, map,
  append_assoc, arith,
}
use ramses_proxy.Packet.{RouterPacket, frame}
use ramses_proxy.AdrTuple.{AddressApi}
use ramses_proxy.Params.{Params}
use ramses_proxy.Session.{Action, write, Session, handle_deliver_tcp}
use ramses_proxy.Session.Stream.{busy, Front, WritesFront, Link, after, Inv}
use ramses_proxy.Session.Pending.{
  busy-append, WritesFront-append, WritesFront-unbusy, WritesFront-rest, Front-pending, Inv-after,
  busy-rest,
}
use ramses_proxy.Session.Handlers.{Holds-some, Keeps, Reads, handle_deliver_tcp-Keeps}

module _ (api : AddressApi) (params : Option Params) where
  -- A busy operation is pending only with a packet in the queue.
  pub queue-nonempty :
      (l : Link api) (xs : List (Action api)) (a : Action api) (ys : List (Action api))
      → Inv api l
      → l.pending ≡ xs ++ (a ∷ ys)
      → busy api (a ∷ []) ≡ 1
      → l.session.queue ≢ []
  queue-nonempty l xs a ys v e one empty =
      let none_busy : busy api (xs ++ (a ∷ ys)) ≡ 0 = rw (← e) (v.idle empty) in
      omega (arith, busy-append api xs (a ∷ ys), busy-append api (a ∷ []) ys, none_busy)

  rest-unbusy :
      (l : Link api) (xs : List (Action api)) (a : Action api) (ys : List (Action api))
      → Inv api l
      → l.pending ≡ xs ++ (a ∷ ys)
      → busy api (a ∷ []) ≡ 1
      → busy api (xs ++ ys) ≡ 0
  rest-unbusy l xs a ys v e one =
      busy-rest api xs a ys (subst (λ ops. busy api ops ≤ 1) e v.single) one

  -- A busy operation completes and its handler keeps the queue.
  pub Keeps-Inv :
      (l : Link api) (xs : List (Action api)) (a : Action api) (ys : List (Action api))
      (t : Session api) (ops : List (Action api))
      → Inv api l
      → l.pending ≡ xs ++ (a ∷ ys)
      → busy api (a ∷ []) ≡ 1
      → Keeps api l.session.queue t ops
      → Inv api (after api l (xs ++ ys) t ops l.written)
  Keeps-Inv l xs a ys t ops v e one k =
      let (single, idle, front) =
        Inv-after api t.queue (xs ++ ys) ops (rest-unbusy l xs a ys v e one) k.1 in
      record {
        order = ap (λ q. l.written ++ map frame q) k.0 ∙ v.order;
        single = single;
        idle = idle;
        front = front;
      }

  -- A write completes.
  pub writes-Inv :
      (l : Link api) (w : Bytes) (xs ys : List (Action api)) (t : Session api)
      (ops : List (Action api))
      → Inv api l
      → l.pending ≡ xs ++ (write w ∷ ys)
      → handle_deliver_tcp api params false l.session ≡ some (t, ops)
      → Inv api (after api l (xs ++ ys) t ops (l.written ++ (some w ∷ [])))
  writes-Inv l w xs ys t ops v e returns = go l.session.queue refl (
      Front-pending api l.session.queue xs w ys (subst (WritesFront api l.session.queue) e v.front))
    where
      go :
          (queue : List RouterPacket)
          → l.session.queue ≡ queue
          → Front api queue w
          → Inv api (after api l (xs ++ ys) t ops (l.written ++ (some w ∷ [])))
      go [] eq f = absurd f
      go (p ∷ rest) eq f =
          let k =
            Holds-some api (Keeps api rest) _ t ops
              (handle_deliver_tcp-Keeps api params p rest l.session eq) returns in
          let (single, idle, front) =
            Inv-after api t.queue (xs ++ ys) ops (rest-unbusy l xs (write w) ys v e refl) k.1 in
          record {
            order =
                append_assoc l.written (some w ∷ []) (map frame t.queue)
                ∙ ap (λ q. l.written ++ (some w ∷ map frame q)) k.0
                ∙ ap (λ x. l.written ++ (x ∷ map frame rest)) (sym f)
                ∙ ap (λ q. l.written ++ map frame q) (sym eq)
                ∙ v.order;
            single = single;
            idle = idle;
            front = front;
          }

  -- An operation that is not busy completes.
  pub Reads-Inv :
      (l : Link api) (xs : List (Action api)) (a : Action api) (ys : List (Action api))
      (t : Session api) (ops : List (Action api))
      → Inv api l
      → l.pending ≡ xs ++ (a ∷ ys)
      → busy api (a ∷ []) ≡ 0
      → Reads api l.session t ops
      → Inv api (after api l (xs ++ ys) t ops l.written)
  Reads-Inv l xs a ys t ops v e none_busy r =
      let before : busy api (xs ++ (a ∷ ys)) ≤ 1 = subst (λ o. busy api o ≤ 1) e v.single in
      let parts : busy api (xs ++ ys ++ ops) ≡ busy api (xs ++ (a ∷ ys)) = omega (
        arith,
        busy-append api (xs ++ ys) ops,
        busy-append api xs ys,
        busy-append api xs (a ∷ ys),
        busy-append api (a ∷ []) ys,
        r.1,
      ) in
      record {
        order = ap (λ q. l.written ++ map frame q) r.0 ∙ v.order;
        single = rw parts before;
        idle = λ h. rw parts (subst (λ o. busy api o ≡ 0) e (v.idle (sym r.0 ∙ h)));
        front =
            WritesFront-append api t.queue (xs ++ ys) ops
              (subst (λ q. WritesFront api q (xs ++ ys)) (sym r.0)
                (WritesFront-rest api l.session.queue xs a ys
                  (subst (λ o. WritesFront api l.session.queue o) e v.front)))
              (WritesFront-unbusy api t.queue ops r.1);
      }
