-- ===== src/Server/Downlink/Queue.antt =====
-- What the sends and the completions do to the datagrams that wait.
use ramses_proxy.Prelude.{
  ◌≡◌, refl, sym, subst, ap, ◌∙◌, List, [], ◌∷◌, ◌++◌, append-nil, append_assoc,
}
use ramses_proxy.Outcome.{Outcome, ok}
use ramses_proxy.Packet.{RouterPacket}
use ramses_proxy.AdrTuple.{AddressApi}
use ramses_proxy.Server.{Server}
use ramses_proxy.Server.Delivery.{IsFor, sending}
use ramses_proxy.Server.Downlink.{
  Datagram, sends, Queues, Repeats, first_time, once_more, Downlink, firsts, InOrder, Queues-append,
  sends-sending,
}

module _ (api : AddressApi) where
  -- The state that a handler surely ends in.
  pub ends_as : {r : Outcome (Server api)} {t u : Server api} → r ≡ ok t → r ≡ ok u → t ≡ u
  ends_as e f = let both = sym e ∙ f in cc

  -- A packet that comes to an empty queue.
  pub first-InOrder :
      (l : Downlink api) (p : RouterPacket) (d : Datagram api)
      → InOrder api l
      → IsFor api d.0 d.1 p
      → l.server.tcp_queue ≡ []
      → InOrder api (record {
        server = sending api d.0 d.1 (record (l.server) { tcp_queue = p ∷ [] });
        arrived = l.arrived ++ (d ∷ []);
      })
  first-InOrder l p d v f e = go v.waiting refl
    where
      go :
          (waiting : List (Datagram api))
          → v.waiting ≡ waiting
          → InOrder api (record {
            server = sending api d.0 d.1 (record (l.server) { tcp_queue = p ∷ [] });
            arrived = l.arrived ++ (d ∷ []);
          })
      go [] w =
          let all : v.gone ≡ l.arrived =
            sym (append-nil v.gone) ∙ ap (λ z. v.gone ++ z) (sym w) ∙ v.all_kept in
          let sent : Repeats api (sends api l.server.pending) v.gone =
            subst (Repeats api (sends api l.server.pending))
              (ap (λ z. v.gone ++ firsts api z) w ∙ append-nil v.gone) v.sent in
          record {
            gone = v.gone;
            waiting = d ∷ [];
            all_kept = ap (λ z. z ++ (d ∷ [])) all;
            queues = (f, tt);
            sent =
                first_time d sent (sends-sending api (record (l.server) { tcp_queue = p ∷ [] }) d)
                  refl;
          }
      go (c ∷ rest) w = absurd (
          subst (λ q. Queues api q (c ∷ rest)) e (subst (Queues api l.server.tcp_queue) w v.queues))

  -- The first datagram that waits while the queue is not empty.
  pub front_waits :
      (p : RouterPacket) (rest : List RouterPacket) (waiting : List (Datagram api))
      → Queues api (p ∷ rest) waiting
      → (c : Datagram api) × (ws : List (Datagram api)) × (waiting ≡ c ∷ ws)
        × IsFor api c.0 c.1 p
        × Queues api rest ws
  front_waits p rest [] h = absurd h
  front_waits p rest (c ∷ ws) h = (c, ws, refl, h.0, h.1)

  none_waits : (waiting : List (Datagram api)) → Queues api [] waiting → waiting ≡ []
  none_waits [] h = refl
  none_waits (c ∷ ws) h = absurd h

  module _ (l : Downlink api) (v : InOrder api l) (p : RouterPacket) (rest : List RouterPacket)
      (e : l.server.tcp_queue ≡ p ∷ rest) where
    abbrev Front : Type 0
    Front =
        (c : Datagram api) × (ws : List (Datagram api)) × (v.waiting ≡ c ∷ ws)
        × IsFor api c.0 c.1 p
        × Queues api rest ws

    pub front : Front
    front = front_waits p rest v.waiting (subst (λ q. Queues api q v.waiting) e v.queues)

    front_sent :
        (c : Datagram api) (ws : List (Datagram api))
        → v.waiting ≡ c ∷ ws
        → Repeats api (sends api l.server.pending) (v.gone ++ (c ∷ []))
    front_sent c ws w =
        subst (λ z. Repeats api (sends api l.server.pending) (v.gone ++ firsts api z)) w v.sent

    -- A packet that comes behind others.
    pub again-InOrder :
        (q : RouterPacket) (d : Datagram api) (f : Front)
        → IsFor api d.0 d.1 q
        → InOrder api (record {
          server =
              sending api f.0.0 f.0.1 (
                sending api f.0.0 f.0.1 (record (l.server) { tcp_queue = p ∷ (rest ++ (q ∷ [])) }));
          arrived = l.arrived ++ (d ∷ []);
        })
    again-InOrder q d (c, ws, w, is, behind) k =
        let st = record (l.server) { tcp_queue = p ∷ (rest ++ (q ∷ [])) } in
        record {
          gone = v.gone;
          waiting = c ∷ (ws ++ (d ∷ []));
          all_kept =
              sym (append_assoc v.gone (c ∷ ws) (d ∷ []))
              ∙ ap (λ z. (v.gone ++ z) ++ (d ∷ [])) (sym w)
              ∙ ap (λ z. z ++ (d ∷ [])) v.all_kept;
          queues = (is, Queues-append api rest ws q d behind k);
          sent =
              once_more c v.gone
                (once_more c v.gone (front_sent c ws w) refl (sends-sending api st c)) refl
                (sends-sending api (sending api c.0 c.1 st) c);
        }

    -- The completion of a send drops the front; here it was the last.
    pub last-InOrder :
        (f : Front)
        → rest ≡ []
        → InOrder api (record l { server = record (l.server) { tcp_queue = [] } })
    last-InOrder (c, ws, w, is, behind) empty =
        let none_left : ws ≡ [] = none_waits ws (subst (λ q. Queues api q ws) empty behind) in
        record {
          gone = v.gone ++ (c ∷ []);
          waiting = [];
          all_kept =
              append-nil (v.gone ++ (c ∷ []))
              ∙ ap (λ z. v.gone ++ (c ∷ z)) (sym none_left)
              ∙ ap (λ z. v.gone ++ z) (sym w)
              ∙ v.all_kept;
          queues = tt;
          sent =
              subst (Repeats api (sends api l.server.pending))
                (sym (append-nil (v.gone ++ (c ∷ [])))) (front_sent c ws w);
        }

    -- Here another packet is next, and its send is started.
    pub next-InOrder :
        (f : Front) (q : RouterPacket) (more : List RouterPacket) (d : Datagram api)
        (ds : List (Datagram api))
        → f.1 ≡ d ∷ ds
        → IsFor api d.0 d.1 q
        → Queues api more ds
        → InOrder api
            (record l { server = sending api d.0 d.1 (record (l.server) { tcp_queue = q ∷ more }) })
    next-InOrder (c, ws, w, is, behind) q more d ds wd k later = record {
      gone = v.gone ++ (c ∷ []);
      waiting = d ∷ ds;
      all_kept =
          append_assoc v.gone (c ∷ []) (d ∷ ds)
          ∙ ap (λ z. v.gone ++ (c ∷ z)) (sym wd)
          ∙ ap (λ z. v.gone ++ z) (sym w)
          ∙ v.all_kept;
      queues = (k, later);
      sent =
          first_time d (front_sent c ws w)
            (sends-sending api (record (l.server) { tcp_queue = q ∷ more }) d) refl;
    }
