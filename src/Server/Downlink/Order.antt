-- ===== src/Server/Downlink/Order.antt =====
-- The datagrams for the UDP peers are sent in the order in which they came.
use ramses_proxy.Prelude.{
  ℕ, ◌≡◌, refl, sym, subst, Bool, true, false, some, List, [], ◌∷◌, ◌++◌, Bytes,
}
use ramses_proxy.Outcome.{ok}
use ramses_proxy.Packet.{RouterPacket, copy_construct}
use ramses_proxy.AdrTuple.{AddressApi}
use ramses_proxy.Server.{Server, deliver, handle_deliver_to_udp_peer}
use ramses_proxy.Server.Delivery.{
  IsFor, deliver_first, deliver_again, handle_deliver_to_udp_peer_last,
  handle_deliver_to_udp_peer_next,
}
use ramses_proxy.Server.Downlink.{
  Datagram, sends, Queues, Repeats, none_sent, Downlink, Step, hands_over, completes, others, Reach,
  here, next, firsts, InOrder,
}
use ramses_proxy.Server.Downlink.Queue.{
  first-InOrder, again-InOrder, last-InOrder, next-InOrder, front_waits, ends_as, front,
}

module _ (api : AddressApi) where
  -- Every step keeps the order.
  hands_over-InOrder :
      (l : Downlink api) (v : InOrder api l) (i : ℕ) (raw : Bytes) (c p : RouterPacket)
      (d : Datagram api) (t : Server api)
      → copy_construct raw c ≡ some p
      → IsFor api d.0 d.1 p
      → deliver api i (some c) raw l.server ≡ ok t
      → InOrder api (record { server = t; arrived = l.arrived ++ (d ∷ []) })
  hands_over-InOrder l v i raw c p d t copied f runs = go l.server.tcp_queue refl
    where
      go :
          (queue : List RouterPacket)
          → l.server.tcp_queue ≡ queue
          → InOrder api (record { server = t; arrived = l.arrived ++ (d ∷ []) })
      go [] e =
          subst (λ u. InOrder api (record { server = u; arrived = l.arrived ++ (d ∷ []) }))
            (ends_as api (deliver_first api i l.server raw c p d.0 d.1 e copied f) runs)
            (first-InOrder api l p d v f e)
      go (q ∷ rest) e =
          let w = front api l v q rest e in
          subst (λ u. InOrder api (record { server = u; arrived = l.arrived ++ (d ∷ []) }))
            (ends_as api (deliver_again api i l.server raw c p q rest w.0.0 w.0.1 e copied w.3)
              runs)
            (again-InOrder api l v q rest e p d w f)

  completes-InOrder :
      (l : Downlink api) (v : InOrder api l) (error : Bool) (t : Server api)
      → handle_deliver_to_udp_peer api error l.server ≡ ok t
      → InOrder api (record l { server = t })
  unfolding handle_deliver_to_udp_peer
  completes-InOrder l v true t runs =
      subst (λ u. InOrder api (record l { server = u })) (ends_as api refl runs) v
  completes-InOrder l v false t runs = go l.server.tcp_queue refl
    where
      go :
          (queue : List RouterPacket)
          → l.server.tcp_queue ≡ queue
          → InOrder api (record l { server = t })
      go [] e =
          let stays : handle_deliver_to_udp_peer api false l.server ≡ ok l.server = rw e in
          subst (λ u. InOrder api (record l { server = u })) (ends_as api stays runs) v
      go (p ∷ []) e =
          subst (λ u. InOrder api (record l { server = u }))
            (ends_as api (handle_deliver_to_udp_peer_last api l.server p e) runs)
            (last-InOrder api l v p [] e (front api l v p [] e) refl)
      go (p ∷ (q ∷ rest)) e =
          let w = front api l v p (q ∷ rest) e in
          let (d, ds, wd, f, later) = front_waits api q rest w.1 w.4 in
          subst (λ u. InOrder api (record l { server = u }))
            (ends_as api (handle_deliver_to_udp_peer_next api l.server p q rest d.0 d.1 e f) runs)
            (next-InOrder api l v p (q ∷ rest) e w q rest d ds wd f later)

  Step-InOrder : {l m : Downlink api} → InOrder api l → Step api l m → InOrder api m
  Step-InOrder {l} {m} v (hands_over i raw c p d t copied f runs eq) =
      subst (InOrder api) (sym eq) (hands_over-InOrder l v i raw c p d t copied f runs)
  Step-InOrder {l} {m} v (completes error t runs eq) =
      subst (InOrder api) (sym eq) (completes-InOrder l v error t runs)
  Step-InOrder {l} {m} v (others t same quiet eq) = subst (InOrder api) (sym eq) (record {
    gone = v.gone;
    waiting = v.waiting;
    all_kept = v.all_kept;
    queues = subst (λ q. Queues api q v.waiting) (sym same) v.queues;
    sent = subst (λ s. Repeats api s (v.gone ++ firsts api v.waiting)) (sym quiet) v.sent;
  })

  -- From a server with an empty queue that has sent nothing, whatever the order in which packets for UDP
  -- peers are handed over, sends complete, with or without errors, and other handlers run, as long as
  -- every packet's copy decodes to a peer's endpoint and a body: the datagrams that came are those that
  -- left the queue and, behind them, those that wait in it; and the sends that were started are those
  -- that left and the first that waits, in the order in which they came, each once or more.
  pub Reach-InOrder :
      (st : Server api) {l : Downlink api}
      → st.tcp_queue ≡ []
      → sends api st.pending ≡ []
      → Reach api (record { server = st; arrived = [] }) l
      → InOrder api l
  Reach-InOrder st empty quiet here = record {
    gone = [];
    waiting = [];
    all_kept = refl;
    queues = subst (λ q. Queues api q []) (sym empty) tt;
    sent = subst (λ s. Repeats api s []) (sym quiet) none_sent;
  }
  Reach-InOrder st empty quiet (next r step) = Step-InOrder (Reach-InOrder st empty quiet r) step
