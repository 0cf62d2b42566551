-- ===== src/Server/Downlink.antt =====
-- The order in which the packets of the F1 server are sent to the UDP peers. A step is a packet that
-- a session hands over, the completion of a send, with or without an error, or a handler that touches
-- neither the queue nor the sends. The operations that have completed stay in `pending` here, which
-- is then the history of what was started; a completion may come at any time.
pub mod Order
pub mod Queue
pub mod Loss
use ramses_proxy.Prelude.{
  ℕ, ◌≡◌, refl, sym, subst, ap, ◌∙◌, Bool, true, false, some, Option, none, List, [], ◌∷◌, ◌++◌,
  Bytes, append-nil, append_assoc,
}
use ramses_proxy.Outcome.{ok}
use ramses_proxy.Packet.{RouterPacket, copy_construct}
use ramses_proxy.AdrTuple.{AddressApi}
use ramses_proxy.Server.{
  Server, UdpEndpoint, Pending, of_session, receive_from, send_to, deliver,
  handle_deliver_to_udp_peer,
}
use ramses_proxy.Server.Delivery.{
  IsFor, sending, deliver_first, deliver_again, handle_deliver_to_udp_peer_last,
  handle_deliver_to_udp_peer_next,
}

module _ (api : AddressApi) where
  -- A datagram for a peer.
  abbrev pub Datagram : Type 0
  Datagram = UdpEndpoint api × Bytes

  -- The sends among the operations that were started.
  abbrev pub sends : List (Pending api) → List Datagram
  sends [] = []
  sends (of_session i a ∷ ops) = sends ops
  sends (receive_from ∷ ops) = sends ops
  sends (send_to e b ∷ ops) = (e, b) ∷ sends ops

  -- The packets of the queue are for these datagrams.
  abbrev pub Queues : List RouterPacket → List Datagram → Type 0
  Queues [] [] = Unit {0}
  Queues [] (d ∷ ds) = ⊥
  Queues (p ∷ queue) [] = ⊥
  Queues (p ∷ queue) (d ∷ ds) = IsFor api d.0 d.1 p × Queues queue ds

  -- The sends ss are those of ds, in their order, each once or more.
  pub data Repeats : List Datagram → List Datagram → Type 0 where
    none_sent : Repeats [] []
    first_time :
        {ss ds ss' ds' : List Datagram} (d : Datagram)
        → Repeats ss ds
        → ss' ≡ ss ++ (d ∷ [])
        → ds' ≡ ds ++ (d ∷ [])
        → Repeats ss' ds'
    once_more :
        {ss ss' ds : List Datagram} (d : Datagram) (before : List Datagram)
        → Repeats ss ds
        → ds ≡ before ++ (d ∷ [])
        → ss' ≡ ss ++ (d ∷ [])
        → Repeats ss' ds

  pub record Downlink : Type 0 where
    pub server : Server api
    pub arrived : List Datagram

  pub data Step (l m : Downlink) : Type 0 where
    hands_over :
        (i : ℕ) (raw : Bytes) (c p : RouterPacket) (d : Datagram) (t : Server api)
        → copy_construct raw c ≡ some p
        → IsFor api d.0 d.1 p
        → deliver api i (some c) raw l.server ≡ ok t
        → m ≡ record { server = t; arrived = l.arrived ++ (d ∷ []) }
        → Step l m
    completes :
        (error : Bool) (t : Server api)
        → handle_deliver_to_udp_peer api error l.server ≡ ok t
        → m ≡ record l { server = t }
        → Step l m
    others :
        (t : Server api)
        → t.tcp_queue ≡ l.server.tcp_queue
        → sends t.pending ≡ sends l.server.pending
        → m ≡ record l { server = t }
        → Step l m

  pub data Reach (l : Downlink) : Downlink → Type 0 where
    here : Reach l l
    next : {m n : Downlink} → Reach l m → Step m n → Reach l n

  -- The datagrams that left the queue, those that wait in it, and what was sent: those that left and
  -- the first that waits.
  abbrev pub firsts : List Datagram → List Datagram
  firsts [] = []
  firsts (d ∷ ds) = d ∷ []

  pub record InOrder (l : Downlink) : Type 0 where
    pub gone : List Datagram
    pub waiting : List Datagram
    pub all_kept : gone ++ waiting ≡ l.arrived
    pub queues : Queues l.server.tcp_queue waiting
    pub sent : Repeats (sends l.server.pending) (gone ++ firsts waiting)

  pub sends-append : (xs ys : List (Pending api)) → sends (xs ++ ys) ≡ sends xs ++ sends ys
  sends-append [] ys = refl
  sends-append (of_session i a ∷ xs) ys = sends-append xs ys
  sends-append (receive_from ∷ xs) ys = sends-append xs ys
  sends-append (send_to e b ∷ xs) ys = ap (λ z. (e, b) ∷ z) (sends-append xs ys)

  Queues-append :
      (queue : List RouterPacket) (ds : List Datagram) (p : RouterPacket) (d : Datagram)
      → Queues queue ds
      → IsFor api d.0 d.1 p
      → Queues (queue ++ (p ∷ [])) (ds ++ (d ∷ []))
  Queues-append [] [] p d h f = (f, tt)
  Queues-append [] (e ∷ ds) p d h f = absurd h
  Queues-append (q ∷ queue) [] p d h f = absurd h
  Queues-append (q ∷ queue) (e ∷ ds) p d h f = (h.0, Queues-append queue ds p d h.1 f)

  -- One send of d more.
  sends-sending :
      (st : Server api) (d : Datagram)
      → sends (sending api d.0 d.1 st).pending ≡ sends st.pending ++ (d ∷ [])
  sends-sending st d = sends-append st.pending (send_to d.0 d.1 ∷ [])
