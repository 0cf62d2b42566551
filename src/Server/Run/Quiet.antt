-- ===== src/Server/Run/Quiet.antt =====
-- What the sends to the UDP peers leave of the sessions and of their operations.
use ramses_proxy.Prelude.{
  ℕ, arith, ◌+◌, ◌≡◌, refl, ◌∙◌, Bool, true, false, not, Option, none, some, List, [], ◌∷◌, ◌++◌,
  Bytes, append-nil, if◌then◌else◌, Option-cases, inl, inr,
}
use ramses_proxy.Outcome.{Outcome, ok, thrown, fault, ◌>>=◌, defined}
use ramses_proxy.Memory.{read}
use ramses_proxy.Packet.{RouterPacket, copy_construct, get_peer_data, packet_data_length}
use ramses_proxy.AdrTuple.{AddressApi}
use ramses_proxy.Server.{
  Server, UdpEndpoint, Pending, of_session, receive_from, send_to, udp_peer, send_packet,
  deliver_to_udp_peer, deliver_to_udp_peer_session, handle_deliver_to_udp_peer, pop_tcp_packet,
  peek_tcp_packet, tcp_queue_empty, add_tcp_packet, deliver,
}
use ramses_proxy.Server.Registry.{Ends}
use ramses_proxy.Server.Run.{own, receives}
use ramses_proxy.Server.Run.Linked.{own-append}

module _ (api : AddressApi) where
  pub receives-append :
      (xs ys : List (Pending api)) → receives api (xs ++ ys) ≡ receives api xs + receives api ys
  receives-append [] ys = omega arith
  receives-append (of_session j a ∷ xs) ys = receives-append xs ys
  receives-append (receive_from ∷ xs) ys = omega (arith, receives-append xs ys)
  receives-append (send_to e b ∷ xs) ys = receives-append xs ys

  pub record Quiet (st t : Server api) : Type 0 where
    pub params : t.params ≡ st.params
    pub sessions : t.sessions ≡ st.sessions
    pub owned : (j : ℕ) → own api j t.pending ≡ own api j st.pending
    pub receiving : receives api t.pending ≡ receives api st.pending

  abbrev pub unchanged : (st : Server api) → Quiet st st
  unchanged st = record { params = refl; sessions = refl; owned = λ j. refl; receiving = refl }

  Quiet-trans : (st t u : Server api) → Quiet st t → Quiet t u → Quiet st u
  Quiet-trans st t u a b = record {
    params = b.params ∙ a.params;
    sessions = b.sessions ∙ a.sessions;
    owned = λ j. b.owned j ∙ a.owned j;
    receiving = b.receiving ∙ a.receiving;
  }

  -- A handler that goes on from a quiet one.
  >>=-Quiet :
      (st : Server api) (r : Outcome (Server api)) (f : Server api → Outcome (Server api))
      → Ends api (Quiet st) r
      → ((t : Server api) → Ends api (Quiet t) (f t))
      → Ends api (Quiet st) (r >>= f)
  >>=-Quiet st (ok t) f h k = go (f t) (k t)
    where
      go : (r : Outcome (Server api)) → Ends api (Quiet t) r → Ends api (Quiet st) r
      go (ok u) q = Quiet-trans st t u h q
      go thrown q = tt
      go fault q = tt
  >>=-Quiet st thrown f h k = tt
  >>=-Quiet st fault f h k = tt

  send_packet-Quiet :
      (p : RouterPacket) (text : Bytes) (st : Server api)
      → Ends api (Quiet st) (send_packet api p text st)
  unfolding send_packet
  send_packet-Quiet p text st =
      go (udp_peer api text) (read p.payload (8 + p.peer_length) (packet_data_length p))
    where
      go :
          (r : Outcome (UdpEndpoint api)) (b : Option Bytes)
          → Ends api (Quiet st) (do
            peer ← r
            body ← defined b
            ok (record st { pending = st.pending ++ (send_to peer body ∷ []) }))
      go (ok e) (some b) = record {
        params = refl;
        sessions = refl;
        owned =
            λ j. own-append api j st.pending (send_to e b ∷ []) ∙ append-nil (own api j st.pending);
        receiving = omega (arith, receives-append st.pending (send_to e b ∷ []));
      }
      go (ok e) none = tt
      go thrown b = tt
      go fault b = tt

  deliver_to_udp_peer-Quiet : (st : Server api) → Ends api (Quiet st) (deliver_to_udp_peer api st)
  unfolding deliver_to_udp_peer peek_tcp_packet pop_tcp_packet
  deliver_to_udp_peer-Quiet st = go st.tcp_queue refl
    where
      go :
          (queue : List RouterPacket)
          → st.tcp_queue ≡ queue
          → Ends api (Quiet st) (deliver_to_udp_peer api st)
      go [] e = rw e (unchanged _)
      go (p ∷ rest) e = rw e (elim (Option-cases (get_peer_data [] 128 p)) [
        | inl f ↦ rw f tt
        | inr ((text, true), f) ↦ rw f (send_packet-Quiet p text _)
        | inr ((text, false), f) ↦
            rw f (record { params = refl; sessions = refl; owned = λ j. refl; receiving = refl })
      ])

  pub handle_deliver_to_udp_peer-Quiet :
      (error : Bool) (st : Server api)
      → Ends api (Quiet st) (handle_deliver_to_udp_peer api error st)
  unfolding handle_deliver_to_udp_peer pop_tcp_packet
  handle_deliver_to_udp_peer-Quiet true st = unchanged st
  handle_deliver_to_udp_peer-Quiet false st = go st.tcp_queue refl
    where
      go :
          (queue : List RouterPacket)
          → st.tcp_queue ≡ queue
          → Ends api (Quiet st) (handle_deliver_to_udp_peer api false st)
      go [] e = rw e (unchanged _)
      go (p ∷ rest) e = rw e (
          >>=-Quiet _ (ok (record st { tcp_queue = rest })) (deliver_to_udp_peer api)
            (record { params = refl; sessions = refl; owned = λ j. refl; receiving = refl })
            deliver_to_udp_peer-Quiet)

  add_tcp_packet-Quiet :
      (raw : Bytes) (p : RouterPacket) (st : Server api)
      → Ends api (Quiet st) (add_tcp_packet api raw p st)
  unfolding add_tcp_packet
  add_tcp_packet-Quiet raw p st = elim (Option-cases (copy_construct raw p)) [
    | inl e ↦ rw e tt
    | inr (c, e) ↦ rw e (go c (not (tcp_queue_empty api st)))
  ]
    where
      go :
          (c : RouterPacket) (b : Bool)
          → Ends api (Quiet st) (
              if b
              then deliver_to_udp_peer api (record st { tcp_queue = st.tcp_queue ++ (c ∷ []) })
              else ok (record st { tcp_queue = st.tcp_queue ++ (c ∷ []) }))
      go c true =
          >>=-Quiet st (ok (record st { tcp_queue = st.tcp_queue ++ (c ∷ []) }))
            (deliver_to_udp_peer api)
            (record { params = refl; sessions = refl; owned = λ j. refl; receiving = refl })
            deliver_to_udp_peer-Quiet
      go c false = record { params = refl; sessions = refl; owned = λ j. refl; receiving = refl }

  pub deliver-Quiet :
      (i : ℕ) (delivery : Option RouterPacket) (raw : Bytes) (st : Server api)
      → Ends api (Quiet st) (deliver api i delivery raw st)
  unfolding deliver deliver_to_udp_peer_session
  deliver-Quiet i none raw st = unchanged st
  deliver-Quiet i (some p) raw st =
      >>=-Quiet st (add_tcp_packet api raw p st) (deliver_to_udp_peer api)
        (add_tcp_packet-Quiet raw p st) deliver_to_udp_peer-Quiet
