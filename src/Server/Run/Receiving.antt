-- ===== src/Server/Run/Receiving.antt =====
-- The relay at work receives.
use ramses_proxy.Prelude.{
  ℕ, suc, ◌+◌, ◌≡◌, refl, subst, ap, ◌∙◌, Bool, Option, List, [], ◌∷◌, ◌++◌, Bytes, map, length,
  arith,
}
use ramses_proxy.Outcome.{Outcome, ok, thrown, fault}
use ramses_proxy.Packet.{RouterPacket}
use ramses_proxy.AdrTuple.{AddressApi}
use ramses_proxy.Params.{Params}
use ramses_proxy.Session.{Action}
use ramses_proxy.Server.{
  Server, UdpEndpoint, Pending, of_session, receive_from, send_to, construct, add_packet_to,
  create_session, add_session, remove_session, start_receive, handle_receive,
  handle_connection_failed, handle_read_payload,
}
use ramses_proxy.Server.Branches.{
  Ends, add_packet_to-Ends, dispatch-Ends, deliver_from_udp_peer-Ends, handle_receive-Ends,
  handle_connection_failed-Ends, handle_read_payload-Ends,
}
use ramses_proxy.Server.Run.{
  receives, Step, received, sent, given_up, payload_read, completed, Reach, here, next,
}
use ramses_proxy.Server.Run.Quiet.{
  Quiet, receives-append, handle_deliver_to_udp_peer-Quiet, deliver-Quiet,
}

module _ (api : AddressApi) where
  receives-map : (i : ℕ) (ops : List (Action api)) → receives api (map (of_session i) ops) ≡ 0
  receives-map i [] = refl
  receives-map i (a ∷ ops) = receives-map i ops

  receives-started :
      (i : ℕ) (pending : List (Pending api)) (ops : List (Action api))
      → receives api (pending ++ map (of_session i) ops) ≡ receives api pending
  receives-started i pending ops =
      omega (arith, receives-append api pending (map (of_session i) ops), receives-map i ops)

  -- n receives are pending.
  abbrev Receives : ℕ → Server api → Type 0
  Receives n t = receives api t.pending ≡ n

  add_packet_to-Receives :
      (i : ℕ) (raw : Bytes) (p : RouterPacket) (st : Server api)
      → Ends api (Receives (receives api st.pending)) (add_packet_to api i raw p st)
  add_packet_to-Receives i raw p st =
      add_packet_to-Ends api (Receives (receives api st.pending)) i raw p st
        (λ s u ops e f. receives-started i st.pending ops)

  handle_receive-Receives :
      (remote : UdpEndpoint api) (raw : Bytes) (error : Bool) (n : ℕ) (st : Server api)
      → Ends api
          (Receives (suc (receives api st.pending)))
          (handle_receive api remote raw error n st)
  unfolding start_receive remove_session create_session add_session
  handle_receive-Receives remote raw error n st =
      handle_receive-Ends api (Receives (receives api st.pending)) _ remote raw error n st
        (λ _.
          deliver_from_udp_peer-Ends api (Receives (receives api st.pending)) _ raw n st (λ _. refl)
            (λ found p e f.
              dispatch-Ends api (Receives (receives api st.pending)) found _ raw p st
                (λ g. add_packet_to-Receives (length st.sessions) raw p _)
                (λ i g. add_packet_to-Receives i raw p st)))
        (λ _. refl) (λ t. more t) (λ t. more t)
    where
      more :
          (t : Server api)
          → Receives (receives api st.pending) t
          → receives api (t.pending ++ (receive_from ∷ [])) ≡ suc (receives api st.pending)
      more t h = omega (arith, h, receives-append api t.pending (receive_from ∷ []))

  handle_connection_failed-Receives :
      (i : ℕ) (st : Server api)
      → Ends api (Receives (receives api st.pending)) (handle_connection_failed api i st)
  unfolding remove_session
  handle_connection_failed-Receives i st =
      handle_connection_failed-Ends api (Receives (receives api st.pending)) i st (λ s e. refl)

  Quiet-Receives :
      (st : Server api) (r : Outcome (Server api))
      → Ends api (Quiet api st) r
      → Ends api (Receives (receives api st.pending)) r
  Quiet-Receives st (ok t) q = q.receiving
  Quiet-Receives st thrown q = tt
  Quiet-Receives st fault q = tt

  Ends-Receives :
      (n : ℕ) (r : Outcome (Server api)) (t : Server api)
      → Ends api (Receives n) r
      → r ≡ ok t
      → Receives n t
  Ends-Receives n r t h e = subst (Ends api (Receives n)) e h

  handle_read_payload-Receives :
      (i : ℕ) (raw bytes : Bytes) (error : Bool) (st : Server api)
      → Ends api (Receives (receives api st.pending)) (handle_read_payload api i raw bytes error st)
  handle_read_payload-Receives i raw bytes error st =
      handle_read_payload-Ends api (Receives (receives api st.pending)) i raw bytes error st
        (λ s u packet ops delivery d e f g.
          receives-started i d.pending ops
          ∙ Ends-Receives _ _ d (Quiet-Receives st _ (deliver-Quiet api i delivery raw st)) g)

  -- What is left of the receives when the operation a has completed.
  receives-without :
      (xs ys : List (Pending api)) (a : Pending api)
      → receives api (xs ++ (a ∷ ys)) ≡ receives api (a ∷ []) + receives api (xs ++ ys)
  receives-without xs ys a = omega (
    arith,
    receives-append api xs (a ∷ ys),
    receives-append api (a ∷ []) ys,
    receives-append api xs ys,
  )

  Step-Receives :
      (st t : Server api) (xs ys : List (Pending api)) (a : Pending api)
      → st.pending ≡ xs ++ (a ∷ ys)
      → Step api st t xs ys a
      → Receives (receives api st.pending) t
  Step-Receives st t xs ys a e (received remote raw datagram error wr h r) =
      let after =
        Ends-Receives _ _ t (handle_receive-Receives remote raw error (length datagram) _) r in
      omega (arith, after, ap (receives api) e, receives-without xs ys receive_from)
  Step-Receives st t xs ys a e (sent d b error r) =
      let after =
        Ends-Receives _ _ t (Quiet-Receives _ _ (handle_deliver_to_udp_peer-Quiet api error _)) r in
      omega (arith, after, ap (receives api) e, receives-without xs ys (send_to d b))
  Step-Receives st t xs ys a e (given_up i r) =
      let after = Ends-Receives _ _ t (handle_connection_failed-Receives i _) r in
      omega (arith, after, ap (receives api) e, receives-without xs ys a)
  Step-Receives st t xs ys a e (payload_read i m raw bytes error r) =
      let after = Ends-Receives _ _ t (handle_read_payload-Receives i raw bytes error _) r in
      omega (arith, after, ap (receives api) e, receives-without xs ys a)
  Step-Receives st t xs ys a e (completed i b s u ops at c eq) =
      let after = ap (λ z. receives api z.pending) eq ∙ receives-started i (xs ++ ys) ops in
      omega (arith, after, ap (receives api) e, receives-without xs ys (of_session i b))

  -- From the relay as main starts it, whatever the order in which its pending operations complete, with or
  -- without errors, exactly one receive of a datagram is pending.
  pub Reach-Receives :
      (params : Option Params) (raw : Bytes) {st : Server api}
      → Reach api (start_receive api (construct api params raw)) st
      → receives api st.pending ≡ 1
  unfolding start_receive construct
  Reach-Receives params raw here = refl
  Reach-Receives params raw (next {t} {u} xs ys a r e step) =
      Step-Receives t u xs ys a e step ∙ Reach-Receives params raw r
