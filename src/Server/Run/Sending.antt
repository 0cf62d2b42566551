-- ===== src/Server/Run/Sending.antt =====
-- What the handlers do to the queue for the UDP peers and to the sends that are pending.
use ramses_proxy.Prelude.{
  ℕ, ◌≡◌, refl, sym, ap, ◌∙◌, Bool, List, [], ◌∷◌, ◌++◌, Bytes, map, length, append-nil,
}
use ramses_proxy.Packet.{RouterPacket}
use ramses_proxy.AdrTuple.{AddressApi}
use ramses_proxy.Session.{Action}
use ramses_proxy.Server.{
  Server, UdpEndpoint, Pending, of_session, receive_from, add_packet_to, create_session,
  add_session, remove_session, start_receive, handle_receive, handle_connection_failed,
}
use ramses_proxy.Server.Branches.{
  Ends, add_packet_to-Ends, dispatch-Ends, deliver_from_udp_peer-Ends, handle_receive-Ends,
  handle_connection_failed-Ends,
}
use ramses_proxy.Server.Downlink.{sends, sends-append}

module _ (api : AddressApi) where
  -- The queue for the UDP peers and the sends that are pending are those of st.
  pub record SameSends (st t : Server api) : Type 0 where
    pub queue : t.tcp_queue ≡ st.tcp_queue
    pub sending : sends api t.pending ≡ sends api st.pending

  sends-map : (i : ℕ) (ops : List (Action api)) → sends api (map (of_session i) ops) ≡ []
  sends-map i [] = refl
  sends-map i (a ∷ ops) = sends-map i ops

  pub sends-started :
      (i : ℕ) (pending : List (Pending api)) (ops : List (Action api))
      → sends api (pending ++ map (of_session i) ops) ≡ sends api pending
  sends-started i pending ops =
      sends-append api pending (map (of_session i) ops)
      ∙ ap (λ z. sends api pending ++ z) (sends-map i ops)
      ∙ append-nil (sends api pending)

  add_packet_to-SameSends :
      (i : ℕ) (raw : Bytes) (p : RouterPacket) (st base : Server api)
      → SameSends base st
      → Ends api (SameSends base) (add_packet_to api i raw p st)
  add_packet_to-SameSends i raw p st base h =
      add_packet_to-Ends api (SameSends base) i raw p st (λ s u ops e f. record {
        queue = h.queue;
        sending = sends-started i st.pending ops ∙ h.sending;
      })

  pub handle_receive-SameSends :
      (remote : UdpEndpoint api) (raw : Bytes) (error : Bool) (n : ℕ) (st : Server api)
      → Ends api (SameSends st) (handle_receive api remote raw error n st)
  unfolding start_receive remove_session create_session add_session
  handle_receive-SameSends remote raw error n st =
      handle_receive-Ends api (SameSends st) (SameSends st) remote raw error n st
        (λ _.
          deliver_from_udp_peer-Ends api (SameSends st) _ raw n st (λ _. same)
            (λ found p e f.
              dispatch-Ends api (SameSends st) found _ raw p st
                (λ g.
                  add_packet_to-SameSends (length st.sessions) raw p _ st
                    (record { queue = refl; sending = refl }))
                (λ i g. add_packet_to-SameSends i raw p st st same)))
        (λ _. record { queue = refl; sending = refl })
        (λ t h. record { queue = h.queue; sending = (more t h).sending }) more
    where
      same : SameSends st st
      same = record { queue = refl; sending = refl }

      more : (t : Server api) → SameSends st t → SameSends st (start_receive api t)
      more t h = record {
        queue = h.queue;
        sending =
            sends-append api t.pending (receive_from ∷ [])
            ∙ append-nil (sends api t.pending)
            ∙ h.sending;
      }

  pub handle_connection_failed-SameSends :
      (i : ℕ) (st : Server api) → Ends api (SameSends st) (handle_connection_failed api i st)
  unfolding remove_session
  handle_connection_failed-SameSends i st =
      handle_connection_failed-Ends api (SameSends st) i st
        (λ s e. record { queue = refl; sending = refl })

  -- What is left when the operation a has completed, which is not a send.
  pub sends-without :
      (xs ys : List (Pending api)) (a : Pending api)
      → sends api (a ∷ []) ≡ []
      → sends api (xs ++ (a ∷ ys)) ≡ sends api (xs ++ ys)
  sends-without xs ys a e =
      sends-append api xs (a ∷ ys)
      ∙ ap (λ z. sends api xs ++ z) (sends-append api (a ∷ []) ys ∙ ap (λ z. z ++ sends api ys) e)
      ∙ sym (sends-append api xs ys)
