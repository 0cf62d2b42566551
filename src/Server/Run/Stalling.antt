-- ===== src/Server/Run/Stalling.antt =====
-- After a send that fails the packets for the UDP peers stall.
use ramses_proxy.Prelude.{
  length, ◌≡◌, ◌≢◌, refl, sym, subst, ap, ◌∙◌, true, List, [], ◌∷◌, ◌++◌, Bytes,
}
use mathlib.Core.List.{cons-ne-nil, append-ne-nil_of_right_ne-nil}
use ramses_proxy.Outcome.{ok}
use ramses_proxy.AdrTuple.{AddressApi}
use ramses_proxy.Server.{Server, UdpEndpoint, Pending, send_to, handle_deliver_to_udp_peer}
use ramses_proxy.Server.Branches.{Ends}
use ramses_proxy.Server.Downlink.{sends, sends-append}
use ramses_proxy.Server.Run.{
  Step, received, sent, given_up, payload_read, completed, Reach, here, next,
}
use ramses_proxy.Server.Run.Sending.{
  SameSends, sends-started, sends-without, handle_receive-SameSends,
  handle_connection_failed-SameSends,
}

module _ (api : AddressApi) where
  -- No payload is read from the F1 server.
  abbrev pub IsNoPayload :
      {st t : Server api} {xs ys : List (Pending api)} {a : Pending api}
      → Step api st t xs ys a
      → Type 0
  IsNoPayload (payload_read i m raw bytes error r) = ⊥
  IsNoPayload _ = Unit {0}

  abbrev pub NoPayload : {st t : Server api} → Reach api st t → Type 0
  NoPayload here = Unit {0}
  NoPayload (next xs ys a r e step) = NoPayload r × IsNoPayload step

  -- A step from st in which no operation concerns the queue or the sends.
  other-SameSends :
      (st t : Server api) (xs ys : List (Pending api)) (a : Pending api)
      → st.pending ≡ xs ++ (a ∷ ys)
      → sends api (a ∷ []) ≡ []
      → SameSends api (record st { pending = xs ++ ys }) t
      → SameSends api st t
  other-SameSends st t xs ys a e other same = record {
    queue = same.queue;
    sending = same.sending ∙ sym (sends-without api xs ys a other) ∙ ap (sends api) (sym e);
  }

  no_send :
      (xs ys : List (Pending api)) (d : UdpEndpoint api) (b : Bytes)
      → sends api (xs ++ (send_to d b ∷ ys)) ≢ []
  no_send xs ys d b nil =
      append-ne-nil_of_right_ne-nil (sends api xs) (λ e. cons-ne-nil (d, b) (sends api ys) e)
        (sym (sends-append api xs (send_to d b ∷ ys)) ∙ nil)

  Step-stays :
      (st t : Server api) (xs ys : List (Pending api)) (a : Pending api)
      → sends api st.pending ≡ []
      → st.pending ≡ xs ++ (a ∷ ys)
      → (step : Step api st t xs ys a) → IsNoPayload step
      → SameSends api st t
  Step-stays st t xs ys a nil e (received remote raw datagram error wr k r) u =
      other-SameSends st t xs ys a e refl (
        let same =
          subst (Ends api (SameSends api _)) r
            (handle_receive-SameSends api remote raw error (length datagram) _) in
        record { queue = same.queue; sending = same.sending })
  Step-stays st t xs ys a nil e (sent d b error r) u =
      absurd (no_send xs ys d b (ap (sends api) (sym e) ∙ nil))
  Step-stays st t xs ys a nil e (given_up i r) u =
      other-SameSends st t xs ys a e refl
        (subst (Ends api (SameSends api _)) r (handle_connection_failed-SameSends api i _))
  Step-stays st t xs ys a nil e (payload_read i m raw bytes error r) u = absurd u
  Step-stays st t xs ys a nil e (completed i b s v ops at c eq) u =
      other-SameSends st t xs ys a e refl (record {
        queue = ap (λ z. z.tcp_queue) eq;
        sending = ap (λ z. sends api z.pending) eq ∙ sends-started api i (xs ++ ys) ops;
      })

  stays :
      {st t : Server api}
      → sends api st.pending ≡ []
      → (r : Reach api st t) → NoPayload r
      → SameSends api st t
  stays nil here quiet = record { queue = refl; sending = refl }
  stays nil (next {t} {u} xs ys a r e step) quiet =
      let before = stays nil r quiet.0 in
      let same = Step-stays t u xs ys a (before.sending ∙ nil) e step quiet.1 in
      record { queue = same.queue ∙ before.queue; sending = same.sending ∙ before.sending }

  -- When the only send that is pending completes with an error, and from then on no payload is read from
  -- the F1 server, then whatever the order in which the pending operations complete, the packets
  -- stay in the queue for the UDP peers and no send is pending.
  pub Reach-stalls :
      (st t : Server api) {u : Server api} (xs ys : List (Pending api))
      → sends api (xs ++ ys) ≡ []
      → handle_deliver_to_udp_peer api true (record st { pending = xs ++ ys }) ≡ ok t
      → (r : Reach api t u) → NoPayload r
      → (u.tcp_queue ≡ st.tcp_queue) × (sends api u.pending ≡ [])
  unfolding handle_deliver_to_udp_peer
  Reach-stalls st t xs ys only fails r quiet =
      let same : record st { pending = xs ++ ys } ≡ t = cc in
      let none_left : sends api t.pending ≡ [] = ap (λ z. sends api z.pending) (sym same) ∙ only in
      let kept = stays none_left r quiet in
      (kept.queue ∙ ap (λ z. z.tcp_queue) (sym same), kept.sending ∙ none_left)
