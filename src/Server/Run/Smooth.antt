-- ===== src/Server/Run/Smooth.antt =====
-- The packets for the UDP peers go on while the sends complete without errors.
use ramses_proxy.Prelude.{
  length, ◌≡◌, ◌≢◌, ◌<◌, refl, sym, subst, ap, ◌∙◌, false, some, List, [], ◌∷◌, ◌++◌, Bytes, arith,
}
use mathlib.Core.List.{concat-ne-nil, append-ne-nil_of_right_ne-nil}
use ramses_proxy.Packet.{RouterPacket, get_peer_data}
use ramses_proxy.AdrTuple.{AddressApi}
use ramses_proxy.Server.{
  Server, Pending, send_to, handle_deliver_to_udp_peer, deliver_to_udp_peer, pop_tcp_packet,
}
use ramses_proxy.Server.Branches.{Ends, Ends-map}
use ramses_proxy.Server.Downlink.{Datagram, sends, sends-append}
use ramses_proxy.Server.Run.{
  Step, received, sent, given_up, payload_read, completed, Reach, here, next,
}
use ramses_proxy.Server.Run.Sending.{
  SameSends, sends-started, sends-without, handle_receive-SameSends,
  handle_connection_failed-SameSends,
}
use ramses_proxy.Server.Run.Handing.{
  Delivers, nothing, drops, starts, deliver_to_udp_peer-Delivers, Grows, handle_read_payload-Grows,
}

-- The second packet of the queue, if there is one, has a usable peer's text.
abbrev pub Follows : List RouterPacket → Type 0
Follows (p ∷ (q ∷ rest)) = (0 < q.peer_length) × (q.peer_length < 128)
Follows _ = Unit {0}

get_peer_data_usable :
    (p : RouterPacket) (text : Bytes)
    → 0 < p.peer_length
    → p.peer_length < 128
    → get_peer_data [] 128 p ≢ some (text, false)
unfolding get_peer_data
get_peer_data_usable p text h k e = ground arith

module _ (api : AddressApi) where
  -- A send completes without an error, and while the next packet has a usable peer's text.
  abbrev pub IsSmooth :
      {st t : Server api} {xs ys : List (Pending api)} {a : Pending api}
      → Step api st t xs ys a
      → Type 0
  IsSmooth {st} (sent e b error r) = (error ≡ false) × Follows st.tcp_queue
  IsSmooth _ = Unit {0}

  abbrev pub AllSmooth : {st t : Server api} → Reach api st t → Type 0
  AllSmooth here = Unit {0}
  AllSmooth (next xs ys a r e step) = AllSmooth r × IsSmooth step

  -- A send is pending while a packet waits.
  abbrev Sends : Server api → Type 0
  Sends st = st.tcp_queue ≢ [] → sends api st.pending ≢ []

  filled : (ds es : List (Datagram api)) → ds ≢ [] → ds ++ es ≢ []
  filled [] es h e = absurd (h refl)
  filled (d ∷ ds) es h e = cc

  handle_deliver_to_udp_peer-Sends :
      (st : Server api)
      → Follows st.tcp_queue
      → Ends api Sends (handle_deliver_to_udp_peer api false st)
  unfolding handle_deliver_to_udp_peer pop_tcp_packet
  handle_deliver_to_udp_peer-Sends st follows = go st.tcp_queue follows
    where
      go :
          (queue : List RouterPacket)
          → Follows queue
          → Ends api Sends (handle_deliver_to_udp_peer api false (record st { tcp_queue = queue }))
      go [] h = λ e. absurd (e refl)
      go (p ∷ []) h = unfold deliver_to_udp_peer in λ e. absurd (e refl)
      go (p ∷ (q ∷ rest)) h =
          Ends-map api (Delivers api (record st { tcp_queue = q ∷ rest })) Sends _
            (λ t d. goes_on t d)
            (deliver_to_udp_peer-Delivers api (record st { tcp_queue = q ∷ rest }))
        where
          goes_on : (t : Server api) → Delivers api (record st { tcp_queue = q ∷ rest }) t → Sends t
          goes_on t (nothing e eq) = absurd cc
          goes_on t (drops p' rest' text e f eq) =
              let same : q ≡ p' = cc in
              absurd (get_peer_data_usable q text h.0 h.1 (ap (get_peer_data [] 128) same ∙ f))
          goes_on t (starts p' rest' d b e eq) = λ _.
              subst (λ z. sends api z.pending ≢ []) (sym eq)
                (λ nil.
                  concat-ne-nil (d, b) (sends api st.pending)
                    (sym (sends-append api st.pending (send_to d b ∷ [])) ∙ nil))

  same-Sends :
      (st t : Server api) (xs ys : List (Pending api)) (a : Pending api)
      → Sends st
      → st.pending ≡ xs ++ (a ∷ ys)
      → sends api (a ∷ []) ≡ []
      → SameSends api (record st { pending = xs ++ ys }) t
      → Sends t
  same-Sends st t xs ys a h e other same =
      let all : sends api t.pending ≡ sends api st.pending =
        same.sending ∙ sym (sends-without api xs ys a other) ∙ ap (sends api) (sym e) in
      λ waits. subst (λ z. z ≢ []) (sym all) (h (subst (λ z. z ≢ []) same.queue waits))

  grown-Sends :
      (st t : Server api) (xs ys : List (Pending api)) (a : Pending api)
      → Sends st
      → st.pending ≡ xs ++ (a ∷ ys)
      → sends api (a ∷ []) ≡ []
      → Grows api (record st { pending = xs ++ ys }) t
      → Sends t
  grown-Sends st t xs ys a h e other g waits =
      subst (λ z. z ≢ []) (sym g.grown) (go st.tcp_queue refl)
    where
      go : (queue : List RouterPacket) → st.tcp_queue ≡ queue → sends api (xs ++ ys) ++ g.more ≢ []
      go [] empty = append-ne-nil_of_right_ne-nil (sends api (xs ++ ys)) (g.first empty waits)
      go (q ∷ qs) waiting = filled (sends api (xs ++ ys)) g.more (
          subst (λ z. z ≢ []) (ap (sends api) e ∙ sends-without api xs ys a other)
            (h (λ nil. let both : q ∷ qs ≡ [] = sym waiting ∙ nil in cc)))

  Step-Sends :
      (st t : Server api) (xs ys : List (Pending api)) (a : Pending api)
      → Sends st
      → st.pending ≡ xs ++ (a ∷ ys)
      → (step : Step api st t xs ys a) → IsSmooth step
      → Sends t
  Step-Sends st t xs ys a h e (received remote raw datagram error wr k r) u =
      same-Sends st t xs ys a h e refl (
        let same =
          subst (Ends api (SameSends api _)) r
            (handle_receive-SameSends api remote raw error (length datagram) _) in
        record { queue = same.queue; sending = same.sending })
  Step-Sends st t xs ys a h e (sent d b error r) (fine, follows) =
      subst (Ends api Sends)
        (ap (λ z. handle_deliver_to_udp_peer api z (record st { pending = xs ++ ys })) (sym fine)
          ∙ r)
        (handle_deliver_to_udp_peer-Sends (record st { pending = xs ++ ys }) follows)
  Step-Sends st t xs ys a h e (given_up i r) u =
      same-Sends st t xs ys a h e refl
        (subst (Ends api (SameSends api _)) r (handle_connection_failed-SameSends api i _))
  Step-Sends st t xs ys a h e (payload_read i m raw bytes error r) u =
      grown-Sends st t xs ys a h e refl
        (subst (Ends api (Grows api _)) r (handle_read_payload-Grows api i raw bytes error _))
  Step-Sends st t xs ys a h e (completed i b s v ops at c eq) u =
      same-Sends st t xs ys a h e refl (record {
        queue = ap (λ z. z.tcp_queue) eq;
        sending = ap (λ z. sends api z.pending) eq ∙ sends-started api i (xs ++ ys) ops;
      })

  -- From a state in which a send is pending while a packet waits for a UDP peer, whatever the order in which
  -- the pending operations complete, as long as every send completes without an error and while the
  -- packet behind the front, if there is one, has a text of 1 to 127 bytes for its peer: a send is
  -- pending while a packet waits.
  pub Reach-Sends :
      {st t : Server api}
      → (st.tcp_queue ≢ [] → sends api st.pending ≢ [])
      → (r : Reach api st t) → AllSmooth r
      → t.tcp_queue ≢ []
      → sends api t.pending ≢ []
  Reach-Sends h here smooth = h
  Reach-Sends h (next {t} {u} xs ys a r e step) smooth =
      Step-Sends t u xs ys a (Reach-Sends h r smooth.0) e step smooth.1
