-- ===== src/Server/Run/Handing.antt =====
-- What the packets that are handed over for the UDP peers do to the sends that are pending.
use ramses_proxy.Prelude.{
  ℕ, ◌+◌, ◌≡◌, ◌≢◌, refl, sym, subst, ap, ◌∙◌, Bool, true, false, not, Option, none, some, List, [],
  ◌∷◌, ◌++◌, Bytes, append-nil, append_assoc,
}
use ramses_proxy.Outcome.{Outcome, ok, thrown, fault, ◌>>=◌, defined}
use ramses_proxy.Packet.{RouterPacket, copy_construct, get_peer_data}
use ramses_proxy.AdrTuple.{AddressApi}
use ramses_proxy.Prelude.{if◌then◌else◌}
use ramses_proxy.Memory.{read}
use ramses_proxy.Packet.{packet_data_length}
use ramses_proxy.Server.{udp_peer}
use ramses_proxy.Session.{is_empty}
use ramses_proxy.Server.Branches.{Ends-map, Ends->>=}
use ramses_proxy.Server.{
  Server, UdpEndpoint, send_to, deliver, handle_read_payload, deliver_to_udp_peer,
  deliver_to_udp_peer_session, add_tcp_packet, pop_tcp_packet, peek_tcp_packet, send_packet,
}
use ramses_proxy.Server.Branches.{Ends, handle_read_payload-Ends}
use ramses_proxy.Server.Downlink.{Datagram, sends, sends-append}
use ramses_proxy.Server.Run.Sending.{sends-started}

module _ (api : AddressApi) where
  -- What deliver_to_udp_peer comes to: nothing waits; the front has no usable peer's text and is
  -- dropped; or its send is started.
  pub data Delivers (st t : Server api) : Type 0 where
    nothing : st.tcp_queue ≡ [] → t ≡ st → Delivers st t
    drops :
        (p : RouterPacket) (rest : List RouterPacket) (text : Bytes)
        → st.tcp_queue ≡ p ∷ rest
        → get_peer_data [] 128 p ≡ some (text, false)
        → t ≡ record st { tcp_queue = rest }
        → Delivers st t
    starts :
        (p : RouterPacket) (rest : List RouterPacket) (e : UdpEndpoint api) (b : Bytes)
        → st.tcp_queue ≡ p ∷ rest
        → t ≡ record st { pending = st.pending ++ (send_to e b ∷ []) }
        → Delivers st t

  send_packet-Delivers :
      (st : Server api) (p : RouterPacket) (rest : List RouterPacket) (text : Bytes)
      → st.tcp_queue ≡ p ∷ rest
      → Ends api (Delivers st) (send_packet api p text st)
  unfolding send_packet
  send_packet-Delivers st p rest text e =
      go (udp_peer api text) (read p.payload (8 + p.peer_length) (packet_data_length p))
    where
      go :
          (r : Outcome (UdpEndpoint api)) (b : Option Bytes)
          → Ends api (Delivers st) (do
            peer ← r
            body ← defined b
            ok (record st { pending = st.pending ++ (send_to peer body ∷ []) }))
      go thrown b = tt
      go fault b = tt
      go (ok peer) none = tt
      go (ok peer) (some b) = starts p rest peer b e refl

  pub deliver_to_udp_peer-Delivers :
      (st : Server api) → Ends api (Delivers st) (deliver_to_udp_peer api st)
  unfolding deliver_to_udp_peer peek_tcp_packet pop_tcp_packet
  deliver_to_udp_peer-Delivers st = go st.tcp_queue
    where
      branch :
          (p : RouterPacket) (rest : List RouterPacket) (r : Option (Bytes × Bool))
          → get_peer_data [] 128 p ≡ r
          → Ends api (Delivers (record st { tcp_queue = p ∷ rest })) (do
            (text, res) ← defined r
            if res
                then send_packet api p text (record st { tcp_queue = p ∷ rest })
                else ok (record st { tcp_queue = rest }))
      branch p rest none e = tt
      branch p rest (some (text, true)) e = send_packet-Delivers _ p rest text refl
      branch p rest (some (text, false)) e = drops p rest text refl e refl

      go :
          (queue : List RouterPacket)
          → Ends api
              (Delivers (record st { tcp_queue = queue }))
              (deliver_to_udp_peer api (record st { tcp_queue = queue }))
      go [] = nothing refl refl
      go (p ∷ rest) = branch p rest (get_peer_data [] 128 p) refl

  -- What a packet that is handed over does: more sends than were pending, and one at least if the
  -- queue was empty and is not any more.
  pub record Grows (st t : Server api) : Type 0 where
    pub more : List (Datagram api)
    pub grown : sends api t.pending ≡ sends api st.pending ++ more
    pub first : (st.tcp_queue ≡ []) → (t.tcp_queue ≢ []) → more ≢ []

  -- No send is taken back.
  abbrev Adds : Server api → Server api → Type 0
  Adds st t = (more : List (Datagram api)) × (sends api t.pending ≡ sends api st.pending ++ more)

  Delivers-Adds : (st t : Server api) → Delivers st t → Adds st t
  Delivers-Adds st t (nothing e eq) =
      ([], ap (λ z. sends api z.pending) eq ∙ sym (append-nil (sends api st.pending)))
  Delivers-Adds st t (drops p rest text e f eq) =
      ([], ap (λ z. sends api z.pending) eq ∙ sym (append-nil (sends api st.pending)))
  Delivers-Adds st t (starts p rest d b e eq) = (
    (d, b) ∷ [],
    ap (λ z. sends api z.pending) eq ∙ sends-append api st.pending (send_to d b ∷ []),
  )

  -- The packet c has come to the empty queue.
  first-Grows :
      (st t : Server api) (c : RouterPacket)
      → Delivers (record st { tcp_queue = c ∷ [] }) t
      → Grows st t
  first-Grows st t c (nothing e eq) = absurd cc
  first-Grows st t c (drops p rest text e f eq) = record {
    more = [];
    grown = ap (λ z. sends api z.pending) eq ∙ sym (append-nil (sends api st.pending));
    first = λ _ filled.
        let none_left : rest ≡ [] = cc in absurd (filled (ap (λ z. z.tcp_queue) eq ∙ none_left));
  }
  first-Grows st t c (starts p rest d b e eq) = record {
    more = (d, b) ∷ [];
    grown = ap (λ z. sends api z.pending) eq ∙ sends-append api st.pending (send_to d b ∷ []);
    first = λ _ _ nil. let none_sent : (d, b) ∷ [] ≡ [] = nil in cc;
  }

  pub deliver-Grows :
      (i : ℕ) (delivery : Option RouterPacket) (raw : Bytes) (st : Server api)
      → Ends api (Grows st) (deliver api i delivery raw st)
  unfolding deliver add_tcp_packet deliver_to_udp_peer_session
  deliver-Grows i none raw st = record {
    more = [];
    grown = sym (append-nil (sends api st.pending));
    first = λ empty filled. absurd (filled empty);
  }
  deliver-Grows i (some p) raw st = go (copy_construct raw p) st.tcp_queue
    where
      go :
          (c : Option RouterPacket) (queue : List RouterPacket)
          → Ends api (Grows (record st { tcp_queue = queue })) (do
            t ← (do
              copied ← defined c
              if not (is_empty queue)
                  then deliver_to_udp_peer api (record st { tcp_queue = queue ++ (copied ∷ []) })
                  else ok (record st { tcp_queue = queue ++ (copied ∷ []) }))
            deliver_to_udp_peer api t)
      go none queue = tt
      go (some c) [] =
          Ends-map api _ (Grows (record st { tcp_queue = [] })) _
            (λ t. first-Grows (record st { tcp_queue = [] }) t c)
            (deliver_to_udp_peer-Delivers (record st { tcp_queue = c ∷ [] }))
      go (some c) (q ∷ qs) =
          Ends->>= api (Delivers (record st { tcp_queue = q ∷ (qs ++ (c ∷ [])) }))
            (Grows (record st { tcp_queue = q ∷ qs }))
            (deliver_to_udp_peer api (record st { tcp_queue = q ∷ (qs ++ (c ∷ [])) })) _
            (deliver_to_udp_peer-Delivers _)
            (λ u first.
              Ends-map api (Delivers u) _ _
                (λ t second.
                  let (more, e) = Delivers-Adds _ u first in
                  let (others, f) = Delivers-Adds u t second in
                  record {
                    more = more ++ others;
                    grown =
                        f
                        ∙ ap (λ z. z ++ others) e
                        ∙ append_assoc (sends api st.pending) more others;
                    first = λ empty. absurd cc;
                  })
                (deliver_to_udp_peer-Delivers u))

  pub handle_read_payload-Grows :
      (i : ℕ) (raw bytes : Bytes) (error : Bool) (st : Server api)
      → Ends api (Grows st) (handle_read_payload api i raw bytes error st)
  handle_read_payload-Grows i raw bytes error st =
      handle_read_payload-Ends api (Grows st) i raw bytes error st
        (λ s u packet ops delivery d e f g.
          let h : Grows st d = subst (Ends api (Grows st)) g (deliver-Grows i delivery raw st) in
          record {
            more = h.more;
            grown = sends-started api i d.pending ops ∙ h.grown;
            first = h.first;
          })
