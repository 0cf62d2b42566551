-- ===== src/Server/Branches.antt =====
-- What holds when a handler of the server ends, from what holds on each branch of it.
use ramses_proxy.Prelude.{
  ℕ, ◌≡◌, refl, Bool, true, false, not, ◌||◌, ltb, Option, none, some, List, Bytes, length,
  get_elem?, if◌then◌else◌, Option-cases, inl, inr,
}
use ramses_proxy.Outcome.{Outcome, ok, thrown, fault, ◌>>=◌, defined}
use ramses_proxy.Packet.{RouterPacket, arrive, build_packet}
use ramses_proxy.AdrTuple
use ramses_proxy.AdrTuple.{AddressApi, AdrTuple, udp, to_string}
use ramses_proxy.Common.{clear_buffer}
use ramses_proxy.Session
use ramses_proxy.Session.{Session, Action, add_router_packet}
use ramses_proxy.Server.{
  Server, UdpEndpoint, update, add_packet_to, create_session, remove_session, dispatch, deliver,
  session_of, deliver_from_udp_peer, start_receive, handle_receive, handle_connection_failed,
  handle_read_payload,
}

module _ (api : AddressApi) where
  -- P holds of the state that a handler leaves, if it ends with one.
  abbrev pub Ends : (Server api → Type 0) → Outcome (Server api) → Type 0
  Ends P (ok st) = P st
  Ends P thrown = Unit {0}
  Ends P fault = Unit {0}

  pub Ends-map :
      (P Q : Server api → Type 0) (r : Outcome (Server api))
      → ((t : Server api) → P t → Q t)
      → Ends P r
      → Ends Q r
  Ends-map P Q (ok t) f h = f t h
  Ends-map P Q thrown f h = tt
  Ends-map P Q fault f h = tt

  pub Ends->>= :
      (P Q : Server api → Type 0) (r : Outcome (Server api)) (f : Server api → Outcome (Server api))
      → Ends P r
      → ((t : Server api) → P t → Ends Q (f t))
      → Ends Q (r >>= f)
  Ends->>= P Q (ok t) f h k = k t h
  Ends->>= P Q thrown f h k = tt
  Ends->>= P Q fault f h k = tt

  pub Ends-ok :
      (P : Server api → Type 0) (r : Outcome (Server api))
      → ((t : Server api) → r ≡ ok t → P t)
      → Ends P r
  Ends-ok P (ok t) f = f t refl
  Ends-ok P thrown f = tt
  Ends-ok P fault f = tt

  pub add_packet_to-Ends :
      (P : Server api → Type 0) (i : ℕ) (raw : Bytes) (p : RouterPacket) (st : Server api)
      → ((s u : Session api) (ops : List (Action api))
          → get_elem? st.sessions i ≡ some s
          → add_router_packet api st.params raw p s ≡ some (u, ops)
          → P (update api i (u, ops) st))
      → Ends P (add_packet_to api i raw p st)
  unfolding add_packet_to
  add_packet_to-Ends P i raw p st f = elim (Option-cases (get_elem? st.sessions i)) [
    | inl e ↦ rw e tt
    | inr (s, e) ↦ rw e (elim (Option-cases (add_router_packet api st.params raw p s)) [
      | inl g ↦ rw g tt
      | inr ((u, ops), g) ↦ rw g (f s u ops e g)
    ])
  ]

  pub dispatch-Ends :
      (P : Server api → Type 0) (found : Option ℕ) (adr : AdrTuple api) (raw : Bytes)
      (p : RouterPacket) (st : Server api)
      → (found ≡ none
          → Ends P (add_packet_to api (length st.sessions) raw p (create_session api adr st)))
      → ((i : ℕ) → found ≡ some i → Ends P (add_packet_to api i raw p st))
      → Ends P (dispatch api found adr raw p st)
  unfolding dispatch
  dispatch-Ends P none adr raw p st f g = f refl
  dispatch-Ends P (some i) adr raw p st f g = g i refl

  pub deliver_from_udp_peer-Ends :
      (P : Server api → Type 0) (adr : AdrTuple api) (raw : Bytes) (n : ℕ) (st : Server api)
      → (build_packet (to_string api adr) st.recv_buffer.bytes n ≡ some none → P st)
      → ((found : Option ℕ) (p : RouterPacket)
          → session_of api st.sessions st.udp_sessions adr ≡ ok found
          → build_packet (to_string api adr) st.recv_buffer.bytes n ≡ some (some p)
          → Ends P (dispatch api found adr raw p st))
      → Ends P (deliver_from_udp_peer api adr raw n st)
  unfolding deliver_from_udp_peer
  deliver_from_udp_peer-Ends P adr raw n st refused f =
      go (session_of api st.sessions st.udp_sessions adr)
        (build_packet (to_string api adr) st.recv_buffer.bytes n) refused f
    where
      go :
          (r : Outcome (Option ℕ)) (b : Option (Option RouterPacket))
          → (b ≡ some none → P st)
          → ((found : Option ℕ) (p : RouterPacket)
              → r ≡ ok found
              → b ≡ some (some p)
              → Ends P (dispatch api found adr raw p st))
          → Ends P (do
            found ← r
            built ← defined b
            elim built [ none ↦ ok st | some packet ↦ dispatch api found adr raw packet st ])
      go thrown b g f = tt
      go fault b g f = tt
      go (ok found) none g f = tt
      go (ok found) (some none) g f = g refl
      go (ok found) (some (some p)) g f = f found p refl refl

  pub handle_receive-Ends :
      (P Q : Server api → Type 0) (remote : UdpEndpoint api) (raw : Bytes) (error : Bool) (n : ℕ)
      (st : Server api)
      → ((not error || ltb 0 n) ≡ true
          → Ends P (
              deliver_from_udp_peer api
                (AdrTuple.construct_from api udp remote.address remote.port)
                raw
                n
                st))
      → ((not error || ltb 0 n) ≡ false
          → P (remove_session api (AdrTuple.construct_from api udp remote.address remote.port) st))
      → ((t : Server api)
          → P t
          → Q (start_receive api (record t { recv_buffer = clear_buffer t.recv_buffer })))
      → ((t : Server api) → P t → Q (start_receive api t))
      → Ends Q (handle_receive api remote raw error n st)
  unfolding handle_receive
  handle_receive-Ends P Q remote raw error n st came removed clears goes_on =
      go (not error || ltb 0 n) refl
    where
      adr : AdrTuple api
      adr = AdrTuple.construct_from api udp remote.address remote.port

      ends :
          (r : Outcome (Server api))
          → Ends P r
          → Ends Q (do
            t ← (do t ← r; ok (record t { recv_buffer = clear_buffer t.recv_buffer }))
            ok (start_receive api t))
      ends (ok t) h = clears t h
      ends thrown h = tt
      ends fault h = tt

      go :
          (b : Bool)
          → (not error || ltb 0 n) ≡ b
          → Ends Q (do
            t ←
                if b
                then (do
                  t ← deliver_from_udp_peer api adr raw n st
                  ok (record t { recv_buffer = clear_buffer t.recv_buffer }))
                else ok (remove_session api adr st)
            ok (start_receive api t))
      go true e = ends (deliver_from_udp_peer api adr raw n st) (came e)
      go false e = goes_on _ (removed e)

  pub handle_connection_failed-Ends :
      (P : Server api → Type 0) (i : ℕ) (st : Server api)
      → ((s : Session api)
          → get_elem? st.sessions i ≡ some s
          → P (remove_session api s.udp_tuple st))
      → Ends P (handle_connection_failed api i st)
  unfolding handle_connection_failed
  handle_connection_failed-Ends P i st f = elim (Option-cases (get_elem? st.sessions i)) [
    | inl e ↦ rw e tt
    | inr (s, e) ↦ rw e (f s e)
  ]

  pub handle_read_payload-Ends :
      (P : Server api → Type 0) (i : ℕ) (raw bytes : Bytes) (error : Bool) (st : Server api)
      → ((s u : Session api) (packet : RouterPacket) (ops : List (Action api))
            (delivery : Option RouterPacket) (d : Server api)
          → get_elem? st.sessions i ≡ some s
          → Session.handle_read_payload api error (length bytes) (record s { from_tcp = packet })
            ≡ some (u, ops, delivery)
          → deliver api i delivery raw st ≡ ok d
          → P (update api i (u, ops) d))
      → Ends P (handle_read_payload api i raw bytes error st)
  unfolding handle_read_payload
  handle_read_payload-Ends P i raw bytes error st f =
      elim (Option-cases (get_elem? st.sessions i)) [
        | inl e ↦ rw e tt
        | inr (s, e) ↦ rw e (elim (Option-cases (arrive 4 bytes s.from_tcp)) [
          | inl g ↦ rw g tt
          | inr (packet, g) ↦ rw g (reads s e packet _ refl)
        ])
      ]
    where
      ends :
          (u : Session api) (ops : List (Action api)) (r : Outcome (Server api))
          → ((d : Server api) → r ≡ ok d → P (update api i (u, ops) d))
          → Ends P (do d ← r; ok (update api i (u, ops) d))
      ends u ops (ok d) h = h d refl
      ends u ops thrown h = tt
      ends u ops fault h = tt

      reads :
          (s : Session api)
          → get_elem? st.sessions i ≡ some s
          → (packet : RouterPacket) (r : Session.PayloadResult api)
          → Session.handle_read_payload api error (length bytes) (record s { from_tcp = packet })
            ≡ r
          → Ends P (do
            (t, started, delivery) ← defined r
            delivered ← deliver api i delivery raw st
            ok (update api i (t, started) delivered))
      reads s e packet none g = tt
      reads s e packet (some (u, ops, delivery)) g =
          ends u ops (deliver api i delivery raw st) (λ d. f s u packet ops delivery d e g)
