-- ===== src/Server/Run/Dispatching.antt =====
-- A datagram goes to a session of the peer that sent it.
use ramses_proxy.Prelude.{
  ap, ℕ, ◌≡◌, refl, sym, subst, Bool, true, false, Option, none, some, List, [], ◌∷◌, ◌++◌, Bytes,
  length, get_elem?, get_elem?-append_end, get_elem?-append_left, Option-cases, Bool-cases, inl,
  inr, if◌then◌else◌, ==_iff, arith,
}
use ramses_proxy.Outcome.{Outcome, ok}
use ramses_proxy.Packet.{RouterPacket, frame, build_packet}
use ramses_proxy.AdrTuple
use ramses_proxy.AdrTuple.{AddressApi, AdrTuple, udp, to_string, eq}
use ramses_proxy.AdrTuple.Order.{eq_iff}
use ramses_proxy.Session
use ramses_proxy.Session.{Session, Action, add_router_packet, set_adr_tuple}
use ramses_proxy.Server.{
  Server, SessionsMap, UdpEndpoint, add_packet_to, create_session, add_session, remove_session,
  dispatch, session_of, deliver_from_udp_peer, start_receive, handle_receive,
}
use ramses_proxy.Server.Branches.{
  add_packet_to-Ends, deliver_from_udp_peer-Ends, handle_receive-Ends,
}
use ramses_proxy.Server.Registry.{Ends, Ends-map, add_router_packet-udp_tuple}
use ramses_proxy.Server.Owned.{Serves, Serves-set, Serves-unique, KeepsPeers}
use ramses_proxy.Server.Run.{goes_to, frame_of, dispatched}

module _ (api : AddressApi) where
  -- The frame of a packet that was built with the text of the peer k.
  abbrev pub IsFrom : AdrTuple api → Option Bytes → Type 0
  IsFrom k f =
      (bytes : Bytes) × (n : ℕ) × (p : RouterPacket) × (build_packet (to_string api k) bytes n
        ≡ some (some p))
      × (f ≡ frame p)

  abbrev pub AllFrom : AdrTuple api → List (Option Bytes) → Type 0
  AllFrom k [] = Unit {0}
  AllFrom k (f ∷ fs) = IsFrom k f × AllFrom k fs

  -- The loop over the map finds a session of the peer.
  session_of-Serves :
      (sessions : List (Session api)) (m : SessionsMap api) (adr : AdrTuple api) (i : ℕ)
      → session_of api sessions m adr ≡ ok (some i)
      → Serves api sessions adr i
  unfolding session_of
  session_of-Serves sessions [] adr i e = cc
  session_of-Serves sessions ((k, j) ∷ m) adr i e = elim (Option-cases (get_elem? sessions j)) [
    | inl f ↦ ground arith
    | inr (s, f) ↦ elim (Bool-cases (eq api s.udp_tuple adr)) [
      | inl same ↦
          let found : j ≡ i = ground arith in
          (
            s,
            subst (λ z. get_elem? sessions z ≡ some s) found f,
            (eq_iff api s.udp_tuple adr).0.0 same,
          )
      | inr differ ↦ session_of-Serves sessions m adr i (ground arith)
    ]
  ]

  -- The session that a datagram goes to, after it, and the sessions as they were.
  abbrev Finds : AdrTuple api → ℕ → Server api → Server api → Type 0
  Finds adr i st t = KeepsPeers api st.sessions t.sessions × Serves api t.sessions adr i

  add_packet_to-Finds :
      (adr : AdrTuple api) (i : ℕ) (raw : Bytes) (p : RouterPacket) (st : Server api)
      → Serves api st.sessions adr i
      → Ends api (Finds adr i st) (add_packet_to api i raw p st)
  add_packet_to-Finds adr i raw p st own =
      add_packet_to-Ends api (Finds adr i st) i raw p st (λ s u ops e f.
        let same = add_router_packet-udp_tuple api st.params raw p s u ops f in
        (
          (λ k j. Serves-set api st.sessions i j k s u e same),
          Serves-set api st.sessions i i adr s u e same own,
        ))

  -- The place of the session that a datagram goes to.
  abbrev place : Server api → Option ℕ → ℕ
  place st none = length st.sessions
  place st (some i) = i

  abbrev Named : AdrTuple api → Server api → Option ℕ → Type 0
  Named adr st none = Unit {0}
  Named adr st (some i) = Serves api st.sessions adr i

  found-Serves :
      (st : Server api) (adr : AdrTuple api) (found : Option ℕ)
      → session_of api st.sessions st.udp_sessions adr ≡ ok found
      → Named adr st found
  found-Serves st adr none e = tt
  found-Serves st adr (some i) e = session_of-Serves st.sessions st.udp_sessions adr i e

  dispatch-Finds :
      (found : Option ℕ) (adr : AdrTuple api) (raw : Bytes) (p : RouterPacket) (st : Server api)
      → Named adr st found
      → Ends api (Finds adr (place st found) st) (dispatch api found adr raw p st)
  unfolding dispatch create_session add_session set_adr_tuple
  dispatch-Finds (some i) adr raw p st own = add_packet_to-Finds adr i raw p st own
  dispatch-Finds none adr raw p st own =
      Ends-map api _ (Finds adr (length st.sessions) st) _
        (λ t (keeps, own'). ((λ k j h. keeps k j (old k j h)), own'))
        (add_packet_to-Finds adr (length st.sessions) raw p (create_session api adr st)
          (new, get_elem?-append_end st.sessions new, refl))
    where
      new : Session api
      new = set_adr_tuple api adr (Session.construct api)

      old : KeepsPeers api st.sessions (st.sessions ++ (new ∷ []))
      old k j (s, e, is) = (s, get_elem?-append_left st.sessions (new ∷ []) j s e, is)

  goes_to-place :
      (st : Server api) (found : Option ℕ) (j : ℕ)
      → goes_to api (length st.sessions) (ok found) j ≡ true
      → j ≡ place st found
  goes_to-place st none j e = (==_iff j (length st.sessions)).0 e
  goes_to-place st (some i) j e = (==_iff j i).0 e

  AllFrom-goes :
      (k : AdrTuple api) (b : Bool) (fs : List (Option Bytes))
      → (b ≡ true → AllFrom k fs)
      → AllFrom k (if b then fs else [])
  AllFrom-goes k true fs h = h refl
  AllFrom-goes k false fs h = tt

  -- The frames of a datagram for the session that r names.
  abbrev new_frames : Outcome (Option ℕ) → AdrTuple api → ℕ → Server api → ℕ → List (Option Bytes)
  new_frames r adr n st j =
      if goes_to api (length st.sessions) r j
      then frame_of api (build_packet (to_string api adr) st.recv_buffer.bytes n)
      else []

  -- The sessions keep their peers, and the frames are for sessions of the peer that sent them.
  abbrev pub Dispatches : (ℕ → List (Option Bytes)) → Server api → Server api → Type 0
  Dispatches frames st t =
      KeepsPeers api st.sessions t.sessions
      × ((j : ℕ) (k : AdrTuple api) → Serves api t.sessions k j → AllFrom k (frames j))

  deliver_from_udp_peer-Dispatches :
      (adr : AdrTuple api) (raw : Bytes) (n : ℕ) (st : Server api)
      → Ends api
          (Dispatches (new_frames (session_of api st.sessions st.udp_sessions adr) adr n st) st)
          (deliver_from_udp_peer api adr raw n st)
  deliver_from_udp_peer-Dispatches adr raw n st =
      deliver_from_udp_peer-Ends api
        (Dispatches (new_frames (session_of api st.sessions st.udp_sessions adr) adr n st) st) adr
        raw n st (λ e. ((λ k j h. h), (λ j k h. rw e (AllFrom-goes k _ [] (λ _. tt)))))
        (λ found p e f.
          Ends-map api (Finds adr (place st found) st) _ _
            (λ t (keeps, is). (
              keeps,
              (λ j k h.
                  rw (e, f)
                    (AllFrom-goes k _ (frame p ∷ []) (λ to.
                      let same : adr ≡ k =
                        Serves-unique api t.sessions j adr k
                          (subst (Serves api t.sessions adr) (sym (goes_to-place st found j to)) is)
                          h in
                      subst (λ z. AllFrom z (frame p ∷ [])) same
                        ((st.recv_buffer.bytes, n, p, f, refl), tt)))),
            ))
            (dispatch-Finds found adr raw p st (found-Serves st adr found e)))

  -- The sessions keep their peers when a receive completes, and the frames that it brings are for
  -- sessions of the peer that sent them.
  pub handle_receive-Dispatches :
      (remote : UdpEndpoint api) (raw : Bytes) (error : Bool) (n : ℕ) (st : Server api)
      → Ends api
          (Dispatches (dispatched api remote error n st) st)
          (handle_receive api remote raw error n st)
  unfolding start_receive remove_session
  handle_receive-Dispatches remote raw error n st =
      let adr = AdrTuple.construct_from api udp remote.address remote.port in
      handle_receive-Ends api (Dispatches (dispatched api remote error n st) st) _ remote raw error
        n st
        (λ e.
          subst (λ frames. Ends api (Dispatches frames st) (deliver_from_udp_peer api adr raw n st))
            (ap
              (λ b j.
                if b
                then new_frames (session_of api st.sessions st.udp_sessions adr) adr n st j
                else [])
              (sym e))
            (deliver_from_udp_peer-Dispatches adr raw n st))
        (λ e. ((λ k j h. h), (λ j k h. rw e tt))) (λ t h. h) (λ t h. h)
