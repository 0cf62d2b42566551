-- ===== src/Server/Run/Uplink.antt =====
-- The receives of a relay at work keep its sessions as sessions alone.
use ramses_proxy.Prelude.{
  ℕ, append-nil, ◌+◌, ◌≤◌, ◌<◌, ◌≡◌, refl, sym, subst, ap, ◌∙◌, Bool, true, false, leb, Option,
  none, some, List, [], ◌∷◌, ◌++◌, Bytes, map, length, Bool-cases, inl, inr, if◌then◌else◌, arith,
}
use ramses_proxy.Outcome.{Outcome, ok}
use ramses_proxy.Packet.{RouterPacket, frame, build_packet}
use ramses_proxy.Packet.Layout.{built, build_packet_layout}
use ramses_proxy.Packet.Copying.{built-IsWhole}
use ramses_proxy.Packet.Bounds.{build_packet_overflow}
use ramses_proxy.AdrTuple
use ramses_proxy.AdrTuple.{AddressApi, AdrTuple, udp, to_string}
use ramses_proxy.Params.{Params}
use ramses_proxy.Session.{Session, Action, add_router_packet}
use ramses_proxy.Session.Stream
use ramses_proxy.Session.Stream.{Link, IsBuilt, after}
use ramses_proxy.Server.{
  Server, UdpEndpoint, of_session, receive_from, add_packet_to, create_session, add_session,
  remove_session, dispatch, session_of, deliver_from_udp_peer, start_receive, handle_receive,
}
use ramses_proxy.Server.Branches.{
  Ends, add_packet_to-Ends, deliver_from_udp_peer-Ends, handle_receive-Ends,
}
use ramses_proxy.Prelude.{true, false, ◌==◌}
use ramses_proxy.Server.Run.{History, extended}
use ramses_proxy.Server.Run.{goes_to, frame_of, dispatched}
use ramses_proxy.Server.Run.{own}
use ramses_proxy.Server.Run.Linked.{own-append, own-map_same, Linked, quiet-Linked, created-Linked}
use ramses_proxy.Server.Run.Completing.{Steps, Steps-Linked, own-update_ne}

build_packet-IsBuilt :
    (peer buffer : Bytes) (n : ℕ) (p : RouterPacket)
    → n ≤ length buffer
    → build_packet peer buffer n ≡ some (some p)
    → IsBuilt p
unfolding built
build_packet-IsBuilt peer buffer n p h e = elim (Bool-cases (leb (length peer + n) 1024)) [
  | inl small ↦
      let fits : length peer + n ≤ 1024 = ground arith in
      let both : some (some (built peer buffer n)) ≡ some (some p) =
        sym (build_packet_layout peer buffer n h fits) ∙ e in
      let same : built peer buffer n ≡ p = cc in
      subst IsBuilt same
        (record { whole = built-IsWhole peer buffer n h fits; filled = omega arith })
  | inr big ↦
      let over : 1024 < length peer + n = ground arith in
      let both : none ≡ some (some p) = sym (build_packet_overflow peer buffer n h over) ∙ e in cc
]

module _ (api : AddressApi) (params : Option Params) where
  pub same-Linked :
      (fs gs : ℕ → History api) (st : Server api)
      → ((j : ℕ) → gs j ≡ fs j)
      → Linked api params fs st
      → Linked api params gs st
  same-Linked fs gs st h v = subst (λ f. Linked api params f st) (λ i j. sym (h j) i) v

  no_more : (fs : List (Option Bytes)) (b : Bool) → fs ++ (if b then [] else []) ≡ fs
  no_more fs true = append-nil fs
  no_more fs false = append-nil fs

  abbrev only : ℕ → List (Option Bytes) → ℕ → List (Option Bytes)
  only i new j = if j == i then new else []

  add_packet_to-Linked :
      (fs : ℕ → History api) (i : ℕ) (raw : Bytes) (p : RouterPacket) (st : Server api)
      → length raw ≡ 1032
      → IsBuilt p
      → Linked api params fs st
      → Ends api
          (Linked api params (extended api fs (only i (frame p ∷ []))))
          (add_packet_to api i raw p st)
  add_packet_to-Linked fs i raw p st wr b v =
      add_packet_to-Ends api (Linked api params (extended api fs (only i (frame p ∷ [])))) i raw p
        st
        (λ s u ops e f.
          Steps-Linked api params fs (extended api fs (only i (frame p ∷ []))) st _ i s u v refl e
            refl (adds s u ops f) (λ j away. own-update_ne api params i j st.pending ops away)
            (λ j away.
              let differ : (j == i) ≡ false = ground arith in
              rw differ (ap (λ z. (z, (fs j).1)) (append-nil (fs j).0))))
    where
      adds :
          (s u : Session api) (ops : List (Action api))
          → add_router_packet api st.params raw p s ≡ some (u, ops)
          → (l : Link api) → l.session ≡ s
          → l.pending ≡ own api i st.pending
          → l.added ≡ (fs i).0
          → l.written ≡ (fs i).1
          → Steps api params l u
              (own api i (st.pending ++ map (of_session i) ops))
              (extended api fs (only i (frame p ∷ [])) i)
      adds s u ops f l session pending added written = record {
        link = record (after api l l.pending u ops l.written) { added = l.added ++ (frame p ∷ []) };
        step =
            Stream.add raw p u ops wr b
              (ap (λ z. add_router_packet api params raw p z) session
                ∙ subst (λ z. add_router_packet api z raw p s ≡ some (u, ops)) v.kept f)
              refl;
        session = refl;
        pending =
            ap (λ z. z ++ ops) pending
            ∙ ap (◌++◌ (own api i st.pending)) (sym (own-map_same api i ops))
            ∙ sym (own-append api i st.pending (map (of_session i) ops));
        added =
            let same : (i == i) ≡ true = ground arith in
            rw same (ap (λ z. z ++ (frame p ∷ [])) added);
        written = written;
      }

  create_session-Linked :
      (fs : ℕ → History api) (adr : AdrTuple api) (st : Server api)
      → Linked api params fs st
      → Linked api params fs (create_session api adr st)
  unfolding create_session add_session
  create_session-Linked fs adr st v = created-Linked api params fs st _ adr v refl refl refl

  dispatch-Linked :
      (fs : ℕ → History api) (found : Option ℕ) (adr : AdrTuple api) (raw : Bytes)
      (p : RouterPacket) (st : Server api)
      → length raw ≡ 1032
      → IsBuilt p
      → Linked api params fs st
      → Ends api
          (Linked api params (
            extended api fs
              (λ j. if goes_to api (length st.sessions) (ok found) j then frame p ∷ [] else [])))
          (dispatch api found adr raw p st)
  unfolding dispatch
  dispatch-Linked fs none adr raw p st wr b v =
      add_packet_to-Linked fs (length st.sessions) raw p _ wr b (create_session-Linked fs adr st v)
  dispatch-Linked fs (some i) adr raw p st wr b v = add_packet_to-Linked fs i raw p st wr b v

  module _ (fs : ℕ → History api) (adr : AdrTuple api) (raw : Bytes) (n : ℕ) (st : Server api)
      (wr : length raw ≡ 1032) (h : n ≤ length st.recv_buffer.bytes)
      (v : Linked api params fs st) where
    -- The frame of the datagram, for the session that r names.
    abbrev new : Outcome (Option ℕ) → ℕ → List (Option Bytes)
    new r j =
        if goes_to api (length st.sessions) r j
        then frame_of api (build_packet (to_string api adr) st.recv_buffer.bytes n)
        else []

    deliver_from_udp_peer-Linked :
        Ends api
          (Linked api params
            (extended api fs (new (session_of api st.sessions st.udp_sessions adr))))
          (deliver_from_udp_peer api adr raw n st)
    deliver_from_udp_peer-Linked =
        deliver_from_udp_peer-Ends api
          (Linked api params
            (extended api fs (new (session_of api st.sessions st.udp_sessions adr))))
          adr raw n st
          (λ e.
            same-Linked fs _ st
              (λ j. rw e (
                ap (λ z. (z, (fs j).1))
                  (no_more (fs j).0 (
                    goes_to api (length st.sessions)
                      (session_of api st.sessions st.udp_sessions adr) j))))
              v)
          (λ found p e f. rw e (
            subst
              (λ b.
                Ends api
                  (Linked api params (
                    extended api fs (λ j.
                      if goes_to api (length st.sessions) (ok found) j
                      then frame_of api b
                      else [])))
                  (dispatch api found adr raw p st))
              (sym f)
              (dispatch-Linked fs found adr raw p st wr
                (build_packet-IsBuilt _ st.recv_buffer.bytes n p h f) v)))

  pub handle_receive-Linked :
      (fs : ℕ → History api) (remote : UdpEndpoint api) (raw : Bytes) (error : Bool) (n : ℕ)
      (st : Server api)
      → length raw ≡ 1032
      → n ≤ length st.recv_buffer.bytes
      → Linked api params fs st
      → Ends api
          (Linked api params (extended api fs (dispatched api remote error n st)))
          (handle_receive api remote raw error n st)
  unfolding start_receive remove_session
  handle_receive-Linked fs remote raw error n st wr h v =
      handle_receive-Ends api
        (Linked api params (extended api fs (dispatched api remote error n st))) _ remote raw error
        n st
        (λ e.
          subst
            (λ frames.
              Ends api (Linked api params (extended api fs frames))
                (deliver_from_udp_peer api adr raw n st))
            (ap
              (λ b j.
                if b
                then new fs adr raw n st wr h v (session_of api st.sessions st.udp_sessions adr) j
                else [])
              (sym e))
            (deliver_from_udp_peer-Linked fs adr raw n st wr h v))
        (λ e.
          same-Linked fs _ _ (λ j. rw e (ap (λ z. (z, (fs j).1)) (append-nil (fs j).0)))
            (quiet-Linked api params fs st _ v refl refl (λ j. refl)))
        (λ t w. receiving t _ w refl refl refl) (λ t w. receiving t _ w refl refl refl)
    where
      adr : AdrTuple api
      adr = AdrTuple.construct_from api udp remote.address remote.port

      receiving :
          {gs : ℕ → History api} (t u : Server api)
          → Linked api params gs t
          → u.params ≡ t.params
          → u.sessions ≡ t.sessions
          → u.pending ≡ t.pending ++ (receive_from ∷ [])
          → Linked api params gs u
      receiving {gs} t u w same sessions e = quiet-Linked api params gs t u w same sessions (λ j.
          ap (own api j) e
          ∙ own-append api j t.pending (receive_from ∷ [])
          ∙ append-nil (own api j t.pending))
