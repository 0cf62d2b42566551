-- ===== src/Server/Run/Peers.antt =====
-- The map of the sessions of a relay at work, and the peers of its sessions.
use ramses_proxy.Prelude.{
  length, ℕ, ◌≡◌, refl, sym, subst, ap, ◌∙◌, Option, none, some, List, [], ◌∷◌, ◌++◌, Bytes, map,
  get_elem?, set, Option-cases, inl, inr, append-nil,
}
use ramses_proxy.Outcome.{ok}
use ramses_proxy.Packet.{frame}
use ramses_proxy.AdrTuple.{AddressApi, AdrTuple}
use ramses_proxy.Params.{Params}
use ramses_proxy.Session.{Session, Action}
use ramses_proxy.Server.{
  store_datagram, Server, Pending, construct, start_receive, handle_connection_failed,
  remove_session,
}
use ramses_proxy.Server.Registry.{IsRegistered, Ends}
use ramses_proxy.Server.Owned.{Serves, Serves-set, Serves-unique, KeepsPeers}
use ramses_proxy.Server.Kept.{
  Moves, handle_read_payload-Moves, handle_deliver_to_udp_peer-SameSessions,
}
use ramses_proxy.Server.Reach as AnyOrder
use ramses_proxy.Server.Reach.{
  Handles, Handles-udp_tuple, Step-IsRegistered, construct-IsRegistered,
}
use ramses_proxy.Prelude.{
  ◌↔◌, map, none, Option-cases, inl, inr, Bool, true, false, if◌then◌else◌, ◌==◌, arith,
}
use ramses_proxy.Server.Run.{
  dispatched, wrote, done, History, History, grows, history, wrote, done, Completes, resolves,
  connects, writes, reads_header, Step, received, sent, given_up, payload_read, completed, Reach,
  here, next,
}
use ramses_proxy.Server.Run.Sessions.{Reach-Linked, Reach-single}
use ramses_proxy.Server.Run.Dispatching.{AllFrom, Dispatches, handle_receive-Dispatches}
use ramses_proxy.Packet.{frame}
use ramses_proxy.Server.Run.{history}
use ramses_proxy.Server.Run.Sessions.{Reach-Linked, Reach-single}
use ramses_proxy.Server.Owned.{Serves, Serves-set, Serves-unique, KeepsPeers}
use ramses_proxy.Server.{handle_connection_failed, remove_session}
use ramses_proxy.Server.Run.Dispatching.{AllFrom}

module _ (api : AddressApi) where
  -- What completes in the relay at work is a handler that may run.
  Completes-Handles :
      (params : Option Params) {s u : Session api} {ops : List (Action api)} {a : Action api}
      → Completes api params s u ops a
      → Handles api params s u ops
  Completes-Handles params (resolves host port error es e) = AnyOrder.resolves error es e
  Completes-Handles params (connects d es error e) = AnyOrder.connects error es e
  Completes-Handles params (writes w error e) = AnyOrder.writes error e
  Completes-Handles params (reads_header error bytes packet came e) =
      AnyOrder.reads_header error bytes packet came e

  Step-Step :
      (st t : Server api) (xs ys : List (Pending api)) (a : Pending api)
      → Step api st t xs ys a
      → AnyOrder.Step api (record st { pending = xs ++ ys }) t
  Step-Step st t xs ys a (received remote raw datagram error wr h e) =
      AnyOrder.receives remote raw datagram error h e
  Step-Step st t xs ys a (sent d b error e) = AnyOrder.sends error e
  Step-Step st t xs ys a (given_up i e) = AnyOrder.gives_up i e
  Step-Step st t xs ys a (payload_read i n raw bytes error e) =
      AnyOrder.reads_payload i raw bytes error e
  Step-Step st t xs ys a (completed i b s u ops at c eq) =
      AnyOrder.handles i s u ops at (Completes-Handles st.params c) eq

  -- In every state of the relay at work the map is in step with the sessions.
  pub Run-IsRegistered :
      (params : Option Params) (raw : Bytes) {st : Server api}
      → Reach api (start_receive api (construct api params raw)) st
      → IsRegistered api st
  unfolding start_receive
  Run-IsRegistered params raw here =
      let v = construct-IsRegistered api params raw in record { sorted = v.sorted; owned = v.owned }
  Run-IsRegistered params raw (next {t} {u} xs ys a r e step) =
      let v = Run-IsRegistered params raw r in
      Step-IsRegistered api (record { sorted = v.sorted; owned = v.owned })
        (Step-Step t u xs ys a step)

  -- Sessions that stay as they are, and one that changes but for its peer.
  same-KeepsPeers : (xs ys : List (Session api)) → ys ≡ xs → KeepsPeers api xs ys
  same-KeepsPeers xs ys e k j = subst (λ zs. Serves api zs k j) (sym e)

  set-KeepsPeers :
      (xs ys : List (Session api)) (i : ℕ) (s u : Session api)
      → get_elem? xs i ≡ some s
      → u.udp_tuple ≡ s.udp_tuple
      → ys ≡ set xs i u
      → KeepsPeers api xs ys
  set-KeepsPeers xs ys i s u at same e k j h =
      subst (λ zs. Serves api zs k j) (sym e) (Serves-set api xs i j k s u at same h)

  handle_connection_failed-sessions :
      (i : ℕ) (st t : Server api)
      → handle_connection_failed api i st ≡ ok t
      → t.sessions ≡ st.sessions
  unfolding handle_connection_failed remove_session
  handle_connection_failed-sessions i st t e = ground arith

  wrote-added :
      (fs : ℕ → History api) (i : ℕ) (ws : List (Option Bytes)) (j : ℕ)
      → (wrote api fs i ws j).0 ≡ (fs j).0
  wrote-added fs i ws j = go (j == i)
    where
      go : (b : Bool) → (if b then ((fs j).0, (fs j).1 ++ ws) else fs j).0 ≡ (fs j).0
      go true = refl
      go false = refl

  -- Every step keeps the peers of the sessions; a receive brings frames of the peers, no other step does.
  Step-Dispatches :
      (fs : ℕ → History api) (st t : Server api) (xs ys : List (Pending api)) (a : Pending api)
      (step : Step api st t xs ys a)
      → (new : ℕ → List (Option Bytes)) × Dispatches api new st t
        × ((j : ℕ) → (grows api fs step j).0 ≡ (fs j).0 ++ new j)
  Step-Dispatches fs st t xs ys a (received remote raw datagram error wr h e) = (
    dispatched api remote error (length datagram) (store_datagram api datagram st),
    subst (Ends api (Dispatches api _ st)) e
        (handle_receive-Dispatches api remote raw error (length datagram) _),
    λ j. refl,
  )
  Step-Dispatches fs st t xs ys a (sent d b error e) =
      let same = handle_deliver_to_udp_peer-SameSessions api error _ t e in
      (
        λ j. [],
        (same-KeepsPeers _ t.sessions same.sessions, λ j k h. tt),
        λ j. sym (append-nil (fs j).0),
      )
  Step-Dispatches fs st t xs ys a (given_up i e) = (
    λ j. [],
    (same-KeepsPeers _ t.sessions (handle_connection_failed-sessions i _ t e), λ j k h. tt),
    λ j. sym (append-nil (fs j).0),
  )
  Step-Dispatches fs st t xs ys a (payload_read i n raw bytes error e) =
      let m =
        subst (Ends api (Moves api i _)) e (handle_read_payload-Moves api i raw bytes error _) in
      (
        λ j. [],
        (set-KeepsPeers _ t.sessions i m.old m.new m.at m.same m.sessions, λ j k h. tt),
        λ j. sym (append-nil (fs j).0),
      )
  Step-Dispatches fs st t xs ys a (completed i b s u ops at c eq) = (
    λ j. [],
    (
      set-KeepsPeers _ t.sessions i s u at
          (Handles-udp_tuple api st.params (Completes-Handles st.params c))
          (ap (λ z. z.sessions) eq),
      λ j k h. tt,
    ),
    λ j. wrote-added fs i (done api c) j ∙ sym (append-nil (fs j).0),
  )

  -- All frames of a session's history are from its peer.
  abbrev OfPeer : (ℕ → History api) → Server api → Type 0
  OfPeer fs st = (j : ℕ) (k : AdrTuple api) → Serves api st.sessions k j → AllFrom api k (fs j).0

  AllFrom-append :
      (k : AdrTuple api) (fs gs : List (Option Bytes))
      → AllFrom api k (fs ++ gs) ↔ (AllFrom api k fs × AllFrom api k gs)
  AllFrom-append k [] gs = (λ h. (tt, h), λ h. h.1)
  AllFrom-append k (f ∷ fs) gs =
      let rest = AllFrom-append k fs gs in
      ((λ h. ((h.0, (rest.0 h.1).0), (rest.0 h.1).1)), (λ h. (h.0.0, rest.1 (h.0.1, h.1))))

  Dispatches-OfPeer :
      (fs gs : ℕ → History api) (new : ℕ → List (Option Bytes)) (st t : Server api)
      → ((j : ℕ) → get_elem? st.sessions j ≡ none → fs j ≡ ([], []))
      → Dispatches api new st t
      → ((j : ℕ) → (gs j).0 ≡ (fs j).0 ++ new j)
      → OfPeer fs st
      → OfPeer gs t
  Dispatches-OfPeer fs gs new st t fresh (keeps, from) grow h j k own =
      subst (AllFrom api k) (sym (grow j))
        ((AllFrom-append k (fs j).0 (new j)).1 (old, from j k own))
    where
      old : AllFrom api k (fs j).0
      old = elim (Option-cases (get_elem? st.sessions j)) [
        | inl e ↦ rw (fresh j e) tt
        | inr (s, e) ↦
            let before : Serves api st.sessions s.udp_tuple j = (s, e, refl) in
            let same =
              Serves-unique api t.sessions j s.udp_tuple k (keeps s.udp_tuple j before) own in
            subst (λ z. AllFrom api z (fs j).0) same (h j s.udp_tuple before)
      ]

  Reach-OfPeer :
      (params : Option Params) (raw : Bytes) {st : Server api}
      (r : Reach api (start_receive api (construct api params raw)) st)
      → OfPeer (history api r) st
  Reach-OfPeer params raw here = λ j k own. tt
  Reach-OfPeer params raw (next {t} {u} xs ys a r e step) =
      let (new, d, grow) = Step-Dispatches (history api r) t u xs ys a step in
      Dispatches-OfPeer (history api r) (grows api (history api r) step) new t u
        (Reach-Linked api params raw r).no_frames d grow (Reach-OfPeer params raw r)

  -- From the relay as main starts it, whatever the order in which its pending operations complete, with or
  -- without errors: the keys of the map of the sessions rise strictly, and each is the address of the
  -- peer of the session that it names; and for every session, the frames that it has written without an
  -- error, and those that wait in its queue, were built with the text of its own peer.
  pub Reach-Peers :
      (params : Option Params) (raw : Bytes) {st : Server api} (i : ℕ) (s : Session api)
      (r : Reach api (start_receive api (construct api params raw)) st)
      → get_elem? st.sessions i ≡ some s
      → IsRegistered api st
        × AllFrom api s.udp_tuple (history api r i).1
        × AllFrom api s.udp_tuple (map frame s.queue)
  Reach-Peers params raw i s r e =
      let (order, _, _, _) = Reach-single api params raw i s r e in
      let (wrote, waits) = (AllFrom-append s.udp_tuple (history api r i).1 (map frame s.queue)).0 (
        subst (AllFrom api s.udp_tuple) (sym order)
          (Reach-OfPeer params raw r i s.udp_tuple (s, e, refl))) in
      (Run-IsRegistered params raw r, wrote, waits)
