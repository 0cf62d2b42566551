-- ===== src/Server/Run/Sessions.antt =====
-- Each session of a relay at work behaves as a session alone.
use ramses_proxy.Prelude.{
  length-append, arith, length, ℕ, zero, suc, ◌≤◌, ◌≡◌, refl, sym, subst, ap, ◌∙◌, Option, some,
  List, [], ◌∷◌, ◌++◌, Bytes, map, get_elem?, set, Option-cases, inl, inr, append-nil,
}
use ramses_proxy.AdrTuple.{AddressApi}
use ramses_proxy.Params.{Params}
use ramses_proxy.Session.{Session, post_failed}
use ramses_proxy.Session.Stream
use ramses_proxy.Session.Stream.{Link, after, busy, WritesFront}
use ramses_proxy.Session.Order.{Reach-Inv}
use ramses_proxy.Server.{
  Server, Pending, of_session, receive_from, send_to, construct, start_receive, remove_session,
  handle_connection_failed,
}
use ramses_proxy.Server.Registry.{Ends}
use ramses_proxy.Server.Run.{History, grows, history, wrote, done}
use ramses_proxy.Server.Run.{
  own, Step, received, sent, given_up, payload_read, completed, Reach, here, next,
}
use ramses_proxy.Server.Run.Linked.{quiet-Linked, own-append, own-at, own-ne, Runs, Linked}
use ramses_proxy.Server.Run.Quiet.{handle_deliver_to_udp_peer-Quiet}
use ramses_proxy.Server.Run.Completing.{Steps-Linked, completed-Linked}
use ramses_proxy.Server.Run.Uplink.{handle_receive-Linked}
use ramses_proxy.Packet.{frame}
use ramses_proxy.Server.Run.Reading.{
  handle_read_payload-Linked, without-Linked, Quiet-Linked, Ends-Linked,
}

module _ {ℓ} {A : Type ℓ} where
  set-get_elem? : (xs : List A) (i : ℕ) (v : A) → get_elem? xs i ≡ some v → set xs i v ≡ xs
  set-get_elem? [] i v e = refl
  set-get_elem? (x ∷ xs) zero v e = let same : v ≡ x = cc in rw same
  set-get_elem? (x ∷ xs) (suc i) v e = ap (◌∷◌ x) (set-get_elem? xs i v e)

module _ (api : AddressApi) (params : Option Params) where
  -- The session has been told that it has failed; the map of the sessions may change.
  given_up-Linked :
      (fs : ℕ → History api) (st : Server api) (i : ℕ) (xs ys : List (Pending api))
      → Linked api params fs st
      → st.pending ≡ xs ++ (of_session i post_failed ∷ ys)
      → Ends api
          (Linked api params fs)
          (handle_connection_failed api i (record st { pending = xs ++ ys }))
  unfolding handle_connection_failed remove_session
  given_up-Linked fs st i xs ys v e = elim (Option-cases (get_elem? st.sessions i)) [
    | inl f ↦ rw f tt
    | inr (s, f) ↦ rw f (go s f)
  ]
    where
      go :
          (s : Session api)
          → get_elem? st.sessions i ≡ some s
          → Linked api params fs (remove_session api s.udp_tuple (record st { pending = xs ++ ys }))
      go s at =
          Steps-Linked api params fs fs st _ i s s v refl at
            (sym (set-get_elem? st.sessions i s at))
            (λ l session pending added written. record {
              link = after api l (own api i xs ++ own api i ys) l.session [] l.written;
              step =
                  Stream.posts (own api i xs) (own api i ys)
                    (pending ∙ ap (own api i) e ∙ own-at api i post_failed xs ys) refl;
              session = session;
              pending = append-nil (own api i xs ++ own api i ys) ∙ sym (own-append api i xs ys);
              added = added;
              written = written;
            })
            (λ j away. own-ne api i j post_failed xs ys away ∙ ap (own api j) (sym e))
            (λ j away. refl)

  -- There is room for the datagram in the buffer that holds it.
  room : (datagram rest : Bytes) → length datagram ≤ length (datagram ++ rest)
  room datagram rest = omega (arith, length-append datagram rest)

  Step-Linked :
      (fs : ℕ → History api) (st t : Server api) (xs ys : List (Pending api)) (a : Pending api)
      → Linked api params fs st
      → st.pending ≡ xs ++ (a ∷ ys)
      → (step : Step api st t xs ys a) → Linked api params (grows api fs step) t
  Step-Linked fs st t xs ys a v e (received remote raw datagram error wr h r) =
      Ends-Linked api params _ _ t
        (handle_receive-Linked api params fs remote raw error (length datagram) _ wr
          (room datagram _)
          (quiet-Linked api params fs _ _
            (without-Linked api params fs st xs ys receive_from v e (λ j. refl)) refl refl
            (λ j. refl)))
        r
  Step-Linked fs st t xs ys a v e (sent d b error r) =
      Ends-Linked api params fs _ t
        (Quiet-Linked api params fs _ _
          (without-Linked api params fs st xs ys (send_to d b) v e (λ j. refl))
          (handle_deliver_to_udp_peer-Quiet api error _))
        r
  Step-Linked fs st t xs ys a v e (given_up i r) =
      Ends-Linked api params fs _ t (given_up-Linked fs st i xs ys v e) r
  Step-Linked fs st t xs ys a v e (payload_read i m raw bytes error r) =
      Ends-Linked api params fs _ t
        (handle_read_payload-Linked api params fs st i m xs ys v e raw bytes error) r
  Step-Linked fs st t xs ys a v e (completed i b s u ops at c eq) =
      subst (Linked api params (wrote api fs i (done api c))) (sym eq)
        (completed-Linked api params fs st i b s u ops xs ys v e at c)

  started-Linked :
      (raw : Bytes)
      → Linked api params (λ j. ([], [])) (start_receive api (construct api params raw))
  unfolding start_receive construct
  started-Linked raw = record {
    kept = refl;
    runs = λ j s e. absurd cc;
    no_others = λ j e. refl;
    no_frames = λ j e. refl;
  }

  pub Reach-Linked :
      (raw : Bytes) {st : Server api}
      (r : Reach api (start_receive api (construct api params raw)) st)
      → Linked api params (history api r) st
  Reach-Linked raw here = started-Linked raw
  Reach-Linked raw (next {t} {u} xs ys a r e step) =
      Step-Linked (history api r) t u xs ys a (Reach-Linked raw r) e step

  -- From the relay as main starts it, whatever the order in which its pending operations complete, with or
  -- without errors, every session of it and the operations that it has pending are those that a new
  -- session of some peer reaches by itself, from its own completions and the packets of the datagrams
  -- that came for it, in the order in which they came; and it has completed the same writes.
  pub Reach-Runs :
      (raw : Bytes) {st : Server api} (i : ℕ) (s : Session api)
      (r : Reach api (start_receive api (construct api params raw)) st)
      → get_elem? st.sessions i ≡ some s
      → Runs api params s (own api i st.pending) (history api r i)
  Reach-Runs raw i s r e = (Reach-Linked raw r).runs i s e

  -- From the relay as main starts it, whatever the order in which its pending operations complete, with or
  -- without errors, for every session: the frames of its writes that completed without an error, and
  -- behind them those of its queue, are those of the datagrams that came for it, in the order in which
  -- they came and each once; it has one resolve, connect or write pending at most, none if its queue is
  -- empty; and what it writes is the frame at the front of its queue.
  pub Reach-single :
      (raw : Bytes) {st : Server api} (i : ℕ) (s : Session api)
      (r : Reach api (start_receive api (construct api params raw)) st)
      → get_elem? st.sessions i ≡ some s
      → ((history api r i).1 ++ map frame s.queue ≡ (history api r i).0)
        × (busy api (own api i st.pending) ≤ 1)
        × (s.queue ≡ [] → busy api (own api i st.pending) ≡ 0)
        × WritesFront api s.queue (own api i st.pending)
  Reach-single raw {st} i s r e =
      let run = Reach-Runs raw i s r e in
      let v = Reach-Inv api params run.adr run.reached in
      let idle : s.queue ≡ [] → busy api (own api i st.pending) ≡ 0 =
        λ h. ap (busy api) (sym run.pending) ∙ v.idle (ap (λ z. z.queue) run.session ∙ h) in
      (
        (λ k. sym run.written k ++ map frame (sym run.session k).queue) ∙ v.order ∙ run.added,
        subst (λ z. busy api z ≤ 1) run.pending v.single,
        idle,
        subst (λ z. WritesFront api z.queue (own api i st.pending)) run.session
            (subst (WritesFront api run.link.session.queue) run.pending v.front),
      )
