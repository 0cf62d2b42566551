-- ===== src/Server/Run/Reading.antt =====
-- The reads of a relay at work keep its sessions as sessions alone.
use ramses_proxy.Prelude.{
  ℕ, ◌≡◌, refl, sym, subst, ap, ◌∙◌, Bool, Option, some, List, ◌∷◌, ◌++◌, Bytes, map, length,
  get_elem?, set, Option-cases, inl, inr,
}
use ramses_proxy.Outcome.{Outcome, ok, thrown, fault, ◌>>=◌}
use ramses_proxy.Packet.{RouterPacket, arrive}
use ramses_proxy.AdrTuple.{AddressApi}
use ramses_proxy.Params.{Params}
use ramses_proxy.Session
use ramses_proxy.Session.{Session, Action, read_payload}
use ramses_proxy.Session.Stream
use ramses_proxy.Session.Stream.{Link, after}
use ramses_proxy.Server.{Server, Pending, of_session, update, deliver, handle_read_payload}
use ramses_proxy.Server.Registry.{Ends}
use ramses_proxy.Server.Run.{History}
use ramses_proxy.Server.Run.{own}
use ramses_proxy.Server.Run.Linked.{own-append, own-map_same, own-at, own-ne, Linked, quiet-Linked}
use ramses_proxy.Server.Run.Quiet.{Quiet, deliver-Quiet}
use ramses_proxy.Server.Run.Completing.{Steps-Linked, own-update_ne}

module _ (api : AddressApi) (params : Option Params) where
  pub Ends-Linked :
      (fs : ℕ → History api) (r : Outcome (Server api)) (t : Server api)
      → Ends api (Linked api params fs) r
      → r ≡ ok t
      → Linked api params fs t
  Ends-Linked fs r t h e = subst (Ends api (Linked api params fs)) e h

  -- An operation that is no session's completes.
  pub without-Linked :
      (fs : ℕ → History api) (st : Server api) (xs ys : List (Pending api)) (a : Pending api)
      → Linked api params fs st
      → st.pending ≡ xs ++ (a ∷ ys)
      → ((j : ℕ) → own api j (a ∷ ys) ≡ own api j ys)
      → Linked api params fs (record st { pending = xs ++ ys })
  without-Linked fs st xs ys a v e none_of = quiet-Linked api params fs st _ v refl refl (λ j.
      own-append api j xs ys
      ∙ ap (◌++◌ (own api j xs)) (sym (none_of j))
      ∙ sym (own-append api j xs (a ∷ ys))
      ∙ ap (own api j) (sym e))

  -- What a handler leaves that starts no operation of a session.
  pub Quiet-Linked :
      (fs : ℕ → History api) (st : Server api) (r : Outcome (Server api))
      → Linked api params fs st
      → Ends api (Quiet api st) r
      → Ends api (Linked api params fs) r
  Quiet-Linked fs st (ok t) v q = quiet-Linked api params fs st t v q.params q.sessions q.owned
  Quiet-Linked fs st thrown v q = tt
  Quiet-Linked fs st fault v q = tt

  module _ (fs : ℕ → History api) (st : Server api) (i m : ℕ) (xs ys : List (Pending api))
      (v : Linked api params fs st)
      (e : st.pending ≡ xs ++ (of_session i (read_payload m) ∷ ys)) where
    abbrev rest : Server api
    rest = record st { pending = xs ++ ys }

    reads_payload-Linked :
        (bytes : Bytes) (error : Bool) (s u : Session api) (packet : RouterPacket)
        (ops : List (Action api)) (delivery : Option RouterPacket) (r : Outcome (Server api))
        → get_elem? st.sessions i ≡ some s
        → arrive 4 bytes s.from_tcp ≡ some packet
        → Session.handle_read_payload api error (length bytes) (record s { from_tcp = packet })
          ≡ some (u, ops, delivery)
        → Ends api (Quiet api rest) r
        → Ends api (Linked api params fs) (do d ← r; ok (update api i (u, ops) d))
    reads_payload-Linked bytes error s u packet ops delivery thrown at came returns q = tt
    reads_payload-Linked bytes error s u packet ops delivery fault at came returns q = tt
    reads_payload-Linked bytes error s u packet ops delivery (ok d) at came returns q =
        Steps-Linked api params fs fs st _ i s u v q.params at (ap (λ z. set z i u) q.sessions)
          (λ l session pending added written. record {
            link = after api l (own api i xs ++ own api i ys) u ops l.written;
            step =
                Stream.reads_payload m bytes error packet (own api i xs) (own api i ys) u ops
                  delivery (pending ∙ ap (own api i) e ∙ own-at api i (read_payload m) xs ys)
                  (ap (λ z. arrive 4 bytes z.from_tcp) session ∙ came)
                  (ap
                      (λ z.
                        Session.handle_read_payload api error (length bytes)
                          (record z { from_tcp = packet }))
                      session
                    ∙ returns)
                  refl;
            session = refl;
            pending =
                ap (λ z. z ++ ops) (sym (q.owned i ∙ own-append api i xs ys))
                ∙ ap (◌++◌ (own api i d.pending)) (sym (own-map_same api i ops))
                ∙ sym (own-append api i d.pending (map (of_session i) ops));
            added = added;
            written = written;
          })
          (λ j away.
            own-update_ne api params i j d.pending ops away
            ∙ q.owned j
            ∙ own-ne api i j (read_payload m) xs ys away
            ∙ ap (own api j) (sym e))
          (λ j away. refl)

    pub handle_read_payload-Linked :
        (raw bytes : Bytes) (error : Bool)
        → Ends api (Linked api params fs) (handle_read_payload api i raw bytes error rest)
    unfolding handle_read_payload
    handle_read_payload-Linked raw bytes error = elim (Option-cases (get_elem? st.sessions i)) [
      | inl f ↦ rw f tt
      | inr (s, f) ↦ rw f (elim (Option-cases (arrive 4 bytes s.from_tcp)) [
        | inl g ↦ rw g tt
        | inr (packet, g) ↦
            rw g
              (elim (Option-cases (
                Session.handle_read_payload api error (length bytes)
                  (record s { from_tcp = packet }))) [
                    | inl h ↦ rw h tt
                    | inr ((u, ops, delivery), h) ↦ rw h (
                        reads_payload-Linked bytes error s u packet ops delivery
                          (deliver api i delivery raw rest) f g h
                          (deliver-Quiet api i delivery raw rest))
                  ])
      ])
    ]
