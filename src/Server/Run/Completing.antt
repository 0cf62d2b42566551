-- ===== src/Server/Run/Completing.antt =====
-- The completions that concern one session are steps of that session.
use ramses_proxy.Prelude.{
  ℕ, ◌≡◌, ◌≢◌, refl, sym, subst, ap, ◌∙◌, true, false, Option, some, List, [], ◌∷◌, ◌++◌, map,
  get_elem?, append-nil, length,
}
use ramses_proxy.AdrTuple.{AddressApi}
use ramses_proxy.Params.{Params}
use ramses_proxy.Packet.{arrive}
use ramses_proxy.Session.{
  Session, Action, handle_resolve, handle_connection, handle_deliver_tcp, handle_read_header,
}
use ramses_proxy.Session.Stream
use ramses_proxy.Session.Stream.{Link, after}
use ramses_proxy.Server.{Server, Pending, of_session, update}
use ramses_proxy.Server.Run.{History, wrote, done}
use ramses_proxy.Prelude.{true, false, ◌==◌, arith}
use ramses_proxy.Server.Run.{own, Completes, resolves, connects, writes, reads_header}
use ramses_proxy.Server.Run.Linked.{
  own-append, own-map_same, own-map_ne, own-at, own-ne, Linked, moved-Linked,
}

module _ (api : AddressApi) (params : Option Params) where
  -- A step of the link l, whose pending operations were X, a and Y, to the session u.
  pub record Steps (l : Link api) (u : Session api) (ops : List (Action api)) (fs : History api)
      : Type 0 where
    pub link : Link api
    pub step : Stream.Step api params l link
    pub session : link.session ≡ u
    pub pending : link.pending ≡ ops
    pub added : link.added ≡ fs.0
    pub written : link.written ≡ fs.1

  completion-Steps :
      (l : Link api) (a : Action api) (s u : Session api) (ops X Y : List (Action api))
      (fs : History api)
      → l.session ≡ s
      → l.pending ≡ X ++ (a ∷ Y)
      → l.added ≡ fs.0
      → l.written ≡ fs.1
      → (c : Completes api params s u ops a)
      → Steps l u ((X ++ Y) ++ ops) (fs.0, fs.1 ++ done api c)
  completion-Steps l a s u ops X Y fs at e g k (resolves host port error es r) = record {
    link = after api l (X ++ Y) u ops l.written;
    step =
        Stream.resolves host port error es X Y u ops e (ap (handle_resolve api error es) at ∙ r)
          refl;
    session = refl;
    pending = refl;
    added = g;
    written = k ∙ sym (append-nil fs.1);
  }
  completion-Steps l a s u ops X Y fs at e g k (connects d es error r) = record {
    link = after api l (X ++ Y) u ops l.written;
    step =
        Stream.connects d es error X Y u ops e (ap (handle_connection api params error es) at ∙ r)
          refl;
    session = refl;
    pending = refl;
    added = g;
    written = k ∙ sym (append-nil fs.1);
  }
  completion-Steps l a s u ops X Y fs at e g k (writes w false r) = record {
    link = after api l (X ++ Y) u ops (l.written ++ (some w ∷ []));
    step = Stream.writes w X Y u ops e (ap (handle_deliver_tcp api params false) at ∙ r) refl;
    session = refl;
    pending = refl;
    added = g;
    written = ap (λ z. z ++ (some w ∷ [])) k;
  }
  completion-Steps l a s u ops X Y fs at e g k (writes w true r) = record {
    link = after api l (X ++ Y) u ops l.written;
    step = Stream.write_fails w X Y u ops e (ap (handle_deliver_tcp api params true) at ∙ r) refl;
    session = refl;
    pending = refl;
    added = g;
    written = k ∙ sym (append-nil fs.1);
  }
  completion-Steps l a s u ops X Y fs at e g k (reads_header error bytes packet came r) = record {
    link = after api l (X ++ Y) u ops l.written;
    step =
        Stream.reads_header bytes error packet X Y u ops e
          (ap (λ z. arrive 0 bytes z.from_tcp) at ∙ came)
          (ap (λ z. handle_read_header api error (length bytes) (record z { from_tcp = packet })) at
            ∙ r)
          refl;
    session = refl;
    pending = refl;
    added = g;
    written = k ∙ sym (append-nil fs.1);
  }

  -- A step of session i, from the operations that it has in st to those in t.
  pub Steps-Linked :
      (fs gs : ℕ → History api) (st t : Server api) (i : ℕ) (s u : Session api)
      → Linked api params fs st
      → t.params ≡ st.params
      → get_elem? st.sessions i ≡ some s
      → t.sessions ≡ (update api i (u, []) st).sessions
      → ((l : Link api)
          → l.session ≡ s
          → l.pending ≡ own api i st.pending
          → l.added ≡ (fs i).0
          → l.written ≡ (fs i).1
          → Steps l u (own api i t.pending) (gs i))
      → ((j : ℕ) → j ≢ i → own api j t.pending ≡ own api j st.pending)
      → ((j : ℕ) → j ≢ i → gs j ≡ fs j)
      → Linked api params gs t
  Steps-Linked fs gs st t i s u v same at sessions steps owned others =
      let r = v.runs i s at in
      let m = steps r.link r.session r.pending r.added r.written in
      moved-Linked api params fs gs st t i s u v same at sessions
        (record {
          adr = r.adr;
          link = m.link;
          reached = Stream.next r.reached m.step;
          session = m.session;
          pending = m.pending;
          added = m.added;
          written = m.written;
        })
        owned others

  -- The operations of a session that starts ops after an operation of it has completed.
  pub own-update :
      (i : ℕ) (xs ys : List (Pending api)) (ops : List (Action api))
      → own api i ((xs ++ ys) ++ map (of_session i) ops) ≡ (own api i xs ++ own api i ys) ++ ops
  own-update i xs ys ops =
      own-append api i (xs ++ ys) (map (of_session i) ops)
      ∙ ap (λ z. z ++ own api i (map (of_session i) ops)) (own-append api i xs ys)
      ∙ ap (◌++◌ (own api i xs ++ own api i ys)) (own-map_same api i ops)

  pub own-update_ne :
      (i j : ℕ) (pending : List (Pending api)) (ops : List (Action api))
      → j ≢ i
      → own api j (pending ++ map (of_session i) ops) ≡ own api j pending
  own-update_ne i j pending ops h =
      own-append api j pending (map (of_session i) ops)
      ∙ ap (◌++◌ (own api j pending)) (own-map_ne api i j ops h)
      ∙ append-nil (own api j pending)

  pub completed-Linked :
      (fs : ℕ → History api) (st : Server api) (i : ℕ) (a : Action api) (s u : Session api)
      (ops : List (Action api)) (xs ys : List (Pending api))
      → Linked api params fs st
      → st.pending ≡ xs ++ (of_session i a ∷ ys)
      → get_elem? st.sessions i ≡ some s
      → (c : Completes api st.params s u ops a)
      → Linked api params
          (wrote api fs i (done api c))
          (update api i (u, ops) (record st { pending = xs ++ ys }))
  completed-Linked fs st i a s u ops xs ys v e at c =
      Steps-Linked fs (wrote api fs i (done api c)) st _ i s u v refl at refl
        (λ l session pending added written.
          let same : (i == i) ≡ true = ground arith in
          rw same (
            subst (λ o. Steps l u o ((fs i).0, (fs i).1 ++ done api c))
              (sym (own-update i xs ys ops))
              (completion c l session (pending ∙ ap (own api i) e ∙ own-at api i a xs ys) added
                written)))
        (λ j away.
          own-update_ne i j (xs ++ ys) ops away
          ∙ own-ne api i j a xs ys away
          ∙ ap (own api j) (sym e))
        (λ j away. let differ : (j == i) ≡ false = ground arith in rw differ)
    where
      completion :
          (c : Completes api st.params s u ops a) (l : Link api)
          → l.session ≡ s
          → l.pending ≡ own api i xs ++ (a ∷ own api i ys)
          → l.added ≡ (fs i).0
          → l.written ≡ (fs i).1
          → Steps l u ((own api i xs ++ own api i ys) ++ ops) ((fs i).0, (fs i).1 ++ done api c)
      completion =
          subst
            (λ z.
              (c : Completes api z s u ops a) (l : Link api)
              → l.session ≡ s
              → l.pending ≡ own api i xs ++ (a ∷ own api i ys)
              → l.added ≡ (fs i).0
              → l.written ≡ (fs i).1
              → Steps l u ((own api i xs ++ own api i ys) ++ ops)
                  ((fs i).0, (fs i).1 ++ done api c))
            (sym v.kept)
            (λ c l session pending added written.
              completion-Steps l a s u ops (own api i xs) (own api i ys) (fs i) session pending
                added written c)
