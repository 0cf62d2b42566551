-- ===== src/Server/Run/Linked.antt =====
-- Each session of the relay is one that a new session alone comes to.
use ramses_proxy.Prelude.{
  ℕ, zero, suc, Option-cases, ◌≡◌, ◌≢◌, refl, sym, subst, ap, ◌∙◌, true, false, Option, none, some,
  List, [], ◌∷◌, ◌++◌, map, get_elem?, set, get_elem?-set_self, get_elem?-set_ne,
  get_elem?-append_left, ◌==◌, arith, Bool-cases, inl, inr,
}
use ramses_proxy.AdrTuple.{AddressApi, AdrTuple}
use ramses_proxy.Params.{Params}
use ramses_proxy.Session.{Session, Action}
use ramses_proxy.Session.Stream
use ramses_proxy.Session.Stream.{Link}
use ramses_proxy.Session.Order.{fresh}
use ramses_proxy.Server.{Server, Pending, of_session, receive_from, send_to}
use ramses_proxy.Server.Run.{History}
use ramses_proxy.Server.Run.{own}

module _ {ℓ} {A : Type ℓ} where
  get_elem?-append_new :
      (xs : List A) (v w : A) (j : ℕ)
      → get_elem? xs j ≡ none
      → get_elem? (xs ++ (v ∷ [])) j ≡ some w
      → v ≡ w
  get_elem?-append_new [] v w zero h e = cc
  get_elem?-append_new [] v w (suc j) h e = cc
  get_elem?-append_new (x ∷ xs) v w zero h e = cc
  get_elem?-append_new (x ∷ xs) v w (suc j) h e = get_elem?-append_new xs v w j h e

  get_elem?-append_none :
      (xs : List A) (v : A) (j : ℕ) → get_elem? (xs ++ (v ∷ [])) j ≡ none → get_elem? xs j ≡ none
  get_elem?-append_none [] v j e = refl
  get_elem?-append_none (x ∷ xs) v zero e = cc
  get_elem?-append_none (x ∷ xs) v (suc j) e = get_elem?-append_none xs v j e

module _ (api : AddressApi) where
  pub own-append :
      (i : ℕ) (xs ys : List (Pending api)) → own api i (xs ++ ys) ≡ own api i xs ++ own api i ys
  own-append i [] ys = refl
  own-append i (of_session j a ∷ xs) ys = elim (Bool-cases (i == j)) [
    | inl e ↦ rw (e, own-append i xs ys)
    | inr e ↦ rw (e, own-append i xs ys)
  ]
  own-append i (receive_from ∷ xs) ys = own-append i xs ys
  own-append i (send_to e b ∷ xs) ys = own-append i xs ys

  pub own-map_same : (i : ℕ) (ops : List (Action api)) → own api i (map (of_session i) ops) ≡ ops
  own-map_same i [] = refl
  own-map_same i (a ∷ ops) =
      let same : (i == i) ≡ true = ground arith in rw (same, own-map_same i ops)

  pub own-map_ne :
      (i j : ℕ) (ops : List (Action api)) → j ≢ i → own api j (map (of_session i) ops) ≡ []
  own-map_ne i j [] h = refl
  own-map_ne i j (a ∷ ops) h =
      let differ : (j == i) ≡ false = ground arith in rw (differ, own-map_ne i j ops h)

  -- The operation a of session i among the others.
  pub own-at :
      (i : ℕ) (a : Action api) (xs ys : List (Pending api))
      → own api i (xs ++ (of_session i a ∷ ys)) ≡ own api i xs ++ (a ∷ own api i ys)
  own-at i a xs ys =
      let same : (i == i) ≡ true = ground arith in own-append i xs (of_session i a ∷ ys) ∙ rw same

  pub own-ne :
      (i j : ℕ) (a : Action api) (xs ys : List (Pending api))
      → j ≢ i
      → own api j (xs ++ ys) ≡ own api j (xs ++ (of_session i a ∷ ys))
  own-ne i j a xs ys h =
      let differ : (j == i) ≡ false = ground arith in
      let others : own api j (xs ++ (of_session i a ∷ ys)) ≡ own api j xs ++ own api j ys =
        own-append j xs (of_session i a ∷ ys) ∙ rw differ in
      own-append j xs ys ∙ sym others

  -- A session s with the pending operations ops and the history fs is one that a new session of some
  -- peer reaches.
  pub record Runs (params : Option Params) (s : Session api) (ops : List (Action api))
      (fs : History api) : Type 0 where
    pub adr : AdrTuple api
    pub link : Link api
    pub reached : Stream.Reach api params (fresh api params adr) link
    pub session : link.session ≡ s
    pub pending : link.pending ≡ ops
    pub added : link.added ≡ fs.0
    pub written : link.written ≡ fs.1

  -- All sessions of the server are such sessions, and no operation and no frame is of a session that is
  -- not there.
  pub record Linked (params : Option Params) (fs : ℕ → History api) (st : Server api) : Type 0 where
    pub kept : st.params ≡ params
    pub runs :
        (j : ℕ) (s : Session api)
        → get_elem? st.sessions j ≡ some s
        → Runs params s (own api j st.pending) (fs j)
    pub no_others : (j : ℕ) → get_elem? st.sessions j ≡ none → own api j st.pending ≡ []
    pub no_frames : (j : ℕ) → get_elem? st.sessions j ≡ none → fs j ≡ ([], [])

  module _ (params : Option Params) (fs : ℕ → History api) where
    -- A change that leaves the sessions and their operations.
    pub quiet-Linked :
        (st t : Server api)
        → Linked params fs st
        → t.params ≡ st.params
        → t.sessions ≡ st.sessions
        → ((j : ℕ) → own api j t.pending ≡ own api j st.pending)
        → Linked params fs t
    quiet-Linked st t v same sessions owned = record {
      kept = same ∙ v.kept;
      runs = λ j s e.
          subst (λ o. Runs params s o (fs j)) (sym (owned j))
            (v.runs j s (ap (λ z. get_elem? z j) (sym sessions) ∙ e));
      no_others = λ j e. owned j ∙ v.no_others j (ap (λ z. get_elem? z j) (sym sessions) ∙ e);
      no_frames = λ j e. v.no_frames j (ap (λ z. get_elem? z j) (sym sessions) ∙ e);
    }

    -- A change of session i and of its operations.
    pub moved-Linked :
        (gs : ℕ → History api) (st t : Server api) (i : ℕ) (s u : Session api)
        → Linked params fs st
        → t.params ≡ st.params
        → get_elem? st.sessions i ≡ some s
        → t.sessions ≡ set st.sessions i u
        → Runs params u (own api i t.pending) (gs i)
        → ((j : ℕ) → j ≢ i → own api j t.pending ≡ own api j st.pending)
        → ((j : ℕ) → j ≢ i → gs j ≡ fs j)
        → Linked params gs t
    moved-Linked gs st t i s u v same at sessions run owned others = record {
      kept = same ∙ v.kept;
      runs = λ j. go j;
      no_others = λ j e. owned j (other j e) ∙ v.no_others j (absent j e);
      no_frames = λ j e. others j (other j e) ∙ v.no_frames j (absent j e);
    }
      where
        go :
            (j : ℕ) (w : Session api)
            → get_elem? t.sessions j ≡ some w
            → Runs params w (own api j t.pending) (gs j)
        go j w e = elim (Bool-cases (j == i)) [
          | inl eq ↦
              let here : j ≡ i = ground arith in
              let self : get_elem? t.sessions i ≡ some u =
                ap (λ z. get_elem? z i) sessions ∙ get_elem?-set_self st.sessions i u s at in
              let both : some u ≡ some w = sym self ∙ ap (get_elem? t.sessions) (sym here) ∙ e in
              let found : u ≡ w = cc in
              subst (λ k. Runs params w (own api k t.pending) (gs k)) (sym here)
                (subst (λ z. Runs params z (own api i t.pending) (gs i)) found run)
          | inr eq ↦
              let away : j ≢ i = λ k. ground arith in
              let away' : i ≢ j = λ k. away (sym k) in
              subst (Runs params w (own api j t.pending)) (sym (others j away)) (
                subst (λ o. Runs params w o (fs j)) (sym (owned j away))
                  (v.runs j w (
                    sym (get_elem?-set_ne st.sessions i j u away')
                    ∙ ap (λ z. get_elem? z j) (sym sessions)
                    ∙ e)))
        ]

        other : (j : ℕ) → get_elem? t.sessions j ≡ none → j ≢ i
        other j e here =
            let self : get_elem? t.sessions i ≡ some u =
              ap (λ z. get_elem? z i) sessions ∙ get_elem?-set_self st.sessions i u s at in
            let both : some u ≡ none = sym self ∙ ap (get_elem? t.sessions) (sym here) ∙ e in cc

        absent : (j : ℕ) → get_elem? t.sessions j ≡ none → get_elem? st.sessions j ≡ none
        absent j e =
            sym (get_elem?-set_ne st.sessions i j u (λ k. other j e (sym k)))
            ∙ ap (λ z. get_elem? z j) (sym sessions)
            ∙ e

    -- A new session, with no operation.
    pub created-Linked :
        (st t : Server api) (adr : AdrTuple api)
        → Linked params fs st
        → t.params ≡ st.params
        → t.sessions ≡ st.sessions ++ ((fresh api params adr).session ∷ [])
        → t.pending ≡ st.pending
        → Linked params fs t
    created-Linked st t adr v same sessions quiet = record {
      kept = same ∙ v.kept;
      runs = λ j. go j;
      no_others = λ j e. ap (own api j) quiet ∙ v.no_others j (absent j e);
      no_frames = λ j e. v.no_frames j (absent j e);
    }
      where
        new : Session api
        new = (fresh api params adr).session

        old : (j : ℕ) → get_elem? t.sessions j ≡ get_elem? (st.sessions ++ (new ∷ [])) j
        old j = ap (λ z. get_elem? z j) sessions

        go :
            (j : ℕ) (w : Session api)
            → get_elem? t.sessions j ≡ some w
            → Runs params w (own api j t.pending) (fs j)
        go j w e = elim (Option-cases (get_elem? st.sessions j)) [
          | inl h ↦ record {
            adr = adr;
            link = fresh api params adr;
            reached = Stream.here;
            session = get_elem?-append_new st.sessions new w j h (sym (old j) ∙ e);
            pending = sym (ap (own api j) quiet ∙ v.no_others j h);
            added = ap (λ z. z.0) (sym (v.no_frames j h));
            written = ap (λ z. z.1) (sym (v.no_frames j h));
          }
          | inr (x, h) ↦
              let before : some x ≡ some w =
                sym (get_elem?-append_left st.sessions (new ∷ []) j x h) ∙ sym (old j) ∙ e in
              let found : x ≡ w = cc in
              subst (λ o. Runs params w o (fs j)) (ap (own api j) (sym quiet))
                (v.runs j w (h ∙ ap some found))
        ]

        absent : (j : ℕ) → get_elem? t.sessions j ≡ none → get_elem? st.sessions j ≡ none
        absent j e = get_elem?-append_none st.sessions new j (sym (old j) ∙ e)
