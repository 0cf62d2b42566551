-- ===== src/Session/Handlers/Sending.antt =====
-- What the handlers of the way to the F1 server keep of the queue.
use ramses_proxy.Prelude.{
  ◌≡◌, ◌≢◌, ◌⊎◌, inl, inr, refl, sym, subst, Bool, true, false, not, ◌&&◌, Option, none, some, List,
  [], ◌∷◌, ◌++◌, arith, Option-cases, if◌then◌else◌, ◌>>=◌,
}
use ramses_proxy.Packet.{RouterPacket, frame}
use ramses_proxy.AdrTuple.{AddressApi}
use ramses_proxy.Params.{Params}
use ramses_proxy.Session.{
  Endpoints, Action, read_header, Session, start, close_session, start_read_from_tcp,
  deliver_to_tcp_peer, handle_connection, handle_resolve, handle_deliver_tcp, write_front, retry,
  resolved, deliver_rest, Result,
}
use ramses_proxy.Session.Stream.{Front}
use ramses_proxy.Session.Pending.{Starts, Starts-none, Starts-append}

module _ (api : AddressApi) where
  -- P holds of what a handler returns, if it returns.
  abbrev pub Holds : (Session api → List (Action api) → Type 0) → Result api → Type 0
  Holds P none = Unit {0}
  Holds P (some (s, ops)) = P s ops

  pub Holds-map :
      (P Q : Session api → List (Action api) → Type 0)
      → ((t : Session api) (ops : List (Action api)) → P t ops → Q t ops)
      → (r : Result api) → Holds P r
      → Holds Q r
  Holds-map P Q f none h = tt
  Holds-map P Q f (some (t, ops)) h = f t ops h

  -- What holds of a returned value.
  pub Holds-some :
      (P : Session api → List (Action api) → Type 0) (r : Result api) (t : Session api)
      (ops : List (Action api))
      → Holds P r
      → r ≡ some (t, ops)
      → P t ops
  Holds-some P r t ops h e = subst (Holds P) e h

  -- The queue is kept, and at most its front is being written.
  abbrev pub Keeps : List RouterPacket → Session api → List (Action api) → Type 0
  Keeps queue t ops = (t.queue ≡ queue) × Starts api t.queue ops

  write_front-Keeps :
      (queue : List RouterPacket) (s : Session api)
      → s.queue ≡ queue
      → Holds (Keeps s.queue) (write_front api queue s)
  unfolding write_front
  write_front-Keeps [] s e = (refl, Starts-none api s.queue [] refl)
  write_front-Keeps (p ∷ rest) s e = elim (Option-cases (frame p)) [
    | inl n ↦ rw n tt
    | inr (w, ew) ↦ rw ew (
      refl,
      record {
        single = omega arith;
        idle = λ h. cc;
        front = (subst (λ q. Front api q w) (sym e) ew, tt);
      },
    )
  ]

  module _ (params : Option Params) where
    pub start-Keeps : (s : Session api) → s.queue ≢ [] → Holds (Keeps s.queue) (start api params s)
    start-Keeps s h = go params
      where
        go : (q : Option Params) → Holds (Keeps s.queue) (start api q s)
        go none = unfold start in tt
        go (some p) =
            unfold start in
            (refl, record { single = omega arith; idle = λ e. absurd (h e); front = tt })

    -- Of an open socket, or with a packet to send.
    pub deliver-Keeps :
        (s : Session api)
        → (s.is_open ≡ true) ⊎ (s.queue ≢ [])
        → Holds (Keeps s.queue) (deliver_to_tcp_peer api params s)
    unfolding deliver_to_tcp_peer
    deliver-Keeps s h = go s.is_open h
      where
        go :
            (b : Bool)
            → (b ≡ true) ⊎ (s.queue ≢ [])
            → Holds (Keeps s.queue) (if b then write_front api s.queue s else start api params s)
        go true k = write_front-Keeps s.queue s refl
        go false (inl k) = cc
        go false (inr k) = start-Keeps s k

  pub close_session-Keeps : (s : Session api) → Holds (Keeps s.queue) (close_session api s)
  unfolding close_session
  close_session-Keeps s = (refl, Starts-none api s.queue _ refl)

  retry-Keeps :
      (es : Endpoints api) (s : Session api) → s.queue ≢ [] → Holds (Keeps s.queue) (retry api es s)
  unfolding retry
  retry-Keeps [] s h = close_session-Keeps s
  retry-Keeps (e ∷ rest) s h =
      (refl, record { single = omega arith; idle = λ n. absurd (h n); front = tt })

  pub handle_resolve-Keeps :
      (error : Bool) (es : Endpoints api) (s : Session api)
      → s.queue ≢ []
      → Holds (Keeps s.queue) (handle_resolve api error es s)
  unfolding handle_resolve resolved
  handle_resolve-Keeps true es s h = retry-Keeps es s h
  handle_resolve-Keeps false [] s h = tt
  handle_resolve-Keeps false (e ∷ rest) s h =
      (refl, record { single = omega arith; idle = λ n. absurd (h n); front = tt })

  module _ (params : Option Params) where
    pub reading-Keeps :
        (queue : List RouterPacket) (r : Result api)
        → Holds (Keeps queue) r
        → Holds (Keeps queue) (do
          (t, started) ← r
          (u, reading) ← start_read_from_tcp api t
          some (u, started ++ reading))
    unfolding start_read_from_tcp
    reading-Keeps queue none h = tt
    reading-Keeps queue (some (t, ops)) h =
        (h.0, Starts-append api t.queue ops (read_header ∷ []) h.1 refl)

    pub handle_connection-Keeps :
        (error : Bool) (es : Endpoints api) (s : Session api)
        → s.queue ≢ []
        → Holds (Keeps s.queue) (handle_connection api params error es s)
    unfolding handle_connection
    handle_connection-Keeps error es s h = go (not error && s.is_open)
      where
        go :
            (b : Bool)
            → Holds (Keeps s.queue) (
                if b
                then (do
                  (t, started) ← deliver_to_tcp_peer api params s
                  (u, reading) ← start_read_from_tcp api t
                  some (u, started ++ reading))
                else retry api es s)
        go true =
            reading-Keeps s.queue (deliver_to_tcp_peer api params s)
              (deliver-Keeps params s (inr h))
        go false = retry-Keeps es s h

    -- A write that completes drops the front of the queue.
    deliver_rest-Keeps :
        (p : RouterPacket) (rest : List RouterPacket) (s : Session api)
        → Holds (Keeps rest) (deliver_rest api params (p ∷ rest) s)
    unfolding deliver_rest
    deliver_rest-Keeps p [] s = (refl, Starts-none api [] [] refl)
    deliver_rest-Keeps p (q ∷ rest) s =
        deliver-Keeps params (record s { queue = q ∷ rest }) (inr (λ e. cc))

  -- The front of the queue goes when its write has completed.
  pub handle_deliver_tcp-Keeps :
      (params : Option Params) (p : RouterPacket) (rest : List RouterPacket) (s : Session api)
      → s.queue ≡ p ∷ rest
      → Holds (Keeps rest) (handle_deliver_tcp api params false s)
  unfolding handle_deliver_tcp
  handle_deliver_tcp-Keeps params p rest s e =
      subst (λ q. Holds (Keeps rest) (deliver_rest api params q s)) (sym e)
        (deliver_rest-Keeps params p rest s)

  pub handle_deliver_tcp_error :
      (params : Option Params) (s : Session api)
      → Holds (Keeps s.queue) (handle_deliver_tcp api params true s)
  unfolding handle_deliver_tcp
  handle_deliver_tcp_error params s = close_session-Keeps s
