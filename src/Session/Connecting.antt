-- ===== src/Session/Connecting.antt =====
-- The attempts to connect to the F1 server.
use ramses_proxy.Prelude.{
  ℕ, zero, suc, arith, ◌+◌, ◌≡◌, refl, Bool, true, false, Option, none, some, List, [], ◌∷◌, length,
  ◌>>=◌,
}
use ramses_proxy.AdrTuple.{AddressApi}
use ramses_proxy.Params.{Params}
use ramses_proxy.Session.{
  Endpoint, Endpoints, Action, resolve, connect, read_header, read_payload, write, post_failed,
  Session, handle_connection, handle_resolve, retry, resolved, close_session,
}

module _ (api : AddressApi) (params : Option Params) where
  -- What the refused connects leave: the endpoints that were tried, the session and what it has
  -- started in the end; `none` if the fuel runs out or a handler is undefined.
  abbrev pub Tried : Type 0
  Tried = Option (Endpoints api × Session api × List (Action api))

  -- As long as the one operation that is pending is a connect, it fails, and the handler runs.
  unfoldable pub refuse : ℕ → Session api → List (Action api) → Tried
  refuse zero s ops = none
  refuse (suc fuel) s [] = some ([], s, [])
  refuse (suc fuel) s (connect e es ∷ []) = do
    (t, started) ← handle_connection api params true es s
    (tried, u, last) ← refuse fuel t started
    some (e ∷ tried, u, last)
  refuse (suc fuel) s (connect e es ∷ (a ∷ ops)) = some ([], s, connect e es ∷ (a ∷ ops))
  refuse (suc fuel) s (resolve h p ∷ ops) = some ([], s, resolve h p ∷ ops)
  refuse (suc fuel) s (read_header ∷ ops) = some ([], s, read_header ∷ ops)
  refuse (suc fuel) s (read_payload n ∷ ops) = some ([], s, read_payload n ∷ ops)
  refuse (suc fuel) s (write w ∷ ops) = some ([], s, write w ∷ ops)
  refuse (suc fuel) s (post_failed ∷ ops) = some ([], s, post_failed ∷ ops)

  -- A connect whose handler has the endpoints es left.
  connect-refuse :
      (e : Endpoint api) (es : Endpoints api) (s : Session api)
      → refuse (suc (suc (length es))) (record s { is_open = true }) (connect e es ∷ [])
        ≡ some (e ∷ es, record s { is_open = true }, post_failed ∷ [])
  unfolding refuse handle_connection retry close_session
  connect-refuse e [] s = refl
  connect-refuse e (d ∷ es) s = rw (connect-refuse d es s)

  -- After a resolve, with or without an error, that gives the endpoints e and es, connects that all
  -- fail try each of these once and in this order; after length es + 1 failures the session is closed,
  -- with its queue as it was, and no operation is pending but the post of that.
  pub handle_resolve-refuse :
      (error : Bool) (e : Endpoint api) (es : Endpoints api) (s : Session api)
      → (t : Session api) × (started : List (Action api)) × (u : Session api) × (handle_resolve api
            error
            (e ∷ es)
            s
          ≡ some (t, started))
        × (refuse (length es + 2) t started ≡ some (e ∷ es, u, post_failed ∷ []))
        × (u.queue ≡ s.queue)
        × (u.udp_tuple ≡ s.udp_tuple)
  unfolding handle_resolve retry resolved
  handle_resolve-refuse error e es s = (
    record s { is_open = true },
    connect e es ∷ [],
    record s { is_open = true },
    starts error,
    let fuel : length es + 2 ≡ suc (suc (length es)) = omega arith in
        rw fuel (connect-refuse e es s),
    refl,
    refl,
  )
    where
      starts :
          (b : Bool)
          → handle_resolve api b (e ∷ es) s ≡ some (record s { is_open = true }, connect e es ∷ [])
      starts true = refl
      starts false = refl
