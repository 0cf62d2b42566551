-- ===== src/Tcp/Accept.antt =====
-- The acceptor never stops accepting.
use ramses_proxy.Prelude.{
  ◌≡◌, not, refl, Bool, true, false, Option, some, List, [], ◌∷◌, ◌++◌, append_assoc, append-nil,
  ◌>>=◌,
}
use ramses_proxy.Decimal.{pos}
use ramses_proxy.AdrTuple.{AddressApi}
use ramses_proxy.Params.{Params}
use ramses_proxy.Session
use ramses_proxy.Session.{Session, Action, read_header, start_read_from_tcp}
use ramses_proxy.Tcp.{TcpServer, construct, open_acceptor, start, complete_accept, handle_accept}

module _ (api : AddressApi) where
  -- The pending accept completes, with or without an error, once for each element of the list.
  unfoldable pub completions : List Bool → TcpServer api → Option (TcpServer api)
  completions [] t = some t
  completions (error ∷ errors) t = do
    u ← handle_accept api error (complete_accept api error t)
    completions errors u

  -- One new session for each completion that reads a header, on a socket that is open unless there was
  -- an error.
  abbrev pub readers : List Bool → List (Session api × List (Action api))
  readers [] = []
  readers (error ∷ errors) =
      (record (Session.construct api) { is_open = not error }, read_header ∷ []) ∷ readers errors

  completions_from :
      (params : Option Params) (errors : List Bool)
      (before : List (Session api × List (Action api)))
      → completions errors (record {
        params = params;
        is_listening = true;
        session = Session.construct api;
        accepted = before;
        accepting = 1;
      })
        ≡ some (record {
          params = params;
          is_listening = true;
          session = Session.construct api;
          accepted = before ++ readers errors;
          accepting = 1;
        })
  unfolding completions handle_accept start_read_from_tcp Session.construct
  completions_from params [] before = rw append-nil
  completions_from params (error ∷ errors) before =
      rw
        (completions_from params errors (
          before
          ++ ((record (Session.construct api) { is_open = not error }, read_header ∷ []) ∷ [])))
        (rw append_assoc)

  -- A server with parameters whose acceptor opens starts with 0; after any completions of its accepts,
  -- with or without errors, it listens, exactly one accept is pending, and every completion has handed
  -- on one session that reads a header, on a socket that is open if there was no error and closed if
  -- there was one.
  pub start-completions :
      (p : Params) (errors : List Bool)
      → (t : TcpServer api) × (u : TcpServer api) × (start api false (construct api (some p))
          ≡ (t, pos 0))
        × (completions errors t ≡ some u)
        × (u.is_listening ≡ true)
        × (u.accepting ≡ 1)
        × (u.accepted ≡ readers errors)
  unfolding start open_acceptor construct
  start-completions p errors = (_, _, refl, completions_from (some p) errors [], refl, refl, refl)
