-- ===== src/Tcp.antt =====
-- The TCP side that is to accept connections: class TcpRelayServer of src/tcpRelayServer.cpp, which
-- main does not start. Whether the acceptor can be opened, bound and set to listen is an argument.
pub mod Accept
use ramses_proxy.Prelude.{
  ℕ, zero, suc, ◌+◌, ◌-◌, not, ◌||◌, Bool, true, false, Option, none, some, List, [], ◌∷◌, ◌++◌,
  if◌then◌else◌, ◌>>=◌,
}
use ramses_proxy.Decimal.{ℤ, pos, negative}
use ramses_proxy.AdrTuple.{AddressApi}
use ramses_proxy.Params.{Params}
use ramses_proxy.Session
use ramses_proxy.Session.{Session, Action, start_read_from_tcp}

module _ (api : AddressApi) where
  -- The session that waits for its connection, the sessions that have been handed on with the
  -- operations that they started, and the number of async_accept calls that have not completed.
  pub record TcpServer : Type 0 where
    pub params : Option Params
    pub is_listening : Bool
    pub session : Session api
    pub accepted : List (Session api × List (Action api))
    pub accepting : ℕ

  -- TcpRelayServer(ioservice, params, sessionManager)
  unfoldable pub construct : Option Params → TcpServer
  construct params = record {
    params = params;
    is_listening = false;
    session = Session.construct api;
    accepted = [];
    accepting = 0;
  }

  -- open(): an exception, of the lost parameters or of the acceptor, gives -1.
  unfoldable pub open_acceptor : Bool → TcpServer → TcpServer × ℤ
  open_acceptor fails t = elim t.params [
    | none ↦ (t, negative 1)
    | some p ↦ if fails then (t, negative 1) else (record t { is_listening = true }, pos 0)
  ]

  -- m_acceptor.async_accept
  abbrev pub accept : TcpServer → TcpServer
  accept t = record t { accepting = suc t.accepting }

  start_accept : TcpServer × ℤ → TcpServer × ℤ
  start_accept (t, pos zero) = (accept t, pos 0)
  start_accept (t, pos (suc n)) = (t, pos (suc n))
  start_accept (t, negative n) = (t, negative n)

  -- start()
  unfoldable pub start : Bool → TcpServer → TcpServer × ℤ
  unfolding start_accept
  start fails t = start_accept (open_acceptor fails t)

  -- What asio has done when a pending accept completes: without an error the session's socket is open.
  abbrev pub complete_accept : Bool → TcpServer → TcpServer
  complete_accept error t = record t {
    session = record (t.session) { is_open = t.session.is_open || not error };
    accepting = t.accepting - 1;
  }

  -- handle_accept(error), which makes no use of the error
  unfoldable pub handle_accept : Bool → TcpServer → Option TcpServer
  handle_accept error t = do
    started ← start_read_from_tcp api t.session
    some (
        accept
          (record t { session = Session.construct api; accepted = t.accepted ++ (started ∷ []) }))

  -- stop()
  unfoldable pub stop : TcpServer → TcpServer × ℤ
  stop t = (t, negative 1)
