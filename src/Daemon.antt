-- ===== src/Daemon.antt =====
-- make_daemon and the signals' handlers of src/main.cpp, on a system that is not Windows. What the
-- system calls, zlog, boost's parser and the files give is the record Environment.
pub mod Holds
pub mod Goes
use ramses_proxy.Prelude.{
  ℕ, zero, suc, Bool, true, Option, none, some, List, [], ◌∷◌, ◌++◌, Bytes, ◌==◌, if◌then◌else◌,
}
use ramses_proxy.Decimal.{pos}
use ramses_proxy.Params
use ramses_proxy.Params.{Params, Parsed, Failure, load}
use ramses_proxy.Log.{ZlogApi, Logger, log_init, log_reload}
use ramses_proxy.Signals.{Signal, Handler, set_signals}
use ramses_proxy.Process.{
  set_signal, load_failed, stop_event, fork_error, setsid_error, stopped_by, Effect, print,
  append_event, syslog, close_syslog, clear_umask, new_session, close_descriptor, go_to_root,
  stop_service, Process, give, exit, perform, in_bounds, ◌>>=◌,
}
use ramses_proxy.Server
use ramses_proxy.CommandLine.{Globals}

-- What fork gives: an error, the parent's side, the child's side.
pub data Fork : Type 0 where
  failed parent child : Fork

-- `error_text` is the text that strerror_r gives, if it returns 0, `open_max` is
-- sysconf(_SC_OPEN_MAX), `bind_error` the what() of the exception of a bind that fails, and `debug`
-- says whether DEBUG is defined.
pub record Environment : Type 0 where
  pub ppid : ℕ
  pub fork_1 : Fork
  pub fork_2 : Fork
  pub setsid_fails : Bool
  pub error_text : Option Bytes
  pub open_max : ℕ
  pub zlog : ZlogApi
  pub iterate : Bytes → Parsed
  pub file : Bytes → Option Bytes
  pub bind_error : Option Bytes
  pub debug : Bool

-- "/raRt_events.log"
abbrev pub events_log : Bytes
events_log =
    b'/' ∷ b'r' ∷ b'a' ∷ b'R' ∷ b't' ∷ b'_' ∷ b'e' ∷ b'v' ∷ b'e' ∷ b'n' ∷ b't' ∷ b's' ∷ b'.' ∷ b'l'
    ∷ b'o' ∷ b'g' ∷ []

module _ (S : Type 0) where
  -- The message to syslog about an error, if strerror_r gives 0.
  unfoldable pub log_errno : Option Bytes → (Bytes → Effect S) → Process S (Unit {0})
  log_errno none f = give tt
  log_errno (some text) f = perform (f text)

  -- The tests on the result of the n-th fork: 1 if it fails, and the parent leaves.
  unfoldable pub after_fork : Option Bytes → ℕ → Fork → Process S (Unit {0})
  unfolding log_errno
  after_fork text n failed = do _ ← log_errno text (λ t. syslog (fork_error n t)); exit (pos 1)
  after_fork text n parent = exit (pos 0)
  after_fork text n child = give tt

  -- The first part of make_daemon, if the parent is not the process 1.
  unfoldable pub detach : Environment → Process S (Unit {0})
  unfolding after_fork log_errno
  detach env = do
    _ ← after_fork env.error_text 1 env.fork_1
    _ ← perform clear_umask
    _ ←
        if env.setsid_fails
        then log_errno env.error_text (λ t. syslog (setsid_error t))
        else perform new_session
    after_fork env.error_text 2 env.fork_2

  -- The loop that closes n descriptors from fd on.
  unfoldable pub close_all : ℕ → ℕ → Process S (Unit {0})
  close_all zero fd = give tt
  close_all (suc n) fd = do _ ← perform (close_descriptor fd); close_all n (suc fd)

  -- log_init, which may leave the process, with a message.
  unfoldable pub start_log : ZlogApi → Bytes → Process S Logger
  unfolding log_init
  start_log zlog conf =
      let (logger, status) = log_init zlog conf in
      elim status [
        | none ↦ give logger
        | some (n, message) ↦ do _ ← perform (print message); exit n
      ]

  -- The calls of signal.
  unfoldable pub set_all : List (Signal × Handler) → Process S (Unit {0})
  set_all [] = give tt
  set_all ((s, h) ∷ rest) = do _ ← perform (set_signal s h); set_all rest

  -- make_daemon(). The signals' handlers are set here and nowhere else.
  unfoldable pub make_daemon : Environment → Globals → Process S Globals
  unfolding set_all detach close_all start_log
  make_daemon env g = do
    _ ← set_all (set_signals env.debug)
    _ ← if env.ppid == 1 then give tt else detach env
    _ ← close_all env.open_max 0
    _ ← perform go_to_root
    _ ← close_all 3 0
    _ ← start_log env.zlog g.log_config_path
    give (record g { as_daemon = true })

  -- What load() hands to syslog.
  abbrev pub report : Option Failure → Process S (Unit {0})
  report none = give tt
  report (some failure) = perform (syslog (load_failed failure))

  -- A new ParamsManager of the path, and its load().
  abbrev pub load_params : ℕ → Environment → Bytes → Process S (Params × Option Failure)
  load_params raw env path = do
    (params, failure) ← in_bounds (load env.iterate env.file (Params.construct raw path))
    _ ← report failure
    give (params, failure)

  -- reload_config(signal_number): the parameters are loaded into a local object
  unfoldable pub reload_config : ℕ → Environment → Globals → Logger → Process S (Globals × Logger)
  reload_config raw env g logger = do
    _ ← load_params raw env g.config_path
    give (g, log_reload env.zlog g.log_config_path logger)

  -- terminate(signal_number)
  unfoldable pub terminate : Globals → ℕ → List (Effect S)
  terminate g signal_number =
      append_event (g.log_path ++ events_log) stop_event
      ∷ stop_service
      ∷ syslog (stopped_by signal_number)
      ∷ close_syslog
      ∷ []
