-- ===== src/Main.antt =====
-- run and main of src/main.cpp, on a system that is not Windows. What the process does outside is a
-- list of effects, in order.
pub mod Start
pub mod Ends
pub mod Overflow
use ramses_proxy.Prelude.{
  ℕ, zero, suc, ◌+◌, Bool, true, false, Option, none, some, List, [], ◌∷◌, ◌++◌, Bytes, ◌==◌,
  if◌then◌else◌, not,
}
use ramses_proxy.Memory.{strcpy, strcat}
use ramses_proxy.Decimal.{ℤ, pos, negative}
use ramses_proxy.AdrTuple.{AddressApi}
use ramses_proxy.Params
use ramses_proxy.Params.{Params, Failure}
use ramses_proxy.Log.{ZlogApi, Logger, log_init, log_reload}
use ramses_proxy.Signals.{Signal, Handler, set_signals}
use ramses_proxy.Process.{
  Output, parse_error, options_help, version_line, init_failed, get_cat_fail, start_event,
  stop_event, fork_error, setsid_error, cannot_load, stopped_by, starting, started, stopped,
  got_exception, Effect, live, print, print_error, append_event, open_syslog, syslog, close_syslog,
  clear_umask, new_session, close_descriptor, go_to_root, notice, serve, stop_service, drop_params,
  Process, give, exit, perform, in_bounds, ◌>>=◌,
}
use ramses_proxy.Server
use ramses_proxy.Server.{Server, start_receive}
use ramses_proxy.CommandLine.{CommandLine, Globals, path_size, version_text, log_conf, read_options}
use ramses_proxy.Daemon.{Environment, events_log, start_log, make_daemon, load_params}

module _ (api : AddressApi) where
  -- The server that run() has made and told to receive; `raw` is what the receive buffer held.
  unfoldable pub started_server : Params → Bytes → Server api
  started_server params raw = start_receive api (Server.construct api (some params) raw)

  -- run(), with its result: -1 if the socket cannot be bound, which throws out of the constructor.
  unfoldable pub run : Environment → Params → Bytes → Process (Server api) ℤ
  unfolding started_server
  run env params raw = do
    _ ← perform (notice starting)
    elim env.bind_error [
      | none ↦ do
        _ ← perform (notice started)
        _ ← perform (serve (started_server params raw))
        _ ← perform (notice stopped)
        give (pos 0)
      | some what ↦ do
        _ ← perform (print_error what)
        _ ← perform (notice (got_exception what))
        give (negative 1)
    ]

  -- The part of main that starts the service with the parameters, if they could be loaded; it makes
  -- no use of run's result.
  unfoldable pub service :
      Environment
      → Globals
      → Bool
      → Params
      → Option Failure
      → Bytes
      → Process (Server api) (Unit {0})
  unfolding make_daemon start_log run
  service env g daemon params none raw = do
    _ ←
        if daemon
        then make_daemon (Server api) env g
        else (do _ ← start_log (Server api) env.zlog g.log_config_path; give g)
    _ ← run env params raw
    give tt
  service env g daemon params (some failure) raw = perform (syslog cannot_load)

  -- main(argc, argv), which ends without a return: the status is 0.
  unfoldable pub main : Environment → CommandLine → ℕ → Bytes → Process (Server api) ℤ
  unfolding read_options service
  main env line raw_port raw = do
    (g, daemon) ← read_options (Server api) line
    _ ← perform (append_event (g.log_path ++ events_log) (start_event version_text))
    _ ← perform open_syslog
    (params, failure) ← load_params (Server api) raw_port env g.config_path
    conf ← in_bounds (strcat path_size g.log_config_path log_conf)
    _ ← service env (record g { log_config_path = conf }) daemon params failure raw
    _ ← perform drop_params
    _ ← perform close_syslog
    give (pos 0)
