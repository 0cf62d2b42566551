-- ===== src/Examples/Startup.antt =====
-- The theorems on main at concrete command lines.
use ramses_proxy.Prelude.{
  ℕ, ◌≡◌, refl, true, false, some, [], ◌∷◌, Bytes, replicate, length-replicate, arith,
}
use ramses_proxy.Decimal.{pos}
use ramses_proxy.Params
use ramses_proxy.Params.{Params, Parsed, no_config_file, load, load_path, saved_text, set_options}
use ramses_proxy.Server.{receive_from}
use ramses_proxy.Process.{
  live, undefined, syslog, load_failed, cannot_load, drop_params, close_syslog,
}
use ramses_proxy.Process.Holds.{Ends, Each, Serving}
use ramses_proxy.CommandLine.{Options, parsed}
use ramses_proxy.Daemon.{Environment, child, failed}
use ramses_proxy.Daemon.Goes.{daemon_effects}
use ramses_proxy.Main.{main, started_server}
use ramses_proxy.Main.Start.{begins, served, main_serves, main_serves_as_daemon, main_load_fails}
use ramses_proxy.Main.Overflow.{main_overflow}
use ramses_proxy.Main.Ends.{Entitled, ExitsWith, main-Ends, main-Serving}
use ramses_proxy.Prelude.{none, ◌++◌}
use ramses_proxy.Examples.{numbers}

-- The command line with --config and no more.
abbrev with_config : Bytes → Options
with_config config = record {
  daemon = false;
  verbose = none;
  config = some config;
  log = none;
  help = false;
  version = false;
}

-- A system with an empty configuration file at every path.
abbrev empty_file : Environment
empty_file = record {
  ppid = 1;
  fork_1 = child;
  fork_2 = child;
  setsid_fails = false;
  error_text = none;
  open_max = 3;
  zlog = record {
    init_fails = λ conf. false;
    has_category = λ conf name. true;
    reload_fails = λ conf. false;
  };
  iterate = λ text. record { options = []; throws = none };
  file = λ path. some [];
  bind_error = none;
  debug = false;
}

-- "/etc"
abbrev etc : Bytes
etc = b'/' ∷ b'e' ∷ b't' ∷ b'c' ∷ []

abbrev loaded : Params
loaded = record (Params.construct 0 etc) { config_path = load_path etc }

loads : load empty_file.iterate empty_file.file (Params.construct 0 etc) ≡ some (loaded, none)
unfolding load set_options Params.construct
loads = refl

-- The system as a shell starts it, with a fork that fails.
abbrev no_fork : Environment
no_fork = record empty_file { ppid = 7; fork_1 = failed; error_text = some etc }

abbrev daemon_line : Options
daemon_line = record (with_config etc) { daemon = true }

main_serves_example :
    (main numbers empty_file (parsed (with_config etc)) 0 [] ≡ record {
      effects =
          begins numbers empty_file
            (with_config etc)
            0
            []
            (served numbers empty_file (with_config etc) 0 [] loaded);
      ending = live (pos 0);
    })
    × ((started_server numbers loaded []).params ≡ some loaded)
    × ((started_server numbers loaded []).sessions ≡ [])
    × ((started_server numbers loaded []).udp_sessions ≡ [])
    × ((started_server numbers loaded []).tcp_queue ≡ [])
    × ((started_server numbers loaded []).pending ≡ receive_from ∷ [])
main_serves_example =
    main_serves numbers empty_file (with_config etc) 0 [] loaded
      (refl, refl, omega arith, omega arith) refl loads (refl, refl) refl

main_serves_as_daemon_example :
    main numbers (record empty_file { ppid = 7 }) (parsed daemon_line) 0 [] ≡ record {
      effects =
          begins numbers
            (record empty_file { ppid = 7 })
            daemon_line
            0
            []
            (daemon_effects (record empty_file { ppid = 7 })
              ++ served numbers (record empty_file { ppid = 7 }) daemon_line 0 [] loaded);
      ending = live (pos 0);
    }
main_serves_as_daemon_example =
    main_serves_as_daemon numbers (record empty_file { ppid = 7 }) daemon_line 0 [] loaded
      (refl, refl, omega arith, omega arith) refl (refl, refl, refl, refl) loads (refl, refl) refl

-- A system without files.
abbrev no_files : Environment
no_files = record empty_file { file = λ path. none }

load_fails :
    load no_files.iterate no_files.file (Params.construct 0 etc)
    ≡ some (loaded, some no_config_file)
unfolding load Params.construct
load_fails = refl

main_load_fails_example : main numbers no_files (parsed (with_config etc)) 0 [] ≡ record {
  effects =
      begins numbers no_files (with_config etc) 0 [] (
        syslog (load_failed no_config_file) ∷ syslog cannot_load ∷ drop_params ∷ close_syslog ∷ []);
  ending = live (pos 0);
}
main_load_fails_example =
    main_load_fails numbers no_files (with_config etc) 0 [] loaded no_config_file
      (refl, refl, omega arith, omega arith) load_fails

main_overflow_example :
    (main numbers empty_file (parsed (with_config (replicate 250 47))) 0 []).ending ≡ undefined
main_overflow_example =
    main_overflow numbers empty_file (with_config (replicate 250 47)) 0 [] (replicate 250 47) refl
      refl refl (omega (arith, length-replicate {A = ℕ} 250 47))

main-Ends_example :
    Ends
      (ExitsWith numbers no_fork (parsed daemon_line))
      (λ n. n ≡ pos 0)
      (main numbers no_fork (parsed daemon_line) 0 []).ending
main-Ends_example = main-Ends numbers no_fork (parsed daemon_line) 0 []

main-Serving_example :
    Each
      (Serving (Entitled numbers (record empty_file { ppid = 7 }) (parsed daemon_line) 0 []))
      (main numbers (record empty_file { ppid = 7 }) (parsed daemon_line) 0 []).effects
main-Serving_example =
    main-Serving numbers (record empty_file { ppid = 7 }) (parsed daemon_line) 0 []
