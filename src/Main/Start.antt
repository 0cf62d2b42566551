-- ===== src/Main/Start.antt =====
-- Which command lines start the relay, in the foreground and as a daemon, and what the process does
-- then.
use ramses_proxy.Prelude.{
  ℕ, ◌≡◌, refl, true, false, Option, none, some, List, [], ◌∷◌, ◌++◌, Bytes, append_assoc,
}
use ramses_proxy.Decimal.{pos}
use ramses_proxy.AdrTuple.{AddressApi}
use ramses_proxy.Params
use ramses_proxy.Params.{Params, Failure, load, config_file}
use ramses_proxy.Server
use ramses_proxy.Server.{Server, start_receive, receive_from}
use ramses_proxy.Process.{
  Effect, append_event, start_event, open_syslog, close_syslog, notice, starting, started, stopped,
  serve, drop_params, syslog, load_failed, cannot_load, live,
}
use ramses_proxy.CommandLine.{Options, parsed, default_config, default_log, log_conf, version_text}
use ramses_proxy.CommandLine.Holds.{chosen, options_set}
use ramses_proxy.Daemon.{Environment, events_log}
use ramses_proxy.Daemon.Holds.{Starts}
use ramses_proxy.Main.{started_server, run, service, main}
use ramses_proxy.CommandLine.Reads.{Fits, strcat_fits, read_options_reads, small}
use ramses_proxy.Daemon.Goes.{Forks, daemon_effects, start_log_opens, make_daemon_goes_on}

module _ (api : AddressApi) (env : Environment) (o : Options) (raw_port : ℕ) (raw : Bytes) where
  -- The parameters that the options lead to, and how that fails, if it does.
  abbrev pub loads : Option (Params × Option Failure)
  loads = load env.iterate env.file (Params.construct raw_port (chosen default_config o.config))

  -- What main does first, and last.
  abbrev pub begins : List (Effect (Server api)) → List (Effect (Server api))
  begins rest =
      append_event (chosen default_log o.log ++ events_log) (start_event version_text)
      ∷ open_syslog
      ∷ rest

  abbrev pub served : Params → List (Effect (Server api))
  served p =
      notice starting
      ∷ notice started
      ∷ serve (started_server api p raw)
      ∷ notice stopped
      ∷ drop_params
      ∷ close_syslog
      ∷ []

  -- With options whose paths fit and that ask for no daemon, parameters that load, a logger that starts
  -- and a port that is free, main marks its start in the file of events, opens syslog, and serves, with
  -- a notice before and after, a server with those parameters, with no session, that waits for the
  -- first datagram; when that ends it drops the parameters, closes syslog and ends with the status 0.
  pub main_serves :
      (p : Params)
      → Fits o
      → o.daemon ≡ false
      → loads ≡ some (p, none)
      → Starts env.zlog (chosen default_config o.config ++ log_conf)
      → env.bind_error ≡ none
      → (main api env (parsed o) raw_port raw
          ≡ record { effects = begins (served p); ending = live (pos 0) })
        × ((started_server api p raw).params ≡ some p)
        × ((started_server api p raw).sessions ≡ [])
        × ((started_server api p raw).udp_sessions ≡ [])
        × ((started_server api p raw).tcp_queue ≡ [])
        × ((started_server api p raw).pending ≡ receive_from ∷ [])
  unfolding main service run started_server Server.construct start_receive
  main_serves p fits daemon loaded starts bound = (
    rw (
      read_options_reads (Server api) o fits,
      loaded,
      strcat_fits (chosen default_config o.config) log_conf (small o fits),
      daemon,
      start_log_opens (Server api) env.zlog _ starts,
      bound,
    ),
    refl,
    refl,
    refl,
    refl,
    refl,
  )

  -- With options whose paths fit and that ask for a daemon, and two forks and a setsid that succeed, the
  -- child of the child does what main_serves says, and between the opening of syslog and the first
  -- notice it has cleared its mask, has a session of its own, has closed every descriptor below
  -- sysconf(_SC_OPEN_MAX) and those of the standard streams, and has gone to the root directory.
  pub main_serves_as_daemon :
      (p : Params)
      → Fits o
      → o.daemon ≡ true
      → Forks env
      → loads ≡ some (p, none)
      → Starts env.zlog (chosen default_config o.config ++ log_conf)
      → env.bind_error ≡ none
      → main api env (parsed o) raw_port raw
        ≡ record { effects = begins (daemon_effects env ++ served p); ending = live (pos 0) }
  unfolding main service run
  main_serves_as_daemon p fits daemon forks loaded starts bound =
      rw
        (
          read_options_reads (Server api) o fits,
          loaded,
          strcat_fits (chosen default_config o.config) log_conf (small o fits),
          daemon,
          make_daemon_goes_on (Server api) env
              (record (options_set o) {
                log_config_path = chosen default_config o.config ++ log_conf;
              })
              forks starts,
          bound,
        )
        (simp append_assoc)

  -- With options whose paths fit and parameters that do not load, main hands the failure of the load and
  -- then its own message to syslog, and starts neither a daemon nor the logger nor a server; the status
  -- is 0 all the same.
  pub main_load_fails :
      (p : Params) (failure : Failure)
      → Fits o
      → loads ≡ some (p, some failure)
      → main api env (parsed o) raw_port raw ≡ record {
        effects =
            begins
              (syslog (load_failed failure) ∷ syslog cannot_load ∷ drop_params ∷ close_syslog ∷ []);
        ending = live (pos 0);
      }
  unfolding main service
  main_load_fails p failure fits loaded = rw (
    read_options_reads (Server api) o fits,
    loaded,
    strcat_fits (chosen default_config o.config) log_conf (small o fits),
  )
