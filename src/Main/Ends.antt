-- ===== src/Main/Ends.antt =====
-- How main ends, whatever the command line and the system, and what it serves.
use ramses_proxy.Prelude.{subst, ◌+◌, length, ltb, Bool-cases, ap, ◌∙◌, ◌++◌, ℕ}
use ramses_proxy.Memory.{strcat}
use ramses_proxy.Params.{load}
use ramses_proxy.Process.Holds.{Each, Ends, Holds-in_bounds}
use ramses_proxy.CommandLine.{
  CommandLine, Options, throws, parsed, path_size, default_config, log_conf,
}
use ramses_proxy.CommandLine.Holds.{chosen, LineLeavesWith, read_options-Holds}
use ramses_proxy.Main.{main}
use ramses_proxy.Prelude.{
  ◌≢◌, sym, ◌≡◌, ◌⊎◌, inl, inr, refl, Bool, true, false, Option, none, some, Bytes,
}
use ramses_proxy.Decimal.{ℤ, pos, negative}
use ramses_proxy.AdrTuple.{AddressApi}
use ramses_proxy.Params
use ramses_proxy.Params.{Params, Failure}
use ramses_proxy.Server.{Server}
use ramses_proxy.Process.{
  notice, print_error, started, stopped, got_exception, serve, give, ◌>>=◌, perform,
}
use ramses_proxy.Process.Holds.{Serving, Holds, Holds->>=, Holds-give, Holds-then, Holds-perform}
use ramses_proxy.CommandLine.{Globals}
use ramses_proxy.Daemon.{Environment, failed, parent}
use ramses_proxy.Log.{category_name}
use ramses_proxy.Main.{started_server, run, service}
use ramses_proxy.Daemon.Holds.{
  IsDaemon, Starts, Forked, LeavesWith, LogLeavesWith, start_log-Holds, load_params-Holds,
  make_daemon-Holds,
}

strcat_joins : (n : ℕ) (s t : Bytes) {c : Bytes} → strcat n s t ≡ some c → c ≡ s ++ t
unfolding strcat
strcat_joins n s t h = elim (Bool-cases (ltb (length s + length t) n)) [ inl e ↦ cc | inr e ↦ cc ]

module _ (api : AddressApi) (P : Server api → Type 0) (X : ℤ → Type 0) where
  run-Holds :
      (env : Environment) (params : Params) (raw : Bytes)
      → (env.bind_error ≡ none → P (started_server api params raw))
      → Holds (Serving P) X (λ n. Unit {0}) (run api env params raw)
  unfolding run
  run-Holds env params raw h = Holds-then tt (go env.bind_error h)
    where
      go :
          (e : Option Bytes)
          → (e ≡ none → P (started_server api params raw))
          → Holds
              (Serving P)
              X
              (λ n. Unit {0})
              (elim e [
                | none ↦ do
                  _ ← perform (notice started)
                  _ ← perform (serve (started_server api params raw))
                  _ ← perform (notice stopped)
                  give (pos 0)
                | some what ↦ do
                  _ ← perform (print_error what)
                  _ ← perform (notice (got_exception what))
                  give (negative 1)
              ])
      go none h = Holds-then tt (Holds-then (h refl) (Holds-then tt (Holds-give tt)))
      go (some what) h = Holds-then tt (Holds-then tt (Holds-give tt))

  service-Holds :
      (env : Environment) (g : Globals) (daemon : Bool) (params : Params) (failure : Option Failure)
      (raw : Bytes)
      → (daemon ≡ true → env.ppid ≢ 1 → LeavesWith env X)
      → LogLeavesWith env.zlog g.log_config_path X
      → (failure ≡ none
          → (daemon ≡ false) ⊎ IsDaemon env
          → Starts env.zlog g.log_config_path
          → env.bind_error ≡ none
          → P (started_server api params raw))
      → Holds (Serving P) X (λ u. Unit {0}) (service api env g daemon params failure raw)
  unfolding service
  service-Holds env g daemon params (some failure) raw forks log h = Holds-perform tt
  service-Holds env g true params none raw forks log h =
      Holds->>= (make_daemon-Holds (Server api) P X env g (forks refl) log) (λ _ (daemon, starts).
        Holds->>= (run-Holds env params raw (h refl (inr daemon) starts)) (λ _ _. Holds-give tt))
  service-Holds env g false params none raw forks log h =
      Holds->>= {Q = λ _. Starts env.zlog g.log_config_path}
        (Holds->>= (start_log-Holds (Server api) P X env.zlog g.log_config_path log)
          (λ _ starts. Holds-give starts))
        (λ _ starts.
          Holds->>= (run-Holds env params raw (h refl (inl refl) starts)) (λ _ _. Holds-give tt))

module _ (api : AddressApi) where
  -- The servers that main is entitled to serve: those of a command line that asks for neither help
  -- nor the version, with parameters that load, in a process that goes on as a daemon if the command
  -- line asks for one, with a logger that starts and a port that is free.
  abbrev pub Entitled : Environment → CommandLine → ℕ → Bytes → Server api → Type 0
  Entitled env line raw_port raw st =
      (o : Options) × (params : Params) × (line ≡ parsed o)
      × (o.help ≡ false)
      × (o.version ≡ false)
      × (load env.iterate env.file (Params.construct raw_port (chosen default_config o.config))
          ≡ some (params, none))
      × ((o.daemon ≡ false) ⊎ IsDaemon env)
      × Starts env.zlog (chosen default_config o.config ++ log_conf)
      × (env.bind_error ≡ none)
      × (st ≡ started_server api params raw)

  -- Why main leaves with a status: 1 for a command line that the parser refuses or a fork that fails,
  -- 0 for help, the version or a parent of the daemon, -1 and -2 for a logger that does not start.
  pub data ExitsWith (env : Environment) (line : CommandLine) : ℤ → Type 0 where
    refused : (what : Bytes) → line ≡ throws what → ExitsWith env line (pos 1)
    help_shown : (o : Options) → line ≡ parsed o → o.help ≡ true → ExitsWith env line (pos 0)
    version_shown :
        (o : Options)
        → line ≡ parsed o
        → o.help ≡ false
        → o.version ≡ true
        → ExitsWith env line (pos 0)
    fork_failed :
        (o : Options)
        → line ≡ parsed o
        → o.daemon ≡ true
        → env.ppid ≢ 1
        → Forked env failed
        → ExitsWith env line (pos 1)
    left_to_child :
        (o : Options)
        → line ≡ parsed o
        → o.daemon ≡ true
        → env.ppid ≢ 1
        → Forked env parent
        → ExitsWith env line (pos 0)
    no_zlog :
        (o : Options)
        → line ≡ parsed o
        → env.zlog.init_fails (chosen default_config o.config ++ log_conf) ≡ true
        → ExitsWith env line (negative 1)
    no_category :
        (o : Options)
        → line ≡ parsed o
        → env.zlog.init_fails (chosen default_config o.config ++ log_conf) ≡ false
        → env.zlog.has_category (chosen default_config o.config ++ log_conf) category_name ≡ false
        → ExitsWith env line (negative 2)

  line_leaves : (env : Environment) (line : CommandLine) → LineLeavesWith line (ExitsWith env line)
  line_leaves env line = record {
    by_exception = refused;
    by_help = help_shown;
    by_version = version_shown;
  }

  main-Holds :
      (env : Environment) (line : CommandLine) (raw_port : ℕ) (raw : Bytes)
      → Holds
          (Serving (Entitled env line raw_port raw))
          (ExitsWith env line)
          (λ n. n ≡ pos 0)
          (main api env line raw_port raw)
  unfolding main
  main-Holds env line raw_port raw =
      Holds->>= (read_options-Holds (Server api) _ _ line (line_leaves env line))
        (λ (g, daemon) (o, e, help, version, r).
          let config : g.config_path ≡ chosen default_config o.config =
            ap (λ (k : Globals × Bool). k.0.config_path) r in
          let log_config : g.log_config_path ≡ chosen default_config o.config =
            ap (λ (k : Globals × Bool). k.0.log_config_path) r in
          Holds-then tt (
            Holds-then tt (
              Holds->>= (load_params-Holds (Server api) _ _ raw_port env g.config_path)
                (λ (params, failure) l.
                  Holds->>= (Holds-in_bounds (strcat path_size g.log_config_path log_conf))
                    (λ conf c.
                      Holds->>=
                        (service-Holds api _ _ env _ daemon params failure raw
                          (λ on away.
                            let asked : o.daemon ≡ true =
                              sym (ap (λ (k : Globals × Bool). k.1) r) ∙ on in
                            record {
                              by_failure = fork_failed o e asked away;
                              by_parent = left_to_child o e asked away;
                            })
                          (subst (λ path. LogLeavesWith env.zlog path (ExitsWith env line))
                            (sym (strcat_joins _ _ _ c ∙ ap (λ b. b ++ log_conf) log_config))
                            (record { by_init = no_zlog o e; by_category = no_category o e }))
                          (λ was at starts bound. (
                            o,
                            params,
                            e,
                            help,
                            version,
                            rw (← config) (l ∙ ap (λ b. some (params, b)) was),
                            subst (λ b. (b ≡ false) ⊎ IsDaemon env)
                                (ap (λ (k : Globals × Bool). k.1) r) at,
                            subst (Starts env.zlog)
                                (strcat_joins _ _ _ c ∙ ap (λ b. b ++ log_conf) log_config) starts,
                            bound,
                            refl,
                          )))
                        (λ _ _. Holds-then tt (Holds-then tt (Holds-give refl))))))))

  -- Whatever the command line and the system, if main ends by an exit, the status is 1 after an exception
  -- of the parser or, for a daemon that init has not started, a fork that fails; 0 after help or the
  -- version or, for such a daemon, in the parent of a fork; -1 if zlog does not start with the
  -- configuration of the command line; -2 if that lacks the category. If main comes to its end the
  -- status is 0.
  pub main-Ends :
      (env : Environment) (line : CommandLine) (raw_port : ℕ) (raw : Bytes)
      → Ends (ExitsWith env line) (λ n. n ≡ pos 0) (main api env line raw_port raw).ending
  main-Ends env line raw_port raw = (main-Holds env line raw_port raw).ends

  -- Whatever the command line and the system, every server that main serves is one that it is entitled
  -- to serve.
  pub main-Serving :
      (env : Environment) (line : CommandLine) (raw_port : ℕ) (raw : Bytes)
      → Each (Serving (Entitled env line raw_port raw)) (main api env line raw_port raw).effects
  main-Serving env line raw_port raw = (main-Holds env line raw_port raw).each
