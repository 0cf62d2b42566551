-- ===== src/Daemon/Holds.antt =====
-- When the process goes on as a daemon, and with a logger.
use ramses_proxy.Daemon.{set_all}
use ramses_proxy.Signals.{Signal, Handler, set_signals}
use ramses_proxy.Prelude.{
  List, [], ◌∷◌, ℕ, zero, suc, ◌≡◌, ◌≢◌, sym, ◌∙◌, ◌⊎◌, inl, inr, refl, Bool, true, false, Option,
  none, some, Bytes, ◌==◌, if◌then◌else◌, Bool-cases, ==_iff,
}
use ramses_proxy.Decimal.{ℤ, pos, negative}
use ramses_proxy.Params
use ramses_proxy.Params.{load}
use ramses_proxy.Log.{ZlogApi, log_init, category_name}
use ramses_proxy.Process.{setsid_error, new_session, Effect, give, perform, syslog}
use ramses_proxy.Process.Holds.{
  Serving, Holds, Holds->>=, Holds-map, Holds-give, Holds-exit, Holds-then, Holds-last,
  Holds-perform, Holds-in_bounds,
}
use ramses_proxy.CommandLine.{Globals}
use ramses_proxy.Daemon.{
  Fork, failed, parent, child, Environment, log_errno, after_fork, detach, close_all, start_log,
  make_daemon, report, load_params,
}

-- Whether the process is one that make_daemon goes on with.
abbrev pub IsDaemon : Environment → Type 0
IsDaemon env = (env.ppid ≡ 1) ⊎ ((env.fork_1 ≡ child) × (env.fork_2 ≡ child))

-- The logger starts with this configuration.
abbrev pub Starts : ZlogApi → Bytes → Type 0
Starts zlog conf = (zlog.init_fails conf ≡ false) × (zlog.has_category conf category_name ≡ true)

-- The first fork has this result, or the second after a first that goes on in the child.
abbrev pub Forked : Environment → Fork → Type 0
Forked env f = (env.fork_1 ≡ f) ⊎ ((env.fork_1 ≡ child) × (env.fork_2 ≡ f))

-- X holds of the status with which detach leaves.
pub record LeavesWith (env : Environment) (X : ℤ → Type 0) : Type 0 where
  pub by_failure : Forked env failed → X (pos 1)
  pub by_parent : Forked env parent → X (pos 0)

-- X holds of the status with which the start of the logger leaves.
pub record LogLeavesWith (zlog : ZlogApi) (conf : Bytes) (X : ℤ → Type 0) : Type 0 where
  pub by_init : zlog.init_fails conf ≡ true → X (negative 1)
  pub by_category :
      zlog.init_fails conf ≡ false → zlog.has_category conf category_name ≡ false → X (negative 2)

module _ (S : Type 0) (P : S → Type 0) (X : ℤ → Type 0) where
  log_errno-Holds :
      (text : Option Bytes) (f : Bytes → Effect S)
      → ((t : Bytes) → Serving P (f t))
      → Holds (Serving P) X (λ u. Unit {0}) (log_errno S text f)
  unfolding log_errno
  log_errno-Holds none f h = Holds-give tt
  log_errno-Holds (some t) f h = Holds-perform (h t)

  after_fork-Holds :
      (text : Option Bytes) (n : ℕ) (f : Fork)
      → (f ≡ failed → X (pos 1))
      → (f ≡ parent → X (pos 0))
      → Holds (Serving P) X (λ u. f ≡ child) (after_fork S text n f)
  unfolding after_fork
  after_fork-Holds text n failed fails leaves =
      Holds->>= (log_errno-Holds text _ (λ t. tt)) (λ _ _. Holds-exit (fails refl))
  after_fork-Holds text n parent fails leaves = Holds-exit (leaves refl)
  after_fork-Holds text n child fails leaves = Holds-give refl

  detach-Holds :
      (env : Environment)
      → LeavesWith env X
      → Holds (Serving P) X (λ u. (env.fork_1 ≡ child) × (env.fork_2 ≡ child)) (detach S env)
  unfolding detach
  detach-Holds env l =
      Holds->>=
        (after_fork-Holds env.error_text 1 env.fork_1 (λ e. l.by_failure (inl e))
          (λ e. l.by_parent (inl e)))
        (λ _ first. Holds->>= (Holds-perform tt) (λ _ _. Holds->>= (leads env.setsid_fails) (λ _ _.
          Holds-map
            (after_fork-Holds env.error_text 2 env.fork_2 (λ e. l.by_failure (inr (first, e)))
              (λ e. l.by_parent (inr (first, e))))
            (λ _ second. (first, second)))))
    where
      leads :
          (b : Bool)
          → Holds
              (Serving P)
              X
              (λ u. Unit {0})
              (if b
                then log_errno S env.error_text (λ t. syslog (setsid_error t))
                else perform new_session)
      leads true = log_errno-Holds env.error_text _ (λ t. tt)
      leads false = Holds-perform tt

  close_all-Holds : (n fd : ℕ) → Holds (Serving P) X (λ u. Unit {0}) (close_all S n fd)
  unfolding close_all
  close_all-Holds zero fd = Holds-give tt
  close_all-Holds (suc n) fd = Holds->>= (Holds-perform tt) (λ _ _. close_all-Holds n (suc fd))

  pub start_log-Holds :
      (zlog : ZlogApi) (conf : Bytes)
      → LogLeavesWith zlog conf X
      → Holds (Serving P) X (λ l. Starts zlog conf) (start_log S zlog conf)
  unfolding start_log log_init
  start_log-Holds zlog conf l = elim (Bool-cases (zlog.init_fails conf)) [
    | inl e ↦ rw (start_log, e) (Holds-last tt (l.by_init e))
    | inr e ↦ elim (Bool-cases (zlog.has_category conf category_name)) [
      | inl f ↦ rw (start_log, e, f) (Holds-give (refl, refl))
      | inr f ↦ rw (start_log, e, f) (Holds-last tt (l.by_category e f))
    ]
  ]

  set_all-Holds : (l : List (Signal × Handler)) → Holds (Serving P) X (λ u. Unit {0}) (set_all S l)
  unfolding set_all
  set_all-Holds [] = Holds-give tt
  set_all-Holds (s ∷ rest) = Holds->>= (Holds-perform tt) (λ _ _. set_all-Holds rest)

  pub make_daemon-Holds :
      (env : Environment) (g : Globals)
      → (env.ppid ≢ 1 → LeavesWith env X)
      → LogLeavesWith env.zlog g.log_config_path X
      → Holds
          (Serving P)
          X
          (λ h. IsDaemon env × Starts env.zlog g.log_config_path)
          (make_daemon S env g)
  unfolding make_daemon
  make_daemon-Holds env g forks log = Holds->>= (set_all-Holds (set_signals env.debug)) (λ _ _.
      Holds->>= {Q = λ u. IsDaemon env} leaves (λ _ daemon.
        Holds->>= (close_all-Holds env.open_max 0) (λ _ _. Holds-then tt (
          Holds-then tt (
            Holds-then tt (
              Holds-then tt (
                Holds->>= (start_log-Holds env.zlog g.log_config_path log)
                  (λ _ starts. Holds-give (daemon, starts)))))))))
    where
      leaves :
          Holds (Serving P) X (λ u. IsDaemon env) (if env.ppid == 1 then give tt else detach S env)
      leaves = elim (Bool-cases (env.ppid == 1)) [
        | inl e ↦ rw e (Holds-give (inl ((==_iff env.ppid 1).0 e)))
        | inr e ↦ rw e (
            Holds-map
              (detach-Holds env
                (forks (λ is. let b : true ≡ false = sym ((==_iff env.ppid 1).1 is) ∙ e in cc)))
              (λ _ h. inr h))
      ]

  report-Holds :
      (failure : Option Params.Failure) → Holds (Serving P) X (λ u. Unit {0}) (report S failure)
  report-Holds none = Holds-give tt
  report-Holds (some failure) = Holds-perform tt

  pub load_params-Holds :
      (raw : ℕ) (env : Environment) (path : Bytes)
      → Holds
          (Serving P)
          X
          (λ r. load env.iterate env.file (Params.construct raw path) ≡ some r)
          (load_params S raw env path)
  load_params-Holds raw env path =
      Holds->>= (Holds-in_bounds (load env.iterate env.file (Params.construct raw path)))
        (λ (params, failure) e. Holds->>= (report-Holds failure) (λ _ _. Holds-give e))
