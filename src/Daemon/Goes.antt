-- ===== src/Daemon/Goes.antt =====
-- The way of make_daemon on which nothing fails.
use ramses_proxy.Prelude.{
  map, ℕ, zero, suc, ◌≡◌, refl, ap, true, false, Option, none, List, [], ◌∷◌, ◌++◌, Bytes, ◌==◌,
}
use ramses_proxy.Decimal.{ℤ}
use ramses_proxy.Log.{ZlogApi, Logger, log_init}
use ramses_proxy.Signals.{Signal, Handler, set_signals}
use ramses_proxy.Daemon.{set_all}
use ramses_proxy.Process.{
  set_signal, Output, Effect, clear_umask, new_session, close_descriptor, go_to_root, live, give,
}
use ramses_proxy.CommandLine.{Globals}
use ramses_proxy.Daemon.{Environment, child, after_fork, detach, close_all, start_log, make_daemon}
use ramses_proxy.Daemon.Holds.{Starts}

log_init_opens :
    (zlog : ZlogApi) (conf : Bytes)
    → Starts zlog conf
    → log_init zlog conf ≡ (record { rc = false; is_open = true; has_rart_category = true }, none)
unfolding log_init
log_init_opens zlog conf (starts, category) = rw (starts, category)

pub start_log_opens :
    (S : Type 0) (zlog : ZlogApi) (conf : Bytes)
    → Starts zlog conf
    → start_log S zlog conf ≡ give (record { rc = false; is_open = true; has_rart_category = true })
unfolding start_log
start_log_opens S zlog conf h =
    rw (start_log, log_init_opens zlog conf h)
      (ap (λ (r : Logger × Option (ℤ × Output)). give r.0) (log_init_opens zlog conf h))

-- The n numbers from k on.
abbrev pub upto : ℕ → ℕ → List ℕ
upto zero k = []
upto (suc n) k = k ∷ upto n (suc k)

abbrev pub signal_effect : {S : Type 0} → Signal × Handler → Effect S
signal_effect (s, h) = set_signal s h

set_all_sets :
    (S : Type 0) (l : List (Signal × Handler))
    → set_all S l ≡ record { effects = map signal_effect l; ending = live tt }
unfolding set_all
set_all_sets S [] = refl
set_all_sets S ((s, h) ∷ rest) = rw (set_all_sets S rest)

close_all_closes :
    (S : Type 0) (n fd : ℕ)
    → close_all S n fd ≡ record { effects = map close_descriptor (upto n fd); ending = live tt }
unfolding close_all
close_all_closes S zero fd = refl
close_all_closes S (suc n) fd = rw (close_all_closes S n (suc fd))

-- What the child of the child does to be a daemon.
abbrev pub daemon_effects : {S : Type 0} → Environment → List (Effect S)
daemon_effects env =
    map signal_effect (set_signals env.debug)
    ++ (clear_umask
        ∷ new_session
        ∷ (map close_descriptor (upto env.open_max 0)
            ++ (go_to_root ∷ close_descriptor 0 ∷ close_descriptor 1 ∷ close_descriptor 2 ∷ [])))

-- Both forks give the child's side, and setsid succeeds.
abbrev pub Forks : Environment → Type 0
Forks env =
    ((env.ppid == 1) ≡ false)
    × (env.fork_1 ≡ child)
    × (env.setsid_fails ≡ false)
    × (env.fork_2 ≡ child)

pub make_daemon_goes_on :
    (S : Type 0) (env : Environment) (g : Globals)
    → Forks env
    → Starts env.zlog g.log_config_path
    → make_daemon S env g
      ≡ record { effects = daemon_effects env; ending = live (record g { as_daemon = true }) }
unfolding make_daemon detach after_fork
make_daemon_goes_on S env g (ppid, first, setsid, second) starts =
    rw (set_all_sets S (set_signals env.debug)) (
      rw (
        ppid,
        first,
        setsid,
        second,
        close_all_closes S env.open_max 0,
        start_log_opens S env.zlog _ starts,
      ))
