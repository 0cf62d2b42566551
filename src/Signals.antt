-- ===== src/Signals.antt =====
-- The signals' handlers that set_signals of src/main.cpp asks for, for a system with no SIGEMT.
use ramses_proxy.Prelude.{Bool, List, [], ◌∷◌, ◌++◌, if◌then◌else◌}

pub data Signal : Type 0 where
  sighup sigint sigquit sigkill sigterm sigtrap sigabrt sigfpe sigbus sigsegv sigsys sigpipe sigalrm
        sigxcpu sigxfsz sigvtalrm sigprof sigusr1 sigusr2 sigttou sigttin sigtstp sigchld :
      Signal

-- terminate, reload_config, SIG_IGN and SIG_DFL
pub data Handler : Type 0 where
  terminate reload_config ignored standard : Handler

-- set_signals(): the calls of signal in their order; `debug` says whether DEBUG is defined.
unfoldable pub set_signals : Bool → List (Signal × Handler)
set_signals debug =
    (sighup, terminate)
    ∷ (sigint, terminate)
    ∷ (sigquit, terminate)
    ∷ (sigkill, terminate)
    ∷ (sigterm, terminate)
    ∷ ((if debug then [] else (sigtrap, terminate) ∷ [])
        ++ ((sigabrt, terminate)
            ∷ (sigfpe, ignored)
            ∷ (sigbus, ignored)
            ∷ (sigsegv, standard)
            ∷ (sigsys, ignored)
            ∷ (sigpipe, ignored)
            ∷ (sigalrm, ignored)
            ∷ (sigxcpu, ignored)
            ∷ (sigxfsz, ignored)
            ∷ (sigvtalrm, ignored)
            ∷ (sigprof, ignored)
            ∷ (sigusr1, reload_config)
            ∷ (sigusr2, ignored)
            ∷ (sigttou, ignored)
            ∷ (sigttin, ignored)
            ∷ (sigtstp, ignored)
            ∷ (sigchld, ignored)
            ∷ []))
