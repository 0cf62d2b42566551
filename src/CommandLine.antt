-- ===== src/CommandLine.antt =====
-- The command line, in main of src/main.cpp, and the global variables that it sets. boost's parser is
-- not modelled: what it gives is a CommandLine.
pub mod Holds
pub mod Reads
use ramses_proxy.Prelude.{ℕ, Bool, true, false, Option, none, some, List, [], ◌∷◌, Bytes}
use ramses_proxy.Memory.{strcpy}
use ramses_proxy.Decimal.{ℤ, pos}
use ramses_proxy.Params
use ramses_proxy.Signals.{Signal, Handler}
use ramses_proxy.Process.{
  parse_error, options_help, version_line, print, Process, give, exit, perform, in_bounds, ◌>>=◌,
}
use ramses_proxy.Server

-- The command line's options, as variables_map holds them.
pub record Options : Type 0 where
  pub daemon : Bool
  pub verbose : Option ℤ
  pub config : Option Bytes
  pub log : Option Bytes
  pub help : Bool
  pub version : Bool

-- What the parser gives: an exception, with its what(), or the options.
pub data CommandLine : Type 0 where
  throws : Bytes → CommandLine
  parsed : Options → CommandLine

-- The global variables, the buffers as C strings of 255 bytes at most.
pub record Globals : Type 0 where
  pub config_path : Bytes
  pub log_path : Bytes
  pub log_config_path : Bytes
  pub log_level : ℤ
  pub as_daemon : Bool

-- sizeof(g_szcConfigPath), and of the two other buffers
abbrev pub path_size : ℕ
path_size = 256

-- "/ERMO/param"
abbrev pub default_config : Bytes
default_config = b'/' ∷ b'E' ∷ b'R' ∷ b'M' ∷ b'O' ∷ b'/' ∷ b'p' ∷ b'a' ∷ b'r' ∷ b'a' ∷ b'm' ∷ []

-- "/ERMO/log/tech"
abbrev pub default_log : Bytes
default_log =
    b'/' ∷ b'E' ∷ b'R' ∷ b'M' ∷ b'O' ∷ b'/' ∷ b'l' ∷ b'o' ∷ b'g' ∷ b'/' ∷ b't' ∷ b'e' ∷ b'c' ∷ b'h'
    ∷ []

-- "/rart_log.conf"
abbrev pub log_conf : Bytes
log_conf =
    b'/' ∷ b'r' ∷ b'a' ∷ b'r' ∷ b't' ∷ b'_' ∷ b'l' ∷ b'o' ∷ b'g' ∷ b'.' ∷ b'c' ∷ b'o' ∷ b'n' ∷ b'f'
    ∷ []

abbrev pub defaults : Globals
defaults = record {
  config_path = default_config;
  log_path = default_log;
  log_config_path = default_config;
  log_level = pos 0;
  as_daemon = false;
}

-- "1.2.1", g_szcVerson
abbrev pub version_text : Bytes
version_text = b'1' ∷ b'.' ∷ b'2' ∷ b'.' ∷ b'1' ∷ []

module _ (S : Type 0) where
  -- vm.count("config"): the option goes into two buffers
  unfoldable pub set_config : Option Bytes → Globals → Process S Globals
  set_config none g = give g
  set_config (some path) g = do
    config ← in_bounds (strcpy path_size path)
    log_config ← in_bounds (strcpy path_size path)
    give (record g { config_path = config; log_config_path = log_config })

  -- vm.count("log")
  unfoldable pub set_log : Option Bytes → Globals → Process S Globals
  set_log none g = give g
  set_log (some path) g = do
    log ← in_bounds (strcpy path_size path)
    give (record g { log_path = log })

  -- vm.count("help") and vm.count("version")
  unfoldable pub show_help : Bool → Process S (Unit {0})
  show_help true = do _ ← perform (print options_help); exit (pos 0)
  show_help false = give tt

  unfoldable pub show_version : Bool → Process S (Unit {0})
  show_version true = do _ ← perform (print (version_line version_text)); exit (pos 0)
  show_version false = give tt

unfoldable pub set_verbose : Option ℤ → Globals → Globals
set_verbose none g = g
set_verbose (some n) g = record g { log_level = n }

module _ (S : Type 0) where
  -- What main does with the options; with it whether to make a daemon.
  unfoldable pub read_options : CommandLine → Process S (Globals × Bool)
  unfolding set_config set_log set_verbose show_help show_version
  read_options (throws what) = do _ ← perform (print (parse_error what)); exit (pos 1)
  read_options (parsed o) = do
    g ← set_config S o.config (set_verbose o.verbose defaults)
    h ← set_log S o.log g
    _ ← show_help S o.help
    _ ← show_version S o.version
    give (h, o.daemon)
