-- ===== src/Process.antt =====
-- How a part of the process of src/main.cpp ends, and what it does outside until then, in its order.
-- S is the type of the server that the process serves.
pub mod Holds
use ramses_proxy.Prelude.{ℕ, Option, none, some, List, [], ◌∷◌, ◌++◌, Bytes}
use ramses_proxy.Decimal.{ℤ}
use ramses_proxy.Params.{Failure}
use ramses_proxy.Signals.{Signal, Handler}

-- What goes to the standard output: the exception of the parser, the table of the options, the
-- version, and the logger's two messages.
pub data Output : Type 0 where
  parse_error : Bytes → Output
  options_help : Output
  version_line : Bytes → Output
  init_failed : Output
  get_cat_fail : Output

-- A line of the file of events, without its time; the first has the version.
pub data Event : Type 0 where
  start_event : Bytes → Event
  stop_event : Event

-- The messages for syslog; the errors come with their description.
pub data Message : Type 0 where
  fork_error : ℕ → Bytes → Message
  setsid_error : Bytes → Message
  load_failed : Failure → Message
  cannot_load : Message
  stopped_by : ℕ → Message

-- The notices for zlog.
pub data Notice : Type 0 where
  starting started stopped : Notice
  got_exception : Bytes → Notice

-- `serve s` is the run of the io_service, from the server s on, up to its end.
pub data Effect {ℓ} (S : Type ℓ) : Type ℓ where
  print : Output → Effect S
  print_error : Bytes → Effect S
  append_event : Bytes → Event → Effect S
  open_syslog : Effect S
  syslog : Message → Effect S
  close_syslog : Effect S
  set_signal : Signal → Handler → Effect S
  clear_umask : Effect S
  new_session : Effect S
  close_descriptor : ℕ → Effect S
  go_to_root : Effect S
  notice : Notice → Effect S
  serve : S → Effect S
  stop_service : Effect S
  drop_params : Effect S

-- It goes on, it exits with a status, or it is undefined.
pub data Ending {ℓ} (A : Type ℓ) : Type ℓ where
  live : A → Ending A
  exits : ℤ → Ending A
  undefined : Ending A

pub record Process {ℓ κ} (S : Type ℓ) (A : Type κ) : Type (ℓ ⊔ κ) where
  pub effects : List (Effect S)
  pub ending : Ending A

abbrev pub give {ℓ κ} : {S : Type ℓ} {A : Type κ} → A → Process S A
give a = record { effects = []; ending = live a }

abbrev pub exit {ℓ κ} : {S : Type ℓ} {A : Type κ} → ℤ → Process S A
exit n = record { effects = []; ending = exits n }

abbrev pub perform {ℓ} : {S : Type ℓ} → Effect S → Process S (Unit {0})
perform e = record { effects = e ∷ []; ending = live tt }

-- An access to a buffer, undefined if it is outside.
abbrev pub in_bounds {ℓ κ} : {S : Type ℓ} {A : Type κ} → Option A → Process S A
in_bounds none = record { effects = []; ending = undefined }
in_bounds (some a) = record { effects = []; ending = live a }

-- The rest of the process, after the effects that it had.
abbrev pub after {ℓ κ μ} :
    {S : Type ℓ} {A : Type κ} {B : Type μ}
    → List (Effect S)
    → Ending A
    → (A → Process S B)
    → Process S B
after es (live a) f = record { effects = es ++ (f a).effects; ending = (f a).ending }
after es (exits n) f = record { effects = es; ending = exits n }
after es undefined f = record { effects = es; ending = undefined }

infixl 5 ◌>>=◌
abbrev pub ◌>>=◌ {ℓ κ μ} :
    {S : Type ℓ} {A : Type κ} {B : Type μ} → Process S A → (A → Process S B) → Process S B
m >>= f = after m.effects m.ending f
