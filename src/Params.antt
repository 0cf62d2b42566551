-- ===== src/Params.antt =====
-- The parameters: class ParamsManager of inc/paramsManager.h and src/paramsManager.cpp.
-- boost's config_file_iterator is the parameter `iterate`, the file system the argument `file`.
-- `none` is undefined behaviour: a number outside the range of atoi's or atol's result.
pub mod Path
pub mod Saved
use ramses_proxy.Prelude.{
  ℕ, ◌*◌, ◌^◌, Bool, true, false, not, ◌&&◌, Option, none, some, List, [], ◌∷◌, ◌++◌, Bytes, ltb,
  leb, ◌==◌, if◌then◌else◌, ◌>>=◌,
}
use ramses_proxy.Decimal.{ℤ, pos, negative, atoi, in_int, to_unsigned, decimal}

pub record Params : Type 0 where
  pub f1_adr : Bytes
  pub f1_port : ℕ
  pub udp_port : ℕ
  pub tcp_port : ℕ
  pub session_timeout : ℤ
  pub log_level : ℤ
  pub config_path : Bytes

-- "127.0.0.1"
abbrev pub localhost : Bytes
localhost = b'1' ∷ b'2' ∷ b'7' ∷ b'.' ∷ b'0' ∷ b'.' ∷ b'0' ∷ b'.' ∷ b'1' ∷ []

-- "raRt.cfg"
abbrev pub config_file : Bytes
config_file = b'r' ∷ b'a' ∷ b'R' ∷ b't' ∷ b'.' ∷ b'c' ∷ b'f' ∷ b'g' ∷ []

-- LOG_USER of syslog.h
abbrev pub log_user : ℕ
log_user = 8

-- ParamsManager(pcConfigPath); `raw` is what the storage of m_nTcpPort held, which is not set.
unfoldable pub construct : ℕ → Bytes → Params
construct raw path = record {
  f1_adr = localhost;
  f1_port = 3500;
  udp_port = 3500;
  tcp_port = raw;
  session_timeout = pos (30 * 60 * 1000);
  log_level = pos log_user;
  config_path = path;
}

-- The options that the file may set, in the source's order.
pub data Key : Type 0 where
  f1serveradr f1serverport tcpsessiontimeout loglevel udpport tcpport : Key

abbrev pub key_text : Key → Bytes
key_text f1serveradr =
    b'f' ∷ b'1' ∷ b's' ∷ b'e' ∷ b'r' ∷ b'v' ∷ b'e' ∷ b'r' ∷ b'a' ∷ b'd' ∷ b'r' ∷ []
key_text f1serverport =
    b'f' ∷ b'1' ∷ b's' ∷ b'e' ∷ b'r' ∷ b'v' ∷ b'e' ∷ b'r' ∷ b'p' ∷ b'o' ∷ b'r' ∷ b't' ∷ []
key_text tcpsessiontimeout =
    b't' ∷ b'c' ∷ b'p' ∷ b's' ∷ b'e' ∷ b's' ∷ b's' ∷ b'i' ∷ b'o' ∷ b'n' ∷ b't' ∷ b'i' ∷ b'm' ∷ b'e'
    ∷ b'o' ∷ b'u' ∷ b't' ∷ []
key_text loglevel = b'l' ∷ b'o' ∷ b'g' ∷ b'l' ∷ b'e' ∷ b'v' ∷ b'e' ∷ b'l' ∷ []
key_text udpport = b'u' ∷ b'd' ∷ b'p' ∷ b'p' ∷ b'o' ∷ b'r' ∷ b't' ∷ []
key_text tcpport = b't' ∷ b'c' ∷ b'p' ∷ b'p' ∷ b'o' ∷ b'r' ∷ b't' ∷ []

abbrev pub bytes_eq : Bytes → Bytes → Bool
bytes_eq [] [] = true
bytes_eq [] (d ∷ t) = false
bytes_eq (c ∷ s) [] = false
bytes_eq (c ∷ s) (d ∷ t) = c == d && bytes_eq s t

-- atoi(text) as an int
unfoldable pub to_int : Bytes → Option ℤ
to_int text = let n = atoi text in if in_int n then some n else none

-- atol(text) as a 64-bit long
unfoldable pub in_long : ℤ → Bool
in_long (pos n) = ltb n (2 ^ 63)
in_long (negative n) = leb n (2 ^ 63)

unfoldable pub to_long : Bytes → Option ℤ
to_long text = let n = atoi text in if in_long n then some n else none

-- The int is converted to size_t.
unfoldable pub to_size : Bytes → Option ℕ
unfolding to_int
to_size text = do n ← to_int text; some (to_unsigned 64 n)

-- One round of load()'s loop: the chain of tests on the key, in the source's order.
unfoldable pub set_option : Bytes → Bytes → Params → Option Params
unfolding to_size to_int to_long
set_option key value p =
    if bytes_eq key (key_text f1serveradr)
    then some (record p { f1_adr = value })
    else if bytes_eq key (key_text f1serverport)
    then (do n ← to_size value; some (record p { f1_port = n }))
    else if bytes_eq key (key_text tcpsessiontimeout)
    then (do n ← to_long value; some (record p { session_timeout = n }))
    else if bytes_eq key (key_text loglevel)
    then (do n ← to_int value; some (record p { log_level = n }))
    else if bytes_eq key (key_text udpport)
    then (do n ← to_size value; some (record p { udp_port = n }))
    else if bytes_eq key (key_text tcpport)
    then (do n ← to_size value; some (record p { tcp_port = n }))
    else some p

-- What the iterator gives: options, and the what() of the exception that it ends by, if it does.
pub record Parsed : Type 0 where
  pub options : List (Bytes × Bytes)
  pub throws : Option Bytes

-- The two ways in which load() fails, each of which SYS_LOG hands to syslog.
pub data Failure : Type 0 where
  no_config_file : Failure
  load_exception : Bytes → Failure

unfoldable pub set_options : List (Bytes × Bytes) → Params → Option Params
set_options [] p = some p
set_options ((key, value) ∷ rest) p = do q ← set_option key value p; set_options rest q

-- The path that load() opens, and keeps.
abbrev pub load_path : Bytes → Bytes
load_path path = path ++ (b'/' ∷ config_file)

-- The catch at the end of load().
abbrev pub caught : Option Bytes → Option Failure
caught none = none
caught (some what) = some (load_exception what)

-- load(), which gives the failure that it hands to syslog and then the result -1, or none and the
-- result 0; `file` is the text of the file at a path, if it can be opened. The log_error beside each
-- SYS_LOG is not modelled.
unfoldable pub load :
    (Bytes → Parsed) → (Bytes → Option Bytes) → Params → Option (Params × Option Failure)
unfolding set_options
load iterate file p =
    let path = load_path p.config_path in
    let q = record p { config_path = path } in
    elim (file path) [
      | none ↦ some (q, some no_config_file)
      | some text ↦ (do
        r ← set_options (iterate text).options q
        some (r, caught (iterate text).throws))
    ]

-- A long on a stream.
unfoldable pub signed_text : ℤ → Bytes
signed_text (pos n) = decimal n
signed_text (negative n) = b'-' ∷ decimal n

abbrev pub line : Key → Bytes → Bytes
line key value = key_text key ++ (b'=' ∷ (value ++ (b'\n' ∷ [])))

-- The text that save() writes, to raRt.cfg in the current directory; the result is 0 whether or not
-- the file could be written.
unfoldable pub saved_text : Params → Bytes
unfolding signed_text
saved_text p =
    line f1serveradr p.f1_adr
    ++ (line f1serverport (decimal p.f1_port)
        ++ (line udpport (decimal p.udp_port)
            ++ (line tcpport (decimal p.tcp_port)
                ++ (line tcpsessiontimeout (signed_text p.session_timeout)
                    ++ line loglevel (signed_text p.log_level)))))

-- getters and setters
abbrev get_session_timeout : Params → ℤ
get_session_timeout p = p.session_timeout

abbrev pub get_f1_port : Params → ℕ
get_f1_port p = p.f1_port

abbrev get_udp_port : Params → ℕ
get_udp_port p = p.udp_port

abbrev pub get_f1_server_adr : Params → Bytes
get_f1_server_adr p = p.f1_adr

abbrev get_log_level : Params → ℤ
get_log_level p = p.log_level

abbrev get_tcp_port : Params → ℕ
get_tcp_port p = p.tcp_port

unfoldable pub set_session_timeout : ℤ → Params → Params
set_session_timeout n p = record p { session_timeout = n }

unfoldable pub set_f1_port : ℕ → Params → Params
set_f1_port n p = record p { f1_port = n }

unfoldable pub set_udp_port : ℕ → Params → Params
set_udp_port n p = record p { udp_port = n }

unfoldable pub set_f1_server_adr : Bytes → Params → Params
set_f1_server_adr adr p = record p { f1_adr = adr }

unfoldable pub set_tcp_port : ℕ → Params → Params
set_tcp_port n p = record p { tcp_port = n }
