-- ===== src/Params/Saved.antt =====
-- What load() reads of a file that save() wrote.
use ramses_proxy.Prelude.{
  none, ℕ, ◌%◌, ◌^◌, ◌≡◌, ◌<◌, sym, ◌∙◌, ap, true, Option, some, List, [], ◌∷◌, ◌++◌, Bytes, ltb,
  append-nil, arith,
}
use ramses_proxy.Decimal.{pos, atoi, in_int, to_unsigned, decimal}
use ramses_proxy.Decimal.RoundTrip.{atoi-decimal}
use ramses_proxy.Params.{
  signed_text, Params, Parsed, load, load_path, set_option, set_options, saved_text, key_text,
  f1serveradr, f1serverport, tcpsessiontimeout, loglevel, udpport, tcpport, to_int, to_long,
  to_size, in_long,
}

atoi_of_decimal : (n : ℕ) → atoi (decimal n) ≡ pos n
atoi_of_decimal n = ap atoi (sym (append-nil (decimal n))) ∙ atoi-decimal n [] tt

to_int-decimal : (n : ℕ) → n < 2 ^ 31 → to_int (decimal n) ≡ some (pos n)
unfolding to_int in_int
to_int-decimal n h =
    let fits : ltb n (2 ^ 31) ≡ true = ground arith in rw (atoi_of_decimal n) (rw fits)

to_long-decimal : (n : ℕ) → n < 2 ^ 63 → to_long (decimal n) ≡ some (pos n)
unfolding to_long in_long
to_long-decimal n h =
    let fits : ltb n (2 ^ 63) ≡ true = ground arith in rw (atoi_of_decimal n) (rw fits)

to_size-decimal : (n : ℕ) → n < 2 ^ 31 → to_size (decimal n) ≡ some n
unfolding to_size to_unsigned
to_size-decimal n h = let wraps : n % 2 ^ 64 ≡ n = omega arith in rw (to_int-decimal n h) (rw wraps)

-- The text of a file with the given options, a line for each.
abbrev pub lines : List (Bytes × Bytes) → Bytes
lines [] = []
lines ((key, value) ∷ os) = (key ++ (b'=' ∷ (value ++ (b'\n' ∷ [])))) ++ lines os

module _ (q : Params) (timeout level : ℕ) (t : q.session_timeout ≡ pos timeout)
    (l : q.log_level ≡ pos level) where
  -- The lines of the saved text as options.
  abbrev pub saved_options : List (Bytes × Bytes)
  saved_options =
      (key_text f1serveradr, q.f1_adr)
      ∷ (key_text f1serverport, decimal q.f1_port)
      ∷ (key_text udpport, decimal q.udp_port)
      ∷ (key_text tcpport, decimal q.tcp_port)
      ∷ (key_text tcpsessiontimeout, decimal timeout)
      ∷ (key_text loglevel, decimal level)
      ∷ []

  saved_text-lines : saved_text q ≡ lines saved_options
  unfolding saved_text signed_text
  saved_text-lines = rw (t, l, append-nil)

  set_options-saved :
      (p : Params)
      → q.f1_port < 2 ^ 31
      → q.udp_port < 2 ^ 31
      → q.tcp_port < 2 ^ 31
      → timeout < 2 ^ 63
      → level < 2 ^ 31
      → set_options saved_options p ≡ some (record q { config_path = p.config_path })
  unfolding set_options set_option
  set_options-saved p f u c s g = rw (
    to_size-decimal q.f1_port f,
    to_size-decimal q.udp_port u,
    to_size-decimal q.tcp_port c,
    to_long-decimal timeout s,
    to_int-decimal level g,
    t,
    l,
  )

  -- A file at the path of load() that holds what save() wrote of the parameters q, with ports and a
  -- log level below 2 ^ 31 and a session timeout below 2 ^ 63, loads as q, whatever the parameters
  -- were before, but for the path, which is longer; of the file iterator this needs that it reads a
  -- text of the lines key=value for q's options as those options.
  pub load-saved_text :
      (iterate : Bytes → Parsed) (file : Bytes → Option Bytes) (p : Params)
      → q.f1_port < 2 ^ 31
      → q.udp_port < 2 ^ 31
      → q.tcp_port < 2 ^ 31
      → timeout < 2 ^ 63
      → level < 2 ^ 31
      → file (load_path p.config_path) ≡ some (saved_text q)
      → iterate (lines saved_options) ≡ record { options = saved_options; throws = none }
      → load iterate file p ≡ some (record q { config_path = load_path p.config_path }, none)
  unfolding load
  load-saved_text iterate file p f u c s g there reads = rw (
    load,
    there,
    saved_text-lines,
    reads,
    set_options-saved (record p { config_path = load_path p.config_path }) f u c s g,
  )
