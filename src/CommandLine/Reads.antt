-- ===== src/CommandLine/Reads.antt =====
-- Options whose paths fit into the buffers.
use ramses_proxy.Prelude.{
  ◌+◌, ◌≡◌, ◌≤◌, ◌<◌, refl, true, false, Option, none, some, ◌++◌, Bytes, length, ltb, arith,
}
use ramses_proxy.Memory.{strcpy, strcat}
use ramses_proxy.Decimal.{pos}
use ramses_proxy.Process.{give}
use ramses_proxy.CommandLine.{
  Options, parsed, Globals, default_config, default_log, set_config, set_log, show_help,
  show_version, read_options, defaults,
}
use ramses_proxy.CommandLine.Holds.{chosen, options_set, set_verbose_sets}

pub strcpy_fits : (s : Bytes) → length s < 256 → strcpy 256 s ≡ some s
unfolding strcpy
strcpy_fits s h = let e : ltb (length s) 256 ≡ true = ground arith in rw e

pub strcat_fits : (s t : Bytes) → length s + length t < 256 → strcat 256 s t ≡ some (s ++ t)
unfolding strcat
strcat_fits s t h = let e : ltb (length s + length t) 256 ≡ true = ground arith in rw e

set_config_sets :
    (S : Type 0) (path : Option Bytes) (g : Globals)
    → length (chosen g.config_path path) < 256
    → set_config S path g
      ≡ give (record g {
        config_path = chosen g.config_path path;
        log_config_path = chosen g.log_config_path path;
      })
unfolding set_config
set_config_sets S none g h = refl
set_config_sets S (some path) g h = rw (strcpy_fits path h)

set_log_sets :
    (S : Type 0) (path : Option Bytes) (g : Globals)
    → length (chosen g.log_path path) < 256
    → set_log S path g ≡ give (record g { log_path = chosen g.log_path path })
unfolding set_log
set_log_sets S none g h = refl
set_log_sets S (some path) g h = rw (strcpy_fits path h)

-- Options that ask for neither help nor the version, with paths that fit.
abbrev pub Fits : Options → Type 0
Fits o =
    (o.help ≡ false)
    × (o.version ≡ false)
    × (length (chosen default_config o.config) ≤ 241)
    × (length (chosen default_log o.log) ≤ 255)

pub read_options_reads :
    (S : Type 0) (o : Options) → Fits o → read_options S (parsed o) ≡ give (options_set o, o.daemon)
unfolding read_options show_help show_version
read_options_reads S o (help, version, config, log) = rw (
  set_verbose_sets o.verbose defaults,
  set_config_sets S o.config (record defaults { log_level = chosen (pos 0) o.verbose })
      (omega arith),
  set_log_sets S o.log (record (options_set o) { log_path = default_log }) (omega arith),
  help,
  version,
)

-- The path of the logger's file fits as well.
pub small : (o : Options) → Fits o → length (chosen default_config o.config) + 14 < 256
small o (_, _, config, _) = omega arith
