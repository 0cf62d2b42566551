-- ===== src/Main/Overflow.antt =====
-- A path of the command line that is too long for its buffers.
use ramses_proxy.Prelude.{
  leb, Bool-cases, Option-cases, inl, inr, ℕ, ◌+◌, ◌≡◌, ◌≤◌, refl, false, Option, none, some, [],
  Bytes, length, ltb, arith,
}
use ramses_proxy.Memory.{strcpy, strcat}
use ramses_proxy.AdrTuple.{AddressApi}
use ramses_proxy.Params
use ramses_proxy.Params.{Params, load, config_file}
use ramses_proxy.Server.{Server}
use ramses_proxy.Prelude.{◌⊎◌}
use ramses_proxy.Process.{undefined, give}
use ramses_proxy.CommandLine.{
  set_verbose, Options, parsed, Globals, log_conf, set_config, set_log, show_help, show_version,
  read_options, defaults,
}
use ramses_proxy.CommandLine.Holds.{chosen}
use ramses_proxy.Daemon.{Environment}
use ramses_proxy.Main.{main}
use ramses_proxy.CommandLine.Reads.{strcpy_fits}

strcpy_overflow : (s : Bytes) → 256 ≤ length s → strcpy 256 s ≡ none
unfolding strcpy
strcpy_overflow s h = let e : ltb (length s) 256 ≡ false = ground arith in rw e

strcat_overflow : (s t : Bytes) → 256 ≤ length s + length t → strcat 256 s t ≡ none
unfolding strcat
strcat_overflow s t h = let e : ltb (length s + length t) 256 ≡ false = ground arith in rw e

set_log-cases :
    (S : Type 0) (path : Option Bytes) (g : Globals)
    → (set_log S path g ≡ record { effects = []; ending = undefined })
      ⊎ (set_log S path g ≡ give (record g { log_path = chosen g.log_path path }))
unfolding set_log
set_log-cases S none g = inr refl
set_log-cases S (some path) g = elim (Bool-cases (leb 256 (length path))) [
  | inl e ↦ inl (rw (strcpy_overflow path (ground arith)))
  | inr e ↦ inr (rw (strcpy_fits path (ground arith)))
]

module _ (api : AddressApi) (env : Environment) (o : Options) (raw_port : ℕ) (raw : Bytes) where
  -- With options that ask for neither help nor the version, and a path in --config of 242 bytes or
  -- more, main is undefined: it writes past the end of a buffer, if the load does not end in undefined
  -- behaviour before.
  pub main_overflow :
      (path : Bytes)
      → o.config ≡ some path
      → o.help ≡ false
      → o.version ≡ false
      → 242 ≤ length path
      → (main api env (parsed o) raw_port raw).ending ≡ undefined
  unfolding main read_options set_config show_help show_version
  main_overflow path config help version big = elim (Bool-cases (leb 256 (length path))) [
    | inl e ↦ rw (config, strcpy_overflow path (ground arith))
    | inr e ↦
        elim (set_log-cases (Server api) o.log (record (set_verbose o.verbose defaults) {
          config_path = path;
          log_config_path = path;
        })) [
          | inl f ↦ rw (config, strcpy_fits path (ground arith), f)
          | inr f ↦
              rw (config, strcpy_fits path (ground arith), f, help, version)
                (elim (Option-cases (load env.iterate env.file (Params.construct raw_port path))) [
                  | inl g ↦ rw g
                  | inr ((p, none), g) ↦ rw (g, strcat_overflow path log_conf (omega arith))
                  | inr ((p, some failure), g) ↦ rw (g, strcat_overflow path log_conf (omega arith))
                ])
        ]
  ]
