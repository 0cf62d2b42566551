-- ===== src/CommandLine/Holds.antt =====
-- The command line that main goes on with.
use ramses_proxy.Decimal.{pos}
use ramses_proxy.Prelude.{
  ℕ, ◌≡◌, inl, inr, refl, ◌∙◌, ap, Bool, true, false, Option, none, some, Bytes, Bool-cases, length,
  ltb,
}
use ramses_proxy.Memory.{strcpy}
use ramses_proxy.Decimal.{ℤ}
use ramses_proxy.Process.Holds.{Serving, Holds, Holds->>=, Holds-in_bounds, Holds-give, Holds-last}
use ramses_proxy.CommandLine.{
  CommandLine, throws, parsed, Options, Globals, path_size, default_config, default_log, defaults,
  set_config, set_log, set_verbose, show_help, show_version, read_options,
}

-- An option, or what is in its place.
abbrev pub chosen {ℓ} : {A : Type ℓ} → A → Option A → A
chosen d none = d
chosen d (some a) = a

strcpy_copies : (n : ℕ) (s : Bytes) {c : Bytes} → strcpy n s ≡ some c → c ≡ s
unfolding strcpy
strcpy_copies n s h = elim (Bool-cases (ltb (length s) n)) [ inl e ↦ cc | inr e ↦ cc ]

-- What the options leave in the global variables.
abbrev pub options_set : Options → Globals
options_set o = record defaults {
  config_path = chosen default_config o.config;
  log_config_path = chosen default_config o.config;
  log_path = chosen default_log o.log;
  log_level = chosen (pos 0) o.verbose;
}

pub set_verbose_sets :
    (v : Option ℤ) (g : Globals) → set_verbose v g ≡ record g { log_level = chosen g.log_level v }
unfolding set_verbose
set_verbose_sets none g = refl
set_verbose_sets (some n) g = refl

-- The options one after the other.
options_set_in_order :
    (o : Options) {g h : Globals}
    → g ≡ record (set_verbose o.verbose defaults) {
      config_path = chosen (set_verbose o.verbose defaults).config_path o.config;
      log_config_path = chosen (set_verbose o.verbose defaults).log_config_path o.config;
    }
    → h ≡ record g { log_path = chosen g.log_path o.log }
    → h ≡ options_set o
options_set_in_order o e f =
    f
    ∙ (ap {A = Globals} (λ g. record g { log_path = chosen g.log_path o.log }) e
        ∙ ap {A = Globals}
            (λ g. record g {
              config_path = chosen g.config_path o.config;
              log_config_path = chosen g.log_config_path o.config;
              log_path = chosen g.log_path o.log;
            })
            (set_verbose_sets o.verbose defaults))

-- X holds of the status with which read_options leaves.
pub record LineLeavesWith (line : CommandLine) (X : ℤ → Type 0) : Type 0 where
  pub by_exception : (what : Bytes) → line ≡ throws what → X (pos 1)
  pub by_help : (o : Options) → line ≡ parsed o → o.help ≡ true → X (pos 0)
  pub by_version : (o : Options) → line ≡ parsed o → o.help ≡ false → o.version ≡ true → X (pos 0)

module _ (S : Type 0) (P : S → Type 0) (X : ℤ → Type 0) where
  set_config-Holds :
      (path : Option Bytes) (g : Globals)
      → Holds
          (Serving P)
          X
          (λ h. h ≡ record g {
            config_path = chosen g.config_path path;
            log_config_path = chosen g.log_config_path path;
          })
          (set_config S path g)
  unfolding set_config
  set_config-Holds none g = Holds-give refl
  set_config-Holds (some path) g = Holds->>= (Holds-in_bounds (strcpy path_size path)) (λ a e.
      Holds->>= (Holds-in_bounds (strcpy path_size path)) (λ b f.
        Holds-give (same (strcpy_copies path_size path e) (strcpy_copies path_size path f))))
    where
      same :
          {a b : Bytes}
          → a ≡ path
          → b ≡ path
          → record g { config_path = a; log_config_path = b }
            ≡ record g { config_path = path; log_config_path = path }
      same e f = cc

  set_log-Holds :
      (path : Option Bytes) (g : Globals)
      → Holds
          (Serving P)
          X
          (λ h. h ≡ record g { log_path = chosen g.log_path path })
          (set_log S path g)
  unfolding set_log
  set_log-Holds none g = Holds-give refl
  set_log-Holds (some path) g =
      Holds->>= (Holds-in_bounds (strcpy path_size path))
        (λ a e. Holds-give (ap (λ a. record g { log_path = a }) (strcpy_copies path_size path e)))

  show_help-Holds :
      (b : Bool) → (b ≡ true → X (pos 0)) → Holds (Serving P) X (λ u. b ≡ false) (show_help S b)
  unfolding show_help
  show_help-Holds true leaves = Holds-last tt (leaves refl)
  show_help-Holds false leaves = Holds-give refl

  show_version-Holds :
      (b : Bool) → (b ≡ true → X (pos 0)) → Holds (Serving P) X (λ u. b ≡ false) (show_version S b)
  unfolding show_version
  show_version-Holds true leaves = Holds-last tt (leaves refl)
  show_version-Holds false leaves = Holds-give refl

  -- The options that main goes on with.
  abbrev pub Goes : CommandLine → Globals × Bool → Type 0
  Goes line r =
      (o : Options) × (line ≡ parsed o)
      × (o.help ≡ false)
      × (o.version ≡ false)
      × (r ≡ (options_set o, o.daemon))

  pub read_options-Holds :
      (line : CommandLine)
      → LineLeavesWith line X
      → Holds (Serving P) X (Goes line) (read_options S line)
  unfolding read_options set_verbose
  read_options-Holds (throws what) l = Holds-last tt (l.by_exception what refl)
  read_options-Holds (parsed o) l =
      Holds->>= (set_config-Holds o.config (set_verbose o.verbose defaults)) (λ g e.
        Holds->>= (set_log-Holds o.log g) (λ h f.
          Holds->>= (show_help-Holds o.help (l.by_help o refl)) (λ _ help.
            Holds->>= (show_version-Holds o.version (l.by_version o refl help)) (λ _ version.
              Holds-give
                (o, refl, help, version, ap (λ k. (k, o.daemon)) (options_set_in_order o e f))))))
