-- ===== src/Params/Path.antt =====
-- The path of the configuration, which load() makes longer.
use ramses_proxy.Prelude.{
  ◌≡◌, ◌∙◌, sym, ap, inl, inr, Option, some, List, [], ◌∷◌, Bytes, ◌>>=◌, arith, Option-cases,
}
use ramses_proxy.Params.{Params, Parsed, Failure, load, load_path, set_option, set_options}

set_option-config_path :
    (key value : Bytes) (p q : Params)
    → set_option key value p ≡ some q
    → q.config_path ≡ p.config_path
unfolding set_option
set_option-config_path key value p q e = ground arith

set_options-config_path :
    (options : List (Bytes × Bytes)) (p q : Params)
    → set_options options p ≡ some q
    → q.config_path ≡ p.config_path
unfolding set_options
set_options-config_path [] p q e = ground arith
set_options-config_path ((key, value) ∷ rest) p q e = elim (Option-cases (set_option key value p)) [
  | inl f ↦ absurd (ground arith)
  | inr (r, f) ↦
      set_options-config_path rest r q (sym (ap (λ o. o >>= set_options rest) f) ∙ e)
      ∙ set_option-config_path key value p r f
]

-- However load() ends, and whatever the file holds, the path is the path that it opened: a second
-- load() opens the file's name behind that path.
pub load-config_path :
    (iterate : Bytes → Parsed) (file : Bytes → Option Bytes) (p q : Params)
    (failure : Option Failure)
    → load iterate file p ≡ some (q, failure)
    → q.config_path ≡ load_path p.config_path
unfolding load
load-config_path iterate file p q failure e = elim (Option-cases (file (load_path p.config_path))) [
  | inl absent ↦ ground arith
  | inr (text, there) ↦
      elim (Option-cases
        (set_options (iterate text).options (record p { config_path = load_path p.config_path }))) [
          | inl f ↦ absurd (ground arith)
          | inr (r, f) ↦
              let same = set_options-config_path (iterate text).options _ r f in ground arith
        ]
]
