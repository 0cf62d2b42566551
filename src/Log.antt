-- ===== src/Log.antt =====
-- The logger, src/rartlog.cpp. zlog's initialisation and its categories are the parameter ZlogApi.
use ramses_proxy.Prelude.{Bool, true, false, Option, none, some, Bytes, [], ◌∷◌, if◌then◌else◌}
use ramses_proxy.Decimal.{ℤ, negative}
use ramses_proxy.Process.{Output, init_failed, get_cat_fail}

-- zlog_init(conf) fails; after its success zlog_get_category(name) finds a category; zlog_reload(conf)
-- fails.
pub record ZlogApi : Type 0 where
  pub init_fails : Bytes → Bool
  pub has_category : Bytes → Bytes → Bool
  pub reload_fails : Bytes → Bool

-- "rart_cat"
abbrev pub category_name : Bytes
category_name = b'r' ∷ b'a' ∷ b'r' ∷ b't' ∷ b'_' ∷ b'c' ∷ b'a' ∷ b't' ∷ []

-- Whether zlog is initialised, rart_category is set, and rc is not 0.
pub record Logger : Type 0 where
  pub rc : Bool
  pub is_open : Bool
  pub has_rart_category : Bool

-- log_fini()
unfoldable pub log_fini : Logger → Logger
log_fini l = record l { is_open = false }

-- log_init(conf): the logger, and the status with which the process exits and what it prints before,
-- if it does.
unfoldable pub log_init : ZlogApi → Bytes → Logger × Option (ℤ × Output)
unfolding log_fini
log_init zlog conf =
    if zlog.init_fails conf
    then (
      record { rc = true; is_open = false; has_rart_category = false },
      some (negative 1, init_failed),
    )
    else if zlog.has_category conf category_name
    then (record { rc = false; is_open = true; has_rart_category = true }, none)
    else (
      log_fini (record { rc = false; is_open = true; has_rart_category = false }),
      some (negative 2, get_cat_fail),
    )

-- log_reload(conf)
unfoldable pub log_reload : ZlogApi → Bytes → Logger → Logger
log_reload zlog conf l = record l { rc = zlog.reload_fails conf }
