-- ===== src/Examples/Starting.antt =====
-- The theorems on the parameters, on the acceptor and on syslog at concrete inputs.
use ramses_proxy.Prelude.{◌≡◌, refl, true, false, none, some, [], ◌∷◌, Bytes, arith}
use ramses_proxy.Decimal.{pos}
use ramses_proxy.Params
use ramses_proxy.Params.{Params, Parsed, load, load_path, saved_text, set_options}
use ramses_proxy.Params.Saved.{saved_options, load-saved_text}
use ramses_proxy.Syslog.{trace_to_syslog, text_in, text_line, trace_to_syslog_lem}
use ramses_proxy.Memory.{c_str}
use ramses_proxy.Decimal.{decimal}
use ramses_proxy.Prelude.{◌++◌}
use ramses_proxy.Tcp.{TcpServer, start, construct}
use ramses_proxy.Tcp.Accept.{completions, readers, start-completions}
use ramses_proxy.Examples.{numbers, params}

-- "/etc"
abbrev etc : Bytes
etc = b'/' ∷ b'e' ∷ b't' ∷ b'c' ∷ []

load-saved_text_example :
    load
      (λ text. record { options = saved_options params 1800000 8 refl refl; throws = none })
      (λ path. some (saved_text params))
      (Params.construct 0 etc)
    ≡ some (record params { config_path = load_path etc }, none)
unfolding Params.construct
load-saved_text_example =
    load-saved_text params 1800000 8 refl refl
      (λ text. record { options = saved_options params 1800000 8 refl refl; throws = none })
      (λ path. some (saved_text params)) (Params.construct 0 etc) (omega arith) (omega arith)
      (omega arith) (omega arith) (omega arith) refl refl

start-completions_example :
    (t : TcpServer numbers) × (u : TcpServer numbers) × (start numbers false
        (construct numbers (some params))
      ≡ (t, pos 0))
    × (completions numbers (false ∷ true ∷ []) t ≡ some u)
    × (u.is_listening ≡ true)
    × (u.accepting ≡ 1)
    × (u.accepted ≡ readers numbers (false ∷ true ∷ []))
start-completions_example = start-completions numbers params (false ∷ true ∷ [])

trace_to_syslog_lem_example :
    trace_to_syslog false 3 etc 81 etc
    ≡ (3, c_str (text_in ++ (etc ++ (text_line ++ (decimal 81 ++ (b' ' ∷ etc)))))) ∷ []
trace_to_syslog_lem_example = trace_to_syslog_lem false 3 etc 81 etc
