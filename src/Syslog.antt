-- ===== src/Syslog.antt =====
-- The messages to syslog: class SyslogTemporary and the macro SYS_LOG of inc/common.h, SysLog of
-- src/common.cpp. A call of syslog is its priority and its text.
use ramses_proxy.Prelude.{
  ℕ, suc, ◌∙◌, arith, ◌≡◌, ap, Bool, true, false, List, [], ◌∷◌, ◌++◌, append_assoc, Bytes, length,
  ltb, if◌then◌else◌,
}
use ramses_proxy.Memory.{c_str}
use ramses_proxy.Decimal.{decimal}

pub record SyslogTemporary : Type 0 where
  pub accumulator : Bytes
  pub priority : ℕ

-- SyslogTemporary(Priority)
unfoldable pub construct : ℕ → SyslogTemporary
construct priority = record { accumulator = []; priority = priority }

-- SyslogTemporary(rhs): the text that rhs holds is not copied.
unfoldable pub copy : SyslogTemporary → SyslogTemporary
copy rhs = record { accumulator = []; priority = rhs.priority }

-- operator<<, which returns the stream, so that the later insertions go to the same text
unfoldable pub insert : Bytes → SyslogTemporary → SyslogTemporary
insert what t = record t { accumulator = t.accumulator ++ what }

-- ~SyslogTemporary(): the calls of syslog that it makes
unfoldable pub destroy : SyslogTemporary → List (ℕ × Bytes)
destroy t = if ltb 0 (length t.accumulator) then (t.priority, c_str t.accumulator) ∷ [] else []

-- SysLog(iPriority): what it returns, and what the destructor of its local object sends if the copy
-- of the result is not elided.
unfoldable pub sys_log : Bool → ℕ → SyslogTemporary × List (ℕ × Bytes)
unfolding construct copy destroy
sys_log elided priority =
    if elided
    then (construct priority, [])
    else (copy (construct priority), destroy (construct priority))

-- " in " and "line : "
abbrev pub text_in : Bytes
text_in = b' ' ∷ b'i' ∷ b'n' ∷ b' ' ∷ []

abbrev pub text_line : Bytes
text_line = b'l' ∷ b'i' ∷ b'n' ∷ b'e' ∷ b' ' ∷ b':' ∷ b' ' ∷ []

-- SYS_LOG(level, _trace) in the given function and line
unfoldable pub trace_to_syslog : Bool → ℕ → Bytes → ℕ → Bytes → List (ℕ × Bytes)
unfolding sys_log insert destroy
trace_to_syslog elided level function line trace =
    let (t, sent) = sys_log elided level in
    sent
    ++ destroy (
        insert trace (
          insert (b' ' ∷ [])
            (insert (decimal line) (insert text_line (insert function (insert text_in t))))))

destroy_nonempty :
    (level c : ℕ) (s : Bytes)
    → destroy (record { accumulator = c ∷ s; priority = level }) ≡ (level, c_str (c ∷ s)) ∷ []
unfolding destroy
destroy_nonempty level c s =
    let some_text : ltb 0 (suc (length s)) ≡ true = ground arith in rw some_text

-- SYS_LOG calls syslog once, with its level and with the function, the line and the trace in the
-- text up to the first NUL, whether or not the compiler elides the copy that drops the text.
pub trace_to_syslog_lem :
    (elided : Bool) (level : ℕ) (function : Bytes) (line : ℕ) (trace : Bytes)
    → trace_to_syslog elided level function line trace
      ≡ (level, c_str (text_in ++ (function ++ (text_line ++ (decimal line ++ (b' ' ∷ trace))))))
        ∷ []
unfolding trace_to_syslog
trace_to_syslog_lem elided level function line trace = go elided
  where
    inserted :
        ((((([] ++ text_in) ++ function) ++ text_line) ++ decimal line) ++ (b' ' ∷ [])) ++ trace
        ≡ text_in ++ (function ++ (text_line ++ (decimal line ++ (b' ' ∷ trace))))
    inserted = simp append_assoc

    written :
        destroy (record {
          accumulator =
              ((((([] ++ text_in) ++ function) ++ text_line) ++ decimal line) ++ (b' ' ∷ []))
              ++ trace;
          priority = level;
        })
        ≡ (level, c_str (text_in ++ (function ++ (text_line ++ (decimal line ++ (b' ' ∷ trace))))))
          ∷ []
    written =
        ap (λ s. destroy (record { accumulator = s; priority = level })) inserted
        ∙ destroy_nonempty level b' ' _

    go :
        (b : Bool)
        → trace_to_syslog b level function line trace
          ≡ (
            level,
            c_str (text_in ++ (function ++ (text_line ++ (decimal line ++ (b' ' ∷ trace))))),
          )
            ∷ []
    go true = written
    go false = written
