-- ===== src/Decimal.antt =====
-- Decimal text as the C library writes and reads it: sprintf with "%4d", `<<` of an unsigned
-- number into a stringstream, and atoi.
pub mod RoundTrip
use ramses_proxy.Prelude.{
  ℕ, zero, suc, ◌+◌, ◌-◌, ◌*◌, ◌/◌, ◌%◌, ◌^◌, Bool, true, false, ◌&&◌, ◌||◌, List, [], ◌∷◌, ◌++◌,
  Bytes, leb, ltb, ◌==◌, if◌then◌else◌, length, replicate,
}

-- `negative n` is -n.
pub data ℤ : Type 0 where
  pos : ℕ → ℤ
  negative : ℕ → ℤ

-- The digits of n; fuel above n is enough.
digits : ℕ → ℕ → Bytes
digits zero n = []
digits (suc fuel) n = elim (ltb n 10) [
  | true ↦ (48 + n) ∷ []
  | false ↦ digits fuel (n / 10) ++ (48 + n % 10) ∷ []
]

unfoldable pub decimal : ℕ → Bytes
unfolding digits
decimal n = digits (suc n) n

-- sprintf(buffer, "%4d", n) for a 32-bit n: padded on the left with blanks to four characters.
unfoldable pub sprintf_4d : ℕ → Bytes
sprintf_4d n =
    let text = if ltb n (2 ^ 31) then decimal n else 45 ∷ decimal (2 ^ 32 - n) in
    replicate (4 - length text) 32 ++ text

pub is_digit : ℕ → Bool
is_digit c = leb 48 c && leb c 57

-- isspace in the C locale
pub is_space : ℕ → Bool
is_space c = c == 32 || (leb 9 c && leb c 13)

pub skip_space : Bytes → Bytes
unfolding is_space
skip_space [] = []
skip_space (c ∷ s) = if is_space c then skip_space s else c ∷ s

-- The digits at the front of s, read behind the number n.
pub scan : ℕ → Bytes → ℕ
unfolding is_digit
scan n [] = n
scan n (c ∷ s) = elim (is_digit c) [ true ↦ scan (n * 10 + (c - 48)) s | false ↦ n ]

signed : Bytes → ℤ
unfolding scan
signed [] = pos 0
signed (c ∷ s) =
    if c == 45
    then negative (scan 0 s)
    else if c == 43
    then pos (scan 0 s)
    else pos (scan 0 (c ∷ s))

-- atoi(s), on the number that the text spells; outside the range of int the C library promises
-- nothing, see `in_int`.
unfoldable pub atoi : Bytes → ℤ
unfolding signed skip_space
atoi s = signed (skip_space s)

unfoldable pub in_int : ℤ → Bool
in_int (pos n) = ltb n (2 ^ 31)
in_int (negative n) = leb n (2 ^ 31)

-- The conversion to an unsigned type of w bits.
unfoldable pub to_unsigned : ℕ → ℤ → ℕ
to_unsigned w (pos n) = n % 2 ^ w
to_unsigned w (negative n) = (2 ^ w - n % 2 ^ w) % 2 ^ w
