-- ===== src/Decimal/RoundTrip.antt =====
-- atoi reads back what sprintf and the streams write.
use ramses_proxy.Prelude.{
  ℕ, zero, suc, ◌+◌, ◌-◌, ◌*◌, ◌/◌, ◌%◌, ◌^◌, ◌<◌, ◌≤◌, ◌≡◌, refl, ap, sym, ◌∙◌, true, false, [],
  ◌∷◌, ◌++◌, Bytes, append_assoc, append-nil, ltb, length, length-append, length-replicate,
  replicate, Bool-cases, inl, inr, arith,
}
use ramses_proxy.Decimal.{
  pos, digits, decimal, sprintf_4d, is_digit, skip_space, scan, signed, atoi,
}

-- No digit stands at the front of s.
abbrev pub Ends : Bytes → Type 0
Ends [] = Unit {0}
Ends (c ∷ s) = is_digit c ≡ false

scan-Ends : (n : ℕ) (s : Bytes) → Ends s → scan n s ≡ n
unfolding scan
scan-Ends n [] h = refl
scan-Ends n (c ∷ s) h = rw (h, scan)

scan_digit : (n d : ℕ) (s : Bytes) → d < 10 → scan n ((48 + d) ∷ s) ≡ scan (n * 10 + d) s
unfolding scan
scan_digit n d s h =
    let e : is_digit (48 + d) ≡ true = unfold is_digit in ground arith in
    let f : n * 10 + (48 + d - 48) ≡ n * 10 + d = omega arith in rw (e, f, scan)

scan-digits : (fuel n : ℕ) (s : Bytes) → n < fuel → scan 0 (digits fuel n ++ s) ≡ scan n s
unfolding digits
scan-digits zero n s h = elim h [ ]
scan-digits (suc fuel) n s h = elim (Bool-cases (ltb n 10)) [
  | inl e ↦ rw (e, digits) (scan_digit 0 n s (ground arith) ∙ ap (λ k. scan k s) (omega arith))
  | inr e ↦
      rw (e, digits, append_assoc)
        (scan-digits fuel (n / 10) ((48 + n % 10) ∷ s) (ground arith)
          ∙ scan_digit (n / 10) (n % 10) s (omega arith)
          ∙ ap (λ k. scan k s) (omega arith))
]

-- The digits begin with a digit.
abbrev Starts : Bytes → Type 0
Starts s = (c : ℕ) × (t : Bytes) × (s ≡ c ∷ t) × (48 ≤ c) × (c ≤ 57)

Starts-append : (s t : Bytes) → Starts s → Starts (s ++ t)
Starts-append s t (c, r, e, l, h) = (c, r ++ t, rw e, l, h)

digits-Starts : (fuel n : ℕ) → n < fuel → Starts (digits fuel n)
unfolding digits
digits-Starts zero n h = elim h [ ]
digits-Starts (suc fuel) n h = elim (Bool-cases (ltb n 10)) [
  | inl e ↦ rw (e, digits) (48 + n, [], refl, omega arith, ground arith)
  | inr e ↦ rw (e, digits) (Starts-append _ _ (digits-Starts fuel (n / 10) (ground arith)))
]

pub decimal-Starts : (n : ℕ) → Starts (decimal n)
unfolding decimal
decimal-Starts n = digits-Starts (suc n) n (omega arith)

skip_space-digit : (c : ℕ) (s : Bytes) → 48 ≤ c → skip_space (c ∷ s) ≡ c ∷ s
unfolding skip_space
skip_space-digit c s h = ground arith

signed-digit : (c : ℕ) (s : Bytes) → 48 ≤ c → signed (c ∷ s) ≡ pos (scan 0 (c ∷ s))
unfolding signed
signed-digit c s h = ground arith

atoi-Starts : (s : Bytes) → Starts s → atoi s ≡ pos (scan 0 s)
unfolding atoi
atoi-Starts s (c, t, e, l, h) = rw (e, skip_space-digit c t l) (signed-digit c t l)

pub atoi-decimal : (n : ℕ) (s : Bytes) → Ends s → atoi (decimal n ++ s) ≡ pos n
atoi-decimal n s h =
    atoi-Starts _ (Starts-append _ s (decimal-Starts n))
    ∙ ap pos (unfold decimal in scan-digits (suc n) n s (omega arith) ∙ scan-Ends n s h)

skip_space-blanks : (k : ℕ) (s : Bytes) → skip_space (replicate k 32 ++ s) ≡ skip_space s
unfolding skip_space replicate
skip_space-blanks zero s = refl
skip_space-blanks (suc k) s = skip_space-blanks k s

atoi-blanks : (k : ℕ) (s : Bytes) → atoi (replicate k 32 ++ s) ≡ atoi s
unfolding atoi
atoi-blanks k s = rw (skip_space-blanks k s)

pub atoi-sprintf_4d : (n : ℕ) → n < 2 ^ 31 → atoi (sprintf_4d n) ≡ pos n
unfolding sprintf_4d
atoi-sprintf_4d n h =
    let e : ltb n (2 ^ 31) ≡ true = ground arith in
    rw e (atoi-blanks _ (decimal n) ∙ ap atoi (sym (append-nil (decimal n))) ∙ atoi-decimal n [] tt)

-- One more digit for a range ten times as long.
length-digits_step :
    (b k : ℕ)
    → ((fuel n : ℕ) → n < fuel → n < b → length (digits fuel n) ≤ k)
    → (fuel n : ℕ) → n < fuel
    → n < 10 * b
    → length (digits fuel n) ≤ k + 1
unfolding digits
length-digits_step b k ih zero n h r = elim h [ ]
length-digits_step b k ih (suc fuel) n h r = elim (Bool-cases (ltb n 10)) [
  | inl e ↦ rw (e, digits) (omega arith)
  | inr e ↦
      rw (e, digits, length-append) (omega (arith, ih fuel (n / 10) (ground arith) (omega arith)))
]

length-digits_1 : (fuel n : ℕ) → n < fuel → n < 10 → length (digits fuel n) ≤ 1
unfolding digits
length-digits_1 zero n h r = elim h [ ]
length-digits_1 (suc fuel) n h r = ground arith

pub length-decimal_4 : (n : ℕ) → n < 10000 → length (decimal n) ≤ 4
unfolding decimal
length-decimal_4 n r =
    length-digits_step 1000 3 (length-digits_step 100 2 (length-digits_step 10 1 length-digits_1))
      (suc n) n (omega arith) r

pub length-decimal_5 : (n : ℕ) → n < 100000 → length (decimal n) ≤ 5
unfolding decimal
length-decimal_5 n r =
    length-digits_step 10000 4
      (length-digits_step 1000 3
        (length-digits_step 100 2 (length-digits_step 10 1 length-digits_1)))
      (suc n) n (omega arith) r

pub length-sprintf_4d : (n : ℕ) → n < 10000 → length (sprintf_4d n) ≡ 4
unfolding sprintf_4d
length-sprintf_4d n h =
    let e : ltb n (2 ^ 31) ≡ true = ground arith in
    rw (e, length-append, length-replicate) (omega (arith, length-decimal_4 n h))

-- Every byte of s is a digit.
abbrev pub AllDigits : Bytes → Type 0
AllDigits [] = Unit {0}
AllDigits (c ∷ s) = (48 ≤ c) × (c ≤ 57) × AllDigits s

AllDigits-append : (s t : Bytes) → AllDigits s → AllDigits t → AllDigits (s ++ t)
AllDigits-append [] t h k = k
AllDigits-append (c ∷ s) t h k = (h.0, h.1, AllDigits-append s t h.2 k)

digits-AllDigits : (fuel n : ℕ) → AllDigits (digits fuel n)
unfolding digits
digits-AllDigits zero n = tt
digits-AllDigits (suc fuel) n = elim (Bool-cases (ltb n 10)) [
  | inl e ↦ rw (e, digits) (omega arith, ground arith, tt)
  | inr e ↦
      rw (e, digits)
        (AllDigits-append (digits fuel (n / 10)) _ (digits-AllDigits fuel (n / 10))
          (omega arith, omega arith, tt))
]

pub decimal-AllDigits : (n : ℕ) → AllDigits (decimal n)
unfolding decimal
decimal-AllDigits n = digits-AllDigits (suc n) n
