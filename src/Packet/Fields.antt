-- ===== src/Packet/Fields.antt =====
-- The two length fields of a frame as text: what decode_header and decode_peer read from them.
use ramses_proxy.Prelude.{
  ℕ, zero, suc, ◌^◌, ◌<◌, ◌≤◌, ◌≡◌, true, false, some, [], ◌∷◌, ◌++◌, Bytes, append_assoc, length,
  length-append, replicate, drop, drop-append_exact, ltb, arith,
}
use ramses_proxy.Memory.{strncat}
use ramses_proxy.Memory.Laws.{NoNul, NoNul-append, read_string-append}
use ramses_proxy.Decimal.{atoi, to_unsigned, sprintf_4d}
use ramses_proxy.Decimal.RoundTrip.{
  length-sprintf_4d, atoi-sprintf_4d, AllDigits, decimal-AllDigits,
}
use ramses_proxy.Packet.{RouterPacket, decode_header, decode_peer}

NoNul-digits : (s : Bytes) → AllDigits s → NoNul s
NoNul-digits [] h = tt
NoNul-digits (c ∷ s) h = (omega arith, NoNul-digits s h.2)

NoNul-blanks : (k : ℕ) → NoNul (replicate k 32)
unfolding replicate
NoNul-blanks zero = tt
NoNul-blanks (suc k) = (omega arith, NoNul-blanks k)

NoNul-sprintf_4d : (n : ℕ) → n < 10000 → NoNul (sprintf_4d n)
unfolding sprintf_4d
NoNul-sprintf_4d n h =
    let e : ltb n (2 ^ 31) ≡ true = ground arith in
    rw e (NoNul-append _ _ (NoNul-blanks _) (NoNul-digits _ (decimal-AllDigits n)))

-- A field of four characters reads as its number.
field_text :
    (n : ℕ) (rest : Bytes) → n < 10000 → strncat 5 [] (sprintf_4d n ++ rest) 4 ≡ some (sprintf_4d n)
unfolding strncat
field_text n rest h =
    rw (read_string-append (sprintf_4d n) rest 4 (NoNul-sprintf_4d n h) (length-sprintf_4d n h))
      (rw (length-sprintf_4d n h))

field_number : (n : ℕ) → n < 10000 → to_unsigned 32 (atoi (sprintf_4d n)) ≡ n
unfolding to_unsigned
field_number n h = rw (atoi-sprintf_4d n (omega arith)) (omega arith)

pub decode_header-field :
    (p : RouterPacket) (n : ℕ) (rest : Bytes)
    → p.payload ≡ sprintf_4d n ++ rest
    → n ≤ 1024
    → decode_header p ≡ some (record p { payload_length = n }, true)
unfolding decode_header
decode_header-field p n rest e h =
    let f : ltb 1024 n ≡ false = ground arith in
    rw (e, field_text n rest (omega arith), field_number n (omega arith), f)

pub decode_peer-field :
    (p : RouterPacket) (n : ℕ) (first rest : Bytes)
    → length first ≡ 4
    → p.payload ≡ first ++ (sprintf_4d n ++ rest)
    → n < 10000
    → n ≤ p.payload_length
    → decode_peer p ≡ some (record p { peer_length = n }, true)
unfolding decode_peer
decode_peer-field p n first rest ef e h k =
    let f : ltb p.payload_length n ≡ false = ground arith in
    rw (
      e,
      drop-append_exact 4 first (sprintf_4d n ++ rest) ef,
      field_text n rest h,
      field_number n h,
      f,
    )

pub drop-fields : (a b c : Bytes) → length a ≡ 4 → length b ≡ 4 → drop 8 (a ++ (b ++ c)) ≡ c
drop-fields a b c ea eb =
    rw (← append_assoc a b c) (drop-append_exact 8 (a ++ b) c (omega (arith, length-append a b)))
