-- ===== src/AdrTuple/Text.antt =====
-- The text of a peer's address is read back by the split that the UDP server makes.
use ramses_proxy.Prelude.{
  ◌≤◌, ◌<◌, ◌≡◌, ◌≢◌, refl, ◌∙◌, ap, sym, some, [], ◌∷◌, Bytes, append-nil, length, length-append,
  arith,
}
use ramses_proxy.Memory.Laws.{NoNul, NoNul-append}
use ramses_proxy.Decimal.{pos, atoi, decimal}
use ramses_proxy.Decimal.RoundTrip.{AllDigits, decimal-AllDigits, length-decimal_5, atoi-decimal}
use ramses_proxy.Common.{colon, split_addr}
use ramses_proxy.Common.Split.{NoColon, split_addr-append}
use ramses_proxy.AdrTuple.{AddressApi, AdrTuple, to_string}

-- An address as an IPv4 socket gives it: its text has 1 to 15 bytes, no colon and no NUL.
pub record IsV4Text (text : Bytes) : Type 0 where
  pub some_text : text ≢ []
  pub short : length text ≤ 15
  pub no_colon : NoColon text
  pub no_nul : NoNul text

NoNul-AllDigits : (s : Bytes) → AllDigits s → NoNul s
NoNul-AllDigits [] h = tt
NoNul-AllDigits (c ∷ s) h = (omega arith, NoNul-AllDigits s h.2)

length_pos : (s : Bytes) → s ≢ [] → 0 < length s
length_pos [] h = absurd (h refl)
length_pos (c ∷ s) h = omega arith

module _ (api : AddressApi) (a : AdrTuple api) (v4 : IsV4Text (api.text a.adr))
    (port : a.port < 65536) where
  -- The text of an IPv4 peer has 2 to 21 bytes and no NUL.
  pub to_string_bounds :
      (0 < length (to_string api a)) × (length (to_string api a) ≤ 21) × NoNul (to_string api a)
  unfolding to_string
  to_string_bounds =
      let size = length-append (api.text a.adr) (colon ∷ decimal a.port) in
      let digits = length-decimal_5 a.port (omega arith) in
      (
        omega (arith, length_pos (api.text a.adr) v4.some_text),
        omega (arith, v4.short),
        NoNul-append (api.text a.adr) (colon ∷ decimal a.port) v4.no_nul
            (omega arith, NoNul-AllDigits (decimal a.port) (decimal-AllDigits a.port)),
      )

  -- The text of a peer whose address has the text of an IPv4 address and whose port is below 65536 is
  -- split, in the server's buffers of 32 and 8 bytes, into texts that from_string and atoi read as the
  -- address and the port.
  pub split_addr-to_string :
      (split_addr 32 8 (to_string api a) ≡ some (api.text a.adr, decimal a.port))
      × (api.from_string (api.text a.adr) ≡ some a.adr)
      × (atoi (decimal a.port) ≡ pos a.port)
  unfolding to_string
  split_addr-to_string = (
    split_addr-append 32 8 (api.text a.adr) (decimal a.port) v4.no_colon v4.some_text
        (omega (arith, v4.short)) (omega (arith, length-decimal_5 a.port (omega arith))),
    api.from_string-text a.adr,
    ap atoi (sym (append-nil (decimal a.port))) ∙ atoi-decimal a.port [] tt,
  )
