-- ===== src/Examples.antt =====
-- Concrete inputs: an address type, a peer and the datagrams that the tests and the witnesses use.
mod Tests
mod Relay
mod Starting
mod Startup
mod Sends
mod Peers
mod Back
mod Work
use Prim.Native.Nat.{compare}
use ramses_proxy.Prelude.{
  ℕ, ◌+◌, ◌≡◌, ◌↔◌, refl, sym, ap, ◌∙◌, Bool, true, false, Option, none, some, List, [], ◌∷◌, ◌++◌,
  Bytes, append-nil, ltb, ◌==◌, ==_iff, replicate, arith,
}
use ramses_proxy.Decimal.{ℤ, pos, negative, atoi, decimal}
use ramses_proxy.Decimal.RoundTrip.{atoi-decimal}
use ramses_proxy.Packet.{RouterPacket, construct}
use ramses_proxy.AdrTuple.{AddressApi, AdrTuple, udp}
use ramses_proxy.Params.{Params}

-- Addresses as numbers, with their decimal text.
pub number_of : Bytes → Option ℕ
number_of s = elim (atoi s) [ pos n ↦ some n | negative n ↦ none ]

pub number_of-decimal : (n : ℕ) → number_of (decimal n) ≡ some n
unfolding number_of
number_of-decimal n =
    let e : atoi (decimal n) ≡ pos n =
      ap atoi (sym (append-nil (decimal n))) ∙ atoi-decimal n [] tt in
    rw (e, number_of)

pub lt_irrefl : (a : ℕ) → ltb a a ≡ false
lt_irrefl a = ground arith

pub lt_trans : (a b c : ℕ) → ltb a b ≡ true → ltb b c ≡ true → ltb a c ≡ true
lt_trans a b c h k = ground arith

pub lt_total : (a b : ℕ) → ltb a b ≡ false → ltb b a ≡ false → a ≡ b
lt_total a b h k = ground arith

abbrev pub numbers : AddressApi
numbers = record {
  Address = ℕ;
  any = 0;
  beq = ◌==◌;
  beq_iff = ==_iff;
  lt = ltb;
  lt_irrefl = lt_irrefl;
  lt_trans = lt_trans;
  lt_total = lt_total;
  text = decimal;
  from_string = number_of;
  from_string-text = number_of-decimal;
}

-- The UDP peer at the address 10, port 2036.
abbrev pub peer : AdrTuple numbers
peer = record { transport = udp; adr = 10; port = 2036 }

-- The same address with another port, and another address.
abbrev pub other : AdrTuple numbers
other = record peer { port = 2037 }

abbrev pub far : AdrTuple numbers
far = record peer { adr = 11 }

-- "10:2036"
abbrev pub peer_text : Bytes
peer_text = b'1' ∷ b'0' ∷ b':' ∷ b'2' ∷ b'0' ∷ b'3' ∷ b'6' ∷ []

abbrev pub greeting : Bytes
greeting = b'h' ∷ b'e' ∷ b'l' ∷ b'l' ∷ b'o' ∷ []

-- What a fresh array of a packet may hold.
abbrev pub raw : Bytes
raw = replicate 1032 7

abbrev pub params : Params
params = record {
  f1_adr = b'f' ∷ b'1' ∷ [];
  f1_port = 3500;
  udp_port = 2036;
  tcp_port = 3507;
  session_timeout = pos 1800000;
  log_level = pos 8;
  config_path = [];
}
