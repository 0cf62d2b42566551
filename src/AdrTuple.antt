-- ===== src/AdrTuple.antt =====
-- Peer addresses: class AdrTuple of inc/adrTuple.h and src/adrTuple.cpp. boost's ip::address is the
-- parameter AddressApi.
pub mod Order
pub mod Text
use ramses_proxy.Prelude.{
  ℕ, ◌≡◌, ◌↔◌, ◌≤◌, ◌<◌, ◌≢◌, Bool, true, false, not, ◌&&◌, ◌||◌, Option, none, some, List, [], ◌∷◌,
  ◌++◌, Bytes, length, ltb, ◌==◌, if◌then◌else◌,
}
use ramses_proxy.Decimal.{decimal}

-- boost::asio::ip::address, with what its documentation says of the operators: == is equality, < a
-- strict total order that agrees with it, and from_string reads what << writes.
pub record AddressApi : Type 1 where
  pub Address : Type 0
  pub any : Address
  pub beq : Address → Address → Bool
  pub beq_iff : (a b : Address) → (beq a b ≡ true) ↔ (a ≡ b)
  pub lt : Address → Address → Bool
  pub lt_irrefl : (a : Address) → lt a a ≡ false
  pub lt_trans : (a b c : Address) → lt a b ≡ true → lt b c ≡ true → lt a c ≡ true
  pub lt_total : (a b : Address) → lt a b ≡ false → lt b a ≡ false → a ≡ b
  pub text : Address → Bytes
  pub from_string : Bytes → Option Address
  pub from_string-text : (a : Address) → from_string (text a) ≡ some a

pub data TransportType : Type 0 where
  no_transport udp tcp : TransportType

-- The number of the enumerator, which the comparisons use.
abbrev pub rank : TransportType → ℕ
rank no_transport = 0
rank udp = 1
rank tcp = 2

module _ (api : AddressApi) where
  open api use {Address, any, beq, lt, text}

  pub record AdrTuple : Type 0 where
    pub transport : TransportType
    pub adr : Address
    pub port : ℕ

  -- AdrTuple()
  unfoldable pub construct : AdrTuple
  construct = record { transport = no_transport; adr = any; port = 0 }

  -- AdrTuple(transport, adr, nPort)
  unfoldable pub construct_from : TransportType → Address → ℕ → AdrTuple
  construct_from t a n = record { transport = t; adr = a; port = n }

  -- Copy(other), which the copy constructor and operator= call: every member is overwritten.
  unfoldable pub copy : AdrTuple → AdrTuple → AdrTuple
  copy this other = record this { transport = other.transport; adr = other.adr; port = other.port }

  -- operator==
  unfoldable pub eq : AdrTuple → AdrTuple → Bool
  eq a b = rank a.transport == rank b.transport && beq a.adr b.adr && a.port == b.port

  -- operator!=
  unfoldable pub ne : AdrTuple → AdrTuple → Bool
  ne a b =
      not (rank a.transport == rank b.transport) || not (beq a.adr b.adr) || not (a.port == b.port)

  -- operator<
  unfoldable pub less : AdrTuple → AdrTuple → Bool
  less a b =
      if ltb (rank a.transport) (rank b.transport)
      then true
      else if ltb (rank b.transport) (rank a.transport)
      then false
      else if lt a.adr b.adr
      then true
      else if beq a.adr b.adr
      then ltb a.port b.port
      else false

  -- to_string()
  unfoldable pub to_string : AdrTuple → Bytes
  to_string a = text a.adr ++ (58 ∷ decimal a.port)

  transport_text : TransportType → Bytes
  transport_text no_transport = b'[' ∷ b'N' ∷ b'o' ∷ b'n' ∷ b'e' ∷ b' ' ∷ []
  transport_text udp = b'[' ∷ b'U' ∷ b'D' ∷ b'P' ∷ b' ' ∷ []
  transport_text tcp = b'[' ∷ b'T' ∷ b'C' ∷ b'P' ∷ b' ' ∷ []

  -- operator<<
  unfoldable pub print : AdrTuple → Bytes
  unfolding transport_text
  print a = transport_text a.transport ++ (text a.adr ++ (58 ∷ decimal a.port ++ b']' ∷ []))
