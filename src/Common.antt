-- ===== src/Common.antt =====
-- The helpers of src/common.cpp, src/util.cpp and inc/common.h: the split of a peer's text, makeHex,
-- RelayMessage and the receive buffer. strtok is the C library's.
pub mod Split
use ramses_proxy.Prelude.{
  ℕ, ◌+◌, Bool, true, false, Option, none, some, List, [], ◌∷◌, ◌++◌, Bytes, ◌==◌, if◌then◌else◌,
  replicate, ◌>>=◌,
}
use ramses_proxy.Memory.{strcpy, c_str}
use ramses_proxy.Decimal.{ℤ}

-- ':'
abbrev pub colon : ℕ
colon = 58

-- strtok(s, ":") skips the separators in front of the token.
unfoldable pub skip_colons : Bytes → Bytes
skip_colons [] = []
skip_colons (c ∷ s) = if c == colon then skip_colons s else c ∷ s

-- The token, up to the next separator.
unfoldable pub token : Bytes → Bytes
token [] = []
token (c ∷ s) = elim (c == colon) [ true ↦ [] | false ↦ c ∷ token s ]

-- What strtok(NULL, "") finds behind that separator.
unfoldable pub remainder : Bytes → Bytes
remainder [] = []
remainder (c ∷ s) = if c == colon then s else remainder s

-- strcpy of the token, which is a null pointer if there is none, and of the remainder if strtok
-- finds one.
unfoldable pub split_token : ℕ → ℕ → Bytes → Option (Bytes × Bytes)
split_token ip_size port_size [] = none
split_token ip_size port_size (c ∷ s) = do
  ip ← strcpy ip_size (token (c ∷ s))
  elim (remainder (c ∷ s)) [
    | [] ↦ some (ip, [])
    | d ∷ t ↦ (do port ← strcpy port_size (d ∷ t); some (ip, port))
  ]

-- split_addr(ip_port, ip, port), into buffers of `ip_size` and `port_size` bytes.
unfoldable pub split_addr : ℕ → ℕ → Bytes → Option (Bytes × Bytes)
split_addr ip_size port_size ip_port = split_token ip_size port_size (skip_colons ip_port)

-- makeHex(pcBuffer, nSize): the size and the hexadecimal loop, which is commented out, have no part.
unfoldable pub make_hex : Bytes → ℕ → Bytes
make_hex buffer size = c_str buffer

-- RelayMessage, with a shared pointer to the text; E is the type of boost's udp::endpoint. Nothing
-- uses it.
record RelayMessage {ℓ} (E : Type ℓ) : Type ℓ where
  message : Option Bytes
  remote_to : E
  expire_clock : ℤ

-- NETWOR_BUFFER_SIZE
abbrev pub network_buffer_size : ℕ
network_buffer_size = 1024

-- class NetworkBuffer
pub record NetworkBuffer : Type 0 where
  pub bytes : Bytes
  pub data_size : ℕ

-- NetworkBuffer(), over a storage that holds `raw`.
unfoldable pub construct_buffer : Bytes → NetworkBuffer
construct_buffer raw = record { bytes = raw; data_size = network_buffer_size }

-- setDataSize(nDataSize)
unfoldable pub set_data_size : ℕ → NetworkBuffer → NetworkBuffer
set_data_size n b = record b { data_size = n }

-- NetworkBuffer::clear() leaves the recorded size alone.
unfoldable pub clear_buffer : NetworkBuffer → NetworkBuffer
clear_buffer b = record b { bytes = replicate network_buffer_size 0 }
