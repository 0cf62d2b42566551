-- ===== src/Common/Split.antt =====
-- What split_addr makes of a peer's text, and which texts it copies past its buffers.
use ramses_proxy.Prelude.{
  ℕ, ◌≤◌, ◌<◌, ◌≡◌, ◌≢◌, refl, none, some, [], ◌∷◌, ◌++◌, Bytes, length, arith,
}
use ramses_proxy.Memory.{strcpy}
use ramses_proxy.Common.{colon, skip_colons, token, remainder, split_token, split_addr}

-- No byte of s is a colon.
abbrev pub NoColon : Bytes → Type 0
NoColon [] = Unit {0}
NoColon (c ∷ s) = (c ≢ colon) × NoColon s

token-append : (s t : Bytes) → NoColon s → token (s ++ (colon ∷ t)) ≡ s
unfolding token
token-append [] t h = refl
token-append (c ∷ s) t h = ground (arith, token-append s t h.1)

remainder-append : (s t : Bytes) → NoColon s → remainder (s ++ (colon ∷ t)) ≡ t
unfolding remainder
remainder-append [] t h = refl
remainder-append (c ∷ s) t h = ground (arith, remainder-append s t h.1)

token-NoColon : (s : Bytes) → NoColon s → token s ≡ s
unfolding token
token-NoColon [] h = refl
token-NoColon (c ∷ s) h = ground (arith, token-NoColon s h.1)

split_token-append :
    (ip_size port_size c : ℕ) (s port : Bytes)
    → NoColon (c ∷ s)
    → length (c ∷ s) < ip_size
    → length port < port_size
    → split_token ip_size port_size (c ∷ (s ++ (colon ∷ port))) ≡ some (c ∷ s, port)
unfolding split_token strcpy
split_token-append ip_size port_size c s [] h hi hp =
    rw (token-append (c ∷ s) [] h, remainder-append (c ∷ s) [] h) (ground arith)
split_token-append ip_size port_size c s (d ∷ t) h hi hp =
    rw (token-append (c ∷ s) (d ∷ t) h, remainder-append (c ∷ s) (d ∷ t) h) (ground arith)

skip_colons-NoColon : (c : ℕ) (s : Bytes) → c ≢ colon → skip_colons (c ∷ s) ≡ c ∷ s
unfolding skip_colons
skip_colons-NoColon c s h = ground arith

-- The address and the port around the first colon come back as they are, if they fit.
pub split_addr-append :
    (ip_size port_size : ℕ) (ip port : Bytes)
    → NoColon ip
    → ip ≢ []
    → length ip < ip_size
    → length port < port_size
    → split_addr ip_size port_size (ip ++ (colon ∷ port)) ≡ some (ip, port)
unfolding split_addr
split_addr-append ip_size port_size [] port h ne hi hp = absurd (ne refl)
split_addr-append ip_size port_size (c ∷ s) port h ne hi hp =
    rw (skip_colons-NoColon c (s ++ (colon ∷ port)) h.0)
      (split_token-append ip_size port_size c s port h hi hp)

-- A text with no colon that is as long as the address buffer is copied past the buffer's end.
pub split_addr_overflow :
    (ip_size port_size : ℕ) (text : Bytes)
    → NoColon text
    → ip_size ≤ length text
    → split_addr ip_size port_size text ≡ none
unfolding split_addr split_token strcpy
split_addr_overflow ip_size port_size [] h k = unfold skip_colons in refl
split_addr_overflow ip_size port_size (c ∷ s) h k =
    rw (skip_colons-NoColon c s h.0) (rw (token-NoColon (c ∷ s) h) (ground arith))
