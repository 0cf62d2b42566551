-- ===== src/Memory.antt =====
-- The C library functions on memory that the source calls (memcpy, strncat, strcpy, strtok), over
-- byte lists. A region of memory is the list of its bytes; a C string held in a buffer is the list
-- of the bytes in front of its NUL, with the buffer's capacity at hand. `none` is a read or a write
-- outside a region.
pub mod Laws
use ramses_proxy.Prelude.{
  ℕ, zero, suc, ◌+◌, ◌<◌, Bool, true, false, ◌&&◌, Option, none, some, List, [], ◌∷◌, ◌++◌, Bytes,
  leb, ltb, ◌==◌, if◌then◌else◌, length, take, drop, ◌>>=◌,
}

-- memcpy(dst + off, src, n)
unfoldable pub memcpy : Bytes → ℕ → Bytes → ℕ → Option Bytes
memcpy dst off src n =
    if leb n (length src) && leb (off + n) (length dst)
    then some (take off dst ++ take n src ++ drop (off + n) dst)
    else none

-- The n bytes at src + off, as a buffer handed to a socket is read.
unfoldable pub read : Bytes → ℕ → ℕ → Option Bytes
read src off n = if leb (off + n) (length src) then some (take n (drop off src)) else none

-- The bytes that strncat takes from src: at most n, up to the first NUL.
unfoldable pub read_string : ℕ → Bytes → Option Bytes
read_string zero src = some []
read_string (suc n) [] = none
read_string (suc n) (c ∷ src) = elim (c == 0) [
  | true ↦ some []
  | false ↦ do s ← read_string n src; some (c ∷ s)
]

-- strncat(dst, src, n), for dst in a buffer of `capacity` bytes: the NUL needs one of them.
unfoldable pub strncat : ℕ → Bytes → Bytes → ℕ → Option Bytes
strncat capacity dst src n = do
  s ← read_string n src
  if ltb (length dst + length s) capacity then some (dst ++ s) else none

-- strcpy(dst, src), for dst a buffer of `capacity` bytes.
unfoldable pub strcpy : ℕ → Bytes → Option Bytes
strcpy capacity src = if ltb (length src) capacity then some src else none

-- strcat(dst, src)
unfoldable pub strcat : ℕ → Bytes → Bytes → Option Bytes
strcat capacity dst src = if ltb (length dst + length src) capacity then some (dst ++ src) else none

-- The bytes of a C string up to its NUL, where a region without one is read to its end.
unfoldable pub c_str : Bytes → Bytes
c_str [] = []
c_str (c ∷ s) = elim (c == 0) [ true ↦ [] | false ↦ c ∷ c_str s ]
