-- ===== src/Memory/Laws.antt =====
-- What the memory functions do to a region.
use ramses_proxy.Prelude.{
  ℕ, zero, suc, ◌+◌, ◌<◌, ◌≤◌, ◌≡◌, ◌≢◌, refl, ap, ◌∙◌, none, some, [], ◌∷◌, ◌++◌, Bytes,
  append_assoc, Option-cases, inl, inr, length, length-append, length-take, length-drop, take, drop,
  drop-drop, take-append_exact, drop-append_exact, arith,
}
use ramses_proxy.Memory.{memcpy, read, read_string}

pub memcpy_in_bounds :
    (dst : Bytes) (off : ℕ) (src : Bytes) (n : ℕ)
    → n ≤ length src
    → off + n ≤ length dst
    → memcpy dst off src n ≡ some (take off dst ++ take n src ++ drop (off + n) dst)
unfolding memcpy
memcpy_in_bounds dst off src n h k = ground arith

pub memcpy_out_of_bounds :
    (dst : Bytes) (off : ℕ) (src : Bytes) (n : ℕ)
    → length dst < off + n
    → memcpy dst off src n ≡ none
unfolding memcpy
memcpy_out_of_bounds dst off src n h = ground arith

pub read_in_bounds :
    (src : Bytes) (off n : ℕ) → off + n ≤ length src → read src off n ≡ some (take n (drop off src))
unfolding read
read_in_bounds src off n h = ground arith

-- A write over the middle part of a region cut in three.
pub memcpy-append :
    (a b c src : Bytes) (off n : ℕ)
    → length a ≡ off
    → length b ≡ n
    → n ≤ length src
    → memcpy (a ++ (b ++ c)) off src n ≡ some (a ++ (take n src ++ c))
memcpy-append a b c src off n ea eb h =
    memcpy_in_bounds (a ++ (b ++ c)) off src n h
      (omega (arith, length-append a (b ++ c), length-append b c))
    ∙ rw (take-append_exact off a (b ++ c) ea) (
        rw (← append_assoc a b c) (
          rw (drop-append_exact (off + n) (a ++ b) c (omega (arith, length-append a b)))
            (rw (append_assoc a (take n src) c))))

-- A region keeps its size.
pub length-memcpy :
    (dst : Bytes) (off : ℕ) (src : Bytes) (n : ℕ) {r : Bytes}
    → memcpy dst off src n ≡ some r
    → length r ≡ length dst
unfolding memcpy
length-memcpy dst off src n h = ground (
  arith,
  length-append (take off dst ++ take n src) (drop (off + n) dst),
  length-append (take off dst) (take n src),
  length-take off dst,
  length-take n src,
  length-drop (off + n) dst,
)

-- No byte of s is a NUL.
abbrev pub NoNul : Bytes → Type 0
NoNul [] = Unit {0}
NoNul (c ∷ s) = (c ≢ 0) × NoNul s

-- strncat takes a text with no NUL whole.
pub read_string-append :
    (s rest : Bytes) (n : ℕ) → NoNul s → length s ≡ n → read_string n (s ++ rest) ≡ some s
unfolding read_string
read_string-append [] rest zero h e = refl
read_string-append [] rest (suc n) h e = absurd (omega arith)
read_string-append (c ∷ s) rest zero h e = absurd (omega arith)
read_string-append (c ∷ s) rest (suc n) h e =
    ground (arith, read_string-append s rest n h.1 (omega arith))

pub length-read_string :
    (n : ℕ) (src : Bytes) {s : Bytes} → read_string n src ≡ some s → length s ≤ n
unfolding read_string
length-read_string zero src h = ground arith
length-read_string (suc n) [] h = cc
length-read_string (suc n) (c ∷ src) h = elim (Option-cases (read_string n src)) [
  | inl e ↦ ground arith
  | inr (t, e) ↦ ground (arith, length-read_string n src e)
]

-- A write that begins behind the first part.
pub memcpy-append_over :
    (a b src : Bytes) (off n : ℕ)
    → length a ≡ off
    → n ≤ length src
    → n ≤ length b
    → memcpy (a ++ b) off src n ≡ some (a ++ (take n src ++ drop n b))
memcpy-append_over a b src off n ea h k =
    memcpy_in_bounds (a ++ b) off src n h (omega (arith, length-append a b))
    ∙ rw (take-append_exact off a b ea, ← drop-drop n off (a ++ b), drop-append_exact off a b ea)
        (ap some (append_assoc a (take n src) (drop n b)))

pub NoNul-append : (s t : Bytes) → NoNul s → NoNul t → NoNul (s ++ t)
NoNul-append [] t h k = k
NoNul-append (c ∷ s) t h k = (h.0, NoNul-append s t h.1 k)
