-- ===== src/Server/Map.antt =====
-- The sessions' map: the walk along the keys finds what was assigned and not what was erased.
use ramses_proxy.Prelude.{ℕ, ◌≡◌, refl, true, false, none, some, [], ◌∷◌, arith, if◌then◌else◌}
use ramses_proxy.AdrTuple.{AddressApi, AdrTuple, less, eq}
use ramses_proxy.AdrTuple.Order.{less_irrefl, less_trans, less_total, eq_iff}
use ramses_proxy.Server.{SessionsMap, assign, find, erase}

module _ (api : AddressApi) where
  -- Every key of m is behind k.
  abbrev pub Above : AdrTuple api → SessionsMap api → Type 0
  Above k [] = Unit {0}
  Above k ((j, v) ∷ m) = (less api k j ≡ true) × Above k m

  -- The keys of a std::map: strictly rising.
  abbrev pub IsSorted : SessionsMap api → Type 0
  IsSorted [] = Unit {0}
  IsSorted ((j, v) ∷ m) = Above j m × IsSorted m

  less_asym : (a b : AdrTuple api) → less api a b ≡ true → less api b a ≡ false
  less_asym a b h = ground (arith, less_irrefl api a, less_trans api a b a)

  -- After an assignment a key is found with the new value if it is the assigned one, and with what was
  -- found before if it is not; this needs no order of the map's keys.
  pub find-assign :
      (k j : AdrTuple api) (v : ℕ) (m : SessionsMap api)
      → find api k (assign api j v m) ≡ (if eq api j k then some v else find api k m)
  unfolding find assign
  find-assign k j v [] = ground (arith, eq_iff api j k, less_irrefl api k, less_total api k j)
  find-assign k j v ((i, w) ∷ m) = ground (
    arith,
    eq_iff api j k,
    less_irrefl api k,
    less_irrefl api j,
    less_total api k j,
    less_total api j i,
    less_trans api k j i,
    find-assign k j v m,
  )

  Above-find : (k : AdrTuple api) (m : SessionsMap api) → Above k m → find api k m ≡ none
  unfolding find
  Above-find k [] h = refl
  Above-find k ((j, v) ∷ m) h = ground arith

  Above-trans :
      (j k : AdrTuple api) (m : SessionsMap api) → less api j k ≡ true → Above k m → Above j m
  Above-trans j k [] h a = tt
  Above-trans j k ((i, v) ∷ m) h a = (less_trans api j k i h a.0, Above-trans j k m h a.1)

  pub find_below :
      (k i : AdrTuple api) (m : SessionsMap api)
      → less api k i ≡ true
      → Above i m
      → find api k m ≡ none
  find_below k i m h a = Above-find k m (Above-trans k i m h a)

  -- After an erase from a map with rising keys the erased key is not found, and every other key is
  -- found with what was found before.
  pub find-erase :
      (k j : AdrTuple api) (m : SessionsMap api)
      → IsSorted m
      → find api k (erase api j m) ≡ (if eq api j k then none else find api k m)
  unfolding find erase
  find-erase k j [] h = ground (arith, eq_iff api j k)
  find-erase k j ((i, w) ∷ m) h = ground (
    arith,
    eq_iff api j k,
    less_irrefl api k,
    less_total api j i,
    less_total api k i,
    less_total api k j,
    Above-find i m h.0,
    find_below k i m,
    find-erase k j m h.1,
  )

  Above-assign :
      (k j : AdrTuple api) (v : ℕ) (m : SessionsMap api)
      → less api k j ≡ true
      → Above k m
      → Above k (assign api j v m)
  unfolding assign
  Above-assign k j v [] h a = (h, tt)
  Above-assign k j v ((i, w) ∷ m) h a = ground (arith, Above-assign k j v m h a.1)

  pub assign-IsSorted :
      (j : AdrTuple api) (v : ℕ) (m : SessionsMap api) → IsSorted m → IsSorted (assign api j v m)
  unfolding assign
  assign-IsSorted j v [] h = (tt, tt)
  assign-IsSorted j v ((i, w) ∷ m) h = ground (
    arith,
    Above-trans j i m,
    Above-assign i j v m,
    less_total api j i,
    assign-IsSorted j v m h.1,
  )

  Above-erase : (k j : AdrTuple api) (m : SessionsMap api) → Above k m → Above k (erase api j m)
  unfolding erase
  Above-erase k j [] a = tt
  Above-erase k j ((i, w) ∷ m) a = ground (arith, Above-erase k j m a.1)

  pub erase-IsSorted :
      (j : AdrTuple api) (m : SessionsMap api) → IsSorted m → IsSorted (erase api j m)
  unfolding erase
  erase-IsSorted j [] h = tt
  erase-IsSorted j ((i, w) ∷ m) h = ground (arith, Above-erase i j m h.0, erase-IsSorted j m h.1)
