-- ===== src/AdrTuple/Order.antt =====
-- The comparisons of peer addresses.
use ramses_proxy.Prelude.{◌≡◌, ◌↔◌, refl, true, false, not, ◌&&◌, ◌||◌, arith}
use ramses_proxy.AdrTuple.{
  AddressApi, TransportType, no_transport, udp, tcp, rank, AdrTuple, eq, ne, less,
}

rank-injective : (t u : TransportType) → rank t ≡ rank u → t ≡ u
rank-injective no_transport no_transport e = refl
rank-injective no_transport udp e = absurd (omega arith)
rank-injective no_transport tcp e = absurd (omega arith)
rank-injective udp no_transport e = absurd (omega arith)
rank-injective udp udp e = refl
rank-injective udp tcp e = absurd (omega arith)
rank-injective tcp no_transport e = absurd (omega arith)
rank-injective tcp udp e = absurd (omega arith)
rank-injective tcp tcp e = refl

module _ (api : AddressApi) where
  open api use {beq, beq_iff, lt, lt_irrefl, lt_trans, lt_total}

  beq_refl : (a : api.Address) → beq a a ≡ true
  beq_refl a = (beq_iff a a).1 refl

  -- operator== decides equality, and operator!= is its negation.
  pub eq_iff :
      (a b : AdrTuple api) → ((eq api a b ≡ true) ↔ (a ≡ b)) × (ne api a b ≡ not (eq api a b))
  unfolding eq ne
  eq_iff a b = (
    (
      (λ h. ground (arith, rank-injective a.transport b.transport, beq_iff a.adr b.adr)),
      (λ e. ground (arith, beq_iff a.adr b.adr)),
    ),
    ground arith,
  )

  pub less_irrefl : (a : AdrTuple api) → less api a a ≡ false
  unfolding less
  less_irrefl a = ground (arith, lt_irrefl a.adr)

  pub less_trans :
      (a b c : AdrTuple api) → less api a b ≡ true → less api b c ≡ true → less api a c ≡ true
  unfolding less
  less_trans a b c h k = ground (
    arith,
    lt_trans a.adr b.adr c.adr,
    beq_iff a.adr b.adr,
    beq_iff b.adr c.adr,
    beq_iff a.adr c.adr,
  )

  pub less_total : (a b : AdrTuple api) → less api a b ≡ false → less api b a ≡ false → a ≡ b
  unfolding less
  less_total a b h k = ground (
    arith,
    rank-injective a.transport b.transport,
    lt_total a.adr b.adr,
    beq_iff a.adr b.adr,
    beq_iff b.adr a.adr,
  )

  -- operator< is a strict order for which exactly the equal addresses are incomparable: what
  -- std::map needs of its keys.
  pub less_strict :
      (a b c : AdrTuple api)
      → (less api a a ≡ false)
        × ((less api a b && less api b c && not (less api a c)) ≡ false)
        × ((less api a b || less api b a) ≡ ne api a b)
  less_strict a b c = (
    less_irrefl a,
    ground (arith, less_trans a b c),
    ground (arith, less_irrefl a, less_irrefl b, less_total a b, eq_iff a b),
  )
