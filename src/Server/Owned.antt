-- ===== src/Server/Owned.antt =====
-- The keys of the map of the sessions are the addresses of the sessions that they name.
use ramses_proxy.Prelude.{
  ℕ, ◌≡◌, inl, inr, subst, sym, ap, ◌∙◌, some, List, [], ◌∷◌, ◌++◌, get_elem?, set,
  get_elem?-set_self, get_elem?-set_ne, get_elem?-append_left, Bool-cases,
}
use native.Mathlib.Decide.{ℕ_discrete}
use ramses_proxy.AdrTuple.{AddressApi, AdrTuple, less}
use ramses_proxy.AdrTuple.Order.{less_total}
use ramses_proxy.Session.{Session}
use ramses_proxy.Server.{SessionsMap, assign, erase}

module _ (api : AddressApi) where
  -- The session at place i serves the peer k.
  abbrev pub Serves : List (Session api) → AdrTuple api → ℕ → Type 0
  Serves sessions k i = (s : Session api) × (get_elem? sessions i ≡ some s) × (s.udp_tuple ≡ k)

  abbrev pub Owns : List (Session api) → SessionsMap api → Type 0
  Owns sessions [] = Unit {0}
  Owns sessions ((k, i) ∷ m) = Serves sessions k i × Owns sessions m

  pub Serves-set :
      (sessions : List (Session api)) (i j : ℕ) (k : AdrTuple api) (s t : Session api)
      → get_elem? sessions i ≡ some s
      → t.udp_tuple ≡ s.udp_tuple
      → Serves sessions k j
      → Serves (set sessions i t) k j
  Serves-set sessions i j k s t e same (u, eu, own) = elim (ℕ_discrete i j) [
    | yes here ↦ (
      t,
      subst (λ z. get_elem? (set sessions i t) z ≡ some t) here
          (get_elem?-set_self sessions i t s e),
      cc,
    )
    | no apart ↦ (u, get_elem?-set_ne sessions i j t apart ∙ eu, own)
  ]

  -- Each session of xs is one of ys with the same peer.
  abbrev pub KeepsPeers : List (Session api) → List (Session api) → Type 0
  KeepsPeers xs ys = (k : AdrTuple api) (j : ℕ) → Serves xs k j → Serves ys k j

  -- A session has one peer.
  pub Serves-unique :
      (sessions : List (Session api)) (j : ℕ) (k l : AdrTuple api)
      → Serves sessions k j
      → Serves sessions l j
      → k ≡ l
  Serves-unique sessions j k l (s, e, own) (t, f, also) =
      let both : some s ≡ some t = sym e ∙ f in
      let same : s ≡ t = cc in sym own ∙ ap (λ z. z.udp_tuple) same ∙ also

  pub Owns-set :
      (sessions : List (Session api)) (i : ℕ) (s t : Session api) (m : SessionsMap api)
      → get_elem? sessions i ≡ some s
      → t.udp_tuple ≡ s.udp_tuple
      → Owns sessions m
      → Owns (set sessions i t) m
  Owns-set sessions i s t [] e same o = tt
  Owns-set sessions i s t ((k, j) ∷ m) e same (a, o) =
      (Serves-set sessions i j k s t e same a, Owns-set sessions i s t m e same o)

  pub Owns-append :
      (sessions more : List (Session api)) (m : SessionsMap api)
      → Owns sessions m
      → Owns (sessions ++ more) m
  Owns-append sessions more [] o = tt
  Owns-append sessions more ((k, j) ∷ m) ((s, e, own), o) =
      ((s, get_elem?-append_left sessions more j s e, own), Owns-append sessions more m o)

  pub Owns-assign :
      (sessions : List (Session api)) (k : AdrTuple api) (i : ℕ) (m : SessionsMap api)
      → Serves sessions k i
      → Owns sessions m
      → Owns sessions (assign api k i m)
  unfolding assign
  Owns-assign sessions k i [] a o = (a, tt)
  Owns-assign sessions k i ((j, v) ∷ m) a o = elim (Bool-cases (less api k j)) [
    | inl e ↦ rw (e, assign) (a, o)
    | inr e ↦ elim (Bool-cases (less api j k)) [
      | inl f ↦ rw (e, f, assign) (o.0, Owns-assign sessions k i m a o.1)
      | inr f ↦ rw (e, f, assign) (subst (λ z. Serves sessions z i) (less_total api k j e f) a, o.1)
    ]
  ]

  pub Owns-erase :
      (sessions : List (Session api)) (k : AdrTuple api) (m : SessionsMap api)
      → Owns sessions m
      → Owns sessions (erase api k m)
  unfolding erase
  Owns-erase sessions k [] o = tt
  Owns-erase sessions k ((j, v) ∷ m) o = elim (Bool-cases (less api k j)) [
    | inl e ↦ rw (e, erase) o
    | inr e ↦ elim (Bool-cases (less api j k)) [
      | inl f ↦ rw (e, f, erase) (o.0, Owns-erase sessions k m o.1)
      | inr f ↦ rw (e, f, erase) o.1
    ]
  ]
