-- ===== src/Process/Holds.antt =====
-- A property of every effect of a process and of its end, and the rule for do blocks.
use ramses_proxy.Prelude.{Option, none, some, List, [], ◌∷◌, ◌++◌, ◌≡◌, refl}
use ramses_proxy.Decimal.{ℤ}
use ramses_proxy.Process.{
  Effect, Ending, live, serve, exits, undefined, Process, give, exit, perform, in_bounds, after,
  ◌>>=◌,
}

-- P holds of each effect.
abbrev pub Each {ℓ κ} : {S : Type ℓ} → (Effect S → Type κ) → List (Effect S) → Type κ
Each P [] = Unit {_}
Each P (e ∷ es) = P e × Each P es

-- Q holds of the result, and X of the status, if there is one.
abbrev pub Ends {ℓ κ} : {A : Type ℓ} → (ℤ → Type κ) → (A → Type κ) → Ending A → Type κ
Ends X Q (live a) = Q a
Ends X Q (exits n) = X n
Ends X Q undefined = Unit {_}

pub record Holds {ℓ κ μ} {S : Type ℓ} {A : Type κ} (P : Effect S → Type μ) (X : ℤ → Type μ)
    (Q : A → Type μ) (m : Process S A) : Type μ where
  pub each : Each P m.effects
  pub ends : Ends X Q m.ending

Each-append {ℓ κ} :
    {S : Type ℓ} (P : Effect S → Type κ) (es fs : List (Effect S))
    → Each P es
    → Each P fs
    → Each P (es ++ fs)
Each-append P [] fs h k = k
Each-append P (e ∷ es) fs (p, h) k = (p, Each-append P es fs h k)

pub Holds->>= {ℓ κ ν μ} :
    {S : Type ℓ} {A : Type κ} {B : Type ν} {P : Effect S → Type μ} {X : ℤ → Type μ} {Q : A → Type μ}
    {R : B → Type μ} {m : Process S A} {f : A → Process S B}
    → Holds P X Q m
    → ((a : A) → Q a → Holds P X R (f a))
    → Holds P X R (m >>= f)
Holds->>= {A = A} {P = P} {X} {Q} {R} {m} {f} h k = go m.ending h.ends
  where
    go : (e : Ending A) → Ends X Q e → Holds P X R (after m.effects e f)
    go (live a) q = record {
      each = Each-append P m.effects (f a).effects h.each (k a q).each;
      ends = (k a q).ends;
    }
    go (exits n) x = record { each = h.each; ends = x }
    go undefined u = record { each = h.each; ends = tt }

pub Holds-in_bounds {ℓ κ} :
    {S : Type ℓ} {A : Type κ} {P : Effect S → Type κ} {X : ℤ → Type κ} (o : Option A)
    → Holds P X (λ a. o ≡ some a) (in_bounds {S = S} o)
Holds-in_bounds none = record { each = tt; ends = tt }
Holds-in_bounds (some a) = record { each = tt; ends = refl }

pub Holds-map {ℓ κ μ} :
    {S : Type ℓ} {A : Type κ} {P : Effect S → Type μ} {X : ℤ → Type μ} {Q R : A → Type μ}
    {m : Process S A}
    → Holds P X Q m
    → ((a : A) → Q a → R a)
    → Holds P X R m
Holds-map {A = A} {X = X} {Q} {R} {m} h k = record { each = h.each; ends = go m.ending h.ends }
  where
    go : (e : Ending A) → Ends X Q e → Ends X R e
    go (live a) h = k a h
    go (exits n) h = h
    go undefined h = tt

module _ {ℓ κ} {S : Type ℓ} {A : Type κ} {P : Effect S → Type κ} {X : ℤ → Type κ}
    {Q : A → Type κ} where
  pub Holds-give : {a : A} → Q a → Holds P X Q (give {S = S} a)
  Holds-give q = record { each = tt; ends = q }

  pub Holds-exit : {n : ℤ} → X n → Holds P X Q (exit {S = S} n)
  Holds-exit x = record { each = tt; ends = x }

pub Holds-perform {ℓ} :
    {S : Type ℓ} {P : Effect S → Type 0} {X : ℤ → Type 0} {e : Effect S}
    → P e
    → Holds P X (λ u. Unit {0}) (perform e)
Holds-perform p = record { each = (p, tt); ends = tt }

-- An effect before the exit.
pub Holds-last {ℓ} :
    {S : Type 0} {A : Type ℓ} {P : Effect S → Type ℓ} {X : ℤ → Type ℓ} {Q : A → Type ℓ}
    {e : Effect S} {n : ℤ}
    → P e
    → X n
    → Holds P X Q (do _ ← perform e; exit n)
Holds-last p x = record { each = (p, tt); ends = x }

-- An effect, and then the rest.
pub Holds-then {ℓ} :
    {S : Type 0} {A : Type ℓ} {P : Effect S → Type ℓ} {X : ℤ → Type ℓ} {Q : A → Type ℓ}
    {e : Effect S} {m : Process S A}
    → P e
    → Holds P X Q m
    → Holds P X Q (do _ ← perform e; m)
Holds-then p h = record { each = (p, h.each); ends = h.ends }

-- P holds of every server that is served.
abbrev pub Serving : {S : Type 0} → (S → Type 0) → Effect S → Type 0
Serving P (serve s) = P s
Serving P _ = Unit {0}
