-- ===== src/Database/Keeps.antt =====
-- What a chain of statements leaves alone: a part `f` of the tables.
use el_backend.Database.Defs.{with_tables, map_err, after, Error, each_query, then_query, Query}
use el_backend.Base.{
  sym, guard, refl, err, Outcome, [], ◌∷◌, ◌∙◌, false, ◌≡◌, List, true, ok, Bool, arith,
}

pub after-eq-ok :
    {D A B : Type 0} (r : Outcome Error (A × D)) (f : A → Query D B) {b : B} {d : D}
    → after r f ≡ ok (b, d)
    → (a : A) × (m : D) × (r ≡ ok (a, m)) × (f a m ≡ ok (b, d))
after-eq-ok (ok (a, m)) f h = (a, m, refl, h)
after-eq-ok (err e) f h = absurd (ground arith)

pub ok-injective :
    {D A : Type 0} {a b : A} {d d' : D}
    → ◌≡◌ {A = Outcome Error (A × D)} (ok (a, d)) (ok (b, d'))
    → (a ≡ b) × (d ≡ d')
ok-injective h = (cc (h), cc (h))

pub guard-eq-ok :
    {A : Type 0} (b : Bool) (e : Error) (r : Outcome Error A) {a : A}
    → guard b e r ≡ ok a
    → (b ≡ false) × (r ≡ ok a)
guard-eq-ok true e r h = absurd (ground arith)
guard-eq-ok false e r h = (refl, h)

pub guard-passes :
    {A : Type 0} (b : Bool) (e : Error) (r : Outcome Error A) → b ≡ false → guard b e r ≡ r
guard-passes true e r h = absurd (ground arith)
guard-passes false e r h = refl

pub map_err-ok :
    {A : Type 0} (f : Error → Error) (r : Outcome Error A) {a : A} → map_err f r ≡ ok a → r ≡ ok a
map_err-ok f (ok x) h = h
map_err-ok f (err e) h = absurd (ground arith)

abbrev pub Keeps : {D A X : Type 0} → (D → X) → Query D A → Type 0
Keeps {D} {A} f q = (d : D) (a : A) (d' : D) → q d ≡ ok (a, d') → f d' ≡ f d

module _ {D X : Type 0} (f : D → X) where
  pub Keeps-then :
      {A B : Type 0} (q : Query D A) (g : A → Query D B)
      → Keeps f q
      → ((a : A) → Keeps f (g a))
      → Keeps f (then_query q g)
  Keeps-then q g hq hg d b d' h =
      let (a, m, e, k) = after-eq-ok (q d) g h in hg a m b d' k ∙ hq d a m e

  pub Keeps-nothing : {A : Type 0} (a : A) → Keeps f (λ d. ok (a, d))
  Keeps-nothing a d b d' h = ground arith

  pub Keeps-each :
      {A : Type 0} (q : A → Query D (Unit {0}))
      → ((x : A) → Keeps f (q x))
      → (xs : List A) → Keeps f (each_query q xs)
  Keeps-each q h [] = Keeps-nothing tt
  Keeps-each q h (x ∷ xs) = Keeps-then (q x) (λ _. each_query q xs) (h x) (λ _. Keeps-each q h xs)

  pub Keeps-choice :
      (b : Bool) (q r : Query D (Unit {0}))
      → Keeps f q
      → Keeps f r
      → Keeps f (elim b [ true ↦ q | false ↦ r ])
  Keeps-choice true q r h k = h
  Keeps-choice false q r h k = k

-- a chain of statements that succeeds from any tables
abbrev pub Total : {D A : Type 0} → Query D A → Type 0
Total {D} {A} q = (d : D) → (a : A) × (d' : D) × (q d ≡ ok (a, d'))

module _ {D : Type 0} where
  pub after-ok :
      {A B : Type 0} (q : Query D A) (g : A → Query D B) (d : D) (a : A) (m : D) (b : B) (d' : D)
      → q d ≡ ok (a, m)
      → g a m ≡ ok (b, d')
      → then_query q g d ≡ ok (b, d')
  after-ok q g d a m b d' e k = rw e k

  pub Total-then :
      {A B : Type 0} (q : Query D A) (g : A → Query D B)
      → Total q
      → ((a : A) → Total (g a))
      → Total (then_query q g)
  Total-then q g hq hg d =
      let (a, m, e) = hq d in let (b, d', k) = hg a m in (b, d', after-ok q g d a m b d' e k)

  pub Total-each :
      {A : Type 0} (q : A → Query D (Unit {0}))
      → ((x : A) → Total (q x))
      → (xs : List A) → Total (each_query q xs)
  Total-each q h [] d = (tt, d, refl)
  Total-each q h (x ∷ xs) d =
      Total-then (q x) (λ _. each_query q xs) (h x) (λ _. Total-each q h xs) d

  pub Total-choice :
      (b : Bool) (q r : Query D (Unit {0}))
      → Total q
      → Total r
      → Total (elim b [ true ↦ q | false ↦ r ])
  Total-choice true q r h k = h
  Total-choice false q r h k = k

pub with_tables-reads :
    {D A : Type 0} (r : Outcome Error A) (d d' : D) (a : A) → with_tables r d ≡ ok (a, d') → d' ≡ d
with_tables-reads (ok x) d d' a h = sym (ok-injective h).1
with_tables-reads (err e) d d' a h = absurd (ground arith)
