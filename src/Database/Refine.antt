-- ===== src/Database/Refine.antt =====
-- `Refines`: what a chain of statements does, said by a query on the tables alone.
use el_backend.Base.{
  List, ◌∷◌, ◌≡◌, true, false, [], Outcome, ok, err, if◌then◌else◌, ◌⊎◌, inl, inr, arith,
  Bool-cases, Outcome-cases,
}
use el_backend.Database.Defs.{
  map_err, on_error, with_tables, each_query, for_each, lift, Error, aborted, TxState, Query, Tx,
  pure, fail, statement, attempt, kills, continue_with, ◌>>=◌, then_query, after,
}

abbrev pub quiet : {D : Type 0} → D → TxState D
quiet d = record { tables = d; faults = []; dead = false }

-- it returned an error, or it can no longer be committed
abbrev pub Fails : {D A : Type 0} → Outcome Error A × TxState D → Type 0
Fails r = ((e : Error) × (r.0 ≡ err e)) ⊎ (r.1.dead ≡ true)

-- `m` does what `q` says: `sound` if it comes through alive, and `calm` if no round trip fails.
pub record Refines {D A : Type 0} (m : Tx D A) (q : Query D A) : Type 0 where
  pub sound :
      (s : TxState D) (a : A)
      → (m s).0 ≡ ok a
      → (m s).1.dead ≡ false
      → (s.dead ≡ false) × (q s.tables ≡ ok (a, (m s).1.tables))
  pub calm_ok : (d : D) (a : A) (d' : D) → q d ≡ ok (a, d') → m (quiet d) ≡ (ok a, quiet d')
  pub calm_err :
      (d : D) (e : Error)
      → q d ≡ err e
      → ((m (quiet d)).0 ≡ err e) ⊎ ((e ≡ aborted) × Fails (m (quiet d)))

module _ {D A : Type 0} where
  statement_sound :
      (q : Query D A) (s : TxState D) (a : A)
      → (statement q s).0 ≡ ok a
      → (statement q s).1.dead ≡ false
      → (s.dead ≡ false) × (q s.tables ≡ ok (a, (statement q s).1.tables))
  unfolding statement
  statement_sound q s a h k = ground arith

  pub Refines-statement : (q : Query D A) → Refines (statement q) q
  unfolding statement
  Refines-statement q = record {
    sound = statement_sound q;
    calm_ok = λ d a d' h. rw h;
    calm_err = λ d e h. inl (rw h);
  }

  pub Refines-pure : (a : A) → Refines {D = D} (pure a) (λ d. ok (a, d))
  unfolding pure
  Refines-pure a = record {
    sound = λ s b h k. ground arith;
    calm_ok = λ d b d' h. ground arith;
    calm_err = λ d e h. inl (ground arith);
  }

  pub Refines-fail : (e : Error) → Refines {D = D} {A = A} (fail e) (λ d. err e)
  unfolding fail
  Refines-fail e = record {
    sound = λ s b h k. ground arith;
    calm_ok = λ d b d' h. ground arith;
    calm_err = λ d e' h. inl (ground arith);
  }

-- nothing comes back to life
dead-Fails :
    {D A : Type 0} (m : Tx D A) (q : Query D A)
    → Refines m q
    → (s : TxState D) → s.dead ≡ true
    → Fails (m s)
dead-Fails m q rm s h = elim (Outcome-cases (m s).0) [
  | inr x ↦ inl x
  | inl (a, e) ↦ elim (Bool-cases (m s).1.dead) [
    | inl d ↦ inr d
    | inr d ↦ absurd (ground (arith, rm.sound s a e d))
  ]
]

module _ {D A B : Type 0} (m : Tx D A) (q : Query D A) (f : A → Tx D B) (g : A → Query D B) where
  bind_sound :
      Refines m q
      → ((a : A) → Refines (f a) (g a))
      → (s : TxState D) (b : B) → ((m >>= f) s).0 ≡ ok b
      → ((m >>= f) s).1.dead ≡ false
      → (s.dead ≡ false) × (then_query q g s.tables ≡ ok (b, ((m >>= f) s).1.tables))
  unfolding ◌>>=◌
  bind_sound rm rf s b h k = elim (Outcome-cases (m s).0) [
    | inl (a, e) ↦ ground (arith, (rf a).sound (m s).1 b, rm.sound s a)
    | inr (c, e) ↦ ground arith
  ]

  bind_calm_ok :
      Refines m q
      → ((a : A) → Refines (f a) (g a))
      → (d : D) (b : B) (d' : D) → then_query q g d ≡ ok (b, d')
      → (m >>= f) (quiet d) ≡ (ok b, quiet d')
  unfolding ◌>>=◌
  bind_calm_ok rm rf d b d' h = elim (Outcome-cases (q d)) [
    | inl ((a, d1), e) ↦ ground (arith, (rf a).calm_ok d1 b d', rm.calm_ok d a d1)
    | inr (c, e) ↦ ground arith
  ]

  bind-Fails : ((a : A) → Refines (f a) (g a)) → (s : TxState D) → Fails (m s) → Fails ((m >>= f) s)
  unfolding ◌>>=◌
  bind-Fails rf s x = elim (Outcome-cases (m s).0) [
    | inr (c, e) ↦ inl (c, rw (e, continue_with))
    | inl (a, e) ↦ rw (e, continue_with) (dead-Fails (f a) (g a) (rf a) (m s).1 (died a e x))
  ]
    where
      died : (a : A) → (m s).0 ≡ ok a → Fails (m s) → (m s).1.dead ≡ true
      died a e (inl (c, h)) = absurd (ground arith)
      died a e (inr h) = h

  bind_calm_err :
      Refines m q
      → ((a : A) → Refines (f a) (g a))
      → (d : D) (c : Error) → then_query q g d ≡ err c
      → (((m >>= f) (quiet d)).0 ≡ err c) ⊎ ((c ≡ aborted) × Fails ((m >>= f) (quiet d)))
  unfolding ◌>>=◌
  bind_calm_err rm rf d c h = elim (Outcome-cases (q d)) [
    | inl ((a, d1), e) ↦
        rw (rm.calm_ok d a d1 e, continue_with) ((rf a).calm_err d1 c (rw (e, after) at h))
    | inr (c', e) ↦ failed (rm.calm_err d c (ground arith))
  ]
    where
      failed :
          ((m (quiet d)).0 ≡ err c) ⊎ ((c ≡ aborted) × Fails (m (quiet d)))
          → (((m >>= f) (quiet d)).0 ≡ err c) ⊎ ((c ≡ aborted) × Fails ((m >>= f) (quiet d)))
      failed (inl e) = inl (rw (e, continue_with))
      failed (inr (e, x)) = inr (e, bind-Fails rf (quiet d) x)

  pub Refines-bind :
      Refines m q → ((a : A) → Refines (f a) (g a)) → Refines (m >>= f) (then_query q g)
  Refines-bind rm rf = record {
    sound = bind_sound rm rf;
    calm_ok = bind_calm_ok rm rf;
    calm_err = bind_calm_err rm rf;
  }

pub Refines-lift : {D A : Type 0} (r : Outcome Error A) → Refines {D = D} (lift r) (with_tables r)
unfolding lift
Refines-lift (ok a) = record {
  sound = λ s b h k. ground arith;
  calm_ok = λ d b d' h. ground arith;
  calm_err = λ d e h. inl (ground arith);
}
Refines-lift (err c) = record {
  sound = λ s b h k. ground arith;
  calm_ok = λ d b d' h. ground arith;
  calm_err = λ d e h. inl (ground arith);
}

pub Refines-on_error :
    {D A : Type 0} (f : Error → Error) (q : Query D A)
    → Refines (on_error f (statement q)) (λ d. map_err f (q d))
unfolding on_error statement
Refines-on_error f q = record {
  sound = λ s a h k. ground arith;
  calm_ok = λ d a d' h. elim (Outcome-cases (q d)) [
    | inl (x, e) ↦ ground arith
    | inr (c, e) ↦ ground arith
  ];
  calm_err = λ d c h. elim (Outcome-cases (q d)) [
    | inl (x, e) ↦ inl (ground arith)
    | inr (x, e) ↦ inl (ground arith)
  ];
}

pub Refines-for_each :
    {D A : Type 0} (body : A → Tx D (Unit {0})) (q : A → Query D (Unit {0}))
    → ((x : A) → Refines (body x) (q x))
    → (xs : List A) → Refines (for_each body xs) (each_query q xs)
unfolding for_each
Refines-for_each body q h [] = Refines-pure tt
Refines-for_each body q h (x ∷ xs) =
    Refines-bind (body x) (q x) (λ _. for_each body xs) (λ _. each_query q xs) (h x)
      (λ _. Refines-for_each body q h xs)

pub ruleset refines_rules = (
  Refines-statement, Refines-pure, Refines-fail, Refines-lift, Refines-bind, Refines-on_error,
  Refines-for_each,
)

-- `_, _ = …` inside a transaction: an error that the server reports aborts what follows
abbrev pub tolerate : {D A : Type 0} → Outcome Error (A × D) → D → Outcome Error (Unit {0} × D)
tolerate (ok (a, d')) d = ok (tt, d')
tolerate (err e) d = if kills e then err aborted else ok (tt, d)

pub Refines-attempt :
    {D A : Type 0} (q : Query D A) → Refines (attempt (statement q)) (λ d. tolerate (q d) d)
unfolding attempt statement
Refines-attempt q = record {
  sound = λ s a h k. ground arith;
  calm_ok = λ d a d' h. elim (Outcome-cases (q d)) [
    | inl (x, e) ↦ ground arith
    | inr (c, e) ↦ ground arith
  ];
  calm_err = λ d c h. elim (Outcome-cases (q d)) [
    | inl (x, e) ↦ inl (ground arith)
    | inr (x, e) ↦ inr (ground arith, inr (ground arith))
  ];
}
