-- ===== src/Database/Atomic.antt =====
-- A transaction is all or nothing: whatever fails on the way, the tables are those before it or
-- those that its statements make when nothing fails.
use el_backend.Base.{
  ◌≡◌, ◌≢◌, refl, false, [], Outcome, ok, err, ◌⊎◌, inl, inr, arith, Bool-cases, Outcome-cases,
}
use el_backend.Database.Defs.{
  Error, unavailable, aborted, Fault, works, lost, unheard, World, TxState, Query, Tx, commit,
  finish, begin, transact, head_fault, tail_faults,
}
use el_backend.Database.Refine.{Refines}

-- What a transaction returns and leaves behind.
pub record AllOrNothing {D A : Type 0} (r : Outcome Error A) (before after : D) (q : Query D A)
    : Type 0 where
  pub made : (a : A) → r ≡ ok a → q before ≡ ok (a, after)
  pub failed :
      (e : Error)
      → r ≡ err e
      → (after ≡ before) ⊎ ((e ≡ unavailable) × ((a : A) × (q before ≡ ok (a, after))))

commit_failed :
    {D A : Type 0} (f : Fault) (a : A) (s : TxState D) (before : D) (e : Error)
    → (commit f a s before).0 ≡ err e
    → ((commit f a s before).1 ≡ before)
      ⊎ ((e ≡ unavailable) × ((commit f a s before).1 ≡ s.tables))
unfolding commit
commit_failed works a s before e h = absurd (ground arith)
commit_failed lost a s before e h = inl refl
commit_failed unheard a s before e h = inr (ground arith, refl)

module _ {D A : Type 0} (m : Tx D A) (q : Query D A) (rm : Refines m q) where
  finish_made :
      (s : TxState D) (a : A)
      → (finish (m s) s.tables).0 ≡ ok a
      → q s.tables ≡ ok (a, (finish (m s) s.tables).1.tables)
  unfolding finish
  finish_made s a h = elim (Outcome-cases (m s).0) [
    | inl (b, e) ↦ ground (arith, rm.sound s b)
    | inr (c, e) ↦ ground arith
  ]

  finish_failed :
      (s : TxState D) (e : Error)
      → (finish (m s) s.tables).0 ≡ err e
      → ((finish (m s) s.tables).1.tables ≡ s.tables)
        ⊎ ((e ≡ unavailable) × ((a : A) × (q s.tables ≡ ok (a, (finish (m s) s.tables).1.tables))))
  unfolding finish
  finish_failed s e h = elim (Outcome-cases (m s).0) [
    | inr (c, x) ↦ inl (ground arith)
    | inl (b, x) ↦ elim (Bool-cases (m s).1.dead) [
      | inl d ↦ inl (ground arith)
      | inr d ↦
          elim (commit_failed (head_fault (m s).1.faults) b (m s).1 s.tables e (ground arith)) [
            | inl y ↦ inl (ground arith)
            | inr (y, z) ↦ inr (y, (b, ground (arith, rm.sound s b x d)))
          ]
    ]
  ]

  pub transact_atomic :
      (w : World D) → AllOrNothing (transact m w).0 w.tables (transact m w).1.tables q
  unfolding transact
  transact_atomic w = from (head_fault w.faults)
    where
      start : TxState D
      start = record { tables = w.tables; faults = tail_faults w.faults; dead = false }

      from :
          (f : Fault)
          → AllOrNothing
              (begin f m (record w { faults = tail_faults w.faults })).0
              w.tables
              (begin f m (record w { faults = tail_faults w.faults })).1.tables
              q
      from works = record { made = finish_made start; failed = finish_failed start }
      from lost = record { made = λ a h. ground arith; failed = λ e h. inl refl }
      from unheard = record { made = λ a h. ground arith; failed = λ e h. inl refl }

  -- With no fault the transaction is its query.
  pub transact_calm :
      (d : D) (a : A) (d' : D)
      → q d ≡ ok (a, d')
      → transact m (record { tables = d; faults = [] })
        ≡ (ok a, record { tables = d'; faults = [] })
  unfolding transact
  transact_calm d a d' h = rw (rm.calm_ok d a d' h)

  pub transact_refused :
      (d : D) (e : Error)
      → q d ≡ err e
      → e ≢ aborted
      → ((transact m (record { tables = d; faults = [] })).0 ≡ err e)
        × ((transact m (record { tables = d; faults = [] })).1.tables ≡ d)
  unfolding transact
  transact_refused d e h n = elim (rm.calm_err d e h) [
    | inl x ↦ ground arith
    | inr (x, y) ↦ absurd (n x)
  ]
