-- ===== src/Database/Pool.antt =====
-- A query on the pool (pgxpool.Pool.Query and QueryRow): how it ends, whatever its round trip does.
use el_backend.Database.Defs.{
  unheard, works, lost, head_fault, unavailable, Fault, tail_faults, Error, World, answer, on_pool,
  Query,
}
use el_backend.Base.{refl, inr, ap, Outcome, ◌∙◌, inl, err, ◌⊎◌, ok, ◌≡◌}

-- how a query on the pool ends
pub on_pool-cases :
    {D A : Type 0} (q : Query D A) (w : World D)
    → ((a : A) × (((on_pool q w).0 ≡ ok a) × (q w.tables ≡ ok (a, (on_pool q w).1.tables))))
      ⊎ ((e : Error) × (((on_pool q w).0 ≡ err e)
            × (((on_pool q w).1.tables ≡ w.tables)
                ⊎ ((a : A) × (q w.tables ≡ ok (a, (on_pool q w).1.tables))))))
unfolding on_pool answer
on_pool-cases {D} {A} q w = from (head_fault w.faults) (q w.tables) refl
  where
    rest : World D
    rest = record w { faults = tail_faults w.faults }

    from :
        (f : Fault) (r : Outcome Error (A × D))
        → q w.tables ≡ r
        → ((a : A) × (((answer f r rest).0 ≡ ok a)
              × (q w.tables ≡ ok (a, (answer f r rest).1.tables))))
          ⊎ ((e : Error) × (((answer f r rest).0 ≡ err e)
                × (((answer f r rest).1.tables ≡ w.tables)
                    ⊎ ((a : A) × (q w.tables ≡ ok (a, (answer f r rest).1.tables))))))
    from lost r e = inr (unavailable, (refl, inl refl))
    from works (err c) e = inr (c, (refl, inl refl))
    from unheard (err c) e = inr (c, (refl, inl refl))
    from works (ok (a, d)) e = inl (a, (refl, e))
    from unheard (ok (a, d)) e = inr (unavailable, (refl, inr (a, e)))

-- a query that only reads
pub on_pool-reads :
    {D A : Type 0} (q : Query D A)
    → ((d : D) (a : A) (d' : D) → q d ≡ ok (a, d') → d' ≡ d)
    → (w : World D)
    → ((on_pool q w).1.tables ≡ w.tables)
      × (((a : A) × ((on_pool q w).0 ≡ ok a) × (q w.tables ≡ ok (a, w.tables)))
          ⊎ ((e : Error) × ((on_pool q w).0 ≡ err e)))
on_pool-reads q h w = elim (on_pool-cases q w) [
  | inl (a, (r, e)) ↦
      let same = h w.tables a _ e in (same, inl (a, r, e ∙ ap (λ t. ok (a, t)) same))
  | inr (x, (r, inl same)) ↦ (same, inr (x, r))
  | inr (x, (r, inr (a, e))) ↦ (h w.tables a _ e, inr (x, r))
]
