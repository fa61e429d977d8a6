-- ===== src/Retell/Removed.antt =====
-- What the removal of a recording leaves behind (internal/httpapi/retell.go).
use el_backend.Database.Table.{find-delete_self}
use el_backend.Text.{Text}
use el_backend.Database.{Error, on_pool, World}
use el_backend.Identity.Schema.{Accounts, RetellAttempt}
use el_backend.Retell.Requests.{
  invalid, recording_not_found, store_unavailable, query_failed, returned, without_attempt,
  Returned, remove_row, after_remove, delete_row, delete_recording, get_retell_attempt,
  delete_retell_attempt,
}
use el_backend.Retell.{retell_key, ObjectStore}
use el_backend.Database.Pool.{on_pool-cases, on_pool-reads}
use el_backend.Base.{
  subst, refl, sym, err, inr, arith, inl, ◌∙◌, Option-cases, true, ◌⊎◌, ap, Outcome, ◌≢◌, ok, some,
  false, none, ◌≡◌, Bool, ℕ, find?,
}

get-eq-ok :
    (u a : ℕ) (d : Accounts) (r : RetellAttempt) (d' : Accounts)
    → get_retell_attempt u a d ≡ ok (r, d')
    → (d' ≡ d) × (find? (retell_key u a) d.retells ≡ some r)
unfolding get_retell_attempt
get-eq-ok u a d r d' h = elim (Option-cases (find? (retell_key u a) d.retells)) [
  | inl e ↦ absurd (ground arith)
  | inr (x, e) ↦ (ground arith, e ∙ ap (λ z. some z) (ground arith))
]

delete-eq-ok :
    (u a : ℕ) (d : Accounts) (key : Text) (d' : Accounts)
    → delete_retell_attempt u a d ≡ ok (key, d')
    → d' ≡ without_attempt u a d
unfolding delete_retell_attempt
delete-eq-ok u a d key d' h = elim (Option-cases (find? (retell_key u a) d.retells)) [
  | inl e ↦ absurd (ground arith)
  | inr (x, e) ↦ ground arith
]

module _ {O : Type 0} (store : ObjectStore O) (u a : ℕ) where
  -- the object of the row is gone, and the other objects are as they were
  pub record Emptied (row : RetellAttempt) (o o' : O) : Type 0 where
    pub gone : store.holds row.object_key o' ≡ false
    pub others : (j : Text) → j ≢ row.object_key → store.holds j o' ≡ store.holds j o

  -- the tables without the row
  pub record Deleted (d d' : Accounts) : Type 0 where
    pub tables : d' ≡ without_attempt u a d
    pub none_left : find? (retell_key u a) d'.retells ≡ none

  -- for each answer, what has become of the tables and the objects
  abbrev pub Removal : Accounts → O → Returned (Unit {0}) × (World Accounts × O) → Type 0
  Removal d o (returned x, (w, o')) =
      (row : RetellAttempt) × (find? (retell_key u a) d.retells ≡ some row)
      × Emptied row o o'
      × Deleted d w.tables
  Removal d o (query_failed, (w, o')) =
      (row : RetellAttempt) × (find? (retell_key u a) d.retells ≡ some row)
      × Emptied row o o'
      × ((w.tables ≡ d) ⊎ Deleted d w.tables)
  Removal d o (store_unavailable, (w, o')) =
      (row : RetellAttempt) × (find? (retell_key u a) d.retells ≡ some row)
      × ((j : Text) → j ≢ row.object_key → store.holds j o' ≡ store.holds j o)
      × (w.tables ≡ d)
  Removal d o (recording_not_found, (w, o')) = (w.tables ≡ d) × (o' ≡ o)
  Removal d o (invalid, (w, o')) = (w.tables ≡ d) × (o' ≡ o)

  without-Deleted : (d d' : Accounts) → d' ≡ without_attempt u a d → Deleted d d'
  without-Deleted d d' e = record {
    tables = e;
    none_left =
        ap (λ (x : Accounts). find? (retell_key u a) x.retells) e
        ∙ find-delete_self (retell_key u a) d.retells;
  }

  row-Removal :
      (row : RetellAttempt) (o o' : O) (w : World Accounts)
      → find? (retell_key u a) w.tables.retells ≡ some row
      → Emptied row o o'
      → Removal w.tables o (delete_row store (on_pool (delete_retell_attempt u a) w) o')
  unfolding delete_row
  row-Removal row o o' w f empty =
      ends (on_pool (delete_retell_attempt u a) w) (on_pool-cases (delete_retell_attempt u a) w)
    where
      ends :
          (r : Outcome Error Text × World Accounts)
          → ((key : Text) × ((r.0 ≡ ok key)
                × (delete_retell_attempt u a w.tables ≡ ok (key, r.1.tables))))
            ⊎ ((e : Error) × ((r.0 ≡ err e)
                  × ((r.1.tables ≡ w.tables)
                      ⊎ ((key : Text) × (delete_retell_attempt u a w.tables
                            ≡ ok (key, r.1.tables))))))
          → Removal w.tables o (delete_row store r o')
      ends (ok key, w') (inl (k, (x, y))) =
          (row, f, empty, without-Deleted w.tables w'.tables (delete-eq-ok u a w.tables k _ y))
      ends (ok key, w') (inr (e, (x, y))) = absurd (ground arith)
      ends (err e, w') (inl (k, (x, y))) = absurd (ground arith)
      ends (err e, w') (inr (c, (x, inl y))) = (row, f, empty, inl y)
      ends (err e, w') (inr (c, (x, inr (k, y)))) = (
        row,
        f,
        empty,
        inr (without-Deleted w.tables w'.tables (delete-eq-ok u a w.tables k _ y)),
      )

  remove-Removal :
      (row : RetellAttempt) (o : O) (w : World Accounts) (p : Bool × O)
      → find? (retell_key u a) w.tables.retells ≡ some row
      → (p.0 ≡ true → store.holds row.object_key p.1 ≡ false)
      → ((j : Text) → j ≢ row.object_key → store.holds j p.1 ≡ store.holds j o)
      → Removal w.tables o (after_remove store u a w p)
  unfolding after_remove
  remove-Removal row o w (false, o') f gone others = (row, f, others, refl)
  remove-Removal row o w (true, o') f gone others =
      row-Removal row o o' w f (record { gone = gone refl; others = others })

  -- Whatever fails, the removal of a recording ends as its answer says: a success has removed the row
  -- of the user and its object; a failure of the store leaves the rows, and one of the last query has
  -- removed the object and left the rows or removed the row; a recording that is not found changes
  -- nothing. No other object and no other row is touched.
  pub delete_recording-Removal :
      (w : World Accounts) (o : O) → Removal w.tables o (delete_recording store u (some a) (w, o))
  unfolding delete_recording remove_row
  delete_recording-Removal w o =
      from (on_pool (get_retell_attempt u a) w)
        (on_pool-reads (get_retell_attempt u a) (λ d r d' h. (get-eq-ok u a d r d' h).0) w)
    where
      from :
          (r : Outcome Error RetellAttempt × World Accounts)
          → (r.1.tables ≡ w.tables)
            × (((row : RetellAttempt) × (r.0 ≡ ok row)
                  × (get_retell_attempt u a w.tables ≡ ok (row, w.tables)))
                ⊎ ((e : Error) × (r.0 ≡ err e)))
          → Removal w.tables o (remove_row store u a r o)
      from (err e, v) (t, c) = (t, refl)
      from (ok row, v) (t, inr (e, x)) = absurd (ground arith)
      from (ok row, v) (t, inl (row', x, y)) =
          let same : row ≡ row' =
            ap (λ (z : Outcome Error RetellAttempt). elim z [ ok r ↦ r | err c ↦ row ]) x in
          let found : find? (retell_key u a) v.tables.retells ≡ some row =
            ap (λ (d : Accounts). find? (retell_key u a) d.retells) t
            ∙ (get-eq-ok u a w.tables row' w.tables y).1
            ∙ ap (λ z. some z) (sym same) in
          subst (λ d. Removal d o (after_remove store u a v (store.remove row.object_key o))) t
            (remove-Removal row o v (store.remove row.object_key o) found
              (store.remove_gone row.object_key o)
              (λ j n. store.remove_others row.object_key j o n))
