-- ===== src/Retell/Account/Forgotten.antt =====
-- What an account leaves behind (DELETE /me, internal/httpapi/identity.go).
use el_backend.Database.Keeps.{ok-injective}
use el_backend.Database.{Error, on_pool, World}
use el_backend.Retell.Requests.{
  invalid, recording_not_found, store_unavailable, query_failed, returned, list_retell_attempts,
  Returned,
}
use el_backend.Text.{text_eq, Text}
use el_backend.Identity.Schema.{Accounts, RetellAttempt}
use el_backend.Retell.{ObjectStore}
use el_backend.Retell.Account.{
  delete_user, remove_recordings, end_account, delete_account, after_objects, without_user,
  remove_all,
}
use el_backend.Base.{
  refl, ltb, ◌&&◌, err, subst, ◌⊎◌, sym, Outcome, ok, none, ◌∙◌, ap, inr, arith, All-weaken, ◌==◌,
  inl, [], true, false, Bool-cases, ◌≡◌, ◌∷◌, Bool, List, ℕ, All, All-unfilter,
}
use el_backend.Base.Sort.{All-stable_sort}
use el_backend.Retell.Account.Rows.{Forgotten, without-Forgotten}
use el_backend.Database.Pool.{on_pool-cases, on_pool-reads}
use el_backend.Publish.Options.{text_eq-false}
use el_backend.Text.Equality.{text_eq_iff}

module _ {O : Type 0} (store : ObjectStore O) where
  -- no recording of these rows is in the store
  abbrev pub Emptied : List RetellAttempt → O → Type 0
  Emptied rows o = All (λ (r : RetellAttempt). store.holds r.object_key o ≡ false) rows

  remove-gone :
      (k j : Text) (o : O)
      → (store.remove k o).0 ≡ true
      → store.holds j o ≡ false
      → store.holds j (store.remove k o).1 ≡ false
  remove-gone k j o s h = elim (Bool-cases (text_eq j k)) [
    | inl e ↦
        ap (λ x. store.holds x (store.remove k o).1) ((text_eq_iff j k).0 e)
        ∙ store.remove_gone k o s
    | inr e ↦ store.remove_others k j o (text_eq-false j k e) ∙ h
  ]

  remove_all-gone :
      (rows : List RetellAttempt) (j : Text) (o : O)
      → (remove_all store rows o).0 ≡ true
      → store.holds j o ≡ false
      → store.holds j (remove_all store rows o).1 ≡ false
  unfolding remove_all
  remove_all-gone [] j o s h = h
  remove_all-gone (r ∷ rows) j o s h = elim (Bool-cases (store.remove r.object_key o).0) [
    | inl e ↦
        rw (remove_all, e)
          (remove_all-gone rows j (store.remove r.object_key o).1 (rw (remove_all, e) at s)
            (remove-gone r.object_key j o e h))
    | inr e ↦ absurd (ground arith)
  ]

  remove_all-Emptied :
      (rows : List RetellAttempt) (o : O)
      → (remove_all store rows o).0 ≡ true
      → Emptied rows (remove_all store rows o).1
  unfolding remove_all
  remove_all-Emptied [] o s = tt
  remove_all-Emptied (r ∷ rows) o s = elim (Bool-cases (store.remove r.object_key o).0) [
    | inl e ↦
        let o' = (store.remove r.object_key o).1 in
        let step : remove_all store (r ∷ rows) o ≡ remove_all store rows o' =
          rw (remove_all, e) refl in
        let s' : (remove_all store rows o').0 ≡ true = ap (λ (x : Bool × O). x.0) (sym step) ∙ s in
        subst (λ (x : Bool × O). Emptied (r ∷ rows) x.1) (sym step)
          (
            remove_all-gone rows r.object_key o' s' (store.remove_gone r.object_key o e),
            remove_all-Emptied rows o' s',
          )
    | inr e ↦ absurd (ground arith)
  ]

  -- the account is gone, with the objects of its recordings
  pub record Closed (u : ℕ) (before after : Accounts) (o : O) : Type 0 where
    pub tables : after ≡ without_user u before
    pub forgotten : Forgotten u after
    pub recordings :
        All
          (λ (r : RetellAttempt). (r.user_id == u) ≡ true → store.holds r.object_key o ≡ false)
          before.retells

  abbrev pub Leaves : ℕ → Accounts → Returned (Unit {0}) × (World Accounts × O) → Type 0
  Leaves u d (returned x, (w, o)) = Closed u d w.tables o
  Leaves u d (query_failed, (w, o)) = (w.tables ≡ d) ⊎ Closed u d w.tables o
  Leaves u d (store_unavailable, (w, o)) = w.tables ≡ d
  Leaves u d (recording_not_found, (w, o)) = w.tables ≡ d
  Leaves u d (invalid, (w, o)) = w.tables ≡ d

  list-eq-ok :
      (u : ℕ) (d : Accounts) (rows : List RetellAttempt) (d' : Accounts)
      → list_retell_attempts u none d ≡ ok (rows, d')
      → (d' ≡ d)
        × ((o : O)
            → Emptied rows o
            → All
                (λ (r : RetellAttempt).
                  (r.user_id == u) ≡ true → store.holds r.object_key o ≡ false)
                d.retells)
  unfolding list_retell_attempts
  list-eq-ok u d rows d' h =
      let end = ok-injective h in
      (
        sym end.1,
        λ o k.
            All-weaken
              {P = λ (r : RetellAttempt).
                (r.user_id == u && true) ≡ true → store.holds r.object_key o ≡ false}
              {Q = λ (r : RetellAttempt).
                (r.user_id == u) ≡ true → store.holds r.object_key o ≡ false}
              (λ (r : RetellAttempt) f e. f (rw e refl)) d.retells
              (All-unfilter (λ (r : RetellAttempt). store.holds r.object_key o ≡ false)
                (λ (r : RetellAttempt). r.user_id == u && true) d.retells
                (All-stable_sort (λ (r : RetellAttempt). store.holds r.object_key o ≡ false)
                  (λ (a b : RetellAttempt). ltb b.created_at a.created_at) _
                  (subst (λ rs. Emptied rs o) (sym end.0) k))),
      )

  end-Leaves :
      (u : ℕ) (w : World Accounts) (o : O)
      → All
          (λ (r : RetellAttempt). (r.user_id == u) ≡ true → store.holds r.object_key o ≡ false)
          w.tables.retells
      → Leaves u w.tables (end_account store (on_pool (delete_user u) w) o)
  unfolding end_account delete_user
  end-Leaves u w o k = ends (on_pool (delete_user u) w) (on_pool-cases (delete_user u) w)
    where
      closed :
          (after : Accounts) → delete_user u w.tables ≡ ok (tt, after) → Closed u w.tables after o
      closed after h =
          let same = sym (ok-injective h).1 in
          record {
            tables = same;
            forgotten = subst (Forgotten u) (sym same) (without-Forgotten u w.tables);
            recordings = k;
          }

      ends :
          (r : Outcome Error (Unit {0}) × World Accounts)
          → ((x : Unit {0}) × ((r.0 ≡ ok x) × (delete_user u w.tables ≡ ok (x, r.1.tables))))
            ⊎ ((e : Error) × ((r.0 ≡ err e)
                  × ((r.1.tables ≡ w.tables)
                      ⊎ ((x : Unit {0}) × (delete_user u w.tables ≡ ok (x, r.1.tables))))))
          → Leaves u w.tables (end_account store r o)
      ends (ok x, v) (inl (y, (a, b))) = closed v.tables b
      ends (ok x, v) (inr (e, (a, b))) = absurd (ground arith)
      ends (err e, v) (inl (y, (a, b))) = absurd (ground arith)
      ends (err e, v) (inr (c, (a, inl b))) = inl b
      ends (err e, v) (inr (c, (a, inr (x, b)))) = inr (closed v.tables b)

  objects-Leaves :
      (u : ℕ) (w : World Accounts) (p : Bool × O)
      → (p.0 ≡ true
          → All
              (λ (r : RetellAttempt).
                (r.user_id == u) ≡ true → store.holds r.object_key p.1 ≡ false)
              w.tables.retells)
      → Leaves u w.tables (after_objects store u w p)
  unfolding after_objects
  objects-Leaves u w (false, o) k = refl
  objects-Leaves u w (true, o) k = end-Leaves u w o (k refl)

  -- Whatever fails, an account that is reported as deleted is forgotten: no row of any table leads to
  -- the user, a refresh token that waits for its revocation is kept without the user, and the object of
  -- every recording of the user is gone. Where the store fails the tables are as they were, and where a
  -- query fails they are as they were or the account is forgotten.
  pub delete_account-Leaves :
      (u : ℕ) (w : World Accounts) (o : O) → Leaves u w.tables (delete_account store u (w, o))
  unfolding delete_account remove_recordings
  delete_account-Leaves u w o =
      from (on_pool (list_retell_attempts u none) w) (
        on_pool-reads (list_retell_attempts u none) (λ d rows d' h. (list-eq-ok u d rows d' h).0) w)
    where
      ok-inj :
          {rows rows' : List RetellAttempt}
          → Path (Outcome Error (List RetellAttempt)) (ok rows) (ok rows')
          → rows ≡ rows'
      ok-inj {rows} x =
          ap (λ (z : Outcome Error (List RetellAttempt)). elim z [ ok r ↦ r | err c ↦ rows ]) x

      from :
          (r : Outcome Error (List RetellAttempt) × World Accounts)
          → (r.1.tables ≡ w.tables)
            × (((rows : List RetellAttempt) × (r.0 ≡ ok rows)
                  × (list_retell_attempts u none w.tables ≡ ok (rows, w.tables)))
                ⊎ ((e : Error) × (r.0 ≡ err e)))
          → Leaves u w.tables (remove_recordings store u r o)
      from (err e, v) (t, c) = inl t
      from (ok rows, v) (t, inr (e, x)) = absurd (ground arith)
      from (ok rows, v) (t, inl (rows', x, y)) =
          subst (λ d. Leaves u d (after_objects store u v (remove_all store rows o))) t
            (objects-Leaves u v (remove_all store rows o) (λ s.
              subst
                (λ (d : Accounts).
                  All
                    (λ (r : RetellAttempt).
                      (r.user_id == u) ≡ true
                      → store.holds r.object_key (remove_all store rows o).1 ≡ false)
                    d.retells)
                (sym t)
                ((list-eq-ok u w.tables rows w.tables
                    (y ∙ ap (λ z. ok (z, w.tables)) (sym (ok-inj x)))).1
                  (remove_all store rows o).1 (remove_all-Emptied rows o s))))
