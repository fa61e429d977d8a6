-- ===== src/Database/Table.antt =====
-- A table is the list of its rows. What INSERT … ON CONFLICT DO UPDATE, UPDATE and DELETE do to it,
-- and what a lookup by another key sees of it.
use el_backend.Base.{
  ◌≡◌, refl, Bool, true, false, not, ◌||◌, Option, none, some, List, [], ◌∷◌, map, if◌then◌else◌,
  find?, filter, arith, Bool-cases, inl, inr, All, subst,
}

module _ {R : Type 0} where
  -- the test says which row the new one is in conflict with
  abbrev pub upsert_row : (R → Bool) → R → (R → R) → List R → List R
  upsert_row hits new merge [] = new ∷ []
  upsert_row hits new merge (r ∷ rows) =
      if hits r then merge r ∷ rows else r ∷ upsert_row hits new merge rows

  abbrev pub update_rows : (R → Bool) → (R → R) → List R → List R
  update_rows hits f = map (λ r. if hits r then f r else r)

  abbrev pub delete_rows : (R → Bool) → List R → List R
  delete_rows hits = filter (λ r. not (hits r))

  abbrev pub any : (R → Bool) → List R → Bool
  any p [] = false
  any p (r ∷ rows) = p r || any p rows

  -- the row that RETURNING gives
  abbrev pub merged : R → (R → R) → Option R → R
  merged new merge none = new
  merged new merge (some r) = merge r

module _ {R : Type 0} (hits : R → Bool) (new : R) (merge : R → R) where
  pub find-upsert_self :
      hits new ≡ true
      → ((r : R) → hits r ≡ true → hits (merge r) ≡ true)
      → (rows : List R)
      → find? hits (upsert_row hits new merge rows) ≡ some (merged new merge (find? hits rows))
  find-upsert_self hn hm [] = ground arith
  find-upsert_self hn hm (r ∷ rows) = ground (arith, hm r, find-upsert_self hn hm rows)

  pub find-upsert_ne :
      (p : R → Bool)
      → p new ≡ false
      → ((r : R) → hits r ≡ true → p r ≡ false)
      → ((r : R) → hits r ≡ true → p (merge r) ≡ false)
      → (rows : List R) → find? p (upsert_row hits new merge rows) ≡ find? p rows
  find-upsert_ne p hn hr hm [] = ground arith
  find-upsert_ne p hn hr hm (r ∷ rows) = ground (arith, hr r, hm r, find-upsert_ne p hn hr hm rows)

  -- a second row for a key never comes about
  pub any-upsert_ne :
      (p : R → Bool)
      → p new ≡ false
      → ((r : R) → hits r ≡ true → p (merge r) ≡ p r)
      → (rows : List R) → any p (upsert_row hits new merge rows) ≡ any p rows
  any-upsert_ne p hn hm [] = ground arith
  any-upsert_ne p hn hm (r ∷ rows) = ground (arith, hm r, any-upsert_ne p hn hm rows)

module _ {R : Type 0} (hits : R → Bool) where
  pub find-delete_self : (rows : List R) → find? hits (delete_rows hits rows) ≡ none
  find-delete_self [] = refl
  find-delete_self (r ∷ rows) = ground (arith, find-delete_self rows)

  pub find-delete_ne :
      (p : R → Bool)
      → ((r : R) → hits r ≡ true → p r ≡ false)
      → (rows : List R) → find? p (delete_rows hits rows) ≡ find? p rows
  find-delete_ne p h [] = refl
  find-delete_ne p h (r ∷ rows) = ground (arith, h r, find-delete_ne p h rows)

  -- what UPDATE makes of the row that a lookup by the same key finds
  pub find-update_self :
      (f : R → R)
      → ((r : R) → hits r ≡ true → hits (f r) ≡ true)
      → (rows : List R) (r : R) → find? hits rows ≡ some r
      → find? hits (update_rows hits f rows) ≡ some (f r)
  find-update_self f hf [] r h = ground arith
  find-update_self f hf (x ∷ rows) r h = ground (arith, hf x, find-update_self f hf rows r)

-- a row that is found passes, and is one of the rows
module _ {R : Type 0} (p : R → Bool) where
  pub find-passes : (rows : List R) (r : R) → find? p rows ≡ some r → p r ≡ true
  find-passes [] r h = absurd (ground arith)
  find-passes (x ∷ rows) r h = elim (Bool-cases (p x)) [
    | inl e ↦ let k : x ≡ r = ground arith in rw (← k) e
    | inr e ↦ find-passes rows r (rw e at h)
  ]

  pub find-none : (rows : List R) → any p rows ≡ false → find? p rows ≡ none
  find-none [] h = refl
  find-none (x ∷ rows) h =
      let e : p x ≡ false = ground arith in rw e (find-none rows (ground arith))

  pub any-find :
      (q : R → Bool) (rows : List R) (r : R)
      → find? p rows ≡ some r
      → q r ≡ true
      → any q rows ≡ true
  any-find q [] r h k = absurd (ground arith)
  any-find q (x ∷ rows) r h k = elim (Bool-cases (p x)) [
    | inl e ↦ let same : x ≡ r = ground arith in rw (same, k) refl
    | inr e ↦ let ih = any-find q rows r (rw e at h) k in ground arith
  ]

  pub find-weaken :
      (P : R → Type 0) (rows : List R) (r : R) → find? p rows ≡ some r → All P rows → P r
  find-weaken P [] r h a = absurd (ground arith)
  find-weaken P (x ∷ rows) r h a = elim (Bool-cases (p x)) [
    | inl e ↦ let same : x ≡ r = ground arith in subst P same a.0
    | inr e ↦ find-weaken P rows r (rw e at h) a.1
  ]
