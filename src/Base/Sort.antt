-- ===== src/Base/Sort.antt =====
-- A stable sort (`sort.SliceStable`, ORDER BY): what is not less stays in its place.
use el_backend.Base.{
  All-drop, zero, suc, All-weaken, take, drop, All, ℕ, inr, refl, arith, inl, if◌then◌else◌,
  Bool-cases, false, [], true, ◌∷◌, List, ◌≡◌, Bool,
}
use mathlib.Core.List.{Perm}
use mathlib.Core.List.Perm
pub mod Select

module _ {ℓ} {A : Type ℓ} (less : A → A → Bool) where
  -- `x` goes before the first element that is not less than it
  unfoldable pub insert_sorted : A → List A → List A
  insert_sorted x [] = x ∷ []
  insert_sorted x (y ∷ ys) = if less y x then y ∷ insert_sorted x ys else x ∷ y ∷ ys

  unfoldable pub stable_sort : List A → List A
  unfolding insert_sorted
  stable_sort [] = []
  stable_sort (x ∷ xs) = insert_sorted x (stable_sort xs)

  -- no element is less than one before it, for neighbours
  abbrev pub Ordered : List A → Type 0
  Ordered [] = Unit
  Ordered (x ∷ []) = Unit
  Ordered (x ∷ y ∷ ys) = (less y x ≡ false) × Ordered (y ∷ ys)

  pub sort-Ordered_id : (xs : List A) → Ordered xs → stable_sort xs ≡ xs
  unfolding stable_sort insert_sorted
  sort-Ordered_id [] h = refl
  sort-Ordered_id (x ∷ []) h = refl
  sort-Ordered_id (x ∷ y ∷ ys) h = rw (sort-Ordered_id (y ∷ ys) h.1) (rw h.0)

  insert-perm : (x : A) (xs : List A) → Perm (insert_sorted x xs) (x ∷ xs)
  unfolding insert_sorted
  insert-perm x [] = Perm.refl (x ∷ [])
  insert-perm x (y ∷ ys) = elim (Bool-cases (less y x)) [
    | inl e ↦ rw e (Perm.trans (Perm.cons y (insert-perm x ys)) (Perm.swap x y ys))
    | inr e ↦ rw e (Perm.refl (x ∷ y ∷ ys))
  ]

  pub sort-perm : (xs : List A) → Perm (stable_sort xs) xs
  unfolding stable_sort
  sort-perm [] = Perm.refl []
  sort-perm (x ∷ xs) = Perm.trans (insert-perm x (stable_sort xs)) (Perm.cons x (sort-perm xs))

  module _ (asym : (x y : A) → less x y ≡ true → less y x ≡ false) where
    insert-Ordered : (x : A) (xs : List A) → Ordered xs → Ordered (insert_sorted x xs)
    unfolding insert_sorted
    insert-Ordered x [] h = tt
    insert-Ordered x (y ∷ []) h = ground (arith, asym y x)
    insert-Ordered x (y ∷ z ∷ ys) h = ground (arith, asym y x, insert-Ordered x (z ∷ ys) h.1)

    pub sort-Ordered : (xs : List A) → Ordered (stable_sort xs)
    unfolding stable_sort
    sort-Ordered [] = tt
    sort-Ordered (x ∷ xs) = insert-Ordered x (stable_sort xs) (sort-Ordered xs)

  module _ (negtrans : (x y z : A) → less y x ≡ false → less z y ≡ false → less z x ≡ false) where
    pub none_less : (x : A) (xs : List A) → Ordered (x ∷ xs) → All (λ y. less y x ≡ false) xs
    none_less x [] h = tt
    none_less x (y ∷ ys) h = (h.0, All-weaken (λ z k. negtrans x y z h.0 k) ys (none_less y ys h.1))

    pub Ordered-tail : (x : A) (xs : List A) → Ordered (x ∷ xs) → Ordered xs
    Ordered-tail x [] h = tt
    Ordered-tail x (y ∷ ys) h = h.1

    -- nothing behind a cut of an ordered list is less than something before it
    pub Ordered-cut :
        (n : ℕ) (xs : List A)
        → Ordered xs
        → All (λ x. All (λ y. less y x ≡ false) (drop n xs)) (take n xs)
    Ordered-cut zero xs h = tt
    Ordered-cut (suc n) [] h = tt
    Ordered-cut (suc n) (x ∷ xs) h =
        (All-drop _ n xs (none_less x xs h), Ordered-cut n xs (Ordered-tail x xs h))

  pub Ordered-take : (n : ℕ) (xs : List A) → Ordered xs → Ordered (take n xs)
  Ordered-take zero xs h = tt
  Ordered-take (suc n) [] h = tt
  Ordered-take (suc zero) (x ∷ xs) h = tt
  Ordered-take (suc (suc n)) (x ∷ []) h = tt
  Ordered-take (suc (suc n)) (x ∷ y ∷ ys) h = (h.0, Ordered-take (suc n) (y ∷ ys) h.1)

  module _ {κ} (P : A → Type κ) where
    pub All-insert : (x : A) (xs : List A) → P x → All P xs → All P (insert_sorted x xs)
    unfolding insert_sorted
    All-insert x [] px h = (px, tt)
    All-insert x (y ∷ ys) px h = elim (Bool-cases (less y x)) [
      | inl e ↦ rw e (h.0, All-insert x ys px h.1)
      | inr e ↦ rw e (px, h)
    ]

    pub All-sort : (xs : List A) → All P xs → All P (stable_sort xs)
    unfolding stable_sort
    All-sort [] h = tt
    All-sort (x ∷ xs) h = All-insert x (stable_sort xs) h.0 (All-sort xs h.1)

-- what holds of all elements of a sorted list holds of those of the list
All-insert_sorted :
    {A : Type 0} (P : A → Type 0) (less : A → A → Bool) (x : A) (xs : List A)
    → All P (insert_sorted less x xs)
    → P x × All P xs
unfolding insert_sorted
All-insert_sorted P less x [] h = h
All-insert_sorted P less x (y ∷ ys) h = elim (Bool-cases (less y x)) [
  | inl e ↦
      let k = rw e at h in let (px, rest) = All-insert_sorted P less x ys k.1 in (px, (k.0, rest))
  | inr e ↦ rw e at h
]

pub All-stable_sort :
    {A : Type 0} (P : A → Type 0) (less : A → A → Bool) (xs : List A)
    → All P (stable_sort less xs)
    → All P xs
unfolding stable_sort
All-stable_sort P less [] h = tt
All-stable_sort P less (x ∷ xs) h =
    let (px, rest) = All-insert_sorted P less x (stable_sort less xs) h in
    (px, All-stable_sort P less xs rest)
