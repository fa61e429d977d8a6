-- ===== src/Base/Sort/Select.antt =====
-- Sorting and selecting commute, and a sort by a strict order gives a list that pages can be cut from.
use el_backend.Base.Lists.{All, All-weaken, All-filter, filter}
use el_backend.Base.Tests.{Bool-cases}
use el_backend.Base.Sort.{
  insert_sorted, stable_sort, Ordered, sort-Ordered, Ordered-tail, none_less, All-sort, All-insert,
}
use el_backend.Base.Paging.{Rising, Front}
use mathlib.Core.Path.{◌≡◌, refl, sym, ap, ◌∙◌}
use mathlib.Core.Logic.{inl, inr}
use mathlib.Core.Bool.{Bool, true, false}
use mathlib.Core.List.{List, [], ◌∷◌}
use native.Mathlib.Omega.{arith}

module _ {A : Type 0} (less : A → A → Bool) where
  insert_first :
      (p : A → Bool) (x : A) (ys : List A)
      → All (λ y. less y x ≡ false) ys
      → insert_sorted less x (filter p ys) ≡ x ∷ filter p ys
  unfolding insert_sorted
  insert_first p x [] h = refl
  insert_first p x (y ∷ ys) h = elim (Bool-cases (p y)) [
    | inl e ↦ rw (e, h.0) refl
    | inr e ↦ rw e (insert_first p x ys h.1)
  ]

  module _ (asym : (x y : A) → less x y ≡ true → less y x ≡ false)
      (negtrans : (x y z : A) → less y x ≡ false → less z y ≡ false → less z x ≡ false) where
    filter-insert :
        (p : A → Bool) (x : A) (ys : List A)
        → Ordered less ys
        → p x ≡ true
        → filter p (insert_sorted less x ys) ≡ insert_sorted less x (filter p ys)
    unfolding insert_sorted
    filter-insert p x [] h e = rw e refl
    filter-insert p x (y ∷ ys) h e = elim (Bool-cases (less y x)) [
      | inl l ↦
          let ih = filter-insert p x ys (Ordered-tail less negtrans y ys h) e in
          elim (Bool-cases (p y)) [ inl k ↦ rw (l, k, l) (ap (◌∷◌ y) ih) | inr k ↦ rw (l, k) ih ]
      | inr l ↦
          let none = All-weaken (λ z m. negtrans x y z l m) ys (none_less less negtrans y ys h) in
          rw (l, e) (sym (insert_first p x (y ∷ ys) (l, none)))
    ]

    filter-insert_ne :
        (p : A → Bool) (x : A) (ys : List A)
        → p x ≡ false
        → filter p (insert_sorted less x ys) ≡ filter p ys
    unfolding insert_sorted
    filter-insert_ne p x [] e = rw e refl
    filter-insert_ne p x (y ∷ ys) e = ground (arith, filter-insert_ne p x ys e)

    pub filter-sort :
        (p : A → Bool) (xs : List A)
        → stable_sort less (filter p xs) ≡ filter p (stable_sort less xs)
    unfolding stable_sort
    filter-sort p [] = refl
    filter-sort p (x ∷ xs) = elim (Bool-cases (p x)) [
      | inl e ↦ rw e (
          ap (insert_sorted less x) (filter-sort p xs)
          ∙ sym (filter-insert p x (stable_sort less xs) (sort-Ordered less asym xs) e))
      | inr e ↦ rw e (filter-sort p xs ∙ sym (filter-insert_ne p x (stable_sort less xs) e))
    ]

abbrev pub Pairwise : {A : Type 0} → (A → A → Type 0) → List A → Type 0
Pairwise R [] = Unit
Pairwise R (x ∷ xs) = All (R x) xs × Pairwise R xs

pub Pairwise-filter :
    {A : Type 0} (R : A → A → Type 0) (p : A → Bool) (xs : List A)
    → Pairwise R xs
    → Pairwise R (filter p xs)
Pairwise-filter R p [] h = tt
Pairwise-filter R p (x ∷ xs) h = elim (Bool-cases (p x)) [
  | inl e ↦ rw e (All-filter (R x) p xs h.0, Pairwise-filter R p xs h.1)
  | inr e ↦ rw e (Pairwise-filter R p xs h.1)
]

module _ {A K : Type 0} (key : A → K) (behind : K → A → Bool) (less : A → A → Bool) (P : A → Type 0)
    (Apart : A → A → Type 0) (agree : (x y : A) → P x → P y → behind (key x) y ≡ less x y)
    (asym : (x y : A) → less x y ≡ true → less y x ≡ false)
    (trans : (x y z : A) → less x y ≡ true → less y z ≡ true → less x z ≡ true)
    (total : (x y : A) → Apart x y → less y x ≡ false → less x y ≡ true) where
  irrefl : (x : A) → less x x ≡ false
  irrefl x = elim (Bool-cases (less x x)) [ inl e ↦ asym x x e | inr e ↦ e ]

  -- from the values of `less` to those of `behind`
  Front-intro :
      (x : A) (ys : List A) → P x → All P ys → All (λ y. less x y ≡ true) ys → Front key behind x ys
  Front-intro x ys px ps h = record {
    self = agree x x px px ∙ irrefl x;
    later = first ys ps h;
    earlier = second ys ps h;
  }
    where
      first :
          (zs : List A)
          → All P zs
          → All (λ y. less x y ≡ true) zs
          → All (λ y. behind (key x) y ≡ true) zs
      first [] ps h = tt
      first (z ∷ zs) ps h = (agree x z px ps.0 ∙ h.0, first zs ps.1 h.1)

      second :
          (zs : List A)
          → All P zs
          → All (λ y. less x y ≡ true) zs
          → All (λ y. behind (key y) x ≡ false) zs
      second [] ps h = tt
      second (z ∷ zs) ps h = (agree z x ps.0 px ∙ asym x z h.0, second zs ps.1 h.1)

  -- strictly ordered: every element comes before all later ones
  abbrev Strict : List A → Type 0
  Strict = Pairwise (λ x y. less x y ≡ true)

  insert-Strict :
      (x : A) (ys : List A) → All (Apart x) ys → Strict ys → Strict (insert_sorted less x ys)
  unfolding insert_sorted
  insert-Strict x [] a s = (tt, tt)
  insert-Strict x (y ∷ ys) a s = elim (Bool-cases (less y x)) [
    | inl e ↦ rw e (All-insert less _ x ys e s.0, insert-Strict x ys a.1 s.1)
    | inr e ↦ let l = total x y a.0 e in rw e ((l, All-weaken (λ z m. trans x y z l m) ys s.0), s)
  ]

  sort-Strict : (xs : List A) → Pairwise Apart xs → Strict (stable_sort less xs)
  unfolding stable_sort
  sort-Strict [] d = tt
  sort-Strict (x ∷ xs) d =
      insert-Strict x (stable_sort less xs) (All-sort less _ xs d.0) (sort-Strict xs d.1)

  Strict-Rising : (ys : List A) → All P ys → Strict ys → Rising key behind ys
  Strict-Rising [] ps s = tt
  Strict-Rising (y ∷ ys) ps s = (Front-intro y ys ps.0 ps.1 s.0, Strict-Rising ys ps.1 s.1)

  pub sort-Rising :
      (xs : List A) → Pairwise Apart xs → All P xs → Rising key behind (stable_sort less xs)
  sort-Rising xs d ps =
      Strict-Rising (stable_sort less xs) (All-sort less P xs ps) (sort-Strict xs d)
