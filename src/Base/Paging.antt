-- ===== src/Base/Paging.antt =====
-- Keyset paging: a page is a cut of the rows behind a key, and the next page starts behind the key of
-- its last row. Following the keys while pages are full collects every row behind the first one.
use el_backend.Base.Lists.{
  length, take, drop, filter, All, All-filter, filter-passes, filter-filter, length-append,
  take-append-drop,
}
use el_backend.Base.Tests.{Bool-cases}
use Prim.Native.Nat.{ℕ, zero, suc, ◌<◌}
use mathlib.Core.Path.{◌≡◌, refl, sym, ap, ◌∙◌}
use mathlib.Core.Logic.{◌≢◌, inl, inr}
use mathlib.Core.Bool.{Bool, true, false}
use mathlib.Core.List.{List, [], ◌∷◌}
use native.Mathlib.Omega.{arith}

pub take_short {ℓ} : {A : Type ℓ} (n : ℕ) (xs : List A) → length (take n xs) ≢ n → take n xs ≡ xs
take_short zero xs h = absurd (h refl)
take_short (suc n) [] h = refl
take_short (suc n) (x ∷ xs) h = ap (◌∷◌ x) (take_short n xs (λ e. h (ap suc e)))

pub length-drop-lt {ℓ} :
    {A : Type ℓ} (n fuel : ℕ) (xs : List A)
    → 0 < n
    → length (take n xs) ≡ n
    → length xs < suc fuel
    → length (drop n xs) < fuel
length-drop-lt n fuel xs pos full h =
    omega (arith, ap length (take-append-drop n xs), length-append (take n xs) (drop n xs))

module _ {A K : Type 0} (key : A → K) (behind : K → A → Bool) where
  -- the key of the last row, or the one given
  unfoldable pub last_key : K → List A → K
  last_key k [] = k
  last_key k (x ∷ xs) = last_key (key x) xs

  -- every row is behind the rows before it, and none is behind a later one or itself
  pub record Front (x : A) (xs : List A) : Type 0 where
    pub self : behind (key x) x ≡ false
    pub later : All (λ y. behind (key x) y ≡ true) xs
    pub earlier : All (λ y. behind (key y) x ≡ false) xs

  abbrev pub Rising : List A → Type 0
  Rising [] = Unit
  Rising (x ∷ xs) = Front x xs × Rising xs

  filter_all : (p : A → Bool) (xs : List A) → All (λ y. p y ≡ true) xs → filter p xs ≡ xs
  filter_all p [] h = refl
  filter_all p (x ∷ xs) h = rw h.0 (ap (◌∷◌ x) (filter_all p xs h.1))

  -- the last key of a page with a row is the key of one of its rows
  last_key-rejects :
      (p : K → Bool) (k : K) (n : ℕ) (xs : List A)
      → p k ≡ false
      → All (λ y. p (key y) ≡ false) xs
      → p (last_key k (take n xs)) ≡ false
  unfolding last_key
  last_key-rejects p k zero xs h a = h
  last_key-rejects p k (suc n) [] h a = h
  last_key-rejects p k (suc n) (x ∷ xs) h a = last_key-rejects p (key x) n xs a.0 a.1

  -- what is behind the last row of a page is what the page has cut off
  pub behind_page :
      (k : K) (n : ℕ) (xs : List A)
      → Rising xs
      → All (λ y. behind k y ≡ true) xs
      → filter (behind (last_key k (take n xs))) xs ≡ drop n xs
  unfolding last_key
  behind_page k zero xs r h = filter_all (behind k) xs h
  behind_page k (suc n) [] r h = refl
  behind_page k (suc n) (x ∷ xs) (f, r) h =
      rw (last_key-rejects (λ j. behind j x) (key x) n xs f.self f.earlier)
        (behind_page (key x) n xs r f.later)

  module _
      (trans : (k : K) (x y : A)
        → behind k x ≡ true
        → behind (key x) y ≡ true
        → behind k y ≡ true) where
    Front-filter : (p : A → Bool) (x : A) (xs : List A) → Front x xs → Front x (filter p xs)
    Front-filter p x xs f = record {
      self = f.self;
      later = All-filter _ p xs f.later;
      earlier = All-filter _ p xs f.earlier;
    }

    Rising-filter : (p : A → Bool) (xs : List A) → Rising xs → Rising (filter p xs)
    Rising-filter p [] r = tt
    Rising-filter p (x ∷ xs) (f, r) = elim (Bool-cases (p x)) [
      | inl e ↦ rw e (Front-filter p x xs f, Rising-filter p xs r)
      | inr e ↦ rw e (Rising-filter p xs r)
    ]

    -- a row behind the last row of a page from `k` is behind `k`
    behind-last_key :
        (k : K) (n : ℕ) (xs : List A) (y : A)
        → Rising xs
        → All (λ x. behind k x ≡ true) xs
        → behind (last_key k (take n xs)) y ≡ true
        → behind k y ≡ true
    unfolding last_key
    behind-last_key k zero xs y r a h = h
    behind-last_key k (suc n) [] y r a h = h
    behind-last_key k (suc n) (x ∷ xs) y (f, r) a h =
        trans k x y a.0 (behind-last_key (key x) n xs y r f.later h)

    -- the rows behind the last row of a page are those that the page has cut off
    pub page_rest :
        (k : K) (n : ℕ) (xs : List A)
        → Rising xs
        → filter (behind (last_key k (take n (filter (behind k) xs)))) xs
          ≡ drop n (filter (behind k) xs)
    page_rest k n xs r =
        let rows = filter (behind k) xs in
        let rising = Rising-filter (behind k) xs r in
        let passes = filter-passes (behind k) xs in
        sym (
          filter-filter (behind k) (behind (last_key k (take n rows))) xs
            (λ y. behind-last_key k n rows y rising passes))
        ∙ behind_page k n rows rising passes
