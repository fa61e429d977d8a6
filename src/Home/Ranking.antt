-- ===== src/Home/Ranking.antt =====
-- The recommended items are the best ten of the candidates.
use el_backend.Home.Score.{ranks_before-false, Scored, Better, rank-Scored}
use el_backend.Base.Sort.{
  Ordered-tail, none_less, Ordered, Ordered-cut, Ordered-take, sort-perm, sort-Ordered, stable_sort,
}
use el_backend.Home.Defs.{Row, Scan}
use mathlib.Core.List.{Perm}
use el_backend.Base.{
  zero, ap, suc, take, All-weaken, ◌⊎◌, All, inr, ◌+◌, ◌≤◌, length, inl, ◌++◌, Bool-cases,
  length-take-le, take-append-drop, sym, subst, drop, refl, [], ◌∷◌, List, arith, true, false, ◌≡◌,
  ℕ,
}
use el_backend.Home.Sections.{rank, skipped, Taste, recommended, rank_all, Ranked, ranks_before}

ranks_before_asym : (a b : Ranked) → ranks_before a b ≡ true → ranks_before b a ≡ false
unfolding ranks_before
ranks_before_asym a b h = ground arith

ranks_before_negtrans :
    (x y z : Ranked)
    → ranks_before y x ≡ false
    → ranks_before z y ≡ false
    → ranks_before z x ≡ false
unfolding ranks_before
ranks_before_negtrans x y z h k = ground arith

-- nobody is better than one before it
abbrev pub BestFirst : List Ranked → Type 0
BestFirst [] = Unit {0}
BestFirst (x ∷ xs) = All (λ y. ¬ Better y x) xs × BestFirst xs

-- `chosen` are the best ten of the candidates, the best first
pub record IsBest (chosen candidates : List Ranked) : Type 0 where
  pub rest : List Ranked
  pub all_of_them : Perm (chosen ++ rest) candidates
  pub at_most : length chosen ≤ 10
  pub enough : (length chosen ≡ 10) ⊎ (rest ≡ [])
  pub in_order : BestFirst chosen
  pub none_better : All (λ x. All (λ y. ¬ Better y x) rest) chosen

-- the candidates are the published rows that the user neither completed nor has in progress, each
-- with its score
pub data Candidates (taste : Taste) (s : Scan) : ℕ → List Row → List Ranked → Type 0 where
  end : (index : ℕ) → Candidates taste s index [] []
  left_out :
      (index : ℕ) (row : Row) (rows : List Row) (rs : List Ranked)
      → skipped s row ≡ true
      → Candidates taste s (index + 1) rows rs
      → Candidates taste s index (row ∷ rows) rs
  ranked :
      (index : ℕ) (row : Row) (rows : List Row) (r : Ranked) (rs : List Ranked)
      → skipped s row ≡ false
      → Scored taste index row r
      → Candidates taste s (index + 1) rows rs
      → Candidates taste s index (row ∷ rows) (r ∷ rs)

pub row-rank : (taste : Taste) (index : ℕ) (row : Row) → (rank taste index row).row ≡ row
unfolding rank
row-rank taste index row = ground arith

rank_all-Candidates :
    (taste : Taste) (s : Scan) (index : ℕ) (rows : List Row)
    → Candidates taste s index rows (rank_all taste s index rows)
unfolding rank_all
rank_all-Candidates taste s index [] = end index
rank_all-Candidates taste s index (row ∷ rows) = elim (Bool-cases (skipped s row)) [
  | inl e ↦
      rw (rank_all, e) (left_out index row rows _ e (rank_all-Candidates taste s (index + 1) rows))
  | inr e ↦
      rw (rank_all, e)
        (ranked index row rows _ _ e (rank-Scored taste index row)
          (rank_all-Candidates taste s (index + 1) rows))
]

Ordered-BestFirst : (xs : List Ranked) → Ordered ranks_before xs → BestFirst xs
Ordered-BestFirst [] h = tt
Ordered-BestFirst (x ∷ xs) h = (
  All-weaken (λ y. ranks_before-false y x) xs (none_less ranks_before ranks_before_negtrans x xs h),
  Ordered-BestFirst xs (Ordered-tail ranks_before ranks_before_negtrans x xs h),
)

take-enough : {A : Type 0} (n : ℕ) (xs : List A) → (length (take n xs) ≡ n) ⊎ (drop n xs ≡ [])
take-enough zero xs = inl refl
take-enough (suc n) [] = inr refl
take-enough (suc n) (x ∷ xs) = elim (take-enough n xs) [ inl e ↦ inl (ap suc e) | inr e ↦ inr e ]

-- The recommended items are ten of the candidates, or all where there are fewer, and no candidate is
-- better than one that is chosen before it or instead of it: none has a higher score, or the same
-- score and a later release, or both the same and a smaller id. The candidates are the rows that are
-- neither completed nor in the list of continued ones. Their score is the quality, from 0 to 100,
-- with up to 20 points for the place among the newest, 18 for the preferred level, two for each word
-- of the user, but 15 at most, where the content teaches vocabulary, and 30 where the user needs
-- grammar and the content teaches it.
pub recommended-IsBest :
    (taste : Taste) (s : Scan) (contents : List Row)
    → (candidates : List Ranked) × Candidates taste s 0 contents candidates
      × IsBest (recommended taste s contents) candidates
unfolding recommended
recommended-IsBest taste s contents =
    let candidates = rank_all taste s 0 contents in
    let sorted = stable_sort ranks_before candidates in
    let ordered = sort-Ordered ranks_before ranks_before_asym candidates in
    (
      candidates,
      rank_all-Candidates taste s 0 contents,
      record {
        rest = drop 10 sorted;
        all_of_them =
            subst (λ l. Perm l candidates) (sym (take-append-drop 10 sorted))
              (sort-perm ranks_before candidates);
        at_most = length-take-le 10 sorted;
        enough = take-enough 10 sorted;
        in_order = Ordered-BestFirst (take 10 sorted) (Ordered-take ranks_before 10 sorted ordered);
        none_better =
            All-weaken (λ x h. All-weaken (λ y. ranks_before-false y x) (drop 10 sorted) h)
              (take 10 sorted) (Ordered-cut ranks_before ranks_before_negtrans 10 sorted ordered);
      },
    )
