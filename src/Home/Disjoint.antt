-- ===== src/Home/Disjoint.antt =====
-- What the user is offered to continue is not recommended once more.
use el_backend.Home.Ranking.{row-rank}
use el_backend.Base.Sort.{All-sort}
use el_backend.Home.Scan.{scan_progress-IsConsistent}
use el_backend.Identity.Schema.{LearningProgress}
use el_backend.Home.Defs.{start, scan_progress, flag, Scan, Row}
use el_backend.Base.{
  [], inr, ◌+◌, inl, Bool-cases, All-take, ap, All-weaken, false, arith, ◌∷◌, ◌≢◌, ◌≤◌, length, All,
  true, ◌≡◌, List, ℕ,
}
use el_backend.Home.Sections.{ranks_before, skipped, Taste, recommended, rank_all}

rank_all-continued :
    (taste : Taste) (c : ℕ) (s : Scan) (index : ℕ) (rows : List Row)
    → flag c s.continued ≡ true
    → All (λ r. r.row.id ≢ c) (rank_all taste s index rows)
unfolding rank_all
rank_all-continued taste c s index [] h = tt
rank_all-continued taste c s index (row ∷ rows) h = elim (Bool-cases (skipped s row)) [
  | inl e ↦ rw e (rank_all-continued taste c s (index + 1) rows h)
  | inr e ↦ rw e (
    rw (row-rank taste index row) (λ x. not_skipped x e),
    rank_all-continued taste c s (index + 1) rows h,
  )
]
  where
    not_skipped : row.id ≡ c → skipped s row ≡ false → ⊥
    not_skipped x e = ground (arith, ap (λ k. flag k s.continued) x)

-- At most five items are offered for continuing, and none of them is for a content item that is
-- recommended too.
pub continued_not_recommended :
    (taste : Taste) (contents : List Row) (progress : List LearningProgress)
    → (length (scan_progress contents progress start).continue_items ≤ 5)
      × All
          (λ i.
            All
              (λ r. r.row.id ≢ i.row.id)
              (recommended taste (scan_progress contents progress start) contents))
          (scan_progress contents progress start).continue_items
unfolding recommended
continued_not_recommended taste contents progress =
    let s = scan_progress contents progress start in
    let kept =
      scan_progress-IsConsistent contents progress start
        (record { marked = tt; short = omega arith }) in
    (
      kept.short,
      All-weaken
          (λ i marked. All-take _ 10 _ (
            All-sort ranks_before _ (rank_all taste s 0 contents)
              (rank_all-continued taste i.row.id s 0 contents marked)))
          s.continue_items kept.marked,
    )
