-- ===== src/Home/Exclusion.antt =====
-- What a user has completed is offered neither for continuing nor as recommended.
use el_backend.Home.Scan.{flag-put, id-by_id}
use el_backend.Base.Sort.{All-sort}
use el_backend.Home.Ranking.{row-rank}
use el_backend.Text.{Text}
use el_backend.Home.Sections.{
  ranks_before, summary, for_you, continue_section, taste_of, section, skipped, recommended, Taste,
  latest, Section, personalized_home_sections, SectionId, rank_all,
}
use el_backend.Base.Int.{pos, ltb_ℤ}
use el_backend.Base.{
  All-take, All-map, map, ◌+◌, false, ap, ◌∙◌, sym, ◌++◌, Option-cases, ◌≢◌, All-append, ◌⊎◌, inr,
  inl, refl, [], ◌∷◌, not, ◌==◌, length, arith, ◌||◌, some, true, if◌then◌else◌, Bool-cases, List,
  ◌≡◌, ℕ, All,
}
use el_backend.Identity.Schema.{GrammarAttempt, LearningProgress}
use el_backend.Home.Defs.{
  Summary, start, scan_known, scan_item, scan_progress, Row, put_flag, scan_found, Scan, by_id,
  flag,
}

module _ (c : ℕ) (contents : List Row) where
  abbrev Lacks : Scan → Type 0
  Lacks s = All (λ i. i.row.id ≢ c) s.continue_items

  scan_found-Lacks :
      (item : LearningProgress) (row : Row) (s : Scan)
      → (item.completed ≡ true) ⊎ (row.id ≢ c)
      → Lacks s
      → Lacks (scan_found item row s) × ((scan_found item row s).completed ≡ s.completed)
  unfolding scan_found
  scan_found-Lacks item row s (inl e) h = rw e (h, refl)
  scan_found-Lacks item row s (inr n) h =
      elim (Bool-cases (
        item.completed
        || not (ltb_ℤ (pos 0) item.position_seconds)
        || length s.continue_items == 5)) [
          | inl e ↦ rw e (h, refl)
          | inr e ↦ rw e (All-append _ s.continue_items (_ ∷ []) h (n, tt), refl)
        ]

  scan_item-Lacks :
      (s : Scan) (item : LearningProgress)
      → (item.completed ≡ true) ⊎ (item.content_id ≢ c)
      → Lacks s
      → Lacks (scan_item contents s item)
        × (flag c (scan_item contents s item).completed
            ≡ (if item.content_id == c then item.completed else flag c s.completed))
  unfolding scan_item scan_known
  scan_item-Lacks s item h k =
      let marked = record s { completed = put_flag item.content_id item.completed s.completed } in
      let put = flag-put c item.content_id item.completed s.completed in
      elim (Option-cases (by_id item.content_id contents)) [
        | inl e ↦ rw e (k, put)
        | inr (row, e) ↦
            let (a, b) = scan_found-Lacks item row marked (side row e h) k in
            rw e (a, ap (flag c) b ∙ put)
      ]
    where
      side :
          (row : Row)
          → by_id item.content_id contents ≡ some row
          → (item.completed ≡ true) ⊎ (item.content_id ≢ c)
          → (item.completed ≡ true) ⊎ (row.id ≢ c)
      side row e (inl x) = inl x
      side row e (inr n) = inr (λ x. n (sym (id-by_id item.content_id contents row e) ∙ x))

  -- rows of other content items change nothing for `c`
  others-Lacks :
      (ps : List LearningProgress) (s : Scan)
      → All (λ q. q.content_id ≢ c) ps
      → Lacks s
      → Lacks (scan_progress contents ps s)
        × (flag c (scan_progress contents ps s).completed ≡ flag c s.completed)
  unfolding scan_progress
  others-Lacks [] s h k = (k, refl)
  others-Lacks (p ∷ ps) s h k =
      let (a, b) = scan_item-Lacks s p (inr h.0) k in
      let (x, y) = others-Lacks ps (scan_item contents s p) h.1 a in (x, ground (arith, y, b, h.0))

  scan-append :
      (xs ys : List LearningProgress) (s : Scan)
      → scan_progress contents (xs ++ ys) s
        ≡ scan_progress contents ys (scan_progress contents xs s)
  unfolding scan_progress
  scan-append [] ys s = refl
  scan-append (x ∷ xs) ys s = scan-append xs ys (scan_item contents s x)

  completed-Lacks :
      (older newer : List LearningProgress) (p : LearningProgress)
      → p.content_id ≡ c
      → p.completed ≡ true
      → All (λ q. q.content_id ≢ c) older
      → All (λ q. q.content_id ≢ c) newer
      → Lacks (scan_progress contents (older ++ p ∷ newer) start)
        × (flag c (scan_progress contents (older ++ p ∷ newer) start).completed ≡ true)
  unfolding scan_progress
  completed-Lacks older newer p at finished h k =
      let (a, b) = others-Lacks older start h tt in
      let before = scan_progress contents older start in
      let (x, y) = scan_item-Lacks before p (inl finished) a in
      let (v, w) = others-Lacks newer (scan_item contents before p) k x in
      rw (scan-append older (p ∷ newer) start) (v, ground (arith, w, y))

rank_all-Lacks :
    (taste : Taste) (c : ℕ) (s : Scan) (index : ℕ) (rows : List Row)
    → flag c s.completed ≡ true
    → All (λ r. r.row.id ≢ c) (rank_all taste s index rows)
unfolding rank_all
rank_all-Lacks taste c s index [] h = tt
rank_all-Lacks taste c s index (row ∷ rows) h = elim (Bool-cases (skipped s row)) [
  | inl e ↦ rw e (rank_all-Lacks taste c s (index + 1) rows h)
  | inr e ↦ rw e (
    rw (row-rank taste index row) (λ x. not_skipped x e),
    rank_all-Lacks taste c s (index + 1) rows h,
  )
]
  where
    not_skipped : row.id ≡ c → skipped s row ≡ false → ⊥
    not_skipped x e = ground (arith, ap (λ k. flag k s.completed) x)

-- no item of the sections, the latest additions aside, is for the content item `c`
abbrev pub Spares : ℕ → List Section → Type 0
Spares c = All (λ x. (x.id ≡ latest) ⊎ All (λ i. i.row.id ≢ c) x.items)

section-Spares :
    (c : ℕ) (id : SectionId) (items : List Summary)
    → (id ≡ latest) ⊎ All (λ i. i.row.id ≢ c) items
    → Spares c (section id items)
section-Spares c id [] h = tt
section-Spares c id (i ∷ items) h = (h, tt)

-- A content item that the user has completed, by the only progress row that there is for it, is
-- neither offered for continuing nor recommended.
pub completed_excluded :
    (order : List Text → List Text) (contents : List Row) (older newer : List LearningProgress)
    (p : LearningProgress) (grammar : List GrammarAttempt) (vocabulary_count : ℕ)
    → p.completed ≡ true
    → All (λ q. q.content_id ≢ p.content_id) older
    → All (λ q. q.content_id ≢ p.content_id) newer
    → Spares p.content_id
        (personalized_home_sections order contents (older ++ p ∷ newer) grammar vocabulary_count)
unfolding personalized_home_sections recommended
completed_excluded order contents older newer p grammar vocabulary_count finished h k =
    let c = p.content_id in
    let s = scan_progress contents (older ++ p ∷ newer) start in
    let (a, b) = completed-Lacks c contents older newer p refl finished h k in
    let taste = taste_of (order (map (λ e. e.0) s.level_activity)) s grammar vocabulary_count in
    let candidates = rank_all-Lacks taste c s 0 contents b in
    All-append _ (section continue_section s.continue_items) _
      (section-Spares c continue_section _ (inr a))
      (All-append _ (section for_you (map summary (recommended taste s contents))) _
        (section-Spares c for_you _ (
          inr (
            All-map _ summary _ (
              All-take _ 10 _ (All-sort ranks_before _ (rank_all taste s 0 contents) candidates)))))
        (section-Spares c latest _ (inl refl)))
