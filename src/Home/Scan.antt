-- ===== src/Home/Scan.antt =====
-- The loop over the progress rows: its maps, and what it keeps true of the continued items.
use el_backend.Base.Int.{pos, ltb_ℤ}
use el_backend.Base.{
  Option-cases, length-append, All-weaken, All-append, inr, inl, refl, [], ◌∷◌, not, ◌≤◌, ◌==◌,
  length, arith, ◌||◌, some, true, if◌then◌else◌, Bool-cases, Bool, List, ◌≡◌, ℕ, All,
}
use el_backend.Identity.Schema.{LearningProgress}
use el_backend.Home.Defs.{
  continue_learning, scan_known, scan_item, scan_progress, Row, put_flag, scan_found, Scan, by_id,
  flag,
}

pub flag-put :
    (k j : ℕ) (v : Bool) (m : List (ℕ × Bool))
    → flag k (put_flag j v m) ≡ (if j == k then v else flag k m)
unfolding flag put_flag
flag-put k j v [] = refl
flag-put k j v ((i, w) ∷ m) = ground (arith, flag-put k j v m)

flag-put_true :
    (k j : ℕ) (m : List (ℕ × Bool)) → flag k m ≡ true → flag k (put_flag j true m) ≡ true
flag-put_true k j m h = ground (arith, flag-put k j true m)

flag-put_self : (j : ℕ) (m : List (ℕ × Bool)) → flag j (put_flag j true m) ≡ true
flag-put_self j m = ground (arith, flag-put j j true m)

pub id-by_id : (id : ℕ) (rows : List Row) (r : Row) → by_id id rows ≡ some r → r.id ≡ id
unfolding by_id
id-by_id id [] r h = absurd (ground arith)
id-by_id id (x ∷ rows) r h = ground (arith, id-by_id id rows r)

-- the list of continued items has an entry in `continued` for each, and five items at most
pub record IsConsistent (s : Scan) : Type 0 where
  pub marked : All (λ i. flag i.row.id s.continued ≡ true) s.continue_items
  pub short : length s.continue_items ≤ 5

scan_found-IsConsistent :
    (item : LearningProgress) (row : Row) (s : Scan)
    → IsConsistent s
    → IsConsistent (scan_found item row s)
unfolding scan_found
scan_found-IsConsistent item row s h =
    elim (Bool-cases (
      item.completed
      || not (ltb_ℤ (pos 0) item.position_seconds)
      || length s.continue_items == 5)) [
        | inl e ↦ rw e (record { marked = h.marked; short = h.short })
        | inr e ↦ rw e (record {
          marked =
              All-append _ s.continue_items (_ ∷ [])
                (All-weaken (λ i k. flag-put_true i.row.id row.id s.continued k) _ h.marked)
                (flag-put_self row.id s.continued, tt);
          short = ground (
            arith,
            length-append s.continue_items (record { row = row; reason = continue_learning } ∷ []),
          );
        })
      ]

scan_item-IsConsistent :
    (contents : List Row) (s : Scan) (item : LearningProgress)
    → IsConsistent s
    → IsConsistent (scan_item contents s item)
unfolding scan_item scan_known
scan_item-IsConsistent contents s item h =
    let marked = record s { completed = put_flag item.content_id item.completed s.completed } in
    let kept : IsConsistent marked = record { marked = h.marked; short = h.short } in
    elim (Option-cases (by_id item.content_id contents)) [
      | inl e ↦ rw e kept
      | inr (row, e) ↦ rw e (scan_found-IsConsistent item row marked kept)
    ]

pub scan_progress-IsConsistent :
    (contents : List Row) (ps : List LearningProgress) (s : Scan)
    → IsConsistent s
    → IsConsistent (scan_progress contents ps s)
unfolding scan_progress
scan_progress-IsConsistent contents [] s h = h
scan_progress-IsConsistent contents (p ∷ ps) s h =
    scan_progress-IsConsistent contents ps (scan_item contents s p)
      (scan_item-IsConsistent contents s p h)
