-- ===== src/Tests/Feed.antt =====
-- Runs of the home page: three content items of two levels, one in progress, one completed.
use el_backend.Base.Sort.{insert_sorted, stable_sort}
use el_backend.Home.Disjoint.{continued_not_recommended}
use el_backend.Home.Preferred.{home_order_independent}
use el_backend.Base.Int.{ℤ, pos}
use el_backend.Home.Defs.{
  needs_grammar_practice, below_four_fifths, grammar_sums, preferred_from, beats, text_lt,
  activity_of, bump, flag, put_flag, by_id, scan_found, scan_known, start, scan_item, scan_progress,
  Row,
}
use el_backend.Text.{text_eq, codes, Text}
use el_backend.Identity.Schema.{LearningProgress}
use el_backend.Home.Ranking.{recommended-IsBest, IsBest, Candidates}
use el_backend.Home.Exclusion.{completed_excluded, Spares}
use el_backend.Base.{
  ◌≢◌, All, refl, arith, some, ◌≤◌, ◌++◌, map, Bool, false, ◌∷◌, [], true, ℕ, ◌≡◌, length, List,
}
use el_backend.Home.Sections.{
  ranks_before, rank, add_grammar, add_vocabulary, add_level, contains_string, Ranked, rank_all,
  recommended, Taste, personalized_home_sections,
}
use el_backend.Text.Ascii.{ascii}
use mathlib.Core.List.{Perm}
use mathlib.Core.List.Perm

abbrev row : ℕ → Text → ℤ → Row
row id level score = record {
  id = id;
  level = some level;
  released_at = some id;
  metadata = record { quality_score = score; learning_goals = [] };
}

abbrev contents : List Row
contents =
    row 1 (codes "a1") (pos 40)
    ∷ row 2 (codes "b1") (pos 90)
    ∷ row 3 (codes "b1") (pos 50)
    ∷ row 4 (codes "a1") (pos 99)
    ∷ []

abbrev progress_of : ℕ → ℕ → Bool → LearningProgress
progress_of id position completed = record {
  user_id = 7;
  content_id = id;
  position_seconds = pos position;
  completed = completed;
  client_updated_at = 0;
  server_updated_at = 0;
}

abbrev in_progress : LearningProgress
in_progress = progress_of 1 30 false

abbrev finished : LearningProgress
finished = progress_of 2 0 true

abbrev all_progress : List LearningProgress
all_progress = in_progress ∷ finished ∷ []

abbrev taste : Taste
taste = record {
  preferred_level = codes "b1";
  vocabulary_count = 0;
  needs_grammar_practice = false;
}

feed : Unit {0}
unfolding personalized_home_sections scan_progress scan_item scan_known scan_found by_id put_flag
    flag bump activity_of text_lt beats preferred_from grammar_sums below_four_fifths
    needs_grammar_practice contains_string add_level add_vocabulary add_grammar rank rank_all
    ranks_before recommended stable_sort insert_sorted text_eq
feed = tt

swapped : List Text → List Text
unfolding feed
swapped = λ l. elim l [ [] ↦ [] | ◌∷◌ x xs ↦ xs ++ x ∷ [] ]

snoc-perm : (x : Text) (xs : List Text) → Perm (xs ++ x ∷ []) (x ∷ xs)
snoc-perm x [] = Perm.refl (x ∷ [])
snoc-perm x (y ∷ xs) = Perm.trans (Perm.cons y (snoc-perm x xs)) (Perm.swap x y xs)

swapped-perm : (l : List Text) → Perm (swapped l) l
unfolding feed swapped
swapped-perm [] = Perm.refl []
swapped-perm (x ∷ xs) = snoc-perm x xs

ids : List (List ℕ)
unfolding feed
ids =
    map (λ s. map (λ i. i.row.id) s.items)
      (personalized_home_sections (λ l. l) contents all_progress [] 0)

ids_run : ids ≡ (1 ∷ []) ∷ (4 ∷ 3 ∷ []) ∷ (1 ∷ 2 ∷ 3 ∷ 4 ∷ []) ∷ []
unfolding ids
ids_run = refl

home_order_independent_example :
    personalized_home_sections (λ l. l) contents all_progress [] 0
    ≡ personalized_home_sections swapped contents all_progress [] 0
home_order_independent_example =
    home_order_independent (λ l. l) swapped (λ l. Perm.refl l) swapped-perm contents all_progress []
      0

recommended-IsBest_example :
    (candidates : List Ranked) × Candidates taste start 0 contents candidates
    × IsBest (recommended taste start contents) candidates
recommended-IsBest_example = recommended-IsBest taste start contents

completed_excluded_example :
    Spares 2 (personalized_home_sections (λ l. l) contents all_progress [] 0)
completed_excluded_example =
    completed_excluded (λ l. l) contents (in_progress ∷ []) [] finished [] 0 refl (omega arith, tt)
      tt

continued_not_recommended_example :
    (length (scan_progress contents all_progress start).continue_items ≤ 5)
    × All
        (λ i.
          All
            (λ r. r.row.id ≢ i.row.id)
            (recommended taste (scan_progress contents all_progress start) contents))
        (scan_progress contents all_progress start).continue_items
continued_not_recommended_example = continued_not_recommended taste contents all_progress
