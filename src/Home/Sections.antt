-- ===== src/Home/Sections.antt =====
-- personalizedHomeSections: scoring, ranking and the sections of the page.
use el_backend.Identity.Schema.{LearningProgress, GrammarAttempt}
use el_backend.Base.Sort.{stable_sort}
use el_backend.Text.{codes, ascii_upper, Text, text_eq}
use el_backend.Home.Defs.{
  recently_added, start, vocabulary_rich, grammar_practice, high_quality, needs_grammar_practice,
  activity_of, matches_level, Reason, preferred_from, Row, flag, Summary, scan_progress, Scan,
}
use el_backend.Base.{
  ◌++◌, ◌*◌, true, ◌==◌, map, not, ◌-◌, min, none, ◌&&◌, ltb, [], take, ◌||◌, if◌then◌else◌, false,
  ◌+◌, ◌∷◌, some, ℕ, Option, Bool, List,
}
use el_backend.Base.Int.{negsuc, pos, ℤ}

-- parseRecommendationMetadata: min(100, max(0, score))
abbrev pub clamp_score : ℤ → ℕ
clamp_score (pos n) = min 100 n
clamp_score (negsuc n) = 0

-- strings.EqualFold against a word of ASCII letters without k and s, which fold to ASCII alone
abbrev pub fold_ascii : ℕ → ℕ
fold_ascii c = if ascii_upper c then c + 32 else c

unfoldable pub contains_string : List Text → Text → Bool
unfolding text_eq
contains_string [] expected = false
contains_string (v ∷ vs) expected =
    text_eq (map fold_ascii v) expected || contains_string vs expected

pub record Ranked : Type 0 where
  pub row : Row
  pub score : ℕ
  pub reason : Reason

-- what the scores depend on, besides the row and its index
pub record Taste : Type 0 where
  pub preferred_level : Text
  pub vocabulary_count : ℕ
  pub needs_grammar_practice : Bool

abbrev pub at_level : Text → Option Text → Bool
at_level preferred none = false
at_level preferred (some level) = not (text_eq preferred []) && text_eq level preferred

unfoldable pub add_level : Taste → Ranked → Ranked
unfolding text_eq
add_level taste r =
    if at_level taste.preferred_level r.row.level
    then record r { score = r.score + 18; reason = matches_level }
    else r

unfoldable pub add_vocabulary : Taste → Ranked → Ranked
unfolding contains_string
add_vocabulary taste r =
    if ltb 0 taste.vocabulary_count
      && contains_string r.row.metadata.learning_goals (codes "vocabulary")
    then record r {
      score = r.score + min 15 (taste.vocabulary_count * 2);
      reason = vocabulary_rich;
    }
    else r

unfoldable pub add_grammar : Taste → Ranked → Ranked
unfolding contains_string
add_grammar taste r =
    if taste.needs_grammar_practice
      && contains_string r.row.metadata.learning_goals (codes "grammar")
    then record r { score = r.score + 30; reason = grammar_practice }
    else r

unfoldable pub rank : Taste → ℕ → Row → Ranked
unfolding add_level add_vocabulary add_grammar
rank taste index row = add_grammar taste (
    add_vocabulary taste (
      add_level taste (record {
        row = row;
        score = clamp_score row.metadata.quality_score + (20 - index);
        reason = high_quality;
      })))

abbrev pub skipped : Scan → Row → Bool
skipped s row = flag row.id s.completed || flag row.id s.continued

unfoldable pub rank_all : Taste → Scan → ℕ → List Row → List Ranked
unfolding rank flag
rank_all taste s index [] = []
rank_all taste s index (row ∷ rows) =
    let rest = rank_all taste s (index + 1) rows in
    if skipped s row then rest else rank taste index row ∷ rest

-- the comparison of sort.SliceStable; the string of a uuid orders as its number
abbrev pub newer_first : Option ℕ → Option ℕ → Option Bool
newer_first none none = none
newer_first (some a) none = some true
newer_first none (some b) = some false
newer_first (some a) (some b) = if a == b then none else some (ltb b a)

abbrev pub or_else : Option Bool → Bool → Bool
or_else none b = b
or_else (some a) b = a

unfoldable pub ranks_before : Ranked → Ranked → Bool
ranks_before a b =
    if not (a.score == b.score)
    then ltb b.score a.score
    else or_else (newer_first a.row.released_at b.row.released_at) (ltb a.row.id b.row.id)

abbrev pub summary : Ranked → Summary
summary r = record { row = r.row; reason = r.reason }

pub data SectionId : Type 0 where
  continue_section for_you latest : SectionId

pub record Section : Type 0 where
  pub id : SectionId
  pub items : List Summary

abbrev pub section : SectionId → List Summary → List Section
section id [] = []
section id (i ∷ items) = record { id = id; items = i ∷ items } ∷ []

abbrev pub taste_of : List Text → Scan → List GrammarAttempt → ℕ → Taste
taste_of levels s grammar vocabulary_count = record {
  preferred_level = preferred_from (activity_of s.level_activity) [] levels;
  vocabulary_count = vocabulary_count;
  needs_grammar_practice = needs_grammar_practice grammar;
}

unfoldable pub recommended : Taste → Scan → List Row → List Ranked
unfolding rank_all stable_sort ranks_before
recommended taste s contents = take 10 (stable_sort ranks_before (rank_all taste s 0 contents))

-- `levels` are the keys of the map levelActivity, in the order in which Go iterates over it
unfoldable pub personalized_home_sections :
    (List Text → List Text)
    → List Row
    → List LearningProgress
    → List GrammarAttempt
    → ℕ
    → List Section
unfolding scan_progress preferred_from activity_of needs_grammar_practice recommended
personalized_home_sections order contents progress grammar vocabulary_count =
    let s = scan_progress contents progress start in
    let levels = order (map (λ e. e.0) s.level_activity) in
    let taste = taste_of levels s grammar vocabulary_count in
    section continue_section s.continue_items
    ++ (section for_you (map summary (recommended taste s contents))
        ++ section latest
            (map (λ row. record { row = row; reason = recently_added }) (take 8 contents)))
