-- ===== src/Catalogue/Goals/Spec.antt =====
-- What contentLearningGoals (internal/httpapi/public.go) makes of the stored goals.
use el_backend.Catalogue.Collect.Made.{
  Any-append_last, Kept-append, AllDistinct-append, any-Member, Member, collect-all, Kept, Made,
  FromRaw,
}
use el_backend.Catalogue.Codec.{Json}
use el_backend.Publish.Document.{GrammarPoint, normal_option}
use el_backend.Catalogue.Goals.{add_grammar_goal, content_learning_goals, goal_loop}
use el_backend.Database.Table.{any}
use el_backend.Base.{
  some, ◌⊎◌, refl, inr, inl, Bool-cases, All-weaken, All-append, [], ◌≡◌, ◌≢◌, ◌∷◌, All, List,
}
use el_backend.Text.{codes, text_eq, Unicode, Text}
use el_backend.Publish.Options.{AllDistinct, any-All}

module _ ⦃u : Unicode⦄ where
  abbrev pub grammar : Text
  grammar = codes "grammar"

  -- where a goal that is shown comes from
  abbrev pub Source : List Text → List GrammarPoint → Text → Type 0
  Source raws points g = FromRaw normal_option raws g ⊎ ((g ≡ grammar) × (points ≢ []))

  -- what the goals shown owe to the goals and grammar points that are stored
  pub record Shown (raws : List Text) (points : List GrammarPoint) (goals : List Text)
      : Type 0 where
    pub distinct : AllDistinct goals
    pub full : All (λ g. g ≢ []) goals
    pub kept : All (Kept normal_option goals) raws
    pub marked : (points ≡ []) ⊎ Member grammar goals
    pub founded : All (Source raws points) goals

  add-Shown :
      (raws : List Text) (points : List GrammarPoint) (goals : List Text)
      → Made normal_option raws goals
      → Shown raws points (add_grammar_goal points goals)
  add-Shown raws [] goals m = record {
    distinct = m.distinct;
    full = m.full;
    kept = m.kept;
    marked = inl refl;
    founded = All-weaken (λ g f. inl f) goals m.founded;
  }
  add-Shown raws (p ∷ ps) goals m = elim (Bool-cases (any (text_eq (codes "grammar")) goals)) [
    | inl e ↦ rw e (record {
      distinct = m.distinct;
      full = m.full;
      kept = m.kept;
      marked = inr (any-Member grammar goals e);
      founded = All-weaken (λ g f. inl f) goals m.founded;
    })
    | inr e ↦ rw e (record {
      distinct = AllDistinct-append goals grammar m.distinct (any-All grammar goals e);
      full = All-append _ goals _ m.full ((λ h. cc), tt);
      kept = All-weaken (Kept-append normal_option goals _) raws m.kept;
      marked = inr (Any-append_last goals grammar refl);
      founded =
          All-append _ goals _ (All-weaken (λ g f. inl f) goals m.founded)
            (inr (refl, λ h. cc), tt);
    })
  ]

  module _ (json : Json) (metadata : Text) (raws : List Text) (points : List GrammarPoint) where
    -- The goals shown for stored goals `raws` and grammar points `points` are distinct and not empty;
    -- every stored goal, trimmed and in lower case, is among them unless it is blank then, and
    -- "grammar" is where there are grammar points; and there are no others.
    pub content_learning_goals-Shown :
        json.goals_of metadata ≡ some (raws, points)
        → Shown raws points (content_learning_goals json metadata)
    unfolding content_learning_goals goal_loop
    content_learning_goals-Shown h =
        rw (h, content_learning_goals)
          (add-Shown raws points (goal_loop raws) (collect-all normal_option raws))
