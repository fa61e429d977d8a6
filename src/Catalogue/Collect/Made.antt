-- ===== src/Catalogue/Collect/Made.antt =====
-- What the loop that collects texts (contentLearningGoals and dictionaryCandidates, internal/httpapi) has
-- made of the first texts.
use el_backend.Text.Equality.{text_eq_iff}
use el_backend.Catalogue.Collect.{add_new, collect}
use el_backend.Database.Table.{any}
use el_backend.Publish.Options.{text_eq-false, any-All, there, here, AllDistinct, Any}
use el_backend.Text.{text_eq, Text}
use el_backend.Base.{
  refl, arith, sym, Bool-cases, All-append, inr, true, ◌⊎◌, All-weaken, inl, [], ◌≢◌, ◌∷◌, All, ◌≡◌,
  ◌++◌, List, append-nil, append_assoc,
}

abbrev pub Member : Text → List Text → Type 0
Member x = Any (λ y. y ≡ x)

pub Any-append_left : {P : Text → Type 0} (xs ys : List Text) → Any P xs → Any P (xs ++ ys)
Any-append_left [] ys a = elim a [ ]
Any-append_left (x ∷ xs) ys (here p) = here p
Any-append_left (x ∷ xs) ys (there a) = there (Any-append_left xs ys a)

pub Any-append_last : {P : Text → Type 0} (xs : List Text) (y : Text) → P y → Any P (xs ++ y ∷ [])
Any-append_last [] y p = here p
Any-append_last (x ∷ xs) y p = there (Any-append_last xs y p)

pub AllDistinct-append :
    (xs : List Text) (y : Text) → AllDistinct xs → All (λ x. y ≢ x) xs → AllDistinct (xs ++ y ∷ [])
AllDistinct-append [] y d a = (tt, tt)
AllDistinct-append (x ∷ xs) y d a =
    (All-append _ xs (y ∷ []) d.0 (a.0, tt), AllDistinct-append xs y d.1 a.1)

pub any-Member : (x : Text) (xs : List Text) → any (text_eq x) xs ≡ true → Member x xs
any-Member x [] h = cc
any-Member x (y ∷ ys) h = elim (Bool-cases (text_eq x y)) [
  | inl e ↦ here (sym ((text_eq_iff x y).0 e))
  | inr e ↦ there (any-Member x ys (ground arith))
]

module _ (normal : Text → Text) where
  -- where a collected text comes from
  abbrev pub FromRaw : List Text → Text → Type 0
  FromRaw raws g = Any (λ raw. normal raw ≡ g) raws

  -- a text is empty when it is normal, or its normal form is among those collected
  abbrev pub Kept : List Text → Text → Type 0
  Kept goals raw = (normal raw ≡ []) ⊎ Member (normal raw) goals

  pub Kept-append :
      (goals more : List Text) (raw : Text) → Kept goals raw → Kept (goals ++ more) raw
  Kept-append goals more raw (inl e) = inl e
  Kept-append goals more raw (inr m) = inr (Any-append_left goals more m)

  -- what has been collected from the first `raws`
  pub record Made (raws goals : List Text) : Type 0 where
    pub distinct : AllDistinct goals
    pub full : All (λ g. g ≢ []) goals
    pub kept : All (Kept goals) raws
    pub founded : All (FromRaw raws) goals

  more_raws :
      (raws : List Text) (raw : Text) (goals : List Text)
      → All (FromRaw raws) goals
      → All (FromRaw (raws ++ raw ∷ [])) goals
  more_raws raws raw goals = All-weaken (λ g. Any-append_left raws (raw ∷ [])) goals

  step-Made :
      (raws goals : List Text) (raw : Text)
      → Made raws goals
      → Made (raws ++ raw ∷ []) (add_new goals (normal raw))
  step-Made raws goals raw m = elim (Bool-cases (text_eq (normal raw) [])) [
    | inl e ↦
        let blank = (text_eq_iff (normal raw) []).0 e in
        rw e (record {
          distinct = m.distinct;
          full = m.full;
          kept = All-append _ raws (raw ∷ []) m.kept (inl blank, tt);
          founded = more_raws raws raw goals m.founded;
        })
    | inr e ↦ elim (Bool-cases (any (text_eq (normal raw)) goals)) [
      | inl k ↦
          rw (e, k)
            (record {
              distinct = m.distinct;
              full = m.full;
              kept =
                  All-append _ raws (raw ∷ []) m.kept (inr (any-Member (normal raw) goals k), tt);
              founded = more_raws raws raw goals m.founded;
            })
      | inr k ↦
          rw (e, k)
            (record {
              distinct =
                  AllDistinct-append goals (normal raw) m.distinct (any-All (normal raw) goals k);
              full = All-append _ goals _ m.full (text_eq-false (normal raw) [] e, tt);
              kept =
                  All-append _ raws (raw ∷ []) (All-weaken (Kept-append goals _) raws m.kept)
                    (inr (Any-append_last goals (normal raw) refl), tt);
              founded =
                  All-append _ goals _ (more_raws raws raw goals m.founded)
                    (Any-append_last raws raw refl, tt);
            })
    ]
  ]

  collect-Made :
      (raws goals rest : List Text)
      → Made raws goals
      → Made (raws ++ rest) (collect normal goals rest)
  unfolding collect
  collect-Made raws goals [] m = rw (append-nil raws) m
  collect-Made raws goals (raw ∷ rest) m = rw (← append_assoc raws (raw ∷ []) rest) (
      collect-Made (raws ++ raw ∷ []) (add_new goals (normal raw)) rest
        (step-Made raws goals raw m))

  pub collect-all : (raws : List Text) → Made raws (collect normal [] raws)
  collect-all raws =
      collect-Made [] [] raws (record { distinct = tt; full = tt; kept = tt; founded = tt })
