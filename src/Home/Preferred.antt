-- ===== src/Home/Preferred.antt =====
-- The preferred level does not depend on the order in which Go iterates over a map.
use el_backend.Identity.Schema.{GrammarAttempt, LearningProgress}
use el_backend.Home.Sections.{personalized_home_sections}
use mathlib.Core.List.{Mem, Perm, mem-cons, mem-cons_self, mem-cons_of_mem, not-mem-nil}
use mathlib.Core.List.Perm
use mathlib.Core.Logic.Or
use el_backend.Base.{map, inl, inr, Bool-cases, List, refl, [], arith, ◌∷◌, true, false, ◌≡◌, ℕ}
use el_backend.Text.{Text}
use el_backend.Home.Defs.{activity_of, start, scan_progress, Row, preferred_from, beats, text_lt}

text_lt_irrefl : (s : Text) → text_lt s s ≡ false
unfolding text_lt
text_lt_irrefl [] = refl
text_lt_irrefl (c ∷ s) = ground (arith, text_lt_irrefl s)

text_lt_total : (s t : Text) → text_lt s t ≡ false → text_lt t s ≡ false → s ≡ t
unfolding text_lt
text_lt_total [] [] h k = refl
text_lt_total (c ∷ s) [] h k = absurd (ground arith)
text_lt_total [] (d ∷ t) h k = absurd (ground arith)
text_lt_total (c ∷ s) (d ∷ t) h k = ground (arith, text_lt_total s t)

text_lt_trans : (s t r : Text) → text_lt s t ≡ true → text_lt t r ≡ true → text_lt s r ≡ true
unfolding text_lt
text_lt_trans s t [] h k = ground arith
text_lt_trans s [] (e ∷ r) h k = ground arith
text_lt_trans [] (d ∷ t) (e ∷ r) h k = refl
text_lt_trans (c ∷ s) (d ∷ t) (e ∷ r) h k = ground (arith, text_lt_trans s t r)

module _ (activity : Text → ℕ) where
  beats_total : (s t : Text) → beats activity s t ≡ false → beats activity t s ≡ false → s ≡ t
  unfolding beats
  beats_total s t h k = ground (arith, text_lt_total s t)

  beats_trans :
      (s t r : Text)
      → beats activity s t ≡ true
      → beats activity t r ≡ true
      → beats activity s r ≡ true
  unfolding beats
  beats_trans s t r h k = ground (arith, text_lt_trans s t r)

  beats_irrefl : (s : Text) → beats activity s s ≡ false
  unfolding beats
  beats_irrefl s = ground (arith, text_lt_irrefl s)

  beats_asym : (s t : Text) → beats activity s t ≡ true → beats activity t s ≡ false
  beats_asym s t h = elim (Bool-cases (beats activity t s)) [
    | inl k ↦ absurd (cc (beats_trans s t s h k, beats_irrefl s))
    | inr k ↦ k
  ]

  beats_negtrans :
      (s t r : Text)
      → beats activity s t ≡ false
      → beats activity t r ≡ false
      → beats activity s r ≡ false
  beats_negtrans s t r h k = elim (Bool-cases (beats activity s r)) [
    | inr x ↦ x
    | inl x ↦ elim (Bool-cases (beats activity r t)) [
      | inl y ↦ absurd (cc (beats_trans s r t x y))
      | inr y ↦ absurd (cc (beats_total t r k y))
    ]
  ]

  preferred_mem :
      (p : Text) (levels : List Text) → Mem (preferred_from activity p levels) (p ∷ levels)
  unfolding preferred_from
  preferred_mem p [] = mem-cons_self
  preferred_mem p (l ∷ levels) = elim (Bool-cases (beats activity l p)) [
    | inl e ↦ rw e (mem-cons_of_mem p (preferred_mem l levels))
    | inr e ↦ rw e (skip (preferred_mem p levels))
  ]
    where
      skip : {x : Text} → Mem x (p ∷ levels) → Mem x (p ∷ l ∷ levels)
      skip m =
          Or.elim (hlevel) (mem-cons.0 m) (λ e. rw e mem-cons_self)
            (λ m'. mem-cons_of_mem p (mem-cons_of_mem l m'))

  preferred_unbeaten :
      (p : Text) (levels : List Text) (l : Text)
      → Mem l (p ∷ levels)
      → beats activity l (preferred_from activity p levels) ≡ false
  unfolding preferred_from
  preferred_unbeaten p [] l m =
      Or.elim (hlevel) (mem-cons.0 m) (λ e. rw e (beats_irrefl p)) (λ n. absurd (not-mem-nil n))
  preferred_unbeaten p (k ∷ levels) l m = elim (Bool-cases (beats activity k p)) [
    | inl e ↦
        let better = preferred_unbeaten k levels in
        rw e (
          Or.elim (hlevel) (mem-cons.0 m)
            (λ x. rw x (beats_negtrans p k _ (beats_asym k p e) (better k mem-cons_self)))
            (better l))
    | inr e ↦
        let better = preferred_unbeaten p levels in
        rw e (
          Or.elim (hlevel) (mem-cons.0 m) (λ x. rw x (better p mem-cons_self))
            (λ n.
              Or.elim (hlevel) (mem-cons.0 n)
                (λ x. rw x (beats_negtrans k p _ e (better p mem-cons_self)))
                (λ o. better l (mem-cons_of_mem p o))))
  ]

  pub preferred-perm :
      (p : Text) {xs ys : List Text}
      → Perm xs ys
      → preferred_from activity p xs ≡ preferred_from activity p ys
  preferred-perm p {xs} {ys} h =
      let x = preferred_mem p xs in
      let y = preferred_mem p ys in
      beats_total _ _ (preferred_unbeaten p ys _ ((Perm.mem_iff (Perm.cons p h)).0 x))
        (preferred_unbeaten p xs _ ((Perm.mem_iff (Perm.cons p h)).1 y))

-- The home page does not depend on the order in which Go iterates over the level counts.
pub home_order_independent :
    (order order' : List Text → List Text)
    → ((l : List Text) → Perm (order l) l)
    → ((l : List Text) → Perm (order' l) l)
    → (contents : List Row) (progress : List LearningProgress) (grammar : List GrammarAttempt)
      (vocabulary_count : ℕ)
    → personalized_home_sections order contents progress grammar vocabulary_count
      ≡ personalized_home_sections order' contents progress grammar vocabulary_count
unfolding personalized_home_sections
home_order_independent order order' h h' contents progress grammar vocabulary_count =
    let s = scan_progress contents progress start in
    let levels = map (λ e. e.0) s.level_activity in
    rw (
      preferred-perm (activity_of s.level_activity) []
        (Perm.trans (h levels) (Perm.symm (h' levels))))
