-- ===== src/Http/RateLimit/Table.antt =====
-- The map of visitors: what a lookup sees of a write and of a sweep.
use el_backend.Text.Equality.{text_eq_refl, text_eq_iff}
use el_backend.Text.{text_eq, Text}
use el_backend.Base.{
  length, ◌⊎◌, refl, sym, ◌∙◌, inr, arith, inl, false, true, Bool-cases, not, ◌≡◌, some, Option,
  filter, ℕ, List,
}
use el_backend.Base.{
  length, ◌⊎◌, ◌∷◌, [], List, true, false, not, Option, some, none, if◌then◌else◌, ℕ, ◌+◌, ◌*◌, ltb,
  filter, refl, sym, ap, ◌∙◌, ◌≡◌, arith, Bool-cases, inl, inr,
}
use el_backend.Text.{Text, text_eq}
use el_backend.Text.Equality.{text_eq_iff, text_eq_refl}
use el_backend.Http.RateLimit.{max_visitors, minute, Visitor, visitor, put_visitor, sweep, is_stale}

true_ne_false : true ≡ false → ⊥
true_ne_false h = ground arith

pub text_eq_sym : (s t : Text) → text_eq s t ≡ text_eq t s
text_eq_sym s t = elim (Bool-cases (text_eq s t)) [
  | inl e ↦ rw (e, (text_eq_iff s t).0 e, text_eq_refl t) refl
  | inr e ↦ elim (Bool-cases (text_eq t s)) [
    | inl k ↦
        absurd
          (true_ne_false (sym (text_eq_refl s) ∙ ap (text_eq s) (sym ((text_eq_iff t s).0 k)) ∙ e))
    | inr k ↦ e ∙ sym k
  ]
]

module _ {S : Type 0} where
  -- no host has two visitors
  abbrev pub Unique : List (Text × Visitor S) → Type 0
  Unique [] = Unit {0}
  Unique ((k, v) ∷ m) = (visitor k m ≡ none) × Unique m

  pub visitor-put_self :
      (h : Text) (v : Visitor S) (m : List (Text × Visitor S))
      → visitor h (put_visitor h v m) ≡ some v
  unfolding visitor put_visitor
  visitor-put_self h v [] = rw (text_eq_refl h) refl
  visitor-put_self h v ((j, w) ∷ m) = elim (Bool-cases (text_eq j h)) [
    | inl e ↦ rw (e, e) refl
    | inr e ↦ rw (e, e) (visitor-put_self h v m)
  ]

  pub visitor-put_ne :
      (h k : Text) (v : Visitor S) (m : List (Text × Visitor S))
      → text_eq h k ≡ false
      → visitor k (put_visitor h v m) ≡ visitor k m
  unfolding visitor put_visitor
  visitor-put_ne h k v [] e = rw e refl
  visitor-put_ne h k v ((j, w) ∷ m) e = elim (Bool-cases (text_eq j h)) [
    | inl x ↦ rw (x, ap (λ y. text_eq y k) ((text_eq_iff j h).0 x) ∙ e) refl
    | inr x ↦ rw x (ap (λ y. if text_eq j k then some w else y) (visitor-put_ne h k v m e))
  ]

  pub Unique-put :
      (h : Text) (v : Visitor S) (m : List (Text × Visitor S))
      → Unique m
      → Unique (put_visitor h v m)
  unfolding visitor put_visitor
  Unique-put h v [] u = (refl, tt)
  Unique-put h v ((j, w) ∷ m) u = elim (Bool-cases (text_eq j h)) [
    | inl e ↦ rw e u
    | inr e ↦ rw e (visitor-put_ne h j v m (text_eq_sym h j ∙ e) ∙ u.0, Unique-put h v m u.1)
  ]

  unfoldable pub left_by : ℕ → Option (Visitor S) → Option (Visitor S)
  left_by now none = none
  left_by now (some v) = if ltb (v.last_seen + 10 * minute) now then none else some v

  visitor-filter :
      (now : ℕ) (h : Text) (m : List (Text × Visitor S))
      → Unique m
      → visitor h (filter (λ item. not (is_stale now item)) m) ≡ left_by now (visitor h m)
  unfolding visitor left_by
  visitor-filter now h [] u = refl
  visitor-filter now h ((j, w) ∷ m) u =
      let rest = visitor-filter now h m u.1 in
      elim (Bool-cases (is_stale now (j, w))) [
        | inl s ↦ elim (Bool-cases (text_eq j h)) [
          | inl x ↦
              let alone : visitor h m ≡ none =
                ap (λ y. visitor y m) (sym ((text_eq_iff j h).0 x)) ∙ u.0 in
              rw (s, x, left_by, s) (rest ∙ ap (left_by now) alone)
          | inr x ↦ rw (s, x) rest
        ]
        | inr s ↦ elim (Bool-cases (text_eq j h)) [
          | inl x ↦ rw (s, x, left_by, s) refl
          | inr x ↦ rw (s, x) rest
        ]
      ]

  Unique-filter :
      (now : ℕ) (m : List (Text × Visitor S))
      → Unique m
      → Unique (filter (λ item. not (is_stale now item)) m)
  unfolding left_by
  Unique-filter now [] u = tt
  Unique-filter now ((j, w) ∷ m) u = elim (Bool-cases (is_stale now (j, w))) [
    | inl s ↦ rw s (Unique-filter now m u.1)
    | inr s ↦
        rw s (
          visitor-filter now j m u.1 ∙ ap (left_by now) u.0 ∙ left_none now,
          Unique-filter now m u.1,
        )
  ]
    where
      left_none : (now : ℕ) → left_by now none ≡ none
      left_none now = refl

  pub Unique-sweep : (now : ℕ) (m : List (Text × Visitor S)) → Unique m → Unique (sweep now m)
  unfolding sweep
  Unique-sweep now m u = elim (Bool-cases (ltb max_visitors (length m))) [
    | inl e ↦ rw e (Unique-filter now m u)
    | inr e ↦ rw e u
  ]

  -- a sweep changes nothing for a host, or drops a visitor that was not seen for ten minutes
  pub visitor-sweep :
      (now : ℕ) (h : Text) (m : List (Text × Visitor S))
      → Unique m
      → (visitor h (sweep now m) ≡ visitor h m)
        ⊎ (visitor h (sweep now m) ≡ left_by now (visitor h m))
  unfolding sweep
  visitor-sweep now h m u = elim (Bool-cases (ltb max_visitors (length m))) [
    | inl e ↦ rw e (inr (visitor-filter now h m u))
    | inr e ↦ rw e (inl refl)
  ]
