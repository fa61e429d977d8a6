-- ===== src/Http/RateLimit/Alone.antt =====
-- The middleware treats every host as if it had a limiter of its own, kept for ever.
use el_backend.Base.{
  ◌∷◌, [], List, Bool, true, Option, some, none, if◌then◌else◌, ℕ, ◌+◌, ◌*◌, ◌≤◌, refl, sym, ap,
  ◌∙◌, ◌≡◌, arith, Bool-cases, Option-cases, inl, inr,
}
use el_backend.Text.{Text, text_eq}
use el_backend.Text.Equality.{text_eq_iff}
use el_backend.Base.{ltb, ◌⊎◌, subst}
use el_backend.Http.RateLimit.{
  sweep, put_visitor, Limiter, Visit, admit_all, minute, Visitor, limiter_of, visitor, admit,
}
use el_backend.Http.RateLimit.Table.{
  visitor-sweep, visitor-put_self, Unique-sweep, visitor-put_ne, Unique-put, left_by, Unique,
}

module _ {S : Type 0} (l : Limiter S) where
  -- from `start` on, the limiter answers like a new one
  abbrev pub IsCool : S → ℕ → Type 0
  IsCool s start = (t : ℕ) → start ≤ t → l.allow t s ≡ l.allow t l.fresh

  unfoldable pub updated : (Text → S) → Text → S → Text → S
  unfolding text_eq
  updated limiters h s k = if text_eq h k then s else limiters k

  -- the decisions of one limiter for each host
  unfoldable pub alone : (Text → S) → List Visit → List Bool
  unfolding updated
  alone limiters [] = []
  alone limiters (r ∷ rs) =
      let (allowed, s) = l.allow r.asked (limiters r.host) in
      allowed ∷ alone (updated limiters r.host s) rs

  -- the clock does not run backwards, and five minutes are more than what a request takes under the
  -- lock
  unfoldable pub IsTimely : ℕ → List Visit → Type 0
  IsTimely now [] = Unit {0}
  IsTimely now (r ∷ rs) =
      (now ≤ r.asked) × (r.asked ≤ r.seen + 5 * minute) × (r.asked ≤ r.swept) × IsTimely r.swept rs

  -- what the map holds of the limiters, at a time
  record Tracks (limiters : Text → S) (m : List (Text × Visitor S)) (now : ℕ) : Type 0 where
    unique : Unique m
    known :
        (h : Text) (v : Visitor S)
        → visitor h m ≡ some v
        → (v.limiter ≡ limiters h) × IsCool v.limiter (v.last_seen + 10 * minute)
    gone : (h : Text) → visitor h m ≡ none → IsCool (limiters h) now

  some_not_none : {v : Visitor S} → Path (Option (Visitor S)) (some v) none → ⊥
  some_not_none h = ground arith

  kept : (now : ℕ) (o : Option (Visitor S)) (v : Visitor S) → left_by now o ≡ some v → o ≡ some v
  unfolding left_by
  kept now none v h = absurd (some_not_none (sym h))
  kept now (some w) v h = elim (Bool-cases (ltb (w.last_seen + 10 * minute) now)) [
    | inl e ↦ absurd (some_not_none (sym (rw e at h)))
    | inr e ↦ rw e at h
  ]

  dropped :
      (now : ℕ) (o : Option (Visitor S))
      → left_by now o ≡ none
      → (o ≡ none) ⊎ ((v : Visitor S) × ((o ≡ some v) × (v.last_seen + 10 * minute ≤ now)))
  unfolding left_by
  dropped now none h = inl refl
  dropped now (some w) h = elim (Bool-cases (ltb (w.last_seen + 10 * minute) now)) [
    | inl e ↦ inr (w, (refl, ground arith))
    | inr e ↦ absurd (some_not_none (rw e at h))
  ]

  same_answer :
      (limiters : Text → S) (m : List (Text × Visitor S)) (now t : ℕ) (h : Text)
      → Tracks limiters m now
      → now ≤ t
      → l.allow t (limiter_of l (visitor h m)) ≡ l.allow t (limiters h)
  same_answer limiters m now t h k le = elim (Option-cases (visitor h m)) [
    | inl e ↦ ap (λ o. l.allow t (limiter_of l o)) e ∙ sym (k.gone h e t le)
    | inr (v, e) ↦ ap (λ o. l.allow t (limiter_of l o)) e ∙ ap (l.allow t) (k.known h v e).0
  ]

  module _ (cools : (t : ℕ) (s : S) → IsCool (l.allow t s).1 (t + 5 * minute)) where
    put-Tracks :
        (limiters : Text → S) (m : List (Text × Visitor S)) (now : ℕ) (r : Visit) (s : S)
        → Tracks limiters m now
        → now ≤ r.asked
        → r.asked ≤ r.seen + 5 * minute
        → r.asked ≤ r.swept
        → IsCool s (r.asked + 5 * minute)
        → Tracks
            (updated limiters r.host s)
            (put_visitor r.host (record { limiter = s; last_seen = r.seen }) m)
            r.swept
    unfolding updated
    put-Tracks limiters m now r s k le soon swept cool =
        let new : Visitor S = record { limiter = s; last_seen = r.seen } in
        record {
          unique = Unique-put r.host new m k.unique;
          known = λ h v e. elim (Bool-cases (text_eq r.host h)) [
            | inl x ↦ rw x (
                subst
                  (λ (w : Visitor S).
                    (w.limiter ≡ s) × IsCool w.limiter (w.last_seen + 10 * minute))
                  (found h v x e) (refl, λ t late. cool t (omega arith)))
            | inr x ↦ rw x (k.known h v (sym (visitor-put_ne r.host h new m x) ∙ e))
          ];
          gone = λ h e. elim (Bool-cases (text_eq r.host h)) [
            | inl x ↦ absurd (some_not_none (sym (at_host h x) ∙ e))
            | inr x ↦
                rw x
                  (λ t late. k.gone h (sym (visitor-put_ne r.host h new m x) ∙ e) t (omega arith))
          ];
        }
      where
        stored : Visitor S
        stored = record { limiter = s; last_seen = r.seen }

        at_host :
            (h : Text)
            → text_eq r.host h ≡ true
            → visitor h (put_visitor r.host stored m) ≡ some stored
        at_host h x =
            ap (λ y. visitor y (put_visitor r.host stored m)) (sym ((text_eq_iff r.host h).0 x))
            ∙ visitor-put_self r.host stored m

        found :
            (h : Text) (v : Visitor S)
            → text_eq r.host h ≡ true
            → visitor h (put_visitor r.host stored m) ≡ some v
            → stored ≡ v
        found h v x e = ap (λ o. elim o [ none ↦ stored | some y ↦ y ]) (sym (at_host h x) ∙ e)

    sweep-Tracks :
        (limiters : Text → S) (m : List (Text × Visitor S)) (now : ℕ)
        → Tracks limiters m now
        → Tracks limiters (sweep now m) now
    sweep-Tracks limiters m now k = record {
      unique = Unique-sweep now m k.unique;
      known = λ h v e. elim (visitor-sweep now h m k.unique) [
        | inl x ↦ k.known h v (sym x ∙ e)
        | inr x ↦ k.known h v (kept now (visitor h m) v (sym x ∙ e))
      ];
      gone = λ h e. elim (visitor-sweep now h m k.unique) [
        | inl x ↦ k.gone h (sym x ∙ e)
        | inr x ↦ elim (dropped now (visitor h m) (sym x ∙ e)) [
          | inl y ↦ k.gone h y
          | inr (v, (y, z)) ↦
              subst (λ s. IsCool s now) (k.known h v y).0
                (λ t late. (k.known h v y).1 t (omega (arith, z, late)))
        ]
      ];
    }

    admit-alone :
        (rs : List Visit) (limiters : Text → S) (m : List (Text × Visitor S)) (now : ℕ)
        → Tracks limiters m now
        → IsTimely now rs
        → admit_all l rs m ≡ alone limiters rs
    unfolding admit_all alone admit IsTimely
    admit-alone [] limiters m now k h = refl
    admit-alone (r ∷ rs) limiters m now k h =
        let used = l.allow r.asked (limiters r.host) in
        let tracked =
          sweep-Tracks _ _ r.swept
            (put-Tracks limiters m now r used.1 k h.0 h.1 h.2 (cools r.asked (limiters r.host))) in
        ap
          (λ (p : Bool × S).
            p.0
            ∷ admit_all l rs (
                sweep r.swept
                  (put_visitor r.host (record { limiter = p.1; last_seen = r.seen }) m)))
          (same_answer limiters m now r.asked r.host k h.0)
        ∙ ap (◌∷◌ used.0) (admit-alone rs (updated limiters r.host used.1) _ r.swept tracked h.3)

    -- If a limiter that was used is like a new one five minutes later, and the clock never goes back
    -- and no request takes more than five minutes under the lock, then the middleware decides on
    -- every request as if each host had a limiter of its own that is never dropped.
    pub admit_all-alone :
        (rs : List Visit) → IsTimely 0 rs → admit_all l rs [] ≡ alone (λ h. l.fresh) rs
    unfolding visitor
    admit_all-alone rs h =
        admit-alone rs (λ h. l.fresh) [] 0
          (record { unique = tt; known = λ h v e. absurd (ground arith); gone = λ h e t le. refl })
          h
