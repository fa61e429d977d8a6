-- ===== src/Text/Runs.antt =====
-- Texts that are runs of solid runes with single joiners between them: `solid+ (joiner solid+)*`.
use el_backend.Text.Defs.{Text}
use el_backend.Base.{[], ◌++◌, ◌∷◌, arith, true, ◌||◌, ◌≡◌, All, Bool, ℕ}

module _ (solid joiner : ℕ → Bool) where
  pub data Runs : Text → Type 0 where
    last : {c : ℕ} → solid c ≡ true → Runs (c ∷ [])
    more : {c : ℕ} {s : Text} → solid c ≡ true → Runs s → Runs (c ∷ s)
    join : {c d : ℕ} {s : Text} → solid c ≡ true → joiner d ≡ true → Runs s → Runs (c ∷ d ∷ s)

  -- every rune is solid or a joiner
  pub Runs-All : {s : Text} → Runs s → All (λ c. (solid c || joiner c) ≡ true) s
  Runs-All (last h) = (ground arith, tt)
  Runs-All (more h r) = (ground arith, Runs-All r)
  Runs-All (join h k r) = (ground arith, (ground arith, Runs-All r))

  pub Runs-snoc : {s : Text} (c : ℕ) → solid c ≡ true → Runs s → Runs (s ++ c ∷ [])
  Runs-snoc c k (last h) = more h (last k)
  Runs-snoc c k (more h r) = more h (Runs-snoc c k r)
  Runs-snoc c k (join h j r) = join h j (Runs-snoc c k r)

  pub Runs-join_snoc :
      {s : Text} (d c : ℕ)
      → joiner d ≡ true
      → solid c ≡ true
      → Runs s
      → Runs ((s ++ d ∷ []) ++ c ∷ [])
  Runs-join_snoc d c j k (last h) = join h j (last k)
  Runs-join_snoc d c j k (more h r) = more h (Runs-join_snoc d c j k r)
  Runs-join_snoc d c j k (join h i r) = join h i (Runs-join_snoc d c j k r)
