-- ===== src/Identity/Commands/Progress.antt =====
-- The stored progress after any history of writes: the report with the latest client time.
use el_backend.Identity.Commands.{listen}
use el_backend.Identity.Service.{progress_row}
use el_backend.Database.Table.{find-upsert_self, find-upsert_ne, merged, upsert_row}
use el_backend.Identity.Queries.{progress_key}
use el_backend.Identity.Learning.{merge_progress, upsert_progress}
use el_backend.Identity.Commands.History.{Request}
use el_backend.Base.Int.{ℤ}
use el_backend.Identity.Schema.{Accounts, LearningProgress}
use el_backend.Base.{
  ◌∙◌, inr, inl, le_or_lt, Bool-cases, false, true, ◌&&◌, ◌==◌, if◌then◌else◌, none, refl, ok,
  All-append, some, append_assoc, arith, find?, ◌∷◌, [], ◌++◌, All, ◌≡◌, Bool, ◌≤◌, ◌<◌, Option, ℕ,
  List,
}

pub record Report : Type 0 where
  pub position_seconds : ℤ
  pub completed : Bool
  pub client_updated_at : ℕ

abbrev pub report_of : LearningProgress → Report
report_of r = record {
  position_seconds = r.position_seconds;
  completed = r.completed;
  client_updated_at = r.client_updated_at;
}

abbrev pub stored_progress : ℕ → ℕ → Accounts → Option LearningProgress
stored_progress u c d = find? (progress_key u c) d.progress

-- `v` is in the list, nothing in it is later, and what stands behind it is earlier
pub record IsLatest (v : Report) (vs : List Report) : Type 0 where
  pub older : List Report
  pub newer : List Report
  pub parts : vs ≡ older ++ v ∷ newer
  pub not_later : All (λ x. x.client_updated_at ≤ v.client_updated_at) older
  pub overtaken : All (λ x. x.client_updated_at < v.client_updated_at) newer

All_le :
    (a b : ℕ) (vs : List Report)
    → a ≤ b
    → All (λ x. x.client_updated_at ≤ a) vs
    → All (λ x. x.client_updated_at ≤ b) vs
All_le a b [] h k = tt
All_le a b (v ∷ vs) h k = (omega arith, All_le a b vs h k.1)

All_le_of_lt :
    (a b : ℕ) (vs : List Report)
    → a ≤ b
    → All (λ x. x.client_updated_at < a) vs
    → All (λ x. x.client_updated_at ≤ b) vs
All_le_of_lt a b [] h k = tt
All_le_of_lt a b (v ∷ vs) h k = (omega arith, All_le_of_lt a b vs h k.1)

-- one more report at the end
IsLatest-newer :
    (v e : Report) (vs : List Report)
    → IsLatest v vs
    → v.client_updated_at ≤ e.client_updated_at
    → IsLatest e (vs ++ e ∷ [])
IsLatest-newer v e vs h le = record {
  older = vs;
  newer = [];
  parts = refl;
  not_later = rw h.parts (
      All-append _ h.older (v ∷ h.newer) (All_le _ _ h.older le h.not_later)
        (le, All_le_of_lt _ _ h.newer le h.overtaken));
  overtaken = tt;
}

IsLatest-older :
    (v e : Report) (vs : List Report)
    → IsLatest v vs
    → e.client_updated_at < v.client_updated_at
    → IsLatest v (vs ++ e ∷ [])
IsLatest-older v e vs h lt = record {
  older = h.older;
  newer = h.newer ++ e ∷ [];
  parts = rw h.parts (append_assoc h.older (v ∷ h.newer) (e ∷ []));
  not_later = h.not_later;
  overtaken = All-append _ h.newer (e ∷ []) h.overtaken (lt, tt);
}

-- the reports of one user on one content item, in the order of arrival
abbrev pub reported : ℕ → ℕ → Request → List Report
reported u c r = elim r.command [
  | listen input ↦
      if r.user == u && input.content_id == c
      then report_of (progress_row r.moment.now u input) ∷ []
      else []
  | _ ↦ []
]

abbrev pub reports : ℕ → ℕ → List Request → List Report
reports u c [] = []
reports u c (r ∷ rs) = reported u c r ++ reports u c rs

-- the row holds the latest of the reports, and there is no row if there was none
abbrev pub Holds : Option LearningProgress → List Report → Type 0
Holds none vs = vs ≡ []
Holds (some r) vs = IsLatest (report_of r) vs

merge_fresh :
    (now : ℕ) (e r : LearningProgress)
    → r.client_updated_at ≤ e.client_updated_at
    → report_of (merge_progress now e r) ≡ report_of e
unfolding merge_progress
merge_fresh now e r h = ground arith

merge_stale :
    (now : ℕ) (e r : LearningProgress)
    → e.client_updated_at < r.client_updated_at
    → report_of (merge_progress now e r) ≡ report_of r
unfolding merge_progress
merge_stale now e r h = ground arith

merged-Holds :
    (now : ℕ) (e : LearningProgress) (o : Option LearningProgress) (vs : List Report)
    → Holds o vs
    → Holds (some (merged e (merge_progress now e) o)) (vs ++ report_of e ∷ [])
merged-Holds now e none vs h =
    rw h (record { older = []; newer = []; parts = refl; not_later = tt; overtaken = tt })
merged-Holds now e (some r) vs h = elim (le_or_lt r.client_updated_at e.client_updated_at) [
  | inl le ↦ rw (merge_fresh now e r le) (IsLatest-newer (report_of r) (report_of e) vs h le)
  | inr lt ↦ rw (merge_stale now e r lt) (IsLatest-older (report_of r) (report_of e) vs h lt)
]

rows_after :
    (now : ℕ) (e r : LearningProgress) (d d' : Accounts)
    → upsert_progress now e d ≡ ok (r, d')
    → d'.progress
      ≡ upsert_row (progress_key e.user_id e.content_id) e (merge_progress now e) d.progress
unfolding upsert_progress
rows_after now e r d d' h = ground arith

key_merge :
    (now u c : ℕ) (e r : LearningProgress)
    → progress_key u c (merge_progress now e r) ≡ progress_key u c r
unfolding merge_progress
key_merge now u c e r = refl

key_self : (e : LearningProgress) → progress_key e.user_id e.content_id e ≡ true
key_self e = ground arith

key_other :
    (u c u' c' : ℕ) (r : LearningProgress)
    → (u == u' && c == c') ≡ false
    → progress_key u c r ≡ true
    → progress_key u' c' r ≡ false
key_other u c u' c' r h k = ground arith

self-Holds :
    (now : ℕ) (e r : LearningProgress) (d d' : Accounts) (vs : List Report)
    → upsert_progress now e d ≡ ok (r, d')
    → Holds (stored_progress e.user_id e.content_id d) vs
    → Holds (stored_progress e.user_id e.content_id d') (vs ++ report_of e ∷ [])
self-Holds now e r d d' vs h k =
    rw
      (
        rows_after now e r d d' h,
        find-upsert_self (progress_key e.user_id e.content_id) e (merge_progress now e) (key_self e)
            (λ x y. key_merge now e.user_id e.content_id e x ∙ y) d.progress,
      )
      (merged-Holds now e (stored_progress e.user_id e.content_id d) vs k)

key_eq : (a b u c : ℕ) → (a == u && b == c) ≡ true → (u ≡ a) × (c ≡ b)
key_eq a b u c h = ground arith

-- what one accepted report does to the row of its key, and to the rows of the other keys
pub upsert-Holds :
    (now u c : ℕ) (e r : LearningProgress) (d d' : Accounts) (vs : List Report)
    → upsert_progress now e d ≡ ok (r, d')
    → Holds (stored_progress u c d) vs
    → Holds
        (stored_progress u c d')
        (if e.user_id == u && e.content_id == c then vs ++ report_of e ∷ [] else vs)
upsert-Holds now u c e r d d' vs h k = elim (Bool-cases (e.user_id == u && e.content_id == c)) [
  | inl same ↦
      let (eu, ec) = key_eq e.user_id e.content_id u c same in
      rw (same, eu, ec) (self-Holds now e r d d' vs h (rw (eu, ec) at k))
  | inr other ↦ rw other (
      rw
        (
          rows_after now e r d d' h,
          find-upsert_ne (progress_key e.user_id e.content_id) e (merge_progress now e)
              (progress_key u c) (key_other _ _ u c e other (key_self e))
              (λ x y. key_other _ _ u c x other y)
              (λ x y. key_merge now u c e x ∙ key_other _ _ u c x other y) d.progress,
        )
        k)
]
