-- ===== src/Retell/Account/Rows.antt =====
-- The rows that DeleteUser leaves (internal/repository/dbgen/identity.sql.go).
use el_backend.Database.Table.{delete_rows}
use el_backend.Identity.Schema.{
  UserEvent, RetellAttempt, GrammarAttempt, VocabularyEntry, LearningProgress, Bookmark, TokenUse,
  Session, User, Accounts, Credential,
}
use el_backend.Retell.Account.{without_user, detach}
use el_backend.Base.{
  not, Bool-cases, filter-passes, inr, arith, All-weaken, inl, Option-cases, [], ◌==◌, some, ◌∷◌,
  false, map, ◌≢◌, ◌≡◌, All, ℕ, List, Bool,
}

delete-none_left :
    {R : Type 0} (hits : R → Bool) (rows : List R)
    → All (λ r. hits r ≡ false) (delete_rows hits rows)
delete-none_left hits rows =
    All-weaken (λ r h. ground arith) (delete_rows hits rows)
      (filter-passes (λ r. not (hits r)) rows)

-- no row of the tables leads to the user
pub record Forgotten (u : ℕ) (d : Accounts) : Type 0 where
  pub users : All (λ (r : User). (r.id == u) ≡ false) d.users
  pub sessions : All (λ (r : Session). (r.user_id == u) ≡ false) d.sessions
  pub token_uses : All (λ (r : TokenUse). (r.user_id == u) ≡ false) d.token_uses
  pub bookmarks : All (λ (r : Bookmark). (r.user_id == u) ≡ false) d.bookmarks
  pub progress : All (λ (r : LearningProgress). (r.user_id == u) ≡ false) d.progress
  pub vocabulary : All (λ (r : VocabularyEntry). (r.user_id == u) ≡ false) d.vocabulary
  pub grammar : All (λ (r : GrammarAttempt). (r.user_id == u) ≡ false) d.grammar
  pub retells : All (λ (r : RetellAttempt). (r.user_id == u) ≡ false) d.retells
  pub events : All (λ (r : UserEvent). (r.user_id == u) ≡ false) d.events
  pub credentials : All (λ (c : Credential). c.user_id ≢ some u) d.credentials

detach-ne : (u : ℕ) (c : Credential) → (detach u c).user_id ≢ some u
unfolding detach
detach-ne u c e = elim (Option-cases c.user_id) [
  | inl n ↦ absurd (ground arith)
  | inr (v, n) ↦ elim (Bool-cases (v == u)) [
    | inl h ↦ absurd (ground arith)
    | inr h ↦ absurd (ground arith)
  ]
]

All-map_all :
    {A B : Type 0} (P : B → Type 0) (f : A → B)
    → ((a : A) → P (f a))
    → (xs : List A) → All P (map f xs)
All-map_all P f h [] = tt
All-map_all P f h (x ∷ xs) = (h x, All-map_all P f h xs)

pub without-Forgotten : (u : ℕ) (d : Accounts) → Forgotten u (without_user u d)
without-Forgotten u d = record {
  users = delete-none_left (λ (r : User). r.id == u) d.users;
  sessions = delete-none_left (λ (r : Session). r.user_id == u) d.sessions;
  token_uses = delete-none_left (λ (r : TokenUse). r.user_id == u) d.token_uses;
  bookmarks = delete-none_left (λ (r : Bookmark). r.user_id == u) d.bookmarks;
  progress = delete-none_left (λ (r : LearningProgress). r.user_id == u) d.progress;
  vocabulary = delete-none_left (λ (r : VocabularyEntry). r.user_id == u) d.vocabulary;
  grammar = delete-none_left (λ (r : GrammarAttempt). r.user_id == u) d.grammar;
  retells = delete-none_left (λ (r : RetellAttempt). r.user_id == u) d.retells;
  events = delete-none_left (λ (r : UserEvent). r.user_id == u) d.events;
  credentials =
      All-map_all (λ (c : Credential). c.user_id ≢ some u) (detach u) (detach-ne u) d.credentials;
}
