-- ===== src/Retell/Account.antt =====
-- DELETE /me (internal/httpapi/identity.go): the recordings of the user, then DeleteUser
-- (identity.sql.go) with the foreign keys of db/migrations.
use el_backend.Identity.Schema.{
  UserEvent, GrammarAttempt, VocabularyEntry, LearningProgress, Bookmark, TokenUse, Session,
  RetellAttempt, User, Accounts, Credential,
}
use el_backend.Database.{Error, World, Query, on_pool}
use el_backend.Base.{[], ◌∷◌, false, true, some, err, ◌==◌, Bool, ok, none, Outcome, List, map, ℕ}
use el_backend.Database.Table.{
  delete_rows, delete_rows, delete_rows, delete_rows, delete_rows, delete_rows, delete_rows,
  delete_rows, delete_rows, delete_rows, delete_rows, delete_rows, delete_rows, delete_rows,
  delete_rows, delete_rows, delete_rows, delete_rows, delete_rows, delete_rows, delete_rows,
  delete_rows, delete_rows, delete_rows, delete_rows, delete_rows, delete_rows, delete_rows,
  delete_rows, delete_rows, delete_rows, delete_rows, delete_rows, delete_rows, delete_rows,
  delete_rows, delete_rows, delete_rows, delete_rows, delete_rows, delete_rows, delete_rows,
  delete_rows, delete_rows, delete_rows, delete_rows, delete_rows, delete_rows, delete_rows,
  delete_rows, delete_rows, delete_rows, delete_rows, delete_rows, delete_rows, delete_rows,
  delete_rows, delete_rows, delete_rows, delete_rows, delete_rows, delete_rows, delete_rows,
  delete_rows, delete_rows, delete_rows, delete_rows, delete_rows, delete_rows, delete_rows,
  delete_rows,
}
use el_backend.Retell.{ObjectStore}
use el_backend.Retell.Requests.{
  Returned, list_retell_attempts, Gone, returned, store_unavailable, query_failed,
}
pub mod Rows
pub mod Forgotten

-- ON DELETE SET NULL
unfoldable pub detach : ℕ → Credential → Credential
detach u c = elim c.user_id [
  | none ↦ c
  | some v ↦ elim (v == u) [ true ↦ record c { user_id = none } | false ↦ c ]
]

-- DeleteUser, ON DELETE CASCADE elsewhere
abbrev pub without_user : ℕ → Accounts → Accounts
without_user u d = record d {
  users = delete_rows (λ (r : User). r.id == u) d.users;
  sessions = delete_rows (λ (r : Session). r.user_id == u) d.sessions;
  token_uses = delete_rows (λ (r : TokenUse). r.user_id == u) d.token_uses;
  bookmarks = delete_rows (λ (r : Bookmark). r.user_id == u) d.bookmarks;
  progress = delete_rows (λ (r : LearningProgress). r.user_id == u) d.progress;
  vocabulary = delete_rows (λ (r : VocabularyEntry). r.user_id == u) d.vocabulary;
  grammar = delete_rows (λ (r : GrammarAttempt). r.user_id == u) d.grammar;
  retells = delete_rows (λ (r : RetellAttempt). r.user_id == u) d.retells;
  events = delete_rows (λ (r : UserEvent). r.user_id == u) d.events;
  credentials = map (detach u) d.credentials;
}

unfoldable pub delete_user : ℕ → Query Accounts (Unit {0})
unfolding detach
delete_user u d = ok (tt, without_user u d)

module _ {O : Type 0} (store : ObjectStore O) where
  abbrev pub Left : Type 0
  Left = Returned (Unit {0}) × (World Accounts × O)

  -- the loop over the recordings, up to the first that is not removed
  unfoldable pub remove_all : List RetellAttempt → O → Bool × O
  remove_all [] o = (true, o)
  remove_all (r ∷ rows) o =
      let p = store.remove r.object_key o in
      elim p.0 [ false ↦ (false, p.1) | true ↦ remove_all rows p.1 ]

  unfoldable pub end_account : Outcome Error (Unit {0}) × World Accounts → O → Left
  end_account (err e, w) o = (query_failed, (w, o))
  end_account (ok x, w) o = (returned tt, (w, o))

  unfoldable pub after_objects : ℕ → World Accounts → Bool × O → Left
  unfolding end_account delete_user on_pool
  after_objects u w (false, o) = (store_unavailable, (w, o))
  after_objects u w (true, o) = end_account (on_pool (delete_user u) w) o

  unfoldable pub remove_recordings :
      ℕ → Outcome Error (List RetellAttempt) × World Accounts → O → Left
  unfolding after_objects remove_all
  remove_recordings u (err e, w) o = (query_failed, (w, o))
  remove_recordings u (ok rows, w) o = after_objects u w (remove_all rows o)

  unfoldable pub delete_account : ℕ → World Accounts × O → Left
  unfolding remove_recordings list_retell_attempts on_pool
  delete_account u (w, o) = remove_recordings u (on_pool (list_retell_attempts u none) w) o
