-- ===== src/Identity/Login/Atomic.antt =====
-- A login, with all that the device has collected, is one transaction.
use el_backend.Identity.Learning.{upsert_progress}
use el_backend.Identity.Commands.{practise_query, learn_query, with_event}
use el_backend.Database.Atomic.{transact_atomic, AllOrNothing}
use el_backend.Identity.Queries.{
  create_session, create_user_event, upsert_apple_user, record_token_use, upsert_bookmark,
}
use el_backend.Identity.Input.{micros, MigrationInput}
use el_backend.Database.Refine.{
  Refines-lift, Refines-attempt, tolerate, Refines-for_each, Refines-on_error, Refines-statement,
  Refines-pure, Refines-bind, Refines,
}
use el_backend.Identity.Service.{progress_row, Moment}
use el_backend.Identity.Schema.{bookmark, upsert, progress, Accounts, Bytes}
use el_backend.Text.{Unicode}
use el_backend.Database.{
  with_tables, World, each_query, replay_rejected, then_query, map_err, Tx, Query,
}
use el_backend.Base.{◌+◌, ℕ, ◌∷◌, [], ok}
use el_backend.Identity.Login.{
  LoginResult, LoginInput, Crypto, put_credential, record_identity_token, migrate_bookmark, migrate,
  login_body, create_login, drop_row,
}
use el_backend.Identity.Commands.Atomic.{Refines-listen, Refines-learn, Refines-practise}

-- what the parts of createLogin do when no round trip fails
abbrev pub token_query : Bytes → ℕ → Query Accounts (Unit {0})
token_query [] u d = ok (tt, d)
token_query (b ∷ bs) u d = map_err replay_rejected (record_token_use (b ∷ bs) u d)

abbrev pub bookmark_query : ℕ → ℕ → ℕ → Query Accounts (Unit {0})
bookmark_query now u c =
    then_query (upsert_bookmark now u c)
      (λ _ d. tolerate (create_user_event u bookmark c upsert d) d)

abbrev pub dropped : {A : Type 0} → Query Accounts A → Query Accounts (Unit {0})
dropped q = then_query q (λ _ d. ok (tt, d))

Refines-drop_row :
    {A : Type 0} (m : Tx Accounts A) (q : Query Accounts A)
    → Refines m q
    → Refines (drop_row m) (dropped q)
Refines-drop_row m q h = Refines-bind _ _ _ _ h (λ _. Refines-pure tt)

Refines-bookmark : (now u c : ℕ) → Refines (migrate_bookmark now u c) (bookmark_query now u c)
unfolding migrate_bookmark
Refines-bookmark now u c = Refines-bind _ _ _ _ (Refines-statement _) (λ _. Refines-attempt _)

Refines-token : (hash : Bytes) (u : ℕ) → Refines (record_identity_token hash u) (token_query hash u)
unfolding record_identity_token
Refines-token [] u = Refines-pure tt
Refines-token (b ∷ bs) u = Refines-on_error _ _

module _ ⦃unicode : Unicode⦄ where
  abbrev pub migrate_query : Moment → ℕ → MigrationInput → Query Accounts (Unit {0})
  migrate_query t u input = then_query (each_query (bookmark_query t.now u) input.bookmarks) λ _.
      then_query
        (each_query
          (λ p. dropped (
            with_event u progress (λ _. p.content_id) upsert
              (upsert_progress t.now (progress_row t.now u p))))
          input.progress)
        λ _.
          then_query (each_query (λ e. dropped (learn_query t u e)) input.vocabulary)
            λ _. each_query (λ a. dropped (practise_query t u a)) input.grammar_attempts

  -- what follows the account and the identity token, and the session at the end of it
  abbrev pub session_query : Crypto → Moment → LoginInput → ℕ → Bytes → Query Accounts LoginResult
  session_query crypto t input u raw =
      let token = crypto.encode raw in
      let expires = t.clock + input.session_ttl in
      then_query (create_session u (crypto.digest token) (micros expires))
        λ _ d. ok (record { user_id = u; access_token = token; expires_at = expires }, d)

  abbrev pub rest_query : Crypto → Moment → LoginInput → ℕ → Query Accounts LoginResult
  rest_query crypto t input u =
      then_query (each_query (λ token. put_credential t.now u token) input.credentials) λ _.
        then_query (migrate_query t u input.migration)
          λ _. then_query (with_tables input.random) λ raw. session_query crypto t input u raw

  unfoldable pub login_query : Crypto → Moment → LoginInput → Query Accounts LoginResult
  login_query crypto t input = then_query (upsert_apple_user t.now input.subject) λ user.
      then_query (token_query input.identity_token_hash user.id)
        λ _. rest_query crypto t input user.id

  Refines-migrate :
      (t : Moment) (u : ℕ) (input : MigrationInput)
      → Refines (migrate t u input) (migrate_query t u input)
  unfolding migrate
  Refines-migrate t u input =
      Refines-bind _ _ _ _ (Refines-for_each _ _ (Refines-bookmark t.now u) input.bookmarks) λ _.
        Refines-bind _ _ _ _
          (Refines-for_each _ _ (λ p. Refines-drop_row _ _ (Refines-listen t u p)) input.progress)
          λ _.
            Refines-bind _ _ _ _
              (Refines-for_each _ _ (λ e. Refines-drop_row _ _ (Refines-learn t u e))
                input.vocabulary)
              λ _.
                Refines-for_each _ _ (λ a. Refines-drop_row _ _ (Refines-practise t u a))
                  input.grammar_attempts

  Refines-login :
      (crypto : Crypto) (t : Moment) (input : LoginInput)
      → Refines (login_body crypto t input) (login_query crypto t input)
  unfolding login_body login_query
  Refines-login crypto t input = Refines-bind _ _ _ _ (Refines-statement _) λ user.
      Refines-bind _ _ _ _ (Refines-token _ user.id) λ _.
        Refines-bind _ _ _ _ (Refines-for_each _ _ (λ token. Refines-statement _) input.credentials)
          λ _. Refines-bind _ _ _ _ (Refines-migrate t user.id input.migration) λ _.
            Refines-bind _ _ _ _ (Refines-lift input.random)
              λ raw. Refines-bind _ _ _ _ (Refines-statement _) (λ _. Refines-pure _)

  -- A login either succeeds and has made the account, the migration and the session, or fails and has
  -- changed nothing; only where the round trip of the commit is lost may it have done all of it and
  -- be reported as failed.
  pub login_atomic :
      (crypto : Crypto) (t : Moment) (input : LoginInput) (w : World Accounts)
      → AllOrNothing
          (create_login crypto t input w).0
          w.tables
          (create_login crypto t input w).1.tables
          (login_query crypto t input)
  unfolding create_login
  login_atomic crypto t input w = transact_atomic _ _ (Refines-login crypto t input) w
