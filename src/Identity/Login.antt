-- ===== src/Identity/Login.antt =====
-- createLogin, Login from the verified subject on, LoginDevelopment, Authenticate, Logout
-- (internal/identity/service.go). crypto/sha256 and base64 are arguments, as is what rand.Read gives.
pub mod Atomic
pub mod Session
pub mod Tokens
pub mod Marks
pub mod Replay
use el_backend.Database.Table.{upsert_row, any}
use el_backend.Identity.Vocabulary.{vocabulary_body}
use el_backend.Identity.Queries.{
  get_user_by_session_hash, create_session, create_user_event, user_exists, record_token_use,
  delete_session, upsert_apple_user, upsert_bookmark,
}
use el_backend.Identity.Input.{micros, MigrationInput}
use el_backend.Identity.Service.{grammar_body, progress_body, Moment}
use el_backend.Base.{
  ◌++◌, if◌then◌else◌, ok, ◌&&◌, [], ◌||◌, ◌+◌, ◌==◌, err, not, false, guard, none, some, ◌∷◌,
  Outcome, Bool, List, ℕ,
}
use el_backend.Identity.Schema.{upsert, bookmark, User, Accounts, Credential, Bytes}
use el_backend.Database.{
  missing_device, violation, missing_token, replay_rejected, attempt, on_pool, transact, lift,
  Error, on_error, statement, ◌>>◌, for_each, Query, pure, Tx, World, ◌>>=◌,
}
use el_backend.Text.{codes, Unicode, Text}

-- sha256.Sum256 of a string, and base64.RawURLEncoding.EncodeToString
pub record Crypto : Type 0 where
  pub digest : Text → Bytes
  pub encode : Bytes → Text

-- sealedAppleToken
pub record SealedToken : Type 0 where
  pub id : ℕ
  pub ciphertext : Bytes

pub record LoginResult : Type 0 where
  pub user_id : ℕ
  pub access_token : Text
  pub expires_at : ℕ

-- the arguments of createLogin, with s.sessionTTL in nanoseconds and the result of rand.Read
pub record LoginInput : Type 0 where
  pub subject : Text
  pub identity_token_hash : Bytes
  pub migration : MigrationInput
  pub credentials : List SealedToken
  pub session_ttl : ℕ
  pub random : Outcome Error Bytes

-- INSERT INTO apple_credentials … ON CONFLICT (user_id) DO UPDATE; the id is the primary key
abbrev pub owned_by : ℕ → Credential → Bool
owned_by u r = elim r.user_id [ none ↦ false | some v ↦ v == u ]

unfoldable pub put_credential : ℕ → ℕ → SealedToken → Query Accounts (Unit {0})
put_credential now u token d =
    let new : Credential = record {
      id = token.id;
      user_id = some u;
      encrypted_refresh_token = token.ciphertext;
      attempts = 0;
      next_attempt_at = now;
    } in
    guard
      (not (user_exists u d)
        || any (λ (r : Credential). r.id == token.id && not (owned_by u r)) d.credentials)
      violation
      (ok (tt, record d { credentials = upsert_row (owned_by u) new (λ r. new) d.credentials }))

-- `if len(identityTokenHash) > 0 { … }`
unfoldable pub record_identity_token : Bytes → ℕ → Tx Accounts (Unit {0})
unfolding pure
record_identity_token [] u = pure tt
record_identity_token (b ∷ bs) u =
    on_error replay_rejected (statement (record_token_use (b ∷ bs) u))

-- the bookmark of a device; the error of its event is dropped
unfoldable pub migrate_bookmark : ℕ → ℕ → ℕ → Tx Accounts (Unit {0})
unfolding ◌>>=◌
migrate_bookmark now u c = do
  statement (upsert_bookmark now u c)
  attempt (statement (create_user_event u bookmark c upsert))

abbrev pub drop_row : {A : Type 0} → Tx Accounts A → Tx Accounts (Unit {0})
drop_row m = m >>= λ _. pure tt

module _ ⦃unicode : Unicode⦄ where
  -- the four loops over what the device has collected
  unfoldable pub migrate : Moment → ℕ → MigrationInput → Tx Accounts (Unit {0})
  unfolding ◌>>=◌ pure for_each migrate_bookmark progress_body vocabulary_body grammar_body
  migrate t u input = do
    for_each (migrate_bookmark t.now u) input.bookmarks
    for_each (λ p. drop_row (progress_body t.now u p)) input.progress
    for_each (λ e. drop_row (vocabulary_body t u e)) input.vocabulary
    for_each (λ a. drop_row (grammar_body t.now u a)) input.grammar_attempts

  unfoldable pub login_body : Crypto → Moment → LoginInput → Tx Accounts LoginResult
  unfolding ◌>>=◌ pure for_each record_identity_token migrate
  login_body crypto t input = do
    user ← statement (upsert_apple_user t.now input.subject)
    record_identity_token input.identity_token_hash user.id
    for_each (λ token. statement (put_credential t.now user.id token)) input.credentials
    migrate t user.id input.migration
    raw ← lift input.random
    let token = crypto.encode raw
    let expires = t.clock + input.session_ttl
    statement (create_session user.id (crypto.digest token) (micros expires))
    pure (record { user_id = user.id; access_token = token; expires_at = expires })

  unfoldable pub create_login :
      Crypto → Moment → LoginInput → World Accounts → Outcome Error LoginResult × World Accounts
  unfolding login_body
  create_login crypto t input = transact (login_body crypto t input)

unfoldable pub authenticate :
    Crypto → ℕ → Text → World Accounts → Outcome Error User × World Accounts
authenticate crypto now [] w = (err missing_token, w)
authenticate crypto now (c ∷ token) w =
    on_pool (get_user_by_session_hash now (crypto.digest (c ∷ token))) w

unfoldable pub logout : Crypto → Text → World Accounts → Outcome Error (Unit {0}) × World Accounts
logout crypto token w = on_pool (delete_session (crypto.digest token)) w

module _ ⦃unicode : Unicode⦄ where
  -- Login: the verifier's answer is the subject; `hash` is the digest of the identity token
  unfoldable pub login :
      Crypto
      → Moment
      → Outcome Error Text
      → LoginInput
      → World Accounts
      → Outcome Error LoginResult × World Accounts
  unfolding create_login
  login crypto t (err e) input w = (err e, w)
  login crypto t (ok subject) input w =
      create_login crypto t (record input { subject = subject; credentials = [] }) w

  -- LoginDevelopment; `uuid_text` is deviceID.String()
  unfoldable pub login_development :
      Crypto
      → (ℕ → Text)
      → Moment
      → ℕ
      → LoginInput
      → World Accounts
      → Outcome Error LoginResult × World Accounts
  unfolding create_login
  login_development crypto uuid_text t device input w =
      if device == 0
      then (err missing_device, w)
      else create_login crypto t
          (record input {
            subject = codes "development:" ++ uuid_text device;
            identity_token_hash = [];
            credentials = [];
          })
          w
