-- ===== src/Tests/Logins.antt =====
-- Runs of the login: a device with a bookmark signs in with an identity token.
use el_backend.Base.Sort.{stable_sort}
use el_backend.Retell.Requests.{list_retell_attempts}
use el_backend.Retell.Account.{
  delete_user, end_account, after_objects, remove_all, remove_recordings, delete_account,
}
use el_backend.Tests.Recordings.{keys, no_objects}
use el_backend.Identity.Login.Replay.{Step, signed_in, signed_out, left, run}
use el_backend.Identity.Queries.{
  create_user_event, upsert_bookmark, create_session, record_token_use, upsert_apple_user,
}
use el_backend.Identity.Login.Replay.{login_once}
use el_backend.Identity.Login.Session.{session_lifetime, calm, IsOpen}
use el_backend.Text.{text_eq, codes}
use el_backend.Identity.Schema.{Accounts}
use el_backend.Base.{List, arith, err, ◌≡◌, refl, ltb, [], ok, ◌∷◌, ◌≢◌}
use el_backend.Identity.Login.Atomic.{login_atomic, login_query}
use el_backend.Database.Atomic.{AllOrNothing}
use el_backend.Database.{
  answer, on_pool, kills, commit, finish, begin, transact, settle, send, statement, on_error,
  attempt, lift, pure, no_rows, continue_with, ◌>>=◌, for_each, World,
}
use el_backend.Identity.Login.{
  logout, record_identity_token, migrate_bookmark, authenticate, migrate, login_body, LoginResult,
  LoginInput, Crypto, create_login,
}
use el_backend.Identity.Service.{Moment}
use el_backend.Identity.Input.{micros}
use el_backend.Text.Ascii.{ascii}

abbrev crypto : Crypto
crypto = record { digest = λ s. 1 ∷ s; encode = λ b. 9 ∷ b }

abbrev device : LoginInput
device = record {
  subject = codes "apple";
  identity_token_hash = 5 ∷ 6 ∷ [];
  migration = record { bookmarks = 2 ∷ []; progress = []; vocabulary = []; grammar_attempts = [] };
  credentials = [];
  session_ttl = 1_000_000;
  random = ok (3 ∷ 4 ∷ []);
}

abbrev morning : Moment
morning = record { now = 100; clock = 200_000 }

abbrev empty_world : World Accounts
empty_world = record {
  tables = record {
    users = [];
    sessions = [];
    token_uses = [];
    bookmarks = [];
    progress = [];
    vocabulary = [];
    grammar = [];
    retells = [];
    events = [];
    credentials = [];
    has_content = λ c. ltb c 3;
    next_sequence = 1;
    next_id = 8;
  };
  faults = [];
}

abbrev opened : LoginResult
opened = record { user_id = 8; access_token = 9 ∷ 3 ∷ 4 ∷ []; expires_at = 1_200_000 }

signs_in : (create_login crypto morning device empty_world).0 ≡ ok opened
unfolding create_login login_body migrate migrate_bookmark record_identity_token for_each ◌>>=◌
    continue_with pure lift attempt on_error statement send settle transact begin finish commit
    kills upsert_apple_user record_token_use create_session upsert_bookmark create_user_event micros
    text_eq
signs_in = refl

login_atomic_example :
    AllOrNothing
      (create_login crypto morning device empty_world).0
      empty_world.tables
      (create_login crypto morning device empty_world).1.tables
      (login_query crypto morning device)
login_atomic_example = login_atomic crypto morning device empty_world

session_lifetime_example :
    IsOpen crypto morning device 1_100 opened
      (calm (create_login crypto morning device empty_world).1.tables)
    × ((authenticate crypto 9_000 opened.access_token
          (calm (create_login crypto morning device empty_world).1.tables)).0
        ≡ err no_rows)
    × ((authenticate crypto 1_100 opened.access_token
          (logout crypto opened.access_token
            (calm (create_login crypto morning device empty_world).1.tables)).1).0
        ≡ err no_rows)
unfolding micros
session_lifetime_example =
    session_lifetime crypto morning device empty_world opened 1_100 9_000 signs_in
      (λ e. ground arith) refl (omega arith)

-- in between, another login with the token, a logout, and the end of another account
abbrev between : List (Step crypto)
between = signed_in morning device ∷ signed_out opened.access_token ∷ left 3 ∷ []

login_once_example :
    (create_login crypto morning device
      (run crypto keys between
        ((create_login crypto morning device empty_world).1, no_objects)).0).0
    ≢ ok opened
login_once_example =
    login_once crypto keys morning morning device device empty_world no_objects opened opened
      between (λ e. ground arith) refl signs_in (tt, (tt, ((λ e. ground arith), tt)))

-- the deletion of the account takes the mark of the token with it
signs_in_again :
    (create_login crypto morning device
      (run crypto keys
        (left 8 ∷ [])
        ((create_login crypto morning device empty_world).1, no_objects)).0).0
    ≡ ok (record opened { user_id = 9 })
unfolding create_login login_body migrate migrate_bookmark record_identity_token for_each ◌>>=◌
    continue_with pure lift attempt on_error statement send settle transact begin finish commit
    kills upsert_apple_user record_token_use create_session upsert_bookmark create_user_event micros
    text_eq delete_account remove_recordings remove_all after_objects end_account delete_user
    list_retell_attempts stable_sort on_pool answer
signs_in_again = refl
