-- ===== src/Identity/Login/Session.antt =====
-- The token that a login returns opens a session: until it expires, or until a logout.
use el_backend.Text.Equality.{text_eq_refl}
use el_backend.Database.{on_pool, no_rows, World, with_tables, Error, each_query}
use el_backend.Database.Keeps.{after-eq-ok}
use el_backend.Identity.Input.{micros}
use el_backend.Database.Table.{delete_rows, any}
use el_backend.Identity.Service.{Moment}
use el_backend.Identity.Login.{
  logout, authenticate, create_login, put_credential, LoginResult, LoginInput, Crypto,
}
use el_backend.Identity.Schema.{User, Session, Accounts, Bytes}
use el_backend.Base.{
  ◌≤◌, none, ◌∙◌, ◌≢◌, subst, ◌+◌, err, ap, Outcome, inr, inl, refl, Bool-cases, [], ◌∷◌, ◌++◌,
  arith, some, ◌&&◌, find?, ok, true, false, ltb, ◌≡◌, List, ℕ, Bool,
}
use el_backend.Text.{Text, text_eq, Unicode}
use el_backend.Identity.Queries.{
  delete_session, live_session, joined, is_user, upsert_apple_user, get_user_by_session_hash,
  create_session,
}
use el_backend.Identity.Login.Atomic.{migrate_query, token_query, login_query, login_atomic}

module _ {R : Type 0} (hits live : R → Bool) where
  find-append_fresh :
      (rows : List R) (new : R)
      → any hits rows ≡ false
      → find? (λ r. hits r && live r) (rows ++ new ∷ []) ≡ find? (λ r. hits r && live r) (new ∷ [])
  find-append_fresh [] new h = refl
  find-append_fresh (r ∷ rows) new h = ground (arith, find-append_fresh rows new)

find-any :
    {R : Type 0} (p : R → Bool) (rows : List R)
    → any p rows ≡ true
    → (r : R) × ((find? p rows ≡ some r) × (p r ≡ true))
find-any p [] h = absurd (ground arith)
find-any p (r ∷ rows) h = elim (Bool-cases (p r)) [
  | inl e ↦ (r, (rw e refl, e))
  | inr e ↦ rw e (find-any p rows (ground arith))
]

ok_pair :
    {A : Type 0} {a b : A} {d d' : Accounts}
    → Path (Outcome Error (A × Accounts)) (ok (a, d)) (ok (b, d'))
    → Path (A × Accounts) (a, d) (b, d')
ok_pair {A} {a} {b} {d} h =
    ap (λ (o : Outcome Error (A × Accounts)). elim o [ ok x ↦ x | err e ↦ (a, d) ]) h

-- the tables, and no fault to come
abbrev pub calm : {D : Type 0} → D → World D
calm d = record { tables = d; faults = [] }

-- the last statement of a login
record Opened (u : ℕ) (hash : Bytes) (expires : ℕ) (d' : Accounts) : Type 0 where
  before : Accounts
  made : Session
  opened : create_session u hash expires before ≡ ok (made, d')

joined-some :
    (s : Session) (d : Accounts) (user : User)
    → find? (is_user s.user_id) d.users ≡ some user
    → joined (some s) d ≡ ok (user, d)
joined-some s d user h = rw (joined, h) refl

newest :
    (hash : Bytes) (now : ℕ) (new : Session)
    → text_eq new.token_hash hash ≡ true
    → ltb now new.expires_at ≡ true
    → find? (live_session now hash) (new ∷ []) ≡ some new
newest hash now new h k = rw (h, k) refl

closed_session :
    (hash : Bytes) (now : ℕ) (rows : List Session)
    → find? (live_session now hash) (delete_rows (λ (r : Session). text_eq r.token_hash hash) rows)
      ≡ none
closed_session hash now [] = refl
closed_session hash now (r ∷ rows) = ground (arith, closed_session hash now rows)

Opened-live :
    (u : ℕ) (hash : Bytes) (expires now : ℕ) (d' : Accounts)
    → Opened u hash expires d'
    → ltb now expires ≡ true
    → (user : User) × ((get_user_by_session_hash now hash d' ≡ ok (user, d')) × (user.id ≡ u))
unfolding create_session get_user_by_session_hash
Opened-live u hash expires now d' o h =
    let known : any (is_user u) o.before.users ≡ true = ground arith in
    let fresh : any (λ (r : Session). text_eq r.token_hash hash) o.before.sessions ≡ false =
      ground arith in
    let new : Session = record { user_id = u; token_hash = hash; expires_at = expires } in
    let sessions : d'.sessions ≡ o.before.sessions ++ new ∷ [] = ground arith in
    let users : d'.users ≡ o.before.users = ground arith in
    let (user, (found, is_u)) = find-any (is_user u) o.before.users known in
    let live =
      find-append_fresh (λ (r : Session). text_eq r.token_hash hash) (λ r. ltb now r.expires_at)
        o.before.sessions new fresh in
    let at_end : find? (live_session now hash) d'.sessions ≡ some new =
      ap (find? (live_session now hash)) sessions
      ∙ live
      ∙ newest hash now new (text_eq_refl hash) h in
    (
      user,
      (
        ap (λ x. joined x d') at_end
            ∙ joined-some new d' user (ap (find? (is_user u)) users ∙ found),
        ground arith,
      ),
    )

Opened-late :
    (u : ℕ) (hash : Bytes) (expires late : ℕ) (d' : Accounts)
    → Opened u hash expires d'
    → expires ≤ late
    → get_user_by_session_hash late hash d' ≡ err no_rows
unfolding create_session get_user_by_session_hash
Opened-late u hash expires late d' o h =
    let fresh : any (λ (r : Session). text_eq r.token_hash hash) o.before.sessions ≡ false =
      ground arith in
    let new : Session = record { user_id = u; token_hash = hash; expires_at = expires } in
    let sessions : d'.sessions ≡ o.before.sessions ++ new ∷ [] = ground arith in
    let live =
      find-append_fresh (λ (r : Session). text_eq r.token_hash hash) (λ r. ltb late r.expires_at)
        o.before.sessions new fresh in
    let nobody : find? (live_session late hash) (new ∷ []) ≡ none = ground arith in
    ap (λ x. joined x d') (ap (find? (live_session late hash)) sessions ∙ live ∙ nobody)

module _ ⦃unicode : Unicode⦄ (crypto : Crypto) (t : Moment) (input : LoginInput) where
  login_query-Opened :
      (d d' : Accounts) (r : LoginResult)
      → login_query crypto t input d ≡ ok (r, d')
      → Opened r.user_id (crypto.digest r.access_token) (micros r.expires_at) d'
  unfolding login_query
  login_query-Opened d d' r h =
      let (user, d1, e1, h1) = after-eq-ok (upsert_apple_user t.now input.subject d) _ h in
      let (x2, d2, e2, h2) = after-eq-ok (token_query input.identity_token_hash user.id d1) _ h1 in
      let (x3, d3, e3, h3) =
        after-eq-ok (each_query (λ token. put_credential t.now user.id token) input.credentials d2)
          _ h2 in
      let (x4, d4, e4, h4) = after-eq-ok (migrate_query t user.id input.migration d3) _ h3 in
      let (raw, d5, e5, h5) = after-eq-ok (with_tables input.random d4) _ h4 in
      let (made, d6, e6, h6) =
        after-eq-ok
          (create_session user.id (crypto.digest (crypto.encode raw))
            (micros (t.clock + input.session_ttl)) d5)
          _ h5 in
      let same = ok_pair h6 in
      subst (λ x. Opened x.0.user_id (crypto.digest x.0.access_token) (micros x.0.expires_at) x.1)
        same (record { before = d5; made = made; opened = e6 })

  authenticate_ok :
      (now : ℕ) (token : Text) (d : Accounts) (user : User)
      → token ≢ []
      → get_user_by_session_hash now (crypto.digest token) d ≡ ok (user, d)
      → (authenticate crypto now token (calm d)).0 ≡ ok user
  unfolding authenticate on_pool
  authenticate_ok now [] d user n h = absurd (n refl)
  authenticate_ok now (c ∷ token) d user n h = rw h refl

  authenticate_late :
      (late : ℕ) (token : Text) (d : Accounts)
      → token ≢ []
      → get_user_by_session_hash late (crypto.digest token) d ≡ err no_rows
      → (authenticate crypto late token (calm d)).0 ≡ err no_rows
  unfolding authenticate on_pool
  authenticate_late late [] d n h = absurd (n refl)
  authenticate_late late (c ∷ token) d n h = rw h refl

  authenticate_out :
      (now : ℕ) (token : Text) (d : Accounts)
      → token ≢ []
      → (authenticate crypto now token (logout crypto token (calm d)).1).0 ≡ err no_rows
  unfolding authenticate logout on_pool delete_session get_user_by_session_hash
  authenticate_out now [] d n = absurd (n refl)
  authenticate_out now (c ∷ token) d n =
      rw (closed_session (crypto.digest (c ∷ token)) now d.sessions) refl

  abbrev pub IsOpen : ℕ → LoginResult → World Accounts → Type 0
  IsOpen now r w =
      (user : User) × (((authenticate crypto now r.access_token w).0 ≡ ok user)
        × (user.id ≡ r.user_id))

  -- After a login that succeeded, its token authenticates the user that the login returned, at every
  -- moment before the session expires; from then on, and after a logout with the token, it
  -- authenticates nobody.
  pub session_lifetime :
      (w : World Accounts) (r : LoginResult) (now late : ℕ)
      → (create_login crypto t input w).0 ≡ ok r
      → r.access_token ≢ []
      → ltb now (micros r.expires_at) ≡ true
      → micros r.expires_at ≤ late
      → IsOpen now r (calm (create_login crypto t input w).1.tables)
        × ((authenticate crypto late r.access_token
              (calm (create_login crypto t input w).1.tables)).0
            ≡ err no_rows)
        × ((authenticate crypto now r.access_token
              (logout crypto r.access_token (calm (create_login crypto t input w).1.tables)).1).0
            ≡ err no_rows)
  session_lifetime w r now late h n k after =
      let d = (create_login crypto t input w).1.tables in
      let open_now = login_query-Opened w.tables d r ((login_atomic crypto t input w).made r h) in
      let hash = crypto.digest r.access_token in
      let (user, (found, is_u)) =
        Opened-live r.user_id hash (micros r.expires_at) now d open_now k in
      let gone = Opened-late r.user_id hash (micros r.expires_at) late d open_now after in
      (
        (user, (authenticate_ok now r.access_token d user n found, is_u)),
        authenticate_late late r.access_token d n gone,
        authenticate_out now r.access_token d n,
      )
