-- ===== src/Identity/Login/Marks.antt =====
-- What a login does to the table of used identity tokens.
use el_backend.Identity.Input.{micros}
use el_backend.Database.Keeps.{ok-injective, map_err-ok, after-eq-ok}
use el_backend.Text.Equality.{text_eq_refl}
use el_backend.Identity.Login.Tokens.{
  UsedBy-same, used_by, UsedBy, Keeps, Keeps-ok, Keeps-session, Keeps-with_tables, Keeps-migrate,
  Keeps-credential, Keeps-each, Keeps-then, is_used,
}
use el_backend.Database.{with_tables, each_query, Query, Error, after, violation, replay_rejected}
use el_backend.Database.Table.{any}
use el_backend.Identity.Service.{Moment}
use el_backend.Identity.Login.{put_credential, LoginResult, LoginInput, Crypto}
use el_backend.Base.{
  ◌+◌, ==_refl, Bool, Outcome, Bool-cases, subst, inr, ap, ◌∙◌, inl, refl, err, sym, arith, true,
  ◌∷◌, ◌++◌, [], ok, ◌≢◌, ◌≡◌, ℕ, List,
}
use el_backend.Text.{Unicode}
use el_backend.Identity.Queries.{create_session, user_exists, upsert_apple_user, record_token_use}
use el_backend.Identity.Schema.{User, TokenUse, Accounts, Bytes}
use el_backend.Identity.Login.Atomic.{migrate_query, rest_query, token_query, login_query}

any-append_last :
    (p : TokenUse → Bool) (uses : List TokenUse) (r : TokenUse)
    → p r ≡ true
    → any p (uses ++ r ∷ []) ≡ true
any-append_last p [] r h = rw h refl
any-append_last p (x ∷ uses) r h = ground (arith, any-append_last p uses r h)

any-append_first :
    (p : TokenUse → Bool) (uses more : List TokenUse)
    → any p uses ≡ true
    → any p (uses ++ more) ≡ true
any-append_first p [] more h = absurd (ground arith)
any-append_first p (x ∷ uses) more h = ground (arith, any-append_first p uses more)

recorded :
    (hash : Bytes) (u : ℕ) (d d' : Accounts)
    → record_token_use hash u d ≡ ok (tt, d')
    → d'.token_uses ≡ d.token_uses ++ record { token_hash = hash; user_id = u } ∷ []
unfolding record_token_use
recorded hash u d d' h = ground arith

token_query-ok :
    (b : ℕ) (bs : Bytes) (u : ℕ) (d d' : Accounts)
    → token_query (b ∷ bs) u d ≡ ok (tt, d')
    → d'.token_uses ≡ d.token_uses ++ record { token_hash = b ∷ bs; user_id = u } ∷ []
token_query-ok b bs u d d' h =
    recorded (b ∷ bs) u d d' (map_err-ok replay_rejected (record_token_use (b ∷ bs) u d) h)

token_marks :
    (hash : Bytes) (u : ℕ) (d d' : Accounts)
    → hash ≢ []
    → token_query hash u d ≡ ok (tt, d')
    → UsedBy hash u d'
token_marks [] u d d' n h = absurd (n refl)
token_marks (b ∷ bs) u d d' n h =
    let new : TokenUse = record { token_hash = b ∷ bs; user_id = u } in
    ap (any (used_by (b ∷ bs) u)) (token_query-ok b bs u d d' h)
    ∙ any-append_last (used_by (b ∷ bs) u) d.token_uses new
        (rw (text_eq_refl (b ∷ bs), ==_refl u) refl)

-- the mark of a token stays when another one is marked
token_query-UsedBy :
    (hash : Bytes) (u : ℕ) (other : Bytes) (v : ℕ) (d d' : Accounts)
    → token_query other v d ≡ ok (tt, d')
    → UsedBy hash u d
    → UsedBy hash u d'
token_query-UsedBy hash u [] v d d' h k = subst (UsedBy hash u) (ok-injective h).1 k
token_query-UsedBy hash u (b ∷ bs) v d d' h k =
    ap (any (used_by hash u)) (token_query-ok b bs v d d' h)
    ∙ any-append_first (used_by hash u) d.token_uses _ k

token_refuses :
    (hash : Bytes) (u : ℕ) (d : Accounts)
    → hash ≢ []
    → is_used hash d ≡ true
    → token_query hash u d ≡ err (replay_rejected violation)
unfolding record_token_use
token_refuses [] u d n h = absurd (n refl)
token_refuses (b ∷ bs) u d n h = elim (Bool-cases (user_exists u d)) [
  | inl e ↦ rw (e, h) refl
  | inr e ↦ rw e refl
]

after_err :
    {A B : Type 0} (r : Outcome Error (A × Accounts)) (f : A → Query Accounts B) {e : Error}
    → r ≡ err e
    → after r f ≡ err e
after_err (ok x) f h = absurd (ground arith)
after_err (err c) f h = ground arith

pub ok_not_err : {A : Type 0} {a : A} {e : Error} → Path (Outcome Error A) (ok a) (err e) → ⊥
ok_not_err h = ground arith

module _ ⦃unicode : Unicode⦄ (crypto : Crypto) where
  rest_query-Keeps : (t : Moment) (input : LoginInput) (u : ℕ) → Keeps (rest_query crypto t input u)
  rest_query-Keeps t input u =
      Keeps-then _ _ (Keeps-each _ (Keeps-credential t.now u) input.credentials) (λ _.
        Keeps-then _ _ (Keeps-migrate t u input.migration) λ _.
          Keeps-then _ _ (Keeps-with_tables input.random)
            λ raw. Keeps-then _ _ (Keeps-session u _ _) (λ _. Keeps-ok _))

  rest_query-user :
      (t : Moment) (input : LoginInput) (u : ℕ) (d : Accounts) (r : LoginResult) (d' : Accounts)
      → rest_query crypto t input u d ≡ ok (r, d')
      → r.user_id ≡ u
  rest_query-user t input u d r d' h =
      let (_, d1, _, h1) =
        after-eq-ok (each_query (λ token. put_credential t.now u token) input.credentials d) _ h in
      let (_, d2, _, h2) = after-eq-ok (migrate_query t u input.migration d1) _ h1 in
      let (raw, d3, _, h3) = after-eq-ok (with_tables input.random d2) _ h2 in
      let (_, d4, _, h4) =
        after-eq-ok
          (create_session u (crypto.digest (crypto.encode raw))
            (micros (t.clock + input.session_ttl)) d3)
          _ h3 in
      ap (λ (x : LoginResult). x.user_id) (sym (ok-injective h4).0)

  user_first :
      (t : Moment) (input : LoginInput) (d : Accounts) (user : User) (d' : Accounts)
      → upsert_apple_user t.now input.subject d ≡ ok (user, d')
      → d'.token_uses ≡ d.token_uses
  unfolding upsert_apple_user
  user_first t input d user d' h = ground arith

  pub login-marks :
      (t : Moment) (input : LoginInput) (d d' : Accounts) (r : LoginResult)
      → input.identity_token_hash ≢ []
      → login_query crypto t input d ≡ ok (r, d')
      → UsedBy input.identity_token_hash r.user_id d'
  unfolding login_query
  login-marks t input d d' r n h =
      let hash = input.identity_token_hash in
      let (user, d1, e1, h1) = after-eq-ok (upsert_apple_user t.now input.subject d) _ h in
      let (_, d2, e2, h2) = after-eq-ok (token_query hash user.id d1) _ h1 in
      rw (rest_query-user t input user.id d2 r d' h2) (
        UsedBy-same hash user.id d2 d' (rest_query-Keeps t input user.id d2 r d' h2)
          (token_marks hash user.id d1 d2 n e2))

  pub login-UsedBy :
      (hash : Bytes) (u : ℕ) (t : Moment) (input : LoginInput) (d d' : Accounts) (r : LoginResult)
      → login_query crypto t input d ≡ ok (r, d')
      → UsedBy hash u d
      → UsedBy hash u d'
  unfolding login_query
  login-UsedBy hash u t input d d' r h k =
      let (user, d1, e1, h1) = after-eq-ok (upsert_apple_user t.now input.subject d) _ h in
      let (_, d2, e2, h2) = after-eq-ok (token_query input.identity_token_hash user.id d1) _ h1 in
      UsedBy-same hash u d2 d' (rest_query-Keeps t input user.id d2 r d' h2) (
        token_query-UsedBy hash u input.identity_token_hash user.id d1 d2 e2
          (UsedBy-same hash u d d1 (user_first t input d user d1 e1) k))

  pub login-refused :
      (t : Moment) (input : LoginInput) (d : Accounts)
      → input.identity_token_hash ≢ []
      → is_used input.identity_token_hash d ≡ true
      → login_query crypto t input d ≡ err (replay_rejected violation)
  unfolding login_query upsert_apple_user
  login-refused t input d n h = after_err _ _ (token_refuses input.identity_token_hash _ _ n h)
