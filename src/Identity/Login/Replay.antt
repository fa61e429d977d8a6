-- ===== src/Identity/Login/Replay.antt =====
-- An identity token of Apple signs in once.
use el_backend.Identity.Login.Marks.{ok_not_err, login-refused, login-UsedBy, login-marks}
use el_backend.Database.Pool.{on_pool-cases}
use el_backend.Retell.Account.Forgotten.{delete_account-Leaves, Leaves}
use el_backend.Retell.Account.{delete_account, without_user}
use el_backend.Retell.Requests.{
  query_failed, store_unavailable, recording_not_found, invalid, returned, Returned,
}
use el_backend.Retell.{ObjectStore}
use el_backend.Database.Keeps.{ok-injective}
use el_backend.Identity.Commands.Atomic.{perform_atomic}
use el_backend.Identity.Commands.{perform}
use el_backend.Identity.Login.Tokens.{
  UsedBy-is_used, UsedBy-same, used_by, UsedBy, Keeps-effect, is_used,
}
use el_backend.Database.{World}
use el_backend.Database.Table.{delete_rows, any}
use el_backend.Identity.Commands.History.{AllOrNothing-cases, Request}
use el_backend.Identity.Service.{Moment}
use el_backend.Identity.Login.{logout, create_login, LoginResult, LoginInput, Crypto}
use el_backend.Base.{
  ◌==◌, All, Outcome-cases, subst, inr, ap, ◌∙◌, inl, sym, arith, true, ◌∷◌, [], ok, ◌≢◌, ◌≡◌, ℕ,
  List,
}
use el_backend.Text.{Text, Unicode}
use el_backend.Identity.Queries.{delete_session}
use el_backend.Identity.Schema.{TokenUse, Accounts, Bytes}
use el_backend.Identity.Login.Atomic.{login_atomic}

module _ ⦃unicode : Unicode⦄ (crypto : Crypto) where
  -- what may happen between two logins
  pub data Step : Type 0 where
    wrote : Request → Step
    signed_in : Moment → LoginInput → Step
    signed_out : Text → Step
    -- DELETE /me
    left : ℕ → Step

  -- a step that does not delete the account
  abbrev pub Spares : ℕ → Step → Type 0
  Spares u (wrote r) = Unit {0}
  Spares u (signed_in t input) = Unit {0}
  Spares u (signed_out token) = Unit {0}
  Spares u (left v) = v ≢ u

  module _ {O : Type 0} (store : ObjectStore O) where
    abbrev pub step : Step → World Accounts × O → World Accounts × O
    step (wrote r) (w, o) = ((perform r.moment r.user r.command w).1, o)
    step (signed_in t input) (w, o) = ((create_login crypto t input w).1, o)
    step (signed_out token) (w, o) = ((logout crypto token w).1, o)
    step (left v) s = (delete_account store v s).1

    abbrev pub run : List Step → World Accounts × O → World Accounts × O
    run [] s = s
    run (x ∷ steps) s = run steps (step x s)

    delete-UsedBy :
        (hash : Bytes) (u v : ℕ) (d : Accounts)
        → v ≢ u
        → UsedBy hash u d
        → UsedBy hash u (without_user v d)
    delete-UsedBy hash u v d n h = from d.token_uses h
      where
        from :
            (uses : List TokenUse)
            → any (used_by hash u) uses ≡ true
            → any (used_by hash u) (delete_rows (λ (r : TokenUse). r.user_id == v) uses) ≡ true
        from [] h = absurd (ground arith)
        from (r ∷ uses) h = ground (arith, from uses)

    left-UsedBy :
        (hash : Bytes) (u v : ℕ) (d : Accounts) (x : Returned (Unit {0}) × (World Accounts × O))
        → v ≢ u
        → Leaves store v d x
        → UsedBy hash u d
        → UsedBy hash u x.1.0.tables
    left-UsedBy hash u v d (returned _, (w, o)) n h k =
        subst (UsedBy hash u) (sym h.tables) (delete-UsedBy hash u v d n k)
    left-UsedBy hash u v d (query_failed, (w, o)) n (inl e) k = subst (UsedBy hash u) (sym e) k
    left-UsedBy hash u v d (query_failed, (w, o)) n (inr h) k =
        subst (UsedBy hash u) (sym h.tables) (delete-UsedBy hash u v d n k)
    left-UsedBy hash u v d (store_unavailable, (w, o)) n e k = subst (UsedBy hash u) (sym e) k
    left-UsedBy hash u v d (recording_not_found, (w, o)) n e k = subst (UsedBy hash u) (sym e) k
    left-UsedBy hash u v d (invalid, (w, o)) n e k = subst (UsedBy hash u) (sym e) k

    logout-UsedBy :
        (hash : Bytes) (u : ℕ) (token : Text) (w : World Accounts)
        → UsedBy hash u w.tables
        → UsedBy hash u (logout crypto token w).1.tables
    unfolding logout delete_session
    logout-UsedBy hash u token w k = elim (on_pool-cases (delete_session (crypto.digest token)) w) [
      | inl (x, (_, e)) ↦
          UsedBy-same hash u w.tables (logout crypto token w).1.tables
            (ap (λ (d : Accounts). d.token_uses) (sym (ok-injective e).1)) k
      | inr (c, (_, inl e)) ↦ subst (UsedBy hash u) (sym e) k
      | inr (c, (_, inr (x, e))) ↦
          UsedBy-same hash u w.tables (logout crypto token w).1.tables
            (ap (λ (d : Accounts). d.token_uses) (sym (ok-injective e).1)) k
    ]

    signed_in-UsedBy :
        (hash : Bytes) (u : ℕ) (t : Moment) (input : LoginInput) (w : World Accounts)
        → UsedBy hash u w.tables
        → UsedBy hash u (create_login crypto t input w).1.tables
    signed_in-UsedBy hash u t input w k =
        let whole = login_atomic crypto t input w in
        elim (Outcome-cases (create_login crypto t input w).0) [
          | inl (r, e) ↦ login-UsedBy crypto hash u t input w.tables _ r (whole.made r e) k
          | inr (c, e) ↦ elim (whole.failed c e) [
            | inl same ↦ subst (UsedBy hash u) (sym same) k
            | inr (_, (r, made)) ↦ login-UsedBy crypto hash u t input w.tables _ r made k
          ]
        ]

    wrote-UsedBy :
        (hash : Bytes) (u : ℕ) (r : Request) (w : World Accounts)
        → UsedBy hash u w.tables
        → UsedBy hash u (perform r.moment r.user r.command w).1.tables
    wrote-UsedBy hash u r w k =
        elim (AllOrNothing-cases _ _ _ _ (perform_atomic r.moment r.user r.command w)) [
          | inl e ↦ subst (UsedBy hash u) (sym e) k
          | inr e ↦
              UsedBy-same hash u w.tables (perform r.moment r.user r.command w).1.tables
                (Keeps-effect r.moment r.user r.command _ _ _ e) k
        ]

    run-UsedBy :
        (hash : Bytes) (u : ℕ) (steps : List Step) (s : World Accounts × O)
        → All (Spares u) steps
        → UsedBy hash u s.0.tables
        → UsedBy hash u (run steps s).0.tables
    run-UsedBy hash u [] s a k = k
    run-UsedBy hash u (wrote r ∷ steps) (w, o) a k =
        run-UsedBy hash u steps _ a.1 (wrote-UsedBy hash u r w k)
    run-UsedBy hash u (signed_in t input ∷ steps) (w, o) a k =
        run-UsedBy hash u steps _ a.1 (signed_in-UsedBy hash u t input w k)
    run-UsedBy hash u (signed_out token ∷ steps) (w, o) a k =
        run-UsedBy hash u steps _ a.1 (logout-UsedBy hash u token w k)
    run-UsedBy hash u (left v ∷ steps) (w, o) a k = run-UsedBy hash u steps _ a.1 (
        left-UsedBy hash u v w.tables (delete_account store v (w, o)) a.0
          (delete_account-Leaves store v w o) k)

    -- Once a login with an identity token has succeeded, no later login with it does, whatever it
    -- sends, after any learning writes, logins, logouts and deletions of accounts in between, with any
    -- failing round trips, as long as the account of the first login is not deleted.
    pub login_once :
        (t t' : Moment) (input again : LoginInput) (w : World Accounts) (o : O) (r r' : LoginResult)
        (steps : List Step)
        → input.identity_token_hash ≢ []
        → again.identity_token_hash ≡ input.identity_token_hash
        → (create_login crypto t input w).0 ≡ ok r
        → All (Spares r.user_id) steps
        → (create_login crypto t' again (run steps ((create_login crypto t input w).1, o)).0).0
          ≢ ok r'
    login_once t t' input again w o r r' steps n same h spared k =
        let hash = input.identity_token_hash in
        let s = run steps ((create_login crypto t input w).1, o) in
        let marked =
          login-marks crypto t input w.tables _ r n ((login_atomic crypto t input w).made r h) in
        let used : is_used hash s.0.tables ≡ true =
          UsedBy-is_used hash r.user_id s.0.tables
            (run-UsedBy hash r.user_id steps _ spared marked) in
        let made = (login_atomic crypto t' again s.0).made r' k in
        let refused =
          login-refused crypto t' again s.0.tables (λ e. n (sym same ∙ e))
            (ap (λ x. is_used x s.0.tables) same ∙ used) in
        ok_not_err (sym made ∙ refused)
