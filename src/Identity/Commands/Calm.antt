-- ===== src/Identity/Commands/Calm.antt =====
-- Without faults every write does just its effect, and reports the error that it meets.
use el_backend.Identity.Vocabulary.{vocabulary_body}
use el_backend.Identity.Input.{validate_vocabulary_review, validate_grammar_attempt}
use el_backend.Identity.Commands.Atomic.{
  Refines-remove, Refines-review, Refines-learn, Refines-practise, Refines-listen, Refines-mark,
}
use el_backend.Database.Atomic.{transact_calm}
use el_backend.Identity.Commands.Events.{drop_value-eq-ok}
use el_backend.Database.Refine.{Refines}
use el_backend.Identity.Commands.{
  remove, review, learn, practise, listen, mark, forget, Command, effect, drop_value, perform,
}
use el_backend.Identity.Service.{
  delete_vocabulary_body, review_body, grammar_body, progress_body, bookmark_body, if_valid, Moment,
}
use el_backend.Identity.Schema.{Accounts}
use el_backend.Base.{ap, refl, [], arith, ok, err, ◌≡◌, ℕ, Outcome}
use el_backend.Text.{Unicode}
use el_backend.Database.{transact, with_tables, then_query, Query, Error, Tx}

module _ {A : Type 0} (m : Tx Accounts A) (q : Query Accounts A) (rm : Refines m q)
    (d : Accounts) where
  calm_ok :
      (d' : Accounts)
      → drop_value (q d) ≡ ok (tt, d')
      → forget (transact m (record { tables = d; faults = [] }))
        ≡ (ok tt, record { tables = d'; faults = [] })
  calm_ok d' h =
      let (a, e) = drop_value-eq-ok (q d) d' h in ap forget (transact_calm m q rm d a d' e)

  module _ (v : Outcome Error (Unit {0})) where
    checked_ok :
        (d' : Accounts)
        → drop_value (q d) ≡ ok (tt, d')
        → v ≡ ok tt
        → forget (if_valid v (transact m) (record { tables = d; faults = [] }))
          ≡ (ok tt, record { tables = d'; faults = [] })
    checked_ok d' h e = rw e (calm_ok d' h)

valid_first :
    {A : Type 0} (v : Outcome Error (Unit {0})) (q : Query Accounts A) (d d' : Accounts)
    → drop_value (then_query (with_tables v) (λ _. q) d) ≡ ok (tt, d')
    → (v ≡ ok tt) × (drop_value (q d) ≡ ok (tt, d'))
valid_first (ok x) q d d' h = (refl, h)
valid_first (err e) q d d' h = absurd (ground arith)

module _ ⦃unicode : Unicode⦄ (t : Moment) (u : ℕ) where
  -- If no round trip fails and the effect of a write is defined, the write succeeds with it.
  pub perform_calm :
      (command : Command) (d d' : Accounts)
      → effect t u command d ≡ ok (tt, d')
      → perform t u command (record { tables = d; faults = [] })
        ≡ (ok tt, record { tables = d'; faults = [] })
  unfolding perform effect
  perform_calm (mark c enabled) d d' h =
      calm_ok (bookmark_body t.now u c enabled) _ (Refines-mark t u c enabled) d d' h
  perform_calm (listen input) d d' h =
      calm_ok (progress_body t.now u input) _ (Refines-listen t u input) d d' h
  perform_calm (practise input) d d' h =
      let (e, k) = valid_first (validate_grammar_attempt input) _ d d' h in
      checked_ok (grammar_body t.now u input) _ (Refines-practise t u input) d
        (validate_grammar_attempt input) d' h e
  perform_calm (learn input) d d' h =
      calm_ok (vocabulary_body t u input) _ (Refines-learn t u input) d d' h
  perform_calm (review entry input) d d' h =
      let (e, k) = valid_first (validate_vocabulary_review input) _ d d' h in
      checked_ok (review_body u entry input) _ (Refines-review t u entry input) d
        (validate_vocabulary_review input) d' k e
  perform_calm (remove entry) d d' h =
      calm_ok (delete_vocabulary_body u entry) _ (Refines-remove t u entry) d d' h
