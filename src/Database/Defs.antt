-- ===== src/Database/Defs.antt =====
-- pgxpool.Pool.Begin, pgx.Tx and a query on the pool.
use el_backend.Base.{Bool, true, false, ◌||◌, List, [], ◌∷◌, Outcome, ok, err, if◌then◌else◌}

-- the errors that the program tells apart, and those of pgx and PostgreSQL
pub data Error : Type 0 where
  -- pgx.ErrNoRows, a violated constraint, a failed round trip, and a transaction that an earlier
  -- error has aborted, and a NULL that Scan does not take
  no_rows violation unavailable aborted null_column : Error
  invalid_grammar_attempt invalid_vocabulary invalid_vocabulary_review : Error
  vocabulary_not_found missing_token missing_device : Error
  invalid_document audio_integrity already_reserved reservation_lost : Error
  replay_rejected : Error → Error

-- how a round trip ends: `unheard` is one that the server carried out and whose reply was lost
pub data Fault : Type 0 where
  works lost unheard : Fault

abbrev pub head_fault : List Fault → Fault
head_fault [] = works
head_fault (f ∷ fs) = f

abbrev pub tail_faults : List Fault → List Fault
tail_faults [] = []
tail_faults (f ∷ fs) = fs

pub record World (D : Type 0) : Type 0 where
  pub tables : D
  pub faults : List Fault

-- inside a transaction; `dead` after an error of the server or of the connection
pub record TxState (D : Type 0) : Type 0 where
  pub tables : D
  pub faults : List Fault
  pub dead : Bool

-- a result without rows is no error of the server
unfoldable pub kills : Error → Bool
kills no_rows = false
kills _ = true

abbrev pub Query : Type 0 → Type 0 → Type 0
Query D A = D → Outcome Error (A × D)

abbrev pub Tx : Type 0 → Type 0 → Type 0
Tx D A = TxState D → Outcome Error A × TxState D

abbrev pub map_err : {A : Type 0} → (Error → Error) → Outcome Error A → Outcome Error A
map_err f (ok a) = ok a
map_err f (err e) = err (f e)

module _ {D : Type 0} {A : Type 0} where
  unfoldable pub pure : A → Tx D A
  pure a s = (ok a, s)

  unfoldable pub fail : Error → Tx D A
  fail e s = (err e, s)

  -- a result that is computed with no statement
  unfoldable pub lift : Outcome Error A → Tx D A
  lift r s = (r, s)

  abbrev pub with_tables : Outcome Error A → Query D A
  with_tables (ok a) d = ok (a, d)
  with_tables (err e) d = err e

  unfoldable pub settle : Outcome Error (A × D) → TxState D → Outcome Error A × TxState D
  settle (ok (a, d)) s = (ok a, record s { tables = d })
  settle (err e) s = (err e, record s { dead = s.dead || kills e })

  unfoldable pub send : Fault → Query D A → TxState D → Outcome Error A × TxState D
  unfolding settle
  send works q s = settle (q s.tables) s
  send lost q s = (err unavailable, record s { dead = true })
  send unheard q s = (err unavailable, record s { dead = true })

  unfoldable pub statement : Query D A → Tx D A
  unfolding send
  statement q s =
      if s.dead
      then (err aborted, s)
      else send (head_fault s.faults) q (record s { faults = tail_faults s.faults })

  -- `_, _ = …`: the error is dropped
  unfoldable pub attempt : Tx D A → Tx D (Unit {0})
  attempt m s = (ok tt, (m s).1)

  -- the error of a statement is returned as another
  unfoldable pub on_error : (Error → Error) → Tx D A → Tx D A
  on_error f m s = (map_err f (m s).0, (m s).1)

  unfoldable pub commit : Fault → A → TxState D → D → Outcome Error A × D
  commit works a s before = (ok a, s.tables)
  commit lost a s before = (err unavailable, before)
  commit unheard a s before = (err unavailable, s.tables)

  -- tx.Commit, and the deferred tx.Rollback where the body returns early
  unfoldable pub finish : Outcome Error A × TxState D → D → Outcome Error A × World D
  unfolding commit
  finish (err e, s) before = (err e, record { tables = before; faults = s.faults })
  finish (ok a, s) before =
      if s.dead
      then (err aborted, record { tables = before; faults = s.faults })
      else let (r, d) = commit (head_fault s.faults) a s before in
        (r, record { tables = d; faults = tail_faults s.faults })

  unfoldable pub begin : Fault → Tx D A → World D → Outcome Error A × World D
  unfolding finish
  begin works m w =
      finish (m (record { tables = w.tables; faults = w.faults; dead = false })) w.tables
  begin lost m w = (err unavailable, w)
  begin unheard m w = (err unavailable, w)

  unfoldable pub transact : Tx D A → World D → Outcome Error A × World D
  unfolding begin
  transact m w = begin (head_fault w.faults) m (record w { faults = tail_faults w.faults })

  -- a query on the pool is a transaction of one statement
  unfoldable pub answer : Fault → Outcome Error (A × D) → World D → Outcome Error A × World D
  answer lost r w = (err unavailable, w)
  answer f (err e) w = (err e, w)
  answer works (ok (a, d)) w = (ok a, record w { tables = d })
  answer unheard (ok (a, d)) w = (err unavailable, record w { tables = d })

  unfoldable pub on_pool : Query D A → World D → Outcome Error A × World D
  unfolding answer
  on_pool q w =
      answer (head_fault w.faults) (q w.tables) (record w { faults = tail_faults w.faults })

module _ {D A B : Type 0} where
  unfoldable pub continue_with :
      Outcome Error A → (A → Tx D B) → TxState D → Outcome Error B × TxState D
  continue_with (ok a) f s = f a s
  continue_with (err e) f s = (err e, s)

  infixl 5 ◌>>=◌ ◌>>◌
  unfoldable pub ◌>>=◌ : Tx D A → (A → Tx D B) → Tx D B
  unfolding continue_with
  ◌>>=◌ m f s = let (r, s') = m s in continue_with r f s'

  abbrev pub ◌>>◌ : Tx D A → Tx D B → Tx D B
  m >> k = m >>= λ _. k

-- `for _, x := range xs { if err := body(x); err != nil { return err } }`
module _ {D A : Type 0} where
  unfoldable pub for_each : (A → Tx D (Unit {0})) → List A → Tx D (Unit {0})
  unfolding ◌>>=◌ pure
  for_each body [] = pure tt
  for_each body (x ∷ xs) = do body x; for_each body xs

-- the same chain as a function of the tables alone: what a transaction does when nothing fails
module _ {D A B : Type 0} where
  abbrev pub after : Outcome Error (A × D) → (A → Query D B) → Outcome Error (B × D)
  after (ok (a, d)) f = f a d
  after (err e) f = err e

  abbrev pub then_query : Query D A → (A → Query D B) → Query D B
  then_query q f d = after (q d) f

module _ {D A : Type 0} where
  abbrev pub each_query : (A → Query D (Unit {0})) → List A → Query D (Unit {0})
  each_query body [] d = ok (tt, d)
  each_query body (x ∷ xs) d = after (body x d) (λ _. each_query body xs)
