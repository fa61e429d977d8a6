-- ===== src/Identity/Commands/History.antt =====
-- Histories of writes by any users under any faults, and the event log that they leave.
use el_backend.Database.Atomic.{AllOrNothing}
use el_backend.Identity.Commands.Events.{effect-Records, Records}
use el_backend.Identity.Commands.Atomic.{perform_atomic}
use el_backend.Identity.Commands.{perform, Command}
use el_backend.Identity.Sync.Drain.{drain_all, drain, Increasing}
use el_backend.Database.{Query, Error, World}
use el_backend.Identity.Sync.{is_after, last_sequence}
use el_backend.Identity.Service.{Moment}
use el_backend.Identity.Schema.{UserEvent, Operation, EntityType, Accounts}
use el_backend.Text.{Unicode}
use el_backend.Base.{
  err, inr, ok, sym, refl, ◌⊎◌, subst, inl, arith, ◌≡◌, filter, ◌++◌, [], ◌<◌, ◌∷◌, length, List, ℕ,
  Outcome,
}

pub record Request : Type 0 where
  pub moment : Moment
  pub user : ℕ
  pub command : Command

-- the log is in order, and the next number is fresh
pub record IsLog (d : Accounts) : Type 0 where
  pub rising : Increasing 0 d.events
  pub fresh : last_sequence 0 d.events < d.next_sequence

Increasing-append :
    (c : ℕ) (es : List UserEvent) (e : UserEvent)
    → Increasing c es
    → last_sequence c es < e.sequence
    → Increasing c (es ++ e ∷ [])
unfolding last_sequence
Increasing-append c [] e h k = (k, tt)
Increasing-append c (x ∷ es) e h k = (h.0, Increasing-append x.sequence es e h.1 k)

last_sequence-append :
    (c : ℕ) (es : List UserEvent) (e : UserEvent) → last_sequence c (es ++ e ∷ []) ≡ e.sequence
unfolding last_sequence
last_sequence-append c [] e = refl
last_sequence-append c (x ∷ es) e = last_sequence-append x.sequence es e

Records-IsLog :
    {u : ℕ} {kind : EntityType} {operation : Operation} {d d' : Accounts}
    → Records u kind operation d d'
    → IsLog d
    → IsLog d'
Records-IsLog {u} {kind} {operation} {d} {d'} r h = record {
  rising = rw r.logged (Increasing-append 0 d.events _ h.rising h.fresh);
  fresh = rw (r.logged, r.advanced, last_sequence-append) (omega arith);
}

-- either nothing happened or the whole query did
pub AllOrNothing-cases :
    (r : Outcome Error (Unit {0})) (before after : Accounts) (q : Query Accounts (Unit {0}))
    → AllOrNothing r before after q
    → (after ≡ before) ⊎ (q before ≡ ok (tt, after))
AllOrNothing-cases (ok a) before after q h = inr (h.made a refl)
AllOrNothing-cases (err e) before after q h = elim (h.failed e refl) [
  | inl x ↦ inl x
  | inr (x, (a, y)) ↦ inr y
]

module _ ⦃unicode : Unicode⦄ where
  unfoldable pub serve : List Request → World Accounts → World Accounts
  serve [] w = w
  serve (r ∷ rs) w = serve rs (perform r.moment r.user r.command w).1

  perform-IsLog :
      (r : Request) (w : World Accounts)
      → IsLog w.tables
      → IsLog (perform r.moment r.user r.command w).1.tables
  perform-IsLog r w h =
      elim (AllOrNothing-cases _ _ _ _ (perform_atomic r.moment r.user r.command w)) [
        | inl e ↦ subst IsLog (sym e) h
        | inr e ↦ Records-IsLog (effect-Records r.moment r.user r.command _ _ e) h
      ]

  serve-IsLog :
      (rs : List Request) (w : World Accounts) → IsLog w.tables → IsLog (serve rs w).tables
  unfolding serve
  serve-IsLog [] w h = h
  serve-IsLog (r ∷ rs) w h =
      serve-IsLog rs (perform r.moment r.user r.command w).1 (perform-IsLog r w h)

  -- After any writes of any users, whatever round trips failed, a client that follows the cursor of
  -- /me/sync from any point receives exactly its own events behind that point, in order and each
  -- once.
  pub drain-serve :
      (rs : List Request) (w : World Accounts) (u fuel c : ℕ)
      → IsLog w.tables
      → length (filter (is_after u c) (serve rs w).tables.events) < fuel
      → drain fuel u c (serve rs w).tables ≡ filter (is_after u c) (serve rs w).tables.events
  drain-serve rs w u fuel c h enough =
      drain_all u (serve rs w).tables (serve-IsLog rs w h).rising fuel c enough
