-- ===== src/Identity/Commands/Logged.antt =====
-- What the methods of the account service write into the event log (internal/identity/service.go).
use el_backend.Identity.Schema.{Accounts}
use el_backend.Database.{World}
use el_backend.Identity.Commands.{perform, Command}
use el_backend.Base.{inr, inl, ◌⊎◌, ok, ◌≡◌, ℕ}
use el_backend.Identity.Service.{Moment}
use el_backend.Text.{Unicode}
use el_backend.Identity.Commands.Atomic.{perform_atomic}
use el_backend.Identity.Commands.Events.{effect-Records, Records, kind_of, operation_of}
use el_backend.Identity.Commands.History.{AllOrNothing-cases}

module _ ⦃unicode : Unicode⦄ (t : Moment) (u : ℕ) where
  -- A method that succeeds has appended one event of its user, its kind and its operation to the log,
  -- with the next number, behind the events that were there. Whatever round trips fail, the tables are
  -- as they were or the event is written so.
  pub perform-Records :
      (command : Command) (w : World Accounts)
      → ((perform t u command w).0 ≡ ok tt
          → Records u
              (kind_of command)
              (operation_of command)
              w.tables
              (perform t u command w).1.tables)
        × (((perform t u command w).1.tables ≡ w.tables)
            ⊎ Records u
                (kind_of command)
                (operation_of command)
                w.tables
                (perform t u command w).1.tables)
  perform-Records command w =
      let whole = perform_atomic t u command w in
      (
        (λ e. effect-Records t u command _ _ (whole.made tt e)),
        elim (AllOrNothing-cases _ _ _ _ whole) [
          | inl e ↦ inl e
          | inr e ↦ inr (effect-Records t u command _ _ e)
        ],
      )
