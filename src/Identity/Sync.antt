-- ===== src/Identity/Sync.antt =====
-- GET /me/sync (internal/httpapi/identity.go) over ListUserEventsAfter (identity.sql.go): a page of
-- the event log behind a cursor.
use el_backend.Base.Sort.{stable_sort}
use el_backend.Identity.Schema.{Accounts, UserEvent}
use el_backend.Base.{◌&&◌, filter, ltb, length, ◌==◌, [], take, Bool, ◌∷◌, List, ℕ}
pub mod Drain

abbrev pub page_limit : ℕ
page_limit = 100

abbrev pub earlier : UserEvent → UserEvent → Bool
earlier a b = ltb a.sequence b.sequence

abbrev pub is_after : ℕ → ℕ → UserEvent → Bool
is_after u cursor e = e.user_id == u && ltb cursor e.sequence

-- ListUserEventsAfter: WHERE, ORDER BY, LIMIT
unfoldable pub list_user_events_after : ℕ → ℕ → ℕ → Accounts → List UserEvent
unfolding stable_sort
list_user_events_after u cursor limit d =
    take limit (stable_sort earlier (filter (is_after u cursor) d.events))

pub record Page : Type 0 where
  pub changes : List UserEvent
  pub next_cursor : ℕ
  pub has_more : Bool

-- events[len(events)-1].Sequence, or the cursor where there is no event
unfoldable pub last_sequence : ℕ → List UserEvent → ℕ
last_sequence cursor [] = cursor
last_sequence cursor (e ∷ es) = last_sequence e.sequence es

unfoldable pub sync_page : ℕ → ℕ → Accounts → Page
unfolding list_user_events_after last_sequence
sync_page u cursor d =
    let events = list_user_events_after u cursor page_limit d in
    record {
      changes = events;
      next_cursor = last_sequence cursor events;
      has_more = length events == page_limit;
    }
