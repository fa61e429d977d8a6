-- ===== src/Tests/Accounts.antt =====
-- Runs of the account service: one user, two content items, a few writes.
use el_backend.Identity.Commands.Calm.{perform_calm}
use el_backend.Identity.Commands.Events.{Records}
use el_backend.Identity.Commands.Logged.{perform-Records}
use el_backend.Base.Sort.{stable_sort}
use el_backend.Text.Ascii.{ascii}
use el_backend.Identity.Commands.Latest.{took, done}
use el_backend.Identity.Vocabulary.{validate_vocabulary}
use el_backend.Identity.Learning.{
  delete_vocabulary_entry, merge_review, update_vocabulary_review, merge_entry,
  upsert_vocabulary_entry, replace_attempt, upsert_grammar_attempt, merge_progress, upsert_progress,
}
use el_backend.Identity.Commands.Atomic.{perform_atomic}
use el_backend.Identity.Sync.{list_user_events_after, last_sequence, sync_page, is_after}
use el_backend.Identity.Queries.{create_user_event, delete_bookmark, upsert_bookmark}
use el_backend.Base.Int.{pos}
use el_backend.Identity.Input.{
  matches_word, normalize_vocabulary_word, micros, validate_vocabulary_review,
  validate_grammar_attempt, ProgressInput, zero_time,
}
use el_backend.Text.{
  storable, is_space, to_lower, valid_string, byte_len, text_eq, trim_space, codes,
}
use el_backend.Identity.Commands.Latest.{progress_latest, Steps}
use el_backend.Database.{kills, lift, transact, statement, lost, works, World}
use el_backend.Identity.Schema.{bookmark, upsert, progress, Accounts}
use el_backend.Identity.Sync.Drain.{drain}
use el_backend.Identity.Commands.Progress.{reports, stored_progress, Holds}
use el_backend.Identity.Commands.History.{drain-serve, serve, Request, IsLog}
use el_backend.Database.Atomic.{AllOrNothing}
use el_backend.Base.{◌⊎◌, ok, refl, false, ◌+◌, true, ltb, filter, [], ◌≡◌, ◌∷◌, arith, ℕ, List}
use el_backend.Identity.Commands.{listen, mark, effect, perform}
use el_backend.Identity.Service.{Moment}

-- every definition that a run goes through
program : Unit {0}
unfolding perform effect upsert_bookmark delete_bookmark create_user_event upsert_progress
    merge_progress upsert_grammar_attempt replace_attempt upsert_vocabulary_entry merge_entry
    update_vocabulary_review merge_review delete_vocabulary_entry statement transact serve
    validate_grammar_attempt validate_vocabulary_review validate_vocabulary micros trim_space
    text_eq byte_len normalize_vocabulary_word matches_word valid_string storable to_lower is_space
    lift kills sync_page last_sequence list_user_events_after drain stable_sort
program = tt

abbrev noon : Moment
noon = record { now = 5_000; clock = zero_time + 9 }

abbrev tables : Accounts
tables = record {
  users = record { id = 7; apple_subject = codes "a"; updated_at = 0 } ∷ [];
  sessions = [];
  token_uses = [];
  bookmarks = [];
  progress = [];
  vocabulary = [];
  grammar = [];
  retells = [];
  events = [];
  credentials = [];
  has_content = λ c. ltb c 3;
  next_sequence = 1;
  next_id = 8;
}

abbrev world : World Accounts
world = record { tables = tables; faults = [] }

abbrev report : ℕ → ℕ → ProgressInput
report position time = record {
  content_id = 2;
  position_seconds = pos position;
  completed = false;
  client_updated_at = time;
}

abbrev later : Request
later = record { moment = noon; user = 7; command = listen (report 40 9_000) }

abbrev earlier_report : Request
earlier_report = record { moment = noon; user = 7; command = listen (report 10 4_000) }

abbrev requests : List Request
requests = later ∷ earlier_report ∷ []

abbrev after_both : Accounts
after_both = record tables {
  progress =
      record {
        user_id = 7;
        content_id = 2;
        position_seconds = pos 40;
        completed = false;
        client_updated_at = 9;
        server_updated_at = 5_000;
      }
      ∷ [];
  events =
      record {
        sequence = 1;
        user_id = 7;
        entity_type = progress;
        entity_id = 2;
        operation = upsert;
      }
      ∷ record {
        sequence = 2;
        user_id = 7;
        entity_type = progress;
        entity_id = 2;
        operation = upsert;
      }
      ∷ [];
  next_sequence = 3;
}

-- the late report of the earlier moment changes no position
both_served : (serve requests world).tables ≡ after_both
unfolding program
both_served = refl

IsLog-tables : IsLog tables
unfolding program
IsLog-tables = record { rising = tt; fresh = omega arith }

steps : Steps tables requests after_both
unfolding program
steps = took refl (took refl done)

abbrev marked : Accounts
marked = record tables {
  bookmarks = record { user_id = 7; content_id = 2; updated_at = 5_000 } ∷ [];
  events =
      record {
        sequence = 1;
        user_id = 7;
        entity_type = bookmark;
        entity_id = 2;
        operation = upsert;
      }
      ∷ [];
  next_sequence = 2;
}

perform_atomic_example :
    AllOrNothing
      (perform noon 7 (mark 2 true) (record world { faults = works ∷ lost ∷ [] })).0
      tables
      (perform noon 7 (mark 2 true) (record world { faults = works ∷ lost ∷ [] })).1.tables
      (effect noon 7 (mark 2 true))
perform_atomic_example =
    perform_atomic noon 7 (mark 2 true) (record world { faults = works ∷ lost ∷ [] })

progress_latest_example : Holds (stored_progress 7 2 after_both) (reports 7 2 requests)
unfolding program
progress_latest_example = progress_latest 7 2 steps refl

drain-serve_example :
    drain 5 7 0 (serve requests world).tables
    ≡ filter (is_after 7 0) (serve requests world).tables.events
unfolding program
drain-serve_example = drain-serve requests world 7 5 0 IsLog-tables (omega arith)

perform_calm_example :
    perform noon 7 (mark 2 true) (record { tables = tables; faults = [] })
    ≡ (ok tt, record { tables = marked; faults = [] })
unfolding program
perform_calm_example = perform_calm noon 7 (mark 2 true) tables marked refl

perform-Records_example :
    ((perform noon 7 (mark 2 true) world).0 ≡ ok tt
      → Records 7 bookmark upsert tables (perform noon 7 (mark 2 true) world).1.tables)
    × (((perform noon 7 (mark 2 true) world).1.tables ≡ tables)
        ⊎ Records 7 bookmark upsert tables (perform noon 7 (mark 2 true) world).1.tables)
perform-Records_example = perform-Records noon 7 (mark 2 true) world
