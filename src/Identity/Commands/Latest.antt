-- ===== src/Identity/Commands/Latest.antt =====
-- The stored progress after a history of writes is the latest report.
use el_backend.Identity.Commands.Others.{effect-progress_other}
use el_backend.Database.Keeps.{after-eq-ok}
use el_backend.Identity.Commands.Events.{drop_value-eq-ok}
use el_backend.Identity.Commands.Progress.{
  upsert-Holds, report_of, reports, reported, stored_progress, Holds, Report,
}
use el_backend.Identity.Input.{ProgressInput}
use el_backend.Identity.Commands.History.{Request}
use el_backend.Identity.Commands.{remove, review, learn, practise, mark, effect, listen, Command}
use el_backend.Identity.Queries.{create_user_event}
use el_backend.Identity.Schema.{progress, LearningProgress, upsert, Operation, EntityType, Accounts}
use el_backend.Identity.Learning.{upsert_progress}
use el_backend.Base.{
  ◌&&◌, ◌==◌, append_assoc, if◌then◌else◌, subst, append-nil, none, ◌++◌, ◌∷◌, [], Option, List,
  false, true, arith, Bool, ok, ◌≡◌, ℕ,
}
use el_backend.Identity.Service.{progress_row, Moment}
use el_backend.Text.{Unicode}

module _ ⦃unicode : Unicode⦄ where
  -- the writes that took effect, in order
  pub data Steps : Accounts → List Request → Accounts → Type 0 where
    done : {d : Accounts} → Steps d [] d
    took :
        {d d1 d2 : Accounts} {r : Request} {rs : List Request}
        → effect r.moment r.user r.command d ≡ ok (tt, d1)
        → Steps d1 rs d2
        → Steps d (r ∷ rs) d2

  event_keeps :
      (user : ℕ) (kind : EntityType) (entity : ℕ) (operation : Operation) (d d' : Accounts) (n : ℕ)
      → create_user_event user kind entity operation d ≡ ok (n, d')
      → d'.progress ≡ d.progress
  unfolding create_user_event
  event_keeps user kind entity operation d d' n h = ground arith

  under_test :
      (b : Bool) (o : Option LearningProgress) (vs : List Report) (v : Report)
      → Holds o (if b then vs ++ v ∷ [] else vs)
      → Holds o (vs ++ (if b then v ∷ [] else []))
  under_test true o vs v h = h
  under_test false o vs v h = rw (append-nil vs) h

  other-Holds :
      (u c : ℕ) (d d' : Accounts) (vs : List Report)
      → d'.progress ≡ d.progress
      → Holds (stored_progress u c d) vs
      → Holds (stored_progress u c d') (vs ++ [])
  other-Holds u c d d' vs h k = rw (append-nil vs, h) k

  listen-Holds :
      (t : Moment) (user u c : ℕ) (input : ProgressInput) (d d' : Accounts) (vs : List Report)
      → effect t user (listen input) d ≡ ok (tt, d')
      → Holds (stored_progress u c d) vs
      → Holds
          (stored_progress u c d')
          (vs ++ reported u c (record { moment = t; user = user; command = listen input }))
  unfolding effect
  listen-Holds t user u c input d d' vs h k =
      let row = progress_row t.now user input in
      let (a, e) = drop_value-eq-ok _ d' h in
      let (r, d1, stored, logged) = after-eq-ok (upsert_progress t.now row d) _ e in
      let (n, d2, event, last) =
        after-eq-ok (create_user_event user progress input.content_id upsert d1) _ logged in
      let same : d'.progress ≡ d1.progress =
        cc (last, event_keeps user progress input.content_id upsert d1 d2 n event) in
      rw same (
        under_test (user == u && input.content_id == c) _ vs (report_of row)
          (upsert-Holds t.now u c row r d d1 vs stored k))

  command-Holds :
      (t : Moment) (user u c : ℕ) (command : Command) (d d' : Accounts) (vs : List Report)
      → effect t user command d ≡ ok (tt, d')
      → Holds (stored_progress u c d) vs
      → Holds
          (stored_progress u c d')
          (vs ++ reported u c (record { moment = t; user = user; command = command }))
  command-Holds t user u c (listen input) d d' vs h k = listen-Holds t user u c input d d' vs h k
  command-Holds t user u c (mark x y) d d' vs h k =
      other-Holds u c d d' vs (effect-progress_other t user (mark x y) d d' tt h) k
  command-Holds t user u c (practise x) d d' vs h k =
      other-Holds u c d d' vs (effect-progress_other t user (practise x) d d' tt h) k
  command-Holds t user u c (learn x) d d' vs h k =
      other-Holds u c d d' vs (effect-progress_other t user (learn x) d d' tt h) k
  command-Holds t user u c (review x y) d d' vs h k =
      other-Holds u c d d' vs (effect-progress_other t user (review x y) d d' tt h) k
  command-Holds t user u c (remove x) d d' vs h k =
      other-Holds u c d d' vs (effect-progress_other t user (remove x) d d' tt h) k

  Steps-Holds :
      (u c : ℕ) {d d' : Accounts} {rs : List Request} (vs : List Report)
      → Steps d rs d'
      → Holds (stored_progress u c d) vs
      → Holds (stored_progress u c d') (vs ++ reports u c rs)
  Steps-Holds u c vs done k = rw (append-nil vs) k
  Steps-Holds u c vs (took {d} {d1} {d2} {r} {rs} h steps) k =
      subst (Holds (stored_progress u c d2)) (append_assoc vs (reported u c r) (reports u c rs)) (
        Steps-Holds u c (vs ++ reported u c r) steps
          (command-Holds r.moment r.user u c r.command d d1 vs h k))

  -- After any writes that took effect, in any order and of any users, the progress row of a user and
  -- a content item holds the report with the latest client time, and of several such the one that
  -- arrived last; without a report there is no row.
  pub progress_latest :
      (u c : ℕ) {d d' : Accounts} {rs : List Request}
      → Steps d rs d'
      → stored_progress u c d ≡ none
      → Holds (stored_progress u c d') (reports u c rs)
  progress_latest u c steps h = Steps-Holds u c [] steps (rw h)
