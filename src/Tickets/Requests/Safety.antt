-- ===== src/Tickets/Requests/Safety.antt =====
-- Tickets after any sequence of requests to the ticket handlers.
use cursor_multi_agent.Prelude.{
  [], ◌∷◌, ℕ, String, ◌≡◌, true, Option, List, arith, ok, All, ap, Result, ◌∷◌, err, ◌∙◌, refl,
  >>=-eq-ok,
}
use cursor_multi_agent.Domain.{AuthUser, TicketStatus}
use cursor_multi_agent.Store.{Db, user_role}
use cursor_multi_agent.Sla.Policy.{SlaTables}
use cursor_multi_agent.Tickets.Status.{default_status_transitions}
use cursor_multi_agent.Tickets.Status.Laws.{IsConsistent}
use cursor_multi_agent.Tickets.Requests.{
  transition, transfer, handle, Command, serve, to_status, committed, Request, to_assignee, to_team,
  to_priority, remove, bring_back, message,
}
use mathlib.Core.Path.{subst}
use cursor_multi_agent.Tickets.Messages.{AddTicketMessage, Posted, add_message}
use cursor_multi_agent.Tickets.Messages.Laws.{post-IsConsistent, post-users}
use cursor_multi_agent.Tickets.Transition.{transition}
use cursor_multi_agent.Tickets.Transfer.{transfer}
use cursor_multi_agent.Tickets.Transfer.Laws.{apply_transfer-IsConsistent}
use cursor_multi_agent.Tickets.Requests.Handlers.{
  IsWellFormed, stored_under_key, transition-IsConsistent, transition-users, assign-IsConsistent,
  assign-users, transfer_cases, transfer-users, priority-IsConsistent, priority-users,
  removal-IsConsistent, restore-IsConsistent, removal-users, restore-users,
}

module _ (tables : SlaTables) where
  status_cases :
      (user : AuthUser) (now : ℕ) (id : String) (to : TicketStatus) (db : Db) {after : Db}
      → handle tables default_status_transitions user now (to_status id to) db ≡ ok after
      → (allowed : List TicketStatus) × (transition tables default_status_transitions now id to user
            db
          ≡ ok (after, allowed))
  unfolding handle
  status_cases user now id to db h =
      let (done, passed, same) =
        >>=-eq-ok (transition tables default_status_transitions now id to user db)
          (λ done. ok done.0) h in
      (done.1, ground arith)

  moved-IsConsistent :
      (user : AuthUser) (id team : String) (assignee : Option String) (db : Db) {after : Db}
      → transfer tables id team assignee user db ≡ ok after
      → All IsConsistent db.tickets
      → All IsConsistent after.tickets
  moved-IsConsistent user id team assignee db h all =
      let (t, found, applied) = transfer_cases tables user id team assignee db h in
      apply_transfer-IsConsistent tables true t team assignee user.id db
        (stored_under_key db id found) applied all

  message_cases :
      (user : AuthUser) (now : ℕ) (id : String) (payload : AddTicketMessage) (db : Db) {after : Db}
      → handle tables default_status_transitions user now (message id payload) db ≡ ok after
      → (posted : Posted) × (add_message tables now id payload user db ≡ ok posted)
        × (posted.db ≡ after)
  unfolding handle
  message_cases user now id payload db h =
      let (posted, passed, same) =
        >>=-eq-ok (add_message tables now id payload user db) (λ posted. ok posted.db) h in
      (posted, passed, ground arith)

  handle-IsWellFormed :
      (user : AuthUser) (now : ℕ) (c : Command) (db : Db) {after : Db}
      → handle tables default_status_transitions user now c db ≡ ok after
      → IsWellFormed db
      → IsWellFormed after
  handle-IsWellFormed user now (to_status id to) db h w =
      let (allowed, done) = status_cases user now id to db h in
      record {
        tickets_ok = transition-IsConsistent tables user now id to db done w.tickets_ok;
        named = ap (user_role "") (transition-users tables user now id to db done) ∙ w.named;
      }
  handle-IsWellFormed user now (to_assignee id assignee) db h w =
      unfold handle in
      record {
        tickets_ok = assign-IsConsistent tables user id assignee db h w;
        named = ap (user_role "") (assign-users tables user id assignee db h) ∙ w.named;
      }
  handle-IsWellFormed user now (to_team id team assignee) db h w =
      unfold handle in
      record {
        tickets_ok = moved-IsConsistent user id team assignee db h w.tickets_ok;
        named = ap (user_role "") (transfer-users tables user id team assignee db h) ∙ w.named;
      }
  handle-IsWellFormed user now (to_priority id priority) db h w =
      unfold handle in
      record {
        tickets_ok = priority-IsConsistent tables user id priority db h w.tickets_ok;
        named = ap (user_role "") (priority-users tables user id priority db h) ∙ w.named;
      }
  handle-IsWellFormed user now (message id payload) db h w =
      let (posted, done, same) = message_cases user now id payload db h in
      subst IsWellFormed same (record {
        tickets_ok = post-IsConsistent tables now id payload user db done w.tickets_ok;
        named = ap (user_role "") (post-users tables now id payload user db done) ∙ w.named;
      })
  handle-IsWellFormed user now (remove id) db h w =
      unfold handle in
      record {
        tickets_ok = removal-IsConsistent user now id db h w.tickets_ok;
        named = ap (user_role "") (removal-users user now id db h) ∙ w.named;
      }
  handle-IsWellFormed user now (bring_back id) db h w =
      unfold handle in
      record {
        tickets_ok = restore-IsConsistent user id db h w.tickets_ok;
        named = ap (user_role "") (restore-users user id db h) ∙ w.named;
      }

  pub committed-IsWellFormed :
      (user : AuthUser) (now : ℕ) (c : Command) (db : Db)
      → IsWellFormed db
      → IsWellFormed (
          committed tables default_status_transitions
            (handle tables default_status_transitions user now c db)
            db)
  committed-IsWellFormed user now c db w =
      go (handle tables default_status_transitions user now c db) refl
    where
      go :
          (r : Result Db)
          → handle tables default_status_transitions user now c db ≡ r
          → IsWellFormed (committed tables default_status_transitions r db)
      go (ok after) h = handle-IsWellFormed user now c db h w
      go (err e) h = w

  -- With the default table, any sequence of transitions, assignments, transfers, changes of priority,
  -- messages, deletions and restorations, by any users at any times and whether accepted or not, leads from a
  -- database whose tickets are all consistent, and that knows no user with an empty id, to another.
  pub serve-IsWellFormed :
      (rs : List Request) (db : Db)
      → IsWellFormed db
      → IsWellFormed (serve tables default_status_transitions rs db)
  unfolding serve
  serve-IsWellFormed [] db w = w
  serve-IsWellFormed (r ∷ rs) db w =
      serve-IsWellFormed rs
        (committed tables default_status_transitions
          (handle tables default_status_transitions r.user r.now r.command db) db)
        (committed-IsWellFormed r.user r.now r.command db w)
