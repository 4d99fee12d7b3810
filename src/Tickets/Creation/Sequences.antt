-- ===== src/Tickets/Creation/Sequences.antt =====
-- Sequences of requests that open tickets or go to the handlers of tickets.
use cursor_multi_agent.Prelude.{
  String, ◌≡◌, Option, List, [], ◌∷◌, arith, ok, err, refl, sym, All, ap, Result, ◌∙◌, or_else,
}
use mathlib.Core.Path.{subst}
use cursor_multi_agent.Domain.{AuthUser}
use cursor_multi_agent.Store.{Ticket, Db, user_role, update_ticket, create_event}
use cursor_multi_agent.Sla.Engine.Laws.{sync-users}
use cursor_multi_agent.Tickets.Assignment.{ensure_follower}
use cursor_multi_agent.Tickets.Status.{default_status_transitions}
use cursor_multi_agent.Tickets.Status.Laws.{IsConsistent}
use cursor_multi_agent.Tickets.Requests.{Request, handle, committed}
use cursor_multi_agent.Tickets.Requests.Handlers.{IsWellFormed}
use cursor_multi_agent.Tickets.Requests.Safety.{committed-IsWellFormed}
use cursor_multi_agent.Tickets.Creation.{
  CreateTicket, Setting, Desk, Inserted, create_ticket, write_creation, write_ticket, save_ticket,
  new_ticket, inserted_row, dated, log_assignment, follow_assignee, creation_target,
}
use cursor_multi_agent.Routing.Rules.{RouteTarget}
use cursor_multi_agent.Tickets.Creation.Laws.{creation_cases, written_tickets}

-- A request for a new ticket, with what the database gives it, or one to a handler.
pub data Entry : Type 0 where
  opening : AuthUser → Inserted → CreateTicket → Entry
  handling : Request → Entry

module _ (setting : Setting) where
  abbrev pub kept_or : Result (Desk × List String) → Desk → Desk
  kept_or (ok done) desk = done.0
  kept_or (err e) desk = desk

  unfoldable pub serve_entry : Entry → Desk → Desk
  serve_entry (opening user inserted payload) desk =
      kept_or (create_ticket setting payload inserted user desk) desk
  serve_entry (handling r) desk = record desk {
    db =
        committed setting.sla default_status_transitions
          (handle setting.sla default_status_transitions r.user r.now r.command desk.db) desk.db;
  }

  unfoldable pub serve_entries : List Entry → Desk → Desk
  serve_entries [] desk = desk
  serve_entries (e ∷ es) desk = serve_entries es (serve_entry e desk)

module _ (setting : Setting) where
  new-IsConsistent :
      (payload : CreateTicket) (inserted : Inserted) (requester : String)
      (target : Option RouteTarget) (desk : Desk)
      → let t = new_ticket setting payload inserted requester target desk in
        IsConsistent (dated setting t t)
  unfolding dated new_ticket inserted_row
  new-IsConsistent payload inserted requester target desk = ground arith

  written-users :
      (t : Ticket) (actor : String) (db : Db) → (write_ticket setting t actor db).users ≡ db.users
  unfolding write_ticket save_ticket update_ticket create_event ensure_follower log_assignment
      follow_assignee
  written-users t actor db = sync-users setting.sla t.id _ _ ∙ ground arith

  -- An accepted creation keeps a database well formed.
  created-IsWellFormed :
      (payload : CreateTicket) (inserted : Inserted) (user : AuthUser) (desk : Desk) {after : Desk}
      {tags : List String}
      → create_ticket setting payload inserted user desk ≡ ok (after, tags)
      → IsWellFormed desk.db
      → IsWellFormed after.db
  unfolding write_creation
  created-IsWellFormed payload inserted user desk h w =
      let requester = or_else payload.requester_id user.id in
      let target = creation_target setting payload requester desk.db in
      let (_, _, written) = creation_cases setting payload inserted user desk h in
      let t = new_ticket setting payload inserted requester target desk in
      subst (λ d. IsWellFormed d.db) (sym written)
        (record {
          tickets_ok =
              subst (All IsConsistent) (sym (written_tickets setting t user.id desk.db))
                (new-IsConsistent payload inserted requester target desk, w.tickets_ok);
          named = ap (user_role "") (written-users t user.id desk.db) ∙ w.named;
        })

  serve_entry-IsWellFormed :
      (e : Entry) (desk : Desk)
      → IsWellFormed desk.db
      → IsWellFormed (serve_entry setting e desk).db
  unfolding serve_entry
  serve_entry-IsWellFormed (handling r) desk w =
      committed-IsWellFormed setting.sla r.user r.now r.command desk.db w
  serve_entry-IsWellFormed (opening user inserted payload) desk w =
      go (create_ticket setting payload inserted user desk) refl
    where
      go :
          (r : Result (Desk × List String))
          → create_ticket setting payload inserted user desk ≡ r
          → IsWellFormed (kept_or setting r desk).db
      go (ok done) h = created-IsWellFormed payload inserted user desk h w
      go (err e) h = w

  -- With the default table, any sequence of creations, transitions, assignments, transfers, changes of
  -- priority, messages, deletions and restorations, by any users at any times and whether accepted or
  -- not, leads from a database whose tickets are all consistent, and that knows no user with an empty
  -- id, to another.
  pub serve_entries-IsWellFormed :
      (es : List Entry) (desk : Desk)
      → IsWellFormed desk.db
      → IsWellFormed (serve_entries setting es desk).db
  unfolding serve_entries
  serve_entries-IsWellFormed [] desk w = w
  serve_entries-IsWellFormed (e ∷ es) desk w =
      serve_entries-IsWellFormed es (serve_entry setting e desk) (serve_entry-IsWellFormed e desk w)
