-- ===== src/Tickets/Removal.antt =====
-- `softDelete` and `restore` of tickets.service.ts. The reason text of a deletion is left out of the
-- payloads.
pub mod Laws
pub mod Breaches
use cursor_multi_agent.Prelude.{
  ℕ, String, Bool, true, false, not, ◌&&◌, ◌||◌, Option, none, some, List, ◌∷◌, ◌===◌, is_some,
  if◌then◌else◌, Result, ok, err, forbidden, not_found, ◌>>=◌, ◌>>◌, guard,
}
use cursor_multi_agent.Domain.{AuthUser, is_owner}
use cursor_multi_agent.Store.{
  Ticket, Db, AdminEvent, audit_deleted, audit_restored, update_ticket, create_event,
  ticket_deleted, ticket_restored, find_ticket,
}
use cursor_multi_agent.Access.{administered_team}

unfoldable pub is_team_admin_of_ticket : AuthUser → Ticket → Bool
is_team_admin_of_ticket user ticket = elim (administered_team user) [
  | none ↦ false
  | some team ↦ ticket.assigned_team_id === team
]

abbrev pub create_admin_event : AdminEvent → Db → Db
create_admin_event event db = record db { admin_events = event ∷ db.admin_events }

unfoldable pub deleted_row : ℕ → String → Ticket → Ticket
deleted_row now actor_id row = record row { deleted_at = some now; deleted_by_id = some actor_id }

unfoldable pub restored_row : Ticket → Ticket
restored_row row = record row { deleted_at = none; deleted_by_id = none }

unfoldable pub write_deletion : ℕ → Ticket → String → Db → Db
write_deletion now ticket actor_id db =
    create_admin_event (audit_deleted ticket.id ticket.assigned_team_id actor_id) (
      create_event
        (record { ticket_id = ticket.id; body = ticket_deleted; created_by_id = some actor_id })
        (update_ticket ticket.id (deleted_row now actor_id) db))

unfoldable pub write_restoration : Ticket → String → Db → Db
write_restoration ticket actor_id db =
    create_admin_event (audit_restored ticket.id ticket.assigned_team_id actor_id) (
      create_event
        (record { ticket_id = ticket.id; body = ticket_restored; created_by_id = some actor_id })
        (update_ticket ticket.id restored_row db))

-- The ticket, if it is there and deleted as asked for.
abbrev pub find_with_deleted : Bool → Db → String → Option Ticket
find_with_deleted deleted db id = elim (find_ticket db id) [
  | none ↦ none
  | some t ↦
      if deleted
      then (if is_some t.deleted_at then some t else none)
      else if is_some t.deleted_at
      then none
      else some t
]

unfoldable pub soft_delete : ℕ → String → AuthUser → Db → Result Db
soft_delete now id user db = elim (find_with_deleted false db id) [
  | none ↦ err (not_found "Ticket not found")
  | some ticket ↦
      if not (is_owner user.role) && not (is_team_admin_of_ticket user ticket)
      then err (forbidden "Only owners or the team admin of the assigned team can delete a ticket")
      else ok (write_deletion now ticket user.id db)
]

unfoldable pub restore : String → AuthUser → Db → Result Db
restore id user db =
    if not (is_owner user.role)
    then err (forbidden "Only owners can restore a ticket")
    else elim (find_with_deleted true db id) [
      | none ↦ err (not_found "Deleted ticket not found")
      | some ticket ↦ ok (write_restoration ticket user.id db)
    ]
