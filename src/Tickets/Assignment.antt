-- ===== src/Tickets/Assignment.antt =====
-- `assign`, `applyAssigneeInTx` and `ensureFollower` of tickets.service.ts.
pub mod Laws
use cursor_multi_agent.Prelude.{
  ℕ, String, Bool, true, false, not, ◌&&◌, ◌||◌, Option, none, some, List, [], ◌∷◌, or_else,
  present, truthy, if◌then◌else◌, Result, ok, err, forbidden, bad_request, ◌>>=◌, ◌>>◌, guard,
}
use cursor_multi_agent.Domain.{
  UserRole, AuthUser, TicketStatus, new, triaged, assigned, reopened, same_status, is_owner,
}
use cursor_multi_agent.Store.{
  Ticket, Db, update_ticket, create_event, ticket_status_changed, ticket_assigned, has_pair,
  add_pair, user_role,
}
use cursor_multi_agent.Tickets.Guards.{require_ticket, can_assign_ticket}

-- `assignStatusPromote.includes(ticket.status) ? ASSIGNED : ticket.status`
abbrev pub promoted : TicketStatus → TicketStatus
promoted new = assigned
promoted triaged = assigned
promoted reopened = assigned
promoted status = status

unfoldable pub ensure_follower : String → String → Db → Db
ensure_follower ticket_id user_id db = record db {
  followers = add_pair ticket_id user_id db.followers;
}

-- The membership check, skipped for a ticket with no team and for an OWNER.
unfoldable pub may_be_assigned : Ticket → String → UserRole → Db → Bool
may_be_assigned ticket assignee_id role db =
    if present ticket.assigned_team_id && not (is_owner role)
    then has_pair (or_else ticket.assigned_team_id "") assignee_id db.team_members
    else true

unfoldable pub assigned_row : Ticket → String → Ticket → Ticket
assigned_row ticket assignee_id row = record row {
  assignee_id = some assignee_id;
  status = promoted ticket.status;
}

unfoldable pub log_status : Ticket → TicketStatus → String → Db → Db
log_status ticket next actor_id db =
    if same_status next ticket.status
    then db
    else create_event
        (record {
          ticket_id = ticket.id;
          body = ticket_status_changed ticket.status next none;
          created_by_id = some actor_id;
        })
        db

unfoldable pub write_assignee : Ticket → String → String → Db → Db
unfolding log_status
write_assignee ticket assignee_id actor_id db = ensure_follower ticket.id assignee_id (
    log_status ticket (promoted ticket.status) actor_id (
      create_event
        (record {
          ticket_id = ticket.id;
          body = ticket_assigned assignee_id;
          created_by_id = some actor_id;
        })
        (update_ticket ticket.id (assigned_row ticket assignee_id) db)))

unfoldable pub apply_assignee_in_tx : Ticket → String → String → Db → Result Db
apply_assignee_in_tx ticket assignee_id actor_id db = elim (user_role assignee_id db.users) [
  | none ↦ err (bad_request "Assignee not found")
  | some role ↦
      if may_be_assigned ticket assignee_id role db
      then ok (write_assignee ticket assignee_id actor_id db)
      else err (bad_request "Assignee must belong to the ticket team")
]

-- `payload.assigneeId` is optional: without it the user takes the ticket.
unfoldable pub assign : String → Option String → AuthUser → Db → Result Db
assign ticket_id payload user db = do
  ticket ← require_ticket db ticket_id
  guard (can_assign_ticket user ticket) (forbidden "Not allowed to assign this ticket")
  apply_assignee_in_tx ticket (or_else payload user.id) user.id db
