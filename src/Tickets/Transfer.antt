-- ===== src/Tickets/Transfer.antt =====
-- `transfer` and `applyTeamTransferInTx` of tickets.service.ts.
pub mod Laws
pub mod Visibility
use cursor_multi_agent.Prelude.{
  ℕ, String, Bool, true, false, not, ◌&&◌, ◌||◌, Option, none, some, List, [], ◌∷◌, or_else,
  present, truthy, ◌===◌, if◌then◌else◌, Result, ok, err, forbidden, bad_request, ◌>>=◌, ◌>>◌,
  guard,
}
use cursor_multi_agent.Domain.{AuthUser, TicketStatus, triaged, assigned, in_progress, is_employee}
use cursor_multi_agent.Store.{
  Ticket, Db, update_ticket, create_event, ticket_transferred, has_pair, add_pair, remove_pair,
  has_team,
}
use cursor_multi_agent.Access.{can_write_ticket}
use cursor_multi_agent.Sla.Policy.{SlaTables, get_sla_config, add_sla_hours, subtract_sla_hours}
use cursor_multi_agent.Sla.Engine.{no_options, sync_from_ticket}
use cursor_multi_agent.Tickets.Guards.{require_ticket, as_access}
use cursor_multi_agent.Tickets.Assignment.{ensure_follower, log_status}

abbrev pub normalize_status_after_transfer : TicketStatus → Option String → TicketStatus
normalize_status_after_transfer assigned assignee = if present assignee then assigned else triaged
normalize_status_after_transfer in_progress assignee =
    if present assignee then in_progress else triaged
normalize_status_after_transfer status assignee = status

module _ (tables : SlaTables) where
  -- The start of a cycle whose due date is known, on the source team's calendar.
  unfoldable pub cycle_start : Option ℕ → ℕ → Bool → Option String → ℕ → ℕ
  cycle_start none hours business_hours_only team created_at = created_at
  cycle_start (some due) hours business_hours_only team created_at =
      subtract_sla_hours tables due hours business_hours_only team

  -- The first response date on the destination team's calendar.
  unfoldable pub transferred_first_response : Ticket → String → ℕ
  transferred_first_response ticket new_team_id =
      let old_sla = get_sla_config tables ticket.priority ticket.assigned_team_id in
      let new_sla = get_sla_config tables ticket.priority (some new_team_id) in
      add_sla_hours tables
        (cycle_start ticket.first_response_due_at old_sla.first_response_hours
          old_sla.business_hours_only ticket.assigned_team_id ticket.created_at)
        new_sla.first_response_hours new_sla.business_hours_only (some new_team_id)

  unfoldable pub transferred_due : Ticket → String → ℕ
  transferred_due ticket new_team_id =
      let old_sla = get_sla_config tables ticket.priority ticket.assigned_team_id in
      let new_sla = get_sla_config tables ticket.priority (some new_team_id) in
      add_sla_hours tables
        (cycle_start ticket.due_at old_sla.resolution_hours old_sla.business_hours_only
          ticket.assigned_team_id ticket.created_at)
        new_sla.resolution_hours new_sla.business_hours_only (some new_team_id)

  unfoldable pub transferred_row : Ticket → String → Option String → Ticket → Ticket
  transferred_row ticket new_team_id assignee_id row = record row {
    assigned_team_id = some new_team_id;
    assignee_id = assignee_id;
    status = normalize_status_after_transfer ticket.status assignee_id;
    first_response_due_at = some (transferred_first_response ticket new_team_id);
    due_at = some (transferred_due ticket new_team_id);
  }

  -- The prior team keeps read access, and the new team needs no grant.
  unfoldable pub grant_prior_team : Ticket → String → Db → Db
  grant_prior_team ticket new_team_id db =
      if present ticket.assigned_team_id && not (ticket.assigned_team_id === new_team_id)
      then record db {
        ticket_access =
            remove_pair ticket.id new_team_id
              (add_pair ticket.id (or_else ticket.assigned_team_id "") db.ticket_access);
      }
      else db

  abbrev pub follow_if : Option String → String → Db → Db
  follow_if none ticket_id db = db
  follow_if (some user) ticket_id db = if truthy user then ensure_follower ticket_id user db else db

  unfoldable pub write_transfer : Ticket → String → Option String → String → Db → Db
  write_transfer ticket new_team_id assignee_id actor_id db =
      sync_from_ticket tables ticket.id
        (record no_options {
          policy_config_id =
              some (get_sla_config tables ticket.priority (some new_team_id)).policy_config_id;
        })
        (follow_if assignee_id ticket.id (
          log_status ticket (normalize_status_after_transfer ticket.status assignee_id) actor_id (
            create_event
              (record {
                ticket_id = ticket.id;
                body = ticket_transferred ticket.assigned_team_id new_team_id assignee_id;
                created_by_id = some actor_id;
              })
              (grant_prior_team ticket new_team_id
                (update_ticket ticket.id (transferred_row ticket new_team_id assignee_id) db)))))

  -- `!payload.assigneeId`, or he is a member of the target team.
  unfoldable pub may_receive : String → Option String → Db → Bool
  may_receive new_team_id assignee_id db =
      if present assignee_id
      then has_pair new_team_id (or_else assignee_id "") db.team_members
      else true

  -- The flag is `options?.rejectSameTeam ?? true`.
  unfoldable pub apply_team_transfer_in_tx :
      Bool → Ticket → String → Option String → String → Db → Result Db
  apply_team_transfer_in_tx reject_same_team ticket new_team_id assignee_id actor_id db =
      if present ticket.assigned_team_id && (ticket.assigned_team_id === new_team_id)
      then (if reject_same_team
          then err (bad_request "Ticket is already assigned to that team")
          else ok db)
      else if not (has_team new_team_id db)
      then err (bad_request "Target team not found")
      else if not (may_receive new_team_id assignee_id db)
      then err (bad_request "Assignee must belong to the target team")
      else ok (write_transfer ticket new_team_id assignee_id actor_id db)

  unfoldable pub transfer : String → String → Option String → AuthUser → Db → Result Db
  transfer ticket_id new_team_id assignee_id user db = do
    ticket ← require_ticket db ticket_id
    guard (not (is_employee user.role)) (forbidden "Requesters cannot transfer tickets")
    guard (can_write_ticket user (as_access ticket))
        (forbidden "No write access to transfer this ticket")
    apply_team_transfer_in_tx true ticket new_team_id assignee_id user.id db
