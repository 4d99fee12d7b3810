-- ===== src/Tickets/Priority.antt =====
-- The operation of `bulkPriority` of tickets.service.ts on one ticket. The role test that the handler
-- makes once for the whole batch stands first.
use cursor_multi_agent.Prelude.{
  String, not, none, some, if◌then◌else◌, Result, ok, err, forbidden, plain_error,
}
use cursor_multi_agent.Domain.{AuthUser, TicketPriority, is_employee}
use cursor_multi_agent.Store.{
  Ticket, Db, update_ticket, create_event, ticket_priority_changed, find_ticket,
}
use cursor_multi_agent.Access.{can_write_ticket}
use cursor_multi_agent.Sla.Policy.{SlaTables, get_sla_config, add_sla_hours}
use cursor_multi_agent.Sla.Engine.{no_options, sync_from_ticket}
use cursor_multi_agent.Tickets.Guards.{as_access}
use cursor_multi_agent.Tickets.Transfer.{cycle_start}

module _ (tables : SlaTables) where
  -- The current cycle keeps its start, on the calendar of the ticket's own team.
  unfoldable pub prioritised_row : Ticket → TicketPriority → Ticket → Ticket
  prioritised_row ticket priority row =
      let old_sla = get_sla_config tables ticket.priority ticket.assigned_team_id in
      let new_sla = get_sla_config tables priority ticket.assigned_team_id in
      record row {
        priority = priority;
        first_response_due_at = some (
            add_sla_hours tables
              (cycle_start tables ticket.first_response_due_at old_sla.first_response_hours
                old_sla.business_hours_only ticket.assigned_team_id ticket.created_at)
              new_sla.first_response_hours new_sla.business_hours_only ticket.assigned_team_id);
        due_at = some (
            add_sla_hours tables
              (cycle_start tables ticket.due_at old_sla.resolution_hours old_sla.business_hours_only
                ticket.assigned_team_id ticket.created_at)
              new_sla.resolution_hours new_sla.business_hours_only ticket.assigned_team_id);
      }

  unfoldable pub write_priority : Ticket → TicketPriority → String → Db → Db
  write_priority ticket priority actor_id db =
      sync_from_ticket tables ticket.id
        (record no_options {
          policy_config_id =
              some (get_sla_config tables priority ticket.assigned_team_id).policy_config_id;
        })
        (create_event
          (record {
            ticket_id = ticket.id;
            body = ticket_priority_changed ticket.priority priority;
            created_by_id = some actor_id;
          })
          (update_ticket ticket.id (prioritised_row ticket priority) db))

  unfoldable pub change_priority : String → TicketPriority → AuthUser → Db → Result Db
  change_priority ticket_id priority user db =
      if is_employee user.role
      then err (forbidden "Requesters cannot change ticket priority")
      else elim (find_ticket db ticket_id) [
        | none ↦ err (plain_error "Ticket not found")
        | some ticket ↦
            if not (can_write_ticket user (as_access ticket))
            then err (plain_error "No write access")
            else ok (write_priority ticket priority user.id db)
      ]
