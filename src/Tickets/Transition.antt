-- ===== src/Tickets/Transition.antt =====
-- The `transition` handler of tickets.service.ts. What it does after the commit (counts cache,
-- notifications, realtime event, automation queue) is outside the model.
pub mod Laws
use cursor_multi_agent.Prelude.{
  ℕ, String, Bool, true, false, not, ◌&&◌, ◌||◌, Option, none, some, List, ◌==◌, if◌then◌else◌,
  Result, ok, err, forbidden, not_found, ◌>>=◌, ◌>>◌, guard,
}
use cursor_multi_agent.Domain.{AuthUser, TicketStatus, is_employee}
use cursor_multi_agent.Store.{Ticket, Db}
use cursor_multi_agent.Access.{can_write_ticket}
use cursor_multi_agent.Sla.Policy.{SlaTables}
use cursor_multi_agent.Tickets.Status.{
  Transitions, get_available_transitions_for_ticket, apply_status_transition_in_tx,
}
use cursor_multi_agent.Tickets.Guards.{
  require_ticket, as_access, is_requester_transition, resolve_close_reason,
}

-- `user.role === EMPLOYEE` implies that the move is one of the requester's.
abbrev pub requester_may : AuthUser → Ticket → TicketStatus → Bool
requester_may user ticket to =
    not (is_employee user.role)
    || (ticket.requester_id == user.id) && is_requester_transition ticket.status to

module _ (tables : SlaTables) (table : Transitions) where
  unfoldable pub transition :
      ℕ → String → TicketStatus → AuthUser → Db → Result (Db × List TicketStatus)
  transition now ticket_id to user db = do
    ticket ← require_ticket db ticket_id
    guard (requester_may user ticket to)
        (forbidden "Requesters can confirm, reopen or cancel their own ticket only")
    guard (can_write_ticket user (as_access ticket))
        (forbidden "No write access to transition this ticket")
    after ←
        apply_status_transition_in_tx tables table now ticket to user.id
          (resolve_close_reason user ticket.status to) db
    updated ← require_ticket after ticket_id
    ok (after, get_available_transitions_for_ticket table updated.status updated.assignee_id)
