-- ===== src/Tickets/Guards.antt =====
-- Who may do what to a ticket: `canAssignTicket`, `REQUESTER_TRANSITIONS` and `resolveCloseReason` of
-- tickets.service.ts, and the ticket as the access checks read it.
use cursor_multi_agent.Prelude.{
  String, Bool, true, false, not, ◌&&◌, ◌||◌, Option, none, some, List, [], ◌∷◌, ◌===◌, any,
  includes_some, is_none, present, if◌then◌else◌, Result, ok, err, not_found,
}
use cursor_multi_agent.Domain.{
  AuthUser, TicketStatus, new, triaged, resolved, closed, reopened, TicketCloseReason,
  requester_confirmed, requester_cancelled, agent_closed, same_status, is_owner, is_employee,
  is_lead,
}
use cursor_multi_agent.Store.{Ticket, Db, find_ticket}
use cursor_multi_agent.Access.{AccessTicket, operational_team_ids, administered_team}

-- The handlers read the row without its grants.
abbrev pub as_access : Ticket → AccessTicket
as_access t = record {
  requester_id = t.requester_id;
  assigned_team_id = t.assigned_team_id;
  assignee_id = t.assignee_id;
  access_grants = none;
  deleted_at = t.deleted_at;
}

-- `if (!ticket) throw new NotFoundException('Ticket not found')`
abbrev pub require_ticket : Db → String → Result Ticket
require_ticket db id = elim (find_ticket db id) [
  | none ↦ err (not_found "Ticket not found")
  | some t ↦ ok t
]

unfoldable pub can_assign_ticket : AuthUser → Ticket → Bool
can_assign_ticket user ticket = if is_owner user.role then true else elim (administered_team user) [
  | some team ↦ ticket.assigned_team_id === team
  | none ↦
      if not (present ticket.assigned_team_id)
        || not (includes_some (operational_team_ids user) ticket.assigned_team_id)
      then false
      else if is_lead user.role
      then true
      else is_none ticket.assignee_id || ticket.assignee_id === user.id
]

abbrev pub requester_transitions : List (TicketStatus × TicketStatus)
requester_transitions =
    (resolved, closed)
    ∷ (resolved, reopened)
    ∷ (closed, reopened)
    ∷ (new, closed)
    ∷ (triaged, closed)
    ∷ []

abbrev pub is_requester_transition : TicketStatus → TicketStatus → Bool
is_requester_transition from to =
    any (λ p. same_status p.0 from && same_status p.1 to) requester_transitions

unfoldable pub resolve_close_reason :
    AuthUser → TicketStatus → TicketStatus → Option TicketCloseReason
resolve_close_reason user from to =
    if not (same_status to closed)
    then none
    else if not (is_employee user.role)
    then some agent_closed
    else if same_status from resolved
    then some requester_confirmed
    else some requester_cancelled
