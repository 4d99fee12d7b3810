-- ===== src/Tickets/Status.antt =====
-- The status machine of tickets.service.ts: which transitions are allowed, and
-- `applyStatusTransitionInTx`, which makes one.
pub mod Laws
pub mod Effects
pub mod Pause
use cursor_multi_agent.Prelude.{
  ℕ, String, ◌+◌, ◌-◌, Bool, true, false, not, ◌&&◌, ◌||◌, Option, none, some, List, [], ◌∷◌, any,
  filter, is_some, is_none, or_else, present, if◌then◌else◌, Result, ok, err, forbidden,
  bad_request, ◌>>=◌, ◌>>◌, guard,
}
use cursor_multi_agent.Domain.{
  TicketStatus, new, triaged, assigned, in_progress, waiting_on_requester, waiting_on_vendor,
  resolved, closed, reopened, TicketCloseReason, agent_closed, same_status,
}
use cursor_multi_agent.Store.{Ticket, Db, update_ticket, create_event, ticket_status_changed}
use cursor_multi_agent.Sla.Policy.{SlaTables, get_sla_config, add_sla_hours}
use cursor_multi_agent.Sla.Engine.{no_options, sync_from_ticket}

-- `STATUS_TRANSITIONS`: the default, or what `TICKET_STATUS_TRANSITIONS` configures.
abbrev pub Transitions : Type 0
Transitions = TicketStatus → List TicketStatus

unfoldable pub default_status_transitions : Transitions
default_status_transitions new = triaged ∷ assigned ∷ closed ∷ []
default_status_transitions triaged = assigned ∷ closed ∷ []
default_status_transitions assigned =
    in_progress ∷ waiting_on_requester ∷ waiting_on_vendor ∷ resolved ∷ []
default_status_transitions in_progress = waiting_on_requester ∷ waiting_on_vendor ∷ resolved ∷ []
default_status_transitions waiting_on_requester = in_progress ∷ waiting_on_vendor ∷ resolved ∷ []
default_status_transitions waiting_on_vendor = in_progress ∷ waiting_on_requester ∷ resolved ∷ []
default_status_transitions resolved = reopened ∷ closed ∷ []
default_status_transitions closed = reopened ∷ []
default_status_transitions reopened =
    triaged ∷ assigned ∷ in_progress ∷ waiting_on_requester ∷ waiting_on_vendor ∷ resolved ∷ []

abbrev pub includes_status : List TicketStatus → TicketStatus → Bool
includes_status list status = any (λ s. same_status s status) list

unfoldable pub is_valid_transition : Transitions → TicketStatus → TicketStatus → Bool
is_valid_transition table from to =
    if same_status from to then true else includes_status (table from) to

abbrev pub transition_requires_assignee : TicketStatus → Bool
transition_requires_assignee assigned = true
transition_requires_assignee in_progress = true
transition_requires_assignee _ = false

abbrev pub is_pause_status : TicketStatus → Bool
is_pause_status waiting_on_requester = true
is_pause_status waiting_on_vendor = true
is_pause_status _ = false

unfoldable pub get_available_transitions_for_ticket :
    Transitions → TicketStatus → Option String → List TicketStatus
get_available_transitions_for_ticket table status assignee_id =
    if present assignee_id
    then table status
    else filter (λ next. not (transition_requires_assignee next)) (table status)

-- `newStatus === A ? now : newStatus === REOPENED ? null : old`
abbrev stamped : TicketStatus → Bool → ℕ → Option ℕ → Option ℕ
stamped new_status hit now old =
    if hit then some now else if same_status new_status reopened then none else old

-- `effectiveCloseReason`; the outer `none` is `undefined`.
unfoldable pub effective_close_reason :
    TicketStatus → Option TicketCloseReason → Option (Option TicketCloseReason)
effective_close_reason closed close_reason = some (some (or_else close_reason agent_closed))
effective_close_reason reopened close_reason = some none
effective_close_reason _ close_reason = none

-- `new Date(dueAt + (now - slaPausedAt))`, written so that no intermediate value is negative.
unfoldable pub resumed_due_at : ℕ → Option ℕ → Option ℕ → Option ℕ
resumed_due_at now (some paused) (some due) = some (due + now - paused)
resumed_due_at now _ due_at = due_at

module _ (tables : SlaTables) (table : Transitions) where
  -- `updateData.dueAt`, or the column where the code leaves it out.
  unfoldable pub next_due_date : ℕ → Ticket → TicketStatus → Option ℕ → Option ℕ
  next_due_date now ticket new_status column =
      let sla = get_sla_config tables ticket.priority ticket.assigned_team_id in
      if same_status new_status reopened
      then some (
          add_sla_hours tables now sla.resolution_hours sla.business_hours_only
            ticket.assigned_team_id)
      else if is_pause_status ticket.status
          && not (is_pause_status new_status)
          && is_some ticket.sla_paused_at
          && is_some ticket.due_at
      then resumed_due_at now ticket.sla_paused_at ticket.due_at
      else column

  -- `updateData.slaPausedAt`, or the column where the code leaves it out.
  unfoldable pub next_paused_at : ℕ → Ticket → TicketStatus → Option ℕ → Option ℕ
  next_paused_at now ticket new_status column =
      if is_pause_status new_status && not (is_pause_status ticket.status)
      then some now
      else if is_pause_status ticket.status && not (is_pause_status new_status)
      then none
      else column

  -- The row as `tx.ticket.update` leaves it; `ticket` is the snapshot that the caller read.
  unfoldable pub transitioned :
      ℕ → Ticket → TicketStatus → Option TicketCloseReason → Ticket → Ticket
  unfolding next_due_date next_paused_at effective_close_reason
  transitioned now ticket new_status close_reason row = record row {
    status = new_status;
    resolved_at = stamped new_status (same_status new_status resolved) now ticket.resolved_at;
    closed_at = stamped new_status (same_status new_status closed) now ticket.closed_at;
    completed_at =
        stamped new_status (same_status new_status resolved || same_status new_status closed) now
          ticket.completed_at;
    close_reason = or_else (effective_close_reason new_status close_reason) row.close_reason;
    sla_paused_at = next_paused_at now ticket new_status row.sla_paused_at;
    due_at = next_due_date now ticket new_status row.due_at;
  }

  -- The writes of a transition that passes its guards.
  unfoldable pub write_transition :
      ℕ → Ticket → TicketStatus → String → Option TicketCloseReason → Db → Db
  write_transition now ticket new_status actor_id close_reason db =
      sync_from_ticket tables ticket.id
        (record no_options { reset_resolution = same_status new_status reopened })
        (create_event
          (record {
            ticket_id = ticket.id;
            body =
                ticket_status_changed ticket.status new_status
                  (effective_close_reason new_status close_reason);
            created_by_id = some actor_id;
          })
          (update_ticket ticket.id (transitioned now ticket new_status close_reason) db))

  unfoldable pub apply_status_transition_in_tx :
      ℕ → Ticket → TicketStatus → String → Option TicketCloseReason → Db → Result Db
  apply_status_transition_in_tx now ticket new_status actor_id close_reason db =
      if not (is_valid_transition table ticket.status new_status)
      then err (forbidden "Invalid status transition")
      else if same_status ticket.status new_status
      then ok db
      else if transition_requires_assignee new_status && not (present ticket.assignee_id)
      then err (bad_request "Cannot set status without an assignee")
      else ok (write_transition now ticket new_status actor_id close_reason db)
