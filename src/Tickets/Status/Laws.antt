-- ===== src/Tickets/Status/Laws.antt =====
-- The consistency of a ticket between two requests.
use cursor_multi_agent.Prelude.{
  ℕ, ◌≡◌, ◌≢◌, true, false, not, ◌&&◌, ◌||◌, Option, none, arith, is_some, present,
}
use cursor_multi_agent.Domain.{TicketStatus, resolved, closed, same_status, TicketCloseReason}
use cursor_multi_agent.Store.{Ticket}
use cursor_multi_agent.Sla.Policy.{SlaTables}
use cursor_multi_agent.Tickets.Status.{
  default_status_transitions, is_valid_transition, is_pause_status, transition_requires_assignee,
  transitioned,
}

-- A ticket's columns agree with its status.
pub record IsConsistent (t : Ticket) : Type 0 where
  -- A ticket that is being worked on has an assignee.
  pub has_assignee : transition_requires_assignee t.status ≡ true → present t.assignee_id ≡ true
  -- The clock is paused exactly while somebody else is waited for.
  pub paused_iff : is_some t.sla_paused_at ≡ is_pause_status t.status
  -- A ticket is complete exactly while it is resolved or closed.
  pub completed_iff :
      is_some t.completed_at ≡ same_status t.status resolved || same_status t.status closed
  -- A closed ticket has its closing time, and only a closed ticket has a close reason.
  pub closed_at_set : t.status ≡ closed → t.closed_at ≢ none
  pub reason_iff : is_some t.close_reason ≡ same_status t.status closed
  pub resolved_at_set : t.status ≡ resolved → t.resolved_at ≢ none

module _ (tables : SlaTables) where
  -- With the default table.
  pub transitioned-IsConsistent :
      (now : ℕ) (t : Ticket) (to : TicketStatus) (reason : Option TicketCloseReason)
      → is_valid_transition default_status_transitions t.status to ≡ true
      → (transition_requires_assignee to && not (present t.assignee_id)) ≡ false
      → same_status t.status to ≡ false
      → IsConsistent t
      → IsConsistent (transitioned tables default_status_transitions now t to reason t)
  unfolding transitioned is_valid_transition default_status_transitions
  transitioned-IsConsistent now t to reason valid room moved c = ground arith
