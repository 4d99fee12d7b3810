-- ===== src/Automation/Scheduler/Laws.antt =====
-- The tickets of a timed rule and the conditions of the rule.
use cursor_multi_agent.Prelude.{List, String, ◌≡◌, Option, none, some, [], ◌⊎◌, ◌≢◌}
use cursor_multi_agent.Automation.Scheduler.{
  Ticket, hour_ms, same_status, resolved, closed, [], TicketStatus,
}
use cursor_multi_agent.Store.{Ticket}
use cursor_multi_agent.Sla.Policy.{hour_ms}
use cursor_multi_agent.Domain.{same_status, resolved, closed, TicketStatus}

-- The ticket is of the team, if there is one.
abbrev pub IsOfTeam : Option String → Ticket → Type 0
IsOfTeam none t = Unit
IsOfTeam (some team) t = (team ≡ "") ⊎ (t.assigned_team_id ≡ some team)

-- A ticket that waits for somebody to be assigned.
pub record IsUnattended (team : Option String) (t : Ticket) : Type 0 where
  pub live : t.deleted_at ≡ none
  pub free : t.assignee_id ≡ none
  pub not_resolved : t.status ≢ resolved
  pub not_closed : t.status ≢ closed
  pub teamed : IsOfTeam team t
