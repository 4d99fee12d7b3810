-- ===== src/Store.antt =====
-- The database tables that the ticket services read and write (models of
-- apps/api/prisma/schema.prisma), and the reads and writes by primary key. A transaction is a function
-- from a database to a result: an exception leaves the database as it was.
pub mod Tables
pub mod Pairs
use cursor_multi_agent.Prelude.{
  ℕ, String, Bool, true, false, ◌&&◌, Option, none, some, List, [], ◌∷◌, ◌==◌, any, filter, find,
  if◌then◌else◌, not,
}
use cursor_multi_agent.Domain.{
  UserRole, TicketStatus, TicketPriority, TicketCloseReason, MessageType,
}
use cursor_multi_agent.Store.Tables.{find_by, update_by}

-- A row of `Ticket`; instants are milliseconds since the epoch.
pub record Ticket : Type 0 where
  pub id : String
  pub requester_id : String
  pub status : TicketStatus
  pub priority : TicketPriority
  pub assigned_team_id : Option String
  pub assignee_id : Option String
  pub created_at : ℕ
  pub first_response_due_at : Option ℕ
  pub first_response_at : Option ℕ
  pub due_at : Option ℕ
  pub sla_paused_at : Option ℕ
  pub resolved_at : Option ℕ
  pub closed_at : Option ℕ
  pub completed_at : Option ℕ
  pub close_reason : Option TicketCloseReason
  pub deleted_at : Option ℕ
  pub deleted_by_id : Option String

pub data BreachType : Type 0 where
  first_response resolution : BreachType

-- The payloads of `TicketEvent` rows; the last argument is `createdById`.
pub data EventBody : Type 0 where
  -- of the payload, the priority
  ticket_created : TicketPriority → EventBody
  -- of the payload, the type
  message_added : MessageType → EventBody
  ticket_assigned : String → EventBody
  -- from, to, and the close reason if the payload has one
  ticket_status_changed :
      TicketStatus → TicketStatus → Option (Option TicketCloseReason) → EventBody
  ticket_transferred : Option String → String → Option String → EventBody
  ticket_priority_changed : TicketPriority → TicketPriority → EventBody
  ticket_deleted ticket_restored : EventBody
  sla_breached sla_at_risk : BreachType → Option ℕ → EventBody
  -- the rule
  automation_rule_executed : String → EventBody
  priority_bumped : TicketPriority → TicketPriority → BreachType → EventBody

pub record TicketEvent : Type 0 where
  pub ticket_id : String
  pub body : EventBody
  pub created_by_id : Option String

-- A row of `SlaInstance`, whose key is the ticket.
pub record SlaInstance : Type 0 where
  pub ticket_id : String
  pub policy_config_id : Option String
  pub priority : TicketPriority
  pub first_response_due_at : Option ℕ
  pub resolution_due_at : Option ℕ
  pub paused_at : Option ℕ
  pub next_due_at : Option ℕ
  pub first_response_at_risk_notified_at : Option ℕ
  pub resolution_at_risk_notified_at : Option ℕ
  pub first_response_breached_at : Option ℕ
  pub resolution_breached_at : Option ℕ

-- `AdminAuditEvent` rows of a deletion and a restoration: ticket, team, actor.
pub data AdminEvent : Type 0 where
  audit_deleted audit_restored : String → Option String → String → AdminEvent

-- `TicketAccess` rows all have level READ here; a follower is a ticket and a user.
pub record Db : Type 0 where
  pub tickets : List Ticket
  -- newest first
  pub events : List TicketEvent
  -- newest first
  pub admin_events : List AdminEvent
  pub sla_instances : List SlaInstance
  pub ticket_access : List (String × String)
  pub followers : List (String × String)
  pub teams : List String
  -- team and user
  pub team_members : List (String × String)
  pub users : List (String × UserRole)

abbrev pub ticket_key : Ticket → String
ticket_key t = t.id

abbrev pub instance_key : SlaInstance → String
instance_key i = i.ticket_id

unfoldable pub find_ticket : Db → String → Option Ticket
find_ticket db id = find_by ticket_key id db.tickets

unfoldable pub update_ticket : String → (Ticket → Ticket) → Db → Db
update_ticket id change db = record db { tickets = update_by ticket_key id change db.tickets }

unfoldable pub create_event : TicketEvent → Db → Db
create_event event db = record db { events = event ∷ db.events }

-- Rows of two foreign keys: `findUnique`, `upsert` with an empty update, `deleteMany`.
unfoldable pub has_pair : String → String → List (String × String) → Bool
has_pair a b [] = false
has_pair a b ((x, y) ∷ rows) = if x == a && y == b then true else has_pair a b rows

unfoldable pub add_pair : String → String → List (String × String) → List (String × String)
add_pair a b rows = if has_pair a b rows then rows else (a, b) ∷ rows

unfoldable pub remove_pair : String → String → List (String × String) → List (String × String)
remove_pair a b [] = []
remove_pair a b ((x, y) ∷ rows) =
    let rest = remove_pair a b rows in if x == a && y == b then rest else (x, y) ∷ rest

unfoldable pub user_role : String → List (String × UserRole) → Option UserRole
user_role id [] = none
user_role id ((x, r) ∷ rows) = if x == id then some r else user_role id rows

unfoldable pub has_team : String → Db → Bool
has_team id db = any (λ x. x == id) db.teams
