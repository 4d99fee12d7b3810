-- ===== src/Sla/Breach.antt =====
-- apps/api/src/slas/sla-breach.service.ts: the worker that records breached and endangered targets.
-- A run of the worker is one transaction, so a function from a database to a database; it collects the
-- notifications to send after the commit.
pub mod Worker
pub mod Laws
pub mod Marks
pub mod Ticks
pub mod Effects
mod Tests
use cursor_multi_agent.Prelude.{
  ℕ, String, Bool, true, false, not, ◌&&◌, Option, none, some, List, [], ◌∷◌, ◌++◌, ◌-◌, leb, ltb,
  is_some, is_none, is_empty, if◌then◌else◌, ◌===◌, truthy, present, map, filter,
}
use cursor_multi_agent.Store.{Ticket, SlaInstance, Db, BreachType, find_ticket, instance_key}
use cursor_multi_agent.Store.Tables.{find_by, update_by}
use cursor_multi_agent.Domain.{TicketPriority, sev1, sev2, sev3, sev4}

-- A `TeamMember` row joined with its user.
pub record MemberRow : Type 0 where
  pub team_id : String
  pub is_team_lead : Bool
  pub user_id : String
  pub email : String

-- The configuration of the worker and the members of the teams.
pub record WorkerConfig : Type 0 where
  -- 0 if the warnings are disabled
  pub at_risk_threshold_ms : ℕ
  pub priority_bump_enabled : Bool
  pub on_call_emails : List String
  pub members : List MemberRow
  pub batch_size : ℕ

pub data IntentKind : Type 0 where
  breach at_risk : IntentKind

-- `NotificationIntent`, less the text of the mail.
pub record Intent : Type 0 where
  pub kind : IntentKind
  pub ticket_id : String
  pub lead_users : List String
  pub on_call : List String
  pub breach_type : BreachType
  pub due_at : Option ℕ
  pub priority : TicketPriority

-- The state of a run: the database of the transaction and the intents, in the order of the pushes.
pub record Run : Type 0 where
  pub db : Db
  pub intents : List Intent

unfoldable pub load_lead_users : List MemberRow → Option String → List String
load_lead_users members team_id =
    if not (present team_id)
    then []
    else map (λ m. m.user_id)
        (filter (λ m. (team_id === m.team_id) && m.is_team_lead && truthy m.email) members)

unfoldable pub next_priority : TicketPriority → Option TicketPriority
next_priority sev4 = some sev3
next_priority sev3 = some sev2
next_priority sev2 = some sev1
next_priority sev1 = none

abbrev pub breached_at : BreachType → SlaInstance → Option ℕ
breached_at BreachType.first_response i = i.first_response_breached_at
breached_at BreachType.resolution i = i.resolution_breached_at

abbrev pub notified_at : BreachType → SlaInstance → Option ℕ
notified_at BreachType.first_response i = i.first_response_at_risk_notified_at
notified_at BreachType.resolution i = i.resolution_at_risk_notified_at

abbrev pub target_of : BreachType → SlaInstance → Option ℕ
target_of BreachType.first_response i = i.first_response_due_at
target_of BreachType.resolution i = i.resolution_due_at

-- When the ticket met the target, if it did.
abbrev pub met_at : BreachType → Ticket → Option ℕ
met_at BreachType.first_response t = t.first_response_at
met_at BreachType.resolution t = t.completed_at

-- `shouldBreachFirstResponse` and `shouldBreachResolution`
unfoldable pub should_breach : BreachType → SlaInstance → Ticket → ℕ → Bool
should_breach type i t now =
    is_none (met_at type t)
    && is_none (breached_at type i)
    && elim (target_of type i) [ none ↦ false | some due ↦ leb due now ]

-- `shouldNotifyFirstResponseAtRisk` and `shouldNotifyResolutionAtRisk`
unfoldable pub should_notify : ℕ → BreachType → SlaInstance → Ticket → ℕ → Bool
should_notify threshold type i t now =
    is_none (met_at type t)
    && is_none (breached_at type i)
    && is_none (notified_at type i)
    && elim (target_of type i) [
      | none ↦ false
      | some due ↦ ltb now due && leb (due - now) threshold
    ]

-- The `data` of the update of a breach; `next` is `nextDueAt`.
unfoldable pub mark_breached : BreachType → ℕ → Option ℕ → SlaInstance → SlaInstance
mark_breached BreachType.first_response now next i = record i {
  first_response_breached_at = some now;
  next_due_at = next;
}
mark_breached BreachType.resolution now next i = record i {
  resolution_breached_at = some now;
  next_due_at = none;
}

unfoldable pub mark_notified : BreachType → ℕ → SlaInstance → SlaInstance
mark_notified BreachType.first_response now i = record i {
  first_response_at_risk_notified_at = some now;
}
mark_notified BreachType.resolution now i = record i { resolution_at_risk_notified_at = some now }

-- `updateMany` on the row of a ticket whose `column` is null: none if no row has been changed.
unfoldable pub update_if_null :
    (SlaInstance → Option ℕ) → String → (SlaInstance → SlaInstance) → Db → Option Db
update_if_null column id change db = elim (find_by instance_key id db.sla_instances) [
  | none ↦ none
  | some row ↦
      if is_none (column row)
      then some (record db { sla_instances = update_by instance_key id change db.sla_instances })
      else none
]

-- `nextDueAt` of `handleBreach`
unfoldable pub due_after_breach : BreachType → SlaInstance → Option ℕ
due_after_breach BreachType.first_response i =
    if is_none i.resolution_breached_at then i.resolution_due_at else none
due_after_breach BreachType.resolution i = none

-- `nextDueAt` of `syncInstanceInTx`: the dates and the pause are those of the stored ticket, the rest
-- is from what the query of the run has read.
unfoldable pub synced_due : SlaInstance → Ticket → Ticket → Option ℕ
synced_due i t stored =
    if is_some stored.sla_paused_at
    then none
    else if is_none t.first_response_at
        && is_none i.first_response_breached_at
        && is_some stored.first_response_due_at
    then stored.first_response_due_at
    else if is_none t.completed_at && is_none i.resolution_breached_at && is_some stored.due_at
    then stored.due_at
    else none

unfoldable pub synced_row : SlaInstance → Ticket → Ticket → SlaInstance → SlaInstance
synced_row i t stored row = record row {
  priority = t.priority;
  first_response_due_at = stored.first_response_due_at;
  resolution_due_at = stored.due_at;
  paused_at = stored.sla_paused_at;
  next_due_at = synced_due i t stored;
}

unfoldable pub sync_instance_in_tx : SlaInstance → Ticket → Db → Db
sync_instance_in_tx i t db = elim (find_ticket db t.id) [
  | none ↦ db
  | some stored ↦ record db {
    sla_instances = update_by instance_key i.ticket_id (synced_row i t stored) db.sla_instances;
  }
]
