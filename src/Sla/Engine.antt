-- ===== src/Sla/Engine.antt =====
-- apps/api/src/slas/sla-engine.service.ts: keeping a ticket's `SlaInstance` row in step with it.
pub mod Laws
use cursor_multi_agent.Prelude.{
  ℕ, String, Bool, true, false, not, ◌&&◌, ◌||◌, Option, none, some, List, [], ◌∷◌, is_some,
  is_none, or_else, or_option, present, if◌then◌else◌,
}
use cursor_multi_agent.Store.{Ticket, SlaInstance, Db, find_ticket, instance_key}
use cursor_multi_agent.Store.Tables.{find_by, update_by}
use cursor_multi_agent.Sla.Policy.{SlaTables, resolve_effective_policy_config_id}

-- The `options` of `syncFromTicket`; the outer `none` is `undefined`, the inner one `null`.
pub record SyncOptions : Type 0 where
  pub policy_config_id : Option (Option String)
  pub reset_resolution : Bool
  pub reset_first_response : Bool

abbrev pub no_options : SyncOptions
no_options = record {
  policy_config_id = none;
  reset_resolution = false;
  reset_first_response = false;
}

abbrev pub existing_policy : Option SlaInstance → Option String
existing_policy none = none
existing_policy (some i) = i.policy_config_id

abbrev pub first_response_breach : Option SlaInstance → Option ℕ
first_response_breach none = none
first_response_breach (some i) = i.first_response_breached_at

abbrev pub resolution_breach : Option SlaInstance → Option ℕ
resolution_breach none = none
resolution_breach (some i) = i.resolution_breached_at

-- The two breach instants are those of the `instance` argument.
unfoldable pub compute_next_due_at : Ticket → Option ℕ → Option ℕ → Option ℕ
compute_next_due_at ticket first_response_breached_at resolution_breached_at =
    if is_some ticket.sla_paused_at
    then none
    else if is_none ticket.first_response_at
        && is_none first_response_breached_at
        && is_some ticket.first_response_due_at
    then ticket.first_response_due_at
    else if is_none ticket.completed_at && is_none resolution_breached_at && is_some ticket.due_at
    then ticket.due_at
    else none

abbrev pub cleared_if : Bool → Option ℕ → Option ℕ
cleared_if reset o = if reset then none else o

-- `connect`, `disconnect` or no change of the policy of an existing row.
unfoldable pub linked_policy : Option (Option String) → Option String → Option String
linked_policy none existing = existing
linked_policy (some resolved) existing =
    if present resolved then resolved else if present existing then none else existing

module _ (tables : SlaTables) where
  unfoldable pub resolved_policy :
      SyncOptions → Ticket → Option SlaInstance → Option (Option String)
  resolved_policy options ticket existing =
      if is_none options.policy_config_id && not (present (existing_policy existing))
      then some (resolve_effective_policy_config_id tables ticket.priority ticket.assigned_team_id)
      else options.policy_config_id

  abbrev pub next_due_after : SyncOptions → Ticket → Option SlaInstance → Option ℕ
  next_due_after options ticket existing =
      compute_next_due_at ticket
        (cleared_if options.reset_first_response (first_response_breach existing))
        (cleared_if options.reset_resolution (resolution_breach existing))

  -- `update: updateData`
  unfoldable pub updated_instance : SyncOptions → Ticket → SlaInstance → SlaInstance
  updated_instance options ticket i = record i {
    policy_config_id = linked_policy (resolved_policy options ticket (some i)) i.policy_config_id;
    priority = ticket.priority;
    first_response_due_at = ticket.first_response_due_at;
    resolution_due_at = ticket.due_at;
    paused_at = ticket.sla_paused_at;
    next_due_at = next_due_after options ticket (some i);
    first_response_at_risk_notified_at =
        cleared_if options.reset_first_response i.first_response_at_risk_notified_at;
    resolution_at_risk_notified_at =
        cleared_if options.reset_resolution i.resolution_at_risk_notified_at;
    first_response_breached_at =
        cleared_if options.reset_first_response i.first_response_breached_at;
    resolution_breached_at = cleared_if options.reset_resolution i.resolution_breached_at;
  }

  -- `create: {...}`
  unfoldable pub created_instance : SyncOptions → Ticket → SlaInstance
  created_instance options ticket = record {
    ticket_id = ticket.id;
    policy_config_id = or_else (resolved_policy options ticket none) none;
    priority = ticket.priority;
    first_response_due_at = ticket.first_response_due_at;
    resolution_due_at = ticket.due_at;
    paused_at = ticket.sla_paused_at;
    next_due_at = next_due_after options ticket none;
    first_response_at_risk_notified_at = none;
    resolution_at_risk_notified_at = none;
    first_response_breached_at = none;
    resolution_breached_at = none;
  }

  unfoldable pub upsert_instance : SyncOptions → Ticket → Db → Db
  upsert_instance options ticket db = elim (find_by instance_key ticket.id db.sla_instances) [
    | some _ ↦ record db {
      sla_instances =
          update_by instance_key ticket.id (updated_instance options ticket) db.sla_instances;
    }
    | none ↦ record db { sla_instances = created_instance options ticket ∷ db.sla_instances }
  ]

  -- A missing ticket is `return null`.
  unfoldable pub sync_from_ticket : String → SyncOptions → Db → Db
  sync_from_ticket ticket_id options db = elim (find_ticket db ticket_id) [
    | none ↦ db
    | some ticket ↦ upsert_instance options ticket db
  ]
