-- ===== src/Tickets/Creation.antt =====
-- `create` of tickets.service.ts. Left out are the columns that no other component reads (texts,
-- channel, category, number and display id), what follows the commit (caches, mails, live updates, the
-- job of the automation), and the foreign keys: a creation that they refuse is accepted here.
pub mod Members
pub mod Laws
pub mod Sequences
use cursor_multi_agent.Prelude.{
  ℕ, String, Bool, not, ◌&&◌, Option, none, some, List, [], ◌∷◌, ◌++◌, ◌==◌, map, or_else,
  or_option, present, if◌then◌else◌, Result, ok, guard, ◌>>=◌, ◌>>◌, forbidden, bad_request,
}
use cursor_multi_agent.Domain.{AuthUser, TicketPriority, new, assigned, sev3, is_employee}
use cursor_multi_agent.Store.{
  Ticket, Db, update_ticket, create_event, has_pair, ticket_created, ticket_assigned,
  ticket_status_changed,
}
use cursor_multi_agent.Sla.Policy.{SlaTables, SlaConfig, get_sla_config, add_sla_hours}
use cursor_multi_agent.Sla.Engine.{no_options, sync_from_ticket}
use cursor_multi_agent.Fields.{CustomField, FieldText, FieldValue}
use cursor_multi_agent.Fields.Values.{StoredValue, validate_and_normalize_values_for_ticket}
use cursor_multi_agent.Routing.Rules.{RoutingRule, RouteTarget, route_target}
use cursor_multi_agent.Routing.RoundRobin.{Team, resolve_assignee}
use cursor_multi_agent.Tickets.Guards.{can_assign_ticket}
use cursor_multi_agent.Tickets.Assignment.{ensure_follower}

pub record CreateTicket : Type 0 where
  pub subject : String
  pub description : String
  pub priority : Option TicketPriority
  pub channel : Option String
  pub requester_id : Option String
  pub assigned_team_id : Option String
  pub assignee_id : Option String
  pub category_id : Option String
  pub custom_field_values : Option (List FieldValue)
  pub tags : Option (List String)

-- What a creation reads: the functions on texts, the mail addresses of users, the active routing rules
-- in their order, the custom fields, and the policies.
pub record Setting : Type 0 where
  pub texts : FieldText
  pub to_upper_case : String → String
  pub email_of : String → Option String
  pub rules : List RoutingRule
  pub fields : List CustomField
  pub sla : SlaTables

-- The tables that it writes.
pub record Desk : Type 0 where
  pub db : Db
  pub teams : List Team
  pub values : List StoredValue

-- What the database gives a new row, and the option of the caller.
pub record Inserted : Type 0 where
  pub id : String
  pub created_at : ℕ
  pub skip_required_custom_fields : Bool

-- The users of the memberships of a team, in the order of their creation.
unfoldable pub team_member_ids : List (String × String) → String → List String
team_member_ids [] team = []
team_member_ids ((t, user) ∷ rows) team =
    let rest = team_member_ids rows team in if t == team then user ∷ rest else rest

-- `routedTarget?.teamId ?? null`, and so on
abbrev pub target_team : Option RouteTarget → Option String
target_team none = none
target_team (some target) = some target.team_id

abbrev pub target_assignee : Option RouteTarget → Option String
target_assignee none = none
target_assignee (some target) = target.assignee_id

abbrev pub target_priority : Option RouteTarget → Option TicketPriority
target_priority none = none
target_priority (some target) = target.set_priority

abbrev pub target_tags : Option RouteTarget → List String
target_tags none = []
target_tags (some target) = target.add_tags

unfoldable pub inserted_row :
    Inserted → String → Option TicketPriority → Option String → Option String → Ticket
inserted_row inserted requester priority team assignee = record {
  id = inserted.id;
  requester_id = requester;
  status = if present assignee then assigned else new;
  priority = or_else priority sev3;
  assigned_team_id = team;
  assignee_id = assignee;
  created_at = inserted.created_at;
  first_response_due_at = none;
  first_response_at = none;
  due_at = none;
  sla_paused_at = none;
  resolved_at = none;
  closed_at = none;
  completed_at = none;
  close_reason = none;
  deleted_at = none;
  deleted_by_id = none;
}

-- The tests on an assignee that the request names.
unfoldable pub check_assignee :
    CreateTicket → Inserted → Option String → AuthUser → Db → Result (Unit {0})
check_assignee payload inserted team user db =
    if present payload.assignee_id
    then (guard (present team) (bad_request "Cannot assign a ticket without a target team")
        >> (guard (can_assign_ticket user (inserted_row inserted user.id none team none))
              (forbidden "Not allowed to assign this ticket on creation")
            >> guard (has_pair (or_else team "") (or_else payload.assignee_id "") db.team_members)
                (bad_request "Assignee must belong to the ticket team")))
    else ok tt

-- `resolvedAssigneeId`, and the teams after the turn of a round robin.
unfoldable pub resolved_assignee :
    CreateTicket → Option RouteTarget → Desk → Option String × List Team
resolved_assignee payload target desk =
    let routed = or_option payload.assignee_id (target_assignee target) in
    if not (present payload.assignee_id) && not (present routed)
    then resolve_assignee (target_team target) (team_member_ids desk.db.team_members) desk.teams
    else (routed, desk.teams)

-- TICKET_ASSIGNED and TICKET_STATUS_CHANGED
unfoldable pub log_assignment : String → Option String → String → Db → Db
log_assignment id assignee actor_id db =
    if present assignee
    then create_event
        (record {
          ticket_id = id;
          body = ticket_status_changed new assigned none;
          created_by_id = some actor_id;
        })
        (create_event
          (record {
            ticket_id = id;
            body = ticket_assigned (or_else assignee "");
            created_by_id = some actor_id;
          })
          db)
    else db

unfoldable pub follow_assignee : String → Option String → Db → Db
follow_assignee id assignee db =
    if present assignee then ensure_follower id (or_else assignee "") db else db

abbrev pub stored_value : String → FieldValue → StoredValue
stored_value id item = record {
  ticket_id = id;
  custom_field_id = item.custom_field_id;
  value = item.value;
}

module _ (setting : Setting) where
  abbrev pub policy_of : Ticket → SlaConfig
  policy_of ticket = get_sla_config setting.sla ticket.priority ticket.assigned_team_id

  -- The due dates that the second write of the row stores.
  unfoldable pub dated : Ticket → Ticket → Ticket
  dated ticket row =
      let sla = policy_of ticket in
      record row {
        first_response_due_at = some (
            add_sla_hours setting.sla ticket.created_at sla.first_response_hours
              sla.business_hours_only ticket.assigned_team_id);
        due_at = some (
            add_sla_hours setting.sla ticket.created_at sla.resolution_hours sla.business_hours_only
              ticket.assigned_team_id);
      }

  abbrev pub insert_ticket : Ticket → Db → Db
  insert_ticket ticket db = record db { tickets = ticket ∷ db.tickets }

  -- The writes of the transaction to tickets, events and followers.
  unfoldable pub save_ticket : Ticket → String → Db → Db
  unfolding log_assignment follow_assignee
  save_ticket ticket actor_id db = follow_assignee ticket.id ticket.assignee_id (
      ensure_follower ticket.id ticket.requester_id (
        log_assignment ticket.id ticket.assignee_id actor_id (
          create_event
            (record {
              ticket_id = ticket.id;
              body = ticket_created ticket.priority;
              created_by_id = some ticket.requester_id;
            })
            (update_ticket ticket.id (dated ticket) (insert_ticket ticket db)))))

  unfoldable pub write_ticket : Ticket → String → Db → Db
  write_ticket ticket actor_id db =
      sync_from_ticket setting.sla ticket.id
        (record no_options { policy_config_id = some (policy_of ticket).policy_config_id })
        (save_ticket ticket actor_id db)

  unfoldable pub creation_target : CreateTicket → String → Db → Option RouteTarget
  creation_target payload requester db =
      if present payload.assigned_team_id
      then some (record {
        team_id = or_else payload.assigned_team_id "";
        assignee_id = none;
        set_priority = none;
        add_tags = [];
      })
      else route_target setting.texts.lower setting.to_upper_case setting.texts.trim
          setting.email_of db.team_members setting.rules
          (record {
            subject = payload.subject;
            description = payload.description;
            priority = payload.priority;
            channel = payload.channel;
            category_id = payload.category_id;
            requester_id = some requester;
          })

  -- `ticket` of the transaction, as it is inserted.
  unfoldable pub new_ticket : CreateTicket → Inserted → String → Option RouteTarget → Desk → Ticket
  new_ticket payload inserted requester target desk =
      inserted_row inserted requester (or_option (target_priority target) payload.priority)
        (target_team target) (resolved_assignee payload target desk).0

  unfoldable pub write_creation :
      CreateTicket
      → Inserted
      → AuthUser
      → String
      → Option RouteTarget
      → List FieldValue
      → Desk
      → Desk
  write_creation payload inserted user requester target validated desk = record {
    db = write_ticket (new_ticket payload inserted requester target desk) user.id desk.db;
    teams = (resolved_assignee payload target desk).1;
    values = map (stored_value inserted.id) validated ++ desk.values;
  }

  -- The tables, and the tags that are handed over to the tags service.
  unfoldable pub create_ticket :
      CreateTicket → Inserted → AuthUser → Desk → Result (Desk × List String)
  create_ticket payload inserted user desk =
      let requester = or_else payload.requester_id user.id in
      let target = creation_target payload requester desk.db in
      guard (not (is_employee user.role && not (requester == user.id)))
        (forbidden "Requesters can only create their own tickets")
      >> (check_assignee payload inserted (target_team target) user desk.db
          >> (validate_and_normalize_values_for_ticket setting.texts setting.fields
                (or_else payload.custom_field_values []) (target_team target) payload.category_id
                (not inserted.skip_required_custom_fields)
              >>= λ validated. ok (
                write_creation payload inserted user requester target validated desk,
                or_else payload.tags [] ++ target_tags target,
              )))
