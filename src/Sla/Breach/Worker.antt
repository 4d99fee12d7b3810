-- ===== src/Sla/Breach/Worker.antt =====
-- The handlers of the breach worker, from `handleInstance` to `runOnce`.
use cursor_multi_agent.Prelude.{
  ℕ, Bool, false, ◌&&◌, Option, none, some, List, [], ◌∷◌, ◌++◌, ◌+◌, leb, ltb, is_some, is_none,
  is_empty, if◌then◌else◌, filter, take, or_else,
}
use cursor_multi_agent.Store.{
  Ticket, SlaInstance, Db, BreachType, find_ticket, instance_key, update_ticket, create_event,
  sla_breached, sla_at_risk, priority_bumped, TicketEvent,
}
use cursor_multi_agent.Store.Tables.{find_by, update_by}
use cursor_multi_agent.Sla.Policy.{SlaTables}
use cursor_multi_agent.Sla.Engine.{sync_from_ticket, no_options}
use cursor_multi_agent.Domain.{TicketPriority}
use cursor_multi_agent.Sla.Breach.{
  WorkerConfig, Run, next_priority, Intent, update_if_null, target_of, sync_instance_in_tx,
  should_breach, load_lead_users, breach, at_risk, breached_at, notified_at, should_notify,
  mark_breached, mark_notified, due_after_breach,
}

abbrev pub with_priority : TicketPriority → Ticket → Ticket
with_priority p t = record t { priority = p }

abbrev pub instance_priority : TicketPriority → SlaInstance → SlaInstance
instance_priority p i = record i { priority = p }

abbrev pub bump_event : Ticket → TicketPriority → BreachType → TicketEvent
bump_event t next type = record {
  ticket_id = t.id;
  body = priority_bumped t.priority next type;
  created_by_id = none;
}

-- The writes of a bump of the priority.
unfoldable pub write_bump : Ticket → TicketPriority → BreachType → Db → Db
write_bump t next type db =
    let bumped : Db =
      create_event (bump_event t next type) (update_ticket t.id (with_priority next) db) in
    record bumped {
      sla_instances = update_by instance_key t.id (instance_priority next) bumped.sla_instances;
    }

unfoldable pub bumped_priority : WorkerConfig → Ticket → Option TicketPriority
bumped_priority w t = if w.priority_bump_enabled then next_priority t.priority else none

unfoldable pub apply_priority_bump : WorkerConfig → Ticket → BreachType → Db → Db
apply_priority_bump w t type db = elim (bumped_priority w t) [
  | none ↦ db
  | some next ↦ write_bump t next type db
]

-- `notificationIntents.push`, unless there is nobody to notify.
unfoldable pub push_intent : WorkerConfig → Ticket → Intent → List Intent → List Intent
push_intent w t intent intents =
    if is_empty (load_lead_users w.members t.assigned_team_id) && is_empty w.on_call_emails
    then intents
    else intents ++ (intent ∷ [])

unfoldable pub breach_intent : WorkerConfig → SlaInstance → Ticket → BreachType → Intent
breach_intent w i t type = record {
  kind = breach;
  ticket_id = t.id;
  lead_users = load_lead_users w.members t.assigned_team_id;
  on_call = w.on_call_emails;
  breach_type = type;
  due_at = target_of type i;
  priority = or_else (bumped_priority w t) t.priority;
}

unfoldable pub at_risk_intent : WorkerConfig → SlaInstance → Ticket → BreachType → Intent
at_risk_intent w i t type = record {
  kind = at_risk;
  ticket_id = t.id;
  lead_users = load_lead_users w.members t.assigned_team_id;
  on_call = w.on_call_emails;
  breach_type = type;
  due_at = target_of type i;
  priority = t.priority;
}

abbrev pub breach_event : SlaInstance → Ticket → BreachType → TicketEvent
breach_event i t type = record {
  ticket_id = t.id;
  body = sla_breached type (target_of type i);
  created_by_id = none;
}

unfoldable pub handle_breach : WorkerConfig → ℕ → SlaInstance → Ticket → BreachType → Run → Run
handle_breach w now i t type run =
    elim (update_if_null (breached_at type) i.ticket_id
      (mark_breached type now (due_after_breach type i)) run.db) [
        | none ↦ run
        | some db ↦ record {
          db = apply_priority_bump w t type (
              create_event
                (record {
                  ticket_id = t.id;
                  body = sla_breached type (target_of type i);
                  created_by_id = none;
                })
                db);
          intents = push_intent w t (breach_intent w i t type) run.intents;
        }
      ]

unfoldable pub handle_at_risk : WorkerConfig → ℕ → SlaInstance → Ticket → BreachType → Run → Run
handle_at_risk w now i t type run =
    if is_none (target_of type i)
    then run
    else elim (update_if_null (notified_at type) i.ticket_id (mark_notified type now) run.db) [
      | none ↦ run
      | some db ↦ record {
        db =
            create_event
              (record {
                ticket_id = t.id;
                body = sla_at_risk type (target_of type i);
                created_by_id = none;
              })
              db;
        intents = push_intent w t (at_risk_intent w i t type) run.intents;
      }
    ]

abbrev pub sync_run : SlaInstance → Ticket → Run → Run
sync_run i t run = record run { db = sync_instance_in_tx i t run.db }

unfoldable pub handle_instance : WorkerConfig → ℕ → SlaInstance → Ticket → Run → Run
handle_instance w now i t run =
    if is_some i.paused_at
    then sync_run i t run
    else if should_breach BreachType.first_response i t now
    then handle_breach w now i t BreachType.first_response run
    else if should_breach BreachType.resolution i t now
    then handle_breach w now i t BreachType.resolution run
    else if ltb 0 w.at_risk_threshold_ms
        && should_notify w.at_risk_threshold_ms BreachType.first_response i t now
    then handle_at_risk w now i t BreachType.first_response run
    else if ltb 0 w.at_risk_threshold_ms
        && should_notify w.at_risk_threshold_ms BreachType.resolution i t now
    then handle_at_risk w now i t BreachType.resolution run
    else sync_run i t run

-- `nextDueAt <= windowEnd`, which a null is not.
unfoldable pub is_due : ℕ → SlaInstance → Bool
is_due window_end i = elim i.next_due_at [ none ↦ false | some at ↦ leb at window_end ]

abbrev pub due_before : SlaInstance → SlaInstance → Bool
due_before i j = leb (or_else i.next_due_at 0) (or_else j.next_due_at 0)

unfoldable pub insert_by_due : SlaInstance → List SlaInstance → List SlaInstance
insert_by_due i [] = i ∷ []
insert_by_due i (j ∷ rows) =
    let rest = insert_by_due i rows in if due_before i j then i ∷ j ∷ rows else j ∷ rest

-- `orderBy: { nextDueAt: 'asc' }`
unfoldable pub order_by_due : List SlaInstance → List SlaInstance
order_by_due [] = []
order_by_due (i ∷ rows) = insert_by_due i (order_by_due rows)

-- The batch of a run.
unfoldable pub due_instances : WorkerConfig → ℕ → Db → List SlaInstance
due_instances w now db =
    take w.batch_size
      (order_by_due (filter (is_due (now + w.at_risk_threshold_ms)) db.sla_instances))

-- The loop over the batch. The ticket of each instance is what the query has read, before the loop.
unfoldable pub handle_instances : WorkerConfig → ℕ → Db → List SlaInstance → Run → Run
handle_instances w now read [] run = run
handle_instances w now read (i ∷ rest) run =
    handle_instances w now read rest
      (elim (find_ticket read i.ticket_id) [ none ↦ run | some t ↦ handle_instance w now i t run ])

-- Does the backfill take this ticket?
unfoldable pub lacks_instance : Db → Ticket → Bool
lacks_instance db t =
    is_none t.completed_at
    && is_none t.deleted_at
    && is_none (find_by instance_key t.id db.sla_instances)

unfoldable pub sync_tickets : SlaTables → List Ticket → Db → Db
sync_tickets tables [] db = db
sync_tickets tables (t ∷ rest) db =
    sync_tickets tables rest (sync_from_ticket tables t.id no_options db)

-- `runBackfillWithLock`, with its lock taken or not.
unfoldable pub run_backfill : SlaTables → ℕ → Bool → Db → Db
run_backfill tables batch locked db =
    if locked
    then sync_tickets tables (take batch (filter (lacks_instance db) db.tickets)) db
    else db

-- The transaction of `runOnce`; `locked` is what the database says of the advisory lock.
unfoldable pub run_once : WorkerConfig → ℕ → Bool → Db → Run
run_once w now locked db =
    if locked
    then handle_instances w now db (due_instances w now db) (record { db = db; intents = [] })
    else record { db = db; intents = [] }

-- A tick of the worker: the backfill in a transaction of its own, then the run. `backfill_fails` is an
-- error of the first transaction, which leaves the database as it was and is only logged.
unfoldable pub tick : SlaTables → ℕ → Bool → Bool → WorkerConfig → ℕ → Bool → Db → Run
tick tables backfill_batch backfill_fails backfill_locked w now locked db =
    run_once w now locked
      (if backfill_fails then db else run_backfill tables backfill_batch backfill_locked db)
