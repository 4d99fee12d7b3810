-- ===== src/Sla/Breach/Effects.antt =====
-- What the handling of a breach does.
use cursor_multi_agent.Prelude.{
  ℕ, String, ◌≡◌, sym, ◌∙◌, arith, Bool, Option, not, is_empty, some, none, List, ◌&&◌, ◌++◌, ◌∷◌,
  if◌then◌else◌, [], Option-cases, inl, inr, ap,
}
use cursor_multi_agent.Sla.Breach.{
  WorkerConfig, update_if_null, mark_breached, Ticket, SlaInstance, BreachType, Run, Db,
  breached_at, load_lead_users, update_by, instance_key, due_after_breach, Intent,
}
use cursor_multi_agent.Sla.Breach.Worker.{
  apply_priority_bump, handle_breach, write_bump, breach_event, breach_intent, push_intent,
  bumped_priority, bump_event,
}
use cursor_multi_agent.Store.{
  Ticket, SlaInstance, BreachType, create_event, update_ticket, Db, TicketEvent, instance_key,
}
use cursor_multi_agent.Sla.Breach.Laws.{instance_of, update_if_null-effect}
use cursor_multi_agent.Store.Tables.{update_by, find_by-update_self}
use cursor_multi_agent.Sla.Breach.Marks.{IsBreached, breached-keeps, bump-IsBreached}

-- Is there anybody to tell of a breach of this ticket's targets?
abbrev pub has_recipients : WorkerConfig → Ticket → Bool
has_recipients w t =
    not (is_empty (load_lead_users w.members t.assigned_team_id) && is_empty w.on_call_emails)

update_if_null-open :
    (column : SlaInstance → Option ℕ) (id : String) (change : SlaInstance → SlaInstance) (db : Db)
    {row : SlaInstance}
    → instance_of id db ≡ some row
    → column row ≡ none
    → update_if_null column id change db
      ≡ some (record db { sla_instances = update_by instance_key id change db.sla_instances })
unfolding update_if_null
update_if_null-open column id change db here unmarked = ground arith

update_if_null-marked :
    (column : SlaInstance → Option ℕ) (id : String) (change : SlaInstance → SlaInstance) (db : Db)
    {row : SlaInstance} {at : ℕ}
    → instance_of id db ≡ some row
    → column row ≡ some at
    → update_if_null column id change db ≡ none
unfolding update_if_null
update_if_null-marked column id change db here marked = ground arith

update_if_null-none :
    (column : SlaInstance → Option ℕ) (id : String) (change other : SlaInstance → SlaInstance)
    (db : Db)
    → update_if_null column id change db ≡ none
    → update_if_null column id other db ≡ none
unfolding update_if_null
update_if_null-none column id change other db h = ground arith

marked_now :
    (kind : BreachType) (now : ℕ) (next : Option ℕ) (row : SlaInstance)
    → breached_at kind (mark_breached kind now next row) ≡ some now
unfolding mark_breached
marked_now kind now next row = ground arith

bump-events :
    (w : WorkerConfig) (t : Ticket) (kind : BreachType) (db : Db)
    → (bumps : List TicketEvent) × ((apply_priority_bump w t kind db).events ≡ bumps ++ db.events)
unfolding apply_priority_bump write_bump create_event update_ticket
bump-events w t kind db = elim (Option-cases (bumped_priority w t)) [
  | inl e ↦ ([], rw (e, apply_priority_bump))
  | inr (next, e) ↦ (bump_event t next kind ∷ [], rw (e, apply_priority_bump))
]

push_intent-eq :
    (w : WorkerConfig) (t : Ticket) (intent : Intent) (intents : List Intent)
    → push_intent w t intent intents
      ≡ (if has_recipients w t then intents ++ (intent ∷ []) else intents)
unfolding push_intent
push_intent-eq w t intent intents = ground arith

-- The first handling of an open target whose instance is stored marks it with the instant of the run
-- and logs the breach; it pushes a notification intent exactly if there is a lead of the team with an
-- address or an address on call.
pub breach_effect :
    (w : WorkerConfig) (now : ℕ) (i : SlaInstance) (t : Ticket) (kind : BreachType) (run : Run)
    {row : SlaInstance}
    → instance_of i.ticket_id run.db ≡ some row
    → breached_at kind row ≡ none
    → let after = handle_breach w now i t kind run in
      IsBreached kind i.ticket_id now after.db
      × ((bumps : List TicketEvent) × (after.db.events
            ≡ bumps ++ (breach_event i t kind ∷ run.db.events)))
      × (after.intents ≡ (
          if has_recipients w t
          then run.intents ++ (breach_intent w i t kind ∷ [])
          else run.intents))
unfolding handle_breach create_event update_by
breach_effect w now i t kind run {row} here unmarked =
    let change = mark_breached kind now (due_after_breach kind i) in
    let opened = update_if_null-open (breached_at kind) i.ticket_id change run.db here unmarked in
    let db : Db = record (run.db) {
      sla_instances = update_by instance_key i.ticket_id change run.db.sla_instances;
    } in
    let stored : instance_of i.ticket_id db ≡ some (change row) =
      find_by-update_self instance_key change (breached-keeps kind now (due_after_breach kind i))
        i.ticket_id run.db.sla_instances
      ∙ rw here in
    rw (opened, handle_breach)
      (
        bump-IsBreached kind i.ticket_id now w t kind (create_event (breach_event i t kind) db)
            (change row, stored, marked_now kind now (due_after_breach kind i) row),
        bump-events w t kind (create_event (breach_event i t kind) db),
        push_intent-eq w t (breach_intent w i t kind) run.intents,
      )

breach_closed :
    (w : WorkerConfig) (now : ℕ) (i : SlaInstance) (t : Ticket) (kind : BreachType) (run : Run)
    → update_if_null
        (breached_at kind)
        i.ticket_id
        (mark_breached kind now (due_after_breach kind i))
        run.db
      ≡ none
    → handle_breach w now i t kind run ≡ run
unfolding handle_breach
breach_closed w now i t kind run e = rw (e, handle_breach)

-- A target is handled once: a second handling, with whatever instant and whatever the query has read,
-- changes nothing.
pub breach_once :
    (w : WorkerConfig) (now later : ℕ) (i j : SlaInstance) (t u : Ticket) (kind : BreachType)
    (run : Run)
    → j.ticket_id ≡ i.ticket_id
    → let once = handle_breach w now i t kind run in handle_breach w later j u kind once ≡ once
breach_once w now later i j t u kind run same =
    let change = mark_breached kind now (due_after_breach kind i) in
    let again = mark_breached kind later (due_after_breach kind j) in
    elim (Option-cases (update_if_null (breached_at kind) i.ticket_id change run.db)) [
      | inl e ↦
          let first = breach_closed w now i t kind run e in
          let second = breach_closed w later j u kind run (
            ap (λ id. update_if_null (breached_at kind) id again run.db) same
            ∙ update_if_null-none (breached_at kind) i.ticket_id change again run.db e) in
          ap (handle_breach w later j u kind) first ∙ second ∙ sym first
      | inr (db, e) ↦
          let (row, here, unmarked, written) =
            update_if_null-effect (breached_at kind) i.ticket_id change run.db e in
          let once = handle_breach w now i t kind run in
          let (marked, stored, set) = (breach_effect w now i t kind run here unmarked).0 in
          breach_closed w later j u kind once (
            ap (λ id. update_if_null (breached_at kind) id again once.db) same
            ∙ update_if_null-marked (breached_at kind) i.ticket_id again once.db stored set)
    ]
