-- ===== src/Tickets/Removal/Breaches.antt =====
-- The breach worker and deleted tickets.
use cursor_multi_agent.Prelude.{ℕ, String, ◌≡◌, refl, sym, ◌∙◌, arith, ok, some, none, true, [], ap}
use mathlib.Core.Path.{subst}
use mathlib.Core.Option.{some-injective}
use cursor_multi_agent.Tickets.Removal.{
  write_deletion, update_ticket, AuthUser, soft_delete, deleted_row,
}
use cursor_multi_agent.Sla.Breach.{WorkerConfig, should_breach, Run}
use cursor_multi_agent.Store.{
  update_ticket, create_event, Db, Ticket, SlaInstance, find_ticket, BreachType, instance_key,
}
use cursor_multi_agent.Domain.{AuthUser}
use cursor_multi_agent.Sla.Breach.Laws.{instance_of}
use cursor_multi_agent.Sla.Breach.Worker.{due_instances, handle_instance, handle_breach}
use cursor_multi_agent.Sla.Breach.Marks.{IsBreached}
use cursor_multi_agent.Tickets.Removal.Laws.{deletion_cases, deleted_stored}
use cursor_multi_agent.Store.Tables.{find_by-key, find_by}
use cursor_multi_agent.Sla.Breach.Effects.{breach_effect}

deletion_keeps_instances :
    (now : ℕ) (t : Ticket) (actor : String) (db : Db)
    → (write_deletion now t actor db).sla_instances ≡ db.sla_instances
unfolding write_deletion update_ticket create_event
deletion_keeps_instances now t actor db = refl

deletion_keeps_batch :
    (w : WorkerConfig) (at now : ℕ) (t : Ticket) (actor : String) (db : Db)
    → due_instances w at (write_deletion now t actor db) ≡ due_instances w at db
unfolding due_instances
deletion_keeps_batch w at now t actor db = rw (deletion_keeps_instances now t actor db)

deleted_as_due :
    (type : BreachType) (i : SlaInstance) (t : Ticket) (at now : ℕ) (actor : String)
    → should_breach type i (deleted_row now actor t) at ≡ should_breach type i t at
unfolding should_breach deleted_row
deleted_as_due type i t at now actor = ground arith

first_response_handled :
    (w : WorkerConfig) (at : ℕ) (i : SlaInstance) (t : Ticket) (run : Run)
    → i.paused_at ≡ none
    → should_breach BreachType.first_response i t at ≡ true
    → handle_instance w at i t run ≡ handle_breach w at i t BreachType.first_response run
unfolding handle_instance
first_response_handled w at i t run running due = ground arith

unmarked_of_due :
    (i : SlaInstance) (t : Ticket) (at : ℕ)
    → should_breach BreachType.first_response i t at ≡ true
    → i.first_response_breached_at ≡ none
unfolding should_breach
unmarked_of_due i t at due = ground arith

-- An accepted deletion does not stop the breach worker: its batch is the same afterwards, and a ticket
-- whose clock runs and whose first response is overdue is marked as breached although it is deleted.
pub deleted_still-IsBreached :
    (w : WorkerConfig) (now at : ℕ) (id : String) (user : AuthUser) (db : Db) {after : Db}
    {i : SlaInstance} {t : Ticket}
    → soft_delete now id user db ≡ ok after
    → find_ticket db id ≡ some t
    → instance_of id db ≡ some i
    → i.paused_at ≡ none
    → should_breach BreachType.first_response i t at ≡ true
    → (due_instances w at after ≡ due_instances w at db)
      × (gone : Ticket) × (find_ticket after id ≡ some gone)
      × (gone.deleted_at ≡ some now)
      × IsBreached BreachType.first_response i.ticket_id at
          (handle_instance w at i gone (record { db = after; intents = [] })).db
unfolding deleted_row
deleted_still-IsBreached w now at id user db {after} {i} {t} accepted found here running due =
    let (old, there, live, written) = deletion_cases now id user db accepted in
    let same : old ≡ t = some-injective old t (sym there ∙ found) in
    let gone = deleted_row now user.id t in
    let start : Run = record { db = after; intents = [] } in
    let (again, stored, alive, kept) = deleted_stored now id user db accepted in
    let same_again : again ≡ t = some-injective again t (sym stored ∙ found) in
    let late : should_breach BreachType.first_response i gone at ≡ true =
      deleted_as_due BreachType.first_response i t at now user.id ∙ due in
    let key : i.ticket_id ≡ id = find_by-key instance_key id db.sla_instances here in
    let held : instance_of i.ticket_id after ≡ some i =
      ap (λ k. instance_of k after) key
      ∙ ap (λ d. instance_of id d) written
      ∙ ap (find_by instance_key id) (deletion_keeps_instances now old user.id db)
      ∙ here in
    (
      ap (due_instances w at) written ∙ deletion_keeps_batch w at now old user.id db,
      gone,
      kept ∙ ap (λ x. some (deleted_row now user.id x)) same_again,
      refl,
      subst (λ r. IsBreached BreachType.first_response i.ticket_id at r.db)
          (sym (first_response_handled w at i gone start running late))
          (breach_effect w at i gone BreachType.first_response start held
            (unmarked_of_due i t at due)).0,
    )
