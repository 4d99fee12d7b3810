-- ===== src/Sla/Breach/Laws.antt =====
-- The worker's synchronisation, its conditional update and the branches of its handler.
use cursor_multi_agent.Prelude.{
  ℕ, String, ◌≡◌, refl, ◌∙◌, arith, if◌then◌else◌, none, some, Option, Bool, true, false, ◌+◌,
  is_some, ltb, ◌&&◌,
}
use cursor_multi_agent.Domain.{sev1, sev2, sev3, sev4, TicketPriority}
use cursor_multi_agent.Store.{Ticket, SlaInstance, Db, BreachType, instance_key, find_ticket}
use cursor_multi_agent.Store.Tables.{find_by, update_by, find_by-update_self}
use cursor_multi_agent.Sla.Breach.{
  next_priority, synced_due, synced_row, sync_instance_in_tx, update_if_null, WorkerConfig, Run,
  should_breach, should_notify,
}
use cursor_multi_agent.Sla.Breach.Worker.{handle_instance, handle_breach, handle_at_risk, sync_run}
use cursor_multi_agent.Sla.Engine.{compute_next_due_at}
use cursor_multi_agent.Sla.Engine.Laws.{Mirrors}

-- The stored instance of a ticket.
abbrev pub instance_of : String → Db → Option SlaInstance
instance_of id db = find_by instance_key id db.sla_instances

-- The severity of a priority, the most urgent one the highest.
abbrev pub severity : TicketPriority → ℕ
severity sev4 = 0
severity sev3 = 1
severity sev2 = 2
severity sev1 = 3

next_priority-severity :
    (p : TicketPriority) {q : TicketPriority}
    → next_priority p ≡ some q
    → severity q ≡ severity p + 1
unfolding next_priority
next_priority-severity p {q} h = ground arith

-- The worker's own computation of the next due instant is the engine's.
synced_due-eq-compute :
    (i : SlaInstance) (t : Ticket)
    → synced_due i t t ≡ compute_next_due_at t i.first_response_breached_at i.resolution_breached_at
unfolding synced_due compute_next_due_at
synced_due-eq-compute i t = refl

pub synced-keeps :
    (i row : SlaInstance) (t stored : Ticket)
    → instance_key (synced_row i t stored row) ≡ instance_key row
unfolding synced_row
synced-keeps i row t stored = refl

synced :
    (i : SlaInstance) (t : Ticket) (db : Db)
    → find_ticket db t.id ≡ some t
    → instance_of i.ticket_id db ≡ some i
    → instance_of i.ticket_id (sync_instance_in_tx i t db) ≡ some (synced_row i t t i)
unfolding sync_instance_in_tx
synced i t db found here =
    rw (found, sync_instance_in_tx)
      (find_by-update_self instance_key (synced_row i t t) (λ row. synced-keeps i row t t)
          i.ticket_id db.sla_instances
        ∙ rw here)

-- If the instance and the ticket of a synchronisation by the worker are the stored ones, the stored
-- instance mirrors the ticket afterwards, as after a synchronisation by the engine.
pub sync_in_tx-Mirrors :
    (i : SlaInstance) (t : Ticket) (db : Db)
    → i.ticket_id ≡ t.id
    → find_ticket db t.id ≡ some t
    → instance_of i.ticket_id db ≡ some i
    → (row : SlaInstance) × (instance_of i.ticket_id (sync_instance_in_tx i t db) ≡ some row)
      × Mirrors t row
unfolding synced_row
sync_in_tx-Mirrors i t db same found here = (
  synced_row i t t i,
  synced i t db found here,
  record {
    same_ticket = same;
    same_priority = refl;
    same_first_response = refl;
    same_resolution = refl;
    same_pause = refl;
    next_due = synced_due-eq-compute i t;
  },
)

pub update_if_null-effect :
    (column : SlaInstance → Option ℕ) (id : String) (change : SlaInstance → SlaInstance) (db : Db)
    {after : Db}
    → update_if_null column id change db ≡ some after
    → (row : SlaInstance) × (instance_of id db ≡ some row)
      × (column row ≡ none)
      × (after ≡ record db { sla_instances = update_by instance_key id change db.sla_instances })
unfolding update_if_null
update_if_null-effect column id change db h = ground arith

if-both {ℓ κ} :
    {A : Type ℓ} (P : A → Type κ) (b : Bool) {x y : A} → P x → P y → P (if b then x else y)
if-both P true p q = p
if-both P false p q = q

-- What a handler does on each of its branches it does.
pub handle_instance-branches :
    (P : Run → Type 0) (w : WorkerConfig) (now : ℕ) (i : SlaInstance) (t : Ticket) (run : Run)
    → P (sync_run i t run)
    → ((kind : BreachType) → P (handle_breach w now i t kind run))
    → ((kind : BreachType) → P (handle_at_risk w now i t kind run))
    → P (handle_instance w now i t run)
unfolding handle_instance
handle_instance-branches P w now i t run synced breached risked =
    if-both P (is_some i.paused_at) synced (
      if-both P (should_breach BreachType.first_response i t now)
        (breached BreachType.first_response)
        (if-both P (should_breach BreachType.resolution i t now) (breached BreachType.resolution) (
          if-both P
            (ltb 0 w.at_risk_threshold_ms
              && should_notify w.at_risk_threshold_ms BreachType.first_response i t now)
            (risked BreachType.first_response)
            (if-both P
              (ltb 0 w.at_risk_threshold_ms
                && should_notify w.at_risk_threshold_ms BreachType.resolution i t now)
              (risked BreachType.resolution) synced))))
