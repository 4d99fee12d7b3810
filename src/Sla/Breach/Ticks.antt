-- ===== src/Sla/Breach/Ticks.antt =====
-- The marks after a whole tick of the worker, with its backfill.
use cursor_multi_agent.Prelude.{
  [], ◌∷◌, ℕ, String, ◌≡◌, refl, true, false, arith, List, Bool, none, some, Option-cases, ◌∷◌,
  Bool-cases, inl, ◌==◌, inr, ap, eq_iff, ◌∙◌,
}
use cursor_multi_agent.Sla.Engine.{
  updated_instance, created_instance, upsert_instance, sync_from_ticket, no_options,
}
use cursor_multi_agent.Store.Tables.{find_by}
use cursor_multi_agent.Sla.Policy.{SlaTables}
use cursor_multi_agent.Store.{BreachType, Ticket, SlaInstance, instance_key, Db, find_ticket}
use cursor_multi_agent.Sla.Breach.Worker.{sync_tickets, run_backfill, tick}
use cursor_multi_agent.Sla.Breach.{breached_at, WorkerConfig, find_ticket}
use cursor_multi_agent.Sla.Breach.Marks.{IsBreached, run_once-IsBreached, kept-update}

engine-mark :
    (tables : SlaTables) (type : BreachType) (t : Ticket) (row : SlaInstance)
    → breached_at type (updated_instance tables no_options t row) ≡ breached_at type row
unfolding updated_instance
engine-mark tables BreachType.first_response t row = refl
engine-mark tables BreachType.resolution t row = refl

engine-keeps :
    (tables : SlaTables) (t : Ticket) (row : SlaInstance)
    → instance_key (updated_instance tables no_options t row) ≡ instance_key row
unfolding updated_instance
engine-keeps tables t row = refl

behind_new :
    (tables : SlaTables) (t : Ticket) (id : String) (rows : List SlaInstance) {row : SlaInstance}
    → find_by instance_key t.id rows ≡ none
    → find_by instance_key id rows ≡ some row
    → find_by instance_key id (created_instance tables no_options t ∷ rows) ≡ some row
unfolding find_by created_instance
behind_new tables t id rows absent here = elim (Bool-cases (t.id == id)) [
  | inl e ↦ ground (arith, ap (λ k. find_by instance_key k rows) ((eq_iff t.id id).0 e))
  | inr e ↦ rw (e, here)
]

module _ (tables : SlaTables) (type : BreachType) (id : String) (at : ℕ) where
  upsert-IsBreached :
      (t : Ticket) (db : Db)
      → IsBreached type id at db
      → IsBreached type id at (upsert_instance tables no_options t db)
  unfolding upsert_instance
  upsert-IsBreached t db (row, here, set) =
      elim (Option-cases (find_by instance_key t.id db.sla_instances)) [
        | inl absent ↦
            rw (absent, upsert_instance)
              (row, behind_new tables t id db.sla_instances absent here, set)
        | inr (old, e) ↦
            rw (e, upsert_instance)
              (kept-update (updated_instance tables no_options t) type t.id id at db
                (engine-keeps tables t) (λ r there mark k. engine-mark tables type t r ∙ mark)
                (row, here, set))
      ]

  engine-IsBreached :
      (ticket_id : String) (db : Db)
      → IsBreached type id at db
      → IsBreached type id at (sync_from_ticket tables ticket_id no_options db)
  unfolding sync_from_ticket
  engine-IsBreached ticket_id db set = elim (Option-cases (find_ticket db ticket_id)) [
    | inl absent ↦ rw (absent, sync_from_ticket) set
    | inr (t, e) ↦ rw (e, sync_from_ticket) (upsert-IsBreached t db set)
  ]

  synced-IsBreached :
      (ts : List Ticket) (db : Db)
      → IsBreached type id at db
      → IsBreached type id at (sync_tickets tables ts db)
  unfolding sync_tickets
  synced-IsBreached [] db set = set
  synced-IsBreached (t ∷ ts) db set =
      synced-IsBreached ts (sync_from_ticket tables t.id no_options db)
        (engine-IsBreached t.id db set)

  backfill-IsBreached :
      (batch : ℕ) (locked : Bool) (db : Db)
      → IsBreached type id at db
      → IsBreached type id at (run_backfill tables batch locked db)
  unfolding run_backfill
  backfill-IsBreached batch true db set = synced-IsBreached _ db set
  backfill-IsBreached batch false db set = set

  -- The instant at which a target was breached is recorded once: a tick of the worker, backfill and run,
  -- keeps every mark of the stored instances, whoever holds the locks.
  pub tick-IsBreached :
      (batch : ℕ) (fails backfill_locked : Bool) (w : WorkerConfig) (now : ℕ) (locked : Bool)
      (db : Db)
      → IsBreached type id at db
      → IsBreached type id at (tick tables batch fails backfill_locked w now locked db).db
  unfolding tick
  tick-IsBreached batch true backfill_locked w now locked db set =
      run_once-IsBreached w now locked type id at db set
  tick-IsBreached batch false backfill_locked w now locked db set =
      run_once-IsBreached w now locked type id at (run_backfill tables batch backfill_locked db)
        (backfill-IsBreached batch backfill_locked db set)
