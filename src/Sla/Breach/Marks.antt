-- ===== src/Sla/Breach/Marks.antt =====
-- The marks of breached targets after a run of the worker.
use cursor_multi_agent.Prelude.{
  false, ℕ, String, ◌≡◌, refl, sym, ◌∙◌, arith, Option, none, Option-cases, List, Bool, some,
  Bool-cases, ◌∷◌, ◌==◌, is_none, inl, [], true, inr, ap, eq_iff,
}
use cursor_multi_agent.Store.{
  BreachType, SlaInstance, Db, Ticket, instance_key, create_event, update_ticket, find_ticket,
}
use cursor_multi_agent.Sla.Breach.{
  synced_row, mark_notified, mark_breached, Db, TicketPriority, Ticket, breached_at, instance_key,
  sync_instance_in_tx, WorkerConfig, Run, due_after_breach, find_ticket, update_if_null, target_of,
  update_by, notified_at,
}
use cursor_multi_agent.Sla.Breach.Worker.{
  run_once, apply_priority_bump, handle_breach, handle_at_risk, handle_instances, instance_priority,
  write_bump, handle_instance, due_instances, bumped_priority, breach_event,
}
use cursor_multi_agent.Domain.{TicketPriority}
use cursor_multi_agent.Sla.Breach.Laws.{
  instance_of, handle_instance-branches, update_if_null-effect, synced-keeps,
}
use cursor_multi_agent.Store.Tables.{update_by, find_by-update}
use mathlib.Core.Path.{subst}
use mathlib.Core.Option.{some-injective}

-- The stored instance of the ticket has its target of this type marked as breached at the instant.
abbrev pub IsBreached : BreachType → String → ℕ → Db → Type 0
IsBreached type id at db =
    (row : SlaInstance) × (instance_of id db ≡ some row) × (breached_at type row ≡ some at)

-- A change of instances that never touches a mark keeps it.
pub kept-update :
    (change : SlaInstance → SlaInstance) (type : BreachType) (k id : String) (at : ℕ) (db : Db)
    → ((row : SlaInstance) → instance_key (change row) ≡ instance_key row)
    → ((row : SlaInstance)
        → (instance_of id db ≡ some row)
        → breached_at type row ≡ some at
        → (k == id) ≡ true
        → breached_at type (change row) ≡ some at)
    → IsBreached type id at db
    → IsBreached type id at
        (record db { sla_instances = update_by instance_key k change db.sla_instances })
kept-update change type k id at db keeps mark (row, here, set) = elim (Bool-cases (k == id)) [
  | inl e ↦ (
    change row,
    find_by-update instance_key change keeps k id db.sla_instances ∙ rw (e, here),
    mark row here set e,
  )
  | inr e ↦
      (row, find_by-update instance_key change keeps k id db.sla_instances ∙ rw (e, here), set)
]

bump-mark :
    (type : BreachType) (p : TicketPriority) (row : SlaInstance)
    → breached_at type (instance_priority p row) ≡ breached_at type row
bump-mark BreachType.first_response p row = refl
bump-mark BreachType.resolution p row = refl

sync-mark :
    (type : BreachType) (i : SlaInstance) (t stored : Ticket) (row : SlaInstance)
    → breached_at type (synced_row i t stored row) ≡ breached_at type row
unfolding synced_row
sync-mark BreachType.first_response i t stored row = refl
sync-mark BreachType.resolution i t stored row = refl

notified-mark :
    (type kind : BreachType) (now : ℕ) (row : SlaInstance)
    → breached_at type (mark_notified kind now row) ≡ breached_at type row
unfolding mark_notified
notified-mark type kind now row = ground arith

notified-keeps :
    (kind : BreachType) (now : ℕ) (row : SlaInstance)
    → instance_key (mark_notified kind now row) ≡ instance_key row
unfolding mark_notified
notified-keeps kind now row = ground arith

pub breached-keeps :
    (kind : BreachType) (now : ℕ) (next : Option ℕ) (row : SlaInstance)
    → instance_key (mark_breached kind now next row) ≡ instance_key row
unfolding mark_breached
breached-keeps kind now next row = ground arith

-- A mark is written over a null only.
breached-mark :
    (type kind : BreachType) (now at : ℕ) (next : Option ℕ) (row : SlaInstance)
    → breached_at kind row ≡ none
    → breached_at type row ≡ some at
    → breached_at type (mark_breached kind now next row) ≡ some at
unfolding mark_breached
breached-mark type kind now at next row unmarked set = ground arith

same_row :
    (column : SlaInstance → Option ℕ) (k id : String) (db : Db) {old row : SlaInstance}
    → instance_of k db ≡ some old
    → column old ≡ none
    → instance_of id db ≡ some row
    → (k == id) ≡ true
    → column row ≡ none
same_row column k id db {old} {row} here unmarked there e =
    subst (λ x. column x ≡ none)
      (some-injective old row (sym here ∙ ap (λ x. instance_of x db) ((eq_iff k id).0 e) ∙ there))
      unmarked

module _ (type : BreachType) (id : String) (at : ℕ) where
  pub bump-IsBreached :
      (w : WorkerConfig) (t : Ticket) (kind : BreachType) (db : Db)
      → IsBreached type id at db
      → IsBreached type id at (apply_priority_bump w t kind db)
  unfolding apply_priority_bump write_bump create_event update_ticket
  bump-IsBreached w t kind db set = elim (Option-cases (bumped_priority w t)) [
    | inl e ↦ rw (e, apply_priority_bump) set
    | inr (next, e) ↦
        rw (e, apply_priority_bump)
          (kept-update (instance_priority next) type t.id id at db (λ row. refl)
            (λ row here old k. bump-mark type next row ∙ old) set)
  ]

  breach-IsBreached :
      (w : WorkerConfig) (now : ℕ) (i : SlaInstance) (t : Ticket) (kind : BreachType) (run : Run)
      → IsBreached type id at run.db
      → IsBreached type id at (handle_breach w now i t kind run).db
  unfolding handle_breach create_event
  breach-IsBreached w now i t kind run set =
      let change = mark_breached kind now (due_after_breach kind i) in
      elim (Option-cases (update_if_null (breached_at kind) i.ticket_id change run.db)) [
        | inl e ↦ rw (e, handle_breach) set
        | inr (db, e) ↦
            let (old, here, unmarked, written) =
              update_if_null-effect (breached_at kind) i.ticket_id change run.db e in
            rw (e, handle_breach)
              (bump-IsBreached w t kind (create_event (breach_event i t kind) db) (
                subst (IsBreached type id at) (sym written) (
                  kept-update change type i.ticket_id id at run.db
                    (breached-keeps kind now (due_after_breach kind i))
                    (λ row there mark k.
                      breached-mark type kind now at (due_after_breach kind i) row
                        (same_row (breached_at kind) i.ticket_id id run.db here unmarked there k)
                        mark)
                    set)))
      ]

  at_risk-IsBreached :
      (w : WorkerConfig) (now : ℕ) (i : SlaInstance) (t : Ticket) (kind : BreachType) (run : Run)
      → IsBreached type id at run.db
      → IsBreached type id at (handle_at_risk w now i t kind run).db
  unfolding handle_at_risk create_event
  at_risk-IsBreached w now i t kind run set = elim (Bool-cases (is_none (target_of kind i))) [
    | inl absent ↦ rw (absent, handle_at_risk) set
    | inr dated ↦
        elim (Option-cases
          (update_if_null (notified_at kind) i.ticket_id (mark_notified kind now) run.db)) [
            | inl e ↦ rw (dated, e, handle_at_risk) set
            | inr (db, e) ↦
                let (old, here, unmarked, written) =
                  update_if_null-effect (notified_at kind) i.ticket_id (mark_notified kind now)
                    run.db e in
                rw (dated, e, handle_at_risk)
                  (subst (IsBreached type id at) (sym written) (
                    kept-update (mark_notified kind now) type i.ticket_id id at run.db
                      (notified-keeps kind now)
                      (λ row there mark k. notified-mark type kind now row ∙ mark) set))
          ]
  ]

  sync-IsBreached :
      (i : SlaInstance) (t : Ticket) (db : Db)
      → IsBreached type id at db
      → IsBreached type id at (sync_instance_in_tx i t db)
  unfolding sync_instance_in_tx
  sync-IsBreached i t db set = elim (Option-cases (find_ticket db t.id)) [
    | inl e ↦ rw (e, sync_instance_in_tx) set
    | inr (stored, e) ↦
        rw (e, sync_instance_in_tx)
          (kept-update (synced_row i t stored) type i.ticket_id id at db
            (λ row. synced-keeps i row t stored)
            (λ row here old k. sync-mark type i t stored row ∙ old) set)
  ]

  instance-IsBreached :
      (w : WorkerConfig) (now : ℕ) (i : SlaInstance) (t : Ticket) (run : Run)
      → IsBreached type id at run.db
      → IsBreached type id at (handle_instance w now i t run).db
  instance-IsBreached w now i t run set =
      handle_instance-branches (λ after. IsBreached type id at after.db) w now i t run
        (sync-IsBreached i t run.db set) (λ kind. breach-IsBreached w now i t kind run set)
        (λ kind. at_risk-IsBreached w now i t kind run set)

  instances-IsBreached :
      (w : WorkerConfig) (now : ℕ) (read : Db) (rows : List SlaInstance) (run : Run)
      → IsBreached type id at run.db
      → IsBreached type id at (handle_instances w now read rows run).db
  unfolding handle_instances
  instances-IsBreached w now read [] run set = set
  instances-IsBreached w now read (i ∷ rest) run set =
      elim (Option-cases (find_ticket read i.ticket_id)) [
        | inl e ↦ rw (e, handle_instances) (instances-IsBreached w now read rest run set)
        | inr (t, e) ↦
            rw (e, handle_instances)
              (instances-IsBreached w now read rest (handle_instance w now i t run)
                (instance-IsBreached w now i t run set))
      ]

-- The run that follows the backfill.
pub run_once-IsBreached :
    (w : WorkerConfig) (now : ℕ) (locked : Bool) (type : BreachType) (id : String) (at : ℕ)
    (db : Db)
    → IsBreached type id at db
    → IsBreached type id at (run_once w now locked db).db
unfolding run_once
run_once-IsBreached w now true type id at db set =
    instances-IsBreached type id at w now db (due_instances w now db)
      (record { db = db; intents = [] }) set
run_once-IsBreached w now false type id at db set = set
