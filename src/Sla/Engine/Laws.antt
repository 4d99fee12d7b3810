-- ===== src/Sla/Engine/Laws.antt =====
-- What a synchronisation leaves in the instance row.
use cursor_multi_agent.Prelude.{
  ℕ, String, ◌≡◌, ◌≢◌, ◌⊎◌, ◌↔◌, inl, inr, refl, Option, none, some, arith, eq_refl, Option-cases,
  ◌∙◌, List, ◌∷◌,
}
use cursor_multi_agent.Store.{Ticket, SlaInstance, Db, instance_key, ticket_key, find_ticket}
use mathlib.Core.Path.{subst}
use cursor_multi_agent.Store.Tables.{find_by, find_by-key, find_by-update_self}
use cursor_multi_agent.Sla.Policy.{SlaTables}
use cursor_multi_agent.Sla.Engine.{
  SyncOptions, compute_next_due_at, updated_instance, created_instance, upsert_instance,
  sync_from_ticket, update_by,
}

-- What it is for the worker to be due at an instant: the clock is not paused, and the instant is that
-- of the first of the two targets that has a date and is neither met nor breached.
abbrev pub IsNextDue : Ticket → Option ℕ → Option ℕ → ℕ → Type 0
IsNextDue t first_response_breached_at resolution_breached_at at =
    (t.sla_paused_at ≡ none)
    × (((t.first_response_at ≡ none)
          × (first_response_breached_at ≡ none)
          × (t.first_response_due_at ≡ some at))
        ⊎ (((t.first_response_at ≢ none)
              ⊎ (first_response_breached_at ≢ none)
              ⊎ (t.first_response_due_at ≡ none))
            × (t.completed_at ≡ none)
            × (resolution_breached_at ≡ none)
            × (t.due_at ≡ some at)))

-- `compute_next_due_at` gives an instant exactly if the clock runs and the instant is the date of the
-- first of the two targets that has a date and is neither met nor breached.
pub IsNextDue-iff :
    (t : Ticket) (fb rb : Option ℕ) (at : ℕ)
    → (compute_next_due_at t fb rb ≡ some at) ↔ IsNextDue t fb rb at
unfolding compute_next_due_at
IsNextDue-iff t fb rb at = (λ h. ground arith, λ h. ground arith)

-- The instance row says of the ticket what the ticket says.
pub record Mirrors (t : Ticket) (i : SlaInstance) : Type 0 where
  pub same_ticket : i.ticket_id ≡ t.id
  pub same_priority : i.priority ≡ t.priority
  pub same_first_response : i.first_response_due_at ≡ t.first_response_due_at
  pub same_resolution : i.resolution_due_at ≡ t.due_at
  pub same_pause : i.paused_at ≡ t.sla_paused_at
  pub next_due :
      i.next_due_at ≡ compute_next_due_at t i.first_response_breached_at i.resolution_breached_at

module _ (tables : SlaTables) (options : SyncOptions) where
  updated_instance-Mirrors :
      (t : Ticket) (i : SlaInstance)
      → i.ticket_id ≡ t.id
      → Mirrors t (updated_instance tables options t i)
  unfolding updated_instance
  updated_instance-Mirrors t i e = record {
    same_ticket = e;
    same_priority = refl;
    same_first_response = refl;
    same_resolution = refl;
    same_pause = refl;
    next_due = refl;
  }

  created_instance-Mirrors : (t : Ticket) → Mirrors t (created_instance tables options t)
  unfolding created_instance
  created_instance-Mirrors t = record {
    same_ticket = refl;
    same_priority = refl;
    same_first_response = refl;
    same_resolution = refl;
    same_pause = refl;
    next_due = ground arith;
  }

  updated-keeps :
      (t : Ticket) (i : SlaInstance)
      → instance_key (updated_instance tables options t i) ≡ instance_key i
  unfolding updated_instance
  updated-keeps t i = refl

  created_row :
      (t : Ticket) (rows : List SlaInstance)
      → find_by instance_key t.id (created_instance tables options t ∷ rows)
        ≡ some (created_instance tables options t)
  unfolding find_by created_instance
  created_row t rows = rw (eq_refl t.id)

  updated_row :
      (t : Ticket) (rows : List SlaInstance) {i : SlaInstance}
      → find_by instance_key t.id rows ≡ some i
      → find_by instance_key t.id
          (update_by instance_key t.id (updated_instance tables options t) rows)
        ≡ some (updated_instance tables options t i)
  updated_row t rows old =
      find_by-update_self instance_key (updated_instance tables options t) (updated-keeps t) t.id
        rows
      ∙ rw old

  upsert-Mirrors :
      (t : Ticket) (db : Db)
      → (i : SlaInstance) × (find_by instance_key t.id
            (upsert_instance tables options t db).sla_instances
          ≡ some i)
        × Mirrors t i
        × ((upsert_instance tables options t db).tickets ≡ db.tickets)
  unfolding upsert_instance
  upsert-Mirrors t db = elim (Option-cases (find_by instance_key t.id db.sla_instances)) [
    | inl absent ↦ (
      created_instance tables options t,
      rw (absent, upsert_instance) (created_row t db.sla_instances),
      created_instance-Mirrors t,
      rw (absent, upsert_instance),
    )
    | inr (i, old) ↦ (
      updated_instance tables options t i,
      rw (old, upsert_instance) (updated_row t db.sla_instances old),
      updated_instance-Mirrors t i (find_by-key instance_key t.id db.sla_instances old),
      rw (old, upsert_instance),
    )
  ]

  -- After a synchronisation of an existing ticket there is an instance row that mirrors the ticket,
  -- whatever the options, and the tickets are as before.
  pub sync-Mirrors :
      (id : String) (db : Db) {t : Ticket}
      → find_ticket db id ≡ some t
      → let after = sync_from_ticket tables id options db in
        (i : SlaInstance) × (find_by instance_key id after.sla_instances ≡ some i)
        × Mirrors t i
        × (after.tickets ≡ db.tickets)
  unfolding sync_from_ticket find_ticket
  sync-Mirrors id db {t} found =
      let same : t.id ≡ id = find_by-key ticket_key id db.tickets found in
      let (i, row, mirrors, kept) = upsert-Mirrors t db in
      rw (found, sync_from_ticket)
        (
          i,
          subst
              (λ k.
                find_by instance_key k (upsert_instance tables options t db).sla_instances ≡ some i)
              same row,
          mirrors,
          kept,
        )

-- A synchronisation writes to the instance rows only.
module _ (tables : SlaTables) where
  pub sync-tickets :
      (id : String) (options : SyncOptions) (db : Db)
      → (sync_from_ticket tables id options db).tickets ≡ db.tickets
  unfolding sync_from_ticket upsert_instance
  sync-tickets id options db = ground arith

  pub sync-events :
      (id : String) (options : SyncOptions) (db : Db)
      → (sync_from_ticket tables id options db).events ≡ db.events
  unfolding sync_from_ticket upsert_instance
  sync-events id options db = ground arith

  pub sync-access :
      (id : String) (options : SyncOptions) (db : Db)
      → (sync_from_ticket tables id options db).ticket_access ≡ db.ticket_access
  unfolding sync_from_ticket upsert_instance
  sync-access id options db = ground arith

  pub sync-users :
      (id : String) (options : SyncOptions) (db : Db)
      → (sync_from_ticket tables id options db).users ≡ db.users
  unfolding sync_from_ticket upsert_instance
  sync-users id options db = ground arith
