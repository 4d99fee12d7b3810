-- ===== src/Retention/Laws.antt =====
-- What a run of retention.service.ts deletes, and what it leaves.
use cursor_multi_agent.Prelude.{
  zero, suc, ℕ, ◌≡◌, refl, Bool, true, false, not, none, some, List, [], ◌∷◌, filter, arith, ◌∙◌,
  sym, ap, Option, String, ◌==◌, length, suc, ◌≤◌, ◌-◌, ◌*◌,
}
use cursor_multi_agent.Fields.Items.{Distinct}
use cursor_multi_agent.Retention.{
  RetainedTicket, RetentionPolicy, purge_tickets, purge_closed, soft_deleted_past, closed_past,
  run_retention, purge_in_tx, RetentionDb, AdminAuditEvent, retention_run_event, purge_rows,
  purge_audit, audit_past, mail_past,
}
use cursor_multi_agent.Retention.Batches.{ids_of, drop, batch_leaves}
use mathlib.Core.Path.{subst}
use cursor_multi_agent.Retention.Kept.{
  is_expired, rows_kept, same_apart, purge_keeps, closed_keeps, purged, deleted_first,
}

run-tickets :
    (policy : RetentionPolicy) (deletes : String → Bool) (now : ℕ) (db : RetentionDb)
    → (run_retention policy deletes now db).0.tickets
      ≡ (purge_closed policy now
          (purge_tickets policy (soft_deleted_past policy now) db.tickets).0).0
unfolding run_retention purge_in_tx
run-tickets policy deletes now db = refl

kept_days :
    (policy : RetentionPolicy) (now days : ℕ) (t : RetainedTicket)
    → policy.closed_ticket_days ≡ some days
    → is_expired policy now t ≡ false
    → closed_past days now t ≡ false
kept_days policy now days t set h = ground (arith, set)

abbrev pub is_run : AdminAuditEvent → Bool
is_run e = e.event_type == retention_run_event

runs_kept :
    (policy : RetentionPolicy) (now : ℕ) (events : List AdminAuditEvent)
    → filter is_run (purge_audit policy now events).0 ≡ filter is_run events
unfolding purge_audit
runs_kept policy now events = kept_by policy.admin_audit_days
  where
    kept_by :
        (window : Option ℕ)
        → filter is_run
            (elim window as (λ _. List AdminAuditEvent × ℕ) [
              | none ↦ (events, 0)
              | some days ↦ purge_rows policy.dry_run (audit_past days now) events
            ]).0
          ≡ filter is_run events
    kept_by none = refl
    kept_by (some days) =
        rows_kept policy.dry_run (audit_past days now) is_run (λ e h. ground arith) events

-- No two tickets share an id: a run keeps every ticket that is past neither window, in its place; ids stay
-- distinct; no event of an earlier run is deleted, and the run adds its own; and no mail is deleted that is
-- not sent.
pub run_keeps :
    (policy : RetentionPolicy) (deletes : String → Bool) (now : ℕ) (db : RetentionDb)
    → Distinct (ids_of db.tickets)
    → let after = (run_retention policy deletes now db).0 in
      (filter (λ t. not (is_expired policy now t)) after.tickets
        ≡ filter (λ t. not (is_expired policy now t)) db.tickets)
      × Distinct (ids_of after.tickets)
      × (filter is_run after.audit_events
          ≡ record { event_type = retention_run_event; created_at = now }
            ∷ filter is_run db.audit_events)
      × (filter (λ m. not m.is_sent) after.outbox ≡ filter (λ m. not m.is_sent) db.outbox)
unfolding run_retention purge_in_tx
run_keeps policy deletes now db d =
    let live = (purge_tickets policy (soft_deleted_past policy now) db.tickets).0 in
    let keep = λ (t : RetainedTicket). not (is_expired policy now t) in
    let (soft_kept, d') = purge_keeps policy (soft_deleted_past policy now) db.tickets d in
    let (closed_kept, d'') =
      closed_keeps policy now keep live d'
        (λ days t set h. kept_days policy now days t set (ground arith)) in
    let soft : filter keep live ≡ filter keep db.tickets =
      same_apart (soft_deleted_past policy now) keep (λ t h. ground arith) db.tickets live
        soft_kept in
    let same = run-tickets policy deletes now db in
    (
      ap (filter keep) same ∙ closed_kept ∙ soft,
      subst (λ rows. Distinct (ids_of rows)) (sym same) d'',
      ap (λ events. record { event_type = retention_run_event; created_at = now } ∷ events)
          (runs_kept policy now db.audit_events),
      rows_kept policy.dry_run (mail_past policy.outbox_sent_days now) (λ m. not m.is_sent)
          (λ m h. ground arith) db.outbox,
    )

-- A dry run deletes nothing: it only adds its event.
pub dry_run_deletes_nothing :
    (policy : RetentionPolicy) (deletes : String → Bool) (now : ℕ) (db : RetentionDb)
    → policy.dry_run ≡ true
    → (run_retention policy deletes now db).0 ≡ record db {
      audit_events =
          record { event_type = retention_run_event; created_at = now } ∷ db.audit_events;
    }
unfolding run_retention purge_in_tx purge_tickets purge_closed purge_audit
dry_run_deletes_nothing policy deletes now db dry = ground (arith, dry)

-- The tickets past the window of soft-deleted ones that a run leaves: all but a batch.
run_leaves :
    (policy : RetentionPolicy) (deletes : String → Bool) (now : ℕ) (db : RetentionDb)
    → policy.dry_run ≡ false
    → Distinct (ids_of db.tickets)
    → filter (soft_deleted_past policy now) (run_retention policy deletes now db).0.tickets
      ≡ drop policy.batch_size (filter (soft_deleted_past policy now) db.tickets)
run_leaves policy deletes now db wet d =
    let soft = soft_deleted_past policy now in
    let live = (purge_tickets policy soft db.tickets).0 in
    let (soft_kept, d') = purge_keeps policy soft db.tickets d in
    let (closed_kept, d'') =
      closed_keeps policy now soft live d' (λ days t set h. deleted_first policy now days t h) in
    ap (filter soft) (run-tickets policy deletes now db)
    ∙ closed_kept
    ∙ ap (λ rows. filter soft rows) (purged policy soft db.tickets wet)
    ∙ batch_leaves soft policy.batch_size db.tickets d

run-Distinct :
    (policy : RetentionPolicy) (deletes : String → Bool) (now : ℕ) (db : RetentionDb)
    → Distinct (ids_of db.tickets)
    → Distinct (ids_of (run_retention policy deletes now db).0.tickets)
run-Distinct policy deletes now db d = (run_keeps policy deletes now db d).1

length-drop : (n : ℕ) (rows : List RetainedTicket) → length (drop n rows) ≡ length rows - n
length-drop zero rows = omega arith
length-drop (suc n) [] = omega arith
length-drop (suc n) (t ∷ rows) = omega (arith, length-drop n rows)

nothing_left : (rows : List RetainedTicket) → length rows ≤ 0 → rows ≡ []
nothing_left [] h = refl
nothing_left (t ∷ rows) h = absurd (omega arith)

-- A number of runs in which no further ticket passes its window.
abbrev pub runs : ℕ → RetentionPolicy → (String → Bool) → ℕ → RetentionDb → RetentionDb
runs zero policy deletes now db = db
runs (suc n) policy deletes now db =
    runs n policy deletes now (run_retention policy deletes now db).0

-- If it is no dry run and no two tickets share an id, every ticket past the window of soft-deleted tickets
-- is deleted, by as many runs as it takes batches to count those tickets.
pub all_purged :
    (n : ℕ) (policy : RetentionPolicy) (deletes : String → Bool) (now : ℕ) (db : RetentionDb)
    → policy.dry_run ≡ false
    → Distinct (ids_of db.tickets)
    → length (filter (soft_deleted_past policy now) db.tickets) ≤ n * policy.batch_size
    → filter (soft_deleted_past policy now) (runs n policy deletes now db).tickets ≡ []
all_purged zero policy deletes now db wet d enough = nothing_left _ (omega arith)
all_purged (suc n) policy deletes now db wet d enough =
    let left = run_leaves policy deletes now db wet d in
    let fewer =
      ap (λ rows. length rows) left
      ∙ length-drop policy.batch_size (filter (soft_deleted_past policy now) db.tickets) in
    all_purged n policy deletes now (run_retention policy deletes now db).0 wet
      (run-Distinct policy deletes now db d) (grind arith)
