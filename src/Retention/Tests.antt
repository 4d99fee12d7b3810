-- ===== src/Retention/Tests.antt =====
-- Runs of retention.service.ts at a concrete table.
use cursor_multi_agent.Prelude.{
  ℕ, ◌≡◌, refl, String, Bool, true, false, not, Option, none, some, [], ◌∷◌, filter, arith,
}
use cursor_multi_agent.Domain.{assigned}
use cursor_multi_agent.Fields.Items.{Distinct}
use cursor_multi_agent.Retention.{
  RetentionPolicy, RetentionDb, RetainedTicket, run_retention, retention_run_event,
  soft_deleted_past,
}
use cursor_multi_agent.Retention.Batches.{ids_of}
use cursor_multi_agent.Retention.Kept.{is_expired}
use cursor_multi_agent.Retention.Laws.{run_keeps, all_purged, runs, is_run}

abbrev one_by_one : RetentionPolicy
one_by_one = record {
  dry_run = false;
  batch_size = 1;
  soft_deleted_days = 30;
  closed_ticket_days = some 365;
  admin_audit_days = some 90;
  outbox_sent_days = 180;
}

abbrev ticket : String → Option ℕ → RetainedTicket
ticket id deleted_at = record {
  id = id;
  status = assigned;
  deleted_at = deleted_at;
  closed_at = none;
  storage_keys = id ∷ [];
}

abbrev three_tickets : RetentionDb
three_tickets = record {
  tickets = ticket "a" (some 0) ∷ ticket "b" none ∷ ticket "c" (some 5) ∷ [];
  articles = [];
  audit_events = record { event_type = "RETENTION_RUN"; created_at = 0 } ∷ [];
  outbox = record { id = "m"; is_sent = false; sent_at = none } ∷ [];
}

abbrev day_100 : ℕ
day_100 = 8_640_000_000

abbrev storage_up : String → Bool
storage_up key = true

run_keeps_example :
    let after = (run_retention one_by_one storage_up day_100 three_tickets).0 in
    (filter (λ t. not (is_expired one_by_one day_100 t)) after.tickets
      ≡ filter (λ t. not (is_expired one_by_one day_100 t)) three_tickets.tickets)
    × Distinct (ids_of after.tickets)
    × (filter is_run after.audit_events
        ≡ record { event_type = retention_run_event; created_at = day_100 }
          ∷ filter is_run three_tickets.audit_events)
    × (filter (λ m. not m.is_sent) after.outbox ≡ filter (λ m. not m.is_sent) three_tickets.outbox)
run_keeps_example = run_keeps one_by_one storage_up day_100 three_tickets (refl, (refl, (refl, tt)))

all_purged_example :
    filter
      (soft_deleted_past one_by_one day_100)
      (runs 2 one_by_one storage_up day_100 three_tickets).tickets
    ≡ []
all_purged_example =
    all_purged 2 one_by_one storage_up day_100 three_tickets refl (refl, (refl, (refl, tt)))
      (omega arith)
