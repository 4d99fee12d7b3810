-- ===== src/Retention.antt =====
-- The periodic purge of data past its window: apps/api/src/retention/retention.service.ts. The rows have
-- the columns that it reads; a query with `take` gives the first rows of the table.
pub mod Batches
pub mod Kept
pub mod Laws
mod Tests
use cursor_multi_agent.Prelude.{
  ℕ, ◌+◌, ◌-◌, ◌*◌, String, Bool, true, false, not, ◌&&◌, ◌||◌, Option, none, some, List, [], ◌∷◌,
  ◌++◌, ◌==◌, filter, map, take, length, includes, if◌then◌else◌, is_none, is_empty, ltb, or_else,
}
use cursor_multi_agent.Domain.{TicketStatus, closed, same_status}

pub record RetentionPolicy : Type 0 where
  pub dry_run : Bool
  pub batch_size : ℕ
  pub soft_deleted_days : ℕ
  pub closed_ticket_days : Option ℕ
  pub admin_audit_days : Option ℕ
  pub outbox_sent_days : ℕ

pub record RetainedTicket : Type 0 where
  pub id : String
  pub status : TicketStatus
  pub deleted_at : Option ℕ
  pub closed_at : Option ℕ
  pub storage_keys : List String

pub record KbArticle : Type 0 where
  pub id : String
  pub deleted_at : Option ℕ

pub record AdminAuditEvent : Type 0 where
  pub event_type : String
  pub created_at : ℕ

pub record SentMail : Type 0 where
  pub id : String
  pub is_sent : Bool
  pub sent_at : Option ℕ

pub record RetentionDb : Type 0 where
  pub tickets : List RetainedTicket
  pub articles : List KbArticle
  pub audit_events : List AdminAuditEvent
  pub outbox : List SentMail

pub record RetentionRunSummary : Type 0 where
  pub soft_deleted_tickets_purged : ℕ
  pub closed_tickets_purged : ℕ
  pub kb_articles_purged : ℕ
  pub admin_audit_events_purged : ℕ
  pub outbox_rows_purged : ℕ
  pub attachment_files_deleted : ℕ
  pub attachment_file_errors : ℕ

abbrev pub retention_run_event : String
retention_run_event = "RETENTION_RUN"

-- `{ lt: cutoff(days) }` of a nullable instant; a null is past no window.
abbrev pub is_past : ℕ → ℕ → Option ℕ → Bool
is_past days now none = false
is_past days now (some at) = ltb (at + days * 86_400_000) now

abbrev pub soft_deleted_past : RetentionPolicy → ℕ → RetainedTicket → Bool
soft_deleted_past policy now t = is_past policy.soft_deleted_days now t.deleted_at

abbrev pub closed_past : ℕ → ℕ → RetainedTicket → Bool
closed_past days now t =
    is_none t.deleted_at && same_status t.status closed && is_past days now t.closed_at

abbrev pub audit_past : ℕ → ℕ → AdminAuditEvent → Bool
audit_past days now e =
    is_past days now (some e.created_at) && not (e.event_type == retention_run_event)

abbrev pub mail_past : ℕ → ℕ → SentMail → Bool
mail_past days now m = m.is_sent && is_past days now m.sent_at

abbrev pub keys_of : List RetainedTicket → List String
keys_of [] = []
keys_of (t ∷ ts) = t.storage_keys ++ keys_of ts

abbrev pub ticket_id : RetainedTicket → String
ticket_id t = t.id

-- The rows that are left without those of some ids.
unfoldable pub delete_ids : List String → List RetainedTicket → List RetainedTicket
delete_ids ids rows = filter (λ t. not (includes ids t.id)) rows

-- `purgeTickets`: the rows that are left, the number counted, and the storage keys to delete.
unfoldable pub purge_tickets :
    RetentionPolicy
    → (RetainedTicket → Bool)
    → List RetainedTicket
    → List RetainedTicket × ℕ × List String
purge_tickets policy where_past tickets =
    let rows = take policy.batch_size (filter where_past tickets) in
    if policy.dry_run
    then (tickets, length rows, [])
    else (delete_ids (map ticket_id rows) tickets, length rows, keys_of rows)

-- `deleteMany`, or `count` in a dry run.
abbrev pub purge_rows {ℓ} : {A : Type ℓ} → Bool → (A → Bool) → List A → List A × ℕ
purge_rows dry_run past rows =
    (if dry_run then rows else filter (λ r. not (past r)) rows, length (filter past rows))

unfoldable pub purge_closed :
    RetentionPolicy → ℕ → List RetainedTicket → List RetainedTicket × ℕ × List String
purge_closed policy now tickets = elim policy.closed_ticket_days [
  | none ↦ (tickets, 0, [])
  | some days ↦ purge_tickets policy (closed_past days now) tickets
]

unfoldable pub purge_audit : RetentionPolicy → ℕ → List AdminAuditEvent → List AdminAuditEvent × ℕ
purge_audit policy now events = elim policy.admin_audit_days [
  | none ↦ (events, 0)
  | some days ↦ purge_rows policy.dry_run (audit_past days now) events
]

unfoldable pub purge_in_tx :
    RetentionPolicy → ℕ → RetentionDb → RetentionDb × RetentionRunSummary × List String
purge_in_tx policy now db =
    let (live, soft_purged, soft_keys) =
      purge_tickets policy (soft_deleted_past policy now) db.tickets in
    let (tickets, closed_purged, closed_keys) = purge_closed policy now live in
    let (articles, articles_purged) =
      purge_rows policy.dry_run
        (λ (a : KbArticle). is_past policy.soft_deleted_days now a.deleted_at) db.articles in
    let (audit_events, events_purged) = purge_audit policy now db.audit_events in
    let (outbox, mails_purged) =
      purge_rows policy.dry_run (mail_past policy.outbox_sent_days now) db.outbox in
    (
      record {
        tickets = tickets;
        articles = articles;
        audit_events = audit_events;
        outbox = outbox;
      },
      record {
        soft_deleted_tickets_purged = soft_purged;
        closed_tickets_purged = closed_purged;
        kb_articles_purged = articles_purged;
        admin_audit_events_purged = events_purged;
        outbox_rows_purged = mails_purged;
        attachment_files_deleted = 0;
        attachment_file_errors = 0;
      },
      soft_keys ++ closed_keys,
    )

-- `deleteAttachmentFiles`; `deletes` says whether the storage lets a file be deleted.
unfoldable pub delete_attachment_files :
    (String → Bool) → List String → RetentionRunSummary → RetentionRunSummary
delete_attachment_files deletes [] summary = summary
delete_attachment_files deletes (key ∷ keys) summary = delete_attachment_files deletes keys (
    if deletes key
    then record summary { attachment_files_deleted = summary.attachment_files_deleted + 1 }
    else record summary { attachment_file_errors = summary.attachment_file_errors + 1 })

-- The run that has the lock, and its audit event.
unfoldable pub run_retention :
    RetentionPolicy → (String → Bool) → ℕ → RetentionDb → RetentionDb × RetentionRunSummary
run_retention policy deletes now db =
    let (purged, summary, keys) = purge_in_tx policy now db in
    (
      record purged {
        audit_events =
            record { event_type = retention_run_event; created_at = now } ∷ purged.audit_events;
      },
      if policy.dry_run then summary else delete_attachment_files deletes keys summary,
    )
