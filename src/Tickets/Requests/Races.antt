-- ===== src/Tickets/Requests/Races.antt =====
-- Two requests on one ticket that overlap: the handlers read the ticket before their transaction and
-- write from what they read.
use cursor_multi_agent.Prelude.{ℕ, String, ◌≡◌, Option, some, arith, ok, sym, ◌∙◌}
use cursor_multi_agent.Domain.{TicketCloseReason, new, closed}
use cursor_multi_agent.Store.{Ticket, Db, find_ticket}
use cursor_multi_agent.Sla.Policy.{SlaTables}
use cursor_multi_agent.Tickets.Status.{Transitions, transitioned, apply_status_transition_in_tx}
use cursor_multi_agent.Tickets.Status.Laws.{IsConsistent}
use cursor_multi_agent.Tickets.Status.Pause.{moved_row}
use cursor_multi_agent.Tickets.Assignment.{apply_assignee_in_tx, assigned_row}
use cursor_multi_agent.Tickets.Assignment.Laws.{snapshot_row}

raced_row :
    (tables : SlaTables) (table : Transitions) (now : ℕ) (t : Ticket) (assignee : String)
    (reason : Option TicketCloseReason)
    → t.status ≡ new
    → ¬ IsConsistent (assigned_row t assignee (transitioned tables table now t closed reason t))
unfolding assigned_row transitioned
raced_row tables table now t assignee reason fresh c = ground (arith, c.completed_iff)

-- Two requests have both read a stored NEW ticket. If the one that closes it commits first and the
-- one that assigns it commits second, both accepted, the stored row is inconsistent.
pub assign_after_stale_read :
    (tables : SlaTables) (table : Transitions) (now : ℕ) (t : Ticket)
    (assignee actor closer : String) (reason : Option TicketCloseReason) (db : Db) {db1 db2 : Db}
    → find_ticket db t.id ≡ some t
    → t.status ≡ new
    → apply_status_transition_in_tx tables table now t closed closer reason db ≡ ok db1
    → apply_assignee_in_tx t assignee actor db1 ≡ ok db2
    → (row : Ticket) × (find_ticket db2 t.id ≡ some row) × (¬ IsConsistent row)
assign_after_stale_read tables table now t assignee actor closer reason db {db1} {db2} found fresh
      close take =
    let first =
      moved_row tables table now t closed closer reason db (λ e. cc (sym fresh ∙ e)) found close in
    (
      assigned_row t assignee (transitioned tables table now t closed reason t),
      snapshot_row t (transitioned tables table now t closed reason t) assignee actor db1 first
          take,
      raced_row tables table now t assignee reason fresh,
    )
