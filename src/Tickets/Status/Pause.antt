-- ===== src/Tickets/Status/Pause.antt =====
-- The due date of a ticket that waits.
use cursor_multi_agent.Prelude.{
  ap, ℕ, ◌+◌, ◌-◌, ◌≤◌, ◌≡◌, true, false, Option, none, some, arith, ◌≢◌, String, ok, sym, ◌∙◌,
  refl, inl, inr,
}
use mathlib.Core.Path.{subst}
use mathlib.Core.Option.{some-injective}
use cursor_multi_agent.Domain.{TicketStatus, TicketCloseReason, reopened, same_status}
use cursor_multi_agent.Store.{Ticket, Db, find_ticket}
use cursor_multi_agent.Sla.Policy.{SlaTables}
use cursor_multi_agent.Tickets.Status.{
  Transitions, is_pause_status, transitioned, resumed_due_at, apply_status_transition_in_tx,
}
use cursor_multi_agent.Tickets.Status.Effects.{moved_lem, accepted_effect}

module _ (tables : SlaTables) (table : Transitions) where
  pause_and_resume :
      (from_ms to_ms : ℕ) (t : Ticket) (waiting next : TicketStatus)
      (r1 r2 : Option TicketCloseReason) {due : ℕ}
      → is_pause_status t.status ≡ false
      → is_pause_status waiting ≡ true
      → is_pause_status next ≡ false
      → same_status next reopened ≡ false
      → t.due_at ≡ some due
      → from_ms ≤ to_ms
      → let paused = transitioned tables table from_ms t waiting r1 t in
        let resumed = transitioned tables table to_ms paused next r2 paused in
        (paused.sla_paused_at ≡ some from_ms)
        × (paused.due_at ≡ some due)
        × (resumed.sla_paused_at ≡ none)
        × (resumed.due_at ≡ some (due + (to_ms - from_ms)))
  unfolding transitioned resumed_due_at
  pause_and_resume from_ms to_ms t waiting next r1 r2 live hold go other due le = ground arith

  status_moves : (a b : TicketStatus) → is_pause_status a ≡ false → is_pause_status b ≡ true → a ≢ b
  status_moves a b h k e = ground arith

  status_leaves :
      (a b : TicketStatus) → is_pause_status a ≡ true → is_pause_status b ≡ false → a ≢ b
  status_leaves a b h k e = ground arith

  transitioned-id :
      (now : ℕ) (t : Ticket) (to : TicketStatus) (reason : Option TicketCloseReason)
      → (transitioned tables table now t to reason t).id ≡ t.id
  unfolding transitioned
  transitioned-id now t to reason = refl

  transitioned-status :
      (now : ℕ) (t : Ticket) (to : TicketStatus) (reason : Option TicketCloseReason)
      → (transitioned tables table now t to reason t).status ≡ to
  unfolding transitioned
  transitioned-status now t to reason = refl

  pub moved_row :
      (now : ℕ) (t : Ticket) (to : TicketStatus) (actor : String)
      (reason : Option TicketCloseReason) (db : Db) {after : Db}
      → t.status ≢ to
      → find_ticket db t.id ≡ some t
      → apply_status_transition_in_tx tables table now t to actor reason db ≡ ok after
      → find_ticket after t.id ≡ some (transitioned tables table now t to reason t)
  moved_row now t to actor reason db moves found h =
      elim (accepted_effect tables table now t to actor reason db found h) [
        | inl same ↦ absurd (moves same.0)
        | inr (_, row, _) ↦ row ∙ ap some (sym (moved_lem tables table now t to reason))
      ]

  last_row :
      (from_ms to_ms : ℕ) (t : Ticket) (waiting next : TicketStatus) (actor' : String)
      (r1 r2 : Option TicketCloseReason) (db1 : Db) {db2 : Db}
      → is_pause_status waiting ≡ true
      → is_pause_status next ≡ false
      → let paused = transitioned tables table from_ms t waiting r1 t in
        find_ticket db1 t.id ≡ some paused
        → apply_status_transition_in_tx tables table to_ms paused next actor' r2 db1 ≡ ok db2
        → find_ticket db2 t.id ≡ some (transitioned tables table to_ms paused next r2 paused)
  unfolding transitioned
  last_row from_ms to_ms t waiting next actor' r1 r2 db1 hold go stored again =
      moved_row to_ms (transitioned tables table from_ms t waiting r1 t) next actor' r2 db1
        (status_leaves waiting next hold go) stored again

  -- A ticket with a due date that is not paused is set to a waiting status at one instant and, as it
  -- is then stored, to a status that is neither waiting nor REOPENED at a later one. Once both are
  -- accepted, its due date has moved by exactly the time between, and it is not paused.
  pub pause_extends_due :
      (from_ms to_ms : ℕ) (t t' : Ticket) (waiting next : TicketStatus) (actor actor' : String)
      (r1 r2 : Option TicketCloseReason) (db : Db) {db1 db2 : Db} {due : ℕ}
      → is_pause_status t.status ≡ false
      → is_pause_status waiting ≡ true
      → is_pause_status next ≡ false
      → same_status next reopened ≡ false
      → t.due_at ≡ some due
      → from_ms ≤ to_ms
      → find_ticket db t.id ≡ some t
      → apply_status_transition_in_tx tables table from_ms t waiting actor r1 db ≡ ok db1
      → find_ticket db1 t.id ≡ some t'
      → apply_status_transition_in_tx tables table to_ms t' next actor' r2 db1 ≡ ok db2
      → (u : Ticket) × (find_ticket db2 t.id ≡ some u)
        × (u.due_at ≡ some (due + (to_ms - from_ms)))
        × (u.sla_paused_at ≡ none)
  pause_extends_due from_ms to_ms t t' waiting next actor actor' r1 r2 db {db1} {db2} live hold go
        other due le found first read second =
      let paused : Ticket = transitioned tables table from_ms t waiting r1 t in
      let stored =
        moved_row from_ms t waiting actor r1 db (status_moves _ _ live hold) found first in
      let same : t' ≡ paused = some-injective t' paused (sym read ∙ stored) in
      let again : apply_status_transition_in_tx tables table to_ms paused next actor' r2 db1
          ≡ ok db2 =
        subst (λ p. apply_status_transition_in_tx tables table to_ms p next actor' r2 db1 ≡ ok db2)
          same second in
      let facts = pause_and_resume from_ms to_ms t waiting next r1 r2 live hold go other due le in
      (
        transitioned tables table to_ms paused next r2 paused,
        last_row from_ms to_ms t waiting next actor' r1 r2 db1 hold go stored again,
        facts.3,
        facts.2,
      )
