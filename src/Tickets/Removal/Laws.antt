-- ===== src/Tickets/Removal/Laws.antt =====
-- The other handlers after a deletion.
use cursor_multi_agent.Prelude.{
  ℕ, String, ◌≡◌, ◌≢◌, refl, true, false, Option, none, some, arith, ok, sym, is_ok, ◌∙◌, ap,
}
use cursor_multi_agent.Domain.{AuthUser, TicketStatus, TicketPriority, is_owner}
use cursor_multi_agent.Store.{Ticket, Db, find_ticket, update_ticket, create_event, ticket_key}
use cursor_multi_agent.Store.Tables.{find_by-update_self, find_by-key, update_by, find_by}
use cursor_multi_agent.Access.{can_write_ticket}
use cursor_multi_agent.Sla.Policy.{SlaTables}
use cursor_multi_agent.Tickets.Guards.{can_assign_ticket}
use cursor_multi_agent.Tickets.Status.{Transitions}
use cursor_multi_agent.Tickets.Transition.{transition}
use cursor_multi_agent.Tickets.Transfer.{transfer}
use cursor_multi_agent.Tickets.Priority.{change_priority}
use cursor_multi_agent.Tickets.Assignment.{assign, apply_assignee_in_tx, may_be_assigned}
use cursor_multi_agent.Tickets.Removal.{
  soft_delete, restore, write_deletion, write_restoration, deleted_row, restored_row,
}
use mathlib.Core.Path.{subst}

pub deletion_cases :
    (now : ℕ) (id : String) (user : AuthUser) (db : Db) {after : Db}
    → soft_delete now id user db ≡ ok after
    → (t : Ticket) × (find_ticket db id ≡ some t)
      × (t.deleted_at ≡ none)
      × (after ≡ write_deletion now t user.id db)
unfolding soft_delete
deletion_cases now id user db h = ground arith

pub restoration_cases :
    (id : String) (user : AuthUser) (db : Db) {after : Db}
    → restore id user db ≡ ok after
    → (t : Ticket) × (find_ticket db id ≡ some t)
      × (is_owner user.role ≡ true)
      × (t.deleted_at ≢ none)
      × (after ≡ write_restoration t user.id db)
unfolding restore
restoration_cases id user db h = ground arith

key_of_found : (db : Db) (id : String) {t : Ticket} → find_ticket db id ≡ some t → t.id ≡ id
unfolding find_ticket
key_of_found db id found = find_by-key ticket_key id db.tickets found

deleted_found :
    (now : ℕ) (t : Ticket) (actor id : String) (db : Db)
    → find_ticket db id ≡ some t
    → find_ticket (write_deletion now t actor db) id ≡ some (deleted_row now actor t)
unfolding write_deletion find_ticket update_ticket create_event
deleted_found now t actor id db found =
    let same : t.id ≡ id = find_by-key ticket_key id db.tickets found in
    subst
      (λ k.
        find_by ticket_key id (update_by ticket_key k (deleted_row now actor) db.tickets)
        ≡ some (deleted_row now actor t))
      (sym same)
      (find_by-update_self ticket_key (deleted_row now actor) (λ r. unfold deleted_row in refl) id
          db.tickets
        ∙ rw found)

restored_found :
    (t : Ticket) (actor id : String) (db : Db)
    → find_ticket db id ≡ some t
    → find_ticket (write_restoration t actor db) id ≡ some (restored_row t)
unfolding write_restoration find_ticket update_ticket create_event
restored_found t actor id db found =
    let same : t.id ≡ id = find_by-key ticket_key id db.tickets found in
    subst
      (λ k.
        find_by ticket_key id (update_by ticket_key k restored_row db.tickets)
        ≡ some (restored_row t))
      (sym same)
      (find_by-update_self ticket_key restored_row (λ r. unfold restored_row in refl) id db.tickets
        ∙ rw found)

-- The row that an accepted deletion leaves.
pub deleted_stored :
    (now : ℕ) (id : String) (user : AuthUser) (db : Db) {after : Db}
    → soft_delete now id user db ≡ ok after
    → (t : Ticket) × (find_ticket db id ≡ some t)
      × (t.deleted_at ≡ none)
      × (find_ticket after id ≡ some (deleted_row now user.id t))
deleted_stored now id user db {after} h =
    let (t, found, live, written) = deletion_cases now id user db h in
    (
      t,
      found,
      live,
      subst (λ d. find_ticket d id ≡ some (deleted_row now user.id t)) (sym written)
          (deleted_found now t user.id id db found),
    )

restoration_accepted :
    (now : ℕ) (id actor : String) (admin : AuthUser) (after : Db) (t : Ticket)
    → is_owner admin.role ≡ true
    → find_ticket after id ≡ some (deleted_row now actor t)
    → restore id admin after ≡ ok (write_restoration (deleted_row now actor t) admin.id after)
unfolding restore deleted_row
restoration_accepted now id actor admin after t owns stored = ground arith

restored_deleted :
    (now : ℕ) (actor : String) (t : Ticket)
    → t.deleted_at ≡ none
    → restored_row (deleted_row now actor t) ≡ record t { deleted_by_id = none }
unfolding restored_row deleted_row
restored_deleted now actor t live = ground arith

-- After an accepted deletion an OWNER's restoration is accepted, and the ticket is stored as it was,
-- except that nobody is recorded as having deleted it.
pub restore_deleted :
    (now : ℕ) (id : String) (user admin : AuthUser) (db : Db) {after : Db}
    → soft_delete now id user db ≡ ok after
    → is_owner admin.role ≡ true
    → (t : Ticket) × (back : Db) × (find_ticket db id ≡ some t)
      × (restore id admin after ≡ ok back)
      × (find_ticket back id ≡ some (record t { deleted_by_id = none }))
restore_deleted now id user admin db {after} h owns =
    let (t, found, live, stored) = deleted_stored now id user db h in
    (
      t,
      write_restoration (deleted_row now user.id t) admin.id after,
      found,
      restoration_accepted now id user.id admin after t owns stored,
      restored_found (deleted_row now user.id t) admin.id id after stored
          ∙ ap some (restored_deleted now user.id t live),
    )

-- After an accepted deletion every transition, transfer and change of priority of the ticket is
-- refused, whoever asks.
pub deleted_refuses :
    (tables : SlaTables) (table : Transitions) (now later : ℕ) (id : String) (user other : AuthUser)
    (db : Db) {after : Db} (to : TicketStatus) (team : String) (assignee : Option String)
    (priority : TicketPriority)
    → soft_delete now id user db ≡ ok after
    → (is_ok (transition tables table later id to other after) ≡ false)
      × (is_ok (transfer tables id team assignee other after) ≡ false)
      × (is_ok (change_priority tables id priority other after) ≡ false)
unfolding transition transfer change_priority can_write_ticket deleted_row
deleted_refuses tables table now later id user other db {after} to team assignee priority h =
    let (t, _, _, stored) = deleted_stored now id user db h in
    (ground arith, ground arith, ground arith)

deletion_keeps :
    (now : ℕ) (id : String) (user : AuthUser) (db : Db) {after : Db}
    → soft_delete now id user db ≡ ok after
    → (after.team_members ≡ db.team_members) × (after.users ≡ db.users)
unfolding soft_delete write_deletion update_ticket create_event
deletion_keeps now id user db h = ground arith

-- An accepted deletion makes no difference to `assign`: it is accepted afterwards exactly if it was
-- before, whoever asks and whoever is to be assigned.
pub assign_ignores_deletion :
    (now : ℕ) (id : String) (user other : AuthUser) (db : Db) {after : Db}
    (assignee : Option String)
    → soft_delete now id user db ≡ ok after
    → is_ok (assign id assignee other after) ≡ is_ok (assign id assignee other db)
unfolding assign deleted_row apply_assignee_in_tx may_be_assigned can_assign_ticket
assign_ignores_deletion now id user other db {after} assignee h =
    let (t, found, live, stored) = deleted_stored now id user db h in
    let (members, users) = deletion_keeps now id user db h in ground arith
