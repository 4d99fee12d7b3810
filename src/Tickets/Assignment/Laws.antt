-- ===== src/Tickets/Assignment/Laws.antt =====
-- What an assignment leaves.
use cursor_multi_agent.Prelude.{
  String, ◌≡◌, ◌⊎◌, refl, true, some, arith, truthy, All, ok, All, inl, inr, sym, ◌∙◌,
}
use cursor_multi_agent.Domain.{UserRole, owner}
use cursor_multi_agent.Store.{
  Ticket, Db, find_ticket, has_pair, user_role, ticket_key, create_event, update_ticket,
}
use cursor_multi_agent.Store.Tables.{
  find_by-update_self, All-update_by, All-find_by, update_by, find_by,
}
use cursor_multi_agent.Tickets.Status.Laws.{IsConsistent}
use cursor_multi_agent.Tickets.Assignment.{
  promoted, may_be_assigned, assigned_row, write_assignee, apply_assignee_in_tx, ensure_follower,
  log_status,
}
use mathlib.Core.Path.{subst}
use cursor_multi_agent.Store.Pairs.{has_pair-add_self}

assigned_row-IsConsistent :
    (t : Ticket) (assignee : String)
    → truthy assignee ≡ true
    → IsConsistent t
    → IsConsistent (assigned_row t assignee t)
unfolding assigned_row
assigned_row-IsConsistent t assignee named c = ground arith

written_tickets :
    (t : Ticket) (assignee actor : String) (db : Db)
    → (write_assignee t assignee actor db).tickets
      ≡ update_by ticket_key t.id (assigned_row t assignee) db.tickets
unfolding write_assignee ensure_follower log_status create_event update_ticket
written_tickets t assignee actor db = ground arith

accepted_cases :
    (t : Ticket) (assignee actor : String) (db : Db) {after : Db}
    → apply_assignee_in_tx t assignee actor db ≡ ok after
    → (role : UserRole) × (user_role assignee db.users ≡ some role)
      × (may_be_assigned t assignee role db ≡ true)
      × (after ≡ write_assignee t assignee actor db)
unfolding apply_assignee_in_tx
accepted_cases t assignee actor db h = ground arith

-- An accepted assignment of a stored ticket to a user with an id keeps every ticket consistent.
pub apply_assignee-IsConsistent :
    (t : Ticket) (assignee actor : String) (db : Db) {after : Db}
    → truthy assignee ≡ true
    → find_ticket db t.id ≡ some t
    → apply_assignee_in_tx t assignee actor db ≡ ok after
    → All IsConsistent db.tickets
    → All IsConsistent after.tickets
unfolding find_ticket
apply_assignee-IsConsistent t assignee actor db named found h all =
    let (role, known, member, written) = accepted_cases t assignee actor db h in
    subst (λ d. All IsConsistent d.tickets) (sym written)
      (rw written_tickets (
        All-update_by ticket_key IsConsistent (assigned_row t assignee) t.id db.tickets found
          (assigned_row-IsConsistent t assignee named
            (All-find_by ticket_key IsConsistent t.id db.tickets found all))
          all))

member_or_owner :
    (t : Ticket) (assignee : String) (role : UserRole) (db : Db)
    → user_role assignee db.users ≡ some role
    → may_be_assigned t assignee role db ≡ true
    → (user_role assignee db.users ≡ some owner)
      ⊎ ((team : String)
          → t.assigned_team_id ≡ some team
          → truthy team ≡ true
          → has_pair team assignee db.team_members ≡ true)
unfolding may_be_assigned
member_or_owner t assignee owner db known member = inl known
member_or_owner t assignee role db known member = inr (λ team e named. ground arith)

written_row :
    (t : Ticket) (assignee actor : String) (db : Db)
    → find_ticket db t.id ≡ some t
    → find_ticket (write_assignee t assignee actor db) t.id
      ≡ some (record t { assignee_id = some assignee; status = promoted t.status })
unfolding find_ticket assigned_row
written_row t assignee actor db found = rw written_tickets (
    find_by-update_self ticket_key (assigned_row t assignee) (λ r. refl) t.id db.tickets ∙ rw found)

written_follower :
    (t : Ticket) (assignee actor : String) (db : Db)
    → has_pair t.id assignee (write_assignee t assignee actor db).followers ≡ true
unfolding write_assignee ensure_follower
written_follower t assignee actor db = has_pair-add_self t.id assignee _

-- An accepted assignment of a stored ticket: the assignee is a known user who is an OWNER or a member
-- of the ticket's team, if it has one; the stored row has him as assignee and a status that is
-- ASSIGNED if it was NEW, TRIAGED or REOPENED and the same otherwise; and he follows the ticket.
pub assigned_effect :
    (t : Ticket) (assignee actor : String) (db : Db) {after : Db}
    → find_ticket db t.id ≡ some t
    → apply_assignee_in_tx t assignee actor db ≡ ok after
    → ((user_role assignee db.users ≡ some owner)
        ⊎ ((team : String)
            → t.assigned_team_id ≡ some team
            → truthy team ≡ true
            → has_pair team assignee db.team_members ≡ true))
      × (find_ticket after t.id
          ≡ some (record t { assignee_id = some assignee; status = promoted t.status }))
      × (has_pair t.id assignee after.followers ≡ true)
assigned_effect t assignee actor db {after} found h =
    let (role, known, member, written) = accepted_cases t assignee actor db h in
    (
      member_or_owner t assignee role db known member,
      subst
          (λ d.
            find_ticket d t.id
            ≡ some (record t { assignee_id = some assignee; status = promoted t.status }))
          (sym written) (written_row t assignee actor db found),
      subst (λ d. has_pair t.id assignee d.followers ≡ true) (sym written)
          (written_follower t assignee actor db),
    )

-- The row that an accepted assignment leaves where the snapshot is not the stored row.
pub snapshot_row :
    (t r : Ticket) (assignee actor : String) (db : Db) {after : Db}
    → find_ticket db t.id ≡ some r
    → apply_assignee_in_tx t assignee actor db ≡ ok after
    → find_ticket after t.id ≡ some (assigned_row t assignee r)
unfolding find_ticket
snapshot_row t r assignee actor db found h =
    let (role, known, member, written) = accepted_cases t assignee actor db h in
    subst (λ d. find_by ticket_key t.id d.tickets ≡ some (assigned_row t assignee r)) (sym written)
      (rw written_tickets (
        find_by-update_self ticket_key (assigned_row t assignee) (λ r. unfold assigned_row in refl)
          t.id db.tickets
        ∙ rw found))
