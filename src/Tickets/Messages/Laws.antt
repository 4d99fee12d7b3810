-- ===== src/Tickets/Messages/Laws.antt =====
-- What an accepted message leaves of the ticket.
use cursor_multi_agent.Prelude.{
  none, ◌===◌, ◌==◌, ◌&&◌, not, present, includes_some, ℕ, String, ◌≡◌, Bool, true, some, List, [],
  ◌∷◌, arith, ok, refl, sym, All, is_none, if◌then◌else◌, or_option, ap, ◌∙◌, false, Option,
}
use cursor_multi_agent.Domain.{
  AuthUser, MessageType, public, internal, UserRole, employee, is_agent, is_employee,
}
use cursor_multi_agent.Store.{
  Ticket, Db, find_ticket, update_ticket, create_event, ticket_key, has_pair,
}
use cursor_multi_agent.Store.Tables.{
  update_by, find_by-update_self, All-update_by, All-find_by, find_by,
}
use cursor_multi_agent.Store.Pairs.{has_pair-add, has_pair-add_self}
use cursor_multi_agent.Sla.Policy.{SlaTables}
use cursor_multi_agent.Sla.Engine.{no_options, sync_from_ticket, upsert_instance}
use cursor_multi_agent.Sla.Engine.Laws.{sync-tickets}
use cursor_multi_agent.Access.{can_post_message, is_peer_agent, operational_team_ids}
use cursor_multi_agent.Tickets.Guards.{as_access}
use cursor_multi_agent.Tickets.Assignment.{ensure_follower}
use cursor_multi_agent.Tickets.Status.Laws.{IsConsistent}
use cursor_multi_agent.Tickets.Messages.{
  AddTicketMessage, Posted, add_message, post_message, write_message, set_first_response,
  follow_all, effective_type, should_set_first_response, with_first_response, check_author,
  check_post,
}
use mathlib.Core.Path.{subst}

-- The specification, apart from the code: does a message of that type by a user of that role answer
-- the requester,
abbrev pub answers_requester : UserRole → MessageType → Bool
answers_requester employee type = false
answers_requester role internal = false
answers_requester role public = true

-- which type is a message stored with, if its author is a peer or is not,
abbrev pub shown_type : Bool → Option MessageType → MessageType
shown_type true asked = internal
shown_type false none = public
shown_type false (some asked) = asked

-- and does the request ask for a note?
abbrev pub asks_note : Option MessageType → Bool
asks_note (some internal) = true
asks_note _ = false

-- An agent of the team of a ticket that is not assigned to him.
abbrev pub is_colleague : AuthUser → Ticket → Bool
is_colleague user t =
    is_agent user.role
    && (not (t.assignee_id === user.id)
        && includes_some (operational_team_ids user) t.assigned_team_id)

-- What the author of an accepted message may do.
pub record IsAdmitted (payload : AddTicketMessage) (user : AuthUser) (t : Ticket) : Type 0 where
  pub may_post : can_post_message user (as_access t) ≡ true
  pub own_name : (present payload.author_id && not (payload.author_id === user.id)) ≡ false
  pub own_ticket : (is_employee user.role && not (t.requester_id == user.id)) ≡ false
  pub no_note : (is_employee user.role && asks_note payload.type) ≡ false

effective_lem :
    (user : AuthUser) (t : Ticket) (type : Option MessageType)
    → effective_type user t type ≡ shown_type (is_colleague user t) type
unfolding effective_type is_peer_agent
effective_lem user t none = ground arith
effective_lem user t (some type) = ground arith

answers_lem :
    (user : AuthUser) (type : MessageType)
    → should_set_first_response user type ≡ answers_requester user.role type
unfolding should_set_first_response
answers_lem user type = ground arith

-- The tests that an accepted message passed.
module _ (tables : SlaTables) where
  pub posted_cases :
      (now : ℕ) (id : String) (payload : AddTicketMessage) (user : AuthUser) (db : Db)
      {posted : Posted}
      → add_message tables now id payload user db ≡ ok posted
      → (t : Ticket) × (find_ticket db id ≡ some t)
        × (can_post_message user (as_access t) ≡ true)
        × (posted ≡ post_message tables now id payload user (effective_type user t payload.type) db)
  unfolding add_message check_author check_post
  posted_cases now id payload user db h = ground arith

  posted-IsAdmitted :
      (now : ℕ) (id : String) (payload : AddTicketMessage) (user : AuthUser) (db : Db) {t : Ticket}
      {posted : Posted}
      → find_ticket db id ≡ some t
      → add_message tables now id payload user db ≡ ok posted
      → IsAdmitted payload user t
  unfolding add_message check_author check_post
  posted-IsAdmitted now id payload user db found h = record {
    may_post = ground arith;
    own_name = ground arith;
    own_ticket = ground arith;
    no_note = ground arith;
  }

follow_all-tickets :
    (id : String) (ids : List String) (db : Db) → (follow_all id ids db).tickets ≡ db.tickets
unfolding follow_all ensure_follower
follow_all-tickets id [] db = refl
follow_all-tickets id (x ∷ ids) db = follow_all-tickets id ids (ensure_follower id x db)

follow_all-users :
    (id : String) (ids : List String) (db : Db) → (follow_all id ids db).users ≡ db.users
unfolding follow_all ensure_follower
follow_all-users id [] db = refl
follow_all-users id (x ∷ ids) db = follow_all-users id ids (ensure_follower id x db)

-- A follower stays one.
follow_all-keeps :
    (id user : String) (ids : List String) (db : Db)
    → has_pair id user db.followers ≡ true
    → has_pair id user (follow_all id ids db).followers ≡ true
unfolding follow_all ensure_follower
follow_all-keeps id user [] db h = h
follow_all-keeps id user (x ∷ ids) db h =
    follow_all-keeps id user ids (ensure_follower id x db)
      (ground (arith, has_pair-add id x id user db.followers))

with_first_response-IsConsistent :
    (now : ℕ) (t : Ticket) → IsConsistent t → IsConsistent (with_first_response now t)
with_first_response-IsConsistent now t c = record {
  has_assignee = c.has_assignee;
  paused_iff = c.paused_iff;
  completed_iff = c.completed_iff;
  closed_at_set = c.closed_at_set;
  reason_iff = c.reason_iff;
  resolved_at_set = c.resolved_at_set;
}

with_first_response-All :
    (now : ℕ) (id : String) (db : Db) {t : Ticket}
    → find_ticket db id ≡ some t
    → All IsConsistent db.tickets
    → All IsConsistent (update_by ticket_key id (with_first_response now) db.tickets)
unfolding find_ticket
with_first_response-All now id db {t} found all =
    All-update_by ticket_key IsConsistent (with_first_response now) id db.tickets found
      (with_first_response-IsConsistent now t
        (All-find_by ticket_key IsConsistent id db.tickets found all))
      all

-- The first response as it is after a message that counts as one, or does not.
abbrev pub responded : Bool → ℕ → Ticket → Ticket
responded counts now t = record t {
  first_response_at =
      if counts then or_option t.first_response_at (some now) else t.first_response_at;
}

module _ (tables : SlaTables) where
  written_tickets :
      (now : ℕ) (id : String) (type : MessageType) (user : AuthUser) (db : Db)
      → (write_message tables now id type user db).tickets ≡ (
          if should_set_first_response user type
          then (set_first_response tables now id db).tickets
          else db.tickets)
  unfolding write_message ensure_follower create_event
  written_tickets now id type user db = ground arith

  -- What the loop over the mentions reads besides the ticket.
  pub written_rest :
      (now : ℕ) (id : String) (type : MessageType) (user : AuthUser) (db : Db)
      → ((write_message tables now id type user db).users ≡ db.users)
        × ((write_message tables now id type user db).team_members ≡ db.team_members)
        × ((write_message tables now id type user db).ticket_access ≡ db.ticket_access)
  unfolding write_message ensure_follower create_event set_first_response update_ticket
      sync_from_ticket upsert_instance
  written_rest now id type user db = (ground arith, ground arith, ground arith)

  set_first_response-tickets :
      (now : ℕ) (id : String) (db : Db) {t : Ticket}
      → find_ticket db id ≡ some t
      → (set_first_response tables now id db).tickets ≡ (
          if is_none t.first_response_at
          then update_by ticket_key id (with_first_response now) db.tickets
          else db.tickets)
  unfolding set_first_response update_ticket
  set_first_response-tickets now id db found = grind (arith, sync-tickets tables id no_options)

  -- The stored row, if the message counts as a response and if it does not.
  pub written_row :
      (now : ℕ) (id : String) (type : MessageType) (user : AuthUser) (db : Db) {t : Ticket}
      → find_ticket db id ≡ some t
      → find_ticket (write_message tables now id type user db) id
        ≡ some (responded (should_set_first_response user type) now t)
  unfolding find_ticket
  written_row now id type user db {t} found = rw written_tickets (
      ground (
        arith,
        set_first_response-tickets now id db found,
        find_by-update_self ticket_key (with_first_response now) (λ r. refl) id db.tickets,
      ))

  posted_row :
      (now : ℕ) (id : String) (payload : AddTicketMessage) (user : AuthUser) (type : MessageType)
      (db : Db) {t : Ticket}
      → find_ticket db id ≡ some t
      → find_ticket (post_message tables now id payload user type db).db id
        ≡ some (responded (should_set_first_response user type) now t)
  unfolding find_ticket post_message
  posted_row now id payload user type db {t} found =
      ap (find_by ticket_key id) (follow_all-tickets id _ _) ∙ written_row now id type user db found

  -- Any accepted message is the user's own, under no other name; he may post on the ticket, and an
  -- EMPLOYEE has posted on a ticket of his own and has not asked for a note. It is stored as INTERNAL if
  -- he is an agent of the ticket's team who is not its assignee, and otherwise with the type that was
  -- asked for, or PUBLIC. Of the stored ticket at most the time of the first response has changed: set to
  -- the time of the message if there was none, the user is no EMPLOYEE and the message is stored as
  -- PUBLIC. The user follows the ticket afterwards.
  pub posted_effect :
      (now : ℕ) (id : String) (payload : AddTicketMessage) (user : AuthUser) (db : Db)
      {posted : Posted}
      → add_message tables now id payload user db ≡ ok posted
      → (t : Ticket) × (find_ticket db id ≡ some t)
        × IsAdmitted payload user t
        × (posted.message.author_id ≡ user.id)
        × (posted.message.type ≡ shown_type (is_colleague user t) payload.type)
        × (find_ticket posted.db id
            ≡ some (responded (answers_requester user.role posted.message.type) now t))
        × (has_pair id user.id posted.db.followers ≡ true)
  unfolding post_message write_message ensure_follower
  posted_effect now id payload user db {posted} h =
      let (t, found, may, written) = posted_cases tables now id payload user db h in
      let type = effective_type user t payload.type in
      (
        t,
        found,
        posted-IsAdmitted tables now id payload user db found h,
        ap (λ p. p.message.author_id) written,
        ap (λ p. p.message.type) written ∙ effective_lem user t payload.type,
        subst
            (λ p.
              find_ticket p.db id
              ≡ some (responded (answers_requester user.role p.message.type) now t))
            (sym written)
            (posted_row now id payload user type db found
              ∙ ap (λ b. some (responded b now t)) (answers_lem user type)),
        subst (λ p. has_pair id user.id p.db.followers ≡ true) (sym written)
            (follow_all-keeps id user.id _ _ (has_pair-add_self id user.id _)),
      )

  pub post-IsConsistent :
      (now : ℕ) (id : String) (payload : AddTicketMessage) (user : AuthUser) (db : Db)
      {posted : Posted}
      → add_message tables now id payload user db ≡ ok posted
      → All IsConsistent db.tickets
      → All IsConsistent posted.db.tickets
  unfolding find_ticket post_message
  post-IsConsistent now id payload user db {posted} h all =
      let (t, found, may, written) = posted_cases tables now id payload user db h in
      subst (λ p. All IsConsistent p.db.tickets) (sym written)
        (rw (follow_all-tickets, written_tickets)
          (ground (
            arith,
            set_first_response-tickets now id db found,
            with_first_response-All now id db found all,
          )))

  pub post-users :
      (now : ℕ) (id : String) (payload : AddTicketMessage) (user : AuthUser) (db : Db)
      {posted : Posted}
      → add_message tables now id payload user db ≡ ok posted
      → posted.db.users ≡ db.users
  unfolding post_message
  post-users now id payload user db h =
      let (t, found, may, written) = posted_cases tables now id payload user db h in
      ap (λ p. p.db.users) written ∙ follow_all-users id _ _ ∙ (written_rest now id _ user db).0
