-- ===== src/Tickets/Messages.antt =====
-- `addMessage` of tickets.service.ts: a reply or a note on a ticket. Left out are the ids that the
-- database gives to messages and the live updates of open pages.
pub mod Laws
pub mod Mentions
use cursor_multi_agent.Prelude.{
  ℕ, String, Bool, true, false, not, ◌&&◌, Option, none, some, List, [], ◌∷◌, ◌==◌, ◌===◌, any,
  includes, is_empty, is_none, is_some, or_else, present, if◌then◌else◌, Result, ok, guard, ◌>>=◌,
  ◌>>◌, forbidden, not_found,
}
use cursor_multi_agent.Domain.{
  AuthUser, UserRole, MessageType, public, internal, is_employee, is_owner,
}
use cursor_multi_agent.Store.{Ticket, Db, find_ticket, update_ticket, create_event, message_added}
use cursor_multi_agent.Access.{AccessTicket, can_view_ticket, can_post_message, is_peer_agent}
use cursor_multi_agent.Sla.Policy.{SlaTables}
use cursor_multi_agent.Sla.Engine.{no_options, sync_from_ticket}
use cursor_multi_agent.Tickets.Guards.{require_ticket, as_access}
use cursor_multi_agent.Tickets.Assignment.{ensure_follower}
use cursor_multi_agent.Tickets.Transfer.Visibility.{with_grants}

-- A row of `TicketMessage`.
pub record TicketMessage : Type 0 where
  pub ticket_id : String
  pub author_id : String
  pub body : String
  pub type : MessageType
  pub created_at : ℕ

-- `AddTicketMessageDto`, and the ids that the two patterns of mentions find in the body, each once.
pub record AddTicketMessage : Type 0 where
  pub author_id : Option String
  pub body : String
  pub type : Option MessageType
  pub mentioned_ids : List String

-- The message, the users whose mention is notified, and the database afterwards.
pub record Posted : Type 0 where
  pub message : TicketMessage
  pub allowed_mentioned_ids : List String
  pub db : Db

abbrev pub is_public : MessageType → Bool
is_public public = true
is_public internal = false

abbrev pub is_internal : MessageType → Bool
is_internal public = false
is_internal internal = true

unfoldable pub effective_type : AuthUser → Ticket → Option MessageType → MessageType
effective_type user ticket type =
    if is_peer_agent user (as_access ticket) then internal else or_else type public

unfoldable pub should_set_first_response : AuthUser → MessageType → Bool
should_set_first_response user type = not (is_employee user.role) && is_public type

abbrev pub with_first_response : ℕ → Ticket → Ticket
with_first_response now row = record row { first_response_at = some now }

-- The tests of the handler, in their order.
unfoldable pub check_author : AddTicketMessage → AuthUser → Result (Unit {0})
check_author payload user =
    guard (not (present payload.author_id && not (payload.author_id === user.id)))
      (forbidden "Message author must match current user")

unfoldable pub check_post : AddTicketMessage → AuthUser → Ticket → Result (Unit {0})
check_post payload user ticket =
    guard (not (is_some ticket.deleted_at && not (is_owner user.role)))
      (not_found "Ticket not found")
    >> (guard (not (is_employee user.role && not (ticket.requester_id == user.id)))
          (forbidden "Requesters can only reply to their own tickets")
        >> (guard (not (is_employee user.role && not (is_public (or_else payload.type public))))
              (forbidden "Requesters can only add public replies")
            >> guard (can_post_message user (as_access ticket))
                (forbidden "No write access to this ticket")))

-- `teamMemberships` of a user
unfoldable pub teams_of : String → List (String × String) → List String
teams_of user [] = []
teams_of user ((team, member) ∷ rows) =
    let rest = teams_of user rows in if member == user then team ∷ rest else rest

-- The user that a mention is checked for, as a member of one team or of none.
abbrev pub mentioned_user : String → UserRole → Option String → AuthUser
mentioned_user id role team = record {
  id = id;
  role = role;
  team_id = team;
  primary_team_id = none;
  member_team_ids = none;
}

-- `canView`
unfoldable pub can_be_mentioned : AccessTicket → String → UserRole → List String → Bool
can_be_mentioned ticket id role teams =
    if is_empty teams
    then can_view_ticket (mentioned_user id role none) ticket
    else any (λ team. can_view_ticket (mentioned_user id role (some team)) ticket) teams

-- The loop over the users that are mentioned.
unfoldable pub allowed_mentions :
    Bool
    → AccessTicket
    → List (String × String)
    → List String
    → List (String × UserRole)
    → List String
allowed_mentions is_internal_message ticket members mentioned [] = []
allowed_mentions is_internal_message ticket members mentioned ((id, role) ∷ users) =
    let rest = allowed_mentions is_internal_message ticket members mentioned users in
    if includes mentioned id
      && (not (is_internal_message && is_employee role)
          && can_be_mentioned ticket id role (teams_of id members))
    then id ∷ rest
    else rest

unfoldable pub follow_all : String → List String → Db → Db
follow_all ticket_id [] db = db
follow_all ticket_id (id ∷ ids) db = follow_all ticket_id ids (ensure_follower ticket_id id db)

-- The columns that `ticketForView` has.
abbrev pub ticket_for_view : Db → Ticket → AccessTicket
ticket_for_view db ticket = record (with_grants db ticket) { deleted_at = none }

-- `allowedMentionedIds`; the ticket is read again.
unfoldable pub read_allowed_mentions : String → AddTicketMessage → Db → List String
read_allowed_mentions ticket_id payload db = elim (find_ticket db ticket_id) [
  | none ↦ []
  | some ticket ↦
      allowed_mentions (is_internal (or_else payload.type public)) (ticket_for_view db ticket)
        db.team_members payload.mentioned_ids db.users
]

module _ (tables : SlaTables) where
  -- `updateMany` of the ticket if it has no first response, and the synchronisation if it had none.
  unfoldable pub set_first_response : ℕ → String → Db → Db
  set_first_response now ticket_id db = elim (find_ticket db ticket_id) [
    | none ↦ db
    | some ticket ↦
        if is_none ticket.first_response_at
        then sync_from_ticket tables ticket_id no_options
            (update_ticket ticket_id (with_first_response now) db)
        else db
  ]

  -- The transaction.
  unfoldable pub write_message : ℕ → String → MessageType → AuthUser → Db → Db
  write_message now ticket_id type user db = ensure_follower ticket_id user.id (
      create_event
        (record { ticket_id = ticket_id; body = message_added type; created_by_id = some user.id })
        (if should_set_first_response user type then set_first_response now ticket_id db else db))

  unfoldable pub post_message : ℕ → String → AddTicketMessage → AuthUser → MessageType → Db → Posted
  post_message now ticket_id payload user type db =
      let written = write_message now ticket_id type user db in
      let allowed = read_allowed_mentions ticket_id payload written in
      record {
        message = record {
          ticket_id = ticket_id;
          author_id = user.id;
          body = payload.body;
          type = type;
          created_at = now;
        };
        allowed_mentioned_ids = allowed;
        db = follow_all ticket_id allowed written;
      }

  unfoldable pub add_message : ℕ → String → AddTicketMessage → AuthUser → Db → Result Posted
  add_message now ticket_id payload user db =
      check_author payload user
      >> (require_ticket db ticket_id >>= λ ticket.
          (check_post payload user ticket
            >> ok (
                post_message now ticket_id payload user (effective_type user ticket payload.type)
                  db)))
