-- ===== src/Tickets/Messages/Mentions.antt =====
-- Who is told of being mentioned in a message.
use mathlib.Core.List.{Memᴰ}
use cursor_multi_agent.Prelude.{
  ℕ, String, ◌≡◌, Bool, true, false, ◌&&◌, not, none, some, List, [], ◌∷◌, arith, ok, refl, sym,
  All, includes, eq_iff, eq_refl, Bool-cases, inl, inr, or_else, ◌==◌, ap, ◌∙◌,
}
use mathlib.Core.Path.{subst}
use mathlib.Core.Option.{some-injective}
use cursor_multi_agent.Domain.{
  AuthUser, UserRole, employee, internal, public, is_employee, MessageType,
}
use cursor_multi_agent.Store.{Ticket, Db, find_ticket, user_role}
use cursor_multi_agent.Sla.Policy.{SlaTables}
use cursor_multi_agent.Access.{AccessTicket, can_view_ticket, administered_team, is_peer_agent}
use cursor_multi_agent.Tickets.Guards.{as_access}
use cursor_multi_agent.Tickets.Transfer.Visibility.{with_grants}
use cursor_multi_agent.Tickets.Messages.{
  AddTicketMessage, Posted, add_message, post_message, effective_type, allowed_mentions, teams_of,
  can_be_mentioned, is_internal, read_allowed_mentions, ticket_for_view, should_set_first_response,
  write_message,
}
use cursor_multi_agent.Tickets.Messages.Laws.{responded, posted_cases, written_rest, written_row}

requester_can_be_mentioned :
    (ticket : AccessTicket) (teams : List String)
    → ticket.deleted_at ≡ none
    → can_be_mentioned ticket ticket.requester_id employee teams ≡ true
unfolding can_be_mentioned can_view_ticket administered_team
requester_can_be_mentioned ticket [] live = ground (arith, eq_refl ticket.requester_id)
requester_can_be_mentioned ticket (team ∷ teams) live = ground (arith, eq_refl ticket.requester_id)

module _ (is_internal_message : Bool) (ticket : AccessTicket) (members : List (String × String))
    (mentioned : List String) where
  allowed-includes :
      (id : String) (users : List (String × UserRole)) {role : UserRole}
      → user_role id users ≡ some role
      → includes mentioned id ≡ true
      → (is_internal_message && is_employee role) ≡ false
      → can_be_mentioned ticket id role (teams_of id members) ≡ true
      → includes (allowed_mentions is_internal_message ticket members mentioned users) id ≡ true
  unfolding user_role allowed_mentions
  allowed-includes id [] known named heard seen = cc
  allowed-includes id ((x, r) ∷ users) {role} known named heard seen = elim (Bool-cases (x == id)) [
    | inl e ↦ ground (arith, eq_iff x id, eq_refl id, (eq_iff x id).0 e)
    | inr e ↦ ground (arith, allowed-includes id users {role = role})
  ]

  -- What it takes for a mention to be notified.
  abbrev pub IsAllowed : List (String × UserRole) → String → Type 0
  IsAllowed users id =
      (role : UserRole) × Memᴰ (id, role) users
      × (includes mentioned id ≡ true)
      × ((is_internal_message && is_employee role) ≡ false)
      × (can_be_mentioned ticket id role (teams_of id members) ≡ true)

  weaken :
      (p : String × UserRole) (users : List (String × UserRole)) (ids : List String)
      → All (IsAllowed users) ids
      → All (IsAllowed (p ∷ users)) ids
  weaken p users [] all = tt
  weaken p users (id ∷ ids) ((role, listed, named, heard, seen), all) =
      ((role, Memᴰ.tail listed, named, heard, seen), weaken p users ids all)

  allowed_mentions-IsAllowed :
      (users : List (String × UserRole))
      → All (IsAllowed users) (allowed_mentions is_internal_message ticket members mentioned users)
  unfolding allowed_mentions
  allowed_mentions-IsAllowed [] = tt
  allowed_mentions-IsAllowed ((id, role) ∷ users) =
      let rest = weaken (id, role) users _ (allowed_mentions-IsAllowed users) in
      elim (Bool-cases (
        includes mentioned id
        && (not (is_internal_message && is_employee role)
            && can_be_mentioned ticket id role (teams_of id members)))) [
              | inl e ↦
                  rw e ((role, Memᴰ.head refl, ground arith, ground arith, ground arith), rest)
              | inr e ↦ rw e rest
            ]

read_mentions :
    (id : String) (payload : AddTicketMessage) (db : Db) {t : Ticket}
    → find_ticket db id ≡ some t
    → read_allowed_mentions id payload db
      ≡ allowed_mentions
          (is_internal (or_else payload.type public))
          (ticket_for_view db t)
          db.team_members
          payload.mentioned_ids
          db.users
unfolding read_allowed_mentions
read_mentions id payload db found = rw (found, read_allowed_mentions)

-- The view that a message leaves.
view_after :
    (t : Ticket) (counts : Bool) (now : ℕ) (before after : Db)
    → after.ticket_access ≡ before.ticket_access
    → ticket_for_view after (responded counts now t) ≡ ticket_for_view before t
unfolding with_grants
view_after t counts now before after same = rw same

module _ (tables : SlaTables) where
  -- The loop runs on what the transaction has left: the columns that it reads are those of before.
  written_mentions :
      (now : ℕ) (id : String) (payload : AddTicketMessage) (user : AuthUser) (type : MessageType)
      (db : Db) {t : Ticket}
      → find_ticket db id ≡ some t
      → (post_message tables now id payload user type db).allowed_mentioned_ids
        ≡ allowed_mentions
            (is_internal (or_else payload.type public))
            (ticket_for_view db t)
            db.team_members
            payload.mentioned_ids
            db.users
  unfolding post_message
  written_mentions now id payload user type db {t} found =
      let (users, members, access) = written_rest tables now id type user db in
      read_mentions id payload _ (written_row tables now id type user db found)
      ∙ rw (
        view_after t (should_set_first_response user type) now db
            (write_message tables now id type user db) access,
        users,
        members,
      )

  -- If a message is asked to be INTERNAL, everybody whose mention is notified is a user named in it who
  -- is not an EMPLOYEE and who may see the ticket as a member of one of his teams, or as one of none.
  pub internal_kept :
      (now : ℕ) (id : String) (payload : AddTicketMessage) (user : AuthUser) (db : Db)
      {posted : Posted}
      → add_message tables now id payload user db ≡ ok posted
      → payload.type ≡ some internal
      → (t : Ticket) × (find_ticket db id ≡ some t)
        × All
            (IsAllowed true (ticket_for_view db t) db.team_members payload.mentioned_ids db.users)
            posted.allowed_mentioned_ids
  internal_kept now id payload user db {posted} h asked =
      let (t, found, may, written) = posted_cases tables now id payload user db h in
      let ticket = ticket_for_view db t in
      let all_allowed =
        All (IsAllowed true ticket db.team_members payload.mentioned_ids db.users) in
      (
        t,
        found,
        subst (λ p. all_allowed p.allowed_mentioned_ids) (sym written)
            (subst all_allowed (sym (written_mentions now id payload user _ db found)) (
              subst
                (λ o. all_allowed (
                  allowed_mentions (is_internal (or_else o public)) ticket db.team_members
                    payload.mentioned_ids db.users))
                (sym asked)
                (allowed_mentions-IsAllowed true ticket db.team_members payload.mentioned_ids
                  db.users))),
      )

  -- An agent of the ticket's team who is not its assignee posts without asking for an INTERNAL note,
  -- and mentions the requester, an EMPLOYEE: if the message is accepted it is stored as INTERNAL, and
  -- the requester is told of it all the same.
  pub peer_mention_reaches_requester :
      (now : ℕ) (id : String) (payload : AddTicketMessage) (user : AuthUser) (db : Db) {t : Ticket}
      {posted : Posted}
      → find_ticket db id ≡ some t
      → is_peer_agent user (as_access t) ≡ true
      → is_internal (or_else payload.type public) ≡ false
      → includes payload.mentioned_ids t.requester_id ≡ true
      → user_role t.requester_id db.users ≡ some employee
      → add_message tables now id payload user db ≡ ok posted
      → (posted.message.type ≡ internal)
        × (includes posted.allowed_mentioned_ids t.requester_id ≡ true)
  unfolding effective_type post_message with_grants
  peer_mention_reaches_requester now id payload user db {t} {posted} found peer asked named known
        h =
      let (t', found', may, written) = posted_cases tables now id payload user db h in
      let same : t' ≡ t = some-injective t' t (sym found' ∙ found) in
      (
        ap (λ p. p.message.type) written ∙ rw (same, peer),
        subst (λ p. includes p.allowed_mentioned_ids t.requester_id ≡ true) (sym written)
            (rw (written_mentions now id payload user _ db found, asked)
              (allowed-includes false (ticket_for_view db t) db.team_members payload.mentioned_ids
                t.requester_id db.users known named refl
                (requester_can_be_mentioned (ticket_for_view db t)
                  (teams_of t.requester_id db.team_members) refl))),
      )
