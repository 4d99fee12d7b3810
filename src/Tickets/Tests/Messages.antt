-- ===== src/Tickets/Tests/Messages.antt =====
-- The theorems on messages at concrete messages.
use cursor_multi_agent.Prelude.{◌≡◌, refl, true, none, some, [], ◌∷◌, ok, All, includes}
use cursor_multi_agent.Domain.{AuthUser, agent, employee, internal, public}
use cursor_multi_agent.Store.{Ticket, Db, find_ticket, has_pair}
use cursor_multi_agent.Access.{can_post_message, is_peer_agent}
use cursor_multi_agent.Tickets.Transfer.Visibility.{with_grants}
use cursor_multi_agent.Tickets.Messages.{
  AddTicketMessage, Posted, add_message, effective_type, should_set_first_response, check_author,
  check_post, post_message, write_message, set_first_response, read_allowed_mentions,
  allowed_mentions, can_be_mentioned, teams_of, follow_all, ticket_for_view,
}
use cursor_multi_agent.Tickets.Messages.Laws.{
  posted_effect, responded, IsAdmitted, shown_type, is_colleague, answers_requester,
}
use cursor_multi_agent.Tickets.Messages.Mentions.{
  IsAllowed, internal_kept, peer_mention_reaches_requester,
}
use cursor_multi_agent.Tickets.Tests.{tables, laptop, desk, ann, model}

-- Bob is assigned to the laptop; Ann is of his team.
abbrev taken : Ticket
taken = record laptop { assignee_id = some "bob" }

abbrev staffed : Db
staffed = record desk {
  tickets = taken ∷ [];
  team_members = ("it", "ann") ∷ ("it", "bob") ∷ [];
  users = ("eve", employee) ∷ ("ann", agent) ∷ ("bob", agent) ∷ [];
}

abbrev bob : AuthUser
bob = record ann { id = "bob" }

abbrev to_eve : AddTicketMessage
to_eve = record {
  author_id = none;
  body = "(user:eve) it is the screen";
  type = none;
  mentioned_ids = "eve" ∷ [];
}

abbrev note : AddTicketMessage
note = record to_eve { type = some internal; mentioned_ids = "eve" ∷ "ann" ∷ [] }

messages : Unit {0}
unfolding model add_message effective_type should_set_first_response check_author check_post
    post_message write_message set_first_response read_allowed_mentions allowed_mentions
    can_be_mentioned teams_of follow_all with_grants can_post_message is_peer_agent
messages = tt

abbrev answer : Posted
answer = post_message tables 9 "t1" to_eve bob public staffed

answers : add_message tables 9 "t1" to_eve bob staffed ≡ ok answer
unfolding messages
answers = refl

posted_effect_example :
    (t : Ticket) × (find_ticket staffed "t1" ≡ some t)
    × IsAdmitted to_eve bob t
    × (answer.message.author_id ≡ "bob")
    × (answer.message.type ≡ shown_type (is_colleague bob t) none)
    × (find_ticket answer.db "t1"
        ≡ some (responded (answers_requester agent answer.message.type) 9 t))
    × (has_pair "t1" "bob" answer.db.followers ≡ true)
posted_effect_example = posted_effect tables 9 "t1" to_eve bob staffed answers

-- The answer is the first one, and Eve is told of it.
answered_eve :
    (answer.message.type ≡ public)
    × (answer.allowed_mentioned_ids ≡ "eve" ∷ [])
    × (find_ticket answer.db "t1" ≡ some (record taken { first_response_at = some 9 }))
unfolding messages
answered_eve = (refl, refl, refl)

abbrev noted : Posted
noted = post_message tables 9 "t1" note bob internal staffed

notes : add_message tables 9 "t1" note bob staffed ≡ ok noted
unfolding messages
notes = refl

internal_kept_example :
    (t : Ticket) × (find_ticket staffed "t1" ≡ some t)
    × All
        (IsAllowed true
          (ticket_for_view staffed t)
          staffed.team_members
          ("eve" ∷ "ann" ∷ [])
          staffed.users)
        noted.allowed_mentioned_ids
internal_kept_example = internal_kept tables 9 "t1" note bob staffed notes refl

-- Of the two that are mentioned, only Ann is told.
told_ann : noted.allowed_mentioned_ids ≡ "ann" ∷ []
unfolding messages
told_ann = refl

abbrev peer_note : Posted
peer_note = post_message tables 9 "t1" to_eve ann internal staffed

peer_posts : add_message tables 9 "t1" to_eve ann staffed ≡ ok peer_note
unfolding messages
peer_posts = refl

peer_mention_reaches_requester_example :
    (peer_note.message.type ≡ internal) × (includes peer_note.allowed_mentioned_ids "eve" ≡ true)
unfolding messages
peer_mention_reaches_requester_example =
    peer_mention_reaches_requester tables 9 "t1" to_eve ann staffed {t = taken} refl refl refl refl
      refl peer_posts
