-- ===== src/Access/Roles.antt =====
-- How the checks of access-control.service.ts relate to one another, role by role.
use cursor_multi_agent.Prelude.{◌≡◌, true, none, arith, is_none}
use cursor_multi_agent.Domain.{AuthUser, is_agent}
use cursor_multi_agent.Access.{
  AccessTicket, administered_team, can_view_ticket, can_write_ticket, can_post_message,
  is_peer_agent,
}

module _ (user : AuthUser) (t : AccessTicket) where
  -- Whoever may write to a ticket may see it.
  pub write_needs_view : can_write_ticket user t ≡ true → can_view_ticket user t ≡ true
  unfolding can_write_ticket can_view_ticket
  write_needs_view h = ground arith

  administered_of_agent : is_agent user.role ≡ true → administered_team user ≡ none
  unfolding administered_team
  administered_of_agent h = ground arith

  peer_views : is_peer_agent user t ≡ true → t.deleted_at ≡ none → can_view_ticket user t ≡ true
  unfolding is_peer_agent can_view_ticket
  peer_views h live = ground (arith, administered_of_agent)

  -- Whoever may post on a ticket may see it.
  pub post_needs_view : can_post_message user t ≡ true → can_view_ticket user t ≡ true
  unfolding can_post_message
  post_needs_view h = ground (arith, write_needs_view, peer_views)

  -- An agent of the ticket's team who is not its assignee may post; he may write exactly if the
  -- ticket has no assignee.
  pub peer_posts_only :
      is_peer_agent user t ≡ true
      → t.deleted_at ≡ none
      → (can_post_message user t ≡ true) × (can_write_ticket user t ≡ is_none t.assignee_id)
  unfolding can_post_message can_write_ticket is_peer_agent
  peer_posts_only h live = ground (arith, administered_of_agent)
