-- ===== src/Tickets/Transfer/Visibility.antt =====
-- Who sees a ticket after a transfer.
use cursor_multi_agent.Prelude.{
  String, ◌≡◌, ◌≢◌, ◌⊎◌, refl, Bool, true, false, Option, none, some, List, [], ◌∷◌, arith, truthy,
  ok, includes, ◌==◌, if◌then◌else◌, eq_iff, any, is_empty, or_else, inl, ◌∙◌, inr,
}
use cursor_multi_agent.Domain.{AuthUser, is_employee}
use cursor_multi_agent.Store.{Ticket, Db, find_ticket, has_pair}
use cursor_multi_agent.Access.{
  AccessTicket, can_view_ticket, operational_team_ids, administered_team, has_grant, has_read_grant,
  can_view_in_scope,
}
use cursor_multi_agent.Sla.Policy.{SlaTables}
use cursor_multi_agent.Tickets.Guards.{as_access}
use cursor_multi_agent.Tickets.Transfer.{apply_team_transfer_in_tx}
use cursor_multi_agent.Tickets.Transfer.Laws.{transferred_effect}

-- `include: { accessGrants: true }`
pub grants_of : String → List (String × String) → List String
grants_of id [] = []
grants_of id ((ticket, team) ∷ rows) =
    let rest = grants_of id rows in if ticket == id then team ∷ rest else rest

unfoldable pub with_grants : Db → Ticket → AccessTicket
with_grants db t = record (as_access t) { access_grants = some (grants_of t.id db.ticket_access) }

includes-grants_of :
    (id team : String) (rows : List (String × String))
    → includes (grants_of id rows) team ≡ has_pair id team rows
unfolding grants_of has_pair
includes-grants_of id team [] = refl
includes-grants_of id team ((x, y) ∷ rows) = ground (arith, includes-grants_of id team rows)

includes-share :
    (scope grants : List String) (team : String)
    → includes scope team ≡ true
    → includes grants team ≡ true
    → any (includes grants) scope ≡ true
includes-share [] grants team h k = cc
includes-share (s ∷ scope) grants team h k =
    ground (arith, eq_iff s team, includes-share scope grants team)

-- Who sees the tickets of a team: its administrator, and the agents and leads who have it in scope.
abbrev pub Serves : AuthUser → String → Type 0
Serves user team =
    (administered_team user ≡ some team)
    ⊎ ((administered_team user ≡ none)
        × (is_employee user.role ≡ false)
        × (includes (operational_team_ids user) team ≡ true))

not_empty :
    (scope : List String) (team : String) → includes scope team ≡ true → is_empty scope ≡ false
not_empty [] team h = cc
not_empty (s ∷ scope) team h = refl

scope_views :
    (user : AuthUser) (scope : List String) (team : String) (t : AccessTicket)
    → includes scope team ≡ true
    → has_grant t team ≡ true
    → can_view_in_scope user scope t ≡ true
unfolding can_view_in_scope has_grant has_read_grant
scope_views user scope team t served granted = ground (
  arith,
  not_empty scope team served,
  includes-share (or_else t.access_grants []) scope team granted served,
)

Serves-views :
    (user : AuthUser) (team : String) (t : AccessTicket)
    → Serves user team
    → t.deleted_at ≡ none
    → has_grant t team ≡ true
    → can_view_ticket user t ≡ true
unfolding can_view_ticket
Serves-views user team t (inl admin) live granted = ground arith
Serves-views user team t (inr (plain, other, served)) live granted =
    ground (arith, scope_views user (operational_team_ids user) team t served granted)

-- After an accepted transfer of a stored, live ticket from one team to another, everybody who serves
-- the prior team still sees the stored ticket.
pub prior_team_still_views :
    (tables : SlaTables) (reject : Bool) (t : Ticket) (prior team : String)
    (assignee : Option String) (actor : String) (db : Db) {after : Db} (user : AuthUser)
    → find_ticket db t.id ≡ some t
    → t.assigned_team_id ≡ some prior
    → truthy prior ≡ true
    → prior ≢ team
    → t.deleted_at ≡ none
    → apply_team_transfer_in_tx tables reject t team assignee actor db ≡ ok after
    → Serves user prior
    → (row : Ticket) × (find_ticket after t.id ≡ some row)
      × (row.assigned_team_id ≡ some team)
      × (can_view_ticket user (with_grants after row) ≡ true)
unfolding with_grants has_grant
prior_team_still_views tables reject t prior team assignee actor db {after} user found at named
      other live h serves =
    let (_, row, kept, _) =
      transferred_effect tables reject t prior team assignee actor db found at named other h in
    (
      _,
      row,
      refl,
      Serves-views user prior _ serves live
          (includes-grants_of t.id prior after.ticket_access ∙ kept),
    )
