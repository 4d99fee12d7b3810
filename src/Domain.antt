-- ===== src/Domain.antt =====
-- The enumerations of apps/api/prisma/schema.prisma and the authenticated user of
-- apps/api/src/auth/current-user.decorator.ts, which every component shares.
use cursor_multi_agent.Prelude.{ℕ, String, ◌≡◌, Bool, true, false, Option, List, arith, eqb}

pub data UserRole : Type 0 where
  employee agent lead team_admin owner : UserRole

pub data TicketStatus : Type 0 where
  new triaged assigned in_progress waiting_on_requester waiting_on_vendor : TicketStatus
  resolved closed reopened : TicketStatus

pub data TicketCloseReason : Type 0 where
  requester_confirmed requester_cancelled agent_closed auto_closed : TicketCloseReason

-- The type of a `TicketMessage`.
pub data MessageType : Type 0 where
  public internal : MessageType

pub data TicketPriority : Type 0 where
  sev1 sev2 sev3 sev4 : TicketPriority

abbrev pub is_owner : UserRole → Bool
is_owner owner = true
is_owner _ = false

abbrev pub is_team_admin : UserRole → Bool
is_team_admin team_admin = true
is_team_admin _ = false

abbrev pub is_employee : UserRole → Bool
is_employee employee = true
is_employee _ = false

abbrev pub is_lead : UserRole → Bool
is_lead lead = true
is_lead _ = false

abbrev pub is_agent : UserRole → Bool
is_agent agent = true
is_agent _ = false

-- The position of a status in its enumeration, for `===` on statuses.
abbrev pub ordinal : TicketStatus → ℕ
ordinal new = 0
ordinal triaged = 1
ordinal assigned = 2
ordinal in_progress = 3
ordinal waiting_on_requester = 4
ordinal waiting_on_vendor = 5
ordinal resolved = 6
ordinal closed = 7
ordinal reopened = 8

abbrev pub same_status : TicketStatus → TicketStatus → Bool
same_status a b = eqb (ordinal a) (ordinal b)

pub eq_of_same_status : (a b : TicketStatus) → same_status a b ≡ true → a ≡ b
eq_of_same_status a b h = ground arith

pub same_status_refl : (a : TicketStatus) → same_status a a ≡ true
same_status_refl a = ground arith

-- The fields of `AuthUser` that the components read.
pub record AuthUser : Type 0 where
  pub id : String
  pub role : UserRole
  pub team_id : Option String
  pub primary_team_id : Option String
  pub member_team_ids : Option (List String)
