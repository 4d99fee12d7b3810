-- ===== src/Sla/Policy.antt =====
-- `getSlaConfig`, `addSlaHours` and `subtractSlaHours` of
-- apps/api/src/tickets/ticket-sla-calculation.service.ts, `resolveEffectivePolicyConfigId` of
-- apps/api/src/slas/sla-engine.service.ts and `DEFAULT_SLA_CONFIG` of
-- apps/api/src/common/config.utils.ts.
use cursor_multi_agent.Prelude.{
  ℕ, String, ◌+◌, ◌-◌, ◌*◌, ◌≡◌, Bool, true, Option, none, some, arith, truthy, present,
  if◌then◌else◌, not, Option-cases, inl, inr,
}
use cursor_multi_agent.Domain.{TicketPriority, sev1, sev2, sev3, sev4}

-- A row of the policy queries.
pub record PolicyRow : Type 0 where
  pub policy_config_id : String
  pub first_response_hours : ℕ
  pub resolution_hours : ℕ
  pub business_hours_only : Bool

pub record SlaConfig : Type 0 where
  pub policy_config_id : Option String
  pub first_response_hours : ℕ
  pub resolution_hours : ℕ
  pub business_hours_only : Bool

-- What the calculation reads of the policy tables and of the business calendars: the first row of the
-- query for a team, that of the query for the default, and the arithmetic on a team's calendar
-- (team, instant, hours).
pub record SlaTables : Type 0 where
  pub assigned_row : TicketPriority → String → Option PolicyRow
  pub default_row : TicketPriority → Option PolicyRow
  pub add_business_hours : Option String → ℕ → ℕ → ℕ
  pub subtract_business_hours : Option String → ℕ → ℕ → ℕ

abbrev pub hour_ms : ℕ
hour_ms = 3_600_000

default_first_response_hours : TicketPriority → ℕ
default_first_response_hours sev1 = 1
default_first_response_hours sev2 = 4
default_first_response_hours sev3 = 8
default_first_response_hours sev4 = 24

default_resolution_hours : TicketPriority → ℕ
default_resolution_hours sev1 = 4
default_resolution_hours sev2 = 24
default_resolution_hours sev3 = 72
default_resolution_hours sev4 = 168

unfoldable pub default_sla_config : TicketPriority → SlaConfig
unfolding default_first_response_hours default_resolution_hours
default_sla_config priority = record {
  policy_config_id = none;
  first_response_hours = default_first_response_hours priority;
  resolution_hours = default_resolution_hours priority;
  business_hours_only = true;
}

abbrev pub of_row : PolicyRow → SlaConfig
of_row r = record {
  policy_config_id = some r.policy_config_id;
  first_response_hours = r.first_response_hours;
  resolution_hours = r.resolution_hours;
  business_hours_only = r.business_hours_only;
}

module _ (tables : SlaTables) where
  -- The query for the team, made only if there is a team.
  unfoldable pub team_row : TicketPriority → Option String → Option PolicyRow
  team_row priority none = none
  team_row priority (some team) = if truthy team then tables.assigned_row priority team else none

  unfoldable pub get_sla_config : TicketPriority → Option String → SlaConfig
  get_sla_config priority team = elim (team_row priority team) [
    | some row ↦ of_row row
    | none ↦ elim (tables.default_row priority) [
      | some row ↦ of_row row
      | none ↦ default_sla_config priority
    ]
  ]

  abbrev row_id : Option PolicyRow → Option String
  row_id none = none
  row_id (some row) = some row.policy_config_id

  unfoldable pub resolve_effective_policy_config_id : TicketPriority → Option String → Option String
  resolve_effective_policy_config_id priority team =
      if present (row_id (team_row priority team))
      then row_id (team_row priority team)
      else row_id (tables.default_row priority)

  unfoldable pub add_sla_hours : ℕ → ℕ → Bool → Option String → ℕ
  add_sla_hours start hours business_hours_only team =
      if not business_hours_only
      then start + hours * hour_ms
      else tables.add_business_hours team start hours

  -- `addHours(endAt, -hours)`; instants before the epoch are outside the model.
  unfoldable pub subtract_sla_hours : ℕ → ℕ → Bool → Option String → ℕ
  subtract_sla_hours end_at hours business_hours_only team =
      if not business_hours_only
      then end_at - hours * hour_ms
      else tables.subtract_business_hours team end_at hours

  -- If the team's policy row, where the team has one, has a non-empty id, the policy that the
  -- engine links an instance to is the one whose hours the calculation uses, for every priority and
  -- team.
  pub policies_agree :
      (priority : TicketPriority) (team : Option String)
      → ((row : PolicyRow) → team_row priority team ≡ some row → truthy row.policy_config_id ≡ true)
      → resolve_effective_policy_config_id priority team
        ≡ (get_sla_config priority team).policy_config_id
  unfolding resolve_effective_policy_config_id get_sla_config default_sla_config
  policies_agree priority team named = elim (Option-cases (team_row priority team)) [
    | inl e ↦ ground arith
    | inr (row, e) ↦ ground (arith, named row e)
  ]
