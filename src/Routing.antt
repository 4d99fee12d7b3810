-- ===== src/Routing.antt =====
-- The routing of new tickets in apps/api/src/tickets/tickets.service.ts: `routeTarget` and
-- `evaluateRoutingConditions` (`Rules`), and the turns of a team's members, `resolveAssignee`
-- (`RoundRobin`).
pub mod Rules
pub mod RoundRobin
mod Tests
