-- ===== src/Tickets.antt =====
-- apps/api/src/tickets/tickets.service.ts: the handlers that change a ticket. Each child holds one
-- group of them: status transitions, the guards of the handlers, assignment, transfer, removal,
-- priority, messages, creation, and the sequences of requests.
pub mod Status
pub mod Guards
pub mod Assignment
pub mod Transfer
pub mod Transition
pub mod Removal
pub mod Priority
pub mod Messages
pub mod Creation
pub mod Requests
pub mod Tests
